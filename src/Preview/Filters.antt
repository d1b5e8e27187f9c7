-- ===== src/Preview/Filters.antt =====
-- The filters of src/templates.rs on text values. Its copies of is_quote_line, strip_block_quotes
-- and the relative time are those of src/nntp/mod.rs but for comments. `none` is a panic; an
-- argument that is missing is `none` as well.
use september.Base.{
  ℕ, ◌+◌, ◌≡◌, refl, sym, ◌∙◌, ap, Bool, false, ◌||◌, Option, none, some, List, [], ◌∷◌, ◌++◌,
  arith, ltb, leb, if◌then◌else◌, ◌>>=◌, length, take, drop, Bool-cases, Option-cases, inl, inr,
}
use september.Base.Text.{Text, codes}
use september.Worker.{text_words}
use september.Worker.Stuffing.{lines}
use september.Overview.Counts.{bind_inverse}
use september.Preview.{
  strip_block_quotes, join_lines, len, split_at, max_lines, hard_limit, find_newline, truncate,
  get_or_all, newline_after, cut_at_newline, extend, long_preview, compute_preview,
}
use september.Preview.Dates.{ℤ, compute_timeago}

-- value.unwrap_or(default)
abbrev pub unwrap_or : Option ℕ → ℕ → ℕ
unwrap_or none default = default
unwrap_or (some n) default = n

join_words : List Text → Text
join_words [] = []
join_words (word ∷ []) = word
join_words (word ∷ next ∷ words) = word ++ 32 ∷ join_words (next ∷ words)

-- DEFAULT_TRUNCATE_WORDS
abbrev pub default_words : ℕ
default_words = 50

unfoldable pub truncate_words_filter : Option ℕ → Text → Text
unfolding join_words
truncate_words_filter count s =
    let words = text_words s in
    let n = unwrap_or count default_words in
    if leb (length words) n then s else join_words (take n words) ++ codes "..."

unfoldable pub timeago_filter : (Text → Option ℤ) → Text → Text
timeago_filter elapsed date_str = compute_timeago elapsed date_str

-- stripped[LIMIT..].find('\n'), and the slices up to there.
unfoldable pub slice_at_newline : Text → Option ℕ → Option Text
slice_at_newline stripped (some pos) =
    split_at (hard_limit + pos) stripped >>= λ parts. some parts.0
slice_at_newline stripped none = split_at hard_limit stripped >>= λ parts. some parts.0

unfoldable pub over_lines : ℕ → List Text → Option Text
over_lines n ls = extend (join_lines (take n ls)) (drop n ls) >>= λ result.
    if ltb hard_limit (len result) then truncate hard_limit result else some result

unfoldable pub preview_filter : Option ℕ → Text → Option Text
preview_filter line_limit s =
    let n = unwrap_or line_limit max_lines in
    let stripped = strip_block_quotes s in
    let ls = lines stripped in
    if leb (length ls) n
    then (if leb (len stripped) hard_limit
        then some stripped
        else (split_at hard_limit stripped >>= λ parts.
            slice_at_newline stripped (find_newline parts.1)))
    else over_lines n ls

unfoldable pub has_more_lines_filter : Option ℕ → Text → Bool
has_more_lines_filter line_limit s =
    let stripped = strip_block_quotes s in
    ltb (unwrap_or line_limit max_lines) (length (lines stripped)) || ltb hard_limit (len stripped)

slice-cut :
    (stripped preview : Text) (parts : Text × Text)
    → split_at hard_limit stripped ≡ some parts
    → slice_at_newline stripped (find_newline parts.1) ≡ some preview
    → cut_at_newline stripped (newline_after (split_at hard_limit stripped)) ≡ some preview
unfolding slice_at_newline cut_at_newline get_or_all
slice-cut stripped preview parts e h = elim (Option-cases (find_newline parts.1)) [
  | inl nothing ↦ rw (e, nothing, e) (sym (rw (nothing, e) refl) ∙ h)
  | inr found ↦ rw (e, found.1) (sym (rw (found.1) refl) ∙ h)
]

-- With its default number of lines, wherever the preview filter of the templates returns a text,
-- compute_preview returns the same text, with the answer of the filter has_more_lines as its flag.
pub preview_filter-compute_preview :
    (body preview : Text)
    → preview_filter none body ≡ some preview
    → compute_preview body ≡ some (preview, has_more_lines_filter none body)
unfolding preview_filter has_more_lines_filter compute_preview over_lines long_preview
preview_filter-compute_preview body preview h =
    let stripped : Text = strip_block_quotes body in
    let ls : List Text = lines stripped in
    elim (Bool-cases (leb (length ls) max_lines)) [
      | inl few ↦ elim (Bool-cases (leb (len stripped) hard_limit)) [
        | inl short ↦
            let same : ◌≡◌ {A = Option Text} (some stripped) (some preview) =
              sym (rw (few, short) refl) ∙ h in
            let same_text : stripped ≡ preview = cc in
            let flag : (ltb max_lines (length ls) || ltb hard_limit (len stripped)) ≡ false =
              ground (arith, few, short) in
            rw (few, short, flag) (ap (λ t. some (t, false)) same_text)
        | inr long ↦
            let (parts, e, e') =
              bind_inverse (split_at hard_limit stripped)
                (λ p. slice_at_newline stripped (find_newline p.1)) preview
                (sym (rw (few, long) refl) ∙ h) in
            rw (few, long, slice-cut stripped preview parts e e') refl
      ]
      | inr many ↦
          let long : long_preview ls ≡ some preview = sym (rw many refl) ∙ h in rw (many, long) refl
    ]
