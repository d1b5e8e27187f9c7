-- ===== src/Preview/Content.antt =====
-- strip_block_quotes of src/nntp/mod.rs: the lines that are left, and what was around them.
use september.Base.{
  ℕ, ◌-◌, ◌≤◌, ◌≡◌, ◌⊎◌, inl, inr, refl, sym, ◌∙◌, ap, Option, some, List, [], ◌∷◌, ◌++◌, arith,
  length, length-append, take, drop, All, All-append,
}
use september.Base.Text.{Text}
use september.Preview.{
  is_quote_line, first_non_empty, skip_start, drop_blank, skip_end, drop_blank_end, strip_lines,
}
use september.Preview.Strip.{
  IsSkippable, IsContent, first, Stops, Stops-skip_start, skip_start-split, drop_blank-split,
  first-drop_blank, first_non_empty_text, Dropped, Dropped-both, skip_end-Dropped,
  drop_blank_end-Dropped, split-append,
}
use mathlib.Core.List.{reverse, reverse-cons, reverse-append, reverse-reverse, append_assoc}

-- The kept lines are a block of the lines; what is around them are quotes and blank lines, and the
-- block starts and ends with a line that is neither.
pub record Stripped (all_lines kept : List Text) : Type 0 where
  pub before : List Text
  pub after : List Text
  pub split : all_lines ≡ before ++ (kept ++ after)
  pub before_skippable : All IsSkippable before
  pub after_skippable : All IsSkippable after
  pub starts : (line : Text) → first kept ≡ some line → IsContent line
  pub ends : (line : Text) → first (reverse kept) ≡ some line → IsContent line

length-reverse : (ls : List Text) → length (reverse ls) ≡ length ls
length-reverse [] = refl
length-reverse (l ∷ ls) =
    rw (reverse-cons l ls) (omega (arith, length-append (reverse ls) (l ∷ []), length-reverse ls))

drop-append : (xs ys : List Text) (k : ℕ) → k ≡ length xs → drop k (xs ++ ys) ≡ ys
drop-append [] ys k e = rw e refl
drop-append (x ∷ xs) ys k e = rw e (drop-append xs ys (length xs) refl)

take-append : (xs ys : List Text) (k : ℕ) → k ≡ length xs → take k (xs ++ ys) ≡ xs
take-append [] ys k e = rw e refl
take-append (x ∷ xs) ys k e = rw e (ap (λ l. x ∷ l) (take-append xs ys (length xs) refl))

All-reverse : (ls : List Text) → All IsSkippable ls → All IsSkippable (reverse ls)
All-reverse [] h = tt
All-reverse (l ∷ ls) h =
    rw (reverse-cons l ls)
      (All-append IsSkippable (l ∷ []) (h.0, tt) (reverse ls) (All-reverse ls h.1))

first-append :
    (xs ys : List Text) (line : Text) → first xs ≡ some line → first (xs ++ ys) ≡ some line
first-append [] ys line h = absurd cc
first-append (x ∷ xs) ys line h = h

Stops-IsContent :
    (ls : List Text) (line : Text) → Stops ls → first_non_empty ls ≡ some line → IsContent line
Stops-IsContent ls line stops h = elim stops [
  | inl nothing ↦ absurd (ground (arith, nothing))
  | inr found ↦
      let same : ◌≡◌ {A = Option Text} (some found.0) (some line) = sym found.1 ∙ h in
      let same_line : found.0 ≡ line = cc in
      (ap is_quote_line (sym same_line) ∙ found.2, first_non_empty_text ls line h)
]

module _ (all_lines before from_start : List Text) (parts : all_lines ≡ before ++ from_start) where
  n : ℕ
  n = skip_end (length from_start) (reverse all_lines)

  reversed : reverse all_lines ≡ reverse from_start ++ reverse before
  reversed = ap reverse parts ∙ reverse-append before from_start

  bound : length from_start ≤ length (reverse all_lines)
  bound = omega (
    arith,
    ap length reversed,
    length-append (reverse from_start) (reverse before),
    length-reverse from_start,
  )

  -- What is left from the start, when the lines at the end are dropped.
  record Cut : Type 0 where
    m : ℕ
    computed : drop_blank_end n (drop (length from_start - n) (reverse all_lines)) ≡ m
    kept : List Text
    dropped : List Text
    whole : from_start ≡ reverse kept ++ reverse dropped
    size : length kept ≡ m
    skippable : All IsSkippable dropped
    ends : (line : Text) → first kept ≡ some line → IsContent line

  cut : Cut
  unfolding n reversed
  cut =
      let (d, stop) = skip_end-Dropped (length from_start) (reverse all_lines) bound in
      let rest_is : drop (length from_start - n) (reverse all_lines) ≡ d.rest =
        ap (drop (length from_start - n)) d.split
        ∙ drop-append d.dropped d.rest _ (omega (arith, d.size)) in
      let long_enough : n ≤ length d.rest =
        omega (arith, d.size, bound, ap length d.split, length-append d.dropped d.rest) in
      let (d', stop') = drop_blank_end-Dropped n d.rest long_enough in
      let both =
        Dropped-both (length from_start) n (drop_blank_end n d.rest) (reverse all_lines) d d' in
      let (kept, whole, size, rest) =
        split-append (reverse from_start) (reverse before) both.dropped d'.rest
          (drop_blank_end n d.rest) (sym reversed ∙ both.split)
          (omega (arith, both.size, length-reverse from_start)) in
      record {
        m = drop_blank_end n d.rest;
        computed = ap (drop_blank_end n) rest_is;
        kept = kept;
        dropped = both.dropped;
        whole =
            sym (reverse-reverse from_start) ∙ ap reverse whole ∙ reverse-append both.dropped kept;
        size = size;
        skippable = both.skippable;
        ends = λ line h. ends_at d d' stop stop' kept size rest line h;
      }
    where
      ends_at :
          (d : Dropped (length from_start) n (reverse all_lines))
          (d' : Dropped n (drop_blank_end n d.rest) d.rest)
          → ((n ≡ 0) ⊎ Stops d.rest)
          → ((drop_blank_end n d.rest ≡ 0) ⊎ (first d'.rest ≡ first_non_empty d.rest))
          → (kept : List Text) → length kept ≡ drop_blank_end n d.rest
          → d'.rest ≡ kept ++ reverse before
          → (line : Text) → first kept ≡ some line
          → IsContent line
      ends_at d d' stop stop' [] size rest line h = absurd cc
      ends_at d d' stop stop' (k ∷ kept) size rest line h = elim stop' [
        | inl nothing ↦ absurd (omega (arith, size, nothing))
        | inr found ↦ elim stop [
          | inl none_left ↦ absurd (omega (arith, size, none_left, d'.size))
          | inr stops ↦ Stops-IsContent d.rest line stops (sym found ∙ ap first rest ∙ h)
        ]
      ]

-- strip_block_quotes leaves a block of the body's lines. All lines before and after the block are
-- quotes or blank, and the block, when it is not empty, starts and ends with a line that is
-- neither.
pub strip_lines-Stripped : (all_lines : List Text) → Stripped all_lines (strip_lines all_lines)
unfolding strip_lines n
strip_lines-Stripped all_lines =
    let (before_quote, start, skipped) = skip_start-split all_lines in
    let (blanks, start', blank) = drop_blank-split (skip_start all_lines) in
    let from_start : List Text = drop_blank (skip_start all_lines) in
    let whole : all_lines ≡ (before_quote ++ blanks) ++ from_start =
      start
      ∙ ap (λ l. before_quote ++ l) start'
      ∙ sym (append_assoc before_quote blanks from_start) in
    let c = cut all_lines (before_quote ++ blanks) from_start whole in
    let kept_is : strip_lines all_lines ≡ reverse c.kept =
      ap (λ k. take k from_start) c.computed
      ∙ ap (take c.m) c.whole
      ∙ take-append (reverse c.kept) (reverse c.dropped) c.m
          (omega (arith, c.size, length-reverse c.kept)) in
    rw kept_is (record {
      before = before_quote ++ blanks;
      after = reverse c.dropped;
      split = whole ∙ ap (λ l. (before_quote ++ blanks) ++ l) c.whole;
      before_skippable = All-append IsSkippable blanks blank before_quote skipped;
      after_skippable = All-reverse c.dropped c.skippable;
      starts = λ line h. Stops-IsContent (skip_start all_lines) line (Stops-skip_start all_lines) (
          sym (first-drop_blank (skip_start all_lines))
          ∙ ap first c.whole
          ∙ first-append (reverse c.kept) (reverse c.dropped) line h);
      ends = λ line h. c.ends line (ap first (sym (reverse-reverse c.kept)) ∙ h);
    })
