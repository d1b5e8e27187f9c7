-- ===== src/Preview.antt =====
-- The previews of article bodies and the relative dates of src/nntp/mod.rs: is_quote_line,
-- strip_block_quotes, compute_preview and compute_timeago. A text is a list of code points, and
-- `len` is its length in bytes of UTF-8. `none` is a panic.
pub mod Strip
pub mod Content
pub mod Limit
pub mod Ascii
pub mod Dates
pub mod Filters
mod Examples
use september.Base.{
  ℕ, zero, suc, ◌+◌, ◌-◌, Bool, true, false, ◌&&◌, ◌||◌, Option, none, some, List, [], ◌∷◌, ◌++◌,
  ltb, leb, ◌==◌, if◌then◌else◌, ◌>>=◌, length, take, drop,
}
use september.Base.Text.{
  Text, codes, starts_with, ends_with, contains, trim_start, all, is_whitespace, to_lowercase,
}
use september.Worker.Stuffing.{lines}
use mathlib.Core.List.{reverse}

ends_as_attribution : Text → Bool
ends_as_attribution trimmed =
    let lower = to_lowercase trimmed in
    ends_with lower (codes " wrote:")
    || ends_with lower (codes " writes:")
    || ends_with lower (codes " said:")
    || ends_with lower (codes " says:")

unfoldable pub is_quote_line : Text → Bool
unfolding ends_as_attribution
is_quote_line line =
    let trimmed = trim_start line in
    starts_with trimmed (codes ">")
    || (starts_with trimmed (codes "On ")
        && ends_with trimmed (codes ":")
        && ends_as_attribution trimmed)
    || (ends_with trimmed (codes ":")
        && contains trimmed (codes "<")
        && contains trimmed (codes ">")
        && ends_as_attribution trimmed)

-- line.trim().is_empty()
unfoldable pub is_blank_line : Text → Bool
is_blank_line line = all is_whitespace line

-- iter().position(|l| !l.trim().is_empty()), as the line at that position.
unfoldable pub first_non_empty : List Text → Option Text
first_non_empty [] = none
first_non_empty (line ∷ rest) =
    let later = first_non_empty rest in if is_blank_line line then later else some line

unfoldable pub skips_blank : Option Text → Bool
skips_blank none = true
skips_blank (some line) = is_quote_line line

-- The test of both loops: the line is skipped. `further` are the lines behind it, from the near
-- ones.
unfoldable pub skips : Text → List Text → Bool
skips line further =
    if is_quote_line line || is_blank_line line
    then (if is_blank_line line then skips_blank (first_non_empty further) else true)
    else false

-- The loop for the first line that is not a quote: the lines from there on.
unfoldable pub skip_start : List Text → List Text
skip_start [] = []
skip_start (line ∷ rest) =
    let later = skip_start rest in if skips line rest then later else line ∷ rest

unfoldable pub drop_blank : List Text → List Text
drop_blank [] = []
drop_blank (line ∷ rest) =
    let later = drop_blank rest in if is_blank_line line then later else line ∷ rest

-- The loops from the end: `n` is end - start, and the lines before the end stand in reverse order.
unfoldable pub skip_end : ℕ → List Text → ℕ
skip_end zero before_end = zero
skip_end (suc n) [] = suc n
skip_end (suc n) (line ∷ before_end) =
    let later = skip_end n before_end in if skips line before_end then later else suc n

unfoldable pub drop_blank_end : ℕ → List Text → ℕ
drop_blank_end zero before_end = zero
drop_blank_end (suc n) [] = suc n
drop_blank_end (suc n) (line ∷ before_end) =
    let later = drop_blank_end n before_end in if is_blank_line line then later else suc n

-- lines[start..end]
unfoldable pub strip_lines : List Text → List Text
strip_lines all_lines =
    let from_start = drop_blank (skip_start all_lines) in
    let n = skip_end (length from_start) (reverse all_lines) in
    take (drop_blank_end n (drop (length from_start - n) (reverse all_lines))) from_start

-- lines.join("\n")
unfoldable pub join_lines : List Text → Text
join_lines [] = []
join_lines (line ∷ []) = line
join_lines (line ∷ next ∷ rest) = line ++ 10 ∷ join_lines (next ∷ rest)

unfoldable pub strip_block_quotes : Text → Text
strip_block_quotes s = join_lines (strip_lines (lines s))

-- char::len_utf8 and str::len
abbrev pub len_utf8 : ℕ → ℕ
len_utf8 c = if ltb c 128 then 1 else if ltb c 2048 then 2 else if ltb c 65536 then 3 else 4

abbrev pub len : Text → ℕ
len [] = 0
len (c ∷ s) = len_utf8 c + len s

-- The text before and after n bytes; `none` when n is no boundary of a character.
unfoldable pub split_at : ℕ → Text → Option (Text × Text)
split_at zero s = some ([], s)
split_at (suc n) [] = none
split_at (suc n) (c ∷ s) = elim (leb (len_utf8 c) (suc n)) [
  | true ↦ split_at (suc n - len_utf8 c) s >>= λ parts. some (c ∷ parts.0, parts.1)
  | false ↦ none
]

-- DEFAULT_PREVIEW_LINES and PREVIEW_HARD_LIMIT
abbrev pub max_lines : ℕ
max_lines = 10

abbrev pub hard_limit : ℕ
hard_limit = 1024

-- s.find('\n')
unfoldable pub find_newline : Text → Option ℕ
find_newline [] = none
find_newline (c ∷ s) =
    let later = find_newline s in
    if c == 10 then some 0 else (later >>= λ pos. some (len_utf8 c + pos))

-- String::truncate
unfoldable pub truncate : ℕ → Text → Option Text
truncate n s = if leb n (len s) then (split_at n s >>= λ parts. some parts.0) else some s

-- s.get(..n).unwrap_or(&s)
unfoldable pub get_or_all : Text → Option (Text × Text) → Text
get_or_all s none = s
get_or_all s (some (before, after)) = before

-- stripped.get(n..).and_then(|s| s.find('\n'))
abbrev pub newline_after : Option (Text × Text) → Option ℕ
newline_after none = none
newline_after (some (before, after)) = find_newline after

-- Few lines that are too long together.
unfoldable pub cut_at_newline : Text → Option ℕ → Option Text
unfolding get_or_all
cut_at_newline stripped (some pos) = split_at (hard_limit + pos) stripped >>= λ parts. some parts.0
cut_at_newline stripped none = some (get_or_all stripped (split_at hard_limit stripped))

-- The loop to the next paragraph break.
unfoldable pub extend : Text → List Text → Option Text
extend result [] = some result
extend result (line ∷ rest) = elim (is_blank_line line) [
  | true ↦ some result
  | false ↦ elim (leb hard_limit (len (result ++ 10 ∷ line))) [
    | true ↦ truncate hard_limit (result ++ 10 ∷ line)
    | false ↦ extend (result ++ 10 ∷ line) rest
  ]
]

unfoldable pub long_preview : List Text → Option Text
long_preview ls = extend (join_lines (take max_lines ls)) (drop max_lines ls) >>= λ result.
    if ltb hard_limit (len result) then truncate hard_limit result else some result

unfoldable pub compute_preview : Text → Option (Text × Bool)
compute_preview body =
    let stripped = strip_block_quotes body in
    let ls = lines stripped in
    if leb (length ls) max_lines && leb (len stripped) hard_limit
    then some (stripped, false)
    else ((if leb (length ls) max_lines
          then cut_at_newline stripped (newline_after (split_at hard_limit stripped))
          else long_preview ls)
        >>= λ preview. some (preview, ltb max_lines (length ls) || ltb hard_limit (len stripped)))
