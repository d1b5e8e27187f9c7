-- ===== src/Preview/Examples.antt =====
-- The theorems about previews and relative dates of src/nntp/mod.rs at concrete texts, and tests.
use september.Base.{
  ◌≡◌, ◌<◌, ◌≤◌, ◌||◌, ltb, refl, Bool, true, false, Option, some, none, List, [], ◌∷◌, ◌++◌, arith,
  replicate, length,
}
use september.Base.Text.{
  Text, codes, decimal, starts_with, ends_with, contains, trim_start, all, is_whitespace,
  to_lowercase,
}
use september.Worker.Stuffing.{lines, before_first}
use september.Preview.{
  is_quote_line, is_blank_line, first_non_empty, skips_blank, skips, skip_start, drop_blank,
  skip_end, drop_blank_end, strip_lines, join_lines, strip_block_quotes, len, split_at, truncate,
  extend, long_preview, compute_preview, max_lines, hard_limit,
}
use september.Worker.{text_words, leading, keep_word}
use september.Preview.Filters.{
  preview_filter, has_more_lines_filter, truncate_words_filter, preview_filter-compute_preview,
}
use september.Preview.Content.{Stripped, strip_lines-Stripped}
use september.Preview.Limit.{compute_preview-Limited}
use september.Preview.Ascii.{compute_preview_total}
use september.Preview.Dates.{
  ℤ, pos, InUnits, ago, seconds_ago, elapsed_text, compute_timeago, compute_timeago-InUnits,
}

abbrev reply_lines : List Text
reply_lines =
    codes "On Monday, A wrote:" ∷ codes "> hello" ∷ [] ∷ codes "Hi." ∷ [] ∷ codes "> bye" ∷ []

strip_lines-Stripped_example : Stripped reply_lines (strip_lines reply_lines)
strip_lines-Stripped_example = strip_lines-Stripped reply_lines

strip_lines_test : strip_lines reply_lines ≡ codes "Hi." ∷ []
unfolding strip_lines skip_start drop_blank skip_end drop_blank_end skips skips_blank
    first_non_empty is_blank_line is_quote_line starts_with ends_with contains trim_start all
    is_whitespace to_lowercase
strip_lines_test = refl

abbrev body : Text
body = codes "Hello"

body-preview : compute_preview body ≡ some (codes "Hello", false)
unfolding compute_preview strip_block_quotes lines before_first join_lines strip_lines skip_start
    drop_blank skip_end drop_blank_end skips skips_blank first_non_empty is_blank_line is_quote_line
    starts_with ends_with contains trim_start all is_whitespace to_lowercase
body-preview = refl

-- Eleven short lines without a blank one: the preview is the whole text, and the flag says more.
abbrev eleven_lines : Text
eleven_lines = join_lines (replicate 11 (codes "a"))

whole_with_flag : compute_preview eleven_lines ≡ some (eleven_lines, true)
unfolding compute_preview strip_block_quotes lines before_first join_lines strip_lines skip_start
    drop_blank skip_end drop_blank_end skips skips_blank first_non_empty is_blank_line is_quote_line
    starts_with ends_with contains trim_start all is_whitespace to_lowercase long_preview extend len
whole_with_flag = refl

compute_preview-Limited_example :
    (false ≡ (
      ltb max_lines (length (lines (strip_block_quotes body)))
      || ltb hard_limit (len (strip_block_quotes body))))
    × (false ≡ false → codes "Hello" ≡ strip_block_quotes body)
    × (max_lines < length (lines (strip_block_quotes body)) → len (codes "Hello") ≤ hard_limit)
compute_preview-Limited_example = compute_preview-Limited body (codes "Hello") false body-preview

compute_preview_total_example : (r : Text × Bool) × (compute_preview body ≡ some r)
compute_preview_total_example = compute_preview_total body (ground arith)

abbrev two_hours_ago : Text → Option ℤ
two_hours_ago date_str = some (pos 7300)

compute_timeago-InUnits_example : InUnits 7300 (compute_timeago two_hours_ago (codes "today"))
compute_timeago-InUnits_example =
    compute_timeago-InUnits two_hours_ago (codes "today") 7300 refl (ground arith)

timeago_test : compute_timeago two_hours_ago [] ≡ codes "2 hours ago"
unfolding compute_timeago elapsed_text seconds_ago ago decimal
timeago_test = refl

-- A long line with a character of two bytes at the limit, and ten lines below it: the cut panics.
abbrev boundary_lines : List Text
boundary_lines = (replicate 1023 97 ++ 233 ∷ []) ∷ replicate 10 (codes "a")

panic_test : compute_preview (join_lines boundary_lines) ≡ none
unfolding compute_preview strip_block_quotes lines before_first join_lines strip_lines skip_start
    drop_blank skip_end drop_blank_end skips skips_blank first_non_empty is_blank_line is_quote_line
    starts_with ends_with contains trim_start all is_whitespace to_lowercase long_preview extend
    truncate split_at
panic_test = refl

hello-filtered : preview_filter none body ≡ some (codes "Hello")
unfolding preview_filter strip_block_quotes lines before_first join_lines strip_lines skip_start
    drop_blank skip_end drop_blank_end skips skips_blank first_non_empty is_blank_line is_quote_line
    starts_with ends_with contains trim_start all is_whitespace to_lowercase
hello-filtered = refl

preview_filter-compute_preview_example :
    compute_preview body ≡ some (codes "Hello", has_more_lines_filter none body)
preview_filter-compute_preview_example =
    preview_filter-compute_preview body (codes "Hello") hello-filtered

truncate_words_test : truncate_words_filter (some 2) (codes "one two three") ≡ codes "one two..."
unfolding truncate_words_filter text_words leading keep_word is_whitespace
truncate_words_test = refl
