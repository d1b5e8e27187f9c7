-- ===== src/Overview/Words.antt =====
-- The words of a References header: str::split_whitespace, and the identifiers read from it.
use Prim.Native.Char.{code}
use september.Base.{
  Bool, true, false, ◌&&◌, Option, none, some, List, [], ◌∷◌, String, if◌then◌else◌,
}
use september.Base.Text.{is_whitespace}

is_empty : String → Bool
is_empty String.[] = true
is_empty (String.◌∷◌ c s) = false

keep_word : String → List String → List String
keep_word word words = if is_empty word then words else word ∷ words

-- The word that a text starts with, which may be empty, and the words after it.
leading : String → String × List String
leading String.[] = (String.[], [])
leading (String.◌∷◌ c s) =
    let (word, words) = leading s in
    if is_whitespace (code c) then (String.[], keep_word word words) else (String.◌∷◌ c word, words)

unfoldable pub split_whitespace : String → List String
unfolding leading keep_word is_empty
split_whitespace s = let (word, words) = leading s in keep_word word words

-- s.trim().is_empty()
unfoldable pub is_blank : String → Bool
is_blank String.[] = true
is_blank (String.◌∷◌ c s) = is_whitespace (code c) && is_blank s

-- words.next().unwrap_or(otherwise)
abbrev pub first_or : String → List String → String
first_or otherwise [] = otherwise
first_or otherwise (word ∷ words) = word

-- words.last()
abbrev pub last : List String → Option String
last [] = none
last (word ∷ []) = some word
last (word ∷ w ∷ words) = last (w ∷ words)

unfoldable pub root_id : Option String → String → String
root_id none msg_id = msg_id
root_id (some refs) msg_id =
    if is_blank refs then msg_id else first_or msg_id (split_whitespace refs)

unfoldable pub direct_parent : Option String → Option String
direct_parent none = none
direct_parent (some refs) = if is_blank refs then none else last (split_whitespace refs)

-- The references of a new article, none for one without the header.
unfoldable pub ref_ids : Option String → List String
ref_ids none = []
ref_ids (some refs) = split_whitespace refs
