-- ===== src/Worker/Stuffing.antt =====
-- The text of an article that is posted: headers, a blank line, and the body with dots stuffed.
use september.Base.{
  ℕ, ◌≡◌, refl, Bool, false, List, [], ◌∷◌, ◌++◌, ◌&&◌, map, ◌==◌, if◌then◌else◌, All, Bool-cases,
  inl, inr,
}
use september.Base.Text.{Text, codes, starts_with}

-- Adds `c` in front of the first line.
unfoldable pub before_first : ℕ → List Text → List Text
before_first c [] = (c ∷ []) ∷ []
before_first c (line ∷ lines) = (c ∷ line) ∷ lines

-- body.lines(): the text up to each "\n" or "\r\n"; an empty text has no line.
unfoldable pub lines : Text → List Text
unfolding before_first
lines [] = []
lines (c ∷ text) =
    let rest = lines text in
    if c == 10
    then [] ∷ rest
    else if c == 13 && starts_with text (10 ∷ [])
    then rest
    else before_first c rest

-- Dot-stuffing of one line.
unfoldable pub stuff : Text → Text
stuff line = if starts_with line (codes ".") then codes "." ++ line else line

unfoldable pub header_lines : List (Text × Text) → List Text
header_lines [] = []
header_lines ((name, value) ∷ headers) = (name ++ codes ": " ++ value) ∷ header_lines headers

-- article_lines.join("\r\n")
unfoldable pub join : List Text → Text
join [] = []
join (line ∷ []) = line
join (line ∷ next ∷ rest) = line ++ 13 ∷ 10 ∷ join (next ∷ rest)

unfoldable pub article_lines : List (Text × Text) → Text → List Text
unfolding header_lines
article_lines headers body = header_lines headers ++ [] ∷ map stuff (lines body)

unfoldable pub format_article : List (Text × Text) → Text → Text
unfolding join
format_article headers body = join (article_lines headers body)

-- What the receiver of the article does to a line: a dot in front is dropped.
abbrev pub unstuff : Text → Text
unstuff [] = []
unstuff (c ∷ line) = if c == 46 then line else c ∷ line

abbrev pub is_terminator : Text → Bool
is_terminator (c ∷ []) = c == 46
is_terminator _ = false

stuff_lem : (line : Text) → (unstuff (stuff line) ≡ line) × (is_terminator (stuff line) ≡ false)
unfolding stuff starts_with
stuff_lem [] = (refl, refl)
stuff_lem (c ∷ []) = elim (Bool-cases (c == 46)) [
  | inl dot ↦ (rw dot refl, rw dot refl)
  | inr other ↦ (rw (other, other) refl, rw (other, other) refl)
]
stuff_lem (c ∷ d ∷ line) = elim (Bool-cases (c == 46)) [
  | inl dot ↦ (rw dot refl, rw dot refl)
  | inr other ↦ (rw (other, other) refl, rw other refl)
]

stuffed_body :
    (body : List Text)
    → (map unstuff (map stuff body) ≡ body)
      × All (λ line. is_terminator line ≡ false) (map stuff body)
stuffed_body [] = (refl, tt)
stuffed_body (line ∷ body) =
    let (same, ends) = stuff_lem line in
    let (others, all) = stuffed_body body in (rw (same, others) refl, (ends, all))

-- The lines of the body as they are posted: no line is the single dot that ends an article, and a
-- receiver that drops a leading dot has the lines of the body again.
pub posted_body_roundtrip :
    (headers : List (Text × Text)) (body : Text)
    → (posted : List Text) × (article_lines headers body ≡ header_lines headers ++ [] ∷ posted)
      × (map unstuff posted ≡ lines body)
      × All (λ line. is_terminator line ≡ false) posted
unfolding article_lines
posted_body_roundtrip headers body =
    let (same, ends) = stuffed_body (lines body) in (map stuff (lines body), refl, same, ends)
