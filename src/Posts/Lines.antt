-- ===== src/Posts/Lines.antt =====
-- The lines of an article that src/routes/post.rs posts and src/nntp/worker.rs formats, as a server
-- reads them.
use september.Base.{
  ℕ, ◌≡◌, refl, ◌∙◌, ap, false, ◌&&◌, List, [], ◌∷◌, ◌++◌, map, arith, ◌==◌, Bool-cases, inl, inr,
  All, All-append,
}
use september.Base.Text.{Text, codes, starts_with}
use september.Worker.Stuffing.{
  before_first, lines, stuff, header_lines, join, article_lines, format_article,
}
use mathlib.Core.List.{append_assoc}

-- A text without a line feed.
abbrev pub IsOneLine : Text → Type 0
IsOneLine = All (λ c. (c == 10) ≡ false)

abbrev pub IsHeader : Text × Text → Type 0
IsHeader h = IsOneLine h.0 × IsOneLine h.1

not_line_feed :
    (c : ℕ) (line text : Text)
    → IsOneLine line
    → (c == 13 && starts_with (line ++ 13 ∷ 10 ∷ text) (10 ∷ [])) ≡ false
unfolding starts_with
not_line_feed c [] text h = ground arith
not_line_feed c (d ∷ line) text h = ground (arith, h.0)

lines-append :
    (line text : Text) → IsOneLine line → lines (line ++ 13 ∷ 10 ∷ text) ≡ line ∷ lines text
unfolding lines before_first starts_with
lines-append [] text h = refl
lines-append (c ∷ line) text h =
    rw (h.0, not_line_feed c line text h.1) (ap (before_first c) (lines-append line text h.1))

-- The lines of lines that were joined, with the end of the last.
lines-join :
    (line : Text) (rest : List Text)
    → All IsOneLine (line ∷ rest)
    → lines (join (line ∷ rest) ++ 13 ∷ 10 ∷ []) ≡ line ∷ rest
unfolding join lines
lines-join line [] h = lines-append line [] h.0
lines-join line (next ∷ rest) h =
    ap lines (append_assoc line (13 ∷ 10 ∷ join (next ∷ rest)) (13 ∷ 10 ∷ []))
    ∙ lines-append line (join (next ∷ rest) ++ 13 ∷ 10 ∷ []) h.0
    ∙ ap (λ l. line ∷ l) (lines-join next rest h.1)

before_first-IsOneLine :
    (c : ℕ) (ls : List Text)
    → (c == 10) ≡ false
    → All IsOneLine ls
    → All IsOneLine (before_first c ls)
unfolding before_first
before_first-IsOneLine c [] h a = ((h, tt), tt)
before_first-IsOneLine c (l ∷ ls) h a = ((h, a.0), a.1)

lines-IsOneLine : (s : Text) → All IsOneLine (lines s)
unfolding lines
lines-IsOneLine [] = tt
lines-IsOneLine (c ∷ s) = elim (Bool-cases (c == 10)) [
  | inl feed ↦ rw feed (tt, lines-IsOneLine s)
  | inr other ↦ elim (Bool-cases (c == 13 && starts_with s (10 ∷ []))) [
    | inl return ↦ rw (other, return) (lines-IsOneLine s)
    | inr text ↦ rw (other, text) (before_first-IsOneLine c (lines s) other (lines-IsOneLine s))
  ]
]

stuff-IsOneLine : (ls : List Text) → All IsOneLine ls → All IsOneLine (map stuff ls)
unfolding stuff
stuff-IsOneLine [] a = tt
stuff-IsOneLine (l ∷ ls) a = (one, stuff-IsOneLine ls a.1)
  where
    one : IsOneLine (stuff l)
    one = elim (Bool-cases (starts_with l (codes "."))) [
      | inl dot ↦ rw dot (refl, a.0)
      | inr other ↦ rw other (a.0)
    ]

header_lines-IsOneLine :
    (headers : List (Text × Text)) → All IsHeader headers → All IsOneLine (header_lines headers)
unfolding header_lines
header_lines-IsOneLine [] a = tt
header_lines-IsOneLine ((name, value) ∷ headers) a = (
  All-append (λ c. (c == 10) ≡ false) value a.0.1 (name ++ codes ": ")
      (All-append (λ c. (c == 10) ≡ false) (codes ": ") (refl, (refl, tt)) name a.0.0),
  header_lines-IsOneLine headers a.1,
)

-- When no name and no value of a header has a line feed, a server that splits the article into
-- lines sees exactly one line for each header, the blank line, and the stuffed lines of the body.
pub lines-format_article :
    (headers : List (Text × Text)) (body : Text)
    → All IsHeader headers
    → lines (format_article headers body ++ 13 ∷ 10 ∷ [])
      ≡ header_lines headers ++ [] ∷ map stuff (lines body)
unfolding format_article article_lines header_lines
lines-format_article [] body a = lines-join [] (map stuff (lines body)) (tt, stuffed)
  where
    stuffed : All IsOneLine (map stuff (lines body))
    stuffed = stuff-IsOneLine (lines body) (lines-IsOneLine body)
lines-format_article ((name, value) ∷ headers) body a =
    lines-join (name ++ codes ": " ++ value) (header_lines headers ++ [] ∷ map stuff (lines body)) (
      (header_lines-IsOneLine ((name, value) ∷ headers) a).0,
      All-append IsOneLine ([] ∷ map stuff (lines body))
          (tt, stuff-IsOneLine (lines body) (lines-IsOneLine body)) (header_lines headers)
          (header_lines-IsOneLine headers a.1),
    )
