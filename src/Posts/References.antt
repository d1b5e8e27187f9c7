-- ===== src/Posts/References.antt =====
-- The references of a reply in src/routes/post.rs: what the header names is what the cache is told.
use september.Base.{
  ℕ, ◌≡◌, refl, sym, ◌∙◌, ap, true, List, [], ◌∷◌, ◌++◌, arith, Bool-cases, inl, inr, All,
  All-append,
}
use september.Base.Text.{Text, codes, is_whitespace, trim, trim_start, trim_end, is_empty}
use september.Worker.{text_words, leading, keep_word}
use september.Posts.{reply_references, reply_root, first_word}
use mathlib.Core.List.{
  reverse, reverse-append, reverse-reverse, reverse-cons, append_assoc, append-nil,
}

abbrev IsSpace : Text → Type 0
IsSpace = All (λ c. is_whitespace c ≡ true)

keep_word-append :
    (word : Text) (words more : List Text)
    → keep_word word (words ++ more) ≡ keep_word word words ++ more
unfolding keep_word
keep_word-append [] words more = refl
keep_word-append (c ∷ word) words more = refl

leading-append :
    (a b : Text) (c : ℕ)
    → is_whitespace c ≡ true
    → leading (a ++ c ∷ b) ≡ ((leading a).0, (leading a).1 ++ text_words b)
unfolding leading text_words
leading-append [] b c space = rw space refl
leading-append (d ∷ a) b c space = elim (Bool-cases (is_whitespace d)) [
  | inl white ↦
      rw (white, leading-append a b c space)
        (ap (λ l. ([], l)) (keep_word-append (leading a).0 (leading a).1 (text_words b)))
  | inr text ↦ rw (text, leading-append a b c space) refl
]

words-append :
    (a b : Text) (c : ℕ)
    → is_whitespace c ≡ true
    → text_words (a ++ c ∷ b) ≡ text_words a ++ text_words b
unfolding text_words
words-append a b c space =
    ap (λ l. keep_word l.0 l.1) (leading-append a b c space)
    ∙ keep_word-append (leading a).0 (leading a).1 (text_words b)

words-space : (s : Text) → IsSpace s → text_words s ≡ []
unfolding text_words leading keep_word
words-space [] h = refl
words-space (c ∷ s) h = rw (h.0) (words-space s h.1)

words-append_space : (a s : Text) → IsSpace s → text_words (a ++ s) ≡ text_words a
words-append_space a [] h = ap text_words (append-nil a)
words-append_space a (c ∷ s) h =
    words-append a s c h.0
    ∙ ap (λ l. text_words a ++ l) (words-space s h.1)
    ∙ append-nil (text_words a)

-- A text is white space and the text without it.
trim_start-split : (s : Text) → (white : Text) × IsSpace white × (s ≡ white ++ trim_start s)
unfolding trim_start
trim_start-split [] = ([], tt, refl)
trim_start-split (c ∷ s) = elim (Bool-cases (is_whitespace c)) [
  | inl space ↦
      let (white, all, e) = trim_start-split s in
      rw space (c ∷ white, (space, all), ap (λ l. c ∷ l) e)
  | inr text ↦ rw text ([], tt, refl)
]

words-space_first : (white s : Text) → IsSpace white → text_words (white ++ s) ≡ text_words s
unfolding text_words leading keep_word
words-space_first [] s h = refl
words-space_first (c ∷ white) s h = rw (h.0) (words-space_first white s h.1)

words-trim_start : (s : Text) → text_words (trim_start s) ≡ text_words s
words-trim_start s =
    let (white, space, e) = trim_start-split s in
    sym (words-space_first white (trim_start s) space) ∙ ap text_words (sym e)

IsSpace-reverse : (s : Text) → IsSpace s → IsSpace (reverse s)
IsSpace-reverse [] h = tt
IsSpace-reverse (c ∷ s) h = rw (reverse-cons c s) (
    All-append (λ c. is_whitespace c ≡ true) (c ∷ []) (h.0, tt) (reverse s) (IsSpace-reverse s h.1))

words-trim_end : (s : Text) → text_words (trim_end s) ≡ text_words s
unfolding trim_end
words-trim_end s =
    let (white, space, e) = trim_start-split (reverse s) in
    let whole : s ≡ reverse (trim_start (reverse s)) ++ reverse white =
      sym (reverse-reverse s) ∙ ap reverse e ∙ reverse-append white (trim_start (reverse s)) in
    sym (
      words-append_space (reverse (trim_start (reverse s))) (reverse white)
        (IsSpace-reverse white space))
    ∙ ap text_words (sym whole)

words-trim : (s : Text) → text_words (trim s) ≡ text_words s
unfolding trim
words-trim s = words-trim_end (trim_start s) ∙ words-trim_start s

no_words : (s : Text) → is_empty (trim s) ≡ true → text_words s ≡ []
unfolding is_empty text_words leading keep_word
no_words s h = sym (words-trim s) ∙ empty (trim s) h
  where
    empty : (t : Text) → is_empty t ≡ true → text_words t ≡ []
    empty [] e = refl
    empty (c ∷ t) e = absurd (ground arith)

first_word-append :
    (otherwise : Text) (words : List Text)
    → first_word otherwise (words ++ otherwise ∷ []) ≡ first_word otherwise words
first_word-append otherwise [] = refl
first_word-append otherwise (w ∷ words) = refl

-- The References header of a reply names the identifiers of the form's references and then the
-- parent; so its last identifier, the direct parent, is the parent that the cache is told, and its
-- first is the root that the cache is told. The parent's identifier is one word.
pub reply_references_lem :
    (references message_id : Text)
    → text_words message_id ≡ message_id ∷ []
    → (text_words (reply_references references message_id)
        ≡ text_words references ++ message_id ∷ [])
      × (first_word message_id (text_words (reply_references references message_id))
          ≡ reply_root references message_id)
unfolding reply_references reply_root is_whitespace
reply_references_lem references message_id one = elim (Bool-cases (is_empty (trim references))) [
  | inl none_given ↦
      let nothing = no_words references none_given in
      rw none_given
        (one ∙ ap (λ l. l ++ message_id ∷ []) (sym nothing), ap (first_word message_id) one)
  | inr given ↦
      let all : text_words (trim references ++ codes " " ++ message_id)
          ≡ text_words references ++ message_id ∷ [] =
        ap text_words (append_assoc (trim references) (codes " ") message_id)
        ∙ words-append (trim references) message_id 32 refl
        ∙ rw (words-trim references, one) refl in
      rw given
        (all, ap (first_word message_id) all ∙ first_word-append message_id (text_words references))
]
