-- ===== src/Newsgroups/Segments.antt =====
-- The segments of a dotted name, name.split('.') in src/nntp/mod.rs: names with the same segments
-- are equal.
use Prim.Native.Char.{Char, code}
use text.Mathlib.TextEquality.{Char-path}
use september.Base.{
  ◌≡◌, refl, sym, ◌∙◌, ap, Bool, true, false, List, [], ◌∷◌, String, str_eq, eq_iff, str_eq_refl,
  inl, inr, arith, ◌==◌, if◌then◌else◌, Bool-cases,
}
use september.Newsgroups.{push_char, split_dots}

-- The segments joined with dots again.
join_dots : List String → String
join_dots [] = String.[]
join_dots (s ∷ []) = s
join_dots (String.[] ∷ r ∷ parts) = String.◌∷◌ "." (join_dots (r ∷ parts))
join_dots (String.◌∷◌ c s ∷ r ∷ parts) = String.◌∷◌ c (join_dots (s ∷ r ∷ parts))

join-push_char :
    (c : Char) (s : String) (parts : List String)
    → join_dots (push_char c (s ∷ parts)) ≡ String.◌∷◌ c (join_dots (s ∷ parts))
unfolding join_dots
join-push_char c s [] = refl
join-push_char c s (r ∷ parts) = refl

pub split_cons :
    (s : String) → (first : String) × (later : List String) × (split_dots s ≡ first ∷ later)
unfolding split_dots
split_cons String.[] = (String.[], [], refl)
split_cons (String.◌∷◌ c s) =
    let (first, later, e) = split_cons s in
    elim (Bool-cases (code c == 46)) [
      | inl dot ↦ (String.[], first ∷ later, rw (dot, e) refl)
      | inr other ↦ (String.◌∷◌ c first, later, rw (other, e) refl)
    ]

join-split : (s : String) → join_dots (split_dots s) ≡ s
unfolding join_dots split_dots
join-split String.[] = refl
join-split (String.◌∷◌ c s) =
    let (first, later, e) = split_cons s in
    let rest : join_dots (first ∷ later) ≡ s = ap join_dots (sym e) ∙ join-split s in
    elim (Bool-cases (code c == 46)) [
      | inl dot ↦
          let is_dot : c ≡ "." = Char-path c "." (ground (arith, dot)) in
          rw (dot, e) (rw is_dot (ap (String.◌∷◌ ".") rest))
      | inr other ↦ rw (other, e) (join-push_char c first later ∙ ap (String.◌∷◌ c) rest)
    ]

unfoldable pub segments_eq : List String → List String → Bool
segments_eq [] [] = true
segments_eq (s ∷ ss) (t ∷ ts) = if str_eq s t then segments_eq ss ts else false
segments_eq [] (t ∷ ts) = false
segments_eq (s ∷ ss) [] = false

segments_eq_sound : (ss ts : List String) → segments_eq ss ts ≡ true → ss ≡ ts
unfolding segments_eq
segments_eq_sound [] [] h = refl
segments_eq_sound [] (t ∷ ts) h = absurd (ground arith)
segments_eq_sound (s ∷ ss) [] h = absurd (ground arith)
segments_eq_sound (s ∷ ss) (t ∷ ts) h =
    let both : (str_eq s t ≡ true) × (segments_eq ss ts ≡ true) = ground arith in
    rw ((eq_iff s t).0 both.0, segments_eq_sound ss ts both.1) refl

segments_eq_refl : (ss : List String) → segments_eq ss ss ≡ true
unfolding segments_eq
segments_eq_refl [] = refl
segments_eq_refl (s ∷ ss) = rw (str_eq_refl s) (segments_eq_refl ss)

-- Two names have the same segments just when they are equal.
pub segments_eq-split : (s t : String) → segments_eq (split_dots s) (split_dots t) ≡ str_eq s t
segments_eq-split s t = elim (Bool-cases (str_eq s t)) [
  | inl same ↦ rw same (rw ((eq_iff s t).0 same) (segments_eq_refl (split_dots t)))
  | inr other ↦ elim (Bool-cases (segments_eq (split_dots s) (split_dots t))) [
    | inl same ↦
        let equal : s ≡ t =
          sym (join-split s) ∙ ap join_dots (segments_eq_sound _ _ same) ∙ join-split t in
        absurd (ground (arith, other, (eq_iff s t).1 equal))
    | inr differ ↦ differ ∙ sym other
  ]
]
