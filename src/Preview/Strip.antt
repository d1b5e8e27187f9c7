-- ===== src/Preview/Strip.antt =====
-- strip_block_quotes of src/nntp/mod.rs: which lines are left of a body.
use september.Base.{
  ℕ, zero, suc, ◌+◌, ◌≤◌, ◌≡◌, ◌⊎◌, inl, inr, refl, sym, ◌∙◌, ap, true, false, ◌||◌, Option, none,
  some, List, [], ◌∷◌, ◌++◌, arith, Bool-cases, Option-cases, length, length-append, All,
  All-append,
}
use september.Base.Text.{Text}
use september.Preview.{
  is_quote_line, is_blank_line, first_non_empty, skips_blank, skips, skip_start, drop_blank,
  skip_end, drop_blank_end,
}
use mathlib.Core.List.{append_assoc}

abbrev pub IsSkippable : Text → Type 0
IsSkippable line = (is_quote_line line || is_blank_line line) ≡ true

abbrev pub IsContent : Text → Type 0
IsContent line = (is_quote_line line ≡ false) × (is_blank_line line ≡ false)

abbrev pub first : List Text → Option Text
first [] = none
first (line ∷ rest) = some line

-- No line with text is left, or the first of them is not a quote.
abbrev pub Stops : List Text → Type 0
Stops rest =
    (first_non_empty rest ≡ none)
    ⊎ ((line : Text) × (first_non_empty rest ≡ some line) × (is_quote_line line ≡ false))

skips-IsSkippable :
    (line : Text) (further : List Text) → skips line further ≡ true → IsSkippable line
unfolding skips
skips-IsSkippable line further h = ground arith

skips-Stops :
    (line : Text) (further : List Text) → skips line further ≡ false → Stops (line ∷ further)
unfolding skips first_non_empty skips_blank
skips-Stops line further h = elim (Bool-cases (is_blank_line line)) [
  | inl blank ↦ elim (Option-cases (first_non_empty further)) [
    | inl nothing ↦ absurd (ground (arith, blank, nothing))
    | inr found ↦ inr (found.0, rw blank (found.1), ground (arith, blank, found.1))
  ]
  | inr text ↦ inr (line, rw text refl, ground (arith, text))
]

pub Stops-skip_start : (ls : List Text) → Stops (skip_start ls)
unfolding skip_start first_non_empty
Stops-skip_start [] = inl refl
Stops-skip_start (line ∷ rest) = elim (Bool-cases (skips line rest)) [
  | inl skipped ↦ rw skipped (Stops-skip_start rest)
  | inr kept ↦ rw kept (skips-Stops line rest kept)
]

pub skip_start-split :
    (ls : List Text)
    → (before : List Text) × (ls ≡ before ++ skip_start ls) × All IsSkippable before
unfolding skip_start
skip_start-split [] = ([], refl, tt)
skip_start-split (line ∷ rest) = elim (Bool-cases (skips line rest)) [
  | inl skipped ↦
      let (before, e, all) = skip_start-split rest in
      rw skipped (line ∷ before, ap (λ l. line ∷ l) e, (skips-IsSkippable line rest skipped, all))
  | inr kept ↦ rw kept ([], refl, tt)
]

pub drop_blank-split :
    (ls : List Text)
    → (before : List Text) × (ls ≡ before ++ drop_blank ls) × All IsSkippable before
unfolding drop_blank
drop_blank-split [] = ([], refl, tt)
drop_blank-split (line ∷ rest) = elim (Bool-cases (is_blank_line line)) [
  | inl blank ↦
      let (before, e, all) = drop_blank-split rest in
      rw blank (line ∷ before, ap (λ l. line ∷ l) e, (ground (arith, blank), all))
  | inr text ↦ rw text ([], refl, tt)
]

pub first-drop_blank : (ls : List Text) → first (drop_blank ls) ≡ first_non_empty ls
unfolding drop_blank first_non_empty
first-drop_blank [] = refl
first-drop_blank (line ∷ rest) = ground (arith, first-drop_blank rest)

pub first_non_empty_text :
    (ls : List Text) (line : Text) → first_non_empty ls ≡ some line → is_blank_line line ≡ false
unfolding first_non_empty
first_non_empty_text [] line h = absurd cc
first_non_empty_text (l ∷ rest) line h = ground (arith, first_non_empty_text rest line)

-- The lines that the loops from the end drop, and the others; `m` lines are left of `n`.
pub record Dropped (n m : ℕ) (ls : List Text) : Type 0 where
  pub dropped : List Text
  pub rest : List Text
  pub split : ls ≡ dropped ++ rest
  pub size : length dropped + m ≡ n
  pub skippable : All IsSkippable dropped

abbrev Dropped-none : (n : ℕ) (ls : List Text) → Dropped n n ls
Dropped-none n ls = record {
  dropped = [];
  rest = ls;
  split = refl;
  size = omega arith;
  skippable = tt;
}

abbrev Dropped-next :
    (n m : ℕ) (line : Text) (ls : List Text)
    → IsSkippable line
    → Dropped n m ls
    → Dropped (suc n) m (line ∷ ls)
Dropped-next n m line ls h d = record {
  dropped = line ∷ d.dropped;
  rest = d.rest;
  split = ap (λ l. line ∷ l) d.split;
  size = omega (arith, d.size);
  skippable = (h, d.skippable);
}

pub skip_end-Dropped :
    (n : ℕ) (ls : List Text)
    → n ≤ length ls
    → (d : Dropped n (skip_end n ls) ls) × ((skip_end n ls ≡ 0) ⊎ Stops d.rest)
unfolding skip_end
skip_end-Dropped zero ls h = (Dropped-none zero ls, inl refl)
skip_end-Dropped (suc n) [] h = absurd (omega arith)
skip_end-Dropped (suc n) (line ∷ before_end) h = elim (Bool-cases (skips line before_end)) [
  | inl skipped ↦
      let (d, stop) = skip_end-Dropped n before_end (omega arith) in
      rw skipped (
        Dropped-next n (skip_end n before_end) line before_end
            (skips-IsSkippable line before_end skipped) d,
        stop,
      )
  | inr kept ↦
      rw kept (Dropped-none (suc n) (line ∷ before_end), inr (skips-Stops line before_end kept))
]

pub drop_blank_end-Dropped :
    (n : ℕ) (ls : List Text)
    → n ≤ length ls
    → (d : Dropped n (drop_blank_end n ls) ls) × ((drop_blank_end n ls ≡ 0)
        ⊎ (first d.rest ≡ first_non_empty ls))
unfolding drop_blank_end first_non_empty
drop_blank_end-Dropped zero ls h = (Dropped-none zero ls, inl refl)
drop_blank_end-Dropped (suc n) [] h = absurd (omega arith)
drop_blank_end-Dropped (suc n) (line ∷ before_end) h = elim (Bool-cases (is_blank_line line)) [
  | inl blank ↦
      let (d, stop) = drop_blank_end-Dropped n before_end (omega arith) in
      rw blank (
        Dropped-next n (drop_blank_end n before_end) line before_end (ground (arith, blank)) d,
        stop,
      )
  | inr text ↦ rw text (Dropped-none (suc n) (line ∷ before_end), inr refl)
]

-- The lines of both loops from the end.
abbrev pub Dropped-both :
    (n m k : ℕ) (ls : List Text) (d : Dropped n m ls) → Dropped m k d.rest → Dropped n k ls
Dropped-both n m k ls d d' = record {
  dropped = d.dropped ++ d'.dropped;
  rest = d'.rest;
  split =
      d.split ∙ ap (λ l. d.dropped ++ l) d'.split ∙ sym (append_assoc d.dropped d'.dropped d'.rest);
  size = omega (arith, d.size, d'.size, length-append d.dropped d'.dropped);
  skippable = All-append IsSkippable d'.dropped d'.skippable d.dropped d.skippable;
}

-- Lines dropped from `xs ++ ys` that are no more than those of xs.
pub split-append :
    (xs ys dropped rest : List Text) (m : ℕ)
    → xs ++ ys ≡ dropped ++ rest
    → length dropped + m ≡ length xs
    → (kept : List Text) × (xs ≡ dropped ++ kept) × (length kept ≡ m) × (rest ≡ kept ++ ys)
split-append xs ys [] rest m e h = (xs, refl, omega (arith, h), sym e)
split-append [] ys (d ∷ dropped) rest m e h = absurd (omega (arith, h))
split-append (x ∷ xs) ys (d ∷ dropped) rest m e h =
    let same : x ≡ d = cc in
    let tails : xs ++ ys ≡ dropped ++ rest = cc in
    let (kept, e', size, rest') = split-append xs ys dropped rest m tails (omega (arith, h)) in
    (kept, rw same (ap (λ l. d ∷ l) e'), size, rest')
