-- ===== src/Federated/Page/Covers.antt =====
-- The comments of a page, as get_thread_paginated of src/nntp/federated.rs and flatten_paginated of
-- src/nntp/mod.rs count them.
use september.Base.{
  ℕ, zero, suc, ◌+◌, ◌-◌, ◌≤◌, ◌<◌, min, ◌≡◌, inl, inr, refl, sym, true, some, List, [], ◌∷◌, ◌++◌,
  map, String, str_eq_refl, arith, length, take, drop, ltb, leb, mul64, sub64, add64, subst,
  Bool-cases,
}
use mathlib.Core.List.{append_assoc}
use september.Pagination.{page_items, cut}
use september.Thread.{FlatComment}
use september.Thread.Ids.{is_member}

-- Every comment with a number from start to end, from i on, is among the identifiers.
abbrev pub Covers : List String → ℕ → ℕ → ℕ → List FlatComment → Type 0
Covers ids start end i [] = Unit
Covers ids start end i (c ∷ cs) =
    (start ≤ i → i < end → is_member c.message_id ids ≡ true) × Covers ids start end (suc i) cs

abbrev pub ids_of : List FlatComment → List String
ids_of = map λ c. c.message_id

is_member-append :
    (id : String) (before after : List String) → is_member id (before ++ id ∷ after) ≡ true
is_member-append id [] after = rw (str_eq_refl id) refl
is_member-append id (first ∷ before) after = ground (arith, is_member-append id before after)

Covers-empty :
    (ids : List String) (start end i : ℕ) (cs : List FlatComment)
    → end ≤ start
    → Covers ids start end i cs
Covers-empty ids start end i [] h = tt
Covers-empty ids start end i (c ∷ cs) h =
    (λ from below. absurd (omega arith), Covers-empty ids start end (suc i) cs h)

Covers-inside :
    (start end i n : ℕ) (cs : List FlatComment) (before : List String)
    → n ≡ end - i
    → Covers (before ++ ids_of (take n cs)) start end i cs
Covers-inside start end i n [] before e = tt
Covers-inside start end i zero (c ∷ cs) before e = (
  λ from below. absurd (omega arith),
  Covers-inside start end (suc i) zero cs before (omega arith),
)
Covers-inside start end i (suc n) (c ∷ cs) before e = (
  λ from below. is_member-append c.message_id before (ids_of (take n cs)),
  subst (λ l. Covers l start end (suc i) cs)
      (append_assoc before (c.message_id ∷ []) (ids_of (take n cs)))
      (Covers-inside start end (suc i) n cs (before ++ c.message_id ∷ []) (omega arith)),
)

Covers-slice :
    (start end i skip : ℕ) (cs : List FlatComment)
    → skip + i ≡ start
    → Covers (ids_of (take (end - start) (drop skip cs))) start end i cs
Covers-slice start end i zero cs e = Covers-inside start end i (end - start) cs [] (omega arith)
Covers-slice start end i (suc skip) [] e = tt
Covers-slice start end i (suc skip) (c ∷ cs) e =
    (λ from below. absurd (omega arith), Covers-slice start end (suc i) skip cs (omega arith))

cut-Covers :
    (cs shown : List FlatComment) (start stop : ℕ)
    → cut cs start stop ≡ some shown
    → Covers (ids_of shown) start (min stop (length cs)) 0 cs
unfolding cut
cut-Covers cs shown start stop h = elim (Bool-cases (ltb start (length cs))) [
  | inr behind ↦ Covers-empty (ids_of shown) start (min stop (length cs)) 0 cs (ground arith)
  | inl inside ↦ elim (Bool-cases (leb start (min stop (length cs)))) [
    | inr reversed ↦ absurd (ground arith)
    | inl forward ↦
        let same : take (min stop (length cs) - start) (drop start cs) ≡ shown =
          ground (arith, inside, forward) in
        rw (sym same) (Covers-slice start (min stop (length cs)) 0 start cs (omega arith))
  ]
]

-- The numbers of the first comment of a page and of the first behind it.
abbrev pub page_start : ℕ → ℕ → ℕ
page_start page per_page = mul64 (sub64 page 1) per_page

abbrev pub page_end : ℕ → ℕ → List FlatComment → ℕ
page_end page per_page flat = min (add64 (page_start page per_page) per_page) (length flat)

pub page_items-Covers :
    (cs shown : List FlatComment) (page per_page : ℕ)
    → page_items cs page per_page ≡ some shown
    → Covers (ids_of shown) (page_start page per_page) (page_end page per_page cs) 0 cs
unfolding page_items
page_items-Covers cs shown page per_page h =
    cut-Covers cs shown (page_start page per_page) (add64 (page_start page per_page) per_page) h
