-- ===== src/Preview/Ascii.antt =====
-- compute_preview of src/nntp/mod.rs on bodies of ASCII characters: no cut is inside a character.
use september.Base.{
  ℕ, zero, suc, ◌+◌, ◌-◌, ◌≤◌, ◌<◌, ◌≡◌, inl, inr, refl, sym, ◌∙◌, ap, subst, Bool, true, false,
  ◌&&◌, ◌||◌, Option, none, some, List, [], ◌∷◌, ◌++◌, arith, ltb, leb, ◌==◌, Bool-cases,
  Option-cases, length, take, drop, All, All-append, take-append-drop,
}
use september.Base.Text.{Text, starts_with}
use september.Worker.Stuffing.{lines, before_first}
use september.Overview.Counts.{bind_inverse}
use september.Preview.{
  is_blank_line, strip_lines, join_lines, strip_block_quotes, len_utf8, len, split_at, max_lines,
  hard_limit, find_newline, truncate, get_or_all, newline_after, cut_at_newline, extend,
  long_preview, compute_preview,
}
use september.Preview.Content.{strip_lines-Stripped}
use september.Preview.Limit.{len-split_at}

abbrev pub IsAscii : Text → Type 0
IsAscii = All (λ c. c < 128)

All-split {ℓ} :
    {A : Type 0} (P : A → Type ℓ) (xs ys : List A) → All P (xs ++ ys) → All P xs × All P ys
All-split P [] ys h = (tt, h)
All-split P (x ∷ xs) ys h = ((h.0, (All-split P xs ys h.1).0), (All-split P xs ys h.1).1)

before_first-IsAscii :
    (c : ℕ) (ls : List Text) → c < 128 → All IsAscii ls → All IsAscii (before_first c ls)
unfolding before_first
before_first-IsAscii c [] h a = ((h, tt), tt)
before_first-IsAscii c (l ∷ ls) h a = ((h, a.0), a.1)

lines-IsAscii : (s : Text) → IsAscii s → All IsAscii (lines s)
unfolding lines
lines-IsAscii [] a = tt
lines-IsAscii (c ∷ s) a =
    let rest = lines-IsAscii s a.1 in
    elim (Bool-cases (c == 10)) [
      | inl newline ↦ rw newline (tt, rest)
      | inr other ↦ elim (Bool-cases (c == 13 && starts_with s (10 ∷ []))) [
        | inl return ↦ rw (other, return) rest
        | inr text ↦ rw (other, text) (before_first-IsAscii c (lines s) a.0 rest)
      ]
    ]

join_lines-IsAscii : (ls : List Text) → All IsAscii ls → IsAscii (join_lines ls)
unfolding join_lines
join_lines-IsAscii [] a = tt
join_lines-IsAscii (l ∷ []) a = a.0
join_lines-IsAscii (l ∷ m ∷ ls) a =
    All-append (λ c. c < 128) (10 ∷ join_lines (m ∷ ls))
      (ground arith, join_lines-IsAscii (m ∷ ls) a.1) l a.0

strip-IsAscii : (s : Text) → IsAscii s → IsAscii (strip_block_quotes s)
unfolding strip_block_quotes
strip-IsAscii s a =
    let d = strip_lines-Stripped (lines s) in
    let parts =
      All-split IsAscii d.before (strip_lines (lines s) ++ d.after)
        (subst (All IsAscii) d.split (lines-IsAscii s a)) in
    join_lines-IsAscii (strip_lines (lines s))
      (All-split IsAscii (strip_lines (lines s)) d.after parts.1).0

split_at_total :
    (n : ℕ) (s : Text) → IsAscii s → n ≤ len s → (parts : Text × Text) × (split_at n s ≡ some parts)
unfolding split_at
split_at_total zero s a h = (([], s), refl)
split_at_total (suc n) [] a h = absurd (omega arith)
split_at_total (suc n) (c ∷ s) a h =
    let one : len_utf8 c ≡ 1 = ground (arith, a.0) in
    let fits : leb (len_utf8 c) (suc n) ≡ true = rw one (ground arith) in
    let (parts, e) = split_at_total (suc n - len_utf8 c) s a.1 (omega (arith, one, h)) in
    ((c ∷ parts.0, parts.1), rw (split_at, fits, e) refl)

truncate_total : (n : ℕ) (s : Text) → IsAscii s → (t : Text) × (truncate n s ≡ some t) × IsAscii t
unfolding truncate
truncate_total n s a = elim (Bool-cases (leb n (len s))) [
  | inl long ↦
      let (parts, e) = split_at_total n s a (ground (arith, long)) in
      (
        parts.0,
        rw (long, e) refl,
        (All-split (λ c. c < 128) parts.0 parts.1 (subst IsAscii (len-split_at n s parts e).1 a)).0,
      )
  | inr short ↦ (s, rw short refl, a)
]

find_newline-bound : (s : Text) (pos : ℕ) → find_newline s ≡ some pos → pos ≤ len s
unfolding find_newline
find_newline-bound [] pos h = absurd cc
find_newline-bound (c ∷ s) pos h = elim (Bool-cases (c == 10)) [
  | inl newline ↦ ground (arith, newline)
  | inr other ↦
      let (later, e, e') =
        bind_inverse (find_newline s) (λ p. some (len_utf8 c + p)) pos (sym (rw other refl) ∙ h) in
      let same : len_utf8 c + later ≡ pos = cc in omega (arith, same, find_newline-bound s later e)
]

extend_total :
    (result : Text) (ls : List Text)
    → IsAscii result
    → All IsAscii ls
    → (t : Text) × (extend result ls ≡ some t) × IsAscii t
unfolding extend
extend_total result [] r a = (result, refl, r)
extend_total result (l ∷ ls) r a =
    let longer : IsAscii (result ++ 10 ∷ l) =
      All-append (λ c. c < 128) (10 ∷ l) (ground arith, a.0) result r in
    elim (Bool-cases (is_blank_line l)) [
      | inl blank ↦ (result, rw (extend, blank) refl, r)
      | inr text ↦ elim (Bool-cases (leb hard_limit (len (result ++ 10 ∷ l)))) [
        | inl over ↦
            let (t, e, b) = truncate_total hard_limit (result ++ 10 ∷ l) longer in
            (t, rw (extend, text, over) e, b)
        | inr within ↦
            let (t, e, b) = extend_total (result ++ 10 ∷ l) ls longer a.1 in
            (t, rw (extend, text, within) e, b)
      ]
    ]

long_preview_total : (ls : List Text) → All IsAscii ls → (t : Text) × (long_preview ls ≡ some t)
unfolding long_preview
long_preview_total ls a =
    let (front, back) =
      All-split IsAscii (take max_lines ls) (drop max_lines ls)
        (subst (All IsAscii) (sym (take-append-drop max_lines ls)) a) in
    let (result, e, b) =
      extend_total (join_lines (take max_lines ls)) (drop max_lines ls)
        (join_lines-IsAscii (take max_lines ls) front) back in
    let (t, e', b') = truncate_total hard_limit result b in
    elim (Bool-cases (ltb hard_limit (len result))) [
      | inl long ↦ (t, rw (e, long) e')
      | inr short ↦ (result, rw (e, short) refl)
    ]

len-append : (s t : Text) → len (s ++ t) ≡ len s + len t
len-append [] t = omega arith
len-append (c ∷ s) t = omega (arith, len-append s t)

newline_after-bound :
    (s : Text) (pos : ℕ)
    → newline_after (split_at hard_limit s) ≡ some pos
    → hard_limit + pos ≤ len s
newline_after-bound s pos h = elim (Option-cases (split_at hard_limit s)) [
  | inl nothing ↦ absurd (none_is_some (sym (ap newline_after nothing) ∙ h))
  | inr found ↦
      let (size, whole) = len-split_at hard_limit s found.0 found.1 in
      omega (
        arith,
        size,
        ap len whole,
        len-append found.0.0 found.0.1,
        find_newline-bound found.0.1 pos (sym (ap newline_after found.1) ∙ h),
      )
]
  where
    none_is_some : ¬ (◌≡◌ {A = Option ℕ} none (some pos))
    none_is_some e = cc

cut_at_newline_total :
    (s : Text)
    → IsAscii s
    → (t : Text) × (cut_at_newline s (newline_after (split_at hard_limit s)) ≡ some t)
unfolding cut_at_newline
cut_at_newline_total s a = elim (Option-cases (newline_after (split_at hard_limit s))) [
  | inl nothing ↦ (get_or_all s (split_at hard_limit s), rw nothing refl)
  | inr found ↦
      let (parts, e) =
        split_at_total (hard_limit + found.0) s a (newline_after-bound s found.0 found.1) in
      (parts.0, rw (found.1, e) refl)
]

-- compute_preview returns on every body of ASCII characters.
pub compute_preview_total :
    (body : Text) → IsAscii body → (r : Text × Bool) × (compute_preview body ≡ some r)
unfolding compute_preview
compute_preview_total body a =
    let stripped : Text = strip_block_quotes body in
    let more : Bool = ltb max_lines (length (lines stripped)) || ltb hard_limit (len stripped) in
    let s = strip-IsAscii body a in
    let ls = lines-IsAscii stripped s in
    let (cut, cut_is) = cut_at_newline_total stripped s in
    let (long, long_is) = long_preview_total (lines stripped) ls in
    elim (Bool-cases (leb (length (lines stripped)) max_lines)) [
      | inl few ↦ elim (Bool-cases (leb (len stripped) hard_limit)) [
        | inl short ↦ ((stripped, false), rw (few, short) refl)
        | inr over ↦ ((cut, more), rw (few, over, cut_is) refl)
      ]
      | inr many ↦ ((long, more), rw (many, long_is) refl)
    ]
