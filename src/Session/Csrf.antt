-- ===== src/Session/Csrf.antt =====
-- validate_csrf: the comparison that reads every byte decides equality.
use Prim.Native.Nat.{bit_or, bit_xor, digits, differ, bit_or-bitwise, bit_xor-bitwise}
use september.Base.{
  ℕ, zero, suc, ◌/◌, ◌%◌, ◌≤◌, ◌≡◌, ◌↔◌, refl, sym, ◌∙◌, max, true, List, [], ◌∷◌, arith, length,
}
use september.Session.{User, fold_differences, validate_csrf}

differ_zero : (x y : ℕ) → differ x y ≡ 0 → x ≡ y
differ_zero zero y e = sym e
differ_zero (suc x) zero e = absurd (omega arith)
differ_zero (suc x) (suc y) e = omega (arith, differ_zero x y e)

differ_self : (x : ℕ) → differ x x ≡ 0
differ_self zero = refl
differ_self (suc x) = differ_self x

abbrev xor_digits : ℕ → ℕ → ℕ → ℕ
xor_digits n a b = digits (λ b. b) differ n a b

xor_digits_zero : (n a b : ℕ) → a ≤ n → xor_digits n a b ≡ 0 → a ≡ b
xor_digits_zero zero zero b h e = sym e
xor_digits_zero zero (suc a) b h e = absurd (omega arith)
xor_digits_zero (suc n) zero b h e = sym e
xor_digits_zero (suc n) (suc a) b h e = omega (
  arith,
  xor_digits_zero n (suc a / 2) (b / 2) (omega arith) (omega arith),
  differ_zero (suc a % 2) (b % 2) (omega arith),
)

xor_digits_self : (n a : ℕ) → a ≤ n → xor_digits n a a ≡ 0
xor_digits_self zero zero h = refl
xor_digits_self zero (suc a) h = absurd (omega arith)
xor_digits_self (suc n) zero h = refl
xor_digits_self (suc n) (suc a) h =
    omega (arith, xor_digits_self n (suc a / 2) (omega arith), differ_self (suc a % 2))

abbrev or_digits : ℕ → ℕ → ℕ → ℕ
or_digits n a b = digits (λ b. b) max n a b

or_digits_zero : (n a b : ℕ) → a ≤ n → or_digits n a b ≡ 0 → (a ≡ 0) × (b ≡ 0)
or_digits_zero zero zero b h e = (refl, e)
or_digits_zero zero (suc a) b h e = absurd (omega arith)
or_digits_zero (suc n) zero b h e = (refl, e)
or_digits_zero (suc n) (suc a) b h e =
    let (half, rest) = or_digits_zero n (suc a / 2) (b / 2) (omega arith) (omega arith) in
    absurd (omega arith)

bit_xor_zero : (a b : ℕ) → bit_xor a b ≡ 0 → a ≡ b
bit_xor_zero a b e = xor_digits_zero a a b (omega arith) (sym (bit_xor-bitwise a b) ∙ e)

bit_xor_self : (a : ℕ) → bit_xor a a ≡ 0
bit_xor_self a = bit_xor-bitwise a a ∙ xor_digits_self a a (omega arith)

bit_or_zero : (a b : ℕ) → bit_or a b ≡ 0 → (a ≡ 0) × (b ≡ 0)
bit_or_zero a b e = or_digits_zero a a b (omega arith) (sym (bit_or-bitwise a b) ∙ e)

zero-bit_or : (b : ℕ) → bit_or 0 b ≡ b
zero-bit_or b = bit_or-bitwise 0 b

fold_differences_zero :
    (acc : ℕ) (own token : List ℕ)
    → length own ≡ length token
    → fold_differences acc own token ≡ 0
    → (acc ≡ 0) × (own ≡ token)
unfolding fold_differences
fold_differences_zero acc [] [] h e = (e, refl)
fold_differences_zero acc [] (b ∷ token) h e = absurd (omega arith)
fold_differences_zero acc (a ∷ own) [] h e = absurd (omega arith)
fold_differences_zero acc (a ∷ own) (b ∷ token) h e =
    let (joined, rest) =
      fold_differences_zero (bit_or acc (bit_xor a b)) own token (omega arith) e in
    let (start, apart) = bit_or_zero acc (bit_xor a b) joined in
    let same = bit_xor_zero a b apart in (start, cc)

fold_differences_self : (token : List ℕ) → fold_differences 0 token token ≡ 0
unfolding fold_differences
fold_differences_self [] = refl
fold_differences_self (a ∷ token) = rw (bit_xor_self a, zero-bit_or 0) (fold_differences_self token)

-- The comparison accepts exactly the session's own token.
pub validate_csrf_exact :
    (self : User) (token : List ℕ) → (validate_csrf self token ≡ true) ↔ (self.csrf_token ≡ token)
unfolding validate_csrf
validate_csrf_exact self token = (
  λ e. (fold_differences_zero 0 self.csrf_token token (ground arith) (ground arith)).1,
  λ e. ground (arith, fold_differences_self token),
)
