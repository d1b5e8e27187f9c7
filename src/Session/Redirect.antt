-- ===== src/Session/Redirect.antt =====
-- validate_return_to of src/routes/auth.rs: where a login may lead back to.
use september.Base.{
  ◌≡◌, subst, false, not, ◌||◌, Option, none, some, [], ◌∷◌, arith, if◌then◌else◌, ◌>>=◌,
}
use september.Base.Text.{Text, trim, starts_with, contains, any, is_control}

-- `trimmed` after the call of `trim`.
check_path : Text → Option Text
check_path trimmed =
    if not (starts_with trimmed (b'/' ∷ []))
    then none
    else if contains trimmed (b'/' ∷ b'/' ∷ [])
    then none
    else if starts_with trimmed (b'/' ∷ 92 ∷ []) || any is_control trimmed
    then none
    else some trimmed

unfoldable pub validate_return_to : Option Text → Option Text
unfolding check_path
validate_return_to return_to = do url ← return_to; check_path (trim url)

check_path_lem :
    (s r : Text)
    → check_path s ≡ some r
    → (rest : Text) × (r ≡ b'/' ∷ rest)
      × (s ≡ r)
      × (starts_with rest (b'/' ∷ []) ≡ false)
      × (starts_with rest (92 ∷ []) ≡ false)
      × (contains r (b'/' ∷ b'/' ∷ []) ≡ false)
      × (any is_control r ≡ false)
unfolding check_path starts_with contains
check_path_lem [] r e = absurd (ground arith)
check_path_lem (c ∷ s) r e =
    let same : c ∷ s ≡ r = ground arith in
    let slash : c ≡ b'/' = ground arith in
    let single : contains (c ∷ s) (b'/' ∷ b'/' ∷ []) ≡ false = ground arith in
    let plain : any is_control (c ∷ s) ≡ false = ground arith in
    (
      s,
      ground arith,
      same,
      ground arith,
      ground arith,
      subst (λ q. contains q (b'/' ∷ b'/' ∷ []) ≡ false) same single,
      subst (λ q. any is_control q ≡ false) same plain,
    )

-- An accepted address is the trimmed one, and it is a path on this site: it starts with one slash
-- that neither a slash nor a backslash follows, no two slashes meet anywhere in it, and it has no
-- control character.
pub validate_return_to_local :
    (url r : Text)
    → validate_return_to (some url) ≡ some r
    → (rest : Text) × (r ≡ b'/' ∷ rest)
      × (trim url ≡ r)
      × (starts_with rest (b'/' ∷ []) ≡ false)
      × (starts_with rest (92 ∷ []) ≡ false)
      × (contains r (b'/' ∷ b'/' ∷ []) ≡ false)
      × (any is_control r ≡ false)
unfolding validate_return_to
validate_return_to_local url r e = check_path_lem (trim url) r e
