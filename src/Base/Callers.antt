-- ===== src/Base/Callers.antt =====
-- Callers with numbers, of which one comes to another phase, and tests of their phases.
use september.Base.{
  ℕ, ◌≡◌, ◌≢◌, ◌⊎◌, inl, inr, refl, sym, ◌∙◌, ap, Bool, true, false, arith, if◌then◌else◌, ◌==◌,
  Bool-cases,
}

module _ {ℓ} {P : Type ℓ} where
  abbrev pub update : (ℕ → P) → ℕ → P → ℕ → P
  update callers i phase j = if i == j then phase else callers j

module _ {ℓ} {P : Type ℓ} (callers : ℕ → P) (i : ℕ) (p : P) where
  pub update-cases :
      (j : ℕ)
      → ((i ≡ j) × (update callers i p j ≡ p)) ⊎ ((i ≢ j) × (update callers i p j ≡ callers j))
  update-cases j = elim (Bool-cases (i == j)) [
    | inl same ↦ inl (ground (arith, same), rw same refl)
    | inr differ ↦ inr (ground (arith, differ), rw differ refl)
  ]

  pub update_self : update callers i p i ≡ p
  update_self = let same : (i == i) ≡ true = ground arith in rw same refl

  -- A test that the new phase answers like the old one answers as before for all callers.
  pub test-update :
      (test : P → Bool)
      → test p ≡ test (callers i)
      → (j : ℕ) → test (update callers i p j) ≡ test (callers j)
  test-update test same j = elim (update-cases j) [
    | inl h ↦ ap test h.1 ∙ same ∙ ap (λ k. test (callers k)) h.0
    | inr h ↦ ap test h.1
  ]

  -- Whoever passes a test now has the new phase, or passed it before.
  pub update-from :
      (test : P → Bool) (j : ℕ) (b : Bool)
      → test (update callers i p j) ≡ b
      → ((i ≡ j) × (test p ≡ b)) ⊎ ((i ≢ j) × (test (callers j) ≡ b))
  update-from test j b h = elim (update-cases j) [
    | inl e ↦ inl (e.0, sym (ap test e.1) ∙ h)
    | inr e ↦ inr (e.0, sym (ap test e.1) ∙ h)
  ]

  -- Whoever passed a test that the caller did not pass before passes it still.
  pub update-still :
      (test : P → Bool)
      → test (callers i) ≡ false
      → (j : ℕ) → test (callers j) ≡ true
      → test (update callers i p j) ≡ true
  update-still test failed j h = elim (update-cases j) [
    | inl e ↦ absurd (ground (arith, failed, h, e.0))
    | inr e ↦ ap test e.1 ∙ h
  ]

  -- An answer that both the new phase and the old one of a caller give.
  pub update-both :
      (test : P → Bool) (j : ℕ) (b : Bool)
      → test p ≡ b
      → test (callers j) ≡ b
      → test (update callers i p j) ≡ b
  update-both test j b new old = elim (update-cases j) [
    | inl e ↦ ap test e.1 ∙ new
    | inr e ↦ ap test e.1 ∙ old
  ]

  -- The other callers stay.
  pub update_other : (j : ℕ) → i ≢ j → update callers i p j ≡ callers j
  update_other j differ = elim (update-cases j) [ inl e ↦ absurd (differ e.0) | inr e ↦ e.1 ]
