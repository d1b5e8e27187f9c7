-- ===== src/Federated/Failover.antt =====
-- The loops that try servers one after the other: the first success ends them, and otherwise the
-- last error is kept. `none` stands for a panic, an index that names no server.
use september.Base.{
  ℕ, zero, suc, ◌<◌, ◌≡◌, ◌⊎◌, inl, inr, refl, ap, Option, none, some, List, [], ◌∷◌, ◌++◌, arith,
  All, length, get_elem?,
}
use september.Federated.{NntpError, Result, ok, err}

pub data Tried {ℓ} (A : Type ℓ) : Type ℓ where
  success : A → Tried A
  failed : Option NntpError → Tried A

module _ {A : Type 0} where
  -- for idx in server_indices { match self.services[idx].request(…).await { … } }
  unfoldable pub try_servers :
      List (Result A NntpError) → List ℕ → Option NntpError → Option (Tried A)
  try_servers answers [] last_error = some (failed last_error)
  try_servers answers (idx ∷ server_indices) last_error = elim (get_elem? answers idx) [
    | none ↦ none
    | some (ok a) ↦ some (success a)
    | some (err e) ↦ try_servers answers server_indices (some e)
  ]

  -- Server `idx` answers with an error.
  abbrev pub Fails : List (Result A NntpError) → ℕ → Type 0
  Fails answers idx = (e : NntpError) × (get_elem? answers idx ≡ some (err e))

  error_of : Option (Result A NntpError) → Option NntpError
  error_of (some (err e)) = some e
  error_of _ = none

  -- The error of the server that was tried last.
  unfoldable pub final_error :
      List (Result A NntpError) → List ℕ → Option NntpError → Option NntpError
  unfolding error_of
  final_error answers [] start = start
  final_error answers (idx ∷ indices) start =
      final_error answers indices (error_of (get_elem? answers idx))

  -- What the loop answers: the first success, all servers before it having failed, or, if all have
  -- failed, the error of the last.
  pub data Outcome (answers : List (Result A NntpError)) (indices : List ℕ)
      (start : Option NntpError) : Tried A → Type 0 where
    first_success :
        (before : List ℕ) (idx : ℕ) (after : List ℕ) (a : A)
        → indices ≡ before ++ idx ∷ after
        → All (Fails answers) before
        → get_elem? answers idx ≡ some (ok a)
        → Outcome answers indices start (success a)
    all_failed :
        (last : Option NntpError)
        → All (Fails answers) indices
        → last ≡ final_error answers indices start
        → Outcome answers indices start (failed last)

  get_elem?_inside :
      (answers : List (Result A NntpError)) (i : ℕ)
      → i < length answers
      → ((a : A) × (get_elem? answers i ≡ some (ok a))) ⊎ Fails answers i
  get_elem?_inside [] i h = absurd (omega arith)
  get_elem?_inside (ok a ∷ answers) zero h = inl (a, refl)
  get_elem?_inside (err e ∷ answers) zero h = inr (e, refl)
  get_elem?_inside (x ∷ answers) (suc i) h = get_elem?_inside answers i (omega arith)

  Outcome-cons :
      (answers : List (Result A NntpError)) (idx : ℕ) (indices : List ℕ) (start : Option NntpError)
      (t : Tried A) (e : NntpError)
      → get_elem? answers idx ≡ some (err e)
      → Outcome answers indices (some e) t
      → Outcome answers (idx ∷ indices) start t
  unfolding final_error
  Outcome-cons answers idx indices start _ e f (first_success before i after a split fails hit) =
      first_success (idx ∷ before) i after a (ap (◌∷◌ idx) split) ((e, f), fails) hit
  Outcome-cons answers idx indices start _ e f (all_failed last fails final) =
      all_failed last ((e, f), fails) (rw (f, error_of) final)

  -- With indices that name servers the loop ends without a panic, and answers the first success in
  -- the order of the indices, or fails when every server that is tried has failed.
  pub try_servers-Outcome :
      (answers : List (Result A NntpError)) (indices : List ℕ) (last_error : Option NntpError)
      → All (λ i. i < length answers) indices
      → (t : Tried A) × (try_servers answers indices last_error ≡ some t)
        × Outcome answers indices last_error t
  unfolding try_servers final_error
  try_servers-Outcome answers [] last_error inside =
      (failed last_error, refl, all_failed last_error tt refl)
  try_servers-Outcome answers (idx ∷ indices) last_error inside =
      elim (get_elem?_inside answers idx inside.0) [
        | inl (a, hit) ↦
            (success a, rw (hit, try_servers), first_success [] idx indices a refl tt hit)
        | inr (e, miss) ↦
            let (t, run, outcome) = try_servers-Outcome answers indices (some e) inside.1 in
            (
              t,
              rw (miss, try_servers) run,
              Outcome-cons answers idx indices last_error t e miss outcome,
            )
      ]
