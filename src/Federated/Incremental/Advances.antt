-- ===== src/Federated/Incremental/Advances.antt =====
-- What a fetch by get_new_articles_coalesced of src/nntp/federated.rs changes of the caches and of
-- the high water marks.
use september.Base.{
  ℕ, ◌≤◌, ◌≡◌, inl, inr, refl, sym, ◌∙◌, subst, Option, some, List, [], String, str_eq, eq_iff, Map,
  arith, ◌==◌, ◌>>=◌, Bool-cases, Option-cases,
}
use september.Federated.{NntpError, AppError, Result, ok, err, Cache}
use september.Federated.Groups.{Directory}
use september.Federated.Incremental.{
  max_number, Updates, fetch_since, note_numbers, get_new_articles_coalesced,
}
use september.Federated.Marks.{
  should_check_incremental, get_group_hwm, update_group_hwm, get_group_hwm-update,
}
use september.Federated.Posting.{get_new_articles}
use september.Federated.Threads.{CachedThreads, CachedThread}
use september.Overview.{Fields, Dates}
use september.Overview.Counts.{bind_inverse}

module _ {E : Type 0} (fields : Fields E) (dates : Dates) (number : E → Option ℕ)
    (keys_last : Map (List E) → String) (depth : ℕ) (compute_timeago : String → String)
    (lists : Cache CachedThreads) (single : Cache CachedThread) where
  abbrev State : Type 0
  State = Updates fields dates number keys_last depth compute_timeago lists single

  abbrev hwm : State → String → ℕ
  hwm self group = get_group_hwm self.threads.group_hwm group

  -- What a fetch changes of the caches: the marks can only rise, and the lists stay.
  abbrev pub Advances : State → State → Type 0
  Advances before after =
      (after.threads.threads_cache ≡ before.threads.threads_cache)
      × ((group : String) → hwm before group ≤ hwm after group)

  hwm-update :
      (marks : Map ℕ) (group other : String) (n : ℕ)
      → get_group_hwm marks other ≤ get_group_hwm (update_group_hwm marks group n) other
  hwm-update marks group other n = elim (Bool-cases (str_eq group other)) [
    | inl same ↦
        subst (λ g. get_group_hwm marks g ≤ get_group_hwm (update_group_hwm marks group n) g)
          ((eq_iff group other).0 same)
          (omega (arith, (get_group_hwm-update marks group other n).0))
    | inr differ ↦ ground (arith, (get_group_hwm-update marks group other n).1, eq_iff group other)
  ]

  Advances-refl : (self : State) → Advances self self
  Advances-refl self = (refl, λ group. omega arith)

  abbrev noted : String → Result (List E) AppError → State → State
  noted = note_numbers fields dates number keys_last depth compute_timeago lists single

  note_numbers-Advances :
      (group : String) (result : Result (List E) AppError) (self : State)
      → Advances self (noted group result self)
  note_numbers-Advances group (err e) self = (refl, λ other. omega arith)
  note_numbers-Advances group (ok entries) self =
      elim (Option-cases (max_number fields dates number keys_last depth entries)) [
        | inl absent ↦ rw absent (refl, λ other. omega arith)
        | inr (n, found) ↦ rw found (refl, λ other. hwm-update self.threads.group_hwm group other n)
      ]

  fetch_since-Advances :
      (answers : List (Result (List E) NntpError)) (directory : Directory) (self : State)
      (group : String) (after : State) (result : Result (List E) AppError)
      → fetch_since fields dates number keys_last depth compute_timeago lists single answers
          directory self group
        ≡ some (after, result)
      → Advances self after
  unfolding fetch_since
  fetch_since-Advances answers directory self group after result run =
      elim (Bool-cases (get_group_hwm self.threads.group_hwm group == 0)) [
        | inl unknown ↦
            let e : ◌≡◌ {A = Option (State × Result (List E) AppError)} (some (self, ok []))
                (some (after, result)) =
              sym (rw unknown refl) ∙ run in
            let same : self ≡ after = cc e in subst (Advances self) same (Advances-refl self)
        | inr known ↦
            let e : (get_new_articles answers directory group >>= λ r. some (noted group r self, r))
                ≡ some (after, result) =
              sym (rw known refl) ∙ run in
            let (r, got, final) =
              bind_inverse (get_new_articles answers directory group) _ (after, result) e in
            let same : noted group r self ≡ after = cc final in
            subst (Advances self) same (note_numbers-Advances group r self)
      ]

  pub get_new_articles_coalesced-Advances :
      (answers : List (Result (List E) NntpError)) (directory : Directory) (now : ℕ) (self : State)
      (group : String) (after : State) (result : Result (List E) AppError)
      → get_new_articles_coalesced fields dates number keys_last depth compute_timeago lists single
          answers directory now self group
        ≡ some (after, result)
      → Advances self after
  unfolding get_new_articles_coalesced
  get_new_articles_coalesced-Advances answers directory now self group after result run =
      let check = should_check_incremental self.last_check group now in
      let checked : State = record self { last_check = check.0 } in
      elim (Bool-cases check.1) [
        | inl pass ↦
            fetch_since-Advances answers directory checked group after result
              (sym (rw pass refl) ∙ run)
        | inr debounced ↦
            let e : ◌≡◌ {A = Option (State × Result (List E) AppError)} (some (checked, ok []))
                (some (after, result)) =
              sym (rw debounced refl) ∙ run in
            let same : checked ≡ after = cc e in
            subst (Advances self) same (refl, λ other. omega arith)
      ]
