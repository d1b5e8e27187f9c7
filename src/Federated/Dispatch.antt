-- ===== src/Federated/Dispatch.antt =====
-- The requests of the service never index a server that is missing, and succeed exactly if one of
-- the servers they ask does.
use september.Base.{
  ℕ, zero, suc, ◌⊎◌, ◌>>=◌, ◌≡◌, ◌<◌, refl, sym, subst, Bool, true, false, ◌||◌, Option, none, some,
  List, [], ◌∷◌, String, lookup, arith, inl, inr, get_elem?, length, All, ◌∙◌, ap,
}
use september.Base.Text.{codes}
use september.Federated.{NntpError, AppError, internal, Result, ok, err}
use september.Federated.Failover.{Tried, success, failed, try_servers}
use september.Federated.Groups.{Directory, or_default, get_servers_for_group, count_up}
use september.Federated.Directory.{IsValid, get_servers_for_group-inside}
use september.Federated.Posting.{
  posting_indices, or_group_servers, post_article, post_to, post_outcome, group_outcome,
  internal_outcome, fetch_threads, get_new_articles, fetch_group_stats,
}

abbrev pub is_ok {ℓ κ} : {A : Type ℓ} {E : Type κ} → Result A E → Bool
is_ok (ok a) = true
is_ok (err e) = false

abbrev is_success {ℓ} : {A : Type ℓ} → Tried A → Bool
is_success (success a) = true
is_success (failed e) = false

module _ {A : Type 0} where
  abbrev pub succeeds : Option (Result A NntpError) → Bool
  succeeds (some (ok a)) = true
  succeeds _ = false

  -- Some server among those with these indices succeeds.
  abbrev pub some_succeeds : List (Result A NntpError) → List ℕ → Bool
  some_succeeds answers [] = false
  some_succeeds answers (i ∷ is) = succeeds (get_elem? answers i) || some_succeeds answers is

  answer_inside :
      (answers : List (Result A NntpError)) (i : ℕ)
      → i < length answers
      → (r : Result A NntpError) × (get_elem? answers i ≡ some r)
  answer_inside [] i h = absurd (omega arith)
  answer_inside (r ∷ answers) zero h = (r, refl)
  answer_inside (r ∷ answers) (suc i) h = answer_inside answers i (omega arith)

  Result-cases : (r : Result A NntpError) → ((a : A) × (r ≡ ok a)) ⊎ ((e : NntpError) × (r ≡ err e))
  Result-cases (ok a) = inl (a, refl)
  Result-cases (err e) = inr (e, refl)

  try_servers_succeeds :
      (answers : List (Result A NntpError)) (is : List ℕ) (last_error : Option NntpError)
      → All (λ i. i < length answers) is
      → (t : Tried A) × (try_servers answers is last_error ≡ some t)
        × (is_success t ≡ some_succeeds answers is)
  unfolding try_servers
  try_servers_succeeds answers [] last_error inside = (failed last_error, refl, refl)
  try_servers_succeeds answers (i ∷ is) last_error inside =
      let (r, read) = answer_inside answers i inside.0 in
      elim (Result-cases r) [
        | inl (a, good) ↦
            let hit : get_elem? answers i ≡ some (ok a) = read ∙ ap some good in
            (success a, rw (hit, try_servers), rw hit)
        | inr (e, bad) ↦
            let miss : get_elem? answers i ≡ some (err e) = read ∙ ap some bad in
            let (t, run, same) = try_servers_succeeds answers is (some e) inside.1 in
            (t, rw (miss, try_servers) run, rw miss same)
      ]

  dispatch_with :
      (f : Tried A → Result A AppError) (answers : List (Result A NntpError)) (is : List ℕ)
      → ((t : Tried A) → is_ok (f t) ≡ is_success t)
      → All (λ i. i < length answers) is
      → (r : Result A AppError) × ((try_servers answers is none >>= (λ t. some (f t))) ≡ some r)
        × (is_ok r ≡ some_succeeds answers is)
  dispatch_with f answers is keeps inside =
      let (t, run, same) = try_servers_succeeds answers is none inside in
      (f t, rw run refl, keeps t ∙ same)

  -- With a valid directory, the three requests about a group answer, without a panic, and succeed
  -- exactly if one of the servers that the group is dispatched to does.
  pub dispatch_total :
      (answers : List (Result A NntpError)) (self : Directory) (group : String)
      → IsValid (length answers) self
      → ((r : Result A AppError) × (fetch_threads answers self group ≡ some r)
          × (is_ok r ≡ some_succeeds answers (get_servers_for_group (length answers) self group)))
        × ((r : Result A AppError) × (get_new_articles answers self group ≡ some r)
            × (is_ok r ≡ some_succeeds answers (get_servers_for_group (length answers) self group)))
        × ((r : Result A AppError) × (fetch_group_stats answers self group ≡ some r)
            × (is_ok r ≡ some_succeeds answers (get_servers_for_group (length answers) self group)))
  unfolding fetch_threads get_new_articles fetch_group_stats
  dispatch_total answers self group valid = (
    dispatch_with (group_outcome group) answers is threads inside,
    dispatch_with (internal_outcome "Failed to fetch new articles") answers is
        (plain "Failed to fetch new articles") inside,
    dispatch_with (internal_outcome "Group stats not available") answers is
        (plain "Group stats not available") inside,
  )
    where
      is : List ℕ
      is = get_servers_for_group (length answers) self group

      inside : All (λ i. i < length answers) is
      inside = get_servers_for_group-inside (length answers) self group valid

      threads : (t : Tried A) → is_ok (group_outcome group t) ≡ is_success t
      threads (success a) = refl
      threads (failed e) = refl

      plain : (s : String) (t : Tried A) → is_ok (internal_outcome s t) ≡ is_success t
      plain s (success a) = refl
      plain s (failed none) = refl
      plain s (failed (some e)) = refl

posting_indices-inside :
    (services : ℕ) (self : Directory) (group : String)
    → IsValid services self
    → All (λ i. i < services) (posting_indices services self group)
unfolding posting_indices
posting_indices-inside services self group valid =
    pick (or_default (lookup group self.posting_servers)) (valid.1 group)
  where
    pick :
        (is : List ℕ)
        → All (λ i. i < services) is
        → All (λ i. i < services) (or_group_servers services self group is)
    pick [] inside = get_servers_for_group-inside services self group valid
    pick (i ∷ is) inside = inside

-- Some server succeeds.
abbrev pub any_succeeds : List (Result (Unit {0}) NntpError) → Bool
any_succeeds [] = false
any_succeeds (answer ∷ answers) = is_ok answer || any_succeeds answers

some_succeeds-later :
    (answer : Result (Unit {0}) NntpError) (answers : List (Result (Unit {0}) NntpError)) (i n : ℕ)
    → some_succeeds (answer ∷ answers) (count_up (suc i) n) ≡ some_succeeds answers (count_up i n)
unfolding count_up
some_succeeds-later answer answers i zero = refl
some_succeeds-later answer answers i (suc n) =
    ap (λ b. succeeds (get_elem? answers i) || b) (some_succeeds-later answer answers (suc i) n)

some_succeeds-all :
    (answers : List (Result (Unit {0}) NntpError))
    → some_succeeds answers (count_up 0 (length answers)) ≡ any_succeeds answers
unfolding count_up
some_succeeds-all [] = refl
some_succeeds-all (ok a ∷ answers) = refl
some_succeeds-all (err e ∷ answers) =
    some_succeeds-later (err e) answers 0 (length answers) ∙ some_succeeds-all answers

-- The article is accepted exactly if one of the servers succeeds that are known to allow posting to
-- the group; if none is known to, one of those known to have the group; and if it is not known, any.
pub record IsDispatched (answers : List (Result (Unit {0}) NntpError)) (self : Directory)
    (group : String) (accepted : Bool) : Type 0 where
  pub to_posting :
      (i : ℕ) (is : List ℕ)
      → lookup group self.posting_servers ≡ some (i ∷ is)
      → accepted ≡ some_succeeds answers (i ∷ is)
  pub to_carriers :
      (is : List ℕ)
      → (lookup group self.posting_servers ≡ none) ⊎ (lookup group self.posting_servers ≡ some [])
      → lookup group self.group_servers ≡ some is
      → accepted ≡ some_succeeds answers is
  pub to_all :
      (lookup group self.posting_servers ≡ none) ⊎ (lookup group self.posting_servers ≡ some [])
      → lookup group self.group_servers ≡ none
      → accepted ≡ any_succeeds answers

posting_indices-fallback :
    (services : ℕ) (self : Directory) (group : String)
    → (lookup group self.posting_servers ≡ none) ⊎ (lookup group self.posting_servers ≡ some [])
    → posting_indices services self group ≡ get_servers_for_group services self group
unfolding posting_indices
posting_indices-fallback services self group (inl absent) = rw (absent, or_group_servers) refl
posting_indices-fallback services self group (inr empty) = rw (empty, or_group_servers) refl

posting_indices-IsDispatched :
    (answers : List (Result (Unit {0}) NntpError)) (self : Directory) (group : String)
    → IsDispatched answers self group
        (some_succeeds answers (posting_indices (length answers) self group))
unfolding get_servers_for_group
posting_indices-IsDispatched answers self group =
    let n = length answers in
    record {
      to_posting = λ i is h. unfold posting_indices in rw (h, or_group_servers) refl;
      to_carriers = λ is none_known h.
          ap (some_succeeds answers) (posting_indices-fallback n self group none_known) ∙ rw h refl;
      to_all = λ none_known h.
          ap (some_succeeds answers) (posting_indices-fallback n self group none_known)
          ∙ rw h (some_succeeds-all answers);
    }

-- With a valid directory, posting an article answers without a panic, and it is accepted exactly if
-- one of the servers that are known to allow posting to the group accepts it; when there are none, one
-- of those that are known to have the group; and when the group is not known, any server.
pub post_article_total :
    (answers : List (Result (Unit {0}) NntpError)) (self : Directory) (group : String)
    → IsValid (length answers) self
    → (r : Result (Unit {0}) AppError) × (post_article answers self group ≡ some r)
      × IsDispatched answers self group (is_ok r)
unfolding post_article
post_article_total answers self group valid =
    let (r, posted, same) =
      post (posting_indices (length answers) self group)
        (posting_indices-inside (length answers) self group valid) in
    (
      r,
      posted,
      subst (IsDispatched answers self group) (sym same)
          (posting_indices-IsDispatched answers self group),
    )
  where
    kept : (t : Tried (Unit {0})) → is_ok (post_outcome t) ≡ is_success t
    kept (success a) = refl
    kept (failed e) = refl

    post :
        (is : List ℕ)
        → All (λ i. i < length answers) is
        → (r : Result (Unit {0}) AppError) × (post_to answers is ≡ some r)
          × (is_ok r ≡ some_succeeds answers is)
    post [] inside = (err (internal (codes "No servers support posting to this group")), refl, refl)
    post (i ∷ is) inside = dispatch_with post_outcome answers (i ∷ is) kept inside
