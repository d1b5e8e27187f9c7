-- ===== src/Overview/Threads.antt =====
-- merge_articles_into_threads: every thread that was there stays, with its messages.
use september.Base.{
  ℕ, ◌≤◌, ◌≡◌, ◌⊎◌, refl, true, false, Option, none, some, List, [], ◌∷◌, ◌++◌, String, str_eq,
  eq_iff, Map, lookup, lookup-insert, arith, Option-cases, Bool-cases, inl, inr, sym, ap, ◌∙◌,
  subst,
}
use september.Overview.{Fields, Dates}
use september.Overview.Words.{ref_ids, last}
use september.Overview.Build.{build_threads}
use september.Overview.Counts.{bind_inverse}
use september.Overview.Kept.{Grows, Grows-refl, Grows-trans, Grows-add_to_parent}
use september.Overview.Merge.{
  add_update, add_updates, update_thread, update_found, update_threads, by_root, ids_to_root,
  sort_entries, values, merge_articles_into_threads, Sorted,
}
use september.Thread.{ThreadNodeView, ThreadView}

module _ {E : Type 0} (fields : Fields E) (dates : Dates) where
  Grows-add_update :
      (entry : E) (id : Option String) (root : ThreadNodeView) (keys_last : Map (List E) → String)
      → Grows root (add_update fields dates keys_last entry id root)
  unfolding add_updates
  Grows-add_update entry none root keys_last = Grows-refl root
  Grows-add_update entry (some id) root keys_last =
      Grows-add_to_parent fields dates (last (ref_ids (fields.references entry))) entry id root

  Grows-add_updates :
      (entries : List E) (root : ThreadNodeView) (keys_last : Map (List E) → String)
      → Grows root (add_updates fields dates keys_last entries root)
  unfolding add_updates
  Grows-add_updates [] root keys_last = Grows-refl root
  Grows-add_updates (entry ∷ entries) root keys_last =
      let next = add_update fields dates keys_last entry (fields.message_id entry) root in
      Grows-trans root next (add_updates fields dates keys_last entries next)
        (Grows-add_update entry (fields.message_id entry) root keys_last)
        (Grows-add_updates entries next keys_last)

  -- `after` is the thread `before` with what was merged into it.
  abbrev pub Extends : ThreadView → ThreadView → Type 0
  Extends before after =
      (after.root_message_id ≡ before.root_message_id)
      × (before.article_count ≤ after.article_count)
      × Grows before.root after.root

  Extends-update_thread :
      (entries : List E) (thread : ThreadView) (keys_last : Map (List E) → String)
      → Extends thread (update_thread fields dates keys_last entries thread)
  unfolding update_thread
  Extends-update_thread entries thread keys_last =
      (refl, omega arith, Grows-add_updates entries thread.root keys_last)

  update_found_keeps :
      (key query : String) (entries : List E) (threads : Map ThreadView) (before : ThreadView)
      (keys_last : Map (List E) → String)
      → lookup query threads ≡ some before
      → (after : ThreadView) × (lookup query
            (update_found fields dates keys_last key entries (lookup key threads) threads)
          ≡ some after)
        × Extends before after
  unfolding update_threads
  update_found_keeps key query entries threads before keys_last held =
      elim (Option-cases (lookup key threads)) [
        | inl missing ↦ (before, rw missing held, (refl, omega arith, Grows-refl before.root))
        | inr (thread, found) ↦
            let updated = update_thread fields dates keys_last entries thread in
            elim (Bool-cases (str_eq key query)) [
              | inr other ↦ (
                before,
                rw (found, lookup-insert key query updated threads, other) held,
                (refl, omega arith, Grows-refl before.root),
              )
              | inl same ↦
                  let k : key ≡ query = (eq_iff key query).0 same in
                  let hit : ◌≡◌ {A = Option ThreadView} (some thread) (some before) =
                    sym found ∙ ap (λ x. lookup x threads) k ∙ held in
                  let equal : thread ≡ before = cc in
                  (
                    updated,
                    rw (found, lookup-insert key query updated threads, same) refl,
                    subst (λ t. Extends t updated) equal
                        (Extends-update_thread entries thread keys_last),
                  )
            ]
      ]

  Extends-trans : (a b c : ThreadView) → Extends a b → Extends b c → Extends a c
  Extends-trans a b c f g =
      (g.0 ∙ f.0, omega (arith, f.1, g.1), Grows-trans a.root b.root c.root f.2 g.2)

  update_threads_keeps :
      (updates : Map (List E)) (threads : Map ThreadView) (query : String) (before : ThreadView)
      (keys_last : Map (List E) → String)
      → lookup query threads ≡ some before
      → (after : ThreadView) × (lookup query (update_threads fields dates keys_last updates threads)
          ≡ some after)
        × Extends before after
  unfolding update_threads
  update_threads_keeps [] threads query before keys_last held =
      (before, held, (refl, omega arith, Grows-refl before.root))
  update_threads_keeps ((key, entries) ∷ updates) threads query before keys_last held =
      let next = update_found fields dates keys_last key entries (lookup key threads) threads in
      let (middle, there, first) =
        update_found_keeps key query entries threads before keys_last held in
      let (after, found, second) = update_threads_keeps updates next query middle keys_last there in
      (after, found, Extends-trans before middle after first second)

  -- A thread of the list.
  abbrev pub In : ThreadView → List ThreadView → Type 0
  In thread [] = ⊥
  In thread (t ∷ threads) = (t ≡ thread) ⊎ In thread threads

  In-append : (thread : ThreadView) (xs ys : List ThreadView) → In thread xs → In thread (xs ++ ys)
  In-append thread [] ys h = absurd h
  In-append thread (x ∷ xs) ys (inl same) = inl same
  In-append thread (x ∷ xs) ys (inr later) = inr (In-append thread xs ys later)

  In-values :
      (key : String) (thread : ThreadView) (m : Map ThreadView) (keys_last : Map (List E) → String)
      → lookup key m ≡ some thread
      → In thread (values fields dates keys_last m)
  unfolding lookup
  In-values key thread [] keys_last h = cc
  In-values key thread ((first, t) ∷ m) keys_last h = elim (Bool-cases (str_eq first key)) [
    | inl same ↦
        let hit : ◌≡◌ {A = Option ThreadView} (some t) (some thread) =
          subst (λ b. (elim b [ true ↦ some t | false ↦ lookup key m ]) ≡ some thread) same h in
        inl (cc)
    | inr other ↦ inr (
        In-values key thread m keys_last
          (subst (λ b. (elim b [ true ↦ some t | false ↦ lookup key m ]) ≡ some thread) other h))
  ]

  -- A merge of at least one new entry that succeeds keeps every thread that is found by its root
  -- among the threads before: the merged list has a thread with the same root, all its messages,
  -- right counts if it had them, and at least as many articles.
  pub merge_articles_into_threads_keeps :
      (keys_last : Map (List E) → String) (depth : ℕ) (existing merged : List ThreadView)
      (new_entry : E) (new_entries : List E) (thread : ThreadView)
      → merge_articles_into_threads fields dates keys_last depth existing (new_entry ∷ new_entries)
        ≡ some merged
      → lookup thread.root_message_id (by_root fields dates keys_last existing []) ≡ some thread
      → (after : ThreadView) × In after merged × Extends thread after
  unfolding merge_articles_into_threads
  merge_articles_into_threads_keeps keys_last depth existing merged new_entry new_entries thread h
        known =
      let s : Sorted fields dates =
        sort_entries fields dates keys_last (by_root fields dates keys_last existing [])
          (new_entry ∷ new_entries)
          (record {
            msg_to_root = ids_to_root fields dates keys_last existing [];
            updates_by_thread = [];
            new_roots = [];
          }) in
      let (built, run, final) =
        bind_inverse (build_threads fields dates depth s.new_roots) _ merged h in
      let (after, found, extends) =
        update_threads_keeps s.updates_by_thread (by_root fields dates keys_last existing [])
          thread.root_message_id thread keys_last known in
      let updated =
        update_threads fields dates keys_last s.updates_by_thread
          (by_root fields dates keys_last existing []) in
      let all : values fields dates keys_last updated ++ built ≡ merged = cc in
      (
        after,
        subst (In after) all (
            In-append after (values fields dates keys_last updated) built
              (In-values thread.root_message_id after updated keys_last found)),
        extends,
      )
