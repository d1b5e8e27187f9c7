-- ===== src/Overview/Kept.antt =====
-- What a merge of new articles keeps of a thread, and what it adds.
use september.Base.{
  ◌≤◌, ◌≡◌, ◌⊎◌, refl, Bool, true, false, ◌||◌, Option, none, some, List, [], ◌∷◌, String,
  str_eq_refl, arith, ◌>>=◌, Bool-cases, inl, inr, sym, ap, ◌∙◌, subst,
}
use september.Overview.{Fields, Dates}
use september.Overview.Words.{ref_ids, last}
use september.Overview.Merge.{
  names_known, new_node, add_to_parent, relevant_entries, add_new, add_entries, add_relevant,
  merge_articles_into_thread,
}
use september.Thread.{ThreadNodeView, ThreadView, size}
use september.Thread.Ids.{is_member, collect_all_message_ids_exact}
use september.Thread.Search.{has_id}
use september.Thread.Collapse.{IsCounted}
use september.Thread.Reply.{add_reply-IsCounted, has_id-add_reply_to_node}

-- `new` has the identifiers of `old`, and right counts if `old` has.
abbrev pub Grows : ThreadNodeView → ThreadNodeView → Type 0
Grows old new =
    ((q : String) → has_id old q ≡ true → has_id new q ≡ true) × (IsCounted old → IsCounted new)

pub Grows-refl : (t : ThreadNodeView) → Grows t t
Grows-refl t = (λ q h. h, λ h. h)

pub Grows-trans : (s t u : ThreadNodeView) → Grows s t → Grows t u → Grows s u
Grows-trans s t u f g = (λ q h. g.0 q (f.0 q h), λ h. g.1 (f.1 h))

module _ {E : Type 0} (fields : Fields E) (dates : Dates) where
  pub Grows-add_to_parent :
      (parent : Option String) (entry : E) (id : String) (root : ThreadNodeView)
      → Grows root (add_to_parent fields dates parent (new_node fields dates entry id) root)
  unfolding add_to_parent IsCounted size
  Grows-add_to_parent none entry id root = Grows-refl root
  Grows-add_to_parent (some parent) entry id root =
      let reply = new_node fields dates entry id in
      (
        λ q h. rw (has_id-add_reply_to_node root parent reply q, h) refl,
        λ h. add_reply-IsCounted root parent reply (omega arith) (omega arith, tt) h,
      )

  Grows-add_new :
      (known : List String) (entry : E) (id : Option String) (root : ThreadNodeView)
      → Grows root (add_new fields dates known entry id root)
  unfolding add_entries
  Grows-add_new known entry none root = Grows-refl root
  Grows-add_new known entry (some id) root = elim (Bool-cases (is_member id known)) [
    | inl old ↦ rw old (Grows-refl root)
    | inr new ↦
        rw new (Grows-add_to_parent (last (ref_ids (fields.references entry))) entry id root)
  ]

  Grows-add_entries :
      (known : List String) (entries : List E) (root : ThreadNodeView)
      → Grows root (add_entries fields dates known entries root)
  unfolding add_entries
  Grows-add_entries known [] root = Grows-refl root
  Grows-add_entries known (entry ∷ entries) root =
      let next = add_new fields dates known entry (fields.message_id entry) root in
      Grows-trans root next (add_entries fields dates known entries next)
        (Grows-add_new known entry (fields.message_id entry) root)
        (Grows-add_entries known entries next)

  add_relevant_keeps :
      (known : List String) (relevant : List E) (existing : ThreadView)
      → ((add_relevant fields dates known relevant existing).root_message_id
          ≡ existing.root_message_id)
        × (existing.article_count
            ≤ (add_relevant fields dates known relevant existing).article_count)
        × Grows existing.root (add_relevant fields dates known relevant existing).root
  unfolding merge_articles_into_thread
  add_relevant_keeps known [] existing = (refl, omega arith, Grows-refl existing.root)
  add_relevant_keeps known (e ∷ es) existing =
      (refl, omega arith, Grows-add_entries known (e ∷ es) existing.root)

  root-add_relevant :
      (known : List String) (relevant : List E) (existing : ThreadView)
      → (add_relevant fields dates known relevant existing).root
        ≡ add_entries fields dates known relevant existing.root
  unfolding merge_articles_into_thread add_entries
  root-add_relevant known [] existing = refl
  root-add_relevant known (e ∷ es) existing = refl

  -- A merge into a thread ends, keeps the thread's root and every message of its tree, keeps the
  -- cached descendant counts right if they were, and does not lower the count of articles.
  pub merge_articles_into_thread_keeps :
      (existing : ThreadView) (new_entries : List E)
      → (merged : ThreadView) × (merge_articles_into_thread fields dates existing new_entries
          ≡ some merged)
        × (merged.root_message_id ≡ existing.root_message_id)
        × (existing.article_count ≤ merged.article_count)
        × Grows existing.root merged.root
  unfolding merge_articles_into_thread
  merge_articles_into_thread_keeps existing [] =
      (existing, refl, refl, omega arith, Grows-refl existing.root)
  merge_articles_into_thread_keeps existing (entry ∷ entries) =
      let (known, run, exact) = collect_all_message_ids_exact existing.root in
      let relevant = relevant_entries fields dates known (entry ∷ entries) in
      let (same, counted, grows) = add_relevant_keeps known relevant existing in
      (add_relevant fields dates known relevant existing, rw run refl, same, counted, grows)

  abbrev pub Occurs : E → List E → Type 0
  Occurs entry [] = ⊥
  Occurs entry (x ∷ xs) = (x ≡ entry) ⊎ Occurs entry xs

  has_id-add_new :
      (known : List String) (entry : E) (id parent : String) (root : ThreadNodeView)
      → is_member id known ≡ false
      → last (ref_ids (fields.references entry)) ≡ some parent
      → has_id root parent ≡ true
      → has_id (add_new fields dates known entry (some id) root) id ≡ true
  unfolding add_entries add_to_parent has_id
  has_id-add_new known entry id parent root new answers here =
      let reply = new_node fields dates entry id in
      let self : has_id reply id ≡ true = rw (str_eq_refl id, has_id) refl in
      rw (new, answers, has_id-add_reply_to_node root parent reply id, here, self)
        (or_true (has_id root id))
    where
      or_true : (x : Bool) → (x || true) ≡ true
      or_true x = ground arith

  names_known-last :
      (known ids : List String) (parent : String)
      → last ids ≡ some parent
      → is_member parent known ≡ true
      → names_known known ids ≡ true
  names_known-last known [] parent h here = cc
  names_known-last known (id ∷ []) parent h here =
      let same : id ≡ parent = cc in rw (subst (λ i. is_member i known ≡ true) (sym same) here) refl
  names_known-last known (id ∷ w ∷ ids) parent h here =
      rw (names_known-last known (w ∷ ids) parent h here) (ground arith)

  has_id-add_relevant :
      (known : List String) (entries : List E) (root : ThreadNodeView) (entry : E)
      (id parent : String)
      → is_member id known ≡ false
      → is_member parent known ≡ true
      → has_id root parent ≡ true
      → fields.message_id entry ≡ some id
      → last (ref_ids (fields.references entry)) ≡ some parent
      → Occurs entry entries
      → has_id
          (add_entries fields dates known (relevant_entries fields dates known entries) root)
          id
        ≡ true
  unfolding add_entries relevant_entries
  has_id-add_relevant known [] root entry id parent new old here named answers none_left =
      absurd none_left
  has_id-add_relevant known (x ∷ xs) root entry id parent new old here named answers (inl same) =
      let named' : fields.message_id x ≡ some id = ap fields.message_id same ∙ named in
      let answers' : last (ref_ids (fields.references x)) ≡ some parent =
        ap (λ e. last (ref_ids (fields.references e))) same ∙ answers in
      let relevant = names_known-last known (ref_ids (fields.references x)) parent answers' old in
      let next = add_new fields dates known x (some id) root in
      let added = has_id-add_new known x id parent root new answers' here in
      let rest = relevant_entries fields dates known xs in
      let picked : relevant_entries fields dates known (x ∷ xs) ≡ x ∷ rest =
        rw (relevant, relevant_entries) refl in
      subst (λ l. has_id (add_entries fields dates known l root) id ≡ true) (sym picked)
        (subst
          (λ i.
            has_id (add_entries fields dates known rest (add_new fields dates known x i root)) id
            ≡ true)
          (sym named') ((Grows-add_entries known rest next).0 id added))
  has_id-add_relevant known (x ∷ xs) root entry id parent new old here named answers (inr later) =
      let next = add_new fields dates known x (fields.message_id x) root in
      let kept = (Grows-add_new known x (fields.message_id x) root).0 parent here in
      elim (Bool-cases (names_known known (ref_ids (fields.references x)))) [
        | inl relevant ↦
            rw (relevant, relevant_entries)
              (has_id-add_relevant known xs next entry id parent new old kept named answers later)
        | inr other ↦
            rw (other, relevant_entries)
              (has_id-add_relevant known xs root entry id parent new old here named answers later)
      ]

  -- A new entry whose direct parent is a message of the thread is in the thread after the merge.
  pub merge_articles_into_thread_adds :
      (existing merged : ThreadView) (new_entries : List E) (entry : E) (id parent : String)
      → merge_articles_into_thread fields dates existing new_entries ≡ some merged
      → Occurs entry new_entries
      → fields.message_id entry ≡ some id
      → last (ref_ids (fields.references entry)) ≡ some parent
      → has_id existing.root parent ≡ true
      → has_id merged.root id ≡ true
  unfolding merge_articles_into_thread
  merge_articles_into_thread_adds existing merged [] entry id parent h occurs named answers here =
      absurd occurs
  merge_articles_into_thread_adds existing merged (e ∷ es) entry id parent h occurs named answers
        here =
      let (known, run, exact) = collect_all_message_ids_exact existing.root in
      let relevant = relevant_entries fields dates known (e ∷ es) in
      let after = add_relevant fields dates known relevant existing in
      let made : ◌≡◌ {A = Option ThreadView} (some after) (some merged) =
        subst
          (λ o.
            (o >>= (λ ids. some (
              add_relevant fields dates ids (relevant_entries fields dates ids (e ∷ es)) existing)))
            ≡ some merged)
          run h in
      let same : after ≡ merged = cc in
      subst (λ t. has_id t.root id ≡ true) same
        (elim (Bool-cases (has_id existing.root id)) [
          | inl there ↦ (add_relevant_keeps known relevant existing).2.0 id there
          | inr new ↦ rw (root-add_relevant known relevant existing) (
              has_id-add_relevant known (e ∷ es) existing.root entry id parent (exact id ∙ new)
                (exact parent ∙ here) here named answers occurs)
        ])
