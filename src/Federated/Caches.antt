-- ===== src/Federated/Caches.antt =====
-- A cache that forgets nothing has the laws that the service relies on of moka::future::Cache.
use september.Base.{
  ◌≡◌, ◌≢◌, refl, sym, ◌∙◌, none, some, String, str_eq, eq_iff, str_eq_refl, Map, lookup, insert,
  remove, lookup-insert, lookup-remove, inl, inr, Bool-cases,
}
use september.Federated.{Cache}

module _ {V : Type 0} where
  pub read_back : (s : Map V) (k : String) (v w : V) → lookup k (insert k v s) ≡ some w → w ≡ v
  read_back s k v w h =
      let hit : some v ≡ some w = sym (rw (lookup-insert k k v s, str_eq_refl k) refl) ∙ h in cc

  pub read_other :
      (s : Map V) (k j : String) (v w : V)
      → k ≢ j
      → lookup j (insert k v s) ≡ some w
      → lookup j s ≡ some w
  read_other s k j v w differ h = elim (Bool-cases (str_eq k j)) [
    | inl same ↦ absurd (differ ((eq_iff k j).0 same))
    | inr other ↦ sym (rw (lookup-insert k j v s, other) refl) ∙ h
  ]

  pub read_removed : (s : Map V) (k : String) → lookup k (remove k s) ≡ none
  read_removed s k = rw (lookup-remove k k s, str_eq_refl k) refl

  pub read_kept :
      (s : Map V) (k j : String) (w : V) → lookup j (remove k s) ≡ some w → lookup j s ≡ some w
  read_kept s k j w h = elim (Bool-cases (str_eq k j)) [
    | inl same ↦
        let miss : none ≡ some w = sym (rw (lookup-remove k j s, same) refl) ∙ h in absurd (cc)
    | inr other ↦ sym (rw (lookup-remove k j s, other) refl) ∙ h
  ]

unfoldable pub map_cache : (V : Type 0) → Cache V
map_cache V = record {
  Store = Map V;
  get = λ s k. lookup k s;
  insert = λ s k v. insert k v s;
  invalidate = λ s k. remove k s;
  get-insert_self = read_back;
  get-insert_ne = read_other;
  get-invalidate_self = read_removed;
  get-invalidate_ne = read_kept;
}
