-- ===== src/Federated/Carriers.antt =====
-- Which servers the directory names for a group, after the list of groups was fetched.
use september.Base.{
  ℕ, zero, suc, ◌+◌, ◌<◌, ◌≡◌, refl, subst, Bool, true, false, ◌&&◌, ◌||◌, Option, none, some, List,
  [], ◌∷◌, ◌++◌, String, str_eq, eq_iff, Map, lookup, lookup-insert, arith, ◌==◌, Bool-cases,
  get_elem?, ◌∙◌, ap, inl, inr,
}
use september.Federated.{Result, ok, err, NntpError}
use september.Federated.Groups.{
  GroupView, GroupService, or_default, entry_push, Gathered, gather_group, gather_groups,
  gather_answer, gather_servers, nothing_gathered,
}

abbrev pub elem : ℕ → List ℕ → Bool
elem j [] = false
elem j (i ∷ is) = j == i || elem j is

elem-append : (j : ℕ) (xs ys : List ℕ) → elem j (xs ++ ys) ≡ (elem j xs || elem j ys)
elem-append j [] ys = refl
elem-append j (x ∷ xs) ys = ground (arith, elem-append j xs ys)

-- The service lists a group of this name.
abbrev pub lists : String → List GroupView → Bool
lists name [] = false
lists name (group ∷ groups) = str_eq group.name name || lists name groups

-- Service `j` answers, and lists the group.
abbrev pub offers : Result (List GroupView) NntpError → String → Bool
offers (ok groups) name = lists name groups
offers (err e) name = false

abbrev pub carries : Option GroupService → String → Bool
carries none name = false
carries (some service) name = offers service.groups name

abbrev pub carries_posting : Option GroupService → String → Bool
carries_posting none name = false
carries_posting (some service) name = service.is_posting_allowed && offers service.groups name

-- The servers that the map has for a name.
abbrev pub servers_of : String → Map (List ℕ) → List ℕ
servers_of name m = or_default (lookup name m)

elem-entry_push :
    (j i : ℕ) (q name : String) (m : Map (List ℕ))
    → elem j (servers_of q (entry_push name i m))
      ≡ (elem j (servers_of q m) || (str_eq name q && (j == i)))
unfolding entry_push
elem-entry_push j i q name m = elim (Bool-cases (str_eq name q)) [
  | inr other ↦ ground (arith, lookup-insert name q (or_default (lookup name m) ++ i ∷ []) m, other)
  | inl same ↦
      let key : name ≡ q = (eq_iff name q).0 same in
      let read : lookup q (entry_push name i m) ≡ some (or_default (lookup name m) ++ i ∷ []) =
        ground (arith, lookup-insert name q (or_default (lookup name m) ++ i ∷ []) m, same) in
      let here : lookup name m ≡ lookup q m = ap (λ k. lookup k m) key in
      rw (read, here, same, elem-append) (ground arith)
]

elem-gather_group :
    (i j : ℕ) (q : String) (allows : Bool) (group : GroupView) (g : Gathered)
    → (elem j (servers_of q (gather_group i allows group g).group_to_servers)
        ≡ (elem j (servers_of q g.group_to_servers) || (str_eq group.name q && (j == i))))
      × (elem j (servers_of q (gather_group i allows group g).posting_to_servers) ≡ (
          elem j (servers_of q g.posting_to_servers)
          || (allows && (str_eq group.name q && (j == i)))))
unfolding gather_group
elem-gather_group i j q true group g = (
  elem-entry_push j i q group.name g.group_to_servers,
  elem-entry_push j i q group.name g.posting_to_servers,
)
elem-gather_group i j q false group g =
    (elem-entry_push j i q group.name g.group_to_servers, ground arith)

elem-gather_groups :
    (i j : ℕ) (q : String) (allows : Bool) (groups : List GroupView) (g : Gathered)
    → (elem j (servers_of q (gather_groups i allows groups g).group_to_servers)
        ≡ (elem j (servers_of q g.group_to_servers) || (lists q groups && (j == i))))
      × (elem j (servers_of q (gather_groups i allows groups g).posting_to_servers) ≡ (
          elem j (servers_of q g.posting_to_servers) || (allows && (lists q groups && (j == i)))))
unfolding gather_groups
elem-gather_groups i j q allows [] g = (ground arith, ground arith)
elem-gather_groups i j q allows (group ∷ groups) g =
    let (all, posting) = elem-gather_groups i j q allows groups (gather_group i allows group g) in
    let (one, one_posting) = elem-gather_group i j q allows group g in
    (
      rw (all, one)
          (merge (elem j (servers_of q g.group_to_servers)) (str_eq group.name q) (lists q groups)
            (j == i)),
      rw (posting, one_posting)
          (merge_posting (elem j (servers_of q g.posting_to_servers)) allows (str_eq group.name q)
            (lists q groups) (j == i)),
    )
  where
    merge : (x a b c : Bool) → ((x || (a && c)) || (b && c)) ≡ (x || ((a || b) && c))
    merge x a b c = ground arith

    merge_posting :
        (x p a b c : Bool)
        → ((x || (p && (a && c))) || (p && (b && c))) ≡ (x || (p && ((a || b) && c)))
    merge_posting x p a b c = ground arith

-- What a list of services from index `i` on offers under index `j`.
abbrev pub carries_from : ℕ → List GroupService → ℕ → String → Bool
carries_from i [] j name = false
carries_from i (service ∷ services) j name =
    (offers service.groups name && (j == i)) || carries_from (suc i) services j name

abbrev pub carries_posting_from : ℕ → List GroupService → ℕ → String → Bool
carries_posting_from i [] j name = false
carries_posting_from i (service ∷ services) j name =
    ((service.is_posting_allowed && offers service.groups name) && (j == i))
    || carries_posting_from (suc i) services j name

carries_from_before :
    (i : ℕ) (services : List GroupService) (j : ℕ) (name : String)
    → j < i
    → (carries_from i services j name ≡ false) × (carries_posting_from i services j name ≡ false)
carries_from_before i [] j name h = (refl, refl)
carries_from_before i (service ∷ services) j name h =
    let (all, posting) = carries_from_before (suc i) services j name (omega arith) in
    (ground arith, ground arith)

carries_from-exact :
    (i : ℕ) (services : List GroupService) (d : ℕ) (name : String)
    → (carries_from i services (d + i) name ≡ carries (get_elem? services d) name)
      × (carries_posting_from i services (d + i) name ≡ carries_posting (get_elem? services d) name)
carries_from-exact i [] d name = (refl, refl)
carries_from-exact i (service ∷ services) zero name =
    let (all, posting) = carries_from_before (suc i) services i name (omega arith) in
    (ground arith, ground arith)
carries_from-exact i (service ∷ services) (suc d) name =
    let (all, posting) = carries_from-exact (suc i) services d name in
    let shift : d + suc i ≡ suc d + i = omega arith in
    let all' : carries_from (suc i) services (suc d + i) name
        ≡ carries (get_elem? services d) name =
      subst (λ j. carries_from (suc i) services j name ≡ carries (get_elem? services d) name) shift
        all in
    let posting' : carries_posting_from (suc i) services (suc d + i) name
        ≡ carries_posting (get_elem? services d) name =
      subst
        (λ j.
          carries_posting_from (suc i) services j name
          ≡ carries_posting (get_elem? services d) name)
        shift posting in
    (ground arith, ground arith)

elem-gather_answer :
    (i j : ℕ) (q : String) (p : Bool) (answer : Result (List GroupView) NntpError) (g : Gathered)
    → (elem j (servers_of q (gather_answer i p answer g).group_to_servers)
        ≡ (elem j (servers_of q g.group_to_servers) || (offers answer q && (j == i))))
      × (elem j (servers_of q (gather_answer i p answer g).posting_to_servers)
          ≡ (elem j (servers_of q g.posting_to_servers) || ((p && offers answer q) && (j == i))))
unfolding gather_answer
elem-gather_answer i j q p (err e) g = (ground arith, ground arith)
elem-gather_answer i j q p (ok groups) g =
    let (all, posting) = elem-gather_groups i j q p groups (record g { any_success = true }) in
    (
      all,
      rw posting (assoc (elem j (servers_of q g.posting_to_servers)) p (lists q groups) (j == i)),
    )
  where
    assoc : (x a b c : Bool) → (x || (a && (b && c))) ≡ (x || ((a && b) && c))
    assoc x a b c = ground arith

or_assoc : (x a b : Bool) → ((x || a) || b) ≡ (x || (a || b))
or_assoc x a b = ground arith

elem-gather_servers :
    (i j : ℕ) (q : String) (services : List GroupService) (g : Gathered)
    → (elem j (servers_of q (gather_servers i services g).group_to_servers)
        ≡ (elem j (servers_of q g.group_to_servers) || carries_from i services j q))
      × (elem j (servers_of q (gather_servers i services g).posting_to_servers)
          ≡ (elem j (servers_of q g.posting_to_servers) || carries_posting_from i services j q))
unfolding gather_servers
elem-gather_servers i j q [] g = (ground arith, ground arith)
elem-gather_servers i j q (service ∷ services) g =
    let next : Gathered = gather_answer i service.is_posting_allowed service.groups g in
    let (all, posting) = elem-gather_servers (suc i) j q services next in
    let (one, one_posting) = elem-gather_answer i j q service.is_posting_allowed service.groups g in
    let x = elem j (servers_of q g.group_to_servers) in
    let y = elem j (servers_of q g.posting_to_servers) in
    let here = offers service.groups q in
    (
      rw (all, one) (or_assoc x (here && (j == i)) (carries_from (suc i) services j q)),
      rw (posting, one_posting)
          (or_assoc y ((service.is_posting_allowed && here) && (j == i))
            (carries_posting_from (suc i) services j q)),
    )

-- The two maps that the loop over all services gathers.
pub gathered_exact :
    (services : List GroupService) (j : ℕ) (name : String)
    → (elem j (servers_of name (gather_servers 0 services nothing_gathered).group_to_servers)
        ≡ carries (get_elem? services j) name)
      × (elem j (servers_of name (gather_servers 0 services nothing_gathered).posting_to_servers)
          ≡ carries_posting (get_elem? services j) name)
unfolding lookup
gathered_exact services j name =
    let (all, posting) = elem-gather_servers 0 j name services nothing_gathered in
    let (exact, exact_posting) = carries_from-exact 0 services j name in
    let zero_right : j + 0 ≡ j = omega arith in
    (
      all
          ∙ subst (λ k. carries_from 0 services k name ≡ carries (get_elem? services j) name)
              zero_right exact,
      posting
          ∙ subst
              (λ k.
                carries_posting_from 0 services k name
                ≡ carries_posting (get_elem? services j) name)
              zero_right exact_posting,
    )
