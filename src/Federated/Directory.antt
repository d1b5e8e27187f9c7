-- ===== src/Federated/Directory.antt =====
-- What the directory of groups and servers promises: which servers it names, and that every index
-- it holds is one of a service.
use september.Base.{
  ℕ, zero, suc, ◌+◌, ◌<◌, ◌≡◌, true, List, [], ◌∷◌, String, Map, lookup, arith, Bool-cases,
  Option-cases, ◌≤◌, sym, subst, ◌∙◌, length, get_elem?, All, ◌⊎◌, inl, inr,
}
use september.Federated.{ok}
use september.Federated.Groups.{
  GroupView, GroupService, or_default, gather_servers, nothing_gathered, Gathered, Directory,
  fetch_groups_from_servers, get_servers_for_group, count_up,
}
use september.Federated.Carriers.{elem, carries, carries_posting, servers_of, gathered_exact}

-- After a fetch in which some server answered, the directory names for each group exactly the
-- servers that answered with it, and for posting exactly those of them that allow it.
pub fetch_groups_exact :
    (services : List GroupService) (self : Directory) (groups : List GroupView) (j : ℕ)
    (name : String)
    → (fetch_groups_from_servers services self).1 ≡ ok groups
    → (elem j (servers_of name (fetch_groups_from_servers services self).0.group_servers)
        ≡ carries (get_elem? services j) name)
      × (elem j (servers_of name (fetch_groups_from_servers services self).0.posting_servers)
          ≡ carries_posting (get_elem? services j) name)
unfolding fetch_groups_from_servers
fetch_groups_exact services self groups j name h =
    elim (Bool-cases (gather_servers 0 services nothing_gathered).any_success) [
      | inr none_answered ↦ absurd (ground arith)
      | inl answered ↦ rw answered (gathered_exact services j name)
    ]

-- Every index that the directory holds names one of the services.
abbrev pub Within : ℕ → Map (List ℕ) → Type 0
Within services m = (name : String) → All (λ i. i < services) (servers_of name m)

abbrev pub IsValid : ℕ → Directory → Type 0
IsValid services self = Within services self.group_servers × Within services self.posting_servers

elem-All : (n : ℕ) (is : List ℕ) → ((j : ℕ) → elem j is ≡ true → j < n) → All (λ i. i < n) is
elem-All n [] h = tt
elem-All n (i ∷ is) h = (h i (ground arith), elem-All n is (λ j e. h j (ground arith)))

carries_inside :
    (services : List GroupService) (j : ℕ) (name : String)
    → (carries (get_elem? services j) name ≡ true)
      ⊎ (carries_posting (get_elem? services j) name ≡ true)
    → j < length services
carries_inside [] j name (inl h) = cc
carries_inside [] j name (inr h) = cc
carries_inside (s ∷ services) zero name h = omega arith
carries_inside (s ∷ services) (suc j) name h = omega (arith, carries_inside services j name h)

gathered-Within :
    (services : List GroupService)
    → Within (length services) (gather_servers 0 services nothing_gathered).group_to_servers
      × Within (length services) (gather_servers 0 services nothing_gathered).posting_to_servers
gathered-Within services = (
  λ name.
      elem-All (length services) (servers_of name g.group_to_servers)
        (λ j e. carries_inside services j name (inl (sym (gathered_exact services j name).0 ∙ e))),
  λ name.
      elem-All (length services) (servers_of name g.posting_to_servers)
        (λ j e. carries_inside services j name (inr (sym (gathered_exact services j name).1 ∙ e))),
)
  where
    g : Gathered
    g = gather_servers 0 services nothing_gathered

-- A fetch keeps every index in the directory valid, whether it succeeds or fails.
pub fetch_groups-IsValid :
    (services : List GroupService) (self : Directory)
    → IsValid (length services) self
    → IsValid (length services) (fetch_groups_from_servers services self).0
unfolding fetch_groups_from_servers
fetch_groups-IsValid services self valid =
    elim (Bool-cases (gather_servers 0 services nothing_gathered).any_success) [
      | inr none_answered ↦ rw none_answered valid
      | inl answered ↦ rw answered (gathered-Within services)
    ]

count_up-All : (i n bound : ℕ) → i + n ≤ bound → All (λ j. j < bound) (count_up i n)
unfolding count_up
count_up-All i zero bound h = tt
count_up-All i (suc n) bound h = (omega arith, count_up-All (suc i) n bound (omega arith))

-- With a valid directory, every server that a group is dispatched to exists.
pub get_servers_for_group-inside :
    (services : ℕ) (self : Directory) (group : String)
    → IsValid services self
    → All (λ i. i < services) (get_servers_for_group services self group)
unfolding get_servers_for_group
get_servers_for_group-inside services self group valid =
    elim (Option-cases (lookup group self.group_servers)) [
      | inl unknown ↦ rw unknown (count_up-All 0 services services (omega arith))
      | inr (indices, known) ↦
          rw known (subst (λ o. All (λ i. i < services) (or_default o)) known (valid.0 group))
    ]
