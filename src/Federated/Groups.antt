-- ===== src/Federated/Groups.antt =====
-- The list of groups that all servers carry together, and which server carries which.
use september.Base.{
  ℕ, zero, suc, Bool, true, false, Option, none, some, List, [], ◌∷◌, ◌++◌, String, Map, lookup,
  insert, if◌then◌else◌,
}
use september.Base.Text.{codes}
use september.Base.Sorting.{sort_by_name}
use september.Federated.{NntpError, AppError, internal, Result, ok, err}

pub record GroupView : Type 0 where
  pub name : String
  pub description : Option String
  pub article_count : Option ℕ

-- A service: what it answers to get_groups, and is_posting_allowed.
pub record GroupService : Type 0 where
  pub groups : Result (List GroupView) NntpError
  pub is_posting_allowed : Bool

abbrev pub or_default : Option (List ℕ) → List ℕ
or_default none = []
or_default (some indices) = indices

-- map.entry(name).or_default().push(server_idx)
unfoldable pub entry_push : String → ℕ → Map (List ℕ) → Map (List ℕ)
entry_push name server_idx m = insert name (or_default (lookup name m) ++ server_idx ∷ []) m

-- What the loop over the servers gathers.
pub record Gathered : Type 0 where
  pub all_groups : List GroupView
  pub seen_names : Map (Unit {0})
  pub group_to_servers : Map (List ℕ)
  pub posting_to_servers : Map (List ℕ)
  pub any_success : Bool

add_if_new : GroupView → Option (Unit {0}) → List GroupView → List GroupView
add_if_new group none all_groups = all_groups ++ group ∷ []
add_if_new group (some _) all_groups = all_groups

-- The body of the loop over the groups of one server.
unfoldable pub gather_group : ℕ → Bool → GroupView → Gathered → Gathered
unfolding add_if_new
gather_group server_idx server_allows_posting group g = record g {
  all_groups = add_if_new group (lookup group.name g.seen_names) g.all_groups;
  seen_names = insert group.name tt g.seen_names;
  group_to_servers = entry_push group.name server_idx g.group_to_servers;
  posting_to_servers =
      if server_allows_posting
      then entry_push group.name server_idx g.posting_to_servers
      else g.posting_to_servers;
}

-- for group in groups
unfoldable pub gather_groups : ℕ → Bool → List GroupView → Gathered → Gathered
gather_groups server_idx allows [] g = g
gather_groups server_idx allows (group ∷ groups) g =
    gather_groups server_idx allows groups (gather_group server_idx allows group g)

-- match service.get_groups().await
unfoldable pub gather_answer : ℕ → Bool → Result (List GroupView) NntpError → Gathered → Gathered
gather_answer server_idx allows (ok groups) g =
    gather_groups server_idx allows groups (record g { any_success = true })
gather_answer server_idx allows (err e) g = g

-- for (server_idx, service) in self.services.iter().enumerate()
unfoldable pub gather_servers : ℕ → List GroupService → Gathered → Gathered
gather_servers server_idx [] g = g
gather_servers server_idx (service ∷ services) g =
    gather_servers (suc server_idx) services
      (gather_answer server_idx service.is_posting_allowed service.groups g)

abbrev pub nothing_gathered : Gathered
nothing_gathered = record {
  all_groups = [];
  seen_names = [];
  group_to_servers = [];
  posting_to_servers = [];
  any_success = false;
}

-- group_servers, posting_servers and what the cache of the list of groups was last given.
pub record Directory : Type 0 where
  pub group_servers : Map (List ℕ)
  pub posting_servers : Map (List ℕ)
  pub groups_cache : Option (List GroupView)

unfoldable pub fetch_groups_from_servers :
    List GroupService → Directory → Directory × Result (List GroupView) AppError
fetch_groups_from_servers services self =
    let g = gather_servers 0 services nothing_gathered in
    let all_groups = sort_by_name (λ group. group.name) g.all_groups in
    if g.any_success
    then (
      record {
        group_servers = g.group_to_servers;
        posting_servers = g.posting_to_servers;
        groups_cache = some all_groups;
      },
      ok all_groups,
    )
    else (self, err (internal (codes "Failed to fetch groups from any server")))

-- (0..n).collect(), from i on.
unfoldable pub count_up : ℕ → ℕ → List ℕ
count_up i zero = []
count_up i (suc n) = i ∷ count_up (suc i) n

servers_or_all : ℕ → Option (List ℕ) → List ℕ
servers_or_all services none = count_up 0 services
servers_or_all services (some indices) = indices

-- `services` is self.services.len().
unfoldable pub get_servers_for_group : ℕ → Directory → String → List ℕ
unfolding servers_or_all
get_servers_for_group services self group =
    servers_or_all services (lookup group self.group_servers)

some_nonempty : Option (List ℕ) → Bool
some_nonempty (some (i ∷ is)) = true
some_nonempty _ = false

unfoldable pub can_post_to_group : Directory → String → Bool
unfolding some_nonempty
can_post_to_group self group =
    if some_nonempty (lookup group self.posting_servers)
    then true
    else some_nonempty (lookup group self.group_servers)
