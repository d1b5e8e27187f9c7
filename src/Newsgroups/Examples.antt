-- ===== src/Newsgroups/Examples.antt =====
-- The theorems about the tree of newsgroups of src/nntp/mod.rs at concrete groups, and tests.
use september.Base.{
  ◌≡◌, ◌≢◌, refl, String, none, some, List, [], ◌∷◌, ◌>>=◌, if◌then◌else◌, lookup, insert,
}
use september.Base.Sorting.{sort_by_name, insert_sorted, str_leb}
use september.Federated.Groups.{GroupView}
use september.Newsgroups.{
  nil, cons, node, full_name, count, build_tree, build_tree_with_stats, find_node_at_path,
  find_children_at_path, walk_children, find_segment, split_dots, insert_groups, insert_group,
  insert_path, update_node, find_or_push, child_map,
}
use september.Newsgroups.Equivalence.{scan_groups, build_tree_with_stats-scan}
use september.Newsgroups.Lookups.{is_group, find_node_at_path-built}
use september.Newsgroups.Names.{
  has_name, extract_all_group_names, extract_top_level_group_names, extract_all_group_names-built,
}

abbrev groups : List GroupView
groups =
    record { name = "comp.lang.c"; description = some "C"; article_count = none }
    ∷ record { name = "alt"; description = none; article_count = some 3 }
    ∷ record { name = "comp.lang"; description = none; article_count = none }
    ∷ []

build_tree_with_stats-scan_example :
    build_tree_with_stats groups (("alt", 2) ∷ []) []
    ≡ some (scan_groups (("alt", 2) ∷ []) [] (sort_by_name (λ g. g.name) groups) nil)
build_tree_with_stats-scan_example = build_tree_with_stats-scan groups (("alt", 2) ∷ []) []

lang_not_empty : ◌≢◌ {A = String} "comp.lang" ""
lang_not_empty e = cc

find_node_at_path-built_example :
    (build_tree_with_stats groups [] [] >>= λ roots.
    find_node_at_path roots "comp.lang" >>= full_name)
    ≡ (if is_group "comp.lang" groups then some "comp.lang" else none)
find_node_at_path-built_example = find_node_at_path-built groups [] [] "comp.lang" lang_not_empty

build_tree_test :
    build_tree groups
    ≡ some (
        cons (node "alt" (some "alt") none nil none none) (
          cons
            (node "comp" none none
              (cons
                (node "lang"
                  (some "comp.lang")
                  none
                  (cons (node "c" (some "comp.lang.c") (some "C") nil none none) nil)
                  none
                  none)
                nil)
              none
              none)
            nil))
unfolding build_tree insert_groups insert_group insert_path update_node find_or_push child_map
    sort_by_name insert_sorted str_leb split_dots lookup insert
build_tree_test = refl

find_children_test :
    (build_tree groups >>= λ roots. find_children_at_path roots "comp" >>= λ cs. some (count cs))
    ≡ some 1
unfolding build_tree insert_groups insert_group insert_path update_node find_or_push child_map
    sort_by_name insert_sorted str_leb split_dots lookup insert find_children_at_path walk_children
    find_segment
find_children_test = refl

extract_all_group_names-built_example :
    (build_tree_with_stats groups [] [] >>= λ roots.
    some (has_name "comp.lang" (extract_all_group_names roots)))
    ≡ some (is_group "comp.lang" groups)
extract_all_group_names-built_example = extract_all_group_names-built groups [] [] "comp.lang"

-- comp is no group itself, so the top level has only alt.
extract_top_level_test :
    (build_tree groups >>= λ roots. some (extract_top_level_group_names roots)) ≡ some ("alt" ∷ [])
unfolding extract_top_level_group_names build_tree insert_groups insert_group insert_path
    update_node find_or_push child_map sort_by_name insert_sorted str_leb split_dots lookup insert
extract_top_level_test = refl
