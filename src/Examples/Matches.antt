-- ===== src/Examples/Matches.antt =====
-- Concrete inputs for the theorems on ts/src/patternMatcher.ts.
use mathlib.Core.List.{Memᴰ}
use hellgraph.Base.{
  ◌≡◌, refl, true, false, none, some, [], ◌∷◌, ◌==◌, Memᴰ-cons, Memᴰ-nil, sym, subst, inl, inr, ℕ,
  String,
}
use hellgraph.Base.Sets.{add_new, remove, has}
use hellgraph.Dict
use hellgraph.AtomSpace.Values.{serialize_value, node_handle, link_handle, node_key, join}
use hellgraph.AtomSpace.Lattice
use hellgraph.AtomSpace.Lattice.{core_types, is_a, is_node, parents_of}
use hellgraph.AtomSpace.Space.{
  Atom, index, add_to, index_incoming, index_name, index_outgoing, index_value, unindex_value,
  write_value,
}
use hellgraph.AtomSpace.Log.{open_space, replay, append, insert, new_atom}
use hellgraph.AtomSpace.Write.{add_node, add_link, add_or_update, add_new_atom, set_value_of}
use hellgraph.AtomSpace.Restart.{perform, perform_all, after}
use hellgraph.AtomSpace.Read.{get_by_type, of_types, resolve}
use hellgraph.Matcher.{
  var, nil, cons, Clause, Grounding, unify_term, unify_terms, unify_link, extend_one, extend_all,
  match_clauses, find_groundings,
}
use hellgraph.Base.Text.{append_text}
use hellgraph.Matcher.Unify.{Extends}
use hellgraph.Matcher.Search.{Holds, find_groundings_sound, find_groundings_complete}
use hellgraph.Examples.Spaces.{host, cat, calls}

-- The lists of one member.
abbrev listed : Clause
listed = record { type = "ListLink"; outgoing = cons (var "x" none) nil }

abbrev solution : Grounding
solution = ("x", cat) ∷ []

abbrev list_atom : Atom ℕ
list_atom =
    new_atom {N = ℕ} "h:L\0ListLink\0h:N\0ConceptNo" "ListLink" none (some (cat ∷ [])) none none 2
      "t2"

found : find_groundings host (after host calls) (listed ∷ []) ≡ solution ∷ []
unfolding perform_all perform open_space add_node add_link set_value_of Dict.get add_or_update
    Lattice.is_link is_a ◌==◌ has Lattice.ancestors is_node Lattice.search_ancestors Lattice.climb
    Lattice.push_all parents_of core_types add_new replay add_new_atom append insert add_to index
    index_incoming index_name index_outgoing index_value unindex_value write_value join link_handle
    node_handle node_key serialize_value remove Dict.put find_groundings match_clauses extend_all
    extend_one unify_link unify_terms unify_term get_by_type of_types resolve
found = refl

solution_found : Memᴰ solution (find_groundings host (after host calls) (listed ∷ []))
solution_found = subst (λ gs. Memᴰ solution gs) (sym found) (Memᴰ.head refl)

find_groundings_sound_example : Holds host (after host calls) false listed solution
find_groundings_sound_example =
    find_groundings_sound host (after host calls) (listed ∷ []) solution listed solution_found
      (Memᴰ.head refl)

holds : (c : Clause) → Memᴰ c (listed ∷ []) → Holds host (after host calls) true c solution
unfolding perform_all perform open_space add_node add_link set_value_of Dict.get add_or_update
    Lattice.is_link is_a ◌==◌ has Lattice.ancestors is_node Lattice.search_ancestors Lattice.climb
    Lattice.push_all parents_of core_types add_new replay add_new_atom append insert add_to index
    index_incoming index_name index_outgoing index_value unindex_value write_value join link_handle
    node_handle node_key serialize_value remove Dict.put get_by_type of_types resolve
holds c m = elim ((Memᴰ-cons c listed []).0 m) [
  | inl e ↦
      subst (λ d. Holds host (after host calls) true d solution) (sym e)
        (list_atom, Memᴰ.head refl, (refl, ((refl, λ h. refl), tt)))
  | inr t ↦ absurd (Memᴰ-nil c t)
]

find_groundings_complete_example :
    (g : Grounding) × Memᴰ g (find_groundings host (after host calls) (listed ∷ []))
    × Extends g solution
find_groundings_complete_example =
    find_groundings_complete host (after host calls) (listed ∷ []) solution holds

abbrev entries : Grounding → String
entries [] = ""
entries ((name, h) ∷ g) = append_text name (append_text h (entries g))
