-- ===== src/AtomSpace/Lattice/Cached.antt =====
-- The cache of ancestors (ts/src/atomspace.ts, `TypeLattice`).
use hellgraph.Base.{
  String, ◌≡◌, ◌↔◌, ◌⊎◌, inl, inr, ap, true, some, List, arith, ==_iff, Option-cases,
}
use hellgraph.Base.Sets.{has_iff}
use hellgraph.Dict
use hellgraph.AtomSpace.Lattice.{TypeLattice, new, declare, ancestors, search_ancestors, is_a}
use hellgraph.AtomSpace.Lattice.Ancestors.{Ancestor, search_ancestors_iff}

-- A cached set is what the search would find now.
abbrev pub IsCoherent : TypeLattice → Type 0
IsCoherent lat =
    (t : String) (out : List String)
    → Dict.get lat.ancestor_cache t ≡ some out
    → out ≡ search_ancestors lat.parents t

pub new-IsCoherent : IsCoherent new
new-IsCoherent t out h = ground (arith, Dict.get-nil {V = List String} t)

-- A declaration clears the cache, which a new supertype would make stale.
pub declare-IsCoherent :
    (lat : TypeLattice) (t : String) (ps : List String) → IsCoherent (declare lat t ps)
unfolding declare
declare-IsCoherent lat t ps u out h = ground (arith, Dict.get-nil {V = List String} u)

pub ancestors-IsCoherent :
    (lat : TypeLattice) (t : String) → IsCoherent lat → IsCoherent (ancestors lat t).1
unfolding ancestors
ancestors-IsCoherent lat t c = elim (Option-cases (Dict.get lat.ancestor_cache t)) [
  | inl miss ↦
      rw (miss, ancestors)
        (λ u out h. ground (
          arith,
          c u out,
          ==_iff t u,
          ap (search_ancestors lat.parents),
          Dict.get-put lat.ancestor_cache t (search_ancestors lat.parents t) u,
        ))
  | inr (out, hit) ↦ rw (hit, ancestors) c
]

-- With a coherent cache `ancestors` returns what the search finds.
pub ancestors_lem :
    (lat : TypeLattice) (t : String)
    → IsCoherent lat
    → (ancestors lat t).0 ≡ search_ancestors lat.parents t
unfolding ancestors
ancestors_lem lat t c = elim (Option-cases (Dict.get lat.ancestor_cache t)) [
  | inl miss ↦ rw (miss, ancestors)
  | inr (out, hit) ↦ rw (hit, ancestors) (c t out hit)
]

-- `isA` decides the reflexive and transitive closure of the direct supertypes, whatever the cache
-- holds as long as it is coherent.
pub is_a_iff :
    (lat : TypeLattice) (t s : String)
    → IsCoherent lat
    → (is_a lat t s ≡ true) ↔ ((t ≡ s) ⊎ Ancestor lat.parents t s)
unfolding is_a
is_a_iff lat t s c =
    let found = search_ancestors_iff lat.parents t s in
    let same = ancestors_lem lat t c in
    rw same
      (ground (arith, ==_iff t s, has_iff (search_ancestors lat.parents t) s, found.0, found.1))
