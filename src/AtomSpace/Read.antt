-- ===== src/AtomSpace/Read.antt =====
-- The read path of ts/src/atomspace.ts.
use hellgraph.Base.{
  ℕ, String, Bool, not, ◌&&◌, Option, none, some, List, [], ◌∷◌, ◌++◌, length, any, keep, leb, map,
  if◌then◌else◌,
}
use hellgraph.Dict
use hellgraph.Dict.{Dict}
use hellgraph.AtomSpace.Values.{Handle, Value, serialize_value, node_key}
use hellgraph.AtomSpace.Lattice.{TypeLattice, is_a}
use hellgraph.AtomSpace.Space.{Host, Atom, AtomSpace, set_at, value_set}

abbrev pub or_nil : Option Handle → Handle
or_nil none = ""
or_nil (some h) = h

abbrev pub outs : Option (List Handle) → List Handle
outs none = []
outs (some hs) = hs

module _ {N : Type 0} where
  abbrev pub cons_found : Option (Atom N) → List (Atom N) → List (Atom N)
  cons_found none rest = rest
  cons_found (some a) rest = a ∷ rest

  -- `Array.from(set, h => this.atoms.get(h)).filter(Boolean)`
  unfoldable pub resolve : Dict (Atom N) → List Handle → List (Atom N)
  resolve atoms [] = []
  resolve atoms (h ∷ hs) = cons_found (Dict.get atoms h) (resolve atoms hs)

  unfoldable pub get_atom : AtomSpace N → Handle → Option (Atom N)
  get_atom s h = Dict.get s.atoms h

  unfoldable pub get_node : AtomSpace N → String → String → Option (Atom N)
  get_node s type name = Dict.get s.atoms (or_nil (Dict.get s.node_index (node_key type name)))

  unfoldable pub all_atoms : AtomSpace N → List (Atom N)
  all_atoms s = map (λ (e : Handle × Atom N). e.1) s.atoms

  -- The loop over `byType` with the lattice's test.
  unfoldable pub of_types :
      TypeLattice → Dict (Atom N) → Dict (List Handle) → String → List (Atom N)
  of_types lat atoms [] type = []
  of_types lat atoms ((t, hs) ∷ m) type =
      let rest = of_types lat atoms m type in
      if is_a lat t type then resolve atoms hs ++ rest else rest

  unfoldable pub get_by_type : AtomSpace N → String → Bool → List (Atom N)
  get_by_type s type include_subtypes =
      if not include_subtypes
      then resolve s.atoms (set_at s.by_type type)
      else of_types s.types s.atoms s.by_type type

  unfoldable pub get_incoming : AtomSpace N → Handle → Option String → List (Atom N)
  get_incoming s h type =
      let links = resolve s.atoms (set_at s.incoming h) in
      elim type [ none ↦ links | some t ↦ keep (λ l. is_a s.types l.type t) links ]

  abbrev pub out_of : Option (Atom N) → List Handle
  out_of none = []
  out_of (some a) = outs a.outgoing

  unfoldable pub get_outgoing : AtomSpace N → Handle → List (Atom N)
  get_outgoing s h = resolve s.atoms (out_of (Dict.get s.atoms h))

  unfoldable pub find_by_value : Host N → AtomSpace N → String → Value N → List (Atom N)
  find_by_value host s key v =
      resolve s.atoms (value_set s.value_index key (serialize_value host.show v))

  unfoldable pub count : AtomSpace N → ℕ
  count s = length s.atoms

  abbrev is_dangling : Dict (Atom N) → Atom N → Bool
  is_dangling atoms a = any (λ h. not (Dict.has atoms h)) (outs a.outgoing)

  unfoldable pub dangling_link_count : AtomSpace N → ℕ
  unfolding all_atoms
  dangling_link_count s = length (keep (is_dangling s.atoms) (all_atoms s))

  abbrev is_orphan : AtomSpace N → Atom N → Bool
  is_orphan s a =
      not (leb 1 (length (set_at s.incoming a.handle))) && not (leb 1 (length (outs a.outgoing)))

  unfoldable pub orphan_count : AtomSpace N → ℕ
  unfolding all_atoms
  orphan_count s = length (keep (is_orphan s) (all_atoms s))
