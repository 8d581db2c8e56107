-- ===== src/AtomSpace/Types.antt =====
-- The type lattice across writes and a restart (ts/src/atomspace.ts).
use mathlib.Core.List.{Memᴰ}
use mathlib.Core.List.Memᴰ
use hellgraph.Base.{
  String, ◌≡◌, ◌≢◌, inl, inr, refl, ap, subst, ◌∙◌, true, false, Option, none, some, List, [], ◌∷◌,
  arith, ==_refl, Option-cases, Bool-cases,
}
use hellgraph.Base.Sets.{mem-add_all}
use hellgraph.Dict
use hellgraph.AtomSpace.Values.{Handle, TruthValue, AttentionValue, node_handle}
use hellgraph.AtomSpace.Lattice
use hellgraph.AtomSpace.Lattice.{
  TypeLattice, Parents, core_types, parents_of, declare, is_a, is_node, or_empty,
}
use hellgraph.AtomSpace.Lattice.Ancestors.{Ancestor, direct, further}
use hellgraph.AtomSpace.Lattice.Cached.{new-IsCoherent, declare-IsCoherent, is_a_iff}
use hellgraph.AtomSpace.Space.{Host, AtomSpace, AtomLogEntry}
use hellgraph.AtomSpace.Log.{append, open_space}
use hellgraph.AtomSpace.Write.{
  set_truth_value, set_attention_value, maybe_tv, maybe_av, add_new_atom, add_or_update, declared,
  add_node,
}

declare-parent :
    (lat : TypeLattice) (t super : String)
    → Memᴰ super (parents_of (declare lat t (super ∷ [])).parents t)
unfolding declare parents_of
declare-parent lat t super =
    let old = parents_of lat.parents t in
    let found = (mem-add_all old (super ∷ []) super).1 (inr (Memᴰ.head refl)) in
    rw (Dict.get-put, ==_refl) found

-- A declared type is a subtype of what it was declared under.
pub is_a-declare :
    (lat : TypeLattice) (t super : String) → is_a (declare lat t (super ∷ [])) t super ≡ true
is_a-declare lat t super =
    (is_a_iff (declare lat t (super ∷ [])) t super (declare-IsCoherent lat t (super ∷ []))).1
      (inr (direct (declare-parent lat t super)))

no-Ancestor : (m : Parents) (t : String) {s : String} → parents_of m t ≡ [] → ¬ Ancestor m t s
no-Ancestor m t e (direct up) = Memᴰ.not-nil (subst (Memᴰ _) e up)
no-Ancestor m t e (further chain up) = no-Ancestor m t e chain

-- A type that is neither "Node" nor in the core table is no node type to a new lattice.
pub is_node-new :
    (t : String) → Dict.get core_types t ≡ none → t ≢ "Node" → is_node Lattice.new t ≡ false
unfolding is_node
is_node-new t absent ne = elim (Bool-cases (is_a Lattice.new t "Node")) [
  | inr is_not ↦ is_not
  | inl is ↦ elim ((is_a_iff Lattice.new t "Node" new-IsCoherent).0 is) [
    | inl e ↦ absurd (ne e)
    | inr chain ↦ absurd (no-Ancestor core_types t (unfold parents_of in ap or_empty absent) chain)
  ]
]

module _ {N : Type 0} where
  types-set_truth_value :
      (s : AtomSpace N) (h : Handle) (tv : TruthValue N) (now : String)
      → (set_truth_value s h tv now).types ≡ s.types
  unfolding set_truth_value append
  types-set_truth_value s h tv now = ground arith

  types-set_attention_value :
      (s : AtomSpace N) (h : Handle) (av : AttentionValue N) (now : String)
      → (set_attention_value s h av now).types ≡ s.types
  unfolding set_attention_value append
  types-set_attention_value s h av now = ground arith

  types-maybe_tv :
      (s : AtomSpace N) (h : Handle) (tv : Option (TruthValue N)) (now : String)
      → (maybe_tv s h tv now).types ≡ s.types
  types-maybe_tv s h none now = refl
  types-maybe_tv s h (some tv) now = types-set_truth_value s h tv now

  types-maybe_av :
      (s : AtomSpace N) (h : Handle) (av : Option (AttentionValue N)) (now : String)
      → (maybe_av s h av now).types ≡ s.types
  types-maybe_av s h none now = refl
  types-maybe_av s h (some av) now = types-set_attention_value s h av now

  types-add_or_update :
      (s : AtomSpace N) (h : Handle) (type : String) (name : Option String)
      (outgoing : Option (List Handle)) (tv : Option (TruthValue N))
      (av : Option (AttentionValue N)) (now later : String)
      → (add_or_update s h type name outgoing tv av now later).types ≡ s.types
  unfolding add_or_update
  types-add_or_update s h type name outgoing tv av now later =
      elim (Option-cases (Dict.get s.atoms h)) [
        | inl absent ↦ rw (absent, add_or_update) (unfold add_new_atom append in refl)
        | inr (atom, there) ↦
            rw (there, add_or_update)
              (types-maybe_av (maybe_tv s h tv now) h av later ∙ types-maybe_tv s h tv now)
      ]

  node_after :
      (s : AtomSpace N) (type : String)
      → is_node (declared s (is_node s.types type) type "Node").types type ≡ true
  node_after s type = elim (Bool-cases (is_node s.types type)) [
    | inl known ↦ rw known known
    | inr unknown ↦ rw unknown (unfold is_node in is_a-declare s.types type "Node")
  ]

  module _ (host : Host N) where
    add_node-types :
        (s : AtomSpace N) (type name : String) (tv : Option (TruthValue N))
        (av : Option (AttentionValue N)) (now later : String)
        → is_node (add_node host s type name tv av now later).0.types type ≡ true
    unfolding add_node
    add_node-types s type name tv av now later =
        let s' = declared s (is_node s.types type) type "Node" in
        let h = node_handle host.sha1_hex type name in
        rw (types-add_or_update s' h type (some name) none tv av now later) (node_after s type)

    reopened : (b : Option (List (AtomLogEntry N))) → (open_space host b).types ≡ Lattice.new
    unfolding open_space
    reopened none = refl
    reopened (some es) = refl

    -- A type under which a node was added is a node type from then on, but not after a restart,
    -- unless it is "Node" itself or in the core table: what `addNode` declares is not logged.
    pub restart-is_node :
        (s : AtomSpace N) (type name : String) (tv : Option (TruthValue N))
        (av : Option (AttentionValue N)) (now later : String)
        → Dict.get core_types type ≡ none
        → type ≢ "Node"
        → (is_node (add_node host s type name tv av now later).0.types type ≡ true)
          × (is_node
                (open_space host (add_node host s type name tv av now later).0.backend).types
                type
              ≡ false)
    restart-is_node s type name tv av now later absent ne = (
      add_node-types s type name tv av now later,
      rw (reopened (add_node host s type name tv av now later).0.backend)
          (is_node-new type absent ne),
    )
