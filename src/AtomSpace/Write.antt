-- ===== src/AtomSpace/Write.antt =====
-- The write path of ts/src/atomspace.ts. `new Date().toISOString()` is an argument of each call, and a
-- second one, `later`, where a call may append two entries.
use hellgraph.Base.{String, Bool, Option, none, some, List, [], ◌∷◌, if◌then◌else◌}
use hellgraph.Dict
use hellgraph.AtomSpace.Values.{Handle, TruthValue, AttentionValue, Value, node_handle, link_handle}
use hellgraph.AtomSpace.Lattice.{declare, is_node, is_link}
use hellgraph.AtomSpace.Space.{Host, add_atom, set_tv, set_av, set_value, AtomSpace, write_value}
use hellgraph.AtomSpace.Log.{append, insert, new_atom}

module _ {N : Type 0} where
  unfoldable pub set_truth_value : AtomSpace N → Handle → TruthValue N → String → AtomSpace N
  set_truth_value s h tv now = elim (Dict.get s.atoms h) [
    | none ↦ s
    | some atom ↦
        append
          (record s {
            graph = record s.graph { atoms = Dict.put s.atoms h (record atom { tv = some tv }) };
          })
          (set_tv h tv) now
  ]

  unfoldable pub set_attention_value :
      AtomSpace N → Handle → AttentionValue N → String → AtomSpace N
  set_attention_value s h av now = elim (Dict.get s.atoms h) [
    | none ↦ s
    | some atom ↦
        append
          (record s {
            graph = record s.graph { atoms = Dict.put s.atoms h (record atom { av = some av }) };
          })
          (set_av h av) now
  ]

  abbrev pub maybe_tv : AtomSpace N → Handle → Option (TruthValue N) → String → AtomSpace N
  maybe_tv s h none now = s
  maybe_tv s h (some tv) now = set_truth_value s h tv now

  abbrev pub maybe_av : AtomSpace N → Handle → Option (AttentionValue N) → String → AtomSpace N
  maybe_av s h none now = s
  maybe_av s h (some av) now = set_attention_value s h av now

  -- A new atom: the entry is appended first, and the atom carries its number.
  unfoldable pub add_new_atom :
      AtomSpace N
      → Handle
      → String
      → Option String
      → Option (List Handle)
      → Option (TruthValue N)
      → Option (AttentionValue N)
      → String
      → AtomSpace N
  unfolding insert
  add_new_atom s h type name outgoing tv av now =
      let s' = append s (add_atom h type name outgoing tv av) now in
      record s' { graph = insert s'.graph (new_atom h type name outgoing tv av s'.seq now) }

  -- The common part of `addNode` and `addLink`, once the handle is known.
  unfoldable pub add_or_update :
      AtomSpace N
      → Handle
      → String
      → Option String
      → Option (List Handle)
      → Option (TruthValue N)
      → Option (AttentionValue N)
      → String
      → String
      → AtomSpace N
  add_or_update s h type name outgoing tv av now later = elim (Dict.get s.atoms h) [
    | some existing ↦ maybe_av (maybe_tv s h tv now) h av later
    | none ↦ add_new_atom s h type name outgoing tv av now
  ]

  abbrev pub declared : AtomSpace N → Bool → String → String → AtomSpace N
  declared s known type super =
      if known then s else record s { types = declare s.types type (super ∷ []) }

  module _ (host : Host N) where
    unfoldable pub add_node :
        AtomSpace N
        → String
        → String
        → Option (TruthValue N)
        → Option (AttentionValue N)
        → String
        → String
        → AtomSpace N × Handle
    add_node s type name tv av now later =
        let s' = declared s (is_node s.types type) type "Node" in
        let h = node_handle host.sha1_hex type name in
        (add_or_update s' h type (some name) none tv av now later, h)

    unfoldable pub add_link :
        AtomSpace N
        → String
        → List Handle
        → Option (TruthValue N)
        → Option (AttentionValue N)
        → String
        → String
        → AtomSpace N × Handle
    add_link s type outgoing tv av now later =
        let s' = declared s (is_link s.types type) type "Link" in
        let h = link_handle host.sha1_hex type outgoing in
        (add_or_update s' h type none (some outgoing) tv av now later, h)

    unfoldable pub set_value_of : AtomSpace N → Handle → String → Value N → String → AtomSpace N
    set_value_of s h key v now = elim (Dict.get s.atoms h) [
      | none ↦ s
      | some atom ↦
          append (record s { graph = write_value host s.graph atom h key v }) (set_value h key v)
            now
    ]
