-- ===== src/Store/Writes.antt =====
-- The write path of ts/src/store.ts. The clock is a function of the sequence number at the time of a
-- write, and `JSON.stringify` of an encoded value a parameter.
use hellgraph.Base.{
  ℕ, suc, String, Bool, not, ◌&&◌, Option, none, some, List, [], ◌∷◌, ◌++◌, ◌⊎◌, inl, inr, find?,
  any, ◌==◌,
}
use hellgraph.Base.Sets.{add_new, add_all}
use hellgraph.Dict
use hellgraph.Dict.{Dict}
use hellgraph.AtomSpace.Values.{Handle, Value, text, node_handle}
use hellgraph.AtomSpace.Space.{Host, AtomSpace}
use hellgraph.AtomSpace.Read
use hellgraph.AtomSpace.Read.{get_atom}
use hellgraph.AtomSpace.Write.{add_node, add_link, set_value_of}
use hellgraph.Store.{
  PropertyValue, GraphNode, GraphEdge, HellGraphStore, entity, pred, labels_key, prop_key,
  encode_value, labels_in, project_node, project_edge,
}
use hellgraph.Store.Reads.{get_node, nodes_by_property}

-- A uniqueness constraint that a write would break, and the node that holds the value.
pub record Violation : Type 0 where
  pub label : String
  pub key : String
  pub holder : String

pub record TxNode (N : Type 0) : Type 0 where
  pub id : String
  pub labels : List String
  pub properties : Dict (PropertyValue N)

pub record TxEdge (N : Type 0) : Type 0 where
  pub label : String
  pub source : String
  pub target : String
  pub properties : Dict (PropertyValue N)

pub record TxBatch (N : Type 0) : Type 0 where
  pub nodes : List (TxNode N)
  pub edges : List (TxEdge N)

-- What the first phase of a transaction throws.
pub data BatchError : Type 0 where
  violated : Violation → BatchError
  conflict : String → String → String → String → BatchError

abbrev pub keys_of : Option (List String) → List String
keys_of none = []
keys_of (some ks) = ks

abbrev pub first_error {ℓ} : {E : Type ℓ} → Option E → Option E → Option E
first_error none next = next
first_error (some e) next = some e

module _ {N : Type 0} where
  unfoldable pub add_unique_constraint : HellGraphStore N → String → String → HellGraphStore N
  add_unique_constraint store label prop = record store {
    unique_constraints =
        Dict.put store.unique_constraints label
          (add_new (keys_of (Dict.get store.unique_constraints label)) prop);
  }

  -- The labels of the node, before a write.
  unfoldable pub existing_labels : AtomSpace N → String → List String
  existing_labels s id = elim (Read.get_node s entity id) [
    | none ↦ []
    | some atom ↦ labels_in (Dict.get atom.values labels_key)
  ]

  -- `Array.from(new Set([...existing, ...labels]))`
  unfoldable pub merged_labels : AtomSpace N → String → List String → List String
  merged_labels s id labels = add_all [] (existing_labels s id ++ labels)

  abbrev pub is_clash : String → String → GraphNode N → Bool
  is_clash id label n = not (n.id == id) && any (λ l. l == label) n.labels

module _ {N : Type 0} (host : Host N) where
  abbrev pub report : String → String → Option (GraphNode N) → Option Violation
  report label k none = none
  report label k (some clash) = some (record { label = label; key = k; holder = clash.id })

  -- `assertUniqueOk` for one key of one label.
  unfoldable pub clash_with :
      AtomSpace N → String → String → String → PropertyValue N → Option Violation
  clash_with s id label k v =
      report label k (find? (is_clash id label) (nodes_by_property host s k v))

  -- The loop of `assertUniqueOk` over the keys of a label.
  unfoldable pub check_keys :
      AtomSpace N → String → String → Dict (PropertyValue N) → List String → Option Violation
  check_keys s id label properties [] = none
  check_keys s id label properties (k ∷ ks) =
      let rest = check_keys s id label properties ks in
      elim (Dict.get properties k) [
        | none ↦ rest
        | some v ↦ first_error (clash_with s id label k v) rest
      ]

  -- Its loop over the labels: the first violation, if any.
  unfoldable pub assert_unique_ok :
      HellGraphStore N → String → List String → Dict (PropertyValue N) → Option Violation
  assert_unique_ok store id [] properties = none
  assert_unique_ok store id (label ∷ labels) properties =
      first_error
        (check_keys store.space id label properties
          (keys_of (Dict.get store.unique_constraints label)))
        (assert_unique_ok store id labels properties)

module _ {N : Type 0} (host : Host N) (clock : ℕ → String) where
  -- `as.addNode(type, name)`, `as.addLink(type, outgoing)` and `as.setValue(handle, key, value)`
  abbrev pub put_node : AtomSpace N → String → String → AtomSpace N × Handle
  put_node s type name = add_node host s type name none none (clock s.seq) (clock (suc s.seq))

  abbrev pub put_link : AtomSpace N → String → List Handle → AtomSpace N × Handle
  put_link s type outgoing =
      add_link host s type outgoing none none (clock s.seq) (clock (suc s.seq))

  abbrev pub put_value : AtomSpace N → Handle → String → Value N → AtomSpace N
  put_value s h key v = set_value_of host s h key v (clock s.seq)

  abbrev pub put_encoded : AtomSpace N → Handle → String → Option (Value N) → AtomSpace N
  put_encoded s h k none = s
  put_encoded s h k (some enc) = put_value s h (prop_key k) enc

  -- The loop over the properties.
  unfoldable pub put_props : AtomSpace N → Handle → Dict (PropertyValue N) → AtomSpace N
  put_props s h [] = s
  put_props s h ((k, v) ∷ properties) = put_props (put_encoded s h k (encode_value v)) h properties

  -- `addNode` once the constraints hold, with the handle of the atom.
  unfoldable pub write_node :
      AtomSpace N → String → List String → Dict (PropertyValue N) → AtomSpace N × Handle
  write_node s id merged properties =
      let (s', h) = put_node s entity id in
      (put_props (put_value s' h labels_key (text merged)) h properties, h)

  abbrev pub project_at : AtomSpace N → Handle → Option (GraphNode N)
  project_at s h = elim (get_atom s h) [ none ↦ none | some atom ↦ some (project_node atom) ]

  abbrev pub project_edge_at : AtomSpace N → Handle → Option (GraphEdge N)
  project_edge_at s h = elim (get_atom s h) [ none ↦ none | some atom ↦ project_edge s atom ]

  -- `addNode`: the violation thrown, or the store and the node. The source asserts that the atom
  -- just written is there.
  unfoldable pub add_graph_node :
      HellGraphStore N
      → String
      → List String
      → Dict (PropertyValue N)
      → Violation ⊎ (HellGraphStore N × Option (GraphNode N))
  add_graph_node store id labels properties =
      let merged = merged_labels store.space id labels in
      elim (assert_unique_ok host store id merged properties) [
        | some violation ↦ inl violation
        | none ↦
            let (s, h) = write_node store.space id merged properties in
            inr (record store { space = s }, project_at s h)
      ]

  -- `addEdge`; the source asserts that the atom just written shows as an edge.
  unfoldable pub add_edge :
      HellGraphStore N
      → String
      → String
      → String
      → Dict (PropertyValue N)
      → HellGraphStore N × Option (GraphEdge N)
  add_edge store label source target properties =
      let (s1, source_h) = put_node store.space entity source in
      let (s2, target_h) = put_node s1 entity target in
      let (s3, pred_h) = put_node s2 pred label in
      let (s4, list_h) = put_link s3 "ListLink" (source_h ∷ target_h ∷ []) in
      let (s5, eval_h) = put_link s4 "EvaluationLink" (pred_h ∷ list_h ∷ []) in
      let s6 = put_props s5 eval_h properties in
      (record store { space = s6 }, project_edge_at s6 eval_h)

  abbrev pub labels_shown : Option (GraphNode N) → List String
  labels_shown none = []
  labels_shown (some n) = n.labels

  unfoldable pub set_node_property :
      HellGraphStore N → String → String → PropertyValue N → Violation ⊎ HellGraphStore N
  set_node_property store id key value =
      elim (assert_unique_ok host store id (labels_shown (get_node host store.space id))
        ((key, value) ∷ [])) [
          | some violation ↦ inl violation
          | none ↦ inr (record store {
            space =
                put_encoded store.space (node_handle host.sha1_hex entity id) key
                  (encode_value value);
          })
        ]
