-- ===== src/Store/Transaction.antt =====
-- `transaction` of ts/src/store.ts: a batch is validated, then applied.
use hellgraph.Base.{
  ℕ, String, Option, none, some, List, [], ◌∷◌, ◌++◌, ◌⊎◌, inl, inr, ◌==◌, if◌then◌else◌,
}
use hellgraph.Base.Text.{append_text}
use hellgraph.Dict
use hellgraph.Dict.{Dict}
use hellgraph.AtomSpace.Values.{Value}
use hellgraph.AtomSpace.Space.{Host}
use hellgraph.Store.{PropertyValue, GraphNode, GraphEdge, HellGraphStore, encode_value}
use hellgraph.Store.Writes.{
  Violation, TxNode, TxEdge, TxBatch, BatchError, violated, conflict, keys_of, merged_labels,
  assert_unique_ok, add_graph_node, add_edge,
}

-- `${label}\0${key}\0${JSON.stringify(enc)}`
abbrev pub claim_key : String → String → String → String
claim_key label key json =
    append_text label (append_text "\0" (append_text key (append_text "\0" json)))

-- A claim of a node on a value, against the claims so far.
unfoldable pub claim_value :
    Dict String → String → String → String → String → BatchError ⊎ Dict String
claim_value claimed id label key ck = elim (Dict.get claimed ck) [
  | none ↦ inr (Dict.put claimed ck id)
  | some other ↦
      if other == id then inr (Dict.put claimed ck id) else inl (conflict label key id other)
]

abbrev pub and_next {ℓ} : {A : Type ℓ} → BatchError ⊎ A → (A → BatchError ⊎ A) → BatchError ⊎ A
and_next (inl e) next = inl e
and_next (inr claimed) next = next claimed

-- What a transaction does: it refuses the batch before any write, it throws in the midst of the
-- writes, or it returns what it wrote. The store is the one that it leaves.
pub data Outcome (N : Type 0) : Type 0 where
  refused : BatchError → Outcome N
  broken : HellGraphStore N → Violation → Outcome N
  committed :
      HellGraphStore N → List (Option (GraphNode N)) → List (Option (GraphEdge N)) → Outcome N

module _ {N : Type 0} (host : Host N) (stringify : Value N → String) where
  abbrev pub claim_encoded :
      Dict String → String → String → String → Option (Value N) → BatchError ⊎ Dict String
  claim_encoded claimed id label k none = inr claimed
  claim_encoded claimed id label k (some enc) =
      claim_value claimed id label k (claim_key label k (stringify enc))

  abbrev pub claim_prop :
      Dict String → String → String → String → Option (PropertyValue N) → BatchError ⊎ Dict String
  claim_prop claimed id label k none = inr claimed
  claim_prop claimed id label k (some v) = claim_encoded claimed id label k (encode_value v)

  unfoldable pub claim_keys :
      Dict String
      → String
      → String
      → Dict (PropertyValue N)
      → List String
      → BatchError ⊎ Dict String
  claim_keys claimed id label properties [] = inr claimed
  claim_keys claimed id label properties (k ∷ ks) =
      and_next (claim_prop claimed id label k (Dict.get properties k))
        (λ more. claim_keys more id label properties ks)

  unfoldable pub claim_labels :
      HellGraphStore N
      → Dict String
      → String
      → Dict (PropertyValue N)
      → List String
      → BatchError ⊎ Dict String
  claim_labels store claimed id properties [] = inr claimed
  claim_labels store claimed id properties (label ∷ labels) =
      and_next
        (claim_keys claimed id label properties (keys_of (Dict.get store.unique_constraints label)))
        (λ more. claim_labels store more id properties labels)

  -- The first phase.
  unfoldable pub validate :
      HellGraphStore N → Dict String → List (TxNode N) → BatchError ⊎ Dict String
  validate store claimed [] = inr claimed
  validate store claimed (spec ∷ specs) =
      let merged = merged_labels store.space spec.id spec.labels in
      elim (assert_unique_ok host store spec.id merged spec.properties) [
        | some violation ↦ inl (violated violation)
        | none ↦
            and_next (claim_labels store claimed spec.id spec.properties merged)
              (λ more. validate store more specs)
      ]

  module _ (clock : ℕ → String) where
    unfoldable pub apply_edges :
        HellGraphStore N
        → List (Option (GraphNode N))
        → List (Option (GraphEdge N))
        → List (TxEdge N)
        → Outcome N
    apply_edges store nodes edges [] = committed store nodes edges
    apply_edges store nodes edges (spec ∷ specs) =
        let (store', edge) =
          add_edge host clock store spec.label spec.source spec.target spec.properties in
        apply_edges store' nodes (edges ++ edge ∷ []) specs

    unfoldable pub apply_nodes :
        HellGraphStore N
        → List (Option (GraphNode N))
        → List (TxNode N)
        → List (TxEdge N)
        → Outcome N
    apply_nodes store nodes [] edge_specs = apply_edges store nodes [] edge_specs
    apply_nodes store nodes (spec ∷ specs) edge_specs =
        elim (add_graph_node host clock store spec.id spec.labels spec.properties) [
          | inl violation ↦ broken store violation
          | inr written ↦ apply_nodes written.0 (nodes ++ written.1 ∷ []) specs edge_specs
        ]

    unfoldable pub transaction : HellGraphStore N → TxBatch N → Outcome N
    transaction store batch = elim (validate store [] batch.nodes) [
      | inl e ↦ refused e
      | inr claimed ↦ apply_nodes store [] batch.nodes batch.edges
    ]
