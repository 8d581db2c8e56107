-- ===== src/Store/Steps.antt =====
-- The store is a façade: its writes are calls of the AtomSpace (ts/src/store.ts).
use package.text.Mathlib.TextLemmas.{cons≢nil}
use hellgraph.Base.{
  ℕ, suc, String, ◌≡◌, ◌≢◌, refl, Option-cases, Sum-cases, ap, ◌∙◌, Option, none, some, List, [],
  ◌∷◌, ◌++◌, ◌⊎◌, inl, inr, subst, All,
}
use hellgraph.Dict.{Dict}
use hellgraph.AtomSpace.Values.{Handle, Value, text}
use hellgraph.AtomSpace.Space.{Host, AtomSpace}
use hellgraph.AtomSpace.Indexes.{IsIndexed}
use hellgraph.AtomSpace.Indexes.Sequences.{perform_all-IsIndexed}
use hellgraph.AtomSpace.Restart.{node, link, value, Timed, perform, perform_all, HasType}
use hellgraph.Store.{
  PropertyValue, GraphNode, GraphEdge, HellGraphStore, entity, pred, labels_key, prop_key,
  encode_value,
}
use hellgraph.Store.Writes.{
  Violation, TxNode, TxEdge, TxBatch, put_node, put_link, put_value, put_encoded, put_props,
  write_node, add_graph_node, add_edge, merged_labels, assert_unique_ok,
}
use hellgraph.Store.Transaction.{
  Outcome, refused, broken, committed, validate, apply_edges, apply_nodes, transaction,
}

module _ {N : Type 0} (host : Host N) where
  -- The second space comes of the first one by calls of the write path, each with a type.
  abbrev pub Performed : AtomSpace N → AtomSpace N → Type 0
  Performed s s' =
      (ts : List (Timed N)) × All (λ (t : Timed N). HasType host t.call) ts
      × (perform_all host s ts ≡ s')

  perform_all-append :
      (s : AtomSpace N) (ts us : List (Timed N))
      → perform_all host s (ts ++ us) ≡ perform_all host (perform_all host s ts) us
  unfolding perform_all
  perform_all-append s [] us = refl
  perform_all-append s (t ∷ ts) us = perform_all-append (perform host s t) ts us

  All-append :
      (ts us : List (Timed N))
      → All (λ (t : Timed N). HasType host t.call) ts
      → All (λ (t : Timed N). HasType host t.call) us
      → All (λ (t : Timed N). HasType host t.call) (ts ++ us)
  All-append [] us a b = b
  All-append (t ∷ ts) us a b = (a.0, All-append ts us a.1 b)

  pub no_call : (s : AtomSpace N) → Performed s s
  unfolding perform_all
  no_call s = ([], tt, refl)

  one_call : (s : AtomSpace N) (t : Timed N) → HasType host t.call → Performed s (perform host s t)
  unfolding perform_all
  one_call s t typed = (t ∷ [], (typed, tt), refl)

  pub and_calls : (a b c : AtomSpace N) → Performed a b → Performed b c → Performed a c
  and_calls a b c (ts, typed, first) (us, typed', next) = (
    ts ++ us,
    All-append ts us typed typed',
    perform_all-append a ts us ∙ ap (λ s. perform_all host s us) first ∙ next,
  )

  entity-typed : entity ≢ ""
  entity-typed = cons≢nil

  pred-typed : pred ≢ ""
  pred-typed = cons≢nil

  list-typed : ◌≢◌ {A = String} "ListLink" ""
  list-typed = cons≢nil

  eval-typed : ◌≢◌ {A = String} "EvaluationLink" ""
  eval-typed = cons≢nil

  module _ (clock : ℕ → String) (stringify : Value N → String) where
    put_value-Performed :
        (s : AtomSpace N) (h : Handle) (key : String) (v : Value N)
        → Performed s (put_value host clock s h key v)
    unfolding perform
    put_value-Performed s h key v =
        one_call s (record { call = value h key v; now = clock s.seq; later = clock s.seq }) tt

    put_node-Performed :
        (s : AtomSpace N) (type name : String)
        → HasType host (node type name none none)
        → Performed s (put_node host clock s type name).0
    unfolding perform
    put_node-Performed s type name typed =
        one_call s
          (record { call = node type name none none; now = clock s.seq; later = clock (suc s.seq) })
          typed

    put_link-Performed :
        (s : AtomSpace N) (type : String) (outgoing : List Handle)
        → HasType host (link type outgoing none none)
        → Performed s (put_link host clock s type outgoing).0
    unfolding perform
    put_link-Performed s type outgoing typed =
        one_call s
          (record {
            call = link type outgoing none none;
            now = clock s.seq;
            later = clock (suc s.seq);
          })
          typed

    put_encoded-Performed :
        (s : AtomSpace N) (h : Handle) (k : String) (o : Option (Value N))
        → Performed s (put_encoded host clock s h k o)
    put_encoded-Performed s h k none = no_call s
    put_encoded-Performed s h k (some enc) = put_value-Performed s h (prop_key k) enc

    put_props-Performed :
        (s : AtomSpace N) (h : Handle) (properties : Dict (PropertyValue N))
        → Performed s (put_props host clock s h properties)
    unfolding put_props
    put_props-Performed s h [] = no_call s
    put_props-Performed s h ((k, v) ∷ properties) =
        let s' = put_encoded host clock s h k (encode_value v) in
        and_calls s s' (put_props host clock s' h properties)
          (put_encoded-Performed s h k (encode_value v)) (put_props-Performed s' h properties)

    write_node-Performed :
        (s : AtomSpace N) (id : String) (labels : List String) (properties : Dict (PropertyValue N))
        → Performed s (write_node host clock s id labels properties).0
    unfolding write_node
    write_node-Performed s id labels properties =
        let (s1, h) = put_node host clock s entity id in
        let s2 = put_value host clock s1 h labels_key (text labels) in
        and_calls s s1 (put_props host clock s2 h properties)
          (put_node-Performed s entity id entity-typed)
          (and_calls s1 s2 (put_props host clock s2 h properties)
            (put_value-Performed s1 h labels_key (text labels))
            (put_props-Performed s2 h properties))

    -- The space that a write of a node leaves: as before, when it throws.
    abbrev pub space_after :
        HellGraphStore N → Violation ⊎ (HellGraphStore N × Option (GraphNode N)) → AtomSpace N
    space_after store (inl violation) = store.space
    space_after store (inr written) = written.0.space

    pub add_graph_node-Performed :
        (store : HellGraphStore N) (id : String) (labels : List String)
        (properties : Dict (PropertyValue N))
        → Performed store.space
            (space_after store (add_graph_node host clock store id labels properties))
    unfolding add_graph_node
    add_graph_node-Performed store id labels properties =
        let merged = merged_labels store.space id labels in
        elim (Option-cases (assert_unique_ok host store id merged properties)) [
          | inl fine ↦
              rw (add_graph_node, fine) (write_node-Performed store.space id merged properties)
          | inr (violation, throws) ↦ rw (add_graph_node, throws) (no_call store.space)
        ]

    pub add_edge-Performed :
        (store : HellGraphStore N) (label source target : String)
        (properties : Dict (PropertyValue N))
        → Performed store.space (add_edge host clock store label source target properties).0.space
    unfolding add_edge
    add_edge-Performed store label source target properties =
        let (s1, source_h) = put_node host clock store.space entity source in
        let (s2, target_h) = put_node host clock s1 entity target in
        let (s3, pred_h) = put_node host clock s2 pred label in
        let (s4, list_h) = put_link host clock s3 "ListLink" (source_h ∷ target_h ∷ []) in
        let (s5, eval_h) = put_link host clock s4 "EvaluationLink" (pred_h ∷ list_h ∷ []) in
        let s6 = put_props host clock s5 eval_h properties in
        and_calls store.space s1 s6 (put_node-Performed store.space entity source entity-typed) (
          and_calls s1 s2 s6 (put_node-Performed s1 entity target entity-typed) (
            and_calls s2 s3 s6 (put_node-Performed s2 pred label pred-typed) (
              and_calls s3 s4 s6
                (put_link-Performed s3 "ListLink" (source_h ∷ target_h ∷ []) list-typed)
                (and_calls s4 s5 s6
                  (put_link-Performed s4 "EvaluationLink" (pred_h ∷ list_h ∷ []) eval-typed)
                  (put_props-Performed s5 eval_h properties)))))

    -- The space that an outcome leaves.
    abbrev pub left_by : HellGraphStore N → Outcome N → AtomSpace N
    left_by store (refused e) = store.space
    left_by store (broken after violation) = after.space
    left_by store (committed after nodes edges) = after.space

    apply_edges-Performed :
        (specs : List (TxEdge N)) (start store : HellGraphStore N)
        (nodes : List (Option (GraphNode N))) (edges : List (Option (GraphEdge N)))
        → Performed store.space
            (left_by start (apply_edges host stringify clock store nodes edges specs))
    unfolding apply_edges
    apply_edges-Performed [] start store nodes edges = no_call store.space
    apply_edges-Performed (spec ∷ specs) start store nodes edges =
        let (store', edge) =
          add_edge host clock store spec.label spec.source spec.target spec.properties in
        and_calls store.space store'.space
          (left_by start (apply_edges host stringify clock store' nodes (edges ++ edge ∷ []) specs))
          (add_edge-Performed store spec.label spec.source spec.target spec.properties)
          (apply_edges-Performed specs start store' nodes (edges ++ edge ∷ []))

    apply_nodes-Performed :
        (specs : List (TxNode N)) (start store : HellGraphStore N)
        (nodes : List (Option (GraphNode N))) (edge_specs : List (TxEdge N))
        → Performed store.space
            (left_by start (apply_nodes host stringify clock store nodes specs edge_specs))
    unfolding apply_nodes
    apply_nodes-Performed [] start store nodes edge_specs =
        apply_edges-Performed edge_specs start store nodes []
    apply_nodes-Performed (spec ∷ specs) start store nodes edge_specs =
        let result = add_graph_node host clock store spec.id spec.labels spec.properties in
        elim (Sum-cases result) [
          | inl (violation, throws) ↦ rw (apply_nodes, throws) (no_call store.space)
          | inr (written, fine) ↦
              let more = nodes ++ written.1 ∷ [] in
              let done =
                left_by start (apply_nodes host stringify clock written.0 more specs edge_specs) in
              rw (apply_nodes, fine)
                (and_calls store.space written.0.space done
                  (subst (λ r. Performed store.space (space_after store r)) fine
                    (add_graph_node-Performed store spec.id spec.labels spec.properties))
                  (apply_nodes-Performed specs start written.0 more edge_specs))
        ]

    -- The store is a façade: whatever a transaction does, refuse the batch, throw in the midst of
    -- its writes or commit, the space that it leaves comes of the one before by calls of the
    -- AtomSpace's write path, each with a type that is not empty.
    pub transaction-Performed :
        (store : HellGraphStore N) (batch : TxBatch N)
        → Performed store.space (left_by store (transaction host stringify clock store batch))
    unfolding transaction
    transaction-Performed store batch =
        elim (Sum-cases (validate host stringify store [] batch.nodes)) [
          | inl (e, throws) ↦ rw (transaction, throws) (no_call store.space)
          | inr (claimed, fine) ↦
              rw (transaction, fine) (apply_nodes-Performed batch.nodes store store [] batch.edges)
        ]

    -- Whatever a transaction does, the indexes of the space that it leaves are in step with the
    -- atoms, when they were before.
    pub transaction-IsIndexed :
        (store : HellGraphStore N) (batch : TxBatch N)
        → IsIndexed host store.space.graph
        → IsIndexed host (left_by store (transaction host stringify clock store batch)).graph
    transaction-IsIndexed store batch i =
        let (ts, typed, same) = transaction-Performed store batch in
        subst (λ (s : AtomSpace N). IsIndexed host s.graph) same
          (perform_all-IsIndexed host ts store.space i)
