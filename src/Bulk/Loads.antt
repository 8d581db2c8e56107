-- ===== src/Bulk/Loads.antt =====
-- Loading nodes and edges row by row (ts/src/bulk.ts).
use hellgraph.Base.{
  ℕ, suc, String, Option, List, [], ◌∷◌, inl, inr, subst, Option-cases, Sum-cases, keep,
}
use hellgraph.Dict
use hellgraph.Dict.{Dict}
use hellgraph.AtomSpace.Values.{Value}
use hellgraph.AtomSpace.Space.{Host, AtomSpace}
use hellgraph.AtomSpace.Indexes.{IsIndexed}
use hellgraph.AtomSpace.Indexes.Sequences.{perform_all-IsIndexed}
use hellgraph.Store.{HellGraphStore}
use hellgraph.Store.Writes.{add_graph_node, add_edge}
use hellgraph.Store.Steps.{
  Performed, no_call, and_calls, space_after, add_graph_node-Performed, add_edge-Performed,
}
use hellgraph.Bulk.{
  Loaded, loaded, stopped, NodeCsvOptions, EdgeCsvOptions, given, at_column, add_label, props_from,
  load_node_rows, load_edge_rows, edge_of, load_nodes_csv, load_edges_csv, parse_csv, or_columns,
  is_node_column, is_edge_column,
}

-- The store that a load of nodes leaves.
abbrev pub store_of : {N : Type 0} → Loaded N → HellGraphStore N
store_of (loaded store count) = store
store_of (stopped store violation) = store

module _ {N : Type 0} (host : Host N) (clock : ℕ → String) (stringify : Value N → String)
    (to_number : String → Option N) where
  load_node_rows-Performed :
      (rows : List (Dict String)) (store : HellGraphStore N) (opts : NodeCsvOptions)
      (columns : List String) (count : ℕ)
      → Performed host store.space
          (store_of (load_node_rows to_number host clock store opts columns count rows)).space
  unfolding load_node_rows
  load_node_rows-Performed [] store opts columns count = no_call host store.space
  load_node_rows-Performed (r ∷ rows) store opts columns count =
      elim (Option-cases (given (Dict.get r opts.id))) [
        | inl missing ↦
            rw (load_node_rows, missing) (load_node_rows-Performed rows store opts columns count)
        | inr (id, there) ↦
            let labels = add_label opts.labels (at_column r opts.label_column) in
            let props = props_from to_number [] r columns in
            elim (Sum-cases (add_graph_node host clock store id labels props)) [
              | inl (violation, throws) ↦
                  rw (load_node_rows, there, throws) (no_call host store.space)
              | inr (written, fine) ↦
                  rw (load_node_rows, there, fine)
                    (and_calls host store.space written.0.space
                      (store_of (
                        load_node_rows to_number host clock written.0 opts columns (suc count)
                          rows)).space
                      (subst
                        (λ x. Performed host store.space (space_after host clock stringify store x))
                        fine (add_graph_node-Performed host clock stringify store id labels props))
                      (load_node_rows-Performed rows written.0 opts columns (suc count)))
            ]
      ]

  load_edge_rows-Performed :
      (rows : List (Dict String)) (store : HellGraphStore N) (opts : EdgeCsvOptions)
      (columns : List String) (count : ℕ)
      → Performed host store.space
          (load_edge_rows to_number host clock store opts columns count rows).0.space
  unfolding load_edge_rows
  load_edge_rows-Performed [] store opts columns count = no_call host store.space
  load_edge_rows-Performed (r ∷ rows) store opts columns count =
      elim (Option-cases (edge_of to_number host clock opts r)) [
        | inl unmade ↦
            rw (load_edge_rows, unmade) (load_edge_rows-Performed rows store opts columns count)
        | inr ((source, target, label), made) ↦
            let props = props_from to_number [] r columns in
            let after = (add_edge host clock store label source target props).0 in
            rw (load_edge_rows, made)
              (and_calls host store.space after.space
                (load_edge_rows to_number host clock after opts columns (suc count) rows).0.space
                (add_edge-Performed host clock stringify store label source target props)
                (load_edge_rows-Performed rows after opts columns (suc count)))
      ]

  Performed-IsIndexed :
      (s s' : AtomSpace N) → Performed host s s' → IsIndexed host s.graph → IsIndexed host s'.graph
  Performed-IsIndexed s s' (ts, typed, same) i =
      subst (λ (x : AtomSpace N). IsIndexed host x.graph) same (perform_all-IsIndexed host ts s i)

  -- Loading nodes or edges from any CSV, to its end or to a row that breaks a constraint, keeps the
  -- indexes in step with the atoms, when they were before.
  pub load_csv-IsIndexed :
      (store : HellGraphStore N) (csv : String) (node_opts : NodeCsvOptions)
      (edge_opts : EdgeCsvOptions)
      → IsIndexed host store.space.graph
      → IsIndexed host
          (store_of (load_nodes_csv to_number host clock store csv node_opts)).space.graph
        × IsIndexed host (load_edges_csv to_number host clock store csv edge_opts).0.space.graph
  unfolding load_nodes_csv load_edges_csv
  load_csv-IsIndexed store csv node_opts edge_opts i =
      let (headers, rows) = parse_csv csv in
      let node_columns =
        or_columns node_opts.prop_columns
          (keep (is_node_column to_number host clock node_opts) headers) in
      let edge_columns =
        or_columns edge_opts.prop_columns
          (keep (is_edge_column to_number host clock edge_opts) headers) in
      (
        Performed-IsIndexed store.space
            (store_of
              (load_node_rows to_number host clock store node_opts node_columns 0 rows)).space
            (load_node_rows-Performed rows store node_opts node_columns 0) i,
        Performed-IsIndexed store.space
            (load_edge_rows to_number host clock store edge_opts edge_columns 0 rows).0.space
            (load_edge_rows-Performed rows store edge_opts edge_columns 0) i,
      )
