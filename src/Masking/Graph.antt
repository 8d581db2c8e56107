-- ===== src/Masking/Graph.antt =====
-- ts/src/masking.ts: a masking policy as a graph of processors, over the property-graph store.
use hellgraph.Base.{ℕ, String, List, [], ◌∷◌, ◌⊎◌, inl, inr}
use hellgraph.Base.Text.{append_text}
use hellgraph.Dict.{Dict}
use hellgraph.AtomSpace.Space.{Host}
use hellgraph.Store.{HellGraphStore, PropertyValue}
use hellgraph.Store.Writes.{Violation, add_graph_node, add_edge}

abbrev pub processor : String → String → String
processor policy_id name = append_text "policy:" (append_text policy_id (append_text ":" name))

module _ {N : Type 0} (host : Host N) (clock : ℕ → String) where
  abbrev edge_props : String → String → Dict (PropertyValue N)
  edge_props path predicate =
      ("selector", PropertyValue.str path) ∷ ("predicate", PropertyValue.str predicate) ∷ []

  -- The loop over the protected paths.
  unfoldable pub add_selectors : HellGraphStore N → String → List String → HellGraphStore N
  add_selectors g policy_id [] = g
  add_selectors g policy_id (p ∷ ps) =
      let root = processor policy_id "json-processor" in
      let (g1, masking) =
        add_edge host clock g "mask" root (processor policy_id "mask-processor")
          (edge_props p "encrypt") in
      let (g2, unmasking) =
        add_edge host clock g1 "unmask" root (processor policy_id "unmask-processor")
          (edge_props p "decrypt") in
      add_selectors g2 policy_id ps

  abbrev pub or_stop :
      {A : Type 0}
      → Violation ⊎ (HellGraphStore N × A)
      → (HellGraphStore N → Violation ⊎ HellGraphStore N)
      → Violation ⊎ HellGraphStore N
  or_stop (inl violation) f = inl violation
  or_stop (inr (g, _)) f = f g

  -- An error of a uniqueness constraint ends the call.
  unfoldable pub masking_policy_to_graph :
      HellGraphStore N → String → List String → Violation ⊎ HellGraphStore N
  masking_policy_to_graph g policy_id paths =
      or_stop
        (add_graph_node host clock g (processor policy_id "json-processor") ("JsonProcessor" ∷ [])
          (("policyId", PropertyValue.str policy_id) ∷ []))
        (λ g1.
          or_stop
            (add_graph_node host clock g1 (processor policy_id "mask-processor")
              ("MaskProcessor" ∷ []) (("op", PropertyValue.str "encrypt") ∷ []))
            (λ g2.
              or_stop
                (add_graph_node host clock g2 (processor policy_id "unmask-processor")
                  ("UnmaskProcessor" ∷ []) (("op", PropertyValue.str "decrypt") ∷ []))
                (λ g3. inr (add_selectors g3 policy_id paths))))
