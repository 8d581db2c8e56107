-- ===== src/Store/Reads.antt =====
-- The read path of ts/src/store.ts.
use hellgraph.Base.{
  ℕ, String, Bool, true, false, not, ◌||◌, Option, none, some, List, [], ◌∷◌, ◌++◌, map, keep, any,
  length, leb, ◌==◌, if◌then◌else◌,
}
use hellgraph.AtomSpace.Values.{Handle, Value, node_handle}
use hellgraph.AtomSpace.Space.{Host, Atom, AtomSpace}
use hellgraph.AtomSpace.Read.{outs, get_by_type, get_incoming, find_by_value, dangling_link_count}
use hellgraph.AtomSpace.Read
use hellgraph.Store.{
  PropertyValue, str, GraphNode, GraphEdge, entity, prop_key, encode_value, project_node,
  project_edge, first, second,
}

pub record Triple (N : Type 0) : Type 0 where
  pub subject : String
  pub predicate : String
  pub object : PropertyValue N
  pub is_iri : Bool
  pub asserted_at : String

abbrev pub cons_some {ℓ} : {A : Type ℓ} → Option A → List A → List A
cons_some none xs = xs
cons_some (some x) xs = x ∷ xs

-- `map`, and the missing results left out.
unfoldable pub map_some {ℓ κ} : {A : Type ℓ} {B : Type κ} → (A → Option B) → List A → List B
map_some f [] = []
map_some f (x ∷ xs) = cons_some (f x) (map_some f xs)

abbrev pub is_at : Option Handle → Handle → Bool
is_at none h = false
is_at (some k) h = k == h

-- `!label || edge.label === label`
abbrev pub fits_label : Option String → String → Bool
fits_label none actual = true
fits_label (some label) actual = label == "" || actual == label

module _ {N : Type 0} (host : Host N) (s : AtomSpace N) where
  unfoldable pub get_node : String → Option (GraphNode N)
  get_node id = elim (Read.get_node s entity id) [
    | none ↦ none
    | some atom ↦ some (project_node atom)
  ]

  unfoldable pub all_nodes : List (GraphNode N)
  all_nodes = map project_node (get_by_type s entity false)

  unfoldable pub all_edges : List (GraphEdge N)
  all_edges = map_some (project_edge s) (get_by_type s "EvaluationLink" false)

  unfoldable pub nodes_by_label : String → List (GraphNode N)
  nodes_by_label label = keep (λ (n : GraphNode N). any (λ l. l == label) n.labels) all_nodes

  abbrev pub nodes_holding : String → Option (Value N) → List (GraphNode N)
  nodes_holding key none = []
  nodes_holding key (some enc) =
      map project_node
        (keep (λ (a : Atom N). a.type == entity) (find_by_value host s (prop_key key) enc))

  unfoldable pub nodes_by_property : String → PropertyValue N → List (GraphNode N)
  nodes_by_property key value = nodes_holding key (encode_value value)

  -- The inner loop of `adjacentEdges`, over the links that refer to one list.
  unfoldable pub edges_over : Option String → List (Atom N) → List (GraphEdge N)
  edges_over label [] = []
  edges_over label (eval_link ∷ eval_links) =
      let rest = edges_over label eval_links in
      elim (project_edge s eval_link) [
        | none ↦ rest
        | some edge ↦ if fits_label label edge.label then edge ∷ rest else rest
      ]

  -- Its outer loop; `at` reads the position of a list that the node is to stand at.
  unfoldable pub edges_at :
      Handle → (List Handle → Option Handle) → Option String → List (Atom N) → List (GraphEdge N)
  edges_at concept at label [] = []
  edges_at concept at label (list_link ∷ list_links) =
      let rest = edges_at concept at label list_links in
      let edges = edges_over label (get_incoming s list_link.handle (some "EvaluationLink")) in
      if is_at (at (outs list_link.outgoing)) concept then edges ++ rest else rest

  unfoldable pub adjacent_edges :
      Handle → (List Handle → Option Handle) → Option String → List (GraphEdge N)
  adjacent_edges concept at label =
      edges_at concept at label (get_incoming s concept (some "ListLink"))

  unfoldable pub out_edges : String → Option String → List (GraphEdge N)
  out_edges id label = adjacent_edges (node_handle host.sha1_hex entity id) first label

  unfoldable pub in_edges : String → Option String → List (GraphEdge N)
  in_edges id label = adjacent_edges (node_handle host.sha1_hex entity id) second label

  unfoldable pub nodes_out : String → Option String → List (GraphNode N)
  nodes_out id label = map_some (λ (e : GraphEdge N). get_node e.target) (out_edges id label)

  unfoldable pub nodes_in : String → Option String → List (GraphNode N)
  nodes_in id label = map_some (λ (e : GraphEdge N). get_node e.source) (in_edges id label)

  abbrev pub label_triple : GraphNode N → String → Triple N
  label_triple node label = record {
    subject = node.id;
    predicate = "rdf:type";
    object = str label;
    is_iri = false;
    asserted_at = node.created_at;
  }

  abbrev pub prop_triple : GraphNode N → String × PropertyValue N → Triple N
  prop_triple node entry = record {
    subject = node.id;
    predicate = entry.0;
    object = entry.1;
    is_iri = false;
    asserted_at = node.created_at;
  }

  abbrev pub edge_triple : GraphEdge N → Triple N
  edge_triple edge = record {
    subject = edge.source;
    predicate = edge.label;
    object = str edge.target;
    is_iri = true;
    asserted_at = edge.created_at;
  }

  unfoldable pub node_triples : List (GraphNode N) → List (Triple N)
  node_triples [] = []
  node_triples (node ∷ nodes) =
      map (label_triple node) node.labels
      ++ map (prop_triple node) node.properties
      ++ node_triples nodes

  unfoldable pub triples : List (Triple N)
  triples = node_triples all_nodes ++ map edge_triple all_edges

  unfoldable pub node_count : ℕ
  node_count = length (get_by_type s entity false)

  unfoldable pub edge_count : ℕ
  edge_count = length (get_by_type s "EvaluationLink" false)

  abbrev pub in_no_list : Atom N → Bool
  in_no_list atom = not (leb 1 (length (get_incoming s atom.handle (some "ListLink"))))

  unfoldable pub orphan_node_count : ℕ
  orphan_node_count = length (keep in_no_list (get_by_type s entity false))

  unfoldable pub dangling_edge_count : ℕ
  dangling_edge_count = dangling_link_count s
