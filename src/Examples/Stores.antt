-- ===== src/Examples/Stores.antt =====
-- Concrete inputs for the theorems on ts/src/store.ts.
use hellgraph.Base.{
  Option, ℕ, ◌≡◌, ◌≢◌, ◌↔◌, ◌⊎◌, inr, refl, true, false, none, some, [], ◌∷◌, String, Bool, ◌==◌,
}
use mathlib.Core.List.{Memᴰ}
use hellgraph.Base.Text.{decimal, append_text}
use hellgraph.Base.Sets.{add_all, add_new, has, remove}
use hellgraph.Dict
use hellgraph.AtomSpace.Values.{Value, serialize_value, node_handle, node_key, join, link_handle}
use hellgraph.AtomSpace.Lattice
use hellgraph.AtomSpace.Lattice.{core_types, is_a, is_node, parents_of, declare}
use hellgraph.AtomSpace.Space.{
  Atom, index, add_to, index_incoming, index_name, index_outgoing, index_value, unindex_value,
  write_value,
}
use hellgraph.AtomSpace.Log.{open_space, replay, append, insert}
use hellgraph.AtomSpace.Write.{add_node, add_link, add_or_update, add_new_atom, set_value_of}
use hellgraph.AtomSpace.Restart.{after, perform, perform_all}
use hellgraph.AtomSpace.Read.{find_by_value, resolve, get_atom}
use hellgraph.AtomSpace.Read
use hellgraph.Store.{
  PropertyValue, str, GraphNode, entity, prop_key, HellGraphStore, encode_value, decode_value,
  decode_text, project_node, project_props, strip,
}
use hellgraph.Store.Writes.{
  TxNode, TxBatch, Violation, assert_unique_ok, add_graph_node, existing_labels, merged_labels,
  check_keys, clash_with, write_node, put_props,
}
use hellgraph.Store.Reads.{nodes_by_property}
use hellgraph.Store.Transaction.{
  Outcome, broken, refused, transaction, validate, claim_labels, claim_keys, claim_value,
  apply_nodes, apply_edges,
}
use hellgraph.Store.Values.{decode_value-encode_value}
use hellgraph.Store.Nodes.{Stored, add_graph_node_returns}
use hellgraph.Store.Unique.{Clash, assert_unique_ok_iff}
use hellgraph.Bulk.{NodeCsvOptions, EdgeCsvOptions, records_of}
use hellgraph.Bulk.Quoting.{print_records, records_of-print_records}
use hellgraph.Examples.Spaces.{host, calls, indexed}

abbrev clock : ℕ → String
clock n = decimal n

-- A space with a cat, shown as a graph in which the names of animals are unique.
abbrev animals : HellGraphStore ℕ
animals = record { space = after host calls; unique_constraints = ("Animal", "name" ∷ []) ∷ [] }

abbrev named : Dict.Dict (PropertyValue ℕ)
named = ("name", str "Tom") ∷ []

abbrev tom : TxNode ℕ
tom = record { id = "tom"; labels = "Animal" ∷ []; properties = named }

abbrev batch : TxBatch ℕ
batch = record {
  nodes = tom ∷ [];
  edges = record { label = "knows"; source = "tom"; target = "cat"; properties = [] } ∷ [];
}

-- `JSON.stringify` of an encoded value
abbrev stringify : Value ℕ → String
stringify v = serialize_value decimal v

abbrev word : PropertyValue ℕ
word = str "true"

decode_value-encode_value_example :
    (decode_value (encode_value word) ≡ word) ↔ ((word ≢ str "true") × (word ≢ str "false"))
decode_value-encode_value_example = decode_value-encode_value word

assert_unique_ok_iff_example :
    (assert_unique_ok host animals "tom" ("Animal" ∷ []) named ≡ none)
    ↔ ((violation : Violation) → ¬ Clash host animals "tom" ("Animal" ∷ []) named violation)
assert_unique_ok_iff_example = assert_unique_ok_iff host animals "tom" named ("Animal" ∷ []) indexed

free :
    assert_unique_ok host animals "tom" (merged_labels animals.space "tom" ("Animal" ∷ [])) named
    ≡ none
unfolding perform_all perform open_space add_node add_link set_value_of Dict.get add_or_update
    Lattice.is_link is_a ◌==◌ has Lattice.ancestors is_node Lattice.search_ancestors Lattice.climb
    Lattice.push_all parents_of core_types add_new replay add_new_atom append insert add_to index
    index_incoming index_name index_outgoing index_value unindex_value write_value join link_handle
    node_handle node_key serialize_value remove Dict.put resolve find_by_value Read.get_node
    get_atom add_all append_text assert_unique_ok merged_labels existing_labels check_keys
    clash_with nodes_by_property encode_value decode_value decode_text project_node project_props
    strip
free = refl

add_graph_node_returns_example :
    (store' : HellGraphStore ℕ) × (node : GraphNode ℕ) × (add_graph_node host clock animals "tom"
        ("Animal" ∷ [])
        named
      ≡ inr (store', some node))
    × ((l : String)
        → Memᴰ l node.labels
          ↔ (Memᴰ l (existing_labels animals.space "tom") ⊎ Memᴰ l ("Animal" ∷ [])))
    × (a : Atom ℕ) × (Dict.get store'.space.atoms (node_handle host.sha1_hex entity "tom") ≡ some a)
    × (node ≡ project_node a)
    × ((j : String) → Stored host clock (Dict.get named j) (Dict.get a.values (prop_key j)))
unfolding Dict.get
add_graph_node_returns_example =
    add_graph_node_returns host clock animals "tom" ("Animal" ∷ []) named (refl, tt) free

-- A label alone, then the value under it: the first phase sees neither with the other.
abbrev split : TxBatch ℕ
split = record {
  nodes =
      tom
      ∷ record { id = "cat"; labels = "Animal" ∷ []; properties = [] }
      ∷ record { id = "cat"; labels = []; properties = named }
      ∷ [];
  edges = [];
}

abbrev is_broken : Outcome ℕ → Bool
is_broken (broken store violation) = true
is_broken outcome = false

split_broken : is_broken (transaction host stringify clock animals split) ≡ true
unfolding perform_all perform open_space add_node add_link set_value_of Dict.get add_or_update
    Lattice.is_link is_a ◌==◌ has Lattice.ancestors is_node Lattice.search_ancestors Lattice.climb
    Lattice.push_all parents_of core_types add_new replay add_new_atom append insert add_to index
    index_incoming index_name index_outgoing index_value unindex_value write_value join link_handle
    node_handle node_key serialize_value remove Dict.put resolve find_by_value Read.get_node
    get_atom add_all append_text assert_unique_ok merged_labels existing_labels check_keys
    clash_with nodes_by_property encode_value decode_value decode_text project_node project_props
    strip transaction validate claim_labels claim_keys claim_value apply_nodes apply_edges
    add_graph_node write_node put_props
split_broken = refl

-- The value first, then the label: no write checks the one against the other.
abbrev relabelled : TxBatch ℕ
relabelled = record {
  nodes =
      tom
      ∷ record { id = "cat"; labels = []; properties = named }
      ∷ record { id = "cat"; labels = "Animal" ∷ []; properties = [] }
      ∷ [];
  edges = [];
}

relabelled_passes : is_broken (transaction host stringify clock animals relabelled) ≡ false
unfolding perform_all perform open_space add_node add_link set_value_of Dict.get add_or_update
    Lattice.is_link is_a ◌==◌ has Lattice.ancestors is_node Lattice.search_ancestors Lattice.climb
    Lattice.push_all parents_of core_types add_new replay add_new_atom append insert add_to index
    index_incoming index_name index_outgoing index_value unindex_value write_value join link_handle
    node_handle node_key serialize_value remove Dict.put resolve find_by_value Read.get_node
    get_atom add_all append_text assert_unique_ok merged_labels existing_labels check_keys
    clash_with nodes_by_property encode_value decode_value decode_text project_node project_props
    strip transaction validate claim_labels claim_keys claim_value apply_nodes apply_edges
    add_graph_node write_node put_props
relabelled_passes = refl

abbrev is_refused : Outcome ℕ → Bool
is_refused (refused e) = true
is_refused outcome = false

relabelled_not_refused : is_refused (transaction host stringify clock animals relabelled) ≡ false
unfolding perform_all perform open_space add_node add_link set_value_of Dict.get add_or_update
    Lattice.is_link is_a ◌==◌ has Lattice.ancestors is_node Lattice.search_ancestors Lattice.climb
    Lattice.push_all parents_of core_types add_new replay add_new_atom append insert add_to index
    index_incoming index_name index_outgoing index_value unindex_value write_value join link_handle
    node_handle node_key serialize_value remove Dict.put resolve find_by_value Read.get_node
    get_atom add_all append_text assert_unique_ok merged_labels existing_labels check_keys
    clash_with nodes_by_property encode_value decode_value decode_text project_node project_props
    strip transaction validate claim_labels claim_keys claim_value apply_nodes apply_edges
    add_graph_node write_node put_props
relabelled_not_refused = refl

abbrev node_opts : NodeCsvOptions
node_opts = record { id = "id"; labels = "Animal" ∷ []; label_column = none; prop_columns = none }

abbrev edge_opts : EdgeCsvOptions
edge_opts = record {
  source = "id";
  target = "friend";
  label = some "knows";
  label_column = none;
  prop_columns = none;
}

abbrev to_number : String → Option ℕ
to_number s = none

records_of-print_records_example :
    records_of (print_records (("id", "friend" ∷ []) ∷ ("to\"m", "cat" ∷ []) ∷ []))
    ≡ ("id" ∷ "friend" ∷ []) ∷ ("to\"m" ∷ "cat" ∷ []) ∷ []
records_of-print_records_example =
    records_of-print_records (("id", "friend" ∷ []) ∷ ("to\"m", "cat" ∷ []) ∷ [])

abbrev friends : String
friends = "id,friend\ntom,cat\n"
