-- ===== src/Store.antt =====
-- ts/src/store.ts: the property graph of labelled nodes and edges, projected from the atoms of an
-- AtomSpace, with its uniqueness constraints. The escape hatches to the AtomSpace, its log and the
-- process-wide instance are not modelled.
pub mod Reads
pub mod Writes
pub mod Transaction
pub mod Values
pub mod Unique
pub mod Steps
pub mod Nodes
use Prim.Native.Char.{Char, code}
use Prim.Native.String
use hellgraph.Base.{
  ℕ, String, Bool, true, false, Option, none, some, List, [], ◌∷◌, nat_eq, ◌==◌, ◌>>=◌,
  if◌then◌else◌,
}
use hellgraph.Base.Text.{append_text}
use hellgraph.Dict
use hellgraph.Dict.{Dict}
use hellgraph.AtomSpace.Values.{Handle, Value, float, text, link}
use hellgraph.AtomSpace.Space.{Atom, AtomSpace}
use hellgraph.AtomSpace.Read.{outs, get_atom}

pub data PropertyValue (N : Type 0) : Type 0 where
  str : String → PropertyValue N
  num : N → PropertyValue N
  bool : Bool → PropertyValue N
  null : PropertyValue N

pub record GraphNode (N : Type 0) : Type 0 where
  pub id : String
  pub labels : List String
  pub properties : Dict (PropertyValue N)
  pub created_at : String

pub record GraphEdge (N : Type 0) : Type 0 where
  pub id : String
  pub label : String
  pub source : String
  pub target : String
  pub properties : Dict (PropertyValue N)
  pub created_at : String

-- The store: the space that it shows, and the keys that are unique under each label.
pub record HellGraphStore (N : Type 0) : Type 0 where
  pub space : AtomSpace N
  pub unique_constraints : Dict (List String)

abbrev pub entity : String
entity = "ConceptNode"

abbrev pub pred : String
pred = "PredicateNode"

abbrev pub labels_key : String
labels_key = "graph:labels"

abbrev pub prop_key : String → String
prop_key k = append_text "prop:" k

-- `if (k.startsWith(prefix)) ... k.slice(prefix.length)`
unfoldable pub strip : String → String → Option String
strip String.[] s = some s
strip (String.◌∷◌ c p) String.[] = none
strip (String.◌∷◌ c p) (String.◌∷◌ d s) = if nat_eq (code c) (code d) then strip p s else none

abbrev pub name_or : Option String → String → String
name_or none other = other
name_or (some name) other = name

abbrev pub first : List Handle → Option Handle
first [] = none
first (h ∷ hs) = some h

abbrev pub second : List Handle → Option Handle
second (h ∷ k ∷ hs) = some k
second hs = none

abbrev pub truthy : Option String → Option String
truthy none = none
truthy (some name) = if name == "" then none else some name

module _ {N : Type 0} where
  unfoldable pub encode_value : PropertyValue N → Option (Value N)
  encode_value null = none
  encode_value (num x) = some (float (x ∷ []))
  encode_value (bool b) = some (text ((if b then "true" else "false") ∷ []))
  encode_value (str s) = some (text (s ∷ []))

  unfoldable pub decode_text : String → PropertyValue N
  decode_text s = if s == "true" then bool true else if s == "false" then bool false else str s

  unfoldable pub decode_value : Option (Value N) → PropertyValue N
  decode_value none = null
  decode_value (some (float [])) = null
  decode_value (some (float (x ∷ xs))) = num x
  decode_value (some (text [])) = decode_text ""
  decode_value (some (text (s ∷ ss))) = decode_text s
  decode_value (some (link [])) = decode_text ""
  decode_value (some (link (h ∷ hs))) = decode_text h

  -- The labels that an atom carries.
  abbrev pub labels_in : Option (Value N) → List String
  labels_in (some (text labels)) = labels
  labels_in v = []

  abbrev pub put_prop : Dict (PropertyValue N) → Option String → Value N → Dict (PropertyValue N)
  put_prop m none v = m
  put_prop m (some k) v = Dict.put m k (decode_value (some v))

  -- The loop of the projections over the values.
  unfoldable pub project_props : Dict (PropertyValue N) → Dict (Value N) → Dict (PropertyValue N)
  project_props m [] = m
  project_props m ((k, v) ∷ values) = project_props (put_prop m (strip "prop:" k) v) values

  unfoldable pub project_node : Atom N → GraphNode N
  project_node atom = record {
    id = name_or atom.name atom.handle;
    labels = labels_in (Dict.get atom.values labels_key);
    properties = project_props [] atom.values;
    created_at = atom.created_at;
  }

  -- `h ? this.as.getAtom(h) : undefined`
  abbrev pub atom_at : AtomSpace N → Option Handle → Option (Atom N)
  atom_at s none = none
  atom_at s (some h) = if h == "" then none else get_atom s h

  abbrev pub outgoing_of : Option (Atom N) → List Handle
  outgoing_of none = []
  outgoing_of (some atom) = outs atom.outgoing

  -- `atom?.name`, when it is neither missing nor empty.
  abbrev pub name_of : Option (Atom N) → Option String
  name_of none = none
  name_of (some atom) = truthy atom.name

  unfoldable pub project_edge : AtomSpace N → Atom N → Option (GraphEdge N)
  project_edge s eval_atom =
      let out = outs eval_atom.outgoing in
      let ends = outgoing_of (atom_at s (second out)) in
      do
        label ← name_of (atom_at s (first out))
        source ← name_of (atom_at s (first ends))
        target ← name_of (atom_at s (second ends))
        some (record {
          id = eval_atom.handle;
          label = label;
          source = source;
          target = target;
          properties = project_props [] eval_atom.values;
          created_at = eval_atom.created_at;
        })
