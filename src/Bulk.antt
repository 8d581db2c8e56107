-- ===== src/Bulk.antt =====
-- ts/src/bulk.ts: reading CSV, and loading nodes and edges from it into a Store.
pub mod Quoting
pub mod Loads
use Prim.Native.Char.{Char, code}
use Prim.Native.String
use hellgraph.Base.{
  ℕ, suc, String, Bool, true, false, not, ◌&&◌, ◌||◌, ◌⊎◌, inl, inr, ◌>>=◌, Option, none, some,
  List, [], ◌∷◌, ◌++◌, map, keep, nat_eq, ◌==◌, if◌then◌else◌,
}
use hellgraph.Base.Text.{append_text}
use hellgraph.Dict
use hellgraph.Dict.{Dict}
use hellgraph.AtomSpace.Space.{Host}
use hellgraph.Store.{PropertyValue, str, num, bool, HellGraphStore}
use hellgraph.Store.Writes.{Violation, add_graph_node, add_edge}

abbrev pub is_quote : Char → Bool
is_quote c = nat_eq (code c) b'"'

-- `field += c`
abbrev pub add_char : String → Char → String
add_char field c = append_text field (String.◌∷◌ c String.[])

abbrev pub is_empty {ℓ} : {A : Type ℓ} → List A → Bool
is_empty [] = true
is_empty (x ∷ xs) = false

-- The record that the end of the text closes, if anything of it was seen.
abbrev pub last_record : Bool → String → List String → List (List String)
last_record saw_any field row =
    if saw_any || not (field == "") || not (is_empty row) then (row ++ field ∷ []) ∷ [] else []

-- The loop of `parseCsv`, with its state: in quotes, something seen of the record, the field and the
-- row so far.
unfoldable pub read_records : Bool → Bool → String → List String → String → List (List String)
read_records in_quotes saw_any field row String.[] = last_record saw_any field row
read_records true saw_any field row (String.◌∷◌ c String.[]) = elim (is_quote c) [
  | true ↦ read_records false saw_any field row String.[]
  | false ↦ read_records true saw_any (add_char field c) row String.[]
]
read_records true saw_any field row (String.◌∷◌ c (String.◌∷◌ d s)) = elim (is_quote c) [
  | true ↦ elim (is_quote d) [
    | true ↦ read_records true saw_any (add_char field "\"") row s
    | false ↦ read_records false saw_any field row (String.◌∷◌ d s)
  ]
  | false ↦ read_records true saw_any (add_char field c) row (String.◌∷◌ d s)
]
read_records false saw_any field row (String.◌∷◌ c s) = elim (is_quote c) [
  | true ↦ read_records true true field row s
  | false ↦ elim (nat_eq (code c) b',') [
    | true ↦ read_records false true "" (row ++ field ∷ []) s
    | false ↦ elim (nat_eq (code c) b'\n') [
      | true ↦ (row ++ field ∷ []) ∷ read_records false false "" [] s
      | false ↦ elim (nat_eq (code c) b'\r') [
        | true ↦ read_records false saw_any field row s
        | false ↦ read_records false true (add_char field c) row s
      ]
    ]
  ]
]

unfoldable pub records_of : String → List (List String)
records_of text = read_records false false "" [] text

-- `r.length > 1 || (r[0] ?? '') !== ''`
abbrev pub is_row : List String → Bool
is_row [] = false
is_row (field ∷ []) = not (field == "")
is_row (field ∷ more) = true

-- `headers.forEach((h, i) => { o[h] = r[i] ?? '' })`
unfoldable pub fill_row : Dict String → List String → List String → Dict String
fill_row o [] r = o
fill_row o (h ∷ headers) [] = fill_row (Dict.put o h "") headers []
fill_row o (h ∷ headers) (v ∷ r) = fill_row (Dict.put o h v) headers r

abbrev pub first_record : List (List String) → List String
first_record [] = []
first_record (r ∷ records) = r

abbrev pub later_records : List (List String) → List (List String)
later_records [] = []
later_records (r ∷ records) = records

-- `parseCsv`: the headers and the rows.
unfoldable pub parse_csv : String → List String × List (Dict String)
parse_csv text =
    let records = records_of text in
    let headers = first_record records in
    (headers, map (fill_row [] headers) (keep is_row (later_records records)))

-- A text that is neither missing nor empty.
abbrev pub given : Option String → Option String
given none = none
given (some v) = if v == "" then none else some v

-- `column && row[column]`, when it holds.
abbrev pub at_column : Dict String → Option String → Option String
at_column row none = none
at_column row (some column) = if column == "" then none else given (Dict.get row column)

pub record NodeCsvOptions : Type 0 where
  pub id : String
  pub labels : List String
  pub label_column : Option String
  pub prop_columns : Option (List String)

pub record EdgeCsvOptions : Type 0 where
  pub source : String
  pub target : String
  pub label : Option String
  pub label_column : Option String
  pub prop_columns : Option (List String)

abbrev pub is_column : Option String → String → Bool
is_column none h = false
is_column (some column) h = h == column

abbrev pub or_columns : Option (List String) → List String → List String
or_columns none columns = columns
or_columns (some columns) others = columns

abbrev pub add_label : List String → Option String → List String
add_label labels none = labels
add_label labels (some label) = labels ++ label ∷ []

-- `row label || static label`, when it holds.
abbrev pub or_static : Option String → Option String → Option String
or_static none label = given label
or_static (some found) label = some found

-- What a load leaves: the store with the count, or the store when a row broke a constraint.
pub data Loaded (N : Type 0) : Type 0 where
  loaded : HellGraphStore N → ℕ → Loaded N
  stopped : HellGraphStore N → Violation → Loaded N

-- `to_number` reads a text as JavaScript's `Number` does; `none` is NaN.
module _ {N : Type 0} (to_number : String → Option N) where
  abbrev pub as_number : String → Option N → PropertyValue N
  as_number v none = str v
  as_number v (some x) = num x

  unfoldable pub coerce : String → PropertyValue N
  coerce v =
      if v == "true"
      then bool true
      else if v == "false"
      then bool false
      else if v == ""
      then str v
      else as_number v (to_number v)

  abbrev pub put_given : Dict (PropertyValue N) → String → Option String → Dict (PropertyValue N)
  put_given props k none = props
  put_given props k (some v) = Dict.put props k (coerce v)

  -- `propsFrom`, into the properties so far.
  unfoldable pub props_from :
      Dict (PropertyValue N) → Dict String → List String → Dict (PropertyValue N)
  props_from props row [] = props
  props_from props row (k ∷ columns) =
      props_from (put_given props k (given (Dict.get row k))) row columns

  module _ (host : Host N) (clock : ℕ → String) where
    -- The loop of `loadNodesCsv` over the rows, with the count so far.
    unfoldable pub load_node_rows :
        HellGraphStore N → NodeCsvOptions → List String → ℕ → List (Dict String) → Loaded N
    load_node_rows store opts columns count [] = loaded store count
    load_node_rows store opts columns count (r ∷ rows) = elim (given (Dict.get r opts.id)) [
      | none ↦ load_node_rows store opts columns count rows
      | some id ↦
          elim (add_graph_node host clock store id
            (add_label opts.labels (at_column r opts.label_column)) (props_from [] r columns)) [
              | inl violation ↦ stopped store violation
              | inr written ↦ load_node_rows written.0 opts columns (suc count) rows
            ]
    ]

    abbrev pub is_node_column : NodeCsvOptions → String → Bool
    is_node_column opts h = not (h == opts.id) && not (is_column opts.label_column h)

    unfoldable pub load_nodes_csv : HellGraphStore N → String → NodeCsvOptions → Loaded N
    load_nodes_csv store csv opts =
        let (headers, rows) = parse_csv csv in
        load_node_rows store opts
          (or_columns opts.prop_columns (keep (is_node_column opts) headers)) 0 rows

    -- The ends and the label of the edge that a row makes, if it makes one.
    unfoldable pub edge_of : EdgeCsvOptions → Dict String → Option (String × String × String)
    edge_of opts r = do
      source ← given (Dict.get r opts.source)
      target ← given (Dict.get r opts.target)
      label ← or_static (at_column r opts.label_column) opts.label
      some (source, target, label)

    unfoldable pub load_edge_rows :
        HellGraphStore N
        → EdgeCsvOptions
        → List String
        → ℕ
        → List (Dict String)
        → HellGraphStore N × ℕ
    load_edge_rows store opts columns count [] = (store, count)
    load_edge_rows store opts columns count (r ∷ rows) = elim (edge_of opts r) [
      | none ↦ load_edge_rows store opts columns count rows
      | some (source, target, label) ↦
          let store' =
            (add_edge host clock store label source target (props_from [] r columns)).0 in
          load_edge_rows store' opts columns (suc count) rows
    ]

    abbrev pub is_edge_column : EdgeCsvOptions → String → Bool
    is_edge_column opts h =
        not (h == opts.source) && not (h == opts.target) && not (is_column opts.label_column h)

    unfoldable pub load_edges_csv :
        HellGraphStore N → String → EdgeCsvOptions → HellGraphStore N × ℕ
    load_edges_csv store csv opts =
        let (headers, rows) = parse_csv csv in
        load_edge_rows store opts
          (or_columns opts.prop_columns (keep (is_edge_column opts) headers)) 0 rows
