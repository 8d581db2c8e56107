-- ===== src/Metta.antt =====
-- ts/src/metta.ts: S-expressions, their text, and the parser. Match has the matching of patterns with a
-- space, Eval has ts/src/metta-eval.ts.
pub mod Tokens
pub mod RoundTrip
pub mod Fuel
pub mod Eval
pub mod Match
use Prim.Native.Char.{Char, code}
use Prim.Native.String
use hellgraph.Base.{
  ℕ, zero, suc, ◌+◌, ◌*◌, String, Bool, true, false, ◌&&◌, ◌||◌, Option, none, some, List, [], ◌∷◌,
  nat_eq, leb, ltb, ◌==◌, length, if◌then◌else◌,
}
use hellgraph.Base.Text.{append_text}
unfoldable use hellgraph.Base.Text.{append_text}
use hellgraph.Dict
use hellgraph.Dict.{Dict}

mutual
  pub data SExpr : Type 0 where
    symbol : String → SExpr
    var : String → SExpr
    list : Items → SExpr

  pub data Items : Type 0 where
    nil : Items
    cons : SExpr → Items → Items

-- `\s` of a regular expression
unfoldable pub is_space : Char → Bool
is_space c =
    let n = code c in
    (leb 9 n && leb n 13)
    || nat_eq n 32
    || nat_eq n 160
    || nat_eq n 5760
    || (leb 8192 n && leb n 8202)
    || nat_eq n 8232
    || nat_eq n 8233
    || nat_eq n 8239
    || nat_eq n 8287
    || nat_eq n 12288
    || nat_eq n 65279

abbrev pub push : String → List String → List String
push String.[] ts = ts
push w ts = w ∷ ts

-- The run of other characters at the front, and the tokens after it.
unfoldable pub scan : String → String × List String
scan String.[] = ("", [])
scan (String.◌∷◌ c s) =
    let (w, ts) = scan s in
    if nat_eq (code c) b'('
    then ("", "(" ∷ push w ts)
    else if nat_eq (code c) b')'
    then ("", ")" ∷ push w ts)
    else if is_space c
    then ("", push w ts)
    else (String.◌∷◌ c w, ts)

-- `text.match(/\(|\)|[^\s()]+/g) ?? []`
unfoldable pub tokenize : String → List String
tokenize s = let (w, ts) = scan s in push w ts

abbrev pub max_parse_depth : ℕ
max_parse_depth = 512

pub data ParseError : Type 0 where
  too_deep end_of_input unbalanced unexpected_close : ParseError

-- What a call of the parser returns with the tokens left, or throws; `out_of_fuel` is no outcome of
-- the source.
pub data Parsed {ℓ} (A : Type ℓ) : Type ℓ where
  ok : A → List String → Parsed A
  failed : ParseError → Parsed A
  out_of_fuel : Parsed A

-- A token that is no parenthesis.
unfoldable pub leaf : String → SExpr
leaf String.[] = symbol ""
leaf (String.◌∷◌ c s) = if nat_eq (code c) b'$' then var s else symbol (String.◌∷◌ c s)

abbrev then_list : Parsed Items → Parsed SExpr
then_list (ok items rest) = ok (list items) rest
then_list (failed e) = failed e
then_list out_of_fuel = out_of_fuel

abbrev then_cons : SExpr → Parsed Items → Parsed Items
then_cons e (ok items rest) = ok (cons e items) rest
then_cons e (failed err) = failed err
then_cons e out_of_fuel = out_of_fuel

-- `parse`, and its loop over the items of a list. What a call leaves of the tokens is no part of
-- them by structure, so each call costs a unit of fuel.
unfoldable mutual
  pub parse_expr : ℕ → ℕ → List String → Parsed SExpr
  parse_expr zero depth ts = out_of_fuel
  parse_expr (suc f) depth [] =
      if ltb max_parse_depth depth then failed too_deep else failed end_of_input
  parse_expr (suc f) depth (t ∷ ts) =
      let items = parse_items f depth ts in
      if ltb max_parse_depth depth
      then failed too_deep
      else if t == "("
      then then_list items
      else if t == ")"
      then failed unexpected_close
      else ok (leaf t) ts

  pub parse_items : ℕ → ℕ → List String → Parsed Items
  parse_items zero depth ts = out_of_fuel
  parse_items (suc f) depth [] = failed unbalanced
  parse_items (suc f) depth (t ∷ ts) = elim (t == ")") [
    | true ↦ ok nil ts
    | false ↦ elim (parse_expr f (suc depth) (t ∷ ts)) [
      | ok e rest ↦ then_cons e (parse_items f depth rest)
      | failed err ↦ failed err
      | out_of_fuel ↦ out_of_fuel
    ]
  ]

-- `parseSExpr`, which ignores what follows the first expression.
unfoldable pub parse_sexpr : String → Parsed SExpr
parse_sexpr text = let ts = tokenize text in parse_expr (2 * length ts + 1) 0 ts

abbrev then_form : SExpr → Parsed (List SExpr) → Parsed (List SExpr)
then_form e (ok forms rest) = ok (e ∷ forms) rest
then_form e (failed err) = failed err
then_form e out_of_fuel = out_of_fuel

-- The loop of `parseProgram`.
unfoldable pub parse_forms : ℕ → List String → Parsed (List SExpr)
parse_forms zero ts = out_of_fuel
parse_forms (suc f) [] = ok [] []
parse_forms (suc f) (t ∷ ts) = elim (parse_expr (2 * length (t ∷ ts) + 1) 0 (t ∷ ts)) [
  | ok e rest ↦ then_form e (parse_forms f rest)
  | failed err ↦ failed err
  | out_of_fuel ↦ out_of_fuel
]

unfoldable pub parse_program : String → Parsed (List SExpr)
parse_program text = let ts = tokenize text in parse_forms (suc (length ts)) ts

unfoldable mutual
  pub serialize : SExpr → String
  serialize (symbol name) = name
  serialize (var name) = append_text "$" name
  serialize (list items) = append_text "(" (append_text (join_items items) ")")

  -- `items.map(serialize).join(' ')`
  pub join_items : Items → String
  join_items nil = ""
  join_items (cons e nil) = serialize e
  join_items (cons e (cons d items)) =
      append_text (serialize e) (append_text " " (join_items (cons d items)))

abbrev pub Binding : Type 0
Binding = Dict SExpr

abbrev pub or_expr : Option SExpr → SExpr → SExpr
or_expr none e = e
or_expr (some b) e = b

unfoldable mutual
  pub instantiate : SExpr → Binding → SExpr
  instantiate (symbol name) b = symbol name
  instantiate (var name) b = or_expr (Dict.get b name) (var name)
  instantiate (list items) b = list (instantiate_items items b)

  pub instantiate_items : Items → Binding → Items
  instantiate_items nil b = nil
  instantiate_items (cons e items) b = cons (instantiate e b) (instantiate_items items b)
