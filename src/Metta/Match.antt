-- ===== src/Metta/Match.antt =====
-- ts/src/metta.ts: matching patterns with the atoms of a space, and queries; and `runMettaProgram` of
-- ts/src/metta-eval.ts.
pub mod Queries
use hellgraph.Base.{
  ℕ, zero, suc, String, Bool, true, false, not, ◌&&◌, Option, none, some, List, [], ◌⊎◌, inl, inr,
  ◌∷◌, ◌++◌, nat_eq, length, map, ◌==◌, if◌then◌else◌,
}
use hellgraph.Dict
use hellgraph.Dict.{Dict}
use hellgraph.AtomSpace.Values.{Handle}
use hellgraph.AtomSpace.Lattice.{is_node}
use hellgraph.AtomSpace.Space.{Atom, AtomSpace}
use hellgraph.AtomSpace.Read.{outs, get_atom, get_by_type}
use hellgraph.Metta.{
  SExpr, symbol, var, list, Items, nil, cons, ParseError, Parsed, ok, failed, out_of_fuel,
  parse_sexpr, parse_program, serialize, Binding, instantiate, or_expr,
}
use hellgraph.Metta.Eval.{
  MettaRule, Numerals, count, chain, heads, is_form, as_rule, append_rule, eval_sexpr,
}

-- What a query throws.
pub data MettaError : Type 0 where
  parse : ParseError → MettaError
  no_pattern not_link no_type stuck : MettaError

pub data Answer : Type 0 where
  answers : List String → Answer
  throws : MettaError → Answer

-- A binding of the variable that agrees in text with the one there is.
unfoldable pub bind_consistent : Binding → String → SExpr → Option Binding
bind_consistent b name value = elim (Dict.get b name) [
  | none ↦ some (Dict.put b name value)
  | some prior ↦ if serialize prior == serialize value then some (Dict.put b name value) else none
]

abbrev pub or_text : Option String → String → String
or_text none text = text
or_text (some name) text = name

abbrev pub is_named : Option String → String → Bool
is_named none text = false
is_named (some name) text = name == text

-- `items[k]` of a list
abbrev pub item_at : Items → ℕ → Option SExpr
item_at nil k = none
item_at (cons e items) zero = some e
item_at (cons e items) (suc k) = item_at items k

abbrev pub item : SExpr → ℕ → Option SExpr
item (list items) k = item_at items k
item e k = none

-- `outgoing.map(...)`
abbrev pub items_of : (Handle → SExpr) → List Handle → Items
items_of to_expr [] = nil
items_of to_expr (h ∷ hs) = cons (to_expr h) (items_of to_expr hs)

module _ {N : Type 0} (s : AtomSpace N) where
  -- The expression of an atom, from those of the atoms that it refers to.
  abbrev pub shown : (Handle → SExpr) → Option (Atom N) → SExpr
  shown to_expr none = symbol "?"
  shown to_expr (some atom) = elim (outs atom.outgoing) [
    | [] ↦ symbol (or_text atom.name atom.type)
    | first ∷ others ↦ list (cons (symbol atom.type) (items_of to_expr (first ∷ others)))
  ]

  -- `atomToSExpr`, on fuel: a link refers to atoms that may be links in turn.
  unfoldable pub atom_to_sexpr : ℕ → Handle → SExpr
  atom_to_sexpr zero h = symbol "?"
  atom_to_sexpr (suc f) h = let to_expr = atom_to_sexpr f in shown to_expr (get_atom s h)

  module _ (f : ℕ) where
    -- The second item of a node reference.
    unfoldable pub unify_name : Items → Atom N → Binding → Option Binding
    unify_name nil atom b = elim atom.name [ none ↦ none | some name ↦ some b ]
    unify_name (cons (var v) items) atom b = bind_consistent b v (symbol (or_text atom.name ""))
    unify_name (cons (symbol name) items) atom b = if is_named atom.name name then some b else none
    unify_name (cons (list others) items) atom b = none

    -- `unify`; the items of a list are a node reference or a link pattern.
    unfoldable mutual
      pub unify : SExpr → Handle → Binding → Option Binding
      unify (var name) h b = elim (get_atom s h) [
        | none ↦ none
        | some atom ↦ bind_consistent b name (atom_to_sexpr f h)
      ]
      unify (symbol name) h b = elim (get_atom s h) [
        | none ↦ none
        | some atom ↦ if or_text atom.name atom.type == name then some b else none
      ]
      unify (list items) h b = elim (get_atom s h) [
        | none ↦ none
        | some atom ↦ unify_list items atom b
      ]

      pub unify_list : Items → Atom N → Binding → Option Binding
      unify_list (cons (symbol head) children) atom b =
          if not (atom.type == head)
          then none
          else if is_node s.types head
          then unify_name children atom b
          else if not (nat_eq (length (outs atom.outgoing)) (count children))
          then none
          else unify_children children (outs atom.outgoing) b
      unify_list items atom b = none

      -- The loop over the children; the lists are of one length.
      pub unify_children : Items → List Handle → Binding → Option Binding
      unify_children nil hs b = some b
      unify_children (cons p items) [] b = none
      unify_children (cons p items) (h ∷ hs) b = chain (unify p h b) (unify_children items hs)

    abbrev pub cons_solution : Option Binding → List Binding → List Binding
    cons_solution none rest = rest
    cons_solution (some b) rest = b ∷ rest

    -- The loop of `matchPattern` over the candidates.
    unfoldable pub match_candidates : Items → List (Atom N) → List Binding
    match_candidates children [] = []
    match_candidates children (atom ∷ atoms) =
        let rest = match_candidates children atoms in
        if nat_eq (length (outs atom.outgoing)) (count children)
        then cons_solution (unify_children children (outs atom.outgoing) []) rest
        else rest

    -- `matchPattern`: the solutions, or the error thrown.
    unfoldable pub match_pattern : SExpr → List Binding ⊎ MettaError
    match_pattern (list (cons (symbol head) children)) =
        inl (match_candidates children (get_by_type s head false))
    match_pattern (list items) = inr no_type
    match_pattern e = inr not_link

    -- The printed templates of the solutions in front of other output.
    abbrev pub texts : SExpr → List Binding → List String → List String
    texts template [] out = out
    texts template (b ∷ solutions) out =
        serialize (instantiate template b) ∷ texts template solutions out

    abbrev pub answer : SExpr → List Binding ⊎ MettaError → Answer
    answer template (inl solutions) = answers (texts template solutions [])
    answer template (inr e) = throws e

    abbrev pub answer_for : Option SExpr → Option SExpr → Answer
    answer_for none template = throws no_pattern
    answer_for (some pattern) template = answer (or_expr template pattern) (match_pattern pattern)

    -- `runMetta` from the expression that it reads.
    unfoldable pub query : SExpr → Answer
    query e =
        if is_form e "match" then answer_for (item e 2) (item e 3) else answer e (match_pattern e)

    unfoldable pub run_metta : String → Answer
    run_metta text = elim (parse_sexpr text) [
      | ok e rest ↦ query e
      | failed err ↦ throws (parse err)
      | out_of_fuel ↦ throws stuck
    ]

    -- `matchBindings`: each solution with its values printed.
    abbrev pub printed : Binding → Dict String
    printed [] = []
    printed ((name, e) ∷ b) = (name, serialize e) ∷ printed b

    unfoldable pub match_bindings : String → List (Dict String) ⊎ MettaError
    match_bindings text = elim (parse_sexpr text) [
      | ok e rest ↦ elim (match_pattern e) [
        | inl solutions ↦ inl (map printed solutions)
        | inr err ↦ inr err
      ]
      | failed err ↦ inr (parse err)
      | out_of_fuel ↦ inr stuck
    ]

    abbrev pub max_steps : ℕ
    max_steps = 10000

    abbrev pub before : List String → Answer → Answer
    before out (answers more) = answers (out ++ more)
    before out (throws e) = throws e

    -- What a query of a program puts out; one without a pattern puts out nothing.
    abbrev pub output : Option SExpr → Option SExpr → Answer
    output none template = answers []
    output (some pattern) template = answer (or_expr template pattern) (match_pattern pattern)

    abbrev pub and_then : Answer → Answer → Answer
    and_then (answers out) more = before out more
    and_then (throws e) more = throws e

    module _ (numerals : Numerals) where
      -- The loop of `runMettaProgram` over the forms.
      unfoldable pub run_forms : List MettaRule → List SExpr → Answer
      run_forms rules [] = answers []
      run_forms rules (e ∷ forms) = elim (as_rule e) [
        | some r ↦ run_forms (append_rule rules (some r)) forms
        | none ↦ elim (is_form e "match") [
          | true ↦ and_then (output (item e 2) (item e 3)) (run_forms rules forms)
          | false ↦
              before (serialize (eval_sexpr numerals rules e max_steps) ∷ [])
                (run_forms rules forms)
        ]
      ]

      unfoldable pub run_metta_program : String → Answer
      run_metta_program text = elim (parse_program text) [
        | ok forms rest ↦ run_forms [] forms
        | failed err ↦ throws (parse err)
        | out_of_fuel ↦ throws stuck
      ]
