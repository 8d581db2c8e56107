-- ===== src/Metta/Eval.antt =====
-- ts/src/metta-eval.ts: rewriting by equality rules under a budget of steps.
pub mod Unification
pub mod Equations
pub mod Budget
pub mod Rewriting
pub mod Normal
use Prim.Native.Char.{Char, code}
use Prim.Native.String
use hellgraph.Base.{
  ℕ, zero, suc, ◌-◌, String, Bool, true, false, ◌&&◌, Option, none, some, List, [], ◌∷◌, ◌++◌,
  nat_eq, leb, ◌==◌, if◌then◌else◌,
}
use hellgraph.Dict
use hellgraph.Metta.{
  SExpr, symbol, var, list, Items, nil, cons, Parsed, ok, failed, out_of_fuel, parse_sexpr,
  serialize, Binding, instantiate,
}

pub record MettaRule : Type 0 where
  pub lhs : SExpr
  pub rhs : SExpr

-- What JavaScript computes on the numbers that two texts name: a sum, a difference and a product as
-- text, and the comparisons.
pub record Numerals : Type 0 where
  pub plus : String → String → String
  pub minus : String → String → String
  pub times : String → String → String
  pub less : String → String → Bool
  pub more : String → String → Bool
  pub at_most : String → String → Bool
  pub at_least : String → String → Bool

abbrev pub count : Items → ℕ
count nil = 0
count (cons e items) = suc (count items)

-- `items[0]?.kind === 'sym' && items[0].name === head`
unfoldable pub heads : Items → String → Bool
heads (cons (symbol name) items) head = name == head
heads items head = false

unfoldable pub is_form : SExpr → String → Bool
is_form (list items) head = heads items head
is_form e head = false

-- The rule that an expression states, if it is an equality.
unfoldable pub as_rule : SExpr → Option MettaRule
as_rule (list (cons (symbol name) (cons lhs (cons rhs nil)))) =
    if name == "=" then some (record { lhs = lhs; rhs = rhs }) else none
as_rule e = none

abbrev pub append_rule : List MettaRule → Option MettaRule → List MettaRule
append_rule rules none = rules
append_rule rules (some r) = rules ++ (r ∷ [])

-- `MettaRuleset.add`; an error of the parser leaves it.
unfoldable pub add : List MettaRule → String → Parsed (List MettaRule)
add rules text = elim (parse_sexpr text) [
  | ok e rest ↦ ok (append_rule rules (as_rule e)) []
  | failed err ↦ failed err
  | out_of_fuel ↦ out_of_fuel
]

-- `unifyS` on a variable with what is bound to it.
abbrev pub bind : Option SExpr → String → SExpr → Binding → Option Binding
bind none name term b = some (Dict.put b name term)
bind (some prior) name term b = if serialize prior == serialize term then some b else none

abbrev pub chain : Option Binding → (Binding → Option Binding) → Option Binding
chain none f = none
chain (some b) f = f b

-- `unifyS`
unfoldable mutual
  pub unify_s : SExpr → SExpr → Binding → Option Binding
  unify_s (var name) term b = bind (Dict.get b name) name term b
  unify_s (symbol name) (symbol other) b = if other == name then some b else none
  unify_s (symbol name) (var other) b = none
  unify_s (symbol name) (list terms) b = none
  unify_s (list items) (symbol other) b = none
  unify_s (list items) (var other) b = none
  unify_s (list items) (list terms) b =
      if nat_eq (count terms) (count items) then unify_all items terms b else none

  -- The loop over the items; the lists are of one length.
  pub unify_all : Items → Items → Binding → Option Binding
  unify_all nil terms b = some b
  unify_all (cons p items) nil b = none
  unify_all (cons p items) (cons t terms) b = chain (unify_s p t b) (unify_all items terms)

unfoldable pub all_digits : String → Bool
all_digits String.[] = true
all_digits (String.◌∷◌ c s) = leb b'0' (code c) && leb (code c) b'9' && all_digits s

unfoldable pub digits : String → Bool
digits String.[] = false
digits (String.◌∷◌ c s) = all_digits (String.◌∷◌ c s)

-- `/^-?\d+$/`
unfoldable pub is_num : String → Bool
is_num String.[] = false
is_num (String.◌∷◌ c s) = if nat_eq (code c) b'-' then digits s else digits (String.◌∷◌ c s)

unfoldable pub boolean : Bool → SExpr
boolean b = symbol (if b then "True" else "False")

-- The operations that take a list to another expression, and the rules: `first_rule` is the loop of
-- `reduce` over them.
module _ (numerals : Numerals) where
  unfoldable pub compute : String → String → String → Option SExpr
  compute op x y =
      if op == "+"
      then some (symbol (numerals.plus x y))
      else if op == "-"
      then some (symbol (numerals.minus x y))
      else if op == "*"
      then some (symbol (numerals.times x y))
      else if op == "<"
      then some (boolean (numerals.less x y))
      else if op == ">"
      then some (boolean (numerals.more x y))
      else if op == "<="
      then some (boolean (numerals.at_most x y))
      else if op == ">="
      then some (boolean (numerals.at_least x y))
      else none

  unfoldable pub on_numbers : String → SExpr → SExpr → Option SExpr
  on_numbers op (symbol x) (symbol y) = if is_num x && is_num y then compute op x y else none
  on_numbers op a b = none

  unfoldable pub grounded : SExpr → Option SExpr
  grounded (list (cons (symbol op) (cons a (cons b nil)))) =
      if op == "==" then some (boolean (serialize a == serialize b)) else on_numbers op a b
  grounded e = none

unfoldable pub first_rule : List MettaRule → SExpr → Option SExpr
first_rule [] e = none
first_rule (r ∷ rules) e = elim (unify_s r.lhs e []) [
  | some b ↦ some (instantiate r.rhs b)
  | none ↦ first_rule rules e
]

-- `(if <cond> <then> <else>)`
unfoldable pub is_if : Items → Bool
is_if items = heads items "if" && nat_eq (count items) 4

module _ (numerals : Numerals) (rules : List MettaRule) where
  -- `reduce` from its test of the grounded operations on. The source's budget goes below 0 where
  -- this one stays at 0; it is only tested for being positive.
  unfoldable pub contract : (SExpr → ℕ → SExpr × ℕ) → SExpr → ℕ → SExpr × ℕ
  contract next e n = elim (grounded numerals e) [
    | some g ↦ next g (n - 1)
    | none ↦ elim (first_rule rules e) [ some r ↦ next r (n - 1) | none ↦ (e, n) ]
  ]

  -- `reduce` with the budget that it leaves; `next` stands for its calls on what a step has made,
  -- the other calls are on parts of the expression.
  unfoldable mutual
    pub reduce_at : (SExpr → ℕ → SExpr × ℕ) → SExpr → ℕ → SExpr × ℕ
    reduce_at next (symbol name) n = (symbol name, n)
    reduce_at next (var name) n = (var name, n)
    reduce_at next (list items) zero = (list items, zero)
    reduce_at next (list items) (suc n) = elim (is_if items) [
      | true ↦ reduce_if next items n
      | false ↦ let (reduced, m) = reduce_items next items (suc n) in contract next (list reduced) m
    ]

    pub reduce_if : (SExpr → ℕ → SExpr × ℕ) → Items → ℕ → SExpr × ℕ
    reduce_if next (cons h (cons c (cons t (cons e nil)))) n =
        let (cond, m) = reduce_at next c n in
        elim (serialize cond == "True") [ true ↦ reduce_at next t m | false ↦ reduce_at next e m ]
    reduce_if next items n = (list items, n)

    pub reduce_items : (SExpr → ℕ → SExpr × ℕ) → Items → ℕ → Items × ℕ
    reduce_items next nil n = (nil, n)
    reduce_items next (cons e items) n =
        let (reduced, m) = reduce_at next e n in
        let (rest, k) = reduce_items next items m in (cons reduced rest, k)

  -- `reduce`, on fuel: each rewriting step costs a unit of it as of the budget.
  unfoldable pub reduce : ℕ → SExpr → ℕ → SExpr × ℕ
  reduce zero e n = (e, n)
  reduce (suc f) e n = reduce_at (reduce f) e n

  unfoldable pub eval_sexpr : SExpr → ℕ → SExpr
  eval_sexpr e max_steps = (reduce max_steps e max_steps).0
