-- ===== src/Examples/Terms.antt =====
-- Concrete inputs for the theorems on ts/src/metta.ts and ts/src/metta-eval.ts.
use hellgraph.Base.{◌+◌, ◌-◌, ◌*◌, ◌≡◌, refl, [], ◌∷◌, ltb, leb, arith, ◌==◌}
use hellgraph.Base.Text.{decimal, value}
use hellgraph.Dict
use hellgraph.Metta.{
  SExpr, symbol, var, list, nil, cons, ok, serialize, instantiate, instantiate_items, is_space,
  parse_sexpr,
}
use hellgraph.Metta.RoundTrip.{parse_sexpr-serialize}
use hellgraph.Metta.Eval.{
  MettaRule, Numerals, unify_s, unify_all, grounded, first_rule, contract, is_if, heads, reduce_at,
  reduce_if, reduce_items, reduce, eval_sexpr, on_numbers, compute, is_num, digits, all_digits,
}
use hellgraph.Metta.Eval.Budget.{run, run-reduce_at}
use hellgraph.Metta.Eval.Rewriting.{Rewrites, eval_sexpr-Rewrites}

-- Sums and comparisons of whole numbers.
abbrev numerals : Numerals
numerals = record {
  plus = λ x y. decimal (value 0 x + value 0 y);
  minus = λ x y. decimal (value 0 x - value 0 y);
  times = λ x y. decimal (value 0 x * value 0 y);
  less = λ x y. ltb (value 0 x) (value 0 y);
  more = λ x y. ltb (value 0 y) (value 0 x);
  at_most = λ x y. leb (value 0 x) (value 0 y);
  at_least = λ x y. leb (value 0 y) (value 0 x);
}

-- (= (double $x) (+ $x $x))
abbrev double_rule : MettaRule
double_rule = record {
  lhs = list (cons (symbol "double") (cons (var "x") nil));
  rhs = list (cons (symbol "+") (cons (var "x") (cons (var "x") nil)));
}

abbrev doubled : SExpr
doubled = list (cons (symbol "double") (cons (symbol "21") nil))

parse_sexpr-serialize_example : parse_sexpr (serialize double_rule.lhs) ≡ ok double_rule.lhs []
unfolding is_space
parse_sexpr-serialize_example =
    parse_sexpr-serialize double_rule.lhs ((refl, refl), (refl, tt)) (omega arith)

run-reduce_at_example :
    run numerals (double_rule ∷ []) doubled 9
    ≡ reduce_at numerals (double_rule ∷ []) (run numerals (double_rule ∷ [])) doubled 9
run-reduce_at_example = run-reduce_at numerals (double_rule ∷ []) doubled 9

eval_sexpr-Rewrites_example : Rewrites numerals (double_rule ∷ []) doubled (symbol "42")
unfolding eval_sexpr reduce reduce_at reduce_if reduce_items contract grounded first_rule is_if
    heads unify_s unify_all instantiate instantiate_items Dict.get Dict.put ◌==◌ on_numbers compute
    is_num digits all_digits decimal value
eval_sexpr-Rewrites_example = eval_sexpr-Rewrites numerals (double_rule ∷ []) doubled 9

-- (ListLink $x)
abbrev in_list : SExpr
in_list = list (cons (symbol "ListLink") (cons (var "x") nil))
