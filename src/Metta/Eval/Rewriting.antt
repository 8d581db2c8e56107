-- ===== src/Metta/Eval/Rewriting.antt =====
-- What `reduce` is to compute, as a relation: an expression rewrites to another by equality rules,
-- grounded operations and conditionals, inside lists too (ts/src/metta-eval.ts).
use mathlib.Core.List.{Memᴰ}
use mathlib.Core.Option.{some-injective}
use hellgraph.Base.{
  ℕ, zero, suc, ◌-◌, ◌≡◌, ◌≢◌, refl, ap, true, some, List, [], ◌∷◌, arith, ◌==◌, ==_iff, inl, inr,
  Bool-cases, Option-cases, subst,
}
use hellgraph.Metta.{SExpr, symbol, var, list, Items, nil, cons, serialize, instantiate, Binding}
use hellgraph.Metta.Eval.{
  MettaRule, Numerals, unify_s, grounded, first_rule, contract, is_if, heads, reduce_at, reduce_if,
  reduce_items, reduce, eval_sexpr,
}
use hellgraph.Metta.Eval.Equations.{
  contract-grounded, contract-first_rule, contract_stays, reduce_at_list, reduce_at-reduce_if,
  reduce_if_then, reduce_if_else,
}

abbrev pub conditional : SExpr → SExpr → SExpr → SExpr
conditional c t e = list (cons (symbol "if") (cons c (cons t (cons e nil))))

if_head : (h : SExpr) (items : Items) → is_if (cons h items) ≡ true → h ≡ symbol "if"
unfolding is_if heads
if_head (symbol name) items is = ap symbol ((==_iff name "if").0 (ground arith))
if_head (var name) items is = ground arith
if_head (list others) items is = ground arith

module _ (numerals : Numerals) (rules : List MettaRule) where
  mutual
    pub data Rewrites : SExpr → SExpr → Type 0 where
      stay : {e : SExpr} → Rewrites e e
      step : {a b c : SExpr} → Rewrites a b → Rewrites b c → Rewrites a c
      inside :
          {items others : Items} → AllRewrite items others → Rewrites (list items) (list others)
      compute : {e g : SExpr} → grounded numerals e ≡ some g → Rewrites e g
      apply :
          {e : SExpr} (r : MettaRule) (b : Binding)
          → Memᴰ r rules
          → unify_s r.lhs e [] ≡ some b
          → Rewrites e (instantiate r.rhs b)
      choose_then :
          {c t e truth : SExpr}
          → Rewrites c truth
          → serialize truth ≡ "True"
          → Rewrites (conditional c t e) t
      choose_else :
          {c t e falsity : SExpr}
          → Rewrites c falsity
          → serialize falsity ≢ "True"
          → Rewrites (conditional c t e) e

    pub data AllRewrite : Items → Items → Type 0 where
      none_left : AllRewrite nil nil
      and_all :
          {e d : SExpr} {items others : Items}
          → Rewrites e d
          → AllRewrite items others
          → AllRewrite (cons e items) (cons d others)

  -- The steps by a rule among some of the rules.
  applied :
      (some_rules : List MettaRule) (e r : SExpr)
      → ((x : MettaRule) → Memᴰ x some_rules → Memᴰ x rules)
      → first_rule some_rules e ≡ some r
      → Rewrites e r
  unfolding first_rule
  applied [] e r among h = absurd (ground arith)
  applied (x ∷ xs) e r among h = elim (Option-cases (unify_s x.lhs e [])) [
    | inr (b, matches) ↦
        subst (Rewrites e) (some-injective (instantiate x.rhs b) r (rw (first_rule, matches) at h))
          (apply x b (among x (Memᴰ.head refl)) matches)
    | inl no_match ↦ applied xs e r (λ y m. among y (Memᴰ.tail m)) (rw (first_rule, no_match) at h)
  ]

  module _ (next : SExpr → ℕ → SExpr × ℕ)
      (goes_on : (e : SExpr) (n : ℕ) → Rewrites e (next e n).0) where
    contract-Rewrites : (e : SExpr) (n : ℕ) → Rewrites e (contract numerals rules next e n).0
    contract-Rewrites e n = elim (Option-cases (grounded numerals e)) [
      | inr (g, computes) ↦
          rw (contract-grounded numerals rules next e g n computes)
            (step (compute computes) (goes_on g (n - 1)))
      | inl no_ground ↦ elim (Option-cases (first_rule rules e)) [
        | inr (r, rewrites) ↦
            rw (contract-first_rule numerals rules next e r n no_ground rewrites)
              (step (applied rules e r (λ x m. m) rewrites) (goes_on r (n - 1)))
        | inl no_rule ↦ rw (contract_stays numerals rules next e n no_ground no_rule) stay
      ]
    ]

    mutual
      unfolding reduce_at reduce_if reduce_items

      reduce_at-Rewrites : (e : SExpr) (n : ℕ) → Rewrites e (reduce_at numerals rules next e n).0
      reduce_at-Rewrites (symbol name) n = stay
      reduce_at-Rewrites (var name) n = stay
      reduce_at-Rewrites (list items) zero = stay
      reduce_at-Rewrites (list items) (suc n) = elim (Bool-cases (is_if items)) [
        | inl is ↦
            rw (reduce_at-reduce_if numerals rules next items n is) (reduce_if-Rewrites items n is)
        | inr other ↦
            let (reduced, m) = reduce_items numerals rules next items (suc n) in
            rw (reduce_at_list numerals rules next items n other) (
              step (inside (reduce_items-Rewrites items (suc n)))
                (contract-Rewrites (list reduced) m))
      ]

      reduce_if-Rewrites :
          (items : Items) (n : ℕ)
          → is_if items ≡ true
          → Rewrites (list items) (reduce_if numerals rules next items n).0
      reduce_if-Rewrites nil n is = stay
      reduce_if-Rewrites (cons h nil) n is = stay
      reduce_if-Rewrites (cons h (cons c nil)) n is = stay
      reduce_if-Rewrites (cons h (cons c (cons t nil))) n is = stay
      reduce_if-Rewrites (cons h (cons c (cons t (cons e nil)))) n is =
          let (cond, m) = reduce_at numerals rules next c n in
          rw (if_head h (cons c (cons t (cons e nil))) is)
            (elim (Bool-cases (serialize cond == "True")) [
              | inl truth ↦ rw (reduce_if_then numerals rules next h c t e n truth) (
                  step
                    (choose_then (reduce_at-Rewrites c n)
                      ((==_iff (serialize cond) "True").0 truth))
                    (reduce_at-Rewrites t m))
              | inr falsity ↦ rw (reduce_if_else numerals rules next h c t e n falsity) (
                  step
                    (choose_else (reduce_at-Rewrites c n)
                      (λ same. ground (arith, (==_iff (serialize cond) "True").1 same)))
                    (reduce_at-Rewrites e m))
            ])
      reduce_if-Rewrites (cons h (cons c (cons t (cons e (cons x items))))) n is = stay

      reduce_items-Rewrites :
          (items : Items) (n : ℕ) → AllRewrite items (reduce_items numerals rules next items n).0
      reduce_items-Rewrites nil n = none_left
      reduce_items-Rewrites (cons e items) n =
          and_all (reduce_at-Rewrites e n)
            (reduce_items-Rewrites items (reduce_at numerals rules next e n).1)

  reduce-Rewrites : (f : ℕ) (e : SExpr) (n : ℕ) → Rewrites e (reduce numerals rules f e n).0
  unfolding reduce
  reduce-Rewrites zero e n = stay
  reduce-Rewrites (suc f) e n = reduce_at-Rewrites (reduce numerals rules f) (reduce-Rewrites f) e n

  -- The evaluator only rewrites: what it returns is reached from the expression by the rules given,
  -- the grounded operations and the conditionals, applied anywhere in it.
  pub eval_sexpr-Rewrites :
      (e : SExpr) (max_steps : ℕ) → Rewrites e (eval_sexpr numerals rules e max_steps)
  unfolding eval_sexpr
  eval_sexpr-Rewrites e max_steps = reduce-Rewrites max_steps e max_steps
