-- ===== src/Metta/Eval/Budget.antt =====
-- `reduce` ends on every expression (ts/src/metta-eval.ts): the budget bounds its steps.
use hellgraph.Base.{
  ℕ, zero, suc, ◌-◌, ◌≤◌, ◌<◌, ◌≡◌, refl, sym, ap, ◌∙◌, true, false, List, arith, ◌==◌, inl, inr,
  Bool-cases, Option-cases, subst,
}
use hellgraph.Metta.{SExpr, symbol, var, list, Items, nil, cons, serialize}
use hellgraph.Metta.Eval.{
  MettaRule, Numerals, grounded, first_rule, contract, is_if, reduce_at, reduce_if, reduce_items,
  reduce,
}
use hellgraph.Metta.Eval.Equations.{
  contract-grounded, contract-first_rule, contract_stays, reduce_at_list, reduce_at-reduce_if,
  reduce_if_then, reduce_if_else, reduce_items_cons,
}

module _ (numerals : Numerals) (rules : List MettaRule) where
  -- The calls leave no more of the budget than they got.
  abbrev pub IsBounded : (SExpr → ℕ → SExpr × ℕ) → Type 0
  IsBounded next = (e : SExpr) (n : ℕ) → (next e n).1 ≤ n

  module _ (next : SExpr → ℕ → SExpr × ℕ) (lower : IsBounded next) where
    pub contract_le : (e : SExpr) (n : ℕ) → (contract numerals rules next e n).1 ≤ n
    contract_le e n = elim (Option-cases (grounded numerals e)) [
      | inr (g, computes) ↦
          rw (contract-grounded numerals rules next e g n computes) (omega (arith, lower g (n - 1)))
      | inl no_ground ↦ elim (Option-cases (first_rule rules e)) [
        | inr (r, rewrites) ↦
            rw (contract-first_rule numerals rules next e r n no_ground rewrites)
              (omega (arith, lower r (n - 1)))
        | inl no_rule ↦ rw (contract_stays numerals rules next e n no_ground no_rule) (omega arith)
      ]
    ]

    mutual
      unfolding reduce_at reduce_if reduce_items

      pub reduce_at_le : (e : SExpr) (n : ℕ) → (reduce_at numerals rules next e n).1 ≤ n
      reduce_at_le (symbol name) n = omega arith
      reduce_at_le (var name) n = omega arith
      reduce_at_le (list items) zero = omega arith
      reduce_at_le (list items) (suc n) = elim (Bool-cases (is_if items)) [
        | inl conditional ↦
            rw (reduce_at-reduce_if numerals rules next items n conditional)
              (omega (arith, reduce_if_le items n))
        | inr other ↦
            let (reduced, m) = reduce_items numerals rules next items (suc n) in
            rw (reduce_at_list numerals rules next items n other)
              (omega (arith, contract_le (list reduced) m, reduce_items_le items (suc n)))
      ]

      reduce_if_le : (items : Items) (n : ℕ) → (reduce_if numerals rules next items n).1 ≤ n
      reduce_if_le nil n = omega arith
      reduce_if_le (cons h nil) n = omega arith
      reduce_if_le (cons h (cons c nil)) n = omega arith
      reduce_if_le (cons h (cons c (cons t nil))) n = omega arith
      reduce_if_le (cons h (cons c (cons t (cons e nil)))) n =
          let (cond, m) = reduce_at numerals rules next c n in
          elim (Bool-cases (serialize cond == "True")) [
            | inl truth ↦
                rw (reduce_if_then numerals rules next h c t e n truth)
                  (omega (arith, reduce_at_le c n, reduce_at_le t m))
            | inr falsity ↦
                rw (reduce_if_else numerals rules next h c t e n falsity)
                  (omega (arith, reduce_at_le c n, reduce_at_le e m))
          ]
      reduce_if_le (cons h (cons c (cons t (cons e (cons x items))))) n = omega arith

      pub reduce_items_le :
          (items : Items) (n : ℕ) → (reduce_items numerals rules next items n).1 ≤ n
      reduce_items_le nil n = omega arith
      reduce_items_le (cons e items) n =
          let m = (reduce_at numerals rules next e n).1 in
          omega (arith, reduce_at_le e n, reduce_items_le items m)

  pub reduce-IsBounded : (f : ℕ) → IsBounded (reduce numerals rules f)
  unfolding reduce
  reduce-IsBounded zero e n = omega arith
  reduce-IsBounded (suc f) e n = reduce_at_le (reduce numerals rules f) (reduce-IsBounded f) e n

  -- Two ways of going on that agree below a budget.
  abbrev AgreeBelow : ℕ → (SExpr → ℕ → SExpr × ℕ) → (SExpr → ℕ → SExpr × ℕ) → Type 0
  AgreeBelow bound next other = (e : SExpr) (n : ℕ) → n < bound → next e n ≡ other e n

  module _ (next other : SExpr → ℕ → SExpr × ℕ) (lower : IsBounded other) (bound : ℕ)
      (agree : AgreeBelow bound next other) where
    contract_agree :
        (e : SExpr) (n : ℕ)
        → n ≤ bound
        → 0 < bound
        → contract numerals rules next e n ≡ contract numerals rules other e n
    contract_agree e n le pos = elim (Option-cases (grounded numerals e)) [
      | inr (g, computes) ↦
          contract-grounded numerals rules next e g n computes
          ∙ agree g (n - 1) (omega arith)
          ∙ sym (contract-grounded numerals rules other e g n computes)
      | inl no_ground ↦ elim (Option-cases (first_rule rules e)) [
        | inr (r, rewrites) ↦
            contract-first_rule numerals rules next e r n no_ground rewrites
            ∙ agree r (n - 1) (omega arith)
            ∙ sym (contract-first_rule numerals rules other e r n no_ground rewrites)
        | inl no_rule ↦
            contract_stays numerals rules next e n no_ground no_rule
            ∙ sym (contract_stays numerals rules other e n no_ground no_rule)
      ]
    ]

    mutual
      unfolding reduce_at reduce_if reduce_items

      pub reduce_at_agree :
          (e : SExpr) (n : ℕ)
          → n ≤ bound
          → reduce_at numerals rules next e n ≡ reduce_at numerals rules other e n
      reduce_at_agree (symbol name) n le = refl
      reduce_at_agree (var name) n le = refl
      reduce_at_agree (list items) zero le = refl
      reduce_at_agree (list items) (suc n) le = elim (Bool-cases (is_if items)) [
        | inl conditional ↦
            reduce_at-reduce_if numerals rules next items n conditional
            ∙ reduce_if_agree items n (omega arith)
            ∙ sym (reduce_at-reduce_if numerals rules other items n conditional)
        | inr plain ↦
            let (reduced, m) = reduce_items numerals rules other items (suc n) in
            reduce_at_list numerals rules next items n plain
            ∙ ap (λ (p : Items × ℕ). contract numerals rules next (list p.0) p.1)
                (reduce_items_agree items (suc n) le)
            ∙ contract_agree (list reduced) m
                (omega (arith, reduce_items_le other lower items (suc n))) (omega arith)
            ∙ sym (reduce_at_list numerals rules other items n plain)
      ]

      reduce_if_agree :
          (items : Items) (n : ℕ)
          → n ≤ bound
          → reduce_if numerals rules next items n ≡ reduce_if numerals rules other items n
      reduce_if_agree nil n le = refl
      reduce_if_agree (cons h nil) n le = refl
      reduce_if_agree (cons h (cons c nil)) n le = refl
      reduce_if_agree (cons h (cons c (cons t nil))) n le = refl
      reduce_if_agree (cons h (cons c (cons t (cons e nil)))) n le =
          let there = reduce_at numerals rules other in
          let m = (there c n).1 in
          let same = reduce_at_agree c n le in
          let m_le : m ≤ bound = omega (arith, reduce_at_le other lower c n) in
          elim (Bool-cases (serialize (there c n).0 == "True")) [
            | inl truth ↦
                reduce_if_then numerals rules next h c t e n
                  (subst (λ (p : SExpr × ℕ). (serialize p.0 == "True") ≡ true) (sym same) truth)
                ∙ ap (λ (p : SExpr × ℕ). reduce_at numerals rules next t p.1) same
                ∙ reduce_at_agree t m m_le
                ∙ sym (reduce_if_then numerals rules other h c t e n truth)
            | inr falsity ↦
                reduce_if_else numerals rules next h c t e n
                  (subst (λ (p : SExpr × ℕ). (serialize p.0 == "True") ≡ false) (sym same) falsity)
                ∙ ap (λ (p : SExpr × ℕ). reduce_at numerals rules next e p.1) same
                ∙ reduce_at_agree e m m_le
                ∙ sym (reduce_if_else numerals rules other h c t e n falsity)
          ]
      reduce_if_agree (cons h (cons c (cons t (cons e (cons x items))))) n le = refl

      reduce_items_agree :
          (items : Items) (n : ℕ)
          → n ≤ bound
          → reduce_items numerals rules next items n ≡ reduce_items numerals rules other items n
      reduce_items_agree nil n le = refl
      reduce_items_agree (cons e items) n le =
          let there = reduce_at numerals rules other in
          let more = reduce_items numerals rules other in
          let m = (there e n).1 in
          reduce_items_cons numerals rules next e items n
          ∙ ap
              (λ (p : SExpr × ℕ). (
                cons p.0 (reduce_items numerals rules next items p.1).0,
                (reduce_items numerals rules next items p.1).1,
              ))
              (reduce_at_agree e n le)
          ∙ ap (λ (p : Items × ℕ). (cons (there e n).0 p.0, p.1))
              (reduce_items_agree items m (omega (arith, reduce_at_le other lower e n)))
          ∙ sym (reduce_items_cons numerals rules other e items n)

  spent : (f : ℕ) (e : SExpr) → reduce numerals rules f e 0 ≡ (e, 0)
  unfolding reduce reduce_at
  spent zero e = refl
  spent (suc f) (symbol name) = refl
  spent (suc f) (var name) = refl
  spent (suc f) (list items) = refl

  -- Fuel above the budget changes nothing.
  reduce_agree :
      (f g : ℕ) (e : SExpr) (n : ℕ)
      → n ≤ f
      → n ≤ g
      → reduce numerals rules f e n ≡ reduce numerals rules g e n
  unfolding reduce
  reduce_agree zero g e n f_le g_le =
      subst (λ m. reduce numerals rules 0 e m ≡ reduce numerals rules g e m) (omega arith)
        (sym (spent g e))
  reduce_agree (suc f) zero e n f_le g_le =
      subst (λ m. reduce numerals rules (suc f) e m ≡ reduce numerals rules 0 e m) (omega arith)
        (spent (suc f) e)
  reduce_agree (suc f) (suc g) e n f_le g_le =
      reduce_at_agree (reduce numerals rules f) (reduce numerals rules g) (reduce-IsBounded g) n
        (λ e' m below. reduce_agree f g e' m (omega arith) (omega arith)) e n (omega arith)

  -- `reduce` with the fuel that its budget calls for.
  abbrev pub run : SExpr → ℕ → SExpr × ℕ
  run e n = reduce numerals rules n e n

  -- `reduce`, with as much fuel as budget, satisfies the recursive equation of the source on every
  -- expression and budget: the evaluation ends whatever the rules, and the fuel cuts nothing off.
  pub run-reduce_at : (e : SExpr) (n : ℕ) → run e n ≡ reduce_at numerals rules run e n
  unfolding reduce reduce_at
  run-reduce_at (symbol name) zero = refl
  run-reduce_at (var name) zero = refl
  run-reduce_at (list items) zero = refl
  run-reduce_at e (suc n) =
      reduce_at_agree (reduce numerals rules n) run (λ e' m. reduce-IsBounded m e' m) (suc n)
        (λ e' m below. reduce_agree n m e' m (omega arith) (omega arith)) e (suc n) (omega arith)
