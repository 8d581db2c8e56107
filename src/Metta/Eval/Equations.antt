-- ===== src/Metta/Eval/Equations.antt =====
-- The branches of `reduce` as equations (ts/src/metta-eval.ts).
use hellgraph.Base.{ℕ, suc, ◌-◌, ◌≡◌, refl, true, false, none, some, List, ◌==◌}
use hellgraph.Metta.{SExpr, list, Items, nil, cons, serialize}
use hellgraph.Metta.Eval.{
  MettaRule, Numerals, grounded, first_rule, contract, is_if, reduce_at, reduce_if, reduce_items,
}

module _ (numerals : Numerals) (rules : List MettaRule) (next : SExpr → ℕ → SExpr × ℕ) where
  abbrev pub at : SExpr → ℕ → SExpr × ℕ
  at = reduce_at numerals rules next

  abbrev pub at_items : Items → ℕ → Items × ℕ
  at_items = reduce_items numerals rules next

  pub contract-grounded :
      (e g : SExpr) (n : ℕ)
      → grounded numerals e ≡ some g
      → contract numerals rules next e n ≡ next g (n - 1)
  unfolding contract
  contract-grounded e g n h = rw (contract, h) refl

  pub contract-first_rule :
      (e r : SExpr) (n : ℕ)
      → grounded numerals e ≡ none
      → first_rule rules e ≡ some r
      → contract numerals rules next e n ≡ next r (n - 1)
  unfolding contract
  contract-first_rule e r n g h = rw (contract, g, h) refl

  pub contract_stays :
      (e : SExpr) (n : ℕ)
      → grounded numerals e ≡ none
      → first_rule rules e ≡ none
      → contract numerals rules next e n ≡ (e, n)
  unfolding contract
  contract_stays e n g h = rw (contract, g, h) refl

  pub reduce_at_list :
      (items : Items) (n : ℕ)
      → is_if items ≡ false
      → at (list items) (suc n)
        ≡ contract numerals rules next (list (at_items items (suc n)).0) (at_items items (suc n)).1
  unfolding reduce_at reduce_items
  reduce_at_list items n h = rw (reduce_at, h) refl

  pub reduce_at-reduce_if :
      (items : Items) (n : ℕ)
      → is_if items ≡ true
      → at (list items) (suc n) ≡ reduce_if numerals rules next items n
  unfolding reduce_at reduce_if
  reduce_at-reduce_if items n h = rw (reduce_at, h) refl

  pub reduce_if_then :
      (h c t e : SExpr) (n : ℕ)
      → (serialize (at c n).0 == "True") ≡ true
      → reduce_if numerals rules next (cons h (cons c (cons t (cons e nil)))) n ≡ at t (at c n).1
  unfolding reduce_at reduce_if
  reduce_if_then h c t e n truth = rw (reduce_if, truth) refl

  pub reduce_if_else :
      (h c t e : SExpr) (n : ℕ)
      → (serialize (at c n).0 == "True") ≡ false
      → reduce_if numerals rules next (cons h (cons c (cons t (cons e nil)))) n ≡ at e (at c n).1
  unfolding reduce_at reduce_if
  reduce_if_else h c t e n falsity = rw (reduce_if, falsity) refl

  pub reduce_items_cons :
      (e : SExpr) (items : Items) (n : ℕ)
      → at_items (cons e items) n
        ≡ (cons (at e n).0 (at_items items (at e n).1).0, (at_items items (at e n).1).1)
  unfolding reduce_at reduce_items
  reduce_items_cons e items n = refl
