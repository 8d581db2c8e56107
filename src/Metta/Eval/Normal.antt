-- ===== src/Metta/Eval/Normal.antt =====
-- What `reduce` returns with budget left (ts/src/metta-eval.ts).
use hellgraph.Base.{
  ℕ, zero, suc, ◌-◌, ◌≤◌, ◌<◌, ◌≡◌, refl, true, false, none, List, arith, ◌==◌, inl, inr,
  Bool-cases, Option-cases, nat_eq,
}
use hellgraph.Metta.{SExpr, symbol, var, list, Items, nil, cons, serialize}
use hellgraph.Metta.Eval.{
  MettaRule, Numerals, grounded, first_rule, contract, is_if, count, reduce_at, reduce_if,
  reduce_items,
}
use hellgraph.Metta.Eval.Equations.{
  contract-grounded, contract-first_rule, contract_stays, reduce_at_list, reduce_at-reduce_if,
  reduce_if_then, reduce_if_else,
}
use hellgraph.Metta.Eval.Budget.{IsBounded, reduce_at_le, reduce_items_le, contract_le}

-- A list of another length is no conditional.
not_if : (items : Items) → is_if items ≡ true → nat_eq (count items) 4 ≡ false → ⊥
unfolding is_if
not_if items is other = ground arith

module _ (numerals : Numerals) (rules : List MettaRule) where
  -- No grounded operation and no rule takes the expression or a part of it further.
  abbrev mutual
    pub IsNormal : SExpr → Type 0
    IsNormal (symbol name) = Unit
    IsNormal (var name) = Unit
    IsNormal (list items) =
        AreNormal items
        × (grounded numerals (list items) ≡ none)
        × (first_rule rules (list items) ≡ none)

    pub AreNormal : Items → Type 0
    AreNormal nil = Unit
    AreNormal (cons e items) = IsNormal e × AreNormal items

  -- A call with less than the bound that leaves budget returns a normal form.
  abbrev IsNormalizing : ℕ → (SExpr → ℕ → SExpr × ℕ) → Type 0
  IsNormalizing bound next =
      (e : SExpr) (n : ℕ) → n < bound → 0 < (next e n).1 → IsNormal (next e n).0

  module _ (next : SExpr → ℕ → SExpr × ℕ) (lower : IsBounded numerals rules next) (bound : ℕ)
      (good : IsNormalizing bound next) where
    contract-IsNormal :
        (items : Items) (n : ℕ)
        → n ≤ bound
        → 0 < (contract numerals rules next (list items) n).1
        → AreNormal items
        → IsNormal (contract numerals rules next (list items) n).0
    contract-IsNormal items n le left normal =
        elim (Option-cases (grounded numerals (list items))) [
          | inr (g, computes) ↦
              let same = contract-grounded numerals rules next (list items) g n computes in
              let kept : 0 < (next g (n - 1)).1 = rw (same) at left in
              rw (same) (good g (n - 1) (omega (arith, kept, lower g (n - 1))) kept)
          | inl no_ground ↦ elim (Option-cases (first_rule rules (list items))) [
            | inr (r, rewrites) ↦
                let same =
                  contract-first_rule numerals rules next (list items) r n no_ground rewrites in
                let kept : 0 < (next r (n - 1)).1 = rw (same) at left in
                rw (same) (good r (n - 1) (omega (arith, kept, lower r (n - 1))) kept)
            | inl no_rule ↦
                rw (contract_stays numerals rules next (list items) n no_ground no_rule)
                  (normal, no_ground, no_rule)
          ]
        ]

    mutual
      unfolding reduce_at reduce_if reduce_items

      reduce_at-IsNormal :
          (e : SExpr) (n : ℕ)
          → n ≤ bound
          → 0 < (reduce_at numerals rules next e n).1
          → IsNormal (reduce_at numerals rules next e n).0
      reduce_at-IsNormal (symbol name) n le left = tt
      reduce_at-IsNormal (var name) n le left = tt
      reduce_at-IsNormal (list items) zero le left = absurd (omega arith)
      reduce_at-IsNormal (list items) (suc n) le left = elim (Bool-cases (is_if items)) [
        | inl is ↦
            let same = reduce_at-reduce_if numerals rules next items n is in
            rw (same) (reduce_if-IsNormal items n (omega arith) is (rw (same) at left))
        | inr other ↦
            let (reduced, m) = reduce_items numerals rules next items (suc n) in
            let m_le = reduce_items_le numerals rules next lower items (suc n) in
            let same = reduce_at_list numerals rules next items n other in
            let kept : 0 < (contract numerals rules next (list reduced) m).1 = rw (same) at left in
            rw (same) (
              contract-IsNormal reduced m (omega arith) kept (
                reduce_items-AreNormal items (suc n) le
                  (omega (arith, kept, contract_le numerals rules next lower (list reduced) m))))
      ]

      reduce_if-IsNormal :
          (items : Items) (n : ℕ)
          → n ≤ bound
          → is_if items ≡ true
          → 0 < (reduce_if numerals rules next items n).1
          → IsNormal (reduce_if numerals rules next items n).0
      reduce_if-IsNormal nil n le is left = absurd (not_if nil is refl)
      reduce_if-IsNormal (cons h nil) n le is left = absurd (not_if (cons h nil) is refl)
      reduce_if-IsNormal (cons h (cons c nil)) n le is left =
          absurd (not_if (cons h (cons c nil)) is refl)
      reduce_if-IsNormal (cons h (cons c (cons t nil))) n le is left =
          absurd (not_if (cons h (cons c (cons t nil))) is refl)
      reduce_if-IsNormal (cons h (cons c (cons t (cons e nil)))) n le is left =
          let (cond, m) = reduce_at numerals rules next c n in
          let m_le : m ≤ bound = omega (arith, reduce_at_le numerals rules next lower c n) in
          elim (Bool-cases (serialize cond == "True")) [
            | inl truth ↦
                let same = reduce_if_then numerals rules next h c t e n truth in
                rw (same) (reduce_at-IsNormal t m m_le (rw (same) at left))
            | inr falsity ↦
                let same = reduce_if_else numerals rules next h c t e n falsity in
                rw (same) (reduce_at-IsNormal e m m_le (rw (same) at left))
          ]
      reduce_if-IsNormal (cons h (cons c (cons t (cons e (cons x items))))) n le is left =
          absurd (not_if (cons h (cons c (cons t (cons e (cons x items))))) is (ground arith))

      reduce_items-AreNormal :
          (items : Items) (n : ℕ)
          → n ≤ bound
          → 0 < (reduce_items numerals rules next items n).1
          → AreNormal (reduce_items numerals rules next items n).0
      reduce_items-AreNormal nil n le left = tt
      reduce_items-AreNormal (cons e items) n le left =
          let m = (reduce_at numerals rules next e n).1 in
          let e_le = reduce_at_le numerals rules next lower e n in
          (
            reduce_at-IsNormal e n le
                (omega (arith, left, reduce_items_le numerals rules next lower items m)),
            reduce_items-AreNormal items m (omega arith) left,
          )
