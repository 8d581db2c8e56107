-- ===== src/Metta/Fuel.antt =====
-- The fuel of the parser is enough (ts/src/metta.ts, `makeParser`).
use hellgraph.Base.{
  ℕ, zero, suc, ◌+◌, ◌*◌, ◌≤◌, ◌<◌, String, ◌≢◌, List, [], ◌∷◌, arith, length, ltb, ◌==◌, inl, inr,
  Bool-cases, subst,
}
use hellgraph.Metta.{
  SExpr, Items, tokenize, Parsed, ok, failed, out_of_fuel, parse_expr, parse_items, parse_sexpr,
  parse_forms, parse_program, max_parse_depth, then_list, then_cons, then_form,
}

-- An outcome of the source that has left fewer than `n` tokens.
abbrev Consumes {ℓ} : {A : Type ℓ} → ℕ → Parsed A → Type 0
Consumes n (ok e rest) = length rest < n
Consumes n (failed err) = Unit
Consumes n out_of_fuel = ⊥

Consumes-then_list : (n : ℕ) (r : Parsed Items) → Consumes n r → Consumes (suc n) (then_list r)
Consumes-then_list n (ok items rest) h = omega arith
Consumes-then_list n (failed err) h = tt
Consumes-then_list n out_of_fuel h = absurd h

Consumes-then_cons :
    (m n : ℕ) (e : SExpr) (r : Parsed Items) → m ≤ n → Consumes m r → Consumes n (then_cons e r)
Consumes-then_cons m n e (ok items rest) le h = omega arith
Consumes-then_cons m n e (failed err) le h = tt
Consumes-then_cons m n e out_of_fuel le h = absurd h

-- What the loop over the items does after an item.
abbrev after_item : ℕ → ℕ → Parsed SExpr → Parsed Items
after_item f depth (ok e rest) = then_cons e (parse_items f depth rest)
after_item f depth (failed err) = failed err
after_item f depth out_of_fuel = out_of_fuel

after_item-Consumes :
    (f depth n : ℕ) (r : Parsed SExpr)
    → ((rest : List String) → length rest < n → Consumes (length rest) (parse_items f depth rest))
    → Consumes n r
    → Consumes n (after_item f depth r)
after_item-Consumes f depth n (ok e rest) h c =
    Consumes-then_cons (length rest) n e (parse_items f depth rest) (omega arith) (h rest c)
after_item-Consumes f depth n (failed err) h c = tt
after_item-Consumes f depth n out_of_fuel h c = absurd c

mutual
  unfolding parse_expr parse_items

  parse_expr-Consumes :
      (f depth : ℕ) (ts : List String)
      → 2 * length ts < f
      → Consumes (length ts) (parse_expr f depth ts)
  parse_expr-Consumes zero depth ts h = absurd (omega arith)
  parse_expr-Consumes (suc f) depth [] h = elim (Bool-cases (ltb max_parse_depth depth)) [
    | inl deep ↦ rw (deep) tt
    | inr shallow ↦ rw (shallow) tt
  ]
  parse_expr-Consumes (suc f) depth (t ∷ ts) h = elim (Bool-cases (ltb max_parse_depth depth)) [
    | inl deep ↦ rw (deep) tt
    | inr shallow ↦ elim (Bool-cases (t == "(")) [
      | inl opens ↦
          rw (shallow, opens)
            (Consumes-then_list (length ts) (parse_items f depth ts)
              (parse_items-Consumes f depth ts (omega arith)))
      | inr other ↦ elim (Bool-cases (t == ")")) [
        | inl closes ↦ rw (shallow, other, closes) tt
        | inr word ↦ rw (shallow, other, word) (omega arith)
      ]
    ]
  ]

  parse_items-Consumes :
      (f depth : ℕ) (ts : List String)
      → 2 * length ts + 1 < f
      → Consumes (length ts) (parse_items f depth ts)
  parse_items-Consumes zero depth ts h = absurd (omega arith)
  parse_items-Consumes (suc f) depth [] h = tt
  parse_items-Consumes (suc f) depth (t ∷ ts) h = elim (Bool-cases (t == ")")) [
    | inl closes ↦ rw (closes, parse_items) (omega arith)
    | inr other ↦
        rw (parse_items, other)
          (after_item-Consumes f depth (suc (length ts)) (parse_expr f (suc depth) (t ∷ ts))
            (λ rest shorter. parse_items-Consumes f depth rest (omega arith))
            (parse_expr-Consumes f (suc depth) (t ∷ ts) (omega arith)))
  ]

-- What stands for a result of the source.
Consumes-finished : {A : Type 0} (n : ℕ) (r : Parsed A) → Consumes n r → r ≢ out_of_fuel
Consumes-finished n r h e = subst (Consumes n) e h

-- `parseSExpr` ends with an expression or an error, whatever the text.
pub parse_sexpr_ends : (text : String) → parse_sexpr text ≢ out_of_fuel
unfolding parse_sexpr
parse_sexpr_ends text =
    Consumes-finished (length (tokenize text)) (parse_sexpr text)
      (parse_expr-Consumes (2 * length (tokenize text) + 1) 0 (tokenize text) (omega arith))

abbrev after_form : ℕ → Parsed SExpr → Parsed (List SExpr)
after_form f (ok e rest) = then_form e (parse_forms f rest)
after_form f (failed err) = failed err
after_form f out_of_fuel = out_of_fuel

Consumes-then_form :
    (m n : ℕ) (e : SExpr) (r : Parsed (List SExpr))
    → m ≤ n
    → Consumes m r
    → Consumes n (then_form e r)
Consumes-then_form m n e (ok forms rest) le h = omega arith
Consumes-then_form m n e (failed err) le h = tt
Consumes-then_form m n e out_of_fuel le h = absurd h

after_form-Consumes :
    (f n : ℕ) (r : Parsed SExpr)
    → ((rest : List String) → length rest < n → Consumes (suc (length rest)) (parse_forms f rest))
    → Consumes n r
    → Consumes (suc n) (after_form f r)
after_form-Consumes f n (ok e rest) h c =
    Consumes-then_form (suc (length rest)) (suc n) e (parse_forms f rest) (omega arith) (h rest c)
after_form-Consumes f n (failed err) h c = tt
after_form-Consumes f n out_of_fuel h c = absurd c

parse_forms-Consumes :
    (f : ℕ) (ts : List String) → length ts < f → Consumes (suc (length ts)) (parse_forms f ts)
unfolding parse_forms
parse_forms-Consumes zero ts h = absurd (omega arith)
parse_forms-Consumes (suc f) [] h = omega arith
parse_forms-Consumes (suc f) (t ∷ ts) h =
    after_form-Consumes f (suc (length ts)) (parse_expr (2 * suc (length ts) + 1) 0 (t ∷ ts))
      (λ rest shorter. parse_forms-Consumes f rest (omega arith))
      (parse_expr-Consumes (2 * suc (length ts) + 1) 0 (t ∷ ts) (omega arith))

-- Reading a program ends with its forms or an error, whatever the text: the fuel of the parser is
-- enough.
pub parse_program_ends : (text : String) → parse_program text ≢ out_of_fuel
unfolding parse_program
parse_program_ends text =
    let ts = tokenize text in
    Consumes-finished (suc (length ts)) (parse_program text)
      (parse_forms-Consumes (suc (length ts)) ts (omega arith))
