-- ===== src/Policy/Conditions.antt =====
-- `evalCondition` of ts/src/policy.ts, with the bound on its nesting.
pub mod Meaning
use hellgraph.Base.{
  ℕ, suc, ◌+◌, ◌≤◌, max, String, ◌≡◌, refl, Bool, true, false, not, ◌&&◌, ◌||◌, Option, none, some,
  arith, ltb, if◌then◌else◌,
}
use hellgraph.Policy.Context.{
  Value, arr, PolicyContext, get_path, truthy_value, strict_eq, includes,
}

pub data Op : Type 0 where
  op_eq op_ne op_truthy op_falsy op_in : Op

mutual
  pub data Condition : Type 0 where
    attr : String → Op → Value → Condition
    all : Conditions → Condition
    any_of : Conditions → Condition
    not_of : Condition → Condition

  pub data Conditions : Type 0 where
    nil : Conditions
    cons : Condition → Conditions → Conditions

abbrev pub max_cond_depth : ℕ
max_cond_depth = 64

abbrev in_list : Value → Value → Bool
in_list (arr xs) v = includes xs v
in_list _ v = false

-- The `switch` on the operator.
unfoldable pub test_attr : Op → Value → Value → Bool
test_attr op_eq v value = strict_eq v value
test_attr op_ne v value = not (strict_eq v value)
test_attr op_truthy v value = truthy_value v
test_attr op_falsy v value = not (truthy_value v)
test_attr op_in v value = in_list value v

-- The answer, or `none` for the error "condition nesting too deep". `every` and `some` stop at the
-- first condition that decides.
unfoldable mutual
  pub eval_condition : Condition → PolicyContext → ℕ → Option Bool
  eval_condition (attr path op value) ctx depth =
      if ltb max_cond_depth depth then none else some (test_attr op (get_path ctx path) value)
  eval_condition (all cs) ctx depth =
      let rest = eval_every cs ctx (suc depth) in if ltb max_cond_depth depth then none else rest
  eval_condition (any_of cs) ctx depth =
      let rest = eval_some cs ctx (suc depth) in if ltb max_cond_depth depth then none else rest
  eval_condition (not_of c) ctx depth =
      let inner = eval_condition c ctx (suc depth) in
      if ltb max_cond_depth depth then none else elim inner [ none ↦ none | some b ↦ some (not b) ]

  pub eval_every : Conditions → PolicyContext → ℕ → Option Bool
  eval_every nil ctx depth = some true
  eval_every (cons c cs) ctx depth =
      let rest = eval_every cs ctx depth in
      elim (eval_condition c ctx depth) [ none ↦ none | some b ↦ if b then rest else some false ]

  pub eval_some : Conditions → PolicyContext → ℕ → Option Bool
  eval_some nil ctx depth = some false
  eval_some (cons c cs) ctx depth =
      let rest = eval_some cs ctx depth in
      elim (eval_condition c ctx depth) [ none ↦ none | some b ↦ if b then some true else rest ]

-- What a condition says of a context, whatever its nesting.
abbrev mutual
  pub meaning : Condition → PolicyContext → Bool
  meaning (attr path op value) ctx = test_attr op (get_path ctx path) value
  meaning (all cs) ctx = meaning_all cs ctx
  meaning (any_of cs) ctx = meaning_any cs ctx
  meaning (not_of c) ctx = not (meaning c ctx)

  pub meaning_all : Conditions → PolicyContext → Bool
  meaning_all nil ctx = true
  meaning_all (cons c cs) ctx = meaning c ctx && meaning_all cs ctx

  pub meaning_any : Conditions → PolicyContext → Bool
  meaning_any nil ctx = false
  meaning_any (cons c cs) ctx = meaning c ctx || meaning_any cs ctx

-- How many levels lie below a condition.
abbrev mutual
  pub nesting : Condition → ℕ
  nesting (attr path op value) = 0
  nesting (all cs) = nesting_list cs
  nesting (any_of cs) = nesting_list cs
  nesting (not_of c) = suc (nesting c)

  pub nesting_list : Conditions → ℕ
  nesting_list nil = 0
  nesting_list (cons c cs) = max (suc (nesting c)) (nesting_list cs)

-- Short of the bound the evaluator answers, and its answer is the meaning.
mutual
  unfolding eval_condition

  eval-fits :
      (c : Condition) (ctx : PolicyContext) (depth : ℕ)
      → nesting c + depth ≤ max_cond_depth
      → eval_condition c ctx depth ≡ some (meaning c ctx)
  eval-fits (attr path op value) ctx depth h = ground arith
  eval-fits (all cs) ctx depth h = ground (arith, every-fits cs ctx depth h)
  eval-fits (any_of cs) ctx depth h = ground (arith, some-fits cs ctx depth h)
  eval-fits (not_of c) ctx depth h = ground (arith, eval-fits c ctx (suc depth) (omega arith))

  every-fits :
      (cs : Conditions) (ctx : PolicyContext) (depth : ℕ)
      → nesting_list cs + depth ≤ max_cond_depth
      → eval_every cs ctx (suc depth) ≡ some (meaning_all cs ctx)
  every-fits nil ctx depth h = refl
  every-fits (cons c cs) ctx depth h =
      ground
        (arith, eval-fits c ctx (suc depth) (omega arith), every-fits cs ctx depth (omega arith))

  some-fits :
      (cs : Conditions) (ctx : PolicyContext) (depth : ℕ)
      → nesting_list cs + depth ≤ max_cond_depth
      → eval_some cs ctx (suc depth) ≡ some (meaning_any cs ctx)
  some-fits nil ctx depth h = refl
  some-fits (cons c cs) ctx depth h =
      ground
        (arith, eval-fits c ctx (suc depth) (omega arith), some-fits cs ctx depth (omega arith))

-- Whenever the evaluator answers at all, its answer is the meaning.
mutual
  unfolding eval_condition

  eval_sound :
      (c : Condition) (ctx : PolicyContext) (depth : ℕ) (b : Bool)
      → eval_condition c ctx depth ≡ some b
      → b ≡ meaning c ctx
  eval_sound (attr path op value) ctx depth b h = ground arith
  eval_sound (all cs) ctx depth b h = ground (arith, every_sound cs ctx (suc depth) b)
  eval_sound (any_of cs) ctx depth b h = ground (arith, some_sound cs ctx (suc depth) b)
  eval_sound (not_of c) ctx depth b h = ground (arith, eval_sound c ctx (suc depth) (not b))

  every_sound :
      (cs : Conditions) (ctx : PolicyContext) (depth : ℕ) (b : Bool)
      → eval_every cs ctx depth ≡ some b
      → b ≡ meaning_all cs ctx
  every_sound nil ctx depth b h = cc
  every_sound (cons c cs) ctx depth b h =
      ground (
        arith,
        eval_sound c ctx depth true,
        eval_sound c ctx depth false,
        every_sound cs ctx depth b,
      )

  some_sound :
      (cs : Conditions) (ctx : PolicyContext) (depth : ℕ) (b : Bool)
      → eval_some cs ctx depth ≡ some b
      → b ≡ meaning_any cs ctx
  some_sound nil ctx depth b h = cc
  some_sound (cons c cs) ctx depth b h =
      ground (
        arith,
        eval_sound c ctx depth true,
        eval_sound c ctx depth false,
        some_sound cs ctx depth b,
      )

-- A condition whose levels stay within the bound is evaluated to its meaning, with no error.
pub eval_condition_fits :
    (c : Condition) (ctx : PolicyContext)
    → nesting c ≤ max_cond_depth
    → eval_condition c ctx 0 ≡ some (meaning c ctx)
eval_condition_fits c ctx h = eval-fits c ctx 0 (omega arith)

-- Whatever the nesting, an answer is the meaning: the bound turns answers into errors only.
pub eval_condition_sound :
    (c : Condition) (ctx : PolicyContext) (b : Bool)
    → eval_condition c ctx 0 ≡ some b
    → b ≡ meaning c ctx
eval_condition_sound c ctx b h = eval_sound c ctx 0 b h
