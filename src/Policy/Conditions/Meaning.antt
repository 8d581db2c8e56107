-- ===== src/Policy/Conditions/Meaning.antt =====
-- What a condition of ts/src/policy.ts says of a context, apart from how it is evaluated.
use hellgraph.Base.{String, ◌≡◌, ◌↔◌, ◌⊎◌, Bool, true, false, some, arith, ==_iff}
use hellgraph.Policy.Context.{
  Value, undefined, null, bool, num, str, arr, obj, Items, item, PolicyContext, get_path,
  truthy_value, strict_eq, includes,
}
use hellgraph.Policy.Conditions.{
  Op, op_eq, op_ne, op_truthy, op_falsy, op_in, Condition, attr, all, any_of, not_of, Conditions,
  cons, test_attr, in_list, eval_condition, meaning, meaning_all, meaning_any, eval_condition_sound,
}

-- A value that `===` compares by what it is, and not by where it is kept.
abbrev pub IsPrimitive : Value → Type 0
IsPrimitive (arr xs) = ⊥
IsPrimitive (obj fs) = ⊥
IsPrimitive _ = Unit

abbrev pub Equals : Value → Value → Type 0
Equals v w = (v ≡ w) × IsPrimitive v

-- The falsy values, one by one.
abbrev pub IsFalsy : Value → Type 0
IsFalsy v = (v ≡ undefined) ⊎ ((v ≡ null) ⊎ ((v ≡ bool false) ⊎ ((v ≡ num 0) ⊎ (v ≡ str ""))))

abbrev pub Among : Items → Value → Type 0
Among Items.nil v = ⊥
Among (item x xs) v = Equals x v ⊎ Among xs v

-- The value of the condition is an array with the value that was read.
abbrev pub Lists : Value → Value → Type 0
Lists (arr xs) v = Among xs v
Lists _ v = ⊥

-- What an operator says of the value that was read and the value of the condition.
abbrev pub Says : Op → Value → Value → Type 0
Says op_eq v value = Equals v value
Says op_ne v value = ¬ Equals v value
Says op_truthy v value = ¬ IsFalsy v
Says op_falsy v value = IsFalsy v
Says op_in v value = Lists value v

-- All, any and not, over what the operators say.
abbrev mutual
  pub Holds : Condition → PolicyContext → Type 0
  Holds (attr path op value) ctx = Says op (get_path ctx path) value
  Holds (all cs) ctx = HoldsAll cs ctx
  Holds (any_of cs) ctx = HoldsAny cs ctx
  Holds (not_of c) ctx = ¬ Holds c ctx

  pub HoldsAll : Conditions → PolicyContext → Type 0
  HoldsAll Conditions.nil ctx = Unit
  HoldsAll (cons c cs) ctx = Holds c ctx × HoldsAll cs ctx

  pub HoldsAny : Conditions → PolicyContext → Type 0
  HoldsAny Conditions.nil ctx = ⊥
  HoldsAny (cons c cs) ctx = Holds c ctx ⊎ HoldsAny cs ctx

strict_eq-str : (a : String) (w : Value) → (strict_eq (str a) w ≡ true) ↔ Equals (str a) w
strict_eq-str a (str b) = ground (arith, ==_iff a b)
strict_eq-str a undefined = ground arith
strict_eq-str a null = ground arith
strict_eq-str a (bool b) = ground arith
strict_eq-str a (num n) = ground arith
strict_eq-str a (arr xs) = ground arith
strict_eq-str a (obj fs) = ground arith

strict_eq-Equals : (v w : Value) → (strict_eq v w ≡ true) ↔ Equals v w
strict_eq-Equals undefined w = ground arith
strict_eq-Equals null w = ground arith
strict_eq-Equals (bool a) w = ground arith
strict_eq-Equals (num a) w = ground arith
strict_eq-Equals (str a) w = strict_eq-str a w
strict_eq-Equals (arr xs) w = ground arith
strict_eq-Equals (obj fs) w = ground arith

truthy_value-IsFalsy : (v : Value) → (truthy_value v ≡ true) ↔ (¬ IsFalsy v)
truthy_value-IsFalsy undefined = ground arith
truthy_value-IsFalsy null = ground arith
truthy_value-IsFalsy (bool a) = ground arith
truthy_value-IsFalsy (num a) = ground arith
truthy_value-IsFalsy (str a) = ground (arith, ==_iff a "")
truthy_value-IsFalsy (arr xs) = ground arith
truthy_value-IsFalsy (obj fs) = ground arith

falsy : (v : Value) → (truthy_value v ≡ false) ↔ IsFalsy v
falsy undefined = ground arith
falsy null = ground arith
falsy (bool a) = ground arith
falsy (num a) = ground arith
falsy (str a) = ground (arith, ==_iff a "")
falsy (arr xs) = ground arith
falsy (obj fs) = ground arith

includes-Among : (xs : Items) (v : Value) → (includes xs v ≡ true) ↔ Among xs v
unfolding includes
includes-Among Items.nil v = ground arith
includes-Among (item x xs) v = ground (arith, includes-Among xs v, strict_eq-Equals x v)

in_list-Lists : (value v : Value) → (in_list value v ≡ true) ↔ Lists value v
in_list-Lists (arr xs) v = includes-Among xs v
in_list-Lists undefined v = ground arith
in_list-Lists null v = ground arith
in_list-Lists (bool b) v = ground arith
in_list-Lists (num n) v = ground arith
in_list-Lists (str s) v = ground arith
in_list-Lists (obj fs) v = ground arith

test_attr-Says : (op : Op) (v value : Value) → (test_attr op v value ≡ true) ↔ Says op v value
unfolding test_attr
test_attr-Says op_eq v value = strict_eq-Equals v value
test_attr-Says op_ne v value = ground (arith, strict_eq-Equals v value)
test_attr-Says op_truthy v value = truthy_value-IsFalsy v
test_attr-Says op_falsy v value = ground (arith, falsy v)
test_attr-Says op_in v value = in_list-Lists value v

mutual
  meaning-Holds : (c : Condition) (ctx : PolicyContext) → (meaning c ctx ≡ true) ↔ Holds c ctx
  meaning-Holds (attr path op value) ctx = test_attr-Says op (get_path ctx path) value
  meaning-Holds (all cs) ctx = meaning_all-HoldsAll cs ctx
  meaning-Holds (any_of cs) ctx = meaning_any-HoldsAny cs ctx
  meaning-Holds (not_of c) ctx = ground (arith, meaning-Holds c ctx)

  meaning_all-HoldsAll :
      (cs : Conditions) (ctx : PolicyContext) → (meaning_all cs ctx ≡ true) ↔ HoldsAll cs ctx
  meaning_all-HoldsAll Conditions.nil ctx = ground arith
  meaning_all-HoldsAll (cons c cs) ctx =
      ground (arith, meaning-Holds c ctx, meaning_all-HoldsAll cs ctx)

  meaning_any-HoldsAny :
      (cs : Conditions) (ctx : PolicyContext) → (meaning_any cs ctx ≡ true) ↔ HoldsAny cs ctx
  meaning_any-HoldsAny Conditions.nil ctx = ground arith
  meaning_any-HoldsAny (cons c cs) ctx =
      ground (arith, meaning-Holds c ctx, meaning_any-HoldsAny cs ctx)

-- Whenever a condition is evaluated to an answer, the answer is true exactly when the condition
-- holds of the context: an equality when the value read is that value and primitive, a falsy test
-- when it is undefined, null, false, 0 or the empty text, a membership when it equals an item of an
-- array, and all, any and not by what they say of their conditions.
pub eval_condition_iff :
    (c : Condition) (ctx : PolicyContext) (b : Bool)
    → eval_condition c ctx 0 ≡ some b
    → (b ≡ true) ↔ Holds c ctx
eval_condition_iff c ctx b h = ground (arith, eval_condition_sound c ctx b h, meaning-Holds c ctx)
