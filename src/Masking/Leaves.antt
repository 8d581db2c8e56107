-- ===== src/Masking/Leaves.antt =====
-- The texts of a payload by their keys, and what a write at one of them leaves (ts/src/masking.ts).
use mathlib.Core.Option.{some-injective}
use hellgraph.Base.{
  ℕ, ◌+◌, String, Bool, true, false, ◌&&◌, Option, none, some, List, [], ◌∷◌, ◌≡◌, ◌≢◌, refl, sym,
  ap, ◌∙◌, subst, ◌==◌, ==_iff, arith, Bool-cases, inl, inr, if◌then◌else◌, ◌>>=◌,
}
use hellgraph.Base.Text.{decimal}
use hellgraph.Policy.Context.{
  Value, undefined, str, arr, obj, Items, nil, item, Fields, end, field, member, at_index,
  or_undefined,
}
use hellgraph.Masking.{read_member, read_keys, put_field, put_item, put_member, or_object, set_keys}

-- The text at the keys, through objects and arrays.
unfoldable pub leaf_at : Value → List String → Option String
leaf_at (str s) [] = some s
leaf_at (obj fs) (k ∷ ks) = leaf_at (member fs k) ks
leaf_at (arr xs) (k ∷ ks) = leaf_at (read_member (arr xs) k) ks
leaf_at _ _ = none

-- Another text in its place.
unfoldable pub put_leaf : Value → List String → String → Value
put_leaf v [] new = str new
put_leaf (obj fs) (k ∷ ks) new = obj (put_field fs k (put_leaf (member fs k) ks new))
put_leaf (arr xs) (k ∷ ks) new = arr (put_item 0 xs k (put_leaf (read_member (arr xs) k) ks new))
put_leaf v (k ∷ ks) new = v

unfoldable pub same_keys : List String → List String → Bool
same_keys [] [] = true
same_keys (k ∷ ks) (j ∷ js) = k == j && same_keys ks js
same_keys _ _ = false

-- The keys take no member of a text.
abbrev pub Proper : Value → List String → Type 0
Proper v [] = Unit
Proper (str s) (k ∷ ks) = ⊥
Proper v (k ∷ ks) = Proper (read_member v k) ks

member-put_field :
    (fs : Fields) (k : String) (v : Value) (j : String)
    → member (put_field fs k v) j ≡ (if k == j then v else member fs j)
unfolding put_field
member-put_field end k v j = refl
member-put_field (field i w fs) k v j =
    ground (arith, ==_iff i k, ==_iff i j, ==_iff k j, member-put_field fs k v j)

abbrev put_some : Option Value → Value → Option Value
put_some none v = none
put_some (some _) v = some v

at_index-put_item :
    (n : ℕ) (xs : Items) (k : String) (v : Value) (j : String)
    → at_index n (put_item n xs k v) j
      ≡ (if k == j then put_some (at_index n xs k) v else at_index n xs j)
unfolding at_index put_item
at_index-put_item n nil k v j = ground arith
at_index-put_item n (item x xs) k v j = ground (
  arith,
  ==_iff (decimal n) k,
  ==_iff (decimal n) j,
  ==_iff k j,
  at_index-put_item (n + 1) xs k v j,
)

-- The value under a key where `new` was put, by what is under the key.
keyed :
    (x y w : Value) (k j : String) (same : Bool) (q : List String) (new : String)
    → (k ≡ j → x ≡ y)
    → leaf_at w q ≡ (if same then some new else leaf_at x q)
    → leaf_at (if k == j then w else y) q ≡ (if k == j && same then some new else leaf_at y q)
keyed x y w k j same q new at_key ih = elim (Bool-cases (k == j)) [
  | inl e ↦
      rw e (
        ih ∙ ap (λ (v : Value). if same then some new else leaf_at v q) (at_key ((==_iff k j).0 e)))
  | inr e ↦ rw e refl
]

read-put_item :
    (xs : Items) (k j : String) (w : Value) {x : Value}
    → at_index 0 xs k ≡ some x
    → or_undefined (at_index 0 (put_item 0 xs k w) j)
      ≡ (if k == j then w else or_undefined (at_index 0 xs j))
read-put_item xs k j w h =
    ap or_undefined (at_index-put_item 0 xs k w j)
    ∙ elim (Bool-cases (k == j)) [ inl e ↦ rw (e, h) refl | inr e ↦ rw e refl ]

leaf-undefined : (ks : List String) (s : String) → leaf_at undefined ks ≢ some s
unfolding leaf_at
leaf-undefined [] s h = cc
leaf-undefined (k ∷ ks) s h = cc

-- Where a text is found in an array, the key is an index of it.
item_there :
    (o : Option Value) (ks : List String) (s : String)
    → leaf_at (or_undefined o) ks ≡ some s
    → (x : Value) × (o ≡ some x)
item_there none ks s h = absurd (leaf-undefined ks s h)
item_there (some x) ks s h = (x, refl)

pub leaf_at-put_leaf :
    (v : Value) (p : List String) (s new : String) (q : List String)
    → leaf_at v p ≡ some s
    → leaf_at (put_leaf v p new) q ≡ (if same_keys p q then some new else leaf_at v q)
unfolding leaf_at put_leaf same_keys
leaf_at-put_leaf (str t) [] s new [] h = refl
leaf_at-put_leaf (str t) [] s new (j ∷ q) h = refl
leaf_at-put_leaf (obj fs) (k ∷ p) s new [] h = refl
leaf_at-put_leaf (obj fs) (k ∷ p) s new (j ∷ q) h =
    ap (λ (v : Value). leaf_at v q) (member-put_field fs k (put_leaf (member fs k) p new) j)
    ∙ keyed (member fs k) (member fs j) (put_leaf (member fs k) p new) k j (same_keys p q) q new
        (ap (member fs)) (leaf_at-put_leaf (member fs k) p s new q h)
leaf_at-put_leaf (arr xs) (k ∷ p) s new [] h = refl
leaf_at-put_leaf (arr xs) (k ∷ p) s new (j ∷ q) h =
    let x = read_member (arr xs) k in
    let (y, there) = item_there (at_index 0 xs k) p s h in
    ap (λ (v : Value). leaf_at v q) (read-put_item xs k j (put_leaf x p new) there)
    ∙ keyed x (read_member (arr xs) j) (put_leaf x p new) k j (same_keys p q) q new
        (ap (read_member (arr xs))) (leaf_at-put_leaf x p s new q h)
leaf_at-put_leaf v [] s new q h = cc
leaf_at-put_leaf v (k ∷ p) s new q h = cc

or_object-leaf :
    (x : Value) (j : String) (p : List String) (s : String)
    → leaf_at x (j ∷ p) ≡ some s
    → or_object x ≡ x
unfolding leaf_at
or_object-leaf (obj fs) j p s h = refl
or_object-leaf (arr xs) j p s h = refl
or_object-leaf x j p s h = cc

deeper :
    (v : Value) (k j : String) (p : List String) (s new : String)
    → leaf_at (read_member v k) (j ∷ p) ≡ some s
    → set_keys (read_member v k) (j ∷ p) (str new) ≡ some (put_leaf (read_member v k) (j ∷ p) new)
    → set_keys v (k ∷ j ∷ p) (str new) ≡ put_member v k (put_leaf (read_member v k) (j ∷ p) new)
unfolding set_keys
deeper v k j p s new h ih =
    ap (λ (x : Value). set_keys x (j ∷ p) (str new) >>= put_member v k)
      (or_object-leaf (read_member v k) j p s h)
    ∙ ap (◌>>= put_member v k) ih

-- The write of the source is that write.
pub set_keys-put_leaf :
    (v : Value) (k : String) (p : List String) (s new : String)
    → leaf_at v (k ∷ p) ≡ some s
    → set_keys v (k ∷ p) (str new) ≡ some (put_leaf v (k ∷ p) new)
unfolding leaf_at put_leaf set_keys
set_keys-put_leaf (obj fs) k [] s new h = refl
set_keys-put_leaf (obj fs) k (j ∷ p) s new h =
    deeper (obj fs) k j p s new h (set_keys-put_leaf (member fs k) j p s new h)
set_keys-put_leaf (arr xs) k [] s new h = refl
set_keys-put_leaf (arr xs) k (j ∷ p) s new h =
    deeper (arr xs) k j p s new h (set_keys-put_leaf (read_member (arr xs) k) j p s new h)
set_keys-put_leaf v k p s new h = cc

-- A text is read by the source where it is found, and nowhere else if the keys are proper.
pub read_keys-leaf_at :
    (v : Value) (p : List String) (s : String) → leaf_at v p ≡ some s → read_keys v p ≡ str s
unfolding leaf_at read_keys
read_keys-leaf_at (str t) [] s h = ap str (some-injective t s h)
read_keys-leaf_at (obj fs) (k ∷ p) s h = read_keys-leaf_at (member fs k) p s h
read_keys-leaf_at (arr xs) (k ∷ p) s h = read_keys-leaf_at (read_member (arr xs) k) p s h
read_keys-leaf_at v [] s h = cc
read_keys-leaf_at v (k ∷ p) s h = cc

read_keys-undefined : (p : List String) (s : String) → read_keys undefined p ≢ str s
unfolding read_keys
read_keys-undefined [] s h = cc
read_keys-undefined (k ∷ p) s h = read_keys-undefined p s h

pub leaf_at-read_keys :
    (v : Value) (p : List String) (s : String)
    → Proper v p
    → read_keys v p ≡ str s
    → leaf_at v p ≡ some s
unfolding leaf_at read_keys
leaf_at-read_keys v [] s proper h = ap (λ (x : Value). leaf_at x []) h
leaf_at-read_keys (str t) (k ∷ p) s proper h = absurd proper
leaf_at-read_keys (obj fs) (k ∷ p) s proper h = leaf_at-read_keys (member fs k) p s proper h
leaf_at-read_keys (arr xs) (k ∷ p) s proper h =
    leaf_at-read_keys (read_member (arr xs) k) p s proper h
leaf_at-read_keys v (k ∷ p) s proper h = absurd (read_keys-undefined p s h)

Proper-keyed :
    (x y w : Value) (k j : String) (q : List String)
    → (k ≡ j → x ≡ y)
    → Proper y q
    → (Proper x q → Proper w q)
    → Proper (if k == j then w else y) q
Proper-keyed x y w k j q at_key proper ih = elim (Bool-cases (k == j)) [
  | inl e ↦ rw e (ih (subst (λ (v : Value). Proper v q) (sym (at_key ((==_iff k j).0 e))) proper))
  | inr e ↦ rw e proper
]

pub Proper-put_leaf :
    (v : Value) (p : List String) (s new : String) (q : List String)
    → leaf_at v p ≡ some s
    → Proper v q
    → Proper (put_leaf v p new) q
unfolding leaf_at put_leaf
Proper-put_leaf v p s new [] h proper = tt
Proper-put_leaf (str t) p s new (j ∷ q) h proper = absurd proper
Proper-put_leaf (obj fs) (k ∷ p) s new (j ∷ q) h proper =
    subst (λ (v : Value). Proper v q) (sym (member-put_field fs k (put_leaf (member fs k) p new) j))
      (Proper-keyed (member fs k) (member fs j) (put_leaf (member fs k) p new) k j q
        (ap (member fs)) proper (λ there. Proper-put_leaf (member fs k) p s new q h there))
Proper-put_leaf (arr xs) (k ∷ p) s new (j ∷ q) h proper =
    let x = read_member (arr xs) k in
    let (y, there) = item_there (at_index 0 xs k) p s h in
    subst (λ (v : Value). Proper v q) (sym (read-put_item xs k j (put_leaf x p new) there))
      (Proper-keyed x (read_member (arr xs) j) (put_leaf x p new) k j q (ap (read_member (arr xs)))
        proper (λ at_key. Proper-put_leaf x p s new q h at_key))
Proper-put_leaf v [] s new q h proper = cc
Proper-put_leaf v (k ∷ p) s new (j ∷ q) h proper = cc
