-- ===== src/Base/Sets.antt =====
-- JavaScript's `Set` of texts: its members in order of insertion, each once.
use hellgraph.Base.{
  String, ◌≡◌, ◌↔◌, ◌⊎◌, Bool, true, List, [], ◌∷◌, arith, ◌==◌, ==_iff, Memᴰ-cons, Memᴰ-nil,
  if◌then◌else◌, any, ◌≢◌,
}
use mathlib.Core.List.{Memᴰ}

-- `set.add(w)`
unfoldable pub add_new : List String → String → List String
add_new [] w = w ∷ []
add_new (x ∷ xs) w = if x == w then x ∷ xs else x ∷ add_new xs w

-- `set.delete(w)`
unfoldable pub remove : List String → String → List String
remove [] w = []
remove (x ∷ xs) w = if x == w then xs else x ∷ remove xs w

-- `set.has(w)`, and `xs.includes(w)` of an array
unfoldable pub has : List String → String → Bool
has xs w = any (λ x. x == w) xs

-- Adds the members of an array in order; `new Set(xs)` starts with the empty set.
unfoldable pub add_all : List String → List String → List String
add_all set [] = set
add_all set (x ∷ xs) = add_all (add_new set x) xs

abbrev pub IsDistinct : List String → Type 0
IsDistinct [] = Unit
IsDistinct (x ∷ xs) = (¬ Memᴰ x xs) × IsDistinct xs

pub mem-add_new : (ws : List String) (v w : String) → Memᴰ w (add_new ws v) ↔ (Memᴰ w ws ⊎ (w ≡ v))
unfolding add_new
mem-add_new [] v w = ground (arith, Memᴰ-cons w v [], Memᴰ-nil w)
mem-add_new (x ∷ ws) v w =
    ground (arith, ==_iff x v, Memᴰ-cons w x ws, Memᴰ-cons w x (add_new ws v), mem-add_new ws v w)

pub mem-add_all :
    (set xs : List String) (w : String) → Memᴰ w (add_all set xs) ↔ (Memᴰ w set ⊎ Memᴰ w xs)
unfolding add_all
mem-add_all set [] w = ground (arith, Memᴰ-nil w)
mem-add_all set (x ∷ xs) w =
    ground (arith, mem-add_all (add_new set x) xs w, mem-add_new set x w, Memᴰ-cons w x xs)

pub has_iff : (xs : List String) (w : String) → (has xs w ≡ true) ↔ Memᴰ w xs
unfolding has
has_iff [] w = ground (arith, Memᴰ-nil w)
has_iff (x ∷ xs) w = ground (arith, has_iff xs w, ==_iff x w, Memᴰ-cons w x xs)

pub add_new-IsDistinct : (ws : List String) (v : String) → IsDistinct ws → IsDistinct (add_new ws v)
unfolding add_new
add_new-IsDistinct [] v d = (Memᴰ-nil v, tt)
add_new-IsDistinct (x ∷ ws) v d =
    ground (arith, ==_iff x v, add_new-IsDistinct ws v, mem-add_new ws v x)

pub mem-remove :
    (ws : List String) (v w : String) → IsDistinct ws → Memᴰ w (remove ws v) ↔ (Memᴰ w ws × (w ≢ v))
unfolding remove
mem-remove [] v w d = ground (arith, Memᴰ-nil w)
mem-remove (x ∷ ws) v w d =
    ground (arith, ==_iff x v, Memᴰ-cons w x ws, Memᴰ-cons w x (remove ws v), mem-remove ws v w)

pub remove-IsDistinct : (ws : List String) (v : String) → IsDistinct ws → IsDistinct (remove ws v)
unfolding remove
remove-IsDistinct [] v d = tt
remove-IsDistinct (x ∷ ws) v d =
    ground (arith, ==_iff x v, remove-IsDistinct ws v, mem-remove ws v x)
