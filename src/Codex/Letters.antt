-- ===== src/Codex/Letters.antt =====
-- What the facets of ts/src/codex.ts are on a text that is put together around a letter.
use Prim.Native.Char.{Char, code}
use hellgraph.Base.{
  ℕ, ◌+◌, ◌≤◌, String, false, Option, none, some, List, [], ◌∷◌, ◌++◌, ◌≡◌, refl, ap, ◌∙◌, length,
  arith,
}
use hellgraph.Base.Text.{append_text}
use hellgraph.Metta.{is_space}
use hellgraph.Codex.{letter, add_letter, letters_only, val, sum_values, weigh}

-- The character is a letter, and `n` the code of its small form.
abbrev pub IsLetter : Char → ℕ → Type 0
IsLetter c n = letter (code c) ≡ some n

add_letter-append :
    (o : Option ℕ) (xs ys : List ℕ) → add_letter o (xs ++ ys) ≡ add_letter o xs ++ ys
add_letter-append none xs ys = refl
add_letter-append (some n) xs ys = refl

pub letters_only-append_text :
    (s t : String) → letters_only (append_text s t) ≡ letters_only s ++ letters_only t
unfolding letters_only append_text
letters_only-append_text String.[] t = refl
letters_only-append_text (String.◌∷◌ c s) t =
    ap (add_letter (letter (code c))) (letters_only-append_text s t)
    ∙ add_letter-append (letter (code c)) (letters_only s) (letters_only t)

pub letters_only-letter :
    (c : Char) (t : String) (n : ℕ)
    → IsLetter c n
    → letters_only (String.◌∷◌ c t) ≡ n ∷ letters_only t
unfolding letters_only
letters_only-letter c t n h = ap (λ (o : Option ℕ). add_letter o (letters_only t)) h

-- A letter has a value from 1 to 26, which tells it from the others.
pub letter-val : (m n : ℕ) → letter m ≡ some n → (1 ≤ val n) × (val n ≤ 26)
unfolding letter val
letter-val m n h = ground arith

pub val-injective : (m n x y : ℕ) → letter m ≡ some x → letter n ≡ some y → val x ≡ val y → x ≡ y
unfolding letter val
val-injective m n x y h k e = ground arith

-- A letter is no white space.
pub letter-is_space : (c : Char) (n : ℕ) → IsLetter c n → is_space c ≡ false
unfolding letter is_space
letter-is_space c n h = ground arith

pub sum_values-append : (xs ys : List ℕ) → sum_values (xs ++ ys) ≡ sum_values xs + sum_values ys
unfolding sum_values
sum_values-append [] ys = omega arith
sum_values-append (x ∷ xs) ys = omega (arith, sum_values-append xs ys)

pub weigh-append :
    (i : ℕ) (xs ys : List ℕ) → weigh i (xs ++ ys) ≡ weigh i xs + weigh (i + length xs) ys
unfolding weigh
weigh-append i [] ys = ground arith
weigh-append i (x ∷ xs) ys = ground (
  arith,
  weigh-append (i + 1) xs ys,
  ap (λ (k : ℕ). weigh k ys) (let e : i + (1 + length xs) ≡ i + 1 + length xs = omega arith in e),
)
