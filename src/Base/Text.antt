-- ===== src/Base/Text.antt =====
-- Texts as JavaScript writes them: numbers in decimal, and what tells two texts apart.
use Prim.Native.Char.{Char, code}
use Prim.Native.String.{String, [], ◌∷◌}
use text.Mathlib.TextLemmas.{cons≢nil, cons-eq-cons}
use mathlib.Core.Path.{ap₂}
use hellgraph.Base.{
  ℕ, zero, suc, ◌+◌, ◌-◌, ◌*◌, ◌/◌, ◌%◌, ◌<◌, ◌≡◌, refl, sym, ap, ◌∙◌, arith, ltb, ltb→lt,
  Bool-cases, ◌≢◌, inl, inr, if◌then◌else◌,
}

abbrev digit : ℕ → Char
digit zero = "0"
digit (suc zero) = "1"
digit (suc (suc zero)) = "2"
digit (suc (suc (suc zero))) = "3"
digit (suc (suc (suc (suc zero)))) = "4"
digit (suc (suc (suc (suc (suc zero))))) = "5"
digit (suc (suc (suc (suc (suc (suc zero)))))) = "6"
digit (suc (suc (suc (suc (suc (suc (suc zero))))))) = "7"
digit (suc (suc (suc (suc (suc (suc (suc (suc zero)))))))) = "8"
digit _ = "9"

-- The digits of `n` in front of `rest`, on fuel over `n`.
decimal_to : ℕ → ℕ → String → String
decimal_to zero n rest = rest
decimal_to (suc f) n rest =
    let more = decimal_to f (n / 10) (digit (n % 10) ∷ rest) in
    if ltb n 10 then digit n ∷ rest else more

-- `${n}` of a whole number
unfoldable pub decimal : ℕ → String
unfolding decimal_to
decimal n = decimal_to (n + 1) n []

code-digit : (n : ℕ) → n < 10 → code (digit n) ≡ 48 + n
code-digit zero h = refl
code-digit (suc zero) h = refl
code-digit (suc (suc zero)) h = refl
code-digit (suc (suc (suc zero))) h = refl
code-digit (suc (suc (suc (suc zero)))) h = refl
code-digit (suc (suc (suc (suc (suc zero))))) h = refl
code-digit (suc (suc (suc (suc (suc (suc zero)))))) h = refl
code-digit (suc (suc (suc (suc (suc (suc (suc zero))))))) h = refl
code-digit (suc (suc (suc (suc (suc (suc (suc (suc zero)))))))) h = refl
code-digit (suc (suc (suc (suc (suc (suc (suc (suc (suc zero))))))))) h = refl
code-digit (suc (suc (suc (suc (suc (suc (suc (suc (suc (suc n)))))))))) h = absurd (omega arith)

-- The number that digits after `a` stand for.
unfoldable pub value : ℕ → String → ℕ
value a [] = a
value a (c ∷ s) = value (a * 10 + (code c - 48)) s

value-decimal_to : (f n : ℕ) (rest : String) → n < f → value 0 (decimal_to f n rest) ≡ value n rest
unfolding value decimal_to
value-decimal_to zero n rest h = absurd (omega arith)
value-decimal_to (suc f) n rest h = elim (Bool-cases (ltb n 10)) [
  | inl small ↦
      rw (small) (ap (λ (k : ℕ). value k rest) (omega (arith, code-digit n (ltb→lt n 10 small))))
  | inr big ↦ rw (big) (
      value-decimal_to f (n / 10) (digit (n % 10) ∷ rest) (ground arith)
      ∙ ap (λ (k : ℕ). value k rest) (omega (arith, code-digit (n % 10) (omega arith))))
]

-- A number is read off its text.
pub decimal-injective : (m n : ℕ) → decimal m ≡ decimal n → m ≡ n
unfolding decimal value
decimal-injective m n e =
    sym (value-decimal_to (m + 1) m [] (omega arith))
    ∙ ap (value 0) e
    ∙ value-decimal_to (n + 1) n [] (omega arith)

-- No character of the text is `:`.
abbrev HasNoColon : String → Type 0
HasNoColon [] = Unit
HasNoColon (c ∷ s) = (code c ≢ 58) × HasNoColon s

decimal_to-HasNoColon :
    (f n : ℕ) (rest : String) → HasNoColon rest → HasNoColon (decimal_to f n rest)
unfolding decimal_to
decimal_to-HasNoColon zero n rest h = h
decimal_to-HasNoColon (suc f) n rest h = elim (Bool-cases (ltb n 10)) [
  | inl small ↦ rw small (omega (arith, code-digit n (ltb→lt n 10 small), ltb→lt n 10 small), h)
  | inr big ↦ rw big (
      decimal_to-HasNoColon f (n / 10) (digit (n % 10) ∷ rest)
        (omega (arith, code-digit (n % 10) (omega arith)), h))
]

-- `${s}:${d}`
unfoldable pub with_colon : String → String → String
with_colon [] d = ":" ∷ d
with_colon (c ∷ s) d = c ∷ with_colon s d

without_colon : (s d e : String) → HasNoColon d → d ≢ with_colon s e
unfolding with_colon
without_colon [] [] e h p = cons≢nil (sym p)
without_colon [] (c ∷ d) e h p = h.0 (ap code (cons-eq-cons.0 p).0)
without_colon (x ∷ s) [] e h p = cons≢nil (sym p)
without_colon (x ∷ s) (c ∷ d) e h p = without_colon s d e h.1 (cons-eq-cons.0 p).1

-- The last `:` of a text splits it in one way.
with_colon-split :
    (s t d e : String)
    → HasNoColon d
    → HasNoColon e
    → with_colon s d ≡ with_colon t e
    → (s ≡ t) × (d ≡ e)
unfolding with_colon
with_colon-split [] [] d e hd he p = (refl, (cons-eq-cons.0 p).1)
with_colon-split [] (y ∷ t) d e hd he p = absurd (without_colon t d e hd (cons-eq-cons.0 p).1)
with_colon-split (x ∷ s) [] d e hd he p = absurd (without_colon s e d he (sym (cons-eq-cons.0 p).1))
with_colon-split (x ∷ s) (y ∷ t) d e hd he p =
    let (same, rest) = cons-eq-cons.0 p in
    let (s-eq-t, d-eq-e) = with_colon-split s t d e hd he rest in (ap₂ (◌∷◌) same s-eq-t, d-eq-e)

-- `${s}:${m}` determines the text and the number.
pub with_colon-decimal :
    (s t : String) (m n : ℕ)
    → with_colon s (decimal m) ≡ with_colon t (decimal n)
    → (s ≡ t) × (m ≡ n)
unfolding decimal
with_colon-decimal s t m n p =
    let no_colon = λ (k : ℕ). decimal_to-HasNoColon (k + 1) k [] tt in
    let (s-eq-t, d-eq-e) =
      with_colon-split s t (decimal m) (decimal n) (no_colon m) (no_colon n) p in
    (s-eq-t, decimal-injective m n d-eq-e)

-- `s + t`
unfoldable pub append_text : String → String → String
append_text [] t = t
append_text (c ∷ s) t = c ∷ append_text s t

pub append_text-nil : (s : String) → append_text s [] ≡ s
unfolding append_text
append_text-nil [] = refl
append_text-nil (c ∷ s) = ap (c ∷◌) (append_text-nil s)

pub append_text_assoc :
    (s t u : String) → append_text (append_text s t) u ≡ append_text s (append_text t u)
unfolding append_text
append_text_assoc [] t u = refl
append_text_assoc (c ∷ s) t u = ap (c ∷◌) (append_text_assoc s t u)

pub append_text-injective : (p s t : String) → append_text p s ≡ append_text p t → s ≡ t
unfolding append_text
append_text-injective [] s t e = e
append_text-injective (c ∷ p) s t e = append_text-injective p s t (cons-eq-cons.0 e).1
