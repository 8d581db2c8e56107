-- ===== src/Masking/Wrapping.antt =====
-- ts/src/masking.ts: what is wrapped comes out of the wrapper.
use Prim.Native.Char.{Char, code}
use text.Mathlib.TextLemmas.{cons≢nil, cons-eq-cons}
use hellgraph.Base.{
  ℕ, String, true, false, some, ◌≡◌, ◌≢◌, refl, ap, ◌∙◌, ◌==◌, ==_iff, ==_refl, Bool-cases, inl,
  inr, ◌>>=◌,
}
use hellgraph.Base.Text.{append_text}
use hellgraph.Masking.{
  Cipher, is_line_end, cut_end, unwrap, wrap, is_some, is_masked, mask_value, unmask_value,
}

-- No character ends a line.
abbrev pub IsOneLine : String → Type 0
IsOneLine String.[] = Unit
IsOneLine (String.◌∷◌ c s) = (is_line_end (code c) ≡ false) × IsOneLine s

-- A base64 text is one line, and the cipher undoes itself.
pub record IsFaithful (cipher : Cipher) : Type 0 where
  pub one_line : (n : ℕ) (s : String) → IsOneLine (cipher.encrypt n s)
  pub decrypts : (n : ℕ) (s : String) → cipher.decrypt (cipher.encrypt n s) ≡ some s

longer : (c : Char) (s : String) → String.◌∷◌ c (append_text s "#}") ≢ "#}"
unfolding append_text
longer c String.[] e = cons≢nil (cons-eq-cons.0 (cons-eq-cons.0 e).1).1
longer c (String.◌∷◌ d String.[]) e = cons≢nil (cons-eq-cons.0 (cons-eq-cons.0 e).1).1
longer c (String.◌∷◌ d (String.◌∷◌ x s)) e = cons≢nil (cons-eq-cons.0 (cons-eq-cons.0 e).1).1

not_end : (c : Char) (s : String) → (String.◌∷◌ c (append_text s "#}") == "#}") ≡ false
not_end c s = elim (Bool-cases (String.◌∷◌ c (append_text s "#}") == "#}")) [
  | inl same ↦ absurd (longer c s ((==_iff (String.◌∷◌ c (append_text s "#}")) "#}").0 same))
  | inr other ↦ other
]

cut_end-append_text : (s : String) → IsOneLine s → cut_end (append_text s "#}") ≡ some s
unfolding cut_end append_text
cut_end-append_text String.[] h = rw (==_refl "#}") refl
cut_end-append_text (String.◌∷◌ c s) h = rw (not_end c s, h.0, cut_end-append_text s h.1) refl

unwrap-wrap : (s : String) → IsOneLine s → unwrap (wrap s) ≡ some s
unfolding unwrap wrap
unwrap-wrap s h = cut_end-append_text s h

module _ (cipher : Cipher) (faithful : IsFaithful cipher) where
  pub mask_value-is_masked : (n : ℕ) (s : String) → is_masked (mask_value cipher n s) ≡ true
  unfolding is_masked mask_value
  mask_value-is_masked n s = ap is_some (unwrap-wrap (cipher.encrypt n s) (faithful.one_line n s))

  pub unmask_value-mask_value :
      (n : ℕ) (s : String) → unmask_value cipher (mask_value cipher n s) ≡ some s
  unfolding unmask_value mask_value
  unmask_value-mask_value n s =
      ap (◌>>= cipher.decrypt) (unwrap-wrap (cipher.encrypt n s) (faithful.one_line n s))
      ∙ faithful.decrypts n s
