-- ===== src/Codex/Edits.antt =====
-- ts/src/codex.ts: the changes that the syndrome classifies, one letter put in the place of another
-- and two letters exchanged.
use Prim.Native.Char.{Char}
use hellgraph.Base.{
  ℕ, ◌+◌, ◌*◌, ◌%◌, ◌≤◌, String, Bool, false, not, Option, none, ◌∷◌, ◌++◌, ◌≡◌, ◌≢◌, sym, ap, ◌∙◌,
  length, length-append, nat_eq, arith, map,
}
use hellgraph.Base.Text.{append_text}
use hellgraph.Codex.{
  Breaks, changed, substitution, classify, coprime_moduli, breaks_of, manifest, syndrome,
  same_numbers, negative, phi_gematria, phi_sequence, phi_spacing, phi_structure, phi_residue,
  letters_only, sum_values, weigh, val,
}
use hellgraph.Codex.Letters.{
  IsLetter, letters_only-append_text, letters_only-letter, letter-val, val-injective,
  letter-is_space, sum_values-append, weigh-append,
}
use hellgraph.Codex.Shapes.{
  SameShape, SameShape-refl, SameShape-append_text, phi_spacing-SameShape, count_tokens-SameShape,
}
use hellgraph.Codex.Changes.{breaks, same_numbers_refl, syndrome-changed}

-- Sums that differ by 25 at most leave different residues.
residues_differ :
    (g h : ℕ)
    → g ≢ h
    → g ≤ h + 25
    → h ≤ g + 25
    → same_numbers (map (λ (m : ℕ). g % m) coprime_moduli) (map (λ (m : ℕ). h % m) coprime_moduli)
      ≡ false
unfolding same_numbers
residues_differ g h ne a b = ground arith

pub times-cancel : (k a b : ℕ) → (k + 1) * a ≡ (k + 1) * b → a ≡ b
times-cancel k a b e = grind arith

-- The facets of two texts, by their letters.
module _ (digest : String → String) (division : Option ℕ) (u v : String)
    (shape : SameShape u v) where
  abbrev pub found : Breaks
  found = breaks_of (manifest digest u division) (manifest digest v none)

  pub breaks_at :
      (g q r : Bool)
      → nat_eq (phi_gematria u) (phi_gematria v) ≡ g
      → nat_eq (phi_sequence u) (phi_sequence v) ≡ q
      → same_numbers (phi_residue u) (phi_residue v) ≡ r
      → length (letters_only u) ≡ length (letters_only v)
      → found ≡ breaks (not g) (not q) false false (not r)
  unfolding breaks_of manifest phi_structure
  breaks_at g q r eg eq er el = ground (
    arith,
    phi_spacing-SameShape u v shape,
    count_tokens-SameShape u v shape,
    same_numbers_refl (phi_spacing v),
  )

module _ (s t : String) (c : Char) (x : ℕ) (is_letter : IsLetter c x) where
  pub letters_around :
      letters_only (append_text s (String.◌∷◌ c t)) ≡ letters_only s ++ x ∷ letters_only t
  letters_around =
      letters_only-append_text s (String.◌∷◌ c t)
      ∙ ap (letters_only s ++◌) (letters_only-letter c t x is_letter)

  pub gematria_around :
      phi_gematria (append_text s (String.◌∷◌ c t))
      ≡ sum_values (letters_only s) + (val x + sum_values (letters_only t))
  unfolding phi_gematria sum_values
  gematria_around =
      ap sum_values letters_around ∙ sum_values-append (letters_only s) (x ∷ letters_only t)

  sequence_around :
      phi_sequence (append_text s (String.◌∷◌ c t))
      ≡ weigh 0 (letters_only s)
        + ((length (letters_only s) + 1) * val x
            + weigh (length (letters_only s) + 1) (letters_only t))
  unfolding phi_sequence weigh
  sequence_around =
      ap (weigh 0) letters_around
      ∙ weigh-append 0 (letters_only s) (x ∷ letters_only t)
      ∙ ground arith

pub nat_eq-ne : (a b : ℕ) → a ≢ b → nat_eq a b ≡ false
nat_eq-ne a b ne = ground arith

pub letter-shape :
    (c d : Char) (s t : String) {x y : ℕ}
    → IsLetter c x
    → IsLetter d y
    → SameShape s t
    → SameShape (String.◌∷◌ c s) (String.◌∷◌ d t)
letter-shape c d s t {x} {y} hc hd h = (letter-is_space c x hc ∙ sym (letter-is_space d y hd), h)

-- One letter for another.
module _ (s t : String) (c d : Char) (x y : ℕ) (hc : IsLetter c x) (hd : IsLetter d y)
    (ne : x ≢ y) where
  values_differ : val x ≢ val y
  values_differ e = ne (val-injective _ _ x y hc hd e)

  abbrev before : String
  before = append_text s (String.◌∷◌ c t)

  abbrev after : String
  after = append_text s (String.◌∷◌ d t)

  gematria_differs :
      (phi_gematria before ≢ phi_gematria after)
      × (phi_gematria before ≤ phi_gematria after + 25)
      × (phi_gematria after ≤ phi_gematria before + 25)
  gematria_differs =
      let b = gematria_around s t c x hc in
      let a = gematria_around s t d y hd in
      let lc = letter-val _ x hc in
      let ld = letter-val _ y hd in
      (λ e. values_differ (omega (arith, a, b)), omega (arith, a, b), omega (arith, a, b))

  sequence_differs : phi_sequence before ≢ phi_sequence after
  sequence_differs e =
      let b = sequence_around s t c x hc in
      let a = sequence_around s t d y hd in
      values_differ (times-cancel (length (letters_only s)) (val x) (val y) (omega (arith, a, b)))

  same_length : length (letters_only before) ≡ length (letters_only after)
  same_length =
      ap length (letters_around s t c x hc)
      ∙ length-append (letters_only s) (x ∷ letters_only t)
      ∙ sym (length-append (letters_only s) (y ∷ letters_only t))
      ∙ sym (ap length (letters_around s t d y hd))

  same_shape : SameShape before after
  same_shape =
      SameShape-append_text s (String.◌∷◌ c t) (String.◌∷◌ d t)
        (letter-shape c d t t hc hd (SameShape-refl t))

module _ (digest : String → String) (s t : String) (division : Option ℕ) where
  -- A letter of a sealed text replaced by another letter, apart from case, is always detected and
  -- classified as a substitution, with the negative verdict, whatever the digest says.
  pub syndrome-substitution :
      (c d : Char) (x y : ℕ)
      → IsLetter c x
      → IsLetter d y
      → x ≢ y
      → let sealed = manifest digest (append_text s (String.◌∷◌ c t)) division in
        let found = syndrome digest sealed (append_text s (String.◌∷◌ d t)) in
        (found.class ≡ changed substitution) × (found.verdict ≡ negative)
  unfolding classify phi_residue
  syndrome-substitution c d x y hc hd ne =
      let u = append_text s (String.◌∷◌ c t) in
      let v = append_text s (String.◌∷◌ d t) in
      let (g, low, high) = gematria_differs s t c d x y hc hd ne in
      syndrome-changed digest (manifest digest u division) v substitution (
        ap classify (
          breaks_at digest division u v (same_shape s t c d x y hc hd ne) false false false
            (nat_eq-ne _ _ g) (nat_eq-ne _ _ (sequence_differs s t c d x y hc hd ne))
            (residues_differ _ _ g low high) (same_length s t c d x y hc hd ne)))
