-- ===== src/Codex/Exchanges.antt =====
-- ts/src/codex.ts: two letters of a text exchanged.
use Prim.Native.Char.{Char}
use hellgraph.Base.{
  ℕ, ◌+◌, ◌*◌, String, true, false, Option, List, ◌∷◌, ◌++◌, ◌≡◌, ◌≢◌, ap, ◌∙◌, length,
  length-append, arith,
}
use hellgraph.Base.Text.{append_text}
use hellgraph.Codex.{
  changed, transposition, classify, manifest, syndrome, negative, phi_gematria, phi_sequence,
  phi_residue, letters_only, sum_values, weigh, val,
}
use hellgraph.Codex.Letters.{IsLetter, val-injective, weigh-append}
use hellgraph.Codex.Shapes.{SameShape, SameShape-refl, SameShape-append_text}
use hellgraph.Codex.Changes.{same_numbers_refl, syndrome-changed}
use hellgraph.Codex.Edits.{
  breaks_at, letters_around, gematria_around, nat_eq-ne, letter-shape, times-cancel,
}

weights_differ :
    (k n a b : ℕ) → (k + 1) * a + (k + 1 + n + 1) * b ≡ (k + 1) * b + (k + 1 + n + 1) * a → a ≡ b
weights_differ k n a b e = times-cancel n a b (grind arith)

module _ (s m t : String) where
  abbrev exchange : Char → Char → String
  exchange a b = append_text s (String.◌∷◌ a (append_text m (String.◌∷◌ b t)))

  abbrev first_place : ℕ
  first_place = length (letters_only s)

  abbrev gap : ℕ
  gap = length (letters_only m)

  abbrev fixed : ℕ
  fixed =
      weigh 0 (letters_only s)
      + weigh (first_place + 1) (letters_only m)
      + weigh (first_place + 1 + gap + 1) (letters_only t)

  module _ (a b : Char) (x y : ℕ) (ha : IsLetter a x) (hb : IsLetter b y) where
    letters_of :
        letters_only (exchange a b) ≡ letters_only s ++ x ∷ (letters_only m ++ y ∷ letters_only t)
    letters_of =
        letters_around s (append_text m (String.◌∷◌ b t)) a x ha
        ∙ ap (λ (l : List ℕ). letters_only s ++ x ∷ l) (letters_around m t b y hb)

    gematria_of_both :
        phi_gematria (exchange a b)
        ≡ sum_values (letters_only s)
          + sum_values (letters_only m)
          + sum_values (letters_only t)
          + (val x + val y)
    unfolding phi_gematria
    gematria_of_both = omega (
      arith,
      gematria_around s (append_text m (String.◌∷◌ b t)) a x ha,
      gematria_around m t b y hb,
    )

    sequence_of_both :
        phi_sequence (exchange a b)
        ≡ fixed + ((first_place + 1) * val x + (first_place + 1 + gap + 1) * val y)
    unfolding phi_sequence weigh
    sequence_of_both =
        ap (weigh 0) letters_of
        ∙ weigh-append 0 (letters_only s) (x ∷ (letters_only m ++ y ∷ letters_only t))
        ∙ ground (arith, weigh-append (first_place + 1) (letters_only m) (y ∷ letters_only t))

    length_of_both :
        length (letters_only (exchange a b)) ≡ first_place + gap + length (letters_only t) + 2
    length_of_both =
        ap length letters_of
        ∙ omega (
          arith,
          length-append (letters_only s) (x ∷ (letters_only m ++ y ∷ letters_only t)),
          length-append (letters_only m) (y ∷ letters_only t),
        )

  module _ (digest : String → String) (division : Option ℕ) where
    -- Two letters of a sealed text exchanged, wherever they stand, are always detected and
    -- classified as a transposition when the letters differ apart from case.
    pub syndrome-transposition :
        (c d : Char) (x y : ℕ)
        → IsLetter c x
        → IsLetter d y
        → x ≢ y
        → let found = syndrome digest (manifest digest (exchange c d) division) (exchange d c) in
          (found.class ≡ changed transposition) × (found.verdict ≡ negative)
    unfolding classify phi_residue
    syndrome-transposition c d x y hc hd ne =
        let same : phi_gematria (exchange c d) ≡ phi_gematria (exchange d c) =
          omega (arith, gematria_of_both c d x y hc hd, gematria_of_both d c y x hd hc) in
        let other : phi_sequence (exchange c d) ≢ phi_sequence (exchange d c) = λ e. ne (
          val-injective _ _ x y hc hd (
            weights_differ first_place gap (val x) (val y)
              (omega (arith, sequence_of_both c d x y hc hd, sequence_of_both d c y x hd hc)))) in
        syndrome-changed digest (manifest digest (exchange c d) division) (exchange d c)
          transposition
          (ap classify (
            breaks_at digest division (exchange c d) (exchange d c) shape true false true
              (ground arith) (nat_eq-ne _ _ other) (rw same (same_numbers_refl _))
              (omega (arith, length_of_both c d x y hc hd, length_of_both d c y x hd hc))))
      where
        shape : SameShape (exchange c d) (exchange d c)
        shape = SameShape-append_text s _ _ (
            letter-shape c d _ _ hc hd
              (SameShape-append_text m _ _ (letter-shape d c t t hd hc (SameShape-refl t))))
