-- ===== src/Codex/Changes.antt =====
-- ts/src/codex.ts: what the syndrome says of a text that was changed in a known way.
use hellgraph.Base.{
  ℕ, String, Bool, true, false, none, List, [], ◌∷◌, ◌≡◌, ◌≢◌, ◌↔◌, refl, ap, ◌∙◌, subst, arith,
  ◌==◌, ==_refl, ==_iff,
}
use hellgraph.Codex.{
  Transform, Breaks, intact, changed, unknown, classify, breaks_of, Manifest, manifest, syndrome,
  same_numbers, positive, neutral, negative,
}

abbrev pub breaks : Bool → Bool → Bool → Bool → Bool → Breaks
breaks g q s t r = record {
  in_gematria = g;
  in_sequence = q;
  in_spacing = s;
  in_structure = t;
  in_residue = r;
}

known : (g q s t r : Bool) → classify (breaks g q s t r) ≢ unknown
unfolding classify
known g q s t r = ground arith

pub classify_known : (b : Breaks) → classify b ≢ unknown
classify_known b = known b.in_gematria b.in_sequence b.in_spacing b.in_structure b.in_residue

intact_only :
    (g q s t r : Bool)
    → classify (breaks g q s t r) ≡ intact
    → breaks g q s t r ≡ breaks false false false false false
unfolding classify
intact_only g q s t r h = ground arith

pub same_numbers_refl : (xs : List ℕ) → same_numbers xs xs ≡ true
unfolding same_numbers
same_numbers_refl [] = refl
same_numbers_refl (x ∷ xs) = ground (arith, same_numbers_refl xs)

same_numbers-eq : (xs ys : List ℕ) → same_numbers xs ys ≡ true → xs ≡ ys
unfolding same_numbers
same_numbers-eq [] [] h = refl
same_numbers-eq [] (y ∷ ys) h = cc
same_numbers-eq (x ∷ xs) [] h = cc
same_numbers-eq (x ∷ xs) (y ∷ ys) h = ground (arith, same_numbers-eq xs ys)

breaks_of_self : (m : Manifest) → breaks_of m m ≡ breaks false false false false false
unfolding breaks_of
breaks_of_self m = ground (arith, same_numbers_refl m.spacing_of, same_numbers_refl m.residue_of)

-- What the manifest records beside the digest and the division is what is compared.
breaks_of-none :
    (m n : Manifest)
    → breaks_of m n ≡ breaks false false false false false
    → record m { sha256 = ""; division = none } ≡ record n { sha256 = ""; division = none }
unfolding breaks_of
breaks_of-none m n e = ground (
  arith,
  ap (λ (b : Breaks). b.in_gematria) e,
  ap (λ (b : Breaks). b.in_sequence) e,
  ap (λ (b : Breaks). b.in_spacing) e,
  ap (λ (b : Breaks). b.in_structure) e,
  ap (λ (b : Breaks). b.in_residue) e,
  same_numbers-eq m.spacing_of n.spacing_of,
  same_numbers-eq m.residue_of n.residue_of,
)

seal_eq :
    (m n : Manifest)
    → record m { sha256 = ""; division = none } ≡ record n { sha256 = ""; division = none }
    → m.sha256 ≡ n.sha256
    → record m { division = none } ≡ record n { division = none }
seal_eq m n e same = cc

-- The division takes no part in the comparison.
breaks_of-division :
    (m n : Manifest)
    → record m { division = none } ≡ n
    → breaks_of m n ≡ breaks false false false false false
unfolding breaks_of
breaks_of-division m n e =
    subst (λ (k : Manifest). breaks_of m k ≡ breaks false false false false false) e
      (breaks_of_self m)

intact_breaks : (b : Breaks) → classify b ≡ intact → b ≡ breaks false false false false false
intact_breaks b h =
    intact_only b.in_gematria b.in_sequence b.in_spacing b.in_structure b.in_residue h

module _ (digest : String → String) where
  pub syndrome-changed :
      (base : Manifest) (text : String) (t : Transform)
      → classify (breaks_of base (manifest digest text none)) ≡ changed t
      → ((syndrome digest base text).class ≡ changed t)
        × ((syndrome digest base text).verdict ≡ negative)
  unfolding syndrome
  syndrome-changed base text t e = (e, rw e refl)

  -- The two halves of the positive verdict.
  positive-breaks :
      (base : Manifest) (text : String)
      → (syndrome digest base text).verdict ≡ positive
      → (breaks_of base (manifest digest text none) ≡ breaks false false false false false)
        × (base.sha256 ≡ (manifest digest text none).sha256)
  unfolding syndrome
  positive-breaks base text h = ground (
    arith,
    intact_breaks (breaks_of base (manifest digest text none)),
    ==_iff base.sha256 (manifest digest text none).sha256,
  )

  self-positive :
      (base : Manifest) (text : String)
      → breaks_of base (manifest digest text none) ≡ breaks false false false false false
      → base.sha256 ≡ (manifest digest text none).sha256
      → (syndrome digest base text).verdict ≡ positive
  unfolding syndrome classify
  self-positive base text e same =
      rw
        (
          e,
          ap (◌== (manifest digest text none).sha256) same
              ∙ ==_refl (manifest digest text none).sha256,
        )
        refl

  pub syndrome-positive :
      (base : Manifest) (text : String)
      → ((syndrome digest base text).verdict ≡ positive)
        ↔ (record base { division = none } ≡ manifest digest text none)
  unfolding syndrome manifest
  syndrome-positive base text = (
    λ h.
        let (none_broken, same) = positive-breaks base text h in
        seal_eq base (manifest digest text none)
          (breaks_of-none base (manifest digest text none) none_broken) same,
    λ e.
        self-positive base text (breaks_of-division base (manifest digest text none) e)
          (ap (λ (m : Manifest). m.sha256) e),
  )

  syndrome-neutral :
      (base : Manifest) (text : String) → (syndrome digest base text).verdict ≢ neutral
  unfolding syndrome
  syndrome-neutral base text =
      ground (arith, classify_known (breaks_of base (manifest digest text none)))

  -- The verdict is never neutral, and it is positive exactly when the text has the manifest that
  -- was sealed, the digest included and the division left out.
  pub syndrome-verdict :
      (base : Manifest) (text : String)
      → ((syndrome digest base text).verdict ≢ neutral)
        × (((syndrome digest base text).verdict ≡ positive)
            ↔ (record base { division = none } ≡ manifest digest text none))
  syndrome-verdict base text = (syndrome-neutral base text, syndrome-positive base text)
