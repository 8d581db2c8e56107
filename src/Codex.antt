-- ===== src/Codex.antt =====
-- ts/src/codex.ts: the facets of a text, the manifest that seals it, and the syndrome that compares a
-- seal with a text. A character is read by its code point. The SHA-256 digest in hex, which comes
-- from Node's crypto module, is the parameter `digest`.
pub mod Letters
pub mod Shapes
pub mod Changes
pub mod Edits
pub mod Exchanges
pub mod Seals
use Prim.Native.Char.{code}
use Prim.Native.String.{slice}
use hellgraph.Base.{
  ℕ, ◌+◌, ◌-◌, ◌*◌, ◌%◌, String, Bool, true, false, not, ◌&&◌, Option, none, some, List, [], ◌∷◌,
  map, length, leb, ltb, nat_eq, ◌==◌, keep, if◌then◌else◌,
}
use hellgraph.Metta.{is_space}
use hellgraph.Auth.{trim}

-- The code of one character of `lettersOnly`: that of the small letter, or none.
unfoldable pub letter : ℕ → Option ℕ
letter n =
    if leb b'A' n && leb n b'Z'
    then some (n + 32)
    else if leb b'a' n && leb n b'z'
    then some n
    else none

abbrev pub add_letter : Option ℕ → List ℕ → List ℕ
add_letter none ls = ls
add_letter (some n) ls = n ∷ ls

-- The codes of `lettersOnly(t)`
unfoldable pub letters_only : String → List ℕ
letters_only String.[] = []
letters_only (String.◌∷◌ c s) = add_letter (letter (code c)) (letters_only s)

unfoldable pub val : ℕ → ℕ
val n = if leb b'a' n && leb n b'z' then n - 96 else 0

unfoldable pub sum_values : List ℕ → ℕ
sum_values [] = 0
sum_values (n ∷ ls) = val n + sum_values ls

unfoldable pub phi_gematria : String → ℕ
phi_gematria t = sum_values (letters_only t)

-- The loop of `phiSequence`, from the position `i`.
unfoldable pub weigh : ℕ → List ℕ → ℕ
weigh i [] = 0
weigh i (n ∷ ls) = (i + 1) * val n + weigh (i + 1) ls

unfoldable pub phi_sequence : String → ℕ
phi_sequence t = weigh 0 (letters_only t)

-- The widths of the runs of white space, after `n` characters of one that is open.
unfoldable pub space_runs : ℕ → String → List ℕ
space_runs n String.[] = if nat_eq n 0 then [] else n ∷ []
space_runs n (String.◌∷◌ c s) =
    let inside = space_runs (n + 1) s in
    let outside = space_runs 0 s in
    if is_space c then inside else if nat_eq n 0 then outside else n ∷ outside

unfoldable pub phi_spacing : String → List ℕ
phi_spacing t = space_runs 0 (trim t)

-- `split(/\s+/)` cuts at each run of white space.
unfoldable pub count_tokens : String → ℕ
count_tokens trimmed = if trimmed == "" then 0 else length (space_runs 0 trimmed) + 1

unfoldable pub phi_structure : String → ℕ × ℕ
phi_structure t = (length (letters_only t), count_tokens (trim t))

abbrev pub coprime_moduli : List ℕ
coprime_moduli = 5 ∷ 7 ∷ 17 ∷ 19 ∷ []

unfoldable pub phi_residue : String → List ℕ
phi_residue t = let g = phi_gematria t in map (λ (m : ℕ). g % m) coprime_moduli

pub data Transform : Type 0 where
  substitution transposition spacing_change structural : Transform

pub data Facet : Type 0 where
  gematria sequence spacing structure residues : Facet

abbrev pub facet_order : List Facet
facet_order = gematria ∷ sequence ∷ spacing ∷ structure ∷ residues ∷ []

-- The facets by their names in alphabetical order.
abbrev pub sorted_facets : List Facet
sorted_facets = gematria ∷ residues ∷ sequence ∷ spacing ∷ structure ∷ []

-- `PHI[f].catches`
abbrev pub catches : Facet → Transform → Bool
catches gematria substitution = true
catches gematria structural = true
catches sequence substitution = true
catches sequence transposition = true
catches sequence structural = true
catches spacing spacing_change = true
catches spacing structural = true
catches structure structural = true
catches residues substitution = true
catches residues structural = true
catches _ _ = false

pub record Manifest : Type 0 where
  pub gematria_of : ℕ
  pub sequence_of : ℕ
  pub spacing_of : List ℕ
  pub structure_of : ℕ × ℕ
  pub residue_of : List ℕ
  pub sha256 : String
  pub division : Option ℕ

pub data ChangeClass : Type 0 where
  intact : ChangeClass
  changed : Transform → ChangeClass
  unknown : ChangeClass

pub data Verdict : Type 0 where
  positive neutral negative : Verdict

-- A set of facets.
pub record Breaks : Type 0 where
  pub in_gematria : Bool
  pub in_sequence : Bool
  pub in_spacing : Bool
  pub in_structure : Bool
  pub in_residue : Bool

abbrev pub has_break : Breaks → Facet → Bool
has_break b gematria = b.in_gematria
has_break b sequence = b.in_sequence
has_break b spacing = b.in_spacing
has_break b structure = b.in_structure
has_break b residues = b.in_residue

pub data EvidenceTier : Type 0 where
  exact_tier verified_tier sampled_tier : EvidenceTier

abbrev tier_rank : EvidenceTier → ℕ
tier_rank exact_tier = 0
tier_rank verified_tier = 1
tier_rank sampled_tier = 2

-- `FACET_EVIDENCE[f]`
abbrev facet_evidence : Facet → EvidenceTier
facet_evidence f = exact_tier

-- The loop of `evidenceTierOf`, from a tier.
unfoldable pub weakest_tier : EvidenceTier → List Facet → EvidenceTier
weakest_tier tier [] = tier
weakest_tier tier (f ∷ fs) =
    let t = facet_evidence f in
    weakest_tier (if ltb (tier_rank tier) (tier_rank t) then t else tier) fs

unfoldable pub evidence_tier_of : List Facet → EvidenceTier
evidence_tier_of fs = weakest_tier exact_tier fs

pub record Syndrome : Type 0 where
  pub breaks : List Facet
  pub intact_facets : List Facet
  pub class : ChangeClass
  pub verdict : Verdict
  pub evidence : EvidenceTier
  pub exact : Bool

abbrev facet_no : Facet → ℕ
facet_no gematria = 0
facet_no sequence = 1
facet_no spacing = 2
facet_no structure = 3
facet_no residues = 4

same_facets : List Facet → List Facet → Bool
same_facets [] [] = true
same_facets (x ∷ xs) (y ∷ ys) = nat_eq (facet_no x) (facet_no y) && same_facets xs ys
same_facets _ _ = false

-- `CANONICAL`, by the sorted facets of a key.
abbrev canonical : List (List Facet × Transform)
canonical =
    (gematria ∷ residues ∷ sequence ∷ [], substitution)
    ∷ (sequence ∷ [], transposition)
    ∷ (spacing ∷ [], spacing_change)
    ∷ (sorted_facets, structural)
    ∷ []

look_up : List (List Facet × Transform) → List Facet → Option Transform
unfolding same_facets
look_up [] key = none
look_up ((k, t) ∷ table) key = if same_facets k key then some t else look_up table key

-- Ten times the score of a transform, and ten: `10 * inter - sym + 10`, where `sym` is at most five.
score : Breaks → Transform → ℕ
score b t =
    let caught = keep (λ f. catches f t) facet_order in
    let broken = keep (has_break b) facet_order in
    let inter = length (keep (has_break b) caught) in
    let sym =
      length (keep (λ f. not (has_break b f)) caught)
      + length (keep (λ f. not (catches f t)) broken) in
    10 * inter + 10 - sym

-- The loop for the best transform, over those left; the score of -1 that it starts from is 0 here.
pick : Breaks → List Transform → ChangeClass → ℕ → ChangeClass
unfolding score
pick b [] best top = best
pick b (t ∷ ts) best top =
    let j = score b t in
    pick b ts (if ltb top j then changed t else best) (if ltb top j then j else top)

unfoldable pub classify : Breaks → ChangeClass
unfolding pick look_up
classify b = elim (keep (has_break b) sorted_facets) [
  | [] ↦ intact
  | f ∷ fs ↦ elim (look_up canonical (f ∷ fs)) [
    | some t ↦ changed t
    | none ↦
        if b.in_structure
        then changed structural
        else pick b (substitution ∷ transposition ∷ spacing_change ∷ structural ∷ []) unknown 0
  ]
]

abbrev pub verdict_of : ChangeClass → Verdict
verdict_of intact = positive
verdict_of (changed _) = negative
verdict_of unknown = neutral

abbrev pub is_intact : ChangeClass → Bool
is_intact intact = true
is_intact _ = false

-- `facetEq` on arrays
unfoldable pub same_numbers : List ℕ → List ℕ → Bool
same_numbers [] [] = true
same_numbers (x ∷ xs) (y ∷ ys) = nat_eq x y && same_numbers xs ys
same_numbers _ _ = false

unfoldable pub breaks_of : Manifest → Manifest → Breaks
breaks_of base cur = record {
  in_gematria = not (nat_eq base.gematria_of cur.gematria_of);
  in_sequence = not (nat_eq base.sequence_of cur.sequence_of);
  in_spacing = not (same_numbers base.spacing_of cur.spacing_of);
  in_structure = not (
      nat_eq base.structure_of.0 cur.structure_of.0
      && nat_eq base.structure_of.1 cur.structure_of.1);
  in_residue = not (same_numbers base.residue_of cur.residue_of);
}

module _ (digest : String → String) where
  unfoldable pub manifest : String → Option ℕ → Manifest
  manifest text division = record {
    gematria_of = phi_gematria text;
    sequence_of = phi_sequence text;
    spacing_of = phi_spacing text;
    structure_of = phi_structure text;
    residue_of = phi_residue text;
    sha256 = slice (digest text) 0 16;
    division = division;
  }

  unfoldable pub syndrome : Manifest → String → Syndrome
  syndrome base text =
      let cur = manifest text none in
      let b = breaks_of base cur in
      let c = classify b in
      let e = base.sha256 == cur.sha256 in
      record {
        breaks = keep (has_break b) sorted_facets;
        intact_facets = keep (λ f. not (has_break b f)) facet_order;
        class = c;
        verdict = if is_intact c && not e then negative else verdict_of c;
        evidence = evidence_tier_of facet_order;
        exact = e;
      }
