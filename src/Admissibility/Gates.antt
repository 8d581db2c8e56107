-- ===== src/Admissibility/Gates.antt =====
-- What each gate of ts/src/claim-admissibility.ts asks, and the chain of them.
use mathlib.Core.List.{Memᴰ}
use mathlib.Core.List.Memᴰ
use hellgraph.Base.{
  ◌≤◌, String, ◌≡◌, ◌↔◌, ◌⊎◌, inl, inr, refl, sym, ap, subst, ◌∙◌, Bool, true, false, not, Option,
  none, some, List, [], ◌∷◌, arith, any, find?, every, Memᴰ-cons, Option-cases, Bool-cases,
  if◌then◌else◌,
}
use hellgraph.Base.Sets.{has, has_iff}
use hellgraph.Admissibility.{
  ClaimInput, AdmissibilityContext, AdmissibilityGate, Finding, out, through, Scores,
  HearsayException, Ruling, ruled_in, ruled_out, or_else, depth_of, kind_of, is_model_generated,
  floor_of, max_depth, registry, relevance_gate, hearsay_gate, opinion_gate, credibility_gate,
  privilege_gate, discretion_gate, run_gates, admit_claim, GateStep, relevance, hearsay, opinion,
  credibility, privilege, discretion,
}

abbrev pub passes : Finding → Bool
passes (out why) = false
passes (through discount outcome excuse why) = true

module _ {N : Type 0} (scores : Scores N) where
  abbrev pub IsRelevant : ClaimInput N → AdmissibilityContext N → Type 0
  IsRelevant claim ctx =
      (r : N) → claim.relevance_score ≡ some r → scores.below r (floor_of scores ctx) ≡ false

  abbrev pub IsNear : ClaimInput N → AdmissibilityContext N → Type 0
  IsNear claim ctx =
      (depth_of claim.provenance ≤ max_depth scores ctx)
      ⊎ ((e : HearsayException N) × Memᴰ e (registry scores ctx) × (e.excuses claim ≡ true))

  abbrev pub IsFact : ClaimInput N → AdmissibilityContext N → Type 0
  IsFact claim ctx =
      is_model_generated (kind_of claim.provenance) ≡ true → or_else ctx.allow_opinion true ≡ true

  abbrev pub IsCredible : ClaimInput N → Type 0
  IsCredible claim = (t : N) → claim.source_trust ≡ some t → scores.below t scores.tenth ≡ false

  abbrev pub IsVisible : ClaimInput N → AdmissibilityContext N → Type 0
  IsVisible claim ctx =
      (s : String)
      → Memᴰ s (or_else claim.visibility_scope [])
      → Memᴰ s (or_else ctx.requester_scopes [])

  abbrev pub IsRuledIn : ClaimInput N → AdmissibilityContext N → Type 0
  IsRuledIn claim ctx =
      (p : ClaimInput N → Ruling)
      → ctx.policy ≡ some p
      → (why : Option String) × (p claim ≡ ruled_in why)

  passes-relevance_gate :
      (claim : ClaimInput N) (ctx : AdmissibilityContext N)
      → (passes (relevance_gate scores claim ctx) ≡ true) ↔ IsRelevant claim ctx
  unfolding relevance_gate
  passes-relevance_gate claim ctx = elim (Option-cases claim.relevance_score) [
    | inl unscored ↦ (λ _ r e. absurd (ground arith), λ _. ground arith)
    | inr (r, scored) ↦ (
      λ h q e.
          let same : r ≡ q = ground arith in
          let over_floor : scores.below r (floor_of scores ctx) ≡ false = ground arith in
          subst (λ (x : N). scores.below x (floor_of scores ctx) ≡ false) same over_floor,
      λ h. ground (arith, h r scored),
    )
  ]

  find-none :
      (claim : ClaimInput N) (es : List (HearsayException N))
      → find? (λ e. e.excuses claim) es ≡ none
      → (e : HearsayException N) → Memᴰ e es
      → e.excuses claim ≡ false
  find-none claim [] h e m = absurd (Memᴰ.not-nil m)
  find-none claim (x ∷ es) h e m = elim ((Memᴰ-cons e x es).0 m) [
    | inl same ↦
        subst (λ (y : HearsayException N). y.excuses claim ≡ false) (sym same) (ground arith)
    | inr t ↦ find-none claim es (ground arith) e t
  ]

  find-some :
      (claim : ClaimInput N) (es : List (HearsayException N)) (e : HearsayException N)
      → find? (λ e. e.excuses claim) es ≡ some e
      → Memᴰ e es × (e.excuses claim ≡ true)
  find-some claim [] e h = absurd (ground arith)
  find-some claim (x ∷ es) e h = elim (Bool-cases (x.excuses claim)) [
    | inl hit ↦
        let same : x ≡ e = ground arith in
        (Memᴰ.head (sym same), subst (λ (y : HearsayException N). y.excuses claim ≡ true) same hit)
    | inr miss ↦ let (m, hit) = find-some claim es e (ground arith) in (Memᴰ.tail m, hit)
  ]

  passes-hearsay_gate :
      (claim : ClaimInput N) (ctx : AdmissibilityContext N)
      → (passes (hearsay_gate scores claim ctx) ≡ true) ↔ IsNear claim ctx
  unfolding hearsay_gate
  passes-hearsay_gate claim ctx =
      elim (Option-cases (find? (λ e. e.excuses claim) (registry scores ctx))) [
        | inl miss ↦ (
          λ h. inl (ground arith),
          λ near. elim near [
            | inl shallow ↦ ground arith
            | inr (e, m, hit) ↦
                absurd (ground (arith, find-none claim (registry scores ctx) miss e m))
          ],
        )
        | inr (e, found) ↦ (
          λ h. let (m, hit) = find-some claim (registry scores ctx) e found in inr (e, m, hit),
          λ near. ground arith,
        )
      ]

  passes-opinion_gate :
      (claim : ClaimInput N) (ctx : AdmissibilityContext N)
      → (passes (opinion_gate scores claim ctx) ≡ true) ↔ IsFact claim ctx
  unfolding opinion_gate
  passes-opinion_gate claim ctx = ground arith

  any_missing :
      (held required : List String)
      → (any (λ s. not (has held s)) required ≡ false)
        ↔ ((s : String) → Memᴰ s required → Memᴰ s held)
  any_missing held [] = (λ h s m. absurd (Memᴰ.not-nil m), λ h. refl)
  any_missing held (x ∷ required) =
      let rest = any_missing held required in
      (
        λ h s m. elim ((Memᴰ-cons s x required).0 m) [
          | inl e ↦ subst (λ (y : String). Memᴰ y held) (sym e) ((has_iff held x).0 (ground arith))
          | inr t ↦ rest.0 (ground arith) s t
        ],
        λ h.
            ground
              (arith, (has_iff held x).1 (h x (Memᴰ.head refl)), rest.1 (λ s m. h s (Memᴰ.tail m))),
      )

  passes-privilege_gate :
      (claim : ClaimInput N) (ctx : AdmissibilityContext N)
      → (passes (privilege_gate scores claim ctx) ≡ true) ↔ IsVisible claim ctx
  unfolding privilege_gate
  passes-privilege_gate claim ctx =
      let missing =
        any_missing (or_else ctx.requester_scopes []) (or_else claim.visibility_scope []) in
      (λ h. missing.0 (ground arith), λ h. ground (arith, missing.1 h))

  run_gates_admitted :
      (weight : N) (steps : List GateStep) (gates : List (AdmissibilityGate × Finding))
      → ((run_gates scores weight steps gates).admitted ≡ true)
        ↔ (every (λ (g : AdmissibilityGate × Finding). passes g.1) gates ≡ true)
  unfolding run_gates
  run_gates_admitted weight steps [] = ground arith
  run_gates_admitted weight steps ((g, out why) ∷ gates) = ground arith
  run_gates_admitted weight steps ((g, through discount outcome excuse why) ∷ gates) =
      run_gates_admitted (if discount then scores.times weight scores.half else weight) _ gates

  passes-credibility_gate :
      (claim : ClaimInput N) → (passes (credibility_gate scores claim) ≡ true) ↔ IsCredible claim
  unfolding credibility_gate
  passes-credibility_gate claim = elim (Option-cases claim.source_trust) [
    | inl unmeasured ↦ (λ _ t e. absurd (ground arith), λ _. ground arith)
    | inr (r, measured) ↦ (
      λ h q e.
          let same : r ≡ q = ground arith in
          let trusted : scores.below r scores.tenth ≡ false = ground arith in
          subst (λ (x : N). scores.below x scores.tenth ≡ false) same trusted,
      λ h. ground (arith, h r measured),
    )
  ]

  passes-discretion_gate :
      (claim : ClaimInput N) (ctx : AdmissibilityContext N)
      → (passes (discretion_gate scores claim ctx) ≡ true) ↔ IsRuledIn claim ctx
  unfolding discretion_gate
  passes-discretion_gate claim ctx = elim (Option-cases ctx.policy) [
    | inl free ↦ (λ _ p e. absurd (ground arith), λ _. ground arith)
    | inr (p, policy) ↦ by_ruling p policy (p claim) refl
  ]
    where
      by_ruling :
          (p : ClaimInput N → Ruling)
          → ctx.policy ≡ some p
          → (r : Ruling) → p claim ≡ r
          → (passes (discretion_gate scores claim ctx) ≡ true) ↔ IsRuledIn claim ctx
      by_ruling p policy (ruled_in why) e = (
        λ h q same.
            let pq : p ≡ q = ground arith in
            (why, ap (λ (f : ClaimInput N → Ruling). f claim) (sym pq) ∙ e),
        λ h. ground (arith, policy, e),
      )
      by_ruling p policy (ruled_out why) e = (
        λ h. absurd (ground (arith, policy, e)),
        λ h. let (w, ruled) = h p policy in absurd (ground (arith, e, ruled)),
      )

  -- A claim is admitted exactly when it is relevant, near enough to its source or excused, a fact
  -- where opinions are refused, credible, visible to the requester, and ruled in by the caller's
  -- policy if there is one.
  pub admit_claim_iff :
      (claim : ClaimInput N) (ctx : AdmissibilityContext N)
      → ((admit_claim scores claim ctx).admitted ≡ true) ↔ (
          IsRelevant claim ctx
          × IsNear claim ctx
          × IsFact claim ctx
          × IsCredible claim
          × IsVisible claim ctx
          × IsRuledIn claim ctx)
  unfolding admit_claim
  admit_claim_iff claim ctx =
      let chain = run_gates_admitted scores.one [] (
        (relevance, relevance_gate scores claim ctx)
        ∷ (hearsay, hearsay_gate scores claim ctx)
        ∷ (opinion, opinion_gate scores claim ctx)
        ∷ (credibility, credibility_gate scores claim)
        ∷ (privilege, privilege_gate scores claim ctx)
        ∷ (discretion, discretion_gate scores claim ctx)
        ∷ []) in
      let first = passes-relevance_gate claim ctx in
      let second = passes-hearsay_gate claim ctx in
      let third = passes-opinion_gate claim ctx in
      let fourth = passes-credibility_gate claim in
      let fifth = passes-privilege_gate claim ctx in
      let sixth = passes-discretion_gate claim ctx in
      (
        λ h.
            let all = chain.0 h in
            (
              first.0 (ground arith),
              second.0 (ground arith),
              third.0 (ground arith),
              fourth.0 (ground arith),
              fifth.0 (ground arith),
              sixth.0 (ground arith),
            ),
        λ (a, b, c, d, e, f).
            chain.1
              (ground (arith, first.1 a, second.1 b, third.1 c, fourth.1 d, fifth.1 e, sixth.1 f)),
      )
