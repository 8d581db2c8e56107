-- ===== src/Policy/Decisions/Allowances.antt =====
-- What an allowed egress carries with it (ts/src/policy.ts).
use mathlib.Core.List.{Memᴰ}
use mathlib.Core.List.Memᴰ
use hellgraph.Base.{
  String, ◌≡◌, ◌≢◌, inl, inr, refl, sym, ap, ◌∙◌, true, none, some, List, [], ◌∷◌, ◌++◌, map, arith,
  keep, ==_iff, Memᴰ-cons, Memᴰ-append, Memᴰ-nil, All, subst, Option-cases,
}
use hellgraph.Base.Sets.{has_iff, mem-add_all}
use hellgraph.Policy.Context.{egress, PolicyContext}
use hellgraph.Policy.Decisions.{
  allow, Rule, Decision, baseline, applies, applicable, is_allow, resolve, conclude, mask, approved,
  masks, decide, all_obligations,
}
use hellgraph.Policy.Decisions.Denials.{mem-applicable}

mem-keep-allow :
    (rs : List Rule) (r : Rule) → Memᴰ r (keep is_allow rs) → Memᴰ r rs × (r.effect ≡ allow)
mem-keep-allow [] r m = absurd (Memᴰ.not-nil m)
mem-keep-allow (q ∷ rs) r m =
    ground (arith, mem-keep-allow rs r, Memᴰ-cons r q rs, Memᴰ-cons r q (keep is_allow rs), same)
  where
    same : r ≡ q → r.effect ≡ q.effect
    same e = ap (λ (x : Rule). x.effect) e

mem-map_mask : (fs : List String) (f : String) → Memᴰ f fs → Memᴰ (mask f) (map mask fs)
mem-map_mask [] f m = absurd (Memᴰ.not-nil m)
mem-map_mask (g ∷ fs) f m = elim ((Memᴰ-cons f g fs).0 m) [
  | inl e ↦ Memᴰ.head (ap mask e)
  | inr t ↦ Memᴰ.tail (mem-map_mask fs f t)
]

-- An allowed egress was concluded from the rules that allow, none of which is missing.
resolve-allow :
    (ctx : PolicyContext) (rs : List Rule)
    → (resolve ctx rs).effect ≡ allow
    → resolve ctx rs ≡ conclude ctx (keep is_allow rs)
unfolding resolve
resolve-allow ctx rs h = ground arith

mem-masks :
    (ctx : PolicyContext) (f : String) (fs : List String)
    → ctx.action ≡ egress
    → ctx.object.sensitive_fields ≡ some fs
    → Memᴰ f fs
    → Memᴰ (mask f) (masks ctx)
unfolding masks
mem-masks ctx f fs a s m = rw (a, s) (mem-map_mask fs f m)

conclude_masks :
    (ctx : PolicyContext) (allows : List Rule) (f : String) (fs : List String)
    → (conclude ctx allows).effect ≡ allow
    → ctx.action ≡ egress
    → ctx.object.sensitive_fields ≡ some fs
    → Memᴰ f fs
    → Memᴰ (mask f) (conclude ctx allows).obligations
unfolding conclude
conclude_masks ctx [] f fs h a s m = absurd (ground arith)
conclude_masks ctx (r ∷ allows) f fs h a s m =
    let duties = all_obligations (r ∷ allows) in
    ground (
      arith,
      mem-add_all [] (duties ++ masks ctx) (mask f),
      Memᴰ-append (mask f) duties (masks ctx),
      mem-masks ctx f fs a s m,
    )

conclude_residency :
    (ctx : PolicyContext) (allows : List Rule) (r : String) (rs : List String)
    → (conclude ctx allows).effect ≡ allow
    → ctx.action ≡ egress
    → ctx.object.residency ≡ some r
    → r ≢ ""
    → approved ctx ≡ some rs
    → Memᴰ r rs
unfolding conclude
conclude_residency ctx [] r rs h a s n p = ground (arith, has_iff rs r, ==_iff r "")
conclude_residency ctx (q ∷ allows) r rs h a s n p = ground (arith, has_iff rs r, ==_iff r "")

-- A decision that allows was concluded from the rules that apply and allow.
decide-allow :
    (ctx : PolicyContext) (policy : List Rule) (d : Decision)
    → decide ctx policy ≡ some d
    → d.effect ≡ allow
    → (rules : List Rule) × (applicable ctx (baseline ++ policy) ≡ some rules)
      × (d ≡ conclude ctx (keep is_allow rules))
      × ((conclude ctx (keep is_allow rules)).effect ≡ allow)
unfolding decide
decide-allow ctx policy d h e = elim (Option-cases (applicable ctx (baseline ++ policy))) [
  | inl thrown ↦ absurd (ground arith)
  | inr (rules, found) ↦
      let made : d ≡ resolve ctx rules = ground arith in
      let effect = λ (x : Decision). x.effect in
      let allowed : (resolve ctx rules).effect ≡ allow = ap effect (sym made) ∙ e in
      let same = resolve-allow ctx rules allowed in
      (rules, found, made ∙ same, ap effect (sym same) ∙ allowed)
]

-- Under every policy, an allowed egress carries the duty to mask each sensitive field.
pub egress_masks :
    (ctx : PolicyContext) (policy : List Rule) (d : Decision) (f : String) (fs : List String)
    → decide ctx policy ≡ some d
    → ctx.action ≡ egress
    → d.effect ≡ allow
    → ctx.object.sensitive_fields ≡ some fs
    → Memᴰ f fs
    → Memᴰ (mask f) d.obligations
egress_masks ctx policy d f fs h a e s m =
    let (rules, _, made, allowed) = decide-allow ctx policy d h e in
    rw made (conclude_masks ctx (keep is_allow rules) f fs allowed a s m)

-- Under every policy, an allowed egress to a target that declares its residencies is of content
-- whose residency is among them, when the content has one.
pub egress_residency :
    (ctx : PolicyContext) (policy : List Rule) (d : Decision) (r : String) (rs : List String)
    → decide ctx policy ≡ some d
    → ctx.action ≡ egress
    → d.effect ≡ allow
    → ctx.object.residency ≡ some r
    → r ≢ ""
    → approved ctx ≡ some rs
    → Memᴰ r rs
egress_residency ctx policy d r rs h a e s n p =
    let (rules, _, _, allowed) = decide-allow ctx policy d h e in
    conclude_residency ctx (keep is_allow rules) r rs allowed a s n p

head-allow : (rs : List Rule) → keep is_allow rs ≢ [] → (r : Rule) × Memᴰ r rs × (r.effect ≡ allow)
head-allow rs h = pick (keep is_allow rs) refl
  where
    pick : (ks : List Rule) → keep is_allow rs ≡ ks → (r : Rule) × Memᴰ r rs × (r.effect ≡ allow)
    pick [] e = absurd (h e)
    pick (r ∷ ks) e =
        let (m, allowed) = mem-keep-allow rs r (rw e (Memᴰ.head refl)) in (r, m, allowed)

conclude_default :
    (ctx : PolicyContext) (allows : List Rule)
    → ctx.action ≡ egress
    → (conclude ctx allows).effect ≡ allow
    → allows ≢ []
unfolding conclude
conclude_default ctx [] a h = absurd (ground arith)
conclude_default ctx (r ∷ allows) a h = λ e. cc

-- Egress is denied by default: an allowed one rests on a rule of the baseline or of the policy that
-- applies and allows.
pub egress_needs_rule :
    (ctx : PolicyContext) (policy : List Rule) (d : Decision)
    → decide ctx policy ≡ some d
    → ctx.action ≡ egress
    → d.effect ≡ allow
    → (r : Rule) × Memᴰ r (baseline ++ policy) × (applies ctx r ≡ some true) × (r.effect ≡ allow)
egress_needs_rule ctx policy d h a e =
    let (rules, found, _, allowed) = decide-allow ctx policy d h e in
    let (r, m, allows) = head-allow rules (conclude_default ctx (keep is_allow rules) a allowed) in
    let (listed, applied) = (mem-applicable ctx (baseline ++ policy) rules r found).0 m in
    (r, listed, applied, allows)

mask_of-map :
    (fs : List String) (o : String) → Memᴰ o (map mask fs) → (f : String) × Memᴰ f fs × (o ≡ mask f)
mask_of-map [] o m = absurd (Memᴰ.not-nil m)
mask_of-map (g ∷ fs) o m = elim (Memᴰ.cases_cons m) [
  | inl e ↦ (g, Memᴰ.head refl, e)
  | inr t ↦ let (f, here, e) = mask_of-map fs o t in (f, Memᴰ.tail here, e)
]

all_obligations-none :
    (rs : List Rule) → ((r : Rule) → Memᴰ r rs → r.obligations ≡ none) → all_obligations rs ≡ []
unfolding all_obligations
all_obligations-none [] h = refl
all_obligations-none (r ∷ rs) h =
    rw (h r (Memᴰ.head refl)) (all_obligations-none rs (λ q m. h q (Memᴰ.tail m)))

of_All :
    (rs : List Rule) (r : Rule)
    → All (λ (q : Rule). q.obligations ≡ none) rs
    → Memᴰ r rs
    → r.obligations ≡ none
of_All [] r h m = absurd (Memᴰ.not-nil m)
of_All (q ∷ rs) r h m = elim (Memᴰ.cases_cons m) [
  | inl e ↦ ap (λ (x : Rule). x.obligations) e ∙ h.0
  | inr t ↦ of_All rs r h.1 t
]

-- No rule of the baseline carries a duty.
baseline_bare : (r : Rule) → Memᴰ r (baseline ++ []) → r.obligations ≡ none
baseline_bare r m = of_All (baseline ++ []) r (refl, (refl, (refl, (refl, (refl, tt))))) m

conclude_only_masks :
    (ctx : PolicyContext) (allows : List Rule) (fs : List String) (o : String)
    → (conclude ctx allows).effect ≡ allow
    → all_obligations allows ≡ []
    → ctx.action ≡ egress
    → ctx.object.sensitive_fields ≡ some fs
    → Memᴰ o (conclude ctx allows).obligations
    → (f : String) × Memᴰ f fs × (o ≡ mask f)
unfolding conclude masks
conclude_only_masks ctx [] fs o h bare a s m = absurd (ground arith)
conclude_only_masks ctx (r ∷ allows) fs o h bare a s m =
    let duties = all_obligations (r ∷ allows) in
    let same : masks ctx ≡ map mask fs = rw (a, s) refl in
    mask_of-map fs o (
      subst (λ (os : List String). Memᴰ o os) same
        (ground (
          arith,
          mem-add_all [] (duties ++ masks ctx) o,
          Memᴰ-append o duties (masks ctx),
          Memᴰ-nil o,
          subst (λ (os : List String). ¬ Memᴰ o os) (sym bare) Memᴰ.not-nil,
        )))

-- Under the baseline alone, an allowed egress carries no other duty.
pub egress_only_masks :
    (ctx : PolicyContext) (d : Decision) (fs : List String) (o : String)
    → decide ctx [] ≡ some d
    → ctx.action ≡ egress
    → d.effect ≡ allow
    → ctx.object.sensitive_fields ≡ some fs
    → Memᴰ o d.obligations
    → (f : String) × Memᴰ f fs × (o ≡ mask f)
egress_only_masks ctx d fs o h a e s m =
    let (rules, found, made, allowed) = decide-allow ctx [] d h e in
    conclude_only_masks ctx (keep is_allow rules) fs o allowed
      (all_obligations-none (keep is_allow rules) (λ r here.
        baseline_bare r
          ((mem-applicable ctx (baseline ++ []) rules r found).0
            (mem-keep-allow rules r here).0).0))
      a s (rw made at m)
