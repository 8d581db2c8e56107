-- ===== src/Policy/Decisions/Denials.antt =====
-- Denials, and the rules of the baseline that deny (ts/src/policy.ts).
use mathlib.Core.List.{Memᴰ}
use mathlib.Core.List.Memᴰ
use hellgraph.Base.{
  ◌≡◌, ◌≢◌, ◌↔◌, inl, inr, refl, sym, ap, ◌∙◌, Bool, true, false, none, some, List, [], ◌∷◌, ◌++◌,
  arith, find?, ◌==◌, Memᴰ-cons, Memᴰ-nil, Option-cases, Bool-cases,
}
use hellgraph.Lifecycle.{truthy}
use hellgraph.Policy.Context.{
  egress, delete, PolicyContext, TargetKind, vendor, connector, internal, Target, get_path,
}
use hellgraph.Policy.Conditions.{eval_condition, test_attr}
use hellgraph.Policy.Decisions.{
  allow, deny, Rule, Decision, baseline, legal_hold_blocks_delete, vendor_requires_opt_in,
  connector_requires_opt_in, applies, applicable, is_deny, resolve, decide,
}

-- The filter keeps the rules that apply.
pub mem-applicable :
    (ctx : PolicyContext) (rules rs : List Rule) (r : Rule)
    → applicable ctx rules ≡ some rs
    → Memᴰ r rs ↔ (Memᴰ r rules × (applies ctx r ≡ some true))
unfolding applicable
mem-applicable ctx [] rs r h = ground (arith, Memᴰ-nil r)
mem-applicable ctx (q ∷ rules) rs r h = elim (Option-cases (applies ctx q)) [
  | inl thrown ↦ absurd (ground arith)
  | inr (b, at) ↦ elim (Option-cases (applicable ctx rules)) [
    | inl thrown ↦ absurd (ground arith)
    | inr (rest, tail) ↦
        let ih = mem-applicable ctx rules rest r tail in
        let same : r ≡ q → applies ctx r ≡ some b = λ e. ap (applies ctx) e ∙ at in
        ground (arith, ih, same, Memᴰ-cons r q rules, Memᴰ-cons r q rest)
  ]
]

mem-deny : (rs : List Rule) (r : Rule) → Memᴰ r rs → r.effect ≡ deny → find? is_deny rs ≢ none
mem-deny [] r m e = absurd (Memᴰ.not-nil m)
mem-deny (q ∷ rs) r m e = elim ((Memᴰ-cons r q rs).0 m) [
  | inl same ↦
      let denies : q.effect ≡ deny = ap (λ (x : Rule). x.effect) (sym same) ∙ e in ground arith
  | inr t ↦ ground (arith, mem-deny rs r t e)
]

hold_applies :
    (ctx : PolicyContext)
    → ctx.action ≡ delete
    → truthy ctx.object.legal_hold_flag ≡ true
    → truthy ctx.object.hold_released ≡ false
    → applies ctx legal_hold_blocks_delete ≡ some true
unfolding applies eval_condition test_attr get_path ◌==◌
hold_applies ctx a f r = ground arith

vendor_applies :
    (ctx : PolicyContext) (t : Target)
    → ctx.action ≡ egress
    → ctx.target ≡ some t
    → t.kind ≡ vendor
    → truthy ctx.object.vendor_opt_in ≡ false
    → applies ctx vendor_requires_opt_in ≡ some true
unfolding applies eval_condition test_attr get_path ◌==◌
vendor_applies ctx t a k v o = ground arith

connector_applies :
    (ctx : PolicyContext) (t : Target)
    → ctx.action ≡ egress
    → ctx.target ≡ some t
    → t.kind ≡ connector
    → truthy ctx.object.connector_opt_in ≡ false
    → applies ctx connector_requires_opt_in ≡ some true
unfolding applies eval_condition test_attr get_path ◌==◌
connector_applies ctx t a k v o = ground arith

-- Deny overrides: when a rule of the baseline or of the policy applies and denies, the decision
-- denies, whatever the other rules say.
pub decide-deny :
    (ctx : PolicyContext) (policy : List Rule) (d : Decision) (r : Rule)
    → decide ctx policy ≡ some d
    → Memᴰ r (baseline ++ policy)
    → applies ctx r ≡ some true
    → r.effect ≡ deny
    → d.effect ≡ deny
unfolding decide resolve
decide-deny ctx policy d r h m at e = elim (Option-cases (applicable ctx (baseline ++ policy))) [
  | inl thrown ↦ absurd (ground arith)
  | inr (rs, found) ↦
      let present = (mem-applicable ctx (baseline ++ policy) rs r found).1 (m, at) in
      ground (arith, mem-deny rs r present e)
]

-- A legal hold that was not released denies deletion under every policy.
pub hold_denies_delete :
    (ctx : PolicyContext) (policy : List Rule) (d : Decision)
    → decide ctx policy ≡ some d
    → ctx.action ≡ delete
    → truthy ctx.object.legal_hold_flag ≡ true
    → truthy ctx.object.hold_released ≡ false
    → d.effect ≡ deny
hold_denies_delete ctx policy d h a f r =
    decide-deny ctx policy d legal_hold_blocks_delete h (Memᴰ.head refl) (hold_applies ctx a f r)
      refl

-- The opt-in that an egress to a kind of target needs; none for an internal one.
abbrev pub opted_in : PolicyContext → TargetKind → Bool
opted_in ctx vendor = truthy ctx.object.vendor_opt_in
opted_in ctx connector = truthy ctx.object.connector_opt_in
opted_in ctx internal = true

-- Under every policy, an egress that is allowed to a vendor or a connector was opted into.
pub egress_opted_in :
    (ctx : PolicyContext) (policy : List Rule) (d : Decision) (t : Target)
    → decide ctx policy ≡ some d
    → ctx.action ≡ egress
    → ctx.target ≡ some t
    → d.effect ≡ allow
    → opted_in ctx t.kind ≡ true
egress_opted_in ctx policy d t h a k e = elim (Bool-cases (opted_in ctx t.kind)) [
  | inl yes_in ↦ yes_in
  | inr out ↦ absurd (refuse t.kind refl out)
]
  where
    refuse : (kind : TargetKind) → t.kind ≡ kind → opted_in ctx kind ≡ false → ⊥
    refuse vendor s out = cc (
      e,
      decide-deny ctx policy d vendor_requires_opt_in h (Memᴰ.tail (Memᴰ.head refl))
          (vendor_applies ctx t a k s out) refl,
    )
    refuse connector s out = cc (
      e,
      decide-deny ctx policy d connector_requires_opt_in h (Memᴰ.tail (Memᴰ.tail (Memᴰ.head refl)))
          (connector_applies ctx t a k s out) refl,
    )
    refuse internal s out = cc
