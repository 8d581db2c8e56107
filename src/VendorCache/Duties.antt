-- ===== src/VendorCache/Duties.antt =====
-- ts/src/vendor-cache.ts: the paths that the duties of a decision mask, and the payload under them.
use text.Mathlib.TextLemmas.{cons-append, nil-append}
use mathlib.Core.List.{Memᴰ}
use mathlib.Core.List.Memᴰ
use hellgraph.Base.{
  String, Option, none, some, List, [], ◌∷◌, ◌≡◌, refl, sym, ap, ◌∙◌, subst, arith, inl, inr, keep,
  Memᴰ-cons, All, true,
}
use hellgraph.Policy.Context.{Value, PolicyContext, egress}
use hellgraph.Policy.Decisions.{mask, Decision, allow, decide}
use hellgraph.Policy.Decisions.Allowances.{egress_only_masks}
use mathlib.Core.Option.{some-injective}
use hellgraph.Masking.{
  Cipher, starts_with, drop_chars, path_of, add_path, masked_paths, apply_egress_obligations,
}
use hellgraph.Masking.Payloads.{IsUsable}
use hellgraph.VendorCache.{
  Vendors, send, payload_for, payload_of, is_mask, mask_parsed, send_printed,
}

-- The text `mask:` before a path, character by character.
prefixed : String → String
prefixed f = String.◌∷◌ "m" (String.◌∷◌ "a" (String.◌∷◌ "s" (String.◌∷◌ "k" (String.◌∷◌ ":" f))))

mask-prefixed : (f : String) → mask f ≡ prefixed f
unfolding prefixed
mask-prefixed f =
    cons-append "m" "ask:" f
    ∙ ap (String.◌∷◌ "m") (
        cons-append "a" "sk:" f
        ∙ ap (String.◌∷◌ "a") (
            cons-append "s" "k:" f
            ∙ ap (String.◌∷◌ "s") (
                cons-append "k" ":" f
                ∙ ap (String.◌∷◌ "k") (cons-append ":" "" f ∙ ap (String.◌∷◌ ":") (nil-append f)))))

path_of-mask : (f : String) → path_of (mask f) ≡ some f
unfolding path_of starts_with drop_chars prefixed
path_of-mask f = ap path_of (mask-prefixed f)

pub is_mask-mask : (f : String) → is_mask (mask f) ≡ true
unfolding starts_with prefixed
is_mask-mask f = ap is_mask (mask-prefixed f)

pub mem-keep_mask :
    (os : List String) (o : String) → Memᴰ o os → is_mask o ≡ true → Memᴰ o (keep is_mask os)
mem-keep_mask [] o m h = absurd (Memᴰ.not-nil m)
mem-keep_mask (p ∷ os) o m h = elim (Memᴰ.cases_cons m) [
  | inl e ↦ rw (subst (λ (x : String). is_mask x ≡ true) e h) (Memᴰ.head e)
  | inr t ↦ ground (arith, Memᴰ-cons o p (keep is_mask os), mem-keep_mask os o t h)
]

pub mem-masked_paths : (os : List String) (f : String) → Memᴰ (mask f) os → Memᴰ f (masked_paths os)
unfolding masked_paths
mem-masked_paths [] f m = absurd (Memᴰ.not-nil m)
mem-masked_paths (o ∷ os) f m = elim (Memᴰ.cases_cons m) [
  | inl e ↦
      subst (λ (x : Option String). Memᴰ f (add_path x (masked_paths os)))
        (sym (ap path_of (sym e) ∙ path_of-mask f)) (Memᴰ.head refl)
  | inr t ↦ mem-add_path (path_of o) (mem-masked_paths os f t)
]
  where
    mem-add_path :
        (x : Option String) → Memᴰ f (masked_paths os) → Memᴰ f (add_path x (masked_paths os))
    mem-add_path none here = here
    mem-add_path (some p) here = Memᴰ.tail here

-- What is sent where there is something to mask: the payload that was masked.
pub payload_masked :
    (v : Vendors) (key : Option Cipher) (content text : String) (duties : List String) (f : String)
    → Memᴰ (mask f) duties
    → payload_for v key content duties ≡ send text
    → (cipher : Cipher) × (value : Value) × (w : Value) × (key ≡ some cipher)
      × (v.parse_json content ≡ some value)
      × (apply_egress_obligations cipher value (keep is_mask duties) ≡ some w)
      × (text ≡ v.print_json w)
unfolding payload_for
payload_masked v key content text duties f m h =
    by_duties (keep is_mask duties) (mem-keep_mask duties (mask f) m (is_mask-mask f)) h
  where
    printed :
        (o : Option Value)
        → send_printed v.print_json o ≡ send text
        → (w : Value) × (o ≡ some w) × (text ≡ v.print_json w)
    printed none e = cc
    printed (some w) e = (w, refl, cc)

    parsed :
        (o : Option Value) (k : Option Cipher) (ds : List String)
        → mask_parsed v.print_json k o ds ≡ send text
        → (cipher : Cipher) × (value : Value) × (w : Value) × (k ≡ some cipher)
          × (o ≡ some value)
          × (apply_egress_obligations cipher value ds ≡ some w)
          × (text ≡ v.print_json w)
    parsed none k ds e = cc
    parsed (some value) none ds e = cc
    parsed (some value) (some cipher) ds e =
        let (w, ran, same) = printed (apply_egress_obligations cipher value ds) e in
        (cipher, value, w, refl, refl, ran, same)

    by_duties :
        (ds : List String)
        → Memᴰ (mask f) ds
        → payload_of v key content ds ≡ send text
        → (cipher : Cipher) × (value : Value) × (w : Value) × (key ≡ some cipher)
          × (v.parse_json content ≡ some value)
          × (apply_egress_obligations cipher value ds ≡ some w)
          × (text ≡ v.print_json w)
    by_duties [] mem e = absurd (Memᴰ.not-nil mem)
    by_duties (d ∷ ds) mem e = parsed (v.parse_json content) key (d ∷ ds) e

pub every-IsUsable :
    (value : Value) (ps : List String)
    → ((p : String) → Memᴰ p ps → IsUsable value p)
    → All (IsUsable value) ps
every-IsUsable value [] h = tt
every-IsUsable value (p ∷ ps) h =
    (h p (Memᴰ.head refl), every-IsUsable value ps (λ q m. h q (Memᴰ.tail m)))

path_from :
    (os : List String) (p : String)
    → Memᴰ p (masked_paths os)
    → (o : String) × Memᴰ o os × (path_of o ≡ some p)
unfolding masked_paths
path_from [] p m = absurd (Memᴰ.not-nil m)
path_from (o ∷ os) p m = by_path (path_from os p) (path_of o) refl m
  where
    later :
        ((o' : String) × Memᴰ o' os × (path_of o' ≡ some p))
        → (o' : String) × Memᴰ o' (o ∷ os) × (path_of o' ≡ some p)
    later (o', here, e) = (o', Memᴰ.tail here, e)

    by_path :
        (Memᴰ p (masked_paths os) → (o' : String) × Memᴰ o' os × (path_of o' ≡ some p))
        → (x : Option String) → path_of o ≡ x
        → Memᴰ p (add_path x (masked_paths os))
        → (o' : String) × Memᴰ o' (o ∷ os) × (path_of o' ≡ some p)
    by_path rest none e h = later (rest h)
    by_path rest (some r) e h = elim (Memᴰ.cases_cons h) [
      | inl same ↦ (o, Memᴰ.head refl, e ∙ ap (λ (x : String). some x) (sym same))
      | inr t ↦ later (rest t)
    ]

keep_from : (os : List String) (o : String) → Memᴰ o (keep is_mask os) → Memᴰ o os
keep_from [] o m = absurd (Memᴰ.not-nil m)
keep_from (p ∷ os) o m =
    ground (arith, keep_from os o, Memᴰ-cons o p os, Memᴰ-cons o p (keep is_mask os))

-- Under the baseline, the paths that are masked are sensitive fields.
pub masked_from :
    (ctx : PolicyContext) (d : Decision) (fs : List String)
    → decide ctx [] ≡ some d
    → ctx.action ≡ egress
    → d.effect ≡ allow
    → ctx.object.sensitive_fields ≡ some fs
    → (g : String) → Memᴰ g (masked_paths (keep is_mask d.obligations))
    → Memᴰ g fs
masked_from ctx d fs made a allowed s g m =
    let (o, here, path) = path_from (keep is_mask d.obligations) g m in
    let (f, mem, same) =
      egress_only_masks ctx d fs o made a allowed s (keep_from d.obligations o here) in
    let eq : f ≡ g = some-injective f g (sym (path_of-mask f) ∙ ap path_of (sym same) ∙ path) in
    subst (λ (x : String). Memᴰ x fs) eq mem
