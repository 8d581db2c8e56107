-- ===== src/VendorCache/Payloads.antt =====
-- ts/src/vendor-cache.ts: the text that is uploaded of an object with sensitive fields.
use mathlib.Core.List.{Memᴰ}
use hellgraph.Base.{
  ℕ, String, Option, some, List, [], ◌∷◌, ◌++◌, ◌≡◌, ◌≢◌, refl, sym, ap, ◌∙◌, subst, inl, inr, keep,
  true, false, Bool-cases,
}
use hellgraph.Dict
use hellgraph.Lifecycle.{Trigger}
use hellgraph.Policy.Context.{Value}
use hellgraph.Policy.Decisions.{mask}
use hellgraph.Policy.Decisions.Denials.{egress_opted_in}
use hellgraph.Policy.Decisions.Allowances.{egress_masks, egress_residency}
use hellgraph.ObjectStore.{Bytes, ObjectBackend, CatalogEntry, ok}
use hellgraph.ObjectStore.Calls.{get}
use hellgraph.Base.Sets.{has}
use mathlib.Core.Option.{some-injective}
use hellgraph.Masking.{Cipher, masked_paths, apply_egress_obligations}
use hellgraph.Masking.Leaves.{leaf_at}
use hellgraph.Masking.Wrapping.{IsFaithful}
use hellgraph.Masking.Payloads.{IsUsable, MaskedAs, covers, covers-more, apply_mask_lem}
use hellgraph.VendorCache.{Vendors, MaterializeOptions, upload_file, opted, egress_context, is_mask}
use hellgraph.VendorCache.Calls.{Cache, push}
use hellgraph.VendorCache.Egress.{push_sent}
use hellgraph.VendorCache.Duties.{
  payload_masked, masked_from, mem-masked_paths, mem-keep_mask, is_mask-mask, every-IsUsable,
}

module _ (b : Bytes) (backend : ObjectBackend b.Buffer) (v : Vendors) (key : Option Cipher)
    (c : Cache b backend v key) (id name : String) (t : Trigger) (opts : MaterializeOptions)
    (clock : ℕ) where
  abbrev pub after_push : Cache b backend v key
  after_push = (push b backend v key c id name t opts clock).1

  -- A push that sends anything sends one upload, to a vendor with a client, of an object of the
  -- catalog that was opted in for this call, and whose residency is approved for the vendor when
  -- the object has one and the vendor declares its own.
  pub push_guarded :
      after_push.sent ≢ c.sent
      → (e : CatalogEntry) × (text : String) × (Dict.get c.store.catalog id ≡ some e)
        × (has v.clients name ≡ true)
        × (opts.opt_in ≡ true)
        × ((rs : List String)
            → e.residency ≢ ""
            → Dict.get v.residencies name ≡ some rs
            → Memᴰ e.residency rs)
        × (after_push.sent ≡ c.sent ++ upload_file name text e.mime ∷ [])
  push_guarded sends = elim (push_sent b backend v key c id name t opts clock) [
    | inl same ↦ absurd (sends same)
    | inr (e, d, content, text, there, known, made, allowed, got, p, adds) ↦
        let ctx = egress_context v name (opted id e opts.opt_in) in
        (
          e,
          text,
          there,
          known,
          egress_opted_in ctx [] d _ made refl refl allowed,
          λ rs some_residency approved.
              egress_residency ctx [] d e.residency rs made refl allowed refl some_residency
                approved,
          adds,
        )
  ]

  -- What a push sends of an object with a sensitive field is the JSON of its content in which a
  -- text that a sensitive field leads to is encrypted, or as it was if it was masked already, and
  -- in which every other text is as it was; when the cipher undoes itself on one line, and each
  -- sensitive field is a safe path with a key that takes no member of a text of the content. A
  -- value that is no text is not masked.
  pub push_masked :
      (e : CatalogEntry) (f : String)
      → Dict.get c.store.catalog id ≡ some e
      → Memᴰ f e.sensitive_fields
      → after_push.sent ≢ c.sent
      → ((cipher : Cipher) → key ≡ some cipher → IsFaithful cipher)
      → ((content : String) (e' : CatalogEntry) (value : Value) (p : String)
          → get b backend c.store id ≡ ok (some (content, e'))
          → v.parse_json content ≡ some value
          → Memᴰ p e.sensitive_fields
          → IsUsable value p)
      → (cipher : Cipher) × (content : String) × (e' : CatalogEntry) × (value : Value) × (w : Value)
        × (key ≡ some cipher)
        × (get b backend c.store id ≡ ok (some (content, e')))
        × (v.parse_json content ≡ some value)
        × ((q : List String)
            → covers e.sensitive_fields q ≡ true
            → MaskedAs cipher (leaf_at value q) (leaf_at w q))
        × ((q : List String) → covers e.sensitive_fields q ≡ false → leaf_at w q ≡ leaf_at value q)
        × (after_push.sent ≡ c.sent ++ upload_file name (v.print_json w) e.mime ∷ [])
  unfolding apply_egress_obligations
  push_masked e f there m sends faithful usable =
      elim (push_sent b backend v key c id name t opts clock) [
        | inl same ↦ absurd (sends same)
        | inr (e', d, content, text, found, known, made, allowed, (e'', got), p, adds) ↦
            let same : e' ≡ e = some-injective e' e (sym found ∙ there) in
            let ctx = egress_context v name (opted id e' opts.opt_in) in
            let into = λ (g : String) (h : Memᴰ g e.sensitive_fields).
              egress_masks ctx [] d g e'.sensitive_fields made refl allowed refl
                (subst (λ (x : CatalogEntry). Memᴰ g x.sensitive_fields) (sym same) h) in
            let duties = keep is_mask d.obligations in
            let from = λ (g : String) (h : Memᴰ g (masked_paths duties)).
              subst (λ (x : CatalogEntry). Memᴰ g x.sensitive_fields) same
                (masked_from ctx d e'.sensitive_fields made refl allowed refl g h) in
            let (cipher, value, w, has_key, parsed, ran, printed) =
              payload_masked v key content text d.obligations f (into f m) p in
            let (w', ran', hides, keeps) =
              apply_mask_lem cipher (faithful cipher has_key) value (masked_paths duties) (
                every-IsUsable value (masked_paths duties)
                  (λ g h. usable content e'' value g got parsed (from g h))) in
            let one : w' ≡ w = some-injective w' w (sym ran' ∙ ran) in
            let onto = λ (g : String) (h : Memᴰ g e.sensitive_fields).
              mem-masked_paths duties g
                (mem-keep_mask d.obligations (mask g) (into g h) (is_mask-mask g)) in
            (
              cipher,
              content,
              e'',
              value,
              w',
              has_key,
              got,
              parsed,
              λ q h. hides q (covers-more e.sensitive_fields (masked_paths duties) q onto h),
              λ q h. keeps q (elim (Bool-cases (covers (masked_paths duties) q)) [
                | inl hit ↦
                    absurd (cc (covers-more (masked_paths duties) e.sensitive_fields q from hit))
                | inr miss ↦ miss
              ]),
              adds
                  ∙ ap (λ (x : String). c.sent ++ upload_file name x e'.mime ∷ [])
                      (printed ∙ ap v.print_json (sym one))
                  ∙ ap
                      (λ (x : CatalogEntry).
                        c.sent ++ upload_file name (v.print_json w') x.mime ∷ [])
                      same,
            )
      ]
