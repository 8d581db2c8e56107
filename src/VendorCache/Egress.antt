-- ===== src/VendorCache/Egress.antt =====
-- ts/src/vendor-cache.ts: what leaves for a vendor, and under which conditions.
use hellgraph.Base.{
  ℕ, String, true, Option, none, some, List, [], ◌∷◌, ◌++◌, ◌≡◌, refl, Bool-cases, Option-cases,
  inl, inr, ◌⊎◌,
}
use hellgraph.Base.Sets.{has}
use hellgraph.Dict
use hellgraph.Lifecycle.{Trigger}
use hellgraph.Policy.Context.{GovernedObject}
use hellgraph.Policy.Decisions.{Decision, Effect, allow, deny, decide}
use hellgraph.Governor.{Governor, transition}
use hellgraph.ObjectStore.{Bytes, ObjectBackend, CatalogEntry, Result, ok, err}
use hellgraph.ObjectStore.Calls.{get}
use hellgraph.Masking.{Cipher}
use hellgraph.VendorCache.{
  Vendors, MaterializeOptions, Payload, send, cannot_mask, failed, upload_file, opted,
  egress_context, payload_for,
}
use hellgraph.VendorCache.Calls.{
  Cache, record_handle, uploaded, upload, push_content, push_decided, push,
}

module _ (b : Bytes) (backend : ObjectBackend b.Buffer) (v : Vendors) (key : Option Cipher) where
  record_sent :
      (c : Cache b backend v key) (id name : String) (opts : MaterializeOptions) (clock : ℕ)
      (file : String) (o : Option (GovernedObject × Governor))
      → (record_handle b backend v key c id name opts clock file o).1.sent ≡ c.sent
  record_sent c id name opts clock file none = refl
  record_sent c id name opts clock file (some (o, g)) = refl

  uploaded_sent :
      (c : Cache b backend v key) (id name : String) (o : GovernedObject) (t : Trigger)
      (opts : MaterializeOptions) (clock : ℕ) (file : Option String)
      → (uploaded b backend v key c id name o t opts clock file).1.sent ≡ c.sent
  uploaded_sent c id name o t opts clock none = refl
  uploaded_sent c id name o t opts clock (some file) =
      record_sent c id name opts clock file (transition c.governor o t clock)

  -- One upload was added to what was sent.
  abbrev pub Adds :
      Cache b backend v key → Cache b backend v key → String → String → String → Type 0
  Adds c c' name text mime = c'.sent ≡ c.sent ++ upload_file name text mime ∷ []

  upload_sent :
      (c : Cache b backend v key) (id name : String) (o : GovernedObject) (t : Trigger)
      (opts : MaterializeOptions) (clock : ℕ) (mime : String) (p : Payload)
      → ((upload b backend v key c id name o t opts clock mime p).1.sent ≡ c.sent)
        ⊎ ((text : String) × (p ≡ send text)
            × Adds c (upload b backend v key c id name o t opts clock mime p).1 name text mime)
  upload_sent c id name o t opts clock mime cannot_mask = inl refl
  upload_sent c id name o t opts clock mime failed = inl refl
  upload_sent c id name o t opts clock mime (send text) =
      inr (text, refl, uploaded_sent _ id name o t opts clock _)

  content_sent :
      (c : Cache b backend v key) (id name : String) (o : GovernedObject) (t : Trigger)
      (opts : MaterializeOptions) (clock : ℕ) (mime : String) (duties : List String)
      (got : Result (Option (String × CatalogEntry)))
      → let c' = (push_content b backend v key c id name o t opts clock mime duties got).1 in
        (c'.sent ≡ c.sent)
        ⊎ ((content : String) × (text : String) × (e : CatalogEntry) × (got
              ≡ ok (some (content, e)))
            × (payload_for v key content duties ≡ send text)
            × Adds c c' name text mime)
  content_sent c id name o t opts clock mime duties (err e) = inl refl
  content_sent c id name o t opts clock mime duties (ok none) = inl refl
  content_sent c id name o t opts clock mime duties (ok (some (content, e))) =
      elim (upload_sent c id name o t opts clock mime (payload_for v key content duties)) [
        | inl same ↦ inl same
        | inr (text, p, adds) ↦ inr (content, text, e, refl, p, adds)
      ]

  pub Effect-cases : (x : Effect) → (x ≡ allow) ⊎ (x ≡ deny)
  Effect-cases allow = inl refl
  Effect-cases deny = inr refl

  decided_sent :
      (c : Cache b backend v key) (id name : String) (o : GovernedObject) (t : Trigger)
      (opts : MaterializeOptions) (clock : ℕ) (mime : String) (d : Option Decision)
      → let c' = (push_decided b backend v key c id name o t opts clock mime d).1 in
        (c'.sent ≡ c.sent)
        ⊎ ((decision : Decision) × (content : String) × (text : String) × (e : CatalogEntry) × (d
              ≡ some decision)
            × (decision.effect ≡ allow)
            × (get b backend c.store id ≡ ok (some (content, e)))
            × (payload_for v key content decision.obligations ≡ send text)
            × Adds c c' name text mime)
  decided_sent c id name o t opts clock mime none = inl refl
  decided_sent c id name o t opts clock mime (some d) =
      elim (content_sent c id name o t opts clock mime d.obligations (get b backend c.store id)) [
        | inl same ↦ elim (Effect-cases d.effect) [
          | inl allowed ↦ inl (rw (allowed, push_decided) same)
          | inr denied ↦ inl (rw (denied, push_decided) refl)
        ]
        | inr (content, text, e, got, p, adds) ↦ elim (Effect-cases d.effect) [
          | inl allowed ↦
              inr (d, content, text, e, refl, allowed, got, p, rw (allowed, push_decided) adds)
          | inr denied ↦ inl (rw (denied, push_decided) refl)
        ]
      ]

  -- A push sends nothing, or one upload after its checks.
  pub push_sent :
      (c : Cache b backend v key) (id name : String) (t : Trigger) (opts : MaterializeOptions)
      (clock : ℕ)
      → let c' = (push b backend v key c id name t opts clock).1 in
        (c'.sent ≡ c.sent)
        ⊎ ((e : CatalogEntry) × (decision : Decision) × (content : String) × (text : String)
            × (Dict.get c.store.catalog id ≡ some e)
            × (has v.clients name ≡ true)
            × (decide (egress_context v name (opted id e opts.opt_in)) [] ≡ some decision)
            × (decision.effect ≡ allow)
            × ((e' : CatalogEntry) × (get b backend c.store id ≡ ok (some (content, e'))))
            × (payload_for v key content decision.obligations ≡ send text)
            × Adds c c' name text e.mime)
  unfolding push
  push_sent c id name t opts clock = elim (Option-cases (Dict.get c.store.catalog id)) [
    | inl absent ↦ inl (rw (absent) refl)
    | inr (e, there) ↦ elim (Bool-cases (has v.clients name)) [
      | inr unknown ↦ inl (rw (there, unknown) refl)
      | inl known ↦
          elim (decided_sent c id name (opted id e opts.opt_in) t opts clock e.mime
            (decide (egress_context v name (opted id e opts.opt_in)) [])) [
              | inl same ↦ inl (rw (there, known) same)
              | inr (d, content, text, e', made, allowed, got, p, adds) ↦ inr (
                e,
                d,
                content,
                text,
                there,
                known,
                made,
                allowed,
                (e', got),
                p,
                rw (there, known) adds,
              )
            ]
    ]
  ]
