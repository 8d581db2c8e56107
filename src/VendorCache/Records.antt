-- ===== src/VendorCache/Records.antt =====
-- ts/src/vendor-cache.ts: what the Governor has to say on an upload.
use hellgraph.Base.{
  ℕ, String, Option, none, some, List, [], ◌≡◌, refl, sym, ◌∙◌, inl, inr, Bool-cases,
}
use hellgraph.Dict
use hellgraph.Base.Sets.{has}
use hellgraph.Lifecycle.{Trigger}
use hellgraph.Policy.Context.{GovernedObject}
use hellgraph.Policy.Decisions.{Decision, decide}
use hellgraph.Governor.{Governor, transition}
use hellgraph.ObjectStore.{Bytes, ObjectBackend, CatalogEntry, Result, ok, err}
use hellgraph.ObjectStore.Calls.{get}
use hellgraph.Masking.{Cipher}
use hellgraph.VendorCache.{
  Vendors, MaterializeOptions, Payload, cannot_mask, failed, send, upload_file, opted, payload_for,
  egress_context,
}
use hellgraph.VendorCache.Egress.{Effect-cases}
use hellgraph.VendorCache.Calls.{
  Cache, push, record_handle, sending, uploaded, upload, push_content, push_decided, push_entry,
}

module _ (b : Bytes) (backend : ObjectBackend b.Buffer) (v : Vendors) (key : Option Cipher)
    (c : Cache b backend v key) (id name : String) (t : Trigger) (opts : MaterializeOptions)
    (clock : ℕ) where
  abbrev pub with_governor : Governor → Cache b backend v key
  with_governor g = record c { governor = g }

  record_handle-sent :
      (x : Cache b backend v key) (file : String) (m : Option (GovernedObject × Governor))
      → (record_handle b backend v key x id name opts clock file m).1.sent ≡ x.sent
  record_handle-sent x file none = refl
  record_handle-sent x file (some (o, g)) = refl

  uploaded-sent :
      (x : Cache b backend v key) (o : GovernedObject) (answer : Option String)
      → (uploaded b backend v key x id name o t opts clock answer).1.sent ≡ x.sent
  uploaded-sent x o none = refl
  uploaded-sent x o (some file) = record_handle-sent x file (transition x.governor o t clock)

  upload-governor :
      (g : Governor) (o : GovernedObject) (mime : String) (p : Payload)
      → (upload b backend v key (with_governor g) id name o t opts clock mime p).1.sent
        ≡ (upload b backend v key c id name o t opts clock mime p).1.sent
  upload-governor g o mime cannot_mask = refl
  upload-governor g o mime failed = refl
  upload-governor g o mime (send text) =
      let r = upload_file name text mime in
      let answer = v.answer c.sent r in
      uploaded-sent (sending b backend v key (with_governor g) r) o answer
      ∙ sym (uploaded-sent (sending b backend v key c r) o answer)

  content-governor :
      (g : Governor) (o : GovernedObject) (mime : String) (duties : List String)
      (got : Result (Option (String × CatalogEntry)))
      → (push_content b backend v key
          (with_governor g)
          id
          name
          o
          t
          opts
          clock
          mime
          duties
          got).1.sent
        ≡ (push_content b backend v key c id name o t opts clock mime duties got).1.sent
  content-governor g o mime duties (err e) = refl
  content-governor g o mime duties (ok none) = refl
  content-governor g o mime duties (ok (some (content, e))) =
      upload-governor g o mime (payload_for v key content duties)

  decided-governor :
      (g : Governor) (o : GovernedObject) (mime : String) (d : Option Decision)
      → (push_decided b backend v key (with_governor g) id name o t opts clock mime d).1.sent
        ≡ (push_decided b backend v key c id name o t opts clock mime d).1.sent
  decided-governor g o mime none = refl
  decided-governor g o mime (some d) = elim (Effect-cases b backend v key d.effect) [
    | inl allowed ↦
        rw (allowed, push_decided)
          (content-governor g o mime d.obligations (get b backend c.store id))
    | inr denied ↦ rw (denied, push_decided) refl
  ]

  entry-governor :
      (g : Governor) (found : Option CatalogEntry)
      → (push_entry b backend v key (with_governor g) id name t opts clock found).1.sent
        ≡ (push_entry b backend v key c id name t opts clock found).1.sent
  entry-governor g none = refl
  entry-governor g (some e) = elim (Bool-cases (has v.clients name)) [
    | inl known ↦ rw known (
        decided-governor g (opted id e opts.opt_in) e.mime
          (decide (egress_context v name (opted id e opts.opt_in)) []))
    | inr unknown ↦ rw unknown refl
  ]

  -- What a push sends does not depend on the Governor: under any other policy and audit log the
  -- same uploads are sent, those included that the policy blocks.
  pub push-governor :
      (g : Governor)
      → (push b backend v key (with_governor g) id name t opts clock).1.sent
        ≡ (push b backend v key c id name t opts clock).1.sent
  unfolding push
  push-governor g = entry-governor g (Dict.get c.store.catalog id)
