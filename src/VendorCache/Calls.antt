-- ===== src/VendorCache/Calls.antt =====
-- The methods of `VendorCacheManager` (ts/src/vendor-cache.ts): a push in its stages, and the garbage
-- collection.
use hellgraph.Base.{
  ℕ, ◌+◌, String, Bool, true, false, Option, none, some, List, [], ◌∷◌, ◌++◌, ltb, if◌then◌else◌,
}
use hellgraph.Base.Sets.{has}
use hellgraph.Dict
use hellgraph.Dict.{Dict}
use hellgraph.Lifecycle.{Trigger, vendor_materialize, rematerialize, ttl_gc}
use hellgraph.Policy.Context.{GovernedObject}
use hellgraph.Policy.Decisions.{Decision, allow, deny, decide}
use hellgraph.Governor.{Governor, transition}
use hellgraph.ObjectStore.{Bytes, ObjectBackend, CatalogEntry, Result, ok, err}
use hellgraph.ObjectStore.Calls.{get, set_state}
use hellgraph.Masking.{Cipher}
use hellgraph.VendorCache.{
  VendorHandle, Request, Vendors, MaterializeOptions, MaterializeResult, VendorCacheManager, key_of,
  opted, egress_context, or_now, Payload, payload_for, upload_file, delete_file, not_in_catalog,
  no_client, bytes_missing, not_json, egress_denied, materialized, refused, threw, send,
  cannot_mask, failed,
}

module _ (b : Bytes) (backend : ObjectBackend b.Buffer) (v : Vendors) (key : Option Cipher) where
  open backend use {Blobs}

  abbrev pub Cache : Type 0
  Cache = VendorCacheManager Blobs

  -- After an upload: the transition, which may throw, the state and the handle.
  abbrev pub record_handle :
      Cache
      → String
      → String
      → MaterializeOptions
      → ℕ
      → String
      → Option (GovernedObject × Governor)
      → MaterializeResult × Cache
  record_handle c id vendor_name opts clock file_id none = (threw, c)
  record_handle c id vendor_name opts clock file_id (some (o, g)) =
      let now = or_now opts.now clock in
      let handle : VendorHandle = record {
        object_id = id;
        vendor_name = vendor_name;
        file_id = file_id;
        materialized_at = now;
        ttl_at = now + opts.ttl_ms;
      } in
      (
        materialized handle,
        record c {
          store = set_state b backend c.store id o.state;
          governor = g;
          handles = Dict.put c.handles (key_of id vendor_name) handle;
        },
      )

  abbrev pub sending : Cache → Request → Cache
  sending c r = record c { sent = c.sent ++ r ∷ [] }

  abbrev pub uploaded :
      Cache
      → String
      → String
      → GovernedObject
      → Trigger
      → MaterializeOptions
      → ℕ
      → Option String
      → MaterializeResult × Cache
  uploaded c id vendor_name o t opts clock none = (threw, c)
  uploaded c id vendor_name o t opts clock (some file_id) =
      record_handle c id vendor_name opts clock file_id (transition c.governor o t clock)

  abbrev pub upload :
      Cache
      → String
      → String
      → GovernedObject
      → Trigger
      → MaterializeOptions
      → ℕ
      → String
      → Payload
      → MaterializeResult × Cache
  upload c id vendor_name o t opts clock mime cannot_mask = (refused not_json, c)
  upload c id vendor_name o t opts clock mime failed = (threw, c)
  upload c id vendor_name o t opts clock mime (send text) =
      let r = upload_file vendor_name text mime in
      uploaded (sending c r) id vendor_name o t opts clock (v.answer c.sent r)

  abbrev pub push_content :
      Cache
      → String
      → String
      → GovernedObject
      → Trigger
      → MaterializeOptions
      → ℕ
      → String
      → List String
      → Result (Option (String × CatalogEntry))
      → MaterializeResult × Cache
  push_content c id vendor_name o t opts clock mime duties (err e) = (threw, c)
  push_content c id vendor_name o t opts clock mime duties (ok none) = (refused bytes_missing, c)
  push_content c id vendor_name o t opts clock mime duties (ok (some (content, e))) =
      upload c id vendor_name o t opts clock mime (payload_for v key content duties)

  abbrev pub push_decided :
      Cache
      → String
      → String
      → GovernedObject
      → Trigger
      → MaterializeOptions
      → ℕ
      → String
      → Option Decision
      → MaterializeResult × Cache
  push_decided c id vendor_name o t opts clock mime none = (threw, c)
  push_decided c id vendor_name o t opts clock mime (some d) = elim d.effect [
    | deny ↦ (refused (egress_denied d.reason), c)
    | allow ↦
        push_content c id vendor_name o t opts clock mime d.obligations (get b backend c.store id)
  ]

  abbrev pub push_entry :
      Cache
      → String
      → String
      → Trigger
      → MaterializeOptions
      → ℕ
      → Option CatalogEntry
      → MaterializeResult × Cache
  push_entry c id vendor_name t opts clock none = (refused not_in_catalog, c)
  push_entry c id vendor_name t opts clock (some e) =
      if has v.clients vendor_name
      then push_decided c id vendor_name (opted id e opts.opt_in) t opts clock e.mime
          (decide (egress_context v vendor_name (opted id e opts.opt_in)) [])
      else (refused no_client, c)

  unfoldable pub push :
      Cache → String → String → Trigger → MaterializeOptions → ℕ → MaterializeResult × Cache
  push c id vendor_name t opts clock =
      push_entry c id vendor_name t opts clock (Dict.get c.store.catalog id)

  abbrev pub materialize :
      Cache → String → String → MaterializeOptions → ℕ → MaterializeResult × Cache
  materialize c id vendor_name opts clock = push c id vendor_name vendor_materialize opts clock

  abbrev pub rematerialize_at :
      Cache → String → String → MaterializeOptions → ℕ → MaterializeResult × Cache
  rematerialize_at c id vendor_name opts clock = push c id vendor_name rematerialize opts clock

  unfoldable pub handle : Cache → String → String → Option VendorHandle
  handle c id vendor_name = Dict.get c.handles (key_of id vendor_name)

  -- `gc` on one handle that has expired: the deletion, which may fail, then the transition, which may
  -- throw. What was done before an error stays done; the flag tells whether the loop goes on.
  abbrev pub expire :
      Cache → VendorHandle → Option CatalogEntry → Option (GovernedObject × Governor) → Bool × Cache
  expire c h none moved = (false, c)
  expire c h (some e) none = (false, c)
  expire c h (some e) (some (o, g)) =
      (true, record c { store = set_state b backend c.store h.object_id o.state; governor = g })

  abbrev pub transition_entry :
      Governor → String → ℕ → Option CatalogEntry → Option (GovernedObject × Governor)
  transition_entry g id clock none = none
  transition_entry g id clock (some e) = transition g (opted id e true) ttl_gc clock

  abbrev pub dropped : Cache → String → VendorHandle → ℕ → Option String → Bool × Cache
  dropped c k h clock none = (false, c)
  dropped c k h clock (some _) =
      let c' = record c { handles = Dict.delete c.handles k } in
      expire c' h (Dict.get c.store.catalog h.object_id)
        (transition_entry c.governor h.object_id clock (Dict.get c.store.catalog h.object_id))

  -- `clients[vendor]?.deleteFile(fileId)`
  unfoldable pub collect_one : Cache → String → VendorHandle → ℕ → Bool × Cache
  collect_one c k h clock =
      let r = delete_file h.vendor_name h.file_id in
      if has v.clients h.vendor_name
      then dropped (sending c r) k h clock (v.answer c.sent r)
      else dropped c k h clock (some "")

  -- The loop of `gc` over the handles that were there at its start, with the count so far; `none` is an
  -- error.
  unfoldable pub collect_all : Cache → ℕ → ℕ → ℕ → List (String × VendorHandle) → Option ℕ × Cache
  collect_all c now clock n [] = (some n, c)
  collect_all c now clock n ((k, h) ∷ hs) =
      let skipped = collect_all c now clock n hs in
      let (goes_on, c') = collect_one c k h clock in
      let next = collect_all c' now clock (n + 1) hs in
      if ltb now h.ttl_at then skipped else (if goes_on then next else (none, c'))

  unfoldable pub gc : Cache → ℕ → ℕ → Option ℕ × Cache
  gc c now clock = collect_all c now clock 0 c.handles
