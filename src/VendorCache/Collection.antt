-- ===== src/VendorCache/Collection.antt =====
-- ts/src/vendor-cache.ts: which handles the garbage collection drops.
use hellgraph.Base.{
  ℕ, ◌+◌, String, true, Option, none, some, List, [], ◌∷◌, ◌≡◌, refl, ap, ◌∙◌, arith, ltb, All,
  Bool-cases, Option-cases, inl, inr, if◌then◌else◌, ◌==◌,
}
use hellgraph.Base.Sets.{has}
use hellgraph.Dict
use hellgraph.Dict.{Dict, IsUnique}
use hellgraph.Policy.Context.{GovernedObject}
use hellgraph.Lifecycle.{ContentState, ttl_gc, can_transition, is_delete_trigger}
use hellgraph.Lifecycle.Graph.{can_transition_iff}
use hellgraph.Governor.{Governor, transition, apply_gated, is_vendor_trigger}
use hellgraph.ObjectStore.{Bytes, ObjectBackend, CatalogEntry, CanonicalObjectStore}
use hellgraph.ObjectStore.Calls.{set_state}
use hellgraph.Masking.{Cipher}
use hellgraph.VendorCache.{Vendors, VendorHandle, Request, opted, delete_file}
use hellgraph.VendorCache.Calls.{Cache, expire, transition_entry, dropped, collect_one, gc, sending}
use hellgraph.VendorCache.Rounds.{
  live, left_of, run, after_one, run-done, run-skip, run-next, run_handles,
}

module _ (b : Bytes) (backend : ObjectBackend b.Buffer) (v : Vendors) (key : Option Cipher) where
  module _ (now clock : ℕ) where
    -- The object of each handle is in the catalog.
    abbrev pub IsCataloged : Dict CatalogEntry → Dict VendorHandle → Type 0
    IsCataloged catalog hs =
        All
          (λ (p : String × VendorHandle).
            (e : CatalogEntry) × (Dict.get catalog p.1.object_id ≡ some e))
          hs

    ttl_transition :
        (g : Governor) (id : String) (e : CatalogEntry)
        → (o : GovernedObject × Governor) × (transition_entry b backend v key g id clock (some e)
            ≡ some o)
    unfolding transition apply_gated is_delete_trigger is_vendor_trigger
    ttl_transition g id e =
        elim (Option-cases (transition_entry b backend v key g id clock (some e))) [
          | inr made ↦ made
          | inl thrown ↦ elim (Bool-cases (can_transition (opted id e true).object ttl_gc)) [
            | inr stays ↦ absurd (ground arith)
            | inl fits ↦
                let (s, at) = (can_transition_iff (opted id e true).object ttl_gc).0 fits in
                absurd (ground arith)
          ]
        ]

    abbrev Present : Cache b backend v key → String → Type 0
    Present c id = (e : CatalogEntry) × (Dict.get c.store.catalog id ≡ some e)

    state_kept :
        (s : CanonicalObjectStore backend.Blobs) (id : String) (state : ContentState) (j : String)
        → (e : CatalogEntry) × (Dict.get s.catalog j ≡ some e)
        → (e : CatalogEntry) × (Dict.get (set_state b backend s id state).catalog j ≡ some e)
    unfolding set_state
    state_kept s id state j (e, there) = elim (Option-cases (Dict.get s.catalog id)) [
      | inl absent ↦ (e, rw (set_state, absent) there)
      | inr (d, at) ↦
          let new = record d { state = state } in
          let e' = if id == j then new else e in
          (
            e',
            rw (set_state, at)
                (Dict.get-put s.catalog id new j ∙ elim (Bool-cases (id == j)) [
                  | inl same ↦ rw same refl
                  | inr other ↦ rw other there
                ]),
          )
    ]

    expire_kept :
        (c : Cache b backend v key) (h : VendorHandle) (e : Option CatalogEntry)
        (o : Option (GovernedObject × Governor)) (id : String)
        → Present c id
        → Present (expire b backend v key c h e o).1 id
    expire_kept c h none o id there = there
    expire_kept c h (some e) none id there = there
    expire_kept c h (some e) (some (o, g)) id there =
        state_kept c.store h.object_id o.state id there

    dropped_kept :
        (c : Cache b backend v key) (k : String) (h : VendorHandle) (a : Option String)
        (id : String)
        → Present c id
        → Present (dropped b backend v key c k h clock a).1 id
    dropped_kept c k h none id there = there
    dropped_kept c k h (some x) id there =
        expire_kept (record c { handles = Dict.delete c.handles k }) h _ _ id there

    kept :
        (c : Cache b backend v key) (j : String) (h : VendorHandle) (id : String)
        → Present c id
        → Present (after_one b backend v key now clock c j h).1 id
    unfolding after_one collect_one
    kept c j h id there = elim (Bool-cases (has v.clients h.vendor_name)) [
      | inl known ↦ rw known (dropped_kept (sending b backend v key c _) j h _ id there)
      | inr unknown ↦ rw unknown (dropped_kept c j h (some "") id there)
    ]

    module _
        (answers : (sent : List Request) (r : Request)
          → (s : String) × (v.answer sent r ≡ some s)) where
      dropped_goes :
          (c : Cache b backend v key) (k : String) (h : VendorHandle) (a : Option String)
          {x : String} {e : CatalogEntry}
          → a ≡ some x
          → Dict.get c.store.catalog h.object_id ≡ some e
          → (dropped b backend v key c k h clock a).0 ≡ true
      dropped_goes c k h a {x} {e} given there =
          let c' = record c { handles = Dict.delete c.handles k } in
          let (o, moved) = ttl_transition c.governor h.object_id e in
          ap (λ (y : Option String). (dropped b backend v key c k h clock y).0) given
          ∙ ap
              (λ (y : Option CatalogEntry).
                (expire b backend v key c' h y
                  (transition_entry b backend v key c.governor h.object_id clock y)).0)
              there
          ∙ ap
              (λ (y : Option (GovernedObject × Governor)).
                (expire b backend v key c' h (some e) y).0)
              moved

      one_goes :
          (c : Cache b backend v key) (j : String) (h : VendorHandle)
          → (e : CatalogEntry) × (Dict.get c.store.catalog h.object_id ≡ some e)
          → (after_one b backend v key now clock c j h).0 ≡ true
      unfolding after_one collect_one
      one_goes c j h (e, there) = elim (Bool-cases (has v.clients h.vendor_name)) [
        | inl known ↦
            let r = delete_file h.vendor_name h.file_id in
            rw known (
              dropped_goes (sending b backend v key c r) j h (v.answer c.sent r)
                (answers c.sent r).1 there)
        | inr unknown ↦ rw unknown (dropped_goes c j h (some "") refl there)
      ]

      still_there :
          (c : Cache b backend v key) (j : String) (h : VendorHandle) (hs : Dict VendorHandle)
          → (after_one b backend v key now clock c j h).0 ≡ true
          → IsCataloged c.store.catalog hs
          → IsCataloged (after_one b backend v key now clock c j h).1.store.catalog hs
      still_there c j h [] goes there = tt
      still_there c j h ((k, g) ∷ hs) goes there =
          (kept c j h g.object_id there.0, still_there c j h hs goes there.1)

      run_returns :
          (hs : Dict VendorHandle) (c : Cache b backend v key) (n : ℕ)
          → IsCataloged c.store.catalog hs
          → (count : ℕ) × ((run b backend v key now clock c n hs).0 ≡ some count)
      run_returns [] c n there = (n, run-done b backend v key now clock c n)
      run_returns ((j, h) ∷ hs) c n there = elim (Bool-cases (ltb now h.ttl_at)) [
        | inl alive ↦
            let (count, e) = run_returns hs c n there.1 in
            (
              count,
              ap (λ (x : Option ℕ × Cache b backend v key). x.0)
                    (run-skip b backend v key now clock c n j h hs alive)
                  ∙ e,
            )
        | inr old ↦
            let goes = one_goes c j h there.0 in
            let (count, e) =
              run_returns hs (after_one b backend v key now clock c j h).1 (n + 1)
                (still_there c j h hs goes there.1) in
            (
              count,
              ap (λ (x : Option ℕ × Cache b backend v key). x.0)
                    (run-next b backend v key now clock c n j h hs old goes)
                  ∙ e,
            )
      ]

    left_live : (o : Option VendorHandle) → left_of now o o ≡ live now o
    left_live none = refl
    left_live (some h) = refl

    -- The garbage collection ends without an error and drops exactly the handles that have expired,
    -- when the vendors answer, no key has two handles, and the object of each handle is in the
    -- catalog.
    pub gc_lem :
        (c : Cache b backend v key)
        → ((sent : List Request) (r : Request) → (s : String) × (v.answer sent r ≡ some s))
        → IsUnique c.handles
        → IsCataloged c.store.catalog c.handles
        → (count : ℕ) × ((gc b backend v key c now clock).0 ≡ some count)
          × ((k : String)
              → Dict.get (gc b backend v key c now clock).1.handles k
                ≡ live now (Dict.get c.handles k))
    unfolding gc run
    gc_lem c answers u cataloged =
        let (count, e) = run_returns answers c.handles c 0 cataloged in
        (
          count,
          e,
          λ k.
              run_handles b backend v key now clock c.handles c 0 count k u u e
              ∙ left_live (Dict.get c.handles k),
        )
