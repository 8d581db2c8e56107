-- ===== src/VendorCache/Rounds.antt =====
-- ts/src/vendor-cache.ts: the loop of the garbage collection, and the handles that it leaves.
use mathlib.Core.Option.{none-ne-some}
use hellgraph.Base.{
  ℕ, ◌+◌, String, Bool, true, false, Option, none, some, [], ◌∷◌, ◌≡◌, refl, sym, ap, ◌∙◌, subst,
  ltb, Bool-cases, inl, inr, if◌then◌else◌, ◌==◌, ==_iff,
}
use hellgraph.Base.Sets.{has}
use hellgraph.Dict
use hellgraph.Dict.{Dict, IsUnique}
use hellgraph.Policy.Context.{GovernedObject}
use hellgraph.Governor.{Governor}
use hellgraph.ObjectStore.{Bytes, ObjectBackend, CatalogEntry}
use hellgraph.Masking.{Cipher}
use hellgraph.VendorCache.{Vendors, VendorHandle, delete_file}
use hellgraph.VendorCache.Calls.{Cache, expire, dropped, collect_one, collect_all, sending}

-- A handle that has not expired.
abbrev pub live : ℕ → Option VendorHandle → Option VendorHandle
live now none = none
live now (some h) = if ltb now h.ttl_at then some h else none

-- What is left under a key of what stood there, by the handle that the loop finds for it.
abbrev pub left_of : ℕ → Option VendorHandle → Option VendorHandle → Option VendorHandle
left_of now none there = there
left_of now (some h) there = if ltb now h.ttl_at then there else none

module _ (b : Bytes) (backend : ObjectBackend b.Buffer) (v : Vendors) (key : Option Cipher) where
  expire_handles :
      (c : Cache b backend v key) (h : VendorHandle) (e : Option CatalogEntry)
      (o : Option (GovernedObject × Governor))
      → (expire b backend v key c h e o).1.handles ≡ c.handles
  expire_handles c h none o = refl
  expire_handles c h (some e) none = refl
  expire_handles c h (some e) (some (o, g)) = refl

  dropped_handles :
      (c : Cache b backend v key) (k : String) (h : VendorHandle) (clock : ℕ) (a : Option String)
      → (dropped b backend v key c k h clock a).0 ≡ true
      → (dropped b backend v key c k h clock a).1.handles ≡ Dict.delete c.handles k
  dropped_handles c k h clock none e = cc
  dropped_handles c k h clock (some x) e = expire_handles _ h _ _

  collect_one_handles :
      (c : Cache b backend v key) (k : String) (h : VendorHandle) (clock : ℕ)
      → (collect_one b backend v key c k h clock).0 ≡ true
      → (collect_one b backend v key c k h clock).1.handles ≡ Dict.delete c.handles k
  unfolding collect_one
  collect_one_handles c k h clock e = elim (Bool-cases (has v.clients h.vendor_name)) [
    | inl known ↦
        let r = delete_file h.vendor_name h.file_id in
        rw known (
          dropped_handles (sending b backend v key c r) k h clock (v.answer c.sent r)
            (rw known at e))
    | inr unknown ↦ rw unknown (dropped_handles c k h clock (some "") (rw unknown at e))
  ]

  module _ (now clock : ℕ) where
    unfoldable pub run :
        Cache b backend v key → ℕ → Dict VendorHandle → Option ℕ × Cache b backend v key
    run c n hs = collect_all b backend v key c now clock n hs

    unfoldable pub after_one :
        Cache b backend v key → String → VendorHandle → Bool × Cache b backend v key
    after_one c j h = collect_one b backend v key c j h clock

    one_handles :
        (c : Cache b backend v key) (j : String) (h : VendorHandle)
        → (after_one c j h).0 ≡ true
        → (after_one c j h).1.handles ≡ Dict.delete c.handles j
    unfolding after_one
    one_handles c j h goes = collect_one_handles c j h clock goes

    pub run-nil : (c : Cache b backend v key) (n : ℕ) → (run c n []).1 ≡ c
    unfolding run collect_all
    run-nil c n = refl

    pub run-done : (c : Cache b backend v key) (n : ℕ) → (run c n []).0 ≡ some n
    unfolding run collect_all
    run-done c n = refl

    pub run-skip :
        (c : Cache b backend v key) (n : ℕ) (j : String) (h : VendorHandle) (hs : Dict VendorHandle)
        → ltb now h.ttl_at ≡ true
        → run c n ((j, h) ∷ hs) ≡ run c n hs
    unfolding run collect_all
    run-skip c n j h hs e = rw e refl

    pub run-next :
        (c : Cache b backend v key) (n : ℕ) (j : String) (h : VendorHandle) (hs : Dict VendorHandle)
        → ltb now h.ttl_at ≡ false
        → (after_one c j h).0 ≡ true
        → run c n ((j, h) ∷ hs) ≡ run (after_one c j h).1 (n + 1) hs
    unfolding run after_one collect_all
    run-next c n j h hs e goes = rw (e, goes) refl

    run-stop :
        (c : Cache b backend v key) (n : ℕ) (j : String) (h : VendorHandle) (hs : Dict VendorHandle)
        → ltb now h.ttl_at ≡ false
        → (after_one c j h).0 ≡ false
        → (run c n ((j, h) ∷ hs)).0 ≡ none
    unfolding run after_one collect_all
    run-stop c n j h hs e stops = rw (e, stops) refl

    -- What a run leaves, from what the rest of it leaves.
    alive_left :
        (h : VendorHandle) (j k : String) (rest there : Option VendorHandle)
        → ltb now h.ttl_at ≡ true
        → (j ≡ k → rest ≡ none)
        → left_of now rest there ≡ left_of now (if j == k then some h else rest) there
    alive_left h j k rest there alive absent = elim (Bool-cases (j == k)) [
      | inl e ↦ rw (e, absent ((==_iff j k).0 e), alive) refl
      | inr e ↦ rw e refl
    ]

    old_left :
        (h : VendorHandle) (j k : String) (rest there : Option VendorHandle)
        → ltb now h.ttl_at ≡ false
        → (j ≡ k → rest ≡ none)
        → left_of now rest (if j == k then none else there)
          ≡ left_of now (if j == k then some h else rest) there
    old_left h j k rest there old absent = elim (Bool-cases (j == k)) [
      | inl e ↦ rw (e, absent ((==_iff j k).0 e), old) refl
      | inr e ↦ rw e refl
    ]

    pub run_handles :
        (hs : Dict VendorHandle) (c : Cache b backend v key) (n count : ℕ) (k : String)
        → IsUnique hs
        → IsUnique c.handles
        → (run c n hs).0 ≡ some count
        → Dict.get (run c n hs).1.handles k ≡ left_of now (Dict.get hs k) (Dict.get c.handles k)
    unfolding Dict.get
    run_handles [] c n count k u w e =
        ap (λ (x : Cache b backend v key). Dict.get x.handles k) (run-nil c n)
    run_handles ((j, h) ∷ hs) c n count k u w e =
        let absent = λ (same : j ≡ k). subst (λ (x : String). Dict.get hs x ≡ none) same u.0 in
        elim (Bool-cases (ltb now h.ttl_at)) [
          | inl alive ↦
              let step = run-skip c n j h hs alive in
              ap (λ (x : Option ℕ × Cache b backend v key). Dict.get x.1.handles k) step
              ∙ run_handles hs c n count k u.1 w
                  (sym (ap (λ (x : Option ℕ × Cache b backend v key). x.0) step) ∙ e)
              ∙ alive_left h j k (Dict.get hs k) (Dict.get c.handles k) alive absent
          | inr old ↦ elim (Bool-cases (after_one c j h).0) [
            | inr broke ↦ absurd (none-ne-some count (sym (run-stop c n j h hs old broke) ∙ e))
            | inl goes ↦
                let step = run-next c n j h hs old goes in
                let c' = (after_one c j h).1 in
                let gone : c'.handles ≡ Dict.delete c.handles j = one_handles c j h goes in
                ap (λ (x : Option ℕ × Cache b backend v key). Dict.get x.1.handles k) step
                ∙ run_handles hs c' (n + 1) count k u.1
                    (subst IsUnique (sym gone) (Dict.delete-IsUnique c.handles j w))
                    (sym (ap (λ (x : Option ℕ × Cache b backend v key). x.0) step) ∙ e)
                ∙ ap (left_of now (Dict.get hs k)) (
                    ap (λ (m : Dict VendorHandle). Dict.get m k) gone
                    ∙ Dict.get-delete c.handles j k w)
                ∙ old_left h j k (Dict.get hs k) (Dict.get c.handles k) old absent
          ]
        ]
