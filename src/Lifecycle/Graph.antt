-- ===== src/Lifecycle/Graph.antt =====
-- What the transition table of ts/src/lifecycle.ts allows.
use hellgraph.Base.{
  refl, ◌≡◌, ◌≢◌, ◌↔◌, ◌⊎◌, inl, inr, true, false, List, [], ◌∷◌, arith, Option-cases, Bool-cases,
}
use hellgraph.Lifecycle.{
  validate_model, model_ok, transitions, ContentState, ingested_raw, served, vendor_materialized,
  expired_vendor_cache, flagged_retention, legal_hold, deleted, Trigger, normalize, reuse_handle,
  rematerialize, window_ends, hold_release, delete_after_release, retention_delete, ContentObject,
  truthy, edge_for, can_transition, Applied, moved, illegal, needs_opt_in, guard_failed,
  apply_transition, is_delete_trigger,
}

-- `canTransition` says exactly when `applyTransition` does not throw.
pub can_transition_iff :
    (o : ContentObject) (t : Trigger)
    → (can_transition o t ≡ true) ↔ ((s : ContentState) × (apply_transition o t ≡ moved s))
unfolding can_transition apply_transition
can_transition_iff o t = (λ h. split o t h, λ h. ground arith)
  where
    split :
        (o : ContentObject) (t : Trigger)
        → can_transition o t ≡ true
        → (s : ContentState) × (apply_transition o t ≡ moved s)
    split o t h = elim (Option-cases (edge_for o.state t)) [
      | inl e ↦ absurd (ground arith)
      | inr (e, at) ↦ (e.to, ground arith)
    ]

-- Nothing leads out of `Deleted`.
pub deleted_terminal :
    (o : ContentObject) (t : Trigger) → o.state ≡ deleted → apply_transition o t ≡ illegal
unfolding apply_transition
deleted_terminal o t h = ground arith

-- The table of the repository passes its own validation.
model_valid : validate_model transitions ≡ model_ok
unfolding validate_model transitions
model_valid = refl

-- The ways into `Deleted`: each is by a delete trigger, from a state of retention, from flagged
-- retention, or from a legal hold that was released.
pub into_deleted :
    (o : ContentObject) (t : Trigger)
    → apply_transition o t ≡ moved deleted
    → (is_delete_trigger t ≡ true)
      × (o.state ≡ legal_hold → (t ≡ delete_after_release) × (truthy o.hold_released ≡ true))
unfolding apply_transition is_delete_trigger
into_deleted o t h = ground arith

-- The ways out of `LegalHold`: release, or deletion after the hold was released. No retention
-- trigger is among them.
pub out_of_legal_hold :
    (o : ContentObject) (t : Trigger) {s : ContentState}
    → o.state ≡ legal_hold
    → apply_transition o t ≡ moved s
    → ((t ≡ hold_release) × (s ≡ served))
      ⊎ ((t ≡ delete_after_release) × (s ≡ deleted) × (truthy o.hold_released ≡ true))
unfolding apply_transition
out_of_legal_hold o t e h = ground arith

-- Content reaches a vendor only with opt-in.
pub into_vendor :
    (o : ContentObject) (t : Trigger)
    → apply_transition o t ≡ moved vendor_materialized
    → truthy o.vendor_opt_in ≡ true
unfolding apply_transition
into_vendor o t h = ground arith

-- The state after a sequence of triggers, or the first error.
unfoldable pub run : ContentObject → List Trigger → Applied
run o [] = moved o.state
run o (t ∷ ts) = elim (apply_transition o t) [
  | moved s ↦ run (record o { state = s }) ts
  | illegal ↦ illegal
  | needs_opt_in ↦ needs_opt_in
  | guard_failed ↦ guard_failed
]

-- The triggers that take an object of a state to `Deleted`.
abbrev to_deleted : ContentState → List Trigger
to_deleted ingested_raw = normalize ∷ retention_delete ∷ []
to_deleted vendor_materialized = reuse_handle ∷ retention_delete ∷ []
to_deleted expired_vendor_cache = rematerialize ∷ reuse_handle ∷ retention_delete ∷ []
to_deleted flagged_retention = window_ends ∷ []
to_deleted legal_hold = hold_release ∷ retention_delete ∷ []
to_deleted deleted = []
to_deleted _ = retention_delete ∷ []

run-to_deleted :
    (o : ContentObject)
    → (o.state ≢ expired_vendor_cache) ⊎ (truthy o.vendor_opt_in ≡ true)
    → run o (to_deleted o.state) ≡ moved deleted
unfolding run apply_transition
run-to_deleted o h = ground arith

stuck :
    (o : ContentObject) (ts : List Trigger)
    → o.state ≡ expired_vendor_cache
    → truthy o.vendor_opt_in ≡ false
    → run o ts ≢ moved deleted
unfolding run apply_transition
stuck o [] s n h = ground arith
stuck o (t ∷ ts) s n h = ground arith

-- Some sequence of triggers deletes an object exactly when it is not an expired vendor cache
-- without opt-in: from that state there is no way out.
pub deletable_iff :
    (o : ContentObject)
    → ((ts : List Trigger) × (run o ts ≡ moved deleted))
      ↔ ((o.state ≢ expired_vendor_cache) ⊎ (truthy o.vendor_opt_in ≡ true))
deletable_iff o = (
  λ (ts, h). elim (Bool-cases (truthy o.vendor_opt_in)) [
    | inl allowed ↦ inr allowed
    | inr denied ↦ inl (λ e. stuck o ts e denied h)
  ],
  λ h. (to_deleted o.state, run-to_deleted o h),
)
