-- ===== src/Lifecycle.antt =====
-- ts/src/lifecycle.ts: the state machine of a content object. Timestamps are whole milliseconds;
-- an optional field is an `Option`.
pub mod Graph
use hellgraph.Base.{
  ℕ, String, Bool, true, false, not, ◌&&◌, Option, none, some, List, [], ◌∷◌, find?, any, every,
  length, nat_eq, if◌then◌else◌,
}

pub data ContentState : Type 0 where
  ingested_raw normalized extracted indexed served : ContentState
  vendor_materialized expired_vendor_cache flagged_retention legal_hold deleted : ContentState

pub data Trigger : Type 0 where
  normalize extract index serve : Trigger
  vendor_materialize reuse_handle ttl_gc rematerialize : Trigger
  flag_abuse window_ends : Trigger
  place_hold hold_release delete_after_release : Trigger
  retention_delete : Trigger

pub record ContentObject : Type 0 where
  pub id : String
  pub state : ContentState
  pub vendor_opt_in : Option Bool
  pub hold_released : Option Bool
  pub ttl_at : Option ℕ
  pub flagged_window_ends_at : Option ℕ
  pub retention_delete_at : Option ℕ
  pub residency : Option String
  pub sensitive_fields : Option (List String)

-- A Boolean field read as a condition: absent is false.
abbrev pub truthy : Option Bool → Bool
truthy none = false
truthy (some b) = b

pub record Edge : Type 0 where
  pub to : ContentState
  pub trigger : Trigger
  pub requires_opt_in : Bool
  pub guard : Option (ContentObject → Bool)

abbrev plain : Trigger → ContentState → Edge
plain t to = record { to = to; trigger = t; requires_opt_in = false; guard = none }

abbrev opt_in : Trigger → ContentState → Edge
opt_in t to = record { to = to; trigger = t; requires_opt_in = true; guard = none }

abbrev pub retention_delete_edge : Edge
retention_delete_edge = plain retention_delete deleted

unfoldable pub transitions : ContentState → List Edge
transitions ingested_raw = plain normalize normalized ∷ []
transitions normalized = plain extract extracted ∷ retention_delete_edge ∷ []
transitions extracted = plain index indexed ∷ retention_delete_edge ∷ []
transitions indexed = plain serve served ∷ retention_delete_edge ∷ []
transitions served =
    opt_in vendor_materialize vendor_materialized
    ∷ plain flag_abuse flagged_retention
    ∷ plain place_hold legal_hold
    ∷ retention_delete_edge
    ∷ []
transitions vendor_materialized = plain reuse_handle served ∷ plain ttl_gc expired_vendor_cache ∷ []
transitions expired_vendor_cache = opt_in rematerialize vendor_materialized ∷ []
transitions flagged_retention = plain window_ends deleted ∷ []
transitions legal_hold =
    plain hold_release served
    ∷ record {
      to = deleted;
      trigger = delete_after_release;
      requires_opt_in = false;
      guard = some (λ o. truthy o.hold_released);
    }
    ∷ []
transitions deleted = []

-- The place of a trigger in its declaration, by which `===` compares two.
abbrev pub trigger_no : Trigger → ℕ
trigger_no normalize = 0
trigger_no extract = 1
trigger_no index = 2
trigger_no serve = 3
trigger_no vendor_materialize = 4
trigger_no reuse_handle = 5
trigger_no ttl_gc = 6
trigger_no rematerialize = 7
trigger_no flag_abuse = 8
trigger_no window_ends = 9
trigger_no place_hold = 10
trigger_no hold_release = 11
trigger_no delete_after_release = 12
trigger_no retention_delete = 13

abbrev pub same_trigger : Trigger → Trigger → Bool
same_trigger a b = nat_eq (trigger_no a) (trigger_no b)

abbrev state_no : ContentState → ℕ
state_no ingested_raw = 0
state_no normalized = 1
state_no extracted = 2
state_no indexed = 3
state_no served = 4
state_no vendor_materialized = 5
state_no expired_vendor_cache = 6
state_no flagged_retention = 7
state_no legal_hold = 8
state_no deleted = 9

-- `DELETE_TRIGGERS.has(trigger)`
unfoldable pub is_delete_trigger : Trigger → Bool
is_delete_trigger t =
    any (same_trigger t) (retention_delete ∷ window_ends ∷ delete_after_release ∷ [])

unfoldable pub edge_for : ContentState → Trigger → Option Edge
unfolding transitions
edge_for s t = find? (λ e. same_trigger e.trigger t) (transitions s)

abbrev pub guard_fails : Option (ContentObject → Bool) → ContentObject → Bool
guard_fails none o = false
guard_fails (some g) o = not (g o)

unfoldable pub can_transition : ContentObject → Trigger → Bool
unfolding edge_for
can_transition o t = elim (edge_for o.state t) [
  | none ↦ false
  | some e ↦
      if e.requires_opt_in && not (truthy o.vendor_opt_in)
      then false
      else if guard_fails e.guard o
      then false
      else true
]

-- What `applyTransition` returns, or the error that it throws.
pub data Applied : Type 0 where
  moved : ContentState → Applied
  illegal needs_opt_in guard_failed : Applied

unfoldable pub apply_transition : ContentObject → Trigger → Applied
unfolding edge_for
apply_transition o t = elim (edge_for o.state t) [
  | none ↦ illegal
  | some e ↦
      if e.requires_opt_in && not (truthy o.vendor_opt_in)
      then needs_opt_in
      else if guard_fails e.guard o
      then guard_failed
      else moved e.to
]

abbrev all_states : List ContentState
all_states =
    ingested_raw ∷ normalized ∷ extracted ∷ indexed ∷ served ∷ vendor_materialized
    ∷ expired_vendor_cache ∷ flagged_retention ∷ legal_hold ∷ deleted ∷ []

-- `e.to in TRANSITIONS`
abbrev is_state : ContentState → Bool
is_state s = any (λ x. nat_eq (state_no x) (state_no s)) all_states

pub data ModelCheck : Type 0 where
  model_ok deleted_not_terminal hold_has_retention unknown_target : ModelCheck

check_targets : (ContentState → List Edge) → List ContentState → ModelCheck
check_targets table [] = model_ok
check_targets table (s ∷ ss) =
    let rest = check_targets table ss in
    if every (λ (e : Edge). is_state e.to) (table s) then rest else unknown_target

-- `validateModel`, over a table of transitions.
unfoldable pub validate_model : (ContentState → List Edge) → ModelCheck
unfolding check_targets
validate_model table =
    if not (nat_eq (length (table deleted)) 0)
    then deleted_not_terminal
    else if any (λ (e : Edge). same_trigger e.trigger retention_delete) (table legal_hold)
    then hold_has_retention
    else check_targets table all_states
