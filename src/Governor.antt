-- ===== src/Governor.antt =====
-- ts/src/policy.ts: the audit log, the retention scheduler, and the Governor, which gates the
-- lifecycle by the policy. `Date.now()` is an argument of each call.
pub mod Holds
pub mod Trail
use hellgraph.Base.{
  ℕ, String, Bool, true, false, not, ◌&&◌, ◌||◌, Option, none, some, List, [], ◌∷◌, ◌++◌, length,
  leb, ltb, any, if◌then◌else◌,
}
use hellgraph.Lifecycle.{
  ContentState, normalized, extracted, indexed, served, vendor_materialized, expired_vendor_cache,
  flagged_retention, deleted, Trigger, ttl_gc, window_ends, retention_delete, vendor_materialize,
  rematerialize, ContentObject, Applied, moved, illegal, needs_opt_in, guard_failed,
  is_delete_trigger, same_trigger, edge_for, can_transition, apply_transition,
}
use hellgraph.Policy.Context.{
  PolicyAction, egress, delete, GovernedObject, PolicyContext, Target, vendor,
}
use hellgraph.Policy.Decisions.{Rule, Decision, Effect, allow, deny, decide}

pub data AuditKind : Type 0 where
  decision transition_done blocked : AuditKind

pub record AuditEvent : Type 0 where
  pub ts : ℕ
  pub kind : AuditKind
  pub object_id : String
  pub action : Option PolicyAction
  pub effect : Option Effect
  pub from : Option ContentState
  pub to : Option ContentState
  pub trigger : Option Trigger
  pub reason : Option String
  pub obligations : Option (List String)

pub record AuditLog : Type 0 where
  pub max_entries : ℕ
  pub log : List AuditEvent

-- `log.shift()`
abbrev shift : List AuditEvent → List AuditEvent
shift [] = []
shift (e ∷ es) = es

unfoldable pub append : AuditLog → AuditEvent → AuditLog
append a e =
    let log = a.log ++ e ∷ [] in
    record a { log = if ltb a.max_entries (length log) then shift log else log }

pub record DueTransition : Type 0 where
  pub trigger : Trigger
  pub to : ContentState

-- `at !== undefined && at <= now`
abbrev is_due : Option ℕ → ℕ → Bool
is_due none now = false
is_due (some at) now = leb at now

abbrev is_retention_state : ContentState → Bool
is_retention_state normalized = true
is_retention_state extracted = true
is_retention_state indexed = true
is_retention_state served = true
is_retention_state _ = false

abbrev is_vendor_materialized : ContentState → Bool
is_vendor_materialized vendor_materialized = true
is_vendor_materialized _ = false

abbrev is_flagged : ContentState → Bool
is_flagged flagged_retention = true
is_flagged _ = false

abbrev push_if : Bool → Trigger → ContentState → List DueTransition
push_if b t s = if b then record { trigger = t; to = s } ∷ [] else []

unfoldable pub due_transitions : ContentObject → ℕ → List DueTransition
due_transitions o now =
    push_if (is_vendor_materialized o.state && is_due o.ttl_at now) ttl_gc expired_vendor_cache
    ++ (push_if (is_flagged o.state && is_due o.flagged_window_ends_at now) window_ends deleted
        ++ push_if (is_retention_state o.state && is_due o.retention_delete_at now) retention_delete
            deleted)

pub record Governor : Type 0 where
  pub policy : List Rule
  pub audit : AuditLog

-- A call returns the object and the governor that it leaves, or `none` for an error that a
-- condition of the policy throws.
abbrev pub Outcome : Type 0
Outcome = Option (GovernedObject × Governor)

abbrev record_event : Governor → AuditEvent → Governor
record_event g e = record g { audit = append g.audit e }

abbrev pub blocked_event : GovernedObject → Trigger → ℕ → String → AuditEvent
blocked_event o t now reason = record {
  ts = now;
  kind = blocked;
  object_id = o.id;
  action = none;
  effect = none;
  from = some o.state;
  to = none;
  trigger = some t;
  reason = some reason;
  obligations = none;
}

abbrev pub transition_event : GovernedObject → Trigger → ℕ → ContentState → AuditEvent
transition_event o t now s = record {
  ts = now;
  kind = transition_done;
  object_id = o.id;
  action = none;
  effect = none;
  from = some o.state;
  to = some s;
  trigger = some t;
  reason = none;
  obligations = none;
}

-- `Governor.decide`: the decision is audited.
unfoldable pub govern : Governor → PolicyContext → ℕ → Option (Decision × Governor)
govern g ctx now = elim (decide ctx g.policy) [
  | none ↦ none
  | some d ↦ some (
    d,
    record_event g (record {
      ts = now;
      kind = decision;
      object_id = ctx.object.id;
      action = some ctx.action;
      effect = some d.effect;
      from = none;
      to = none;
      trigger = none;
      reason = some d.reason;
      obligations = some d.obligations;
    }),
  )
]

abbrev with_state : GovernedObject → ContentState → GovernedObject
with_state o s = record o { object = record o.object { state = s } }

-- `e ? 'guard/opt-in failed' : 'no edge'`
abbrev pub edge_reason : GovernedObject → Trigger → String
edge_reason o t = elim (edge_for o.state t) [ none ↦ "no edge" | some _ ↦ "guard/opt-in failed" ]

-- The last part of `transition`: the lifecycle's own test, and the move.
unfoldable pub apply_gated : Governor → GovernedObject → Trigger → ℕ → Outcome
apply_gated g o t now =
    if not (can_transition o.object t)
    then some (o, record_event g (blocked_event o t now (edge_reason o t)))
    else elim (apply_transition o.object t) [
      | moved s ↦ some (with_state o s, record_event g (transition_event o t now s))
      | illegal ↦ none
      | needs_opt_in ↦ none
      | guard_failed ↦ none
    ]

abbrev pub delete_context : GovernedObject → PolicyContext
delete_context o = record { action = delete; object = o; target = none }

abbrev pub vendor_context : GovernedObject → PolicyContext
vendor_context o = record {
  action = egress;
  object = o;
  target = some (record { kind = vendor; id = none; region = none; allowed_residencies = none });
}

-- One gate of `transition`: a denial is audited and ends the call, an allowance goes on.
abbrev pub gate : Bool → PolicyContext → Governor → GovernedObject → Trigger → ℕ → Outcome → Outcome
gate needed ctx g o t now next =
    if needed
    then elim (decide ctx g.policy) [
      | none ↦ none
      | some d ↦ elim d.effect [
        | deny ↦ some (o, record_event g (blocked_event o t now d.reason))
        | allow ↦ next
      ]
    ]
    else next

-- `VENDOR_EGRESS_TRIGGERS.has(trigger)`
unfoldable pub is_vendor_trigger : Trigger → Bool
is_vendor_trigger t = any (same_trigger t) (vendor_materialize ∷ rematerialize ∷ [])

unfoldable pub transition : Governor → GovernedObject → Trigger → ℕ → Outcome
transition g o t now =
    gate (is_delete_trigger t) (delete_context o) g o t now
      (gate (is_vendor_trigger t) (vendor_context o) g o t now (apply_gated g o t now))

-- The loop of `runRetention` over the transitions that were due at its start.
unfoldable pub run_due : Governor → GovernedObject → ℕ → List DueTransition → Outcome
run_due g o now [] = some (o, g)
run_due g o now (due ∷ dues) = elim (transition g o due.trigger now) [
  | none ↦ none
  | some (o', g') ↦ run_due g' o' now dues
]

unfoldable pub run_retention : Governor → GovernedObject → ℕ → Outcome
run_retention g o now = run_due g o now (due_transitions o.object now)
