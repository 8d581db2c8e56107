-- ===== src/Governor/Trail.antt =====
-- The audit trail of the Governor, and the retention scheduler (ts/src/policy.ts).
use mathlib.Core.List.{Memᴰ}
use hellgraph.Base.{
  ℕ, ◌≤◌, ◌<◌, String, ◌≡◌, inl, inr, refl, Bool, true, false, some, [], ◌∷◌, arith, length,
  length-append, All, All-mem, Option-cases, Bool-cases,
}
use hellgraph.Lifecycle.{
  ContentState, Trigger, ContentObject, moved, is_delete_trigger, can_transition, apply_transition,
}
use hellgraph.Lifecycle.Graph.{can_transition_iff}
use hellgraph.Policy.Context.{GovernedObject, PolicyContext}
use hellgraph.Policy.Decisions.{Decision, Effect, deny, allow, decide}
use hellgraph.Governor.{
  AuditEvent, AuditLog, append, Governor, Outcome, gate, apply_gated, transition, blocked_event,
  transition_event, is_vendor_trigger, delete_context, vendor_context, DueTransition,
  due_transitions, edge_reason,
}

-- The log never grows over its cap: an append to a log within a positive cap leaves it within.
pub append-capped :
    (a : AuditLog) (e : AuditEvent)
    → length a.log ≤ a.max_entries
    → 0 < a.max_entries
    → length (append a e).log ≤ (append a e).max_entries
unfolding append
append-capped a e h p = ground (arith, length-append a.log (e ∷ []))

-- What one call of `transition` does: the object stays and a `blocked` event is appended, or the
-- lifecycle moves the object and a `transition` event that names both states is appended.
pub data Audited (g : Governor) (o : GovernedObject) (t : Trigger) (now : ℕ) (o' : GovernedObject)
    (g' : Governor) : Type 0 where
  refused :
      (reason : String)
      → o' ≡ o
      → g' ≡ record g { audit = append g.audit (blocked_event o t now reason) }
      → Audited g o t now o' g'
  done :
      (s : ContentState)
      → apply_transition o.object t ≡ moved s
      → o' ≡ record o { object = record o.object { state = s } }
      → g' ≡ record g { audit = append g.audit (transition_event o t now s) }
      → Audited g o t now o' g'

apply_gated-Audited :
    (g : Governor) (o : GovernedObject) (t : Trigger) (now : ℕ) (o' : GovernedObject)
    (g' : Governor)
    → apply_gated g o t now ≡ some (o', g')
    → Audited g o t now o' g'
unfolding apply_gated
apply_gated-Audited g o t now o' g' h = elim (Bool-cases (can_transition o.object t)) [
  | inl fits ↦
      let (s, at) = (can_transition_iff o.object t).0 fits in
      done s at (ground arith) (ground arith)
  | inr stays ↦ refused (edge_reason o t) (ground arith) (ground arith)
]

gate-Audited :
    (needed : Bool) (ctx : PolicyContext) (g : Governor) (o : GovernedObject) (t : Trigger)
    (now : ℕ) (next : Outcome) (o' : GovernedObject) (g' : Governor)
    → (next ≡ some (o', g') → Audited g o t now o' g')
    → gate needed ctx g o t now next ≡ some (o', g')
    → Audited g o t now o' g'
gate-Audited false ctx g o t now next o' g' go h = go h
gate-Audited true ctx g o t now next o' g' go h = elim (Option-cases (decide ctx g.policy)) [
  | inl thrown ↦ absurd (ground arith)
  | inr (d, found) ↦ by_effect d found d.effect refl
]
  where
    by_effect :
        (d : Decision)
        → decide ctx g.policy ≡ some d
        → (e : Effect) → d.effect ≡ e
        → Audited g o t now o' g'
    by_effect d found deny e = refused d.reason (ground arith) (ground arith)
    by_effect d found allow e = go (ground arith)

-- Every call of `transition` that returns appends one audit event. Either the object stays and the
-- event says `blocked`, or the lifecycle allows the move, the object changes in its state alone,
-- and the event names the state before and after.
pub transition-Audited :
    (g : Governor) (o : GovernedObject) (t : Trigger) (now : ℕ) (o' : GovernedObject)
    (g' : Governor)
    → transition g o t now ≡ some (o', g')
    → Audited g o t now o' g'
unfolding transition
transition-Audited g o t now o' g' h =
    gate-Audited (is_delete_trigger t) (delete_context o) g o t now _ o' g'
      (gate-Audited (is_vendor_trigger t) (vendor_context o) g o t now _ o' g'
        (apply_gated-Audited g o t now o' g'))
      h

due-All :
    (o : ContentObject) (now : ℕ)
    → All (λ d. apply_transition o d.trigger ≡ moved d.to) (due_transitions o now)
unfolding due_transitions apply_transition
due-All o now = ground arith

-- What the scheduler finds due, the lifecycle allows, and leads where the scheduler says.
pub due_transitions_legal :
    (o : ContentObject) (now : ℕ) (d : DueTransition)
    → Memᴰ d (due_transitions o now)
    → apply_transition o d.trigger ≡ moved d.to
due_transitions_legal o now d m = All-mem _ (due_transitions o now) d (due-All o now) m

-- At most one transition is due at a time.
pub due_transitions_one : (o : ContentObject) (now : ℕ) → length (due_transitions o now) ≤ 1
unfolding due_transitions
due_transitions_one o now = ground arith
