-- ===== src/Governor/Holds.antt =====
-- Legal hold and vendor opt-in, over every sequence of the Governor's calls (ts/src/policy.ts).
use hellgraph.Base.{
  ℕ, ◌≡◌, ◌≢◌, inl, inr, refl, sym, ap, ◌∙◌, true, false, none, some, List, [], ◌∷◌, arith,
  Option-cases, Bool-cases,
}
use hellgraph.Lifecycle.{deleted, vendor_materialized, Trigger, moved, is_delete_trigger, truthy}
use hellgraph.Lifecycle.Graph.{into_deleted, into_vendor}
use hellgraph.Policy.Context.{GovernedObject}
use hellgraph.Policy.Decisions.{decide}
use hellgraph.Policy.Decisions.Denials.{hold_denies_delete}
use hellgraph.Governor.{
  Governor, Outcome, gate, transition, delete_context, DueTransition, due_transitions, run_due,
  run_retention, apply_gated, vendor_context, is_vendor_trigger,
}
use hellgraph.Governor.Trail.{Audited, refused, done, transition-Audited}

-- Held, not released, and not deleted.
pub record IsHeld (o : GovernedObject) : Type 0 where
  pub flagged : truthy o.legal_hold_flag ≡ true
  pub unreleased : truthy o.hold_released ≡ false
  pub kept : o.state ≢ deleted

-- A delete trigger on a held object is refused at the gate, whatever would come next.
gate-held :
    (g : Governor) (o : GovernedObject) (t : Trigger) (now : ℕ) (next : Outcome)
    (o' : GovernedObject) (g' : Governor)
    → IsHeld o
    → gate true (delete_context o) g o t now next ≡ some (o', g')
    → o' ≡ o
gate-held g o t now next o' g' held h = elim (Option-cases (decide (delete_context o) g.policy)) [
  | inl thrown ↦ absurd (ground arith)
  | inr (d, found) ↦
      let denied =
        hold_denies_delete (delete_context o) g.policy d found refl held.flagged held.unreleased in
      ground arith
]

transition-IsHeld :
    (g : Governor) (o : GovernedObject) (t : Trigger) (now : ℕ) (o' : GovernedObject)
    (g' : Governor)
    → IsHeld o
    → transition g o t now ≡ some (o', g')
    → IsHeld o'
unfolding transition
transition-IsHeld g o t now o' g' held h = elim (Bool-cases (is_delete_trigger t)) [
  | inl deleting ↦
      let next = gate (is_vendor_trigger t) (vendor_context o) g o t now (apply_gated g o t now) in
      let same = gate-held g o t now next o' g' held (rw (deleting, transition) at h) in
      rw same held
  | inr other ↦ by_event (transition-Audited g o t now o' g' h) other
]
  where
    by_event : Audited g o t now o' g' → is_delete_trigger t ≡ false → IsHeld o'
    by_event (refused reason same logged) other = rw same held
    by_event (done s at same logged) other = rw same (record {
      flagged = held.flagged;
      unreleased = held.unreleased;
      kept = λ e. cc (other, (into_deleted o.object t (at ∙ ap moved e)).0);
    })

run_due-IsHeld :
    (dues : List DueTransition) (g : Governor) (o : GovernedObject) (now : ℕ) (o' : GovernedObject)
    (g' : Governor)
    → IsHeld o
    → run_due g o now dues ≡ some (o', g')
    → IsHeld o'
unfolding run_due
run_due-IsHeld [] g o now o' g' held h = rw (same) held
  where
    same : o' ≡ o
    same = ground arith
run_due-IsHeld (due ∷ dues) g o now o' g' held h =
    elim (Option-cases (transition g o due.trigger now)) [
      | inl thrown ↦ absurd (ground arith)
      | inr (next, moved_on) ↦
          run_due-IsHeld dues next.1 next.0 now o' g'
            (transition-IsHeld g o due.trigger now next.0 next.1 held moved_on) (ground arith)
    ]

-- The calls that change an object.
pub data Call : Type 0 where
  trigger : Trigger → Call
  retention : Call

-- Calls in order, each at its time; an error that a policy throws ends the sequence.
unfoldable pub run_calls : Governor → GovernedObject → List (Call × ℕ) → Outcome
run_calls g o [] = some (o, g)
run_calls g o ((trigger t, now) ∷ calls) = elim (transition g o t now) [
  | none ↦ none
  | some (o', g') ↦ run_calls g' o' calls
]
run_calls g o ((retention, now) ∷ calls) = elim (run_retention g o now) [
  | none ↦ none
  | some (o', g') ↦ run_calls g' o' calls
]

-- Legal hold overrides retention: under every policy, no sequence of triggers and retention runs
-- deletes an object that is under a legal hold and was not released, and the hold stays on it.
pub run_calls-IsHeld :
    (calls : List (Call × ℕ)) (g : Governor) (o o' : GovernedObject) (g' : Governor)
    → IsHeld o
    → run_calls g o calls ≡ some (o', g')
    → IsHeld o'
unfolding run_calls run_retention
run_calls-IsHeld [] g o o' g' held h = rw (same) held
  where
    same : o' ≡ o
    same = ground arith
run_calls-IsHeld ((trigger t, now) ∷ calls) g o o' g' held h =
    elim (Option-cases (transition g o t now)) [
      | inl thrown ↦ absurd (ground arith)
      | inr (next, moved_on) ↦
          run_calls-IsHeld calls next.1 next.0 o' g'
            (transition-IsHeld g o t now next.0 next.1 held moved_on) (ground arith)
    ]
run_calls-IsHeld ((retention, now) ∷ calls) g o o' g' held h =
    elim (Option-cases (run_due g o now (due_transitions o.object now))) [
      | inl thrown ↦ absurd (ground arith)
      | inr (next, ran) ↦
          run_calls-IsHeld calls next.1 next.0 o' g'
            (run_due-IsHeld (due_transitions o.object now) g o now next.0 next.1 held ran)
            (ground arith)
    ]

-- Whatever the policy, a call that brings an object to a vendor finds its opt-in set.
pub transition_to_vendor :
    (g : Governor) (o : GovernedObject) (t : Trigger) (now : ℕ) (o' : GovernedObject)
    (g' : Governor)
    → transition g o t now ≡ some (o', g')
    → o.state ≢ vendor_materialized
    → o'.state ≡ vendor_materialized
    → truthy o.vendor_opt_in ≡ true
transition_to_vendor g o t now o' g' h before after =
    by_event (transition-Audited g o t now o' g' h)
  where
    by_event : Audited g o t now o' g' → truthy o.vendor_opt_in ≡ true
    by_event (refused reason same logged) =
        absurd (before (sym (ap (λ (x : GovernedObject). x.state) same) ∙ after))
    by_event (done s at same logged) =
        into_vendor o.object t
          (at ∙ ap moved (sym (ap (λ (x : GovernedObject). x.state) same) ∙ after))
