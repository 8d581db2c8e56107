-- ===== src/Examples/Policies.antt =====
-- Concrete inputs for the theorems on ts/src/lifecycle.ts and ts/src/policy.ts.
use mathlib.Core.List.{Memᴰ}
use hellgraph.Base.{
  ℕ, String, Bool, ◌≡◌, ◌≢◌, ◌↔◌, ◌⊎◌, refl, true, false, none, some, List, [], ◌∷◌, arith, ◌==◌,
  ==_iff,
}
use hellgraph.Base.Sets.{add_all, add_new, has}
use hellgraph.Lifecycle.{
  ContentState, served, legal_hold, flagged_retention, vendor_materialized, deleted, Trigger,
  vendor_materialize, hold_release, window_ends, retention_delete, ContentObject, can_transition,
  apply_transition, moved, truthy, is_delete_trigger, edge_for, transitions, delete_after_release,
  expired_vendor_cache,
}
use hellgraph.Lifecycle.Graph.{into_deleted, into_vendor, deletable_iff, run}
use hellgraph.Policy.Context.{
  GovernedObject, PolicyContext, egress, delete, vendor, Target, get_path, walk, undefined,
}
use hellgraph.Policy.Conditions.{
  Condition, attr, not_of, op_truthy, eval_condition, eval_every, test_attr,
}
use hellgraph.Policy.Conditions.Meaning.{Holds, eval_condition_iff}
use hellgraph.Policy.Decisions.{
  Decision, allow, deny, legal_hold_blocks_delete, applies, applicable, resolve, decide,
}
use hellgraph.Policy.Decisions.Denials.{decide-deny}
use hellgraph.Governor.{
  AuditLog, append, Governor, transition, is_vendor_trigger, apply_gated, due_transitions,
  run_retention, run_due, DueTransition, blocked_event, transition_event,
}
use hellgraph.Governor.Trail.{Audited, transition-Audited}
use hellgraph.Governor.Holds.{IsHeld, Call, trigger, retention, run_calls, run_calls-IsHeld}

abbrev content : ContentObject
content = record {
  id = "o1";
  state = served;
  vendor_opt_in = some true;
  hold_released = none;
  ttl_at = none;
  flagged_window_ends_at = some 5;
  retention_delete_at = some 5;
  residency = some "eu";
  sensitive_fields = some ("ssn" ∷ []);
}

abbrev governed : GovernedObject
governed = record { object = content; legal_hold_flag = none; connector_opt_in = none }

abbrev held_object : GovernedObject
held_object = record { object = content; legal_hold_flag = some true; connector_opt_in = none }

abbrev eu_vendor : Target
eu_vendor = record {
  kind = vendor;
  id = some "v";
  region = none;
  allowed_residencies = some ("eu" ∷ []);
}

abbrev to_vendor : PolicyContext
to_vendor = record { action = egress; object = governed; target = some eu_vendor }

abbrev to_delete : PolicyContext
to_delete = record { action = delete; object = held_object; target = none }

abbrev allowed : Decision
allowed = record {
  effect = allow;
  reason = "vendor-egress-optin-allow";
  obligations = "mask:ssn" ∷ [];
}

abbrev refused_delete : Decision
refused_delete = record { effect = deny; reason = "legal-hold-blocks-delete"; obligations = [] }

decided : decide to_vendor [] ≡ some allowed
unfolding decide applicable applies resolve eval_condition eval_every test_attr get_path walk ◌==◌
    has add_all add_new
decided = refl

decided_delete : decide to_delete [] ≡ some refused_delete
unfolding decide applicable applies resolve eval_condition eval_every test_attr get_path walk ◌==◌
decided_delete = refl

abbrev governor : Governor
governor = record { policy = []; audit = record { max_entries = 10; log = [] } }

abbrev with_state : ContentState → ContentObject
with_state s = record content { state = s }

window_ended : apply_transition (with_state flagged_retention) window_ends ≡ moved deleted
unfolding apply_transition edge_for transitions
window_ended = refl

into_deleted_example :
    (is_delete_trigger window_ends ≡ true)
    × (flagged_retention ≡ legal_hold
        → (window_ends ≡ delete_after_release) × (truthy content.hold_released ≡ true))
into_deleted_example = into_deleted (with_state flagged_retention) window_ends window_ended

released : apply_transition (with_state legal_hold) hold_release ≡ moved served
unfolding apply_transition edge_for transitions
released = refl

materialized : apply_transition content vendor_materialize ≡ moved vendor_materialized
unfolding apply_transition edge_for transitions
materialized = refl

into_vendor_example : truthy content.vendor_opt_in ≡ true
into_vendor_example = into_vendor content vendor_materialize materialized

deletable_iff_example :
    ((ts : List Trigger) × (run content ts ≡ moved deleted))
    ↔ ((served ≢ expired_vendor_cache) ⊎ (truthy content.vendor_opt_in ≡ true))
deletable_iff_example = deletable_iff content

abbrev no_opt_in : Condition
no_opt_in = not_of (attr "object.vendorOptIn" op_truthy undefined)

evaluated : eval_condition no_opt_in to_vendor 0 ≡ some false
unfolding eval_condition test_attr get_path walk ◌==◌
evaluated = refl

eval_condition_iff_example : (◌≡◌ {A = Bool} false true) ↔ Holds no_opt_in to_vendor
eval_condition_iff_example = eval_condition_iff no_opt_in to_vendor false evaluated

hold_rule : applies to_delete legal_hold_blocks_delete ≡ some true
unfolding applies eval_condition eval_every test_attr get_path walk ◌==◌
hold_rule = refl

decide-deny_example : refused_delete.effect ≡ deny
decide-deny_example =
    decide-deny to_delete [] refused_delete legal_hold_blocks_delete decided_delete (Memᴰ.head refl)
      hold_rule refl

abbrev eu : String
eu = "eu"

not_nil : (t : String) → ((t == "") ≡ false) → t ≢ ""
not_nil t h e = ground (arith, ==_iff t "")

eu_named : eu ≢ ""
unfolding ◌==◌
eu_named = not_nil eu refl

abbrev full_log : AuditLog
full_log = record { max_entries = 1; log = blocked_event governed hold_release 1 "no edge" ∷ [] }

abbrev governor_after : Governor
governor_after = record {
  policy = [];
  audit = record {
    max_entries = 10;
    log = transition_event governed vendor_materialize 3 vendor_materialized ∷ [];
  };
}

abbrev governed_after : GovernedObject
governed_after = record governed { object = with_state vendor_materialized }

moved_to_vendor :
    transition governor governed vendor_materialize 3 ≡ some (governed_after, governor_after)
unfolding transition append decide applicable applies resolve eval_condition eval_every test_attr
    get_path walk ◌==◌ has add_all add_new is_delete_trigger is_vendor_trigger apply_gated
    can_transition apply_transition edge_for transitions
moved_to_vendor = refl

transition-Audited_example :
    Audited governor governed vendor_materialize 3 governed_after governor_after
transition-Audited_example =
    transition-Audited governor governed vendor_materialize 3 governed_after governor_after
      moved_to_vendor

abbrev due_delete : DueTransition
due_delete = record { trigger = retention_delete; to = deleted }

due_now : Memᴰ due_delete (due_transitions content 5)
unfolding due_transitions
due_now = Memᴰ.head refl

abbrev calls : List (Call × ℕ)
calls = (trigger retention_delete, 7) ∷ (retention, 9) ∷ []

abbrev still_held : Governor
still_held = record {
  policy = [];
  audit = record {
    max_entries = 10;
    log =
        blocked_event held_object retention_delete 7 "legal-hold-blocks-delete"
        ∷ blocked_event held_object retention_delete 9 "legal-hold-blocks-delete"
        ∷ [];
  };
}

ran : run_calls governor held_object calls ≡ some (held_object, still_held)
unfolding run_calls run_retention run_due due_transitions transition append decide applicable
    applies resolve eval_condition eval_every test_attr get_path walk ◌==◌ is_delete_trigger
ran = refl

held : IsHeld held_object
held = record { flagged = refl; unreleased = refl; kept = λ e. cc }

run_calls-IsHeld_example : IsHeld held_object
run_calls-IsHeld_example =
    run_calls-IsHeld calls governor held_object held_object still_held held ran
