-- ===== src/Policy/Decisions.antt =====
-- `decide` of ts/src/policy.ts: deny overrides, and the baseline rules come first.
pub mod Denials
pub mod Allowances
use Prim.Native.String.{◌++◌ as str_append}
use hellgraph.Base.{
  ℕ, zero, String, Bool, true, false, not, ◌&&◌, ◌||◌, Option, none, some, List, [], ◌∷◌, ◌++◌, map,
  find?, keep, if◌then◌else◌, nat_eq, ◌==◌,
}
use hellgraph.Base.Sets.{has, add_all}
use hellgraph.Policy.Context.{
  PolicyAction, egress, delete, cache, PolicyContext, GovernedObject, Target, Value, undefined, str,
}
use hellgraph.Policy.Conditions.{
  Condition, Conditions, nil, cons, attr, all, op_eq, op_truthy, op_falsy, eval_condition,
}

pub data Effect : Type 0 where
  allow deny : Effect

pub record Rule : Type 0 where
  pub id : String
  pub action : Option PolicyAction  -- `none` is '*'
  pub effect : Effect
  pub when : Option Condition
  pub obligations : Option (List String)

pub record Decision : Type 0 where
  pub effect : Effect
  pub reason : String
  pub obligations : List String

abbrev action_no : PolicyAction → ℕ
action_no egress = 0
action_no delete = 1
action_no cache = 2

abbrev same_action : PolicyAction → PolicyAction → Bool
same_action a b = nat_eq (action_no a) (action_no b)

abbrev both : Condition → Condition → Condition
both a b = all (cons a (cons b nil))

abbrev pub legal_hold_blocks_delete : Rule
legal_hold_blocks_delete = record {
  id = "legal-hold-blocks-delete";
  action = some delete;
  effect = deny;
  when = some (
      both (attr "object.legalHold" op_truthy undefined)
        (attr "object.holdReleased" op_falsy undefined));
  obligations = none;
}

abbrev egress_rule : String → Effect → String → Condition → Rule
egress_rule id effect kind c = record {
  id = id;
  action = some egress;
  effect = effect;
  when = some (both (attr "target.kind" op_eq (str kind)) c);
  obligations = none;
}

abbrev pub vendor_requires_opt_in : Rule
vendor_requires_opt_in =
    egress_rule "vendor-egress-requires-optin" deny "vendor"
      (attr "object.vendorOptIn" op_falsy undefined)

abbrev pub connector_requires_opt_in : Rule
connector_requires_opt_in =
    egress_rule "connector-egress-requires-optin" deny "connector"
      (attr "object.connectorOptIn" op_falsy undefined)

abbrev pub baseline : List Rule
baseline =
    legal_hold_blocks_delete
    ∷ vendor_requires_opt_in
    ∷ connector_requires_opt_in
    ∷ egress_rule "vendor-egress-optin-allow" allow "vendor"
        (attr "object.vendorOptIn" op_truthy undefined)
    ∷ egress_rule "connector-egress-optin-allow" allow "connector"
        (attr "object.connectorOptIn" op_truthy undefined)
    ∷ []

abbrev pub default_effect : PolicyAction → Effect
default_effect egress = deny
default_effect delete = allow
default_effect cache = allow

abbrev for_action : Option PolicyAction → PolicyAction → Bool
for_action none a = true
for_action (some b) a = same_action b a

-- The test of the filter; `none` is an error that a condition throws.
unfoldable pub applies : PolicyContext → Rule → Option Bool
applies ctx r =
    if for_action r.action ctx.action
    then elim r.when [ none ↦ some true | some c ↦ eval_condition c ctx 0 ]
    else some false

unfoldable pub applicable : PolicyContext → List Rule → Option (List Rule)
applicable ctx [] = some []
applicable ctx (r ∷ rules) =
    let rest = applicable ctx rules in
    elim (applies ctx r) [
      | none ↦ none
      | some b ↦ elim rest [ none ↦ none | some rs ↦ some (if b then r ∷ rs else rs) ]
    ]

abbrev pub is_deny : Rule → Bool
is_deny r = elim r.effect [ deny ↦ true | allow ↦ false ]

abbrev pub is_allow : Rule → Bool
is_allow r = elim r.effect [ deny ↦ false | allow ↦ true ]

-- `rules.map(r => r.id).join(',')`
join_ids : List Rule → String
join_ids [] = ""
join_ids (r ∷ []) = r.id
join_ids (r ∷ q ∷ rules) = str_append r.id (str_append "," (join_ids (q ∷ rules)))

abbrev or_empty : Option (List String) → List String
or_empty none = []
or_empty (some xs) = xs

all_obligations : List Rule → List String
all_obligations [] = []
all_obligations (r ∷ rules) = or_empty r.obligations ++ all_obligations rules

abbrev pub mask : String → String
mask f = str_append "mask:" f

abbrev is_egress : PolicyAction → Bool
is_egress a = same_action a egress

-- `target?.allowedResidencies`
abbrev pub approved : PolicyContext → Option (List String)
approved ctx = elim ctx.target [ none ↦ none | some t ↦ t.allowed_residencies ]

-- An egress to a target that declares residencies, of content whose residency is not among them;
-- an empty residency counts as none.
residency_mismatch : PolicyContext → Bool
residency_mismatch ctx = elim ctx.object.residency [
  | none ↦ false
  | some r ↦ elim (approved ctx) [
    | none ↦ false
    | some rs ↦ is_egress ctx.action && (not (r == "") && not (has rs r))
  ]
]

masks : PolicyContext → List String
masks ctx = if is_egress ctx.action then map mask (or_empty ctx.object.sensitive_fields) else []

abbrev default_reason : Effect → String
default_reason allow = "default:allow"
default_reason deny = "default:deny"

-- The rest of `decide` once no rule denies, over the rules that allow.
conclude : PolicyContext → List Rule → Decision
unfolding join_ids all_obligations residency_mismatch masks
conclude ctx [] = elim (default_effect ctx.action) [
  | allow ↦
      if residency_mismatch ctx
      then record { effect = deny; reason = "residency-mismatch"; obligations = [] }
      else record {
        effect = allow;
        reason = default_reason allow;
        obligations = add_all [] (masks ctx);
      }
  | deny ↦ record { effect = deny; reason = default_reason deny; obligations = [] }
]
conclude ctx (r ∷ allows) =
    if residency_mismatch ctx
    then record { effect = deny; reason = "residency-mismatch"; obligations = [] }
    else record {
      effect = allow;
      reason = join_ids (r ∷ allows);
      obligations = add_all [] (all_obligations (r ∷ allows) ++ masks ctx);
    }

unfoldable pub resolve : PolicyContext → List Rule → Decision
unfolding conclude
resolve ctx rules = elim (find? is_deny rules) [
  | some r ↦ record { effect = deny; reason = r.id; obligations = [] }
  | none ↦ conclude ctx (keep is_allow rules)
]

-- The decision, or `none` for an error that a condition of the policy throws.
unfoldable pub decide : PolicyContext → List Rule → Option Decision
decide ctx policy = elim (applicable ctx (baseline ++ policy)) [
  | none ↦ none
  | some rules ↦ some (resolve ctx rules)
]
