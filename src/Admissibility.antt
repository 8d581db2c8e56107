-- ===== src/Admissibility.antt =====
-- ts/src/claim-admissibility.ts: the chain of gates that a claim passes before it may enter a
-- reasoning context. Scores are the source's floats: a parameter with their order, their product and
-- their text. The rule that a caller supplies is a function of the context.
pub mod Gates
use Prim.Native.String.{◌++◌ as str_append}
use hellgraph.Base.{
  ℕ, String, Bool, true, false, not, Option, none, some, List, [], ◌∷◌, ◌++◌, any, find?, ltb,
  if◌then◌else◌,
}
use hellgraph.Base.Sets.{has}
use hellgraph.Base.Text.{decimal}

pub data SourceKind : Type 0 where
  measured attested asserted model_generated : SourceKind

pub record ClaimProvenance : Type 0 where
  pub chain_depth : Option ℕ
  pub source_kind : Option SourceKind
  pub signed_connector : Option Bool

pub record ClaimInput (N : Type 0) : Type 0 where
  pub id : String
  pub text : Option String
  pub relevance_score : Option N
  pub provenance : Option ClaimProvenance
  pub source_trust : Option N
  pub visibility_scope : Option (List String)
  pub epistemic_tier : Option String

pub record HearsayException (N : Type 0) : Type 0 where
  pub name : String
  pub excuses : ClaimInput N → Bool

pub data Ruling : Type 0 where
  ruled_in ruled_out : Option String → Ruling

pub record AdmissibilityContext (N : Type 0) : Type 0 where
  pub min_relevance : Option N
  pub max_hearsay_depth : Option ℕ
  pub allow_opinion : Option Bool
  pub requester_scopes : Option (List String)
  pub hearsay_exceptions : Option (List (HearsayException N))
  pub policy : Option (ClaimInput N → Ruling)

pub data AdmissibilityGate : Type 0 where
  relevance hearsay opinion credibility privilege discretion : AdmissibilityGate

pub data GateOutcome : Type 0 where
  pass exclude exception : GateOutcome

pub record GateStep : Type 0 where
  pub gate : AdmissibilityGate
  pub outcome : GateOutcome
  pub excuse : Option String
  pub reason : String

pub record AdmissibilityDecision (N : Type 0) : Type 0 where
  pub admitted : Bool
  pub weight : N
  pub steps : List GateStep
  pub excluded_at : Option AdmissibilityGate

-- The source's floats.
pub record Scores (N : Type 0) : Type 0 where
  pub below : N → N → Bool
  pub times : N → N → N
  pub show : N → String
  pub zero : N
  pub one : N
  pub half : N
  pub tenth : N
  pub fifth : N

abbrev pub or_else : {A : Type 0} → Option A → A → A
or_else none d = d
or_else (some a) d = a

abbrev pub depth_of : Option ClaimProvenance → ℕ
depth_of none = 0
depth_of (some p) = or_else p.chain_depth 0

abbrev pub kind_of : Option ClaimProvenance → Option SourceKind
kind_of none = none
kind_of (some p) = p.source_kind

abbrev is_attested : Option SourceKind → Bool
is_attested (some attested) = true
is_attested _ = false

abbrev pub is_model_generated : Option SourceKind → Bool
is_model_generated (some model_generated) = true
is_model_generated _ = false

abbrev is_signed : Option ClaimProvenance → Bool
is_signed none = false
is_signed (some p) = or_else p.signed_connector false

abbrev words : List String → String
words [] = ""
words (s ∷ ss) = str_append s (words ss)

-- What a gate finds: an exclusion, or a step, which may discount the weight.
pub data Finding : Type 0 where
  out : String → Finding
  through : Bool → GateOutcome → Option String → String → Finding

module _ {N : Type 0} (scores : Scores N) where
  abbrev pub default_exceptions : List (HearsayException N)
  default_exceptions =
      record { name = "business-record"; excuses = λ c. is_signed c.provenance }
      ∷ record { name = "admission"; excuses = λ c. is_attested (kind_of c.provenance) }
      ∷ []

  abbrev pub floor_of : AdmissibilityContext N → N
  floor_of ctx = or_else ctx.min_relevance scores.fifth

  unfoldable pub relevance_gate : ClaimInput N → AdmissibilityContext N → Finding
  relevance_gate claim ctx = elim claim.relevance_score [
    | none ↦ through false pass none "no relevance score supplied — presumed relevant"
    | some r ↦
        if scores.below r (floor_of ctx)
        then out (
            words
              ("relevance " ∷ scores.show r ∷ " below floor " ∷ scores.show (floor_of ctx) ∷ []))
        else through false pass none
            (words ("relevance " ∷ scores.show r ∷ " ≥ floor " ∷ scores.show (floor_of ctx) ∷ []))
  ]

  abbrev pub max_depth : AdmissibilityContext N → ℕ
  max_depth ctx = or_else ctx.max_hearsay_depth 2

  abbrev pub registry : AdmissibilityContext N → List (HearsayException N)
  registry ctx = default_exceptions ++ or_else ctx.hearsay_exceptions []

  unfoldable pub hearsay_gate : ClaimInput N → AdmissibilityContext N → Finding
  unfolding decimal
  hearsay_gate claim ctx =
      let depth = decimal (depth_of claim.provenance) in
      let most = decimal (max_depth ctx) in
      if ltb (max_depth ctx) (depth_of claim.provenance)
      then elim (find? (λ e. e.excuses claim) (registry ctx)) [
        | none ↦ out (
            words (
              "provenance chain depth " ∷ depth ∷ " exceeds max " ∷ most
              ∷ " and no hearsay exception applies" ∷ []))
        | some exc ↦ through false exception (some exc.name) (
            words (
              "chain depth " ∷ depth ∷ " exceeds max " ∷ most ∷ " but '" ∷ exc.name
              ∷ "' exception applies" ∷ []))
      ]
      else through false pass none (words ("chain depth " ∷ depth ∷ " within max " ∷ most ∷ []))

  unfoldable pub opinion_gate : ClaimInput N → AdmissibilityContext N → Finding
  opinion_gate claim ctx =
      if is_model_generated (kind_of claim.provenance)
      then (if not (or_else ctx.allow_opinion true)
          then out "model-generated (opinion) claims are not allowed in this context"
          else through true pass none (
              words (
                "model-generated claim admitted as opinion at ×"
                ∷ scores.show scores.half
                ∷ " weight"
                ∷ [])))
      else through false pass none "not model-generated — no opinion discount"

  unfoldable pub credibility_gate : ClaimInput N → Finding
  credibility_gate claim = elim claim.source_trust [
    | none ↦ through false pass none "source trust unmeasured — unimpeached"
    | some t ↦
        if scores.below t scores.tenth
        then out (words ("source trust " ∷ scores.show t ∷ " below floor 0.1" ∷ []))
        else through false pass none (words ("source trust " ∷ scores.show t ∷ " ≥ floor 0.1" ∷ []))
  ]

  abbrev is_empty : List String → Bool
  is_empty [] = true
  is_empty (s ∷ ss) = false

  unfoldable pub privilege_gate : ClaimInput N → AdmissibilityContext N → Finding
  privilege_gate claim ctx =
      let required = or_else claim.visibility_scope [] in
      if any (λ s. not (has (or_else ctx.requester_scopes []) s)) required
      then out "claim is scoped beyond the requester visibility (content and scopes withheld)"
      else through false pass none (
          if is_empty required
          then "claim carries no visibility scope — public"
          else "requester holds every required scope")

  unfoldable pub discretion_gate : ClaimInput N → AdmissibilityContext N → Finding
  discretion_gate claim ctx = elim ctx.policy [
    | none ↦ through false pass none "no discretionary policy registered"
    | some policy ↦ elim (policy claim) [
      | ruled_out why ↦ out (or_else why "excluded by discretionary policy")
      | ruled_in why ↦ through false pass none (or_else why "allowed by discretionary policy")
    ]
  ]

  -- The gates in order, over the weight and the steps so far; an exclusion ends the chain.
  unfoldable pub run_gates :
      N → List GateStep → List (AdmissibilityGate × Finding) → AdmissibilityDecision N
  run_gates weight steps [] = record {
    admitted = true;
    weight = weight;
    steps = steps;
    excluded_at = none;
  }
  run_gates weight steps ((g, out why) ∷ gates) = record {
    admitted = false;
    weight = scores.zero;
    steps = steps ++ record { gate = g; outcome = exclude; excuse = none; reason = why } ∷ [];
    excluded_at = some g;
  }
  run_gates weight steps ((g, through discount outcome excuse why) ∷ gates) =
      run_gates (if discount then scores.times weight scores.half else weight)
        (steps ++ record { gate = g; outcome = outcome; excuse = excuse; reason = why } ∷ []) gates

  unfoldable pub admit_claim : ClaimInput N → AdmissibilityContext N → AdmissibilityDecision N
  admit_claim claim ctx = run_gates scores.one [] (
      (relevance, relevance_gate claim ctx)
      ∷ (hearsay, hearsay_gate claim ctx)
      ∷ (opinion, opinion_gate claim ctx)
      ∷ (credibility, credibility_gate claim)
      ∷ (privilege, privilege_gate claim ctx)
      ∷ (discretion, discretion_gate claim ctx)
      ∷ [])
