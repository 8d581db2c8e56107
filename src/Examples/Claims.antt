-- ===== src/Examples/Claims.antt =====
-- Concrete inputs for the theorem on ts/src/claim-admissibility.ts; scores are tenths.
use hellgraph.Base.{ℕ, ◌*◌, ◌≡◌, ◌↔◌, true, none, some, [], ◌∷◌, ltb}
use hellgraph.Base.Text.{decimal}
use hellgraph.Admissibility.{ClaimInput, AdmissibilityContext, Scores, model_generated, admit_claim}
use hellgraph.Admissibility.Gates.{
  IsRelevant, IsNear, IsFact, IsCredible, IsVisible, IsRuledIn, admit_claim_iff,
}

abbrev scores : Scores ℕ
scores = record {
  below = ltb;
  times = λ a b. a * b;
  show = decimal;
  zero = 0;
  one = 10;
  half = 5;
  tenth = 1;
  fifth = 2;
}

abbrev claim : ClaimInput ℕ
claim = record {
  id = "c1";
  text = some "the link is down";
  relevance_score = some 7;
  provenance = some (record {
    chain_depth = some 3;
    source_kind = some model_generated;
    signed_connector = some true;
  });
  source_trust = some 4;
  visibility_scope = some ("ops" ∷ []);
  epistemic_tier = none;
}

abbrev context : AdmissibilityContext ℕ
context = record {
  min_relevance = none;
  max_hearsay_depth = none;
  allow_opinion = none;
  requester_scopes = some ("ops" ∷ []);
  hearsay_exceptions = none;
  policy = none;
}

admit_claim_iff_example : ((admit_claim scores claim context).admitted ≡ true) ↔ (
    IsRelevant scores claim context
    × IsNear scores claim context
    × IsFact scores claim context
    × IsCredible scores claim
    × IsVisible scores claim context
    × IsRuledIn scores claim context)
admit_claim_iff_example = admit_claim_iff scores claim context
