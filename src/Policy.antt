-- ===== src/Policy.antt =====
-- ts/src/policy.ts, the policy engine: what a rule reads, its conditions, and the decision.
pub mod Context
pub mod Conditions
pub mod Decisions
