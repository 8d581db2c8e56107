-- ===== src/CausalProof.antt =====
-- ts/src/causal-proof.ts: causal cuts (version vectors over writers), proofs bound to a cut, and
-- the compaction of settled operations. A sequence number is a whole number from 1.
pub mod Cuts
pub mod Frames
pub mod Compaction
pub mod Floor
pub mod Readers
use hellgraph.Base.{
  ℕ, ◌-◌, min, max, String, Bool, true, false, not, ◌&&◌, Option, none, some, List, [], ◌∷◌, map,
  ltb, leb, nat_eq, ◌==◌, if◌then◌else◌, length, any, keep,
}
use hellgraph.Base.Text.{with_colon, decimal}
use hellgraph.Base.Sets.{add_new}
use hellgraph.Dict
use hellgraph.Dict.{Dict}

pub record OpId : Type 0 where
  pub writer : String
  pub seq : ℕ

-- An absent writer has 0 operations observed.
abbrev pub Cut : Type 0
Cut = Dict ℕ

abbrev pub or_zero : Option ℕ → ℕ
or_zero none = 0
or_zero (some n) = n

-- `cut[writer] ?? 0`
unfoldable pub observed : Cut → String → ℕ
observed cut w = or_zero (Dict.get cut w)

unfoldable pub op_id_str : OpId → String
op_id_str op = with_colon op.writer (decimal op.seq)

unfoldable pub op_in_cut : OpId → Cut → Bool
op_in_cut op cut = leb op.seq (observed cut op.writer)

unfoldable pub cut_join : Cut → Cut → Cut
cut_join out [] = out
cut_join out ((w, n) ∷ b) = cut_join (Dict.put out w (max (observed out w) n)) b

unfoldable pub cut_subsumes : Cut → Cut → Bool
cut_subsumes a [] = true
cut_subsumes a ((w, n) ∷ b) = if ltb (observed a w) n then false else cut_subsumes a b

unfoldable pub cut_equals : Cut → Cut → Bool
cut_equals a b = cut_subsumes a b && cut_subsumes b a

-- The loop of `cutFromOrder`, over the cut built so far.
unfoldable pub observe_all : Cut → List OpId → Cut
observe_all out [] = out
observe_all out (op ∷ order) =
    observe_all (Dict.put out op.writer (max (observed out op.writer) op.seq)) order

unfoldable pub cut_from_order : List OpId → Cut
cut_from_order order = observe_all [] order

unfoldable pub cut_is_empty : Cut → Bool
cut_is_empty [] = true
cut_is_empty ((w, n) ∷ cut) = if ltb 0 n then false else cut_is_empty cut

pub data FrameStatus : Type 0 where
  in_frame out_of_frame : FrameStatus

pub record ProofArtifact : Type 0 where
  pub statement : String
  pub verdict : Bool
  pub derived_against : Cut
  pub dependency_ops : List OpId

-- What `bindProof` returns, or the error that it throws.
pub data Bound : Type 0 where
  bound : ProofArtifact → Bound
  empty_frame : Bound
  outside_frame : OpId → Bound

-- The loop over the dependencies: the first one outside the frame.
unfoldable pub first_outside : Cut → List OpId → Option OpId
first_outside cut [] = none
first_outside cut (op ∷ ops) = if not (op_in_cut op cut) then some op else first_outside cut ops

unfoldable pub bind_proof : ProofArtifact → Bound
bind_proof args =
    if cut_is_empty args.derived_against
    then empty_frame
    else elim (first_outside args.derived_against args.dependency_ops) [
      | some op ↦ outside_frame op
      | none ↦ bound args
    ]

pub record Honored : Type 0 where
  pub status : FrameStatus
  pub verdict : Option Bool

abbrev pub withheld : Honored
withheld = record { status = out_of_frame; verdict = none }

-- `depKeys.has(opIdStr(op))`
unfoldable pub is_dependency : List OpId → OpId → Bool
is_dependency deps op = any (λ d. op_id_str d == op_id_str op) deps

-- The loop that compares `observed[i]` with `expected[i]`, for each `i` of `expected`.
unfoldable pub agree : List String → List String → Bool
agree seen [] = true
agree [] (e ∷ expected) = false
agree (o ∷ seen) (e ∷ expected) = if not (o == e) then false else agree seen expected

-- The dependencies that the linearization shows below the read cut, in its order.
unfoldable pub observed_deps : ProofArtifact → Cut → List OpId → List String
observed_deps proof read_cut order =
    map op_id_str
      (keep (λ op. op_in_cut op read_cut && is_dependency proof.dependency_ops op) order)

unfoldable pub honor_proof : ProofArtifact → Cut → List OpId → Honored
honor_proof proof read_cut order =
    if any (λ dep. not (op_in_cut dep read_cut)) proof.dependency_ops
    then withheld
    else let seen = observed_deps proof read_cut order in
      let expected = map op_id_str proof.dependency_ops in
      if not (nat_eq (length seen) (length expected))
      then withheld
      else if not (agree seen expected)
      then withheld
      else record { status = in_frame; verdict = some proof.verdict }

unfoldable pub add_keys : List String → Cut → List String
add_keys ws [] = ws
add_keys ws ((w, n) ∷ cut) = add_keys (add_new ws w) cut

-- The writers of all the cuts.
unfoldable pub all_writers : List String → List Cut → List String
all_writers ws [] = ws
all_writers ws (c ∷ cuts) = all_writers (add_keys ws c) cuts

-- The minimum of a writer's counts. The source starts at `Infinity`, which the first cut replaces,
-- so here it starts at the first cut's count.
unfoldable pub lowest : ℕ → List Cut → String → ℕ
lowest m [] w = m
lowest m (c ∷ cuts) w = lowest (min m (observed c w)) cuts w

unfoldable pub fill : Cut → (String → ℕ) → List String → Cut
fill out count [] = out
fill out count (w ∷ ws) = fill (Dict.put out w (count w)) count ws

unfoldable pub cut_meet : List Cut → Cut
cut_meet [] = []
cut_meet (c ∷ cuts) = fill [] (λ w. lowest (observed c w) cuts w) (all_writers [] (c ∷ cuts))

-- `floor[w] ?? cap`
abbrev pub or_cap : Option ℕ → ℕ → ℕ
or_cap none cap = cap
or_cap (some n) cap = n

-- The loop over one proof's dependencies. `seq - 1` is -1 at 0 in the source, whose last loop
-- raises it to 0; here it stops at 0 at once, and that loop changes nothing.
unfoldable pub pin_deps : Cut → List OpId → Cut
pin_deps floor [] = floor
pin_deps floor (dep ∷ deps) =
    let cap = dep.seq - 1 in
    pin_deps (Dict.put floor dep.writer (min (or_cap (Dict.get floor dep.writer) cap) cap)) deps

unfoldable pub pin_proofs : Cut → List ProofArtifact → Cut
pin_proofs floor [] = floor
pin_proofs floor (p ∷ proofs) = pin_proofs (pin_deps floor p.dependency_ops) proofs

unfoldable pub compaction_floor : List Cut → List ProofArtifact → Cut
compaction_floor reader_cuts proofs = pin_proofs (cut_meet reader_cuts) proofs

pub record Compacted : Type 0 where
  pub settled : List OpId
  pub live : List OpId

unfoldable pub compact : List OpId → Cut → Compacted
compact [] floor = record { settled = []; live = [] }
compact (op ∷ order) floor =
    let rest = compact order floor in
    if leb op.seq (observed floor op.writer)
    then record rest { settled = op ∷ rest.settled }
    else record rest { live = op ∷ rest.live }

-- Entries that the floor covers are dropped.
unfoldable pub bound_cut : Cut → Cut → Cut
bound_cut [] floor = []
bound_cut ((w, n) ∷ cut) floor =
    let rest = bound_cut cut floor in if ltb (observed floor w) n then (w, n) ∷ rest else rest
