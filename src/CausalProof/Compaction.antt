-- ===== src/CausalProof/Compaction.antt =====
-- The compaction of settled operations (ts/src/causal-proof.ts).
use hellgraph.Base.{
  ◌<◌, String, ◌≡◌, ◌↔◌, inl, inr, refl, sym, ◌∙◌, not, List, [], ◌∷◌, ◌++◌, arith, ==_iff,
  if◌then◌else◌, keep, Bool-cases, leb,
}
use mathlib.Core.List.{Memᴰ, Perm, perm_middle}
use mathlib.Core.List.Perm
use hellgraph.Dict
use hellgraph.Dict.{IsUnique}
use hellgraph.CausalProof.{
  Cut, OpId, observed, op_in_cut, ProofArtifact, honor_proof, is_dependency, compact, bound_cut,
}
use hellgraph.CausalProof.Cuts.{observed-cons, observed_fresh}
use hellgraph.CausalProof.Frames.{AllIn, honor_proof_iff, honor_proof_cases, is_dependency_iff}

-- No dependency of the proof lies at or below the floor.
abbrev pub Pinned : Cut → List OpId → Type 0
Pinned floor deps = (op : OpId) → Memᴰ op deps → observed floor op.writer < op.seq

-- The two halves keep the order, and an operation is in the half that the floor says.
pub compact_lem :
    (order : List OpId) (floor : Cut)
    → ((compact order floor).settled ≡ keep (λ op. leb op.seq (observed floor op.writer)) order)
      × ((compact order floor).live
          ≡ keep (λ op. not (leb op.seq (observed floor op.writer))) order)
unfolding compact
compact_lem [] floor = (refl, refl)
compact_lem (op ∷ order) floor = ground (arith, compact_lem order floor)

compact-perm :
    (order : List OpId) (floor : Cut)
    → Perm ((compact order floor).settled ++ (compact order floor).live) order
unfolding compact
compact-perm [] floor = Perm.refl []
compact-perm (op ∷ order) floor = elim (Bool-cases (leb op.seq (observed floor op.writer))) [
  | inl low ↦ rw low (Perm.cons op (compact-perm order floor))
  | inr high ↦ rw high (Perm.trans (perm_middle _ _) (Perm.cons op (compact-perm order floor)))
]

live-deps :
    (deps : List OpId) (order : List OpId) (floor : Cut)
    → Pinned floor deps
    → keep (is_dependency deps) (compact order floor).live ≡ keep (is_dependency deps) order
unfolding compact
live-deps deps [] floor h = refl
live-deps deps (op ∷ order) floor h =
    ground (arith, live-deps deps order floor h, (is_dependency_iff deps op).0, h op)

-- Two readings that agree on when a proof is honoured agree.
honor-congr :
    (p : ProofArtifact) (c d : Cut) (xs ys : List OpId)
    → (AllIn p.dependency_ops c ↔ AllIn p.dependency_ops d)
    → keep (is_dependency p.dependency_ops) xs ≡ keep (is_dependency p.dependency_ops) ys
    → honor_proof p c xs ≡ honor_proof p d ys
honor-congr p c d xs ys frames same =
    let left = honor_proof_iff p c xs in
    let right = honor_proof_iff p d ys in
    elim (honor_proof_cases p c xs) [
      | inl h ↦ h ∙ sym (right.1 (frames.0 (left.0 h).0, sym same ∙ (left.0 h).1))
      | inr out ↦ elim (honor_proof_cases p d ys) [
        | inl h ↦ left.1 (frames.1 (right.0 h).0, same ∙ (right.0 h).1) ∙ sym h
        | inr out' ↦ out ∙ sym out'
      ]
    ]

-- Re-checking a proof against the operations that compaction retains gives the same answer as
-- against the whole linearization, at every read cut, when the floor pins its dependencies.
pub honor_proof-compact :
    (p : ProofArtifact) (cut : Cut) (order : List OpId) (floor : Cut)
    → Pinned floor p.dependency_ops
    → honor_proof p cut (compact order floor).live ≡ honor_proof p cut order
honor_proof-compact p cut order floor h =
    honor-congr p cut cut (compact order floor).live order (λ a. a, λ a. a)
      (live-deps p.dependency_ops order floor h)

observed-bound_cut :
    (cut floor : Cut) (w : String)
    → IsUnique cut
    → observed (bound_cut cut floor) w
      ≡ (if leb (observed cut w) (observed floor w) then 0 else observed cut w)
unfolding bound_cut
observed-bound_cut [] floor w u = unfold observed Dict.get in ground arith
observed-bound_cut ((v, n) ∷ cut) floor w u = ground (
  arith,
  observed-bound_cut cut floor w u.1,
  observed-cons cut v n w,
  observed-cons (bound_cut cut floor) v n w,
  ==_iff v w,
  observed_fresh cut v u.0,
)

-- A bounded cut forgets only what the floor covers: an operation above the floor is observed
-- before and after alike.
pub op_in_cut-bound_cut :
    (op : OpId) (cut floor : Cut)
    → IsUnique cut
    → observed floor op.writer < op.seq
    → op_in_cut op (bound_cut cut floor) ≡ op_in_cut op cut
unfolding op_in_cut
op_in_cut-bound_cut op cut floor u h = ground (arith, observed-bound_cut cut floor op.writer u)

-- A read cut that was bounded by the floor honours the same proofs, when the floor pins their
-- dependencies.
pub honor_proof-bound_cut :
    (p : ProofArtifact) (cut floor : Cut) (order : List OpId)
    → IsUnique cut
    → Pinned floor p.dependency_ops
    → honor_proof p (bound_cut cut floor) order ≡ honor_proof p cut order
honor_proof-bound_cut p cut floor order u h =
    let same =
      λ (op : OpId) (m : Memᴰ op p.dependency_ops). op_in_cut-bound_cut op cut floor u (h op m) in
    honor-congr p (bound_cut cut floor) cut order order
      (λ all op m. sym (same op m) ∙ all op m, λ all op m. same op m ∙ all op m) refl
