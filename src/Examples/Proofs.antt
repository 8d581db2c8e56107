-- ===== src/Examples/Proofs.antt =====
-- Concrete inputs for the theorems on ts/src/causal-proof.ts.
use mathlib.Core.List.{Memᴰ}
use hellgraph.Base.Sets.{add_new}
use hellgraph.Base.{
  ◌<◌, String, ◌≡◌, ◌↔◌, inl, inr, refl, sym, ap, subst, ◌∙◌, ==_iff, true, false, List, [], ◌∷◌,
  arith, Memᴰ-cons, Memᴰ-nil, ◌==◌, keep,
}
use hellgraph.Base.Text.{decimal, with_colon}
use hellgraph.Dict
use hellgraph.Dict.{IsUnique}
use hellgraph.CausalProof.{
  OpId, Cut, observed, op_in_cut, compaction_floor, bound_cut, compact, ProofArtifact, honor_proof,
  is_dependency, op_id_str, all_writers, add_keys, observed_deps, agree,
}
use hellgraph.CausalProof.Cuts.{observed-cons, Below}
use hellgraph.CausalProof.Frames.{AllIn, honored, honor_proof_iff}
use hellgraph.CausalProof.Floor.{Known}
use hellgraph.CausalProof.Readers.{honor_proof-compaction_floor}

abbrev first : OpId
first = record { writer = "w"; seq = 1 }

abbrev second : OpId
second = record { writer = "v"; seq = 1 }

abbrev third : OpId
third = record { writer = "w"; seq = 2 }

abbrev frame : Cut
frame = ("w", 1) ∷ ("v", 1) ∷ []

abbrev later_frame : Cut
later_frame = ("w", 2) ∷ ("v", 1) ∷ []

abbrev order : List OpId
order = first ∷ second ∷ []

abbrev proof : ProofArtifact
proof = record {
  statement = "reachable";
  verdict = true;
  derived_against = frame;
  dependency_ops = first ∷ [];
}

frame-IsUnique : IsUnique frame
unfolding Dict.get ◌==◌
frame-IsUnique = (refl, (refl, tt))

honored_at_frame : honor_proof proof frame order ≡ honored proof
unfolding honor_proof op_in_cut observed Dict.get ◌==◌ is_dependency op_id_str with_colon decimal
    observed_deps agree
honored_at_frame = refl

frame_grows : Below frame later_frame
frame_grows w =
    ground (arith, observed-cons (("v", 1) ∷ []) "w" 1 w, observed-cons (("v", 1) ∷ []) "w" 2 w)

positive : (op : OpId) → Memᴰ op (first ∷ []) → 0 < op.seq
positive op m = elim ((Memᴰ-cons op first []).0 m) [
  | inl e ↦ rw e (omega arith)
  | inr t ↦ absurd (Memᴰ-nil op t)
]

honor_proof_iff_example :
    (honor_proof proof frame order ≡ honored proof)
    ↔ (AllIn (first ∷ []) frame × (keep (is_dependency (first ∷ [])) order ≡ first ∷ []))
honor_proof_iff_example = honor_proof_iff proof frame order

two_ne_one : ¬ (third.seq ≡ first.seq)
two_ne_one h = omega (arith, h)

no_dependency : (op : OpId) → Memᴰ op (third ∷ []) → ¬ Memᴰ op (first ∷ [])
no_dependency op m k = elim ((Memᴰ-cons op third []).0 m) [
  | inr t ↦ Memᴰ-nil op t
  | inl e ↦ elim ((Memᴰ-cons op first []).0 k) [
    | inr t ↦ Memᴰ-nil op t
    | inl e' ↦ two_ne_one (ap (λ (x : OpId). x.seq) (sym e ∙ e'))
  ]
]

proof_listed : Memᴰ proof (proof ∷ [])
proof_listed = Memᴰ.head refl

honor_proof-compaction_floor_example :
    honor_proof proof
      (bound_cut frame (compaction_floor (frame ∷ []) (proof ∷ [])))
      (compact order (compaction_floor (frame ∷ []) (proof ∷ []))).live
    ≡ honor_proof proof frame order
honor_proof-compaction_floor_example =
    honor_proof-compaction_floor (frame ∷ []) (proof ∷ []) proof frame order proof_listed positive
      frame-IsUnique

known : Known (frame ∷ []) "w"
unfolding all_writers add_keys add_new ◌==◌
known = Memᴰ.head refl

writer_known :
    (p : ProofArtifact)
    → Memᴰ p (proof ∷ [])
    → (op : OpId) → Memᴰ op p.dependency_ops
    → Known (frame ∷ []) op.writer
writer_known p m op k = elim ((Memᴰ-cons p proof []).0 m) [
  | inr t ↦ absurd (Memᴰ-nil p t)
  | inl e ↦ by_op (subst (λ (q : ProofArtifact). Memᴰ op q.dependency_ops) e k)
]
  where
    by_op : Memᴰ op (first ∷ []) → Known (frame ∷ []) op.writer
    by_op i = elim ((Memᴰ-cons op first []).0 i) [
      | inl e ↦ subst (λ (q : OpId). Known (frame ∷ []) q.writer) (sym e) known
      | inr t ↦ absurd (Memᴰ-nil op t)
    ]

abbrev unseen : ProofArtifact
unseen = record {
  statement = "reachable";
  verdict = true;
  derived_against = ("x", 9) ∷ [];
  dependency_ops = record { writer = "x"; seq = 9 } ∷ [];
}

differ : (t : String) → (("x" == t) ≡ false) → ¬ ("x" ≡ t)
differ t h e = ground (arith, ==_iff "x" t)

known_writers : (w : String) → w ≡ "x" → ¬ Memᴰ w ("w" ∷ "v" ∷ [])
unfolding ◌==◌
known_writers w at m = elim ((Memᴰ-cons w "w" ("v" ∷ [])).0 m) [
  | inl e ↦ differ "w" refl (sym at ∙ e)
  | inr t ↦ elim ((Memᴰ-cons w "v" []).0 t) [
    | inl e ↦ differ "v" refl (sym at ∙ e)
    | inr r ↦ Memᴰ-nil w r
  ]
]

not_known : ¬ Known (frame ∷ []) "x"
unfolding all_writers add_keys add_new ◌==◌
not_known m = known_writers "x" refl m
