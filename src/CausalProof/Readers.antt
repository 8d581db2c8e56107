-- ===== src/CausalProof/Readers.antt =====
-- The compaction floor against what the readers observed (ts/src/causal-proof.ts).
use hellgraph.Base.{
  ℕ, ◌<◌, ◌-◌, min, String, ◌≡◌, ◌≢◌, ◌⊎◌, inl, inr, refl, ap, ◌∙◌, some, List, [], ◌∷◌, none,
  arith, ==_iff, ==_refl, Memᴰ-cons, Option-cases,
}
use mathlib.Core.List.{Memᴰ}
use mathlib.Core.List.Memᴰ
use hellgraph.Dict
use hellgraph.Dict.{IsUnique}
use hellgraph.CausalProof.{
  Cut, OpId, observed, ProofArtifact, or_cap, fill, cut_meet, all_writers, pin_deps, pin_proofs,
  compaction_floor, honor_proof, bound_cut, compact,
}
use hellgraph.CausalProof.Compaction.{honor_proof-bound_cut, honor_proof-compact}
use hellgraph.CausalProof.Cuts.{Below, observed_fresh, observed-put}
use hellgraph.CausalProof.Floor.{
  compaction_floor-Pinned, Known, pin, Capped-pin_proofs, observed-Capped, cut_meet_glb,
}

get-fill_in :
    (out : Cut) (count : String → ℕ) (ws : List String) (w : String)
    → Memᴰ w ws ⊎ (Dict.get out w ≢ none)
    → Dict.get (fill out count ws) w ≢ none
unfolding fill
get-fill_in out count [] w (inl m) = absurd (Memᴰ.not-nil m)
get-fill_in out count [] w (inr h) = h
get-fill_in out count (v ∷ ws) w h =
    get-fill_in (Dict.put out v (count v)) count ws w
      (ground (arith, Memᴰ-cons w v ws, Dict.get-put out v (count v) w, ==_iff v w))

get-fill_out :
    (out : Cut) (count : String → ℕ) (ws : List String) (w : String)
    → ¬ Memᴰ w ws
    → Dict.get out w ≡ none
    → Dict.get (fill out count ws) w ≡ none
unfolding fill
get-fill_out out count [] w n h = h
get-fill_out out count (v ∷ ws) w n h =
    get-fill_out (Dict.put out v (count v)) count ws w (λ m. n (Memᴰ.tail m))
      (ground (arith, Memᴰ-cons w v ws, Dict.get-put out v (count v) w, ==_iff v w))

get-cut_meet_known :
    (d : Cut) (cuts : List Cut) (w : String)
    → Known (d ∷ cuts) w
    → Dict.get (cut_meet (d ∷ cuts)) w ≢ none
unfolding cut_meet
get-cut_meet_known d cuts w k = get-fill_in [] _ (all_writers [] (d ∷ cuts)) w (inl k)

get-cut_meet_unknown :
    (cuts : List Cut) (w : String) → ¬ Known cuts w → Dict.get (cut_meet cuts) w ≡ none
unfolding cut_meet
get-cut_meet_unknown [] w k = Dict.get-nil w
get-cut_meet_unknown (d ∷ cuts) w k =
    get-fill_out [] _ (all_writers [] (d ∷ cuts)) w k (Dict.get-nil w)

-- Every dependency of the proofs has a writer for which `P` holds.
abbrev pub AllWriters : (String → Type 0) → List ProofArtifact → Type 0
AllWriters P proofs =
    (p : ProofArtifact) → Memᴰ p proofs → (op : OpId) → Memᴰ op p.dependency_ops → P op.writer

get-pin_deps_other :
    (floor : Cut) (deps : List OpId) (w : String)
    → ((op : OpId) → Memᴰ op deps → op.writer ≢ w)
    → Dict.get (pin_deps floor deps) w ≡ Dict.get floor w
unfolding pin_deps
get-pin_deps_other floor [] w h = refl
get-pin_deps_other floor (dep ∷ deps) w h =
    get-pin_deps_other (pin floor dep) deps w (λ op m. h op (Memᴰ.tail m))
    ∙ ground (
      arith,
      h dep (Memᴰ.head refl),
      ==_iff dep.writer w,
      Dict.get-put floor dep.writer
          (min (or_cap (Dict.get floor dep.writer) (dep.seq - 1)) (dep.seq - 1)) w,
    )

get-pin_proofs_other :
    (floor : Cut) (proofs : List ProofArtifact) (w : String)
    → AllWriters (λ v. v ≢ w) proofs
    → Dict.get (pin_proofs floor proofs) w ≡ Dict.get floor w
unfolding pin_proofs
get-pin_proofs_other floor [] w h = refl
get-pin_proofs_other floor (p ∷ proofs) w h =
    get-pin_proofs_other (pin_deps floor p.dependency_ops) proofs w
      (λ q m op k. h q (Memᴰ.tail m) op k)
    ∙ get-pin_deps_other floor p.dependency_ops w (λ op k. h p (Memᴰ.head refl) op k)

observed-some : (c : Cut) (w : String) (n : ℕ) → Dict.get c w ≡ some n → observed c w ≡ n
unfolding observed
observed-some c w n h = ground arith

-- Where every dependency's writer has an entry, pinning only lowers the floor.
pin_proofs-Below :
    (floor : Cut) (proofs : List ProofArtifact)
    → AllWriters (λ v. Dict.get floor v ≢ none) proofs
    → Below (pin_proofs floor proofs) floor
pin_proofs-Below floor proofs h w = elim (Option-cases (Dict.get floor w)) [
  | inl absent ↦ omega (
    arith,
    observed_fresh (pin_proofs floor proofs) w (
        get-pin_proofs_other floor proofs w
          (λ p m op k e. h p m op k (ap (Dict.get floor) e ∙ absent))
        ∙ absent),
  )
  | inr (n, at) ↦ omega (
    arith,
    observed-some floor w n at,
    observed-Capped (pin_proofs floor proofs) w n
        (Capped-pin_proofs floor proofs w n (n, at, omega arith)),
  )
]

-- When some reader's cut names the writer of every dependency, the floor is settled: what lies at
-- or below it has been observed by every reader.
pub compaction_floor-Below :
    (d : Cut) (cuts : List Cut) (proofs : List ProofArtifact)
    → AllWriters (Known (d ∷ cuts)) proofs
    → (r : Cut) → Memᴰ r (d ∷ cuts)
    → Below (compaction_floor (d ∷ cuts) proofs) r
unfolding compaction_floor
compaction_floor-Below d cuts proofs h r m w =
    let meet = cut_meet (d ∷ cuts) in
    let lower =
      pin_proofs-Below meet proofs (λ p k op i. get-cut_meet_known d cuts op.writer (h p k op i)) in
    omega (arith, lower w, (cut_meet_glb meet d cuts).0 (λ v. omega arith) r m w)

-- Without that condition it fails: for a dependency on a writer that no reader's cut names, the
-- floor is the number before the dependency, though no reader has observed any operation of that
-- writer.
pub compaction_floor_unknown :
    (cuts : List Cut) (p : ProofArtifact) (op : OpId)
    → p.dependency_ops ≡ op ∷ []
    → ¬ Known cuts op.writer
    → observed (compaction_floor cuts (p ∷ [])) op.writer ≡ op.seq - 1
unfolding compaction_floor pin_proofs
compaction_floor_unknown cuts p op e unknown = rw e (
    unfold pin_deps in
    ground (
      arith,
      ==_refl op.writer,
      get-cut_meet_unknown cuts op.writer unknown,
      observed-put (cut_meet cuts) op.writer
          (min (or_cap (Dict.get (cut_meet cuts) op.writer) (op.seq - 1)) (op.seq - 1)) op.writer,
    ))

-- Compacting the log at the compaction floor of any readers, and bounding the read cut by it,
-- changes no answer about a live proof: it is honoured or withheld as on the whole linearization,
-- when sequence numbers start at 1 and the read cut has one entry for a writer.
pub honor_proof-compaction_floor :
    (reader_cuts : List Cut) (proofs : List ProofArtifact) (p : ProofArtifact) (cut : Cut)
    (order : List OpId)
    → Memᴰ p proofs
    → ((op : OpId) → Memᴰ op p.dependency_ops → 0 < op.seq)
    → IsUnique cut
    → honor_proof p
        (bound_cut cut (compaction_floor reader_cuts proofs))
        (compact order (compaction_floor reader_cuts proofs)).live
      ≡ honor_proof p cut order
honor_proof-compaction_floor reader_cuts proofs p cut order m pos u =
    let floor = compaction_floor reader_cuts proofs in
    let pinned = compaction_floor-Pinned reader_cuts proofs p m pos in
    honor_proof-bound_cut p cut floor (compact order floor).live u pinned
    ∙ honor_proof-compact p cut order floor pinned
