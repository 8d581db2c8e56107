-- ===== src/CausalProof/Floor.antt =====
-- The compaction floor of ts/src/causal-proof.ts, against the cuts and the live proofs.
use hellgraph.Base.{
  ℕ, ◌≤◌, ◌<◌, ◌-◌, min, String, ◌≡◌, ◌↔◌, ◌≢◌, ◌⊎◌, inl, inr, refl, sym, ap, ◌∙◌, some, List, [],
  ◌∷◌, none, arith, ◌==◌, ==_iff, ==_refl, Memᴰ-cons, Bool-cases,
}
use mathlib.Core.List.{Memᴰ}
use mathlib.Core.List.Memᴰ
use hellgraph.Base.Sets.{add_new, mem-add_new}
use hellgraph.Dict
use hellgraph.Dict.{IsUnique}
use hellgraph.CausalProof.{
  Cut, OpId, observed, ProofArtifact, or_cap, lowest, fill, cut_meet, all_writers, add_keys,
  add_new, pin_deps, pin_proofs, compaction_floor,
}
use hellgraph.CausalProof.Cuts.{Below, observed-put, observed_fresh}
use hellgraph.CausalProof.Compaction.{Pinned}

lowest_iff :
    (n m : ℕ) (cuts : List Cut) (w : String)
    → (n ≤ lowest m cuts w) ↔ ((n ≤ m) × ((c : Cut) → Memᴰ c cuts → n ≤ observed c w))
unfolding lowest
lowest_iff n m [] w = (λ h. (h, λ c k. absurd (Memᴰ.not-nil k)), λ h. h.0)
lowest_iff n m (d ∷ cuts) w =
    let rest = lowest_iff n (min m (observed d w)) cuts w in
    (
      λ h.
          let (first, others) = rest.0 h in
          (
            omega arith,
            λ c k. elim ((Memᴰ-cons c d cuts).0 k) [
              | inl e ↦ rw e (omega arith)
              | inr t ↦ others c t
            ],
          ),
      λ h. rest.1 (omega (arith, h.0, h.1 d (Memᴰ.head refl)), λ c k. h.1 c (Memᴰ.tail k)),
    )

observed-fill :
    (out : Cut) (count : String → ℕ) (ws : List String) (w : String)
    → (observed (fill out count ws) w ≡ count w)
      ⊎ ((observed (fill out count ws) w ≡ observed out w) × (¬ Memᴰ w ws))
unfolding fill
observed-fill out count [] w = inr (refl, Memᴰ.not-nil)
observed-fill out count (v ∷ ws) w = ground (
  arith,
  observed-fill (Dict.put out v (count v)) count ws w,
  observed-put out v (count v) w,
  ==_iff v w,
  Memᴰ-cons w v ws,
)

mem-add_keys :
    (ws : List String) (c : Cut) (w : String)
    → Memᴰ w (add_keys ws c) ↔ (Memᴰ w ws ⊎ (Dict.get c w ≢ none))
unfolding add_keys Dict.get
mem-add_keys ws [] w = ground arith
mem-add_keys ws ((v, n) ∷ c) w =
    ground (arith, mem-add_keys (add_new ws v) c w, mem-add_new ws v w, ==_iff v w)

-- A writer that some cut of the list has an entry for.
abbrev pub Known : List Cut → String → Type 0
Known cuts w = Memᴰ w (all_writers [] cuts)

mem-all_writers :
    (ws : List String) (cuts : List Cut) (w : String)
    → Memᴰ w ws ⊎ ((c : Cut) × Memᴰ c cuts × (Dict.get c w ≢ none))
    → Memᴰ w (all_writers ws cuts)
unfolding all_writers
mem-all_writers ws [] w (inl m) = m
mem-all_writers ws [] w (inr (c, m, h)) = absurd (Memᴰ.not-nil m)
mem-all_writers ws (d ∷ cuts) w (inl m) =
    mem-all_writers (add_keys ws d) cuts w (inl ((mem-add_keys ws d w).1 (inl m)))
mem-all_writers ws (d ∷ cuts) w (inr (c, m, h)) = elim ((Memᴰ-cons c d cuts).0 m) [
  | inl e ↦
      mem-all_writers (add_keys ws d) cuts w
        (inl ((mem-add_keys ws d w).1 (inr (λ k. h (ap (λ x. Dict.get x w) e ∙ k)))))
  | inr t ↦ mem-all_writers (add_keys ws d) cuts w (inr (c, t, h))
]

lowest_zero : (m : ℕ) (cuts : List Cut) (w : String) → m ≡ 0 → lowest m cuts w ≡ 0
unfolding lowest
lowest_zero m [] w h = h
lowest_zero m (d ∷ cuts) w h = lowest_zero (min m (observed d w)) cuts w (omega arith)

observed_unknown : (c : Cut) (w : String) (known : Dict.get c w ≢ none → ⊥) → observed c w ≡ 0
unfolding observed
observed_unknown c w h = ground arith

-- The count of a writer in the meet, with no case for the writers that no cut names.
observed-cut_meet :
    (d : Cut) (cuts : List Cut) (w : String)
    → observed (cut_meet (d ∷ cuts)) w ≡ lowest (observed d w) cuts w
unfolding cut_meet
observed-cut_meet d cuts w =
    let count = λ (v : String). lowest (observed d v) cuts v in
    elim (observed-fill [] count (all_writers [] (d ∷ cuts)) w) [
      | inl e ↦ e
      | inr (e, out) ↦
          e
          ∙ observed_fresh [] w (Dict.get-nil w)
          ∙ sym (
              lowest_zero (observed d w) cuts w (
                observed_unknown d w
                  (λ k. out (mem-all_writers [] (d ∷ cuts) w (inr (d, Memᴰ.head refl, k))))))
    ]

-- The meet of the cuts is their greatest lower bound: a cut lies below it exactly when it lies
-- below each of them.
pub cut_meet_glb :
    (c d : Cut) (cuts : List Cut)
    → Below c (cut_meet (d ∷ cuts)) ↔ ((r : Cut) → Memᴰ r (d ∷ cuts) → Below c r)
cut_meet_glb c d cuts =
    let meet = λ (w : String). observed-cut_meet d cuts w in
    let low = λ (w : String). lowest_iff (observed c w) (observed d w) cuts w in
    (
      λ h r m w.
          let (first, others) = (low w).0 (rw (← meet w) (h w)) in
          elim ((Memᴰ-cons r d cuts).0 m) [ inl e ↦ rw e first | inr t ↦ others r t ],
      λ h w. rw (meet w) ((low w).1 (h d (Memᴰ.head refl) w, λ r m. h r (Memᴰ.tail m) w)),
    )

-- The entry of a writer is present and at most `k`.
abbrev pub Capped : Cut → String → ℕ → Type 0
Capped floor w k = (n : ℕ) × (Dict.get floor w ≡ some n) × (n ≤ k)

abbrev pub pin : Cut → OpId → Cut
pin floor dep =
    Dict.put floor dep.writer (min (or_cap (Dict.get floor dep.writer) (dep.seq - 1)) (dep.seq - 1))

Capped-pin :
    (floor : Cut) (dep : OpId) (w : String) (k : ℕ) → Capped floor w k → Capped (pin floor dep) w k
Capped-pin floor dep w k (n, e, le) =
    let cap = dep.seq - 1 in
    let written =
      Dict.get-put floor dep.writer (min (or_cap (Dict.get floor dep.writer) cap) cap) w in
    elim (Bool-cases (dep.writer == w)) [
      | inl same ↦
          let at : Dict.get floor dep.writer ≡ some n =
            ap (Dict.get floor) ((==_iff dep.writer w).0 same) ∙ e in
          (min n cap, written ∙ rw (same, at) refl, omega arith)
      | inr other ↦ (n, written ∙ rw other e, le)
    ]

Capped-pin_self : (floor : Cut) (dep : OpId) → Capped (pin floor dep) dep.writer (dep.seq - 1)
Capped-pin_self floor dep =
    let cap = dep.seq - 1 in
    (
      min (or_cap (Dict.get floor dep.writer) cap) cap,
      Dict.get-put floor dep.writer (min (or_cap (Dict.get floor dep.writer) cap) cap) dep.writer
          ∙ rw (==_refl dep.writer) refl,
      omega arith,
    )

Capped-pin_deps :
    (floor : Cut) (deps : List OpId) (w : String) (k : ℕ)
    → Capped floor w k
    → Capped (pin_deps floor deps) w k
unfolding pin_deps
Capped-pin_deps floor [] w k h = h
Capped-pin_deps floor (dep ∷ deps) w k h =
    Capped-pin_deps (pin floor dep) deps w k (Capped-pin floor dep w k h)

pub Capped-pin_proofs :
    (floor : Cut) (proofs : List ProofArtifact) (w : String) (k : ℕ)
    → Capped floor w k
    → Capped (pin_proofs floor proofs) w k
unfolding pin_proofs
Capped-pin_proofs floor [] w k h = h
Capped-pin_proofs floor (p ∷ proofs) w k h =
    Capped-pin_proofs (pin_deps floor p.dependency_ops) proofs w k
      (Capped-pin_deps floor p.dependency_ops w k h)

pin_deps-Capped :
    (floor : Cut) (deps : List OpId) (op : OpId)
    → Memᴰ op deps
    → Capped (pin_deps floor deps) op.writer (op.seq - 1)
unfolding pin_deps
pin_deps-Capped floor [] op m = absurd (Memᴰ.not-nil m)
pin_deps-Capped floor (dep ∷ deps) op m = elim ((Memᴰ-cons op dep deps).0 m) [
  | inl e ↦
      rw e
        (Capped-pin_deps (pin floor dep) deps dep.writer (dep.seq - 1) (Capped-pin_self floor dep))
  | inr t ↦ pin_deps-Capped (pin floor dep) deps op t
]

pin_proofs-Capped :
    (floor : Cut) (proofs : List ProofArtifact) (p : ProofArtifact) (op : OpId)
    → Memᴰ p proofs
    → Memᴰ op p.dependency_ops
    → Capped (pin_proofs floor proofs) op.writer (op.seq - 1)
unfolding pin_proofs
pin_proofs-Capped floor [] p op m k = absurd (Memᴰ.not-nil m)
pin_proofs-Capped floor (q ∷ proofs) p op m k = elim ((Memᴰ-cons p q proofs).0 m) [
  | inl e ↦
      Capped-pin_proofs (pin_deps floor q.dependency_ops) proofs op.writer (op.seq - 1)
        (pin_deps-Capped floor q.dependency_ops op (rw (← e) k))
  | inr t ↦ pin_proofs-Capped (pin_deps floor q.dependency_ops) proofs p op t k
]

pub observed-Capped : (floor : Cut) (w : String) (k : ℕ) → Capped floor w k → observed floor w ≤ k
unfolding observed
observed-Capped floor w k (n, e, le) = ground arith

-- Whatever the readers observed, no dependency of a live proof is compactable: the floor lies
-- below each of them, when sequence numbers start at 1.
pub compaction_floor-Pinned :
    (reader_cuts : List Cut) (proofs : List ProofArtifact) (p : ProofArtifact)
    → Memᴰ p proofs
    → ((op : OpId) → Memᴰ op p.dependency_ops → 0 < op.seq)
    → Pinned (compaction_floor reader_cuts proofs) p.dependency_ops
unfolding compaction_floor
compaction_floor-Pinned reader_cuts proofs p m pos op k =
    let floor = pin_proofs (cut_meet reader_cuts) proofs in
    omega (
      arith,
      pos op k,
      observed-Capped floor op.writer (op.seq - 1)
          (pin_proofs-Capped (cut_meet reader_cuts) proofs p op m k),
    )
