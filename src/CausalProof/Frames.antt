-- ===== src/CausalProof/Frames.antt =====
-- Binding a proof to its causal frame, and honouring it (ts/src/causal-proof.ts).
use hellgraph.Base.{
  String, ◌≡◌, ◌↔◌, ◌⊎◌, inl, inr, refl, sym, ap, ◌∙◌, true, false, not, Bool, ◌&&◌, some, List, [],
  ◌∷◌, ◌++◌, none, map, arith, ◌==◌, ==_iff, ==_refl, Memᴰ-cons, any, keep, length, nat_eq,
  Bool-cases, keep-append,
}
use mathlib.Core.List.{Memᴰ, append-nil}
use mathlib.Core.List.Memᴰ
use hellgraph.Base.Text.{with_colon-decimal}
use hellgraph.CausalProof.{
  Cut, OpId, op_in_cut, op_id_str, ProofArtifact, bound, bind_proof, first_outside, cut_is_empty,
  honor_proof, observed_deps, is_dependency, agree, withheld, Honored, in_frame,
}
use hellgraph.CausalProof.Cuts.{Below, op_in_cut_mono}

-- Two operations with the same key are one.
pub op_id_str-injective : (a b : OpId) → op_id_str a ≡ op_id_str b → a ≡ b
unfolding op_id_str
op_id_str-injective a b e =
    let (w, n) = with_colon-decimal a.writer b.writer a.seq b.seq e in
    λ i. record { writer = w i; seq = n i }

-- Every dependency is observed at the cut.
abbrev pub AllIn : List OpId → Cut → Type 0
AllIn deps cut = (op : OpId) → Memᴰ op deps → op_in_cut op cut ≡ true

first_outside-none : (cut : Cut) (ops : List OpId) → (first_outside cut ops ≡ none) ↔ AllIn ops cut
unfolding first_outside
first_outside-none cut [] = (λ _ op m. absurd (Memᴰ.not-nil m), λ _. refl)
first_outside-none cut (x ∷ ops) =
    let rest = first_outside-none cut ops in
    (
      λ h op m. elim ((Memᴰ-cons op x ops).0 m) [
        | inl e ↦ rw e (ground arith)
        | inr t ↦ rest.0 (ground arith) op t
      ],
      λ h. ground (arith, h x (Memᴰ.head refl), rest.1 (λ op m. h op (Memᴰ.tail m))),
    )

any_missing :
    (cut : Cut) (ops : List OpId)
    → (any (λ dep. not (op_in_cut dep cut)) ops ≡ false) ↔ AllIn ops cut
any_missing cut [] = (λ _ op m. absurd (Memᴰ.not-nil m), λ _. refl)
any_missing cut (x ∷ ops) =
    let rest = any_missing cut ops in
    (
      λ h op m. elim ((Memᴰ-cons op x ops).0 m) [
        | inl e ↦ rw e (ground arith)
        | inr t ↦ rest.0 (ground arith) op t
      ],
      λ h. ground (arith, h x (Memᴰ.head refl), rest.1 (λ op m. h op (Memᴰ.tail m))),
    )

-- `bindProof` returns a proof exactly when its frame is not empty and every dependency lies in it,
-- and the proof is the one that was given.
pub bind_proof_iff :
    (args p : ProofArtifact)
    → (bind_proof args ≡ bound p) ↔ (
        (args ≡ p)
        × (cut_is_empty args.derived_against ≡ false)
        × AllIn args.dependency_ops args.derived_against)
unfolding bind_proof
bind_proof_iff args p =
    let frame = first_outside-none args.derived_against args.dependency_ops in
    (λ h. (ground arith, ground arith, frame.0 (ground arith)), λ h. ground (arith, frame.1 h.2))

agree_lem :
    (seen expected : List String)
    → (nat_eq (length seen) (length expected) && agree seen expected ≡ true) ↔ (seen ≡ expected)
unfolding agree
agree_lem [] [] = (λ _. refl, λ _. refl)
agree_lem [] (e ∷ es) = (λ h. ground arith, λ h. cc)
agree_lem (o ∷ os) [] = (λ h. ground arith, λ h. cc)
agree_lem (o ∷ os) (e ∷ es) = ground (arith, agree_lem os es, ==_iff o e)

pub keep-congr {ℓ} :
    {A : Type ℓ} (p q : A → Bool) (xs : List A) → ((x : A) → p x ≡ q x) → keep p xs ≡ keep q xs
keep-congr p q [] h = refl
keep-congr p q (x ∷ xs) h = ground (arith, h x, keep-congr p q xs h)

-- `depKeys.has` finds the operation itself, since its key is no other's.
pub is_dependency_iff :
    (deps : List OpId) (op : OpId) → (is_dependency deps op ≡ true) ↔ Memᴰ op deps
unfolding is_dependency
is_dependency_iff [] op = (λ h. cc, λ m. absurd (Memᴰ.not-nil m))
is_dependency_iff (d ∷ deps) op = (
  λ h. elim (Bool-cases (op_id_str d == op_id_str op)) [
    | inl e ↦ Memᴰ.head (sym (op_id_str-injective d op ((==_iff _ _).0 e)))
    | inr n ↦ Memᴰ.tail ((is_dependency_iff deps op).0 (ground arith))
  ],
  λ m. elim ((Memᴰ-cons op d deps).0 m) [
    | inl e ↦ rw e (ground (arith, ==_refl (op_id_str d)))
    | inr t ↦ ground (arith, (is_dependency_iff deps op).1 t)
  ],
)

-- Once the dependencies are observed, the read cut no longer matters.
pub observed_deps_lem :
    (p : ProofArtifact) (cut : Cut) (order : List OpId)
    → AllIn p.dependency_ops cut
    → observed_deps p cut order ≡ map op_id_str (keep (is_dependency p.dependency_ops) order)
unfolding observed_deps
observed_deps_lem p cut order all =
    ap (map op_id_str) (
      keep-congr _ _ order
        (λ op. ground (arith, (is_dependency_iff p.dependency_ops op).0, all op)))

map_keys-injective : (xs ys : List OpId) → map op_id_str xs ≡ map op_id_str ys → xs ≡ ys
map_keys-injective [] [] h = refl
map_keys-injective [] (y ∷ ys) h = cc
map_keys-injective (x ∷ xs) [] h = cc
map_keys-injective (x ∷ xs) (y ∷ ys) h =
    cc (op_id_str-injective x y (cc), map_keys-injective xs ys (cc))

abbrev pub honored : ProofArtifact → Honored
honored p = record { status = in_frame; verdict = some p.verdict }

-- A proof is honoured exactly when the read cut observes every dependency and the linearization,
-- restricted to the dependencies, is the recorded order.
pub honor_proof_iff :
    (p : ProofArtifact) (cut : Cut) (order : List OpId)
    → (honor_proof p cut order ≡ honored p) ↔ (
        AllIn p.dependency_ops cut
        × (keep (is_dependency p.dependency_ops) order ≡ p.dependency_ops))
unfolding honor_proof
honor_proof_iff p cut order =
    let present = any_missing cut p.dependency_ops in
    let expected = map op_id_str p.dependency_ops in
    let matched = agree_lem (observed_deps p cut order) expected in
    (
      λ h.
          let all = present.0 (ground arith) in
          (
            all,
            map_keys-injective _ _
                (sym (observed_deps_lem p cut order all) ∙ matched.0 (ground arith)),
          ),
      λ h. ground (
        arith,
        present.1 h.0,
        matched.1 (observed_deps_lem p cut order h.0 ∙ ap (map op_id_str) h.1),
      ),
    )

-- A proof that is not honoured has its verdict withheld: there is no third answer.
pub honor_proof_cases :
    (p : ProofArtifact) (cut : Cut) (order : List OpId)
    → (honor_proof p cut order ≡ honored p) ⊎ (honor_proof p cut order ≡ withheld)
unfolding honor_proof
honor_proof_cases p cut order = ground arith

keep_none :
    (deps extra : List OpId)
    → ((op : OpId) → Memᴰ op extra → ¬ Memᴰ op deps)
    → keep (is_dependency deps) extra ≡ []
keep_none deps [] h = refl
keep_none deps (x ∷ extra) h = ground (
  arith,
  h x (Memᴰ.head refl),
  (is_dependency_iff deps x).0,
  keep_none deps extra (λ op m. h op (Memᴰ.tail m)),
)

-- Append-only growth keeps a proof honoured: more operations at the end of the linearization, none
-- of them a dependency, and a read cut that observes at least as much.
pub honor_proof-append :
    (p : ProofArtifact) (cut cut' : Cut) (order extra : List OpId)
    → honor_proof p cut order ≡ honored p
    → Below cut cut'
    → ((op : OpId) → Memᴰ op extra → ¬ Memᴰ op p.dependency_ops)
    → honor_proof p cut' (order ++ extra) ≡ honored p
honor_proof-append p cut cut' order extra h grow fresh =
    let (all, same) = (honor_proof_iff p cut order).0 h in
    (honor_proof_iff p cut' (order ++ extra)).1 (
      λ op m. op_in_cut_mono op cut cut' grow (all op m),
      keep-append (is_dependency p.dependency_ops) order extra
          ∙ ap (λ xs. keep (is_dependency p.dependency_ops) order ++ xs)
              (keep_none p.dependency_ops extra fresh)
          ∙ append-nil _
          ∙ same,
    )
