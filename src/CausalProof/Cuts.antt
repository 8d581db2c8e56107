-- ===== src/CausalProof/Cuts.antt =====
-- Cuts of ts/src/causal-proof.ts as a lattice, and the cut of a linearization.
use hellgraph.Base.{
  ℕ, max, ◌≤◌, String, ◌≡◌, ◌↔◌, inl, inr, refl, true, List, [], ◌∷◌, none, arith, ◌==◌, ==_iff,
  ==_refl, Memᴰ-cons, if◌then◌else◌,
}
use mathlib.Core.List.{Memᴰ}
use mathlib.Core.List.Memᴰ
use hellgraph.Dict
use hellgraph.Dict.{IsUnique}
use hellgraph.CausalProof.{
  Cut, OpId, observed, op_in_cut, cut_join, cut_subsumes, cut_equals, cut_from_order, observe_all,
}

-- Every writer's count in `b` is at most that in `a`.
abbrev pub Below : Cut → Cut → Type 0
Below b a = (w : String) → observed b w ≤ observed a w

pub observed-put :
    (a : Cut) (w : String) (n : ℕ) (v : String)
    → observed (Dict.put a w n) v ≡ (if w == v then n else observed a v)
unfolding observed
observed-put a w n v = ground (arith, Dict.get-put a w n v)

pub observed-cons :
    (a : Cut) (w : String) (n : ℕ) (v : String)
    → observed ((w, n) ∷ a) v ≡ (if w == v then n else observed a v)
unfolding observed Dict.get
observed-cons a w n v = ground arith

pub observed_fresh : (a : Cut) (w : String) → Dict.get a w ≡ none → observed a w ≡ 0
unfolding observed
observed_fresh a w h = ground arith

subsumes→Below : (a b : Cut) → cut_subsumes a b ≡ true → Below b a
unfolding cut_subsumes
subsumes→Below a [] h w = unfold observed Dict.get in omega arith
subsumes→Below a ((v, n) ∷ b) h w =
    ground (arith, observed-cons b v n w, subsumes→Below a b (ground arith) w, ==_iff v w)

Below→subsumes : (a b : Cut) → IsUnique b → Below b a → cut_subsumes a b ≡ true
unfolding cut_subsumes
Below→subsumes a [] u h = refl
Below→subsumes a ((v, n) ∷ b) u h = ground (
  arith,
  h v,
  observed-cons b v n v,
  ==_refl v,
  Below→subsumes a b u.1
      (λ w. ground (arith, h w, observed-cons b v n w, ==_iff v w, observed_fresh b v u.0)),
)

-- The loop of `cutSubsumes` decides the componentwise order, when the second cut has one entry for
-- a writer.
pub cut_subsumes_iff : (a b : Cut) → IsUnique b → (cut_subsumes a b ≡ true) ↔ Below b a
cut_subsumes_iff a b u = (subsumes→Below a b, Below→subsumes a b u)

pub observed-cut_join :
    (a b : Cut) (w : String)
    → IsUnique b
    → observed (cut_join a b) w ≡ max (observed a w) (observed b w)
unfolding cut_join
observed-cut_join a [] w u = unfold observed Dict.get in omega arith
observed-cut_join a ((v, n) ∷ b) w u = ground (
  arith,
  observed-cut_join (Dict.put a v (max (observed a v) n)) b w,
  observed-put a v (max (observed a v) n) w,
  observed-cons b v n w,
  ==_iff v w,
  observed_fresh b v,
)

-- The join of two cuts is their least upper bound: a cut subsumes the join exactly when it subsumes
-- both, when the second has one entry for a writer.
pub cut_join_lub : (a b c : Cut) → IsUnique b → Below (cut_join a b) c ↔ (Below a c × Below b c)
cut_join_lub a b c u = (
  λ h. (
    λ w. omega (arith, h w, observed-cut_join a b w u),
    λ w. omega (arith, h w, observed-cut_join a b w u),
  ),
  λ h w. omega (arith, h.0 w, h.1 w, observed-cut_join a b w u),
)

-- A write of a maximum stays below `c` when both numbers do.
Below-raise :
    (out c : Cut) (w : String) (n : ℕ)
    → Below (Dict.put out w (max (observed out w) n)) c ↔ (Below out c × (n ≤ observed c w))
Below-raise out c w n =
    let raised = λ (v : String). observed-put out w (max (observed out w) n) v in
    (
      λ h. (
        λ v. ground (arith, h v, raised v, ==_iff w v),
        ground (arith, h w, raised w, ==_refl w),
      ),
      λ h v. ground (arith, h.0 v, h.1, raised v, ==_iff w v),
    )

pub in_cut_iff : (op : OpId) (c : Cut) → (op_in_cut op c ≡ true) ↔ (op.seq ≤ observed c op.writer)
unfolding op_in_cut
in_cut_iff op c = ground arith

pub op_in_cut_mono :
    (op : OpId) (c d : Cut) → Below c d → op_in_cut op c ≡ true → op_in_cut op d ≡ true
unfolding op_in_cut
op_in_cut_mono op c d h k = ground (arith, h op.writer)

observe_all_least :
    (out c : Cut) (order : List OpId)
    → Below (observe_all out order) c
      ↔ (Below out c × ((op : OpId) → Memᴰ op order → op_in_cut op c ≡ true))
unfolding observe_all
observe_all_least out c [] = (λ h. (h, λ op m. absurd (Memᴰ.not-nil m)), λ h. h.0)
observe_all_least out c (op ∷ order) =
    let out' = Dict.put out op.writer (max (observed out op.writer) op.seq) in
    let rest = observe_all_least out' c order in
    let raise = Below-raise out c op.writer op.seq in
    (
      λ h.
          let (below, all) = rest.0 h in
          let (old, new) = raise.0 below in
          (
            old,
            λ q m. elim ((Memᴰ-cons q op order).0 m) [
              | inl e ↦ rw e ((in_cut_iff op c).1 new)
              | inr t ↦ all q t
            ],
          ),
      λ h. rest.1 (
        raise.1 (h.0, (in_cut_iff op c).0 (h.1 op (Memᴰ.head refl))),
        λ q m. h.1 q (Memᴰ.tail m),
      ),
    )

-- The cut of a linearization is the least cut that contains its operations: a cut subsumes it
-- exactly when every operation of the linearization lies in that cut.
pub cut_from_order_least :
    (order : List OpId) (c : Cut)
    → Below (cut_from_order order) c ↔ ((op : OpId) → Memᴰ op order → op_in_cut op c ≡ true)
unfolding cut_from_order
cut_from_order_least order c =
    let least = observe_all_least [] c order in
    (λ h. (least.0 h).1, λ h. least.1 (λ w. unfold observed Dict.get in omega arith, h))

pub cut_join-IsUnique : (a b : Cut) → IsUnique a → IsUnique (cut_join a b)
unfolding cut_join
cut_join-IsUnique a [] u = u
cut_join-IsUnique a ((v, n) ∷ b) u =
    cut_join-IsUnique (Dict.put a v (max (observed a v) n)) b
      (Dict.put-IsUnique a v (max (observed a v) n) u)

-- Two cuts with unique writers are equal for the code exactly when they show the same counts.
pub cut_equals_iff :
    (a b : Cut)
    → IsUnique a
    → IsUnique b
    → (cut_equals a b ≡ true) ↔ ((w : String) → observed a w ≡ observed b w)
unfolding cut_equals
cut_equals_iff a b ua ub =
    let ab = cut_subsumes_iff a b ub in
    let ba = cut_subsumes_iff b a ua in
    (
      λ h w. omega (arith, ab.0 (ground arith) w, ba.0 (ground arith) w),
      λ h. ground (arith, ab.1 (λ w. omega (arith, h w)), ba.1 (λ w. omega (arith, h w))),
    )
