-- ===== src/Masking/Payloads.antt =====
-- ts/src/masking.ts: what `applyMask` leaves of the texts of a payload.
use hellgraph.Base.{
  ℕ, ◌+◌, String, Bool, true, false, ◌||◌, Option, none, some, List, [], ◌∷◌, ◌≡◌, ◌≢◌, refl, sym,
  ap, ◌∙◌, subst, ==_iff, arith, Bool-cases, Option-cases, inl, inr, ◌⊎◌, All, ◌>>=◌,
}
use mathlib.Core.List.{Memᴰ}
use mathlib.Core.List.Memᴰ
use mathlib.Core.Option.{some-injective}
use hellgraph.Policy.Context.{Value, undefined, str}
use hellgraph.Masking.{
  Cipher, is_masked, mask_value, path_keys, read_keys, mask_at, mask_from, apply_mask,
}
use hellgraph.Masking.Leaves.{
  leaf_at, put_leaf, same_keys, Proper, leaf_at-put_leaf, set_keys-put_leaf, read_keys-leaf_at,
  leaf_at-read_keys, Proper-put_leaf,
}
use hellgraph.Masking.Wrapping.{IsFaithful, mask_value-is_masked}

-- The path is safe, has a key, and takes no member of a text of the payload.
abbrev pub IsUsable : Value → String → Type 0
IsUsable v p = (k : String) × (ks : List String) × (path_keys p ≡ some (k ∷ ks)) × Proper v (k ∷ ks)

abbrev pub keys_match : Option (List String) → List String → Bool
keys_match none q = false
keys_match (some ks) q = same_keys ks q

-- One of the paths leads by these keys.
unfoldable pub covers : List String → List String → Bool
covers [] q = false
covers (p ∷ ps) q = keys_match (path_keys p) q || covers ps q

abbrev pub IsMaskedText : Option String → Type 0
IsMaskedText none = Unit
IsMaskedText (some t) = is_masked t ≡ true

pub same_keys-eq : (ks js : List String) → same_keys ks js ≡ true → ks ≡ js
unfolding same_keys
same_keys-eq [] [] h = refl
same_keys-eq [] (j ∷ js) h = cc
same_keys-eq (k ∷ ks) [] h = cc
same_keys-eq (k ∷ ks) (j ∷ js) h = ground (arith, ==_iff k j, same_keys-eq ks js)

-- More paths cover more.
pub covers-more :
    (ps rs : List String) (q : List String)
    → ((p : String) → Memᴰ p ps → Memᴰ p rs)
    → covers ps q ≡ true
    → covers rs q ≡ true
unfolding covers
covers-more [] rs q h e = cc
covers-more (p ∷ ps) rs q h e = elim (Bool-cases (keys_match (path_keys p) q)) [
  | inl here ↦ mem-covers rs p (h p (Memᴰ.head refl)) here
  | inr other ↦ covers-more ps rs q (λ r m. h r (Memᴰ.tail m)) (ground arith)
]
  where
    mem-covers :
        (rs : List String) (p : String)
        → Memᴰ p rs
        → keys_match (path_keys p) q ≡ true
        → covers rs q ≡ true
    mem-covers [] p m here = absurd (Memᴰ.not-nil m)
    mem-covers (r ∷ rs) p m here = elim (Memᴰ.cases_cons m) [
      | inl e ↦ rw (subst (λ (x : String). keys_match (path_keys x) q ≡ true) e here) refl
      | inr t ↦ ground (arith, mem-covers rs p t here)
    ]

module _ (cipher : Cipher) where
  -- What masking makes of what is at a covered place: no text where there was none, a text that
  -- was masked already as it was, and a plain text encrypted.
  abbrev pub MaskedAs : Option String → Option String → Type 0
  MaskedAs none after = after ≡ none
  MaskedAs (some s) after =
      ((is_masked s ≡ true) × (after ≡ some s))
      ⊎ ((is_masked s ≡ false) × (n : ℕ) × (after ≡ some (mask_value cipher n s)))

  -- A plain text was encrypted.
  abbrev pub Sealed : Option String → Option String → Type 0
  Sealed before after =
      (s : String) × (n : ℕ) × (before ≡ some s)
      × (is_masked s ≡ false)
      × (after ≡ some (mask_value cipher n s))

  -- What a run over paths makes of a text, `hit` if one of them leads to it.
  abbrev pub Outcome : Option String → Option String → Bool → Type 0
  Outcome before after hit =
      ((after ≡ before) × (hit ≡ true → IsMaskedText after)) ⊎ (Sealed before after × (hit ≡ true))

  abbrev pub Masks : Value → Value → (List String → Bool) → Type 0
  Masks v w hit = (q : List String) → Outcome (leaf_at v q) (leaf_at w q) (hit q)

  pub mask_at-other :
      (n : ℕ) (v x : Value) (ks : List String)
      → ((s : String) → x ≢ str s)
      → mask_at cipher n v ks x ≡ some v
  mask_at-other n v (str s) ks h = absurd (h s refl)
  mask_at-other n v undefined ks h = refl
  mask_at-other n v x ks h = refl

  at_keys :
      (v : Value) (ks q : List String)
      → same_keys ks q ≡ true
      → IsMaskedText (leaf_at v ks)
      → IsMaskedText (leaf_at v q)
  at_keys v ks q hit =
      subst (λ (js : List String). IsMaskedText (leaf_at v js)) (same_keys-eq ks q hit)

  sealed_at :
      (n : ℕ) (v : Value) (ks : List String) (s : String)
      → leaf_at v ks ≡ some s
      → is_masked s ≡ false
      → Masks v (put_leaf v ks (mask_value cipher n s)) (same_keys ks)
  sealed_at n v ks s there plain q = elim (Bool-cases (same_keys ks q)) [
    | inl hit ↦ inr (
      (
        s,
        n,
        subst (λ (js : List String). leaf_at v js ≡ some s) (same_keys-eq ks q hit) there,
        plain,
        leaf_at-put_leaf v ks s (mask_value cipher n s) q there ∙ rw hit refl,
      ),
      hit,
    )
    | inr miss ↦
        inl (leaf_at-put_leaf v ks s (mask_value cipher n s) q there ∙ rw miss refl, λ hit. cc)
  ]

  -- One path.
  mask_at-Masks :
      (n : ℕ) (v : Value) (k : String) (ks : List String)
      → Proper v (k ∷ ks)
      → (w : Value) × (mask_at cipher n v (k ∷ ks) (read_keys v (k ∷ ks)) ≡ some w)
        × Masks v w (same_keys (k ∷ ks))
        × ((q : List String) → Proper v q → Proper w q)
  mask_at-Masks n v k ks proper = elim (Option-cases (leaf_at v (k ∷ ks))) [
    | inl absent ↦ (
      v,
      mask_at-other n v (read_keys v (k ∷ ks)) (k ∷ ks)
          (λ s e. cc (leaf_at-read_keys v (k ∷ ks) s proper e)),
      λ q. inl (refl, λ hit. at_keys v (k ∷ ks) q hit (rw absent tt)),
      λ q h. h,
    )
    | inr (s, there) ↦ elim (Bool-cases (is_masked s)) [
      | inl old ↦ (
        v,
        ap (mask_at cipher n v (k ∷ ks)) (read_keys-leaf_at v (k ∷ ks) s there) ∙ rw old refl,
        λ q. inl (refl, λ hit. at_keys v (k ∷ ks) q hit (rw there old)),
        λ q h. h,
      )
      | inr plain ↦ (
        put_leaf v (k ∷ ks) (mask_value cipher n s),
        ap (mask_at cipher n v (k ∷ ks)) (read_keys-leaf_at v (k ∷ ks) s there)
            ∙ rw plain (set_keys-put_leaf v k ks s (mask_value cipher n s) there),
        λ q. sealed_at n v (k ∷ ks) s there plain q,
        λ q. Proper-put_leaf v (k ∷ ks) s (mask_value cipher n s) q there,
      )
    ]
  ]

  module _ (faithful : IsFaithful cipher) where
    -- A run after a path.
    then_masks :
        (before between after : Option String) (first rest : Bool)
        → Outcome before between first
        → Outcome between after rest
        → Outcome before after (first || rest)
    then_masks before between after first rest (inl (kept, masked)) (inl (still, masks)) = inl (
      still ∙ kept,
      λ h. elim (Bool-cases first) [
        | inl a ↦ subst IsMaskedText (sym still) (masked a)
        | inr b ↦ masks (ground arith)
      ],
    )
    then_masks before between after first rest (inl (kept, masked))
          (inr ((s, n, e, plain, f), hit)) =
        inr ((s, n, sym kept ∙ e, plain, f), ground arith)
    then_masks before between after first rest (inr ((s, n, e, plain, f), hit))
          (inl (still, masks)) =
        inr ((s, n, e, plain, still ∙ f), ground arith)
    then_masks before between after first rest (inr ((s, n, e, plain, f), hit))
          (inr ((t, m, g, bare, i), again)) =
        absurd (cc (mask_value-is_masked cipher faithful n s))

    MaskedAs-outcome :
        (before after : Option String) (hit : Bool)
        → Outcome before after hit
        → hit ≡ true
        → MaskedAs before after
    MaskedAs-outcome none after hit (inl (kept, masked)) h = kept
    MaskedAs-outcome (some s) after hit (inl (kept, masked)) h =
        inl (subst IsMaskedText kept (masked h), kept)
    MaskedAs-outcome none after hit (inr ((s, n, e, plain, f), _)) h = absurd (cc)
    MaskedAs-outcome (some t) after hit (inr ((s, n, e, plain, f), _)) h =
        let same : t ≡ s = some-injective t s e in
        inr (
          ap is_masked same ∙ plain,
          n,
          f ∙ ap (λ (x : String). some (mask_value cipher n x)) (sym same),
        )

    uncovered :
        (before after : Option String) (hit : Bool)
        → Outcome before after hit
        → hit ≡ false
        → after ≡ before
    uncovered before after hit (inl (kept, masked)) h = kept
    uncovered before after hit (inr (sealed, yes_hit)) h = absurd (cc)

    pub All-IsUsable :
        (v w : Value)
        → ((q : List String) → Proper v q → Proper w q)
        → (ps : List String) → All (IsUsable v) ps
        → All (IsUsable w) ps
    All-IsUsable v w keeps [] u = tt
    All-IsUsable v w keeps (p ∷ ps) ((k, ks, keys, proper), u) =
        ((k, ks, keys, keeps (k ∷ ks) proper), All-IsUsable v w keeps ps u)

    run_step :
        (p : String) (ps : List String) (n : ℕ) (v : Value) (ks : List String) (between : Value)
        → path_keys p ≡ some ks
        → mask_at cipher n v ks (read_keys v ks) ≡ some between
        → mask_from cipher n v (p ∷ ps) ≡ mask_from cipher (n + 1) between ps
    unfolding mask_from
    run_step p ps n v ks between keys step =
        ap
          (λ (o : Option (List String)).
            o >>= (λ (js : List String). mask_at cipher n v js (read_keys v js)) >>= λ (w : Value).
            mask_from cipher (n + 1) w ps)
          keys
        ∙ ap (λ (o : Option Value). o >>= λ (w : Value). mask_from cipher (n + 1) w ps) step

    pub mask_from-Masks :
        (ps : List String) (n : ℕ) (v : Value)
        → All (IsUsable v) ps
        → (w : Value) × (mask_from cipher n v ps ≡ some w)
          × Masks v w (covers ps)
          × ((q : List String) → Proper v q → Proper w q)
    unfolding mask_from covers
    mask_from-Masks [] n v u = (v, refl, λ q. inl (refl, λ h. cc), λ q h. h)
    mask_from-Masks (p ∷ ps) n v u =
        let (k, ks, keys, proper) = u.0 in
        let (between, step, first, keeps) = mask_at-Masks n v k ks proper in
        let (w, run, rest, keep_on) =
          mask_from-Masks ps (n + 1) between (All-IsUsable v between keeps ps u.1) in
        (
          w,
          run_step p ps n v (k ∷ ks) between keys step ∙ run,
          λ q.
              then_masks (leaf_at v q) (leaf_at between q) (leaf_at w q)
                (keys_match (path_keys p) q) (covers ps q)
                (subst
                  (λ (o : Option (List String)).
                    Outcome (leaf_at v q) (leaf_at between q) (keys_match o q))
                  (sym keys) (first q))
                (rest q),
          λ q h. keep_on q (keeps q h),
        )

    -- Masking succeeds, a text that one of the paths leads to is encrypted in the result, or as it
    -- was if it was masked already, no text appears at a covered place that had none, and every
    -- other text is as it was; when each path is safe, has a key and takes no member of a text, and
    -- the cipher undoes itself on one line.
    pub apply_mask_lem :
        (payload : Value) (paths : List String)
        → All (IsUsable payload) paths
        → (w : Value) × (apply_mask cipher payload paths ≡ some w)
          × ((q : List String) → covers paths q ≡ true → MaskedAs (leaf_at payload q) (leaf_at w q))
          × ((q : List String) → covers paths q ≡ false → leaf_at w q ≡ leaf_at payload q)
    unfolding apply_mask
    apply_mask_lem payload paths u =
        let (w, run, masks, _) = mask_from-Masks paths 0 payload u in
        (
          w,
          run,
          λ q hit.
              MaskedAs-outcome (leaf_at payload q) (leaf_at w q) (covers paths q) (masks q) hit,
          λ q miss. uncovered (leaf_at payload q) (leaf_at w q) (covers paths q) (masks q) miss,
        )
