-- ===== src/Masking/RoundTrip.antt =====
-- ts/src/masking.ts: `applyUnmask` restores what `applyMask` encrypted.
use hellgraph.Base.{
  ℕ, String, Bool, false, ◌||◌, Option, some, List, [], ◌∷◌, ◌≡◌, ◌≢◌, refl, sym, ap, ◌∙◌, subst,
  arith, Bool-cases, Option-cases, inl, inr, ◌⊎◌, All, ◌>>=◌,
}
use hellgraph.Policy.Context.{Value, undefined, str}
use hellgraph.Masking.{
  Cipher, is_masked, mask_value, unmask_value, path_keys, read_keys, unmask_at, apply_mask,
  apply_unmask, set_keys,
}
use hellgraph.Masking.Leaves.{
  leaf_at, put_leaf, same_keys, Proper, leaf_at-put_leaf, set_keys-put_leaf, read_keys-leaf_at,
  leaf_at-read_keys, Proper-put_leaf,
}
use hellgraph.Masking.Wrapping.{IsFaithful, mask_value-is_masked, unmask_value-mask_value}
use hellgraph.Masking.Payloads.{
  IsUsable, keys_match, covers, same_keys-eq, Sealed, mask_from-Masks, All-IsUsable,
}

-- No text at the path looks masked.
abbrev pub IsPlainAt : Value → List String → Type 0
IsPlainAt v ks = (s : String) → leaf_at v ks ≡ some s → is_masked s ≡ false

abbrev pub IsPlain : Value → String → Type 0
IsPlain v p = (ks : List String) → path_keys p ≡ some ks → IsPlainAt v ks

module _ (cipher : Cipher) (faithful : IsFaithful cipher) (payload : Value) where
  -- Each text is as in the payload, or encrypted.
  abbrev Stage : Value → Type 0
  Stage v =
      (q : List String)
      → (leaf_at v q ≡ leaf_at payload q) ⊎ Sealed cipher (leaf_at payload q) (leaf_at v q)

  -- A text is restored, or no path leads to it and it is as before.
  abbrev Back : Value → Value → List String → Bool → Type 0
  Back v w q hit =
      (leaf_at w q ≡ leaf_at payload q)
      ⊎ (Sealed cipher (leaf_at payload q) (leaf_at w q)
          × (hit ≡ false)
          × (leaf_at w q ≡ leaf_at v q))

  unmask_at-other :
      (v x : Value) (ks : List String)
      → ((s : String) → x ≢ str s)
      → unmask_at cipher v ks x ≡ some v
  unmask_at-other v (str s) ks h = absurd (h s refl)
  unmask_at-other v undefined ks h = refl
  unmask_at-other v x ks h = refl

  -- Where nothing was encrypted, nothing changes.
  unchanged :
      (v : Value) (ks : List String)
      → Stage v
      → ((s : String) (n : ℕ) → leaf_at v ks ≢ some (mask_value cipher n s))
      → (q : List String) → Back v v q (same_keys ks q)
  unchanged v ks stage none_sealed q = elim (stage q) [
    | inl kept ↦ inl kept
    | inr (s, n, e, plain, f) ↦ elim (Bool-cases (same_keys ks q)) [
      | inl hit ↦ absurd (none_sealed s n (ap (leaf_at v) (same_keys-eq ks q hit) ∙ f))
      | inr miss ↦ inr ((s, n, e, plain, f), miss, refl)
    ]
  ]

  restored :
      (v : Value) (ks : List String) (s t : String)
      → Stage v
      → leaf_at v ks ≡ some t
      → leaf_at payload ks ≡ some s
      → (q : List String) → Back v (put_leaf v ks s) q (same_keys ks q)
  restored v ks s t stage there was q =
      let after = leaf_at-put_leaf v ks t s q there in
      elim (Bool-cases (same_keys ks q)) [
        | inl hit ↦ inl (after ∙ rw hit (sym was ∙ ap (leaf_at payload) (same_keys-eq ks q hit)))
        | inr miss ↦
            let same : leaf_at (put_leaf v ks s) q ≡ leaf_at v q = after ∙ rw miss refl in
            elim (stage q) [
              | inl kept ↦ inl (same ∙ kept)
              | inr (r, n, e, plain, f) ↦ inr ((r, n, e, plain, same ∙ f), miss, same)
            ]
      ]

  opened :
      (v : Value) (ks : List String) (t s : String) (n : ℕ)
      → t ≡ mask_value cipher n s
      → (unmask_value cipher t >>= λ (r : String). set_keys v ks (str r)) ≡ set_keys v ks (str s)
  opened v ks t s n e =
      ap (◌>>= λ (r : String). set_keys v ks (str r))
        (ap (unmask_value cipher) e ∙ unmask_value-mask_value cipher faithful n s)

  unmask_at-Back :
      (v : Value) (k : String) (ks : List String)
      → Stage v
      → Proper v (k ∷ ks)
      → IsPlainAt payload (k ∷ ks)
      → (w : Value) × (unmask_at cipher v (k ∷ ks) (read_keys v (k ∷ ks)) ≡ some w)
        × ((q : List String) → Back v w q (same_keys (k ∷ ks) q))
        × ((q : List String) → Proper v q → Proper w q)
  unmask_at-Back v k ks stage proper plain = elim (Option-cases (leaf_at v (k ∷ ks))) [
    | inl absent ↦ (
      v,
      unmask_at-other v (read_keys v (k ∷ ks)) (k ∷ ks)
          (λ s e. cc (leaf_at-read_keys v (k ∷ ks) s proper e)),
      unchanged v (k ∷ ks) stage (λ s n e. cc),
      λ q h. h,
    )
    | inr (t, there) ↦ elim (Bool-cases (is_masked t)) [
      | inr bare ↦ (
        v,
        ap (unmask_at cipher v (k ∷ ks)) (read_keys-leaf_at v (k ∷ ks) t there) ∙ rw bare refl,
        unchanged v (k ∷ ks) stage (λ s n e. cc (mask_value-is_masked cipher faithful n s)),
        λ q h. h,
      )
      | inl masked ↦ elim (stage (k ∷ ks)) [
        | inl kept ↦ absurd (cc (plain t (sym kept ∙ there)))
        | inr (s, n, e, was_plain, f) ↦ (
          put_leaf v (k ∷ ks) s,
          ap (unmask_at cipher v (k ∷ ks)) (read_keys-leaf_at v (k ∷ ks) t there)
              ∙ rw masked (opened v (k ∷ ks) t s n (cc))
              ∙ set_keys-put_leaf v k ks t s there,
          restored v (k ∷ ks) s t stage there e,
          λ q. Proper-put_leaf v (k ∷ ks) t s q there,
        )
      ]
    ]
  ]

  then-Back :
      (v u w : Value) (q : List String) (first rest : Bool)
      → Back v u q first
      → Back u w q rest
      → Back v w q (first || rest)
  then-Back v u w q first rest a (inl back) = inl back
  then-Back v u w q first rest (inl back) (inr (sealed, miss, same)) = inl (same ∙ back)
  then-Back v u w q first rest (inr (_, passed, before)) (inr (sealed, miss, same)) =
      inr (sealed, ground arith, same ∙ before)

  Back-Stage :
      (v u : Value) (ks : List String) → ((q : List String) → Back v u q (same_keys ks q)) → Stage u
  Back-Stage v u ks back q = elim (back q) [ inl kept ↦ inl kept | inr (sealed, _, _) ↦ inr sealed ]

  run_step :
      (p : String) (ps : List String) (v : Value) (ks : List String) (between : Value)
      → path_keys p ≡ some ks
      → unmask_at cipher v ks (read_keys v ks) ≡ some between
      → apply_unmask cipher v (p ∷ ps) ≡ apply_unmask cipher between ps
  unfolding apply_unmask
  run_step p ps v ks between keys step =
      ap
        (λ (o : Option (List String)).
          o >>= (λ (js : List String). unmask_at cipher v js (read_keys v js)) >>= λ (w : Value).
          apply_unmask cipher w ps)
        keys
      ∙ ap (λ (o : Option Value). o >>= λ (w : Value). apply_unmask cipher w ps) step

  apply_unmask-Back :
      (ps : List String) (v : Value)
      → Stage v
      → All (IsUsable v) ps
      → All (IsPlain payload) ps
      → (w : Value) × (apply_unmask cipher v ps ≡ some w)
        × ((q : List String) → Back v w q (covers ps q))
  unfolding apply_unmask covers
  apply_unmask-Back [] v stage u plain =
      (v, refl, λ q. elim (stage q) [ inl kept ↦ inl kept | inr sealed ↦ inr (sealed, refl, refl) ])
  apply_unmask-Back (p ∷ ps) v stage u plain =
      let (k, ks, keys, proper) = u.0 in
      let (between, step, back, keeps) =
        unmask_at-Back v k ks stage proper (plain.0 (k ∷ ks) keys) in
      let (w, run, rest) =
        apply_unmask-Back ps between (Back-Stage v between (k ∷ ks) back)
          (All-IsUsable cipher faithful v between keeps ps u.1) plain.1 in
      (
        w,
        run_step p ps v (k ∷ ks) between keys step ∙ run,
        λ q.
            then-Back v between w q (keys_match (path_keys p) q) (covers ps q)
              (subst (λ (o : Option (List String)). Back v between q (keys_match o q)) (sym keys)
                (back q))
              (rest q),
      )

  -- Masking a payload and unmasking it under the same paths both succeed and leave every text of
  -- the payload as it was, when each path is safe, has a key, takes no member of a text and leads
  -- to no text that looks masked, and the cipher undoes itself on one line.
  pub apply_unmask-apply_mask :
      (paths : List String)
      → All (IsUsable payload) paths
      → All (IsPlain payload) paths
      → (w x : Value) × (apply_mask cipher payload paths ≡ some w)
        × (apply_unmask cipher w paths ≡ some x)
        × ((q : List String) → leaf_at x q ≡ leaf_at payload q)
  unfolding apply_mask
  apply_unmask-apply_mask paths u plain =
      let (w, mask, masks, keeps) = mask_from-Masks cipher faithful paths 0 payload u in
      let stage : Stage w =
        λ q. elim (masks q) [ inl (kept, _) ↦ inl kept | inr (sealed, _) ↦ inr sealed ] in
      let (x, unmask, back) =
        apply_unmask-Back paths w stage (All-IsUsable cipher faithful payload w keeps paths u)
          plain in
      (
        w,
        x,
        mask,
        unmask,
        λ q. elim (back q) [
          | inl restored_there ↦ restored_there
          | inr (_, miss, same) ↦ elim (masks q) [
            | inl (kept, _) ↦ same ∙ kept
            | inr (_, hit) ↦ absurd (cc)
          ]
        ],
      )
