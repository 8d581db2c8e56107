-- ===== src/Federation/Feed.antt =====
-- ts/src/autobase-view.ts: a consumer that pages through the change feed while the view grows.
use hellgraph.Base.{
  ℕ, min, Option, none, some, List, [], ◌∷◌, ◌++◌, ◌≡◌, refl, sym, ap, ◌∙◌, arith, length,
  length-append,
}
use mathlib.Core.List.{append_assoc, append-nil}
use hellgraph.CausalProof.{OpId}
use hellgraph.Federation.{FederatedBlock, View, add_block, data_ops, slice_from, changes_since}

module _ {N : Type 0} where
  -- The pages of a consumer: it asks again each time the view has grown by a piece, with the cursor that
  -- the last answer gave.
  unfoldable pub pages : View N → ℕ → List (View N) → List (FederatedBlock N)
  pages view since [] = []
  pages view since (piece ∷ pieces) =
      let grown = view ++ piece in
      let (ops, next) = changes_since grown since in ops ++ pages grown next pieces

  unfoldable pub grow : View N → List (View N) → View N
  grow view [] = view
  grow view (piece ∷ pieces) = grow (view ++ piece) pieces

  add_block-append :
      (o : Option OpId)
      → (b : FederatedBlock N) → {bs : List (FederatedBlock N)} → (cs ds : List (FederatedBlock N))
      → bs ≡ cs ++ ds
      → add_block o b bs ≡ add_block o b cs ++ ds
  add_block-append none b cs ds h = h
  add_block-append (some id) b cs ds h = ap (b ∷◌) h

  data_ops-append : (v w : View N) → data_ops (v ++ w) ≡ data_ops v ++ data_ops w
  unfolding data_ops
  data_ops-append [] w = refl
  data_ops-append (none ∷ v) w = data_ops-append v w
  data_ops-append (some b ∷ v) w =
      add_block-append b.fed_prov b (data_ops v) (data_ops w) (data_ops-append v w)

  slice_from-append : (bs cs : List (FederatedBlock N)) → slice_from (length bs) (bs ++ cs) ≡ cs
  unfolding slice_from
  slice_from-append [] cs = refl
  slice_from-append (b ∷ bs) cs = slice_from-append bs cs

  min-length :
      (v w : View N) → min (length (data_ops v)) (length (data_ops (v ++ w))) ≡ length (data_ops v)
  min-length v w =
      let bound = ap length (data_ops-append v w) ∙ length-append (data_ops v) (data_ops w) in
      omega arith

  -- One answer: what the piece added, and the number of operations so far.
  changes_since-append :
      (v w : View N)
      → changes_since (v ++ w) (length (data_ops v)) ≡ (data_ops w, length (data_ops (v ++ w)))
  unfolding changes_since
  changes_since-append v w =
      ap (λ n. (slice_from n (data_ops (v ++ w)), length (data_ops (v ++ w)))) (min-length v w)
      ∙ ap (λ ops. (ops, length (data_ops (v ++ w))))
          (ap (slice_from (length (data_ops v))) (data_ops-append v w)
            ∙ slice_from-append (data_ops v) (data_ops w))

  pages-append :
      (v : View N)
      → (pieces : List (View N))
      → data_ops v ++ pages v (length (data_ops v)) pieces ≡ data_ops (grow v pieces)
  unfolding pages grow
  pages-append v [] = append-nil (data_ops v)
  pages-append v (w ∷ pieces) =
      ap (λ answer. data_ops v ++ (answer.0 ++ pages (v ++ w) answer.1 pieces))
        (changes_since-append v w)
      ∙ sym (append_assoc (data_ops v) (data_ops w) _)
      ∙ ap (◌++ pages (v ++ w) (length (data_ops (v ++ w))) pieces) (sym (data_ops-append v w))
      ∙ pages-append (v ++ w) pieces

  -- A consumer that asks for the changes each time the view has grown, with the cursor of the last
  -- answer, gets every stamped operation of the last view exactly once and in its order, however
  -- the view was cut into pieces.
  pub pages-grow : (pieces : List (View N)) → pages [] 0 pieces ≡ data_ops (grow [] pieces)
  unfolding data_ops
  pages-grow pieces = pages-append [] pieces
