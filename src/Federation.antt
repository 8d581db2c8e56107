-- ===== src/Federation.antt =====
-- ts/src/autobase-view.ts: one participant of a federation, and what is read of the merged view. The
-- view, which Autobase linearizes from the logs of all writers, is an argument of each read; a block
-- that cannot be fetched is `none` there.
pub mod Feed
pub mod Numbering
use hellgraph.Base.{
  ℕ, zero, suc, ◌+◌, min, String, Bool, true, false, Option, none, some, List, [], ◌∷◌, ◌++◌,
  length, ◌>>=◌, if◌then◌else◌,
}
use hellgraph.CausalProof.{OpId, Cut, cut_from_order}
use hellgraph.AtomSpace.Space.{Host, AtomSpace, AtomLogEntry}
use hellgraph.AtomSpace.Log.{open_space, import_entry}

-- An entry with the writer and the number that were stamped on it, if any.
pub record FederatedBlock (N : Type 0) : Type 0 where
  pub mutation : AtomLogEntry N
  pub fed_prov : Option OpId

-- What a participant appends: a block, or the control operation that admits a writer.
pub data LogOperation (N : Type 0) : Type 0 where
  block : FederatedBlock N → LogOperation N
  add_writer : String → LogOperation N

pub record FederatedAtomSpace (N : Type 0) : Type 0 where
  pub local_key : String
  pub writable : Bool
  pub local_seq : ℕ
  pub log : List (LogOperation N)

-- The view of Autobase, with `none` for a block that cannot be fetched.
abbrev pub View : Type 0 → Type 0
View N = List (Option (FederatedBlock N))

abbrev pub add_prov : Option OpId → List OpId → List OpId
add_prov none ids = ids
add_prov (some id) ids = id ∷ ids

module _ {N : Type 0} where
  -- The handler `apply`: the view and the admitted writers after the nodes.
  unfoldable pub apply_handler :
      List (FederatedBlock N)
      → List String
      → List (LogOperation N)
      → List (FederatedBlock N) × List String
  apply_handler view writers [] = (view, writers)
  apply_handler view writers (block b ∷ nodes) = apply_handler (view ++ b ∷ []) writers nodes
  apply_handler view writers (add_writer k ∷ nodes) = apply_handler view (writers ++ k ∷ []) nodes

  -- `create`, over a log that the storage may hold already.
  unfoldable pub create : String → Bool → List (LogOperation N) → FederatedAtomSpace N
  create key writable log = record {
    local_key = key;
    writable = writable;
    local_seq = 0;
    log = log;
  }

  unfoldable pub admit_writer : FederatedAtomSpace N → String → FederatedAtomSpace N
  admit_writer f key = record f { log = f.log ++ add_writer key ∷ [] }

  abbrev pub stamped : FederatedAtomSpace N → AtomLogEntry N → FederatedBlock N
  stamped f e = record {
    mutation = e;
    fed_prov = some (record { writer = f.local_key; seq = f.local_seq + 1 });
  }

  -- `none` is the error of a writer that is not admitted.
  unfoldable pub append_entry :
      FederatedAtomSpace N → AtomLogEntry N → Option (FederatedAtomSpace N)
  append_entry f e =
      if f.writable
      then some (record f { local_seq = f.local_seq + 1; log = f.log ++ block (stamped f e) ∷ [] })
      else none

  unfoldable pub linearization : View N → List OpId
  linearization [] = []
  linearization (none ∷ view) = linearization view
  linearization (some b ∷ view) = add_prov b.fed_prov (linearization view)

  unfoldable pub current_cut : View N → Cut
  unfolding linearization
  current_cut view = cut_from_order (linearization view)

  abbrev pub add_block :
      Option OpId → FederatedBlock N → List (FederatedBlock N) → List (FederatedBlock N)
  add_block none b bs = bs
  add_block (some _) b bs = b ∷ bs

  -- The blocks that the loop of `changesSince` collects.
  unfoldable pub data_ops : View N → List (FederatedBlock N)
  data_ops [] = []
  data_ops (none ∷ view) = data_ops view
  data_ops (some b ∷ view) = add_block b.fed_prov b (data_ops view)

  unfoldable pub slice_from : ℕ → List (FederatedBlock N) → List (FederatedBlock N)
  slice_from zero bs = bs
  slice_from (suc n) [] = []
  slice_from (suc n) (b ∷ bs) = slice_from n bs

  -- The operations from a position on, and the next cursor.
  unfoldable pub changes_since : View N → ℕ → List (FederatedBlock N) × ℕ
  changes_since view since =
      let all = data_ops view in (slice_from (min since (length all)) all, length all)

  module _ (host : Host N) (now : String) where
    -- The loop of `materialize`; `none` is the error of a malformed entry.
    unfoldable pub import_view : AtomSpace N → View N → Option (AtomSpace N)
    import_view s [] = some s
    import_view s (none ∷ view) = import_view s view
    import_view s (some b ∷ view) =
        import_entry host s b.mutation now >>= λ (s' : AtomSpace N). import_view s' view

    unfoldable pub materialize : View N → Option (AtomSpace N)
    materialize view = import_view (open_space host none) view
