-- ===== src/Federation/Numbering.antt =====
-- ts/src/autobase-view.ts: the numbers that a writer stamps on its operations.
use hellgraph.Base.{
  ℕ, zero, suc, ◌+◌, String, true, Option, none, some, List, [], ◌∷◌, ◌++◌, ◌≡◌, refl, sym, ap, ◌∙◌,
  length, ◌>>=◌, if◌then◌else◌,
}
use mathlib.Core.List.{append_assoc, append-nil}
use hellgraph.CausalProof.{OpId}
use hellgraph.AtomSpace.Space.{AtomLogEntry}
use hellgraph.Federation.{
  LogOperation, block, add_writer, FederatedAtomSpace, create, append_entry, stamped, add_prov,
}

-- `n` numbers of a writer, after `k`.
unfoldable pub numbered : String → ℕ → ℕ → List OpId
numbered w k zero = []
numbered w k (suc n) = record { writer = w; seq = k + 1 } ∷ numbered w (k + 1) n

add_prov-append :
    (o : Option OpId) {ks : List OpId} (ls ms : List OpId)
    → ks ≡ ls ++ ms
    → add_prov o ks ≡ add_prov o ls ++ ms
add_prov-append none ls ms h = h
add_prov-append (some id) ls ms h = ap (id ∷◌) h

module _ {N : Type 0} where
  abbrev appended : FederatedAtomSpace N → AtomLogEntry N → FederatedAtomSpace N
  appended f e = record f { local_seq = f.local_seq + 1; log = f.log ++ block (stamped f e) ∷ [] }

  append_entry-appended :
      (f : FederatedAtomSpace N)
      → (e : AtomLogEntry N) → f.writable ≡ true
      → append_entry f e ≡ some (appended f e)
  unfolding append_entry
  append_entry-appended f e h = ap (λ b. if b then some (appended f e) else none) h

  -- The ids in a log.
  unfoldable pub ids : List (LogOperation N) → List OpId
  ids [] = []
  ids (block b ∷ ops) = add_prov b.fed_prov (ids ops)
  ids (add_writer k ∷ ops) = ids ops

  unfoldable pub append_all :
      FederatedAtomSpace N → List (AtomLogEntry N) → Option (FederatedAtomSpace N)
  append_all f [] = some f
  append_all f (e ∷ es) = append_entry f e >>= λ (g : FederatedAtomSpace N). append_all g es

  ids-append : (l m : List (LogOperation N)) → ids (l ++ m) ≡ ids l ++ ids m
  unfolding ids
  ids-append [] m = refl
  ids-append (add_writer k ∷ l) m = ids-append l m
  ids-append (block b ∷ l) m = add_prov-append b.fed_prov (ids l) (ids m) (ids-append l m)

  -- The appends of one session number on from the session's counter.
  append_all-ids :
      (es : List (AtomLogEntry N))
      → (f : FederatedAtomSpace N) → f.writable ≡ true
      → (g : FederatedAtomSpace N) × (append_all f es ≡ some g)
        × (ids g.log ≡ ids f.log ++ numbered f.local_key f.local_seq (length es))
  unfolding append_all numbered ids
  append_all-ids [] f h = (f, refl, sym (append-nil (ids f.log)))
  append_all-ids (e ∷ es) f h =
      let g = appended f e in
      let (last, returns, numbers) = append_all-ids es g h in
      (
        last,
        ap (◌>>= λ (g' : FederatedAtomSpace N). append_all g' es) (append_entry-appended f e h)
            ∙ returns,
        numbers
            ∙ ap (◌++ numbered f.local_key (f.local_seq + 1) (length es))
                (ids-append f.log (block (stamped f e) ∷ []))
            ∙ append_assoc (ids f.log) (record { writer = f.local_key; seq = f.local_seq + 1 } ∷ [])
                _,
      )

  -- A participant that appends entries, closes and opens its storage again numbers from 1 again:
  -- every append succeeds, and the ids in its log are the numbers of the first session followed by
  -- the same numbers anew.
  pub create-append_all :
      (key : String)
      → (es fs : List (AtomLogEntry N))
      → (f : FederatedAtomSpace N) × (append_all (create key true []) es ≡ some f)
        × ((g : FederatedAtomSpace N) × (append_all (create key true f.log) fs ≡ some g)
            × (ids g.log ≡ numbered key 0 (length es) ++ numbered key 0 (length fs)))
  unfolding create ids numbered
  create-append_all key es fs =
      let (f, returns, numbers) = append_all-ids es (create key true []) refl in
      let (g, returns', numbers') = append_all-ids fs (create key true f.log) refl in
      (f, returns, (g, returns', numbers' ∙ ap (◌++ numbered key 0 (length fs)) numbers))
