-- ===== src/AtomSpace/Import.antt =====
-- Entries from other spaces (ts/src/atomspace.ts, `importEntry`).
use mathlib.Core.List.{Memᴰ}
use hellgraph.Base.{
  ℕ, max, String, ◌≡◌, ◌≢◌, inl, inr, refl, ap, ◌||◌, Bool-cases, subst, Option, none, some, List,
  arith, ==_iff, ==_refl, Option-cases,
}
use hellgraph.Dict
use hellgraph.Dict.{Dict}
use hellgraph.AtomSpace.Values.{Handle, TruthValue, AttentionValue, Value, serialize_value}
use hellgraph.AtomSpace.Space.{
  Host, Atom, Change, add_atom, set_tv, set_av, set_value, other, AtomLogEntry, Graph, AtomSpace,
  value_set,
}
use hellgraph.AtomSpace.Log.{
  new_atom, apply_change, apply_log_entry, apply_entry, revise, import_entry, is_missing, write_tv,
  write_av, pln_revise, or_default,
}
use hellgraph.AtomSpace.Read.{find_by_value}
use hellgraph.AtomSpace.Indexes.{IsIndexed}
use hellgraph.AtomSpace.Indexes.Writes.{insert_rest, rewrite-IsIndexed, insert-IsIndexed}
use hellgraph.AtomSpace.Indexes.Values.{write_value-IsIndexed}
use hellgraph.AtomSpace.Indexes.Sequences.{at_clock}
use hellgraph.AtomSpace.Indexes.Lookups.{mem-resolve}

module _ {N : Type 0} (host : Host N) where
  -- An `add_atom` entry without a truth value.
  abbrev pub plain_atom :
      Handle
      → String
      → Option String
      → Option (List Handle)
      → Option (AttentionValue N)
      → ℕ
      → String
      → AtomLogEntry N
  plain_atom h type name outgoing av seq ts = record {
    seq = seq;
    ts = ts;
    change = add_atom h type name outgoing none av;
  }

  -- What the space is after such an entry.
  applied :
      (s : AtomSpace N) (h : Handle) (type : String) (name : Option String)
      (outgoing : Option (List Handle)) (av : Option (AttentionValue N)) (seq : ℕ) (ts now : String)
      → h ≢ ""
      → type ≢ ""
      → import_entry host s (plain_atom h type name outgoing av seq ts) now
        ≡ some (apply_entry host s (plain_atom h type name outgoing av seq ts))
  unfolding import_entry
  applied s h type name outgoing av seq ts now hn tn = elim (Option-cases (Dict.get s.atoms h)) [
    | inl absent ↦ ground (arith, ==_iff h "", ==_iff type "")
    | inr (a, there) ↦ ground (arith, ==_iff h "", ==_iff type "")
  ]

  after_plain :
      (s : AtomSpace N) (h : Handle) (type : String) (name : Option String)
      (outgoing : Option (List Handle)) (av : Option (AttentionValue N)) (seq : ℕ) (ts : String)
      → h ≢ ""
      → type ≢ ""
      → (Dict.get (apply_entry host s (plain_atom h type name outgoing av seq ts)).atoms h
          ≡ some (new_atom h type name outgoing none av seq ts))
        × ((apply_entry host s (plain_atom h type name outgoing av seq ts)).value_index
            ≡ s.value_index)
  unfolding apply_log_entry apply_change
  after_plain s h type name outgoing av seq ts hn tn =
      let g : Graph N = record s.graph { seq = max s.seq seq } in
      let a : Atom N = new_atom h type name outgoing none av seq ts in
      let (atoms, _, values, _) = insert_rest host g a in
      ground (
        arith,
        ==_iff h "",
        ==_iff type "",
        atoms,
        values,
        ap (λ (m : Dict (Atom N)). Dict.get m h) atoms,
        Dict.get-put g.atoms h a h,
        ==_refl h,
      )

  -- Importing an `add_atom` entry without a truth value for an atom that is there replaces the atom
  -- by a new one, without its values and its truth value, while the value index keeps the handle:
  -- `findByValue` still returns the atom under a value that it no longer has.
  pub import_entry-stale :
      (s : AtomSpace N) (h : Handle) (type : String) (name : Option String)
      (outgoing : Option (List Handle)) (av : Option (AttentionValue N)) (seq : ℕ) (ts now : String)
      (old : Atom N) (key : String) (v : Value N)
      → h ≢ ""
      → type ≢ ""
      → IsIndexed host s.graph
      → Dict.get s.atoms h ≡ some old
      → Dict.get old.values key ≡ some v
      → (s' : AtomSpace N) × (import_entry host s (plain_atom h type name outgoing av seq ts) now
          ≡ some s')
        × (Dict.get s'.atoms h ≡ some (new_atom h type name outgoing none av seq ts))
        × Memᴰ (new_atom h type name outgoing none av seq ts) (find_by_value host s' key v)
  unfolding find_by_value
  import_entry-stale s h type name outgoing av seq ts now old key v hn tn i there held =
      let s' = apply_entry host s (plain_atom h type name outgoing av seq ts) in
      let (found, kept) = after_plain s h type name outgoing av seq ts hn tn in
      let sv = serialize_value host.show v in
      let listed : Memᴰ h (value_set s.value_index key sv) =
        (i.valued key sv h).1 (rw (there, held) refl) in
      (
        s',
        applied s h type name outgoing av seq ts now hn tn,
        found,
        (mem-resolve s'.atoms (value_set s'.value_index key sv) _).1 (h, rw kept listed, found),
      )

  -- An entry that may be applied as it stands adds no atom at a handle that is taken.
  abbrev pub IsNew : Graph N → Change N → Type 0
  IsNew g (add_atom h type name outgoing tv av) = Dict.get g.atoms h ≡ none
  IsNew g _ = Unit

  apply_change-IsIndexed :
      (g : Graph N) (seq : ℕ) (ts : String) (c : Change N)
      → IsNew g c
      → IsIndexed host g
      → IsIndexed host (apply_change host g seq ts c)
  unfolding apply_change
  apply_change-IsIndexed g seq ts (add_atom h type name outgoing tv av) free i =
      elim (Bool-cases (is_missing h || is_missing type)) [
        | inl malformed ↦ rw malformed i
        | inr fine ↦ rw fine (insert-IsIndexed host g _ i (record { free = free; bare = refl }))
      ]
  apply_change-IsIndexed g seq ts (set_tv h tv) _ i = elim (Option-cases (Dict.get g.atoms h)) [
    | inl absent ↦ rw (absent, write_tv) i
    | inr (a, there) ↦
        rw (there, write_tv)
          (rewrite-IsIndexed host g h a (record a { tv = some tv }) i there refl refl refl refl
            refl)
  ]
  apply_change-IsIndexed g seq ts (set_av h av) _ i = elim (Option-cases (Dict.get g.atoms h)) [
    | inl absent ↦ rw (absent, write_av) i
    | inr (a, there) ↦
        rw (there, write_av)
          (rewrite-IsIndexed host g h a (record a { av = some av }) i there refl refl refl refl
            refl)
  ]
  apply_change-IsIndexed g seq ts (set_value h key v) _ i =
      elim (Option-cases (Dict.get g.atoms h)) [
        | inl absent ↦ rw (absent, apply_change) i
        | inr (a, there) ↦ rw (there, apply_change) (write_value-IsIndexed host g a h key v i there)
      ]
  apply_change-IsIndexed g seq ts other _ i = i

  apply_entry-IsIndexed :
      (s : AtomSpace N) (e : AtomLogEntry N)
      → IsNew s.graph e.change
      → IsIndexed host s.graph
      → IsIndexed host (apply_entry host s e).graph
  unfolding apply_log_entry
  apply_entry-IsIndexed s e free i =
      let g : Graph N = record s.graph { seq = max s.seq e.seq } in
      apply_change-IsIndexed g e.seq e.ts e.change (is_new s g e.change refl free)
        (at_clock host s.graph g i refl refl refl refl refl)
    where
      is_new :
          (s : AtomSpace N) (g : Graph N) (c : Change N)
          → g.atoms ≡ s.atoms
          → IsNew s.graph c
          → IsNew g c
      is_new s g (add_atom h type name outgoing tv av) same free = rw same free
      is_new s g (set_tv h tv) same free = tt
      is_new s g (set_av h av) same free = tt
      is_new s g (set_value h key v) same free = tt
      is_new s g other same free = tt

  revise-IsIndexed :
      (s : AtomSpace N) (h : Handle) (a : Atom N) (old tv : TruthValue N) (now : String)
      → IsIndexed host s.graph
      → Dict.get s.atoms h ≡ some a
      → IsIndexed host (revise host s h a old tv now).graph
  unfolding revise
  revise-IsIndexed s h a old tv now i there =
      at_clock host _ _
        (rewrite-IsIndexed host s.graph h a (record a { tv = some (pln_revise host old tv) }) i
          there refl refl refl refl refl)
        refl refl refl refl refl

  -- An entry that is no `add_atom` without a truth value at a handle that is taken.
  abbrev pub IsMergeable : Graph N → Change N → Type 0
  IsMergeable g (add_atom h type name outgoing none av) = Dict.get g.atoms h ≡ none
  IsMergeable g _ = Unit

  abbrev Kept : Option (AtomSpace N) → Type 0
  Kept none = Unit
  Kept (some s) = IsIndexed host s.graph

  kept :
      (s : AtomSpace N) (seq : ℕ) (ts : String) (c : Change N) (now : String)
      → IsIndexed host s.graph
      → IsMergeable s.graph c
      → Kept (import_entry host s (record { seq = seq; ts = ts; change = c }) now)
  unfolding import_entry
  kept s seq ts (add_atom h type name outgoing none av) now i free =
      elim (Bool-cases (is_missing h)) [
        | inl no_handle ↦ rw no_handle tt
        | inr has_handle ↦ elim (Bool-cases (is_missing type)) [
          | inl no_type ↦ rw (has_handle, no_type) tt
          | inr has_type ↦
              rw (has_handle, has_type, free, import_entry) (apply_entry-IsIndexed s _ free i)
        ]
      ]
  kept s seq ts (add_atom h type name outgoing (some tv) av) now i _ =
      elim (Bool-cases (is_missing h)) [
        | inl no_handle ↦ rw no_handle tt
        | inr has_handle ↦ elim (Bool-cases (is_missing type)) [
          | inl no_type ↦ rw (has_handle, no_type) tt
          | inr has_type ↦ elim (Option-cases (Dict.get s.atoms h)) [
            | inl absent ↦
                rw (has_handle, has_type, absent, import_entry) (apply_entry-IsIndexed s _ absent i)
            | inr (a, there) ↦
                rw (has_handle, has_type, there, import_entry)
                  (revise-IsIndexed s h a (or_default host a.tv) tv now i there)
          ]
        ]
      ]
  kept s seq ts (set_tv h tv) now i _ = elim (Bool-cases (is_missing h)) [
    | inl no_handle ↦ rw no_handle tt
    | inr has_handle ↦ elim (Option-cases (Dict.get s.atoms h)) [
      | inl absent ↦ rw (has_handle, absent, import_entry) (apply_entry-IsIndexed s _ tt i)
      | inr (a, there) ↦ elim (Option-cases a.tv) [
        | inl bare ↦ rw (has_handle, there, import_entry, bare) (apply_entry-IsIndexed s _ tt i)
        | inr (old, has_tv) ↦
            rw (has_handle, there, import_entry, has_tv) (revise-IsIndexed s h a old tv now i there)
      ]
    ]
  ]
  kept s seq ts (set_av h av) now i _ = apply_entry-IsIndexed s _ tt i
  kept s seq ts (set_value h key v) now i _ = apply_entry-IsIndexed s _ tt i
  kept s seq ts other now i _ = apply_entry-IsIndexed s _ tt i

  -- An import that is not refused keeps the indexes in step with the atoms, when its entry is no
  -- `add_atom` without a truth value at a handle that is taken.
  pub import_entry-IsIndexed :
      (s s' : AtomSpace N) (seq : ℕ) (ts : String) (c : Change N) (now : String)
      → IsIndexed host s.graph
      → IsMergeable s.graph c
      → import_entry host s (record { seq = seq; ts = ts; change = c }) now ≡ some s'
      → IsIndexed host s'.graph
  import_entry-IsIndexed s s' seq ts c now i m e = subst Kept e (kept s seq ts c now i m)
