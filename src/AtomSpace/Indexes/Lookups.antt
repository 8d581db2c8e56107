-- ===== src/AtomSpace/Indexes/Lookups.antt =====
-- The lookups of ts/src/atomspace.ts, in a space whose indexes are in step with its atoms.
use mathlib.Core.List.{Memᴰ}
use mathlib.Core.List.Memᴰ
use hellgraph.Base.{
  String, ◌≡◌, ◌≢◌, ◌↔◌, ◌⊎◌, inl, inr, refl, sym, ap, subst, ◌∙◌, true, false, Option, none, some,
  List, [], ◌∷◌, arith, ==_iff, Memᴰ-cons, Memᴰ-append,
}
use hellgraph.Dict
use hellgraph.Dict.{Dict, IsUnique}
use hellgraph.AtomSpace.Values.{Handle, Value, serialize_value}
use hellgraph.AtomSpace.Lattice.{TypeLattice, is_a}
use hellgraph.AtomSpace.Space.{Host, Atom, Graph, AtomSpace, members, set_at, value_set}
use hellgraph.AtomSpace.Read.{
  resolve, cons_found, of_types, outs, get_by_type, get_incoming, find_by_value,
}
use hellgraph.AtomSpace.Indexes.{IsIndexed, type_of, text_of}

module _ {N : Type 0} where
  mem-cons_found :
      (o : Option (Atom N)) (xs : List (Atom N)) (a : Atom N)
      → Memᴰ a (cons_found o xs) ↔ ((o ≡ some a) ⊎ Memᴰ a xs)
  mem-cons_found none xs a = ground arith
  mem-cons_found (some b) xs a = ground (arith, Memᴰ-cons a b xs)

  pub mem-resolve :
      (atoms : Dict (Atom N)) (hs : List Handle) (a : Atom N)
      → Memᴰ a (resolve atoms hs) ↔ ((h : Handle) × Memᴰ h hs × (Dict.get atoms h ≡ some a))
  unfolding resolve
  mem-resolve atoms [] a = (λ m. absurd (Memᴰ.not-nil m), λ (h, m, e). absurd (Memᴰ.not-nil m))
  mem-resolve atoms (k ∷ hs) a = (
    λ m. elim ((mem-cons_found (Dict.get atoms k) (resolve atoms hs) a).0 m) [
      | inl e ↦ (k, Memᴰ.head refl, e)
      | inr rest ↦ let (h, i, e) = (mem-resolve atoms hs a).0 rest in (h, Memᴰ.tail i, e)
    ],
    λ (h, m, e).
        (mem-cons_found (Dict.get atoms k) (resolve atoms hs) a).1 (elim ((Memᴰ-cons h k hs).0 m) [
          | inl same ↦ inl (ap (Dict.get atoms) (sym same) ∙ e)
          | inr rest ↦ inr ((mem-resolve atoms hs a).1 (h, rest, e))
        ]),
  )

  resolve-cons :
      (atoms : Dict (Atom N)) (t : String) (hs : List Handle) (m : Dict (List Handle)) (x : String)
      (a : Atom N)
      → Memᴰ a (resolve atoms (set_at ((t, hs) ∷ m) x))
        ↔ (((t ≡ x) × Memᴰ a (resolve atoms hs)) ⊎ ((t ≢ x) × Memᴰ a (resolve atoms (set_at m x))))
  unfolding Dict.get
  resolve-cons atoms t hs m x a = ground (arith, ==_iff t x)

  resolve-absent :
      (atoms : Dict (Atom N)) (m : Dict (List Handle)) (t : String) (a : Atom N)
      → Dict.get m t ≡ none
      → ¬ Memᴰ a (resolve atoms (set_at m t))
  unfolding resolve
  resolve-absent atoms m t a absent i =
      Memᴰ.not-nil (subst (λ o. Memᴰ a (resolve atoms (members o))) absent i)

  of_types-cons :
      (lat : TypeLattice) (atoms : Dict (Atom N)) (t : String) (hs : List Handle)
      (m : Dict (List Handle)) (type : String) (a : Atom N)
      → Memᴰ a (of_types lat atoms ((t, hs) ∷ m) type) ↔ (
          ((is_a lat t type ≡ true) × Memᴰ a (resolve atoms hs))
          ⊎ Memᴰ a (of_types lat atoms m type))
  unfolding of_types
  of_types-cons lat atoms t hs m type a =
      ground (arith, Memᴰ-append a (resolve atoms hs) (of_types lat atoms m type))

  -- The members under the types that are subtypes of the one asked for.
  mem-of_types :
      (lat : TypeLattice) (atoms : Dict (Atom N)) (m : Dict (List Handle)) (type : String)
      (a : Atom N)
      → IsUnique m
      → Memᴰ a (of_types lat atoms m type)
        ↔ ((t : String) × (is_a lat t type ≡ true) × Memᴰ a (resolve atoms (set_at m t)))
  unfolding of_types
  mem-of_types lat atoms [] type a u = (
    λ i. absurd (Memᴰ.not-nil i),
    λ (x, is, i). absurd (resolve-absent atoms [] x a (Dict.get-nil x) i),
  )
  mem-of_types lat atoms ((t, hs) ∷ m) type a u =
      let step = of_types-cons lat atoms t hs m type a in
      (
        λ i. elim (step.0 i) [
          | inl (is, here) ↦ (t, is, (resolve-cons atoms t hs m t a).1 (inl (refl, here)))
          | inr rest ↦
              let (x, is, later) = (mem-of_types lat atoms m type a u.1).0 rest in
              let other = λ (e : t ≡ x).
                resolve-absent atoms m x a (subst (λ k. Dict.get m k ≡ none) e u.0) later in
              (x, is, (resolve-cons atoms t hs m x a).1 (inr (other, later)))
        ],
        λ (x, is, i). elim ((resolve-cons atoms t hs m x a).0 i) [
          | inl (same, here) ↦
              step.1 (inl (subst (λ k. is_a lat k type ≡ true) (sym same) is, here))
          | inr (other, later) ↦
              step.1 (inr ((mem-of_types lat atoms m type a u.1).1 (x, is, later)))
        ],
      )

  module _ (host : Host N) where
    -- Resolving the handles of an index.
    found :
        (g : Graph N) (hs : List Handle) (a : Atom N)
        → IsIndexed host g
        → Memᴰ a (resolve g.atoms hs) ↔ (Memᴰ a.handle hs × (Dict.get g.atoms a.handle ≡ some a))
    found g hs a i = (
      λ m.
          let (h, j, e) = (mem-resolve g.atoms hs a).0 m in
          let same = i.handles h a e in
          (subst (λ k. Memᴰ k hs) (sym same) j, ap (Dict.get g.atoms) same ∙ e),
      λ (j, e). (mem-resolve g.atoms hs a).1 (a.handle, j, e),
    )

    -- `getByType` without subtypes returns exactly the atoms of the type.
    pub get_by_type_iff :
        (s : AtomSpace N) (type : String) (a : Atom N)
        → IsIndexed host s.graph
        → Memᴰ a (get_by_type s type false)
          ↔ ((Dict.get s.atoms a.handle ≡ some a) × (a.type ≡ type))
    unfolding get_by_type
    get_by_type_iff s type a i =
        let there = found s.graph (set_at s.by_type type) a i in
        ground (arith, there.0, there.1, i.types type a.handle)

    -- `getIncoming` without a type returns exactly the atoms whose outgoing set has the handle,
    -- when the indexes are in step with the atoms.
    pub get_incoming_iff :
        (s : AtomSpace N) (target : Handle) (a : Atom N)
        → IsIndexed host s.graph
        → Memᴰ a (get_incoming s target none)
          ↔ ((Dict.get s.atoms a.handle ≡ some a) × Memᴰ target (outs a.outgoing))
    unfolding get_incoming
    get_incoming_iff s target a i =
        let there = found s.graph (set_at s.incoming target) a i in
        ground (arith, there.0, there.1, i.links target a.handle)

    -- `findByValue` returns exactly the atoms that have the value, up to its serialization, under
    -- the key, when the indexes are in step with the atoms.
    pub find_by_value_iff :
        (s : AtomSpace N) (key : String) (v : Value N) (a : Atom N)
        → IsIndexed host s.graph
        → Memᴰ a (find_by_value host s key v) ↔ (
            (Dict.get s.atoms a.handle ≡ some a)
            × (text_of host (Dict.get a.values key) ≡ some (serialize_value host.show v)))
    unfolding find_by_value
    find_by_value_iff s key v a i =
        let sv = serialize_value host.show v in
        let there = found s.graph (value_set s.value_index key sv) a i in
        ground (arith, there.0, there.1, i.valued key sv a.handle)

    -- `getByType` with subtypes returns exactly the atoms whose type is a subtype, when the indexes
    -- are in step with the atoms.
    pub get_by_type-subtypes :
        (s : AtomSpace N) (type : String) (a : Atom N)
        → IsIndexed host s.graph
        → Memᴰ a (get_by_type s type true)
          ↔ ((Dict.get s.atoms a.handle ≡ some a) × (is_a s.types a.type type ≡ true))
    unfolding get_by_type
    get_by_type-subtypes s type a i =
        let these = mem-of_types s.types s.atoms s.by_type type a i.unique in
        (
          λ m.
              let (t, is, j) = these.0 m in
              let (k, e) = (found s.graph (set_at s.by_type t) a i).0 j in
              (e, ground (arith, (i.types t a.handle).0 k, e, is)),
          λ (e, is). these.1 (
            a.type,
            is,
            (found s.graph (set_at s.by_type a.type) a i).1
                ((i.types a.type a.handle).1 (ap (type_of host) e), e),
          ),
        )
