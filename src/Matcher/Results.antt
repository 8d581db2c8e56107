-- ===== src/Matcher/Results.antt =====
-- The result of `findMatches` (ts/src/patternMatcher.ts): the groundings without duplicates, and the
-- rows of labels. A parameter stands for the JSON text of the sorted entries of a grounding.
use mathlib.Core.List.{Memᴰ}
use mathlib.Core.List.Memᴰ
use hellgraph.Base.{
  ℕ, String, ◌≡◌, ◌⊎◌, inl, inr, refl, sym, ap, subst, true, false, Option, none, some, List, [],
  ◌∷◌, arith, map, ◌==◌, Bool-cases, Memᴰ-cons, if◌then◌else◌,
}
use hellgraph.Base.Sets.{has, has_iff, add_new, mem-add_new, IsDistinct}
use hellgraph.Dict
use hellgraph.Dict.{Dict}
use hellgraph.AtomSpace.Values.{Handle}
use hellgraph.AtomSpace.Space.{Host, Atom, AtomSpace}
use hellgraph.Matcher.{Clause, Grounding, find_groundings, collect_terms}

pub record MatchResult : Type 0 where
  pub variables : List String
  pub results : List (Dict String)
  pub groundings : List Grounding
  pub evaluated_at_seq : ℕ

-- The loop of `collectVars` over the clauses.
unfoldable pub collect_clauses : List String → List Clause → List String
collect_clauses vars [] = vars
collect_clauses vars (c ∷ clauses) = collect_clauses (collect_terms vars c.outgoing) clauses

module _ (key : Grounding → String) where
  -- The filter, with the keys seen so far.
  unfoldable pub drop_seen : List String → List Grounding → List Grounding
  drop_seen seen [] = []
  drop_seen seen (g ∷ gs) = elim (has seen (key g)) [
    | true ↦ drop_seen seen gs
    | false ↦ g ∷ drop_seen (add_new seen (key g)) gs
  ]

abbrev or_variables : Option (List String) → List String → List String
or_variables none vars = vars
or_variables (some select) vars = select

module _ {N : Type 0} (s : AtomSpace N) where
  abbrev label_of : Option (Atom N) → String
  label_of none = ""
  label_of (some atom) = elim atom.name [ none ↦ atom.type | some name ↦ name ]

  abbrev atom_for : Option Handle → Option (Atom N)
  atom_for none = none
  atom_for (some h) = if h == "" then none else Dict.get s.atoms h

  -- `toPlainRow` of the variables with their labels.
  unfoldable pub fill_labels : Dict String → Grounding → List String → Dict String
  fill_labels row g [] = row
  fill_labels row g (v ∷ vars) =
      fill_labels (Dict.put row v (label_of (atom_for (Dict.get g v)))) g vars

  module _ (key : Grounding → String) (host : Host N) where
    unfoldable pub find_matches : List Clause → Option (List String) → MatchResult
    find_matches clauses select =
        let groundings = drop_seen key [] (find_groundings host s clauses) in
        let variables = or_variables select (collect_clauses [] clauses) in
        record {
          variables = variables;
          results = map (λ g. fill_labels [] g variables) groundings;
          groundings = groundings;
          evaluated_at_seq = s.seq;
        }

module _ (key : Grounding → String) where
  drop_seen_sound :
      (seen : List String) (gs : List Grounding) (g : Grounding)
      → Memᴰ g (drop_seen key seen gs)
      → Memᴰ g gs × ¬ Memᴰ (key g) seen
  unfolding drop_seen
  drop_seen_sound seen [] g m = absurd (Memᴰ.not-nil m)
  drop_seen_sound seen (x ∷ gs) g m = elim (Bool-cases (has seen (key x))) [
    | inl old ↦
        let (among, fresh) = drop_seen_sound seen gs g (rw (drop_seen, old) at m) in
        (Memᴰ.tail among, fresh)
    | inr new ↦
        elim ((Memᴰ-cons g x (drop_seen key (add_new seen (key x)) gs)).0
          (rw (drop_seen, new) at m)) [
            | inl same ↦ (
              Memᴰ.head same,
              λ k. ground (arith, has_iff seen (key x), subst (λ y. Memᴰ (key y) seen) same k),
            )
            | inr rest ↦
                let (among, fresh) = drop_seen_sound (add_new seen (key x)) gs g rest in
                (Memᴰ.tail among, λ k. fresh ((mem-add_new seen (key x) (key g)).1 (inl k)))
          ]
  ]

  drop_seen_complete :
      (seen : List String) (gs : List Grounding) (g : Grounding)
      → Memᴰ g gs
      → Memᴰ (key g) seen ⊎ ((x : Grounding) × Memᴰ x (drop_seen key seen gs) × (key x ≡ key g))
  unfolding drop_seen
  drop_seen_complete seen [] g m = absurd (Memᴰ.not-nil m)
  drop_seen_complete seen (x ∷ gs) g m = elim (Bool-cases (has seen (key x))) [
    | inl old ↦
        rw (drop_seen, old)
          (elim ((Memᴰ-cons g x gs).0 m) [
            | inl same ↦
                inl (subst (λ y. Memᴰ (key y) seen) (sym same) ((has_iff seen (key x)).0 old))
            | inr rest ↦ drop_seen_complete seen gs g rest
          ])
    | inr new ↦
        rw (drop_seen, new)
          (elim ((Memᴰ-cons g x gs).0 m) [
            | inl same ↦ inr (x, Memᴰ.head refl, ap key (sym same))
            | inr rest ↦ elim (drop_seen_complete (add_new seen (key x)) gs g rest) [
              | inl k ↦ elim ((mem-add_new seen (key x) (key g)).0 k) [
                | inl before ↦ inl before
                | inr same ↦ inr (x, Memᴰ.head refl, sym same)
              ]
              | inr (y, kept, same) ↦ inr (y, Memᴰ.tail kept, same)
            ]
          ])
  ]

  mem-map :
      (gs : List Grounding) (k : String)
      → Memᴰ k (map key gs)
      → (y : Grounding) × Memᴰ y gs × (key y ≡ k)
  mem-map [] k m = absurd (Memᴰ.not-nil m)
  mem-map (g ∷ gs) k m = elim ((Memᴰ-cons k (key g) (map key gs)).0 m) [
    | inl same ↦ (g, Memᴰ.head refl, sym same)
    | inr rest ↦ let (y, among, same) = mem-map gs k rest in (y, Memᴰ.tail among, same)
  ]

  drop_seen-IsDistinct :
      (seen : List String) (gs : List Grounding) → IsDistinct (map key (drop_seen key seen gs))
  unfolding drop_seen
  drop_seen-IsDistinct seen [] = tt
  drop_seen-IsDistinct seen (x ∷ gs) = elim (Bool-cases (has seen (key x))) [
    | inl old ↦ rw (drop_seen, old) (drop_seen-IsDistinct seen gs)
    | inr new ↦
        let more = add_new seen (key x) in
        rw (drop_seen, new)
          (
            λ m.
                let (y, kept, same) = mem-map (drop_seen key more gs) (key x) m in
                (drop_seen_sound more gs y kept).1
                  ((mem-add_new seen (key x) (key y)).1 (inr same)),
            drop_seen-IsDistinct more gs,
          )
  ]

  -- `findMatches` drops duplicates and nothing else: no two of its groundings have one key, each
  -- was found, and each that was found shares its key with one that is returned.
  pub find_matches-IsDistinct :
      {N : Type 0} (s : AtomSpace N) (host : Host N) (clauses : List Clause)
      (select : Option (List String))
      → IsDistinct (map key (find_matches s key host clauses select).groundings)
        × ((g : Grounding)
            → Memᴰ g (find_matches s key host clauses select).groundings
            → Memᴰ g (find_groundings host s clauses))
        × ((g : Grounding)
            → Memᴰ g (find_groundings host s clauses)
            → (x : Grounding) × Memᴰ x (find_matches s key host clauses select).groundings
              × (key x ≡ key g))
  unfolding find_matches
  find_matches-IsDistinct s host clauses select =
      let found = find_groundings host s clauses in
      (
        drop_seen-IsDistinct [] found,
        λ g m. (drop_seen_sound [] found g m).0,
        λ g m. elim (drop_seen_complete [] found g m) [
          | inl k ↦ absurd (Memᴰ.not-nil k)
          | inr kept ↦ kept
        ],
      )
