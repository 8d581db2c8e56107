-- ===== src/Matcher/Search.antt =====
-- The groundings of `findMatches` against the solutions of a pattern (ts/src/patternMatcher.ts).
use mathlib.Core.List.{Memᴰ}
use mathlib.Core.List.Memᴰ
use hellgraph.Base.{
  ◌≡◌, ◌↔◌, ◌⊎◌, inl, inr, refl, sym, subst, Bool, true, false, Option, none, some, List, [], ◌∷◌,
  arith, Memᴰ-cons, Memᴰ-append,
}
use hellgraph.Dict
use hellgraph.AtomSpace.Values.{Handle}
use hellgraph.AtomSpace.Lattice.{is_a}
use hellgraph.AtomSpace.Space.{Host, Atom, AtomSpace}
use hellgraph.AtomSpace.Read.{outs, get_by_type}
use hellgraph.Matcher.{
  Clause, Grounding, unify_link, cons_merged, extend_one, extend_all, match_clauses,
  find_groundings,
}
use hellgraph.Matcher.Unify.{Extends, AllMatch, all_mono, all_length, terms_sound, terms_complete}

module _ {N : Type 0} (host : Host N) (s : AtomSpace N) where
  -- The clause with its variables replaced is an atom.
  abbrev pub Fits : Bool → Clause → Atom N → Grounding → Type 0
  Fits typed c a g =
      (is_a s.types a.type c.type ≡ true) × AllMatch host s typed c.outgoing (outs a.outgoing) g

  -- Some atom that `getByType` returns for the clause is the clause with its variables replaced.
  abbrev pub Holds : Bool → Clause → Grounding → Type 0
  Holds typed c g = (a : Atom N) × Memᴰ a (get_by_type s c.type true) × Fits typed c a g

  link_sound :
      (c : Clause) (a : Atom N) (b g : Grounding)
      → unify_link host s c a b ≡ some g
      → Extends b g × Fits false c a g
  unfolding unify_link
  link_sound c a b g u =
      let is : is_a s.types a.type c.type ≡ true = ground arith in
      let (grown, all) =
        terms_sound host s c.outgoing (outs a.outgoing) b g (ground arith) (ground arith) in
      (grown, (is, all))

  link_complete :
      (c : Clause) (a : Atom N) (b g : Grounding)
      → Extends b g
      → Fits true c a g
      → (g' : Grounding) × (unify_link host s c a b ≡ some g') × Extends g' g
  unfolding unify_link
  link_complete c a b g e (is, all) =
      let (g', found, below) = terms_complete host s c.outgoing (outs a.outgoing) b g e all in
      let fitting = all_length host s c.outgoing (outs a.outgoing) g all in
      (g', ground (arith, found, fitting, is), below)

  mem-cons_merged :
      (o : Option Grounding) (next : List Grounding) (g : Grounding)
      → Memᴰ g (cons_merged host s o next) ↔ ((o ≡ some g) ⊎ Memᴰ g next)
  mem-cons_merged none next g = ground arith
  mem-cons_merged (some b) next g = ground (arith, Memᴰ-cons g b next)

  mem-extend_one :
      (c : Clause) (b : Grounding) (candidates : List (Atom N)) (g : Grounding)
      → Memᴰ g (extend_one host s c b candidates)
        ↔ ((a : Atom N) × Memᴰ a candidates × (unify_link host s c a b ≡ some g))
  unfolding extend_one
  mem-extend_one c b [] g = (λ m. absurd (Memᴰ.not-nil m), λ (a, m, e). absurd (Memᴰ.not-nil m))
  mem-extend_one c b (x ∷ candidates) g =
      let here = mem-cons_merged (unify_link host s c x b) (extend_one host s c b candidates) g in
      let rest = mem-extend_one c b candidates g in
      (
        λ m. elim (here.0 m) [
          | inl e ↦ (x, Memᴰ.head refl, e)
          | inr t ↦ let (a, i, e) = rest.0 t in (a, Memᴰ.tail i, e)
        ],
        λ (a, m, e). here.1 (elim ((Memᴰ-cons a x candidates).0 m) [
          | inl same ↦ inl (subst (λ (y : Atom N). unify_link host s c y b ≡ some g) same e)
          | inr t ↦ inr (rest.1 (a, t, e))
        ]),
      )

  mem-extend_all :
      (c : Clause) (candidates : List (Atom N)) (bs : List Grounding) (g : Grounding)
      → Memᴰ g (extend_all host s c candidates bs)
        ↔ ((b : Grounding) × Memᴰ b bs × Memᴰ g (extend_one host s c b candidates))
  unfolding extend_all
  mem-extend_all c candidates [] g =
      (λ m. absurd (Memᴰ.not-nil m), λ (b, m, i). absurd (Memᴰ.not-nil m))
  mem-extend_all c candidates (x ∷ bs) g =
      let split =
        Memᴰ-append g (extend_one host s c x candidates) (extend_all host s c candidates bs) in
      let rest = mem-extend_all c candidates bs g in
      (
        λ m. elim (split.0 m) [
          | inl i ↦ (x, Memᴰ.head refl, i)
          | inr t ↦ let (b, i, e) = rest.0 t in (b, Memᴰ.tail i, e)
        ],
        λ (b, m, i). split.1 (elim ((Memᴰ-cons b x bs).0 m) [
          | inl same ↦
              inl (subst (λ (y : Grounding). Memᴰ g (extend_one host s c y candidates)) same i)
          | inr t ↦ inr (rest.1 (b, t, i))
        ]),
      )

  Holds-mono : (c : Clause) (b g : Grounding) → Extends b g → Holds false c b → Holds false c g
  Holds-mono c b g e (a, m, (is, all)) =
      (a, m, (is, all_mono host s false c.outgoing (outs a.outgoing) b g e all))

  match_sound :
      (clauses : List Clause) (bs : List Grounding) (g : Grounding)
      → Memᴰ g (match_clauses host s clauses bs)
      → (b : Grounding) × Memᴰ b bs
        × Extends b g
        × ((c : Clause) → Memᴰ c clauses → Holds false c g)
  unfolding match_clauses
  match_sound [] bs g m = (g, m, (λ k v e. e), (λ c i. absurd (Memᴰ.not-nil i)))
  match_sound (c ∷ clauses) bs g m =
      let candidates = get_by_type s c.type true in
      let (b', i, grown, rest) = match_sound clauses (extend_all host s c candidates bs) g m in
      let (b, listed, found) = (mem-extend_all c candidates bs b').0 i in
      let (a, cand, unified) = (mem-extend_one c b candidates b').0 found in
      let (grown', fit) = link_sound c a b b' unified in
      let first : Holds false c g = Holds-mono c b' g grown (a, cand, fit) in
      (
        b,
        listed,
        λ k v e. grown k v (grown' k v e),
        λ d k. elim ((Memᴰ-cons d c clauses).0 k) [
          | inl same ↦ subst (λ (x : Clause). Holds false x g) (sym same) first
          | inr t ↦ rest d t
        ],
      )

  match_complete :
      (clauses : List Clause) (bs : List Grounding) (b g : Grounding)
      → Memᴰ b bs
      → Extends b g
      → ((c : Clause) → Memᴰ c clauses → Holds true c g)
      → (g' : Grounding) × Memᴰ g' (match_clauses host s clauses bs) × Extends g' g
  unfolding match_clauses
  match_complete [] bs b g m e h = (b, m, e)
  match_complete (c ∷ clauses) bs b g m e h =
      let candidates = get_by_type s c.type true in
      let (a, cand, fit) = h c (Memᴰ.head refl) in
      let (b', unified, below) = link_complete c a b g e fit in
      let listed = (mem-extend_one c b candidates b').1 (a, cand, unified) in
      match_complete clauses (extend_all host s c candidates bs) b' g
        ((mem-extend_all c candidates bs b').1 (b, m, listed)) below (λ d k. h d (Memᴰ.tail k))

  -- Every grounding that the clauses' loop finds makes each clause an atom that `getByType` returns
  -- for it, up to the type restrictions of the variables.
  pub find_groundings_sound :
      (clauses : List Clause) (g : Grounding) (c : Clause)
      → Memᴰ g (find_groundings host s clauses)
      → Memᴰ c clauses
      → Holds false c g
  unfolding find_groundings
  find_groundings_sound clauses g c m k =
      let (b, listed, grown, all) = match_sound clauses ([] ∷ []) g m in all c k

  -- Nothing is missed: a grounding that makes each clause an atom that `getByType` returns for it,
  -- with the type restrictions of every occurrence of a variable, has the bindings of some
  -- grounding that is found.
  pub find_groundings_complete :
      (clauses : List Clause) (g : Grounding)
      → ((c : Clause) → Memᴰ c clauses → Holds true c g)
      → (g' : Grounding) × Memᴰ g' (find_groundings host s clauses) × Extends g' g
  unfolding find_groundings
  find_groundings_complete clauses g h =
      match_complete clauses ([] ∷ []) [] g (Memᴰ.head refl)
        (λ k v e. ground (arith, Dict.get-nil {V = Handle} k)) h
