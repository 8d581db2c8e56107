-- ===== src/Matcher/Unify.antt =====
-- What unification finds against what a term means (ts/src/patternMatcher.ts).
use hellgraph.Base.{
  String, ◌≡◌, inl, inr, refl, ap, subst, ◌∙◌, Bool, true, false, Option, none, some, List, [], ◌∷◌,
  arith, ==_iff, ==_refl, length, Option-cases,
}
use hellgraph.Dict
use hellgraph.AtomSpace.Values.{Handle, node_handle}
use hellgraph.AtomSpace.Lattice.{is_a}
use hellgraph.AtomSpace.Space.{Host, Atom, AtomSpace}
use hellgraph.Matcher.{
  PatternTerm, var, node, link, Terms, nil, cons, Grounding, count_terms, fits, unify_term,
  unify_terms,
}

-- What the first grounding binds, the second binds alike.
abbrev pub Extends : Grounding → Grounding → Type 0
Extends b g = (k h : String) → Dict.get b k ≡ some h → Dict.get g k ≡ some h

module _ {N : Type 0} where
  abbrev pub outgoing_of : Option (Atom N) → Option (List Handle)
  outgoing_of none = none
  outgoing_of (some a) = a.outgoing

  abbrev pub type_is : AtomSpace N → Option (Atom N) → String → Bool
  type_is s none t = false
  type_is s (some a) t = is_a s.types a.type t

module _ {N : Type 0} (host : Host N) (s : AtomSpace N) where
  -- The term with its variables replaced is the atom of the handle; `typed` says whether each
  -- variable's type restriction counts.
  abbrev mutual
    pub Matches : Bool → PatternTerm → Handle → Grounding → Type 0
    Matches typed (var name type) h g =
        (Dict.get g name ≡ some h) × (typed ≡ true → fits host s type h ≡ true)
    Matches typed (node type name) h g = node_handle host.sha1_hex type name ≡ h
    Matches typed (link type terms) h g =
        (type_is s (Dict.get s.atoms h) type ≡ true)
        × ((out : List Handle) × (outgoing_of (Dict.get s.atoms h) ≡ some out)
            × AllMatch typed terms out g)

    pub AllMatch : Bool → Terms → List Handle → Grounding → Type 0
    AllMatch typed nil [] g = Unit
    AllMatch typed nil (h ∷ out) g = ⊥
    AllMatch typed (cons t terms) [] g = ⊥
    AllMatch typed (cons t terms) (h ∷ out) g = Matches typed t h g × AllMatch typed terms out g

  mutual
    pub Matches-mono :
        (typed : Bool) (t : PatternTerm) (h : Handle) (b g : Grounding)
        → Extends b g
        → Matches typed t h b
        → Matches typed t h g
    Matches-mono typed (var name type) h b g e (at, fit) = (e name h at, fit)
    Matches-mono typed (node type name) h b g e m = m
    Matches-mono typed (link type terms) h b g e (is, (out, at, all)) =
        (is, (out, at, all_mono typed terms out b g e all))

    pub all_mono :
        (typed : Bool) (ts : Terms) (out : List Handle) (b g : Grounding)
        → Extends b g
        → AllMatch typed ts out b
        → AllMatch typed ts out g
    all_mono typed nil [] b g e m = tt
    all_mono typed nil (h ∷ out) b g e m = m
    all_mono typed (cons t ts) [] b g e m = m
    all_mono typed (cons t ts) (h ∷ out) b g e (first, rest) =
        (Matches-mono typed t h b g e first, all_mono typed ts out b g e rest)

  untyped : {A : Type 0} → false ≡ true → A
  untyped h = absurd (ground arith)

  bind-Extends :
      (b : Grounding) (name h : String) → Dict.get b name ≡ none → Extends b (Dict.put b name h)
  bind-Extends b name h free k v at =
      ground (arith, Dict.get-put b name h k, ==_iff name k, ap (Dict.get b))

  mutual
    unfolding unify_term unify_terms

    pub term_sound :
        (t : PatternTerm) (h : Handle) (b g : Grounding)
        → unify_term host s t h b ≡ some g
        → Extends b g × Matches false t h g
    term_sound (var name type) h b g u = elim (Option-cases (Dict.get b name)) [
      | inl free ↦
          let same : Dict.put b name h ≡ g = ground arith in
          let placed : Dict.get (Dict.put b name h) name ≡ some h =
            ground (arith, Dict.get-put b name h name, ==_refl name) in
          (
            subst (Extends b) same (bind-Extends b name h free),
            (subst (λ (x : Grounding). Dict.get x name ≡ some h) same placed, untyped),
          )
      | inr (bound, at) ↦
          let same : b ≡ g = ground arith in
          let here : bound ≡ h = ground (arith, ==_iff bound h) in
          (
            subst (Extends b) same (λ k v e. e),
            (subst (λ (x : Grounding). Dict.get x name ≡ some h) same (at ∙ ap some here), untyped),
          )
    ]
    term_sound (node type name) h b g u =
        let same : b ≡ g = ground arith in
        (
          subst (Extends b) same (λ k v e. e),
          ground (arith, ==_iff (node_handle host.sha1_hex type name) h),
        )
    term_sound (link type terms) h b g u = elim (Option-cases (Dict.get s.atoms h)) [
      | inl absent ↦ absurd (ground arith)
      | inr (atom, there) ↦ elim (Option-cases atom.outgoing) [
        | inl bare ↦ absurd (ground arith)
        | inr (out, has_out) ↦
            let is : is_a s.types atom.type type ≡ true = ground arith in
            let fitting : length out ≡ count_terms terms = ground arith in
            let inner : unify_terms host s terms out b ≡ some g = ground arith in
            let (grown, all) = terms_sound terms out b g fitting inner in
            (grown, (rw there is, (out, rw there has_out, all)))
      ]
    ]

    pub terms_sound :
        (ts : Terms) (out : List Handle) (b g : Grounding)
        → length out ≡ count_terms ts
        → unify_terms host s ts out b ≡ some g
        → Extends b g × AllMatch false ts out g
    terms_sound nil [] b g l u = (subst (Extends b) (ground arith) (λ k v e. e), tt)
    terms_sound nil (h ∷ out) b g l u = absurd (omega arith)
    terms_sound (cons t ts) [] b g l u = absurd (omega arith)
    terms_sound (cons t ts) (h ∷ out) b g l u = elim (Option-cases (unify_term host s t h b)) [
      | inl failed ↦ absurd (ground arith)
      | inr (bound, first) ↦
          let (grown, matched) = term_sound t h b bound first in
          let (grown', all) = terms_sound ts out bound g (omega arith) (ground arith) in
          (λ k v e. grown' k v (grown k v e), (Matches-mono false t h bound g grown' matched, all))
    ]

  pub all_length :
      (ts : Terms) (out : List Handle) (g : Grounding)
      → AllMatch true ts out g
      → length out ≡ count_terms ts
  all_length nil [] g m = refl
  all_length nil (h ∷ out) g m = absurd m
  all_length (cons t ts) [] g m = absurd m
  all_length (cons t ts) (h ∷ out) g m = omega (arith, all_length ts out g m.1)

  mutual
    unfolding unify_term unify_terms

    -- A grounding that satisfies the term, types included, is above what unification finds.
    pub term_complete :
        (t : PatternTerm) (h : Handle) (b g : Grounding)
        → Extends b g
        → Matches true t h g
        → (g' : Grounding) × (unify_term host s t h b ≡ some g') × Extends g' g
    term_complete (var name type) h b g e (at, fit) = elim (Option-cases (Dict.get b name)) [
      | inl free ↦ (
        Dict.put b name h,
        ground (arith, fit refl),
        λ k v held. ground (arith, e k v, Dict.get-put b name h k, ==_iff name k, ap (Dict.get g)),
      )
      | inr (bound, there) ↦
          let same : bound ≡ h = ground (arith, e name bound there) in
          (b, ground (arith, ==_iff bound h), e)
    ]
    term_complete (node type name) h b g e m =
        (b, ground (arith, ==_iff (node_handle host.sha1_hex type name) h), e)
    term_complete (link type terms) h b g e (is, (out, has_out, all)) =
        elim (Option-cases (Dict.get s.atoms h)) [
          | inl absent ↦ absurd (ground arith)
          | inr (atom, there) ↦
              let fitting : length out ≡ count_terms terms = all_length terms out g all in
              let (g', found, below) = terms_complete terms out b g e all in
              (g', ground (arith, found), below)
        ]

    pub terms_complete :
        (ts : Terms) (out : List Handle) (b g : Grounding)
        → Extends b g
        → AllMatch true ts out g
        → (g' : Grounding) × (unify_terms host s ts out b ≡ some g') × Extends g' g
    terms_complete nil [] b g e m = (b, refl, e)
    terms_complete nil (h ∷ out) b g e m = absurd m
    terms_complete (cons t ts) [] b g e m = absurd m
    terms_complete (cons t ts) (h ∷ out) b g e (first, rest) =
        let (bound, found, below) = term_complete t h b g e first in
        let (g', found', below') = terms_complete ts out bound g below rest in
        (g', ground (arith, found, found'), below')
