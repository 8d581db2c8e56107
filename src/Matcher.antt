-- ===== src/Matcher.antt =====
-- ts/src/patternMatcher.ts: unification of link templates with the atoms of a space, and the loop of
-- `findMatches` over the clauses. What it makes of the groundings is in Results.
pub mod Unify
pub mod Search
pub mod Results
use hellgraph.Base.{
  String, Bool, true, false, not, Option, none, some, List, [], ◌∷◌, ◌++◌, length, nat_eq, suc, ℕ,
  if◌then◌else◌, ◌==◌,
}
use hellgraph.Dict
use hellgraph.Dict.{Dict}
use hellgraph.Base.Sets.{add_new}
use hellgraph.AtomSpace.Values.{Handle, node_handle}
use hellgraph.AtomSpace.Lattice.{is_a}
use hellgraph.AtomSpace.Space.{Host, Atom, AtomSpace}
use hellgraph.AtomSpace.Read.{outs, get_by_type}

mutual
  pub data PatternTerm : Type 0 where
    var : String → Option String → PatternTerm
    node : String → String → PatternTerm
    link : String → Terms → PatternTerm

  pub data Terms : Type 0 where
    nil : Terms
    cons : PatternTerm → Terms → Terms

-- A clause is a link template.
pub record Clause : Type 0 where
  pub type : String
  pub outgoing : Terms

abbrev pub Grounding : Type 0
Grounding = Dict Handle

abbrev pub count_terms : Terms → ℕ
count_terms nil = 0
count_terms (cons t ts) = suc (count_terms ts)

module _ {N : Type 0} (host : Host N) (s : AtomSpace N) where
  -- The type restriction of a variable; an empty one is none.
  abbrev pub fits : Option String → Handle → Bool
  fits none h = true
  fits (some type) h =
      if type == ""
      then true
      else elim (Dict.get s.atoms h) [ none ↦ false | some atom ↦ is_a s.types atom.type type ]

  unfoldable mutual
    pub unify_term : PatternTerm → Handle → Grounding → Option Grounding
    unify_term (var name type) h binding = elim (Dict.get binding name) [
      | some bound ↦ if bound == h then some binding else none
      | none ↦ if fits type h then some (Dict.put binding name h) else none
    ]
    unify_term (node type name) h binding =
        if node_handle host.sha1_hex type name == h then some binding else none
    unify_term (link type terms) h binding = elim (Dict.get s.atoms h) [
      | none ↦ none
      | some atom ↦ elim atom.outgoing [
        | none ↦ none
        | some out ↦
            if not (is_a s.types atom.type type)
            then none
            else if not (nat_eq (length out) (count_terms terms))
            then none
            else unify_terms terms out binding
      ]
    ]

    -- The loop of `unifyLink` over the positions of the template; the lists are of one length.
    pub unify_terms : Terms → List Handle → Grounding → Option Grounding
    unify_terms nil out binding = some binding
    unify_terms (cons t terms) [] binding = none
    unify_terms (cons t terms) (h ∷ out) binding = elim (unify_term t h binding) [
      | none ↦ none
      | some bound ↦ unify_terms terms out bound
    ]

  unfoldable pub unify_link : Clause → Atom N → Grounding → Option Grounding
  unify_link clause atom binding =
      if not (is_a s.types atom.type clause.type)
      then none
      else if not (nat_eq (length (outs atom.outgoing)) (count_terms clause.outgoing))
      then none
      else unify_terms clause.outgoing (outs atom.outgoing) binding

  abbrev pub cons_merged : Option Grounding → List Grounding → List Grounding
  cons_merged none next = next
  cons_merged (some g) next = g ∷ next

  -- The inner loop, over the candidates.
  unfoldable pub extend_one : Clause → Grounding → List (Atom N) → List Grounding
  extend_one clause g [] = []
  extend_one clause g (cand ∷ candidates) =
      cons_merged (unify_link clause cand g) (extend_one clause g candidates)

  -- The loop over the groundings.
  unfoldable pub extend_all : Clause → List (Atom N) → List Grounding → List Grounding
  extend_all clause candidates [] = []
  extend_all clause candidates (g ∷ groundings) =
      extend_one clause g candidates ++ extend_all clause candidates groundings

  -- The loop over the clauses. The `break` on no groundings saves time alone.
  unfoldable pub match_clauses : List Clause → List Grounding → List Grounding
  match_clauses [] groundings = groundings
  match_clauses (clause ∷ clauses) groundings =
      match_clauses clauses (extend_all clause (get_by_type s clause.type true) groundings)

  -- The groundings of `findMatches`, before duplicates leave.
  unfoldable pub find_groundings : List Clause → List Grounding
  find_groundings clauses = match_clauses clauses ([] ∷ [])

-- `collectVars`, into the set collected so far.
unfoldable mutual
  pub collect_term : List String → PatternTerm → List String
  collect_term vars (var name type) = add_new vars name
  collect_term vars (node type name) = vars
  collect_term vars (link type terms) = collect_terms vars terms

  pub collect_terms : List String → Terms → List String
  collect_terms vars nil = vars
  collect_terms vars (cons t terms) = collect_terms (collect_term vars t) terms
