-- ===== src/AtomSpace/Lattice.antt =====
-- `TypeLattice` of ts/src/atomspace.ts: the direct supertypes of each type, and the ancestors that
-- a search over them finds and caches.
pub mod Ancestors
pub mod Cached
use hellgraph.Base.{
  ℕ, zero, suc, ◌+◌, String, Bool, true, false, ◌||◌, Option, none, some, List, [], ◌∷◌, length,
  ◌==◌, if◌then◌else◌,
}
use hellgraph.Base.Sets.{add_new, add_all, has}
use hellgraph.Dict
use hellgraph.Dict.{Dict}

abbrev pub Parents : Type 0
Parents = Dict (List String)

abbrev ordered : String → String × List String
ordered t = (t, "OrderedLink" ∷ [])

abbrev unordered : String → String × List String
unordered t = (t, "UnorderedLink" ∷ [])

abbrev node_type : String → String × List String
node_type t = (t, "Node" ∷ [])

unfoldable pub core_types : Parents
core_types =
    ("Atom", [])
    ∷ ("Node", "Atom" ∷ [])
    ∷ ("Link", "Atom" ∷ [])
    ∷ node_type "ConceptNode"
    ∷ node_type "PredicateNode"
    ∷ node_type "VariableNode"
    ∷ node_type "TypeNode"
    ∷ node_type "NumberNode"
    ∷ node_type "GroundedSchemaNode"
    ∷ node_type "GroundedPredicateNode"
    ∷ ("OrderedLink", "Link" ∷ [])
    ∷ ("UnorderedLink", "Link" ∷ [])
    ∷ ordered "ListLink"
    ∷ ordered "EvaluationLink"
    ∷ ordered "InheritanceLink"
    ∷ ordered "MemberLink"
    ∷ unordered "SimilarityLink"
    ∷ unordered "AndLink"
    ∷ unordered "OrLink"
    ∷ ordered "NotLink"
    ∷ unordered "ChoiceLink"
    ∷ ordered "ExecutionLink"
    ∷ ordered "ExecutionOutputLink"
    ∷ ordered "BindLink"
    ∷ ordered "GetLink"
    ∷ ordered "TypedVariableLink"
    ∷ ordered "VariableList"
    ∷ []

pub record TypeLattice : Type 0 where
  pub parents : Parents
  pub ancestor_cache : Dict (List String)

abbrev pub new : TypeLattice
new = record { parents = core_types; ancestor_cache = [] }

abbrev pub or_empty : Option (List String) → List String
or_empty none = []
or_empty (some ps) = ps

-- `this.parents.get(type) ?? []`
unfoldable pub parents_of : Parents → String → List String
parents_of m t = or_empty (Dict.get m t)

unfoldable pub declare : TypeLattice → String → List String → TypeLattice
declare lat t ps = record {
  parents = Dict.put lat.parents t (add_all (parents_of lat.parents t) ps);
  ancestor_cache = [];
}

-- Pushes in order, so that the last one is popped first.
unfoldable pub push_all : List String → List String → List String
push_all [] stack = stack
push_all (p ∷ ps) stack = push_all ps (p ∷ stack)

-- The `while` loop, on fuel; the top of the stack is the head of the list.
unfoldable pub climb : ℕ → Parents → List String → List String → List String
climb zero m out stack = out
climb (suc f) m out [] = out
climb (suc f) m out (p ∷ stack) =
    let skip = climb f m out stack in
    let next = climb f m (add_new out p) (push_all (parents_of m p) stack) in
    if has out p then skip else next

-- The direct supertypes of the types that the search has not visited: each may still be pushed.
abbrev pub open_edges : Parents → List String → ℕ
open_edges [] out = 0
open_edges ((t, ps) ∷ m) out = (if has out t then 0 else length ps) + open_edges m out

-- The ancestors by search; a round for each supertype that is pushed is enough.
unfoldable pub search_ancestors : Parents → String → List String
search_ancestors m t =
    let stack = push_all (parents_of m t) [] in climb (length stack + open_edges m []) m [] stack

-- `ancestors`: the cached set, or a search whose result is cached.
unfoldable pub ancestors : TypeLattice → String → List String × TypeLattice
ancestors lat t = elim (Dict.get lat.ancestor_cache t) [
  | some out ↦ (out, lat)
  | none ↦
      let out = search_ancestors lat.parents t in
      (out, record lat { ancestor_cache = Dict.put lat.ancestor_cache t out })
]

-- `isA`, its answer alone: the cache that it leaves is not returned.
unfoldable pub is_a : TypeLattice → String → String → Bool
is_a lat t super = t == super || has (ancestors lat t).0 super

unfoldable pub is_node : TypeLattice → String → Bool
is_node lat t = is_a lat t "Node"

unfoldable pub is_link : TypeLattice → String → Bool
is_link lat t = is_a lat t "Link"
