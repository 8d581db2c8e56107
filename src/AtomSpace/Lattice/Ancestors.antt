-- ===== src/AtomSpace/Lattice/Ancestors.antt =====
-- The search for the transitive supertypes (ts/src/atomspace.ts, `TypeLattice.ancestors`).
use mathlib.Core.List.{Memᴰ}
use mathlib.Core.List.Memᴰ
use hellgraph.Base.{
  ℕ, zero, suc, ◌+◌, ◌≤◌, String, ◌≡◌, ◌↔◌, ◌⊎◌, inl, inr, refl, sym, subst, true, false, List, [],
  ◌∷◌, arith, length, ◌==◌, ==_iff, if◌then◌else◌, Memᴰ-cons, Memᴰ-nil, Bool-cases,
}
use hellgraph.Base.Sets.{add_new, has, has_iff, mem-add_new}
use hellgraph.Dict
use hellgraph.AtomSpace.Lattice.{Parents, parents_of, push_all, climb, open_edges, search_ancestors}

-- `s` is a direct supertype of `t`.
abbrev pub Parent : Parents → String → String → Type 0
Parent m t s = Memᴰ s (parents_of m t)

-- The transitive supertypes.
pub data Ancestor (m : Parents) (t : String) : String → Type 0 where
  direct : {s : String} → Parent m t s → Ancestor m t s
  further : {s r : String} → Ancestor m t s → Parent m s r → Ancestor m t r

mem-push_all :
    (ps stack : List String) (s : String) → Memᴰ s (push_all ps stack) ↔ (Memᴰ s ps ⊎ Memᴰ s stack)
unfolding push_all
mem-push_all [] stack s = ground (arith, Memᴰ-nil s)
mem-push_all (p ∷ ps) stack s =
    ground (arith, mem-push_all ps (p ∷ stack) s, Memᴰ-cons s p ps, Memᴰ-cons s p stack)

length-push_all : (ps stack : List String) → length (push_all ps stack) ≡ length ps + length stack
unfolding push_all
length-push_all [] stack = omega arith
length-push_all (p ∷ ps) stack = omega (arith, length-push_all ps (p ∷ stack))

-- Whatever is closed under supertypes and holds of the start holds of what is found.
climb-sound :
    (f : ℕ) (m : Parents) (out stack : List String) (P : String → Type 0)
    → ((t s : String) → P t → Parent m t s → P s)
    → ((s : String) → Memᴰ s out → P s)
    → ((s : String) → Memᴰ s stack → P s)
    → (s : String) → Memᴰ s (climb f m out stack)
    → P s
unfolding climb
climb-sound zero m out stack P step old new s k = old s k
climb-sound (suc f) m out [] P step old new s k = old s k
climb-sound (suc f) m out (p ∷ stack) P step old new s k = elim (Bool-cases (has out p)) [
  | inl seen ↦ climb-sound f m out stack P step old (λ r i. new r (Memᴰ.tail i)) s (rw seen at k)
  | inr fresh ↦
      let at_p = new p (Memᴰ.head refl) in
      climb-sound f m (add_new out p) (push_all (parents_of m p) stack) P step
        (λ r i. elim ((mem-add_new out p r).0 i) [ inl o ↦ old r o | inr e ↦ subst P (sym e) at_p ])
        (λ r i. elim ((mem-push_all (parents_of m p) stack r).0 i) [
          | inl up ↦ step p r at_p up
          | inr rest ↦ new r (Memᴰ.tail rest)
        ])
        s (rw fresh at k)
]

has-add_new :
    (out : List String) (p t : String)
    → has (add_new out p) t ≡ (if p == t then true else has out t)
has-add_new out p t =
    ground (arith, has_iff (add_new out p) t, has_iff out t, mem-add_new out p t, ==_iff p t)

open_edges-add_new_le :
    (m : Parents) (out : List String) (p : String) → open_edges m (add_new out p) ≤ open_edges m out
open_edges-add_new_le [] out p = omega arith
open_edges-add_new_le ((t, ps) ∷ m) out p =
    ground (arith, has-add_new out p t, open_edges-add_new_le m out p)

-- A visit closes the edges that it pushes.
open_edges-add_new :
    (m : Parents) (out : List String) (p : String)
    → has out p ≡ false
    → open_edges m (add_new out p) + length (parents_of m p) ≤ open_edges m out
unfolding parents_of Dict.get
open_edges-add_new [] out p h = omega arith
open_edges-add_new ((t, ps) ∷ m) out p h = ground (
  arith,
  has-add_new out p t,
  open_edges-add_new_le m out p,
  open_edges-add_new m out p h,
  ==_iff p t,
  ==_iff t p,
)

-- Every visited type has its supertypes visited, or waiting on the stack.
abbrev Closing : Parents → List String → List String → Type 0
Closing m out stack = (t s : String) → Memᴰ t out → Parent m t s → Memᴰ s out ⊎ Memᴰ s stack

-- What the search returns: it extends what was found and what was waiting, and is closed.
record Closed (m : Parents) (out stack found : List String) : Type 0 where
  keeps : (s : String) → Memᴰ s out → Memᴰ s found
  takes : (s : String) → Memᴰ s stack → Memᴰ s found
  closed : (t s : String) → Memᴰ t found → Parent m t s → Memᴰ s found

climb-Closed :
    (f : ℕ) (m : Parents) (out stack : List String)
    → length stack + open_edges m out ≤ f
    → Closing m out stack
    → Closed m out stack (climb f m out stack)
unfolding climb
climb-Closed zero m out [] h c = record {
  keeps = λ s k. k;
  takes = λ s k. absurd (Memᴰ.not-nil k);
  closed = λ t s k up. elim (c t s k up) [ inl o ↦ o | inr w ↦ absurd (Memᴰ.not-nil w) ];
}
climb-Closed zero m out (p ∷ stack) h c = absurd (omega arith)
climb-Closed (suc f) m out [] h c = record {
  keeps = λ s k. k;
  takes = λ s k. absurd (Memᴰ.not-nil k);
  closed = λ t s k up. elim (c t s k up) [ inl o ↦ o | inr w ↦ absurd (Memᴰ.not-nil w) ];
}
climb-Closed (suc f) m out (p ∷ stack) h c = elim (Bool-cases (has out p)) [
  | inl seen ↦
      let visited = (has_iff out p).0 seen in
      let rest =
        climb-Closed f m out stack (omega arith)
          (λ t s k up. ground (arith, c t s k up, Memᴰ-cons s p stack, at_member s visited)) in
      rw seen (record {
        keeps = rest.keeps;
        takes = λ s k. elim ((Memᴰ-cons s p stack).0 k) [
          | inl e ↦ rest.keeps s (at_member s visited e)
          | inr w ↦ rest.takes s w
        ];
        closed = rest.closed;
      })
  | inr fresh ↦
      let ups = parents_of m p in
      let rest =
        climb-Closed f m (add_new out p) (push_all ups stack)
          (omega (arith, open_edges-add_new m out p fresh, length-push_all ups stack))
          (closing fresh) in
      rw fresh (record {
        keeps = λ s k. rest.keeps s ((mem-add_new out p s).1 (inl k));
        takes = λ s k. elim ((Memᴰ-cons s p stack).0 k) [
          | inl e ↦ rest.keeps s ((mem-add_new out p s).1 (inr e))
          | inr w ↦ rest.takes s ((mem-push_all ups stack s).1 (inr w))
        ];
        closed = rest.closed;
      })
]
  where
    at_member : (s : String) → Memᴰ p out → s ≡ p → Memᴰ s out
    at_member s v e = subst (λ r. Memᴰ r out) (sym e) v

    closing : has out p ≡ false → Closing m (add_new out p) (push_all (parents_of m p) stack)
    closing fresh t s k up = elim ((mem-add_new out p t).0 k) [
      | inl old ↦ elim (c t s old up) [
        | inl o ↦ inl ((mem-add_new out p s).1 (inl o))
        | inr w ↦ elim ((Memᴰ-cons s p stack).0 w) [
          | inl e ↦ inl ((mem-add_new out p s).1 (inr e))
          | inr w' ↦ inr ((mem-push_all (parents_of m p) stack s).1 (inr w'))
        ]
      ]
      | inr e ↦
          inr ((mem-push_all (parents_of m p) stack s).1 (inl (subst (λ r. Parent m r s) e up)))
    ]

ancestor_found :
    (m : Parents) (t : String) (found : List String)
    → Closed m [] (push_all (parents_of m t) []) found
    → {s : String} → Ancestor m t s
    → Memᴰ s found
ancestor_found m t found c (direct {s} up) =
    c.takes s ((mem-push_all (parents_of m t) [] s).1 (inl up))
ancestor_found m t found c (further {s} {r} chain up) =
    c.closed s r (ancestor_found m t found c chain) up

-- The search terminates with the transitive supertypes: a type is found exactly when a chain of
-- direct supertypes, of length at least one, leads to it. Cycles are allowed.
pub search_ancestors_iff :
    (m : Parents) (t s : String) → Memᴰ s (search_ancestors m t) ↔ Ancestor m t s
unfolding search_ancestors
search_ancestors_iff m t s =
    let start = push_all (parents_of m t) [] in
    let fuel = length start + open_edges m [] in
    (
      λ k.
          climb-sound fuel m [] start (Ancestor m t) (λ r q chain up. further chain up)
            (λ r i. absurd (Memᴰ.not-nil i))
            (λ r i. direct (ground (arith, (mem-push_all (parents_of m t) [] r).0 i, Memᴰ-nil r))) s
            k,
      λ chain.
          ancestor_found m t (climb fuel m [] start)
            (climb-Closed fuel m [] start (omega arith) (λ r q i up. absurd (Memᴰ.not-nil i)))
            chain,
    )
