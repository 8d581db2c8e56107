-- ===== src/Metta/Eval/Unification.antt =====
-- Matching the left side of a rule with a term (ts/src/metta-eval.ts, `unifyS`).
use mathlib.Core.Option.{some-injective, none-ne-some}
use mathlib.Core.Path.{ap₂}
use hellgraph.Base.{
  String, ◌≡◌, refl, sym, ap, ◌∙◌, true, Option, none, some, arith, ◌==◌, ==_iff, ==_refl, ◌⊎◌, inl,
  inr, Bool-cases, Option-cases, subst, nat_eq,
}
use hellgraph.Dict
use hellgraph.Dict.{Dict}
use hellgraph.Base.Text.{append_text}
use hellgraph.Metta.{
  SExpr, symbol, var, list, Items, nil, cons, serialize, join_items, instantiate, instantiate_items,
  Binding,
}
use hellgraph.Metta.Eval.{unify_s, unify_all, count, bind, chain}

-- The second binding says what the first one says.
abbrev pub Extends : Binding → Binding → Type 0
Extends b b' = (name : String) (e : SExpr) → Dict.get b name ≡ some e → Dict.get b' name ≡ some e

put-Extends :
    (b : Binding) (name : String) (t : SExpr)
    → Dict.get b name ≡ none
    → Extends b (Dict.put b name t)
put-Extends b name t absent other e there =
    Dict.get-put b name t other ∙ ground (arith, ==_iff name other)

-- What a match of a variable, of a symbol and of a pair of lists says.
unify_var :
    (name : String) (t : SExpr) (b b' : Binding)
    → unify_s (var name) t b ≡ some b'
    → ((Dict.get b name ≡ none) × (Dict.put b name t ≡ b'))
      ⊎ ((prior : SExpr) × (Dict.get b name ≡ some prior)
          × (serialize prior ≡ serialize t)
          × (b ≡ b'))
unfolding unify_s
unify_var name t b b' h = elim (Option-cases (Dict.get b name)) [
  | inl absent ↦ inl (absent, some-injective (Dict.put b name t) b' (bound none absent))
  | inr (prior, there) ↦ elim (Bool-cases (serialize prior == serialize t)) [
    | inl same ↦ inr (
      prior,
      there,
      (==_iff (serialize prior) (serialize t)).0 same,
      some-injective b b' (rw same at (bound (some prior) there)),
    )
    | inr other ↦ absurd (none-ne-some b' (rw other at (bound (some prior) there)))
  ]
]
  where
    bound : (prior : Option SExpr) → Dict.get b name ≡ prior → bind prior name t b ≡ some b'
    bound prior e = subst (λ x. bind x name t b ≡ some b') e h

unify_symbol :
    (name : String) (t : SExpr) (b b' : Binding)
    → unify_s (symbol name) t b ≡ some b'
    → (symbol name ≡ t) × (b ≡ b')
unfolding unify_s
unify_symbol name (symbol other) b b' h = elim (Bool-cases (other == name)) [
  | inl same ↦
      (ap symbol (sym ((==_iff other name).0 same)), some-injective b b' (rw (unify_s, same) at h))
  | inr differs ↦ absurd (none-ne-some b' (rw (unify_s, differs) at h))
]
unify_symbol name (var other) b b' h = absurd (none-ne-some b' h)
unify_symbol name (list terms) b b' h = absurd (none-ne-some b' h)

unify_lists :
    (items terms : Items) (b b' : Binding)
    → unify_s (list items) (list terms) b ≡ some b'
    → (nat_eq (count terms) (count items) ≡ true) × (unify_all items terms b ≡ some b')
unfolding unify_s unify_all
unify_lists items terms b b' h = elim (Bool-cases (nat_eq (count terms) (count items))) [
  | inl even ↦ (even, rw (unify_s, even) at h)
  | inr uneven ↦ absurd (none-ne-some b' (rw (unify_s, uneven) at h))
]

unify_conses :
    (p t : SExpr) (items terms : Items) (b b' : Binding)
    → unify_all (cons p items) (cons t terms) b ≡ some b'
    → (cur : Binding) × (unify_s p t b ≡ some cur) × (unify_all items terms cur ≡ some b')
unfolding unify_s unify_all
unify_conses p t items terms b b' h = elim (Option-cases (unify_s p t b)) [
  | inl fails ↦ absurd (none-ne-some b' (matched none fails))
  | inr (cur, matches) ↦ (cur, matches, matched (some cur) matches)
]
  where
    matched : (o : Option Binding) → unify_s p t b ≡ o → chain o (unify_all items terms) ≡ some b'
    matched o e = subst (λ x. chain x (unify_all items terms) ≡ some b') e h

mutual
  unfolding unify_s unify_all

  unify_s-Extends : (p t : SExpr) (b b' : Binding) → unify_s p t b ≡ some b' → Extends b b'
  unify_s-Extends (var name) t b b' h = elim (unify_var name t b b' h) [
    | inl (absent, new) ↦ subst (Extends b) new (put-Extends b name t absent)
    | inr (prior, there, agrees, same) ↦ subst (Extends b) same (λ k e g. g)
  ]
  unify_s-Extends (symbol name) t b b' h =
      subst (Extends b) (unify_symbol name t b b' h).1 (λ k e g. g)
  unify_s-Extends (list items) (symbol other) b b' h = absurd (none-ne-some b' h)
  unify_s-Extends (list items) (var other) b b' h = absurd (none-ne-some b' h)
  unify_s-Extends (list items) (list terms) b b' h =
      unify_all-Extends items terms b b' (unify_lists items terms b b' h).1

  unify_all-Extends :
      (items terms : Items) (b b' : Binding) → unify_all items terms b ≡ some b' → Extends b b'
  unify_all-Extends nil terms b b' h = subst (Extends b) (some-injective b b' h) (λ k e g. g)
  unify_all-Extends (cons p items) nil b b' h = absurd (none-ne-some b' h)
  unify_all-Extends (cons p items) (cons t terms) b b' h =
      let (cur, matches, rest) = unify_conses p t items terms b b' h in
      λ k e g.
        unify_all-Extends items terms cur b' rest k e (unify_s-Extends p t b cur matches k e g)

mutual
  unfolding instantiate instantiate_items serialize join_items unify_s unify_all

  unify_s-text :
      (p t : SExpr) (b b' b'' : Binding)
      → unify_s p t b ≡ some b'
      → Extends b' b''
      → serialize (instantiate p b'') ≡ serialize t
  unify_s-text (var name) t b b' b'' h more = elim (unify_var name t b b' h) [
    | inl (absent, new) ↦
        let found = more name t (
          subst (λ x. Dict.get x name ≡ some t) new
            (Dict.get-put b name t name ∙ rw (==_refl name) refl)) in
        rw found refl
    | inr (prior, there, agrees, same) ↦
        let found = more name prior (subst (λ x. Dict.get x name ≡ some prior) same there) in
        rw found agrees
  ]
  unify_s-text (symbol name) t b b' b'' h more = ap serialize (unify_symbol name t b b' h).0
  unify_s-text (list items) (symbol other) b b' b'' h more = absurd (none-ne-some b' h)
  unify_s-text (list items) (var other) b b' b'' h more = absurd (none-ne-some b' h)
  unify_s-text (list items) (list terms) b b' b'' h more =
      let (even, all) = unify_lists items terms b b' h in
      ap (λ s. append_text "(" (append_text s ")"))
        (unify_all-text items terms b b' b'' even all more)

  unify_all-text :
      (items terms : Items) (b b' b'' : Binding)
      → nat_eq (count terms) (count items) ≡ true
      → unify_all items terms b ≡ some b'
      → Extends b' b''
      → join_items (instantiate_items items b'') ≡ join_items terms
  unify_all-text nil nil b b' b'' even h more = refl
  unify_all-text nil (cons t terms) b b' b'' even h more = absurd (ground (arith, even))
  unify_all-text (cons p items) nil b b' b'' even h more = absurd (ground (arith, even))
  unify_all-text (cons p nil) (cons t nil) b b' b'' even h more =
      let (cur, matches, rest) = unify_conses p t nil nil b b' h in
      unify_s-text p t b cur b'' matches
        (λ k e g. more k e (unify_all-Extends nil nil cur b' rest k e g))
  unify_all-text (cons p (cons q items)) (cons t nil) b b' b'' even h more =
      absurd (ground (arith, even))
  unify_all-text (cons p nil) (cons t (cons u terms)) b b' b'' even h more =
      absurd (ground (arith, even))
  unify_all-text (cons p (cons q items)) (cons t (cons u terms)) b b' b'' even h more =
      let (cur, matches, rest) = unify_conses p t (cons q items) (cons u terms) b b' h in
      ap₂ (λ x y. append_text x (append_text " " y))
        (unify_s-text p t b cur b'' matches
          (λ k e g. more k e (unify_all-Extends (cons q items) (cons u terms) cur b' rest k e g)))
        (unify_all-text (cons q items) (cons u terms) cur b' b'' (ground arith) rest more)

-- Matching is sound: the left side of a rule, with the bindings that it got by matching a term,
-- prints as the term.
pub unify_s-instantiate :
    (p t : SExpr) (b b' : Binding)
    → unify_s p t b ≡ some b'
    → serialize (instantiate p b') ≡ serialize t
unify_s-instantiate p t b b' h = unify_s-text p t b b' b' h (λ k e g. g)
