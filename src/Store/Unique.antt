-- ===== src/Store/Unique.antt =====
-- What `assertUniqueOk` of ts/src/store.ts decides.
use mathlib.Core.List.{Memᴰ}
use mathlib.Core.List.Memᴰ
use mathlib.Core.Option.{some-injective, none-ne-some}
use hellgraph.Base.{
  String, ◌≡◌, ◌≢◌, ◌↔◌, ◌⊎◌, inl, inr, refl, sym, ap, ◌∙◌, Bool, true, false, Option, none, some,
  List, [], ◌∷◌, arith, ◌==◌, ==_iff, Bool-cases, Option-cases, Memᴰ-cons, subst, find?, keep, map,
  any,
}
use hellgraph.Dict
use hellgraph.Dict.{Dict}
use hellgraph.AtomSpace.Values.{Value, serialize_value}
use hellgraph.AtomSpace.Space.{Host, Atom}
use hellgraph.AtomSpace.Read.{find_by_value}
use hellgraph.AtomSpace.Indexes.{IsIndexed, text_of}
use hellgraph.AtomSpace.Indexes.Lookups.{find_by_value_iff}
use hellgraph.Store.{
  PropertyValue, GraphNode, HellGraphStore, entity, prop_key, encode_value, project_node,
}
use hellgraph.Store.Reads.{nodes_by_property, nodes_holding}
use hellgraph.Store.Writes.{
  Violation, keys_of, first_error, is_clash, clash_with, report, check_keys, assert_unique_ok,
}

module _ {N : Type 0} (host : Host N) where
  abbrev is_entity : Atom N → Bool
  is_entity a = a.type == entity

  no_clash_found :
      (id label : String) (atoms : List (Atom N))
      → find? (is_clash id label) (map project_node (keep is_entity atoms)) ≡ none
      → (a : Atom N) → Memᴰ a atoms
      → a.type ≡ entity
      → is_clash id label (project_node a) ≡ false
  no_clash_found id label [] h a m t = absurd (Memᴰ.not-nil m)
  no_clash_found id label (b ∷ atoms) h a m t = elim (Bool-cases (is_entity b)) [
    | inl is ↦ elim (Bool-cases (is_clash id label (project_node b))) [
      | inl clashes ↦ absurd (none-ne-some (project_node b) (sym (rw (is, clashes) at h)))
      | inr fine ↦ elim ((Memᴰ-cons a b atoms).0 m) [
        | inl same ↦ ap (λ x. is_clash id label (project_node x)) same ∙ fine
        | inr rest ↦ no_clash_found id label atoms (rw (is, fine) at h) a rest t
      ]
    ]
    | inr other ↦ elim ((Memᴰ-cons a b atoms).0 m) [
      | inl same ↦ absurd (ground (arith, ==_iff b.type entity, ap (λ (x : Atom N). x.type) same))
      | inr rest ↦ no_clash_found id label atoms (rw other at h) a rest t
    ]
  ]

  clash_found :
      (id label : String) (atoms : List (Atom N)) (n : GraphNode N)
      → find? (is_clash id label) (map project_node (keep is_entity atoms)) ≡ some n
      → (a : Atom N) × Memᴰ a atoms
        × (a.type ≡ entity)
        × (is_clash id label (project_node a) ≡ true)
        × (project_node a ≡ n)
  clash_found id label [] n h = absurd (none-ne-some n h)
  clash_found id label (b ∷ atoms) n h = elim (Bool-cases (is_entity b)) [
    | inl is ↦ elim (Bool-cases (is_clash id label (project_node b))) [
      | inl clashes ↦ (
        b,
        Memᴰ.head refl,
        (==_iff b.type entity).0 is,
        clashes,
        some-injective (project_node b) n (rw (is, clashes) at h),
      )
      | inr fine ↦
          let (a, m, t, c, e) = clash_found id label atoms n (rw (is, fine) at h) in
          (a, Memᴰ.tail m, t, c, e)
    ]
    | inr other ↦
        let (a, m, t, c, e) = clash_found id label atoms n (rw other at h) in
        (a, Memᴰ.tail m, t, c, e)
  ]

  -- A node of the space, other than the one written, that carries a label of the write and holds,
  -- under a key that is unique there, the value that the write gives the key.
  pub record Clash (store : HellGraphStore N) (id : String) (labels : List String)
      (properties : Dict (PropertyValue N)) (violation : Violation) : Type 0 where
    pub given : PropertyValue N
    pub encoded : Value N
    pub atom : Atom N
    pub labelled : Memᴰ violation.label labels
    pub constrained :
        Memᴰ violation.key (keys_of (Dict.get store.unique_constraints violation.label))
    pub written : Dict.get properties violation.key ≡ some given
    pub encodes : encode_value given ≡ some encoded
    pub there : Dict.get store.space.atoms atom.handle ≡ some atom
    pub held :
        text_of host (Dict.get atom.values (prop_key violation.key))
        ≡ some (serialize_value host.show encoded)
    pub typed : atom.type ≡ entity
    pub shares : Memᴰ violation.label (project_node atom).labels
    pub differs : (project_node atom).id ≢ id
    pub named : (project_node atom).id ≡ violation.holder

  any_label :
      (labels : List String) (label : String)
      → (any (λ l. l == label) labels ≡ true) ↔ Memᴰ label labels
  any_label [] label = ground (arith, Memᴰ.not-nil {a = label})
  any_label (l ∷ labels) label =
      ground (arith, Memᴰ-cons label l labels, any_label labels label, ==_iff l label)

  is_clash_iff :
      (id label : String) (n : GraphNode N)
      → (is_clash id label n ≡ true) ↔ ((n.id ≢ id) × Memᴰ label n.labels)
  is_clash_iff id label n = ground (arith, any_label n.labels label, ==_iff n.id id)

  first_error-none : (a b : Option Violation) → first_error a b ≡ none → (a ≡ none) × (b ≡ none)
  first_error-none none b h = (refl, h)
  first_error-none (some e) b h = absurd (none-ne-some e (sym h))

  first_error-some :
      (a b : Option Violation) (e : Violation)
      → first_error a b ≡ some e
      → (a ≡ some e) ⊎ (b ≡ some e)
  first_error-some none b e h = inr h
  first_error-some (some d) b e h = inl h

  module _ (store : HellGraphStore N) (id : String) (properties : Dict (PropertyValue N)) where
    abbrev keys_under : String → List String
    keys_under label = keys_of (Dict.get store.unique_constraints label)

    -- What `clash_with` returns for a key with a value.
    clash_with-some :
        (label k : String) (v : PropertyValue N) (violation : Violation)
        → IsIndexed host store.space.graph
        → Dict.get properties k ≡ some v
        → Memᴰ k (keys_under label)
        → clash_with host store.space id label k v ≡ some violation
        → Clash store id (label ∷ []) properties violation
    unfolding clash_with nodes_by_property
    clash_with-some label k v violation i given constrained h =
        elim (Option-cases (encode_value v)) [
          | inl absent ↦ absurd (none-ne-some violation (reported none absent))
          | inr (enc, encodes) ↦
              let atoms = find_by_value host store.space (prop_key k) enc in
              elim (Option-cases
                (find? (is_clash id label) (nodes_holding host store.space k (some enc)))) [
                  | inl nothing ↦
                      absurd (none-ne-some violation (rw nothing at (reported (some enc) encodes)))
                  | inr (n, found) ↦
                      let (a, m, t, c, same) = clash_found id label atoms n found in
                      let (there, held) =
                        (find_by_value_iff host store.space (prop_key k) enc a i).0 m in
                      let (differs, shares) = (is_clash_iff id label (project_node a)).0 c in
                      subst (Clash store id (label ∷ []) properties)
                        (some-injective (record { label = label; key = k; holder = n.id }) violation
                          (rw found at (reported (some enc) encodes)))
                        (record {
                          given = v;
                          encoded = enc;
                          atom = a;
                          labelled = Memᴰ.head refl;
                          constrained = constrained;
                          written = given;
                          encodes = encodes;
                          there = there;
                          held = held;
                          typed = t;
                          shares = shares;
                          differs = differs;
                          named = ap (λ (x : GraphNode N). x.id) same;
                        })
                ]
        ]
      where
        reported :
            (o : Option (Value N))
            → encode_value v ≡ o
            → report host label k (find? (is_clash id label) (nodes_holding host store.space k o))
              ≡ some violation
        reported o e =
            subst
              (λ x.
                report host label k (find? (is_clash id label) (nodes_holding host store.space k x))
                ≡ some violation)
              e h

    check_keys-some :
        (label : String) (ks : List String) (violation : Violation)
        → IsIndexed host store.space.graph
        → ((k : String) → Memᴰ k ks → Memᴰ k (keys_under label))
        → check_keys host store.space id label properties ks ≡ some violation
        → Clash store id (label ∷ []) properties violation
    unfolding check_keys
    check_keys-some label [] violation i among h = absurd (none-ne-some violation h)
    check_keys-some label (k ∷ ks) violation i among h =
        elim (Option-cases (Dict.get properties k)) [
          | inl absent ↦
              check_keys-some label ks violation i (λ x m. among x (Memᴰ.tail m))
                (rw (check_keys, absent) at h)
          | inr (v, given) ↦
              elim (first_error-some (clash_with host store.space id label k v)
                (check_keys host store.space id label properties ks) violation
                (rw (check_keys, given) at h)) [
                  | inl here ↦
                      clash_with-some label k v violation i given (among k (Memᴰ.head refl)) here
                  | inr later ↦
                      check_keys-some label ks violation i (λ x m. among x (Memᴰ.tail m)) later
                ]
        ]

    -- A clash for some of the labels is one for all of them.
    among_labels :
        (labels more : List String) (violation : Violation)
        → ((l : String) → Memᴰ l labels → Memᴰ l more)
        → Clash store id labels properties violation
        → Clash store id more properties violation
    among_labels labels more violation among c = record {
      given = c.given;
      encoded = c.encoded;
      atom = c.atom;
      labelled = among violation.label c.labelled;
      constrained = c.constrained;
      written = c.written;
      encodes = c.encodes;
      there = c.there;
      held = c.held;
      typed = c.typed;
      shares = c.shares;
      differs = c.differs;
      named = c.named;
    }

    assert_unique_ok-some :
        (labels : List String) (violation : Violation)
        → IsIndexed host store.space.graph
        → assert_unique_ok host store id labels properties ≡ some violation
        → Clash store id labels properties violation
    unfolding assert_unique_ok
    assert_unique_ok-some [] violation i h = absurd (none-ne-some violation h)
    assert_unique_ok-some (label ∷ labels) violation i h =
        elim (first_error-some (check_keys host store.space id label properties (keys_under label))
          (assert_unique_ok host store id labels properties) violation h) [
            | inl here ↦
                among_labels (label ∷ []) (label ∷ labels) violation
                  (λ l m. ground (
                    arith,
                    m,
                    Memᴰ-cons l label [],
                    Memᴰ-cons l label labels,
                    Memᴰ.not-nil {a = l},
                  ))
                  (check_keys-some label (keys_under label) violation i (λ k m. m) here)
            | inr later ↦
                among_labels labels (label ∷ labels) violation (λ l m. Memᴰ.tail m)
                  (assert_unique_ok-some labels violation i later)
          ]

    clash_with-none :
        (label k : String) (v : PropertyValue N) (enc : Value N) (a : Atom N)
        → clash_with host store.space id label k v ≡ none
        → encode_value v ≡ some enc
        → Memᴰ a (find_by_value host store.space (prop_key k) enc)
        → a.type ≡ entity
        → is_clash id label (project_node a) ≡ false
    unfolding clash_with nodes_by_property
    clash_with-none label k v enc a h encodes m t =
        no_clash_found id label (find_by_value host store.space (prop_key k) enc) nothing a m t
      where
        unreported : (o : Option (GraphNode N)) → report host label k o ≡ none → o ≡ none
        unreported none e = refl
        unreported (some n) e =
            absurd (none-ne-some (record { label = label; key = k; holder = n.id }) (sym e))

        nothing : find? (is_clash id label) (nodes_holding host store.space k (some enc)) ≡ none
        nothing =
            unreported (find? (is_clash id label) (nodes_holding host store.space k (some enc))) (
              subst
                (λ x.
                  report host label k
                    (find? (is_clash id label) (nodes_holding host store.space k x))
                  ≡ none)
                encodes h)

    check_keys-none :
        (label k : String) (v : PropertyValue N) (ks : List String)
        → check_keys host store.space id label properties ks ≡ none
        → Memᴰ k ks
        → Dict.get properties k ≡ some v
        → clash_with host store.space id label k v ≡ none
    unfolding check_keys
    check_keys-none label k v [] h m given = absurd (Memᴰ.not-nil m)
    check_keys-none label k v (x ∷ ks) h m given = elim ((Memᴰ-cons k x ks).0 m) [
      | inl same ↦
          let given' = subst (λ y. Dict.get properties y ≡ some v) same given in
          let both =
            first_error-none (clash_with host store.space id label x v)
              (check_keys host store.space id label properties ks) (rw (check_keys, given') at h) in
          subst (λ y. clash_with host store.space id label y v ≡ none) (sym same) both.0
      | inr rest ↦ elim (Option-cases (Dict.get properties x)) [
        | inl absent ↦ check_keys-none label k v ks (rw (check_keys, absent) at h) rest given
        | inr (w, there) ↦
            check_keys-none label k v ks
              (first_error-none (clash_with host store.space id label x w)
                (check_keys host store.space id label properties ks)
                (rw (check_keys, there) at h)).1
              rest given
      ]
    ]

    assert_unique_ok-none :
        (labels : List String) (label : String)
        → assert_unique_ok host store id labels properties ≡ none
        → Memᴰ label labels
        → check_keys host store.space id label properties (keys_under label) ≡ none
    unfolding assert_unique_ok
    assert_unique_ok-none [] label h m = absurd (Memᴰ.not-nil m)
    assert_unique_ok-none (l ∷ labels) label h m =
        let (here, later) =
          first_error-none (check_keys host store.space id l properties (keys_under l))
            (assert_unique_ok host store id labels properties) h in
        elim ((Memᴰ-cons label l labels).0 m) [
          | inl same ↦
              subst (λ x. check_keys host store.space id x properties (keys_under x) ≡ none)
                (sym same) here
          | inr rest ↦ assert_unique_ok-none labels label later rest
        ]

    -- `assertUniqueOk` passes exactly when no other node carries a label of the write and holds,
    -- under a key that is unique for the label, the value that the write gives the key, when the
    -- indexes are in step with the atoms.
    pub assert_unique_ok_iff :
        (labels : List String)
        → IsIndexed host store.space.graph
        → (assert_unique_ok host store id labels properties ≡ none)
          ↔ ((violation : Violation) → ¬ Clash store id labels properties violation)
    assert_unique_ok_iff labels i = (
      passes,
      λ no_clash. elim (Option-cases (assert_unique_ok host store id labels properties)) [
        | inl fine ↦ fine
        | inr (violation, throws) ↦
            absurd (no_clash violation (assert_unique_ok-some labels violation i throws))
      ],
    )
      where
        passes :
            assert_unique_ok host store id labels properties ≡ none
            → (violation : Violation) → ¬ Clash store id labels properties violation
        passes h violation c =
            let keys_ok = assert_unique_ok-none labels violation.label h c.labelled in
            let none_with =
              check_keys-none violation.label violation.key c.given (keys_under violation.label)
                keys_ok c.constrained c.written in
            let m =
              (find_by_value_iff host store.space (prop_key violation.key) c.encoded c.atom i).1
                (c.there, c.held) in
            let no_clash =
              clash_with-none violation.label violation.key c.given c.encoded c.atom none_with
                c.encodes m c.typed in
            let is =
              (is_clash_iff id violation.label (project_node c.atom)).1 (c.differs, c.shares) in
            ground (arith, is, no_clash)
