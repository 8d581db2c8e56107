-- ===== src/Store/Nodes.antt =====
-- What `addNode` of ts/src/store.ts returns.
use Prim.Native.Char.{code}
use package.text.Mathlib.TextLemmas.{cons-eq-cons}
use mathlib.Core.List.{Memᴰ}
use hellgraph.Base.{
  ℕ, suc, String, ◌≡◌, ◌≢◌, ◌↔◌, ◌⊎◌, inl, inr, refl, sym, ap, ◌∙◌, if◌then◌else◌, Bool-cases, ◌==◌,
  Bool, subst, true, Option, none, some, List, [], ◌∷◌, arith, ==_iff, ==_refl, Option-cases,
  Memᴰ-nil, Memᴰ-append, ◌++◌,
}
use hellgraph.Base.Sets.{mem-add_all}
use hellgraph.Base.Text.{append_text, append_text-injective}
use hellgraph.Dict
use hellgraph.Dict.{Dict, IsUnique}
use hellgraph.AtomSpace.Values.{Handle, Value, text, node_handle}
use hellgraph.AtomSpace.Lattice.{is_node}
use hellgraph.AtomSpace.Log.{append, insert, new_atom}
use hellgraph.AtomSpace.Space.{Host, Atom, AtomSpace, index, write_value}
use hellgraph.AtomSpace.Read.{get_atom}
use hellgraph.AtomSpace.Write.{add_node, add_or_update, add_new_atom, set_value_of, declared}
use hellgraph.Store.{
  PropertyValue, GraphNode, HellGraphStore, entity, labels_key, prop_key, encode_value,
  project_node,
}
use hellgraph.Store.Writes.{
  put_node, put_value, put_props, write_node, add_graph_node, merged_labels, existing_labels,
  assert_unique_ok, project_at,
}

module _ {N : Type 0} (host : Host N) (clock : ℕ → String) where
  put_value_at :
      (s : AtomSpace N) (h : Handle) (key : String) (v : Value N) (a : Atom N)
      → Dict.get s.atoms h ≡ some a
      → Dict.get (put_value host clock s h key v).atoms h
        ≡ some (record a { values = Dict.put a.values key v })
  unfolding set_value_of append write_value
  put_value_at s h key v a there =
      rw (set_value_of, there)
        (Dict.get-put s.atoms h (record a { values = Dict.put a.values key v }) h
          ∙ rw (==_refl h) refl)

  added_there :
      (s : AtomSpace N) (h : Handle) (type name now later : String)
      → (a : Atom N) × (Dict.get
            (add_or_update s h type (some name) none none none now later).atoms
            h
          ≡ some a)
  unfolding add_or_update add_new_atom append insert index
  added_there s h type name now later = elim (Option-cases (Dict.get s.atoms h)) [
    | inl absent ↦
        let new = new_atom h type (some name) none none none (suc s.seq) now in
        (new, rw (add_or_update, absent) (Dict.get-put s.atoms h new h ∙ rw (==_refl h) refl))
    | inr (a, there) ↦ (a, rw (add_or_update, there) there)
  ]

  node_there :
      (s : AtomSpace N) (type name : String)
      → (a : Atom N) × (Dict.get
            (put_node host clock s type name).0.atoms
            (put_node host clock s type name).1
          ≡ some a)
  unfolding add_node
  node_there s type name =
      added_there (declared s (is_node s.types type) type "Node")
        (node_handle host.sha1_hex type name) type name (clock s.seq) (clock (suc s.seq))

  prop_key-ne : (k : String) → prop_key k ≢ labels_key
  unfolding append_text
  prop_key-ne k e = ground (arith, ap code (cons-eq-cons.0 e).0)

  labels_kept :
      (a : Atom N) (k : String) (v : Value N)
      → Dict.get (Dict.put a.values (prop_key k) v) labels_key ≡ Dict.get a.values labels_key
  labels_kept a k v =
      Dict.get-put a.values (prop_key k) v labels_key
      ∙ ground (arith, ==_iff (prop_key k) labels_key, prop_key-ne k)

  abbrev pub StoredAs : Option (Value N) → Option (Value N) → Type 0
  StoredAs none stored = Unit
  StoredAs (some enc) stored = stored ≡ some enc

  -- What is stored of a property: its encoding, when it is given and has one.
  abbrev pub Stored : Option (PropertyValue N) → Option (Value N) → Type 0
  Stored none stored = Unit
  Stored (some v) stored = StoredAs (encode_value v) stored

  Stored-head :
      (k j : String) (v : PropertyValue N) (rest : Option (PropertyValue N)) (x : Option (Value N))
      → (k == j) ≡ true
      → StoredAs (encode_value v) x
      → Stored (if k == j then some v else rest) x
  Stored-head k j v rest x here h =
      subst (λ (b : Bool). Stored (if b then some v else rest) x) (sym here) h

  prop_at :
      (m : Dict (Value N)) (k j : String) (v : Value N)
      → Dict.get (Dict.put m (prop_key k) v) (prop_key j)
        ≡ (if k == j then some v else Dict.get m (prop_key j))
  prop_at m k j v =
      Dict.get-put m (prop_key k) v (prop_key j)
      ∙ ground (
        arith,
        ==_iff (prop_key k) (prop_key j),
        ==_iff k j,
        append_text-injective "prop:" k j,
        ap prop_key,
      )

  -- Writing properties keeps the atom and its labels.
  put_props_keeps :
      (s : AtomSpace N) (h : Handle) (properties : Dict (PropertyValue N)) (a : Atom N)
      → Dict.get s.atoms h ≡ some a
      → IsUnique properties
      → (b : Atom N) × (Dict.get (put_props host clock s h properties).atoms h ≡ some b)
        × (Dict.get b.values labels_key ≡ Dict.get a.values labels_key)
        × ((j : String)
            → Dict.get properties j ≡ none
            → Dict.get b.values (prop_key j) ≡ Dict.get a.values (prop_key j))
        × ((j : String) → Stored (Dict.get properties j) (Dict.get b.values (prop_key j)))
  unfolding put_props Dict.get
  put_props_keeps s h [] a there u = (a, there, refl, λ j e. refl, λ j. tt)
  put_props_keeps s h ((k, v) ∷ properties) a there u = elim (Option-cases (encode_value v)) [
    | inl unencodable ↦
        let (b, kept, same, others, stored) = put_props_keeps s h properties a there u.1 in
        rw (put_props, unencodable)
          (
            b,
            kept,
            same,
            λ j absent. others j (ground arith),
            λ j. elim (Bool-cases (k == j)) [
              | inl here ↦
                  Stored-head k j v (Dict.get properties j) (Dict.get b.values (prop_key j)) here
                    (subst (λ o. StoredAs o (Dict.get b.values (prop_key j))) (sym unencodable) tt)
              | inr away ↦ rw away (stored j)
            ],
          )
    | inr (enc, encodes) ↦
        let s' = put_value host clock s h (prop_key k) enc in
        let (b, kept, same, others, stored) =
          put_props_keeps s' h properties (record a { values = Dict.put a.values (prop_key k) enc })
            (put_value_at s h (prop_key k) enc a there) u.1 in
        rw (put_props, encodes)
          (
            b,
            kept,
            same ∙ labels_kept a k enc,
            λ j absent. others j (ground arith) ∙ prop_at a.values k j enc ∙ ground arith,
            λ j. elim (Bool-cases (k == j)) [
              | inl here ↦
                  Stored-head k j v (Dict.get properties j) (Dict.get b.values (prop_key j)) here (
                    subst (λ o. StoredAs o (Dict.get b.values (prop_key j))) (sym encodes)
                      (ap (λ (i : String). Dict.get b.values (prop_key i))
                          (sym ((==_iff k j).0 here))
                        ∙ others k u.0
                        ∙ prop_at a.values k k enc
                        ∙ rw (==_refl k) refl))
              | inr away ↦ rw away (stored j)
            ],
          )
  ]

  -- The atom that a write of a node leaves, with its labels.
  write_node_there :
      (s : AtomSpace N) (id : String) (labels : List String) (properties : Dict (PropertyValue N))
      → IsUnique properties
      → (b : Atom N) × (Dict.get
            (write_node host clock s id labels properties).0.atoms
            (write_node host clock s id labels properties).1
          ≡ some b)
        × (Dict.get b.values labels_key ≡ some (text labels))
        × ((j : String) → Stored (Dict.get properties j) (Dict.get b.values (prop_key j)))
  unfolding write_node
  write_node_there s id labels properties u =
      let (s1, h) = put_node host clock s entity id in
      let (a, there) = node_there s entity id in
      let s2 = put_value host clock s1 h labels_key (text labels) in
      let (b, kept, same, others, stored) =
        put_props_keeps s2 h properties
          (record a { values = Dict.put a.values labels_key (text labels) })
          (put_value_at s1 h labels_key (text labels) a there) u in
      (
        b,
        kept,
        same
            ∙ Dict.get-put a.values labels_key (text labels) labels_key
            ∙ rw (==_refl labels_key) refl,
        stored,
      )

  mem-merged_labels :
      (s : AtomSpace N) (id : String) (labels : List String) (l : String)
      → Memᴰ l (merged_labels s id labels) ↔ (Memᴰ l (existing_labels s id) ⊎ Memᴰ l labels)
  unfolding merged_labels
  mem-merged_labels s id labels l = ground (
    arith,
    mem-add_all [] (existing_labels s id ++ labels) l,
    Memᴰ-append l (existing_labels s id) labels,
    Memᴰ-nil l,
  )

  projected :
      (s : AtomSpace N) (h : Handle) (b : Atom N)
      → Dict.get s.atoms h ≡ some b
      → project_at host clock s h ≡ some (project_node b)
  unfolding get_atom
  projected s h b there = rw (project_at, get_atom, there) refl

  -- A node that breaks no constraint is added: addNode returns what is read of the atom at the
  -- handle of the id, its labels are exactly those that the node had and those given, and each
  -- property given with a value that has an encoding is stored as that under its key; when no
  -- property is given twice.
  pub add_graph_node_returns :
      (store : HellGraphStore N) (id : String) (labels : List String)
      (properties : Dict (PropertyValue N))
      → IsUnique properties
      → assert_unique_ok host store id (merged_labels store.space id labels) properties ≡ none
      → (store' : HellGraphStore N) × (node : GraphNode N) × (add_graph_node host clock store id
            labels properties
          ≡ inr (store', some node))
        × ((l : String)
            → Memᴰ l node.labels ↔ (Memᴰ l (existing_labels store.space id) ⊎ Memᴰ l labels))
        × (a : Atom N) × (Dict.get store'.space.atoms (node_handle host.sha1_hex entity id)
            ≡ some a)
        × (node ≡ project_node a)
        × ((j : String) → Stored (Dict.get properties j) (Dict.get a.values (prop_key j)))
  unfolding add_graph_node project_node node_handle write_node add_node
  add_graph_node_returns store id labels properties u fine =
      let merged = merged_labels store.space id labels in
      let (b, there, shown, stored) = write_node_there store.space id merged properties u in
      let s' = (write_node host clock store.space id merged properties).0 in
      (
        record store { space = s' },
        project_node b,
        rw (add_graph_node, fine)
            (ap (λ (n : Option (GraphNode N)). inr (record store { space = s' }, n))
              (projected s' (write_node host clock store.space id merged properties).1 b there)),
        λ l. rw shown (mem-merged_labels store.space id labels l),
        b,
        there,
        refl,
        stored,
      )
