-- ===== src/AtomSpace/Indexes/Writes.antt =====
-- The indexes under the writes of atoms (ts/src/atomspace.ts).
use mathlib.Core.List.{Memᴰ}
use hellgraph.Base.{
  String, ◌≡◌, ◌≢◌, ◌↔◌, ◌⊎◌, inl, inr, Option-cases, refl, ap, ◌∙◌, Option, none, some, List, [],
  ◌∷◌, arith, ==_iff, Memᴰ-cons, Memᴰ-nil,
}
use hellgraph.Dict
use hellgraph.Dict.{Dict, IsUnique}
use hellgraph.AtomSpace.Values.{Handle, Value, node_key}
use hellgraph.AtomSpace.Space.{
  Host, Atom, Graph, set_at, value_set, add_to, index, index_incoming, index_outgoing, index_name,
}
use hellgraph.AtomSpace.Log.{insert, link_in}
use hellgraph.AtomSpace.Read.{outs, out_of}
use hellgraph.AtomSpace.Indexes.{IsIndexed, mem-add_to, index_key, name_key}

module _ {N : Type 0} (host : Host N) where
  pub index_key-eq :
      (a b : Atom N)
      → b.type ≡ a.type
      → b.name ≡ a.name
      → index_key host (some b) ≡ index_key host (some a)
  index_key-eq a b et en = ap (λ (t : String). name_key t b.name) et ∙ ap (name_key a.type) en

  -- A rewrite of an atom that leaves its handle, type, outgoing set and values alone.
  pub rewrite-IsIndexed :
      (g : Graph N) (h : Handle) (a b : Atom N)
      → IsIndexed host g
      → Dict.get g.atoms h ≡ some a
      → b.handle ≡ a.handle
      → b.type ≡ a.type
      → b.outgoing ≡ a.outgoing
      → b.values ≡ a.values
      → b.name ≡ a.name
      → IsIndexed host (record g { atoms = Dict.put g.atoms h b })
  rewrite-IsIndexed g h a b i there eh et eo ev en = record {
    handles = λ k c e.
        ground (arith, Dict.get-put g.atoms h b k, ==_iff h k, i.handles h a, i.handles k c);
    types = λ t k. ground (arith, Dict.get-put g.atoms h b k, ==_iff h k, i.types t k, i.types t h);
    links = λ t k. ground (arith, Dict.get-put g.atoms h b k, ==_iff h k, i.links t k, i.links t h);
    valued = λ key sv k.
        ground
          (arith, Dict.get-put g.atoms h b k, ==_iff h k, i.valued key sv k, i.valued key sv h);
    distinct = i.distinct;
    unique = i.unique;
    named = λ k j e.
        ground
          (arith, Dict.get-put g.atoms h b j, ==_iff h j, i.named k j e, index_key-eq a b et en);
    known = λ k j e. ground (
      arith,
      Dict.get-put g.atoms h b j,
      ==_iff h j,
      i.known k j,
      i.known k h,
      index_key-eq a b et en,
    );
  }

  incoming-index_outgoing :
      (g : Graph N) (targets : List Handle) (h t k : Handle)
      → Memᴰ k (set_at (index_outgoing g targets h).incoming t)
        ↔ (Memᴰ k (set_at g.incoming t) ⊎ ((k ≡ h) × Memᴰ t targets))
  unfolding index_outgoing index_incoming
  incoming-index_outgoing g [] h t k = ground (arith, Memᴰ-nil t)
  incoming-index_outgoing g (target ∷ targets) h t k = ground (
    arith,
    incoming-index_outgoing (index_incoming g target h) targets h t k,
    mem-add_to g.incoming target h t k,
    Memᴰ-cons t target targets,
  )

  -- Only the incoming sets change.
  same_rest :
      (g : Graph N) (targets : List Handle) (h : Handle)
      → ((index_outgoing g targets h).atoms ≡ g.atoms)
        × ((index_outgoing g targets h).by_type ≡ g.by_type)
        × ((index_outgoing g targets h).value_index ≡ g.value_index)
        × ((index_outgoing g targets h).node_index ≡ g.node_index)
  unfolding index_outgoing index_incoming
  same_rest g [] h = (refl, refl, refl, refl)
  same_rest g (target ∷ targets) h = same_rest (index_incoming g target h) targets h

  get-index_name :
      (m : Dict Handle) (a : Atom N) (k : String)
      → ((index_key host (some a) ≡ some k) × (Dict.get (index_name m a) k ≡ some a.handle))
        ⊎ ((index_key host (some a) ≢ some k) × (Dict.get (index_name m a) k ≡ Dict.get m k))
  unfolding index_name
  get-index_name m a k = elim (Option-cases a.name) [
    | inl nameless ↦ rw (index_name, nameless) (inr ((λ e. cc), refl))
    | inr (name, there) ↦
        let key = node_key a.type name in
        rw (index_name, there)
          (ground (arith, Dict.get-put m key a.handle k, ==_iff key k, ap (λ (x : String). some x)))
  ]

  -- An atom without values, at a handle that was free.
  pub record IsFresh (g : Graph N) (a : Atom N) : Type 0 where
    pub free : Dict.get g.atoms a.handle ≡ none
    pub bare : a.values ≡ []

  incoming-link_in :
      (g : Graph N) (hs : Option (List Handle)) (h t k : Handle)
      → Memᴰ k (set_at (link_in g hs h).incoming t)
        ↔ (Memᴰ k (set_at g.incoming t) ⊎ ((k ≡ h) × Memᴰ t (outs hs)))
  incoming-link_in g none h t k = ground (arith, Memᴰ-nil t)
  incoming-link_in g (some hs) h t k = incoming-index_outgoing g hs h t k

  link_in_rest :
      (g : Graph N) (hs : Option (List Handle)) (h : Handle)
      → ((link_in g hs h).atoms ≡ g.atoms)
        × ((link_in g hs h).by_type ≡ g.by_type)
        × ((link_in g hs h).value_index ≡ g.value_index)
        × ((link_in g hs h).node_index ≡ g.node_index)
  link_in_rest g none h = (refl, refl, refl, refl)
  link_in_rest g (some hs) h = same_rest g hs h

  insert_incoming :
      (g : Graph N) (a : Atom N) (t k : Handle)
      → Memᴰ k (set_at (insert g a).incoming t)
        ↔ (Memᴰ k (set_at g.incoming t) ⊎ ((k ≡ a.handle) × Memᴰ t (outs a.outgoing)))
  unfolding insert index
  insert_incoming g a t k = incoming-link_in (index g a) a.outgoing a.handle t k

  pub insert_rest :
      (g : Graph N) (a : Atom N)
      → ((insert g a).atoms ≡ Dict.put g.atoms a.handle a)
        × ((insert g a).by_type ≡ add_to g.by_type a.type a.handle)
        × ((insert g a).value_index ≡ g.value_index)
        × ((insert g a).node_index ≡ index_name g.node_index a)
  unfolding insert index
  insert_rest g a = link_in_rest (index g a) a.outgoing a.handle

  pub insert-IsIndexed :
      (g : Graph N) (a : Atom N) → IsIndexed host g → IsFresh g a → IsIndexed host (insert g a)
  insert-IsIndexed g a i f =
      let (atoms, by_type, values, names) = insert_rest g a in
      let found = λ (k : Handle).
        ap (λ (m : Dict (Atom N)). Dict.get m k) atoms ∙ Dict.get-put g.atoms a.handle a k in
      record {
        handles = λ k c e. ground (arith, found k, ==_iff a.handle k, i.handles k c);
        types = λ t k. ground (
          arith,
          found k,
          ==_iff a.handle k,
          mem-add_to g.by_type a.type a.handle t k,
          i.types t k,
          ap (λ (m : Dict (List Handle)). set_at m t) by_type,
          f.free,
        );
        links = λ t k. ground (
          arith,
          found k,
          ==_iff a.handle k,
          insert_incoming g a t k,
          i.links t k,
          f.free,
          Memᴰ-nil t,
          ap out_of,
        );
        valued = λ key sv k. ground (
          arith,
          found k,
          ==_iff a.handle k,
          i.valued key sv k,
          ap (λ (m : Dict (Dict (List Handle))). value_set m key sv) values,
          f.free,
          f.bare,
          Dict.get-nil {V = Value N} key,
          ap (λ (m : Dict (Value N)). Dict.get m key) f.bare,
        );
        distinct = λ key sv. rw values (i.distinct key sv);
        unique = rw by_type (unfold add_to in Dict.put-IsUnique g.by_type a.type _ i.unique);
        named = λ k j e. ground (
          arith,
          found j,
          ==_iff a.handle j,
          get-index_name g.node_index a k,
          ap (λ (m : Dict Handle). Dict.get m k) names,
          i.named k j,
          f.free,
        );
        known = λ k j e. ground (
          arith,
          found j,
          ==_iff a.handle j,
          get-index_name g.node_index a k,
          ap (λ (m : Dict Handle). Dict.get m k) names,
          i.known k j,
          f.free,
        );
      }
