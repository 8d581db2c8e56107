-- ===== src/AtomSpace/Indexes/Values.antt =====
-- The value index under `setValue` (ts/src/atomspace.ts).
use mathlib.Core.List.{Memᴰ}
use hellgraph.Base.{
  String, ◌≡◌, ◌↔◌, ◌⊎◌, inl, inr, ap, Option, none, some, List, arith, refl, ◌==◌, ==_iff,
  if◌then◌else◌, Option-cases,
}
use hellgraph.Base.Sets.{
  add_new, remove, mem-add_new, mem-remove, IsDistinct, add_new-IsDistinct, remove-IsDistinct,
}
use hellgraph.Dict
use hellgraph.Dict.{Dict, IsUnique}
use hellgraph.AtomSpace.Values.{Handle, Value, serialize_value}
use hellgraph.AtomSpace.Space.{
  Host, Atom, Graph, value_set, values_at, add_to, index_value, unindex_value, unindex_old,
  write_value,
}
use hellgraph.AtomSpace.Indexes.{IsIndexed, text_of}
use hellgraph.AtomSpace.Indexes.Writes.{index_key-eq}

abbrev ValueIndex : Type 0
ValueIndex = Dict (Dict (List Handle))

module _ {N : Type 0} (host : Host N) where
  abbrev ser : Value N → String
  ser = serialize_value host.show

  -- The set under a key and a text after `indexValue`.
  value_set-index :
      (m : ValueIndex) (h : Handle) (key : String) (v : Value N) (k sv : String)
      → value_set (index_value host m h key v) k sv ≡ (
          if key == k
          then (if ser v == sv then add_new (value_set m key (ser v)) h else value_set m k sv)
          else value_set m k sv)
  unfolding index_value add_to
  value_set-index m h key v k sv = ground (
    arith,
    ==_iff key k,
    ==_iff (ser v) sv,
    Dict.get-put m key (add_to (values_at (Dict.get m key)) (ser v) h) k,
    Dict.get-put (values_at (Dict.get m key)) (ser v) (add_new (value_set m key (ser v)) h) sv,
    ap (Dict.get m),
  )

  value_set-unindex :
      (m : ValueIndex) (h : Handle) (key : String) (v : Value N) (k sv : String)
      → value_set (unindex_value host m h key v) k sv ≡ (
          if key == k
          then (if ser v == sv then remove (value_set m key (ser v)) h else value_set m k sv)
          else value_set m k sv)
  unfolding unindex_value remove
  value_set-unindex m h key v k sv = elim (Option-cases (Dict.get m key)) [
    | inl absent ↦ ground (
      arith,
      ==_iff key k,
      ap (Dict.get m),
      Dict.get-nil {V = List Handle} sv,
      Dict.get-nil {V = List Handle} (ser v),
    )
    | inr (by_val, there) ↦ elim (Option-cases (Dict.get by_val (ser v))) [
      | inl absent ↦
          ground (arith, ==_iff key k, ==_iff (ser v) sv, ap (Dict.get m), ap (Dict.get by_val))
      | inr (set, held) ↦ ground (
        arith,
        ==_iff key k,
        ==_iff (ser v) sv,
        ap (Dict.get m),
        Dict.get-put m key (Dict.put by_val (ser v) (remove set h)) k,
        Dict.get-put by_val (ser v) (remove set h) sv,
      )
    ]
  ]

  mem-index_value :
      (m : ValueIndex) (h : Handle) (key : String) (v : Value N) (k sv x : String)
      → Memᴰ x (value_set (index_value host m h key v) k sv)
        ↔ (Memᴰ x (value_set m k sv) ⊎ ((x ≡ h) × (key ≡ k) × (ser v ≡ sv)))
  mem-index_value m h key v k sv x = ground (
    arith,
    value_set-index m h key v k sv,
    mem-add_new (value_set m key (ser v)) h x,
    ==_iff key k,
    ==_iff (ser v) sv,
    ap (λ (z : String). value_set m z sv),
    ap (value_set m key),
  )

  mem-unindex_old :
      (m : ValueIndex) (h : Handle) (key : String) (prev : Option (Value N)) (k sv x : String)
      → IsDistinct (value_set m k sv)
      → Memᴰ x (value_set (unindex_old host m h key prev) k sv)
        ↔ (Memᴰ x (value_set m k sv) × ¬ ((x ≡ h) × (key ≡ k) × (text_of host prev ≡ some sv)))
  mem-unindex_old m h key none k sv x d = ground arith
  mem-unindex_old m h key (some v) k sv x d = ground (
    arith,
    value_set-unindex m h key v k sv,
    mem-remove (value_set m k sv) h x d,
    ==_iff key k,
    ==_iff (ser v) sv,
    ap (λ (z : String). value_set m z sv),
    ap (value_set m key),
  )

  unindex_old-IsDistinct :
      (m : ValueIndex) (h : Handle) (key : String) (prev : Option (Value N)) (k sv : String)
      → IsDistinct (value_set m k sv)
      → IsDistinct (value_set (unindex_old host m h key prev) k sv)
  unindex_old-IsDistinct m h key none k sv d = d
  unindex_old-IsDistinct m h key (some v) k sv d = ground (
    arith,
    value_set-unindex m h key v k sv,
    remove-IsDistinct (value_set m k sv) h d,
    ==_iff key k,
    ==_iff (ser v) sv,
    ap (λ (z : String). value_set m z sv),
    ap (value_set m key),
  )

  index_value-IsDistinct :
      (m : ValueIndex) (h : Handle) (key : String) (v : Value N) (k sv : String)
      → IsDistinct (value_set m k sv)
      → IsDistinct (value_set (index_value host m h key v) k sv)
  index_value-IsDistinct m h key v k sv d = ground (
    arith,
    value_set-index m h key v k sv,
    add_new-IsDistinct (value_set m k sv) h d,
    ==_iff key k,
    ==_iff (ser v) sv,
    ap (λ (z : String). value_set m z sv),
    ap (value_set m key),
  )

  pub write_value-IsIndexed :
      (g : Graph N) (a : Atom N) (h : Handle) (key : String) (v : Value N)
      → IsIndexed host g
      → Dict.get g.atoms h ≡ some a
      → IsIndexed host (write_value host g a h key v)
  unfolding write_value
  write_value-IsIndexed g a h key v i there =
      let b : Atom N = record a { values = Dict.put a.values key v } in
      let found = Dict.get-put g.atoms h b in
      let old = Dict.get a.values key in
      record {
        handles = λ k c e. ground (arith, found k, ==_iff h k, i.handles h a, i.handles k c);
        types = λ t k. ground (arith, found k, ==_iff h k, i.types t k, i.types t h);
        links = λ t k. ground (arith, found k, ==_iff h k, i.links t k, i.links t h);
        valued = λ k sv x. ground (
          arith,
          found x,
          ==_iff h x,
          ==_iff key k,
          Dict.get-put a.values key v k,
          mem-index_value (unindex_old host g.value_index h key old) h key v k sv x,
          mem-unindex_old g.value_index h key old k sv x (i.distinct k sv),
          i.valued k sv x,
          ap (Dict.get a.values),
        );
        distinct = λ k sv.
            index_value-IsDistinct (unindex_old host g.value_index h key old) h key v k sv
              (unindex_old-IsDistinct g.value_index h key old k sv (i.distinct k sv));
        unique = i.unique;
        named = λ k j e.
            ground (arith, found j, ==_iff h j, i.named k j e, index_key-eq host a b refl refl);
        known = λ k j e.
            ground (
              arith,
              found j,
              ==_iff h j,
              i.known k j,
              i.known k h,
              index_key-eq host a b refl refl,
            );
      }
