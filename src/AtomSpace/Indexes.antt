-- ===== src/AtomSpace/Indexes.antt =====
-- What the indexes of ts/src/atomspace.ts should say of the atoms.
pub mod Values
pub mod Writes
pub mod Sequences
pub mod Lookups
use mathlib.Core.List.{Memᴰ}
use mathlib.Core.List.Memᴰ
use hellgraph.Base.{
  ℕ, suc, String, ◌≡◌, ◌≢◌, ◌↔◌, ◌⊎◌, inl, inr, refl, sym, ap, ◌∙◌, Bool, true, false, Option, none,
  some, List, [], ◌∷◌, arith, ◌==◌, ==_iff, ==_refl, Memᴰ-cons, Memᴰ-nil, if◌then◌else◌,
  Option-cases, Bool-cases,
}
use hellgraph.Base.Sets.{
  add_new, remove, mem-add_new, mem-remove, IsDistinct, add_new-IsDistinct, remove-IsDistinct,
}
use hellgraph.Dict
use hellgraph.Dict.{Dict, IsUnique}
use hellgraph.AtomSpace.Values.{Handle, Value, serialize_value, node_key}
use hellgraph.AtomSpace.Space.{
  Host, Atom, Graph, AtomSpace, empty_graph, set_at, value_set, add_to, index, index_incoming,
  index_outgoing, index_value, unindex_value, write_value,
}
use hellgraph.AtomSpace.Log.{insert}
use hellgraph.AtomSpace.Read.{outs, out_of}

pub mem-add_to :
    (m : Dict (List Handle)) (k : String) (h : Handle) (j : String) (x : Handle)
    → Memᴰ x (set_at (add_to m k h) j) ↔ (Memᴰ x (set_at m j) ⊎ ((x ≡ h) × (k ≡ j)))
unfolding add_to
mem-add_to m k h j x = ground (
  arith,
  ==_iff k j,
  mem-add_new (set_at m k) h x,
  Dict.get-put m k (add_new (set_at m k) h) j,
  ap (set_at m),
)

abbrev pub name_key : String → Option String → Option String
name_key type none = none
name_key type (some name) = some (node_key type name)

module _ {N : Type 0} (host : Host N) where
  abbrev pub type_of : Option (Atom N) → Option String
  type_of none = none
  type_of (some a) = some a.type

  abbrev pub text_of : Option (Value N) → Option String
  text_of none = none
  text_of (some v) = some (serialize_value host.show v)

  -- The value of an atom at a key, serialized.
  abbrev pub value_of : Option (Atom N) → String → Option String
  value_of none key = none
  value_of (some a) key = text_of (Dict.get a.values key)

  -- The key of a node in the name index.
  abbrev pub index_key : Option (Atom N) → Option String
  index_key none = none
  index_key (some a) = name_key a.type a.name

  pub record IsIndexed (g : Graph N) : Type 0 where
    pub handles : (h : Handle) (a : Atom N) → Dict.get g.atoms h ≡ some a → a.handle ≡ h
    pub types :
        (t h : String) → Memᴰ h (set_at g.by_type t) ↔ (type_of (Dict.get g.atoms h) ≡ some t)
    pub links :
        (target h : Handle)
        → Memᴰ h (set_at g.incoming target) ↔ Memᴰ target (out_of (Dict.get g.atoms h))
    pub valued :
        (key sv h : String)
        → Memᴰ h (value_set g.value_index key sv) ↔ (value_of (Dict.get g.atoms h) key ≡ some sv)
    pub distinct : (key sv : String) → IsDistinct (value_set g.value_index key sv)
    pub unique : IsUnique g.by_type
    -- The name index leads to a node of the name, and has every name.
    pub named :
        (k h : String) → Dict.get g.node_index k ≡ some h → index_key (Dict.get g.atoms h) ≡ some k
    pub known :
        (k h : String) → index_key (Dict.get g.atoms h) ≡ some k → Dict.get g.node_index k ≢ none

  pub empty-IsIndexed : IsIndexed empty_graph
  unfolding Dict.get
  empty-IsIndexed = record {
    handles = λ h a e. cc;
    types = λ t h. ground (arith, Memᴰ-nil h);
    links = λ t h. ground (arith, Memᴰ-nil h, Memᴰ-nil t);
    valued = λ k v h. ground (arith, Memᴰ-nil h);
    distinct = λ k v. tt;
    unique = tt;
    named = λ k h e. cc;
    known = λ k h e. cc;
  }
