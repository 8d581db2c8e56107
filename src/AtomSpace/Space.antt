-- ===== src/AtomSpace/Space.antt =====
-- The state of an AtomSpace and its indexes (ts/src/atomspace.ts). What the log rebuilds is the
-- `Graph`; the type lattice, the log in memory and the backend stand beside it. An atom is a mutable
-- object that its handle names: the methods that return an atom return its handle here.
use hellgraph.Base.{ℕ, String, Bool, Option, none, some, List, [], ◌∷◌}
use hellgraph.Base.Sets.{add_new, remove}
use hellgraph.Dict
use hellgraph.Dict.{Dict}
use hellgraph.AtomSpace.Values.{
  Handle, TruthValue, AttentionValue, Value, serialize_value, node_key,
}
use hellgraph.AtomSpace.Lattice.{TypeLattice}

-- What the environment supplies: the hash, and the source's floats with their operations.
pub record Host (N : Type 0) : Type 0 where
  pub sha1_hex : String → String
  pub show : N → String
  pub plus : N → N → N
  pub minus : N → N → N
  pub times : N → N → N
  pub over : N → N → N
  pub smaller : N → N → N
  pub larger : N → N → N
  pub positive : N → Bool
  pub zero : N
  pub one : N
  pub half : N

pub record Atom (N : Type 0) : Type 0 where
  pub handle : Handle
  pub type : String
  pub name : Option String
  pub outgoing : Option (List Handle)
  pub tv : Option (TruthValue N)
  pub av : Option (AttentionValue N)
  pub values : Dict (Value N)
  pub created_at_seq : ℕ
  pub created_at : String

-- The operation of a log entry with its payload. An empty handle or type stands for a missing one,
-- as in the source's tests.
pub data Change (N : Type 0) : Type 0 where
  add_atom :
      Handle
      → String
      → Option String
      → Option (List Handle)
      → Option (TruthValue N)
      → Option (AttentionValue N)
      → Change N
  set_tv : Handle → TruthValue N → Change N
  set_av : Handle → AttentionValue N → Change N
  set_value : Handle → String → Value N → Change N
  other : Change N

pub record AtomLogEntry (N : Type 0) : Type 0 where
  pub seq : ℕ
  pub ts : String
  pub change : Change N

pub record Graph (N : Type 0) : Type 0 where
  pub atoms : Dict (Atom N)
  pub incoming : Dict (List Handle)
  pub by_type : Dict (List Handle)
  pub node_index : Dict Handle
  pub value_index : Dict (Dict (List Handle))
  pub seq : ℕ

abbrev pub empty_graph : {N : Type 0} → Graph N
empty_graph = record {
  atoms = [];
  incoming = [];
  by_type = [];
  node_index = [];
  value_index = [];
  seq = 0;
}

-- `backend` holds the entries that were written to it, if there is one.
pub record AtomSpace (N : Type 0) : Type 0 where
  pub types : TypeLattice
  pub graph : Graph N
  pub open graph use *
  pub log : List (AtomLogEntry N)
  pub backend : Option (List (AtomLogEntry N))

abbrev pub members : Option (List Handle) → List Handle
members none = []
members (some hs) = hs

abbrev pub values_at : Option (Dict (List Handle)) → Dict (List Handle)
values_at none = []
values_at (some m) = m

-- The set under a key, empty when absent.
abbrev pub set_at : Dict (List Handle) → String → List Handle
set_at m k = members (Dict.get m k)

-- `get(k)`, created when absent, then `add(h)`
unfoldable pub add_to : Dict (List Handle) → String → Handle → Dict (List Handle)
add_to m k h = Dict.put m k (add_new (set_at m k) h)

-- The handles under a key and a serialized value.
abbrev pub value_set : Dict (Dict (List Handle)) → String → String → List Handle
value_set m key sv = set_at (values_at (Dict.get m key)) sv

module _ {N : Type 0} where
  unfoldable pub index_name : Dict Handle → Atom N → Dict Handle
  index_name m atom = elim atom.name [
    | none ↦ m
    | some name ↦ Dict.put m (node_key atom.type name) atom.handle
  ]

  unfoldable pub index : Graph N → Atom N → Graph N
  index g atom = record g {
    atoms = Dict.put g.atoms atom.handle atom;
    by_type = add_to g.by_type atom.type atom.handle;
    node_index = index_name g.node_index atom;
  }

  unfoldable pub index_incoming : Graph N → Handle → Handle → Graph N
  index_incoming g target link = record g { incoming = add_to g.incoming target link }

  -- `for (const target of outgoing) this.indexIncoming(target, handle)`
  unfoldable pub index_outgoing : Graph N → List Handle → Handle → Graph N
  index_outgoing g [] link = g
  index_outgoing g (target ∷ outgoing) link =
      index_outgoing (index_incoming g target link) outgoing link

  module _ (host : Host N) where
    unfoldable pub index_value :
        Dict (Dict (List Handle)) → Handle → String → Value N → Dict (Dict (List Handle))
    index_value m h key v =
        Dict.put m key (add_to (values_at (Dict.get m key)) (serialize_value host.show v) h)

    -- `valueIndex.get(key)?.get(sv)?.delete(handle)`
    unfoldable pub unindex_value :
        Dict (Dict (List Handle)) → Handle → String → Value N → Dict (Dict (List Handle))
    unindex_value m h key v = elim (Dict.get m key) [
      | none ↦ m
      | some by_val ↦ elim (Dict.get by_val (serialize_value host.show v)) [
        | none ↦ m
        | some set ↦ Dict.put m key (Dict.put by_val (serialize_value host.show v) (remove set h))
      ]
    ]

    abbrev pub unindex_old :
        Dict (Dict (List Handle)) → Handle → String → Option (Value N) → Dict (Dict (List Handle))
    unindex_old m h key none = m
    unindex_old m h key (some prev) = unindex_value m h key prev

    -- A new value at a key of an atom that is there: the old one leaves the index first.
    unfoldable pub write_value : Graph N → Atom N → Handle → String → Value N → Graph N
    write_value g atom h key v = record g {
      atoms = Dict.put g.atoms h (record atom { values = Dict.put atom.values key v });
      value_index =
          index_value (unindex_old g.value_index h key (Dict.get atom.values key)) h key v;
    }
