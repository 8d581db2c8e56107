-- ===== src/AtomSpace/Indexes/Sequences.antt =====
-- The indexes after any calls of the write path (ts/src/atomspace.ts).
use hellgraph.Base.{
  String, ◌≡◌, inl, inr, refl, Bool, true, false, Option, none, some, List, [], ◌∷◌, Option-cases,
}
use hellgraph.Dict
use hellgraph.AtomSpace.Values.{Handle, TruthValue, AttentionValue, Value, node_handle, link_handle}
use hellgraph.AtomSpace.Lattice.{is_node, is_link}
use hellgraph.AtomSpace.Space.{Host, AtomSpace, Graph}
use hellgraph.AtomSpace.Log.{append, open_space, replay}
use hellgraph.AtomSpace.Write.{
  set_truth_value, set_attention_value, maybe_tv, maybe_av, add_new_atom, add_or_update, declared,
  add_node, add_link, set_value_of,
}
use hellgraph.AtomSpace.Restart.{
  Operation, node, link, truth, attention, value, Timed, perform, perform_all, after,
}
use hellgraph.AtomSpace.Indexes.{IsIndexed, empty-IsIndexed}
use hellgraph.AtomSpace.Indexes.Writes.{rewrite-IsIndexed, insert-IsIndexed}
use hellgraph.AtomSpace.Indexes.Values.{write_value-IsIndexed}

module _ {N : Type 0} (host : Host N) where
  -- The clock is no part of the indexes.
  pub at_clock :
      (g g' : Graph N)
      → IsIndexed host g
      → g'.atoms ≡ g.atoms
      → g'.by_type ≡ g.by_type
      → g'.incoming ≡ g.incoming
      → g'.value_index ≡ g.value_index
      → g'.node_index ≡ g.node_index
      → IsIndexed host g'
  at_clock g g' i ea et el ev en = record {
    handles = rw ea i.handles;
    types = rw (ea, et) i.types;
    links = rw (ea, el) i.links;
    valued = rw (ea, ev) i.valued;
    distinct = rw ev i.distinct;
    unique = rw et i.unique;
    named = rw (ea, en) i.named;
    known = rw (ea, en) i.known;
  }

  set_truth_value-IsIndexed :
      (s : AtomSpace N) (h : Handle) (tv : TruthValue N) (now : String)
      → IsIndexed host s.graph
      → IsIndexed host (set_truth_value s h tv now).graph
  unfolding set_truth_value append
  set_truth_value-IsIndexed s h tv now i = elim (Option-cases (Dict.get s.atoms h)) [
    | inl absent ↦ rw (absent, set_truth_value) i
    | inr (atom, there) ↦
        rw (there, set_truth_value)
          (at_clock _ _
            (rewrite-IsIndexed host s.graph h atom (record atom { tv = some tv }) i there refl refl
              refl refl refl)
            refl refl refl refl refl)
  ]

  set_attention_value-IsIndexed :
      (s : AtomSpace N) (h : Handle) (av : AttentionValue N) (now : String)
      → IsIndexed host s.graph
      → IsIndexed host (set_attention_value s h av now).graph
  unfolding set_attention_value append
  set_attention_value-IsIndexed s h av now i = elim (Option-cases (Dict.get s.atoms h)) [
    | inl absent ↦ rw (absent, set_attention_value) i
    | inr (atom, there) ↦
        rw (there, set_attention_value)
          (at_clock _ _
            (rewrite-IsIndexed host s.graph h atom (record atom { av = some av }) i there refl refl
              refl refl refl)
            refl refl refl refl refl)
  ]

  set_value_of-IsIndexed :
      (s : AtomSpace N) (h : Handle) (key : String) (v : Value N) (now : String)
      → IsIndexed host s.graph
      → IsIndexed host (set_value_of host s h key v now).graph
  unfolding set_value_of append
  set_value_of-IsIndexed s h key v now i = elim (Option-cases (Dict.get s.atoms h)) [
    | inl absent ↦ rw (absent, set_value_of) i
    | inr (atom, there) ↦
        rw (there, set_value_of)
          (at_clock _ _ (write_value-IsIndexed host s.graph atom h key v i there) refl refl refl
            refl refl)
  ]

  add_new_atom-IsIndexed :
      (s : AtomSpace N) (h : Handle) (type : String) (name : Option String)
      (outgoing : Option (List Handle)) (tv : Option (TruthValue N))
      (av : Option (AttentionValue N)) (now : String)
      → Dict.get s.atoms h ≡ none
      → IsIndexed host s.graph
      → IsIndexed host (add_new_atom s h type name outgoing tv av now).graph
  unfolding add_new_atom append
  add_new_atom-IsIndexed s h type name outgoing tv av now absent i =
      insert-IsIndexed host _ _ (at_clock s.graph _ i refl refl refl refl refl)
        (record { free = absent; bare = refl })

  maybe_tv-IsIndexed :
      (s : AtomSpace N) (h : Handle) (tv : Option (TruthValue N)) (now : String)
      → IsIndexed host s.graph
      → IsIndexed host (maybe_tv s h tv now).graph
  maybe_tv-IsIndexed s h none now i = i
  maybe_tv-IsIndexed s h (some tv) now i = set_truth_value-IsIndexed s h tv now i

  maybe_av-IsIndexed :
      (s : AtomSpace N) (h : Handle) (av : Option (AttentionValue N)) (now : String)
      → IsIndexed host s.graph
      → IsIndexed host (maybe_av s h av now).graph
  maybe_av-IsIndexed s h none now i = i
  maybe_av-IsIndexed s h (some av) now i = set_attention_value-IsIndexed s h av now i

  add_or_update-IsIndexed :
      (s : AtomSpace N) (h : Handle) (type : String) (name : Option String)
      (outgoing : Option (List Handle)) (tv : Option (TruthValue N))
      (av : Option (AttentionValue N)) (now later : String)
      → IsIndexed host s.graph
      → IsIndexed host (add_or_update s h type name outgoing tv av now later).graph
  unfolding add_or_update
  add_or_update-IsIndexed s h type name outgoing tv av now later i =
      elim (Option-cases (Dict.get s.atoms h)) [
        | inl absent ↦
            rw (absent, add_or_update)
              (add_new_atom-IsIndexed s h type name outgoing tv av now absent i)
        | inr (atom, there) ↦
            rw (there, add_or_update)
              (maybe_av-IsIndexed (maybe_tv s h tv now) h av later
                (maybe_tv-IsIndexed s h tv now i))
      ]

  declared-IsIndexed :
      (s : AtomSpace N) (known : Bool) (type super : String)
      → IsIndexed host s.graph
      → IsIndexed host (declared s known type super).graph
  declared-IsIndexed s true type super i = i
  declared-IsIndexed s false type super i = i

  -- Every call of the write path keeps the indexes in step with the atoms.
  pub perform-IsIndexed :
      (s : AtomSpace N) (t : Timed N)
      → IsIndexed host s.graph
      → IsIndexed host (perform host s t).graph
  unfolding perform
  perform-IsIndexed s t i = by_call t.call
    where
      by_call : (c : Operation N) → IsIndexed host (perform host s (record t { call = c })).graph
      by_call (node type name tv av) =
          unfold add_node in
          add_or_update-IsIndexed (declared s (is_node s.types type) type "Node")
            (node_handle host.sha1_hex type name) type (some name) none tv av t.now t.later
            (declared-IsIndexed s (is_node s.types type) type "Node" i)
      by_call (link type outgoing tv av) =
          unfold add_link in
          add_or_update-IsIndexed (declared s (is_link s.types type) type "Link")
            (link_handle host.sha1_hex type outgoing) type none (some outgoing) tv av t.now t.later
            (declared-IsIndexed s (is_link s.types type) type "Link" i)
      by_call (truth h tv) = set_truth_value-IsIndexed s h tv t.now i
      by_call (attention h av) = set_attention_value-IsIndexed s h av t.now i
      by_call (value h key v) = set_value_of-IsIndexed s h key v t.now i

  pub perform_all-IsIndexed :
      (ts : List (Timed N)) (s : AtomSpace N)
      → IsIndexed host s.graph
      → IsIndexed host (perform_all host s ts).graph
  unfolding perform_all
  perform_all-IsIndexed [] s i = i
  perform_all-IsIndexed (t ∷ ts) s i =
      perform_all-IsIndexed ts (perform host s t) (perform-IsIndexed s t i)

  -- After any calls of the write path on a space that began empty, every index says of the atoms
  -- what it should.
  pub after-IsIndexed : (ts : List (Timed N)) → IsIndexed host (after host ts).graph
  unfolding open_space replay
  after-IsIndexed ts = perform_all-IsIndexed ts (open_space host (some [])) (empty-IsIndexed host)
