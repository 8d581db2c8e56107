-- ===== src/AtomSpace/Restart.antt =====
-- A restart after any writes (ts/src/atomspace.ts).
use Prim.Native.String.{◌++◌ as str_append}
use text.Mathlib.TextLemmas.{append-eq-nil_iff}
use hellgraph.Base.{
  String, ◌≡◌, ◌≢◌, inl, inr, refl, Bool, true, false, Option, none, some, List, [], ◌∷◌, arith,
  ◌==◌, ==_iff, Option-cases, All,
}
use hellgraph.Dict
use hellgraph.AtomSpace.Values.{Handle, TruthValue, AttentionValue, Value, node_handle, link_handle}
use hellgraph.AtomSpace.Lattice.{is_node, is_link}
use hellgraph.AtomSpace.Space.{Host, AtomSpace}
use hellgraph.AtomSpace.Log.{open_space, replay}
use hellgraph.AtomSpace.Write.{
  set_truth_value, set_attention_value, maybe_tv, maybe_av, add_or_update, declared, add_node,
  add_link, set_value_of,
}
use hellgraph.AtomSpace.Durability.{
  IsDurable, set_truth_value-IsDurable, set_attention_value-IsDurable, set_value_of-IsDurable,
  add_new_atom-IsDurable,
}

-- A call of the write path.
pub data Operation (N : Type 0) : Type 0 where
  node : String → String → Option (TruthValue N) → Option (AttentionValue N) → Operation N
  link : String → List Handle → Option (TruthValue N) → Option (AttentionValue N) → Operation N
  truth : Handle → TruthValue N → Operation N
  attention : Handle → AttentionValue N → Operation N
  value : Handle → String → Value N → Operation N

-- A call with the two readings of the clock that it may make.
pub record Timed (N : Type 0) : Type 0 where
  pub call : Operation N
  pub now : String
  pub later : String

handle_prefix : (s : String) → str_append "h:" s ≢ ""
unfolding ◌==◌
handle_prefix s e = ground (arith, ==_iff "h:" "", (append-eq-nil_iff.0 e).0)

node_handle-ne-nil : (f : String → String) (type name : String) → node_handle f type name ≢ ""
unfolding node_handle
node_handle-ne-nil f type name = handle_prefix _

link_handle-ne-nil :
    (f : String → String) (type : String) (outgoing : List Handle)
    → link_handle f type outgoing ≢ ""
unfolding link_handle
link_handle-ne-nil f type outgoing = handle_prefix _

module _ {N : Type 0} (host : Host N) where
  unfoldable pub perform : AtomSpace N → Timed N → AtomSpace N
  perform s t = elim t.call [
    | node type name tv av ↦ (add_node host s type name tv av t.now t.later).0
    | link type outgoing tv av ↦ (add_link host s type outgoing tv av t.now t.later).0
    | truth h tv ↦ set_truth_value s h tv t.now
    | attention h av ↦ set_attention_value s h av t.now
    | value h key v ↦ set_value_of host s h key v t.now
  ]

  unfoldable pub perform_all : AtomSpace N → List (Timed N) → AtomSpace N
  perform_all s [] = s
  perform_all s (t ∷ ts) = perform_all (perform s t) ts

  -- An atom that is created has a type with a name.
  abbrev pub HasType : Operation N → Type 0
  HasType (node type name tv av) = type ≢ ""
  HasType (link type outgoing tv av) = type ≢ ""
  HasType _ = Unit

  declared-IsDurable :
      (s : AtomSpace N) (known : Bool) (type super : String)
      → IsDurable host s
      → IsDurable host (declared s known type super)
  declared-IsDurable s true type super d = d
  declared-IsDurable s false type super d = record {
    entries = d.entries;
    held = d.held;
    rebuilt = d.rebuilt;
  }

  maybe_tv-IsDurable :
      (s : AtomSpace N) (h : Handle) (tv : Option (TruthValue N)) (now : String)
      → IsDurable host s
      → IsDurable host (maybe_tv s h tv now)
  maybe_tv-IsDurable s h none now d = d
  maybe_tv-IsDurable s h (some tv) now d = set_truth_value-IsDurable host s h tv now d

  maybe_av-IsDurable :
      (s : AtomSpace N) (h : Handle) (av : Option (AttentionValue N)) (now : String)
      → IsDurable host s
      → IsDurable host (maybe_av s h av now)
  maybe_av-IsDurable s h none now d = d
  maybe_av-IsDurable s h (some av) now d = set_attention_value-IsDurable host s h av now d

  add_or_update-IsDurable :
      (s : AtomSpace N) (h : Handle) (type : String) (name : Option String)
      (outgoing : Option (List Handle)) (tv : Option (TruthValue N))
      (av : Option (AttentionValue N)) (now later : String)
      → h ≢ ""
      → type ≢ ""
      → IsDurable host s
      → IsDurable host (add_or_update s h type name outgoing tv av now later)
  unfolding add_or_update
  add_or_update-IsDurable s h type name outgoing tv av now later hn tn d =
      elim (Option-cases (Dict.get s.atoms h)) [
        | inl absent ↦
            rw (absent, add_or_update)
              (add_new_atom-IsDurable host s h type name outgoing tv av now hn tn d)
        | inr (atom, there) ↦
            rw (there, add_or_update)
              (maybe_av-IsDurable (maybe_tv s h tv now) h av later
                (maybe_tv-IsDurable s h tv now d))
      ]

  pub perform-IsDurable :
      (s : AtomSpace N) (t : Timed N)
      → HasType t.call
      → IsDurable host s
      → IsDurable host (perform s t)
  unfolding perform
  perform-IsDurable s t typed d = by_call t.call typed
    where
      by_call : (c : Operation N) → HasType c → IsDurable host (perform s (record t { call = c }))
      by_call (node type name tv av) h =
          unfold add_node in
          add_or_update-IsDurable (declared s (is_node s.types type) type "Node")
            (node_handle host.sha1_hex type name) type (some name) none tv av t.now t.later
            (node_handle-ne-nil host.sha1_hex type name) h
            (declared-IsDurable s (is_node s.types type) type "Node" d)
      by_call (link type outgoing tv av) h =
          unfold add_link in
          add_or_update-IsDurable (declared s (is_link s.types type) type "Link")
            (link_handle host.sha1_hex type outgoing) type none (some outgoing) tv av t.now t.later
            (link_handle-ne-nil host.sha1_hex type outgoing) h
            (declared-IsDurable s (is_link s.types type) type "Link" d)
      by_call (truth h tv) _ = set_truth_value-IsDurable host s h tv t.now d
      by_call (attention h av) _ = set_attention_value-IsDurable host s h av t.now d
      by_call (value h key v) _ = set_value_of-IsDurable host s h key v t.now d

  perform_all-IsDurable :
      (ts : List (Timed N)) (s : AtomSpace N)
      → All (λ t. HasType t.call) ts
      → IsDurable host s
      → IsDurable host (perform_all s ts)
  unfolding perform_all
  perform_all-IsDurable [] s h d = d
  perform_all-IsDurable (t ∷ ts) s h d =
      perform_all-IsDurable ts (perform s t) h.1 (perform-IsDurable s t h.0 d)

  open-IsDurable : IsDurable host (open_space host (some []))
  unfolding open_space replay
  open-IsDurable = record { entries = []; held = refl; rebuilt = refl }

  -- The space that the calls leave, from an empty one with a backend.
  abbrev pub after : List (Timed N) → AtomSpace N
  after ts = perform_all (open_space host (some [])) ts

  -- After any calls of the write path on a space that began empty, opening a space on what the
  -- backend holds gives the same atoms, the same indexes and the same clock, when every atom that
  -- is created has a type other than the empty text.
  pub restart :
      (ts : List (Timed N))
      → All (λ t. HasType t.call) ts
      → (open_space host (after ts).backend).graph ≡ (after ts).graph
  unfolding open_space
  restart ts h =
      let d = perform_all-IsDurable ts (open_space host (some [])) h open-IsDurable in
      rw d.held d.rebuilt
