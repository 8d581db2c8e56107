-- ===== src/AtomSpace/Log.antt =====
-- Durability of ts/src/atomspace.ts: the append-only log, its replay, and the entries that come from
-- other spaces. The default backend keeps each entry as a line of JSON and reads it back; it is
-- modelled as the list of the entries written, and `JSON.parse` as the inverse of `JSON.stringify`.
use hellgraph.Base.{
  ℕ, suc, max, String, Bool, ◌||◌, Option, none, some, List, [], ◌∷◌, ◌++◌, ◌==◌, if◌then◌else◌,
}
use hellgraph.Dict
use hellgraph.AtomSpace.Values.{Handle, TruthValue, AttentionValue}
use hellgraph.AtomSpace.Lattice
use hellgraph.AtomSpace.Space.{
  Host, Atom, Change, add_atom, set_tv, set_av, set_value, other, AtomLogEntry, Graph, empty_graph,
  AtomSpace, index, index_outgoing, write_value,
}

abbrev pub is_missing : String → Bool
is_missing s = s == ""

module _ {N : Type 0} where
  abbrev pub write :
      Option (List (AtomLogEntry N)) → AtomLogEntry N → Option (List (AtomLogEntry N))
  write none e = none
  write (some es) e = some (es ++ e ∷ [])

  -- `append`: the new entry takes the next number. The event that it emits is the entry.
  unfoldable pub append : AtomSpace N → Change N → String → AtomSpace N
  append s c now =
      let entry : AtomLogEntry N = record { seq = suc s.seq; ts = now; change = c } in
      record s {
        graph = record s.graph { seq = suc s.seq };
        log = s.log ++ entry ∷ [];
        backend = write s.backend entry;
      }

  abbrev pub new_atom :
      Handle
      → String
      → Option String
      → Option (List Handle)
      → Option (TruthValue N)
      → Option (AttentionValue N)
      → ℕ
      → String
      → Atom N
  new_atom h type name outgoing tv av seq ts = record {
    handle = h;
    type = type;
    name = name;
    outgoing = outgoing;
    tv = tv;
    av = av;
    values = [];
    created_at_seq = seq;
    created_at = ts;
  }

  abbrev pub link_in : Graph N → Option (List Handle) → Handle → Graph N
  link_in g none h = g
  link_in g (some outgoing) h = index_outgoing g outgoing h

  -- The atom and its entries in the indexes of handles.
  unfoldable pub insert : Graph N → Atom N → Graph N
  insert g atom = link_in (index g atom) atom.outgoing atom.handle

  abbrev pub write_tv : Graph N → Handle → Option (TruthValue N) → Graph N
  write_tv g h tv = elim (Dict.get g.atoms h) [
    | none ↦ g
    | some atom ↦ record g { atoms = Dict.put g.atoms h (record atom { tv = tv }) }
  ]

  abbrev pub write_av : Graph N → Handle → Option (AttentionValue N) → Graph N
  write_av g h av = elim (Dict.get g.atoms h) [
    | none ↦ g
    | some atom ↦ record g { atoms = Dict.put g.atoms h (record atom { av = av }) }
  ]

  module _ (host : Host N) where
    -- The `switch` of `applyLogEntry`, at the entry's number and time.
    unfoldable pub apply_change : Graph N → ℕ → String → Change N → Graph N
    apply_change g seq ts (add_atom h type name outgoing tv av) =
        if is_missing h || is_missing type
        then g
        else insert g (new_atom h type name outgoing tv av seq ts)
    apply_change g seq ts (set_tv h tv) = write_tv g h (some tv)
    apply_change g seq ts (set_av h av) = write_av g h (some av)
    apply_change g seq ts (set_value h key v) = elim (Dict.get g.atoms h) [
      | none ↦ g
      | some atom ↦ write_value host g atom h key v
    ]
    apply_change g seq ts other = g

    unfoldable pub apply_log_entry : Graph N → AtomLogEntry N → Graph N
    apply_log_entry g e = apply_change (record g { seq = max g.seq e.seq }) e.seq e.ts e.change

    -- `backend.restore(entry => this.applyLogEntry(entry))`
    unfoldable pub replay : Graph N → List (AtomLogEntry N) → Graph N
    replay g [] = g
    replay g (e ∷ es) = replay (apply_log_entry g e) es

    -- The constructor, over the entries that the backend holds.
    unfoldable pub open_space : Option (List (AtomLogEntry N)) → AtomSpace N
    open_space none = record { types = Lattice.new; graph = empty_graph; log = []; backend = none }
    open_space (some es) = record {
      types = Lattice.new;
      graph = replay empty_graph es;
      log = [];
      backend = some es;
    }

    -- `setBackend`: everything but the type lattice is rebuilt.
    unfoldable pub set_backend : AtomSpace N → List (AtomLogEntry N) → AtomSpace N
    set_backend s es = record s { graph = replay empty_graph es; log = []; backend = some es }

    abbrev clamp : N → N
    clamp x = host.larger host.zero (host.smaller host.one x)

    -- `plnRevise`
    unfoldable pub pln_revise : TruthValue N → TruthValue N → TruthValue N
    pln_revise a b =
        let c =
          host.minus (host.plus a.confidence b.confidence) (host.times a.confidence b.confidence) in
        let s =
          host.over
            (host.plus (host.times a.strength a.confidence) (host.times b.strength b.confidence))
            (host.plus a.confidence b.confidence) in
        record { strength = clamp (if host.positive c then s else host.half); confidence = clamp c }

    abbrev default_tv : TruthValue N
    default_tv = record { strength = host.one; confidence = host.zero }

    abbrev pub or_default : Option (TruthValue N) → TruthValue N
    or_default none = default_tv
    or_default (some tv) = tv

    -- The revised truth value is written to the backend, but not to the log in memory.
    unfoldable pub revise :
        AtomSpace N → Handle → Atom N → TruthValue N → TruthValue N → String → AtomSpace N
    revise s h atom old tv now =
        let merged = pln_revise old tv in
        record s {
          graph = record s.graph {
            atoms = Dict.put s.atoms h (record atom { tv = some merged });
            seq = suc s.seq;
          };
          backend =
              write s.backend (record { seq = suc s.seq; ts = now; change = set_tv h merged });
        }

    abbrev pub apply_entry : AtomSpace N → AtomLogEntry N → AtomSpace N
    apply_entry s e = record s { graph = apply_log_entry s.graph e }

    -- `importEntry`; `none` is the error of a malformed entry.
    unfoldable pub import_entry : AtomSpace N → AtomLogEntry N → String → Option (AtomSpace N)
    import_entry s e now = elim e.change [
      | add_atom h type name outgoing tv av ↦
          if is_missing h
          then none
          else if is_missing type
          then none
          else elim (Dict.get s.atoms h) [
            | none ↦ some (apply_entry s e)
            | some atom ↦ elim tv [
              | none ↦ some (apply_entry s e)
              | some new_tv ↦ some (revise s h atom (or_default atom.tv) new_tv now)
            ]
          ]
      | set_tv h tv ↦ if is_missing h then none else elim (Dict.get s.atoms h) [
        | none ↦ some (apply_entry s e)
        | some atom ↦ elim atom.tv [
          | none ↦ some (apply_entry s e)
          | some old ↦ some (revise s h atom old tv now)
        ]
      ]
      | set_av h av ↦ some (apply_entry s e)
      | set_value h key v ↦ some (apply_entry s e)
      | other ↦ some (apply_entry s e)
    ]
