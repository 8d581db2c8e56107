-- ===== src/AtomSpace/Durability.antt =====
-- What the backend holds against the graph, over each write (ts/src/atomspace.ts).
use hellgraph.Base.{
  ℕ, suc, max, String, ◌≡◌, ◌≢◌, inl, inr, refl, ap, ◌∙◌, Option, some, List, [], ◌∷◌, ◌++◌, arith,
  ==_iff, Option-cases,
}
use hellgraph.Dict
use hellgraph.AtomSpace.Values.{Handle, TruthValue, AttentionValue, Value}
use hellgraph.AtomSpace.Space.{
  Host, Change, add_atom, set_tv, set_av, set_value, AtomLogEntry, Graph, empty_graph, AtomSpace,
  write_value,
}
use hellgraph.AtomSpace.Log
use hellgraph.AtomSpace.Log.{
  append, insert, new_atom, write_tv, write_av, apply_change, apply_log_entry, replay, open_space,
  is_missing,
}
use hellgraph.AtomSpace.Write.{set_truth_value, set_attention_value, add_new_atom, set_value_of}

module _ {N : Type 0} (host : Host N) where
  -- The backend holds a log whose replay is the graph.
  pub record IsDurable (s : AtomSpace N) : Type 0 where
    pub entries : List (AtomLogEntry N)
    pub held : s.backend ≡ some entries
    pub rebuilt : replay host empty_graph entries ≡ s.graph

  replay-append :
      (g : Graph N) (es : List (AtomLogEntry N)) (e : AtomLogEntry N)
      → replay host g (es ++ e ∷ []) ≡ apply_log_entry host (replay host g es) e
  unfolding replay
  replay-append g [] e = refl
  replay-append g (d ∷ es) e = replay-append (apply_log_entry host g d) es e

  at_seq : Graph N → ℕ → Graph N
  at_seq g n = record g { seq = n }

  -- One write: the graph changes as the replay of its entry changes it.
  append-IsDurable :
      (s : AtomSpace N) (g : Graph N) (c : Change N) (now : String)
      → IsDurable s
      → apply_change host (at_seq s.graph (suc s.seq)) (suc s.seq) now c ≡ g
      → IsDurable (record (append s c now) { graph = g })
  unfolding append at_seq apply_log_entry
  append-IsDurable s g c now d step =
      let entry : AtomLogEntry N = record { seq = suc s.seq; ts = now; change = c } in
      let later : max s.seq (suc s.seq) ≡ suc s.seq = omega arith in
      record {
        entries = d.entries ++ entry ∷ [];
        held = ap (λ b. Log.write b entry) d.held;
        rebuilt =
            replay-append empty_graph d.entries entry
            ∙ ap (λ x. apply_log_entry host x entry) d.rebuilt
            ∙ ap (λ n. apply_change host (at_seq s.graph n) (suc s.seq) now c) later
            ∙ step;
      }

  pub set_truth_value-IsDurable :
      (s : AtomSpace N) (h : Handle) (tv : TruthValue N) (now : String)
      → IsDurable s
      → IsDurable (set_truth_value s h tv now)
  unfolding set_truth_value append at_seq apply_change
  set_truth_value-IsDurable s h tv now d = elim (Option-cases (Dict.get s.atoms h)) [
    | inl absent ↦ rw (absent, set_truth_value) d
    | inr (atom, there) ↦
        rw (there, set_truth_value)
          (append-IsDurable s _ (set_tv h tv) now d (rw (there, apply_change, write_tv)))
  ]

  pub set_attention_value-IsDurable :
      (s : AtomSpace N) (h : Handle) (av : AttentionValue N) (now : String)
      → IsDurable s
      → IsDurable (set_attention_value s h av now)
  unfolding set_attention_value append at_seq apply_change
  set_attention_value-IsDurable s h av now d = elim (Option-cases (Dict.get s.atoms h)) [
    | inl absent ↦ rw (absent, set_attention_value) d
    | inr (atom, there) ↦
        rw (there, set_attention_value)
          (append-IsDurable s _ (set_av h av) now d (rw (there, apply_change, write_av)))
  ]

  pub set_value_of-IsDurable :
      (s : AtomSpace N) (h : Handle) (key : String) (v : Value N) (now : String)
      → IsDurable s
      → IsDurable (set_value_of host s h key v now)
  unfolding set_value_of append at_seq apply_change write_value
  set_value_of-IsDurable s h key v now d = elim (Option-cases (Dict.get s.atoms h)) [
    | inl absent ↦ rw (absent, set_value_of) d
    | inr (atom, there) ↦
        rw (there, set_value_of)
          (append-IsDurable s _ (set_value h key v) now d (rw (there, apply_change)))
  ]

  pub add_new_atom-IsDurable :
      (s : AtomSpace N) (h : Handle) (type : String) (name : Option String)
      (outgoing : Option (List Handle)) (tv : Option (TruthValue N))
      (av : Option (AttentionValue N)) (now : String)
      → h ≢ ""
      → type ≢ ""
      → IsDurable s
      → IsDurable (add_new_atom s h type name outgoing tv av now)
  unfolding add_new_atom append at_seq
  add_new_atom-IsDurable s h type name outgoing tv av now hn tn d =
      append-IsDurable s _ (add_atom h type name outgoing tv av) now d
        (unfold apply_change in ground (arith, ==_iff h "", ==_iff type ""))
