-- ===== src/Examples/Spaces.antt =====
-- Concrete inputs for the theorems on ts/src/atomspace.ts; numbers are naturals, and the digest of
-- a text is the text.
use mathlib.Core.List.{Memᴰ}
use hellgraph.Base.{
  ℕ, ◌+◌, ◌-◌, ◌*◌, ◌/◌, min, max, String, ◌≡◌, ◌≢◌, ◌↔◌, ◌⊎◌, refl, true, false, none, some, List,
  [], ◌∷◌, arith, ltb, All, ◌==◌, ==_iff,
}
use hellgraph.Base.Text.{decimal}
use hellgraph.Base.Sets.{add_new, remove, has}
use hellgraph.Dict
use hellgraph.AtomSpace.Values.{
  Handle, Value, text, serialize_value, node_handle, link_handle, node_key, join,
}
use hellgraph.AtomSpace.Lattice
use hellgraph.AtomSpace.Lattice.{core_types, is_a, is_node, parents_of}
use hellgraph.AtomSpace.Lattice.Ancestors.{Ancestor}
use hellgraph.AtomSpace.Lattice.Cached.{new-IsCoherent, is_a_iff}
use hellgraph.AtomSpace.Space.{
  Host, Atom, AtomSpace, Change, set_av, index, AtomLogEntry, add_to, index_incoming, index_name,
  index_outgoing, index_value, unindex_value, write_value,
}
use hellgraph.AtomSpace.Log.{
  open_space, replay, append, insert, new_atom, import_entry, apply_entry,
}
use hellgraph.AtomSpace.Write.{add_node, add_link, add_or_update, add_new_atom, set_value_of}
use hellgraph.AtomSpace.Restart.{
  Timed, HasType, node, link, value, perform, perform_all, after, restart,
}
use hellgraph.AtomSpace.Read.{find_by_value}
use hellgraph.AtomSpace.Indexes.{IsIndexed}
use hellgraph.AtomSpace.Indexes.Sequences.{after-IsIndexed}
use hellgraph.AtomSpace.Import.{plain_atom, import_entry-stale}

abbrev pub host : Host ℕ
host = record {
  sha1_hex = λ s. s;
  show = decimal;
  plus = λ a b. a + b;
  minus = λ a b. a - b;
  times = λ a b. a * b;
  over = λ a b. a / (b + 0);
  smaller = min;
  larger = max;
  positive = λ n. ltb 0 n;
  zero = 0;
  one = 1;
  half = 0;
}

abbrev pub cat : Handle
cat = "h:N\0ConceptNode\0cat"

abbrev red : Value ℕ
red = text ("red" ∷ [])

-- A node, a link to it, and a value on it.
abbrev pub calls : List (Timed ℕ)
calls =
    record { call = node "ConceptNode" "cat" none none; now = "t1"; later = "t1" }
    ∷ record { call = link "ListLink" (cat ∷ []) none none; now = "t2"; later = "t2" }
    ∷ record { call = value cat "colour" red; now = "t3"; later = "t3" }
    ∷ []

has_text : (t : String) → ((t == "") ≡ false) → t ≢ ""
has_text t h e = ground (arith, ==_iff t "")

typed : All (λ (t : Timed ℕ). HasType host t.call) calls
unfolding ◌==◌
typed = (has_text "ConceptNode" refl, (has_text "ListLink" refl, (tt, tt)))

restart_example : (open_space host (after host calls).backend).graph ≡ (after host calls).graph
restart_example = restart host calls typed

after-IsIndexed_example : IsIndexed host (after host calls).graph
after-IsIndexed_example = after-IsIndexed host calls

abbrev cat_atom : Atom ℕ
cat_atom = record (new_atom cat "ConceptNode" (some "cat") none none none 1 "t1") {
  values = ("colour", red) ∷ [];
}

pub indexed : IsIndexed host (after host calls).graph
indexed = after-IsIndexed host calls

cat_there : Dict.get (after host calls).atoms cat ≡ some cat_atom
unfolding perform_all perform open_space add_node add_link set_value_of Dict.get add_or_update
    Lattice.is_link is_a ◌==◌ has Lattice.ancestors is_node Lattice.search_ancestors Lattice.climb
    Lattice.push_all parents_of core_types add_new replay add_new_atom append insert add_to index
    index_incoming index_name index_outgoing index_value unindex_value write_value join link_handle
    node_handle node_key serialize_value remove Dict.put
cat_there = refl

is_a_iff_example :
    (is_a Lattice.new "ConceptNode" "Atom" ≡ true)
    ↔ ((◌≡◌ {A = String} "ConceptNode" "Atom") ⊎ Ancestor core_types "ConceptNode" "Atom")
is_a_iff_example = is_a_iff Lattice.new "ConceptNode" "Atom" new-IsCoherent

custom_absent : Dict.get core_types "MyNode" ≡ none
unfolding core_types Dict.get ◌==◌
custom_absent = refl

other_text : (t : String) → ((t == "Node") ≡ false) → t ≢ "Node"
other_text t h e = ground (arith, ==_iff t "Node")

custom_other : ¬ (◌≡◌ {A = String} "MyNode" "Node")
unfolding ◌==◌
custom_other = other_text "MyNode" refl

abbrev empty_space : AtomSpace ℕ
empty_space = after host []

cat_named : cat ≢ ""
unfolding ◌==◌
cat_named = has_text cat refl

type_named : ¬ (◌≡◌ {A = String} "ConceptNode" "")
unfolding ◌==◌
type_named = has_text "ConceptNode" refl

colour_there : Dict.get cat_atom.values "colour" ≡ some red
unfolding Dict.get ◌==◌
colour_there = refl

import_entry-stale_example :
    (s : AtomSpace ℕ) × (import_entry host
        (after host calls)
        (plain_atom host cat "ConceptNode" (some "cat") none none 9 "t9")
        "t10"
      ≡ some s)
    × (Dict.get s.atoms cat ≡ some (new_atom cat "ConceptNode" (some "cat") none none none 9 "t9"))
    × Memᴰ
        (new_atom cat "ConceptNode" (some "cat") none none none 9 "t9")
        (find_by_value host s "colour" red)
import_entry-stale_example =
    import_entry-stale host (after host calls) cat "ConceptNode" (some "cat") none none 9 "t9" "t10"
      cat_atom "colour" red cat_named type_named indexed cat_there colour_there

abbrev focus : Change ℕ
focus = set_av cat (record { sti = 1; lti = 1; vlti = 0 })

abbrev focus_entry : AtomLogEntry ℕ
focus_entry = record { seq = 9; ts = "t9"; change = focus }

imported :
    import_entry host (after host calls) focus_entry "t10"
    ≡ some (apply_entry host (after host calls) focus_entry)
unfolding import_entry
imported = refl
