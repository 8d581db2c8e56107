-- ===== src/Examples/Seals.antt =====
-- Concrete inputs for the theorems on ts/src/codex.ts.
use package.text.Mathlib.TextLemmas.{cons≢nil}
use hellgraph.Base.{ℕ, ◌≡◌, ◌≢◌, ◌↔◌, refl, String, none, some, [], ◌∷◌, arith, ◌==◌}
use hellgraph.Base.Text.{append_text}
use hellgraph.Codex.{
  Syndrome, manifest, syndrome, changed, substitution, transposition, positive, negative, neutral,
  letter, phi_gematria, phi_sequence, phi_spacing, phi_structure, phi_residue, letters_only,
  sum_values, weigh, val, space_runs, count_tokens,
}
use hellgraph.Dict
use hellgraph.AtomSpace.Space.{Atom, AtomSpace, empty_graph}
use hellgraph.Examples.Spaces.{host}
use hellgraph.Codex.Seals.{
  Json, found, seal_atom_content, verify_atom_content, verify_atom_content-seal_atom_content,
}
use hellgraph.Codex.Changes.{syndrome-verdict}
use hellgraph.Codex.Edits.{syndrome-substitution}
use hellgraph.Codex.Exchanges.{syndrome-transposition}

-- A digest that a test can follow.
abbrev digest : String → String
digest s = s

-- The known answers of the repository's fixture.
open_gate :
    (phi_gematria "the open gate" ≡ 116)
    × (phi_sequence "the open gate" ≡ 639)
    × (phi_spacing "the open gate" ≡ 1 ∷ 1 ∷ [])
    × (phi_structure "the open gate" ≡ (11, 3))
    × (phi_residue "the open gate" ≡ 1 ∷ 4 ∷ 14 ∷ 2 ∷ [])
unfolding phi_gematria phi_sequence phi_spacing phi_structure phi_residue letters_only letter
    sum_values weigh val space_runs count_tokens hellgraph.Auth.trim hellgraph.Auth.trim_start
    hellgraph.Auth.trim_end hellgraph.Metta.is_space ◌==◌
open_gate = (refl, refl, refl, refl, refl)

syndrome-verdict_example :
    ((syndrome digest (manifest digest "ab" (some 42)) "ba").verdict ≢ neutral)
    × (((syndrome digest (manifest digest "ab" (some 42)) "ba").verdict ≡ positive)
        ↔ (manifest digest "ab" none ≡ manifest digest "ba" none))
unfolding manifest
syndrome-verdict_example = syndrome-verdict digest (manifest digest "ab" (some 42)) "ba"

syndrome-substitution_example :
    ((syndrome digest (manifest digest "gate" none) "gaze").class ≡ changed substitution)
    × ((syndrome digest (manifest digest "gate" none) "gaze").verdict ≡ negative)
unfolding append_text letter
syndrome-substitution_example =
    syndrome-substitution digest "ga" "e" none "t" "z" 116 122 refl refl (λ e. omega (arith, e))

syndrome-transposition_example :
    ((syndrome digest (manifest digest "gate" none) "gtae").class ≡ changed transposition)
    × ((syndrome digest (manifest digest "gate" none) "gtae").verdict ≡ negative)
unfolding append_text letter
syndrome-transposition_example =
    syndrome-transposition "g" "" "e" digest none "a" "t" 97 116 refl refl (λ e. omega (arith, e))

abbrev json : Json
json = record { print = λ m. "{}"; parse = λ s. some (manifest digest "ab" (some 42)) }

abbrev node : Atom ℕ
node = record {
  handle = "h:1";
  type = "ConceptNode";
  name = some "ab";
  outgoing = none;
  tv = none;
  av = none;
  values = [];
  created_at_seq = 1;
  created_at = "t0";
}

abbrev space : AtomSpace ℕ
space = record {
  types = record { parents = []; ancestor_cache = [] };
  graph = record empty_graph { atoms = ("h:1", node) ∷ [] };
  log = [];
  backend = none;
}

verify_atom_content-seal_atom_content_example :
    (syn : Syndrome) × (verify_atom_content host json digest
        (seal_atom_content host json digest space "h:1" "ab" (some 42) "t1" "t2").0
        "h:1"
        "ba"
      ≡ found syn)
    × ((syn.verdict ≡ positive)
        ↔ (manifest digest "ab" none ≡ manifest digest "ba" none) × ◌≡◌ {A = String} "ab" "ba")
unfolding Dict.get ◌==◌
verify_atom_content-seal_atom_content_example =
    verify_atom_content-seal_atom_content host json digest space "h:1" "ab" "ba" (some 42) "t1" "t2"
      node refl refl cons≢nil cons≢nil
