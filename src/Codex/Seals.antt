-- ===== src/Codex/Seals.antt =====
-- ts/src/codex.ts: the seal of a content on an atom, and the check of a text against it. The JSON of a
-- manifest is a parameter; `now` and `later` are the times of the two writes.
use mathlib.Core.Path.{ap₂}
use hellgraph.Base.{
  ℕ, String, false, Option, none, some, [], ◌∷◌, ◌≡◌, ◌≢◌, ◌↔◌, refl, ap, ◌∙◌, ◌==◌, ==_iff,
  ==_refl, arith, if◌then◌else◌,
}
use hellgraph.Dict
use hellgraph.AtomSpace.Values.{Value, text, Handle}
use hellgraph.AtomSpace.Space.{Host, Atom, AtomSpace, write_value}
use hellgraph.AtomSpace.Log.{append}
use hellgraph.AtomSpace.Write.{set_value_of}
use hellgraph.Codex.{Manifest, manifest, Syndrome, syndrome, positive, negative}
use hellgraph.Codex.Changes.{syndrome-positive}

abbrev pub codex_key : String
codex_key = "codex:manifest"

abbrev pub integrity_key : String
integrity_key = "codex:integrity"

-- `JSON.stringify` of a manifest, and `JSON.parse`, which throws on a text that is no JSON.
pub record Json : Type 0 where
  pub print : Manifest → String
  pub parse : String → Option Manifest

-- What `verifyAtomContent` returns, or the error that it throws.
pub data Checked : Type 0 where
  unsealed unreadable : Checked
  found : Syndrome → Checked

-- The first text of a value, if it is one of texts and that is not empty.
abbrev pub first_text : {N : Type 0} → Option (Value N) → Option String
first_text (some (text (s ∷ ss))) = if s == "" then none else some s
first_text _ = none

-- `atom?.values[key]`
abbrev pub value_at : {N : Type 0} → AtomSpace N → Handle → String → Option (Value N)
value_at s h key = elim (Dict.get s.atoms h) [ none ↦ none | some atom ↦ Dict.get atom.values key ]

module _ {N : Type 0} (host : Host N) (json : Json) (digest : String → String) where
  unfoldable pub seal_atom_content :
      AtomSpace N → Handle → String → Option ℕ → String → String → AtomSpace N × Manifest
  seal_atom_content s h content division now later =
      let m = manifest digest content division in
      let s' = set_value_of host s h codex_key (text (json.print m ∷ [])) now in
      (set_value_of host s' h integrity_key (text (digest content ∷ [])) later, m)

  -- The backstop over the whole digest.
  abbrev pub backstop : Option String → String → Syndrome → Syndrome
  backstop none current syn = syn
  backstop (some sealed) current syn =
      if digest current == sealed then syn else record syn { exact = false; verdict = negative }

  abbrev pub check_seal : Option Manifest → Option String → String → Checked
  check_seal none sealed current = unreadable
  check_seal (some m) sealed current = found (backstop sealed current (syndrome digest m current))

  abbrev pub check_text : Option String → Option String → String → Checked
  check_text none sealed current = unsealed
  check_text (some raw) sealed current = check_seal (json.parse raw) sealed current

  unfoldable pub verify_atom_content : AtomSpace N → Handle → String → Checked
  verify_atom_content s h current =
      check_text (first_text (value_at s h codex_key)) (first_text (value_at s h integrity_key))
        current

  written :
      (s : AtomSpace N) (h : Handle) (key : String) (v : Value N) (now : String) (atom : Atom N)
      → Dict.get s.atoms h ≡ some atom
      → Dict.get (set_value_of host s h key v now).atoms h
        ≡ some (record atom { values = Dict.put atom.values key v })
  unfolding append write_value set_value_of
  written s h key v now atom there =
      rw (there, set_value_of)
        (Dict.get-put s.atoms h (record atom { values = Dict.put atom.values key v }) h
          ∙ rw (==_refl h) refl)

  sealed_values :
      (s : AtomSpace N) (h : Handle) (a b now later : String) (atom : Atom N)
      → Dict.get s.atoms h ≡ some atom
      → let sealed =
          set_value_of host
            (set_value_of host s h codex_key (text (a ∷ [])) now)
            h
            integrity_key
            (text (b ∷ []))
            later in
        (value_at sealed h codex_key ≡ some (text (a ∷ [])))
        × (value_at sealed h integrity_key ≡ some (text (b ∷ [])))
  unfolding ◌==◌
  sealed_values s h a b now later atom there =
      let there1 = written s h codex_key (text (a ∷ [])) now atom there in
      let values = Dict.put atom.values codex_key (text (a ∷ [])) in
      let there2 =
        written (set_value_of host s h codex_key (text (a ∷ [])) now) h integrity_key
          (text (b ∷ [])) later (record atom { values = values }) there1 in
      (
        rw (there2, value_at)
            (Dict.get-put values integrity_key (text (b ∷ [])) codex_key
              ∙ Dict.get-put atom.values codex_key (text (a ∷ [])) codex_key),
        rw (there2, value_at) (Dict.get-put values integrity_key (text (b ∷ [])) integrity_key),
      )

  first_text-one : (a : String) → a ≢ "" → first_text {N = N} (some (text (a ∷ []))) ≡ some a
  first_text-one a ne = ground (arith, ==_iff a "")

  backstop-positive :
      (sealed current : String) (syn : Syndrome)
      → ((backstop (some sealed) current syn).verdict ≡ positive)
        ↔ ((syn.verdict ≡ positive) × (sealed ≡ digest current))
  backstop-positive sealed current syn = (
    λ e. ground (arith, ==_iff (digest current) sealed),
    λ e. ground (arith, ==_iff (digest current) sealed),
  )

  verified :
      (s : AtomSpace N) (h : Handle) (current : String) (m : Manifest) (whole : String)
      {raw : String}
      → first_text (value_at s h codex_key) ≡ some raw
      → json.parse raw ≡ some m
      → first_text (value_at s h integrity_key) ≡ some whole
      → verify_atom_content s h current
        ≡ found (backstop (some whole) current (syndrome digest m current))
  unfolding verify_atom_content
  verified s h current m whole e p q =
      ap₂ (λ (x y : Option String). check_text x y current) e q
      ∙ ap (λ (x : Option Manifest). check_seal x (some whole) current) p

  -- A text checked against an atom that was sealed gets a syndrome, which is positive exactly when
  -- the text has the manifest of the content and its whole digest, when the atom is there, the JSON
  -- of the manifest reads back and neither it nor the digest is empty.
  pub verify_atom_content-seal_atom_content :
      (s : AtomSpace N) (h : Handle) (content current : String) (division : Option ℕ)
      (now later : String) (atom : Atom N)
      → Dict.get s.atoms h ≡ some atom
      → json.parse (json.print (manifest digest content division))
        ≡ some (manifest digest content division)
      → json.print (manifest digest content division) ≢ ""
      → digest content ≢ ""
      → let sealed = (seal_atom_content s h content division now later).0 in
        (syn : Syndrome) × (verify_atom_content sealed h current ≡ found syn)
        × ((syn.verdict ≡ positive)
            ↔ (manifest digest content none ≡ manifest digest current none)
              × (digest content ≡ digest current))
  unfolding seal_atom_content manifest
  verify_atom_content-seal_atom_content s h content current division now later atom there reads
        prints hashes =
      let m = manifest digest content division in
      let (sealed, whole) =
        sealed_values s h (json.print m) (digest content) now later atom there in
      let syn = syndrome digest m current in
      (
        backstop (some (digest content)) current syn,
        verified _ h current m (digest content)
            (ap first_text sealed ∙ first_text-one (json.print m) prints) reads
            (ap first_text whole ∙ first_text-one (digest content) hashes),
        (
          λ e.
              let (ok, same) = (backstop-positive (digest content) current syn).0 e in
              ((syndrome-positive digest m current).0 ok, same),
          λ e.
              (backstop-positive (digest content) current syn).1
                ((syndrome-positive digest m current).1 e.0, e.1),
        ),
      )
