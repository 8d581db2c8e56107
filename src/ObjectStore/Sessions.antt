-- ===== src/ObjectStore/Sessions.antt =====
-- ts/src/object-store.ts: sequences of calls, what each leaves, and the map from ids to
-- texts that the clients see.
use hellgraph.Base.{
  ℕ, ◌+◌, String, Option, none, some, List, [], ◌∷◌, ◌≡◌, refl, sym, ap, ◌∙◌, subst, ==_iff, arith,
  Option-cases, inl, inr,
}
use hellgraph.Dict
use hellgraph.Dict.{Dict}
use hellgraph.Lifecycle.{ContentState}
use hellgraph.Codex.{syndrome}
use hellgraph.ObjectStore.{
  Bytes, digest, CatalogEntry, IngestMeta, Result, ok, err, ObjectBackend, CanonicalObjectStore,
}
use hellgraph.ObjectStore.Calls.{
  ingest, begin_ingest, end_ingest, first_entry, next_entry, new_version, set_state, get, verify,
  read_entry, check_bytes, verify_entry,
}

pub data Call : Type 0 where
  ingest_call : String → String → IngestMeta → String → Call
  version_call : String → String → String → Call
  state_call : String → ContentState → Call

-- The store as its clients see it: the text last written under an id, and how often one was.
abbrev pub Texts : Type 0
Texts = Dict (String × ℕ)

abbrev pub write_first : Texts → Option (String × ℕ) → String → String → Texts
write_first m none id c = Dict.put m id (c, 1)
write_first m (some _) id c = m

abbrev pub write_next : Texts → Option (String × ℕ) → String → String → Texts
write_next m none id c = m
write_next m (some (_, n)) id c = Dict.put m id (c, n + 1)

unfoldable pub write : Texts → Call → Texts
write m (ingest_call id c meta now) = write_first m (Dict.get m id) id c
write m (version_call id c now) = write_next m (Dict.get m id) id c
write m (state_call id s) = m

unfoldable pub write_all : Texts → List Call → Texts
write_all m [] = m
write_all m (c ∷ cs) = write_all (write m c) cs

-- The text that a call would store.
abbrev pub OfText : (String → Type 0) → Call → Type 0
OfText P (ingest_call id c meta now) = P c
OfText P (version_call id c now) = P c
OfText P (state_call id s) = Unit

module _ (b : Bytes) (backend : ObjectBackend b.Buffer) where
  open b use {Buffer, to_bytes, to_text, sha256}
  open backend use {Blobs, put_blob, get_blob}

  abbrev pub Store : Type 0
  Store = CanonicalObjectStore Blobs

  -- An error leaves the store as it was.
  abbrev pub left : Store → Result (Store × CatalogEntry) → Store
  left s (err e) = s
  left s (ok (s', e)) = s'

  unfoldable pub call : Store → Call → Store
  call s (ingest_call id c meta now) = left s (ingest b backend s id c meta now)
  call s (version_call id c now) = left s (new_version b backend s id c now)
  call s (state_call id st) = set_state b backend s id st

  unfoldable pub call_all : Store → List Call → Store
  call_all s [] = s
  call_all s (c ∷ cs) = call_all (call s c) cs

  pub get_absent :
      (s : Store) (id : String) → Dict.get s.catalog id ≡ none → get b backend s id ≡ ok none
  unfolding get
  get_absent s id absent = ap (read_entry b backend s) absent

  pub get_present :
      (s : Store) (id : String) (e : CatalogEntry)
      → Dict.get s.catalog id ≡ some e
      → get b backend s id ≡ check_bytes b backend e (get_blob s.blobs e.content_hash)
  unfolding get
  get_present s id e there = ap (read_entry b backend s) there

  checked :
      (e' : CatalogEntry) (bytes : Buffer) (text : String) (e : CatalogEntry)
      → check_bytes b backend e' (some bytes) ≡ ok (some (text, e))
      → (e' ≡ e) × (sha256 bytes ≡ e'.content_hash) × (text ≡ to_text bytes)
  checked e' bytes text e h = ground (arith, ==_iff (sha256 bytes) e'.content_hash)

  -- Whatever a backend returns, a text is served only if its bytes hash to what the catalog holds
  -- for the id.
  pub get_checked :
      (s : Store) (id text : String) (e : CatalogEntry)
      → get b backend s id ≡ ok (some (text, e))
      → (bytes : Buffer) × (Dict.get s.catalog id ≡ some e)
        × (get_blob s.blobs e.content_hash ≡ some bytes)
        × (sha256 bytes ≡ e.content_hash)
        × (text ≡ to_text bytes)
  get_checked s id text e h = elim (Option-cases (Dict.get s.catalog id)) [
    | inl absent ↦ absurd (cc (get_absent s id absent))
    | inr (e', there) ↦ elim (Option-cases (get_blob s.blobs e'.content_hash)) [
      | inl gone ↦ absurd (cc (get_present s id e' there, ap (check_bytes b backend e') gone))
      | inr (bytes, held) ↦
          let got = sym (get_present s id e' there ∙ ap (check_bytes b backend e') held) ∙ h in
          let (same_e, hashes, read) = checked e' bytes text e got in
          (
            bytes,
            there ∙ ap some same_e,
            subst (λ (x : CatalogEntry). get_blob s.blobs x.content_hash ≡ some bytes) same_e held,
            subst (λ (x : CatalogEntry). sha256 bytes ≡ x.content_hash) same_e hashes,
            read,
          )
    ]
  ]

  pub verify_at :
      (s : Store) (id : String) (e : CatalogEntry) (bytes : Buffer)
      → Dict.get s.catalog id ≡ some e
      → get_blob s.blobs e.content_hash ≡ some bytes
      → verify b backend s id none ≡ ok (syndrome (digest b) e.codex (to_text bytes))
  unfolding verify
  verify_at s id e bytes there held =
      ap (λ (x : Option CatalogEntry). verify_entry b backend s x none) there ∙ ground arith

  pub ingest_old :
      (s : Store) (id c : String) (meta : IngestMeta) (now : String) (e : CatalogEntry)
      → Dict.get s.catalog id ≡ some e
      → call s (ingest_call id c meta now) ≡ s
  unfolding call ingest begin_ingest
  ingest_old s id c meta now e there = ground arith

  pub ingest_new :
      (s : Store) (id c : String) (meta : IngestMeta) (now : String)
      → Dict.get s.catalog id ≡ none
      → call s (ingest_call id c meta now) ≡ record s {
        catalog = Dict.put s.catalog id (first_entry b backend id c meta now);
        blobs = put_blob s.blobs (digest b c) (to_bytes c);
      }
  unfolding call ingest begin_ingest end_ingest
  ingest_new s id c meta now absent = ground arith

  pub version_old :
      (s : Store) (id c now : String) (e : CatalogEntry)
      → Dict.get s.catalog id ≡ some e
      → call s (version_call id c now) ≡ record s {
        catalog = Dict.put s.catalog id (next_entry b backend e c now);
        blobs = put_blob s.blobs (digest b c) (to_bytes c);
      }
  unfolding call new_version
  version_old s id c now e there = rw there refl

  pub version_new :
      (s : Store) (id c now : String)
      → Dict.get s.catalog id ≡ none
      → call s (version_call id c now) ≡ s
  unfolding call new_version
  version_new s id c now absent = rw absent refl

  pub state_old :
      (s : Store) (id : String) (st : ContentState) (e : CatalogEntry)
      → Dict.get s.catalog id ≡ some e
      → call s (state_call id st)
        ≡ record s { catalog = Dict.put s.catalog id (record e { state = st }) }
  unfolding call set_state
  state_old s id st e there = ground arith

  pub state_new :
      (s : Store) (id : String) (st : ContentState)
      → Dict.get s.catalog id ≡ none
      → call s (state_call id st) ≡ s
  unfolding call set_state
  state_new s id st absent = ground arith
