-- ===== src/ObjectStore/Calls.antt =====
-- The methods of `CanonicalObjectStore` (ts/src/object-store.ts), over any backend. `now` is
-- `new Date().toISOString()`. A method returns the store that it leaves with its result; `ingest` is in
-- the two parts that its `await` separates.
use hellgraph.Base.{◌+◌, String, not, Option, none, some, [], ◌==◌, if◌then◌else◌}
use hellgraph.Dict
use hellgraph.CausalProof.{Cut}
use hellgraph.Lifecycle.{ContentState, normalized, ContentObject}
use hellgraph.Codex.{manifest, Syndrome, syndrome}
use hellgraph.ObjectStore.{
  Bytes, digest, CatalogEntry, IngestMeta, ObjectProvenance, already_exists, not_in_catalog,
  bytes_missing, address_mismatch, Result, ok, err, empty_acl, or_else, ObjectBackend,
  CanonicalObjectStore,
}

-- The object as the policy sees it.
abbrev pub policy_object : String → CatalogEntry → ContentObject
policy_object id e = record {
  id = id;
  state = e.state;
  vendor_opt_in = none;
  hold_released = none;
  ttl_at = none;
  flagged_window_ends_at = none;
  retention_delete_at = none;
  residency = some e.residency;
  sensitive_fields = some e.sensitive_fields;
}

module _ (b : Bytes) (backend : ObjectBackend b.Buffer) where
  open b use {Buffer, to_bytes, to_text, sha256}
  open backend use {Blobs, put_blob, get_blob}

  abbrev store_bytes : CanonicalObjectStore Blobs → String → CanonicalObjectStore Blobs
  store_bytes s content = record s {
    blobs = put_blob s.blobs (digest b content) (to_bytes content);
  }

  -- `ingest` up to the end of its `await`: another call may run before it goes on.
  unfoldable pub begin_ingest :
      CanonicalObjectStore Blobs → String → String → Result (CanonicalObjectStore Blobs)
  begin_ingest s id content =
      if Dict.has s.catalog id then err already_exists else ok (store_bytes s content)

  unfoldable pub first_entry : String → String → IngestMeta → String → CatalogEntry
  first_entry id content meta now = record {
    id = id;
    version = 1;
    content_hash = digest b content;
    mime = meta.mime;
    residency = meta.residency;
    acl = or_else meta.acl empty_acl;
    sensitive_fields = or_else meta.sensitive_fields [];
    state = normalized;
    codex = manifest (digest b) content meta.division;
    created_at = now;
  }

  abbrev pub set_entry :
      CanonicalObjectStore Blobs → String → CatalogEntry → CanonicalObjectStore Blobs × CatalogEntry
  set_entry s id e = (record s { catalog = Dict.put s.catalog id e }, e)

  -- The rest of `ingest`.
  unfoldable pub end_ingest :
      CanonicalObjectStore Blobs
      → String
      → String
      → IngestMeta
      → String
      → CanonicalObjectStore Blobs × CatalogEntry
  end_ingest s id content meta now = set_entry s id (first_entry id content meta now)

  abbrev then_set :
      Result (CanonicalObjectStore Blobs)
      → (CanonicalObjectStore Blobs → CanonicalObjectStore Blobs × CatalogEntry)
      → Result (CanonicalObjectStore Blobs × CatalogEntry)
  then_set (err e) f = err e
  then_set (ok s) f = ok (f s)

  unfoldable pub ingest :
      CanonicalObjectStore Blobs
      → String
      → String
      → IngestMeta
      → String
      → Result (CanonicalObjectStore Blobs × CatalogEntry)
  ingest s id content meta now =
      then_set (begin_ingest s id content) (λ s'. end_ingest s' id content meta now)

  unfoldable pub entry : CanonicalObjectStore Blobs → String → Option CatalogEntry
  entry s id = Dict.get s.catalog id

  -- What `get` makes of the bytes that the backend returned.
  abbrev pub check_bytes : CatalogEntry → Option Buffer → Result (Option (String × CatalogEntry))
  check_bytes e none = ok none
  check_bytes e (some bytes) =
      if not (sha256 bytes == e.content_hash)
      then err address_mismatch
      else ok (some (to_text bytes, e))

  abbrev pub read_entry :
      CanonicalObjectStore Blobs → Option CatalogEntry → Result (Option (String × CatalogEntry))
  read_entry s none = ok none
  read_entry s (some e) = check_bytes e (get_blob s.blobs e.content_hash)

  unfoldable pub get : CanonicalObjectStore Blobs → String → Result (Option (String × CatalogEntry))
  get s id = read_entry s (Dict.get s.catalog id)

  -- `currentContent ?? (await backend.get(hash))?.toString('utf8')`
  abbrev content_to_check :
      CanonicalObjectStore Blobs → CatalogEntry → Option String → Option String
  content_to_check s e (some current) = some current
  content_to_check s e none = elim (get_blob s.blobs e.content_hash) [
    | none ↦ none
    | some bytes ↦ some (to_text bytes)
  ]

  abbrev pub check_content : CatalogEntry → Option String → Result Syndrome
  check_content e none = err bytes_missing
  check_content e (some content) = ok (syndrome (digest b) e.codex content)

  abbrev pub verify_entry :
      CanonicalObjectStore Blobs → Option CatalogEntry → Option String → Result Syndrome
  verify_entry s none current = err not_in_catalog
  verify_entry s (some e) current = check_content e (content_to_check s e current)

  unfoldable pub verify : CanonicalObjectStore Blobs → String → Option String → Result Syndrome
  verify s id current = verify_entry s (Dict.get s.catalog id) current

  unfoldable pub next_entry : CatalogEntry → String → String → CatalogEntry
  next_entry prev content now = record prev {
    version = prev.version + 1;
    content_hash = digest b content;
    codex = manifest (digest b) content prev.codex.division;
    created_at = now;
  }

  abbrev pub replace :
      CanonicalObjectStore Blobs
      → Option CatalogEntry
      → String
      → String
      → String
      → Result (CanonicalObjectStore Blobs × CatalogEntry)
  replace s none id content now = err not_in_catalog
  replace s (some prev) id content now =
      ok (set_entry (store_bytes s content) id (next_entry prev content now))

  unfoldable pub new_version :
      CanonicalObjectStore Blobs
      → String
      → String
      → String
      → Result (CanonicalObjectStore Blobs × CatalogEntry)
  new_version s id content now = replace s (Dict.get s.catalog id) id content now

  unfoldable pub set_state :
      CanonicalObjectStore Blobs → String → ContentState → CanonicalObjectStore Blobs
  set_state s id state = elim (Dict.get s.catalog id) [
    | none ↦ s
    | some e ↦ record s { catalog = Dict.put s.catalog id (record e { state = state }) }
  ]

  unfoldable pub provenance_of :
      CanonicalObjectStore Blobs → String → Option Cut → Result ObjectProvenance
  provenance_of s id cut = elim (Dict.get s.catalog id) [
    | none ↦ err not_in_catalog
    | some e ↦ ok (record {
      canonical_id = id;
      version = e.version;
      content_hash = e.content_hash;
      codex_sha = e.codex.sha256;
      cut = cut;
    })
  ]

  unfoldable pub to_policy_object : CanonicalObjectStore Blobs → String → Result ContentObject
  to_policy_object s id = elim (Dict.get s.catalog id) [
    | none ↦ err not_in_catalog
    | some e ↦ ok (policy_object id e)
  ]
