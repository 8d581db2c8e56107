-- ===== src/ObjectStore/Interleavings.antt =====
-- ts/src/object-store.ts: calls of `ingest` between which the backend is awaited.
use hellgraph.Base.{String, none, some, ◌≡◌, refl, arith, ==_refl, ◌∙◌}
use hellgraph.Dict
use hellgraph.ObjectStore.{Bytes, digest, IngestMeta, ok, ObjectBackend}
use hellgraph.ObjectStore.Calls.{begin_ingest, end_ingest, first_entry, entry}
use hellgraph.ObjectStore.Sessions.{Store}

module _ (b : Bytes) (backend : ObjectBackend b.Buffer) where
  -- Two ingests under an id that is not there, the second of which begins while the first awaits
  -- the backend, both pass the check and return version 1, and the second entry replaces the first.
  pub begin_ingest-end_ingest :
      (s : Store b backend) (id c d : String) (meta more : IngestMeta) (now later : String)
      → entry b backend s id ≡ none
      → (s1 s2 : Store b backend) × (begin_ingest b backend s id c ≡ ok s1)
        × (begin_ingest b backend s1 id d ≡ ok s2)
        × (let (s3, first) = end_ingest b backend s2 id c meta now in
            let (s4, second) = end_ingest b backend s3 id d more later in
            (first.version ≡ 1) × (second.version ≡ 1) × (entry b backend s4 id ≡ some second))
  unfolding begin_ingest end_ingest first_entry entry
  begin_ingest-end_ingest s id c d meta more now later absent =
      let s1 : Store b backend = record s {
        blobs = backend.put_blob s.blobs (digest b c) (b.to_bytes c);
      } in
      let s2 : Store b backend = record s1 {
        blobs = backend.put_blob s1.blobs (digest b d) (b.to_bytes d);
      } in
      let one = first_entry b backend id c meta now in
      let two = first_entry b backend id d more later in
      (
        s1,
        s2,
        ground arith,
        ground arith,
        (refl, refl, Dict.get-put (Dict.put s.catalog id one) id two id ∙ rw (==_refl id) refl),
      )
