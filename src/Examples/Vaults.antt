-- ===== src/Examples/Vaults.antt =====
-- Concrete inputs for the theorems on ts/src/object-store.ts.
use hellgraph.Base.{◌≡◌, refl, String, none, some, List, [], ◌∷◌, ◌==◌}
use hellgraph.Dict
use hellgraph.Lifecycle.{served}
use hellgraph.ObjectStore.{Bytes, IngestMeta, CatalogEntry, ok, in_memory, ObjectBackend}
use hellgraph.ObjectStore.Calls.{begin_ingest, end_ingest, first_entry, entry, get}
use hellgraph.ObjectStore.Sessions.{
  Store, Call, ingest_call, version_call, state_call, write, write_all, call_all, get_checked,
}
use hellgraph.ObjectStore.Backends.{in_memory-KeepsBlobs}
use hellgraph.ObjectStore.Contents.{Reads, call_all-Reads}
use hellgraph.ObjectStore.Interleavings.{begin_ingest-end_ingest}

-- Bytes and a hash that a test can follow.
abbrev pub bytes : Bytes
bytes = record { Buffer = String; to_bytes = λ s. s; to_text = λ s. s; sha256 = λ s. s }

abbrev pub backend : ObjectBackend String
backend = in_memory

abbrev pub meta : IngestMeta
meta = record {
  mime = "text/plain";
  residency = "EU";
  acl = none;
  sensitive_fields = none;
  division = some 42;
}

abbrev calls : List Call
calls =
    ingest_call "doc" "abc" meta "t1"
    ∷ ingest_call "doc" "other" meta "t2"
    ∷ version_call "doc" "abcd" "t3"
    ∷ state_call "doc" served
    ∷ []

abbrev nothing : Store bytes backend
nothing = record { catalog = []; blobs = [] }

call_all-Reads_example :
    Reads bytes backend in_memory-KeepsBlobs
      (λ _. Unit)
      (λ c _. refl)
      (λ c d _ _ e. e)
      (call_all bytes backend nothing calls)
      "doc"
      (some ("abcd", 2))
unfolding write_all write Dict.get Dict.put ◌==◌
call_all-Reads_example =
    call_all-Reads bytes backend in_memory-KeepsBlobs (λ _. Unit) (λ c _. refl) (λ c d _ _ e. e)
      calls [] (tt, (tt, (tt, (tt, tt)))) "doc"

abbrev pub stored : CatalogEntry
stored = first_entry bytes backend "doc" "abc" meta "t1"

abbrev one : Store bytes backend
one = record { catalog = ("doc", stored) ∷ []; blobs = ("abc", "abc") ∷ [] }

get_checked_example :
    (b : String) × (Dict.get one.catalog "doc" ≡ some stored)
    × (Dict.get one.blobs stored.content_hash ≡ some b)
    × (b ≡ stored.content_hash)
    × ("abc" ≡ b)
unfolding get Dict.get ◌==◌ first_entry
get_checked_example = get_checked bytes backend one "doc" "abc" stored refl

begin_ingest-end_ingest_example :
    (s1 : Store bytes backend) × (s2 : Store bytes backend) × (begin_ingest bytes backend nothing
        "doc" "abc"
      ≡ ok s1)
    × (begin_ingest bytes backend s1 "doc" "xyz" ≡ ok s2)
    × (let (s3, first) = end_ingest bytes backend s2 "doc" "abc" meta "t1" in
        let (s4, second) = end_ingest bytes backend s3 "doc" "xyz" meta "t2" in
        (first.version ≡ 1) × (second.version ≡ 1) × (entry bytes backend s4 "doc" ≡ some second))
unfolding entry Dict.get
begin_ingest-end_ingest_example =
    begin_ingest-end_ingest bytes backend nothing "doc" "abc" "xyz" meta meta "t1" "t2" refl
