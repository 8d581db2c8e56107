-- ===== src/ObjectStore/Backends.antt =====
-- The backends of ts/src/object-store.ts keep what is put under a hash.
use hellgraph.Base.{
  String, Bool, some, ◌≡◌, sym, ap, ◌∙◌, ◌==◌, ==_iff, if◌then◌else◌, Bool-cases, inl, inr,
}
use hellgraph.Base.Text.{append_text, append_text-injective}
use hellgraph.Dict
use hellgraph.ObjectStore.{ObjectBackend, in_memory, S3Client, s3, blob_key}

-- A read returns what was last put under the hash, and a put changes no other.
abbrev pub KeepsBlobs : {Buffer : Type 0} → ObjectBackend Buffer → Type 0
KeepsBlobs {Buffer} backend =
    (s : backend.Blobs) (hash : String) (bytes : Buffer) (other : String)
    → backend.get_blob (backend.put_blob s hash bytes) other
      ≡ (if hash == other then some bytes else backend.get_blob s other)

-- The client keeps the objects of a bucket by their keys.
abbrev pub KeepsObjects : {Buffer : Type 0} → S3Client Buffer → Type 0
KeepsObjects {Buffer} client =
    (e : client.Endpoint) (bucket key : String) (body : Buffer) (other : String)
    → client.get_object (client.put_object e bucket key body) bucket other
      ≡ (if key == other then some body else client.get_object e bucket other)

pub in_memory-KeepsBlobs : {Buffer : Type 0} → KeepsBlobs (in_memory {Buffer = Buffer})
in_memory-KeepsBlobs s hash bytes other = Dict.get-put s hash bytes other

key_eq : (prefix s t : String) → (blob_key prefix s == blob_key prefix t) ≡ (s == t)
unfolding blob_key
key_eq prefix s t = elim (Bool-cases (s == t)) [
  | inl same ↦ rw (same) ((==_iff _ _).1 (ap (append_text prefix) ((==_iff s t).0 same)))
  | inr other ↦ elim (Bool-cases (append_text prefix s == append_text prefix t)) [
    | inl e ↦ absurd (cc ((==_iff s t).1 (append_text-injective prefix s t ((==_iff _ _).0 e))))
    | inr e ↦ e ∙ sym other
  ]
]

-- Over an S3 client that keeps its objects, the backend keeps its blobs, whatever the prefix.
pub s3-KeepsBlobs :
    {Buffer : Type 0} (client : S3Client Buffer) (bucket prefix : String)
    → KeepsObjects client
    → KeepsBlobs (s3 client bucket prefix)
s3-KeepsBlobs client bucket prefix keeps e hash bytes other =
    keeps e bucket (blob_key prefix hash) bytes (blob_key prefix other)
    ∙ ap
        (λ (k : Bool). if k then some bytes else client.get_object e bucket (blob_key prefix other))
        (key_eq prefix hash other)
