-- ===== src/ObjectStore.antt =====
-- ts/src/object-store.ts: the catalog of canonical objects over a store of bytes. The bytes and the
-- hash of Node's Buffer and crypto modules are parameters.
pub mod Calls
pub mod Sessions
pub mod Contents
pub mod Backends
pub mod Interleavings
use hellgraph.Base.{ℕ, String, Option, none, some, List, []}
use hellgraph.Base.Text.{append_text}
use hellgraph.Dict
use hellgraph.Dict.{Dict}
use hellgraph.CausalProof.{Cut}
use hellgraph.Lifecycle.{ContentState}
use hellgraph.Codex.{Manifest}

-- `Buffer.from(s, 'utf8')`, `toString('utf8')`, and the SHA-256 of bytes in hex.
pub record Bytes : Type 1 where
  pub Buffer : Type 0
  pub to_bytes : String → Buffer
  pub to_text : Buffer → String
  pub sha256 : Buffer → String

-- The digest of a text, which seals it.
abbrev pub digest : Bytes → String → String
digest b s = b.sha256 (b.to_bytes s)

pub record Acl : Type 0 where
  pub readers : List String
  pub egress_to : List String

pub record CatalogEntry : Type 0 where
  pub id : String
  pub version : ℕ
  pub content_hash : String
  pub mime : String
  pub residency : String
  pub acl : Acl
  pub sensitive_fields : List String
  pub state : ContentState
  pub codex : Manifest
  pub created_at : String

pub record IngestMeta : Type 0 where
  pub mime : String
  pub residency : String
  pub acl : Option Acl
  pub sensitive_fields : Option (List String)
  pub division : Option ℕ

pub record ObjectProvenance : Type 0 where
  pub canonical_id : String
  pub version : ℕ
  pub content_hash : String
  pub codex_sha : String
  pub cut : Option Cut

-- The errors that the methods throw.
pub data ObjectError : Type 0 where
  already_exists not_in_catalog bytes_missing address_mismatch : ObjectError

pub data Result (A : Type 0) : Type 0 where
  ok : A → Result A
  err : ObjectError → Result A

abbrev pub empty_acl : Acl
empty_acl = record { readers = []; egress_to = [] }

abbrev pub or_else : {A : Type 0} → Option A → A → A
or_else none d = d
or_else (some a) d = a

-- The interface of the stores of bytes: what one holds, and its two methods.
pub record ObjectBackend (Buffer : Type 0) : Type 1 where
  pub Blobs : Type 0
  pub put_blob : Blobs → String → Buffer → Blobs
  pub get_blob : Blobs → String → Option Buffer

abbrev pub in_memory : {Buffer : Type 0} → ObjectBackend Buffer
in_memory {Buffer} = record { Blobs = Dict Buffer; put_blob = Dict.put; get_blob = Dict.get }

-- The client of an S3 endpoint, which the customer supplies, with what the endpoint holds.
pub record S3Client (Buffer : Type 0) : Type 1 where
  pub Endpoint : Type 0
  pub put_object : Endpoint → String → String → Buffer → Endpoint
  pub get_object : Endpoint → String → String → Option Buffer

unfoldable pub blob_key : String → String → String
blob_key prefix hash = append_text prefix hash

abbrev pub s3 : {Buffer : Type 0} → S3Client Buffer → String → String → ObjectBackend Buffer
s3 client bucket prefix = record {
  Blobs = client.Endpoint;
  put_blob = λ e hash bytes. client.put_object e bucket (blob_key prefix hash) bytes;
  get_blob = λ e hash. client.get_object e bucket (blob_key prefix hash);
}

pub record CanonicalObjectStore (Blobs : Type 0) : Type 0 where
  pub catalog : Dict CatalogEntry
  pub blobs : Blobs
