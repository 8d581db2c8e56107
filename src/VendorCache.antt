-- ===== src/VendorCache.antt =====
-- ts/src/vendor-cache.ts: content materialized at a vendor, over the object store, the policy, the
-- governor and the masking. What is sent to the vendors is recorded in order; `Date.now()` is `clock`.
pub mod Calls
pub mod Egress
pub mod Duties
pub mod Payloads
pub mod Records
pub mod Rounds
pub mod Collection
use hellgraph.Base.{
  ℕ, ◌+◌, String, Bool, true, false, Option, none, some, List, [], ◌∷◌, ◌++◌, keep, leb, ltb, ◌==◌,
  if◌then◌else◌, ◌>>=◌,
}
use hellgraph.Base.Text.{with_colon}
use hellgraph.Base.Sets.{has}
use hellgraph.Dict
use hellgraph.Dict.{Dict}
use hellgraph.Lifecycle.{
  ContentState, ContentObject, Trigger, vendor_materialize, rematerialize, ttl_gc,
}
use hellgraph.Policy.Context.{PolicyContext, GovernedObject, Target, egress, vendor, Value}
use hellgraph.Policy.Decisions.{Decision, allow, deny, decide}
use hellgraph.Governor.{Governor, transition}
use hellgraph.ObjectStore.{
  Bytes, ObjectBackend, CatalogEntry, CanonicalObjectStore, Result, ok, err,
}
use hellgraph.ObjectStore.Calls.{policy_object, check_bytes, get, set_state}
use hellgraph.Masking.{Cipher, starts_with, apply_egress_obligations}

pub record VendorHandle : Type 0 where
  pub object_id : String
  pub vendor_name : String
  pub file_id : String
  pub materialized_at : ℕ
  pub ttl_at : ℕ

-- What a client of a vendor is asked: to upload a content with its MIME type, or to delete a file.
pub data Request : Type 0 where
  upload_file : String → String → String → Request
  delete_file : String → String → Request

-- The clients by their vendors' names, the id that one answers to a request, after those before it, or
-- `none` for a failure, the residencies approved for a vendor, and JSON.
pub record Vendors : Type 0 where
  pub clients : List String
  pub answer : List Request → Request → Option String
  pub residencies : Dict (List String)
  pub parse_json : String → Option Value
  pub print_json : Value → String

pub record MaterializeOptions : Type 0 where
  pub opt_in : Bool
  pub ttl_ms : ℕ
  pub now : Option ℕ

pub data Refusal : Type 0 where
  not_in_catalog no_client bytes_missing not_json : Refusal
  egress_denied : String → Refusal

-- What a materialization returns; `threw` stands for an error that it throws.
pub data MaterializeResult : Type 0 where
  materialized : VendorHandle → MaterializeResult
  refused : Refusal → MaterializeResult
  threw : MaterializeResult

pub record VendorCacheManager (Blobs : Type 0) : Type 0 where
  pub store : CanonicalObjectStore Blobs
  pub governor : Governor
  pub handles : Dict VendorHandle
  pub sent : List Request

abbrev pub key_of : String → String → String
key_of object_id vendor_name = with_colon object_id vendor_name

abbrev pub governed : ContentObject → GovernedObject
governed o = record { object = o; legal_hold_flag = none; connector_opt_in = none }

abbrev pub opted : String → CatalogEntry → Bool → GovernedObject
opted id e opt_in = governed (record (policy_object id e) { vendor_opt_in = some opt_in })

abbrev pub egress_context : Vendors → String → GovernedObject → PolicyContext
egress_context v vendor_name o = record {
  action = egress;
  object = o;
  target = some (record {
    kind = vendor;
    id = some vendor_name;
    region = none;
    allowed_residencies = Dict.get v.residencies vendor_name;
  });
}

abbrev pub is_mask : String → Bool
is_mask o = starts_with o "mask:"

abbrev pub or_now : Option ℕ → ℕ → ℕ
or_now none clock = clock
or_now (some now) clock = now

-- The payload of an egress: refused, an error, or a text.
pub data Payload : Type 0 where
  send : String → Payload
  cannot_mask failed : Payload

abbrev pub send_printed : (Value → String) → Option Value → Payload
send_printed print none = failed
send_printed print (some w) = send (print w)

abbrev pub masked_with : (Value → String) → Option Cipher → Value → List String → Payload
masked_with print none v duties = failed
masked_with print (some cipher) v duties =
    send_printed print (apply_egress_obligations cipher v duties)

abbrev pub mask_parsed : (Value → String) → Option Cipher → Option Value → List String → Payload
mask_parsed print key none duties = cannot_mask
mask_parsed print key (some v) duties = masked_with print key v duties

abbrev pub payload_of : Vendors → Option Cipher → String → List String → Payload
payload_of v key content [] = send content
payload_of v key content (d ∷ ds) = mask_parsed v.print_json key (v.parse_json content) (d ∷ ds)

-- The content, or what masking leaves of it where there is an obligation to mask. `key` is what the
-- provider of keys gives, if it gives one.
unfoldable pub payload_for : Vendors → Option Cipher → String → List String → Payload
payload_for v key content duties = payload_of v key content (keep is_mask duties)
