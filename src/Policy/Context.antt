-- ===== src/Policy/Context.antt =====
-- The context of a decision (ts/src/policy.ts), and the dynamic values that `getPath` reads in it.
-- Own members are read, the elements, characters and lengths of arrays and texts included: a path
-- through a member that JavaScript inherits is outside the model.
use Prim.Native.Char.{code}
use hellgraph.Base.{
  ℕ, suc, ◌+◌, String, Bool, true, false, not, Option, none, some, List, [], ◌∷◌, ◌==◌, nat_eq,
  if◌then◌else◌,
}
use hellgraph.Base.Text.{decimal}
use hellgraph.Lifecycle.{
  ContentObject, ContentState, ingested_raw, normalized, extracted, indexed, served,
  vendor_materialized, expired_vendor_cache, flagged_retention, legal_hold, deleted,
}

pub data PolicyAction : Type 0 where
  egress delete cache : PolicyAction

pub data TargetKind : Type 0 where
  vendor connector internal : TargetKind

pub record Target : Type 0 where
  pub kind : TargetKind
  pub id : Option String
  pub region : Option String
  pub allowed_residencies : Option (List String)

-- `ContentObject & { legalHold?, connectorOptIn? }`
pub record GovernedObject : Type 0 where
  pub object : ContentObject
  pub open object use *
  pub legal_hold_flag : Option Bool
  pub connector_opt_in : Option Bool

pub record PolicyContext : Type 0 where
  pub action : PolicyAction
  pub object : GovernedObject
  pub target : Option Target

-- A value of the source language, as conditions see it.
mutual
  pub data Value : Type 0 where
    undefined null : Value
    bool : Bool → Value
    num : ℕ → Value
    str : String → Value
    arr : Items → Value
    obj : Fields → Value

  pub data Items : Type 0 where
    nil : Items
    item : Value → Items → Items

  pub data Fields : Type 0 where
    end : Fields
    field : String → Value → Fields → Fields

-- `Boolean(v)`
abbrev pub truthy_value : Value → Bool
truthy_value undefined = false
truthy_value null = false
truthy_value (bool b) = b
truthy_value (num n) = not (nat_eq n 0)
truthy_value (str s) = not (s == "")
truthy_value (arr xs) = true
truthy_value (obj fs) = true

-- `a === b`; arrays and objects are equal only to themselves, and those of a rule are never those
-- of a context.
abbrev pub strict_eq : Value → Value → Bool
strict_eq undefined undefined = true
strict_eq null null = true
strict_eq (bool a) (bool b) = if a then b else not b
strict_eq (num a) (num b) = nat_eq a b
strict_eq (str a) (str b) = a == b
strict_eq _ _ = false

unfoldable pub includes : Items → Value → Bool
includes nil v = false
includes (item x xs) v = let rest = includes xs v in if strict_eq x v then true else rest

abbrev pub of_bool : Option Bool → Value
of_bool none = undefined
of_bool (some b) = bool b

abbrev pub of_num : Option ℕ → Value
of_num none = undefined
of_num (some n) = num n

abbrev pub of_str : Option String → Value
of_str none = undefined
of_str (some s) = str s

items_of : List String → Items
items_of [] = nil
items_of (s ∷ ss) = item (str s) (items_of ss)

unfoldable pub of_strs : Option (List String) → Value
unfolding items_of
of_strs none = undefined
of_strs (some ss) = arr (items_of ss)

unfoldable pub state_name : ContentState → String
state_name ingested_raw = "IngestedRaw"
state_name normalized = "Normalized"
state_name extracted = "Extracted"
state_name indexed = "Indexed"
state_name served = "Served"
state_name vendor_materialized = "VendorMaterialized"
state_name expired_vendor_cache = "ExpiredVendorCache"
state_name flagged_retention = "FlaggedRetention"
state_name legal_hold = "LegalHold"
state_name deleted = "Deleted"

unfoldable pub action_name : PolicyAction → String
action_name egress = "egress"
action_name delete = "delete"
action_name cache = "cache"

abbrev pub kind_name : TargetKind → String
kind_name vendor = "vendor"
kind_name connector = "connector"
kind_name internal = "internal"

abbrev pub object_value : GovernedObject → Value
object_value o = obj (
    field "legalHold" (of_bool o.legal_hold_flag) (
      field "holdReleased" (of_bool o.hold_released) (
        field "vendorOptIn" (of_bool o.vendor_opt_in) (
          field "connectorOptIn" (of_bool o.connector_opt_in) (
            field "id" (str o.id) (
              field "state" (str (state_name o.state)) (
                field "ttlAt" (of_num o.ttl_at) (
                  field "flaggedWindowEndsAt" (of_num o.flagged_window_ends_at) (
                    field "retentionDeleteAt" (of_num o.retention_delete_at) (
                      field "residency" (of_str o.residency)
                        (field "sensitiveFields" (of_strs o.sensitive_fields) end)))))))))))

abbrev pub target_value : Option Target → Value
target_value none = undefined
target_value (some t) = obj (
    field "kind" (str (kind_name t.kind)) (
      field "id" (of_str t.id) (
        field "region" (of_str t.region)
          (field "allowedResidencies" (of_strs t.allowed_residencies) end))))

abbrev pub context_value : PolicyContext → Value
context_value ctx = obj (
    field "object" (object_value ctx.object) (
      field "target" (target_value ctx.target) (field "action" (str (action_name ctx.action)) end)))

-- An own member of a record of fields.
abbrev pub member : Fields → String → Value
member end k = undefined
member (field j v fs) k = if j == k then v else member fs k

-- The item of an array whose index the key is, from the index `n`.
unfoldable pub at_index : ℕ → Items → String → Option Value
at_index n nil k = none
at_index n (item x xs) k = if decimal n == k then some x else at_index (n + 1) xs k

unfoldable pub char_at : ℕ → String → String → Option Value
char_at n String.[] k = none
char_at n (String.◌∷◌ c s) k =
    if decimal n == k then some (str (String.◌∷◌ c "")) else char_at (n + 1) s k

abbrev pub or_undefined : Option Value → Value
or_undefined none = undefined
or_undefined (some v) = v

unfoldable pub count : Items → ℕ
count nil = 0
count (item x xs) = suc (count xs)

unfoldable pub chars : String → ℕ
chars String.[] = 0
chars (String.◌∷◌ c s) = suc (chars s)

-- An element or a character by its index, or the length, of an array or a text.
abbrev read_own : ℕ → Option Value → String → Value
read_own n found k = if k == "length" then num n else or_undefined found

-- `acc == null ? undefined : acc[k]`
abbrev pub read : Value → String → Value
read (obj fs) k = member fs k
read (arr xs) k = read_own (count xs) (at_index 0 xs k) k
read (str s) k = read_own (chars s) (char_at 0 s k) k
read _ k = undefined

-- `path.split('.')`: the part that is being read, and the parts after it.
unfoldable pub split_dots : String → String × List String
split_dots String.[] = ("", [])
split_dots (String.◌∷◌ c s) =
    let (part, parts) = split_dots s in
    if nat_eq (code c) b'.' then ("", part ∷ parts) else (String.◌∷◌ c part, parts)

unfoldable pub walk : Value → List String → Value
walk v [] = v
walk v (k ∷ ks) = walk (read v k) ks

unfoldable pub get_path : PolicyContext → String → Value
unfolding split_dots walk
get_path ctx path = let (part, parts) = split_dots path in walk (context_value ctx) (part ∷ parts)
