-- ===== src/Masking.antt =====
-- ts/src/masking.ts: fields of a payload encrypted in place. The cipher is a parameter. A payload is a
-- value of the policy's context; what JavaScript gives arrays and texts beside their indexes, and an
-- index that an array does not have in a write, are outside the model.
pub mod Leaves
pub mod Wrapping
pub mod Payloads
pub mod RoundTrip
pub mod Graph
use Prim.Native.Char.{code}
use hellgraph.Base.{
  ℕ, zero, suc, ◌+◌, String, Bool, true, false, not, ◌&&◌, ◌||◌, Option, none, some, List, [], ◌∷◌,
  ◌==◌, nat_eq, any, keep, map, ◌>>=◌, if◌then◌else◌,
}
use hellgraph.Base.Text.{append_text, decimal}
use hellgraph.Policy.Context.{
  Value, undefined, null, bool, num, str, arr, obj, Items, nil, item, Fields, end, field, member,
  at_index, char_at, or_undefined, split_dots,
}

-- AES-256-GCM under the key of the provider: the base64 of the iv, the tag and the ciphertext of a
-- text, with the iv that the n-th call of a run draws, and the text of such a base64, or an error.
pub record Cipher : Type 0 where
  pub encrypt : ℕ → String → String
  pub decrypt : String → Option String

-- What `.` of a regular expression does not match.
unfoldable pub is_line_end : ℕ → Bool
is_line_end n = nat_eq n 10 || nat_eq n 13 || nat_eq n 8232 || nat_eq n 8233

-- What stands before the `#}` at the end, on one line.
unfoldable pub cut_end : String → Option String
unfolding is_line_end
cut_end String.[] = none
cut_end (String.◌∷◌ c s) =
    let rest = cut_end s in
    if String.◌∷◌ c s == "#}"
    then some ""
    else if is_line_end (code c)
    then none
    else rest >>= λ (t : String). some (String.◌∷◌ c t)

-- The group of `WRAP.exec(v)`
unfoldable pub unwrap : String → Option String
unwrap (String.◌∷◌ c (String.◌∷◌ d s)) =
    if nat_eq (code c) b'{' && nat_eq (code d) b'#' then cut_end s else none
unwrap _ = none

abbrev pub is_some : Option String → Bool
is_some none = false
is_some (some _) = true

unfoldable pub is_masked : String → Bool
is_masked s = is_some (unwrap s)

unfoldable pub wrap : String → String
wrap s = String.◌∷◌ "{" (String.◌∷◌ "#" (append_text s "#}"))

unfoldable pub mask_value : Cipher → ℕ → String → String
mask_value cipher n plaintext = wrap (cipher.encrypt n plaintext)

unfoldable pub unmask_value : Cipher → String → Option String
unmask_value cipher wrapped = unwrap wrapped >>= cipher.decrypt

-- `jpath.replace(/^\$\.?/, '')`
unfoldable pub without_root : String → String
without_root (String.◌∷◌ c (String.◌∷◌ d s)) =
    if nat_eq (code c) b'$'
    then if nat_eq (code d) b'.' then s else String.◌∷◌ d s
    else String.◌∷◌ c (String.◌∷◌ d s)
without_root (String.◌∷◌ c s) = if nat_eq (code c) b'$' then s else String.◌∷◌ c s
without_root s = s

unfoldable pub is_forbidden : String → Bool
is_forbidden k = k == "__proto__" || (k == "constructor" || k == "prototype")

-- The keys of a path, or `none` for the error on an unsafe segment.
unfoldable pub path_keys : String → Option (List String)
path_keys jpath =
    let (part, parts) = split_dots (without_root jpath) in
    let keys = keep (λ (k : String). not (k == "")) (part ∷ parts) in
    if any is_forbidden keys then none else some keys

-- `acc == null ? undefined : acc[k]`
abbrev pub read_member : Value → String → Value
read_member (obj fs) k = member fs k
read_member (arr xs) k = or_undefined (at_index 0 xs k)
read_member (str s) k = or_undefined (char_at 0 s k)
read_member _ k = undefined

unfoldable pub read_keys : Value → List String → Value
read_keys v [] = v
read_keys v (k ∷ ks) = read_keys (read_member v k) ks

unfoldable pub get_at_path : Value → String → Option Value
get_at_path v jpath = path_keys jpath >>= λ (ks : List String). some (read_keys v ks)

unfoldable pub put_field : Fields → String → Value → Fields
put_field end k v = field k v end
put_field (field j w fs) k v = if j == k then field j v fs else field j w (put_field fs k v)

unfoldable pub put_item : ℕ → Items → String → Value → Items
put_item n nil k v = nil
put_item n (item x xs) k v = if decimal n == k then item v xs else item x (put_item (n + 1) xs k v)

-- `cur[k] = v`; a primitive throws.
abbrev pub put_member : Value → String → Value → Option Value
put_member (obj fs) k v = some (obj (put_field fs k v))
put_member (arr xs) k v = some (arr (put_item 0 xs k v))
put_member _ k v = none

-- `cur[k] == null || typeof cur[k] !== 'object'` puts an empty object there.
abbrev pub or_object : Value → Value
or_object (obj fs) = obj fs
or_object (arr xs) = arr xs
or_object _ = obj end

-- With no key the last one is `undefined`, which is the name of a member.
unfoldable pub set_keys : Value → List String → Value → Option Value
set_keys v [] new = put_member v "undefined" new
set_keys v (k ∷ []) new = put_member v k new
set_keys v (k ∷ j ∷ ks) new = set_keys (or_object (read_member v k)) (j ∷ ks) new >>= put_member v k

unfoldable pub set_at_path : Value → String → Value → Option Value
set_at_path v jpath new = path_keys jpath >>= λ (ks : List String). set_keys v ks new

unfoldable pub starts_with : String → String → Bool
starts_with s String.[] = true
starts_with String.[] (String.◌∷◌ d p) = false
starts_with (String.◌∷◌ c s) (String.◌∷◌ d p) = nat_eq (code c) (code d) && starts_with s p

unfoldable pub drop_chars : ℕ → String → String
drop_chars zero s = s
drop_chars (suc n) String.[] = ""
drop_chars (suc n) (String.◌∷◌ c s) = drop_chars n s

-- `o.slice('mask:'.length)` of an obligation that starts with `mask:`
unfoldable pub path_of : String → Option String
path_of o = if starts_with o "mask:" then some (drop_chars 5 o) else none

abbrev pub add_path : Option String → List String → List String
add_path none ps = ps
add_path (some p) ps = p ∷ ps

-- The paths of the obligations to mask.
unfoldable pub masked_paths : List String → List String
masked_paths [] = []
masked_paths (o ∷ os) = add_path (path_of o) (masked_paths os)

module _ (cipher : Cipher) where
  -- One round of the loop of `applyMask`, on the value read at the path.
  abbrev pub mask_at : ℕ → Value → List String → Value → Option Value
  mask_at n v ks (str s) =
      if is_masked s then some v else set_keys v ks (str (mask_value cipher n s))
  mask_at n v ks _ = some v

  unfoldable pub mask_from : ℕ → Value → List String → Option Value
  mask_from n v [] = some v
  mask_from n v (p ∷ ps) =
      path_keys p >>= (λ (ks : List String). mask_at n v ks (read_keys v ks)) >>= λ (w : Value).
      mask_from (n + 1) w ps

  unfoldable pub apply_mask : Value → List String → Option Value
  apply_mask payload paths = mask_from 0 payload paths

  abbrev pub unmask_at : Value → List String → Value → Option Value
  unmask_at v ks (str s) =
      if is_masked s
      then unmask_value cipher s >>= (λ (t : String). set_keys v ks (str t))
      else some v
  unmask_at v ks _ = some v

  unfoldable pub apply_unmask : Value → List String → Option Value
  apply_unmask v [] = some v
  apply_unmask v (p ∷ ps) =
      path_keys p >>= (λ (ks : List String). unmask_at v ks (read_keys v ks)) >>= λ (w : Value).
      apply_unmask w ps

  unfoldable pub apply_egress_obligations : Value → List String → Option Value
  apply_egress_obligations payload obligations = apply_mask payload (masked_paths obligations)
