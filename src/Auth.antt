-- ===== src/Auth.antt =====
-- ts/src/auth.ts: bearer tokens that carry a principal under an HMAC. The HMAC with its base64url and
-- the JSON of a payload are parameters; an expiry and the clock are whole milliseconds.
pub mod Tokens
pub mod Headers
use Prim.Native.Char.{Char, code}
use Prim.Native.String
use hellgraph.Base.{
  ℕ, ◌+◌, String, Bool, true, false, not, ◌&&◌, ◌||◌, Option, none, some, List, [], ◌∷◌, nat_eq,
  ltb, any, ◌==◌, ◌>>=◌, if◌then◌else◌,
}
use hellgraph.Base.Text.{append_text}
use hellgraph.Metta.{is_space}

-- A scope is its text: what a token says of its scopes is not checked against the three names.
pub record Principal : Type 0 where
  pub id : String
  pub tenant : Option String
  pub scopes : List String
  pub exp : Option ℕ

-- What the JSON of a payload holds: an `id` that is a text and `scopes` that are an array, if so.
pub record Claims : Type 0 where
  pub id : Option String
  pub tenant : Option String
  pub scopes : Option (List String)
  pub exp : Option ℕ

unfoldable pub has_scope : Principal → String → Bool
has_scope p scope = any (λ s. s == scope) p.scopes

-- What stands before the first dot and after it.
unfoldable pub cut_dot : String → Option (String × String)
cut_dot String.[] = none
cut_dot (String.◌∷◌ c s) =
    if nat_eq (code c) b'.'
    then some ("", s)
    else cut_dot s >>= λ (p : String × String). some (String.◌∷◌ c p.0, p.1)

abbrev pub with_dot : String → String → String
with_dot payload sig = append_text payload (String.◌∷◌ "." sig)

abbrev pub is_expired : Option ℕ → ℕ → Bool
is_expired none now = false
is_expired (some exp) now = ltb exp now

abbrev pub unexpired : ℕ → Principal → Option Principal
unexpired now p = if is_expired p.exp now then none else some p

-- The tests on the parsed payload.
unfoldable pub accept : Claims → ℕ → Option Principal
accept claims now = do
  scopes ← claims.scopes
  id ← claims.id
  unexpired now (record { id = id; tenant = claims.tenant; scopes = scopes; exp = claims.exp })

module _ (sign : String → String) (to_payload : Principal → String)
    (parse : String → Option Claims) where
  unfoldable pub mint : Principal → String
  mint p = let payload = to_payload p in with_dot payload (sign payload)

  unfoldable pub check_signed : ℕ → String × String → Option Principal
  check_signed now (payload, sig) =
      if payload == ""
      then none
      else if not (sig == sign payload)
      then none
      else parse payload >>= λ (claims : Claims). accept claims now

  unfoldable pub verify : String → ℕ → Option Principal
  verify token now = cut_dot token >>= check_signed now

unfoldable pub trim_start : String → String
trim_start String.[] = ""
trim_start (String.◌∷◌ c s) = if is_space c then trim_start s else String.◌∷◌ c s

unfoldable pub trim_end : String → String
trim_end String.[] = ""
trim_end (String.◌∷◌ c s) =
    let t = trim_end s in if is_space c && t == "" then "" else String.◌∷◌ c t

unfoldable pub trim : String → String
trim s = trim_end (trim_start s)

-- What stands before the first white space and after it.
unfoldable pub cut_space : String → Option (String × String)
cut_space String.[] = none
cut_space (String.◌∷◌ c s) =
    if is_space c
    then some ("", s)
    else cut_space s >>= λ (p : String × String). some (String.◌∷◌ c p.0, p.1)

-- `s.toLowerCase() === word`, for a word in small letters
unfoldable pub is_word : String → String → Bool
is_word String.[] String.[] = true
is_word String.[] (String.◌∷◌ d t) = false
is_word (String.◌∷◌ c s) String.[] = false
is_word (String.◌∷◌ c s) (String.◌∷◌ d t) =
    (nat_eq (code c) (code d) || nat_eq (code c + 32) (code d)) && is_word s t

unfoldable pub token_after : String × String → Option String
token_after (scheme, rest) =
    if not (is_word scheme "bearer")
    then none
    else if trim rest == ""
    then none
    else some (trim rest)

unfoldable pub bearer : Option String → Option String
bearer none = none
bearer (some header) = if header == "" then none else cut_space (trim header) >>= token_after
