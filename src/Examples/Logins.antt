-- ===== src/Examples/Logins.antt =====
-- Concrete inputs for the theorems on ts/src/auth.ts.
use package.text.Mathlib.TextLemmas.{cons≢nil}
use hellgraph.Base.{◌≡◌, refl, false, none, some, [], ◌∷◌, ◌==◌, String, Option, if◌then◌else◌}
use hellgraph.Base.Text.{append_text}
use hellgraph.Auth.{
  Principal, Claims, cut_dot, with_dot, is_expired, accept, mint, check_signed, verify,
}
use hellgraph.Auth.Tokens.{claims_of, verify-mint, verify_signed}

abbrev reader : Principal
reader = record { id = "ada"; tenant = none; scopes = "read" ∷ []; exp = some 100 }

-- A signature and a payload that a test can follow.
abbrev sign : String → String
sign payload = append_text "signed " payload

abbrev to_payload : Principal → String
to_payload p = p.id

abbrev parse : String → Option Claims
parse payload = if payload == "ada" then some (claims_of reader) else none

verify-mint_example :
    verify sign to_payload parse (mint sign to_payload parse reader) 50 ≡ some reader
unfolding ◌==◌
verify-mint_example =
    verify-mint sign to_payload parse reader 50 ((refl, (refl, (refl, tt)))) cons≢nil refl

verify_signed_example :
    (payload : String) × ("ada.signed ada" ≡ with_dot payload (sign payload))
    × (parse payload ≡ some (claims_of reader))
    × (is_expired reader.exp 50 ≡ false)
unfolding verify cut_dot check_signed accept append_text ◌==◌
verify_signed_example = verify_signed sign to_payload parse "ada.signed ada" 50 reader refl
