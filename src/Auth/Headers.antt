-- ===== src/Auth/Headers.antt =====
-- Reading a token off an Authorization header (ts/src/auth.ts, `bearer`).
use Prim.Native.Char.{Char}
use package.text.Mathlib.TextLemmas.{cons≢nil}
use hellgraph.Base.{String, ◌≡◌, refl, false, some, arith, ◌==◌, ==_iff}
use hellgraph.Base.Text.{append_text}
use hellgraph.Metta.{is_space}
use hellgraph.Auth.{trim_start, trim_end, trim, cut_space, is_word, token_after, bearer}

-- No character of the text is white space.
abbrev pub HasNoSpace : String → Type 0
HasNoSpace String.[] = Unit
HasNoSpace (String.◌∷◌ c s) = (is_space c ≡ false) × HasNoSpace s

trim_end_lem : (s : String) → HasNoSpace s → trim_end s ≡ s
unfolding trim_end
trim_end_lem String.[] h = refl
trim_end_lem (String.◌∷◌ c s) h = rw (trim_end_lem s h.1, h.0) refl

trim_lem : (s : String) → HasNoSpace s → trim s ≡ s
unfolding trim trim_start
trim_lem String.[] h = trim_end_lem "" h
trim_lem (String.◌∷◌ c s) h = rw (h.0) (trim_end_lem (String.◌∷◌ c s) h)

abbrev pub header : String → String
header token = append_text "Bearer " token

not_empty : (c : Char) (s : String) → (String.◌∷◌ c s == "") ≡ false
not_empty c s = ground (arith, ==_iff (String.◌∷◌ c s) "", cons≢nil {x = c} {xs = s})

trim-header :
    (c : Char) (s : String)
    → HasNoSpace (String.◌∷◌ c s)
    → trim (header (String.◌∷◌ c s)) ≡ header (String.◌∷◌ c s)
unfolding trim trim_start trim_end is_space append_text
trim-header c s h = rw (trim_end_lem (String.◌∷◌ c s) h, not_empty c s) refl

cut_space-header : (t : String) → cut_space (header t) ≡ some ("Bearer", t)
unfolding cut_space is_space append_text
cut_space-header t = refl

token_after_lem :
    (c : Char) (s : String)
    → HasNoSpace (String.◌∷◌ c s)
    → token_after ("Bearer", String.◌∷◌ c s) ≡ some (String.◌∷◌ c s)
unfolding token_after is_word
token_after_lem c s h = rw (trim_lem (String.◌∷◌ c s) h, not_empty c s) refl

header_full : (t : String) → (header t == "") ≡ false
unfolding append_text
header_full t = not_empty "B" (append_text "earer " t)

-- A header `Bearer <token>` gives the token, when that is not empty and has no white space.
pub bearer_lem :
    (c : Char) (s : String)
    → HasNoSpace (String.◌∷◌ c s)
    → bearer (some (header (String.◌∷◌ c s))) ≡ some (String.◌∷◌ c s)
unfolding bearer
bearer_lem c s h =
    let token = String.◌∷◌ c s in
    rw (header_full token, trim-header c s h, cut_space-header token) (token_after_lem c s h)
