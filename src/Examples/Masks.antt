-- ===== src/Examples/Masks.antt =====
-- Concrete inputs for the theorems on ts/src/masking.ts and ts/src/vendor-cache.ts.
use Prim.Native.Char.{Char, code}
use text.Mathlib.TextEquality.{Char-path}
use mathlib.Core.Option.{some-injective}
use hellgraph.Base.{
  ◌≡◌, inl, inr, refl, sym, ap, ◌∙◌, String, true, false, Option, none, some, List, [], ◌∷◌, arith,
  ◌==◌, nat_eq, if◌then◌else◌, Bool-cases, ◌>>=◌,
}
use hellgraph.Policy.Context.{Value, str, obj, field, end, split_dots}
use hellgraph.Masking.{
  Cipher, is_line_end, is_masked, apply_mask, apply_unmask, path_keys, without_root, is_forbidden,
  unwrap,
}
use hellgraph.Masking.Wrapping.{IsOneLine, IsFaithful}
use hellgraph.Masking.Payloads.{IsUsable, MaskedAs, covers, apply_mask_lem}
use hellgraph.Masking.RoundTrip.{apply_unmask-apply_mask}
use hellgraph.Masking.Leaves.{leaf_at}

-- A character as two that do not end a line: a mark, and the character or a letter for it.
abbrev shown : Char → Char × Char
shown c =
    if nat_eq (code c) 10
    then ("n", "n")
    else if nat_eq (code c) 13
    then ("r", "r")
    else if nat_eq (code c) 8232
    then ("l", "l")
    else if nat_eq (code c) 8233
    then ("p", "p")
    else ("-", c)

unfoldable pub encode : String → String
encode String.[] = ""
encode (String.◌∷◌ c s) = String.◌∷◌ (shown c).0 (String.◌∷◌ (shown c).1 (encode s))

abbrev unshown : Char → Char → Char
unshown m c =
    if nat_eq (code m) b'n'
    then "\n"
    else if nat_eq (code m) b'r'
    then "\r"
    else if nat_eq (code m) b'l'
    then "\u{2028}"
    else if nat_eq (code m) b'p'
    then "\u{2029}"
    else c

unfoldable pub decode : String → Option String
decode String.[] = some ""
decode (String.◌∷◌ m (String.◌∷◌ c s)) =
    decode s >>= λ (t : String). some (String.◌∷◌ (unshown m c) t)
decode _ = none

unshown-shown : (c : Char) → unshown (shown c).0 (shown c).1 ≡ c
unshown-shown c = elim (Bool-cases (nat_eq (code c) 10)) [
  | inl a ↦ rw a (Char-path "\n" c (ground arith))
  | inr a ↦ elim (Bool-cases (nat_eq (code c) 13)) [
    | inl b ↦ rw (a, b) (Char-path "\r" c (ground arith))
    | inr b ↦ elim (Bool-cases (nat_eq (code c) 8232)) [
      | inl d ↦ rw (a, b, d) (Char-path "\u{2028}" c (ground arith))
      | inr d ↦ elim (Bool-cases (nat_eq (code c) 8233)) [
        | inl e ↦ rw (a, b, d, e) (Char-path "\u{2029}" c (ground arith))
        | inr e ↦ rw (a, b, d, e) refl
      ]
    ]
  ]
]

decode-encode : (s : String) → decode (encode s) ≡ some s
unfolding decode encode
decode-encode String.[] = refl
decode-encode (String.◌∷◌ c s) =
    rw (decode-encode s) (ap (λ (x : Char). some (String.◌∷◌ x s)) (unshown-shown c))

shown_lines :
    (c : Char) → (is_line_end (code (shown c).0) ≡ false) × (is_line_end (code (shown c).1) ≡ false)
unfolding is_line_end
shown_lines c = elim (Bool-cases (nat_eq (code c) 10)) [
  | inl a ↦ rw a (refl, refl)
  | inr a ↦ elim (Bool-cases (nat_eq (code c) 13)) [
    | inl b ↦ rw (a, b) (refl, refl)
    | inr b ↦ elim (Bool-cases (nat_eq (code c) 8232)) [
      | inl d ↦ rw (a, b, d) (refl, refl)
      | inr d ↦ elim (Bool-cases (nat_eq (code c) 8233)) [
        | inl e ↦ rw (a, b, d, e) (refl, refl)
        | inr e ↦ rw (a, b, d, e) (refl, rw (a, b, d, e) refl)
      ]
    ]
  ]
]

encode-IsOneLine : (s : String) → IsOneLine (encode s)
unfolding encode
encode-IsOneLine String.[] = tt
encode-IsOneLine (String.◌∷◌ c s) = ((shown_lines c).0, ((shown_lines c).1, encode-IsOneLine s))

abbrev pub cipher : Cipher
cipher = record { encrypt = λ n s. encode s; decrypt = decode }

pub cipher-IsFaithful : IsFaithful cipher
cipher-IsFaithful = record {
  one_line = λ n s. encode-IsOneLine s;
  decrypts = λ n s. decode-encode s;
}

abbrev pub payload : Value
payload = obj (field "name" (str "Ada") (field "city" (str "London") end))

abbrev paths : List String
paths = "$.name" ∷ []

pub usable : IsUsable payload "$.name"
unfolding path_keys without_root is_forbidden split_dots ◌==◌
usable = ("name", [], refl, tt)

apply_mask_lem_example :
    (w : Value) × (apply_mask cipher payload paths ≡ some w)
    × ((q : List String)
        → covers paths q ≡ true
        → MaskedAs cipher (leaf_at payload q) (leaf_at w q))
    × ((q : List String) → covers paths q ≡ false → leaf_at w q ≡ leaf_at payload q)
apply_mask_lem_example = apply_mask_lem cipher cipher-IsFaithful payload paths (usable, tt)

plain :
    (ks : List String) (s : String)
    → some ("name" ∷ []) ≡ some ks
    → leaf_at payload ks ≡ some s
    → is_masked s ≡ false
unfolding leaf_at is_masked unwrap ◌==◌
plain ks s e h =
    let there = ap (leaf_at payload) (some-injective _ ks e) ∙ h in
    ap is_masked (sym (some-injective "Ada" s there))

apply_unmask-apply_mask_example :
    (w : Value) × (x : Value) × (apply_mask cipher payload paths ≡ some w)
    × (apply_unmask cipher w paths ≡ some x)
    × ((q : List String) → leaf_at x q ≡ leaf_at payload q)
unfolding path_keys without_root is_forbidden split_dots ◌==◌
apply_unmask-apply_mask_example =
    apply_unmask-apply_mask cipher cipher-IsFaithful payload paths (usable, tt)
      ((λ ks e s h. plain ks s e h), tt)
