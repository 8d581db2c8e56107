-- ===== src/Auth/Tokens.antt =====
-- Minting and verifying tokens (ts/src/auth.ts, `HmacTokenVerifier`).
use Prim.Native.Char.{code}
use mathlib.Core.Path.{ap₂}
use mathlib.Core.Option.{some-injective, none-ne-some}
use text.Mathlib.TextEquality.{Char-path}
use hellgraph.Base.{
  ℕ, String, ◌≡◌, ◌≢◌, refl, ap, ◌∙◌, false, Option, none, some, List, arith, nat_eq, ◌==◌, ==_iff,
  ==_refl, inl, inr, Bool-cases, subst, ◌>>=◌,
}
use hellgraph.Base.Text.{append_text}
use hellgraph.Auth.{
  Principal, Claims, cut_dot, with_dot, is_expired, unexpired, accept, mint, check_signed, verify,
}

-- The payload that a principal has as claims.
abbrev pub claims_of : Principal → Claims
claims_of p = record { id = some p.id; tenant = p.tenant; scopes = some p.scopes; exp = p.exp }

-- No character of the text is a dot.
abbrev pub HasNoDot : String → Type 0
HasNoDot String.[] = Unit
HasNoDot (String.◌∷◌ c s) = (nat_eq (code c) b'.' ≡ false) × HasNoDot s

cut_dot-with_dot : (s t : String) → HasNoDot s → cut_dot (with_dot s t) ≡ some (s, t)
unfolding cut_dot append_text
cut_dot-with_dot String.[] t h = refl
cut_dot-with_dot (String.◌∷◌ c s) t h = rw (h.0, cut_dot-with_dot s t h.1) refl

bind-some :
    {A B : Type 0} (o : Option A) (f : A → Option B) (b : B)
    → (o >>= f) ≡ some b
    → (a : A) × (o ≡ some a) × (f a ≡ some b)
bind-some none f b h = absurd (none-ne-some b h)
bind-some (some a) f b h = (a, refl, h)

cut_dot_joins :
    (token payload sig : String)
    → cut_dot token ≡ some (payload, sig)
    → token ≡ with_dot payload sig
unfolding cut_dot append_text
cut_dot_joins String.[] payload sig h = absurd (none-ne-some (payload, sig) h)
cut_dot_joins (String.◌∷◌ c s) payload sig h = elim (Bool-cases (nat_eq (code c) b'.')) [
  | inl dot ↦
      ap (λ x. String.◌∷◌ x s) (Char-path c "." (ground arith))
      ∙ ap (λ (q : String × String). with_dot q.0 q.1)
          (some-injective ("", s) (payload, sig) (rw (cut_dot, dot) at h))
  | inr other ↦
      let (q, found, same) =
        bind-some (cut_dot s) (λ (p : String × String). some (String.◌∷◌ c p.0, p.1)) (payload, sig)
          (rw (cut_dot, other) at h) in
      ap (String.◌∷◌ c) (cut_dot_joins s q.0 q.1 found)
      ∙ ap (λ (x : String × String). with_dot x.0 x.1)
          (some-injective (String.◌∷◌ c q.0, q.1) (payload, sig) same)
]

-- What a principal that is returned says of the claims.
accept-some :
    (claims : Claims) (now : ℕ) (p : Principal)
    → accept claims now ≡ some p
    → (claims ≡ claims_of p) × (is_expired p.exp now ≡ false)
unfolding accept
accept-some claims now p h =
    let (scopes, has_scopes, h1) = bind-some claims.scopes _ p h in
    let (id, has_id, h2) = bind-some claims.id _ p h1 in
    let q : Principal = record {
      id = id;
      tenant = claims.tenant;
      scopes = scopes;
      exp = claims.exp;
    } in
    elim (Bool-cases (is_expired q.exp now)) [
      | inl late ↦ absurd (none-ne-some p (rw late at h2))
      | inr fresh ↦
          let same : q ≡ p = some-injective q p (rw fresh at h2) in
          (
            ap₂
                  (λ (i : Option String) (s : Option (List String)). record claims {
                    id = i;
                    scopes = s;
                  })
                  has_id has_scopes
                ∙ ap claims_of same,
            subst (λ (x : Principal). is_expired x.exp now ≡ false) same fresh,
          )
    ]

module _ (sign : String → String) (to_payload : Principal → String)
    (parse : String → Option Claims) where
  signed_accepts :
      (payload : String) (claims : Claims) (now : ℕ)
      → payload ≢ ""
      → parse payload ≡ some claims
      → check_signed sign to_payload parse now (payload, sign payload) ≡ accept claims now
  unfolding check_signed
  signed_accepts payload claims now ne parses =
      let full : (payload == "") ≡ false = ground (arith, ==_iff payload "", ne) in
      rw (full, ==_refl (sign payload), parses) refl

  signed_by :
      (payload sig : String) (now : ℕ) (p : Principal)
      → check_signed sign to_payload parse now (payload, sig) ≡ some p
      → (sig ≡ sign payload)
        × (claims : Claims) × (parse payload ≡ some claims)
        × (accept claims now ≡ some p)
  unfolding check_signed
  signed_by payload sig now p h = elim (Bool-cases (payload == "")) [
    | inl empty ↦ absurd (none-ne-some p (rw empty at h))
    | inr full ↦ elim (Bool-cases (sig == sign payload)) [
      | inr forged ↦ absurd (none-ne-some p (rw (full, forged) at h))
      | inl signed ↦
          let (claims, parses, accepted) =
            bind-some (parse payload) (λ (c : Claims). accept c now) p (rw (full, signed) at h) in
          ((==_iff sig (sign payload)).0 signed, claims, parses, accepted)
    ]
  ]

  -- A token that was minted verifies to its principal until it expires, and to nothing then, when
  -- the payload is not empty, has no dot and parses to what was put in.
  pub verify-mint :
      (p : Principal) (now : ℕ)
      → HasNoDot (to_payload p)
      → to_payload p ≢ ""
      → parse (to_payload p) ≡ some (claims_of p)
      → verify sign to_payload parse (mint sign to_payload parse p) now ≡ unexpired now p
  unfolding verify mint accept
  verify-mint p now no_dot ne parses =
      let payload = to_payload p in
      ap (λ o. o >>= check_signed sign to_payload parse now)
        (cut_dot-with_dot payload (sign payload) no_dot)
      ∙ signed_accepts payload (claims_of p) now ne parses

  -- A token that is accepted consists of a payload, a dot and the signature of that payload under
  -- the secret; the principal returned is what the payload says, and has not expired.
  pub verify_signed :
      (token : String) (now : ℕ) (p : Principal)
      → verify sign to_payload parse token now ≡ some p
      → (payload : String) × (token ≡ with_dot payload (sign payload))
        × (parse payload ≡ some (claims_of p))
        × (is_expired p.exp now ≡ false)
  unfolding verify
  verify_signed token now p h =
      let (q, cut, checked) =
        bind-some (cut_dot token) (check_signed sign to_payload parse now) p h in
      let (same, claims, parses, accepted) = signed_by q.0 q.1 now p checked in
      let (agree, fresh) = accept-some claims now p accepted in
      (q.0, cut_dot_joins token q.0 q.1 cut ∙ ap (with_dot q.0) same, parses ∙ ap some agree, fresh)
