-- ===== src/Store/Values.antt =====
-- The encoding of property values (ts/src/store.ts).
use hellgraph.Base.{◌≡◌, ◌≢◌, ◌↔◌, refl, true, false, arith, ◌==◌, ==_iff, ==_refl}
use hellgraph.Store.{PropertyValue, str, num, bool, null, encode_value, decode_value, decode_text}

module _ {N : Type 0} where
  decode_false : decode_text {N = N} "false" ≡ bool false
  unfolding decode_text ◌==◌
  decode_false = refl

  -- A property value reads back as it was written exactly when it is not the text `true` or
  -- `false`.
  pub decode_value-encode_value :
      (v : PropertyValue N)
      → (decode_value (encode_value v) ≡ v) ↔ ((v ≢ str "true") × (v ≢ str "false"))
  unfolding decode_value encode_value decode_text
  decode_value-encode_value null = ground arith
  decode_value-encode_value (num x) = ground arith
  decode_value-encode_value (bool true) = ground (arith, ==_refl "true")
  decode_value-encode_value (bool false) = ground (arith, decode_false)
  decode_value-encode_value (str s) = ground (arith, ==_iff s "true", ==_iff s "false")
