-- ===== src/Serial/Write.antt =====
-- Minting in serial.rs: field values to the canonical CBOR plaintext of a half.
use obsigil_rs.Prelude.{
  Bool, Option, none, some, List, [], ◌∷◌, ◌++◌, any, Result, ok, err, panic, map_err, reject_if,
  ◌>>=◌, ◌>>◌,
}
use obsigil_rs.Prelude as Prelude
use obsigil_rs.Types.{Text, Bytes, NumericDate}
use obsigil_rs.Errors.{MintError, serialization, app_not_map, reserved_key, nan}
use obsigil_rs.Cbor.{
  Value, Pairs, integer, bytes, text, array, map, to_list, from_list, items_from_list,
}
use obsigil_rs.Crates.{Crates, Serde}
use obsigil_rs.Reserved.{Uuid}
use obsigil_rs.Serial.{
  ikey, key_tid, key_exp, key_aud, key_sub, key_iss, contains_nan, encode, canonicalize,
  is_negative_int,
}

-- `let entries = match value { Value::Map(entries) => entries, _ => return Err(..) }`
abbrev pub map_entries {ℓ} : {E : Type ℓ} → Value → E → Result E Pairs
map_entries (map es) e = ok (to_list es)
map_entries _ e = err e

-- The entry of an optional field, if the field is set.
abbrev pub optional {ℓ} : {A : Type ℓ} → Option A → (A → Value × Value) → Pairs
optional none f = []
optional (some a) f = f a ∷ []

abbrev pub text_array : List Text → Value
text_array ss = array (items_from_list (Prelude.map text ss))

-- the entries that `to_mandate_plaintext` pushes, in the order of its statements
abbrev pub mandate_entries :
    NumericDate → Uuid → Option Text → Option (List Text) → Option Text → Pairs
mandate_entries exp tid iss aud sub =
    (ikey key_tid, bytes tid)
    ∷ (ikey key_exp, integer exp)
    ∷ (optional aud (λ ss. (ikey key_aud, text_array ss))
        ++ (optional sub (λ s. (ikey key_sub, text s))
            ++ optional iss (λ s. (ikey key_iss, text s))))

module _ (x : Crates) where
  unfoldable pub app_entries : {T : Type 0} → Serde T → T → Result MintError Pairs
  app_entries s a = do
    value ← map_err serialization (s.serialized a)
    entries ← map_entries value app_not_map
    reject_if (any (λ p. is_negative_int x p.0) entries) reserved_key
    reject_if (any (λ p. contains_nan p.1) entries) nan
    ok entries

  unfoldable pub assemble : Pairs → Bytes
  assemble entries = encode x (canonicalize x (map (from_list entries)))

  unfoldable pub to_mandate_plaintext :
      {T : Type 0}
      → Serde T
      → NumericDate
      → Uuid
      → Option Text
      → Option (List Text)
      → Option Text
      → T
      → Result MintError Bytes
  unfolding app_entries assemble
  to_mandate_plaintext s exp tid iss aud sub a = do
    entries ← app_entries s a
    ok (assemble (entries ++ mandate_entries exp tid iss aud sub))

  unfoldable pub to_manifest_plaintext : {T : Type 0} → Serde T → Text → T → Result MintError Bytes
  unfolding app_entries assemble
  to_manifest_plaintext s iss a = do
    entries ← app_entries s a
    ok (assemble (entries ++ (ikey key_iss, text iss) ∷ []))
