-- ===== src/Serial/Read.antt =====
-- Verifying in serial.rs: the canonical CBOR plaintext of a half to field values.
use obsigil_rs.Prelude.{
  Bool, true, false, not, ◌||◌, Option, none, some, List, [], ◌∷◌, ◌++◌, ◌==◌, if◌then◌else◌, any,
  length, bytes_eq, ◌==ℤ◌, in_i64, ℤ, Result, ok, err, panic, ok_or, reject_if, ◌>>=◌, ◌>>◌, Maybe,
  nothing, drop_error, lift_option,
}
use obsigil_rs.Types.{Text, Bytes, NumericDate}
use obsigil_rs.Errors.{Reason, malformed, non_canonical, bad_type, unknown_reserved_key}
use obsigil_rs.Cbor.{
  Value, Items, Pairs, integer, bytes, text, array, map, no_items, item, from_list,
}
use obsigil_rs.Crates.{Crates, Serde}
use obsigil_rs.Reserved.{Uuid, MandateFields, ManifestFields}
use obsigil_rs.Serial.{
  key_tid, key_exp, key_aud, key_sub, key_iss, contains_nan, has_invalid_map_key,
  is_integer_or_text, reserved, unknown_reserved, app, invalid, encode, canonicalize, classify,
}
use obsigil_rs.Serial.Write.{map_entries}

-- `seen.contains(key)` on the set of encoded keys.
abbrev pub seen_before : List Bytes → Bytes → Bool
seen_before seen b = any (bytes_eq b) seen

unfoldable pub read_tid : Value → Result Reason Uuid
read_tid (bytes b) = if length b == 16 then ok b else err bad_type
read_tid _ = err bad_type

unfoldable pub read_int : Value → Result Reason NumericDate
read_int (integer i) = if in_i64 i then ok i else err bad_type
read_int _ = err bad_type

unfoldable pub read_text : Value → Result Reason Text
read_text (text s) = ok s
read_text _ = err bad_type

-- `collect()` on results stops at the first error.
unfoldable pub read_texts : Items → Result Reason (List Text)
unfolding read_text
read_texts no_items = ok []
read_texts (item v xs) = do s ← read_text v; ss ← read_texts xs; ok (s ∷ ss)

unfoldable pub read_aud : Value → Result Reason (List Text)
unfolding read_texts
read_aud (array xs) = read_texts xs
read_aud _ = err bad_type

unfoldable pub decode_app : {T : Type 0} → Serde T → Pairs → Result Reason T
decode_app s entries = ok_or (s.deserialized (map (from_list entries))) malformed

-- The variables of the loop of `from_mandate_plaintext`.
pub record MandateScan : Type 0 where
  pub exp : Option NumericDate
  pub tid : Option Uuid
  pub iss : Option Text
  pub aud : Option (List Text)
  pub sub : Option Text
  pub rest : Pairs

abbrev pub no_fields : MandateScan
no_fields = record { exp = none; tid = none; iss = none; aud = none; sub = none; rest = [] }

-- A reserved key; the last case is `unreachable!`.
unfoldable pub mandate_field : ℤ → Value → MandateScan → Result Reason MandateScan
mandate_field n v m =
    if n ==ℤ key_tid
    then (do t ← read_tid v; ok (record m { tid = some t }))
    else if n ==ℤ key_exp
    then (do t ← read_int v; ok (record m { exp = some t }))
    else if n ==ℤ key_aud
    then (do t ← read_aud v; ok (record m { aud = some t }))
    else if n ==ℤ key_sub
    then (do t ← read_text v; ok (record m { sub = some t }))
    else if n ==ℤ key_iss
    then (do t ← read_text v; ok (record m { iss = some t }))
    else panic

pub record ManifestScan : Type 0 where
  pub iss : Option Text
  pub exp : Option NumericDate
  pub rest : Pairs

unfoldable pub manifest_field : ℤ → Value → ManifestScan → Maybe ManifestScan
manifest_field n v m =
    if n ==ℤ key_iss
    then (do t ← drop_error (read_text v); ok (record m { iss = some t }))
    else if n ==ℤ key_exp
    then (do t ← drop_error (read_int v); ok (record m { exp = some t }))
    else nothing

module _ (x : Crates) where
  -- the loop over the entries: whether an encoded key repeats
  unfoldable pub repeats_key : List Bytes → Pairs → Bool
  repeats_key seen [] = false
  repeats_key seen ((k, v) ∷ ps) =
      if seen_before seen (encode x k) then true else repeats_key (encode x k ∷ seen) ps

  unfoldable pub strict_map : Bytes → Result Reason Pairs
  unfolding repeats_key
  strict_map plain = do
    value ← ok_or (x.from_reader plain) malformed
    entries ← map_entries value malformed
    reject_if (any (λ p. contains_nan p.0 || contains_nan p.1) entries) non_canonical
    reject_if (any (λ p. not (is_integer_or_text p.0) || has_invalid_map_key p.1) entries)
        non_canonical
    reject_if (repeats_key [] entries) non_canonical
    reject_if (not (bytes_eq (encode x (canonicalize x (map (from_list entries)))) plain))
        non_canonical
    ok entries

  unfoldable pub mandate_step : Value × Value → MandateScan → Result Reason MandateScan
  unfolding mandate_field
  mandate_step (k, v) m = elim (classify x k) [
    | reserved n ↦ mandate_field n v m
    | unknown_reserved ↦ err unknown_reserved_key
    | app ↦ ok (record m { rest = m.rest ++ (k, v) ∷ [] })
    | invalid ↦ err non_canonical
  ]

  unfoldable pub mandate_loop : Pairs → MandateScan → Result Reason MandateScan
  unfolding mandate_step
  mandate_loop [] m = ok m
  mandate_loop (p ∷ ps) m = mandate_step p m >>= λ m'. mandate_loop ps m'

  unfoldable pub from_mandate_plaintext :
      {T : Type 0} → Serde T → Bytes → Result Reason (MandateFields T)
  unfolding strict_map mandate_loop decode_app
  from_mandate_plaintext s plain = do
    entries ← strict_map plain
    m ← mandate_loop entries no_fields
    a ← decode_app s m.rest
    ok (record { exp = m.exp; tid = m.tid; iss = m.iss; aud = m.aud; sub = m.sub; app = a })

  unfoldable pub manifest_step : Value × Value → ManifestScan → Maybe ManifestScan
  unfolding manifest_field
  manifest_step (k, v) m = elim (classify x k) [
    | reserved n ↦ manifest_field n v m
    | app ↦ ok (record m { rest = m.rest ++ (k, v) ∷ [] })
    | unknown_reserved ↦ nothing
    | invalid ↦ nothing
  ]

  unfoldable pub manifest_loop : Pairs → ManifestScan → Maybe ManifestScan
  unfolding manifest_step
  manifest_loop [] m = ok m
  manifest_loop (p ∷ ps) m = manifest_step p m >>= λ m'. manifest_loop ps m'

  unfoldable pub from_manifest_plaintext : {T : Type 0} → Serde T → Bytes → Maybe (ManifestFields T)
  unfolding strict_map manifest_loop
  from_manifest_plaintext s plain = do
    entries ← drop_error (strict_map plain)
    m ← manifest_loop entries (record { iss = none; exp = none; rest = [] })
    iss ← lift_option m.iss
    a ← lift_option (s.deserialized (map (from_list m.rest)))
    ok (record { iss = iss; exp = m.exp; app = a })
