-- ===== src/Serial/ManifestTotal.antt =====
-- The writing of either half and the reading of a manifest in serial.rs never panic.
use obsigil_rs.Prelude.{
  ◌≢◌, inl, inr, Option, none, List, [], ◌∷◌, ◌++◌, any, ℤ, ◌==ℤ◌, Bool-cases, ok, panic, map_err,
  reject_if, nothing, drop_error, lift_option, >>=-ne-panic, ok_or-ne-panic, reject_if-ne-panic,
  map_err-ne-panic,
}
use obsigil_rs.Types.{Text, Bytes, NumericDate}
use obsigil_rs.Errors.{MintError, serialization, app_not_map, reserved_key, nan}
use obsigil_rs.Cbor.{Value, Pairs, map, from_list}
use obsigil_rs.Crates.{Crates, Serde}
use obsigil_rs.Reserved.{Uuid}
use obsigil_rs.Serial.{
  key_iss, key_exp, contains_nan, is_negative_int, classify, KeyKind, reserved, unknown_reserved,
  app, invalid,
}
use obsigil_rs.Serial.Write.{map_entries, app_entries, to_mandate_plaintext, to_manifest_plaintext}
use obsigil_rs.Serial.Read.{
  read_int, read_text, ManifestScan, manifest_field, strict_map, manifest_step, manifest_loop,
  from_manifest_plaintext,
}
use obsigil_rs.Serial.Total.{read_int-ne-panic, read_text-ne-panic, strict_map-ne-panic}

manifest_field-ne-panic : (n : ℤ) (v : Value) (m : ManifestScan) → manifest_field n v m ≢ panic
unfolding manifest_field
manifest_field-ne-panic n v m = elim (Bool-cases (n ==ℤ key_iss)) [
  | inl e ↦ rw e (
      >>=-ne-panic (drop_error (read_text v)) _
        (map_err-ne-panic (λ _. tt) (read_text v) (read_text-ne-panic v)) λ t _ q. cc)
  | inr e ↦ elim (Bool-cases (n ==ℤ key_exp)) [
    | inl f ↦
        rw (e, f)
          (>>=-ne-panic (drop_error (read_int v)) _
            (map_err-ne-panic (λ _. tt) (read_int v) (read_int-ne-panic v)) λ t _ q. cc)
    | inr f ↦ rw (e, f) (λ q. cc)
  ]
]

module _ (x : Crates) where
  manifest_step-ne-panic : (k v : Value) (m : ManifestScan) → manifest_step x (k, v) m ≢ panic
  unfolding manifest_step
  manifest_step-ne-panic k v m = go (classify x k)
    where
      go :
          (c : KeyKind)
          → (elim c [
            | reserved n ↦ manifest_field n v m
            | app ↦ ok (record m { rest = m.rest ++ (k, v) ∷ [] })
            | unknown_reserved ↦ nothing
            | invalid ↦ nothing
          ])
            ≢ panic
      go (reserved n) = manifest_field-ne-panic n v m
      go unknown_reserved = λ q. cc
      go app = λ q. cc
      go invalid = λ q. cc

  manifest_loop-ne-panic : (ps : Pairs) (m : ManifestScan) → manifest_loop x ps m ≢ panic
  unfolding manifest_loop
  manifest_loop-ne-panic [] m = λ q. cc
  manifest_loop-ne-panic ((k, v) ∷ ps) m =
      >>=-ne-panic (manifest_step x (k, v) m) _ (manifest_step-ne-panic k v m)
        λ m' _. manifest_loop-ne-panic ps m'

  pub from_manifest_plaintext-ne-panic :
      {T : Type 0} (s : Serde T) (plain : Bytes) → from_manifest_plaintext x s plain ≢ panic
  unfolding from_manifest_plaintext
  from_manifest_plaintext-ne-panic s plain =
      >>=-ne-panic (drop_error (strict_map x plain)) _
        (map_err-ne-panic (λ _. tt) (strict_map x plain) (strict_map-ne-panic x plain))
        λ ps _.
          >>=-ne-panic (manifest_loop x ps (record { iss = none; exp = none; rest = [] })) _
            (manifest_loop-ne-panic ps _)
            λ m _. >>=-ne-panic (lift_option m.iss) _ (ok_or-ne-panic m.iss tt) λ iss _.
              >>=-ne-panic (lift_option (s.deserialized (map (from_list m.rest)))) _
                (ok_or-ne-panic _ tt) λ a _ q. cc

  map_entries-ne-panic : (v : Value) (e : MintError) → map_entries v e ≢ panic
  map_entries-ne-panic (map es) e = λ q. cc
  map_entries-ne-panic _ e = λ q. cc

  module _ {T : Type 0} (s : Serde T) (a : T) (h : s.serialized a ≢ panic) where
    app_entries-ne-panic : app_entries x s a ≢ panic
    unfolding app_entries
    app_entries-ne-panic =
        >>=-ne-panic (map_err serialization (s.serialized a)) _
          (map_err-ne-panic serialization (s.serialized a) h)
          λ v _.
            >>=-ne-panic (map_entries v app_not_map) _ (map_entries-ne-panic v app_not_map) λ ps _.
              >>=-ne-panic (reject_if (any (λ p. is_negative_int x p.0) ps) reserved_key) _
                (reject_if-ne-panic _ reserved_key)
                λ _ _.
                  >>=-ne-panic (reject_if (any (λ p. contains_nan p.1) ps) nan) _
                    (reject_if-ne-panic _ nan) λ _ _ q. cc

    pub to_mandate_plaintext-ne-panic :
        (exp : NumericDate) (tid : Uuid) (iss : Option Text) (aud : Option (List Text))
        (sub : Option Text)
        → to_mandate_plaintext x s exp tid iss aud sub a ≢ panic
    unfolding to_mandate_plaintext
    to_mandate_plaintext-ne-panic exp tid iss aud sub =
        >>=-ne-panic (app_entries x s a) _ app_entries-ne-panic λ ps _ q. cc

    pub to_manifest_plaintext-ne-panic : (iss : Text) → to_manifest_plaintext x s iss a ≢ panic
    unfolding to_manifest_plaintext
    to_manifest_plaintext-ne-panic iss =
        >>=-ne-panic (app_entries x s a) _ app_entries-ne-panic λ ps _ q. cc
