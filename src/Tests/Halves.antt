-- ===== src/Tests/Halves.antt =====
-- The unit tests of obsigil/src/serial.rs.
use obsigil_rs.Prelude.{◌≡◌, refl, none, some, List, [], ◌∷◌, ℤ, pos, negsuc, ℕ, err}
use obsigil_rs.Types.{Text}
use obsigil_rs.Errors.{
  bad_type, unknown_reserved_key, non_canonical, app_not_map, reserved_key, nan, chars,
}
use obsigil_rs.Cbor.{Pairs, integer, bytes, float, text, map, from_list}
use obsigil_rs.Crates.{Crates, Serde}
use obsigil_rs.Reserved.{Uuid, NoApp}
use obsigil_rs.Serial.{ikey, key_tid, key_exp, encode}
use obsigil_rs.Serial.Write.{to_mandate_plaintext, to_manifest_plaintext}
use obsigil_rs.Serial.Read.{from_mandate_plaintext, from_manifest_plaintext}
use obsigil_rs.Examples.Sample.{sample_tid}
use obsigil_rs.Tests.Fixtures.{Unwraps, App, apps, no_apps, maps, units, crates}

-- `f64::NAN`
abbrev f64_nan : ℕ
f64_nan = 0x7ff8000000000000

-- The tests are given what serde does on their types, and what `Uuid::now_v7` returned.
module _ (x : Crates) (s : Serde App) (tid : Uuid) where
  abbrev MandateRoundTripsReservedAndApp : Type 0
  MandateRoundTripsReservedAndApp =
      let app : App = record { role = chars "admin"; n = 7 } in
      let aud : List Text = chars "api" ∷ chars "admin" ∷ [] in
      Unwraps
        (to_mandate_plaintext x s (pos 1000) tid (some (chars "auth.example")) (some aud)
          (some (chars "user-1")) app)
        (λ pt. Unwraps (from_mandate_plaintext x s pt) (λ c.
          (c.exp ≡ some (pos 1000))
          × (c.tid ≡ some tid)
          × (c.iss ≡ some (chars "auth.example"))
          × (c.aud ≡ some aud)
          × (c.sub ≡ some (chars "user-1"))
          × (c.app ≡ app)))

  abbrev EncodingIsCanonicalAndDeterministic : Type 0
  EncodingIsCanonicalAndDeterministic =
      let app : App = record { role = chars "x"; n = 1 } in
      Unwraps (to_mandate_plaintext x s (pos 1) tid none none none app) (λ a.
        Unwraps (to_mandate_plaintext x s (pos 1) tid none none none app)
          (λ b. (a ≡ b) × Unwraps (from_mandate_plaintext x s a) (λ c. c.app ≡ app)))

module _ (x : Crates) (s : Serde NoApp) where
  abbrev RejectsNonCanonicalUnsortedKeys : Uuid → Type 0
  RejectsNonCanonicalUnsortedKeys tid =
      let unsorted : Pairs = (ikey key_exp, integer (pos 5)) ∷ (ikey key_tid, bytes tid) ∷ [] in
      from_mandate_plaintext x s (encode x (map (from_list unsorted))) ≡ err non_canonical

  abbrev RejectsDuplicateKey : Type 0
  RejectsDuplicateKey =
      let dup : Pairs = (ikey key_exp, integer (pos 1)) ∷ (ikey key_exp, integer (pos 2)) ∷ [] in
      from_mandate_plaintext x s (encode x (map (from_list dup))) ≡ err non_canonical

  abbrev UnknownNegativeKeyFailsClosed : Type 0
  UnknownNegativeKeyFailsClosed =
      let m : Pairs = (ikey (negsuc 8), integer (pos 1)) ∷ [] in
      from_mandate_plaintext x s (encode x (map (from_list m))) ≡ err unknown_reserved_key

  abbrev WrongTypeReservedFieldRejected : Type 0
  WrongTypeReservedFieldRejected =
      let m : Pairs = (ikey key_tid, text (chars "nope")) ∷ [] in
      from_mandate_plaintext x s (encode x (map (from_list m))) ≡ err bad_type

  abbrev RejectsNanFloat : Serde (List (Text × ℕ)) → Uuid → Type 0
  RejectsNanFloat floats tid =
      let m : Pairs = (integer (pos 0), float f64_nan) ∷ [] in
      (from_mandate_plaintext x s (encode x (map (from_list m))) ≡ err non_canonical)
      × (to_mandate_plaintext x floats (pos 1) tid none none none ((chars "x", f64_nan) ∷ [])
          ≡ err nan)

module _ (x : Crates) where
  abbrev AppReservedKeyRejectedOnMint : Serde (List (ℤ × ℕ)) → Uuid → Type 0
  AppReservedKeyRejectedOnMint numbers tid =
      let app : List (ℤ × ℕ) = (negsuc 0, 5) ∷ [] in
      (to_manifest_plaintext x numbers (chars "iss") app ≡ err reserved_key)
      × (to_mandate_plaintext x numbers (pos 1) tid none none none app ≡ err reserved_key)

  abbrev AppNotMapRejectedOnMint : Serde (Unit {0}) → Type 0
  AppNotMapRejectedOnMint bad = to_manifest_plaintext x bad (chars "iss") tt ≡ err app_not_map

  abbrev ManifestRoundTrips : Serde App → Type 0
  ManifestRoundTrips s =
      let app : App = record { role = chars "ui"; n = 2 } in
      Unwraps (to_manifest_plaintext x s (chars "auth.example") app) (λ pt.
        Unwraps (from_manifest_plaintext x s pt)
          (λ c. (c.iss ≡ chars "auth.example") × (c.app ≡ app)))

mandate_round_trips_reserved_and_app : MandateRoundTripsReservedAndApp crates apps sample_tid
unfolding to_mandate_plaintext from_mandate_plaintext obsigil_rs.Serial.contains_nan
    obsigil_rs.Serial.has_invalid_map_key obsigil_rs.Serial.canonicalize
    obsigil_rs.Sort.sort_by_cached_key obsigil_rs.Sort.insert obsigil_rs.Sort.leb_bytes
    obsigil_rs.Serial.classify obsigil_rs.Serial.Read.read_tid obsigil_rs.Serial.Read.read_int
    obsigil_rs.Serial.Read.read_aud obsigil_rs.Serial.is_negative_int
mandate_round_trips_reserved_and_app = (refl, refl, refl, refl, refl, refl)

encoding_is_canonical_and_deterministic : EncodingIsCanonicalAndDeterministic crates apps sample_tid
unfolding to_mandate_plaintext from_mandate_plaintext obsigil_rs.Serial.contains_nan
    obsigil_rs.Serial.has_invalid_map_key obsigil_rs.Serial.canonicalize
    obsigil_rs.Sort.sort_by_cached_key obsigil_rs.Sort.insert obsigil_rs.Sort.leb_bytes
    obsigil_rs.Serial.classify obsigil_rs.Serial.Read.read_tid obsigil_rs.Serial.Read.read_int
    obsigil_rs.Serial.Read.read_aud obsigil_rs.Serial.is_negative_int
encoding_is_canonical_and_deterministic = (refl, refl)

rejects_non_canonical_unsorted_keys : RejectsNonCanonicalUnsortedKeys crates no_apps sample_tid
unfolding from_mandate_plaintext obsigil_rs.Serial.contains_nan
    obsigil_rs.Serial.has_invalid_map_key obsigil_rs.Serial.canonicalize
    obsigil_rs.Sort.sort_by_cached_key obsigil_rs.Sort.insert obsigil_rs.Sort.leb_bytes
rejects_non_canonical_unsorted_keys = refl

rejects_duplicate_key : RejectsDuplicateKey crates no_apps
unfolding from_mandate_plaintext obsigil_rs.Serial.contains_nan
    obsigil_rs.Serial.has_invalid_map_key
rejects_duplicate_key = refl

unknown_negative_key_fails_closed : UnknownNegativeKeyFailsClosed crates no_apps
unfolding from_mandate_plaintext obsigil_rs.Serial.contains_nan
    obsigil_rs.Serial.has_invalid_map_key obsigil_rs.Serial.canonicalize
    obsigil_rs.Sort.sort_by_cached_key obsigil_rs.Sort.insert obsigil_rs.Sort.leb_bytes
    obsigil_rs.Serial.classify
unknown_negative_key_fails_closed = refl

wrong_type_reserved_field_rejected : WrongTypeReservedFieldRejected crates no_apps
unfolding from_mandate_plaintext obsigil_rs.Serial.contains_nan
    obsigil_rs.Serial.has_invalid_map_key obsigil_rs.Serial.canonicalize
    obsigil_rs.Sort.sort_by_cached_key obsigil_rs.Sort.insert obsigil_rs.Sort.leb_bytes
    obsigil_rs.Serial.classify obsigil_rs.Serial.Read.read_tid
wrong_type_reserved_field_rejected = refl

rejects_nan_float : RejectsNanFloat crates no_apps (maps text float) sample_tid
unfolding to_mandate_plaintext from_mandate_plaintext obsigil_rs.Serial.contains_nan
    obsigil_rs.Serial.is_negative_int
rejects_nan_float = (refl, refl)

app_reserved_key_rejected_on_mint :
    AppReservedKeyRejectedOnMint crates (maps integer (λ n. integer (pos n))) sample_tid
unfolding to_mandate_plaintext to_manifest_plaintext obsigil_rs.Serial.is_negative_int
app_reserved_key_rejected_on_mint = (refl, refl)

app_not_map_rejected_on_mint : AppNotMapRejectedOnMint crates units
unfolding to_manifest_plaintext
app_not_map_rejected_on_mint = refl

manifest_round_trips : ManifestRoundTrips crates apps
unfolding to_manifest_plaintext from_manifest_plaintext obsigil_rs.Serial.contains_nan
    obsigil_rs.Serial.has_invalid_map_key obsigil_rs.Serial.canonicalize
    obsigil_rs.Sort.sort_by_cached_key obsigil_rs.Sort.insert obsigil_rs.Sort.leb_bytes
    obsigil_rs.Serial.classify obsigil_rs.Serial.is_negative_int obsigil_rs.Serial.Read.read_text
manifest_round_trips = (refl, refl)
