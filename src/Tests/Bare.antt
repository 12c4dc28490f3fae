-- ===== src/Tests/Bare.antt =====
-- The integration tests of obsigil/tests/roundtrip.rs on tokens without application fields.
use obsigil_rs.Prelude.{
  ℕ, ◌-◌, ◌^◌, ◌≡◌, refl, Option, none, some, [], ◌∷◌, ◌++◌, pos, negsuc, ok, err, nothing, Maybe,
  Result, ◌>>=◌,
}
use obsigil_rs.Types.{Text, NumericDate, manifest_key, siv, b64}
use obsigil_rs.Errors.{
  MintError, Reason, bad_tid, expired, non_canonical, unknown_reserved_key, chars, is_manifest_key,
}
use obsigil_rs.Errors as Errors
use obsigil_rs.Cbor.{Value, Pairs, integer, bytes, map, from_list}
use obsigil_rs.Crates.{Crates, Serde}
use obsigil_rs.Key.{MandateKey, from_bytes}
use obsigil_rs.Reserved.{Uuid, NoApp, no_app}
use obsigil_rs.Serial.{ikey, encode}
use obsigil_rs.Mint.{mint_clauses, with_exp, expires_in, with_tid, mint}
use obsigil_rs.Verify.{
  Verifier, verifier_new, with_key, with_leeway, with_now, clauses, claims, mandate, manifest,
}
use obsigil_rs.Lowlevel as Lowlevel
use obsigil_rs.Examples.Sample.{sample_tid}
use obsigil_rs.Tests.Fixtures.{Unwraps, replicate, no_apps, crates}
use obsigil_rs.Token.{first_char}
use obsigil_rs.Tests.Tokens.{key_bytes, Issued, Refuses, Accepts}

abbrev nil_tid : Uuid
nil_tid = replicate 0 16

-- 019ed29a-378d-72f0-0462-4929cd2bfcad: version 7, and a variant that is not that of RFC 4122.
abbrev ncs_tid : Uuid
ncs_tid =
    0x01 ∷ 0x9e ∷ 0xd2 ∷ 0x9a ∷ 0x37 ∷ 0x8d ∷ 0x72 ∷ 0xf0 ∷ 0x04 ∷ 0x62 ∷ 0x49 ∷ 0x29 ∷ 0xcd ∷ 0x2b
    ∷ 0xfc ∷ 0xad ∷ []

-- 019ed29a-378d-72f0-b462-4929cd2bfcad
abbrev good_tid : Uuid
good_tid =
    0x01 ∷ 0x9e ∷ 0xd2 ∷ 0x9a ∷ 0x37 ∷ 0x8d ∷ 0x72 ∷ 0xf0 ∷ 0xb4 ∷ 0x62 ∷ 0x49 ∷ 0x29 ∷ 0xcd ∷ 0x2b
    ∷ 0xfc ∷ 0xad ∷ []

-- 00000000-0000-4000-8000-000000000000
abbrev v4_tid : Uuid
v4_tid = 0 ∷ 0 ∷ 0 ∷ 0 ∷ 0 ∷ 0 ∷ 0x40 ∷ 0 ∷ 0x80 ∷ 0 ∷ 0 ∷ 0 ∷ 0 ∷ 0 ∷ 0 ∷ 0 ∷ []

module _ (x : Crates) (s : Serde NoApp) (fresh : Uuid) (clock : Option ℕ) where
  -- A map sealed by hand, past the checks of minting.
  abbrev craft : Pairs → Maybe Text
  craft entries = do
    sealed ← Lowlevel.seal x (encode x (map (from_list entries))) key_bytes siv
    ok (chars ".0" ++ Lowlevel.encode x sealed b64)

  abbrev at_time : MandateKey → NumericDate → Verifier
  at_time key now = with_now (with_key verifier_new key) now

  abbrev RefusesCrafted : MandateKey → Pairs → Reason → Type 0
  RefusesCrafted key entries r =
      Unwraps (craft entries)
        (λ token. Refuses (clauses x s clock (at_time key (pos 1000000000)) token) r)

  -- The token ids are the UUIDs that the test parses.
  abbrev VerifierRejectsMalformedTid : Type 0
  VerifierRejectsMalformedTid =
      let dated : Uuid → Pairs =
        λ tid. (ikey (negsuc 0), bytes tid) ∷ (ikey (negsuc 1), integer (pos 4000000000)) ∷ [] in
      Unwraps (from_bytes key_bytes) (λ key.
        RefusesCrafted key (dated nil_tid) bad_tid
        × RefusesCrafted key (dated ncs_tid) bad_tid
        × Unwraps (craft (dated good_tid))
            (λ good. Accepts (clauses x s clock (at_time key (pos 1000000000)) good)))

  abbrev VerifierRejectsNoncanonicalCbor : Type 0
  VerifierRejectsNoncanonicalCbor =
      let tid : Value × Value = (ikey (negsuc 0), bytes good_tid) in
      let exp : Value × Value = (ikey (negsuc 1), integer (pos 4000000000)) in
      Unwraps (from_bytes key_bytes) (λ key.
        RefusesCrafted key (tid ∷ exp ∷ (ikey (negsuc 1), integer (pos 1)) ∷ []) non_canonical
        × RefusesCrafted key (exp ∷ tid ∷ []) non_canonical
        × RefusesCrafted key (tid ∷ exp ∷ (ikey (negsuc 8), integer (pos 1)) ∷ [])
            unknown_reserved_key)

  abbrev LeewayIsCappedAtTheMaximum : Type 0
  LeewayIsCappedAtTheMaximum = Issued (λ i.
      Unwraps (mint x s fresh (with_exp (mint_clauses i no_app) (pos 1000))) (λ token.
        Refuses (clauses x s clock (with_leeway (at_time i.key (pos 1000000000)) 9999999999) token)
          expired
        × Accepts (clauses x s clock (with_leeway (at_time i.key (pos 1030)) 60) token)
        × Refuses (clauses x s clock (with_leeway (at_time i.key (pos 1061)) 60) token) expired))

  abbrev MintRejectsNonUuidv7Tid : Type 0
  MintRejectsNonUuidv7Tid = Issued (λ i.
      let minted : Uuid → Result MintError Text =
        λ tid. mint x s fresh (with_tid (with_exp (mint_clauses i no_app) (pos 4000000000)) tid) in
      (minted v4_tid ≡ err Errors.MintError.bad_tid)
      × (minted ncs_tid ≡ err Errors.MintError.bad_tid)
      × Unwraps (minted good_tid) (λ _. Unit {0}))

  abbrev ExpiresInSaturatesInsteadOfOverflowing : Type 0
  ExpiresInSaturatesInsteadOfOverflowing = Issued (λ i.
      Unwraps (mint x s fresh (expires_in (mint_clauses i no_app) clock (2 ^ 64 - 1)))
        (λ token. Accepts (clauses x s clock (at_time i.key (pos 1000000000)) token)))

  abbrev MandateOnlyTokenHasNoManifest : Type 0
  MandateOnlyTokenHasNoManifest = Issued (λ i.
      Unwraps (mint x s fresh (with_exp (mint_clauses i no_app) (pos 4000000000))) (λ token.
        (first_char token ≡ some b'.')
        × (claims x s token ≡ nothing)
        × (manifest token ≡ nothing)
        × Unwraps (mandate token)
            (λ forwarded. Accepts (clauses x s clock (at_time i.key (pos 1000000000)) forwarded))))

abbrev MandateKeyRejectsTheManifestKey : Type 0
MandateKeyRejectsTheManifestKey = from_bytes manifest_key ≡ err is_manifest_key

mandate_key_rejects_the_manifest_key : MandateKeyRejectsTheManifestKey
unfolding from_bytes
mandate_key_rejects_the_manifest_key = refl

verifier_rejects_malformed_tid : VerifierRejectsMalformedTid crates no_apps sample_tid none
unfolding from_bytes mint claims clauses obsigil_rs.Verify.authenticate obsigil_rs.Token.parse
    obsigil_rs.Encoding.decode obsigil_rs.Encoding.encode_into obsigil_rs.Utf8.as_bytes
    obsigil_rs.Aead.seal obsigil_rs.Aead.opened obsigil_rs.Serial.Write.to_mandate_plaintext
    obsigil_rs.Serial.Write.to_manifest_plaintext obsigil_rs.Serial.Read.from_mandate_plaintext
    obsigil_rs.Serial.Read.from_manifest_plaintext obsigil_rs.Serial.contains_nan
    obsigil_rs.Serial.has_invalid_map_key obsigil_rs.Serial.canonicalize
    obsigil_rs.Serial.is_negative_int obsigil_rs.Sort.sort_by_cached_key obsigil_rs.Sort.insert
    obsigil_rs.Sort.leb_bytes obsigil_rs.Serial.classify obsigil_rs.Serial.Read.read_tid
    obsigil_rs.Serial.Read.read_int obsigil_rs.Serial.Read.read_text obsigil_rs.Serial.Read.read_aud
    mandate manifest obsigil_rs.Lowlevel.seal obsigil_rs.Lowlevel.encode
verifier_rejects_malformed_tid = (refl, refl, tt)

verifier_rejects_noncanonical_cbor : VerifierRejectsNoncanonicalCbor crates no_apps sample_tid none
unfolding from_bytes mint claims clauses obsigil_rs.Verify.authenticate obsigil_rs.Token.parse
    obsigil_rs.Encoding.decode obsigil_rs.Encoding.encode_into obsigil_rs.Utf8.as_bytes
    obsigil_rs.Aead.seal obsigil_rs.Aead.opened obsigil_rs.Serial.Write.to_mandate_plaintext
    obsigil_rs.Serial.Write.to_manifest_plaintext obsigil_rs.Serial.Read.from_mandate_plaintext
    obsigil_rs.Serial.Read.from_manifest_plaintext obsigil_rs.Serial.contains_nan
    obsigil_rs.Serial.has_invalid_map_key obsigil_rs.Serial.canonicalize
    obsigil_rs.Serial.is_negative_int obsigil_rs.Sort.sort_by_cached_key obsigil_rs.Sort.insert
    obsigil_rs.Sort.leb_bytes obsigil_rs.Serial.classify obsigil_rs.Serial.Read.read_tid
    obsigil_rs.Serial.Read.read_int obsigil_rs.Serial.Read.read_text obsigil_rs.Serial.Read.read_aud
    mandate manifest obsigil_rs.Lowlevel.seal obsigil_rs.Lowlevel.encode
verifier_rejects_noncanonical_cbor = (refl, refl, refl)

leeway_is_capped_at_the_maximum : LeewayIsCappedAtTheMaximum crates no_apps sample_tid none
unfolding from_bytes mint claims clauses obsigil_rs.Verify.authenticate obsigil_rs.Token.parse
    obsigil_rs.Encoding.decode obsigil_rs.Encoding.encode_into obsigil_rs.Utf8.as_bytes
    obsigil_rs.Aead.seal obsigil_rs.Aead.opened obsigil_rs.Serial.Write.to_mandate_plaintext
    obsigil_rs.Serial.Write.to_manifest_plaintext obsigil_rs.Serial.Read.from_mandate_plaintext
    obsigil_rs.Serial.Read.from_manifest_plaintext obsigil_rs.Serial.contains_nan
    obsigil_rs.Serial.has_invalid_map_key obsigil_rs.Serial.canonicalize
    obsigil_rs.Serial.is_negative_int obsigil_rs.Sort.sort_by_cached_key obsigil_rs.Sort.insert
    obsigil_rs.Sort.leb_bytes obsigil_rs.Serial.classify obsigil_rs.Serial.Read.read_tid
    obsigil_rs.Serial.Read.read_int obsigil_rs.Serial.Read.read_text obsigil_rs.Serial.Read.read_aud
    mandate manifest
leeway_is_capped_at_the_maximum = (refl, tt, refl)

mint_rejects_non_uuidv7_tid : MintRejectsNonUuidv7Tid crates no_apps sample_tid none
unfolding from_bytes mint claims clauses obsigil_rs.Verify.authenticate obsigil_rs.Token.parse
    obsigil_rs.Encoding.decode obsigil_rs.Encoding.encode_into obsigil_rs.Utf8.as_bytes
    obsigil_rs.Aead.seal obsigil_rs.Aead.opened obsigil_rs.Serial.Write.to_mandate_plaintext
    obsigil_rs.Serial.Write.to_manifest_plaintext obsigil_rs.Serial.Read.from_mandate_plaintext
    obsigil_rs.Serial.Read.from_manifest_plaintext obsigil_rs.Serial.contains_nan
    obsigil_rs.Serial.has_invalid_map_key obsigil_rs.Serial.canonicalize
    obsigil_rs.Serial.is_negative_int obsigil_rs.Sort.sort_by_cached_key obsigil_rs.Sort.insert
    obsigil_rs.Sort.leb_bytes obsigil_rs.Serial.classify obsigil_rs.Serial.Read.read_tid
    obsigil_rs.Serial.Read.read_int obsigil_rs.Serial.Read.read_text obsigil_rs.Serial.Read.read_aud
    mandate manifest
mint_rejects_non_uuidv7_tid = (refl, refl, tt)

expires_in_saturates_instead_of_overflowing :
    ExpiresInSaturatesInsteadOfOverflowing crates no_apps sample_tid none
unfolding from_bytes mint claims clauses obsigil_rs.Verify.authenticate obsigil_rs.Token.parse
    obsigil_rs.Encoding.decode obsigil_rs.Encoding.encode_into obsigil_rs.Utf8.as_bytes
    obsigil_rs.Aead.seal obsigil_rs.Aead.opened obsigil_rs.Serial.Write.to_mandate_plaintext
    obsigil_rs.Serial.Write.to_manifest_plaintext obsigil_rs.Serial.Read.from_mandate_plaintext
    obsigil_rs.Serial.Read.from_manifest_plaintext obsigil_rs.Serial.contains_nan
    obsigil_rs.Serial.has_invalid_map_key obsigil_rs.Serial.canonicalize
    obsigil_rs.Serial.is_negative_int obsigil_rs.Sort.sort_by_cached_key obsigil_rs.Sort.insert
    obsigil_rs.Sort.leb_bytes obsigil_rs.Serial.classify obsigil_rs.Serial.Read.read_tid
    obsigil_rs.Serial.Read.read_int obsigil_rs.Serial.Read.read_text obsigil_rs.Serial.Read.read_aud
    mandate manifest
expires_in_saturates_instead_of_overflowing = tt

mandate_only_token_has_no_manifest : MandateOnlyTokenHasNoManifest crates no_apps sample_tid none
unfolding from_bytes mint claims clauses obsigil_rs.Verify.authenticate obsigil_rs.Token.parse
    obsigil_rs.Encoding.decode obsigil_rs.Encoding.encode_into obsigil_rs.Utf8.as_bytes
    obsigil_rs.Aead.seal obsigil_rs.Aead.opened obsigil_rs.Serial.Write.to_mandate_plaintext
    obsigil_rs.Serial.Write.to_manifest_plaintext obsigil_rs.Serial.Read.from_mandate_plaintext
    obsigil_rs.Serial.Read.from_manifest_plaintext obsigil_rs.Serial.contains_nan
    obsigil_rs.Serial.has_invalid_map_key obsigil_rs.Serial.canonicalize
    obsigil_rs.Serial.is_negative_int obsigil_rs.Sort.sort_by_cached_key obsigil_rs.Sort.insert
    obsigil_rs.Sort.leb_bytes obsigil_rs.Serial.classify obsigil_rs.Serial.Read.read_tid
    obsigil_rs.Serial.Read.read_int obsigil_rs.Serial.Read.read_text obsigil_rs.Serial.Read.read_aud
    mandate manifest
mandate_only_token_has_no_manifest = (refl, refl, refl, tt)
