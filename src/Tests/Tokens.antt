-- ===== src/Tests/Tokens.antt =====
-- The integration tests of obsigil/tests/roundtrip.rs that need neither the bytes of the `ciborium`
-- encoding nor large tokens.
use obsigil_rs.Token.{first_char}
use obsigil_rs.Prelude.{
  ℕ, ◌==◌, ◌||◌, if◌then◌else◌, ◌≡◌, refl, Option, none, some, [], ◌∷◌, pos, ok, err, Result,
}
use obsigil_rs.Types.{Text, Bytes}
use obsigil_rs.Errors.{
  Error, Reason, MintError, malformed, auth_failed, expired, audience_mismatch, reason, display,
  chars,
}
use obsigil_rs.Crates.{Crates, Serde}
use obsigil_rs.Key.{MandateKey, from_bytes}
use obsigil_rs.Reserved.{
  Uuid, Clauses, clauses_app, clauses_subject, clauses_audience, clauses_exp, clauses_tid,
  claims_issuer, claims_app,
}
use obsigil_rs.Serial.{ikey, encode}
use obsigil_rs.Mint.{
  Issuer, issuer_new, mint_clauses, with_exp, expires_in, with_tid, with_subject, with_manifest,
  mint,
}
use obsigil_rs.Mint as Mint
use obsigil_rs.Verify.{
  Verifier, verifier_new, with_key, with_keys, with_audience, with_leeway, with_now, clauses,
  claims, mandate, manifest,
}
use obsigil_rs.Examples.Sample.{sample_tid}
use obsigil_rs.Tests.Fixtures.{Unwraps, replicate, named, crates}

-- `KEY_BYTES`
abbrev pub key_bytes : Bytes
key_bytes = replicate 42 64

-- `issuer()`, whose key the tests make again for the verifier.
abbrev pub Issued : (Issuer → Type 0) → Type 0
Issued P = Unwraps (from_bytes key_bytes) (λ key. P (issuer_new key))

-- The test is refused for a reason.
abbrev pub Refuses : {T : Type 0} → Result Error (Clauses T) → Reason → Type 0
Refuses (err e) r = reason e ≡ r
Refuses _ r = ⊥

abbrev pub Accepts : {T : Type 0} → Result Error (Clauses T) → Type 0
Accepts r = Unwraps r (λ _. Unit {0})

-- `&token[token.find(['.', '~']).unwrap()..]`, where there is a separator.
abbrev from_first_separator : Text → Text
from_first_separator [] = []
from_first_separator (c ∷ s) = if c == b'.' || c == b'~' then c ∷ s else from_first_separator s

-- The tests are given what serde does on `ClauseData`, which is its role, and on `ClaimData`, which
-- is its theme, the token id that a token gets, and the clock, which no verifier with a time of its
-- own reads.
module _ (x : Crates) (s d : Serde Text) (fresh : Uuid) (clock : Option ℕ) where
  abbrev full_token : Issuer → Result MintError Text
  full_token i = mint x s fresh (
      with_manifest x d
        (with_subject
          (Mint.with_audience (with_exp (mint_clauses i (chars "admin")) (pos 4000000000))
            (chars "api" ∷ []))
          (chars "u42"))
        (chars "auth.example") (chars "dark"))

  -- The verifier of most tests.
  abbrev of_api : MandateKey → Verifier
  of_api key = with_now (with_audience (with_key verifier_new key) (chars "api")) (pos 1000000000)

  abbrev FullTokenRoundTrips : Type 0
  FullTokenRoundTrips = Issued (λ i. Unwraps (full_token i) (λ token.
      Unwraps (claims x d token) (λ advisory.
        (claims_issuer advisory ≡ chars "auth.example") × (claims_app advisory ≡ chars "dark"))
      × Unwraps (clauses x s clock (of_api i.key) token) (λ c.
        (clauses_app c ≡ chars "admin")
        × (clauses_subject c ≡ some (chars "u42"))
        × (clauses_audience c ≡ some (chars "api" ∷ []))
        × (clauses_exp c ≡ ok (pos 4000000000))
        × Unwraps (clauses_tid c) (λ tid. x.get_version_num tid ≡ 7))))

  abbrev VerifiesTheForwardedMandateOnlyForm : Type 0
  VerifiesTheForwardedMandateOnlyForm = Issued (λ i. Unwraps (full_token i) (λ token.
      let forwarded : Text = from_first_separator token in
      (first_char forwarded ≡ some b'.') × Accepts (clauses x s clock (of_api i.key) forwarded)))

  abbrev TrialDecryptionAcceptsTheMatchingKey : Type 0
  TrialDecryptionAcceptsTheMatchingKey = Issued (λ i. Unwraps (full_token i) (λ token.
      Unwraps (from_bytes (replicate 7 64)) (λ wrong. Accepts (
        clauses x s clock
          (with_now (with_audience (with_keys verifier_new (wrong ∷ i.key ∷ [])) (chars "api"))
            (pos 1000000000))
          token))))

  abbrev RejectsUniformlyWithInternalReasons : Type 0
  RejectsUniformlyWithInternalReasons = Issued (λ i. Unwraps (full_token i) (λ token.
      Unwraps (from_bytes (replicate 7 64)) (λ wrong.
        Refuses (clauses x s clock (with_now (of_api i.key) (pos 4000000001)) token) expired
        × ((e : Error) → display e ≡ chars "obsigil: token rejected")
        × Refuses (clauses x s clock (with_audience (of_api i.key) (chars "other")) token)
            audience_mismatch
        × Refuses
            (clauses x s clock (with_now (with_key verifier_new i.key) (pos 1000000000)) token)
            audience_mismatch
        × Refuses (clauses x s clock (of_api wrong) token) auth_failed
        × Refuses
            (clauses x s clock (with_now (with_key verifier_new i.key) (pos 1000000000))
              (chars "garbage"))
            malformed)))

full_token_round_trips :
    FullTokenRoundTrips crates (named (chars "role")) (named (chars "theme")) sample_tid none
unfolding from_bytes mint claims clauses obsigil_rs.Verify.authenticate obsigil_rs.Token.parse
    obsigil_rs.Encoding.decode obsigil_rs.Encoding.encode_into obsigil_rs.Utf8.as_bytes
    obsigil_rs.Aead.seal obsigil_rs.Aead.opened obsigil_rs.Serial.Write.to_mandate_plaintext
    obsigil_rs.Serial.Write.to_manifest_plaintext obsigil_rs.Serial.Read.from_mandate_plaintext
    obsigil_rs.Serial.Read.from_manifest_plaintext obsigil_rs.Serial.contains_nan
    obsigil_rs.Serial.has_invalid_map_key obsigil_rs.Serial.canonicalize
    obsigil_rs.Serial.is_negative_int obsigil_rs.Sort.sort_by_cached_key obsigil_rs.Sort.insert
    obsigil_rs.Sort.leb_bytes obsigil_rs.Serial.classify obsigil_rs.Serial.Read.read_tid
    obsigil_rs.Serial.Read.read_int obsigil_rs.Serial.Read.read_text obsigil_rs.Serial.Read.read_aud
    mandate manifest
full_token_round_trips = ((refl, refl), (refl, refl, refl, refl, refl))

verifies_the_forwarded_mandate_only_form :
    VerifiesTheForwardedMandateOnlyForm crates
      (named (chars "role"))
      (named (chars "theme"))
      sample_tid
      none
unfolding from_bytes mint claims clauses obsigil_rs.Verify.authenticate obsigil_rs.Token.parse
    obsigil_rs.Encoding.decode obsigil_rs.Encoding.encode_into obsigil_rs.Utf8.as_bytes
    obsigil_rs.Aead.seal obsigil_rs.Aead.opened obsigil_rs.Serial.Write.to_mandate_plaintext
    obsigil_rs.Serial.Write.to_manifest_plaintext obsigil_rs.Serial.Read.from_mandate_plaintext
    obsigil_rs.Serial.Read.from_manifest_plaintext obsigil_rs.Serial.contains_nan
    obsigil_rs.Serial.has_invalid_map_key obsigil_rs.Serial.canonicalize
    obsigil_rs.Serial.is_negative_int obsigil_rs.Sort.sort_by_cached_key obsigil_rs.Sort.insert
    obsigil_rs.Sort.leb_bytes obsigil_rs.Serial.classify obsigil_rs.Serial.Read.read_tid
    obsigil_rs.Serial.Read.read_int obsigil_rs.Serial.Read.read_text obsigil_rs.Serial.Read.read_aud
    mandate manifest
verifies_the_forwarded_mandate_only_form = (refl, tt)

trial_decryption_accepts_the_matching_key :
    TrialDecryptionAcceptsTheMatchingKey crates
      (named (chars "role"))
      (named (chars "theme"))
      sample_tid
      none
unfolding from_bytes mint claims clauses obsigil_rs.Verify.authenticate obsigil_rs.Token.parse
    obsigil_rs.Encoding.decode obsigil_rs.Encoding.encode_into obsigil_rs.Utf8.as_bytes
    obsigil_rs.Aead.seal obsigil_rs.Aead.opened obsigil_rs.Serial.Write.to_mandate_plaintext
    obsigil_rs.Serial.Write.to_manifest_plaintext obsigil_rs.Serial.Read.from_mandate_plaintext
    obsigil_rs.Serial.Read.from_manifest_plaintext obsigil_rs.Serial.contains_nan
    obsigil_rs.Serial.has_invalid_map_key obsigil_rs.Serial.canonicalize
    obsigil_rs.Serial.is_negative_int obsigil_rs.Sort.sort_by_cached_key obsigil_rs.Sort.insert
    obsigil_rs.Sort.leb_bytes obsigil_rs.Serial.classify obsigil_rs.Serial.Read.read_tid
    obsigil_rs.Serial.Read.read_int obsigil_rs.Serial.Read.read_text obsigil_rs.Serial.Read.read_aud
    mandate manifest
trial_decryption_accepts_the_matching_key = tt

rejects_uniformly_with_internal_reasons :
    RejectsUniformlyWithInternalReasons crates
      (named (chars "role"))
      (named (chars "theme"))
      sample_tid
      none
unfolding from_bytes mint claims clauses obsigil_rs.Verify.authenticate obsigil_rs.Token.parse
    obsigil_rs.Encoding.decode obsigil_rs.Encoding.encode_into obsigil_rs.Utf8.as_bytes
    obsigil_rs.Aead.seal obsigil_rs.Aead.opened obsigil_rs.Serial.Write.to_mandate_plaintext
    obsigil_rs.Serial.Write.to_manifest_plaintext obsigil_rs.Serial.Read.from_mandate_plaintext
    obsigil_rs.Serial.Read.from_manifest_plaintext obsigil_rs.Serial.contains_nan
    obsigil_rs.Serial.has_invalid_map_key obsigil_rs.Serial.canonicalize
    obsigil_rs.Serial.is_negative_int obsigil_rs.Sort.sort_by_cached_key obsigil_rs.Sort.insert
    obsigil_rs.Sort.leb_bytes obsigil_rs.Serial.classify obsigil_rs.Serial.Read.read_tid
    obsigil_rs.Serial.Read.read_int obsigil_rs.Serial.Read.read_text obsigil_rs.Serial.Read.read_aud
    mandate manifest
rejects_uniformly_with_internal_reasons = (refl, (λ e. refl), refl, refl, refl, refl)
