-- ===== src/Verify/Keyless.antt =====
-- The keyless reads of verify.rs never panic.
use obsigil_rs.Prelude.{
  ◌≢◌, ◌||◌, refl, ltb, length, panic, reject_if, lift_option, drop_error, >>=-ne-panic,
  ok_or-ne-panic, reject_if-ne-panic, map_err-ne-panic,
}
use obsigil_rs.Types.{Text, from_code, manifest_key}
use obsigil_rs.Token.{str_len, ParseError, parse}
use obsigil_rs.Token.Accepts.{parse-ne-panic}
use obsigil_rs.Crates.{Crates, Serde}
use obsigil_rs.Crates.Laws.{AeadLaws}
use obsigil_rs.Encoding.{decode}
use obsigil_rs.Aead.Opens.{opened-ne-panic}
use obsigil_rs.Serial.ManifestTotal.{from_manifest_plaintext-ne-panic}
use obsigil_rs.Verify.{
  text_limit, default_max_decoded_len, min_half_bytes, manifest_plaintext, claims, manifest,
  mandate,
}

pub drop_error-parse-ne-panic : (token : Text) → drop_error (parse token) ≢ panic
drop_error-parse-ne-panic token =
    map_err-ne-panic (λ (e : ParseError). tt) (parse token) (parse-ne-panic token)

pub manifest-ne-panic : (token : Text) → manifest token ≢ panic
unfolding manifest
manifest-ne-panic token =
    >>=-ne-panic (drop_error (parse token)) _ (drop_error-parse-ne-panic token)
      λ p _. >>=-ne-panic (lift_option p.manifest) _ (ok_or-ne-panic p.manifest tt) λ h _ q. cc

pub mandate-ne-panic : (token : Text) → mandate token ≢ panic
unfolding mandate
mandate-ne-panic token =
    >>=-ne-panic (drop_error (parse token)) _ (drop_error-parse-ne-panic token)
      λ p _. >>=-ne-panic (lift_option p.mandate) _ (ok_or-ne-panic p.mandate tt) λ h _ q. cc

module _ (x : Crates) (l : AeadLaws x) where
  manifest_plaintext-ne-panic : (token : Text) → manifest_plaintext x token ≢ panic
  unfolding manifest_plaintext
  manifest_plaintext-ne-panic token =
      >>=-ne-panic (drop_error (parse token)) _ (drop_error-parse-ne-panic token) λ p _.
        >>=-ne-panic (lift_option p.manifest) _ (ok_or-ne-panic p.manifest tt) λ half _.
          >>=-ne-panic (lift_option (from_code half.alg_code)) _ (ok_or-ne-panic _ tt) λ alg _.
            >>=-ne-panic
              (reject_if (ltb (text_limit default_max_decoded_len) (str_len half.text)) tt) _
              (reject_if-ne-panic _ tt)
              λ _ _.
                >>=-ne-panic (lift_option (decode x half.text p.encoding)) _ (ok_or-ne-panic _ tt)
                  λ sealed _.
                    let size =
                      ltb (length sealed) min_half_bytes
                      || ltb default_max_decoded_len (length sealed) in
                    >>=-ne-panic (reject_if size tt) _ (reject_if-ne-panic size tt)
                      λ _ _. opened-ne-panic x sealed manifest_key alg l refl

  -- No token makes a keyless read of its claims panic.
  pub claims-ne-panic : {T : Type 0} (s : Serde T) (token : Text) → claims x s token ≢ panic
  unfolding claims
  claims-ne-panic s token =
      >>=-ne-panic (manifest_plaintext x token) _ (manifest_plaintext-ne-panic token)
        λ plain _. >>=-ne-panic _ _ (from_manifest_plaintext-ne-panic x s plain) λ f _ q. cc
