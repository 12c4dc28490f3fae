-- ===== src/Verify/Total.antt =====
-- No token, however malformed, makes the verifier of verify.rs panic.
use obsigil_rs.Prelude.{
  ◌≡◌, ◌≢◌, refl, not, ◌||◌, Option, none, some, List, [], ◌∷◌, ltb, length, All, ℕ, leb_ℤ,
  saturating_add, is_empty, ok, err, panic, ok_or, map_err, reject_if, Maybe, >>=-ne-panic,
  ok_or-ne-panic, reject_if-ne-panic, map_err-ne-panic,
}
use mathlib.Core.Option.{get_or}
use obsigil_rs.Types.{Text, Bytes, Alg, from_code}
use obsigil_rs.Errors.{
  malformed, unsupported, auth_failed, empty_mandate, bad_tid, missing_clause, expired,
  audience_mismatch, error_new,
}
use obsigil_rs.Token.{str_len, parse}
use obsigil_rs.Token.Accepts.{parse-ne-panic}
use obsigil_rs.Crates.{Crates, Serde}
use obsigil_rs.Crates.Laws.{AeadLaws}
use obsigil_rs.Encoding.{decode}
use obsigil_rs.Aead.{opened}
use obsigil_rs.Aead.Opens.{opened-ne-panic}
use obsigil_rs.Key.{MandateKey}
use obsigil_rs.Serial.Total.{from_mandate_plaintext-ne-panic}
use obsigil_rs.Verify.{
  Verifier, trial, text_limit, min_half_bytes, authenticate, authenticate_and_decode, not_uuid_v7,
  now_unix, aud_contains, check_aud, clauses_inner, clauses,
}

-- Keys of the type `[u8; 64]`.
abbrev pub AreKeys : List MandateKey → Type 0
AreKeys = All (λ k. length k.bytes ≡ 64)

module _ (x : Crates) (l : AeadLaws x) where
  trial-ne-panic :
      (sealed : Bytes) (alg : Alg) (keys : List MandateKey)
      → AreKeys keys
      → trial x sealed alg keys ≢ panic
  unfolding trial
  trial-ne-panic sealed alg [] h = λ q. cc
  trial-ne-panic sealed alg (k ∷ ks) (h, hs) =
      go (opened x sealed k.bytes alg) (opened-ne-panic x sealed k.bytes alg l h)
        (trial-ne-panic sealed alg ks hs)
    where
      go :
          (r : Maybe Bytes)
          → r ≢ panic
          → trial x sealed alg ks ≢ panic
          → (elim r [ ok p ↦ ok p | err _ ↦ trial x sealed alg ks | panic ↦ panic ]) ≢ panic
      go (ok p) n rest = λ q. cc
      go (err u) n rest = rest
      go panic n rest = λ q. n refl

  authenticate-ne-panic :
      (v : Verifier) (token : Text) → AreKeys v.keys → authenticate x v token ≢ panic
  unfolding authenticate
  authenticate-ne-panic v token h =
      >>=-ne-panic (map_err (λ _. malformed) (parse token)) _
        (map_err-ne-panic (λ _. malformed) (parse token) (parse-ne-panic token))
        λ parsed _.
          >>=-ne-panic (ok_or parsed.mandate empty_mandate) _ (ok_or-ne-panic _ empty_mandate)
            λ half _.
              >>=-ne-panic (ok_or (from_code half.alg_code) unsupported) _
                (ok_or-ne-panic _ unsupported)
                λ alg _.
                  >>=-ne-panic
                    (reject_if (ltb (text_limit v.max_decoded_len) (str_len half.text)) malformed) _
                    (reject_if-ne-panic _ malformed)
                    λ _ _.
                      >>=-ne-panic (ok_or (decode x half.text parsed.encoding) malformed) _
                        (ok_or-ne-panic _ malformed)
                        λ sealed _.
                          let size =
                            ltb (length sealed) min_half_bytes
                            || ltb v.max_decoded_len (length sealed) in
                          >>=-ne-panic (reject_if size malformed) _
                            (reject_if-ne-panic size malformed)
                            λ _ _.
                              map_err-ne-panic (λ _. auth_failed) (trial x sealed alg v.keys)
                                (trial-ne-panic sealed alg v.keys h)

  check_aud-ne-panic : (v : Verifier) (aud : Option (List Text)) → check_aud x v aud ≢ panic
  unfolding check_aud
  check_aud-ne-panic v none = λ q. cc
  check_aud-ne-panic v (some aud) =
      >>=-ne-panic (reject_if (is_empty aud) audience_mismatch) _
        (reject_if-ne-panic _ audience_mismatch)
        λ _ _.
          >>=-ne-panic (ok_or v.audience audience_mismatch) _ (ok_or-ne-panic _ audience_mismatch)
            λ me _. reject_if-ne-panic (not (aud_contains x aud me)) audience_mismatch

  -- With keys of 64 bytes and sealing crates that keep their laws, no token makes the verifier
  -- panic: it answers with clauses or with an error.
  pub clauses-ne-panic :
      {T : Type 0} (s : Serde T) (clock : Option ℕ) (v : Verifier) (token : Text)
      → AreKeys v.keys
      → clauses x s clock v token ≢ panic
  unfolding clauses clauses_inner authenticate_and_decode
  clauses-ne-panic s clock v token h =
      map_err-ne-panic error_new (clauses_inner x s clock v token) (
        >>=-ne-panic (authenticate_and_decode x s v token) _
          (>>=-ne-panic (authenticate x v token) _ (authenticate-ne-panic v token h)
            λ plain _. from_mandate_plaintext-ne-panic x s plain)
          λ fields _. >>=-ne-panic (ok_or fields.tid bad_tid) _ (ok_or-ne-panic _ bad_tid) λ tid _.
            >>=-ne-panic (reject_if (not_uuid_v7 x tid) bad_tid) _ (reject_if-ne-panic _ bad_tid)
              λ _ _.
                >>=-ne-panic (ok_or fields.exp missing_clause) _ (ok_or-ne-panic _ missing_clause)
                  λ exp _.
                    let late =
                      leb_ℤ (saturating_add exp v.leeway) (get_or v.now (now_unix clock)) in
                    >>=-ne-panic (reject_if late expired) _ (reject_if-ne-panic late expired) λ _ _.
                      >>=-ne-panic (check_aud x v fields.aud) _ (check_aud-ne-panic v fields.aud)
                        λ _ _ q. cc)
