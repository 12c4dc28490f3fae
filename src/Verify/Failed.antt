-- ===== src/Verify/Failed.antt =====
-- When `authenticate` of verify.rs answers that no key opens the mandate.
use obsigil_rs.Prelude.{
  ◌≡◌, ◌≢◌, refl, ◌↔◌, inl, inr, false, ◌||◌, some, List, [], ◌∷◌, ltb, All, length, Result, ok,
  err, panic, ok_or, map_err, reject_if, ◌>>=◌, Maybe, nothing, reject_if-eq-ok, ok_or-eq-ok,
  map_err-eq-ok, >>=-eq-err, reject_if-eq-err, ok_or-eq-err, map_err-eq-err,
}
use obsigil_rs.Types.{Text, Bytes, Alg, from_code}
use obsigil_rs.Errors.{Reason, malformed, unsupported, auth_failed, empty_mandate}
use obsigil_rs.Token.{str_len, Half, Parsed, parse}
use obsigil_rs.Crates.{Crates}
use obsigil_rs.Encoding.{decode}
use obsigil_rs.Aead.{opened}
use obsigil_rs.Key.{MandateKey}
use obsigil_rs.Verify.{Verifier, trial, text_limit, min_half_bytes, authenticate}

module _ (x : Crates) where
  abbrev pub Closed : Bytes → Alg → List MandateKey → Type 0
  Closed sealed alg = All (λ k. opened x sealed k.bytes alg ≡ nothing)

  -- A mandate half that is read, within the bounds, and that no key of the ring opens.
  pub record IsClosed (v : Verifier) (token : Text) : Type 0 where
    pub parsed : Parsed
    pub parses : parse token ≡ ok parsed
    pub half : Half
    pub has_mandate : parsed.mandate ≡ some half
    pub alg : Alg
    pub has_alg : from_code half.alg_code ≡ some alg
    pub short_text : ltb (text_limit v.max_decoded_len) (str_len half.text) ≡ false
    pub sealed : Bytes
    pub decodes : decode x half.text parsed.encoding ≡ some sealed
    pub in_bounds :
        (ltb (length sealed) min_half_bytes || ltb v.max_decoded_len (length sealed)) ≡ false
    pub closed : Closed sealed alg v.keys

  trial_of_Closed :
      (sealed : Bytes) (alg : Alg) (ks : List MandateKey)
      → Closed sealed alg ks
      → trial x sealed alg ks ≡ nothing
  unfolding trial
  trial_of_Closed sealed alg [] h = refl
  trial_of_Closed sealed alg (k ∷ ks) (h, hs) = rw (h, trial) (trial_of_Closed sealed alg ks hs)

  Closed-of_trial :
      (sealed : Bytes) (alg : Alg) (ks : List MandateKey) {u : Unit {0}}
      → trial x sealed alg ks ≡ err u
      → Closed sealed alg ks
  unfolding trial
  Closed-of_trial sealed alg [] h = tt
  Closed-of_trial sealed alg (k ∷ ks) {u} h =
      go (opened x sealed k.bytes alg) refl h (λ q. Closed-of_trial sealed alg ks q)
    where
      go :
          (r : Maybe Bytes)
          → opened x sealed k.bytes alg ≡ r
          → (elim r [ ok p ↦ ok p | err _ ↦ trial x sealed alg ks | panic ↦ panic ]) ≡ err u
          → (trial x sealed alg ks ≡ err u → Closed sealed alg ks)
          → Closed sealed alg (k ∷ ks)
      go (ok p) e q rest = cc
      go (err w) e q rest = (e, rest q)
      go panic e q rest = cc

  -- A step of `authenticate` that fails for another reason did not fail.
  passed {ℓ} :
      {A : Type ℓ} (r : Result Reason A) (k : A → Result Reason Bytes) (other : Reason)
      → ((f : Reason) → r ≡ err f → other ≡ f)
      → other ≢ auth_failed
      → r >>= k ≡ err auth_failed
      → (a : A) × (r ≡ ok a) × (k a ≡ err auth_failed)
  passed r k other only differs h = elim (>>=-eq-err r k h) [
    | inl e ↦ absurd (differs (only auth_failed e))
    | inr p ↦ p
  ]

  failed_sound :
      (v : Verifier) (token : Text) → authenticate x v token ≡ err auth_failed → IsClosed v token
  unfolding authenticate
  failed_sound v token h =
      let (parsed, h0, h1) =
        passed (map_err (λ _. malformed) (parse token)) _ malformed
          (λ f q. (map_err-eq-err (λ _. malformed) (parse token) q).2) apart h in
      let (half, h2, h3) =
        passed (ok_or parsed.mandate empty_mandate) _ empty_mandate
          (λ f q. ok_or-eq-err parsed.mandate empty_mandate q) (λ q. cc) h1 in
      let (alg, h4, h5) =
        passed (ok_or (from_code half.alg_code) unsupported) _ unsupported
          (λ f q. ok_or-eq-err (from_code half.alg_code) unsupported q) (λ q. cc) h3 in
      let long = ltb (text_limit v.max_decoded_len) (str_len half.text) in
      let (_, h6, h7) =
        passed (reject_if long malformed) _ malformed (λ f q. reject_if-eq-err long malformed q)
          apart h5 in
      let (sealed, h8, h9) =
        passed (ok_or (decode x half.text parsed.encoding) malformed) _ malformed
          (λ f q. ok_or-eq-err (decode x half.text parsed.encoding) malformed q) apart h7 in
      let size = ltb (length sealed) min_half_bytes || ltb v.max_decoded_len (length sealed) in
      let (_, h10, h11) =
        passed (reject_if size malformed) _ malformed (λ f q. reject_if-eq-err size malformed q)
          apart h9 in
      record {
        parsed = parsed;
        parses = map_err-eq-ok (λ _. malformed) (parse token) h0;
        half = half;
        has_mandate = ok_or-eq-ok parsed.mandate empty_mandate h2;
        alg = alg;
        has_alg = ok_or-eq-ok (from_code half.alg_code) unsupported h4;
        short_text = reject_if-eq-ok long malformed h6;
        sealed = sealed;
        decodes = ok_or-eq-ok (decode x half.text parsed.encoding) malformed h8;
        in_bounds = reject_if-eq-ok size malformed h10;
        closed =
            Closed-of_trial sealed alg v.keys
              (map_err-eq-err (λ _. auth_failed) (trial x sealed alg v.keys) h11).1;
      }
    where
      apart : malformed ≢ auth_failed
      apart q = cc

  failed_complete :
      (v : Verifier) (token : Text) → IsClosed v token → authenticate x v token ≡ err auth_failed
  unfolding authenticate
  failed_complete v token c = rw (
    c.parses,
    c.has_mandate,
    c.has_alg,
    c.short_text,
    c.decodes,
    c.in_bounds,
    trial_of_Closed c.sealed c.alg v.keys c.closed,
  )

  -- The verifier answers that authentication failed exactly when the token parses, its mandate half
  -- has a known algorithm, its text and its decoded bytes are within the bounds, and no key of the
  -- ring opens it.
  pub authenticate-eq-auth_failed_iff :
      (v : Verifier) (token : Text) → (authenticate x v token ≡ err auth_failed) ↔ IsClosed v token
  authenticate-eq-auth_failed_iff v token = (failed_sound v token, failed_complete v token)
