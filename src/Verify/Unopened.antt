-- ===== src/Verify/Unopened.antt =====
-- Why `authenticate` of verify.rs opens no mandate.
use obsigil_rs.Prelude.{
  ℕ, ◌<◌, ◌≡◌, refl, sym, ap, ◌∙◌, ◌↔◌, ◌⊎◌, inl, inr, Bool, true, false, ◌||◌, none, some, arith,
  ltb, length, Result, ok, err, ok_or, map_err, reject_if, ◌>>=◌, ◌>>◌, >>=-eq-err,
  reject_if-eq-err, ok_or-none, reject_if-fails, ok_or-eq-err, map_err-eq-err, ok_or-eq-ok,
  map_err-eq-ok,
}
use obsigil_rs.Types.{Text, Bytes, Alg, from_code, Encoding}
use obsigil_rs.Errors.{Reason, malformed, unsupported, auth_failed, empty_mandate}
use obsigil_rs.Token.{str_len, Half, Parsed, ParseError, parse}
use obsigil_rs.Crates.{Crates}
use obsigil_rs.Encoding.{decode}
use obsigil_rs.Verify.{Verifier, trial, text_limit, min_half_bytes, authenticate}
use obsigil_rs.Verify.Failed.{IsClosed, authenticate-eq-auth_failed_iff}

-- The mandate half of a token, and its algorithm.
pub record Selected (token : Text) : Type 0 where
  pub parsed : Parsed
  pub parses : parse token ≡ ok parsed
  pub half : Half
  pub has_mandate : parsed.mandate ≡ some half
  pub alg : Alg
  pub has_alg : from_code half.alg_code ≡ some alg

module _ (x : Crates) where
  -- The text of a half is too long, is no encoding of bytes, or one of too few or too many.
  pub data OutOfBounds (v : Verifier) (text : Text) (encoding : Encoding) : Type 0 where
    long_text : text_limit v.max_decoded_len < str_len text → OutOfBounds v text encoding
    undecodable : decode x text encoding ≡ none → OutOfBounds v text encoding
    short :
        (b : Bytes)
        → decode x text encoding ≡ some b
        → length b < min_half_bytes
        → OutOfBounds v text encoding
    long :
        (b : Bytes)
        → decode x text encoding ≡ some b
        → v.max_decoded_len < length b
        → OutOfBounds v text encoding

  pub data Unopened (v : Verifier) (token : Text) (r : Reason) : Type 0 where
    unparsed : (e : ParseError) → parse token ≡ err e → r ≡ malformed → Unopened v token r
    manifest_only :
        (p : Parsed)
        → parse token ≡ ok p
        → p.mandate ≡ none
        → r ≡ empty_mandate
        → Unopened v token r
    unknown_alg :
        (p : Parsed) (half : Half)
        → parse token ≡ ok p
        → p.mandate ≡ some half
        → from_code half.alg_code ≡ none
        → r ≡ unsupported
        → Unopened v token r
    unbounded :
        (z : Selected token)
        → OutOfBounds v z.half.text z.parsed.encoding
        → r ≡ malformed
        → Unopened v token r
    closed : IsClosed x v token → r ≡ auth_failed → Unopened v token r

  -- What `authenticate` does once it has the half and its algorithm.
  abbrev unsealing : Verifier → Text → Encoding → Alg → Result Reason Bytes
  unsealing v text encoding alg = do
    sealed ← ok_or (decode x text encoding) malformed
    reject_if (ltb (length sealed) min_half_bytes || ltb v.max_decoded_len (length sealed))
        malformed
    map_err (λ _. auth_failed) (trial x sealed alg v.keys)

  abbrev opening : Verifier → Text → Encoding → Alg → Result Reason Bytes
  opening v text encoding alg = do
    reject_if (ltb (text_limit v.max_decoded_len) (str_len text)) malformed
    unsealing v text encoding alg

  authenticate-Selected :
      (v : Verifier) (token : Text) (z : Selected token)
      → authenticate x v token ≡ opening v z.half.text z.parsed.encoding z.alg
  unfolding authenticate
  authenticate-Selected v token z = rw (z.parses, z.has_mandate, z.has_alg)

  skip_check :
      (b : Bool) (k : Result Reason Bytes)
      → k ≡ err malformed
      → (reject_if b malformed >> k) ≡ err malformed
  skip_check true k h = refl
  skip_check false k h = h

  test_lt : (a b : ℕ) → ltb a b ≡ true → a < b
  test_lt a b h = ground arith

  or_cases : (a b : Bool) → (a || b) ≡ true → (a ≡ true) ⊎ (b ≡ true)
  or_cases true b h = inl refl
  or_cases false b h = inr h

  lt_test : (a b : ℕ) → a < b → ltb a b ≡ true
  lt_test a b h = ground arith

  opening_unbounded :
      (v : Verifier) (text : Text) (encoding : Encoding) (alg : Alg)
      → OutOfBounds v text encoding
      → opening v text encoding alg ≡ err malformed
  opening_unbounded v text encoding alg (long_text h) =
      rw (lt_test (text_limit v.max_decoded_len) (str_len text) h)
  opening_unbounded v text encoding alg (undecodable h) =
      skip_check (ltb (text_limit v.max_decoded_len) (str_len text)) (unsealing v text encoding alg)
        (rw h)
  opening_unbounded v text encoding alg (short b h k) =
      skip_check (ltb (text_limit v.max_decoded_len) (str_len text)) (unsealing v text encoding alg)
        (rw (h, lt_test (length b) min_half_bytes k))
  opening_unbounded v text encoding alg (long b h k) =
      skip_check (ltb (text_limit v.max_decoded_len) (str_len text)) (unsealing v text encoding alg)
        (rw (h, lt_test v.max_decoded_len (length b) k) (or_true _))
    where
      or_true :
          (c : Bool)
          → (reject_if (c || true) malformed >> map_err (λ _. auth_failed) (trial x b alg v.keys))
            ≡ err malformed
      or_true true = refl
      or_true false = refl

  opening_sound :
      (v : Verifier) (token : Text) (z : Selected token) (r : Reason)
      → opening v z.half.text z.parsed.encoding z.alg ≡ err r
      → authenticate x v token ≡ err r
      → Unopened v token r
  opening_sound v token z r h whole =
      let long_test = ltb (text_limit v.max_decoded_len) (str_len z.half.text) in
      elim (>>=-eq-err (reject_if long_test malformed) _ h) [
        | inl e ↦
            unbounded z (long_text (test_lt _ _ (reject_if-fails long_test malformed e)))
              (sym (reject_if-eq-err long_test malformed e))
        | inr (_, _, h1) ↦
            elim (>>=-eq-err (ok_or (decode x z.half.text z.parsed.encoding) malformed) _ h1) [
              | inl e ↦
                  unbounded z (undecodable (ok_or-none _ malformed e))
                    (sym (ok_or-eq-err _ malformed e))
              | inr (b, hb, h2) ↦
                  let decoded = ok_or-eq-ok _ malformed hb in
                  let size = ltb (length b) min_half_bytes || ltb v.max_decoded_len (length b) in
                  elim (>>=-eq-err (reject_if size malformed) _ h2) [
                    | inl e ↦
                        unbounded z
                          (sizes b decoded (or_cases _ _ (reject_if-fails size malformed e)))
                          (sym (reject_if-eq-err size malformed e))
                    | inr (_, _, h3) ↦
                        let (_, _, same) =
                          map_err-eq-err (λ _. auth_failed) (trial x b z.alg v.keys) h3 in
                        closed
                          ((authenticate-eq-auth_failed_iff x v token).0
                            (whole ∙ ap err (sym same)))
                          (sym same)
                  ]
            ]
      ]
    where
      sizes :
          (b : Bytes)
          → decode x z.half.text z.parsed.encoding ≡ some b
          → (ltb (length b) min_half_bytes ≡ true) ⊎ (ltb v.max_decoded_len (length b) ≡ true)
          → OutOfBounds v z.half.text z.parsed.encoding
      sizes b d (inl e) = short b d (test_lt _ _ e)
      sizes b d (inr e) = long b d (test_lt _ _ e)

  unopened_sound :
      (v : Verifier) (token : Text) (r : Reason)
      → authenticate x v token ≡ err r
      → Unopened v token r
  unfolding authenticate
  unopened_sound v token r h = elim (>>=-eq-err (map_err (λ _. malformed) (parse token)) _ h) [
    | inl e ↦
        let (f, hf, same) = map_err-eq-err (λ _. malformed) (parse token) e in
        unparsed f hf (sym same)
    | inr (p, hp, h1) ↦
        let parses = map_err-eq-ok (λ _. malformed) (parse token) hp in
        elim (>>=-eq-err (ok_or p.mandate empty_mandate) _ h1) [
          | inl e ↦
              manifest_only p parses (ok_or-none _ empty_mandate e)
                (sym (ok_or-eq-err _ empty_mandate e))
          | inr (half, hh, h2) ↦
              let found = ok_or-eq-ok p.mandate empty_mandate hh in
              elim (>>=-eq-err (ok_or (from_code half.alg_code) unsupported) _ h2) [
                | inl e ↦
                    unknown_alg p half parses found (ok_or-none _ unsupported e)
                      (sym (ok_or-eq-err _ unsupported e))
                | inr (alg, ha, h3) ↦
                    opening_sound v token
                      (record {
                        parsed = p;
                        parses = parses;
                        half = half;
                        has_mandate = found;
                        alg = alg;
                        has_alg = ok_or-eq-ok _ unsupported ha;
                      })
                      r h3 h
              ]
        ]
  ]

  unopened_complete :
      (v : Verifier) (token : Text) (r : Reason)
      → Unopened v token r
      → authenticate x v token ≡ err r
  unfolding authenticate
  unopened_complete v token r (unparsed e h same) = rw (h, same)
  unopened_complete v token r (manifest_only p h n same) = rw (h, n, same)
  unopened_complete v token r (unknown_alg p half h n a same) = rw (h, n, a, same)
  unopened_complete v token r (unbounded z o same) =
      authenticate-Selected v token z
      ∙ opening_unbounded v z.half.text z.parsed.encoding z.alg o
      ∙ ap err (sym same)
  unopened_complete v token r (closed c same) =
      (authenticate-eq-auth_failed_iff x v token).1 c ∙ ap err (sym same)

  -- `authenticate` ends with a reason exactly when the mandate is unopened for that reason.
  pub authenticate-eq-err_iff :
      (v : Verifier) (token : Text) (r : Reason)
      → (authenticate x v token ≡ err r) ↔ Unopened v token r
  authenticate-eq-err_iff v token r = (unopened_sound v token r, unopened_complete v token r)
