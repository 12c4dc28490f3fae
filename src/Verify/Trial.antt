-- ===== src/Verify/Trial.antt =====
-- Trial decryption in verify.rs: which key opens a mandate, and what `authenticate` returns.
use obsigil_rs.Prelude.{
  ℕ, ◌≤◌, ◌≡◌, refl, sym, ap, ◌∙◌, ◌↔◌, false, ◌||◌, some, List, [], ◌∷◌, ◌++◌, arith, ltb, All,
  length, ok, err, panic, ok_or, map_err, reject_if, Maybe, nothing, >>=-eq-ok, reject_if-eq-ok,
  ok_or-eq-ok, map_err-eq-ok, ||-false,
}
use mathlib.Core.Path.{subst}
use obsigil_rs.Types.{Text, Bytes, Alg, from_code}
use obsigil_rs.Errors.{malformed, unsupported, empty_mandate}
use obsigil_rs.Token.{str_len, Half, Parsed, parse}
use obsigil_rs.Crates.{Crates}
use obsigil_rs.Encoding.{decode}
use obsigil_rs.Aead.{opened}
use obsigil_rs.Key.{MandateKey}
use obsigil_rs.Verify.{Verifier, trial, text_limit, min_half_bytes, authenticate}

module _ (x : Crates) where
  -- The first of the keys that opens the sealed bytes, and the plaintext.
  pub record IsFirst (sealed : Bytes) (alg : Alg) (keys : List MandateKey) (plain : Bytes)
      : Type 0 where
    pub before : List MandateKey
    pub key : MandateKey
    pub after : List MandateKey
    pub split : keys ≡ before ++ key ∷ after
    pub closed : All (λ k. opened x sealed k.bytes alg ≡ nothing) before
    pub opens : opened x sealed key.bytes alg ≡ ok plain

  trial_of_first :
      (sealed : Bytes) (alg : Alg) (before : List MandateKey) (key : MandateKey)
      (after : List MandateKey) (plain : Bytes)
      → All (λ k. opened x sealed k.bytes alg ≡ nothing) before
      → opened x sealed key.bytes alg ≡ ok plain
      → trial x sealed alg (before ++ key ∷ after) ≡ ok plain
  unfolding trial
  trial_of_first sealed alg [] key after plain h o = rw (o, trial)
  trial_of_first sealed alg (k ∷ before) key after plain (h, hs) o =
      rw (h, trial) (trial_of_first sealed alg before key after plain hs o)

  IsFirst-of_trial :
      (sealed : Bytes) (alg : Alg) (keys : List MandateKey) (plain : Bytes)
      → trial x sealed alg keys ≡ ok plain
      → IsFirst sealed alg keys plain
  unfolding trial
  IsFirst-of_trial sealed alg [] plain h = cc
  IsFirst-of_trial sealed alg (k ∷ ks) plain h =
      go (opened x sealed k.bytes alg) refl h (IsFirst-of_trial sealed alg ks plain)
    where
      go :
          (r : Maybe Bytes)
          → opened x sealed k.bytes alg ≡ r
          → (elim r [ ok p ↦ ok p | err _ ↦ trial x sealed alg ks | panic ↦ panic ]) ≡ ok plain
          → (trial x sealed alg ks ≡ ok plain → IsFirst sealed alg ks plain)
          → IsFirst sealed alg (k ∷ ks) plain
      go (ok p) e t rest = record {
        before = [];
        key = k;
        after = ks;
        split = refl;
        closed = tt;
        opens = e ∙ t;
      }
      go (err u) e t rest =
          let f = rest t in
          record {
            before = k ∷ f.before;
            key = f.key;
            after = f.after;
            split = ap (λ (l : List MandateKey). k ∷ l) f.split;
            closed = (e, f.closed);
            opens = f.opens;
          }
      go panic e t rest = cc

  pub trial-eq-ok_iff :
      (sealed : Bytes) (alg : Alg) (keys : List MandateKey) (plain : Bytes)
      → (trial x sealed alg keys ≡ ok plain) ↔ IsFirst sealed alg keys plain
  trial-eq-ok_iff sealed alg keys plain = (
    IsFirst-of_trial sealed alg keys plain,
    λ f.
        subst (λ ks. trial x sealed alg ks ≡ ok plain) (sym f.split)
          (trial_of_first sealed alg f.before f.key f.after plain f.closed f.opens),
  )

  -- An authentic mandate: its parts, the bounds that the code sets, and the key that opens it.
  pub record IsAuthentic (v : Verifier) (token : Text) (plain : Bytes) : Type 0 where
    pub parsed : Parsed
    pub parses : parse token ≡ ok parsed
    pub half : Half
    pub has_mandate : parsed.mandate ≡ some half
    pub alg : Alg
    pub has_alg : from_code half.alg_code ≡ some alg
    pub short_text : str_len half.text ≤ text_limit v.max_decoded_len
    pub sealed : Bytes
    pub decodes : decode x half.text parsed.encoding ≡ some sealed
    pub not_short : min_half_bytes ≤ length sealed
    pub not_long : length sealed ≤ v.max_decoded_len
    pub first : IsFirst sealed alg v.keys plain

  le_of_ltb : (a b : ℕ) → ltb a b ≡ false → b ≤ a
  le_of_ltb a b h = ground arith

  ltb_of_le : (a b : ℕ) → b ≤ a → ltb a b ≡ false
  ltb_of_le a b h = ground arith

  IsAuthentic-of_ok :
      (v : Verifier) (token : Text) (plain : Bytes)
      → authenticate x v token ≡ ok plain
      → IsAuthentic v token plain
  unfolding authenticate
  IsAuthentic-of_ok v token plain h =
      let (parsed, h0, h1) = >>=-eq-ok (map_err (λ _. malformed) (parse token)) _ h in
      let (half, h2, h3) = >>=-eq-ok (ok_or parsed.mandate empty_mandate) _ h1 in
      let (alg, h4, h5) = >>=-eq-ok (ok_or (from_code half.alg_code) unsupported) _ h3 in
      let long = ltb (text_limit v.max_decoded_len) (str_len half.text) in
      let (_, h6, h7) = >>=-eq-ok (reject_if long malformed) _ h5 in
      let (sealed, h8, h9) =
        >>=-eq-ok (ok_or (decode x half.text parsed.encoding) malformed) _ h7 in
      let size = ltb (length sealed) min_half_bytes || ltb v.max_decoded_len (length sealed) in
      let (_, h10, h11) = >>=-eq-ok (reject_if size malformed) _ h9 in
      let (short, fits) = ||-false _ _ (reject_if-eq-ok size malformed h10) in
      record {
        parsed = parsed;
        parses = map_err-eq-ok _ (parse token) h0;
        half = half;
        has_mandate = ok_or-eq-ok parsed.mandate empty_mandate h2;
        alg = alg;
        has_alg = ok_or-eq-ok (from_code half.alg_code) unsupported h4;
        short_text = le_of_ltb _ _ (reject_if-eq-ok long malformed h6);
        sealed = sealed;
        decodes = ok_or-eq-ok (decode x half.text parsed.encoding) malformed h8;
        not_short = le_of_ltb _ _ short;
        not_long = le_of_ltb _ _ fits;
        first =
            IsFirst-of_trial sealed alg v.keys plain
              (map_err-eq-ok _ (trial x sealed alg v.keys) h11);
      }

  ok_of_authentic :
      (v : Verifier) (token : Text) (plain : Bytes)
      → IsAuthentic v token plain
      → authenticate x v token ≡ ok plain
  unfolding authenticate
  ok_of_authentic v token plain a = rw (
    a.parses,
    a.has_mandate,
    a.has_alg,
    ltb_of_le _ _ a.short_text,
    a.decodes,
    ltb_of_le _ _ a.not_short,
    ltb_of_le _ _ a.not_long,
    (trial-eq-ok_iff a.sealed a.alg v.keys plain).1 a.first,
  )

  -- The verifier authenticates a token, with a given plaintext, exactly when it parses, its mandate
  -- half has a known algorithm, its text and its decoded bytes are within the bounds, and the first
  -- key of the ring that opens them opens them to that plaintext.
  pub authenticate-eq-ok_iff :
      (v : Verifier) (token : Text) (plain : Bytes)
      → (authenticate x v token ≡ ok plain) ↔ IsAuthentic v token plain
  authenticate-eq-ok_iff v token plain =
      (IsAuthentic-of_ok v token plain, ok_of_authentic v token plain)
