-- ===== src/Mint/Shape.antt =====
-- The token that mint.rs puts together, as token.rs parses it and verify.rs authenticates it.
use obsigil_rs.Prelude.{
  ℕ, ◌*◌, ◌^◌, ◌≤◌, ◌<◌, ◌≡◌, refl, sym, ap, ◌∙◌, true, false, Option, none, some, [], ◌∷◌, ◌++◌,
  append_assoc, arith, length, is_empty, All, ok,
}
use obsigil_rs.Types.{Char, Text, Bytes, Alg, siv, gcm_siv, code, Encoding, b64, hex, separator}
use obsigil_rs.Types.Codes.{from_code-code}
use obsigil_rs.Types.IssuedAt.{IsByte}
use obsigil_rs.Utf8.{as_bytes, as_bytes_ascii, str_len_ascii}
use obsigil_rs.Token.{str_len, Half, Parsed, parse, is_alg_char}
use obsigil_rs.Token.Grammar.{IsHalf, IsToken, render, render_manifest, parse-render}
use obsigil_rs.Crates.{Crates}
use obsigil_rs.Crates.Laws.{CodecLaws}
use obsigil_rs.Encoding.{encode_into, decode, codec_of}
use obsigil_rs.Aead.Opens.{IsSealed}
use obsigil_rs.Mint.{Issuer, manifest_text, assemble_token}
use obsigil_rs.Verify.{Verifier, text_limit, authenticate}
use obsigil_rs.Verify.Trial.{IsFirst, authenticate-eq-ok_iff}

module _ (x : Crates) where
  -- The text of sealed bytes on its own.
  abbrev pub encoded : Bytes → Encoding → Text
  encoded bs e = encode_into x bs e []

  abbrev half_of : Char → Bytes → Encoding → Half
  half_of c bs e = record { alg_code = c; text = encoded bs e }

  abbrev manifest_of : Issuer → Option Bytes → Option Half
  manifest_of i none = none
  manifest_of i (some sealed) = some (half_of (code i.manifest_alg) sealed i.encoding)

  -- The parts of a minted token.
  abbrev pub minted : Issuer → Option Bytes → Bytes → Parsed
  minted i manifest sealed = record {
    encoding = i.encoding;
    separator = separator i.encoding;
    manifest = manifest_of i manifest;
    mandate = some (half_of (code i.mandate_alg) sealed i.encoding);
    mandate_part = code i.mandate_alg ∷ encoded sealed i.encoding;
  }

  abbrev pub IsFilled : Option Bytes → Type 0
  IsFilled none = Unit {0}
  IsFilled (some sealed) = 0 < length sealed

  pub encode_into_eq :
      (bs : Bytes) (e : Encoding) (out : Text) → encode_into x bs e out ≡ out ++ encoded bs e
  unfolding encode_into
  encode_into_eq bs b64 out = refl
  encode_into_eq bs hex out = refl

  pub encoded_eq : (bs : Bytes) (e : Encoding) → encoded bs e ≡ (codec_of x e).encode bs
  unfolding encode_into
  encoded_eq bs b64 = refl
  encoded_eq bs hex = refl

  pub decode_eq : (t : Text) (e : Encoding) → decode x t e ≡ (codec_of x e).decode (as_bytes t)
  unfolding decode
  decode_eq t b64 = refl
  decode_eq t hex = refl

  code_alg : (a : Alg) → is_alg_char (code a) ≡ true
  code_alg siv = refl
  code_alg gcm_siv = refl

  module _ (laws : (e : Encoding) → CodecLaws (codec_of x e)) where
    filled : (t : Text) → 0 < length t → is_empty t ≡ false
    filled [] h = absurd (omega arith)
    filled (c ∷ t) h = refl

    half-IsHalf :
        (a : Alg) (bs : Bytes) (e : Encoding)
        → 0 < length bs
        → IsHalf (some (half_of (code a) bs e))
    half-IsHalf a bs e h =
        let l = laws e in
        rw (encoded_eq bs e) (
          filled ((codec_of x e).encode bs)
              (omega (arith, l.encode_len_lem bs, l.not_shorter (length bs))),
          code_alg a,
          l.plain bs,
        )

    minted-IsToken :
        (i : Issuer) (manifest : Option Bytes) (sealed : Bytes)
        → IsFilled manifest
        → 0 < length sealed
        → IsToken (minted i manifest sealed)
    minted-IsToken i none sealed m h = record {
      sep = refl;
      manifest = tt;
      mandate = half-IsHalf i.mandate_alg sealed i.encoding h;
      one_half = refl;
      part = refl;
    }
    minted-IsToken i (some bs) sealed m h = record {
      sep = refl;
      manifest = half-IsHalf i.manifest_alg bs i.encoding m;
      mandate = half-IsHalf i.mandate_alg sealed i.encoding h;
      one_half = refl;
      part = refl;
    }

    manifest_text_eq :
        (i : Issuer) (manifest : Option Bytes)
        → manifest_text x manifest i ≡ render_manifest (manifest_of i manifest)
    manifest_text_eq i none = refl
    manifest_text_eq i (some bs) = refl

    render-minted :
        (i : Issuer) (manifest : Option Bytes) (sealed : Bytes)
        → render (minted i manifest sealed) ≡ assemble_token x i manifest sealed
    unfolding assemble_token
    render-minted i manifest sealed = sym (
        encode_into_eq sealed i.encoding _
        ∙ append_assoc (manifest_text x manifest i) (separator i.encoding ∷ code i.mandate_alg ∷ [])
            (encoded sealed i.encoding)
        ∙ ap
            (λ (t : Text).
              t ++ separator i.encoding ∷ code i.mandate_alg ∷ encoded sealed i.encoding)
            (manifest_text_eq i manifest))

    -- A token that is put together from sealed halves, neither of them empty, is parsed to those
    -- halves under the issuer's encoding and algorithm codes, if the text encodings keep their
    -- laws.
    pub parse-assemble_token :
        (i : Issuer) (manifest : Option Bytes) (sealed : Bytes)
        → IsFilled manifest
        → 0 < length sealed
        → parse (assemble_token x i manifest sealed) ≡ ok (minted i manifest sealed)
    parse-assemble_token i manifest sealed m h =
        rw (← render-minted i manifest sealed)
          (parse-render (minted i manifest sealed) (minted-IsToken i manifest sealed m h))

    pub text_fits :
        (bs : Bytes) (e : Encoding) (max : ℕ)
        → length bs ≤ max
        → max ≤ 2 ^ 62
        → str_len (encoded bs e) ≤ text_limit max
    text_fits bs e max h k =
        let l = laws e in
        let n = length ((codec_of x e).encode bs) in
        let short : n ≤ 2 * max = omega (arith, l.encode_len_lem bs, l.at_most_twice (length bs)) in
        rw (encoded_eq bs e, str_len_ascii ((codec_of x e).encode bs) (l.ascii bs))
          (fits n max short k)
      where
        fits : (n max : ℕ) → n ≤ 2 * max → max ≤ 2 ^ 62 → n ≤ text_limit max
        fits n max h k = ground arith

    pub decode-encoded :
        (bs : Bytes) (e : Encoding) → All IsByte bs → decode x (encoded bs e) e ≡ some bs
    decode-encoded bs e h =
        let l = laws e in
        decode_eq (encoded bs e) e
        ∙ ap (λ t. (codec_of x e).decode (as_bytes t)) (encoded_eq bs e)
        ∙ ap (codec_of x e).decode (as_bytes_ascii ((codec_of x e).encode bs) (l.ascii bs))
        ∙ l.decode-encode bs h

    -- A verifier with the issuer's key, and no key before it that opens the mandate, gets the
    -- plaintext that was sealed.
    pub authenticate-assemble_token :
        (i : Issuer) (manifest : Option Bytes) (sealed plain : Bytes) (v : Verifier)
        → IsFilled manifest
        → IsSealed x plain i.key.bytes i.mandate_alg sealed
        → 0 < length plain
        → length sealed ≤ v.max_decoded_len
        → v.max_decoded_len ≤ 2 ^ 62
        → IsFirst x sealed i.mandate_alg v.keys plain
        → authenticate x v (assemble_token x i manifest sealed) ≡ ok plain
    authenticate-assemble_token i manifest sealed plain v m s h fits bound first =
        (authenticate-eq-ok_iff x v (assemble_token x i manifest sealed) plain).1 (record {
          parsed = minted i manifest sealed;
          parses = parse-assemble_token i manifest sealed m (omega (arith, s.longer));
          half = half_of (code i.mandate_alg) sealed i.encoding;
          has_mandate = refl;
          alg = i.mandate_alg;
          has_alg = from_code-code i.mandate_alg;
          short_text = text_fits sealed i.encoding v.max_decoded_len fits bound;
          sealed = sealed;
          decodes = decode-encoded sealed i.encoding s.octets;
          not_short = omega (arith, s.longer);
          not_long = fits;
          first = first;
        })
