-- ===== src/Mint.antt =====
-- obsigil/src/mint.rs: the issuer and the builder of one token.
pub mod Shape
pub mod EndToEnd
pub mod Refusals
pub mod Shown
pub mod Expiry
pub mod Total
use obsigil_rs.Prelude.{
  Bool, true, false, not, ◌||◌, Option, none, some, List, [], ◌∷◌, ◌++◌, ltb, ◌==◌, if◌then◌else◌,
  is_empty, ℤ, pos, i64_max, as_i64, saturating_add, ◌^◌, ℕ, Result, ok, err, panic, ok_or,
  reject_if, ◌>>=◌, ◌>>◌,
}
use mathlib.Core.Option.{get_or}
use obsigil_rs.Types.{
  Text, Bytes, NumericDate, Alg, siv, code, Encoding, b64, separator, manifest_key,
}
use obsigil_rs.Errors.{MintError, missing, empty_audience, bad_tid, chars}
use obsigil_rs.Crates.{Crates, Serde}
use obsigil_rs.Encoding.{encode_into}
use obsigil_rs.Aead.{seal}
use obsigil_rs.Key.{MandateKey}
use obsigil_rs.Reserved.{Uuid}
use obsigil_rs.Serial.Write.{to_mandate_plaintext, to_manifest_plaintext}

pub record Issuer : Type 0 where
  pub key : MandateKey
  pub mandate_alg : Alg
  pub manifest_alg : Alg
  pub encoding : Encoding

-- `Issuer::new`
abbrev pub issuer_new : MandateKey → Issuer
issuer_new key = record { key = key; mandate_alg = siv; manifest_alg = siv; encoding = b64 }

abbrev pub with_alg : Issuer → Alg → Issuer
with_alg i alg = record i { mandate_alg = alg }

abbrev pub with_manifest_alg : Issuer → Alg → Issuer
with_manifest_alg i alg = record i { manifest_alg = alg }

abbrev pub with_encoding : Issuer → Encoding → Issuer
with_encoding i encoding = record i { encoding = encoding }

pub record MintBuilder (T : Type 0) : Type 0 where
  pub issuer : Issuer
  pub app : T
  pub exp : Option NumericDate
  pub tid : Option Uuid
  pub iss : Option Text
  pub aud : Option (List Text)
  pub sub : Option Text
  pub manifest_plain : Option (Result MintError Bytes)

module _ {T : Type 0} where
  -- `Issuer::clauses`
  abbrev pub mint_clauses : Issuer → T → MintBuilder T
  mint_clauses i a = record {
    issuer = i;
    app = a;
    exp = none;
    tid = none;
    iss = none;
    aud = none;
    sub = none;
    manifest_plain = none;
  }

  abbrev pub with_exp : MintBuilder T → NumericDate → MintBuilder T
  with_exp b exp = record b { exp = some exp }

  -- `clock` is the time since the epoch in whole seconds, a u64, if the clock is not before it;
  -- `ttl` the duration in whole seconds, a u64.
  abbrev pub expires_in : MintBuilder T → Option ℕ → ℕ → MintBuilder T
  expires_in b clock ttl =
      let now : NumericDate = elim clock [ some secs ↦ as_i64 secs | none ↦ pos 0 ] in
      let ttl' : NumericDate = if ltb ttl (2 ^ 63) then pos ttl else i64_max in
      record b { exp = some (saturating_add now ttl') }

  abbrev pub with_tid : MintBuilder T → Uuid → MintBuilder T
  with_tid b tid = record b { tid = some tid }

  abbrev pub with_issuer : MintBuilder T → Text → MintBuilder T
  with_issuer b iss = record b { iss = some iss }

  abbrev pub with_audience : MintBuilder T → List Text → MintBuilder T
  with_audience b aud = record b { aud = some aud }

  abbrev pub with_subject : MintBuilder T → Text → MintBuilder T
  with_subject b sub = record b { sub = some sub }

  abbrev pub with_manifest :
      Crates → {M : Type 0} → Serde M → MintBuilder T → Text → M → MintBuilder T
  with_manifest x s b iss a = record b { manifest_plain = some (to_manifest_plaintext x s iss a) }

-- `if let Some(aud) = &self.aud { if aud.is_empty() { .. } }`
abbrev pub is_empty_aud : Option (List Text) → Bool
is_empty_aud none = false
is_empty_aud (some aud) = is_empty aud

module _ (x : Crates) where
  -- `result?` and `seal(..)?` on the manifest, where there is one
  abbrev pub seal_manifest : Option (Result MintError Bytes) → Alg → Result MintError (Option Bytes)
  seal_manifest none alg = ok none
  seal_manifest (some result) alg = do
    plain ← result
    sealed ← seal x plain manifest_key alg
    ok (some sealed)

  -- the text that is pushed in front of the separator
  abbrev pub manifest_text : Option Bytes → Issuer → Text
  manifest_text none i = []
  manifest_text (some sealed) i = encode_into x sealed i.encoding [] ++ code i.manifest_alg ∷ []

  -- the token, from its sealed halves
  unfoldable pub assemble_token : Issuer → Option Bytes → Bytes → Text
  assemble_token i manifest_sealed mandate_sealed =
      encode_into x mandate_sealed i.encoding
        (manifest_text manifest_sealed i ++ separator i.encoding ∷ code i.mandate_alg ∷ [])

  -- `fresh` is what `Uuid::now_v7` would return.
  unfoldable pub mint : {T : Type 0} → Serde T → Uuid → MintBuilder T → Result MintError Text
  unfolding assemble_token
  mint s fresh b = do
    exp ← ok_or b.exp (missing (chars "exp"))
    reject_if (is_empty_aud b.aud) empty_audience
    let tid = get_or b.tid fresh
    reject_if (not (x.get_version_num tid == 7) || not (x.is_rfc4122 tid)) bad_tid
    mandate_plain ← to_mandate_plaintext x s exp tid b.iss b.aud b.sub b.app
    mandate_sealed ← seal x mandate_plain b.issuer.key.bytes b.issuer.mandate_alg
    manifest_sealed ← seal_manifest b.manifest_plain b.issuer.manifest_alg
    ok (assemble_token b.issuer manifest_sealed mandate_sealed)
