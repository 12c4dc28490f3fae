-- ===== src/Examples/Sample.antt =====
-- The concrete crates, an issuer, a token to mint, and the values that they give.
use obsigil_rs.Prelude.{
  ℕ, zero, suc, ◌/◌, refl, true, Option, none, some, [], ◌∷◌, ◌==◌, pos, get_elem?, bytes_eq, ok,
}
use mathlib.Core.Option.{get_or}
use obsigil_rs.Types.{Text, Bytes, NumericDate, siv, gcm_siv, Encoding, b64, hex}
use obsigil_rs.Errors.{chars}
use obsigil_rs.Cbor.{Value, Entries, integer, text, map, no_entries, entry}
use obsigil_rs.Crates.{Crates, Serde}
use obsigil_rs.Crates.Laws.{CodecLaws, CborLaws, AeadLaws}
use obsigil_rs.Encoding.{codec_of}
use obsigil_rs.Key.{MandateKey}
use obsigil_rs.Reserved.{Uuid, MandateFields}
use obsigil_rs.Mint.{Issuer, MintBuilder}
use obsigil_rs.Verify.{Verifier}
use obsigil_rs.Examples.Codecs.{hex_codec, hex_codec_lem}
use obsigil_rs.Examples.Ciphers.{fill, length-fill, toy_encrypt, toy_decrypt, toy_seals}
use obsigil_rs.Examples.Items.{write, read_all, read_integer, write_head}

abbrev pub sample : Crates
sample = record {
  base64url_nopad = hex_codec;
  hexlower = hex_codec;
  siv_encrypt = λ key _ plain. toy_encrypt key plain;
  siv_decrypt = λ key _ sealed. toy_decrypt key sealed;
  gcm_siv_feature = true;
  hkdf_expand = λ prk _ n. some (fill n prk);
  gcm_encrypt = λ key _ plain. toy_encrypt key plain;
  gcm_decrypt = λ key _ sealed. toy_decrypt key sealed;
  into_writer = write;
  from_reader = read_all;
  get_version_num = λ tid. get_or (get_elem? tid 6) 0 / 16;
  is_rfc4122 = λ tid. get_or (get_elem? tid 8) 0 / 64 == 2;
  ct_eq = bytes_eq;
}

pub sample_codecs : (e : Encoding) → CodecLaws (codec_of sample e)
sample_codecs b64 = hex_codec_lem
sample_codecs hex = hex_codec_lem

pub sample_cbor : CborLaws sample
sample_cbor = record { major_type = write_head; reads_integer = read_integer; reads_nothing = refl }

pub sample_aead : AeadLaws sample
sample_aead = record {
  siv_seals = λ key plain h b. toy_seals key plain b;
  gcm_seals = λ key nonce plain h k b. toy_seals key plain b;
  hkdf_expands = λ prk info h. (fill 32 prk, refl, length-fill 32 prk);
}

-- An application whose value is the name of a role, at key 0.
abbrev pub role_entries : Text → Entries
role_entries role = entry (integer (pos 0)) (text role) no_entries

abbrev pub role_of : Value → Option Text
role_of (map (entry (integer (pos zero)) (text role) no_entries)) = some role
role_of _ = none

abbrev pub roles : Serde Text
roles = record { serialized = λ role. ok (map (role_entries role)); deserialized = role_of }

abbrev pub counting : ℕ → ℕ → Bytes
counting b zero = []
counting b (suc n) = b ∷ counting (suc b) n

abbrev pub sample_key : MandateKey
sample_key = record { bytes = counting 7 64 }

abbrev pub other_key : MandateKey
other_key = record { bytes = counting 90 64 }

-- A UUIDv7 of 2024-01-01.
abbrev pub sample_tid : Uuid
sample_tid =
    0x01 ∷ 0x8c ∷ 0xc2 ∷ 0x51 ∷ 0xf4 ∷ 0x00 ∷ 0x70 ∷ 0x01 ∷ 0x80 ∷ 0x02 ∷ 0x03 ∷ 0x04 ∷ 0x05 ∷ 0x06
    ∷ 0x07 ∷ 0x08 ∷ []

abbrev pub sample_exp : NumericDate
sample_exp = pos 1704070800

abbrev pub sample_issuer : Issuer
sample_issuer = record {
  key = sample_key;
  mandate_alg = siv;
  manifest_alg = gcm_siv;
  encoding = hex;
}

abbrev pub sample_builder : MintBuilder Text
sample_builder = record {
  issuer = sample_issuer;
  app = chars "admin";
  exp = some sample_exp;
  tid = some sample_tid;
  iss = none;
  aud = some (chars "api" ∷ []);
  sub = some (chars "ann");
  manifest_plain = some (ok (1 ∷ 2 ∷ 3 ∷ []));
}

abbrev pub sample_verifier : Verifier
sample_verifier = record {
  keys = other_key ∷ sample_key ∷ [];
  audience = some (chars "api");
  leeway = pos 30;
  now = some (pos 1704070000);
  max_decoded_len = 65536;
}

abbrev pub sample_fields : MandateFields Text
sample_fields = record {
  exp = some sample_exp;
  tid = some sample_tid;
  iss = none;
  aud = some (chars "api" ∷ []);
  sub = some (chars "ann");
  app = chars "admin";
}
