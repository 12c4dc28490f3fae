-- ===== src/Crates.antt =====
-- What the program calls and does not implement: the crates `data_encoding`, `aes_siv`,
-- `aes_gcm_siv`, `hkdf`, `ciborium`, `uuid`, `subtle` and `serde`, and the feature flag `gcm-siv`.
pub mod Laws
use obsigil_rs.Prelude.{ℕ, Bool, Option, List, Result}
use obsigil_rs.Types.{Text, Bytes}
use obsigil_rs.Cbor.{Value}

-- A `data_encoding::Encoding`: `encode_len`, the text that `encode_append` appends, `decode`.
pub record Codec : Type 0 where
  pub encode_len : ℕ → ℕ
  pub encode : Bytes → Text
  pub decode : Bytes → Option Bytes

pub record Crates : Type 0 where
  pub base64url_nopad : Codec
  pub hexlower : Codec
  -- key, headers, and the plaintext or the sealed bytes
  pub siv_encrypt : Bytes → List Bytes → Bytes → Option Bytes
  pub siv_decrypt : Bytes → List Bytes → Bytes → Option Bytes
  -- `cfg(feature = "gcm-siv")`
  pub gcm_siv_feature : Bool
  -- `Hkdf::from_prk(prk)`, then `expand(info, ..)` to so many bytes
  pub hkdf_expand : Bytes → Bytes → ℕ → Option Bytes
  -- key, nonce, and the plaintext or the sealed bytes
  pub gcm_encrypt : Bytes → Bytes → Bytes → Option Bytes
  pub gcm_decrypt : Bytes → Bytes → Bytes → Option Bytes
  pub into_writer : Value → Bytes
  pub from_reader : Bytes → Option Value
  pub get_version_num : Bytes → ℕ
  -- `get_variant() == Variant::RFC4122`
  pub is_rfc4122 : Bytes → Bool
  pub ct_eq : Bytes → Bytes → Bool

-- `Value::serialized` and `Value::deserialized` at an application type.
pub record Serde (T : Type 0) : Type 0 where
  pub serialized : T → Result Text Value
  pub deserialized : Value → Option T
