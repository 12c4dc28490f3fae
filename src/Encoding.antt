-- ===== src/Encoding.antt =====
-- obsigil/src/encoding.rs: the text of sealed bytes under the token's encoding.
use obsigil_rs.Prelude.{ℕ, Option, ◌++◌}
use obsigil_rs.Types.{Text, Bytes, Encoding, b64, hex}
use obsigil_rs.Utf8.{as_bytes}
use obsigil_rs.Crates.{Codec, Crates}

module _ (x : Crates) where
  unfoldable pub encoded_len : ℕ → Encoding → ℕ
  encoded_len n b64 = x.base64url_nopad.encode_len n
  encoded_len n hex = x.hexlower.encode_len n

  -- Appends to `out`.
  unfoldable pub encode_into : Bytes → Encoding → Text → Text
  encode_into bs b64 out = out ++ x.base64url_nopad.encode bs
  encode_into bs hex out = out ++ x.hexlower.encode bs

  -- the crate's encoding that serves one of the program's
  abbrev pub codec_of : Encoding → Codec
  codec_of b64 = x.base64url_nopad
  codec_of hex = x.hexlower

  unfoldable pub decode : Text → Encoding → Option Bytes
  decode text b64 = x.base64url_nopad.decode (as_bytes text)
  decode text hex = x.hexlower.decode (as_bytes text)
