-- ===== src/Key.antt =====
-- obsigil/src/key.rs: the secret mandate key.
pub mod FromHex
use obsigil_rs.Prelude.{
  ◌==◌, Option, none, some, if◌then◌else◌, length, bytes_eq, Result, ok, err, ok_or, ◌>>=◌,
}
use obsigil_rs.Types.{Text, Bytes, hex, manifest_key}
use obsigil_rs.Errors.{KeyError, is_manifest_key, all_zero, bad_hex_encoding, bad_hex_length}
use obsigil_rs.Encoding.{decode}
use obsigil_rs.Aead.{zeros}
use obsigil_rs.Crates.{Crates}

-- `MandateKey([u8; 64])`, with `bytes()`.
pub record MandateKey : Type 0 where
  pub bytes : Bytes

-- The argument is an array of 64 bytes.
unfoldable pub from_bytes : Bytes → Result KeyError MandateKey
from_bytes bs =
    if bytes_eq bs manifest_key
    then err is_manifest_key
    else if bytes_eq bs (zeros 64)
    then err all_zero
    else ok (record { bytes = bs })

-- `try_into` an array of 64 bytes
abbrev pub to_array64 {ℓ} : {E : Type ℓ} → Bytes → E → Result E Bytes
to_array64 bs e = if length bs == 64 then ok bs else err e

module _ (x : Crates) where
  unfoldable pub from_hex : Text → Result KeyError MandateKey
  unfolding from_bytes
  from_hex text = do
    decoded ← ok_or (decode x text hex) bad_hex_encoding
    bs ← to_array64 decoded (bad_hex_length (length decoded))
    from_bytes bs

  -- The 64 bytes are what the platform's generator returned.
  unfoldable pub generate : Bytes → MandateKey
  generate random = record { bytes = random }

  unfoldable pub generate_key : Bytes → Text
  generate_key random = x.hexlower.encode random
