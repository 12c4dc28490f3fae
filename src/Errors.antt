-- ===== src/Errors.antt =====
-- obsigil/src/error.rs: why a verification, a key or a minting is refused.
use Prim.Native.Char.{code}
use Prim.Native.String.{String}
use obsigil_rs.Prelude.{ℕ, zero, suc, ◌+◌, ◌/◌, ◌%◌, ltb, if◌then◌else◌, [], ◌∷◌, ◌++◌}
use obsigil_rs.Types.{Text, Alg}
use obsigil_rs.Types as Types

pub data Reason : Type 0 where
  malformed unsupported auth_failed empty_mandate bad_tid missing_clause expired : Reason
  audience_mismatch non_canonical bad_type unknown_reserved_key : Reason

-- `Error(Reason)`
pub record Error : Type 0 where
  pub cause : Reason

abbrev pub error_new : Reason → Error
error_new r = record { cause = r }

abbrev pub reason : Error → Reason
reason e = e.cause

-- The characters of a literal.
abbrev pub chars : String → Text
chars String.[] = []
chars (String.◌∷◌ c s) = code c ∷ chars s

-- `Display` of `Error`.
abbrev pub display : Error → Text
display e = chars "obsigil: token rejected"

-- `{:?}` of a reason: the name of the variant.
abbrev pub debug_reason : Reason → Text
debug_reason malformed = chars "Malformed"
debug_reason unsupported = chars "Unsupported"
debug_reason auth_failed = chars "AuthFailed"
debug_reason empty_mandate = chars "EmptyMandate"
debug_reason bad_tid = chars "BadTid"
debug_reason missing_clause = chars "MissingClause"
debug_reason expired = chars "Expired"
debug_reason audience_mismatch = chars "AudienceMismatch"
debug_reason non_canonical = chars "NonCanonical"
debug_reason bad_type = chars "BadType"
debug_reason unknown_reserved_key = chars "UnknownReservedKey"

-- `Debug` of `Error`, `f.debug_tuple("Error").field(&self.0)` on one line.
abbrev pub debug : Error → Text
debug e = chars "Error(" ++ (debug_reason e.cause ++ chars ")")

pub data KeyError : Type 0 where
  is_manifest_key all_zero bad_hex_encoding : KeyError
  bad_hex_length : ℕ → KeyError

-- The decimal digits of a usize, of which there are at most twenty.
abbrev decimal_digits : ℕ → ℕ → Text
decimal_digits zero n = []
decimal_digits (suc fuel) n =
    let front = decimal_digits fuel (n / 10) in
    if ltb n 10 then (48 + n) ∷ [] else front ++ (48 + n % 10) ∷ []

abbrev pub decimal : ℕ → Text
decimal n = decimal_digits 20 n

-- `Display` of `KeyError`.
abbrev pub display_key : KeyError → Text
display_key is_manifest_key = chars "mandate key must not be the public manifest key"
display_key all_zero = chars "mandate key must not be all zero"
display_key bad_hex_encoding = chars "mandate key must be 128 lowercase hexadecimal digits"
display_key (bad_hex_length got) = chars "mandate key must decode to 64 bytes, got " ++ decimal got

pub data MintError : Type 0 where
  missing : Text → MintError
  empty_audience bad_tid : MintError
  unsupported_alg : Alg → MintError
  app_not_map reserved_key nan : MintError
  serialization : Text → MintError

-- `Display` of `MintError`.
abbrev pub display_mint : MintError → Text
display_mint (missing field) =
    chars "obsigil mint: missing required field `" ++ (field ++ chars "`")
display_mint empty_audience = chars "obsigil mint: `aud` must be a non-empty array"
display_mint bad_tid = chars "obsigil mint: `tid` must be a UUIDv7 (version 7, RFC 4122 variant)"
display_mint (unsupported_alg a) =
    chars "obsigil mint: algorithm `" ++ (Types.code a ∷ chars "` not enabled")
display_mint app_not_map = chars "obsigil mint: application value must serialize to a CBOR map"
display_mint reserved_key = chars "obsigil mint: application field used a reserved negative key"
display_mint nan = chars "obsigil mint: application field must not be NaN"
display_mint (serialization msg) = chars "obsigil mint: serialization failed: " ++ msg
