-- ===== src/Cli.antt =====
-- obsigil-cli/src/main.rs: the arguments of the commands, what a command prints, and the readings of
-- an argument. Parsing the command line (clap) yields the argument records.
pub mod Json
pub mod Commands
pub mod Run
pub mod Outcomes
pub mod SealOpen
pub mod Ready
pub mod Exits
pub mod MintTotal
pub mod HalfTotal
pub mod Total
pub mod Trimmed
pub mod Pipeline
use obsigil_rs.Prelude.{
  ℕ, ◌≤◌, Bool, ◌&&◌, ◌||◌, Option, none, some, List, [], ◌∷◌, ◌++◌, leb, ◌==◌, if◌then◌else◌,
  bytes_eq, ℤ, Result, ok, err, panic, ok_or, ◌>>=◌,
}
use obsigil_rs.Types.{Char, Text, Bytes, Alg, from_code, Encoding, b64, hex, manifest_key}
use obsigil_rs.Errors.{chars}
use obsigil_rs.Key.{to_array64}
use obsigil_rs.Crates.{Crates}
use obsigil_rs.Lowlevel.{decode}

-- `MANDATE_TEST_KEY_HEX`
abbrev pub mandate_test_key_hex : Text
mandate_test_key_hex =
    chars "a341adc813cfa493412cda5900fa4ec83f20a6cdea4fe5c759f7ccdb7ffbec51"
    ++ chars "e01d2ce90c592909adb2ac1cad771790353f439ac86e9b113a17f7c57f0684b0"

pub record MintArgs : Type 0 where
  pub key : Text
  pub exp : Option ℤ
  pub ttl : Option ℕ
  pub tid : Option Text
  pub aud : List Text
  pub sub : Option Text
  pub iss : Option Text
  pub alg : Text
  pub encoding : Text
  pub fields : Option Text
  pub manifest_iss : Option Text
  pub manifest_fields : Option Text
  pub manifest_alg : Text

pub record VerifyArgs : Type 0 where
  pub token : Text
  pub key : List Text
  pub audience : Option Text
  pub leeway : ℕ
  pub now : Option ℤ
  pub reason : Bool

pub record SealArgs : Type 0 where
  pub octets : Text
  pub key : Text
  pub alg : Text
  pub encoding : Text

pub record OpenArgs : Type 0 where
  pub half : Text
  pub key : Text
  pub alg : Text
  pub encoding : Text

pub record TokenArg : Type 0 where
  pub token : Text

pub data Cmd : Type 0 where
  mint : MintArgs → Cmd
  clauses : VerifyArgs → Cmd
  claims mandate manifest parse : TokenArg → Cmd
  generate_key : Cmd
  seal : SealArgs → Cmd
  open_half : OpenArgs → Cmd

-- The exit codes 0 and 1 of a command; `main` adds 2.
pub data ExitCode : Type 0 where
  success failure usage : ExitCode

-- What a run leaves behind: its two outputs and its exit code.
pub record Output : Type 0 where
  pub stdout : Text
  pub stderr : Text
  pub code : ExitCode

-- `println!` of a text, then success.
abbrev pub printed : Text → Output
printed t = record { stdout = t ++ chars "\n"; stderr = []; code = success }

abbrev pub failed : Output
failed = record { stdout = []; stderr = []; code = failure }

-- `char::is_whitespace`
abbrev pub is_whitespace : Char → Bool
is_whitespace c =
    leb 9 c && leb c 13
    || c == 32
    || c == 0x85
    || c == 0xa0
    || c == 0x1680
    || leb 0x2000 c && leb c 0x200a
    || c == 0x2028
    || c == 0x2029
    || c == 0x202f
    || c == 0x205f
    || c == 0x3000

-- `str::trim`, at its start and at its end.
abbrev pub trim_start : Text → Text
trim_start [] = []
trim_start (c ∷ s) = if is_whitespace c then trim_start s else c ∷ s

abbrev pub trim_end : Text → Text
trim_end [] = []
trim_end (c ∷ s) = elim (trim_end s) [
  | [] ↦ if is_whitespace c then [] else c ∷ []
  | d ∷ t ↦ c ∷ d ∷ t
]

-- What reading standard input to its end returns; it is empty once it has been read.
abbrev pub Stdin : Type 0
Stdin = Result Text Text

unfoldable pub read_input : Text → Stdin → Result Text (Text × Stdin)
read_input s stdin =
    if bytes_eq s (chars "-")
    then elim stdin [
      | ok buf ↦ ok (trim_end (trim_start buf), ok [])
      | err e ↦ err (chars "reading stdin: " ++ e)
      | panic ↦ panic
    ]
    else ok (s, stdin)

unfoldable pub parse_alg : Text → Result Text Alg
parse_alg (c ∷ []) = ok_or (from_code c) (chars "unknown/unsupported alg code `" ++ (c ∷ chars "`"))
parse_alg s = err (chars "--alg must be a single code character, got `" ++ (s ++ chars "`"))

unfoldable pub parse_encoding : Text → Result Text Encoding
parse_encoding s =
    if bytes_eq s (chars "b64")
    then ok b64
    else if bytes_eq s (chars "hex")
    then ok hex
    else err (chars "--encoding must be b64 or hex, got `" ++ (s ++ chars "`"))

module _ (x : Crates) where
  unfoldable pub resolve_key : Text → Result Text Bytes
  resolve_key s = if bytes_eq s (chars "manifest") then ok manifest_key else do
    let digits = if bytes_eq s (chars "mandate") then mandate_test_key_hex else s
    bs ← ok_or (decode x digits hex) (chars "--key must be hex or `manifest`/`mandate`")
    to_array64 bs (chars "--key must be 64 bytes (128 hex chars)")
