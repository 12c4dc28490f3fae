-- ===== src/Examples/Tool.antt =====
-- The properties of the command-line tool, at concrete arguments.
use obsigil_rs.Prelude.{◌≡◌, refl, true, false, none, some, List, [], ◌∷◌, ◌++◌, arith, pos, ok}
use obsigil_rs.Types.{Text, Bytes, siv, hex}
use obsigil_rs.Errors.{chars, is_manifest_key, malformed, expired, display_key}
use obsigil_rs.Cbor.{map, no_entries}
use obsigil_rs.Key.{MandateKey}
use obsigil_rs.Lowlevel.{decode, encode}
use obsigil_rs.Cli.{
  MintArgs, VerifyArgs, SealArgs, mint, Output, usage, printed, Stdin, read_input, parse_alg,
  parse_encoding, resolve_key,
}
use obsigil_rs.Cli.Json.{Tools, object, no_members}
use obsigil_rs.Cli.Commands.{cmd_mint, cmd_clauses, rejected, cmd_seal, cmd_open}
use obsigil_rs.Cli.Outcomes.{IsAsked, IsAnswer, cmd_clauses-outcome, cmd_clauses-uniform}
use obsigil_rs.Cli.Exits.{Ends, main-Ends}
use obsigil_rs.Cli.Run.{Platform, main}
use obsigil_rs.Cli.SealOpen.{cmd_open-cmd_seal}
use obsigil_rs.Examples.Sample.{sample, sample_codecs, sample_aead, sample_key, sample_tid}
use obsigil_rs.Examples.Computed.{sample_token}

-- JSON that knows the empty object only.
abbrev pub sample_tools : Tools
sample_tools = record {
  crates = sample;
  from_str = λ _. ok (object no_members);
  to_string = λ _. ok (chars "{}");
  json_serde = record {
    serialized = λ _. ok (map no_entries);
    deserialized = λ _. some (object no_members);
  };
  parse_str = λ _. ok sample_tid;
  uuid_text = λ tid. sample.hexlower.encode tid;
}

abbrev seal_args : SealArgs
seal_args = record {
  octets = chars "0a";
  key = chars "mandate";
  alg = chars "0";
  encoding = chars "hex";
}

abbrev test_key : Bytes
test_key = elim (resolve_key sample (chars "mandate")) [ ok bs ↦ bs | _ ↦ [] ]

cmd_open-cmd_seal_example :
    (half : Text) × (cmd_seal sample_tools seal_args (ok []) ≡ ok (printed half))
    × (cmd_open sample_tools
          (record { half = half; key = chars "mandate"; alg = chars "0"; encoding = chars "hex" })
        ≡ ok (printed (encode sample (10 ∷ []) hex)))
unfolding read_input parse_alg parse_encoding resolve_key decode obsigil_rs.Encoding.decode
    obsigil_rs.Utf8.as_bytes
cmd_open-cmd_seal_example =
    cmd_open-cmd_seal sample_tools sample_codecs sample_aead seal_args (ok []) (ok []) (chars "0a")
      (10 ∷ []) test_key siv hex refl refl (omega arith, tt) refl refl refl tt

abbrev pub verify_args : VerifyArgs
verify_args = record {
  token = chars "-";
  key = sample.hexlower.encode sample_key.bytes ∷ [];
  audience = some (chars "api");
  leeway = 5;
  now = some (pos 1704070000);
  reason = true;
}

-- The token comes from standard input, between blanks.
abbrev piped : Stdin
piped = ok (32 ∷ (sample_token ++ chars "\n"))

clauses_printed : cmd_clauses sample_tools none verify_args piped ≡ ok (printed (chars "{}"))
unfolding cmd_clauses read_input resolve_key obsigil_rs.Key.from_bytes obsigil_rs.Verify.clauses
    obsigil_rs.Verify.authenticate obsigil_rs.Token.parse obsigil_rs.Lowlevel.decode
    obsigil_rs.Encoding.decode obsigil_rs.Utf8.as_bytes obsigil_rs.Aead.opened
    obsigil_rs.Serial.Read.from_mandate_plaintext obsigil_rs.Serial.contains_nan
    obsigil_rs.Serial.has_invalid_map_key obsigil_rs.Serial.canonicalize
    obsigil_rs.Sort.sort_by_cached_key obsigil_rs.Sort.insert obsigil_rs.Sort.leb_bytes
    obsigil_rs.Serial.classify obsigil_rs.Serial.Read.read_tid obsigil_rs.Serial.Read.read_int
    obsigil_rs.Serial.Read.read_aud obsigil_rs.Types.tid_issued_at
clauses_printed = refl

cmd_clauses-outcome_example :
    (token : Text) × (keys : List MandateKey) × IsAsked sample_tools verify_args piped token keys
    × IsAnswer sample_tools none verify_args keys token (printed (chars "{}"))
cmd_clauses-outcome_example =
    cmd_clauses-outcome sample_tools none verify_args piped (printed (chars "{}")) clauses_printed

abbrev mint_args : MintArgs
mint_args = record {
  key = chars "manifest";
  exp = some (pos 1704070800);
  ttl = none;
  tid = none;
  aud = [];
  sub = none;
  iss = none;
  alg = chars "0";
  encoding = chars "b64";
  fields = none;
  manifest_iss = none;
  manifest_fields = none;
  manifest_alg = chars "0";
}

abbrev platform : Platform
platform = record { clock = none; fresh = sample_tid; random = sample_key.bytes }

-- The usage error of `cmd_mint` at these arguments.
abbrev misuse : Output
misuse = record {
  stdout = [];
  stderr = chars "error: " ++ (display_key is_manifest_key ++ chars "\n");
  code = usage;
}

main_misused : main sample_tools platform (mint mint_args) (ok []) ≡ ok misuse
unfolding main obsigil_rs.Cli.Run.run cmd_mint resolve_key obsigil_rs.Key.from_bytes
main_misused = refl

main-Ends_example : Ends sample_tools platform (mint mint_args) (ok []) misuse
main-Ends_example = main-Ends sample_tools platform (mint mint_args) (ok []) misuse main_misused

-- No token at all, and a token that has expired.
abbrev malformed_args : VerifyArgs
malformed_args = record verify_args { token = chars "x"; reason = false }

abbrev late_args : VerifyArgs
late_args = record verify_args { now = some (pos 2000000000); reason = false }

malformed_rejected :
    cmd_clauses sample_tools none malformed_args (ok [])
    ≡ ok (rejected sample_tools false malformed)
unfolding cmd_clauses read_input resolve_key obsigil_rs.Key.from_bytes obsigil_rs.Verify.clauses
    obsigil_rs.Verify.authenticate obsigil_rs.Token.parse obsigil_rs.Lowlevel.decode
    obsigil_rs.Encoding.decode obsigil_rs.Utf8.as_bytes
malformed_rejected = refl

late_rejected :
    cmd_clauses sample_tools none late_args piped ≡ ok (rejected sample_tools false expired)
unfolding cmd_clauses read_input resolve_key obsigil_rs.Key.from_bytes obsigil_rs.Verify.clauses
    obsigil_rs.Verify.authenticate obsigil_rs.Token.parse obsigil_rs.Lowlevel.decode
    obsigil_rs.Encoding.decode obsigil_rs.Utf8.as_bytes obsigil_rs.Aead.opened
    obsigil_rs.Serial.Read.from_mandate_plaintext obsigil_rs.Serial.contains_nan
    obsigil_rs.Serial.has_invalid_map_key obsigil_rs.Serial.canonicalize
    obsigil_rs.Sort.sort_by_cached_key obsigil_rs.Sort.insert obsigil_rs.Sort.leb_bytes
    obsigil_rs.Serial.classify obsigil_rs.Serial.Read.read_tid obsigil_rs.Serial.Read.read_int
    obsigil_rs.Serial.Read.read_aud
late_rejected = refl

cmd_clauses-uniform_example :
    rejected sample_tools false malformed ≡ rejected sample_tools false expired
cmd_clauses-uniform_example =
    cmd_clauses-uniform sample_tools none none malformed_args late_args (ok []) piped
      (rejected sample_tools false malformed) (rejected sample_tools false expired)
      malformed_rejected late_rejected refl refl refl refl
