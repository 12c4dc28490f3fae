-- ===== src/Examples/Piped.antt =====
-- `obsigil mint .. | obsigil clauses -` at concrete arguments.
use obsigil_rs.Prelude.{true, ◌≡◌, refl, none, some, [], ◌∷◌, arith, All, length, ok}
use obsigil_rs.Types.{Bytes, siv, hex, b64, Encoding}
use obsigil_rs.Types.IssuedAt.{IsByte}
use obsigil_rs.Errors.{chars}
use obsigil_rs.Cbor.{no_entries}
use obsigil_rs.Encoding.{codec_of}
use obsigil_rs.Mint.{Issuer, MintBuilder}
use obsigil_rs.Mint.EndToEnd.{IsMintable, IsReceiver, plaintext, value_of_plaintext}
use obsigil_rs.Serial.App.{IsAppValue}
use obsigil_rs.Cli.{MintArgs, Output}
use obsigil_rs.Cli.Json.{Json, object, no_members}
use obsigil_rs.Cli.Commands.{cmd_mint, cmd_clauses, mandate_keys, print_json, verifier_of}
use obsigil_rs.Cli.Trimmed.{IsSolid}
use obsigil_rs.Cli.Pipeline.{IsRead, builder_of, shown_clauses, cmd_clauses-cmd_mint}
use obsigil_rs.Verify.{aud_contains}
use obsigil_rs.Examples.Ciphers.{octets_of}
use obsigil_rs.Examples.Codecs.{hex-IsSolid}
use obsigil_rs.Examples.Sample.{
  sample, sample_codecs, sample_cbor, sample_aead, sample_key, sample_tid, sample_exp,
}
use obsigil_rs.Examples.Tool.{sample_tools, verify_args}

abbrev mint_args : MintArgs
mint_args = record {
  key = sample.hexlower.encode sample_key.bytes;
  exp = some sample_exp;
  ttl = none;
  tid = none;
  aud = chars "api" ∷ [];
  sub = some (chars "ann");
  iss = none;
  alg = chars "0";
  encoding = chars "hex";
  fields = none;
  manifest_iss = none;
  manifest_fields = none;
  manifest_alg = chars "0";
}

abbrev issuer : Issuer
issuer = record { key = sample_key; mandate_alg = siv; manifest_alg = siv; encoding = hex }

abbrev builder : MintBuilder Json
builder = builder_of mint_args issuer (object no_members) sample_exp none none

args-IsRead :
    IsRead sample_tools none mint_args (ok []) issuer (object no_members) sample_exp none none
unfolding obsigil_rs.Cli.read_input obsigil_rs.Cli.parse_alg obsigil_rs.Cli.parse_encoding
    obsigil_rs.Cli.resolve_key obsigil_rs.Key.from_bytes obsigil_rs.Lowlevel.decode
    obsigil_rs.Encoding.decode obsigil_rs.Utf8.as_bytes
args-IsRead = record {
  key = refl;
  alg = refl;
  manifest_alg = refl;
  encoding = refl;
  fields = chars "{}";
  later = ok [];
  reads = refl;
  parses = refl;
  dated = refl;
  named = refl;
  shown = refl;
}

app_carried : IsAppValue sample sample_tools.json_serde (object no_members) no_entries
app_carried = record {
  serialized = refl;
  keys = tt;
  no_nan = refl;
  portable = refl;
  distinct = tt;
  deserialized = refl;
}

mintable : IsMintable sample sample_tools.json_serde sample_tid builder sample_exp no_entries
mintable = record {
  has_exp = refl;
  in_range = refl;
  audience = refl;
  version = refl;
  variant = refl;
  octets = refl;
  key = refl;
  app = app_carried;
  manifest = tt;
  mandate_enabled = tt;
  manifest_enabled = tt;
}

abbrev plain : Bytes
plain = plaintext sample sample_tools.json_serde sample_tid builder sample_exp no_entries

plain_reads :
    sample.from_reader plain
    ≡ some
        (value_of_plaintext sample sample_tools.json_serde sample_tid builder sample_exp no_entries)
unfolding obsigil_rs.Serial.Write.assemble obsigil_rs.Serial.canonicalize
    obsigil_rs.Sort.sort_by_cached_key obsigil_rs.Sort.insert obsigil_rs.Sort.leb_bytes
plain_reads = refl

plain_bytes : All IsByte plain
unfolding obsigil_rs.Serial.Write.assemble obsigil_rs.Serial.canonicalize
    obsigil_rs.Sort.sort_by_cached_key obsigil_rs.Sort.insert obsigil_rs.Sort.leb_bytes
plain_bytes = octets_of plain refl

short : length plain ≡ 112
unfolding obsigil_rs.Serial.Write.assemble obsigil_rs.Serial.canonicalize
    obsigil_rs.Sort.sort_by_cached_key obsigil_rs.Sort.insert obsigil_rs.Sort.leb_bytes
short = refl

receiver :
    IsReceiver sample sample_tools.json_serde plain issuer
      (verifier_of sample_tools verify_args (sample_key ∷ []))
receiver = record {
  fits = omega (arith, short);
  bound = omega arith;
  before = [];
  after = [];
  ring = refl;
  closed = λ sealed t. tt;
}

named : aud_contains sample (chars "api" ∷ []) (chars "api") ≡ true
unfolding aud_contains obsigil_rs.Utf8.as_bytes
named = refl

solid : (e : Encoding) (b : Bytes) → IsSolid ((codec_of sample e).encode b)
solid b64 b = hex-IsSolid b
solid hex b = hex-IsSolid b

cmd_clauses-cmd_mint_example :
    (o : Output) × (cmd_mint sample_tools none sample_tid mint_args (ok []) ≡ ok o)
    × (cmd_clauses sample_tools none verify_args (ok o.stdout)
        ≡ print_json sample_tools
            (shown_clauses sample_tools mint_args (object no_members) sample_exp sample_tid))
cmd_clauses-cmd_mint_example =
    cmd_clauses-cmd_mint sample_tools sample_codecs solid sample_aead sample_cbor none sample_tid
      mint_args (ok []) issuer (object no_members) sample_exp none none no_entries args-IsRead
      mintable plain_reads plain_bytes none verify_args (sample_key ∷ []) refl refl resolves
      receiver (omega arith) (chars "api", refl, named)
  where
    resolves : mandate_keys sample_tools verify_args.key ≡ ok (sample_key ∷ [])
    resolves =
        unfold obsigil_rs.Cli.resolve_key obsigil_rs.Key.from_bytes obsigil_rs.Lowlevel.decode
          obsigil_rs.Encoding.decode obsigil_rs.Utf8.as_bytes in
        refl
