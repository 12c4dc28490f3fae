-- ===== src/Examples/Computed.antt =====
-- What the sample issuer makes of the sample token, computed.
use obsigil_rs.Prelude.{◌≡◌, refl, none, some, [], ◌∷◌, ◌++◌, ok, pos, negsuc}
use obsigil_rs.Types.{Text, Bytes, hex}
use obsigil_rs.Errors.{chars}
use obsigil_rs.Cbor.{Pairs, integer, bytes, text, array, no_items, item}
use obsigil_rs.Reserved.{Clauses}
use obsigil_rs.Token.{Parsed, parse}
use obsigil_rs.Verify.{authenticate, clauses, clauses_unchecked, mandate, manifest}
use obsigil_rs.Mint.{mint}
use obsigil_rs.Serial.{canonicalize}
use obsigil_rs.Serial.Read.{strict_map, from_mandate_plaintext}
use obsigil_rs.Examples.Sample.{
  sample, roles, sample_tid, sample_exp, sample_builder, sample_verifier, sample_fields,
}

-- The manifest half, and the mandate half without its code.
abbrev pub sample_manifest_text : Text
sample_manifest_text = chars "381284633d02ea5f35df8596b5cc4218010203"

abbrev pub sample_mandate_text : Text
sample_mandate_text =
    chars "0708090a0b0c0d0e0f10111213141516bb00000000000000051b00000000000000007b0000000000"
    ++ (chars "00000561646d696e3b00000000000000005b0000000000000010018cc251f4007001800203040506"
        ++ (chars "07083b00000000000000011b0000000065920e903b00000000000000029b00000000000000017b00"
            ++ (chars "000000000000036170693b00000000000000037b0000000000000003616e6e")))

abbrev pub sample_token : Text
sample_token = sample_manifest_text ++ b'1' ∷ b'~' ∷ b'0' ∷ sample_mandate_text

abbrev pub sample_half : Text
sample_half = b'~' ∷ b'0' ∷ sample_mandate_text

abbrev pub sample_manifest_half : Text
sample_manifest_half = sample_manifest_text ++ b'1' ∷ b'~' ∷ []

abbrev pub sample_parsed : Parsed
sample_parsed = record {
  encoding = hex;
  separator = b'~';
  manifest = some (record { alg_code = b'1'; text = sample_manifest_text });
  mandate = some (record { alg_code = b'0'; text = sample_mandate_text });
  mandate_part = b'0' ∷ sample_mandate_text;
}

abbrev pub sample_clauses : Clauses Text
sample_clauses = record { inner = sample_fields }

-- The canonical plaintext of the mandate.
abbrev pub sample_plain : Bytes
sample_plain =
    187 ∷ 0 ∷ 0 ∷ 0 ∷ 0 ∷ 0 ∷ 0 ∷ 0 ∷ 5 ∷ 27 ∷ 0 ∷ 0 ∷ 0 ∷ 0 ∷ 0 ∷ 0 ∷ 0 ∷ 0 ∷ 123 ∷ 0 ∷ 0 ∷ 0 ∷ 0
    ∷ 0 ∷ 0 ∷ 0 ∷ 5 ∷ 97 ∷ 100 ∷ 109 ∷ 105 ∷ 110 ∷ 59 ∷ 0 ∷ 0 ∷ 0 ∷ 0 ∷ 0 ∷ 0 ∷ 0 ∷ 0 ∷ 91 ∷ 0 ∷ 0
    ∷ 0 ∷ 0 ∷ 0 ∷ 0 ∷ 0 ∷ 16 ∷ 1 ∷ 140 ∷ 194 ∷ 81 ∷ 244 ∷ 0 ∷ 112 ∷ 1 ∷ 128 ∷ 2 ∷ 3 ∷ 4 ∷ 5 ∷ 6 ∷ 7
    ∷ 8 ∷ 59 ∷ 0 ∷ 0 ∷ 0 ∷ 0 ∷ 0 ∷ 0 ∷ 0 ∷ 1 ∷ 27 ∷ 0 ∷ 0 ∷ 0 ∷ 0 ∷ 101 ∷ 146 ∷ 14 ∷ 144 ∷ 59 ∷ 0
    ∷ 0 ∷ 0 ∷ 0 ∷ 0 ∷ 0 ∷ 0 ∷ 2 ∷ 155 ∷ 0 ∷ 0 ∷ 0 ∷ 0 ∷ 0 ∷ 0 ∷ 0 ∷ 1 ∷ 123 ∷ 0 ∷ 0 ∷ 0 ∷ 0 ∷ 0 ∷ 0
    ∷ 0 ∷ 3 ∷ 97 ∷ 112 ∷ 105 ∷ 59 ∷ 0 ∷ 0 ∷ 0 ∷ 0 ∷ 0 ∷ 0 ∷ 0 ∷ 3 ∷ 123 ∷ 0 ∷ 0 ∷ 0 ∷ 0 ∷ 0 ∷ 0 ∷ 0
    ∷ 3 ∷ 97 ∷ 110 ∷ 110 ∷ []

abbrev pub sample_pairs : Pairs
sample_pairs =
    (integer (pos 0), text (chars "admin"))
    ∷ (integer (negsuc 0), bytes sample_tid)
    ∷ (integer (negsuc 1), integer sample_exp)
    ∷ (integer (negsuc 2), array (item (text (chars "api")) no_items))
    ∷ (integer (negsuc 3), text (chars "ann"))
    ∷ []

pub sample-mint : mint sample roles sample_tid sample_builder ≡ ok sample_token
unfolding mint obsigil_rs.Serial.Write.to_mandate_plaintext obsigil_rs.Serial.is_negative_int
    obsigil_rs.Serial.contains_nan obsigil_rs.Aead.seal obsigil_rs.Encoding.encode_into canonicalize
    obsigil_rs.Sort.sort_by_cached_key obsigil_rs.Sort.insert obsigil_rs.Sort.leb_bytes
sample-mint = refl

pub sample_parse : parse sample_token ≡ ok sample_parsed
unfolding parse
sample_parse = refl

pub sample_mandate : mandate sample_token ≡ ok sample_half
unfolding mandate parse
sample_mandate = refl

pub sample_manifest : manifest sample_token ≡ ok sample_manifest_half
unfolding manifest parse
sample_manifest = refl

pub sample-authenticate : authenticate sample sample_verifier sample_token ≡ ok sample_plain
unfolding authenticate parse obsigil_rs.Encoding.decode obsigil_rs.Utf8.as_bytes
    obsigil_rs.Aead.opened
sample-authenticate = refl

pub sample_strict : strict_map sample sample_plain ≡ ok sample_pairs
unfolding strict_map obsigil_rs.Serial.contains_nan obsigil_rs.Serial.has_invalid_map_key
    canonicalize obsigil_rs.Sort.sort_by_cached_key obsigil_rs.Sort.insert obsigil_rs.Sort.leb_bytes
sample_strict = refl

pub sample_read : from_mandate_plaintext sample roles sample_plain ≡ ok sample_fields
unfolding from_mandate_plaintext obsigil_rs.Serial.contains_nan
    obsigil_rs.Serial.has_invalid_map_key canonicalize obsigil_rs.Sort.sort_by_cached_key
    obsigil_rs.Sort.insert obsigil_rs.Sort.leb_bytes obsigil_rs.Serial.classify
    obsigil_rs.Serial.Read.read_tid obsigil_rs.Serial.Read.read_int obsigil_rs.Serial.Read.read_aud
sample_read = refl

pub sample_verified : clauses sample roles none sample_verifier sample_token ≡ ok sample_clauses
unfolding clauses authenticate parse obsigil_rs.Encoding.decode obsigil_rs.Utf8.as_bytes
    obsigil_rs.Aead.opened from_mandate_plaintext obsigil_rs.Serial.contains_nan
    obsigil_rs.Serial.has_invalid_map_key canonicalize obsigil_rs.Sort.sort_by_cached_key
    obsigil_rs.Sort.insert obsigil_rs.Sort.leb_bytes obsigil_rs.Serial.classify
    obsigil_rs.Serial.Read.read_tid obsigil_rs.Serial.Read.read_int obsigil_rs.Serial.Read.read_aud
sample_verified = refl

pub sample_unchecked :
    clauses_unchecked sample roles sample_verifier sample_token ≡ ok sample_clauses
unfolding clauses_unchecked authenticate parse obsigil_rs.Encoding.decode obsigil_rs.Utf8.as_bytes
    obsigil_rs.Aead.opened from_mandate_plaintext obsigil_rs.Serial.contains_nan
    obsigil_rs.Serial.has_invalid_map_key canonicalize obsigil_rs.Sort.sort_by_cached_key
    obsigil_rs.Sort.insert obsigil_rs.Sort.leb_bytes obsigil_rs.Serial.classify
    obsigil_rs.Serial.Read.read_tid obsigil_rs.Serial.Read.read_int obsigil_rs.Serial.Read.read_aud
sample_unchecked = refl
