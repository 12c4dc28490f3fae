-- ===== src/Examples/Texts.antt =====
-- The properties of the parser, the types, the keys and the CBOR forms, at concrete values.
use obsigil_rs.Prelude.{◌/◌, ◌≡◌, refl, some, [], ◌∷◌, arith, length, pos, negsuc, List, ok, err}
use obsigil_rs.Types.{Text, hex, tid_issued_at}
use obsigil_rs.Types.IssuedAt.{big_endian, tid_issued_at-big_endian}
use obsigil_rs.Errors.{chars, non_canonical}
use obsigil_rs.Token.Grammar.{IsToken, render}
use obsigil_rs.Token.Accepts.{parse-eq-ok_iff}
use obsigil_rs.Cbor.{Value, integer, float, text, null, map, no_entries, entry, from_list}
use obsigil_rs.Encoding.{decode}
use obsigil_rs.Key.{from_hex}
use obsigil_rs.Key.FromHex.{IsSecret, from_hex-eq-ok_iff}
use obsigil_rs.Serial.{KeyKind, unknown_reserved, canonicalize, encode, classify}
use obsigil_rs.Serial.Canonical.{IsCanonical, canonicalize-IsCanonical}
use obsigil_rs.Serial.Keys.{classify-eq-kind_of}
use obsigil_rs.Serial.Strict.{IsStrict, strict_map-eq-ok_iff}
use obsigil_rs.Serial.Read.{strict_map}
use obsigil_rs.Examples.Items.{write}
use obsigil_rs.Examples.Sample.{sample, sample_cbor, sample_key, sample_tid}
use obsigil_rs.Examples.Computed.{
  sample_token, sample_parsed, sample_plain, sample_pairs, sample_parse, sample_strict,
}

parse-eq-ok_iff_example : IsToken sample_parsed × (sample_token ≡ render sample_parsed)
parse-eq-ok_iff_example = (parse-eq-ok_iff sample_token sample_parsed).0 sample_parse

tid_issued_at-big_endian_example :
    tid_issued_at sample_tid
    ≡ pos (big_endian 0 (0x01 ∷ 0x8c ∷ 0xc2 ∷ 0x51 ∷ 0xf4 ∷ 0x00 ∷ []) / 1000)
tid_issued_at-big_endian_example =
    tid_issued_at-big_endian 0x01 0x8c 0xc2 0x51 0xf4 0x00
      (0x70 ∷ 0x01 ∷ 0x80 ∷ 0x02 ∷ 0x03 ∷ 0x04 ∷ 0x05 ∷ 0x06 ∷ 0x07 ∷ 0x08 ∷ [])
      (omega arith, (omega arith, (omega arith, (omega arith, (omega arith, (omega arith, tt))))))

abbrev hex_key : Text
hex_key = sample.hexlower.encode sample_key.bytes

from_hex-eq-ok_iff_example :
    (decode sample hex_key hex ≡ some sample_key.bytes)
    × (length sample_key.bytes ≡ 64)
    × IsSecret sample_key.bytes
from_hex-eq-ok_iff_example = (from_hex-eq-ok_iff sample hex_key sample_key).0 read
  where
    read : from_hex sample hex_key ≡ ok sample_key
    read = unfold from_hex decode obsigil_rs.Utf8.as_bytes in refl

abbrev unordered : Value
unordered = map (entry (text (chars "b")) null (entry (integer (pos 1)) (float 0) no_entries))

canonicalize-IsCanonical_example : IsCanonical sample (canonicalize sample unordered)
canonicalize-IsCanonical_example = canonicalize-IsCanonical sample unordered

classify-eq-kind_of_example : classify sample (integer (negsuc 7)) ≡ unknown_reserved
classify-eq-kind_of_example = classify-eq-kind_of sample sample_cbor (integer (negsuc 7))

strict_map-eq-ok_iff_example : IsStrict sample sample_plain sample_pairs
strict_map-eq-ok_iff_example =
    (strict_map-eq-ok_iff sample sample_plain sample_pairs).0 sample_strict

-- A map inside an application value: the entries may repeat a key.
abbrev twice : List (Value × Value)
twice =
    (
      text (chars "a"),
      map (entry (integer (pos 1)) null (entry (integer (pos 1)) (integer (pos 2)) no_entries)),
    )
    ∷ []

nested_duplicate : strict_map sample (write (map (from_list twice))) ≡ ok twice
unfolding strict_map obsigil_rs.Serial.contains_nan obsigil_rs.Serial.has_invalid_map_key
    canonicalize obsigil_rs.Sort.sort_by_cached_key obsigil_rs.Sort.insert obsigil_rs.Sort.leb_bytes
nested_duplicate = refl

-- On the top level they may not.
top_duplicate :
    strict_map sample
      (write (map (entry (integer (pos 1)) null (entry (integer (pos 1)) null no_entries))))
    ≡ err non_canonical
unfolding strict_map obsigil_rs.Serial.contains_nan obsigil_rs.Serial.has_invalid_map_key
    canonicalize obsigil_rs.Sort.sort_by_cached_key obsigil_rs.Sort.insert obsigil_rs.Sort.leb_bytes
top_duplicate = refl
