-- ===== src/Types/Codes.antt =====
-- The two tables of types.rs are inverse to each other: algorithm codes and separators.
use obsigil_rs.Prelude.{◌≡◌, refl, some, arith}
use obsigil_rs.Types.{Char, Alg, siv, gcm_siv, code, from_code}
use obsigil_rs.Types.{Encoding, b64, hex, separator, from_separator}

pub from_code-code : (a : Alg) → from_code (code a) ≡ some a
from_code-code siv = refl
from_code-code gcm_siv = refl

pub from_separator-separator : (e : Encoding) → from_separator (separator e) ≡ some e
from_separator-separator b64 = refl
from_separator-separator hex = refl

pub separator_of_some : (c : Char) (e : Encoding) → from_separator c ≡ some e → c ≡ separator e
separator_of_some c b64 h = ground arith
separator_of_some c hex h = ground arith

pub code_of_some : (c : Char) (a : Alg) → from_code c ≡ some a → c ≡ code a
code_of_some c siv h = ground arith
code_of_some c gcm_siv h = ground arith
