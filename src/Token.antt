-- ===== src/Token.antt =====
-- obsigil/src/token.rs: a token is split at its one separator, and each half has a code character.
pub mod Slices
pub mod Split
pub mod Grammar
pub mod Accepts
use obsigil_rs.Prelude.{
  ℕ, ◌+◌, ◌-◌, ◌≡◌, Bool, true, false, ◌&&◌, ◌||◌, not, Option, none, some, List, [], ◌∷◌, leb, ltb,
  ◌==◌, if◌then◌else◌, is_empty, Result, ok, err, panic, ◌>>=◌, ◌>>◌, reject_if, expect, is_none,
}
use obsigil_rs.Types.{Char, Text, Encoding, from_separator}

-- `char::len_utf8` and the byte length `str::len`.
abbrev pub len_utf8 : Char → ℕ
len_utf8 c = if ltb c 0x80 then 1 else if ltb c 0x800 then 2 else if ltb c 0x10000 then 3 else 4

unfoldable pub str_len : Text → ℕ
str_len [] = 0
str_len (c ∷ s) = len_utf8 c + str_len s

-- `&s[..n]` and `&s[n..]` at a byte offset: `none` is the panic at an offset that is no boundary
-- between characters or lies behind the end.
pub slice_to : Text → ℕ → Option Text
slice_to [] n = if n == 0 then some [] else none
slice_to (c ∷ s) n =
    let rest = slice_to s (n - len_utf8 c) in
    if n == 0
    then some []
    else if leb (len_utf8 c) n
    then elim rest [ none ↦ none | some t ↦ some (c ∷ t) ]
    else none

pub slice_from : Text → ℕ → Option Text
slice_from [] n = if n == 0 then some [] else none
slice_from (c ∷ s) n =
    let rest = slice_from s (n - len_utf8 c) in
    if n == 0 then some (c ∷ s) else if leb (len_utf8 c) n then rest else none

-- `chars().next()` and `chars().next_back()`
abbrev pub first_char : Text → Option Char
first_char [] = none
first_char (c ∷ s) = some c

pub last_char : Text → Option Char
last_char [] = none
last_char (c ∷ []) = some c
last_char (c ∷ d ∷ s) = last_char (d ∷ s)

pub record Half : Type 0 where
  pub alg_code : Char
  pub text : Text

pub record Parsed : Type 0 where
  pub encoding : Encoding
  pub separator : Char
  pub manifest : Option Half
  pub mandate : Option Half
  pub mandate_part : Text

pub data ParseError : Type 0 where
  empty separator_count degenerate_half both_absent bad_alg_char : ParseError

abbrev pub is_alg_char : Char → Bool
is_alg_char c = leb b'0' c && leb c b'9' || leb b'a' c && leb c b'z'

abbrev pub is_separator : Char → Bool
is_separator ch = ch == b'.' || ch == b'~'

-- The variables of the loop over `char_indices`.
pub record Scan : Type 0 where
  pub sep_index : Option ℕ
  pub sep_char : Char
  pub sep_count : ℕ

-- `i` is the byte offset of the first character of what is left.
pub scan_from : ℕ → Text → Scan → Scan
scan_from i [] v = v
scan_from i (ch ∷ s) v = scan_from (i + len_utf8 ch) s (
    if is_separator ch
    then record { sep_index = some i; sep_char = ch; sep_count = v.sep_count + 1 }
    else v)

pub scan : Text → Scan
scan input = scan_from 0 input (record { sep_index = none; sep_char = 0; sep_count = 0 })

-- The manifest part: ciphertext, then its code as the last character.
pub parse_before : Text → Result ParseError (Option Half)
parse_before [] = ok none
parse_before (c ∷ s) = do
  code ← expect (last_char (c ∷ s))
  text ← expect (slice_to (c ∷ s) (str_len (c ∷ s) - len_utf8 code))
  reject_if (is_empty text) degenerate_half
  reject_if (not (is_alg_char code)) bad_alg_char
  ok (some (record { alg_code = code; text = text }))

-- The mandate part: its code as the first character, then ciphertext.
pub parse_after : Text → Result ParseError (Option Half)
parse_after [] = ok none
parse_after (c ∷ s) = do
  code ← expect (first_char (c ∷ s))
  text ← expect (slice_from (c ∷ s) (len_utf8 code))
  reject_if (is_empty text) degenerate_half
  reject_if (not (is_alg_char code)) bad_alg_char
  ok (some (record { alg_code = code; text = text }))

-- `Encoding::from_separator(..).expect(..)` and the slices are steps that may panic.
pub split_at : Text → Scan → Result ParseError Parsed
split_at input v = do
  reject_if (not (v.sep_count == 1)) separator_count
  sep_index ← expect v.sep_index
  encoding ← expect (from_separator v.sep_char)
  before ← expect (slice_to input sep_index)
  after ← expect (slice_from input (sep_index + 1))
  manifest ← parse_before before
  mandate ← parse_after after
  reject_if (is_none manifest && is_none mandate) both_absent
  ok (record {
    encoding = encoding;
    separator = v.sep_char;
    manifest = manifest;
    mandate = mandate;
    mandate_part = after;
  })

unfoldable pub parse : Text → Result ParseError Parsed
unfolding split_at scan scan_from slice_to slice_from last_char str_len parse_before parse_after
parse [] = err empty
parse (c ∷ s) = split_at (c ∷ s) (scan (c ∷ s))
