-- ===== src/Token/Split.antt =====
-- How `parse` of token.rs finds the one separator, and what it does with the two parts.
use obsigil_rs.Prelude.{
  ℕ, suc, ◌+◌, ◌-◌, ◌≡◌, refl, ap, inl, inr, true, false, not, ◌&&◌, Option, none, some, [], ◌∷◌,
  ◌++◌, append_assoc, arith, ◌==◌, if◌then◌else◌, All, is_empty, Result, ok, ◌>>=◌, ◌>>◌, reject_if,
  expect, is_none, Bool-cases,
}
use obsigil_rs.Types.{Char, Text, Encoding, b64, hex, from_separator, separator}
use obsigil_rs.Types.Codes.{from_separator-separator}
use obsigil_rs.Token.{
  Half, Parsed, ParseError, degenerate_half, both_absent, bad_alg_char, Scan, len_utf8, str_len,
  slice_to, slice_from, last_char, is_alg_char, is_separator, scan_from, scan, parse_before,
  parse_after, split_at, parse,
}
use obsigil_rs.Token.Slices.{str_len-append, slice_to-append, slice_from-append}

abbrev pub Plain : Text → Type 0
Plain = All (λ c. is_separator c ≡ false)

-- How often a separator occurs.
pub separators : Text → ℕ
separators [] = 0
separators (c ∷ s) = if is_separator c then suc (separators s) else separators s

pub sep_count-scan_from :
    (i : ℕ) (s : Text) (v : Scan) → (scan_from i s v).sep_count ≡ v.sep_count + separators s
unfolding scan_from separators
sep_count-scan_from i [] v = omega arith
sep_count-scan_from i (c ∷ s) v = ground (
  arith,
  sep_count-scan_from (i + len_utf8 c) s v,
  sep_count-scan_from (i + len_utf8 c) s
      (record { sep_index = some i; sep_char = c; sep_count = v.sep_count + 1 }),
)

pub separators-Plain : (s : Text) → separators s ≡ 0 → Plain s
unfolding separators
separators-Plain [] h = tt
separators-Plain (c ∷ s) h = elim (Bool-cases (is_separator c)) [
  | inl y ↦ cc (rw y at h)
  | inr n ↦ (n, separators-Plain s (rw n at h))
]

pub scan_from-Plain : (i : ℕ) (s : Text) (v : Scan) → Plain s → scan_from i s v ≡ v
unfolding scan_from
scan_from-Plain i [] v h = refl
scan_from-Plain i (c ∷ s) v (n, h) = rw n (scan_from-Plain (i + len_utf8 c) s v h)

pub scan_from-split :
    (i : ℕ) (before after : Text) (ch : Char) (v : Scan)
    → Plain before
    → is_separator ch ≡ true
    → Plain after
    → scan_from i (before ++ ch ∷ after) v
      ≡ record { sep_index = some (i + str_len before); sep_char = ch; sep_count = v.sep_count + 1 }
unfolding scan_from str_len
scan_from-split i [] after ch v hb hc ha = ground (
  arith,
  scan_from-Plain (i + len_utf8 ch) after
      (record { sep_index = some i; sep_char = ch; sep_count = v.sep_count + 1 }) ha,
)
scan_from-split i (c ∷ before) after ch v (n, hb) hc ha =
    ground (arith, scan_from-split (i + len_utf8 c) before after ch v hb hc ha)

-- A text with exactly one separator.
pub record Split (s : Text) : Type 0 where
  pub before : Text
  pub ch : Char
  pub after : Text
  pub plain_before : Plain before
  pub is_sep : is_separator ch ≡ true
  pub plain_after : Plain after
  pub joined : s ≡ before ++ ch ∷ after

pub Split-of_one : (s : Text) → separators s ≡ 1 → Split s
unfolding separators
Split-of_one [] h = absurd (omega arith)
Split-of_one (c ∷ s) h = elim (Bool-cases (is_separator c)) [
  | inl y ↦ record {
    before = [];
    ch = c;
    after = s;
    plain_before = tt;
    is_sep = y;
    plain_after = separators-Plain s (let e = rw y at h in omega arith);
    joined = refl;
  }
  | inr n ↦
      let r = Split-of_one s (rw n at h) in
      record {
        before = c ∷ r.before;
        ch = r.ch;
        after = r.after;
        plain_before = (n, r.plain_before);
        is_sep = r.is_sep;
        plain_after = r.plain_after;
        joined = ap (λ (t : Text). c ∷ t) r.joined;
      }
]

-- What `parse` does once the two parts are cut out.
abbrev pub join_halves : Encoding → Text → Text → Result ParseError Parsed
join_halves e before after = do
  manifest ← parse_before before
  mandate ← parse_after after
  reject_if (is_none manifest && is_none mandate) both_absent
  ok (record {
    encoding = e;
    separator = separator e;
    manifest = manifest;
    mandate = mandate;
    mandate_part = after;
  })

pub parse_nonempty :
    (before after : Text) (ch : Char)
    → parse (before ++ ch ∷ after) ≡ split_at (before ++ ch ∷ after) (scan (before ++ ch ∷ after))
unfolding parse
parse_nonempty [] after ch = refl
parse_nonempty (c ∷ before) after ch = refl

slice_from_next :
    (before after : Text) (ch : Char)
    → is_separator ch ≡ true
    → slice_from (before ++ ch ∷ after) (str_len before + 1) ≡ some after
slice_from_next before after ch h =
    let e : str_len (before ++ ch ∷ []) ≡ str_len before + 1 =
      omega (arith, str_len-append before (ch ∷ []), one_byte) in
    rw (← e, ← append_assoc before (ch ∷ []) after) (slice_from-append (before ++ ch ∷ []) after)
  where
    one_byte : str_len (ch ∷ []) ≡ 1
    one_byte = unfold str_len in ground arith

pub from_separator_total :
    (ch : Char) → is_separator ch ≡ true → (e : Encoding) × (from_separator ch ≡ some e)
from_separator_total ch h = elim (Bool-cases (ch == b'.')) [
  | inl y ↦ (b64, ground arith)
  | inr n ↦ (hex, ground arith)
]

is_separator-separator : (e : Encoding) → is_separator (separator e) ≡ true
is_separator-separator b64 = refl
is_separator-separator hex = refl

scan-split :
    (e : Encoding) (before after : Text)
    → Plain before
    → Plain after
    → scan (before ++ separator e ∷ after)
      ≡ record { sep_index = some (str_len before); sep_char = separator e; sep_count = 1 }
unfolding scan
scan-split e before after hb ha = ground (
  arith,
  scan_from-split 0 before after (separator e)
      (record { sep_index = none; sep_char = 0; sep_count = 0 }) hb (is_separator-separator e) ha,
)

abbrev pub before_code : Text → Result ParseError (Option Half)
before_code s = do
  code ← expect (last_char s)
  text ← expect (slice_to s (str_len s - len_utf8 code))
  reject_if (is_empty text) degenerate_half
  reject_if (not (is_alg_char code)) bad_alg_char
  ok (some (record { alg_code = code; text = text }))

pub nonempty : (t : Text) (c : Char) → parse_before (t ++ c ∷ []) ≡ before_code (t ++ c ∷ [])
unfolding parse_before
nonempty [] c = refl
nonempty (d ∷ t) c = refl

pub parse_split :
    (e : Encoding) (before after : Text)
    → Plain before
    → Plain after
    → parse (before ++ separator e ∷ after) ≡ join_halves e before after
unfolding split_at
parse_split e before after hb ha = rw (
  parse_nonempty before after (separator e),
  scan-split e before after hb ha,
  from_separator-separator e,
  slice_to-append before (separator e ∷ after),
  slice_from_next before after (separator e) (is_separator-separator e),
)
