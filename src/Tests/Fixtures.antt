-- ===== src/Tests/Fixtures.antt =====
-- The crates at which the tests run: base64url as RFC 4648 has it, and a cipher with a check sum.
use obsigil_rs.Prelude.{
  ℕ, zero, suc, ◌+◌, ◌-◌, ◌*◌, ◌/◌, ◌%◌, true, Option, none, some, List, [], ◌∷◌, ◌++◌, leb, ltb,
  pos, ◌==◌, ◌&&◌, if◌then◌else◌, bytes_eq, Result, ok, err, panic,
}
use obsigil_rs.Types.{Char, Text, Bytes}
use obsigil_rs.Errors.{chars}
use obsigil_rs.Cbor.{Value, Entries, integer, text, null, map, no_entries, entry}
use obsigil_rs.Reserved.{NoApp, no_app}
use obsigil_rs.Crates.{Codec, Crates, Serde}
use obsigil_rs.Examples.Ciphers.{fill}
use obsigil_rs.Examples.Sample.{sample}

-- `unwrap()`, and what follows of the value.
abbrev pub Unwraps {ℓ κ} : {E : Type ℓ} {A : Type κ} → Result E A → (A → Type 0) → Type 0
Unwraps (ok a) P = P a
Unwraps (err e) P = ⊥
Unwraps panic P = ⊥

-- `str::repeat`
abbrev pub repeat : Text → ℕ → Text
repeat s zero = []
repeat s (suc n) = s ++ repeat s n

-- `[b; n]`
abbrev pub replicate : ℕ → ℕ → Bytes
replicate b zero = []
replicate b (suc n) = b ∷ replicate b n

abbrev symbol : ℕ → Char
symbol n =
    if ltb n 26
    then 65 + n
    else if ltb n 52
    then 71 + n
    else if ltb n 62
    then n - 4
    else if n == 62
    then b'-'
    else b'_'

abbrev value : Char → Option ℕ
value c =
    if leb 65 c && leb c 90
    then some (c - 65)
    else if leb 97 c && leb c 122
    then some (c - 71)
    else if leb 48 c && leb c 57
    then some (c + 4)
    else if c == b'-'
    then some 62
    else if c == b'_'
    then some 63
    else none

abbrev base64_encode : Bytes → Text
base64_encode [] = []
base64_encode (a ∷ []) = symbol (a / 4) ∷ symbol (a % 4 * 16) ∷ []
base64_encode (a ∷ b ∷ []) =
    symbol (a / 4) ∷ symbol (a % 4 * 16 + b / 16) ∷ symbol (b % 16 * 4) ∷ []
base64_encode (a ∷ b ∷ c ∷ rest) =
    symbol (a / 4)
    ∷ symbol (a % 4 * 16 + b / 16)
    ∷ symbol (b % 16 * 4 + c / 64)
    ∷ symbol (c % 64)
    ∷ base64_encode rest

-- The values of all characters.
abbrev values : Bytes → Option (List ℕ)
values [] = some []
values (c ∷ cs) = elim (value c) [
  | none ↦ none
  | some n ↦ elim (values cs) [ none ↦ none | some ns ↦ some (n ∷ ns) ]
]

abbrev prefixed : Bytes → Option Bytes → Option Bytes
prefixed bs none = none
prefixed bs (some rest) = some (bs ++ rest)

-- Bits that are left over are zero.
abbrev octets : List ℕ → Option Bytes
octets [] = some []
octets (p ∷ []) = none
octets (p ∷ q ∷ []) = if q % 16 == 0 then some ((p * 4 + q / 16) ∷ []) else none
octets (p ∷ q ∷ r ∷ []) =
    if r % 4 == 0 then some ((p * 4 + q / 16) ∷ (q % 16 * 16 + r / 4) ∷ []) else none
octets (p ∷ q ∷ r ∷ s ∷ rest) =
    prefixed ((p * 4 + q / 16) ∷ (q % 16 * 16 + r / 4) ∷ (r % 4 * 64 + s) ∷ []) (octets rest)

abbrev base64url : Codec
base64url = record {
  encode_len = λ n. (n * 4 + 2) / 3;
  encode = base64_encode;
  decode = λ cs. elim (values cs) [ none ↦ none | some ns ↦ octets ns ];
}

abbrev sum : Bytes → ℕ
sum [] = 0
sum (b ∷ bs) = b + sum bs

-- Sixteen bytes that depend on the key and on the plaintext.
abbrev check_sum : Bytes → Bytes → Bytes
check_sum key plain = fill 16 (sum key ∷ sum plain ∷ [])

abbrev split_at : ℕ → Bytes → Bytes × Bytes
split_at zero bs = ([], bs)
split_at (suc n) [] = ([], [])
split_at (suc n) (b ∷ bs) = let (front, rest) = split_at n bs in (b ∷ front, rest)

abbrev decrypt : Bytes → Bytes → Option Bytes
decrypt key sealed =
    let (found, plain) = split_at 16 sealed in
    if bytes_eq found (check_sum key plain) then some plain else none

abbrev pub crates : Crates
crates = record sample {
  base64url_nopad = base64url;
  siv_encrypt = λ key _ plain. some (check_sum key plain ++ plain);
  siv_decrypt = λ key _ sealed. decrypt key sealed;
  gcm_siv_feature = true;
  gcm_encrypt = λ key _ plain. some (check_sum key plain ++ plain);
  gcm_decrypt = λ key _ sealed. decrypt key sealed;
}

-- The struct `App` of the tests of serial.rs.
pub record App : Type 0 where
  pub role : Text
  pub n : ℕ

-- The value of a named field.
abbrev field : Text → Entries → Option Value
field name no_entries = none
field name (entry (text k) v es) = if bytes_eq k name then some v else field name es
field name (entry k v es) = field name es

abbrev app_of : Option Value → Option Value → Option App
app_of (some (text role)) (some (integer (pos n))) = some (record { role = role; n = n })
app_of _ _ = none

abbrev read_app : Value → Option App
read_app (map es) = app_of (field (chars "role") es) (field (chars "n") es)
read_app _ = none

-- What the derived implementations do on the values of the tests.
abbrev pub apps : Serde App
apps = record {
  serialized = λ a. ok (
      map (
        entry (text (chars "role")) (text a.role)
          (entry (text (chars "n")) (integer (pos a.n)) no_entries)));
  deserialized = read_app;
}

abbrev pub no_apps : Serde NoApp
no_apps = record { serialized = λ _. ok (map no_entries); deserialized = λ _. some no_app }

-- A `BTreeMap` as its pairs.
abbrev entries_of {ℓ κ} :
    {A : Type ℓ} {B : Type κ} → (A → Value) → (B → Value) → List (A × B) → Entries
entries_of f g [] = no_entries
entries_of f g ((a, b) ∷ ps) = entry (f a) (g b) (entries_of f g ps)

abbrev pub maps : {A B : Type 0} → (A → Value) → (B → Value) → Serde (List (A × B))
maps f g = record { serialized = λ ps. ok (map (entries_of f g ps)); deserialized = λ _. none }

-- A unit struct is null.
abbrev pub units : Serde (Unit {0})
units = record { serialized = λ _. ok null; deserialized = λ _. none }

abbrev only : Option Value → Option Text
only (some (text v)) = some v
only _ = none

-- A struct of one text, as its value.
abbrev pub named : Text → Serde Text
named name = record {
  serialized = λ v. ok (map (entry (text name) (text v) no_entries));
  deserialized = λ v. elim v [ map es ↦ only (field name es) | _ ↦ none ];
}
