-- ===== src/Serial.antt =====
-- obsigil/src/serial.rs: field values to canonical CBOR, and canonical CBOR to field values.
pub mod Checks
pub mod Canonical
pub mod Write
pub mod Read
pub mod Strict
pub mod Keys
pub mod Loop
pub mod Assemble
pub mod Fields
pub mod App
pub mod RoundTrip
pub mod Manifest
pub mod Typed
pub mod Total
pub mod Unportable
pub mod Spoils
pub mod FieldTypes
pub mod Reasons
pub mod Unique
pub mod FieldValues
pub mod Moves
pub mod Rewritten
pub mod ManifestTotal
use obsigil_rs.Prelude.{
  ℕ, ◌/◌, Bool, true, false, ◌||◌, not, Option, none, some, List, [], ◌∷◌, ◌==◌, if◌then◌else◌, ℤ,
  negsuc, ◌==ℤ◌,
}
use obsigil_rs.Types.{Bytes}
use obsigil_rs.Cbor.{
  Value, Items, Entries, Pairs, integer, bytes, float, text, boolean, null, tag, array, map,
  no_items, item, no_entries, entry, to_list, from_list, is_nan,
}
use obsigil_rs.Sort.{sort_by_cached_key}
use obsigil_rs.Crates.{Crates}

abbrev pub key_tid : ℤ
key_tid = negsuc 0

abbrev pub key_exp : ℤ
key_exp = negsuc 1

abbrev pub key_aud : ℤ
key_aud = negsuc 2

abbrev pub key_sub : ℤ
key_sub = negsuc 3

abbrev pub key_iss : ℤ
key_iss = negsuc 4

abbrev pub reserved_keys : List ℤ
reserved_keys = key_tid ∷ key_exp ∷ key_aud ∷ key_sub ∷ key_iss ∷ []

abbrev pub ikey : ℤ → Value
ikey n = integer n

-- `k == &ikey(n)`
abbrev pub is_ikey : Value → ℤ → Bool
is_ikey (integer i) n = i ==ℤ n
is_ikey _ n = false

-- `matches!(k, Value::Integer(_) | Value::Text(_))`
abbrev pub is_integer_or_text : Value → Bool
is_integer_or_text (integer i) = true
is_integer_or_text (text s) = true
is_integer_or_text _ = false

unfoldable mutual
  pub contains_nan : Value → Bool
  contains_nan (float f) = is_nan f
  contains_nan (array xs) = any_nan xs
  contains_nan (map es) = any_nan_entry es
  contains_nan (tag n v) = contains_nan v
  contains_nan _ = false

  pub any_nan : Items → Bool
  any_nan no_items = false
  any_nan (item v xs) = contains_nan v || any_nan xs

  pub any_nan_entry : Entries → Bool
  any_nan_entry no_entries = false
  any_nan_entry (entry k v es) = contains_nan k || contains_nan v || any_nan_entry es

unfoldable mutual
  pub has_invalid_map_key : Value → Bool
  has_invalid_map_key (map es) = any_invalid_entry es
  has_invalid_map_key (array xs) = any_invalid_item xs
  has_invalid_map_key (tag n v) = has_invalid_map_key v
  has_invalid_map_key _ = false

  pub any_invalid_item : Items → Bool
  any_invalid_item no_items = false
  any_invalid_item (item v xs) = has_invalid_map_key v || any_invalid_item xs

  pub any_invalid_entry : Entries → Bool
  any_invalid_entry no_entries = false
  any_invalid_entry (entry k v es) =
      not (is_integer_or_text k) || has_invalid_map_key v || any_invalid_entry es

pub data KeyKind : Type 0 where
  reserved : ℤ → KeyKind
  unknown_reserved app invalid : KeyKind

module _ (x : Crates) where
  -- `encode` of serial.rs
  abbrev pub encode : Value → Bytes
  encode v = x.into_writer v

  -- the key by which the entries of a map are sorted
  abbrev pub entry_key : Value × Value → Bytes
  entry_key (k, v) = encode k

  unfoldable mutual
    pub canonicalize : Value → Value
    canonicalize (map es) =
        map (from_list (sort_by_cached_key entry_key (to_list (canonicalize_entries es))))
    canonicalize (array xs) = array (canonicalize_items xs)
    canonicalize (tag n v) = tag n (canonicalize v)
    canonicalize v = v

    pub canonicalize_items : Items → Items
    canonicalize_items no_items = no_items
    canonicalize_items (item v xs) = item (canonicalize v) (canonicalize_items xs)

    pub canonicalize_entries : Entries → Entries
    canonicalize_entries no_entries = no_entries
    canonicalize_entries (entry k v es) =
        entry (canonicalize k) (canonicalize v) (canonicalize_entries es)

  -- `encode(k).first().is_some_and(|b| b >> 5 == 1)`
  pub starts_negative : Bytes → Bool
  starts_negative [] = false
  starts_negative (b ∷ bs) = b / 32 == 1

  unfoldable pub is_negative_int : Value → Bool
  unfolding starts_negative
  is_negative_int (integer i) = starts_negative (encode (integer i))
  is_negative_int _ = false

  -- the loop `for n in RESERVED`
  pub find_reserved : Value → List ℤ → Option ℤ
  find_reserved k [] = none
  find_reserved k (n ∷ ns) = if is_ikey k n then some n else find_reserved k ns

  unfoldable pub classify : Value → KeyKind
  unfolding find_reserved is_negative_int
  classify k = elim (find_reserved k reserved_keys) [
    | some n ↦ reserved n
    | none ↦
        if is_negative_int k
        then unknown_reserved
        else if is_integer_or_text k
        then app
        else invalid
  ]
