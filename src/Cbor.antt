-- ===== src/Cbor.antt =====
-- The constructors of `ciborium::value::Value` that serial.rs builds and matches on, and f64.
-- An integer is its value, a text its characters, a float its 64-bit pattern.
pub mod Vectors
use obsigil_rs.Prelude.{ℕ, ◌/◌, ◌%◌, ◌^◌, Bool, not, ◌&&◌, List, [], ◌∷◌, ◌==◌, ℤ}
use obsigil_rs.Types.{Text, Bytes}

-- `Items` is the vector inside an array, `Entries` that inside a map.
mutual
  pub data Value : Type 0 where
    integer : ℤ → Value
    bytes : Bytes → Value
    float : ℕ → Value
    text : Text → Value
    boolean : Bool → Value
    null : Value
    tag : ℕ → Value → Value
    array : Items → Value
    map : Entries → Value

  pub data Items : Type 0 where
    no_items : Items
    item : Value → Items → Items

  pub data Entries : Type 0 where
    no_entries : Entries
    entry : Value → Value → Entries → Entries

-- The pairs of a map, as `Vec<(Value, Value)>`.
abbrev pub Pairs : Type 0
Pairs = List (Value × Value)

abbrev pub to_list : Entries → Pairs
to_list no_entries = []
to_list (entry k v es) = (k, v) ∷ to_list es

abbrev pub from_list : Pairs → Entries
from_list [] = no_entries
from_list ((k, v) ∷ ps) = entry k v (from_list ps)

abbrev pub items_to_list : Items → List Value
items_to_list no_items = []
items_to_list (item v xs) = v ∷ items_to_list xs

abbrev pub items_from_list : List Value → Items
items_from_list [] = no_items
items_from_list (v ∷ vs) = item v (items_from_list vs)

-- `f64::is_nan`: the exponent is all ones, and the fraction is not zero.
abbrev pub is_nan : ℕ → Bool
is_nan b = b / 2 ^ 52 % 2 ^ 11 == 2047 && not (b % 2 ^ 52 == 0)
