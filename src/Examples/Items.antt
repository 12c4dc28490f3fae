-- ===== src/Examples/Items.antt =====
-- A concrete CBOR writer and reader: every head has the eight-byte form, every length is definite.
use obsigil_rs.Prelude.{
  ℕ, zero, suc, ◌+◌, ◌*◌, ◌/◌, ◌%◌, ◌^◌, ◌<◌, ◌≡◌, refl, ap, true, false, Option, none, some, [],
  ◌∷◌, ◌++◌, arith, ◌==◌, if◌then◌else◌, length, ℤ, pos, negsuc, in_i64,
}
use obsigil_rs.Types.{Bytes}
use obsigil_rs.Cbor.{
  Value, Items, Entries, integer, bytes, float, text, boolean, null, tag, array, map, no_items,
  item, no_entries, entry, items_to_list, to_list,
}
use obsigil_rs.Crates.Laws.{negative_head, is_negative}

-- A number in eight bytes, the highest first.
abbrev eight : ℕ → Bytes
eight n =
    let a = n / 256 in
    let b = a / 256 in
    let c = b / 256 in
    let d = c / 256 in
    let e = d / 256 in
    let f = e / 256 in
    let g = f / 256 in
    g % 256 ∷ f % 256 ∷ e % 256 ∷ d % 256 ∷ c % 256 ∷ b % 256 ∷ a % 256 ∷ n % 256 ∷ []

abbrev eight_back : Bytes → Option (ℕ × Bytes)
eight_back (g ∷ f ∷ e ∷ d ∷ c ∷ b ∷ a ∷ z ∷ rest) =
    some (((((((g * 256 + f) * 256 + e) * 256 + d) * 256 + c) * 256 + b) * 256 + a) * 256 + z, rest)
eight_back _ = none

whole :
    (n : ℕ)
    → n < 2 ^ 63
    → ((((((n / 256 / 256 / 256 / 256 / 256 / 256 / 256 % 256 * 256
                                + n / 256 / 256 / 256 / 256 / 256 / 256 % 256)
                              * 256
                            + n / 256 / 256 / 256 / 256 / 256 % 256)
                          * 256
                        + n / 256 / 256 / 256 / 256 % 256)
                      * 256
                    + n / 256 / 256 / 256 % 256)
                  * 256
                + n / 256 / 256 % 256)
              * 256
            + n / 256 % 256)
          * 256
        + n % 256
      ≡ n
whole n h = omega arith

abbrev head : ℕ → ℕ → Bytes
head major n = (major * 32 + 27) ∷ eight n

abbrev mutual
  pub write : Value → Bytes
  write (integer (pos n)) = head 0 n
  write (integer (negsuc n)) = head 1 n
  write (bytes b) = head 2 (length b) ++ b
  write (text s) = head 3 (length s) ++ s
  write (array xs) = head 4 (length (items_to_list xs)) ++ write_items xs
  write (map es) = head 5 (length (to_list es)) ++ write_entries es
  write (tag n v) = head 6 n ++ write v
  write (boolean false) = 244 ∷ []
  write (boolean true) = 245 ∷ []
  write null = 246 ∷ []
  write (float f) = 251 ∷ eight f

  write_items : Items → Bytes
  write_items no_items = []
  write_items (item v xs) = write v ++ write_items xs

  write_entries : Entries → Bytes
  write_entries no_entries = []
  write_entries (entry k v es) = write k ++ (write v ++ write_entries es)

pub data Kind : Type 0 where
  a_pos a_neg a_bytes a_text an_array a_map a_tag a_float bad : Kind
  simple : Value → Kind

abbrev kind : ℕ → Kind
kind c =
    if c == 27
    then a_pos
    else if c == 59
    then a_neg
    else if c == 91
    then a_bytes
    else if c == 123
    then a_text
    else if c == 155
    then an_array
    else if c == 187
    then a_map
    else if c == 219
    then a_tag
    else if c == 251
    then a_float
    else if c == 244
    then simple (boolean false)
    else if c == 245
    then simple (boolean true)
    else if c == 246
    then simple null
    else bad

abbrev split_at : ℕ → Bytes → Option (Bytes × Bytes)
split_at zero bs = some ([], bs)
split_at (suc n) [] = none
split_at (suc n) (b ∷ bs) = elim (split_at n bs) [
  | none ↦ none
  | some (front, rest) ↦ some (b ∷ front, rest)
]

abbrev string_of : (Bytes → Value) → Option (Bytes × Bytes) → Option (Value × Bytes)
string_of f none = none
string_of f (some (front, rest)) = some (f front, rest)

abbrev mutual
  read : ℕ → Bytes → Option (Value × Bytes)
  read zero bs = none
  read (suc fuel) [] = none
  read (suc fuel) (c ∷ bs) = read_body fuel (kind c) (eight_back bs) bs

  read_body : ℕ → Kind → Option (ℕ × Bytes) → Bytes → Option (Value × Bytes)
  read_body fuel (simple v) o bs = some (v, bs)
  read_body fuel bad o bs = none
  read_body fuel a_pos (some (n, rest)) bs = some (integer (pos n), rest)
  read_body fuel a_neg (some (n, rest)) bs = some (integer (negsuc n), rest)
  read_body fuel a_float (some (n, rest)) bs = some (float n, rest)
  read_body fuel a_bytes (some (n, rest)) bs = string_of bytes (split_at n rest)
  read_body fuel a_text (some (n, rest)) bs = string_of text (split_at n rest)
  read_body (suc fuel) a_tag (some (n, rest)) bs = elim (read fuel rest) [
    | none ↦ none
    | some (v, after) ↦ some (tag n v, after)
  ]
  read_body (suc fuel) an_array (some (n, rest)) bs = elim (read_items fuel n rest) [
    | none ↦ none
    | some (xs, after) ↦ some (array xs, after)
  ]
  read_body (suc fuel) a_map (some (n, rest)) bs = elim (read_entries fuel n rest) [
    | none ↦ none
    | some (es, after) ↦ some (map es, after)
  ]
  read_body _ _ _ bs = none

  read_items : ℕ → ℕ → Bytes → Option (Items × Bytes)
  read_items zero n bs = none
  read_items (suc fuel) zero bs = some (no_items, bs)
  read_items (suc fuel) (suc n) bs = elim (read fuel bs) [
    | none ↦ none
    | some (v, rest) ↦ elim (read_items fuel n rest) [
      | none ↦ none
      | some (xs, after) ↦ some (item v xs, after)
    ]
  ]

  read_entries : ℕ → ℕ → Bytes → Option (Entries × Bytes)
  read_entries zero n bs = none
  read_entries (suc fuel) zero bs = some (no_entries, bs)
  read_entries (suc fuel) (suc n) bs = elim (read fuel bs) [
    | none ↦ none
    | some (k, rest) ↦ elim (read fuel rest) [
      | none ↦ none
      | some (v, later) ↦ elim (read_entries fuel n later) [
        | none ↦ none
        | some (es, after) ↦ some (entry k v es, after)
      ]
    ]
  ]

abbrev pub read_all : Bytes → Option Value
read_all bs = elim (read (suc (2 * length bs)) bs) [ none ↦ none | some (v, rest) ↦ some v ]

pub read_integer : (i : ℤ) → in_i64 i ≡ true → read_all (write (integer i)) ≡ some (integer i)
read_integer (pos n) h = ap (λ (m : ℕ). some (integer (pos m))) (whole n (ground arith))
read_integer (negsuc n) h = ap (λ (m : ℕ). some (integer (negsuc m))) (whole n (ground arith))

pub write_head : (v : Value) → negative_head (write v) ≡ is_negative v
write_head (integer (pos n)) = refl
write_head (integer (negsuc n)) = refl
write_head (boolean false) = refl
write_head (boolean true) = refl
write_head _ = refl
