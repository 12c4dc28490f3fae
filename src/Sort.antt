-- ===== src/Sort.antt =====
-- `slice::sort_by_cached_key` with byte-string keys, which serial.rs calls: a stable sort.
pub mod Order
pub mod Laws
pub mod Kept
pub mod Unique
use obsigil_rs.Prelude.{Bool, true, false, List, [], ◌∷◌, ltb, if◌then◌else◌}
use obsigil_rs.Types.{Bytes}

-- The lexicographic order of `Vec<u8>`.
unfoldable pub leb_bytes : Bytes → Bytes → Bool
leb_bytes [] b = true
leb_bytes (x ∷ a) [] = false
leb_bytes (x ∷ a) (y ∷ b) = if ltb x y then true else if ltb y x then false else leb_bytes a b

module _ {A : Type 0} (key : A → Bytes) where
  -- in front of the first element with a key that is not lower
  unfoldable pub insert : A → List A → List A
  insert x [] = x ∷ []
  insert x (y ∷ ys) = if leb_bytes (key x) (key y) then x ∷ y ∷ ys else y ∷ insert x ys

  unfoldable pub sort_by_cached_key : List A → List A
  sort_by_cached_key [] = []
  sort_by_cached_key (x ∷ xs) = insert x (sort_by_cached_key xs)
