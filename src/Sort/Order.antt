-- ===== src/Sort/Order.antt =====
-- The lexicographic order of byte strings is a total order.
use obsigil_rs.Prelude.{◌≡◌, refl, true, false, [], ◌∷◌, arith}
use obsigil_rs.Types.{Bytes}
use obsigil_rs.Sort.{leb_bytes}

pub leb_bytes_refl : (a : Bytes) → leb_bytes a a ≡ true
unfolding leb_bytes
leb_bytes_refl [] = refl
leb_bytes_refl (x ∷ a) = ground (arith, leb_bytes_refl a)

pub leb_bytes-total : (a b : Bytes) → leb_bytes a b ≡ false → leb_bytes b a ≡ true
unfolding leb_bytes
leb_bytes-total [] b h = cc
leb_bytes-total (x ∷ a) [] h = refl
leb_bytes-total (x ∷ a) (y ∷ b) h = ground (arith, leb_bytes-total a b)

pub leb_bytes_trans :
    (a b c : Bytes) → leb_bytes a b ≡ true → leb_bytes b c ≡ true → leb_bytes a c ≡ true
unfolding leb_bytes
leb_bytes_trans [] b c h k = refl
leb_bytes_trans (x ∷ a) [] c h k = cc
leb_bytes_trans (x ∷ a) (y ∷ b) [] h k = cc
leb_bytes_trans (x ∷ a) (y ∷ b) (z ∷ c) h k = ground (arith, leb_bytes_trans a b c)

pub leb_bytes_antisymm : (a b : Bytes) → leb_bytes a b ≡ true → leb_bytes b a ≡ true → a ≡ b
unfolding leb_bytes
leb_bytes_antisymm [] [] h k = refl
leb_bytes_antisymm [] (y ∷ b) h k = cc
leb_bytes_antisymm (x ∷ a) [] h k = cc
leb_bytes_antisymm (x ∷ a) (y ∷ b) h k = ground (arith, leb_bytes_antisymm a b)
