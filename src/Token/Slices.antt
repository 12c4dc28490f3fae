-- ===== src/Token/Slices.antt =====
-- The byte offsets that `parse` computes are boundaries between characters.
use obsigil_rs.Prelude.{◌+◌, ◌-◌, ◌≤◌, ◌≡◌, refl, some, [], ◌∷◌, ◌++◌, arith}
use obsigil_rs.Types.{Char, Text}
use obsigil_rs.Token.{len_utf8, str_len, slice_to, slice_from, last_char}

pub len_utf8_pos : (c : Char) → 1 ≤ len_utf8 c
len_utf8_pos c = ground arith

pub str_len-append : (s t : Text) → str_len (s ++ t) ≡ str_len s + str_len t
unfolding str_len
str_len-append [] t = omega arith
str_len-append (c ∷ s) t = omega (arith, str_len-append s t)

pub slice_to-append : (s t : Text) → slice_to (s ++ t) (str_len s) ≡ some s
unfolding slice_to str_len
slice_to-append [] [] = refl
slice_to-append [] (c ∷ t) = refl
slice_to-append (c ∷ s) t =
    let e : len_utf8 c + str_len s - len_utf8 c ≡ str_len s = omega arith in
    rw (e, slice_to-append s t) (ground (arith, len_utf8_pos c))

pub slice_from-append : (s t : Text) → slice_from (s ++ t) (str_len s) ≡ some t
unfolding slice_from str_len
slice_from-append [] [] = refl
slice_from-append [] (c ∷ t) = refl
slice_from-append (c ∷ s) t =
    let e : len_utf8 c + str_len s - len_utf8 c ≡ str_len s = omega arith in
    rw (e, slice_from-append s t) (ground (arith, len_utf8_pos c))

pub last_char-append : (s : Text) (c : Char) → last_char (s ++ c ∷ []) ≡ some c
unfolding last_char
last_char-append [] c = refl
last_char-append (d ∷ []) c = refl
last_char-append (d ∷ e ∷ s) c = last_char-append (e ∷ s) c
