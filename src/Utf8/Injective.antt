-- ===== src/Utf8/Injective.antt =====
-- Different texts have different bytes.
use obsigil_rs.Prelude.{◌<◌, ◌≡◌, ◌≢◌, refl, sym, [], ◌∷◌, ◌++◌, arith, All}
use mathlib.Core.Path.{ap₂}
use obsigil_rs.Types.{Char, Text, Bytes}
use obsigil_rs.Utf8.{encode_utf8, as_bytes}

-- Unicode scalar values.
abbrev pub IsText : Text → Type 0
IsText = All (λ c. c < 0x110000)

same_head :
    (c d : Char) (s t : Bytes)
    → c < 0x110000
    → d < 0x110000
    → encode_utf8 c ++ s ≡ encode_utf8 d ++ t
    → (c ≡ d) × (s ≡ t)
unfolding encode_utf8
same_head c d s t hc hd h = ground arith

nonempty : (c : Char) (s : Bytes) → encode_utf8 c ++ s ≢ []
unfolding encode_utf8
nonempty c s h = ground arith

pub as_bytes_injective : (s t : Text) → IsText s → IsText t → as_bytes s ≡ as_bytes t → s ≡ t
unfolding as_bytes
as_bytes_injective [] [] hs ht h = refl
as_bytes_injective [] (d ∷ t) hs ht h = absurd (nonempty d (as_bytes t) (sym h))
as_bytes_injective (c ∷ s) [] hs ht h = absurd (nonempty c (as_bytes s) h)
as_bytes_injective (c ∷ s) (d ∷ t) (hc, hs) (hd, ht) h =
    let (e, f) = same_head c d (as_bytes s) (as_bytes t) hc hd h in
    ap₂ {C = Text} (λ x xs. x ∷ xs) e (as_bytes_injective s t hs ht f)
