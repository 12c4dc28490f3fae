-- ===== src/Tests/Grammar.antt =====
-- The unit tests of obsigil/src/token.rs.
use obsigil_rs.Prelude.{◌≡◌, refl, none, some, [], err}
use obsigil_rs.Types.{b64, hex}
use obsigil_rs.Errors.{chars}
use obsigil_rs.Token.{parse, empty, separator_count, degenerate_half, both_absent, bad_alg_char}
use obsigil_rs.Tests.Fixtures.{Unwraps}

abbrev ParsesTheThreeShapes : Type 0
ParsesTheThreeShapes =
    Unwraps (parse (chars "abc0.0def")) (λ full.
      (full.encoding ≡ b64)
      × (full.manifest ≡ some (record { alg_code = b'0'; text = chars "abc" }))
      × (full.mandate ≡ some (record { alg_code = b'0'; text = chars "def" }))
      × (full.mandate_part ≡ chars "0def"))
    × Unwraps (parse (chars "abc0."))
        (λ manifest_only. (manifest_only.mandate ≡ none) × (manifest_only.mandate_part ≡ []))

parses_the_three_shapes : ParsesTheThreeShapes
unfolding parse
parses_the_three_shapes = ((refl, refl, refl, refl), (refl, refl))

abbrev MandateOnlyAndHex : Type 0
MandateOnlyAndHex =
    Unwraps (parse (chars ".0def")) (λ t.
      (t.manifest ≡ none) × (t.mandate ≡ some (record { alg_code = b'0'; text = chars "def" })))
    × Unwraps (parse (chars "abc0~1def")) (λ t.
      (t.encoding ≡ hex) × (t.mandate ≡ some (record { alg_code = b'1'; text = chars "def" })))

mandate_only_and_hex : MandateOnlyAndHex
unfolding parse
mandate_only_and_hex = ((refl, refl), (refl, refl))

abbrev RejectsMalformed : Type 0
RejectsMalformed =
    (parse (chars "") ≡ err empty)
    × (parse (chars "abc") ≡ err separator_count)
    × (parse (chars "a.b.c") ≡ err separator_count)
    × (parse (chars ".") ≡ err both_absent)
    × (parse (chars "0.") ≡ err degenerate_half)
    × (parse (chars ".0") ≡ err degenerate_half)
    × (parse (chars "ab-.") ≡ err bad_alg_char)
    × (parse (chars "abZ.") ≡ err bad_alg_char)

rejects_malformed : RejectsMalformed
unfolding parse
rejects_malformed = (refl, refl, refl, refl, refl, refl, refl, refl)
