-- ===== src/Cli/Trimmed.antt =====
-- A token that main.rs prints comes back from standard input without its line end.
use obsigil_rs.Prelude.{◌≡◌, refl, false, Option, none, some, [], ◌∷◌, ◌++◌, All, All-append, ok}
use obsigil_rs.Types.{Text, Bytes, Alg, siv, gcm_siv, code, Encoding, b64, hex, separator}
use obsigil_rs.Errors.{chars}
use obsigil_rs.Crates.{Crates}
use obsigil_rs.Encoding.{codec_of}
use obsigil_rs.Mint.{Issuer, manifest_text, assemble_token}
use obsigil_rs.Mint.Shape.{encoded, encode_into_eq, encoded_eq}
use obsigil_rs.Cli.{is_whitespace, trim_start, trim_end, printed, read_input}

-- A text without white space.
abbrev pub IsSolid : Text → Type 0
IsSolid = All (λ c. is_whitespace c ≡ false)

trim_end_line : (s : Text) → IsSolid s → trim_end (s ++ chars "\n") ≡ s
trim_end_line [] h = refl
trim_end_line (c ∷ []) (h, hs) = rw h
trim_end_line (c ∷ d ∷ s) (h, hs) = rw (trim_end_line (d ∷ s) hs)

trim_line : (s : Text) → IsSolid s → trim_end (trim_start (s ++ chars "\n")) ≡ s
trim_line [] h = refl
trim_line (c ∷ s) (h, hs) = rw h (trim_end_line (c ∷ s) (h, hs))

-- What is printed and piped into the next command is read as it was.
pub read_input-printed :
    (arg s : Text)
    → arg ≡ chars "-"
    → IsSolid s
    → read_input arg (ok (printed s).stdout) ≡ ok (s, ok [])
unfolding read_input
read_input-printed arg s e h = rw (e, trim_line s h)

code_solid : (a : Alg) → is_whitespace (code a) ≡ false
code_solid siv = refl
code_solid gcm_siv = refl

separator_solid : (e : Encoding) → is_whitespace (separator e) ≡ false
separator_solid b64 = refl
separator_solid hex = refl

module _ (x : Crates) (solid : (e : Encoding) (b : Bytes) → IsSolid ((codec_of x e).encode b)) where
  encoded-IsSolid : (b : Bytes) (e : Encoding) → IsSolid (encoded x b e)
  encoded-IsSolid b e = rw (encoded_eq x b e) (solid e b)

  manifest_text-IsSolid : (m : Option Bytes) (i : Issuer) → IsSolid (manifest_text x m i)
  manifest_text-IsSolid none i = tt
  manifest_text-IsSolid (some b) i =
      All-append (λ c. is_whitespace c ≡ false) (encoded x b i.encoding) (code i.manifest_alg ∷ [])
        (encoded-IsSolid b i.encoding) (code_solid i.manifest_alg, tt)

  pub assemble_token-IsSolid :
      (i : Issuer) (m : Option Bytes) (sealed : Bytes) → IsSolid (assemble_token x i m sealed)
  unfolding assemble_token
  assemble_token-IsSolid i m sealed =
      let front = manifest_text x m i ++ separator i.encoding ∷ code i.mandate_alg ∷ [] in
      rw (encode_into_eq x sealed i.encoding front) (
        All-append (λ c. is_whitespace c ≡ false) front (encoded x sealed i.encoding)
          (All-append (λ c. is_whitespace c ≡ false) (manifest_text x m i)
            (separator i.encoding ∷ code i.mandate_alg ∷ []) (manifest_text-IsSolid m i)
            (separator_solid i.encoding, (code_solid i.mandate_alg, tt)))
          (encoded-IsSolid sealed i.encoding))
