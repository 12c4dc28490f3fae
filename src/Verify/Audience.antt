-- ===== src/Verify/Audience.antt =====
-- The audience check of verify.rs is membership, in spite of its fixed running time.
use obsigil_rs.Prelude.{
  ◌≡◌, sym, ◌∙◌, ◌↔◌, ◌⊎◌, inl, inr, true, false, List, [], ◌∷◌, arith, any, All, bytes_eq,
  bytes_eq→eq, bytes_eq_refl, Bool-cases,
}
use obsigil_rs.Types.{Text, Bytes}
use obsigil_rs.Utf8.{as_bytes}
use obsigil_rs.Utf8.Injective.{IsText, as_bytes_injective}
use obsigil_rs.Crates.{Crates}
use obsigil_rs.Verify.{aud_contains}
use obsigil_rs.Verify.Accepts.{aud_loop-eq-any}

-- One of the texts is `me`.
abbrev pub Names : Text → List Text → Type 0
Names me [] = ⊥
Names me (a ∷ aud) = (a ≡ me) ⊎ Names me aud

module _ (x : Crates) (compares : (a b : Bytes) → x.ct_eq a b ≡ bytes_eq a b) where
  same_text :
      (a me : Text) → IsText a → IsText me → x.ct_eq (as_bytes a) (as_bytes me) ≡ true → a ≡ me
  same_text a me ha hm h =
      as_bytes_injective a me ha hm
        (bytes_eq→eq (as_bytes a) (as_bytes me) (sym (compares (as_bytes a) (as_bytes me)) ∙ h))

  Names-of_any :
      (me : Text) (aud : List Text)
      → IsText me
      → All IsText aud
      → any (λ a. x.ct_eq (as_bytes a) (as_bytes me)) aud ≡ true
      → Names me aud
  Names-of_any me [] hm ha h = cc
  Names-of_any me (a ∷ aud) hm (ha, has) h =
      elim (Bool-cases (x.ct_eq (as_bytes a) (as_bytes me))) [
        | inl e ↦ inl (same_text a me ha hm e)
        | inr e ↦ inr (Names-of_any me aud hm has (rw e at h))
      ]

  any_of_Names :
      (me : Text) (aud : List Text)
      → Names me aud
      → any (λ a. x.ct_eq (as_bytes a) (as_bytes me)) aud ≡ true
  any_of_Names me [] n = absurd n
  any_of_Names me (a ∷ aud) (inl e) =
      rw (e, compares (as_bytes me) (as_bytes me), bytes_eq_refl (as_bytes me))
  any_of_Names me (a ∷ aud) (inr n) = rw (any_of_Names me aud n) (ground arith)

  -- The audience check, which compares bytes and never stops early, holds exactly when one of the
  -- texts is the verifier's, if the comparison of bytes is equality and the texts consist of
  -- Unicode scalar values.
  pub aud_contains-Names :
      (aud : List Text) (me : Text)
      → All IsText aud
      → IsText me
      → (aud_contains x aud me ≡ true) ↔ Names me aud
  unfolding aud_contains
  aud_contains-Names aud me ha hm = (
    λ h. Names-of_any me aud hm ha (sym (aud_loop-eq-any x me aud false) ∙ h),
    λ n. aud_loop-eq-any x me aud false ∙ any_of_Names me aud n,
  )
