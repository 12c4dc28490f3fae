-- ===== src/Verify/Display.antt =====
-- The keyless reads of verify.rs: the manifest half on its own, and the `Authorization` value.
use mathlib.Core.Path.{subst}
use obsigil_rs.Prelude.{
  ◌≡◌, refl, ◌∙◌, some, [], ◌∷◌, ◌++◌, append_assoc, ok, lift_option, drop_error, >>=-eq-ok,
  ok_injective, map_err-eq-ok, ok_or-eq-ok,
}
use obsigil_rs.Types.{Text}
use obsigil_rs.Token.{Half, Parsed, parse}
use obsigil_rs.Token.Grammar.{IsToken, parse-render, render}
use obsigil_rs.Token.Accepts.{parse-eq-ok_iff}
use obsigil_rs.Crates.{Crates, Serde}
use obsigil_rs.Verify.{manifest_plaintext, claims, manifest}
use obsigil_rs.Verify.Forward.{manifest_only}

manifest_only-IsToken :
    (p : Parsed) (h : Half) → IsToken p → p.manifest ≡ some h → IsToken (manifest_only p)
manifest_only-IsToken p h t e = record {
  sep = t.sep;
  manifest = t.manifest;
  mandate = tt;
  one_half = rw e;
  part = refl;
}

render-manifest_only :
    (p : Parsed) (h : Half)
    → p.manifest ≡ some h
    → render (manifest_only p) ≡ h.text ++ h.alg_code ∷ p.separator ∷ []
render-manifest_only p h e = rw e (append_assoc h.text (h.alg_code ∷ []) (p.separator ∷ []))

pub parse-manifest :
    (token half : Text)
    → manifest token ≡ ok half
    → (p : Parsed) × (parse token ≡ ok p) × (parse half ≡ ok (manifest_only p))
unfolding manifest
parse-manifest token half h =
    let (p, hp, h1) = >>=-eq-ok (drop_error (parse token)) _ h in
    let (m, hm, h2) = >>=-eq-ok (lift_option p.manifest) _ h1 in
    let parsed = map_err-eq-ok _ (parse token) hp in
    let t = ((parse-eq-ok_iff token p).0 parsed).0 in
    let has = ok_or-eq-ok p.manifest tt hm in
    (
      p,
      parsed,
      subst (λ u. parse u ≡ ok (manifest_only p)) (render-manifest_only p m has ∙ ok_injective h2)
          (parse-render (manifest_only p) (manifest_only-IsToken p m t has)),
    )

-- The manifest half that is carved out of a token opens to the claims that the whole token opens
-- to.
pub claims-manifest :
    (x : Crates) {T : Type 0} (s : Serde T) (token half : Text)
    → manifest token ≡ ok half
    → claims x s half ≡ claims x s token
unfolding claims manifest_plaintext
claims-manifest x s token half h = let (p, hp, hq) = parse-manifest token half h in rw (hp, hq)
