-- ===== src/Cli/Ready.antt =====
-- The steps of the commands of obsigil-cli/src/main.rs do not panic, and make builders that can be minted.
use obsigil_rs.Prelude.{
  ℕ, ◌≡◌, ◌≢◌, refl, ◌++◌, inl, inr, Option, none, some, arith, List, [], ◌∷◌, length, is_empty,
  if◌then◌else◌, bytes_eq, ℤ, Bool-cases, ok, err, panic, ok_or, map_err, >>=-eq-ok, ok_injective,
  >>=-ne-panic, ok_or-ne-panic, map_err-ne-panic,
}
use mathlib.Core.Option.{get_or}
use mathlib.Core.Path.{subst}
use obsigil_rs.Types.{Text, Bytes, hex}
use obsigil_rs.Errors.{chars, display_key}
use obsigil_rs.Key.{from_bytes, to_array64}
use obsigil_rs.Crates.{Crates}
use obsigil_rs.Crates.Laws.{AeadLaws, SealLaws}
use obsigil_rs.Lowlevel.{decode}
use obsigil_rs.Mint.{
  MintBuilder, Issuer, issuer_new, with_alg, with_manifest_alg, with_encoding, mint_clauses,
  with_issuer, with_subject,
}
use obsigil_rs.Mint as Mint
use obsigil_rs.Mint.Total.{IsCalm}
use obsigil_rs.Serial.ManifestTotal.{to_manifest_plaintext-ne-panic}
use obsigil_rs.Cli.{Stdin, read_input, parse_alg, parse_encoding, resolve_key, mandate_test_key_hex}
use obsigil_rs.Cli.Json.{Json, Tools}
use obsigil_rs.Cli.Commands.{mandate_key, set, set_expiry, set_tid, set_manifest}

-- The crates that only the tool calls return.
pub record ToolLaws (t : Tools) : Type 0 where
  pub aead : AeadLaws t.crates
  pub seals : SealLaws t.crates
  pub from_str_total : (s : Text) → t.from_str s ≢ panic
  pub to_string_total : (j : Json) → t.to_string j ≢ panic
  pub parse_str_total : (s : Text) → t.parse_str s ≢ panic
  pub serialized_total : (j : Json) → t.json_serde.serialized j ≢ panic

pub read_input-ne-panic : (s : Text) (stdin : Stdin) → stdin ≢ panic → read_input s stdin ≢ panic
unfolding read_input
read_input-ne-panic s panic h q = h refl
read_input-ne-panic s (ok buf) h q = ground arith
read_input-ne-panic s (err e) h q = ground arith

pub read_input-later :
    (s : Text) (stdin : Stdin) (token : Text) (later : Stdin)
    → stdin ≢ panic
    → read_input s stdin ≡ ok (token, later)
    → later ≢ panic
unfolding read_input
read_input-later s panic token later h e q = absurd (h refl)
read_input-later s (ok buf) token later h e q = ground arith
read_input-later s (err f) token later h e q = ground arith

pub parse_alg-ne-panic : (s : Text) → parse_alg s ≢ panic
unfolding parse_alg
parse_alg-ne-panic [] = λ q. cc
parse_alg-ne-panic (c ∷ []) = ok_or-ne-panic _ _
parse_alg-ne-panic (c ∷ d ∷ s) = λ q. cc

pub parse_encoding-ne-panic : (s : Text) → parse_encoding s ≢ panic
unfolding parse_encoding
parse_encoding-ne-panic s q = ground arith

to_array64-ne-panic : (bs : Bytes) (e : Text) → to_array64 bs e ≢ panic
to_array64-ne-panic bs e q = ground arith

pub resolve_key-ne-panic : (x : Crates) (s : Text) → resolve_key x s ≢ panic
unfolding resolve_key
resolve_key-ne-panic x s = elim (Bool-cases (bytes_eq s (chars "manifest"))) [
  | inl e ↦ rw e (λ q. cc)
  | inr e ↦
      let digits = if bytes_eq s (chars "mandate") then mandate_test_key_hex else s in
      rw e (
        >>=-ne-panic
          (ok_or (decode x digits hex) (chars "--key must be hex or `manifest`/`mandate`")) _
          (ok_or-ne-panic _ _) λ bs _. to_array64-ne-panic bs _)
]

from_bytes-ne-panic : (bs : Bytes) → from_bytes bs ≢ panic
unfolding from_bytes
from_bytes-ne-panic bs q = ground arith

module _ (t : Tools) (l : ToolLaws t) where
  pub mandate_key-ne-panic : (s : Text) → mandate_key t s ≢ panic
  mandate_key-ne-panic s =
      >>=-ne-panic (resolve_key t.crates s) _ (resolve_key-ne-panic t.crates s)
        λ bs _. map_err-ne-panic display_key (from_bytes bs) (from_bytes-ne-panic bs)

  -- A builder that can be minted without a panic.
  abbrev pub IsReady : MintBuilder Json → Type 0
  IsReady b = (length b.issuer.key.bytes ≡ 64) × IsCalm b.manifest_plain

  pub set_expiry-IsReady :
      (clock : Option ℕ) (exp : Option ℤ) (ttl : Option ℕ) (b b' : MintBuilder Json)
      → IsReady b
      → set_expiry t clock exp ttl b ≡ ok b'
      → IsReady b'
  set_expiry-IsReady clock (some exp) ttl b b' r e = subst IsReady (ok_injective e) r
  set_expiry-IsReady clock none (some ttl) b b' r e = subst IsReady (ok_injective e) r
  set_expiry-IsReady clock none none b b' r e = cc

  pub set_tid-IsReady :
      (tid : Option Text) (b b' : MintBuilder Json)
      → IsReady b
      → set_tid t tid b ≡ ok b'
      → IsReady b'
  set_tid-IsReady none b b' r e = subst IsReady (ok_injective e) r
  set_tid-IsReady (some s) b b' r e =
      let (tid, _, same) = >>=-eq-ok (map_err (λ e. chars "--tid: " ++ e) (t.parse_str s)) _ e in
      subst IsReady (ok_injective same) r

  pub set_aud-IsReady :
      (aud : List Text) (b : MintBuilder Json)
      → IsReady b
      → IsReady (if is_empty aud then b else Mint.with_audience b aud)
  set_aud-IsReady [] b r = r
  set_aud-IsReady (a ∷ aud) b r = r

  pub set_texts-IsReady :
      (iss sub : Option Text) (b : MintBuilder Json)
      → IsReady b
      → IsReady (set iss with_issuer (set sub with_subject b))
  set_texts-IsReady none none b r = r
  set_texts-IsReady none (some s) b r = r
  set_texts-IsReady (some i) none b r = r
  set_texts-IsReady (some i) (some s) b r = r

  pub set_manifest-IsReady :
      (iss fields : Option Text) (stdin : Stdin) (b b' : MintBuilder Json)
      → IsReady b
      → set_manifest t iss fields stdin b ≡ ok b'
      → IsReady b'
  set_manifest-IsReady none fields stdin b b' r e = subst IsReady (ok_injective e) r
  set_manifest-IsReady (some iss) fields stdin b b' r e =
      let ((text, _), _, e1) = >>=-eq-ok (read_input (get_or fields (chars "{}")) stdin) _ e in
      let (app, _, same) =
        >>=-eq-ok (map_err (λ e. chars "--manifest-fields: " ++ e) (t.from_str text)) _ e1 in
      subst IsReady (ok_injective same)
        (r.0, to_manifest_plaintext-ne-panic t.crates t.json_serde app (l.serialized_total app) iss)

  pub set_expiry-ne-panic :
      (clock : Option ℕ) (exp : Option ℤ) (ttl : Option ℕ) (b : MintBuilder Json)
      → set_expiry t clock exp ttl b ≢ panic
  set_expiry-ne-panic clock (some exp) ttl b = λ q. cc
  set_expiry-ne-panic clock none (some ttl) b = λ q. cc
  set_expiry-ne-panic clock none none b = λ q. cc

  pub set_tid-ne-panic : (tid : Option Text) (b : MintBuilder Json) → set_tid t tid b ≢ panic
  set_tid-ne-panic none b = λ q. cc
  set_tid-ne-panic (some s) b =
      >>=-ne-panic (map_err (λ e. chars "--tid: " ++ e) (t.parse_str s)) _
        (map_err-ne-panic _ _ (l.parse_str_total s)) λ tid _ q. cc

  pub set_manifest-ne-panic :
      (iss fields : Option Text) (stdin : Stdin) (b : MintBuilder Json)
      → stdin ≢ panic
      → set_manifest t iss fields stdin b ≢ panic
  set_manifest-ne-panic none fields stdin b h = λ q. cc
  set_manifest-ne-panic (some iss) fields stdin b h =
      >>=-ne-panic (read_input (get_or fields (chars "{}")) stdin) _ (read_input-ne-panic _ stdin h)
        λ p _.
          >>=-ne-panic (map_err (λ e. chars "--manifest-fields: " ++ e) (t.from_str p.0)) _
            (map_err-ne-panic _ _ (l.from_str_total p.0)) λ app _ q. cc
