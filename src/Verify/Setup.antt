-- ===== src/Verify/Setup.antt =====
-- Every verifier that the builder methods of verify.rs make, out of keys that key.rs makes.
use obsigil_rs.Prelude.{
  ℕ, ◌≤◌, ◌≡◌, ◌≢◌, List, [], ◌∷◌, arith, All, All-append, All-map, length, ltb, refl, ◌∙◌,
  saturating_add, pos, if◌then◌else◌, ok, panic, sym, ◌+ℤ◌, ◌<ℤ◌, some, Option,
}
use mathlib.Core.Option.{get_or}
use mathlib.Core.Path.{subst}
use obsigil_rs.Types.{Text, Bytes, NumericDate}
use obsigil_rs.Key.{MandateKey, from_bytes, from_hex, generate}
use obsigil_rs.Key.FromHex.{from_bytes_sound, from_hex-eq-ok_iff}
use obsigil_rs.Crates.{Crates, Serde}
use obsigil_rs.Crates.Laws.{AeadLaws}
use obsigil_rs.Reserved.{Clauses}
use obsigil_rs.Verify.{
  Verifier, verifier_new, with_key, with_keys, with_audience, with_leeway, with_now,
  with_max_decoded_len, now_unix, clauses,
}
use obsigil_rs.Verify.Total.{AreKeys, clauses-ne-panic}
use obsigil_rs.Verify.Accepts.{clauses-eq-ok_iff}
use obsigil_rs.Verify.Window.{small_leeway, window, authentic-in_i64}

module _ (x : Crates) where
  -- The public ways to a key.
  pub data IsMade : MandateKey → Type 0 where
    given : (bs : Bytes) {k : MandateKey} → length bs ≡ 64 → from_bytes bs ≡ ok k → IsMade k
    typed_in : (text : Text) {k : MandateKey} → from_hex x text ≡ ok k → IsMade k
    generated : (random : Bytes) → length random ≡ 64 → IsMade (generate x random)

  -- The public ways to a verifier.
  pub data IsBuilt : Verifier → Type 0 where
    new : IsBuilt verifier_new
    key : {v : Verifier} {k : MandateKey} → IsBuilt v → IsMade k → IsBuilt (with_key v k)
    keys :
        {v : Verifier} (ks : List MandateKey) → IsBuilt v → All IsMade ks → IsBuilt (with_keys v ks)
    audience : {v : Verifier} (id : Text) → IsBuilt v → IsBuilt (with_audience v id)
    leeway : {v : Verifier} (secs : ℕ) → IsBuilt v → IsBuilt (with_leeway v secs)
    now : {v : Verifier} (date : NumericDate) → IsBuilt v → IsBuilt (with_now v date)
    max_decoded_len : {v : Verifier} (max : ℕ) → IsBuilt v → IsBuilt (with_max_decoded_len v max)

  -- What all of them have in common.
  pub record IsSetUp (v : Verifier) : Type 0 where
    pub are_keys : AreKeys v.keys
    pub seconds : ℕ
    pub is_seconds : v.leeway ≡ pos seconds
    pub clamped : seconds ≤ 60

  abbrev Is64 : MandateKey → Type 0
  Is64 k = length k.bytes ≡ 64

  IsMade-length : {k : MandateKey} → IsMade k → length k.bytes ≡ 64
  unfolding generate
  IsMade-length (given bs {k} n h) =
      subst (λ (m : MandateKey). length m.bytes ≡ 64) (sym (from_bytes_sound bs k h).1) n
  IsMade-length (typed_in text {k} h) = ((from_hex-eq-ok_iff x text k).0 h).1
  IsMade-length (generated random n) = n

  -- Two verifiers with the same ring and leeway.
  keep : {v w : Verifier} → IsSetUp v → v.keys ≡ w.keys → v.leeway ≡ w.leeway → IsSetUp w
  keep s e f = record {
    are_keys = subst AreKeys e s.are_keys;
    seconds = s.seconds;
    is_seconds = sym f ∙ s.is_seconds;
    clamped = s.clamped;
  }

  pub IsBuilt-IsSetUp : {v : Verifier} → IsBuilt v → IsSetUp v
  IsBuilt-IsSetUp new = record {
    are_keys = tt;
    seconds = 0;
    is_seconds = refl;
    clamped = omega arith;
  }
  IsBuilt-IsSetUp (key {v} {k} b m) =
      let s = IsBuilt-IsSetUp b in
      record {
        are_keys = All-append Is64 v.keys (k ∷ []) s.are_keys (IsMade-length m, tt);
        seconds = s.seconds;
        is_seconds = s.is_seconds;
        clamped = s.clamped;
      }
  IsBuilt-IsSetUp (keys {v} ks b ms) =
      let s = IsBuilt-IsSetUp b in
      record {
        are_keys = All-append Is64 v.keys ks s.are_keys (All-map ks (λ k m. IsMade-length m) ms);
        seconds = s.seconds;
        is_seconds = s.is_seconds;
        clamped = s.clamped;
      }
  IsBuilt-IsSetUp (leeway secs b) = record {
    are_keys = (IsBuilt-IsSetUp b).are_keys;
    seconds = if ltb secs 60 then secs else 60;
    is_seconds = refl;
    clamped = small_leeway secs;
  }
  IsBuilt-IsSetUp (audience id b) = keep (IsBuilt-IsSetUp b) refl refl
  IsBuilt-IsSetUp (now date b) = keep (IsBuilt-IsSetUp b) refl refl
  IsBuilt-IsSetUp (max_decoded_len max b) = keep (IsBuilt-IsSetUp b) refl refl

  -- No token makes a verifier panic that is made by the builder methods out of keys that
  -- `from_bytes`, `from_hex` and `generate` make: it answers with clauses or with an error, if the
  -- sealing crates keep their laws.
  pub clauses-ne-panic_of_IsBuilt :
      AeadLaws x
      → {T : Type 0} (s : Serde T) (clock : Option ℕ) (v : Verifier) (token : Text) → IsBuilt v
      → clauses x s clock v token ≢ panic
  clauses-ne-panic_of_IsBuilt l s clock v token b =
      clauses-ne-panic x l s clock v token (IsBuilt-IsSetUp b).are_keys

  -- Every verifier that is made by the builder methods, whatever leeway it is set to, accepts only
  -- mandates with an `exp` that lies less than 60 seconds back.
  pub clauses_window_of_IsBuilt :
      {T : Type 0} (s : Serde T) (clock : Option ℕ) (v : Verifier) (token : Text) (c : Clauses T)
      → IsBuilt v
      → clauses x s clock v token ≡ ok c
      → (exp : NumericDate) × (c.inner.exp ≡ some exp)
        × (get_or v.now (now_unix clock) <ℤ exp +ℤ pos 60)
  clauses_window_of_IsBuilt s clock v token c b h =
      let a = (clauses-eq-ok_iff x s clock v token c).0 h in
      let u = IsBuilt-IsSetUp b in
      (
        a.exp,
        a.has_exp,
        window (get_or v.now (now_unix clock)) a.exp u.seconds
            (authentic-in_i64 x s v token c.inner a.exp a.authentic a.has_exp) u.clamped
            (subst (λ n. get_or v.now (now_unix clock) <ℤ saturating_add a.exp n) u.is_seconds
              a.not_expired),
      )
