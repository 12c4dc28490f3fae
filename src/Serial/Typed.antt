-- ===== src/Serial/Typed.antt =====
-- What every mandate read by `from_mandate_plaintext` of serial.rs satisfies, and that the loop never
-- reaches its `unreachable!`.
use obsigil_rs.Prelude.{
  ◌≡◌, true, Option, none, some, [], ◌∷◌, ◌++◌, arith, length, ℤ, in_i64, Bool-cases, inl, inr,
  Result, ok, err, ◌>>=◌, >>=-eq-ok, ok_injective, ◌==ℤ◌,
}
use mathlib.Core.Path.{subst}
use obsigil_rs.Types.{Bytes, NumericDate}
use obsigil_rs.Errors.{Reason, non_canonical, unknown_reserved_key}
use obsigil_rs.Cbor.{Value, Pairs, integer, bytes}
use obsigil_rs.Crates.{Crates, Serde}
use obsigil_rs.Reserved.{Uuid, MandateFields}
use obsigil_rs.Serial.{
  key_tid, key_exp, key_aud, key_sub, key_iss, classify, KeyKind, reserved, unknown_reserved, app,
  invalid,
}
use obsigil_rs.Serial.Read.{
  read_tid, read_int, read_text, read_aud, decode_app, MandateScan, no_fields, mandate_field,
  strict_map, mandate_step, mandate_loop, from_mandate_plaintext,
}

-- A date fits the type i64, and a token id has 16 bytes.
abbrev pub IsDate : Option NumericDate → Type 0
IsDate none = Unit {0}
IsDate (some n) = in_i64 n ≡ true

abbrev pub IsUuid : Option Uuid → Type 0
IsUuid none = Unit {0}
IsUuid (some t) = length t ≡ 16

read_int-in_i64 : (v : Value) (n : NumericDate) → read_int v ≡ ok n → in_i64 n ≡ true
unfolding read_int
read_int-in_i64 (integer i) n h = ground arith
read_int-in_i64 _ n h = cc

read_tid-length : (v : Value) (t : Uuid) → read_tid v ≡ ok t → length t ≡ 16
unfolding read_tid
read_tid-length (bytes b) t h = ground arith
read_tid-length _ t h = cc

IsTyped : MandateScan → Type 0
IsTyped m = IsDate m.exp × IsUuid m.tid

set_field {ℓ} :
    {A : Type ℓ} (r : Result Reason A) (f : A → MandateScan) (m' : MandateScan)
    → (r >>= λ t. ok (f t)) ≡ ok m'
    → ((t : A) → r ≡ ok t → IsTyped (f t))
    → IsTyped m'
set_field r f m' h k =
    let (t, ht, same) = >>=-eq-ok r (λ t. ok (f t)) h in subst IsTyped (ok_injective same) (k t ht)

-- A reserved field keeps the variables of the loop typed.
mandate_field-IsTyped :
    (n : ℤ) (v : Value) (m m' : MandateScan) → mandate_field n v m ≡ ok m' → IsTyped m → IsTyped m'
unfolding mandate_field IsTyped
mandate_field-IsTyped n v m m' h (he, ht) = elim (Bool-cases (n ==ℤ key_tid)) [
  | inl e ↦ set_field (read_tid v) _ m' (rw e at h) (λ t k. (he, read_tid-length v t k))
  | inr e1 ↦ elim (Bool-cases (n ==ℤ key_exp)) [
    | inl e ↦ set_field (read_int v) _ m' (rw (e1, e) at h) (λ t k. (read_int-in_i64 v t k, ht))
    | inr e2 ↦ elim (Bool-cases (n ==ℤ key_aud)) [
      | inl e ↦ set_field (read_aud v) _ m' (rw (e1, e2, e) at h) (λ t k. (he, ht))
      | inr e3 ↦ elim (Bool-cases (n ==ℤ key_sub)) [
        | inl e ↦ set_field (read_text v) _ m' (rw (e1, e2, e3, e) at h) (λ t k. (he, ht))
        | inr e4 ↦ elim (Bool-cases (n ==ℤ key_iss)) [
          | inl e ↦ set_field (read_text v) _ m' (rw (e1, e2, e3, e4, e) at h) (λ t k. (he, ht))
          | inr e5 ↦ cc (rw (e1, e2, e3, e4, e5) at h)
        ]
      ]
    ]
  ]
]

module _ (x : Crates) where
  mandate_step-IsTyped :
      (k v : Value) (m m' : MandateScan) → mandate_step x (k, v) m ≡ ok m' → IsTyped m → IsTyped m'
  mandate_step-IsTyped k v m m' h t = go (classify x k) (unfold mandate_step in h)
    where
      go :
          (c : KeyKind)
          → (elim c [
            | reserved n ↦ mandate_field n v m
            | unknown_reserved ↦ err unknown_reserved_key
            | app ↦ ok (record m { rest = m.rest ++ (k, v) ∷ [] })
            | invalid ↦ err non_canonical
          ])
            ≡ ok m'
          → IsTyped m'
      go (reserved n) e = mandate_field-IsTyped n v m m' e t
      go app e = subst IsTyped (ok_injective e) (unfold IsTyped in t)
      go _ e = cc

  mandate_loop-IsTyped :
      (ps : Pairs) (m m' : MandateScan) → mandate_loop x ps m ≡ ok m' → IsTyped m → IsTyped m'
  unfolding mandate_loop
  mandate_loop-IsTyped [] m m' h t = subst IsTyped (ok_injective h) t
  mandate_loop-IsTyped ((k, v) ∷ ps) m m' h t =
      let (m1, h1, h2) = >>=-eq-ok (mandate_step x (k, v) m) _ h in
      mandate_loop-IsTyped ps m1 m' h2 (mandate_step-IsTyped k v m m1 h1 t)

  pub from_mandate_plaintext-typed :
      {T : Type 0} (s : Serde T) (plain : Bytes) (f : MandateFields T)
      → from_mandate_plaintext x s plain ≡ ok f
      → IsDate f.exp × IsUuid f.tid
  unfolding from_mandate_plaintext IsTyped
  from_mandate_plaintext-typed s plain f h =
      let (ps, h0, h1) = >>=-eq-ok (strict_map x plain) _ h in
      let (m, h2, h3) = >>=-eq-ok (mandate_loop x ps no_fields) _ h1 in
      let (a, h4, h5) = >>=-eq-ok (decode_app s m.rest) _ h3 in
      subst (λ g. IsDate g.exp × IsUuid g.tid) (ok_injective h5)
        (mandate_loop-IsTyped ps no_fields m h2 (tt, tt))
