-- ===== src/Serial/Total.antt =====
-- The readings of serial.rs never panic: the loops reach neither `unreachable!`.
use obsigil_rs.Prelude.{
  ◌≡◌, ◌≢◌, refl, Bool, true, not, inl, inr, Option, none, some, List, [], ◌∷◌, ◌++◌, arith, any,
  if◌then◌else◌, bytes_eq, ℤ, ◌==ℤ◌, ==ℤ_iff, Bool-cases, ok, err, panic, ok_or, reject_if,
  >>=-ne-panic, ok_or-ne-panic, reject_if-ne-panic,
}
use obsigil_rs.Types.{Bytes}
use obsigil_rs.Errors.{malformed, non_canonical, unknown_reserved_key}
use obsigil_rs.Cbor.{
  Value, Items, no_items, item, Pairs, integer, bytes, text, array, map, from_list,
}
use obsigil_rs.Crates.{Crates, Serde}
use obsigil_rs.Serial.{
  key_tid, key_exp, key_aud, key_sub, key_iss, reserved_keys, is_ikey, is_integer_or_text,
  is_negative_int, find_reserved, classify, KeyKind, reserved, unknown_reserved, app, invalid,
  encode, canonicalize,
}
use obsigil_rs.Serial.Checks.{nan_entry, invalid_entry}
use obsigil_rs.Serial.Write.{map_entries}
use obsigil_rs.Serial.Read.{
  read_tid, read_int, read_text, read_aud, read_texts, decode_app, MandateScan, no_fields,
  mandate_field, repeats_key, strict_map, mandate_step, mandate_loop, from_mandate_plaintext,
}

pub read_int-ne-panic : (v : Value) → read_int v ≢ panic
unfolding read_int
read_int-ne-panic (integer i) h = ground arith
read_int-ne-panic _ h = cc

read_tid-ne-panic : (v : Value) → read_tid v ≢ panic
unfolding read_tid
read_tid-ne-panic (bytes b) h = ground arith
read_tid-ne-panic _ h = cc

pub read_text-ne-panic : (v : Value) → read_text v ≢ panic
unfolding read_text
read_text-ne-panic (text b) h = cc
read_text-ne-panic _ h = cc

read_texts-ne-panic : (xs : Items) → read_texts xs ≢ panic
unfolding read_texts
read_texts-ne-panic no_items = λ q. cc
read_texts-ne-panic (item v xs) =
    >>=-ne-panic (read_text v) _ (read_text-ne-panic v)
      λ s _. >>=-ne-panic (read_texts xs) _ (read_texts-ne-panic xs) λ ss _ q. cc

read_aud-ne-panic : (v : Value) → read_aud v ≢ panic
unfolding read_aud
read_aud-ne-panic (array xs) = read_texts-ne-panic xs
read_aud-ne-panic _ = λ q. cc

-- A key that the loop finds to be reserved is one of the five.
pub find_reserved-any :
    (x : Crates) (k : Value) (ns : List ℤ) (n : ℤ)
    → find_reserved x k ns ≡ some n
    → any (λ r. n ==ℤ r) ns ≡ true
unfolding find_reserved
find_reserved-any x k [] n h = cc
find_reserved-any x k (r ∷ ns) n h = elim (Bool-cases (is_ikey k r)) [
  | inl e ↦
      let found : ◌≡◌ {A = Option ℤ} (some r) (some n) = (rw e at h) in
      let same = (==ℤ_iff n r).1 cc in rw same
  | inr e ↦ rw (find_reserved-any x k ns n (rw e at h)) (ground arith)
]

pub classify_reserved :
    (x : Crates) (k : Value) (n : ℤ)
    → classify x k ≡ reserved n
    → find_reserved x k reserved_keys ≡ some n
unfolding classify
classify_reserved x k n h = go (find_reserved x k reserved_keys) h
  where
    other : (b c : Bool) → (if b then unknown_reserved else if c then app else invalid) ≢ reserved n
    other b c q = ground arith

    go :
        (o : Option ℤ)
        → (elim o [
          | some m ↦ reserved m
          | none ↦
              if is_negative_int x k
              then unknown_reserved
              else if is_integer_or_text k
              then app
              else invalid
        ])
          ≡ reserved n
        → o ≡ some n
    go (some m) e = cc
    go none e = absurd (other (is_negative_int x k) (is_integer_or_text k) e)

mandate_field-ne-panic :
    (n : ℤ) (v : Value) (m : MandateScan)
    → any (λ r. n ==ℤ r) reserved_keys ≡ true
    → mandate_field n v m ≢ panic
unfolding mandate_field
mandate_field-ne-panic n v m h = elim (Bool-cases (n ==ℤ key_tid)) [
  | inl e ↦ rw e (>>=-ne-panic (read_tid v) _ (read_tid-ne-panic v) λ t _ q. cc)
  | inr e1 ↦ elim (Bool-cases (n ==ℤ key_exp)) [
    | inl e ↦ rw (e1, e) (>>=-ne-panic (read_int v) _ (read_int-ne-panic v) λ t _ q. cc)
    | inr e2 ↦ elim (Bool-cases (n ==ℤ key_aud)) [
      | inl e ↦ rw (e1, e2, e) (>>=-ne-panic (read_aud v) _ (read_aud-ne-panic v) λ t _ q. cc)
      | inr e3 ↦ elim (Bool-cases (n ==ℤ key_sub)) [
        | inl e ↦
            rw (e1, e2, e3, e) (>>=-ne-panic (read_text v) _ (read_text-ne-panic v) λ t _ q. cc)
        | inr e4 ↦ elim (Bool-cases (n ==ℤ key_iss)) [
          | inl e ↦
              rw (e1, e2, e3, e4, e)
                (>>=-ne-panic (read_text v) _ (read_text-ne-panic v) λ t _ q. cc)
          | inr e5 ↦ cc (rw (e1, e2, e3, e4, e5) at h)
        ]
      ]
    ]
  ]
]

module _ (x : Crates) where
  mandate_step-ne-panic : (k v : Value) (m : MandateScan) → mandate_step x (k, v) m ≢ panic
  unfolding mandate_step
  mandate_step-ne-panic k v m = go (classify x k) refl
    where
      go :
          (c : KeyKind)
          → classify x k ≡ c
          → (elim c [
            | reserved n ↦ mandate_field n v m
            | unknown_reserved ↦ err unknown_reserved_key
            | app ↦ ok (record m { rest = m.rest ++ (k, v) ∷ [] })
            | invalid ↦ err non_canonical
          ])
            ≢ panic
      go (reserved n) e =
          mandate_field-ne-panic n v m
            (find_reserved-any x k reserved_keys n (classify_reserved x k n e))
      go unknown_reserved e = λ q. cc
      go app e = λ q. cc
      go invalid e = λ q. cc

  pub mandate_loop-ne-panic : (ps : Pairs) (m : MandateScan) → mandate_loop x ps m ≢ panic
  unfolding mandate_loop
  mandate_loop-ne-panic [] m = λ q. cc
  mandate_loop-ne-panic ((k, v) ∷ ps) m =
      >>=-ne-panic (mandate_step x (k, v) m) _ (mandate_step-ne-panic k v m)
        λ m' _. mandate_loop-ne-panic ps m'

  map_entries-ne-panic : (v : Value) → map_entries v malformed ≢ panic
  map_entries-ne-panic (map es) = λ q. cc
  map_entries-ne-panic _ = λ q. cc

  pub strict_map-ne-panic : (plain : Bytes) → strict_map x plain ≢ panic
  unfolding strict_map
  strict_map-ne-panic plain =
      >>=-ne-panic (ok_or (x.from_reader plain) malformed) _ (ok_or-ne-panic _ malformed) λ v _.
        >>=-ne-panic (map_entries v malformed) _ (map_entries-ne-panic v) λ ps _.
          >>=-ne-panic (reject_if (any nan_entry ps) non_canonical) _
            (reject_if-ne-panic _ non_canonical)
            λ _ _.
              >>=-ne-panic (reject_if (any invalid_entry ps) non_canonical) _
                (reject_if-ne-panic _ non_canonical)
                λ _ _.
                  >>=-ne-panic (reject_if (repeats_key x [] ps) non_canonical) _
                    (reject_if-ne-panic _ non_canonical)
                    λ _ _.
                      let same = bytes_eq (encode x (canonicalize x (map (from_list ps)))) plain in
                      >>=-ne-panic (reject_if (not same) non_canonical) _
                        (reject_if-ne-panic _ non_canonical) λ _ _ q. cc

  -- No plaintext makes the reading of a mandate panic; its `unreachable!` is not reached.
  pub from_mandate_plaintext-ne-panic :
      {T : Type 0} (s : Serde T) (plain : Bytes) → from_mandate_plaintext x s plain ≢ panic
  unfolding from_mandate_plaintext decode_app
  from_mandate_plaintext-ne-panic s plain =
      >>=-ne-panic (strict_map x plain) _ (strict_map-ne-panic plain) λ ps _.
        >>=-ne-panic (mandate_loop x ps no_fields) _ (mandate_loop-ne-panic ps no_fields)
          λ m _. >>=-ne-panic (decode_app s m.rest) _ (ok_or-ne-panic _ malformed) λ a _ q. cc
