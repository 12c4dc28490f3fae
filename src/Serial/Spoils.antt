-- ===== src/Serial/Spoils.antt =====
-- Which entry stops the loop of `from_mandate_plaintext` in serial.rs, and with what reason.
use obsigil_rs.Prelude.{
  ◌≡◌, refl, sym, ap, ◌∙◌, ◌↔◌, Bool, true, false, ◌⊎◌, inl, inr, Option, some, List, [], ◌∷◌, ◌++◌,
  arith, All, zero, suc, ℤ, pos, negsuc, ◌==ℤ◌, ==ℤ_iff, any, Bool-cases, Result, ok, err,
}
use mathlib.Core.Path.{subst}
use obsigil_rs.Errors.{Reason, bad_type, unknown_reserved_key, non_canonical}
use obsigil_rs.Cbor.{Value, Pairs, integer}
use obsigil_rs.Crates.{Crates}
use obsigil_rs.Serial.{
  ikey, reserved_keys, find_reserved, classify, KeyKind, reserved, unknown_reserved, app, invalid,
}
use obsigil_rs.Serial.Total.{find_reserved-any, classify_reserved}
use obsigil_rs.Serial.Read.{
  read_tid, read_int, read_text, read_aud, MandateScan, mandate_step, mandate_loop,
}
use obsigil_rs.Serial.Loop.{
  IsField, tid_field, exp_field, aud_field, sub_field, iss_field, app_field, collect_step,
}
use obsigil_rs.Serial.FieldTypes.{
  is_text, is_uuid, is_date, is_audience, is_typed, Reads, read_tid-Reads, read_int-Reads,
  read_text-Reads, read_aud-Reads, mandate_field-mistyped,
}

module _ (x : Crates) where
  -- An entry at which the loop stops: a negative key that no field has, a field that is not of its
  -- type, or a key that is neither an integer nor a text.
  pub data Spoils : Value × Value → Reason → Type 0 where
    unknown :
        {k v : Value} {r : Reason}
        → classify x k ≡ unknown_reserved
        → r ≡ unknown_reserved_key
        → Spoils (k, v) r
    mistyped :
        {k v : Value} {r : Reason} (n : ℤ)
        → classify x k ≡ reserved n
        → is_typed n v ≡ false
        → r ≡ bad_type
        → Spoils (k, v) r
    foreign :
        {k v : Value} {r : Reason} → classify x k ≡ invalid → r ≡ non_canonical → Spoils (k, v) r

  key_of : (k : Value) (ns : List ℤ) (n : ℤ) → find_reserved x k ns ≡ some n → k ≡ ikey n
  unfolding find_reserved
  key_of k [] n h = cc
  key_of (integer i) (r ∷ ns) n h = elim (Bool-cases (i ==ℤ r)) [
    | inl e ↦
        let found : ◌≡◌ {A = Option ℤ} (some r) (some n) = (rw e at h) in
        let same : i ≡ r = (==ℤ_iff i r).0 e in cc
    | inr e ↦ key_of (integer i) ns n (rw e at h)
  ]
  key_of k (r ∷ ns) n h = key_of k ns n h

  made :
      {A : Type 0} {p : Value × Value} (f : Value → Result Reason A) (v : Value) (b : Bool)
      → Reads f v b
      → ((t : A) → f v ≡ ok t → IsField x p)
      → IsField x p ⊎ (b ≡ false)
  made f v true (t, e) k = inl (k t e)
  made f v false e k = inr refl

  -- A reserved entry is a field, or of the wrong type.
  field_cases :
      (n : ℤ) (v : Value)
      → any (λ r. n ==ℤ r) reserved_keys ≡ true
      → IsField x (ikey n, v) ⊎ (is_typed n v ≡ false)
  field_cases (negsuc zero) v h = made read_tid v (is_uuid v) (read_tid-Reads v) tid_field
  field_cases (negsuc (suc zero)) v h = made read_int v (is_date v) (read_int-Reads v) exp_field
  field_cases (negsuc (suc (suc zero))) v h =
      made read_aud v (is_audience v) (read_aud-Reads v) aud_field
  field_cases (negsuc (suc (suc (suc zero)))) v h =
      made read_text v (is_text v) (read_text-Reads v) sub_field
  field_cases (negsuc (suc (suc (suc (suc zero))))) v h =
      made read_text v (is_text v) (read_text-Reads v) iss_field
  field_cases (negsuc (suc (suc (suc (suc (suc n)))))) v h = absurd (ground arith)
  field_cases (pos n) v h = cc

  entry_cases : (p : Value × Value) → IsField x p ⊎ ((r : Reason) × Spoils p r)
  entry_cases (k, v) = go (classify x k) refl
    where
      go : (c : KeyKind) → classify x k ≡ c → IsField x (k, v) ⊎ ((r : Reason) × Spoils (k, v) r)
      go (reserved n) e =
          let found = classify_reserved x k n e in
          let known = find_reserved-any x k reserved_keys n found in
          elim (field_cases n v known) [
            | inl f ↦ inl (subst (λ j. IsField x (j, v)) (sym (key_of k reserved_keys n found)) f)
            | inr w ↦ inr (bad_type, mistyped n e w refl)
          ]
      go unknown_reserved e = inr (unknown_reserved_key, unknown e refl)
      go app e = inl (app_field e)
      go invalid e = inr (non_canonical, foreign e refl)

  step_spoilt :
      (p : Value × Value) (m : MandateScan) (r : Reason) → Spoils p r → mandate_step x p m ≡ err r
  unfolding mandate_step
  step_spoilt (k, v) m r (unknown h e) = rw (h, mandate_step, e)
  step_spoilt (k, v) m r (mistyped n h w e) =
      let known = find_reserved-any x k reserved_keys n (classify_reserved x k n h) in
      rw (h, mandate_step) (mandate_field-mistyped n v m known w ∙ ap err (sym e))
  step_spoilt (k, v) m r (foreign h e) = rw (h, mandate_step, e)

  -- The first entry of a list that is no field.
  pub record StopsAt (ps : Pairs) (r : Reason) : Type 0 where
    pub before : Pairs
    pub spoilt : Value × Value
    pub after : Pairs
    pub split : ps ≡ before ++ spoilt ∷ after
    pub fields : All (IsField x) before
    pub spoils : Spoils spoilt r

  StopsAt-cons :
      (p : Value × Value) (ps : Pairs) (r : Reason)
      → IsField x p
      → StopsAt ps r
      → StopsAt (p ∷ ps) r
  StopsAt-cons p ps r f t = record {
    before = p ∷ t.before;
    spoilt = t.spoilt;
    after = t.after;
    split = ap (λ (l : Pairs). p ∷ l) t.split;
    fields = (f, t.fields);
    spoils = t.spoils;
  }

  loop_sound :
      (ps : Pairs) (m : MandateScan) (r : Reason) → mandate_loop x ps m ≡ err r → StopsAt ps r
  unfolding mandate_loop
  loop_sound [] m r h = cc
  loop_sound (p ∷ ps) m r h = elim (entry_cases p) [
    | inl f ↦
        let (m', e, _) = collect_step x p ps m f in
        StopsAt-cons p ps r f (loop_sound ps m' r (rw e at h))
    | inr (q, w) ↦ record {
      before = [];
      spoilt = p;
      after = ps;
      split = refl;
      fields = tt;
      spoils = subst (Spoils p) (cc (step_spoilt p m q w)) w;
    }
  ]

  loop_complete :
      (before : Pairs) (p : Value × Value) (after : Pairs) (m : MandateScan) (r : Reason)
      → All (IsField x) before
      → Spoils p r
      → mandate_loop x (before ++ p ∷ after) m ≡ err r
  unfolding mandate_loop
  loop_complete [] p after m r f w = rw (step_spoilt p m r w)
  loop_complete (q ∷ before) p after m r (f, fs) w =
      let (m', e, _) = collect_step x q (before ++ p ∷ after) m f in
      rw e (loop_complete before p after m' r fs w)

  -- The loop over the entries ends with a reason exactly when an entry spoils it with that reason
  -- and all entries before it are fields of their types or the application's.
  pub mandate_loop-eq-err_iff :
      (ps : Pairs) (m : MandateScan) (r : Reason) → (mandate_loop x ps m ≡ err r) ↔ StopsAt ps r
  mandate_loop-eq-err_iff ps m r = (
    loop_sound ps m r,
    λ t.
        subst (λ l. mandate_loop x l m ≡ err r) (sym t.split)
          (loop_complete t.before t.spoilt t.after m r t.fields t.spoils),
  )

  -- A loop that ends has met fields and entries of the application only.
  pub All-of_mandate_loop :
      (ps : Pairs) (m m' : MandateScan) → mandate_loop x ps m ≡ ok m' → All (IsField x) ps
  unfolding mandate_loop
  All-of_mandate_loop [] m m' h = tt
  All-of_mandate_loop (p ∷ ps) m m' h = elim (entry_cases p) [
    | inl f ↦
        let (next, e, _) = collect_step x p ps m f in
        (f, All-of_mandate_loop ps next m' (rw e at h))
    | inr (q, w) ↦ cc (rw (step_spoilt p m q w) at h)
  ]
