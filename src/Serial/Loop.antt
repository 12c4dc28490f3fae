-- ===== src/Serial/Loop.antt =====
-- What the loop of `from_mandate_plaintext` collects, whatever the order of the entries.
use obsigil_rs.Prelude.{
  ◌≡◌, ap, ◌∙◌, Bool, true, false, Option, none, some, List, [], ◌∷◌, ◌++◌, append_assoc,
  append-nil, arith, keep, All, ℤ, Result, ok,
}
use obsigil_rs.Types.{Text, NumericDate}
use obsigil_rs.Errors.{Reason}
use obsigil_rs.Cbor.{Value, Pairs}
use obsigil_rs.Crates.{Crates}
use obsigil_rs.Reserved.{Uuid}
use obsigil_rs.Serial.{key_tid, key_exp, key_aud, key_sub, key_iss, is_ikey, classify, app, ikey}
use obsigil_rs.Serial.Read.{
  read_tid, read_int, read_text, read_aud, MandateScan, mandate_step, mandate_loop,
}

-- The value of a result that is one.
abbrev value_of {ℓ} : {A : Type ℓ} → Result Reason A → Option A
value_of (ok a) = some a
value_of _ = none

-- The last of the entries decides; without any, `o` stays.
abbrev pub last_read {ℓ} : {A : Type ℓ} → (Value → Result Reason A) → Pairs → Option A → Option A
last_read f [] o = o
last_read f ((k, v) ∷ ps) o = last_read f ps (value_of (f v))

abbrev pub has_key : ℤ → Value × Value → Bool
has_key n p = is_ikey p.0 n

module _ (x : Crates) where
  -- An entry that the loop accepts: a reserved field of the right type, or the application's.
  pub data IsField : Value × Value → Type 0 where
    tid_field : {v : Value} (t : Uuid) → read_tid v ≡ ok t → IsField (ikey key_tid, v)
    exp_field : {v : Value} (t : NumericDate) → read_int v ≡ ok t → IsField (ikey key_exp, v)
    aud_field : {v : Value} (t : List Text) → read_aud v ≡ ok t → IsField (ikey key_aud, v)
    sub_field : {v : Value} (t : Text) → read_text v ≡ ok t → IsField (ikey key_sub, v)
    iss_field : {v : Value} (t : Text) → read_text v ≡ ok t → IsField (ikey key_iss, v)
    app_field : {k v : Value} → classify x k ≡ app → IsField (k, v)

  abbrev pub is_app_entry : Value × Value → Bool
  is_app_entry (k, v) = elim (classify x k) [ app ↦ true | _ ↦ false ]

  -- What the loop makes of its variables.
  abbrev pub collect : Pairs → MandateScan → MandateScan
  collect ps m = record {
    exp = last_read read_int (keep (has_key key_exp) ps) m.exp;
    tid = last_read read_tid (keep (has_key key_tid) ps) m.tid;
    iss = last_read read_text (keep (has_key key_iss) ps) m.iss;
    aud = last_read read_aud (keep (has_key key_aud) ps) m.aud;
    sub = last_read read_text (keep (has_key key_sub) ps) m.sub;
    rest = m.rest ++ keep is_app_entry ps;
  }

  pub not_reserved :
      (k : Value)
      → classify x k ≡ app
      → (is_ikey k key_tid ≡ false)
        × (is_ikey k key_exp ≡ false)
        × (is_ikey k key_aud ≡ false)
        × (is_ikey k key_sub ≡ false)
        × (is_ikey k key_iss ≡ false)
  unfolding classify
  not_reserved k h = ground arith

  pub is_app_entry_of : (k v : Value) → classify x k ≡ app → is_app_entry (k, v) ≡ true
  is_app_entry_of k v h = rw (h, is_app_entry)

  collect_app :
      (k v : Value) (ps : Pairs) (m : MandateScan)
      → classify x k ≡ app
      → (m' : MandateScan) × (mandate_step x (k, v) m ≡ ok m')
        × (collect ps m' ≡ collect ((k, v) ∷ ps) m)
  unfolding mandate_step
  collect_app k v ps m h =
      let (n1, n2, n3, n4, n5) = not_reserved k h in
      let a = is_app_entry_of k v h in
      (
        record m { rest = m.rest ++ (k, v) ∷ [] },
        rw (h, mandate_step),
        rw (n1, n2, n3, n4, n5, a, append_assoc m.rest ((k, v) ∷ []) (keep is_app_entry ps)),
      )

  pub collect_step :
      (p : Value × Value) (ps : Pairs) (m : MandateScan)
      → IsField p
      → (m' : MandateScan) × (mandate_step x p m ≡ ok m') × (collect ps m' ≡ collect (p ∷ ps) m)
  unfolding mandate_step classify
  collect_step _ ps m (tid_field t h) = (record m { tid = some t }, rw h, rw h)
  collect_step _ ps m (exp_field t h) = (record m { exp = some t }, rw h, rw h)
  collect_step _ ps m (aud_field t h) = (record m { aud = some t }, rw h, rw h)
  collect_step _ ps m (sub_field t h) = (record m { sub = some t }, rw h, rw h)
  collect_step _ ps m (iss_field t h) = (record m { iss = some t }, rw h, rw h)
  collect_step _ ps m (app_field {k} {v} h) = collect_app k v ps m h

  -- On entries that are reserved fields of the right type or the application's, the loop over the
  -- entries ends without an error; it has the last value of each reserved field and, in order, the
  -- application's entries.
  pub mandate_loop-eq-collect :
      (ps : Pairs) (m : MandateScan) → All IsField ps → mandate_loop x ps m ≡ ok (collect ps m)
  unfolding mandate_loop
  mandate_loop-eq-collect [] m h = rw append-nil
  mandate_loop-eq-collect (p ∷ ps) m (h, hs) =
      let (m', hm, same) = collect_step p ps m h in
      rw hm (mandate_loop-eq-collect ps m' hs ∙ ap ok same)
