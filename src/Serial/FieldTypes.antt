-- ===== src/Serial/FieldTypes.antt =====
-- The types of the reserved fields, and what the readers of serial.rs do on a value.
use obsigil_rs.Prelude.{
  ◌≡◌, refl, Bool, true, false, ◌&&◌, inl, inr, [], ◌∷◌, arith, length, ◌==◌, zero, suc, ℤ, pos,
  negsuc, ◌==ℤ◌, in_i64, any, Bool-cases, Result, ok, err,
}
use mathlib.Core.Path.{subst}
use obsigil_rs.Errors.{Reason, bad_type}
use obsigil_rs.Cbor.{Value, Items, integer, bytes, text, array, no_items, item}
use obsigil_rs.Serial.{reserved_keys}
use obsigil_rs.Serial.Read.{
  read_tid, read_int, read_text, read_texts, read_aud, MandateScan, mandate_field,
}

abbrev pub is_text : Value → Bool
is_text (text s) = true
is_text _ = false

abbrev pub all_texts : Items → Bool
all_texts no_items = true
all_texts (item v xs) = is_text v && all_texts xs

abbrev pub is_uuid : Value → Bool
is_uuid (bytes b) = length b == 16
is_uuid _ = false

abbrev pub is_date : Value → Bool
is_date (integer i) = in_i64 i
is_date _ = false

abbrev pub is_audience : Value → Bool
is_audience (array xs) = all_texts xs
is_audience _ = false

-- The types of the reserved fields: -1 is a token id, -2 a date, -3 an audience, -4 and -5 texts.
abbrev pub is_typed : ℤ → Value → Bool
is_typed (negsuc zero) v = is_uuid v
is_typed (negsuc (suc zero)) v = is_date v
is_typed (negsuc (suc (suc zero))) v = is_audience v
is_typed (negsuc (suc (suc (suc zero)))) v = is_text v
is_typed (negsuc (suc (suc (suc (suc zero))))) v = is_text v
is_typed _ v = false

-- What a reader does on a value, by the test that describes its type.
abbrev pub Reads : {V A : Type 0} → (V → Result Reason A) → V → Bool → Type 0
Reads {A = A} f v true = (a : A) × (f v ≡ ok a)
Reads f v false = f v ≡ err bad_type

pub read_tid-Reads : (v : Value) → Reads read_tid v (is_uuid v)
unfolding read_tid
read_tid-Reads (bytes b) = elim (Bool-cases (length b == 16)) [
  | inl e ↦ rw e (b, rw e)
  | inr e ↦ rw e (rw e)
]
read_tid-Reads _ = refl

pub read_int-Reads : (v : Value) → Reads read_int v (is_date v)
unfolding read_int
read_int-Reads (integer i) = elim (Bool-cases (in_i64 i)) [
  | inl e ↦ rw e (i, rw e)
  | inr e ↦ rw e (rw e)
]
read_int-Reads _ = refl

pub read_text-Reads : (v : Value) → Reads read_text v (is_text v)
unfolding read_text
read_text-Reads (text s) = (s, refl)
read_text-Reads _ = refl

read_texts-Reads : (xs : Items) → Reads read_texts xs (all_texts xs)
unfolding read_texts read_text
read_texts-Reads no_items = ([], refl)
read_texts-Reads (item (text s) xs) = next (all_texts xs) (read_texts-Reads xs)
  where
    next : (b : Bool) → Reads read_texts xs b → Reads read_texts (item (text s) xs) b
    next true (ss, e) = (s ∷ ss, rw e)
    next false e = rw e
read_texts-Reads (item _ xs) = refl

pub read_aud-Reads : (v : Value) → Reads read_aud v (is_audience v)
unfolding read_aud
read_aud-Reads (array xs) = read_texts-Reads xs
read_aud-Reads _ = refl

-- A field that is not of its type is an error, whatever the loop has read before.
pub mandate_field-mistyped :
    (n : ℤ) (v : Value) (m : MandateScan)
    → any (λ r. n ==ℤ r) reserved_keys ≡ true
    → is_typed n v ≡ false
    → mandate_field n v m ≡ err bad_type
unfolding mandate_field
mandate_field-mistyped (negsuc zero) v m k h = rw (subst (Reads read_tid v) h (read_tid-Reads v))
mandate_field-mistyped (negsuc (suc zero)) v m k h =
    rw (subst (Reads read_int v) h (read_int-Reads v))
mandate_field-mistyped (negsuc (suc (suc zero))) v m k h =
    rw (subst (Reads read_aud v) h (read_aud-Reads v))
mandate_field-mistyped (negsuc (suc (suc (suc zero)))) v m k h =
    rw (subst (Reads read_text v) h (read_text-Reads v))
mandate_field-mistyped (negsuc (suc (suc (suc (suc zero))))) v m k h =
    rw (subst (Reads read_text v) h (read_text-Reads v))
mandate_field-mistyped (negsuc (suc (suc (suc (suc (suc n)))))) v m k h = ground arith
mandate_field-mistyped (pos n) v m k h = cc
