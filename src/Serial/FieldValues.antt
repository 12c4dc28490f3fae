-- ===== src/Serial/FieldValues.antt =====
-- The values of the reserved fields, in serial.rs, and the entries that stand for them.
use mathlib.Core.Path.{ap₂}
use obsigil_rs.Prelude.{
  ◌≡◌, ◌≢◌, refl, sym, ap, ◌∙◌, Bool, true, false, ◌⊎◌, inl, inr, Option, none, some, List, [], ◌∷◌,
  ◌++◌, append_assoc, append-nil, arith, length, ◌==◌, in_i64, ◌==ℤ◌, ==ℤ_iff, All, All-append,
  ok_or, ok_or-eq-ok, ℤ, Bool-cases, ok, Result, >>=-eq-ok, ok_injective,
}
use obsigil_rs.Prelude as Prelude
use obsigil_rs.Types.{Text, NumericDate}
use obsigil_rs.Cbor.{
  Value, Items, Pairs, integer, bytes, text, array, no_items, item, items_from_list,
}
use obsigil_rs.Reserved.{Uuid}
use obsigil_rs.Serial.{ikey, key_tid, key_exp, key_aud, key_sub, key_iss}
use obsigil_rs.Serial.Write.{optional, text_array}
use obsigil_rs.Serial.Read.{read_tid, read_int, read_text, read_texts, read_aud, MandateScan}

-- A field is what its value is written as.
pub tid_value : (v : Value) (t : Uuid) → read_tid v ≡ ok t → v ≡ bytes t
unfolding read_tid
tid_value (bytes b) t h = elim (Bool-cases (length b == 16)) [
  | inl e ↦ ap bytes (ok_injective (rw e at h))
  | inr e ↦ cc (rw e at h)
]
tid_value _ t h = cc

pub int_value : (v : Value) (n : NumericDate) → read_int v ≡ ok n → v ≡ integer n
unfolding read_int
int_value (integer i) n h = elim (Bool-cases (in_i64 i)) [
  | inl e ↦ ap integer (ok_injective (rw e at h))
  | inr e ↦ cc (rw e at h)
]
int_value _ n h = cc

pub text_value : (v : Value) (s : Text) → read_text v ≡ ok s → v ≡ text s
unfolding read_text
text_value (text s) t h = ap text (ok_injective h)
text_value _ t h = cc

texts_value :
    (xs : Items) (ss : List Text)
    → read_texts xs ≡ ok ss
    → xs ≡ items_from_list (Prelude.map text ss)
unfolding read_texts
texts_value no_items ss h = ap (λ l. items_from_list (Prelude.map text l)) (ok_injective h)
texts_value (item v xs) ss h =
    let (s, hs, h1) = >>=-eq-ok (read_text v) _ h in
    let (rest, hr, same) = >>=-eq-ok (read_texts xs) _ h1 in
    ap₂ item (text_value v s hs) (texts_value xs rest hr)
    ∙ ap (λ l. items_from_list (Prelude.map text l)) (ok_injective same)

pub aud_value : (v : Value) (ss : List Text) → read_aud v ≡ ok ss → v ≡ text_array ss
unfolding read_aud
aud_value (array xs) ss h = ap array (texts_value xs ss h)
aud_value _ ss h = cc

-- The entries that stand for the variables of the loop.
abbrev pub tids : MandateScan → Pairs
tids m = optional m.tid (λ t. (ikey key_tid, bytes t))

abbrev pub exps : MandateScan → Pairs
exps m = optional m.exp (λ n. (ikey key_exp, integer n))

abbrev pub auds : MandateScan → Pairs
auds m = optional m.aud (λ ss. (ikey key_aud, text_array ss))

abbrev pub subs : MandateScan → Pairs
subs m = optional m.sub (λ s. (ikey key_sub, text s))

abbrev pub isss : MandateScan → Pairs
isss m = optional m.iss (λ s. (ikey key_iss, text s))

abbrev pub entries_of : MandateScan → Pairs
entries_of m = m.rest ++ (tids m ++ (exps m ++ (auds m ++ (subs m ++ isss m))))
