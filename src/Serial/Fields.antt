-- ===== src/Serial/Fields.antt =====
-- The entries that `to_mandate_plaintext` of serial.rs pushes, as the reading side meets them.
use obsigil_rs.Prelude.{
  ℕ, ◌≡◌, ◌≢◌, refl, sym, ap, ◌∙◌, Bool, true, false, not, ◌||◌, Option, none, some, List, [], ◌∷◌,
  ◌++◌, arith, any, any-append, keep, All, All-append, length, ◌==◌, ℤ, negsuc, in_i64,
  if◌then◌else◌, Result, ok, ◌>>=◌,
}
use obsigil_rs.Prelude as Prelude
use mathlib.Core.Path.{ap₂}
use obsigil_rs.Types.{Text, NumericDate}
use obsigil_rs.Cbor.{Value, item, Pairs, integer, bytes, text, array, items_from_list}
use obsigil_rs.Sort.Unique.{Distinct, Distinct-append}
use obsigil_rs.Crates.{Crates}
use obsigil_rs.Crates.Laws.{CborLaws}
use obsigil_rs.Reserved.{Uuid}
use obsigil_rs.Serial.{
  ikey, key_tid, key_exp, key_aud, key_sub, key_iss, contains_nan, has_invalid_map_key, entry_key,
  encode, canonicalize, canonicalize_items,
}
use obsigil_rs.Serial.Checks.{nan_entry, invalid_entry}
use obsigil_rs.Serial.Keys.{encode_ne}
use obsigil_rs.Serial.Write.{optional, text_array, mandate_entries}
use obsigil_rs.Serial.Read.{read_tid, read_int, read_text, read_aud}
use obsigil_rs.Serial.Loop.{IsField, tid_field, exp_field, aud_field, sub_field, iss_field}
use obsigil_rs.Serial.Assemble.{canonical_pair, canonical_pairs}

pub All-optional {ℓ κ} :
    {A : Type ℓ} (P : Value × Value → Type κ) (o : Option A) (f : A → Value × Value)
    → ((a : A) → P (f a))
    → All P (optional o f)
All-optional P none f h = tt
All-optional P (some a) f h = (h a, tt)

pub read_aud-text_array : (ss : List Text) → read_aud (text_array ss) ≡ ok ss
unfolding read_aud
read_aud-text_array [] = refl
read_aud-text_array (s ∷ ss) = rw (read_aud-text_array ss)

contains_nan-text_array : (ss : List Text) → contains_nan (text_array ss) ≡ false
unfolding contains_nan
contains_nan-text_array [] = refl
contains_nan-text_array (s ∷ ss) = contains_nan-text_array ss

has_invalid_map_key-text_array : (ss : List Text) → has_invalid_map_key (text_array ss) ≡ false
unfolding has_invalid_map_key
has_invalid_map_key-text_array [] = refl
has_invalid_map_key-text_array (s ∷ ss) = has_invalid_map_key-text_array ss

any_of_All : (p : Value × Value → Bool) (ps : Pairs) → All (λ q. p q ≡ false) ps → any p ps ≡ false
any_of_All p [] h = refl
any_of_All p (q ∷ ps) (h, hs) = rw (h, any_of_All p ps hs)

canonicalize_items-texts :
    (x : Crates) (ss : List Text)
    → canonicalize_items x (items_from_list (Prelude.map text ss))
      ≡ items_from_list (Prelude.map text ss)
unfolding canonicalize
canonicalize_items-texts x [] = refl
canonicalize_items-texts x (s ∷ ss) = ap (item (text s)) (canonicalize_items-texts x ss)

canonicalize-text_array :
    (x : Crates) (ss : List Text) → canonicalize x (text_array ss) ≡ text_array ss
unfolding canonicalize
canonicalize-text_array x ss = ap array (canonicalize_items-texts x ss)

plain_pair :
    (x : Crates) (n : ℤ) (v : Value)
    → canonicalize x v ≡ v
    → canonical_pair x (ikey n, v) ≡ (ikey n, v)
unfolding canonicalize
plain_pair x n v h = rw h

single {ℓ} :
    (x : Crates) {A : Type ℓ} (o : Option A) (f : A → Value × Value)
    → Distinct (entry_key x) (optional o f)
single x none f = tt
single x (some a) f = (tt, tt)

module _ (exp : NumericDate) (tid : Uuid) (iss : Option Text) (aud : Option (List Text))
    (sub : Option Text) where
  abbrev pub pushed : Pairs
  pushed = mandate_entries exp tid iss aud sub

  -- A property of each entry that may be there is one of all that are.
  pub All-pushed {κ} :
      (P : Value × Value → Type κ)
      → P (ikey key_tid, bytes tid)
      → P (ikey key_exp, integer exp)
      → ((ss : List Text) → P (ikey key_aud, text_array ss))
      → ((t : Text) → P (ikey key_sub, text t))
      → ((t : Text) → P (ikey key_iss, text t))
      → All P pushed
  All-pushed P ht he ha hs hi = (
    ht,
    (
      he,
      All-append P (optional aud _) _ (All-optional P aud _ ha) (
          All-append P (optional sub _) (optional iss _) (All-optional P sub _ hs)
            (All-optional P iss _ hi)),
    ),
  )

  later {κ} :
      (P : Value × Value → Type κ)
      → ((ss : List Text) → P (ikey key_aud, text_array ss))
      → ((t : Text) → P (ikey key_sub, text t))
      → ((t : Text) → P (ikey key_iss, text t))
      → All P (
          optional aud (λ ss. (ikey key_aud, text_array ss))
          ++ (optional sub (λ s. (ikey key_sub, text s))
              ++ optional iss (λ s. (ikey key_iss, text s))))
  later P ha hs hi = All-append P (optional aud _) _ (All-optional P aud _ ha) (
      All-append P (optional sub _) (optional iss _) (All-optional P sub _ hs)
        (All-optional P iss _ hi))

  pub nan_pushed : any nan_entry pushed ≡ false
  unfolding contains_nan
  nan_pushed = any_of_All nan_entry pushed (
      All-pushed (λ q. nan_entry q ≡ false) refl refl contains_nan-text_array (λ t. refl)
        (λ t. refl))

  pub invalid_pushed : any invalid_entry pushed ≡ false
  unfolding has_invalid_map_key
  invalid_pushed = any_of_All invalid_entry pushed (
      All-pushed (λ q. invalid_entry q ≡ false) refl refl has_invalid_map_key-text_array (λ t. refl)
        (λ t. refl))

  module _ (x : Crates) where
    pub pushed-IsField : length tid ≡ 16 → in_i64 exp ≡ true → All (IsField x) pushed
    pushed-IsField ht he =
        All-pushed (IsField x) (tid_field tid (read16 ht)) (exp_field exp (read64 he))
          (λ ss. aud_field ss (read_aud-text_array ss)) (λ t. sub_field t (reads t))
          (λ t. iss_field t (reads t))
      where
        reads : (t : Text) → read_text (text t) ≡ ok t
        reads t = unfold read_text in refl

        read16 : length tid ≡ 16 → read_tid (bytes tid) ≡ ok tid
        read16 h = unfold read_tid in rw h

        read64 : in_i64 exp ≡ true → read_int (integer exp) ≡ ok exp
        read64 h = unfold read_int in rw h

    pub canonical_pushed : canonical_pairs x pushed ≡ pushed
    unfolding canonicalize
    canonical_pushed = same_pairs pushed (
        All-pushed (λ q. canonical_pair x q ≡ q) (plain_pair x _ _ refl) (plain_pair x _ _ refl)
          (λ ss. plain_pair x _ _ (canonicalize-text_array x ss)) (λ t. plain_pair x _ _ refl)
          (λ t. plain_pair x _ _ refl))
      where
        same_pairs : (ps : Pairs) → All (λ q. canonical_pair x q ≡ q) ps → canonical_pairs x ps ≡ ps
        same_pairs [] h = refl
        same_pairs (q ∷ ps) (h, hs) = ap₂ {C = Pairs} (λ r rs. r ∷ rs) h (same_pairs ps hs)

    pub Distinct-pushed : CborLaws x → Distinct (entry_key x) pushed
    Distinct-pushed l = (
      (
        apart 0 1 refl refl refl,
        later (λ p. encode x (ikey key_tid) ≢ entry_key x p) (λ _. apart 0 2 refl refl refl)
            (λ _. apart 0 3 refl refl refl) (λ _. apart 0 4 refl refl refl),
      ),
      (
        later (λ p. encode x (ikey key_exp) ≢ entry_key x p) (λ _. apart 1 2 refl refl refl)
            (λ _. apart 1 3 refl refl refl) (λ _. apart 1 4 refl refl refl),
        Distinct-append (entry_key x) (optional aud _) _ (single x aud _)
            (Distinct-append (entry_key x) (optional sub _) (optional iss _) (single x sub _)
              (single x iss _)
              (All-optional _ sub _ λ _. All-optional _ iss _ λ _. apart 3 4 refl refl refl))
            (All-optional _ aud _ λ _.
              All-append _ (optional sub _) (optional iss _)
                (All-optional _ sub _ λ _. apart 2 3 refl refl refl)
                (All-optional _ iss _ λ _. apart 2 4 refl refl refl)),
      ),
    )
      where
        apart :
            (n m : ℕ)
            → (n == m) ≡ false
            → in_i64 (negsuc n) ≡ true
            → in_i64 (negsuc m) ≡ true
            → encode x (integer (negsuc n)) ≢ encode x (integer (negsuc m))
        apart n m h hn hm = encode_ne x l (negsuc n) (negsuc m) hn hm (λ e. ground arith)
