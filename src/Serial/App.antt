-- ===== src/Serial/App.antt =====
-- The entries of the application's value in serial.rs, on their way into a half and out of it.
use obsigil_rs.Prelude.{
  ℕ, ◌≡◌, ◌≢◌, refl, sym, true, false, some, [], ◌∷◌, arith, any, All, pos, negsuc, ok,
}
use mathlib.Core.Path.{subst}
use obsigil_rs.Types.{Bytes}
use obsigil_rs.Cbor.{Value, Entries, Pairs, integer, text, map, to_list}
use obsigil_rs.Sort.Unique.{Distinct}
use obsigil_rs.Crates.{Crates, Serde}
use obsigil_rs.Crates.Laws.{CborLaws, is_negative}
use obsigil_rs.Serial.{
  contains_nan, entry_key, encode, canonicalize, is_negative_int, classify, app, is_ikey,
}
use obsigil_rs.Serial.Checks.{nan_entry, invalid_entry}
use obsigil_rs.Serial.Keys.{is_negative_int-eq, is_app_key, classify-eq-kind_of}
use obsigil_rs.Serial.Write.{app_entries}
use obsigil_rs.Serial.Loop.{IsField, app_field, is_app_entry, has_key}
use obsigil_rs.Serial.Assemble.{canonical_pair, canonical_pairs}

abbrev pub AppKeys : Pairs → Type 0
AppKeys = All (λ p. is_app_key p.0 ≡ true)

pub app_key_not_negative : (k : Value) → is_app_key k ≡ true → is_negative k ≡ false
app_key_not_negative (integer (pos n)) h = refl
app_key_not_negative (integer (negsuc n)) h = cc
app_key_not_negative (text t) h = refl
app_key_not_negative _ h = cc

app_key_no_nan : (k : Value) → is_app_key k ≡ true → contains_nan k ≡ false
unfolding contains_nan
app_key_no_nan (integer i) h = refl
app_key_no_nan (text t) h = refl
app_key_no_nan _ h = cc

app_key_not_ikey : (k : Value) (n : ℕ) → is_app_key k ≡ true → is_ikey k (negsuc n) ≡ false
app_key_not_ikey (integer (pos m)) n h = refl
app_key_not_ikey (integer (negsuc m)) n h = cc
app_key_not_ikey (text t) n h = refl
app_key_not_ikey _ n h = cc

-- An application value that the protocol can carry, as the entries `es` that serde makes of it.
pub record IsAppValue (x : Crates) {T : Type 0} (s : Serde T) (a : T) (es : Entries) : Type 0 where
  pub serialized : s.serialized a ≡ ok (map es)
  pub keys : AppKeys (to_list es)
  pub no_nan : any (λ p. contains_nan p.1) (to_list es) ≡ false
  pub portable : any invalid_entry (to_list es) ≡ false
  pub distinct : Distinct (entry_key x) (to_list es)
  -- serde does not depend on the order of a map's entries
  pub deserialized : s.deserialized (canonicalize x (map es)) ≡ some a

module _ (x : Crates) where
  canonicalize_app_key : (k : Value) → is_app_key k ≡ true → canonicalize x k ≡ k
  unfolding canonicalize
  canonicalize_app_key (integer i) h = refl
  canonicalize_app_key (text t) h = refl
  canonicalize_app_key _ h = cc

  not_negative :
      CborLaws x → (ps : Pairs) → AppKeys ps → any (λ p. is_negative_int x p.0) ps ≡ false
  not_negative l [] h = refl
  not_negative l ((k, v) ∷ ps) (h, hs) =
      rw (is_negative_int-eq x l k, app_key_not_negative k h, not_negative l ps hs)

  -- Such a value passes the checks of minting.
  pub app_entries_of :
      {T : Type 0} (s : Serde T) (a : T) (es : Entries)
      → CborLaws x
      → IsAppValue x s a es
      → app_entries x s a ≡ ok (to_list es)
  unfolding app_entries
  app_entries_of s a es l h = rw (h.serialized, not_negative l (to_list es) h.keys, h.no_nan)

  pub nan_app :
      (ps : Pairs) → AppKeys ps → any (λ p. contains_nan p.1) ps ≡ false → any nan_entry ps ≡ false
  nan_app [] h n = refl
  nan_app ((k, v) ∷ ps) (h, hs) n =
      let nan_key = app_key_no_nan k h in let rest = nan_app ps hs in ground arith

  -- Canonicalizing changes no key of the application.
  same_key : (p : Value × Value) → is_app_key p.0 ≡ true → (canonical_pair x p).0 ≡ p.0
  same_key (k, v) h = canonicalize_app_key k h

  pub AppKeys-canonical : (ps : Pairs) → AppKeys ps → AppKeys (canonical_pairs x ps)
  AppKeys-canonical [] h = tt
  AppKeys-canonical (p ∷ ps) (h, hs) =
      (subst (λ k. is_app_key k ≡ true) (sym (same_key p h)) h, AppKeys-canonical ps hs)

  apart_canonical :
      (b : Bytes) (ps : Pairs)
      → AppKeys ps
      → All (λ q. b ≢ entry_key x q) ps
      → All (λ q. b ≢ entry_key x q) (canonical_pairs x ps)
  apart_canonical b [] h d = tt
  apart_canonical b ((k, v) ∷ ps) (h, hs) (d, ds) =
      (subst (λ k'. b ≢ encode x k') (sym (canonicalize_app_key k h)) d, apart_canonical b ps hs ds)

  pub Distinct-canonical :
      (ps : Pairs)
      → AppKeys ps
      → Distinct (entry_key x) ps
      → Distinct (entry_key x) (canonical_pairs x ps)
  Distinct-canonical [] h d = tt
  Distinct-canonical ((k, v) ∷ ps) (h, hs) (d, ds) = (
    subst (λ k'. All (λ q. encode x k' ≢ entry_key x q) (canonical_pairs x ps))
        (sym (canonicalize_app_key k h)) (apart_canonical (encode x k) ps hs d),
    Distinct-canonical ps hs ds,
  )

  pub classify_app_key : CborLaws x → (k : Value) → is_app_key k ≡ true → classify x k ≡ app
  classify_app_key l (integer (pos n)) h = classify-eq-kind_of x l (integer (pos n))
  classify_app_key l (integer (negsuc n)) h = cc
  classify_app_key l (text t) h = classify-eq-kind_of x l (text t)
  classify_app_key l _ h = cc

  pub app-IsField : CborLaws x → (ps : Pairs) → AppKeys ps → All (IsField x) ps
  app-IsField l [] h = tt
  app-IsField l ((k, v) ∷ ps) (h, hs) = (app_field (classify_app_key l k h), app-IsField l ps hs)

  pub app-is_app_entry :
      CborLaws x → (ps : Pairs) → AppKeys ps → All (λ p. is_app_entry x p ≡ true) ps
  app-is_app_entry l [] h = tt
  app-is_app_entry l ((k, v) ∷ ps) (h, hs) =
      (rw (classify_app_key l k h, is_app_entry), app-is_app_entry l ps hs)

  -- No entry of the application lies in the reserved namespace.
  pub app-not_reserved :
      (ps : Pairs) (n : ℕ) → AppKeys ps → All (λ p. has_key (negsuc n) p ≡ false) ps
  app-not_reserved [] n h = tt
  app-not_reserved ((k, v) ∷ ps) n (h, hs) = (app_key_not_ikey k n h, app-not_reserved ps n hs)
