-- ===== src/Serial/Strict.antt =====
-- `strict_map` of serial.rs accepts exactly the canonical encodings of well-formed maps.
use obsigil_rs.Prelude.{
  ◌≡◌, ◌≢◌, refl, sym, ap, ◌∙◌, ◌↔◌, Bool, true, false, not, ◌||◌, inl, inr, some, List, [], ◌∷◌,
  arith, any, All, bytes_eq, bytes_eq→eq, bytes_eq_refl, Bool-cases, ok, ok_or, reject_if,
  >>=-eq-ok, reject_if-eq-ok, ok_or-eq-ok, ok_injective,
}
use mathlib.Core.Path.{subst}
use obsigil_rs.Types.{Bytes}
use obsigil_rs.Errors.{malformed, non_canonical}
use obsigil_rs.Cbor.{Value, Pairs, map, from_list}
use obsigil_rs.Cbor.Vectors.{to_list-from_list, from_list-to_list}
use obsigil_rs.Sort.Unique.{Distinct}
use obsigil_rs.Crates.{Crates}
use obsigil_rs.Serial.{encode, entry_key, canonicalize}
use obsigil_rs.Serial.Checks.{nan_entry, invalid_entry}
use obsigil_rs.Serial.Write.{map_entries}
use obsigil_rs.Serial.Read.{seen_before, repeats_key, strict_map}

pub map_entries-eq-ok :
    (v : Value) (ps : Pairs) → map_entries v malformed ≡ ok ps → v ≡ map (from_list ps)
map_entries-eq-ok (map es) ps h =
    ap map (sym (from_list-to_list es) ∙ ap from_list (ok_injective h))
map_entries-eq-ok _ ps h = cc

module _ (x : Crates) where
  Unseen : List Bytes → Value × Value → Type 0
  Unseen seen p = seen_before seen (entry_key x p) ≡ false

  Unseen-next :
      (seen : List Bytes) (b : Bytes) (ps : Pairs)
      → All (λ p. b ≢ entry_key x p) ps
      → All (Unseen seen) ps
      → All (Unseen (b ∷ seen)) ps
  unfolding Unseen
  Unseen-next seen b [] h k = tt
  Unseen-next seen b (p ∷ ps) (h, hs) (k, ks) = (fresh, Unseen-next seen b ps hs ks)
    where
      fresh : seen_before (b ∷ seen) (entry_key x p) ≡ false
      fresh = elim (Bool-cases (bytes_eq (entry_key x p) b)) [
        | inl e ↦ absurd (h (sym (bytes_eq→eq _ _ e)))
        | inr e ↦ rw (e, k)
      ]

  repeats_key_of_Distinct :
      (seen : List Bytes) (ps : Pairs)
      → All (Unseen seen) ps
      → Distinct (entry_key x) ps
      → repeats_key x seen ps ≡ false
  unfolding repeats_key Unseen
  repeats_key_of_Distinct seen [] h d = refl
  repeats_key_of_Distinct seen ((k, v) ∷ ps) (h, hs) (dk, ds) =
      rw h
        (repeats_key_of_Distinct (encode x k ∷ seen) ps (Unseen-next seen (encode x k) ps dk hs) ds)

  All-Unseen : (ps : Pairs) → All (Unseen []) ps
  unfolding Unseen
  All-Unseen [] = tt
  All-Unseen (p ∷ ps) = (refl, All-Unseen ps)

  seen_apart :
      (seen : List Bytes) (b : Bytes) (ps : Pairs)
      → repeats_key x seen ps ≡ false
      → seen_before seen b ≡ true
      → All (λ p. b ≢ entry_key x p) ps
  unfolding repeats_key
  seen_apart seen b [] h s = tt
  seen_apart seen b ((k, v) ∷ ps) h s = elim (Bool-cases (seen_before seen (encode x k))) [
    | inl e ↦ cc (rw e at h)
    | inr e ↦ (
      λ q. cc (e, subst (λ c. seen_before seen c ≡ true) q s),
      seen_apart (encode x k ∷ seen) b ps (rw e at h) (later (bytes_eq b (encode x k)) s),
    )
  ]
    where
      later : (c : Bool) → seen_before seen b ≡ true → (c || seen_before seen b) ≡ true
      later c s = ground arith

  Distinct-of_repeats_key :
      (seen : List Bytes) (ps : Pairs) → repeats_key x seen ps ≡ false → Distinct (entry_key x) ps
  unfolding repeats_key
  Distinct-of_repeats_key seen [] h = tt
  Distinct-of_repeats_key seen ((k, v) ∷ ps) h = elim (Bool-cases (seen_before seen (encode x k))) [
    | inl e ↦ cc (rw e at h)
    | inr e ↦
        let h' = rw e at h in
        (
          seen_apart (encode x k ∷ seen) (encode x k) ps h' (itself (encode x k)),
          Distinct-of_repeats_key (encode x k ∷ seen) ps h',
        )
  ]
    where
      itself : (b : Bytes) → seen_before (b ∷ seen) b ≡ true
      itself b = rw (bytes_eq_refl b)

  -- What `strict_map` promises of the entries that it returns.
  pub record IsStrict (plain : Bytes) (ps : Pairs) : Type 0 where
    pub decoded : x.from_reader plain ≡ some (map (from_list ps))
    pub no_nan : any nan_entry ps ≡ false
    pub portable : any invalid_entry ps ≡ false
    pub distinct : Distinct (entry_key x) ps
    pub canonical : encode x (canonicalize x (map (from_list ps))) ≡ plain

  strict_map_sound : (plain : Bytes) (ps : Pairs) → strict_map x plain ≡ ok ps → IsStrict plain ps
  unfolding strict_map
  strict_map_sound plain ps h =
      let (v, hv, h1) = >>=-eq-ok (ok_or (x.from_reader plain) malformed) _ h in
      let (qs, hq, h2) = >>=-eq-ok (map_entries v malformed) _ h1 in
      let (_, hn, h3) = >>=-eq-ok (reject_if (any nan_entry qs) non_canonical) _ h2 in
      let (_, hi, h4) = >>=-eq-ok (reject_if (any invalid_entry qs) non_canonical) _ h3 in
      let (_, hd, h5) = >>=-eq-ok (reject_if (repeats_key x [] qs) non_canonical) _ h4 in
      let same = bytes_eq (encode x (canonicalize x (map (from_list qs)))) plain in
      let (_, hc, h6) = >>=-eq-ok (reject_if (not same) non_canonical) _ h5 in
      subst (IsStrict plain) (ok_injective h6) (record {
        decoded = ok_or-eq-ok _ malformed hv ∙ ap some (map_entries-eq-ok v qs hq);
        no_nan = reject_if-eq-ok _ non_canonical hn;
        portable = reject_if-eq-ok _ non_canonical hi;
        distinct = Distinct-of_repeats_key [] qs (reject_if-eq-ok _ non_canonical hd);
        canonical = bytes_eq→eq _ plain (not_not same (reject_if-eq-ok _ non_canonical hc));
      })
    where
      not_not : (b : Bool) → not b ≡ false → b ≡ true
      not_not b k = ground arith

  strict_map_complete :
      (plain : Bytes) (ps : Pairs) → IsStrict plain ps → strict_map x plain ≡ ok ps
  unfolding strict_map
  strict_map_complete plain ps t = rw (
    t.decoded,
    to_list-from_list ps,
    t.no_nan,
    t.portable,
    repeats_key_of_Distinct [] ps (All-Unseen ps) t.distinct,
    t.canonical,
    bytes_eq_refl plain,
  )

  -- `strict_map` returns given entries exactly when the plaintext decodes to the map of them, none
  -- holds a NaN, every key at every depth is an integer or a text, no encoded key repeats, and the
  -- canonical encoding of the map is the plaintext.
  pub strict_map-eq-ok_iff :
      (plain : Bytes) (ps : Pairs) → (strict_map x plain ≡ ok ps) ↔ IsStrict plain ps
  strict_map-eq-ok_iff plain ps = (strict_map_sound plain ps, strict_map_complete plain ps)
