-- ===== src/Serial/RoundTrip.antt =====
-- What `to_mandate_plaintext` of serial.rs writes, `from_mandate_plaintext` reads back.
use obsigil_rs.Prelude.{
  ℕ, ◌≡◌, ◌≢◌, refl, sym, ap, ◌∙◌, Bool, true, false, ◌||◌, Option, none, some, List, [], ◌∷◌, ◌++◌,
  append-nil, arith, any-append, All, All-append, keep, keep-append, keep-All, keep_none, length,
  if◌then◌else◌, ℤ, negsuc, in_i64, Result, ok,
}
use mathlib.Core.Path.{subst, ap₂}
use obsigil_rs.Types.{Text, NumericDate}
use obsigil_rs.Errors.{Reason}
use obsigil_rs.Cbor.{Value, Entries, Pairs, text, map, to_list, from_list}
use obsigil_rs.Cbor.Vectors.{from_list-to_list}
use obsigil_rs.Sort.{insert, sort_by_cached_key}
use obsigil_rs.Sort.Laws.{All-sort}
use obsigil_rs.Sort.Kept.{keep-sort}
use obsigil_rs.Sort.Unique.{Distinct, Distinct-append}
use obsigil_rs.Crates.{Crates, Serde}
use obsigil_rs.Crates.Laws.{CborLaws}
use obsigil_rs.Reserved.{Uuid}
use obsigil_rs.Serial.{
  ikey, key_tid, key_exp, key_aud, key_sub, key_iss, entry_key, encode, canonicalize, classify,
}
use obsigil_rs.Serial.Checks.{nan_entry, invalid_entry}
use obsigil_rs.Serial.Keys.{encode_apart}
use obsigil_rs.Serial.Write.{assemble, to_mandate_plaintext, optional, text_array}
use obsigil_rs.Serial.Read.{
  read_tid, read_int, read_text, read_aud, decode_app, no_fields, from_mandate_plaintext,
}
use obsigil_rs.Serial.Loop.{IsField, last_read, has_key, is_app_entry, mandate_loop-eq-collect}
use obsigil_rs.Serial.Assemble.{
  canonical_pair, canonical_pairs, sorted_pairs, canonicalize-map, IsPayload, strict_map-assemble,
}
use obsigil_rs.Serial.Fields.{
  read_aud-text_array, pushed, All-pushed, nan_pushed, invalid_pushed, pushed-IsField,
  canonical_pushed, Distinct-pushed,
}
use obsigil_rs.Serial.App.{
  AppKeys, app_key_not_negative, IsAppValue, app_entries_of, nan_app, AppKeys-canonical,
  Distinct-canonical, app-IsField, app-is_app_entry, app-not_reserved,
}

pub canonical_pairs-append :
    (x : Crates) (ps qs : Pairs)
    → canonical_pairs x (ps ++ qs) ≡ canonical_pairs x ps ++ canonical_pairs x qs
canonical_pairs-append x [] qs = refl
canonical_pairs-append x (p ∷ ps) qs =
    ap (λ (t : Pairs). canonical_pair x p ∷ t) (canonical_pairs-append x ps qs)

keep-optional {ℓ} :
    {A : Type ℓ} (p : Value × Value → Bool) (b : Bool) (o : Option A) (f : A → Value × Value)
    → ((a : A) → p (f a) ≡ b)
    → keep p (optional o f) ≡ (if b then optional o f else [])
keep-optional p b none f h = ground arith
keep-optional p b (some a) f h = rw (h a) (ground arith)

module _ (x : Crates) where
  last_read-optional {ℓ} :
      {A : Type ℓ} (r : Value → Result Reason A) (o : Option A) (f : A → Value × Value)
      → ((a : A) → r ((f a).1) ≡ ok a)
      → last_read r (sort_by_cached_key (entry_key x) (optional o f)) none ≡ o
  unfolding sort_by_cached_key insert
  last_read-optional r none f h = refl
  last_read-optional r (some a) f h = rw (h a)

  module _ (exp : NumericDate) (tid : Uuid) (iss : Option Text) (aud : Option (List Text))
      (sub : Option Text) where
    abbrev fields : Pairs
    fields = pushed exp tid iss aud sub

    -- The entries with one of the keys, after sorting.
    abbrev found : ℤ → Pairs
    found n = sort_by_cached_key (entry_key x) (keep (has_key n) fields)

    keep_later :
        (p : Value × Value → Bool) (ba bs bi : Bool)
        → ((ss : List Text) → p (ikey key_aud, text_array ss) ≡ ba)
        → ((t : Text) → p (ikey key_sub, text t) ≡ bs)
        → ((t : Text) → p (ikey key_iss, text t) ≡ bi)
        → keep p (
            optional aud (λ ss. (ikey key_aud, text_array ss))
            ++ (optional sub (λ s. (ikey key_sub, text s))
                ++ optional iss (λ s. (ikey key_iss, text s))))
          ≡ (if ba then optional aud (λ ss. (ikey key_aud, text_array ss)) else [])
            ++ ((if bs then optional sub (λ s. (ikey key_sub, text s)) else [])
                ++ (if bi then optional iss (λ s. (ikey key_iss, text s)) else []))
    keep_later p ba bs bi ha hs hi = rw (
      keep-append p (optional aud (λ ss. (ikey key_aud, text_array ss))),
      keep-append p (optional sub (λ s. (ikey key_sub, text s))),
      keep-optional p ba aud (λ ss. (ikey key_aud, text_array ss)) ha,
      keep-optional p bs sub (λ s. (ikey key_sub, text s)) hs,
      keep-optional p bi iss (λ s. (ikey key_iss, text s)) hi,
    )

    found_tid : length tid ≡ 16 → last_read read_tid (found key_tid) none ≡ some tid
    unfolding sort_by_cached_key insert read_tid
    found_tid h =
        rw (keep_later (has_key key_tid) false false false (λ _. refl) (λ _. refl) (λ _. refl), h)

    found_exp : in_i64 exp ≡ true → last_read read_int (found key_exp) none ≡ some exp
    unfolding sort_by_cached_key insert read_int
    found_exp h =
        rw (keep_later (has_key key_exp) false false false (λ _. refl) (λ _. refl) (λ _. refl), h)

    found_aud : last_read read_aud (found key_aud) none ≡ aud
    found_aud =
        rw
          (
            keep_later (has_key key_aud) true false false (λ _. refl) (λ _. refl) (λ _. refl),
            append-nil,
          )
          (last_read-optional read_aud aud _ read_aud-text_array)

    found_sub : last_read read_text (found key_sub) none ≡ sub
    unfolding read_text
    found_sub =
        rw
          (
            keep_later (has_key key_sub) false true false (λ _. refl) (λ _. refl) (λ _. refl),
            append-nil,
          )
          (last_read-optional read_text sub _ (λ _. refl))

    found_iss : last_read read_text (found key_iss) none ≡ iss
    unfolding read_text
    found_iss =
        rw (keep_later (has_key key_iss) false false true (λ _. refl) (λ _. refl) (λ _. refl))
          (last_read-optional read_text iss _ (λ _. refl))

    no_app_fields : keep (is_app_entry x) fields ≡ []
    unfolding classify
    no_app_fields = keep_none (is_app_entry x) fields (
        All-pushed exp tid iss aud sub (λ p. is_app_entry x p ≡ false) refl refl (λ _. refl)
          (λ _. refl) (λ _. refl))

    fields_apart :
        CborLaws x
        → (ps : Pairs) → AppKeys ps
        → All (λ p. All (λ q. entry_key x p ≢ entry_key x q) fields) ps
    fields_apart l [] h = tt
    fields_apart l ((k, v) ∷ ps) (h, hs) =
        let away = λ (n : ℕ). encode_apart x l k n (app_key_not_negative k h) in
        (
          All-pushed exp tid iss aud sub (λ q. encode x k ≢ entry_key x q) (away 0) (away 1)
              (λ _. away 2) (λ _. away 3) (λ _. away 4),
          fields_apart l ps hs,
        )

    module _ {T : Type 0} (s : Serde T) (a : T) (es : Entries) where
      -- The entries that are encoded: the application's, then the fields.
      abbrev pub all_entries : Pairs
      all_entries = to_list es ++ fields

      canonical_all : canonical_pairs x all_entries ≡ canonical_pairs x (to_list es) ++ fields
      canonical_all =
          canonical_pairs-append x (to_list es) fields
          ∙ ap (λ (t : Pairs). canonical_pairs x (to_list es) ++ t)
              (canonical_pushed exp tid iss aud sub x)

      all-IsPayload : CborLaws x → IsAppValue x s a es → IsPayload x all_entries
      all-IsPayload l h =
          let app = canonical_pairs x (to_list es) in
          let keys = AppKeys-canonical x (to_list es) h.keys in
          record {
            no_nan =
                any-append nan_entry (to_list es) fields
                ∙ ap₂ ◌||◌ (nan_app x (to_list es) h.keys h.no_nan)
                    (nan_pushed exp tid iss aud sub);
            portable =
                any-append invalid_entry (to_list es) fields
                ∙ ap₂ ◌||◌ h.portable (invalid_pushed exp tid iss aud sub);
            distinct = subst (Distinct (entry_key x)) (sym canonical_all) (
                Distinct-append (entry_key x) app fields
                  (Distinct-canonical x (to_list es) h.keys h.distinct)
                  (Distinct-pushed exp tid iss aud sub x l) (fields_apart l app keys));
          }

      -- Of the sorted entries, those with one reserved key.
      reserved_of_sorted :
          (n : ℕ)
          → AppKeys (to_list es)
          → keep (has_key (negsuc n)) (sorted_pairs x all_entries) ≡ found (negsuc n)
      reserved_of_sorted n h =
          let app = canonical_pairs x (to_list es) in
          let keys = AppKeys-canonical x (to_list es) h in
          keep-sort (entry_key x) (has_key (negsuc n)) (canonical_pairs x all_entries)
          ∙ ap (sort_by_cached_key (entry_key x)) (
              ap (keep (has_key (negsuc n))) canonical_all
              ∙ keep-append (has_key (negsuc n)) app fields
              ∙ ap (λ (t : Pairs). t ++ keep (has_key (negsuc n)) fields)
                  (keep_none (has_key (negsuc n)) app (app-not_reserved x app n keys)))

      -- And the others: the application's own entries, sorted.
      app_of_sorted :
          CborLaws x
          → AppKeys (to_list es)
          → keep (is_app_entry x) (sorted_pairs x all_entries) ≡ sorted_pairs x (to_list es)
      app_of_sorted l h =
          let app = canonical_pairs x (to_list es) in
          let keys = AppKeys-canonical x (to_list es) h in
          keep-sort (entry_key x) (is_app_entry x) (canonical_pairs x all_entries)
          ∙ ap (sort_by_cached_key (entry_key x)) (
              ap (keep (is_app_entry x)) canonical_all
              ∙ keep-append (is_app_entry x) app fields
              ∙ ap₂ {C = Pairs} (λ t u. t ++ u)
                  (keep-All (is_app_entry x) app (app-is_app_entry x l app keys)) no_app_fields
              ∙ append-nil app)

      sorted-IsField :
          CborLaws x
          → AppKeys (to_list es)
          → length tid ≡ 16
          → in_i64 exp ≡ true
          → All (IsField x) (sorted_pairs x all_entries)
      sorted-IsField l h ht he =
          let app = canonical_pairs x (to_list es) in
          let keys = AppKeys-canonical x (to_list es) h in
          All-sort (entry_key x) (IsField x) (canonical_pairs x all_entries) (
            subst (All (IsField x)) (sym canonical_all) (
              All-append (IsField x) app fields (app-IsField x l app keys)
                (pushed-IsField exp tid iss aud sub x ht he)))

      decoded_app : IsAppValue x s a es → decode_app s (sorted_pairs x (to_list es)) ≡ ok a
      unfolding decode_app
      decoded_app h =
          let same : s.deserialized (map (from_list (sorted_pairs x (to_list es)))) ≡ some a =
            (ap s.deserialized (
                sym (canonicalize-map x (to_list es))
                ∙ ap (λ (e : Entries). canonicalize x (map e)) (from_list-to_list es))
              ∙ h.deserialized) in
          rw same

      -- An application value that serde maps to entries with distinct application keys, without NaN
      -- and without forbidden keys, and that serde reads back from those entries in canonical
      -- order, is written with the reserved fields and read back, all fields and the value
      -- unchanged, if `exp` fits i64, `tid` has 16 bytes, CBOR keeps its laws and the reader reads
      -- the written map back.
      pub from_mandate_plaintext-to_mandate_plaintext :
          CborLaws x
          → IsAppValue x s a es
          → in_i64 exp ≡ true
          → length tid ≡ 16
          → x.from_reader (assemble x all_entries)
            ≡ some (canonicalize x (map (from_list all_entries)))
          → (to_mandate_plaintext x s exp tid iss aud sub a ≡ ok (assemble x all_entries))
            × (from_mandate_plaintext x s (assemble x all_entries)
                ≡ ok (record {
                  exp = some exp;
                  tid = some tid;
                  iss = iss;
                  aud = aud;
                  sub = sub;
                  app = a;
                }))
      unfolding to_mandate_plaintext from_mandate_plaintext
      from_mandate_plaintext-to_mandate_plaintext l h he ht reads = (
        rw (app_entries_of x s a es l h),
        rw (
          strict_map-assemble x all_entries (all-IsPayload l h) reads,
          mandate_loop-eq-collect x (sorted_pairs x all_entries) no_fields
              (sorted-IsField l h.keys ht he),
          reserved_of_sorted 0 h.keys,
          reserved_of_sorted 1 h.keys,
          reserved_of_sorted 2 h.keys,
          reserved_of_sorted 3 h.keys,
          reserved_of_sorted 4 h.keys,
          app_of_sorted l h.keys,
          found_tid ht,
          found_exp he,
          found_aud,
          found_sub,
          found_iss,
          decoded_app h,
        ),
      )
