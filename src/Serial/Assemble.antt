-- ===== src/Serial/Assemble.antt =====
-- What `assemble` of serial.rs writes, `strict_map` reads; and the order of the entries is no input.
use mathlib.Core.List.{Perm, Permᴰ}
use mathlib.Core.Logic.{∥∥₁_elim}
use obsigil_rs.Prelude.{◌≡◌, refl, sym, ap, ◌∙◌, false, some, [], ◌∷◌, any, ok}
use obsigil_rs.Types.{Bytes}
use obsigil_rs.Cbor.{Value, Pairs, map, to_list, from_list}
use obsigil_rs.Sort.{sort_by_cached_key}
use obsigil_rs.Sort.Laws.{any-sort}
use obsigil_rs.Sort.Unique.{Distinct, Distinct-sort, sort_unique}
use obsigil_rs.Crates.{Crates}
use obsigil_rs.Serial.{encode, entry_key, canonicalize, canonicalize_entries}
use obsigil_rs.Serial.Checks.{
  nan_entry, invalid_entry, contains_nan-canonicalize, has_invalid_map_key-canonicalize,
  is_integer_or_text-canonicalize,
}
use obsigil_rs.Serial.Canonical.{canonicalize_idem}
use obsigil_rs.Serial.Write.{assemble}
use obsigil_rs.Serial.Read.{strict_map}
use obsigil_rs.Serial.Strict.{strict_map-eq-ok_iff}

module _ (x : Crates) where
  -- An entry with both parts in canonical form.
  abbrev pub canonical_pair : Value × Value → Value × Value
  canonical_pair (k, v) = (canonicalize x k, canonicalize x v)

  abbrev pub canonical_pairs : Pairs → Pairs
  canonical_pairs [] = []
  canonical_pairs (p ∷ ps) = canonical_pair p ∷ canonical_pairs ps

  -- The entries of the map that `assemble` encodes.
  abbrev pub sorted_pairs : Pairs → Pairs
  sorted_pairs ps = sort_by_cached_key (entry_key x) (canonical_pairs ps)

  to_list-canonicalize :
      (ps : Pairs) → to_list (canonicalize_entries x (from_list ps)) ≡ canonical_pairs ps
  unfolding canonicalize
  to_list-canonicalize [] = refl
  to_list-canonicalize ((k, v) ∷ ps) =
      ap (λ (t : Pairs). canonical_pair (k, v) ∷ t) (to_list-canonicalize ps)

  pub canonicalize-map :
      (ps : Pairs) → canonicalize x (map (from_list ps)) ≡ map (from_list (sorted_pairs ps))
  unfolding canonicalize
  canonicalize-map ps =
      ap (λ (qs : Pairs). map (from_list (sort_by_cached_key (entry_key x) qs)))
        (to_list-canonicalize ps)

  pub nan_pairs : (ps : Pairs) → any nan_entry (canonical_pairs ps) ≡ any nan_entry ps
  nan_pairs [] = refl
  nan_pairs ((k, v) ∷ ps) =
      rw (contains_nan-canonicalize x k, contains_nan-canonicalize x v, nan_pairs ps)

  pub invalid_pairs : (ps : Pairs) → any invalid_entry (canonical_pairs ps) ≡ any invalid_entry ps
  invalid_pairs [] = refl
  invalid_pairs ((k, v) ∷ ps) =
      cc (
        is_integer_or_text-canonicalize x k,
        has_invalid_map_key-canonicalize x v,
        invalid_pairs ps,
      )

  -- Entries that `strict_map` lets through once they are encoded.
  pub record IsPayload (ps : Pairs) : Type 0 where
    pub no_nan : any nan_entry ps ≡ false
    pub portable : any invalid_entry ps ≡ false
    pub distinct : Distinct (entry_key x) (canonical_pairs ps)

  -- The encoded map passes the strict reading and comes back with its entries in canonical order,
  -- if the CBOR reader reads back what the CBOR writer wrote.
  pub strict_map-assemble :
      (ps : Pairs)
      → IsPayload ps
      → x.from_reader (assemble x ps) ≡ some (canonicalize x (map (from_list ps)))
      → strict_map x (assemble x ps) ≡ ok (sorted_pairs ps)
  unfolding assemble
  strict_map-assemble ps h reads =
      (strict_map-eq-ok_iff x (assemble x ps) (sorted_pairs ps)).1 (record {
        decoded = reads ∙ ap some (canonicalize-map ps);
        no_nan = any-sort (entry_key x) nan_entry (canonical_pairs ps) ∙ nan_pairs ps ∙ h.no_nan;
        portable =
            any-sort (entry_key x) invalid_entry (canonical_pairs ps)
            ∙ invalid_pairs ps
            ∙ h.portable;
        distinct = Distinct-sort (entry_key x) (canonical_pairs ps) h.distinct;
        canonical =
            ap (λ (v : Value). encode x (canonicalize x v)) (sym (canonicalize-map ps))
            ∙ ap (encode x) (canonicalize_idem x (map (from_list ps)));
      })

  canonical_pairs-perm :
      {ps qs : Pairs} → Permᴰ ps qs → Permᴰ (canonical_pairs ps) (canonical_pairs qs)
  canonical_pairs-perm Permᴰ.nil = Permᴰ.nil
  canonical_pairs-perm (Permᴰ.cons e d) = Permᴰ.cons (ap canonical_pair e) (canonical_pairs-perm d)
  canonical_pairs-perm (Permᴰ.swap e f) = Permᴰ.swap (ap canonical_pair e) (ap canonical_pair f)
  canonical_pairs-perm (Permᴰ.trans d e) =
      Permᴰ.trans (canonical_pairs-perm d) (canonical_pairs-perm e)

  Bytes-set : IsSet Bytes
  Bytes-set = hlevel

  -- The encoded half does not depend on the order of the entries: permuted entries give the same
  -- bytes, if no two of the canonical entries have the same encoded key.
  pub assemble_of_perm :
      (ps qs : Pairs)
      → Perm ps qs
      → Distinct (entry_key x) (canonical_pairs ps)
      → assemble x ps ≡ assemble x qs
  unfolding assemble
  assemble_of_perm ps qs p d = ∥∥₁_elim p (Bytes-set _ _) λ q. ap (encode x) (
      canonicalize-map ps
      ∙ ap (λ (t : Pairs). map (from_list t)) (sort_unique (entry_key x) (canonical_pairs-perm q) d)
      ∙ sym (canonicalize-map qs))
