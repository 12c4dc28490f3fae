-- ===== src/Serial/Unique.antt =====
-- The canonical form of serial.rs is one: the bytes of a half and its entries determine each other, up
-- to the order of the entries.
use mathlib.Core.List.{Perm}
use mathlib.Core.List.Perm
use mathlib.Core.Logic.{∥∥₁_elim}
use obsigil_rs.Prelude.{
  ◌≡◌, ◌≢◌, refl, sym, ap, ◌∙◌, ◌↔◌, true, false, some, [], ◌∷◌, arith, any, All, ok,
}
use mathlib.Core.Path.{subst}
use obsigil_rs.Types.{Bytes}
use obsigil_rs.Cbor.{Value, Pairs, integer, text, map, from_list}
use obsigil_rs.Cbor.Vectors.{map_injective}
use obsigil_rs.Sort.Laws.{sort-perm}
use obsigil_rs.Sort.Unique.{Distinct, sort_unique}
use obsigil_rs.Crates.{Crates}
use obsigil_rs.Serial.{encode, entry_key, canonicalize, is_integer_or_text}
use obsigil_rs.Serial.Checks.{invalid_entry}
use obsigil_rs.Serial.Write.{assemble}
use obsigil_rs.Serial.Read.{strict_map}
use obsigil_rs.Serial.Strict.{strict_map-eq-ok_iff}
use obsigil_rs.Serial.Assemble.{
  canonical_pair, canonical_pairs, sorted_pairs, canonicalize-map, IsPayload, assemble_of_perm,
}

module _ (x : Crates) where
  -- The CBOR reader reads back what the CBOR writer wrote of these entries.
  abbrev pub ReadsBack : Pairs → Type 0
  ReadsBack ps = x.from_reader (assemble x ps) ≡ some (canonicalize x (map (from_list ps)))

  Bytes-set : IsSet Bytes
  Bytes-set = hlevel

  -- Two lists of entries are encoded to the same bytes exactly when they are the same up to order
  -- once their values are in canonical form, if no encoded key of the first repeats, it has no NaN
  -- and no forbidden key, and the CBOR reader reads both written maps back.
  pub assemble-eq_iff :
      (ps qs : Pairs)
      → IsPayload x ps
      → ReadsBack ps
      → ReadsBack qs
      → (assemble x ps ≡ assemble x qs) ↔ Perm (canonical_pairs x ps) (canonical_pairs x qs)
  unfolding assemble
  assemble-eq_iff ps qs h rp rq = (same_entries, same_bytes)
    where
      sorted : assemble x ps ≡ assemble x qs → sorted_pairs x ps ≡ sorted_pairs x qs
      sorted e =
          let read : canonicalize x (map (from_list ps)) ≡ canonicalize x (map (from_list qs)) =
            cc (rp, rq, ap x.from_reader e) in
          map_injective (sorted_pairs x ps) (sorted_pairs x qs)
            (sym (canonicalize-map x ps) ∙ read ∙ canonicalize-map x qs)

      same_entries :
          assemble x ps ≡ assemble x qs → Perm (canonical_pairs x ps) (canonical_pairs x qs)
      same_entries e = Perm.trans (Perm.symm (sort-perm (entry_key x) (canonical_pairs x ps))) (
          subst (λ l. Perm l (canonical_pairs x qs)) (sym (sorted e))
            (sort-perm (entry_key x) (canonical_pairs x qs)))

      same_bytes :
          Perm (canonical_pairs x ps) (canonical_pairs x qs) → assemble x ps ≡ assemble x qs
      same_bytes p = ∥∥₁_elim p (Bytes-set _ _) λ q. ap (encode x) (
          canonicalize-map x ps
          ∙ ap (λ (t : Pairs). map (from_list t)) (sort_unique (entry_key x) q h.distinct)
          ∙ sym (canonicalize-map x qs))

  canonicalize_key : (k : Value) → is_integer_or_text k ≡ true → canonicalize x k ≡ k
  unfolding canonicalize
  canonicalize_key (integer i) h = refl
  canonicalize_key (text t) h = refl
  canonicalize_key _ h = cc

  key_kept :
      (p : Value × Value)
      → invalid_entry p ≡ false
      → entry_key x (canonical_pair x p) ≡ entry_key x p
  key_kept (k, v) h = ap (encode x) (canonicalize_key k (ground arith))

  Apart_canonical :
      (b : Bytes) (ps : Pairs)
      → any invalid_entry ps ≡ false
      → All (λ p. b ≢ entry_key x p) ps
      → All (λ p. b ≢ entry_key x p) (canonical_pairs x ps)
  Apart_canonical b [] h a = tt
  Apart_canonical b (p ∷ ps) h (a, as') =
      (λ q. a (q ∙ key_kept p (ground arith)), Apart_canonical b ps (ground arith) as')

  Distinct-canonical :
      (ps : Pairs)
      → any invalid_entry ps ≡ false
      → Distinct (entry_key x) ps
      → Distinct (entry_key x) (canonical_pairs x ps)
  Distinct-canonical [] h d = tt
  Distinct-canonical (p ∷ ps) h (d, ds) = (
    subst (λ b. All (λ q. b ≢ entry_key x q) (canonical_pairs x ps))
        (sym (key_kept p (ground arith))) (Apart_canonical (entry_key x p) ps (ground arith) d),
    Distinct-canonical ps (ground arith) ds,
  )

  -- Two plaintexts that `strict_map` accepts with the same entries, in whatever order, are the same
  -- bytes.
  pub strict_map_unique :
      (plain other : Bytes) (ps qs : Pairs)
      → strict_map x plain ≡ ok ps
      → strict_map x other ≡ ok qs
      → Perm ps qs
      → plain ≡ other
  unfolding assemble
  strict_map_unique plain other ps qs h k p =
      let s = (strict_map-eq-ok_iff x plain ps).0 h in
      let t = (strict_map-eq-ok_iff x other qs).0 k in
      sym s.canonical
      ∙ assemble_of_perm x ps qs p (Distinct-canonical ps s.portable s.distinct)
      ∙ t.canonical

  -- The bytes that `strict_map` accepts are what its entries, in any order, are written to.
  pub assemble-of_strict :
      (plain : Bytes) (ps qs : Pairs)
      → strict_map x plain ≡ ok ps
      → Perm ps qs
      → assemble x qs ≡ plain
  assemble-of_strict plain ps qs h p =
      let s = (strict_map-eq-ok_iff x plain ps).0 h in
      sym (assemble_of_perm x ps qs p (Distinct-canonical ps s.portable s.distinct))
      ∙ (unfold assemble in s.canonical)
