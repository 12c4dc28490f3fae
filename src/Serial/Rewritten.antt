-- ===== src/Serial/Rewritten.antt =====
-- What serial.rs reads, it writes back: the bytes of a mandate are those of its fields.
use mathlib.Core.Path.{subst}
use obsigil_rs.Prelude.{
  ◌≡◌, refl, ap, ◌∙◌, inl, some, [], ◌∷◌, ◌++◌, All, All-append, ok_or, ok_or-eq-ok, ok, >>=-eq-ok,
  ok_injective,
}
use obsigil_rs.Types.{Bytes, NumericDate}
use obsigil_rs.Errors.{malformed}
use obsigil_rs.Cbor.{Value, Pairs, map, from_list}
use obsigil_rs.Crates.{Crates, Serde}
use obsigil_rs.Reserved.{Uuid, MandateFields}
use obsigil_rs.Serial.{classify, app}
use obsigil_rs.Serial.Write.{assemble, mandate_entries}
use obsigil_rs.Serial.Read.{
  MandateScan, no_fields, decode_app, mandate_step, mandate_loop, strict_map,
  from_mandate_plaintext,
}
use obsigil_rs.Serial.Strict.{strict_map-eq-ok_iff}
use obsigil_rs.Serial.Spoils.{All-of_mandate_loop}
use obsigil_rs.Serial.Unique.{assemble-of_strict}
use obsigil_rs.Serial.Loop.{
  IsField, tid_field, exp_field, aud_field, sub_field, iss_field, app_field,
}
use obsigil_rs.Serial.FieldValues.{entries_of}
use obsigil_rs.Serial.Moves.{IsFresh, loop_moves}

module _ (x : Crates) where
  -- The bytes that are read are what the fields that the loop finds are written to.
  pub assemble-of_loop :
      (plain : Bytes) (ps : Pairs) (m : MandateScan)
      → strict_map x plain ≡ ok ps
      → mandate_loop x ps no_fields ≡ ok m
      → assemble x (entries_of m) ≡ plain
  assemble-of_loop plain ps m h k =
      let distinct = ((strict_map-eq-ok_iff x plain ps).0 h).distinct in
      let fields = All-of_mandate_loop x ps no_fields m k in
      let fresh : IsFresh x no_fields ps = record {
        tid = inl refl;
        exp = inl refl;
        aud = inl refl;
        sub = inl refl;
        iss = inl refl;
      } in
      assemble-of_strict x plain ps (entries_of m) h
        (loop_moves x ps no_fields m fields fresh distinct k)

  rest_of_step :
      (p : Value × Value) (m : MandateScan)
      → IsField x p
      → All (λ q. classify x q.0 ≡ app) m.rest
      → (next : MandateScan) × (mandate_step x p m ≡ ok next)
        × All (λ q. classify x q.0 ≡ app) next.rest
  unfolding mandate_step classify
  rest_of_step _ m (tid_field t h) r = (record m { tid = some t }, rw h, r)
  rest_of_step _ m (exp_field t h) r = (record m { exp = some t }, rw h, r)
  rest_of_step _ m (aud_field t h) r = (record m { aud = some t }, rw h, r)
  rest_of_step _ m (sub_field t h) r = (record m { sub = some t }, rw h, r)
  rest_of_step _ m (iss_field t h) r = (record m { iss = some t }, rw h, r)
  rest_of_step _ m (app_field {k} {v} h) r = (
    record m { rest = m.rest ++ (k, v) ∷ [] },
    rw (h, mandate_step),
    All-append (λ q. classify x q.0 ≡ app) m.rest ((k, v) ∷ []) r (h, tt),
  )

  -- Only entries of the application are kept for it.
  rest_of_loop :
      (ps : Pairs) (m last : MandateScan)
      → All (λ p. classify x p.0 ≡ app) m.rest
      → All (IsField x) ps
      → mandate_loop x ps m ≡ ok last
      → All (λ p. classify x p.0 ≡ app) last.rest
  unfolding mandate_loop
  rest_of_loop [] m last r fs h =
      subst (λ n. All (λ p. classify x p.0 ≡ app) n.rest) (ok_injective h) r
  rest_of_loop (p ∷ ps) m last r (f, fs) h =
      let (next, steps, kept) = rest_of_step p m f r in
      rest_of_loop ps next last kept fs (rw steps at h)

  module _ {T : Type 0} (s : Serde T) where
    -- A mandate as it stands in its plaintext.
    pub record IsWritten (plain : Bytes) (c : MandateFields T) (exp : NumericDate) (tid : Uuid)
        : Type 0 where
      pub rest : Pairs
      pub app_keys : All (λ p. classify x p.0 ≡ app) rest
      pub reads : s.deserialized (map (from_list rest)) ≡ some c.app
      pub writes : assemble x (rest ++ mandate_entries exp tid c.iss c.aud c.sub) ≡ plain

    -- A plaintext that is read as a mandate with an `exp` and a `tid` is what minting writes for
    -- the fields that were read and the application entries, all with keys of the application, that
    -- serde reads as the application value: writing them gives the same bytes.
    pub from_mandate_plaintext-IsWritten :
        (plain : Bytes) (c : MandateFields T) (exp : NumericDate) (tid : Uuid)
        → from_mandate_plaintext x s plain ≡ ok c
        → c.exp ≡ some exp
        → c.tid ≡ some tid
        → IsWritten plain c exp tid
    unfolding from_mandate_plaintext decode_app
    from_mandate_plaintext-IsWritten plain c exp tid h he ht =
        let (ps, h0, h1) = >>=-eq-ok (strict_map x plain) _ h in
        let (m, h2, h3) = >>=-eq-ok (mandate_loop x ps no_fields) _ h1 in
        let (a, h4, h5) =
          >>=-eq-ok (ok_or (s.deserialized (map (from_list m.rest))) malformed) _ h3 in
        let same = ok_injective h5 in
        let has_exp : m.exp ≡ some exp = ap (λ (f : MandateFields T). f.exp) same ∙ he in
        let has_tid : m.tid ≡ some tid = ap (λ (f : MandateFields T). f.tid) same ∙ ht in
        let read = ok_or-eq-ok (s.deserialized (map (from_list m.rest))) malformed h4 in
        let written : assemble x (m.rest ++ mandate_entries exp tid m.iss m.aud m.sub) ≡ plain =
          (rw (has_tid, has_exp) at (assemble-of_loop plain ps m h0 h2)) in
        record {
          rest = m.rest;
          app_keys = rest_of_loop ps no_fields m tt (All-of_mandate_loop x ps no_fields m h2) h2;
          reads = read ∙ ap (λ (f : MandateFields T). some f.app) same;
          writes =
              subst (λ f. assemble x (m.rest ++ mandate_entries exp tid f.iss f.aud f.sub) ≡ plain)
                same written;
        }
