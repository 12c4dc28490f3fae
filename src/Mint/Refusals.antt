-- ===== src/Mint/Refusals.antt =====
-- What every token that mint.rs returns was made from.
use obsigil_rs.Prelude.{
  ◌≡◌, refl, sym, ap, ◌∙◌, true, false, not, ◌||◌, Option, some, arith, any, ◌==◌, ok, ok_or,
  map_err, reject_if, >>=-eq-ok, reject_if-eq-ok, ok_or-eq-ok, ok_injective, map_err-eq-ok,
}
use mathlib.Core.Option.{get_or}
use obsigil_rs.Types.{Text, Bytes, NumericDate}
use obsigil_rs.Errors.{
  missing, empty_audience, bad_tid, serialization, app_not_map, reserved_key, nan, chars,
}
use obsigil_rs.Cbor.{Value, Entries, Pairs, map, to_list}
use obsigil_rs.Crates.{Crates, Serde}
use obsigil_rs.Aead.{seal}
use obsigil_rs.Reserved.{Uuid}
use obsigil_rs.Serial.{contains_nan, is_negative_int}
use obsigil_rs.Serial.Write.{map_entries, app_entries, to_mandate_plaintext}
use obsigil_rs.Mint.{MintBuilder, is_empty_aud, seal_manifest, assemble_token, mint}

module _ (x : Crates) {T : Type 0} (s : Serde T) where
  -- An application value without a reserved key and without a NaN among its values.
  pub record IsCarried (a : T) : Type 0 where
    pub entries : Entries
    pub serialized : s.serialized a ≡ ok (map entries)
    pub not_reserved : any (λ p. is_negative_int x p.0) (to_list entries) ≡ false
    pub no_nan : any (λ p. contains_nan p.1) (to_list entries) ≡ false

  map_entries-map :
      (v : Value) (ps : Pairs)
      → map_entries v app_not_map ≡ ok ps
      → (es : Entries) × (v ≡ map es) × (to_list es ≡ ps)
  map_entries-map (map es) ps h = (es, refl, ok_injective h)
  map_entries-map _ ps h = cc

  carried : (a : T) (ps : Pairs) → app_entries x s a ≡ ok ps → IsCarried a
  unfolding app_entries
  carried a ps h =
      let (v, h0, h1) = >>=-eq-ok (map_err serialization (s.serialized a)) _ h in
      let (qs, h2, h3) = >>=-eq-ok (map_entries v app_not_map) _ h1 in
      let (es, hv, hq) = map_entries-map v qs h2 in
      let negative = any (λ p. is_negative_int x p.0) qs in
      let (_, h4, h5) = >>=-eq-ok (reject_if negative reserved_key) _ h3 in
      let nans = any (λ p. contains_nan p.1) qs in
      let (_, h6, h7) = >>=-eq-ok (reject_if nans nan) _ h5 in
      record {
        entries = es;
        serialized = map_err-eq-ok serialization (s.serialized a) h0 ∙ ap ok hv;
        not_reserved = rw hq (reject_if-eq-ok negative reserved_key h4);
        no_nan = rw hq (reject_if-eq-ok nans nan h6);
      }

  pub record IsMinted (fresh : Uuid) (b : MintBuilder T) (token : Text) : Type 0 where
    pub exp : NumericDate
    pub has_exp : b.exp ≡ some exp
    pub audience : is_empty_aud b.aud ≡ false
    pub version : x.get_version_num (get_or b.tid fresh) ≡ 7
    pub variant : x.is_rfc4122 (get_or b.tid fresh) ≡ true
    pub app : IsCarried b.app
    pub plain : Bytes
    pub wrote : to_mandate_plaintext x s exp (get_or b.tid fresh) b.iss b.aud b.sub b.app ≡ ok plain
    pub sealed : Bytes
    pub seals : seal x plain b.issuer.key.bytes b.issuer.mandate_alg ≡ ok sealed
    pub manifest : Option Bytes
    pub manifest_seals : seal_manifest x b.manifest_plain b.issuer.manifest_alg ≡ ok manifest
    pub token_eq : token ≡ assemble_token x b.issuer manifest sealed

  -- Every minted token has an `exp`, no empty `aud`, a `tid` that is a UUIDv7 and an application
  -- value that serializes to a map without negative keys and without a NaN among its values, and is
  -- put together from the sealed halves.
  pub mint-IsMinted :
      (fresh : Uuid) (b : MintBuilder T) (token : Text)
      → mint x s fresh b ≡ ok token
      → IsMinted fresh b token
  unfolding mint to_mandate_plaintext
  mint-IsMinted fresh b token h =
      let tid = get_or b.tid fresh in
      let (exp, h0, h1) = >>=-eq-ok (ok_or b.exp (missing (chars "exp"))) _ h in
      let (_, h2, h3) = >>=-eq-ok (reject_if (is_empty_aud b.aud) empty_audience) _ h1 in
      let wrong = not (x.get_version_num tid == 7) || not (x.is_rfc4122 tid) in
      let (_, h4, h5) = >>=-eq-ok (reject_if wrong bad_tid) _ h3 in
      let writing = to_mandate_plaintext x s exp tid b.iss b.aud b.sub b.app in
      let (plain, h6, h7) = >>=-eq-ok writing _ h5 in
      let (ps, h8, _) = >>=-eq-ok (app_entries x s b.app) _ h6 in
      let sealing = seal x plain b.issuer.key.bytes b.issuer.mandate_alg in
      let (sealed, h9, h10) = >>=-eq-ok sealing _ h7 in
      let (m, h11, h12) =
        >>=-eq-ok (seal_manifest x b.manifest_plain b.issuer.manifest_alg) _ h10 in
      let (v7, rfc) = uuid_v7 tid (reject_if-eq-ok wrong bad_tid h4) in
      record {
        exp = exp;
        has_exp = ok_or-eq-ok b.exp (missing (chars "exp")) h0;
        audience = reject_if-eq-ok (is_empty_aud b.aud) empty_audience h2;
        version = v7;
        variant = rfc;
        app = carried b.app ps h8;
        plain = plain;
        wrote = h6;
        sealed = sealed;
        seals = h9;
        manifest = m;
        manifest_seals = h11;
        token_eq = sym (ok_injective h12);
      }
    where
      uuid_v7 :
          (tid : Uuid)
          → (not (x.get_version_num tid == 7) || not (x.is_rfc4122 tid)) ≡ false
          → (x.get_version_num tid ≡ 7) × (x.is_rfc4122 tid ≡ true)
      uuid_v7 tid h = ground arith
