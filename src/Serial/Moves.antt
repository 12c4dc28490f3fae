-- ===== src/Serial/Moves.antt =====
-- How the loop of `from_mandate_plaintext` in serial.rs takes its entries apart: none gets lost.
use mathlib.Core.List.{Perm, perm_middle}
use mathlib.Core.List.Perm
use mathlib.Core.Path.{subst}
use obsigil_rs.Prelude.{
  ◌≡◌, ◌≢◌, refl, sym, ap, true, false, ◌⊎◌, inl, inr, Option, none, some, [], ◌∷◌, ◌++◌,
  append_assoc, append-nil, ==ℤ_iff, All, ℤ, Bool-cases, ok, ok_injective,
}
use obsigil_rs.Cbor.{Value, Pairs, integer}
use obsigil_rs.Sort.Unique.{Distinct}
use obsigil_rs.Crates.{Crates}
use obsigil_rs.Serial.{
  ikey, key_tid, key_exp, key_aud, key_sub, key_iss, encode, entry_key, classify,
}
use obsigil_rs.Serial.Read.{MandateScan, mandate_step, mandate_loop}
use obsigil_rs.Serial.Loop.{
  IsField, tid_field, exp_field, aud_field, sub_field, iss_field, app_field, has_key,
}
use obsigil_rs.Serial.FieldValues.{
  tid_value, int_value, text_value, aud_value, tids, exps, auds, subs, isss, entries_of,
}

-- An entry moves from the front of what is left to the end of what is done.
moved :
    (front back : Pairs) (p : Value × Value) (ps : Pairs)
    → Perm ((front ++ back) ++ p ∷ ps) ((front ++ p ∷ back) ++ ps)
moved front back p ps =
    Perm.trans (perm_middle (front ++ back) ps)
      (Perm.append_right ps (Perm.symm (perm_middle front back)))

moved_of :
    (front back : Pairs) (p : Value × Value) (ps : Pairs) (old new : Pairs)
    → old ≡ front ++ back
    → new ≡ front ++ p ∷ back
    → Perm (old ++ p ∷ ps) (new ++ ps)
moved_of front back p ps old new h k =
    subst (λ l. Perm (l ++ p ∷ ps) (new ++ ps)) (sym h)
      (subst (λ l. Perm ((front ++ back) ++ p ∷ ps) (l ++ ps)) (sym k) (moved front back p ps))

-- A variable that is set has no entry among the rest.
abbrev pub Free {ℓ} : {A : Type ℓ} → Option A → ℤ → Pairs → Type ℓ
Free o n ps = (o ≡ none) ⊎ All (λ p. has_key n p ≡ false) ps

module _ (x : Crates) where
  -- No variable is set twice.
  pub record IsFresh (m : MandateScan) (ps : Pairs) : Type 0 where
    pub tid : Free m.tid key_tid ps
    pub exp : Free m.exp key_exp ps
    pub aud : Free m.aud key_aud ps
    pub sub : Free m.sub key_sub ps
    pub iss : Free m.iss key_iss ps

  Free-tail {ℓ} :
      {A : Type ℓ} (o : Option A) (n : ℤ) (p : Value × Value) (ps : Pairs)
      → Free o n (p ∷ ps)
      → Free o n ps
  Free-tail o n p ps (inl e) = inl e
  Free-tail o n p ps (inr (h, hs)) = inr hs

  -- A key that is met has not been met before.
  Free-head {ℓ} :
      {A : Type ℓ} (o : Option A) (n : ℤ) (p : Value × Value) (ps : Pairs)
      → Free o n (p ∷ ps)
      → has_key n p ≡ true
      → o ≡ none
  Free-head o n p ps (inl e) k = e
  Free-head o n p ps (inr (h, hs)) k = cc

  has_key-eq : (k v : Value) (n : ℤ) → has_key n (k, v) ≡ true → k ≡ ikey n
  has_key-eq (integer i) v n h = ap integer ((==ℤ_iff i n).0 h)
  has_key-eq _ v n h = cc

  -- An entry with a key of its own leaves no other entry with that key.
  alone :
      (n : ℤ) (v : Value) (ps : Pairs)
      → All (λ q. encode x (ikey n) ≢ entry_key x q) ps
      → All (λ q. has_key n q ≡ false) ps
  alone n v [] h = tt
  alone n v ((k, w) ∷ ps) (h, hs) = (
    elim (Bool-cases (has_key n (k, w))) [
      | inl e ↦ absurd (h (ap (encode x) (sym (has_key-eq k w n e))))
      | inr e ↦ e
    ],
    alone n v ps hs,
  )

  Fresh-tail :
      (p : Value × Value) (ps : Pairs) (m : MandateScan) → IsFresh m (p ∷ ps) → IsFresh m ps
  Fresh-tail p ps m f = record {
    tid = Free-tail m.tid key_tid p ps f.tid;
    exp = Free-tail m.exp key_exp p ps f.exp;
    aud = Free-tail m.aud key_aud p ps f.aud;
    sub = Free-tail m.sub key_sub p ps f.sub;
    iss = Free-tail m.iss key_iss p ps f.iss;
  }

  -- One step of the loop: its entry moves to those of the variables.
  record IsMoved (p : Value × Value) (ps : Pairs) (m : MandateScan) : Type 0 where
    pub next : MandateScan
    pub steps : mandate_step x p m ≡ ok next
    pub fresh : IsFresh next ps
    pub moves : Perm (entries_of m ++ p ∷ ps) (entries_of next ++ ps)

  move :
      (p : Value × Value) (ps : Pairs) (m : MandateScan)
      → IsField x p
      → IsFresh m (p ∷ ps)
      → All (λ q. entry_key x p ≢ entry_key x q) ps
      → IsMoved p ps m
  unfolding mandate_step classify
  move _ ps m (tid_field {v} t h) f d =
      let p : Value × Value = (ikey key_tid, v) in
      let g = Fresh-tail p ps m f in
      let unset = Free-head m.tid key_tid p ps f.tid refl in
      record {
        next = record m { tid = some t };
        steps = rw h;
        fresh = record {
          tid = inr (alone key_tid v ps d);
          exp = g.exp;
          aud = g.aud;
          sub = g.sub;
          iss = g.iss;
        };
        moves =
            moved_of (m.rest) (exps m ++ (auds m ++ (subs m ++ isss m))) p ps (entries_of m)
              (entries_of (record m { tid = some t })) (rw unset) (rw (tid_value v t h));
      }
  move _ ps m (exp_field {v} t h) f d =
      let p : Value × Value = (ikey key_exp, v) in
      let g = Fresh-tail p ps m f in
      let unset = Free-head m.exp key_exp p ps f.exp refl in
      record {
        next = record m { exp = some t };
        steps = rw h;
        fresh = record {
          tid = g.tid;
          exp = inr (alone key_exp v ps d);
          aud = g.aud;
          sub = g.sub;
          iss = g.iss;
        };
        moves =
            moved_of (m.rest ++ tids m) (auds m ++ (subs m ++ isss m)) p ps (entries_of m)
              (entries_of (record m { exp = some t })) (rw unset (simp append_assoc))
              (rw (int_value v t h) (simp append_assoc));
      }
  move _ ps m (aud_field {v} t h) f d =
      let p : Value × Value = (ikey key_aud, v) in
      let g = Fresh-tail p ps m f in
      let unset = Free-head m.aud key_aud p ps f.aud refl in
      record {
        next = record m { aud = some t };
        steps = rw h;
        fresh = record {
          tid = g.tid;
          exp = g.exp;
          aud = inr (alone key_aud v ps d);
          sub = g.sub;
          iss = g.iss;
        };
        moves =
            moved_of (m.rest ++ (tids m ++ exps m)) (subs m ++ isss m) p ps (entries_of m)
              (entries_of (record m { aud = some t })) (rw unset (simp append_assoc))
              (rw (aud_value v t h) (simp append_assoc));
      }
  move _ ps m (sub_field {v} t h) f d =
      let p : Value × Value = (ikey key_sub, v) in
      let g = Fresh-tail p ps m f in
      let unset = Free-head m.sub key_sub p ps f.sub refl in
      record {
        next = record m { sub = some t };
        steps = rw h;
        fresh = record {
          tid = g.tid;
          exp = g.exp;
          aud = g.aud;
          sub = inr (alone key_sub v ps d);
          iss = g.iss;
        };
        moves =
            moved_of (m.rest ++ (tids m ++ (exps m ++ auds m))) (isss m) p ps (entries_of m)
              (entries_of (record m { sub = some t })) (rw unset (simp append_assoc))
              (rw (text_value v t h) (simp append_assoc));
      }
  move _ ps m (iss_field {v} t h) f d =
      let p : Value × Value = (ikey key_iss, v) in
      let g = Fresh-tail p ps m f in
      let unset = Free-head m.iss key_iss p ps f.iss refl in
      record {
        next = record m { iss = some t };
        steps = rw h;
        fresh = record {
          tid = g.tid;
          exp = g.exp;
          aud = g.aud;
          sub = g.sub;
          iss = inr (alone key_iss v ps d);
        };
        moves =
            moved_of (m.rest ++ (tids m ++ (exps m ++ (auds m ++ subs m)))) ([]) p ps (entries_of m)
              (entries_of (record m { iss = some t })) (rw unset (simp append_assoc))
              (rw (text_value v t h) (simp append_assoc));
      }
  move _ ps m (app_field {k} {v} h) f d =
      let g = Fresh-tail (k, v) ps m f in
      let after = tids m ++ (exps m ++ (auds m ++ (subs m ++ isss m))) in
      record {
        next = record m { rest = m.rest ++ (k, v) ∷ [] };
        steps = rw (h, mandate_step);
        fresh = record { tid = g.tid; exp = g.exp; aud = g.aud; sub = g.sub; iss = g.iss };
        moves =
            moved_of m.rest after (k, v) ps (entries_of m)
              (entries_of (record m { rest = m.rest ++ (k, v) ∷ [] })) refl
              (append_assoc m.rest ((k, v) ∷ []) after);
      }

  pub loop_moves :
      (ps : Pairs) (m last : MandateScan)
      → All (IsField x) ps
      → IsFresh m ps
      → Distinct (entry_key x) ps
      → mandate_loop x ps m ≡ ok last
      → Perm (entries_of m ++ ps) (entries_of last)
  unfolding mandate_loop
  loop_moves [] m last fs f d h =
      rw append-nil (subst (λ n. Perm (entries_of m) (entries_of n)) (ok_injective h) (Perm.refl _))
  loop_moves (p ∷ ps) m last (g, gs) f (d, ds) h =
      let a = move p ps m g f d in
      Perm.trans a.moves (loop_moves ps a.next last gs a.fresh ds (rw a.steps at h))
