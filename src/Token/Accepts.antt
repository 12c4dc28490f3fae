-- ===== src/Token/Accepts.antt =====
-- `parse` of token.rs on every input: what it accepts, what it refuses, and that it never panics.
use obsigil_rs.Prelude.{
  ℕ, ◌+◌, ◌≡◌, ◌≢◌, refl, sym, ap, ◌∙◌, ◌↔◌, inl, inr, false, ◌&&◌, Option, none, [], ◌∷◌, ◌++◌,
  arith, ◌==◌, Result, ok, err, panic, reject_if, is_none, Bool-cases, ==_iff, >>=-eq-ok,
  reject_if-eq-ok, ok_injective,
}
use mathlib.Core.Path.{subst}
use obsigil_rs.Types.{Char, Text, Encoding, separator}
use obsigil_rs.Types.Codes.{separator_of_some}
use obsigil_rs.Token.{
  Half, Parsed, ParseError, separator_count, both_absent, Scan, scan, scan_from, parse_before,
  parse_after, split_at, parse,
}
use obsigil_rs.Token.Split.{
  Plain, separators, sep_count-scan_from, Split-of_one, from_separator_total, join_halves,
  parse_split,
}
use obsigil_rs.Token.Grammar.{
  IsToken, render, parse-render, parse_before_sound, parse_after_sound, read_half, Snoc, nil, snoc,
  Snoc-view, parse_before-snoc, parse_after-cons,
}

-- The text around its separator, the separator named by an encoding.
record Cut (s : Text) : Type 0 where
  encoding : Encoding
  before : Text
  after : Text
  plain_before : Plain before
  plain_after : Plain after
  joined : s ≡ before ++ separator encoding ∷ after

Cut-of_one : (s : Text) → separators s ≡ 1 → Cut s
Cut-of_one s h =
    let r = Split-of_one s h in
    let (e, he) = from_separator_total r.ch r.is_sep in
    record {
      encoding = e;
      before = r.before;
      after = r.after;
      plain_before = r.plain_before;
      plain_after = r.plain_after;
      joined = rw (← separator_of_some r.ch e he) r.joined;
    }

parse_miscounted :
    (c : Char) (s : Text) → separators (c ∷ s) ≢ 1 → parse (c ∷ s) ≡ err separator_count
unfolding parse split_at scan
parse_miscounted c s h =
    let start : Scan = record { sep_index = none; sep_char = 0; sep_count = 0 } in
    let e = sep_count-scan_from 0 (c ∷ s) start in
    let wrong : ((scan_from 0 (c ∷ s) start).sep_count == 1) ≡ false =
      (rw e (miss (separators (c ∷ s)) h)) in
    rw wrong
  where
    miss : (n : ℕ) → n ≢ 1 → (0 + n == 1) ≡ false
    miss n hn = ground arith

join_halves_sound :
    (e : Encoding) (before after : Text) (p : Parsed)
    → Plain before
    → Plain after
    → join_halves e before after ≡ ok p
    → IsToken p × (before ++ separator e ∷ after ≡ render p)
join_halves_sound e before after p hb ha h =
    let (m, hm, h1) = >>=-eq-ok (parse_before before) _ h in
    let (n, hn, h2) = >>=-eq-ok (parse_after after) _ h1 in
    let (_, hr, h3) = >>=-eq-ok (reject_if (is_none m && is_none n) both_absent) _ h2 in
    let (im, em) = parse_before_sound before m hb hm in
    let (i_n, en) = parse_after_sound after n ha hn in
    subst (λ q. IsToken q × (before ++ separator e ∷ after ≡ render q)) (ok_injective h3)
      (
        record {
          sep = refl;
          manifest = im;
          mandate = i_n;
          one_half = reject_if-eq-ok _ both_absent hr;
          part = en;
        },
        ap (λ (t : Text). t ++ separator e ∷ after) em,
      )

-- `parse` returns a given result exactly on the text that the token grammar renders for it, and
-- only for well-formed results.
pub parse-eq-ok_iff : (s : Text) (p : Parsed) → (parse s ≡ ok p) ↔ (IsToken p × (s ≡ render p))
parse-eq-ok_iff s p = (sound s, λ (t, e). rw e (parse-render p t))
  where
    one_cut : (s : Text) → separators s ≡ 1 → parse s ≡ ok p → IsToken p × (s ≡ render p)
    one_cut s n h =
        let k = Cut-of_one s n in
        let cut = parse_split k.encoding k.before k.after k.plain_before k.plain_after in
        let halves = rw (k.joined, cut) at h in
        rw k.joined
          (join_halves_sound k.encoding k.before k.after p k.plain_before k.plain_after halves)

    sound : (s : Text) → parse s ≡ ok p → IsToken p × (s ≡ render p)
    sound [] h = unfold parse in cc
    sound (c ∷ s) h = elim (Bool-cases (separators (c ∷ s) == 1)) [
      | inl y ↦ one_cut (c ∷ s) ((==_iff _ _).0 y) h
      | inr n ↦ cc (parse_miscounted c s (λ e. cc ((==_iff _ _).1 e)))
    ]

read_half-ne-panic : (c : Char) (t : Text) → read_half c t ≢ panic
read_half-ne-panic c t h = ground arith

read_half-ne-count : (c : Char) (t : Text) → read_half c t ≢ err separator_count
read_half-ne-count c t h = ground arith

parse_before-ne :
    (s : Text) (r : Result ParseError (Option Half))
    → r ≢ ok none
    → ((c : Char) (t : Text) → read_half c t ≢ r)
    → parse_before s ≢ r
parse_before-ne s r n hc = go (Snoc-view s)
  where
    go : {s : Text} → Snoc s → parse_before s ≢ r
    go nil h = n (sym h ∙ (unfold parse_before in refl))
    go (snoc t c) h = hc c t (sym (parse_before-snoc t c) ∙ h)

parse_after-ne :
    (s : Text) (r : Result ParseError (Option Half))
    → r ≢ ok none
    → ((c : Char) (t : Text) → read_half c t ≢ r)
    → parse_after s ≢ r
parse_after-ne [] r n hc h = n (sym h ∙ (unfold parse_after in refl))
parse_after-ne (c ∷ t) r n hc h = hc c t (sym (parse_after-cons c t) ∙ h)

join_halves-ne-panic : (e : Encoding) (before after : Text) → join_halves e before after ≢ panic
join_halves-ne-panic e before after h =
    let p = parse_before-ne before panic (λ k. cc) read_half-ne-panic in
    let q = parse_after-ne after panic (λ k. cc) read_half-ne-panic in ground arith

join_halves-ne-count :
    (e : Encoding) (before after : Text) → join_halves e before after ≢ err separator_count
join_halves-ne-count e before after h =
    let p = parse_before-ne before (err separator_count) (λ k. cc) read_half-ne-count in
    let q = parse_after-ne after (err separator_count) (λ k. cc) read_half-ne-count in ground arith

module _ (r : Result ParseError Parsed)
    (other : (e : Encoding) (before after : Text) → join_halves e before after ≢ r) where
  parse_of_one-ne : (s : Text) → separators s ≡ 1 → parse s ≢ r
  parse_of_one-ne s n h =
      let k = Cut-of_one s n in
      let cut = parse_split k.encoding k.before k.after k.plain_before k.plain_after in
      other k.encoding k.before k.after (rw (k.joined, cut) at h)

-- No text makes `parse` panic: its slices end at boundaries between characters, and its `expect`s
-- hold.
pub parse-ne-panic : (s : Text) → parse s ≢ panic
parse-ne-panic [] h = unfold parse in cc
parse-ne-panic (c ∷ s) h = elim (Bool-cases (separators (c ∷ s) == 1)) [
  | inl y ↦ parse_of_one-ne panic join_halves-ne-panic (c ∷ s) ((==_iff _ _).0 y) h
  | inr n ↦ cc (parse_miscounted c s (λ e. cc ((==_iff _ _).1 e)))
]

-- `parse` answers that the separators are miscounted exactly on a text that is not empty and does
-- not have exactly one of them.
pub parse-separator_count_iff :
    (s : Text) → (parse s ≡ err separator_count) ↔ ((s ≢ []) × (separators s ≢ 1))
parse-separator_count_iff [] = (λ h. unfold parse in cc, λ (h, _). absurd (h refl))
parse-separator_count_iff (c ∷ s) = (
  λ h. (λ e. cc, λ n. parse_of_one-ne (err separator_count) join_halves-ne-count (c ∷ s) n h),
  λ (_, n). parse_miscounted c s n,
)
