-- ===== src/Token/Grammar.antt =====
-- What `parse` of token.rs accepts: token = [ text code ] separator [ code text ].
use obsigil_rs.Prelude.{
  ◌-◌, ◌≡◌, refl, sym, ap, ◌∙◌, true, false, not, ◌&&◌, Option, none, some, [], ◌∷◌, ◌++◌, arith,
  All-append, is_empty, Result, ok, ◌>>◌, reject_if, is_none,
}
use mathlib.Core.Path.{subst}
use obsigil_rs.Types.{Char, Text, separator}
use obsigil_rs.Token.{
  Half, Parsed, ParseError, degenerate_half, bad_alg_char, len_utf8, str_len, slice_to, slice_from,
  is_alg_char, is_separator, parse_before, parse_after, parse,
}
use obsigil_rs.Token.Slices.{str_len-append, slice_to-append, slice_from-append, last_char-append}
use obsigil_rs.Token.Split.{Plain, nonempty, parse_split}

one : (c : Char) → str_len (c ∷ []) ≡ len_utf8 c
unfolding str_len
one c = ground arith

-- The two readings of a half, without offsets.
abbrev pub read_half : Char → Text → Result ParseError (Option Half)
read_half code text = do
  reject_if (is_empty text) degenerate_half
  reject_if (not (is_alg_char code)) bad_alg_char
  ok (some (record { alg_code = code; text = text }))

pub parse_before-snoc : (t : Text) (c : Char) → parse_before (t ++ c ∷ []) ≡ read_half c t
parse_before-snoc t c = rw (nonempty t c, last_char-append t c, cut)
  where
    cut : slice_to (t ++ c ∷ []) (str_len (t ++ c ∷ []) - len_utf8 c) ≡ some t
    cut =
        let e : str_len (t ++ c ∷ []) - len_utf8 c ≡ str_len t =
          omega (arith, str_len-append t (c ∷ []), one c) in
        rw e (slice_to-append t (c ∷ []))

pub parse_after-cons : (c : Char) (t : Text) → parse_after (c ∷ t) ≡ read_half c t
unfolding parse_after
parse_after-cons c t = rw (cut)
  where
    cut : slice_from (c ∷ t) (len_utf8 c) ≡ some t
    cut = let e : str_len (c ∷ []) ≡ len_utf8 c = one c in rw (← e) (slice_from-append (c ∷ []) t)

-- A half of a well-formed token.
abbrev pub IsHalf : Option Half → Type 0
IsHalf none = Unit {0}
IsHalf (some h) = (is_empty h.text ≡ false) × (is_alg_char h.alg_code ≡ true) × Plain h.text

abbrev pub render_manifest : Option Half → Text
render_manifest none = []
render_manifest (some h) = h.text ++ h.alg_code ∷ []

abbrev pub render_mandate : Option Half → Text
render_mandate none = []
render_mandate (some h) = h.alg_code ∷ h.text

-- The grammar of the format: what a parsed token has to satisfy, and the text that it stands for.
pub record IsToken (p : Parsed) : Type 0 where
  pub sep : p.separator ≡ separator p.encoding
  pub manifest : IsHalf p.manifest
  pub mandate : IsHalf p.mandate
  pub one_half : (is_none p.manifest && is_none p.mandate) ≡ false
  pub part : p.mandate_part ≡ render_mandate p.mandate

abbrev pub render : Parsed → Text
render p = render_manifest p.manifest ++ p.separator ∷ p.mandate_part

alg_plain : (c : Char) → is_alg_char c ≡ true → is_separator c ≡ false
alg_plain c h = ground arith

read_half_parts :
    (c : Char) (t : Text) (m : Option Half)
    → read_half c t ≡ ok m
    → (is_empty t ≡ false) × (is_alg_char c ≡ true) × (m ≡ some (record { alg_code = c; text = t }))
read_half_parts c t m h = ground arith

read_half-IsHalf :
    (c : Char) (t : Text) (m : Option Half) → Plain t → read_half c t ≡ ok m → IsHalf m
read_half-IsHalf c t m ht h =
    let (he, ha, hm) = read_half_parts c t m h in subst IsHalf (sym hm) (he, ha, ht)

read_half_ok :
    (h : Half)
    → IsHalf (some h)
    → read_half h.alg_code h.text ≡ ok (some (record { alg_code = h.alg_code; text = h.text }))
read_half_ok h (he, ha, ht) = rw (he, ha)

pub data Snoc : Text → Type 0 where
  nil : Snoc []
  snoc : (t : Text) (c : Char) → Snoc (t ++ c ∷ [])

pub Snoc-view : (s : Text) → Snoc s
Snoc-view [] = nil
Snoc-view (c ∷ s) = elim (Snoc-view s) as (λ u _. Snoc (c ∷ u)) [
  | nil ↦ snoc [] c
  | snoc t d ↦ snoc (c ∷ t) d
]

Plain-init : (t : Text) (c : Char) → Plain (t ++ c ∷ []) → Plain t
Plain-init [] c h = tt
Plain-init (d ∷ t) c (hd, h) = (hd, Plain-init t c h)

pub parse_before_sound :
    (s : Text) (m : Option Half)
    → Plain s
    → parse_before s ≡ ok m
    → IsHalf m × (s ≡ render_manifest m)
parse_before_sound s m hs h = go (Snoc-view s) hs h
  where
    go : {s : Text} → Snoc s → Plain s → parse_before s ≡ ok m → IsHalf m × (s ≡ render_manifest m)
    go nil hs h = let e : m ≡ none = (unfold parse_before in ground arith) in rw e (tt, refl)
    go (snoc t c) hs h =
        let r = (sym (parse_before-snoc t c) ∙ h) in
        (
          read_half-IsHalf c t m (Plain-init t c hs) r,
          ap render_manifest (sym (read_half_parts c t m r).2),
        )

parse_before_complete : (m : Option Half) → IsHalf m → parse_before (render_manifest m) ≡ ok m
parse_before_complete none h = unfold parse_before in refl
parse_before_complete (some x) h = parse_before-snoc x.text x.alg_code ∙ read_half_ok x h

pub parse_after_sound :
    (s : Text) (m : Option Half)
    → Plain s
    → parse_after s ≡ ok m
    → IsHalf m × (s ≡ render_mandate m)
parse_after_sound [] m hs h =
    let e : m ≡ none = (unfold parse_after in ground arith) in rw e (tt, refl)
parse_after_sound (c ∷ t) m hs h =
    let r = (sym (parse_after-cons c t) ∙ h) in
    (read_half-IsHalf c t m hs.1 r, ap render_mandate (sym (read_half_parts c t m r).2))

parse_after_complete : (m : Option Half) → IsHalf m → parse_after (render_mandate m) ≡ ok m
parse_after_complete none h = unfold parse_after in refl
parse_after_complete (some x) h = parse_after-cons x.alg_code x.text ∙ read_half_ok x h

Plain-render_manifest : (m : Option Half) → IsHalf m → Plain (render_manifest m)
Plain-render_manifest none h = tt
Plain-render_manifest (some x) (he, ha, ht) =
    All-append _ x.text (x.alg_code ∷ []) ht (alg_plain x.alg_code ha, tt)

Plain-render_mandate : (m : Option Half) → IsHalf m → Plain (render_mandate m)
Plain-render_mandate none h = tt
Plain-render_mandate (some x) (he, ha, ht) = (alg_plain x.alg_code ha, ht)

-- The text of a well-formed token is parsed back to that token.
pub parse-render : (p : Parsed) → IsToken p → parse (render p) ≡ ok p
parse-render p t = rw (
  t.sep,
  t.part,
  parse_split p.encoding (render_manifest p.manifest) (render_mandate p.mandate)
      (Plain-render_manifest p.manifest t.manifest) (Plain-render_mandate p.mandate t.mandate),
  parse_before_complete p.manifest t.manifest,
  parse_after_complete p.mandate t.mandate,
  t.one_half,
)
