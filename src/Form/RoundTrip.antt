-- ===== src/Form/RoundTrip.antt =====
-- What is encoded is read back: the pairs, in the order of their keys.
use gprxy.Common.{
  split_all-one, split_all-append, ℕ, ◌/◌, ◌%◌, ◌<◌, ◌≡◌, ◌≢◌, refl, sym, ap, ◌∙◌, true, some, List,
  [], ◌∷◌, ◌++◌, arith, Text, All, All-append, NoChar, split_all, split_two, split_two-append,
}
use gprxy.Form.{
  is_unreserved, hex_digit, hex_value, escape_byte, escape, unescape, Pairs, insert_pair,
  by_key_onto, by_key, field_text, join_fields, form_encode, fields_of, parse_form,
}

abbrev pub Bytes : Text → Type 0
Bytes = All (λ c. c < 256)

hex_value-hex_digit : (n : ℕ) → n < 16 → hex_value (hex_digit n) ≡ some n
unfolding hex_value hex_digit
hex_value-hex_digit n h = ground arith

-- An unreserved byte is none of the delimiters.
is_unreserved-plain :
    (c : ℕ) → is_unreserved c ≡ true → (c ≢ b'%') × (c ≢ b'+') × (c ≢ b'&') × (c ≢ b'=')
unfolding is_unreserved
is_unreserved-plain c h = ground arith

unescape-plain :
    (c : ℕ) (s t : Text)
    → c ≢ b'%'
    → c ≢ b'+'
    → unescape s ≡ some t
    → unescape (c ∷ s) ≡ some (c ∷ t)
unfolding unescape
unescape-plain c [] t p q h = ground arith
unescape-plain c (d ∷ []) t p q h = ground arith
unescape-plain c (d ∷ e ∷ s) t p q h = ground arith

unescape-plus : (s t : Text) → unescape s ≡ some t → unescape (b'+' ∷ s) ≡ some (b' ' ∷ t)
unfolding unescape
unescape-plus [] t h = ground arith
unescape-plus (d ∷ []) t h = ground arith
unescape-plus (d ∷ e ∷ s) t h = ground arith

unescape-hex :
    (c : ℕ) (s t : Text)
    → c < 256
    → unescape s ≡ some t
    → unescape (b'%' ∷ hex_digit (c / 16) ∷ hex_digit (c % 16) ∷ s) ≡ some (c ∷ t)
unfolding unescape
unescape-hex c s t h e =
    ground (
      arith,
      hex_value-hex_digit (c / 16) (omega arith),
      hex_value-hex_digit (c % 16) (omega arith),
    )

unescape-escape_byte :
    (c : ℕ) (s t : Text)
    → c < 256
    → unescape s ≡ some t
    → unescape (escape_byte c ++ s) ≡ some (c ∷ t)
unfolding escape_byte
unescape-escape_byte c s t h e = ground (
  arith,
  is_unreserved-plain c,
  unescape-plain c s t,
  unescape-plus s t e,
  unescape-hex c s t h e,
)

pub unescape-escape : (s : Text) → Bytes s → unescape (escape s) ≡ some s
unfolding escape
unescape-escape [] h = unfold unescape in refl
unescape-escape (c ∷ s) (h, hs) = unescape-escape_byte c (escape s) s h (unescape-escape s hs)

hex_digit-plain : (n : ℕ) → (hex_digit n ≢ b'&') × (hex_digit n ≢ b'=')
unfolding hex_digit
hex_digit-plain n = ground arith

-- Neither delimiter of a form.
abbrev Plain : ℕ → Type 0
Plain c = (c ≢ b'&') × (c ≢ b'=')

escape_byte-Plain : (c : ℕ) → All Plain (escape_byte c)
unfolding escape_byte
escape_byte-Plain c =
    ground (arith, is_unreserved-plain c, hex_digit-plain (c / 16), hex_digit-plain (c % 16))

escape-Plain : (s : Text) → All Plain (escape s)
unfolding escape
escape-Plain [] = tt
escape-Plain (c ∷ s) =
    All-append Plain (escape_byte c) (escape s) (escape_byte-Plain c) (escape-Plain s)

Plain-ampersand : (s : Text) → All Plain s → NoChar b'&' s
Plain-ampersand [] h = tt
Plain-ampersand (c ∷ s) ((p, q), h) = (p, Plain-ampersand s h)

Plain-equals : (s : Text) → All Plain s → NoChar b'=' s
Plain-equals [] h = tt
Plain-equals (c ∷ s) ((p, q), h) = (q, Plain-equals s h)

field_text-NoChar : (p : Text × Text) → NoChar b'&' (field_text p)
field_text-NoChar (k, v) =
    All-append (λ c. c ≢ b'&') (escape k) (b'=' ∷ escape v)
      (Plain-ampersand (escape k) (escape-Plain k))
      ((λ e. ground arith), Plain-ampersand (escape v) (escape-Plain v))

-- Both texts of a pair are bytes.
abbrev pub IsBytes : Text × Text → Type 0
IsBytes (k, v) = Bytes k × Bytes v

-- A field is not empty, since it has an '='.
fields_of-cons :
    (p : Text × Text) (parts : List Text) (ps : Pairs)
    → IsBytes p
    → fields_of parts ≡ some ps
    → fields_of (field_text p ∷ parts) ≡ some (p ∷ ps)
unfolding fields_of
fields_of-cons (k, v) parts ps (hk, hv) e = of_field (field_text (k, v)) refl
  where
    split : split_two (field_text (k, v)) b'=' ≡ some (escape k, escape v)
    split = split_two-append (escape k) (escape v) b'=' (Plain-equals (escape k) (escape-Plain k))

    not_empty : (s : Text) → s ++ b'=' ∷ escape v ≢ []
    not_empty [] h = ground arith
    not_empty (c ∷ s) h = ground arith

    of_field : (t : Text) → field_text (k, v) ≡ t → fields_of (t ∷ parts) ≡ some ((k, v) ∷ ps)
    of_field [] q = absurd (not_empty (escape k) q)
    of_field (c ∷ s) q =
        rw
          (
            sym (ap (λ x. split_two x b'=') q) ∙ split,
            unescape-escape k hk,
            unescape-escape v hv,
            e,
          )
          refl

fields_of-join_fields :
    (ps : Pairs) → All IsBytes ps → fields_of (split_all (join_fields ps) b'&') ≡ some ps
unfolding join_fields
fields_of-join_fields [] h = unfold split_all fields_of in refl
fields_of-join_fields (p ∷ []) (h, _) =
    rw (split_all-one b'&' (field_text p) (field_text-NoChar p))
      (fields_of-cons p [] [] h (unfold fields_of in refl))
fields_of-join_fields (p ∷ q ∷ ps) (h, hs) =
    rw (split_all-append b'&' (field_text p) (join_fields (q ∷ ps)) (field_text-NoChar p)) (
      fields_of-cons p (split_all (join_fields (q ∷ ps)) b'&') (q ∷ ps) h
        (fields_of-join_fields (q ∷ ps) hs))

insert_pair-All :
    (p : Text × Text) (ps : Pairs) → IsBytes p → All IsBytes ps → All IsBytes (insert_pair p ps)
unfolding insert_pair
insert_pair-All p [] h hs = (h, tt)
insert_pair-All (k, v) ((j, w) ∷ ps) h (i, hs) = ground (arith, insert_pair-All (k, v) ps h hs)

by_key_onto-All :
    (acc ps : Pairs) → All IsBytes acc → All IsBytes ps → All IsBytes (by_key_onto acc ps)
unfolding by_key_onto
by_key_onto-All acc [] h hs = h
by_key_onto-All acc (p ∷ ps) h (i, hs) =
    by_key_onto-All (insert_pair p acc) ps (insert_pair-All p acc i h) hs

-- Reading what `Values.Encode` writes of pairs of byte strings gives these pairs, in the order of
-- their keys.
pub parse_form-form_encode :
    (ps : Pairs) → All IsBytes ps → parse_form (form_encode ps) ≡ some (by_key ps)
unfolding parse_form form_encode
parse_form-form_encode ps h = fields_of-join_fields (by_key ps) (by_key_onto-All [] ps tt h)
