-- ===== src/Form.antt =====
-- net/url of the standard library, as internal/cli builds its requests with it: `QueryEscape`,
-- `Values.Encode`, and the reading of such a text by `ParseQuery`. A text is a list of bytes here.
pub mod RoundTrip
mod Tests
use gprxy.Common.{
  ℕ, ◌+◌, ◌-◌, ◌*◌, ◌/◌, ◌%◌, Bool, true, false, ◌&&◌, ◌||◌, Option, none, some, List, [], ◌∷◌,
  ◌++◌, Text, leb, ltb, nat_eq, split_all, split_two, if◌then◌else◌,
}

-- Letters, digits and the four marks that stay as they are.
unfoldable pub is_unreserved : ℕ → Bool
is_unreserved c =
    (leb b'A' c && leb c b'Z')
    || (leb b'a' c && leb c b'z')
    || (leb b'0' c && leb c b'9')
    || nat_eq c b'-'
    || nat_eq c b'_'
    || nat_eq c b'.'
    || nat_eq c b'~'

unfoldable pub hex_digit : ℕ → ℕ
hex_digit n = if ltb n 10 then n + b'0' else n - 10 + b'A'

unfoldable pub hex_value : ℕ → Option ℕ
hex_value c =
    if leb b'0' c && leb c b'9'
    then some (c - b'0')
    else if leb b'A' c && leb c b'F'
    then some (c - b'A' + 10)
    else if leb b'a' c && leb c b'f'
    then some (c - b'a' + 10)
    else none

-- One byte of `QueryEscape`.
unfoldable pub escape_byte : ℕ → Text
unfolding is_unreserved hex_digit
escape_byte c =
    if is_unreserved c
    then c ∷ []
    else if nat_eq c b' '
    then b'+' ∷ []
    else b'%' ∷ hex_digit (c / 16) ∷ hex_digit (c % 16) ∷ []

unfoldable pub escape : Text → Text
escape [] = []
escape (c ∷ s) = escape_byte c ++ escape s

abbrev pub cons_some : ℕ → Option Text → Option Text
cons_some c none = none
cons_some c (some s) = some (c ∷ s)

abbrev pub cons_hex : Option ℕ → Option ℕ → Option Text → Option Text
cons_hex (some h) (some l) rest = cons_some (h * 16 + l) rest
cons_hex _ _ rest = none

-- `QueryUnescape`: a '%' is followed by two hexadecimal digits.
unfoldable pub unescape : Text → Option Text
unfolding hex_value
unescape [] = some []
unescape (c ∷ []) =
    if nat_eq c b'%' then none else if nat_eq c b'+' then some (b' ' ∷ []) else some (c ∷ [])
unescape (c ∷ d ∷ []) =
    let rest = unescape (d ∷ []) in
    if nat_eq c b'%' then none else if nat_eq c b'+' then cons_some b' ' rest else cons_some c rest
unescape (c ∷ d ∷ e ∷ s) =
    let rest = unescape (d ∷ e ∷ s) in
    let after = unescape s in
    if nat_eq c b'%'
    then cons_hex (hex_value d) (hex_value e) after
    else if nat_eq c b'+'
    then cons_some b' ' rest
    else cons_some c rest

-- Go orders strings by their bytes.
unfoldable pub text_leb : Text → Text → Bool
text_leb [] t = true
text_leb (c ∷ s) [] = false
text_leb (c ∷ s) (d ∷ t) = ltb c d || (nat_eq c d && text_leb s t)

abbrev pub Pairs : Type 0
Pairs = List (Text × Text)

-- An insertion that is stable: behind the pairs with the same key.
unfoldable pub insert_pair : Text × Text → Pairs → Pairs
unfolding text_leb
insert_pair (k, v) [] = (k, v) ∷ []
insert_pair (k, v) ((j, w) ∷ ps) =
    let rest = insert_pair (k, v) ps in if text_leb j k then (j, w) ∷ rest else (k, v) ∷ (j, w) ∷ ps

-- `by_key` puts the pairs in the order in which `Encode` writes them.
unfoldable pub by_key_onto : Pairs → Pairs → Pairs
unfolding insert_pair
by_key_onto acc [] = acc
by_key_onto acc (p ∷ ps) = by_key_onto (insert_pair p acc) ps

abbrev pub by_key : Pairs → Pairs
by_key = by_key_onto []

abbrev pub field_text : Text × Text → Text
field_text (k, v) = escape k ++ b'=' ∷ escape v

unfoldable pub join_fields : Pairs → Text
unfolding escape escape_byte
join_fields [] = []
join_fields (p ∷ []) = field_text p
join_fields (p ∷ q ∷ ps) = field_text p ++ b'&' ∷ join_fields (q ∷ ps)

-- `Values.Encode` of the pairs that were added, in the order of their `Add`.
unfoldable pub form_encode : Pairs → Text
unfolding join_fields by_key_onto
form_encode ps = join_fields (by_key ps)

abbrev pub unescaped : Option Text → Option Text → Option (Text × Text)
unescaped (some k) (some v) = some (k, v)
unescaped _ _ = none

abbrev pub field_of : Text → Option (Text × Text) → Option (Text × Text)
field_of part none = unescaped (unescape part) (some [])
field_of part (some (k, v)) = unescaped (unescape k) (unescape v)

abbrev pub cons_field : Option (Text × Text) → Option Pairs → Option Pairs
cons_field (some p) (some ps) = some (p ∷ ps)
cons_field _ _ = none

unfoldable pub fields_of : List Text → Option Pairs
unfolding unescape
fields_of [] = some []
fields_of ([] ∷ parts) = fields_of parts
fields_of ((c ∷ s) ∷ parts) =
    cons_field (field_of (c ∷ s) (split_two (c ∷ s) b'=')) (fields_of parts)

-- `ParseQuery`, where a part that does not decode is an error.
unfoldable pub parse_form : Text → Option Pairs
unfolding fields_of
parse_form s = fields_of (split_all s b'&')
