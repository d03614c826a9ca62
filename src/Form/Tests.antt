-- ===== src/Form/Tests.antt =====
-- The encoding of forms on one form.
use gprxy.Common.{◌≡◌, refl, some, none, [], ◌∷◌, codes, split_all, split_two}
use gprxy.Form.{
  Pairs, is_unreserved, hex_digit, hex_value, escape_byte, escape, unescape, text_leb, insert_pair,
  by_key_onto, by_key, join_fields, form_encode, fields_of, parse_form,
}

forms : Unit {0}
unfolding is_unreserved hex_digit hex_value escape_byte escape unescape text_leb insert_pair
    by_key_onto join_fields form_encode fields_of parse_form split_all split_two
forms = tt

abbrev form : Pairs
form = (codes "redirect_uri", codes "http://x/") ∷ (codes "code", codes "a b&c") ∷ []

form_encode_tests :
    (form_encode form ≡ codes "code=a+b%26c&redirect_uri=http%3A%2F%2Fx%2F")
    × (parse_form (form_encode form) ≡ some (by_key form))
    × (unescape (codes "%4") ≡ none)
unfolding forms
form_encode_tests = (refl, refl, refl)
