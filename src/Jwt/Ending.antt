-- ===== src/Jwt/Ending.antt =====
-- internal/auth/jwt.go and roles.go: every call comes to an end.
use gprxy.Common.{
  ℕ, is_empty, ◌==◌, after, bad_audience, no_email, no_subject, token_expired, Bool, true, false,
  Bool-cases, inl, inr, Option, none, some, List, [], ◌∷◌, Text, Text_eq, codes, lookup, ℤ, Map,
  nat_eq, Outcome, ok, err, panics, blocks, Ends, if◌then◌else◌, Error,
}
use gprxy.Roles.{
  ServiceAccount, RoleMapper, found_default, handle_no_roles, or_default, first_match, map_role,
}
use gprxy.Jwt.Values.{Json, Claims, str, arr}
use gprxy.Jwt.Keys.{
  PublicKey, Validator, Jwk, Reply, Round, answer, key_from, parse_key, put_key, load_keys, loaded,
  decoded, fetch_jwks, fresh_key, or_error, after_fetch, or_fetch, or_lock, get_public_key,
  is_signing_key,
}
use gprxy.Jwt.{
  holds_string, is_string, string_claim, time_claim, context_of, Token, Parser, audience_result,
  validate_audience, after_audience, validate_claims, with_key, key_of, key_func, checked_token,
  with_public_key, with_token, validate_jwt,
}

-- The call comes to an end.
abbrev pub Halts : {S A : Type 0} → Outcome A × S → Type 0
Halts = Ends (λ _ _. Unit)

found_default-Halts :
    {S : Type 0} (role : Text) (o : Option ServiceAccount) (s : S) → Halts (found_default role o, s)
found_default-Halts role none s = tt
found_default-Halts role (some a) s = tt

handle_no_roles-Halts : {S : Type 0} (rm : RoleMapper) (s : S) → Halts (handle_no_roles rm, s)
unfolding handle_no_roles
handle_no_roles-Halts rm s = elim (Bool-cases (is_empty rm.default_role)) [
  | inl e ↦ rw e tt
  | inr e ↦ rw e (found_default-Halts rm.default_role _ s)
]

or_default-Halts :
    {S : Type 0} (wide : ℕ → ℕ) (rm : RoleMapper) (o : Option ServiceAccount) (s : S)
    → Halts (or_default wide rm o, s)
or_default-Halts wide rm none s = handle_no_roles-Halts rm s
or_default-Halts wide rm (some a) s = tt

pub map_role-Halts :
    {S : Type 0} (wide : ℕ → ℕ) (rm : RoleMapper) (roles : List Text) (s : S)
    → Halts (map_role wide rm roles, s)
unfolding map_role
map_role-Halts wide rm [] s = handle_no_roles-Halts rm s
map_role-Halts wide rm (role ∷ roles) s =
    or_default-Halts wide rm (first_match wide rm (role ∷ roles)) s

put_key-Halts :
    (kid : Text) (n e : Option (List ℕ)) (m : Map Text PublicKey)
    (rest : Map Text PublicKey → Outcome (Unit {0}) × Map Text PublicKey)
    → ((m' : Map Text PublicKey) → Halts (rest m'))
    → Halts (put_key kid (key_from n e) m rest)
put_key-Halts kid none e m rest h = tt
put_key-Halts kid (some n) none m rest h = tt
put_key-Halts kid (some n) (some e) m rest h = h _

load_keys-Halts : (jwks : List Jwk) (m : Map Text PublicKey) → Halts (load_keys jwks m)
unfolding load_keys parse_key
load_keys-Halts [] m = tt
load_keys-Halts (jwk ∷ jwks) m = elim (Bool-cases (is_signing_key jwk)) [
  | inl e ↦ rw e (put_key-Halts jwk.kid _ _ m (load_keys jwks) (load_keys-Halts jwks))
  | inr e ↦ rw e (load_keys-Halts jwks m)
]

loaded-Halts :
    (now : ℤ) (v : Validator) (r : Outcome (Unit {0}) × Map Text PublicKey)
    → Halts r
    → Halts (loaded now v r)
loaded-Halts now v (ok _, m) h = tt
loaded-Halts now v (err e, m) h = tt
loaded-Halts now v (panics, m) h = tt
loaded-Halts now v (blocks, m) h = h

decoded-Halts : (now : ℤ) (o : Option (List Jwk)) (v : Validator) → Halts (decoded now o v)
decoded-Halts now none v = tt
decoded-Halts now (some jwks) v =
    loaded-Halts now v (load_keys jwks v.public_keys) (load_keys-Halts jwks v.public_keys)

fetch_jwks-Halts : (reply : Reply) (now : ℤ) (v : Validator) → Halts (fetch_jwks reply now v)
unfolding fetch_jwks
fetch_jwks-Halts Reply.no_request now v = tt
fetch_jwks-Halts Reply.no_answer now v = tt
fetch_jwks-Halts (answer status body) now v = elim (Bool-cases (nat_eq status 200)) [
  | inl e ↦ rw e (decoded-Halts now body v)
  | inr e ↦ rw e tt
]

or_error-Halts : {S : Type 0} (o : Option PublicKey) (e : Error) (s : S) → Halts (or_error o e, s)
or_error-Halts none e s = tt
or_error-Halts (some key) e s = tt

after_fetch-Halts :
    (kid : Text) (r : Outcome (Unit {0}) × Validator) → Halts r → Halts (after_fetch kid r)
after_fetch-Halts kid (ok _, v) h = or_error-Halts _ _ v
after_fetch-Halts kid (err e, v) h = or_error-Halts _ e v
after_fetch-Halts kid (panics, v) h = tt
after_fetch-Halts kid (blocks, v) h = h

or_fetch-Halts :
    (round : Round) (kid : Text) (o : Option PublicKey) (v : Validator)
    → Halts (or_fetch round kid o v)
or_fetch-Halts round kid (some key) v = tt
or_fetch-Halts round kid none v =
    after_fetch-Halts kid (fetch_jwks round.reply round.at_fetch v)
      (fetch_jwks-Halts round.reply round.at_fetch v)

or_lock-Halts :
    (round : Round) (kid : Text) (o : Option PublicKey) (v : Validator)
    → Halts (or_lock round kid o v)
or_lock-Halts round kid (some key) v = tt
or_lock-Halts round kid none v = or_fetch-Halts round kid _ (round.others v)

with_key-Halts : (r : Outcome PublicKey × Validator) → Halts r → Halts (with_key r)
with_key-Halts (ok key, v) h = tt
with_key-Halts (err e, v) h = tt
with_key-Halts (panics, v) h = tt
with_key-Halts (blocks, v) h = h

key_of-Halts : (round : Round) (o : Option Json) (v : Validator) → Halts (key_of round o v)
unfolding get_public_key
key_of-Halts round (some (str kid)) v =
    with_key-Halts (get_public_key round kid v)
      (or_lock-Halts round kid (fresh_key round.at_read kid v) v)
key_of-Halts round _ v = tt

key_func-Halts : (round : Round) (t : Token) (v : Validator) → Halts (key_func round t v)
unfolding key_func
key_func-Halts round t v = elim (Bool-cases (t.alg == codes "RS256")) [
  | inl e ↦ rw e (key_of-Halts round t.kid v)
  | inr e ↦ rw e tt
]

if-Halts :
    {S A : Type 0} (b : Bool) (r r' : Outcome A) (s : S)
    → Halts (r, s)
    → Halts (r', s)
    → Halts ((if b then r else r'), s)
if-Halts true r r' s h h' = h
if-Halts false r r' s h h' = h'

audience_result-Halts :
    {S : Type 0} (audience : Text) (o : Option Json) (s : S) → Halts (audience_result audience o, s)
audience_result-Halts audience none s = tt
audience_result-Halts audience (some (str t)) s =
    if-Halts (t == audience) (ok tt) (err bad_audience) s tt tt
audience_result-Halts audience (some (arr xs)) s =
    if-Halts (holds_string audience xs) (ok tt) (err bad_audience) s tt tt
audience_result-Halts audience (some _) s = tt

after_audience-Halts :
    {S : Type 0} (r : Outcome (Unit {0})) (claims : Claims) (now : ℤ) (s : S)
    → Halts (r, s)
    → Halts (after_audience r claims now, s)
after_audience-Halts (ok _) claims now s h =
    if-Halts (is_empty (string_claim (lookup (codes "email") claims))) (err no_email) _ s tt (
      if-Halts (is_empty (string_claim (lookup (codes "sub") claims))) (err no_subject) _ s tt (
        if-Halts (after now (time_claim (lookup (codes "exp") claims))) (err token_expired)
          (ok (context_of claims)) s tt tt))
after_audience-Halts (err e) claims now s h = tt
after_audience-Halts panics claims now s h = tt
after_audience-Halts blocks claims now s h = h

validate_claims-Halts :
    {S : Type 0} (v : Validator) (claims : Claims) (now : ℤ) (s : S)
    → Halts (validate_claims v claims now, s)
unfolding validate_claims validate_audience
validate_claims-Halts v claims now s =
    elim (Bool-cases (is_string v.issuer (lookup (codes "iss") claims))) [
      | inl e ↦ rw e (
          after_audience-Halts (validate_audience v.audience claims) claims now s
            (audience_result-Halts v.audience (lookup (codes "aud") claims) s))
      | inr e ↦ rw e tt
    ]

module _ (parser : Parser) (round : Round) (now : ℤ) where
  checked_token-Halts :
      {S : Type 0} (o : Option Token) (v : Validator) (s : S)
      → Halts (checked_token parser round now o v, s)
  checked_token-Halts none v s = tt
  checked_token-Halts (some t) v s = elim (Bool-cases t.valid) [
    | inl e ↦ rw e (validate_claims-Halts v t.claims now s)
    | inr e ↦ rw e tt
  ]

  with_public_key-Halts :
      (raw : Text) (r : Outcome PublicKey × Validator)
      → Halts r
      → Halts (with_public_key parser round now raw r)
  with_public_key-Halts raw (ok key, v) h = checked_token-Halts (parser.verified raw key) v v
  with_public_key-Halts raw (err e, v) h = tt
  with_public_key-Halts raw (panics, v) h = tt
  with_public_key-Halts raw (blocks, v) h = h

  with_token-Halts :
      (raw : Text) (o : Option Token) (v : Validator) → Halts (with_token parser round now raw o v)
  with_token-Halts raw none v = tt
  with_token-Halts raw (some t) v =
      with_public_key-Halts raw (key_func round t v) (key_func-Halts round t v)

  pub validate_jwt-Halts :
      (raw : Text) (v : Validator) → Halts (validate_jwt parser round now raw v)
  unfolding validate_jwt
  validate_jwt-Halts raw v = with_token-Halts raw (parser.read raw) v
