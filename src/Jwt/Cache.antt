-- ===== src/Jwt/Cache.antt =====
-- The key cache: what a refresh does to it, and which keys `getPublicKey` answers with.
use gprxy.Common.{
  ℕ, ◌+◌, ◌*◌, ◌%◌, ◌^◌, ◌≡◌, refl, inl, inr, ap, ◌∙◌, Bool, true, false, Option, none, some, List,
  [], ◌∷◌, arith, Text, Text_eq, ◌==◌, Map, lookup, insert, lookup-insert, since_lt, ok, err,
  Outcome, Error, Bool-cases, Option-cases, if◌then◌else◌,
}
use gprxy.Base64.{encode}
use gprxy.Base64.RoundTrip.{AllBytes, decode-encode}
use gprxy.Jwt.Keys.{
  PublicKey, Validator, Jwk, answer, big_endian_from, big_endian, exponent_from, parse_key,
  is_signing_key, put_key, load_keys, fetch_jwks, Round, or_error, get_public_key,
}

exponent_from-eq-big_endian :
    (n e : ℕ) (bytes : List ℕ)
    → e ≡ n % 2 ^ 64
    → exponent_from e bytes ≡ big_endian_from n bytes % 2 ^ 64
unfolding exponent_from
exponent_from-eq-big_endian n e [] h = h
exponent_from-eq-big_endian n e (b ∷ bytes) h =
    exponent_from-eq-big_endian (n * 256 + b) ((e * 256 + b) % 2 ^ 64) bytes (omega arith)

-- A key whose parameters are the encodings of two byte strings has the numbers that those spell in
-- big-endian order, the exponent modulo 2^64.
pub parse_key-encode :
    (jwk : Jwk) (n e : List ℕ)
    → AllBytes n
    → AllBytes e
    → jwk.n ≡ encode n
    → jwk.e ≡ encode e
    → parse_key jwk ≡ ok (record { modulus = big_endian n; exponent = big_endian e % 2 ^ 64 })
unfolding parse_key
parse_key-encode jwk n e hn he pn pe =
    rw (pn, pe, decode-encode n hn, decode-encode e he)
      (ap (λ x. ok (record { modulus = big_endian n; exponent = x }))
        (exponent_from-eq-big_endian 0 0 e refl))

abbrev pub or_else : Option PublicKey → Option PublicKey → Option PublicKey
or_else none o = o
or_else (some a) o = some a

abbrev as_option : Outcome PublicKey → Option PublicKey
as_option (ok key) = some key
as_option _ = none

-- The key that a list of keys gives for an identifier: that of its last RSA signing key.
unfoldable pub last_key : List Jwk → Text → Option PublicKey
last_key [] kid = none
last_key (jwk ∷ jwks) kid = or_else (last_key jwks kid) (
    if is_signing_key jwk
    then (if jwk.kid == kid then as_option (parse_key jwk) else none)
    else none)

or_else_assoc : (a b c : Option PublicKey) → or_else a (or_else b c) ≡ or_else (or_else a b) c
or_else_assoc none b c = refl
or_else_assoc (some a) b c = refl

assoc_if :
    (a : Option PublicKey) (b : Bool) (key : PublicKey) (c : Option PublicKey)
    → or_else a (if b then some key else c) ≡ or_else (or_else a (if b then some key else none)) c
assoc_if none true key c = refl
assoc_if none false key c = refl
assoc_if (some a) true key c = refl
assoc_if (some a) false key c = refl

put_key-eq-ok :
    (kid : Text) (r : Outcome PublicKey) (m : Map Text PublicKey)
    (rest : Map Text PublicKey → Outcome (Unit {0}) × Map Text PublicKey) (m' : Map Text PublicKey)
    → put_key kid r m rest ≡ (ok tt, m')
    → (key : PublicKey) × (r ≡ ok key) × (rest (insert kid key m) ≡ (ok tt, m'))
put_key-eq-ok kid (ok key) m rest m' h = (key, refl, h)
put_key-eq-ok kid (err e) m rest m' h = absurd (ground arith)
put_key-eq-ok kid Outcome.panics m rest m' h = absurd (ground arith)
put_key-eq-ok kid Outcome.blocks m rest m' h = absurd (ground arith)

-- After keys were loaded with no error, an identifier has the last key that was listed for it, and
-- the key that it had before if none was listed: a refresh drops nothing.
pub lookup-load_keys :
    (jwks : List Jwk) (m m' : Map Text PublicKey) (kid : Text)
    → load_keys jwks m ≡ (ok tt, m')
    → lookup kid m' ≡ or_else (last_key jwks kid) (lookup kid m)
unfolding load_keys last_key
lookup-load_keys [] m m' kid h = ground arith
lookup-load_keys (jwk ∷ jwks) m m' kid h = elim (Bool-cases (is_signing_key jwk)) [
  | inl e ↦
      let (key, p, h') = put_key-eq-ok jwk.kid (parse_key jwk) m (load_keys jwks) m' (rw e at h) in
      let ih = lookup-load_keys jwks (insert jwk.kid key m) m' kid h' in
      let found = lookup-insert jwk.kid kid key m in
      rw (e, p, ih, found) (assoc_if (last_key jwks kid) (jwk.kid == kid) key (lookup kid m))
  | inr e ↦
      let ih = lookup-load_keys jwks m m' kid (rw e at h) in
      rw (e, ih) (or_else_assoc (last_key jwks kid) none (lookup kid m))
]

-- The key that `getPublicKey` returns is in the cache that it leaves behind.
pub lookup-get_public_key :
    (round : Round) (kid : Text) (v v' : Validator) (key : PublicKey)
    → get_public_key round kid v ≡ (ok key, v')
    → lookup kid v'.public_keys ≡ some key
unfolding get_public_key
lookup-get_public_key round kid v v' key h = ground arith

-- While the cache is fresh a cached key is returned and nothing is fetched: the answer of the
-- server and the other goroutines play no part.
pub get_public_key-fresh :
    (round : Round) (kid : Text) (v : Validator) (key : PublicKey)
    → lookup kid v.public_keys ≡ some key
    → since_lt round.at_read v.last_keys_fetch v.keys_cache_ttl ≡ true
    → get_public_key round kid v ≡ (ok key, v)
unfolding get_public_key
get_public_key-fresh round kid v key h f = rw (h, f)

-- A refresh keeps a withdrawn key alive. The cache has expired, the server answers with keys that
-- load and that do not list the identifier, and nobody else touches the cache: a key that was
-- cached under the identifier is returned all the same, and the cache counts as fresh from then on.
pub get_public_key-withdrawn :
    (round : Round) (kid : Text) (v : Validator) (key : PublicKey) (jwks : List Jwk)
    (m' : Map Text PublicKey)
    → lookup kid v.public_keys ≡ some key
    → since_lt round.at_read v.last_keys_fetch v.keys_cache_ttl ≡ false
    → round.others v ≡ v
    → since_lt round.at_lock v.last_keys_fetch v.keys_cache_ttl ≡ false
    → round.reply ≡ answer 200 (some jwks)
    → load_keys jwks v.public_keys ≡ (ok tt, m')
    → last_key jwks kid ≡ none
    → get_public_key round kid v
      ≡ (ok key, record v { public_keys = m'; last_keys_fetch = round.at_fetch })
unfolding get_public_key
get_public_key-withdrawn round kid v key jwks m' cached stale alone stale' replied loads absent =
    let found = lookup-load_keys jwks v.public_keys m' kid loads in
    rw (cached, stale, alone, cached, stale', replied, loads)
      (rw (found ∙ ap (λ o. or_else o (lookup kid v.public_keys)) absent ∙ cached))

-- If the fetch fails, with no answer or with a status other than 200, a cached key is returned
-- though it has expired, the cache is left as it is, and with no cached key the error is passed on.
pub get_public_key-failed :
    (round : Round) (kid : Text) (v : Validator) (e : Error)
    → since_lt round.at_read v.last_keys_fetch v.keys_cache_ttl ≡ false
    → round.others v ≡ v
    → since_lt round.at_lock v.last_keys_fetch v.keys_cache_ttl ≡ false
    → fetch_jwks round.reply round.at_fetch v ≡ (err e, v)
    → get_public_key round kid v ≡ (or_error (lookup kid v.public_keys) e, v)
unfolding get_public_key
get_public_key-failed round kid v e stale alone stale' failed =
    elim (Option-cases (lookup kid v.public_keys)) [
      | inl absent ↦ rw (absent, alone, absent, failed, absent)
      | inr (key, cached) ↦ rw (cached, stale, alone, cached, stale', failed, cached)
    ]
