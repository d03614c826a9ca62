-- ===== src/Jwt/Validation.antt =====
-- What a successful `ValidateJWT` has established.
use gprxy.Common.{
  ◌≡◌, refl, inl, inr, true, Option, none, some, arith, Text, Text_eq, ◌==◌, codes, text_eq_iff,
  lookup, ℤ, ok, err, Outcome, Bool-cases, Option-cases, parse_failed, Error,
}
use gprxy.Jwt.Values.{Json, null, str}
use gprxy.Jwt.Keys.{PublicKey, Validator, Round}
use gprxy.Jwt.Cache.{lookup-get_public_key}
use gprxy.Jwt.Acceptance.{IsAcceptable, validate_claims-eq-ok_iff}
use gprxy.Jwt.{
  OAuthContext, Token, Parser, context_of, validate_claims, with_key, key_of, key_func,
  checked_token, with_public_key, validate_jwt,
}

-- Why a raw token was accepted: the library verified it under a cached key that its header names,
-- and its claims are acceptable at the time `now`.
pub record IsAuthentic (parser : Parser) (now : ℤ) (raw : Text) (v : Validator) (c : OAuthContext)
    : Type 0 where
  pub token : Token
  pub read : parser.read raw ≡ some token
  pub method : token.alg ≡ codes "RS256"
  pub kid : Text
  pub named : token.kid ≡ some (str kid)
  pub key : PublicKey
  pub cached : lookup kid v.public_keys ≡ some key
  pub final : Token
  pub verified : parser.verified raw key ≡ some final
  pub valid : final.valid ≡ true
  pub acceptable : IsAcceptable v final.claims now
  pub told : context_of final.claims ≡ c

with_key-eq-ok :
    (r : Outcome PublicKey × Validator) (key : PublicKey) (v' : Validator)
    → with_key r ≡ (ok key, v')
    → r ≡ (ok key, v')
with_key-eq-ok (ok k, v) key v' h = h
with_key-eq-ok (err e, v) key v' h = absurd (ground arith)
with_key-eq-ok (Outcome.panics, v) key v' h = absurd (ground arith)
with_key-eq-ok (Outcome.blocks, v) key v' h = absurd (ground arith)

key_of-eq-ok :
    (round : Round) (o : Option Json) (v v' : Validator) (key : PublicKey)
    → key_of round o v ≡ (ok key, v')
    → (kid : Text) × (o ≡ some (str kid)) × (lookup kid v'.public_keys ≡ some key)
key_of-eq-ok round (some (str kid)) v v' key h =
    (kid, refl, lookup-get_public_key round kid v v' key (with_key-eq-ok _ key v' h))
key_of-eq-ok round none v v' key h = absurd (ground arith)
key_of-eq-ok round (some null) v v' key h = absurd (ground arith)
key_of-eq-ok round (some _) v v' key h = absurd (ground arith)

key_func-eq-ok :
    (round : Round) (t : Token) (v v' : Validator) (key : PublicKey)
    → key_func round t v ≡ (ok key, v')
    → (t.alg ≡ codes "RS256") × (key_of round t.kid v ≡ (ok key, v'))
unfolding key_func
key_func-eq-ok round t v v' key h = elim (Bool-cases (t.alg == codes "RS256")) [
  | inl e ↦ ((text_eq_iff t.alg (codes "RS256")).0 e, rw e at h)
  | inr e ↦ absurd (not_err (rw e at h))
]
  where
    not_err : {e : Error} → ◌≡◌ {A = Outcome PublicKey × Validator} (err e, v) (ok key, v') → ⊥
    not_err p = ground arith

module _ (parser : Parser) (round : Round) (now : ℤ) where
  with_public_key-eq-ok :
      (raw : Text) (r : Outcome PublicKey × Validator) (v' : Validator) (c : OAuthContext)
      → with_public_key parser round now raw r ≡ (ok c, v')
      → (key : PublicKey) × (r ≡ (ok key, v'))
        × (checked_token parser round now (parser.verified raw key) v' ≡ ok c)
  with_public_key-eq-ok raw (ok key, v) v' c h = (key, ground arith, ground arith)
  with_public_key-eq-ok raw (err e, v) v' c h = absurd (ground arith)
  with_public_key-eq-ok raw (Outcome.panics, v) v' c h = absurd (ground arith)
  with_public_key-eq-ok raw (Outcome.blocks, v) v' c h = absurd (ground arith)

  checked_token-eq-ok :
      (o : Option Token) (v : Validator) (c : OAuthContext)
      → checked_token parser round now o v ≡ ok c
      → (t : Token) × (o ≡ some t) × (t.valid ≡ true) × (validate_claims v t.claims now ≡ ok c)
  checked_token-eq-ok none v c h = absurd (ground arith)
  checked_token-eq-ok (some t) v c h = (t, refl, ground arith, ground arith)

-- Whatever the token, the cache and the network: if `ValidateJWT` returns a context, the library
-- verified the token under an RS256 key that is cached under the identifier in the token's header,
-- the verified claims are acceptable to the validator, and the context holds what they say.
pub validate_jwt-IsAuthentic :
    (parser : Parser) (round : Round) (now : ℤ) (raw : Text) (v v' : Validator) (c : OAuthContext)
    → validate_jwt parser round now raw v ≡ (ok c, v')
    → IsAuthentic parser now raw v' c
unfolding validate_jwt
validate_jwt-IsAuthentic parser round now raw v v' c h = elim (Option-cases (parser.read raw)) [
  | inl e ↦ absurd (unread (rw e at h))
  | inr (t, e) ↦
      let (key, k, checks) =
        with_public_key-eq-ok parser round now raw (key_func round t v) v' c (rw e at h) in
      let (method, of_kid) = key_func-eq-ok round t v v' key k in
      let (kid, named, cached) = key_of-eq-ok round t.kid v v' key of_kid in
      let (final, verified, valid, claims) =
        checked_token-eq-ok parser round now (parser.verified raw key) v' c checks in
      let (acceptable, told) = (validate_claims-eq-ok_iff v' final.claims now c).0 claims in
      record {
        token = t;
        read = e;
        method = method;
        kid = kid;
        named = named;
        key = key;
        cached = cached;
        final = final;
        verified = verified;
        valid = valid;
        acceptable = acceptable;
        told = told;
      }
]
  where
    unread : ◌≡◌ {A = Outcome OAuthContext × Validator} (err parse_failed, v) (ok c, v') → ⊥
    unread p = ground arith
