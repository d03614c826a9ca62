-- ===== src/Jwt/Acceptance.antt =====
-- What the claim checks of `ValidateJWT` accept, and the roles that they read.
use gprxy.Common.{
  ◌≡◌, ◌≢◌, refl, ◌↔◌, ◌⊎◌, inl, inr, Bool, true, false, Option, none, some, List, [], ◌∷◌, ◌++◌,
  arith, Text, Text_eq, codes, text_eq_iff, lookup, ℤ, zero_time, after, ok, err, Outcome, no_email,
  no_subject, token_expired, is_empty, if◌then◌else◌, ap, Bool-cases,
}
use gprxy.Jwt.Values.{Json, Items, Claims, null, str, arr, nil, cons}
use gprxy.Jwt.Keys.{Validator}
use gprxy.Jwt.{
  OAuthContext, strings, roles_of, extract_roles, holds_string, audience_result, validate_audience,
  string_claim, time_claim, is_string, context_of, after_audience, validate_claims,
}

-- `s` is the string, or one of the strings of the array.
abbrev pub InItems : Text → Items → Type 0
InItems s nil = ⊥
InItems s (cons x xs) = (x ≡ str s) ⊎ InItems s xs

abbrev pub InClaim : Text → Option Json → Type 0
InClaim s (some (str t)) = s ≡ t
InClaim s (some (arr xs)) = InItems s xs
InClaim s _ = ⊥

abbrev pub In : Text → List Text → Type 0
In s [] = ⊥
In s (t ∷ ts) = (s ≡ t) ⊎ In s ts

holds_string_iff : (s : Text) (xs : Items) → (holds_string s xs ≡ true) ↔ InItems s xs
holds_string_iff s nil = ground arith
holds_string_iff s (cons (str t) xs) = ground (arith, text_eq_iff t s, holds_string_iff s xs)
holds_string_iff s (cons null xs) = ground (arith, holds_string_iff s xs)
holds_string_iff s (cons _ xs) = ground (arith, holds_string_iff s xs)

-- An audience is accepted exactly when the claim "aud" is it, or is an array that holds it.
pub validate_audience-eq-ok_iff :
    (audience : Text) (claims : Claims)
    → (validate_audience audience claims ≡ ok tt) ↔ InClaim audience (lookup (codes "aud") claims)
unfolding validate_audience
validate_audience-eq-ok_iff audience claims = of_claim (lookup (codes "aud") claims)
  where
    of_claim : (o : Option Json) → (audience_result audience o ≡ ok tt) ↔ InClaim audience o
    of_claim none = ground arith
    of_claim (some (str t)) = ground (arith, text_eq_iff t audience)
    of_claim (some (arr xs)) = ground (arith, holds_string_iff audience xs)
    of_claim (some _) = ground arith

In-append : (s : Text) (xs ys : List Text) → In s (xs ++ ys) ↔ (In s xs ⊎ In s ys)
In-append s [] ys = ground arith
In-append s (x ∷ xs) ys = ground (arith, In-append s xs ys)

In-strings : (s : Text) (xs : Items) → In s (strings xs) ↔ InItems s xs
unfolding strings
In-strings s nil = ground arith
In-strings s (cons (str t) xs) = ground (arith, In-strings s xs)
In-strings s (cons null xs) = ground (arith, In-strings s xs)
In-strings s (cons _ xs) = ground (arith, In-strings s xs)

In-roles_of : (s : Text) (o : Option Json) → In s (roles_of o) ↔ InClaim s o
In-roles_of s none = ground arith
In-roles_of s (some (arr xs)) = In-strings s xs
In-roles_of s (some (str t)) = ground arith
In-roles_of s (some _) = ground arith

-- The roles are the strings that the claim "role" or the claim "roles" is or holds.
pub In-extract_roles :
    (s : Text) (claims : Claims)
    → In s (extract_roles claims)
      ↔ (InClaim s (lookup (codes "role") claims) ⊎ InClaim s (lookup (codes "roles") claims))
unfolding extract_roles
In-extract_roles s claims =
    let rs = lookup (codes "role") claims in
    let qs = lookup (codes "roles") claims in
    ground (arith, In-append s (roles_of rs) (roles_of qs), In-roles_of s rs, In-roles_of s qs)

-- The claims that `ValidateJWT` accepts at the time `now`.
pub record IsAcceptable (v : Validator) (claims : Claims) (now : ℤ) : Type 0 where
  pub issued : lookup (codes "iss") claims ≡ some (str v.issuer)
  pub addressed : InClaim v.audience (lookup (codes "aud") claims)
  pub email : string_claim (lookup (codes "email") claims) ≢ []
  pub subject : string_claim (lookup (codes "sub") claims) ≢ []
  pub current : after now (time_claim (lookup (codes "exp") claims)) ≡ false

is_string_iff : (s : Text) (o : Option Json) → (is_string s o ≡ true) ↔ (o ≡ some (str s))
is_string_iff s none = ground arith
is_string_iff s (some (str t)) = ground (arith, text_eq_iff t s)
is_string_iff s (some null) = ground arith
is_string_iff s (some _) = ground arith

checks_iff :
    (e s : Text) (late : Bool) (known c : OAuthContext)
    → ((if is_empty e
          then err no_email
          else if is_empty s
          then err no_subject
          else if late
          then err token_expired
          else ok known)
        ≡ ok c)
      ↔ ((e ≢ []) × (s ≢ []) × (late ≡ false) × (known ≡ c))
checks_iff [] s late known c = ground arith
checks_iff (x ∷ e) [] late known c = ground arith
checks_iff (x ∷ e) (y ∷ s) true known c = ground arith
checks_iff (x ∷ e) (y ∷ s) false known c = ground arith

after_audience_iff :
    (r : Outcome (Unit {0})) (claims : Claims) (now : ℤ) (c : OAuthContext)
    → (after_audience r claims now ≡ ok c) ↔ (
        (r ≡ ok tt)
        × (string_claim (lookup (codes "email") claims) ≢ [])
        × (string_claim (lookup (codes "sub") claims) ≢ [])
        × (after now (time_claim (lookup (codes "exp") claims)) ≡ false)
        × (context_of claims ≡ c))
after_audience_iff (ok tt) claims now c =
    let (to, from) =
      checks_iff (string_claim (lookup (codes "email") claims))
        (string_claim (lookup (codes "sub") claims))
        (after now (time_claim (lookup (codes "exp") claims))) (context_of claims) c in
    (λ h. let (e, s, l, k) = to h in (refl, e, s, l, k), λ (_, e, s, l, k). from (e, s, l, k))
after_audience_iff (err e) claims now c = ground arith
after_audience_iff Outcome.panics claims now c = ground arith
after_audience_iff Outcome.blocks claims now c = ground arith

-- Claims are accepted exactly when the issuer and the audience are the configured ones, the email
-- and the subject are strings that are not empty, and `now` is not after the expiry; then the
-- context holds what the claims say.
pub validate_claims-eq-ok_iff :
    (v : Validator) (claims : Claims) (now : ℤ) (c : OAuthContext)
    → (validate_claims v claims now ≡ ok c) ↔ (IsAcceptable v claims now × (context_of claims ≡ c))
unfolding validate_claims
validate_claims-eq-ok_iff v claims now c =
    elim (Bool-cases (is_string v.issuer (lookup (codes "iss") claims))) [
      | inl e ↦ rw e (to e, from)
      | inr e ↦ rw e (λ h. cc, λ (a, _). absurd (cc ((is_string_iff v.issuer _).1 a.issued, e)))
    ]
  where
    result : Outcome (Unit {0})
    result = validate_audience v.audience claims

    aud : (result ≡ ok tt) ↔ InClaim v.audience (lookup (codes "aud") claims)
    aud = validate_audience-eq-ok_iff v.audience claims

    to :
        is_string v.issuer (lookup (codes "iss") claims) ≡ true
        → after_audience result claims now ≡ ok c
        → IsAcceptable v claims now × (context_of claims ≡ c)
    to e h =
        let (a, m, s, l, k) = (after_audience_iff result claims now c).0 h in
        (
          record {
            issued = (is_string_iff v.issuer _).0 e;
            addressed = aud.0 a;
            email = m;
            subject = s;
            current = l;
          },
          k,
        )

    from :
        IsAcceptable v claims now × (context_of claims ≡ c)
        → after_audience result claims now ≡ ok c
    from (a, k) =
        (after_audience_iff result claims now c).1
          (aud.1 a.addressed, a.email, a.subject, a.current, k)

-- A token whose claims hold no expiry is refused, once the clock is past the year 1.
pub validate_claims-no_expiry :
    (v : Validator) (claims : Claims) (now : ℤ)
    → time_claim (lookup (codes "exp") claims) ≡ zero_time
    → after now zero_time ≡ true
    → (c : OAuthContext) → validate_claims v claims now ≢ ok c
validate_claims-no_expiry v claims now e late c h =
    let a = ((validate_claims-eq-ok_iff v claims now c).0 h).0 in
    cc (a.current, ap (after now) e, late)
