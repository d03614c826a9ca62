-- ===== src/Config/Strings.antt =====
-- What a connection string says of its parts.
use gprxy.Common.{
  ◌≡◌, sym, ap, ◌∙◌, ◌∷◌, ◌++◌, arith, Text, codes, split_two, drop_as, drop_as-append, ℕ,
  split_two-append, NoChar,
}
use gprxy.Config.{Config, build_connection_string}

split_unique :
    (a a' b b' : Text) (sep : ℕ)
    → NoChar sep a
    → NoChar sep a'
    → a ++ sep ∷ b ≡ a' ++ sep ∷ b'
    → (a ≡ a') × (b ≡ b')
split_unique a a' b b' sep h h' e =
    let same =
      sym (split_two-append a b sep h)
      ∙ ap (λ s. split_two s sep) e
      ∙ split_two-append a' b' sep h' in
    (ground arith, ground arith)

after_prefix : (p : Text) {s t : Text} → p ++ s ≡ p ++ t → s ≡ t
after_prefix p {s} {t} e = sym (drop_as-append p s) ∙ ap (λ u. drop_as u p) e ∙ drop_as-append p t

-- The parts of a URL that are free of its delimiters.
pub record IsPlain (c : Config) : Type 0 where
  pub user : NoChar b':' c.service_user
  pub pass : NoChar b'@' c.service_pass
  pub host : NoChar b':' c.db_host

-- If the user and the host hold no ':' and the password no '@', a connection string determines the
-- user, the password, the host and the database.
pub build_connection_string-inj :
    (c d : Config) (db db' : Text)
    → IsPlain c
    → IsPlain d
    → build_connection_string c db ≡ build_connection_string d db'
    → (c.service_user ≡ d.service_user)
      × (c.service_pass ≡ d.service_pass)
      × (c.db_host ≡ d.db_host)
      × (db ≡ db')
unfolding build_connection_string
build_connection_string-inj c d db db' pc pd e =
    let e₁ = after_prefix (codes "postgres://") e in
    let (user, e₂) = split_unique c.service_user d.service_user _ _ b':' pc.user pd.user e₁ in
    let (pass, e₃) = split_unique c.service_pass d.service_pass _ _ b'@' pc.pass pd.pass e₂ in
    let (host, e₄) = split_unique c.db_host d.db_host _ _ b':' pc.host pd.host e₃ in
    (user, pass, host, after_prefix (codes "5432/") e₄)
