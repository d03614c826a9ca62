-- ===== src/Cli/Connect.antt =====
-- internal/cli/connect.go. What `net` finds of a host, and whether it can be dialled, are inputs.
pub mod Disclosure
pub mod Admission
use gprxy.Common.{
  ℕ, Bool, true, false, ◌||◌, ◌&&◌, not, Option, none, some, List, [], ◌∷◌, ◌++◌, Text, Text_eq,
  codes, is_empty, Map, ℤ, pos, ltb_ℤ, Event, arrives, lost, Sink, send, Outcome, ok, err, panics,
  blocks, Act, continue, Error, bad_port, lookup_failed, no_addresses, unreachable, if◌then◌else◌,
}
use gprxy.Protocol.{FrontendMessage, startup_message, password_message, BackendMessage}
use gprxy.Tls.{Channel, Line, upgrade_to_tls}
use gprxy.Cli.{SavedCreds, Shell, Disk}
use gprxy.Cli.Refresh.{get_creds}

pub record ConnectionConfig : Type 0 where
  pub db_name : Text
  pub db_host : Text
  pub db_port : ℤ

-- `net.ParseIP`, `net.LookupHost` and `net.DialTimeout`.
pub record Net : Type 0 where
  pub is_ip : Text → Bool
  pub lookup_host : Text → Option (List Text)
  pub dials : Text → ℤ → Bool

abbrev pub reach : Net → ConnectionConfig → Outcome (Unit {0})
reach net c = if net.dials c.db_host c.db_port then ok tt else err unreachable

abbrev pub with_addresses : Net → ConnectionConfig → Option (List Text) → Outcome (Unit {0})
with_addresses net c none = err lookup_failed
with_addresses net c (some []) = err no_addresses
with_addresses net c (some (a ∷ more)) = reach net c

unfoldable pub validate : Net → ConnectionConfig → Outcome (Unit {0})
validate net c =
    if ltb_ℤ c.db_port (pos 1) || ltb_ℤ (pos 65535) c.db_port
    then err bad_port
    else if net.is_ip c.db_host
    then reach net c
    else with_addresses net c (net.lookup_host c.db_host)

-- One run of `connect`: the disk, the connection before the upgrade, and what goes over it after.
-- `validated` is what `Validate` said, which is logged only.
pub record Run : Type 0 where
  pub validated : Option (Outcome (Unit {0}))
  pub disk : Disk
  pub line : Line
  pub channel : Option Channel
  pub sent : Sink FrontendMessage
  pub replies : List (Event BackendMessage)

abbrev pub startup_parameters : ConnectionConfig → SavedCreds → Map Text Text
startup_parameters c creds =
    (codes "application_name", codes "psql")
    ∷ (codes "client_encoding", codes "UTF8")
    ∷ (codes "database", c.db_name)
    ∷ (codes "user", creds.user_info.email)
    ∷ []

-- A write that fails is logged only.
unfoldable pub send_message : FrontendMessage → Run → Run
unfolding send
send_message m r = record r { sent = (send m r.sent).1 }

-- `msg, _ := proxyConnection.Receive()`: neither the message nor the error is looked at, and the
-- access token goes out as the password.
abbrev pub with_reply : SavedCreds → List (Event BackendMessage) → Act Run (Unit {0})
with_reply creds [] r = (blocks, r)
with_reply creds (e ∷ rest) r =
    (ok tt, send_message (password_message creds.access_token) (record r { replies = rest }))

abbrev pub after_creds : Outcome SavedCreds × Disk → Act Run SavedCreds
after_creds (c, d) r = (c, record r { disk = d })

abbrev pub upgraded : Outcome Channel × Line → Act Run (Unit {0})
upgraded (ok channel, l) r = (ok tt, record r { line = l; channel = some channel })
upgraded (err e, l) r = (err e, record r { line = l })
upgraded (panics, l) r = (panics, record r { line = l })
upgraded (blocks, l) r = (blocks, record r { line = l })

unfoldable pub talk : ConnectionConfig → SavedCreds → Act Run (Unit {0})
unfolding send_message
talk c creds r =
    let r₁ : Run = send_message (startup_message (startup_parameters c creds)) r in
    with_reply creds r₁.replies r₁

-- An error of the dial is logged only, and `defer conn.Close()` looks at the nil connection.
abbrev pub with_connection : Shell → Bool → ConnectionConfig → SavedCreds → Act Run (Unit {0})
with_connection sh false c creds r = (panics, r)
with_connection sh true c creds r =
    let opened = upgrade_to_tls (sh.getenv (codes "PROXY_URL")) r.line in
    continue (upgraded opened r).0 (λ _. talk c creds) (upgraded opened r).1

-- An error is `logger.Fatal`, which ends the program.
unfoldable pub connect : Shell → Net → Bool → ConnectionConfig → Act Run (Unit {0})
unfolding validate get_creds upgrade_to_tls talk
connect sh net dialled c r =
    let r₀ : Run = record r { validated = some (validate net c) } in
    let asked = after_creds (get_creds sh r₀.disk) r₀ in
    continue asked.0 (with_connection sh dialled c) asked.1
