-- ===== src/Tls.antt =====
-- internal/tls: the configuration of the proxy, and the upgrade of a client. What crypto/tls does
-- with a configuration is an input.
pub mod Agreement
use gprxy.Common.{
  ℕ, Bool, true, false, ◌||◌, Option, none, some, List, [], ◌∷◌, ◌++◌, Text, codes, is_empty,
  nat_eq, Event, arrives, lost, Sink, send, Outcome, ok, err, panics, blocks, bad_certificate,
  send_failed, receive_failed, tls_handshake_failed, if◌then◌else◌,
}
use gprxy.Proxy.Cancel.{put_uint32}

pub data Version : Type 0 where
  tls_12 tls_13 : Version

pub data CipherSuite : Type 0 where
  ecdhe_rsa_aes_128_gcm ecdhe_rsa_aes_256_gcm ecdhe_ecdsa_aes_128_gcm : CipherSuite
  ecdhe_ecdsa_aes_256_gcm ecdhe_rsa_chacha20 ecdhe_ecdsa_chacha20 : CipherSuite

pub data Curve : Type 0 where
  x25519 p_256 p_384 : Curve

-- A certificate with its key is known by a number.
pub record TlsConfig : Type 0 where
  pub certificate : ℕ
  pub min_version : Version
  pub max_version : Version
  pub prefer_server_cipher_suites : Bool
  pub cipher_suites : List CipherSuite
  pub curve_preferences : List Curve

abbrev pub config_with : Option ℕ → Outcome (Option TlsConfig)
config_with none = err bad_certificate
config_with (some certificate) = ok (
    some (record {
      certificate = certificate;
      min_version = tls_12;
      max_version = tls_13;
      prefer_server_cipher_suites = true;
      cipher_suites =
          ecdhe_rsa_aes_128_gcm ∷ ecdhe_rsa_aes_256_gcm ∷ ecdhe_ecdsa_aes_128_gcm
          ∷ ecdhe_ecdsa_aes_256_gcm ∷ ecdhe_rsa_chacha20 ∷ ecdhe_ecdsa_chacha20 ∷ [];
      curve_preferences = x25519 ∷ p_256 ∷ p_384 ∷ [];
    }))

-- `Load`: `none` is the nil configuration, and the error ends the program. `key_pair` is
-- `tls.LoadX509KeyPair`.
unfoldable pub load : (Text → Text) → (Text → Text → Option ℕ) → Outcome (Option TlsConfig)
load env key_pair =
    let cert = env (codes "PROXY_CERT") in
    let key = env (codes "PROXY_KEY") in
    if is_empty cert || is_empty key then ok none else config_with (key_pair cert key)

-- The connection after the upgrade: the bare one, or TLS over it with this server name, whose
-- certificate is not verified (`InsecureSkipVerify`).
pub data Channel : Type 0 where
  plain : Channel
  unverified : Text → Version → Channel

-- What is written to the proxy, what comes from it, and whether the handshake works.
pub record Line : Type 0 where
  pub wire : Sink (List ℕ)
  pub responses : List (Event ℕ)
  pub handshakes : Bool

abbrev pub ssl_request_bytes : List ℕ
ssl_request_bytes = put_uint32 8 ++ put_uint32 80877103

abbrev pub with_handshake : Text → Bool → Outcome Channel
with_handshake server_name true = ok (unverified server_name tls_12)
with_handshake server_name false = err tls_handshake_failed

abbrev pub with_response : Text → List (Event ℕ) → Line → Outcome Channel × Line
with_response server_name [] l = (blocks, l)
with_response server_name (lost ∷ rest) l = (err receive_failed, record l { responses = rest })
with_response server_name (arrives b ∷ rest) l = (
  (if nat_eq b b'N' then ok plain else with_handshake server_name l.handshakes),
  record l { responses = rest },
)

abbrev pub requested : Text → Bool × Sink (List ℕ) → Line → Outcome Channel × Line
requested server_name (true, k) l = with_response server_name l.responses (record l { wire = k })
requested server_name (false, k) l = (err send_failed, record l { wire = k })

-- Any answer but 'N' starts the handshake.
unfoldable pub upgrade_to_tls : Text → Line → Outcome Channel × Line
unfolding send put_uint32
upgrade_to_tls server_name l = requested server_name (send ssl_request_bytes l.wire) l
