-- ===== src/Tls/Agreement.antt =====
-- The client's upgrade (internal/tls/client-tls.go) against the proxy's answer to an SSLRequest
-- (internal/proxy/startup.go).
use gprxy.Common.{
  ℕ, ◌≡◌, refl, sym, ap, ◌∙◌, Bool, true, false, ◌||◌, List, [], ◌∷◌, ◌++◌, arith, Text, Event,
  arrives, Sink, send, send-sent_ok, ok, continue-ok, if◌then◌else◌,
}
use gprxy.Protocol.{Packet, byte}
use gprxy.Proxy.State.{World, Env}
use gprxy.Proxy.Cancel.{put_uint32, read_words}
use gprxy.Proxy.Startup.{written, write, upgrade, answer_ssl}
use gprxy.Tls.{plain, Line, ssl_request_bytes, with_handshake, upgrade_to_tls}

-- The byte with which a proxy with or without TLS answers.
abbrev pub answer_of : Bool → ℕ
answer_of true = b'S'
answer_of false = b'N'

written-ok :
    (p : Packet) (w w' : World) (r : Bool × Sink Packet)
    → send p w.conn.client ≡ r
    → written r w ≡ (ok tt, w')
    → (w'.conn.client.sent ≡ w.conn.client.sent ++ p ∷ []) × (w'.conn.secure ≡ w.conn.secure)
written-ok p w w' (true, k) e h = (
  ap (λ x. x.conn.client.sent) (sym (ap (λ x. x.1) h))
      ∙ ap (λ x. x.1.sent) (sym e)
      ∙ send-sent_ok p w.conn.client (ap (λ x. x.0) e),
  ground arith,
)
written-ok p w w' (false, k) e h = absurd (ground arith)

true_pair :
    (l : Line)
    → (send ssl_request_bytes l.wire).0 ≡ true
    → send ssl_request_bytes l.wire ≡ (true, (send ssl_request_bytes l.wire).1)
true_pair l s = ap (λ b. (b, (send ssl_request_bytes l.wire).1)) s

module _ {Conv : Type 0} (env : Env Conv) where
  upgrade-ok :
      (b : Bool) (w w' : World)
      → upgrade env b w ≡ (ok tt, w')
      → (w'.conn.client.sent ≡ w.conn.client.sent) × (w'.conn.secure ≡ true)
  upgrade-ok true w w' h = (ground arith, ground arith)
  upgrade-ok false w w' h = absurd (ground arith)

  answer_ssl-ok :
      (b : Bool) (later : ℕ) (w w' : World)
      → answer_ssl env b later w ≡ (ok tt, w')
      → (w'.conn.client.sent ≡ w.conn.client.sent ++ byte (answer_of b) ∷ [])
        × (w'.conn.secure ≡ (b || w.conn.secure))
  unfolding answer_ssl write
  answer_ssl-ok false later w w' h = written-ok (byte b'N') w w' _ refl h
  answer_ssl-ok true later w w' h =
      let r = written (send (byte b'S') w.conn.client) w in
      let (_, a, h₁) = continue-ok r.0 _ r.1 w' tt h in
      let (seen, _) = written-ok (byte b'S') w r.1 _ refl (ap (λ x. (x, r.1)) a) in
      let (same, secure) = upgrade-ok (env.handshakes later) r.1 w' h₁ in (same ∙ seen, secure)

  -- The two sides agree. A proxy that got past an SSLRequest wrote one byte, 'S' if it has TLS and
  -- 'N' if not, and is on TLS if it has it. A client that reads this byte after its request, which
  -- reads as the length 8 and the code 80877103, goes on in the clear exactly if the proxy does, and
  -- else by the handshake.
  pub upgrade_to_tls-answer_ssl :
      (has_tls : Bool) (later : ℕ) (w w' : World) (server_name : Text) (l : Line)
      (more : List (Event ℕ))
      → answer_ssl env has_tls later w ≡ (ok tt, w')
      → (send ssl_request_bytes l.wire).0 ≡ true
      → l.responses ≡ arrives (answer_of has_tls) ∷ more
      → (w'.conn.client.sent ≡ w.conn.client.sent ++ byte (answer_of has_tls) ∷ [])
        × (w'.conn.secure ≡ (has_tls || w.conn.secure))
        × (read_words ssl_request_bytes ≡ 8 ∷ 80877103 ∷ [])
        × ((upgrade_to_tls server_name l).0
            ≡ (if has_tls then with_handshake server_name l.handshakes else ok plain))
  unfolding upgrade_to_tls read_words put_uint32
  upgrade_to_tls-answer_ssl true later w w' server_name l more h s r =
      let (seen, secure) = answer_ssl-ok true later w w' h in
      (seen, secure, refl, rw (true_pair l s, r) refl)
  upgrade_to_tls-answer_ssl false later w w' server_name l more h s r =
      let (seen, secure) = answer_ssl-ok false later w w' h in
      (seen, secure, refl, rw (true_pair l s, r) refl)
