-- ===== src/Proxy/Cancel.antt =====
-- internal/proxy/connection.go: `cancelRequest`, and the words of the protocol in big-endian order.
use gprxy.Common.{
  ℕ, ◌+◌, ◌*◌, ◌/◌, ◌%◌, ◌^◌, ◌<◌, ◌≡◌, refl, Bool, true, false, List, [], ◌∷◌, ◌++◌, arith, All,
  length, Outcome, ok, err, cancel_failed,
}
use gprxy.Protocol.{BackendKeyData}

-- `binary.BigEndian.PutUint32`
unfoldable pub put_uint32 : ℕ → List ℕ
put_uint32 n = n / 2 ^ 24 % 256 ∷ n / 2 ^ 16 % 256 ∷ n / 2 ^ 8 % 256 ∷ n % 256 ∷ []

unfoldable pub cancel_message : BackendKeyData → List ℕ
unfolding put_uint32
cancel_message k =
    put_uint32 16 ++ (put_uint32 80877102 ++ (put_uint32 k.process_id ++ put_uint32 k.secret_key))

-- What a server reads: a word, and a cancel request.
abbrev pub get_uint32 : ℕ → ℕ → ℕ → ℕ → ℕ
get_uint32 a b c d = a * 2 ^ 24 + b * 2 ^ 16 + c * 2 ^ 8 + d

unfoldable pub read_words : List ℕ → List ℕ
read_words (a ∷ b ∷ c ∷ d ∷ bytes) = get_uint32 a b c d ∷ read_words bytes
read_words _ = []

-- The message has 16 bytes, and reads back as its length, the code of a cancel request, the process
-- identifier and the secret.
pub read_words-cancel_message :
    (k : BackendKeyData)
    → k.process_id < 2 ^ 32
    → k.secret_key < 2 ^ 32
    → (read_words (cancel_message k) ≡ 16 ∷ 80877102 ∷ k.process_id ∷ k.secret_key ∷ [])
      × (length (cancel_message k) ≡ 16)
      × All (λ b. b < 256) (cancel_message k)
unfolding cancel_message read_words
read_words-cancel_message k hp hk = (ground arith, refl, omega arith)

-- `cancelRequest`, with what is written to PostgreSQL.
unfoldable pub send_cancel :
    Bool → Bool → BackendKeyData → List (List ℕ) → Outcome (Unit {0}) × List (List ℕ)
unfolding cancel_message
send_cancel false written k sent = (err cancel_failed, sent)
send_cancel true false k sent = (err cancel_failed, sent)
send_cancel true true k sent = (ok tt, sent ++ cancel_message k ∷ [])
