-- ===== src/Protocol.antt =====
-- The messages of github.com/jackc/pgproto3 that the program tells apart; the others stand under
-- one constructor for each direction.
pub mod Stages
use gprxy.Common.{ℕ, Text, List, Map, codes}

pub record BackendKeyData : Type 0 where
  pub process_id : ℕ
  pub secret_key : ℕ

pub record ErrorResponse : Type 0 where
  pub severity : Text
  pub code : Text
  pub message : Text

-- From a server to its client.
pub data BackendMessage : Type 0 where
  error_response : ErrorResponse → BackendMessage
  authentication_ok authentication_cleartext_password : BackendMessage
  authentication_md5_password : Text → BackendMessage
  authentication_sasl : List Text → BackendMessage
  authentication_sasl_continue authentication_sasl_final : Text → BackendMessage
  parameter_status : Text → Text → BackendMessage
  backend_key_data : BackendKeyData → BackendMessage
  ready_for_query : ℕ → BackendMessage
  command_complete : Text → BackendMessage
  other_backend : ℕ → BackendMessage

-- From a client to its server.
pub data FrontendMessage : Type 0 where
  startup_message : Map Text Text → FrontendMessage
  password_message : Text → FrontendMessage
  sasl_initial_response : Text → Text → FrontendMessage
  sasl_response : Text → FrontendMessage
  query : Text → FrontendMessage
  parse describe bind execute : Text → FrontendMessage
  sync terminate : FrontendMessage
  other_frontend : ℕ → FrontendMessage

-- What `ReceiveStartupMessage` returns.
pub data StartupRequest : Type 0 where
  startup : Map Text Text → StartupRequest
  ssl_request gss_enc_request : StartupRequest
  cancel_request : BackendKeyData → StartupRequest

-- What is written to a client: a message, or one raw byte.
pub data Packet : Type 0 where
  message : BackendMessage → Packet
  byte : ℕ → Packet

-- `ErrorResponse` as `sendErrorToClient` builds it.
abbrev pub fatal : Text → BackendMessage
fatal msg =
    error_response (record { severity = codes "FATAL"; code = codes "08006"; message = msg })
