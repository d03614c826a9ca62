-- ===== src/Cli.antt =====
-- internal/cli: what the commands share. The disk, the environment, the JSON codec, `url.Parse` and
-- the HTTP client are inputs.
pub mod Tokens
pub mod Creds
pub mod Refresh
pub mod Callback
pub mod Browser
pub mod Login
pub mod Connect
pub mod Start
mod Tests
use gprxy.Common.{ℕ, Bool, Option, List, Text, ℤ}
use gprxy.Jwt.Values.{Claims}

pub record UserInfo : Type 0 where
  pub sub : Text
  pub email : Text
  pub name : Text
  pub roles : List Text

pub record SavedCreds : Type 0 where
  pub access_token : Text
  pub refresh_token : Text
  pub id_token : Text
  pub expires_at : ℤ
  pub issued_at : ℤ
  pub user_info : UserInfo

pub record TokenResponse : Type 0 where
  pub access_token : Text
  pub refresh_token : Text
  pub id_token : Text
  pub token_type : Text
  pub expires_in : ℤ

-- A parsed URL: what stands before '?', the query, and the fragment.
pub record Url : Type 0 where
  pub stem : Text
  pub raw_query : Text
  pub fragment : Text

-- The request cannot be made, gets no answer, or gets a status and a body; the flag says whether
-- the whole body was read.
pub data Reply : Type 0 where
  no_request no_answer : Reply
  answer : ℕ → Bool → Text → Reply

-- What a command meets: the environment variables, the libraries, the network as a function of the
-- URL and the form that are posted, and the moments of its looks at the clock.
pub record Shell : Type 0 where
  pub getenv : Text → Text
  pub parse_url : Text → Option Url
  pub post : Text → Text → Reply
  pub encode_creds : SavedCreds → Option Text
  pub decode_creds : Text → Option SavedCreds
  pub decode_tokens : Text → Option TokenResponse
  pub decode_claims : Text → Option Claims
  pub checked_at : ℤ
  pub granted_at : ℤ
  pub issued_at : ℤ

-- The home directory and the file ~/.gprxy/credentials. `torn` is what a write that fails leaves.
pub record Disk : Type 0 where
  pub has_home : Bool
  pub can_mkdir : Bool
  pub can_read : Bool
  pub can_write : Bool
  pub torn : Option Text
  pub credentials : Option Text
