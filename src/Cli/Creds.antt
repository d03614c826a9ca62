-- ===== src/Cli/Creds.antt =====
-- internal/cli/loginStatus.go: the file of credentials.
pub mod Storing
use gprxy.Common.{
  ℕ, ◌*◌, Bool, true, false, ◌&&◌, Option, none, some, Text, ℤ, until_lt, minute, Outcome, ok, err,
  Error, no_credentials, bad_json, if◌then◌else◌,
}
use gprxy.Cli.{SavedCreds, Shell, Disk}

-- `getCredentialsPath` makes the directory, and fails if that or the home directory fails.
unfoldable pub has_path : Disk → Bool
has_path d = d.has_home && d.can_mkdir

-- `os.WriteFile`: a write that fails leaves `torn`.
abbrev pub written : Text → Disk → Outcome (Unit {0}) × Disk
written bytes d =
    if d.can_write
    then (ok tt, record d { credentials = some bytes })
    else (err no_credentials, record d { credentials = d.torn })

abbrev pub encoded : Option Text → Disk → Outcome (Unit {0}) × Disk
encoded none d = (err bad_json, d)
encoded (some bytes) d = written bytes d

unfoldable pub save_creds : Shell → SavedCreds → Disk → Outcome (Unit {0}) × Disk
unfolding has_path
save_creds sh creds d =
    if has_path d then encoded (sh.encode_creds creds) d else (err no_credentials, d)

abbrev pub decoded : Option SavedCreds → Outcome SavedCreds
decoded none = err bad_json
decoded (some creds) = ok creds

abbrev pub content : (Text → Option SavedCreds) → Option Text → Outcome SavedCreds
content decode_creds none = err no_credentials
content decode_creds (some bytes) = decoded (decode_creds bytes)

unfoldable pub load_creds : Shell → Disk → Outcome SavedCreds
unfolding has_path
load_creds sh d =
    if has_path d && d.can_read then content sh.decode_creds d.credentials else err no_credentials

-- `time.Until(creds.ExpiresAt) < 3*time.Minute`
unfoldable pub is_expired : ℤ → SavedCreds → Bool
is_expired now creds = until_lt now creds.expires_at (3 * minute)
