-- ===== src/Cli/Creds/Storing.antt =====
-- Credentials that are saved are loaded again.
use gprxy.Common.{◌≡◌, refl, true, Option, none, some, arith, Text, ok}
use gprxy.Cli.{SavedCreds, Shell, Disk}
use gprxy.Cli.Creds.{has_path, encoded, save_creds, load_creds}

-- What one shell writes of credentials, another reads as the same credentials. `encoding/json`
-- does so for times in the years 0 to 9999, and yields an error for others.
abbrev pub Agree : Shell → Shell → Type 0
Agree sh sh' =
    (creds : SavedCreds) (bytes : Text)
    → sh.encode_creds creds ≡ some bytes
    → sh'.decode_creds bytes ≡ some creds

module _ (sh sh' : Shell) (agree : Agree sh sh') (creds : SavedCreds) (d : Disk) where
  of_encoded :
      (o : Option Text)
      → sh.encode_creds creds ≡ o
      → d.can_read ≡ true
      → has_path d ≡ true
      → (encoded o d).0 ≡ ok tt
      → load_creds sh' (encoded o d).1 ≡ ok creds
  unfolding load_creds has_path
  of_encoded none e r p h = absurd (ground arith)
  of_encoded (some bytes) e r p h = ground (arith, agree creds bytes e)

  -- Credentials that were saved with no error are those that the next load returns, if the file
  -- can be read and the JSON decoder reads what the encoder wrote.
  pub load_creds-save_creds :
      d.can_read ≡ true
      → (save_creds sh creds d).0 ≡ ok tt
      → load_creds sh' (save_creds sh creds d).1 ≡ ok creds
  unfolding save_creds
  load_creds-save_creds r h = ground (arith, of_encoded (sh.encode_creds creds) refl r)
