-- ===== src/Logger.antt =====
-- internal/logger/logger.go. `fmt.Sprintf` is a parameter, and an argument is given by its text.
pub mod Levels
mod Tests
use gprxy.Common.{
  ℕ, Bool, true, false, ◌&&◌, ◌||◌, not, List, [], ◌∷◌, ◌++◌, Text, Text_eq, ◌==◌, codes, ℤ, pos,
  ltb_ℤ, if◌then◌else◌,
}

-- The level, an `int`, and the lines written so far.
pub record Logger : Type 0 where
  pub current_level : ℤ
  pub lines : List Text

abbrev pub debug_level : ℤ
debug_level = pos 0

abbrev pub info_level : ℤ
info_level = pos 1

abbrev pub at_most : ℤ → ℤ → Bool
at_most a b = not (ltb_ℤ b a)

abbrev pub put : Text → Logger → Logger
put line l = record l { lines = l.lines ++ line ∷ [] }

unfoldable pub set_level : ℤ → Logger → Logger
set_level level l = record l { current_level = level }

unfoldable pub set_debug : Logger → Logger
set_debug l = put (codes "Debug logging enabled") (record l { current_level = debug_level })

unfoldable pub set_production : Logger → Logger
set_production l = record l { current_level = info_level }

unfoldable pub is_debug : Logger → Bool
is_debug l = at_most l.current_level debug_level && at_most debug_level l.current_level

module _ (sprintf : Text → List Text → Text) where
  unfoldable pub debug : Text → List Text → Logger → Logger
  debug format args l =
      if at_most l.current_level debug_level
      then put (sprintf (codes "[DEBUG] " ++ format) args) l
      else l

  unfoldable pub info : Text → List Text → Logger → Logger
  info format args l =
      if at_most l.current_level info_level
      then put (sprintf (codes "[INFO] " ++ format) args) l
      else l

  unfoldable pub error : Text → List Text → Logger → Logger
  error format args l = put (sprintf (codes "[ERROR] " ++ format) args) l

  -- The text of the error that is returned comes first.
  unfoldable pub errorf : Text → List Text → Logger → Text × Logger
  errorf format args l = (sprintf format args, put (sprintf (codes "[ERROR] " ++ format) args) l)

  unfoldable pub warn : Text → List Text → Logger → Logger
  warn format args l = put (sprintf (codes "[WARN] " ++ format) args) l

  unfoldable pub warnf : Text → List Text → Logger → Text × Logger
  warnf format args l = (sprintf format args, put (sprintf (codes "[WARN] " ++ format) args) l)

  -- The program ends with status 1 after this line.
  unfoldable pub fatal : Text → List Text → Logger → Logger
  fatal format args l = put (sprintf (codes "[FATAL] " ++ format) args) l

  unfoldable pub printf : Text → List Text → Logger → Logger
  unfolding info
  printf format args l = info format args l

  abbrev pub warned : Bool → Logger → Logger
  warned true l = l
  warned false l =
      put
        (sprintf (codes "Warning: could not load .env file, falling back to system environment") [])
        l

  -- `loaded` says whether the file .env could be read, and `log_level` is the variable LOG_LEVEL.
  unfoldable pub init_from_env : Bool → Text → Logger → Logger
  unfolding set_debug set_production
  init_from_env loaded log_level l =
      let l' = warned loaded l in
      if log_level == codes "debug" || log_level == codes "DEBUG"
      then set_debug l'
      else set_production l'
