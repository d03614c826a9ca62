-- ===== src/Logger/Tests.antt =====
-- internal/logger/logger.go on a few calls.
use gprxy.Common.{true, ◌≡◌, refl, [], ◌∷◌, List, Text, Text_eq, text_eq, codes}
use gprxy.Logger.{
  Logger, info_level, debug_level, set_level, set_debug, set_production, is_debug, debug, info,
  error, warn, init_from_env,
}
use gprxy.Logger.Levels.{Call, Severity, run}

logging : Unit {0}
unfolding debug info error warn init_from_env set_debug set_production set_level is_debug text_eq
logging = tt

abbrev sprintf : Text → List Text → Text
sprintf format args = format

abbrev quiet : Logger
quiet = record { current_level = info_level; lines = [] }

abbrev calls : List Call
calls =
    record { severity = Severity.debugging; format = codes "a"; args = [] }
    ∷ record { severity = Severity.informing; format = codes "b"; args = [] }
    ∷ record { severity = Severity.failing; format = codes "c"; args = [] }
    ∷ []

run_tests :
    ((run sprintf calls quiet).lines ≡ codes "[INFO] b" ∷ codes "[ERROR] c" ∷ [])
    × ((init_from_env sprintf true (codes "debug") quiet).current_level ≡ debug_level)
unfolding logging
run_tests = (refl, refl)
