-- ===== src/Logger/Levels.antt =====
-- What a program of log calls writes at each level.
use gprxy.Common.{
  ◌≡◌, refl, sym, ap, ◌∙◌, Bool, true, Bool-cases, inl, inr, List, [], ◌∷◌, ◌++◌, append-nil,
  append_assoc, Text, Text_eq, codes, ℤ, if◌then◌else◌,
}
use gprxy.Logger.{Logger, debug_level, info_level, at_most, put, debug, info, error, warn}

pub data Severity : Type 0 where
  debugging informing warning failing : Severity

pub record Call : Type 0 where
  pub severity : Severity
  pub format : Text
  pub args : List Text

abbrev pub prefix_of : Severity → Text
prefix_of debugging = codes "[DEBUG] "
prefix_of informing = codes "[INFO] "
prefix_of warning = codes "[WARN] "
prefix_of failing = codes "[ERROR] "

-- The threshold of a level, as an independent description.
abbrev pub shown : ℤ → Severity → Bool
shown level debugging = at_most level debug_level
shown level informing = at_most level info_level
shown level warning = true
shown level failing = true

module _ (sprintf : Text → List Text → Text) where
  abbrev pub log_as : Severity → Text → List Text → Logger → Logger
  log_as debugging = debug sprintf
  log_as informing = info sprintf
  log_as warning = warn sprintf
  log_as failing = error sprintf

  abbrev pub run : List Call → Logger → Logger
  run [] l = l
  run (c ∷ cs) l = run cs (log_as c.severity c.format c.args l)

  abbrev pub line_of : Call → Text
  line_of c = sprintf (prefix_of c.severity ++ c.format) c.args

  abbrev pub visible : ℤ → List Call → List Text
  visible level [] = []
  visible level (c ∷ cs) =
      if shown level c.severity then line_of c ∷ visible level cs else visible level cs

  log_as_lem :
      (s : Severity) (format : Text) (args : List Text) (l : Logger)
      → log_as s format args l
        ≡ (if shown l.current_level s then put (sprintf (prefix_of s ++ format) args) l else l)
  unfolding debug info warn error
  log_as_lem debugging format args l = refl
  log_as_lem informing format args l = refl
  log_as_lem warning format args l = refl
  log_as_lem failing format args l = refl

  -- A program of log calls writes the lines of the calls that the level shows, each once and in
  -- order, behind what was written before, and keeps the level.
  pub run-lines :
      (cs : List Call) (l : Logger)
      → ((run cs l).lines ≡ l.lines ++ visible l.current_level cs)
        × ((run cs l).current_level ≡ l.current_level)
  run-lines [] l = (sym (append-nil l.lines), refl)
  run-lines (c ∷ cs) l = elim (Bool-cases (shown l.current_level c.severity)) [
    | inl e ↦
        let step : log_as c.severity c.format c.args l ≡ put (line_of c) l =
          log_as_lem c.severity c.format c.args l ∙ rw e refl in
        let (lines, level) = run-lines cs (put (line_of c) l) in
        (
          ap (λ x. (run cs x).lines) step
              ∙ lines
              ∙ append_assoc l.lines (line_of c ∷ []) (visible l.current_level cs)
              ∙ rw e refl,
          ap (λ x. (run cs x).current_level) step ∙ level,
        )
    | inr e ↦
        let step : log_as c.severity c.format c.args l ≡ l =
          log_as_lem c.severity c.format c.args l ∙ rw e refl in
        let (lines, level) = run-lines cs l in
        (
          ap (λ x. (run cs x).lines) step ∙ lines ∙ rw e refl,
          ap (λ x. (run cs x).current_level) step ∙ level,
        )
  ]
