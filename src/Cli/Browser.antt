-- ===== src/Cli/Browser.antt =====
-- internal/cli/login.go: the command that opens the browser. The platform and the output of
-- `uname -r` are inputs, and starting the command is left out.
use gprxy.Common.{
  ℕ, Bool, false, ◌||◌, Option, none, some, List, [], ◌∷◌, Text, codes, has_prefix, to_lower,
  if◌then◌else◌,
}

pub data Platform : Type 0 where
  windows darwin other : Platform

-- `strings.Contains`
unfoldable pub contains : Text → Text → Bool
unfolding has_prefix
contains [] part = has_prefix [] part
contains (c ∷ s) part = has_prefix (c ∷ s) part || contains s part

-- `none` is a `uname` that failed.
unfoldable pub is_wsl : (ℕ → ℕ) → Option Text → Bool
unfolding contains
is_wsl wide none = false
is_wsl wide (some release) = contains (to_lower wide release) (codes "microsoft")

-- An empty argument goes behind the first one, if there are more.
abbrev pub with_title : List Text → List Text
with_title (a ∷ b ∷ args) = a ∷ [] ∷ b ∷ args
with_title args = args

abbrev pub browser_args : Platform → Bool → Text → Text × List Text
browser_args windows wsl url = (codes "rundll32", codes "url.dll,FileProtocolHandler" ∷ url ∷ [])
browser_args darwin wsl url = (codes "open", url ∷ [])
browser_args other wsl url =
    if wsl
    then (codes "cmd.exe", codes "/c" ∷ codes "start" ∷ url ∷ [])
    else (codes "xdg-open", url ∷ [])

-- `openBrowser`, up to the start of the command.
unfoldable pub open_browser : Platform → Bool → Text → Text × List Text
open_browser platform wsl url =
    let (cmd, args) = browser_args platform wsl url in (cmd, with_title args)
