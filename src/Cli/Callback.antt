-- ===== src/Cli/Callback.antt =====
-- internal/cli/login.go: `startCallbackServer`, as interleavings of its select, the goroutines of
-- the requests to /callback, and the goroutine of the listener. Both channels have no buffer.
pub mod Vouching
mod Tests
use gprxy.Common.{
  ℕ, ◌≡◌, ◌≢◌, Bool, true, false, List, [], ◌∷◌, ◌++◌, Text, Text_eq, ◌==◌, is_empty, Outcome, ok,
  err, Error, callback_error, missing_code, missing_state, state_mismatch, timed_out, cancelled,
  listen_failed, if◌then◌else◌,
}

-- The parameters of the URL that are read, "" for one that is missing.
pub record Request : Type 0 where
  pub code : Text
  pub state : Text
  pub error : Text
  pub error_description : Text

-- What a handler does in turn: a response to the browser, a send on `errChan`, which waits for its
-- receiver, and a send on `codeChan`, which is given up if there is none.
pub data Action : Type 0 where
  respond : ℕ → Action
  send_err : Error → Action
  try_code : Text → Action

abbrev pub fail_if : Bool → Error → List Action
fail_if true e = respond 400 ∷ send_err e ∷ []
fail_if false e = []

abbrev pub mismatch : Bool → List Action
mismatch true = []
mismatch false = respond 400 ∷ send_err state_mismatch ∷ []

-- The handler of /callback. It returns after the first error, and goes on after the others. That
-- error stands for the text that is given to `Errorf` as the format.
unfoldable pub handler : Text → Request → List Action
handler expected r =
    if is_empty r.error
    then fail_if (is_empty r.code) missing_code
      ++ (fail_if (is_empty r.state) missing_state
          ++ (mismatch (r.state == expected) ++ respond 200 ∷ try_code r.code ∷ []))
    else respond 400 ∷ send_err (callback_error (r.error ++ r.error_description)) ∷ []

-- Before the select, in it, and after the return.
pub data Phase : Type 0 where
  starting waiting : Phase
  returned : Outcome Text → Phase

-- What the handlers that run have still to do, and the requests that came.
pub record Callback : Type 0 where
  pub phase : Phase
  pub handlers : List (List Action)
  pub seen : List Request

abbrev pub begin : Callback
begin = record { phase = starting; handlers = []; seen = [] }

abbrev pub end : Callback → Outcome Text → Callback
end s r = record s { phase = returned r }

-- One handler has come one action further.
abbrev pub advance : Callback → List (List Action) → List Action → List (List Action) → Callback
advance s front acts back = record s { handlers = front ++ acts ∷ back }

abbrev pub Runs : Callback → List (List Action) → List Action → List (List Action) → Type 0
Runs s front acts back = s.handlers ≡ front ++ acts ∷ back

pub data Step (expected : Text) : Callback → Callback → Type 0 where
  request :
      (s : Callback) (r : Request)
      → Step expected s (record s { handlers = handler expected r ∷ s.handlers; seen = r ∷ s.seen })
  select : (s : Callback) → s.phase ≡ starting → Step expected s (record s { phase = waiting })
  write :
      (s : Callback) (front back : List (List Action)) (acts : List Action) (status : ℕ)
      → Runs s front (respond status ∷ acts) back
      → Step expected s (advance s front acts back)
  deliver_err :
      (s : Callback) (front back : List (List Action)) (acts : List Action) (e : Error)
      → Runs s front (send_err e ∷ acts) back
      → s.phase ≡ waiting
      → Step expected s (end (advance s front acts back) (err e))
  deliver_code :
      (s : Callback) (front back : List (List Action)) (acts : List Action) (code : Text)
      → Runs s front (try_code code ∷ acts) back
      → s.phase ≡ waiting
      → Step expected s (end (advance s front acts back) (ok code))
  drop_code :
      (s : Callback) (front back : List (List Action)) (acts : List Action) (code : Text)
      → Runs s front (try_code code ∷ acts) back
      → s.phase ≢ waiting
      → Step expected s (advance s front acts back)
  -- `ListenAndServe` fails, and its goroutine sends the error.
  fail_listen : (s : Callback) → s.phase ≡ waiting → Step expected s (end s (err listen_failed))
  time_out : (s : Callback) → s.phase ≡ waiting → Step expected s (end s (err timed_out))
  cancel : (s : Callback) → s.phase ≡ waiting → Step expected s (end s (err cancelled))

pub data Reach (expected : Text) : Callback → Callback → Type 0 where
  here : {s : Callback} → Reach expected s s
  next : {s t u : Callback} → Reach expected s t → Step expected t u → Reach expected s u
