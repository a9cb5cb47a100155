-- ===== src/TestDriver/Qmp.antt =====
-- `QMPSession` of nixos/lib/test-driver/test_driver/qmp.py. The lines that the socket will deliver
-- are a field of the session; an empty line is a read that finds nothing yet.
pub mod Order
use nixpkgs_llvm_ws.Base.{
  ℕ, zero, suc, String, List, [], ◌∷◌, ◌++◌, Bool, true, false, not, ◌||◌, if◌then◌else◌, Option,
  none, some, ◌==◌, string_eq,
}
use nixpkgs_llvm_ws.Base.{
  Action, Result, ok, err, raise, pure, modify, done, gets, raise_if, ◌>>=◌, ◌>>◌,
}
use nixpkgs_llvm_ws.Base.Dict.{Dict}
use nixpkgs_llvm_ws.Base.Lists.{length}
use nixpkgs_llvm_ws.TestDriver.Errors.{Error, assertion, runtime, value, hangs}

-- A decoded message, by the keys that the session looks for.
pub record Message : Type 0 where
  pub return : Bool
  pub qmp : Bool
  pub event : Bool
  pub error : Bool
  pub class : Option String
  pub desc : Option String
  pub text : String

pub record Session : Type 0 where
  pub incoming : List String
  pub results : List Message
  pub pending_events : List Message
  pub written : List (String × Dict String String)

unfoldable pub is_result : Message → Bool
is_result m = m.return || m.qmp

-- `QMPAPIError(message)`: it reads `class` and `desc` at the top of the message.
unfoldable pub api_error : Message → Error
api_error m =
    if m.error
    then (elim m.class [
      | none ↦ runtime "Malformed QMP API error response"
      | some class ↦ elim m.desc [
        | none ↦ runtime "Malformed QMP API error response"
        | some desc ↦ runtime desc
      ]
    ])
    else assertion "Not an error message!"

-- A message goes to its queue.
unfoldable pub file : Message → Action Session Error (Unit {0})
unfolding is_result api_error
file m =
    if is_result m
    then modify (λ s. record s { results = s.results ++ m ∷ [] })
    else if m.event
    then modify (λ s. record s { pending_events = s.pending_events ++ m ∷ [] })
    else raise (api_error m)

abbrev pub no_results : Session → Bool
no_results s = elim s.results [ [] ↦ true | r ∷ rest ↦ false ]

unfoldable pub missed : Action Session Error (Unit {0})
missed s = raise_if (not (no_results s)) (assertion "Results set is not empty, missed results!") s

-- `events`, when the caller takes every event.
unfoldable pub events : Action Session Error (List Message)
events s = (ok s.pending_events, record s { pending_events = [] })

-- The command with its arguments is written.
abbrev pub write : String → Dict String String → Session → Session
write cmd args s = record s { written = s.written ++ (cmd, args) ∷ [] }

-- `json.loads`
module _ (loads : String → Option Message) where
  unfoldable pub read_pending_messages : Action Session Error (Unit {0})
  unfolding file string_eq
  read_pending_messages s = elim s.incoming [
    | [] ↦ (ok tt, s)
    | line ∷ lines ↦
        let u = record s { incoming = lines } in
        if line == ""
        then (ok tt, u)
        else elim (loads line) [ none ↦ (err value, u) | some m ↦ file m u ]
  ]

  -- The loop of `_wait_for_new_result`, for at most as many reads as there are lines. When no line is
  -- to come any more, it runs for ever.
  unfoldable pub await_result : ℕ → Action Session Error Message
  unfolding read_pending_messages
  await_result zero s = elim s.results [
    | [] ↦ (err hangs, s)
    | r ∷ rest ↦ (ok r, record s { results = rest })
  ]
  await_result (suc fuel) s = elim s.results [
    | [] ↦ (read_pending_messages >> await_result fuel) s
    | r ∷ rest ↦ (ok r, record s { results = rest })
  ]

  unfoldable pub wait_for_new_result : Action Session Error Message
  unfolding missed await_result
  wait_for_new_result = missed >> λ s. await_result (length s.incoming) s

  -- The loop of `wait_for_event`, in the same way.
  unfoldable pub await_event : ℕ → Action Session Error Message
  unfolding read_pending_messages
  await_event zero s = elim s.pending_events [
    | [] ↦ (err hangs, s)
    | e ∷ rest ↦ (ok e, record s { pending_events = rest })
  ]
  await_event (suc fuel) s = elim s.pending_events [
    | [] ↦ (read_pending_messages >> await_event fuel) s
    | e ∷ rest ↦ (ok e, record s { pending_events = rest })
  ]

  unfoldable pub wait_for_event : Action Session Error Message
  unfolding await_event
  wait_for_event s = await_event (length s.incoming) s

  unfoldable pub send : String → Dict String String → Action Session Error Message
  unfolding read_pending_messages missed wait_for_new_result
  send cmd args = read_pending_messages >> missed >> modify (write cmd args) >> wait_for_new_result

  -- `__init__`, over a new socket.
  unfoldable pub greet : Action Session Error Message
  unfolding wait_for_new_result send
  greet = do
    hello ← wait_for_new_result
    raise_if (not hello.qmp) (assertion "Unexpected result")
    send "qmp_capabilities" []
