-- ===== src/TestDriver/Machine/Script/Steps.antt =====
-- The other calls that do not run the callbacks keep a machine sound.
use nixpkgs_llvm_ws.Base.{
  ℕ, String, List, [], ◌∷◌, ◌≡◌, Bool, true, false, if◌then◌else◌, Option, arith,
}
use nixpkgs_llvm_ws.Base.{Result, ok, modify, ◌>>=◌, ◌>>◌}
use nixpkgs_llvm_ws.Base.Lists.{All}
use nixpkgs_llvm_ws.Base.Int.{negsuc}
use nixpkgs_llvm_ws.TestDriver.Errors.{Error}
use nixpkgs_llvm_ws.TestDriver.Machine.Shell.{
  Outside, Machine, Call, log, send, receive, start, greeted, connect, run_callbacks,
  monitor_command, parsed, read_status, collect,
}
use nixpkgs_llvm_ws.TestDriver.Machine.Keys.{announced, paused}
use nixpkgs_llvm_ws.TestDriver.Machine.Life.{release}
use nixpkgs_llvm_ws.TestDriver.Machine.Script.After.{
  IsSound, Keeps, >>=-Keeps, follow-After, IsSound-After, After-IsSound,
}
use nixpkgs_llvm_ws.TestDriver.Machine.Script.Starting.{Started, start-After}

module _ (O : Outside) where
  pub greeted-Keeps : (m : Machine O) → m.booted ≡ true → IsSound O m → IsSound O (greeted O m).1
  unfolding greeted
  greeted-Keeps m b v = ground arith

  -- A test chooses between two calls.
  pub chosen-IsSound {ρ} :
      {A : Type ρ} (b : Bool) (x y : Result Error A × Machine O)
      → IsSound O x.1
      → IsSound O y.1
      → IsSound O (if b then x else y).1
  chosen-IsSound true x y v w = v
  chosen-IsSound false x y v w = w

  pub started_greeted-IsSound :
      (m : Machine O) → IsSound O m → IsSound O ((start O false >> greeted O) m).1
  started_greeted-IsSound m v =
      let Q : Unit {0} → Machine O → Type 0 = λ _. IsSound O in
      After-IsSound O Q ((start O false >> greeted O) m)
        (follow-After O (λ _. Started O m.name) Q (λ _. greeted O) (start O false m)
          (start-After O false m v)
          (λ _ n (sound, on, _). IsSound-After O (greeted O n) (greeted-Keeps n on sound)))
        (λ _ n sound. sound)

  pub connect-Keeps : Keeps O (connect O)
  unfolding connect
  connect-Keeps m v =
      chosen-IsSound m.connected (ok tt, m) ((start O false >> greeted O) m) v
        (started_greeted-IsSound m v)

  pub send-Keeps : (text : String) → Keeps O (send O text)
  unfolding send
  send-Keeps text m v = ground arith

  pub receive-Keeps : Keeps O (receive O)
  unfolding receive
  receive-Keeps m v = ground arith

  pub log-Keeps : (text : String) → Keeps O (log O text)
  log-Keeps text m v = ground arith

  pub disconnected-Keeps : Keeps O (modify (λ m. record m { connected = false }))
  disconnected-Keeps m v = ground arith

  pub release-Keeps : Keeps O (release O)
  unfolding release
  release-Keeps m v = ground arith

  pub monitor_command-Keeps : (command : String) → Keeps O (monitor_command O command)
  unfolding monitor_command
  monitor_command-Keeps command m v = ground arith

  pub pure-Keeps {ρ} : {A : Type ρ} (a : A) → Keeps O (λ m. (ok a, m))
  pure-Keeps a m v = v

  pub parsed-Keeps : (output text : String) → Keeps O (parsed O output text)
  unfolding parsed
  parsed-Keeps output text m v = ground arith

  pub read_status-Keeps : (output : String) → Keeps O (read_status O output)
  unfolding read_status
  read_status-Keeps output =
      >>=-Keeps O (send O "echo ${PIPESTATUS[0]}\n") (λ _. receive O >>= parsed O output)
        (send-Keeps "echo ${PIPESTATUS[0]}\n")
        (λ _. >>=-Keeps O (receive O) (parsed O output) receive-Keeps (parsed-Keeps output))

  pub checked-Keeps :
      (check_return : Bool) (block : String)
      → Keeps O (
          if check_return
          then read_status O (O.b64decode block)
          else (λ m. (ok (negsuc 0, O.b64decode block), m)))
  checked-Keeps true block = read_status-Keeps (O.b64decode block)
  checked-Keeps false block = λ m v. v

  pub collect-Keeps :
      (check_return check_output : Bool) → Keeps O (collect O check_return check_output)
  unfolding collect
  collect-Keeps check_return true =
      >>=-Keeps O (receive O)
        (λ block.
          if check_return
          then read_status O (O.b64decode block)
          else (λ m. (ok (negsuc 0, O.b64decode block), m)))
        receive-Keeps (checked-Keeps check_return)
  collect-Keeps check_return false = λ m v. v

  pub run_callbacks-Keeps :
      (callbacks : List (Call O (Unit {0})))
      → All (Keeps O) callbacks
      → Keeps O (run_callbacks O callbacks)
  unfolding run_callbacks
  run_callbacks-Keeps [] given = λ m v. v
  run_callbacks-Keeps (callback ∷ rest) (g, gs) =
      >>=-Keeps O callback (λ _. run_callbacks O rest) g (λ _. run_callbacks-Keeps rest gs)

  pub announced-Keeps : (logged : Bool) (key : String) → Keeps O (announced O logged key)
  unfolding announced
  announced-Keeps logged key m v = ground arith

  pub paused-Keeps : (delay : Option ℕ) → Keeps O (paused O delay)
  unfolding paused
  paused-Keeps delay m v = ground arith
