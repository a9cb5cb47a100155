-- ===== src/TestDriver/Machine/Shell.antt =====
-- The object, the shell in the guest and the QEMU monitor: `start`, `connect` and `execute`.
use nixpkgs_llvm_ws.Base.{
  ℕ, String, ◌<>◌, List, [], ◌∷◌, ◌++◌, Bool, true, false, ◌&&◌, if◌then◌else◌, Option, none, some,
}
use nixpkgs_llvm_ws.Base.{Action, ok, err, pure, raise, done, modify, ◌>>=◌, ◌>>◌}
use nixpkgs_llvm_ws.Base.{◌==◌, string_eq, nat_eq}
use nixpkgs_llvm_ws.Base.Decimal.{str, int}
use nixpkgs_llvm_ws.Base.Int.{ℤ, pos, negsuc}
use nixpkgs_llvm_ws.Base.Text.{ends_with_char, has_text, strip, is_space}
use nixpkgs_llvm_ws.TestDriver.Errors.{Error, assertion, value, os_error, hangs}

-- What lies outside the process: QEMU with its guest, and the library functions on texts.
pub record Outside : Type 1 where
  pub World : Type 0
  -- what the guest sends, in chunks of at most 4096 bytes, when the shell has been sent a text
  pub shell_answer : String → World → List String × World
  -- the steps of `start`, each of which may raise or never return: the two sockets are made, the
  -- QEMU process is run with or without reboots, which has a pid, the monitor connects, the shell
  -- connects and has its first chunks, the QMP session is opened, and the monitor shows its prompt
  pub create_sockets : Action World Error (Unit {0})
  pub run_qemu : Bool → Action World Error ℕ
  pub accept_monitor : Action World Error (Unit {0})
  pub accept_shell : Action World Error (List String)
  pub open_qmp : Action World Error (Unit {0})
  pub await_prompt : Action World Error (Unit {0})
  -- a command to the monitor, with the answer up to the prompt
  pub monitor : String → World → String × World
  -- QEMU's process is waited for, which never returns where the guest does not power off
  pub wait_process : Action World Error (Unit {0})
  -- QEMU's process is told to end, which it does, so that the thread that reads its output ends too
  pub terminate : World → World
  -- in milliseconds
  pub sleep : ℕ → World → World
  pub log : String → World → World
  pub shlex_quote : String → String
  pub b64decode : String → String

-- A socket of the object: not made yet, closed by `release`, or in use.
pub data Socket {ℓ} (A : Type ℓ) : Type ℓ where
  unmade : Socket A
  shut : Socket A
  live : A → Socket A

module _ (O : Outside) where
  -- The shell is kept by the chunks that it has still to deliver; when they are used up, the guest
  -- has closed the connection.
  pub record Machine : Type 0 where
    pub name : String
    pub booted : Bool
    pub connected : Bool
    pub pid : Option ℕ
    pub process : Bool
    pub shell : Socket (List String)
    pub monitor : Socket (Unit {0})
    pub world : O.World

  abbrev pub Call {ρ} : Type ρ → Type ρ
  Call A = Action Machine Error A

  unfoldable pub new_machine : String → O.World → Machine
  new_machine name w = record {
    name = name;
    booted = false;
    connected = false;
    pid = none;
    process = false;
    shell = unmade;
    monitor = unmade;
    world = w;
  }

  unfoldable pub is_up : Machine → Bool
  is_up m = m.booted && m.connected

  abbrev pub log : String → Call (Unit {0})
  log msg m = (ok tt, record m { world = O.log msg m.world })

  -- `assert self.shell` and `self.shell.send(data)`
  unfoldable pub send : String → Call (Unit {0})
  send text m = elim m.shell [
    | unmade ↦ (err (assertion ""), m)
    | shut ↦ (err os_error, m)
    | live chunks ↦
        let (answer, w) = O.shell_answer text m.world in
        (ok tt, record m { shell = live (chunks ++ answer); world = w })
  ]

  -- The loop of `_next_newline_closed_block_from_shell`: the text that it joins, and the chunks
  -- that it leaves. `recv` returns no bytes, and ends the loop, when the connection is closed.
  unfoldable pub next_block : List String → String × List String
  unfolding ends_with_char string_eq nat_eq
  next_block [] = ("", [])
  next_block (chunk ∷ chunks) =
      let (rest, left) = next_block chunks in
      if chunk == ""
      then ("", chunks)
      else if ends_with_char b'\n' chunk
      then (chunk, chunks)
      else (chunk <> rest, left)

  unfoldable pub receive : Call String
  unfolding next_block
  receive m = elim m.shell [
    | unmade ↦ (err (assertion ""), m)
    | shut ↦ (err os_error, m)
    | live chunks ↦
        let (block, left) = next_block chunks in (ok block, record m { shell = live left })
  ]

  abbrev pub outside {ρ} : {A : Type ρ} → Action O.World Error A → Call A
  outside f m = let (r, w) = f m.world in (r, record m { world = w })

  -- The part of `start` up to the connection of the shell.
  unfoldable pub launch : Bool → Call ℕ
  launch allow_reboot = do
    log "starting vm"
    outside O.create_sockets
    pid ← outside (O.run_qemu allow_reboot)
    modify (λ m. record m { process = true })
    outside O.accept_monitor
    modify (λ m. record m { monitor = live tt })
    pure pid

  unfoldable pub attach : ℕ → Call (Unit {0})
  attach pid = do
    chunks ← outside O.accept_shell
    modify (λ m. record m { shell = live chunks })
    outside O.open_qmp
    outside O.await_prompt
    modify (λ m. record m { pid = some pid; booted = true })
    log ("QEMU running (pid " <> str pid <> ")")

  -- `start`
  unfoldable pub start : Bool → Call (Unit {0})
  unfolding launch attach str
  start allow_reboot m = if m.booted then (ok tt, m) else (launch allow_reboot >>= attach) m

  -- The loops of `connect`; that of the first raises for a closed socket. The second: chunks are read up to the one that says that the shell is there.
  -- A closed connection delivers empty chunks for ever.
  unfoldable pub await_shell : List String → Option (List String)
  unfolding has_text
  await_shell [] = none
  await_shell (chunk ∷ chunks) =
      let rest = await_shell chunks in
      if has_text "Spawning backdoor root shell..." chunk then some chunks else rest

  unfoldable pub greeted : Call (Unit {0})
  unfolding await_shell
  greeted m = elim m.shell [
    | unmade ↦ (err (assertion ""), m)
    | shut ↦ (err value, m)
    | live chunks ↦ elim (await_shell chunks) [
      | none ↦ (err hangs, record m { shell = live [] })
      | some left ↦ (
        ok tt,
        record m {
          shell = live left;
          connected = true;
          world = O.log "connected to guest root shell" m.world;
        },
      )
    ]
  ]

  unfoldable pub connect : Call (Unit {0})
  unfolding start greeted
  connect m = if m.connected then (ok tt, m) else (start false >> greeted) m

  -- `run_callbacks`
  unfoldable pub run_callbacks : List (Call (Unit {0})) → Call (Unit {0})
  run_callbacks [] = done
  run_callbacks (callback ∷ rest) = callback >> run_callbacks rest

  -- The line that `execute` sends.
  unfoldable pub out_command : String → Option ℕ → String
  unfolding str
  out_command command timeout =
      (elim timeout [ none ↦ "" | some n ↦ "timeout " <> str n ])
      <> " bash -c "
      <> O.shlex_quote ("set -euo pipefail; " <> command)
      <> " | (base64 -w 0; echo)\n"

  -- `int(rc)` of the status, and what `execute` then returns.
  unfoldable pub parsed : String → String → Call (ℤ × String)
  unfolding int strip
  parsed output text = elim (int (strip is_space text)) [
    | none ↦ raise value
    | some rc ↦ pure (pos rc, output)
  ]

  -- The exit status, read after the output.
  unfoldable pub read_status : String → Call (ℤ × String)
  unfolding send receive parsed
  read_status output = do send "echo ${PIPESTATUS[0]}\n"; text ← receive; parsed output text

  -- What `execute` does with what the command wrote.
  unfoldable pub collect : Bool → Bool → Call (ℤ × String)
  unfolding receive read_status
  collect check_return true = do
    block ← receive
    if check_return then read_status (O.b64decode block) else pure (negsuc 0, O.b64decode block)
  collect check_return false = pure (negsuc 1, "")

  -- What is left of `send_monitor_command` behind the callbacks.
  unfoldable pub monitor_command : String → Call String
  monitor_command command m = elim m.monitor [
    | unmade ↦ (err (assertion ""), m)
    | shut ↦ (err os_error, m)
    | live _ ↦
        let (answer, w) = O.monitor (command <> "\n") m.world in (ok answer, record m { world = w })
  ]

  module _ (callbacks : List (Call (Unit {0}))) where
    unfoldable pub send_monitor_command : String → Call String
    unfolding run_callbacks monitor_command
    send_monitor_command command = run_callbacks callbacks >> monitor_command command

    unfoldable pub execute : String → Bool → Bool → Option ℕ → Call (ℤ × String)
    unfolding run_callbacks connect out_command send collect
    execute command check_return check_output timeout = do
      run_callbacks callbacks
      connect
      send (out_command command timeout)
      collect check_return check_output
