-- ===== src/TestDriver/Machine/Devices.antt =====
-- The calls on a machine's devices: the virtual terminals, the X server, the console and its text, the
-- screen, the network cards and the clock of the guest, and the copy of a file over the shell.
use nixpkgs_llvm_ws.Base.{
  ℕ, String, ◌<>◌, List, [], ◌∷◌, Bool, true, false, not, if◌then◌else◌, Option, none, some,
}
use nixpkgs_llvm_ws.Base.{Action, ok, err, pure, done, ◌>>=◌, ◌>>◌}
use nixpkgs_llvm_ws.Base.Decimal.{str}
use nixpkgs_llvm_ws.Base.{string_eq}
use nixpkgs_llvm_ws.Base.Text.{has_text, join}
use nixpkgs_llvm_ws.Base.Lists.{any}
use nixpkgs_llvm_ws.Base.Int.{ℤ, is_zero}
use nixpkgs_llvm_ws.TestDriver.Errors.{Error, exception, assertion}
use nixpkgs_llvm_ws.TestDriver.Retry.{retry}
use nixpkgs_llvm_ws.TestDriver.Machine.Shell.{
  Outside, Machine, Call, log, execute, send_monitor_command,
}
use nixpkgs_llvm_ws.TestDriver.Machine.Commands.{nested, pause, succeed}
use nixpkgs_llvm_ws.TestDriver.Machine.Units.{systemctl, wait_for_unit}

module _ (O : Outside) (callbacks : List (Call O (Unit {0}))) where
  -- `execute` with its defaults.
  abbrev pub run : String → Call O (ℤ × String)
  run command = execute O callbacks command true true (some 900)

  unfoldable pub get_tty_text : String → Call O String
  unfolding execute
  get_tty_text tty =
      run ("fold -w$(stty -F /dev/tty" <> tty <> " size | awk '{print $2}') /dev/vcs" <> tty)
      >>= λ (status, output). pure output

  unfoldable pub dump_tty_contents : String → Call O (Unit {0})
  unfolding execute
  dump_tty_contents tty = run ("fold -w 80 /dev/vcs" <> tty <> " | systemd-cat") >> done

  unfoldable pub start_job : String → Option String → Call O (ℤ × String)
  unfolding systemctl
  start_job jobname user = systemctl O callbacks ("start " <> jobname) user

  unfoldable pub stop_job : String → Option String → Call O (ℤ × String)
  unfolding systemctl
  stop_job jobname user = systemctl O callbacks ("stop " <> jobname) user

  unfoldable pub wait_for_job : String → Call O (Unit {0})
  unfolding wait_for_unit
  wait_for_job jobname = wait_for_unit O callbacks jobname none 900

  unfoldable pub check_x : Bool → Call O Bool
  unfolding execute
  check_x last =
      run "journalctl -b SYSLOG_IDENTIFIER=systemd | grep \"Reached target Current graphical\""
      >>= λ (status, output).
          if not (is_zero status)
          then pure false
          else run "[ -e /tmp/.X11-unix/X0 ]" >>= λ (status, output). pure (is_zero status)

  unfoldable pub wait_for_x : ℕ → Call O (Unit {0})
  unfolding check_x
  wait_for_x timeout = nested O "waiting for the X11 server" (retry (pause O) check_x timeout)

  -- `sleep`, in the guest's time.
  unfoldable pub guest_sleep : ℕ → Call O (Unit {0})
  unfolding succeed str
  guest_sleep secs = succeed O callbacks none (("sleep " <> str secs) ∷ []) >> done

  unfoldable pub forward_port : ℕ → ℕ → Call O (Unit {0})
  unfolding send_monitor_command str
  forward_port host_port guest_port =
      send_monitor_command O callbacks
        ("hostfwd_add tcp::" <> str host_port <> "-:" <> str guest_port)
      >> done

  unfoldable pub block : Call O (Unit {0})
  unfolding send_monitor_command
  block = send_monitor_command O callbacks "set_link virtio-net-pci.1 off" >> done

  unfoldable pub unblock : Call O (Unit {0})
  unfolding send_monitor_command
  unblock = send_monitor_command O callbacks "set_link virtio-net-pci.1 on" >> done

-- What the calls use of the libraries: `re`, `splitlines`, `base64` of a host's file, the tools that
-- recognise text and convert pictures, the standard input of QEMU's process, and the queue of the lines
-- that its output has had.
pub record Devices (O : Outside) : Type 0 where
  pub searches : String → String → Bool
  pub splitlines : String → List String
  pub join_names : List String → String
  pub file_as_base64 : String → O.World → String
  pub screen_text : String → O.World → List String × O.World
  pub converts : String → O.World → Bool × O.World
  pub write_stdin : String → O.World → O.World
  pub next_line : O.World → Option String × O.World

module _ (O : Outside) (devices : Devices O) (callbacks : List (Call O (Unit {0}))) where
  open devices use {
    searches, splitlines, join_names, file_as_base64, screen_text, converts, write_stdin, next_line,
  }

  unfoldable pub tty_matches : String → String → Bool → Call O Bool
  unfolding get_tty_text
  tty_matches tty regexp last = do
    text ← get_tty_text O callbacks tty
    if last
        then log O (
            "Last chance to match /" <> regexp <> "/ on TTY" <> tty
            <> ", which currently contains: " <> text)
        else done
    pure (searches regexp text)

  unfoldable pub wait_until_tty_matches : String → String → ℕ → Call O (Unit {0})
  unfolding tty_matches
  wait_until_tty_matches tty regexp timeout =
      nested O ("waiting for " <> regexp <> " to appear on tty " <> tty)
        (retry (pause O) (tty_matches tty regexp) timeout)

  unfoldable pub get_window_names : Call O (List String)
  unfolding succeed
  get_window_names =
      succeed O callbacks none
        ("xwininfo -root -tree | sed 's/.*0x[0-9a-f]* \\\"\\([^\\\"]*\\)\\\".*/\\1/; t; d'" ∷ [])
      >>= λ text. pure (splitlines text)

  unfoldable pub window_is_visible : String → Bool → Call O Bool
  unfolding get_window_names
  window_is_visible regexp last_try = do
    names ← get_window_names
    if last_try
        then log O (
            "Last chance to match "
            <> regexp
            <> " on the window list, which currently contains: "
            <> join_names names)
        else done
    pure (any (searches regexp) names)

  unfoldable pub wait_for_window : String → ℕ → Call O (Unit {0})
  unfolding window_is_visible
  wait_for_window regexp timeout =
      nested O "waiting for a window to appear" (retry (pause O) (window_is_visible regexp) timeout)

  unfoldable pub send_console : String → Call O (Unit {0})
  send_console chars m =
      if m.process
      then (ok tt, record m { world = write_stdin chars m.world })
      else (err (assertion ""), m)

  unfoldable pub copy_from_host_via_shell : String → String → Call O (Unit {0})
  unfolding succeed
  copy_from_host_via_shell source target m =
      let content_b64 = file_as_base64 source m.world in
      (succeed O callbacks none (
            ("mkdir -p $(dirname " <> target <> ")")
            ∷ ("echo -n " <> content_b64 <> " | base64 -d > " <> target)
            ∷ [])
          >> done)
        m

  -- The text of the screen by the models of the recognition, in a file of its own.
  unfoldable pub get_screen_text_variants : String → Call O (List String)
  unfolding send_monitor_command
  get_screen_text_variants screenshot_path =
      send_monitor_command O callbacks ("screendump " <> screenshot_path) >> λ m.
      let (variants, w) = screen_text screenshot_path m.world in
      (ok variants, record m { world = w })

  unfoldable pub screen_matches : String → String → Bool → Call O Bool
  unfolding get_screen_text_variants
  screen_matches screenshot_path regex last = do
    variants ← get_screen_text_variants screenshot_path
    if any (searches regex) variants then pure true else do
      if last then log O ("Last OCR attempt failed. Text was: " <> join_names variants) else done
      pure false

  unfoldable pub wait_for_text : String → String → ℕ → Call O (Unit {0})
  unfolding screen_matches
  wait_for_text screenshot_path regex timeout =
      nested O ("waiting for " <> regex <> " to appear on screen")
        (retry (pause O) (screen_matches screenshot_path regex) timeout)

  -- `console_matches`, with the text that the buffer holds. The queue gives one line or none.
  unfoldable pub console_matches : String → Bool → Action (Machine O × String) Error Bool
  console_matches regex last (m, console) =
      let (line, w) = next_line m.world in
      let text : String = elim line [ none ↦ console | some l ↦ console <> l ] in
      (ok (searches regex text), (record m { world = w }, text))

  -- `wait_for_console_text` with a timeout.
  unfoldable pub wait_for_console_text : String → ℕ → Call O (Unit {0})
  unfolding console_matches
  wait_for_console_text regex timeout =
      nested O ("waiting for " <> regex <> " to appear on console") (λ m.
        let (r, (u, console)) =
          retry (λ seconds (m, console). (pause O seconds m, console)) (console_matches regex)
            timeout (m, "") in
        (r, u))

  -- The name of a picture.
  unfoldable pub picture_name : String → String → String
  unfolding has_text join string_eq
  picture_name out_dir filename =
      let named = if has_text "." filename then filename else filename <> ".png" in
      if has_text "/" named then named else join out_dir named

  -- A picture of the screen. The temporary file is removed by `converts`.
  unfoldable pub screenshot : String → String → Call O (Unit {0})
  unfolding send_monitor_command picture_name
  screenshot out_dir filename =
      let named = picture_name out_dir filename in
      nested O ("making screenshot " <> named) (
        send_monitor_command O callbacks ("screendump " <> named <> ".ppm") >> λ m.
        let (converted, w) = converts named m.world in
        (
          if converted then ok tt else err (exception "Cannot convert screenshot"),
          record m { world = w },
        ))
