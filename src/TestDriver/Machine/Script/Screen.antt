-- ===== src/TestDriver/Machine/Script/Screen.antt =====
-- The calls on the terminals, the windows, the console and the screen keep a machine sound where its
-- callbacks do.
use nixpkgs_llvm_ws.Base.{◌<>◌, ℕ, String, List, [], ◌∷◌, Bool, none}
use nixpkgs_llvm_ws.Base.{if◌then◌else◌, done, arith}
use nixpkgs_llvm_ws.Base.Lists.{All, any}
use nixpkgs_llvm_ws.Base.Decimal.{str}
use nixpkgs_llvm_ws.TestDriver.Machine.Shell.{Outside, Machine, Call, log, send_monitor_command}
use nixpkgs_llvm_ws.TestDriver.Machine.Commands.{pause, succeed}
use nixpkgs_llvm_ws.TestDriver.Machine.Devices.{
  Devices, run, get_tty_text, guest_sleep, tty_matches, wait_until_tty_matches, get_window_names,
  window_is_visible, wait_for_window, send_console, copy_from_host_via_shell,
  get_screen_text_variants, screen_matches, wait_for_text, console_matches, wait_for_console_text,
  picture_name, screenshot,
}
use nixpkgs_llvm_ws.TestDriver.Machine.Script.Loops.{retry-Preserves}
use nixpkgs_llvm_ws.TestDriver.Machine.Script.After.{
  IsSound, Keeps, >>=-Keeps, follow-IsSound, world-IsSound,
}
use nixpkgs_llvm_ws.TestDriver.Machine.Script.Steps.{log-Keeps}
use nixpkgs_llvm_ws.TestDriver.Machine.Script.Execute.{
  answered-Keeps, pause-Keeps, run-Keeps, send_monitor_command-Keeps, >>-done-Keeps,
}
use nixpkgs_llvm_ws.TestDriver.Machine.Script.Conditions.{waited-Keeps, succeed-Keeps}

module _ (O : Outside) (devices : Devices O) (callbacks : List (Call O (Unit {0})))
    (given : All (Keeps O) callbacks) where
  get_tty_text-Keeps : (tty : String) → Keeps O (get_tty_text O callbacks tty)
  unfolding get_tty_text
  get_tty_text-Keeps tty =
      let command =
        "fold -w$(stty -F /dev/tty" <> tty <> " size | awk '{print $2}') /dev/vcs" <> tty in
      >>=-Keeps O (run O callbacks command) _ (run-Keeps O callbacks given command) (λ _ m v. v)

  pub guest_sleep-Keeps : (secs : ℕ) → Keeps O (guest_sleep O callbacks secs)
  unfolding guest_sleep
  guest_sleep-Keeps secs =
      >>-done-Keeps O callbacks given (succeed O callbacks none (("sleep " <> str secs) ∷ []))
        (succeed-Keeps O callbacks given none (("sleep " <> str secs) ∷ []))

  -- The last chance is announced.
  last-Keeps : (last : Bool) (text : String) → Keeps O (if last then log O text else done)
  last-Keeps last text = answered-Keeps O last (log O text) done (log-Keeps O text) (λ m v. v)

  tty_matches-Keeps :
      (tty regexp : String) (last : Bool)
      → Keeps O (tty_matches O devices callbacks tty regexp last)
  unfolding tty_matches
  tty_matches-Keeps tty regexp last =
      >>=-Keeps O (get_tty_text O callbacks tty) _ (get_tty_text-Keeps tty) (λ text m v.
        follow-IsSound O _ ((if last then log O _ else done) m) (λ _ m v. v)
          (last-Keeps last _ m v))

  pub wait_until_tty_matches-Keeps :
      (tty regexp : String) (timeout : ℕ)
      → Keeps O (wait_until_tty_matches O devices callbacks tty regexp timeout)
  unfolding wait_until_tty_matches
  wait_until_tty_matches-Keeps tty regexp timeout =
      waited-Keeps O _ (tty_matches O devices callbacks tty regexp) timeout
        (tty_matches-Keeps tty regexp)

  get_window_names-Keeps : Keeps O (get_window_names O devices callbacks)
  unfolding get_window_names
  get_window_names-Keeps =
      let commands : List String =
        "xwininfo -root -tree | sed 's/.*0x[0-9a-f]* \\\"\\([^\\\"]*\\)\\\".*/\\1/; t; d'" ∷ [] in
      >>=-Keeps O (succeed O callbacks none commands) _
        (succeed-Keeps O callbacks given none commands) (λ _ m v. v)

  window_is_visible-Keeps :
      (regexp : String) (last : Bool) → Keeps O (window_is_visible O devices callbacks regexp last)
  unfolding window_is_visible
  window_is_visible-Keeps regexp last =
      >>=-Keeps O (get_window_names O devices callbacks) _ get_window_names-Keeps (λ text m v.
        follow-IsSound O _ ((if last then log O _ else done) m) (λ _ m v. v)
          (last-Keeps last _ m v))

  pub wait_for_window-Keeps :
      (regexp : String) (timeout : ℕ) → Keeps O (wait_for_window O devices callbacks regexp timeout)
  unfolding wait_for_window
  wait_for_window-Keeps regexp timeout =
      waited-Keeps O _ (window_is_visible O devices callbacks regexp) timeout
        (window_is_visible-Keeps regexp)

  pub send_console-Keeps : (chars : String) → Keeps O (send_console O devices callbacks chars)
  unfolding send_console
  send_console-Keeps chars m v = ground arith

  pub copy_from_host_via_shell-Keeps :
      (source target : String)
      → Keeps O (copy_from_host_via_shell O devices callbacks source target)
  unfolding copy_from_host_via_shell
  copy_from_host_via_shell-Keeps source target m v =
      let commands : List String =
        ("mkdir -p $(dirname " <> target <> ")")
        ∷ ("echo -n " <> devices.file_as_base64 source m.world <> " | base64 -d > " <> target)
        ∷ [] in
      >>-done-Keeps O callbacks given (succeed O callbacks none commands)
        (succeed-Keeps O callbacks given none commands) m v

  get_screen_text_variants-Keeps :
      (path : String) → Keeps O (get_screen_text_variants O devices callbacks path)
  unfolding get_screen_text_variants
  get_screen_text_variants-Keeps path =
      >>=-Keeps O (send_monitor_command O callbacks ("screendump " <> path)) _
        (send_monitor_command-Keeps O callbacks given ("screendump " <> path))
        (λ _ m v. world-IsSound O m _ v)

  screen_matches-Keeps :
      (path regex : String) (last : Bool)
      → Keeps O (screen_matches O devices callbacks path regex last)
  unfolding screen_matches
  screen_matches-Keeps path regex last =
      >>=-Keeps O (get_screen_text_variants O devices callbacks path) _
        (get_screen_text_variants-Keeps path)
        (λ variants.
          answered-Keeps O (any (devices.searches regex) variants) _ _ (λ m v. v)
            (λ m v.
              follow-IsSound O _ ((if last then log O _ else done) m) (λ _ m v. v)
                (last-Keeps last _ m v)))

  pub wait_for_text-Keeps :
      (path regex : String) (timeout : ℕ)
      → Keeps O (wait_for_text O devices callbacks path regex timeout)
  unfolding wait_for_text
  wait_for_text-Keeps path regex timeout =
      waited-Keeps O _ (screen_matches O devices callbacks path regex) timeout
        (screen_matches-Keeps path regex)

  pub wait_for_console_text-Keeps :
      (regex : String) (timeout : ℕ)
      → Keeps O (wait_for_console_text O devices callbacks regex timeout)
  unfolding wait_for_console_text console_matches
  wait_for_console_text-Keeps regex timeout m v =
      retry-Preserves (λ (s : Machine O × String). IsSound O s.0)
        (λ seconds s. (pause O seconds s.0, s.1)) (λ s v. pause-Keeps O 1 s.0 v)
        (console_matches O devices callbacks regex) (λ last s v. world-IsSound O s.0 _ v) timeout
        (_, "") (log-Keeps O _ m v)

  pub screenshot-Keeps :
      (out_dir filename : String) → Keeps O (screenshot O devices callbacks out_dir filename)
  unfolding screenshot
  screenshot-Keeps out_dir filename m v =
      let named = picture_name O devices callbacks out_dir filename in
      >>=-Keeps O (send_monitor_command O callbacks ("screendump " <> named <> ".ppm")) _
        (send_monitor_command-Keeps O callbacks given ("screendump " <> named <> ".ppm"))
        (λ _ m v. world-IsSound O m _ v) _ (log-Keeps O _ m v)
