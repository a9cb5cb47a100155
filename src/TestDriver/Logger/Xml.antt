-- ===== src/TestDriver/Logger/Xml.antt =====
-- `XMLLogger`: the calls of the library's generator, with a queue of the serial messages.
pub mod Closed
use nixpkgs_llvm_ws.Base.{
  ℕ, ◌-◌, String, ◌<>◌, List, [], ◌∷◌, ◌++◌, Bool, true, false, not, if◌then◌else◌, Option, none,
  some, string_eq,
}
use Prim.Native.Char.{code}
use nixpkgs_llvm_ws.Base.{Action, ok, pure, modify, ◌>>=◌, ◌>>◌}
use nixpkgs_llvm_ws.Base.Dict.{Dict, lookup, insert}
use nixpkgs_llvm_ws.TestDriver.Errors.{Error}
use nixpkgs_llvm_ws.TestDriver.Logger.{Attributes, Context, Logger}

-- A call of the generator.
pub data Xml : Type 0 where
  start_element : String → Attributes → Xml
  characters : String → Xml
  end_element : String → Xml

-- A queued message, and the attributes that stand beside it.
pub record Item : Type 0 where
  pub msg : String
  pub attributes : Attributes

pub record State : Type 0 where
  pub xml : List Xml
  pub queue : List Item
  pub print_serial_logs : Bool
  pub now : ℕ

unfoldable pub new_logger : ℕ → State
new_logger now = record {
  xml = start_element "logfile" [] ∷ [];
  queue = [];
  print_serial_logs = true;
  now = now;
}

-- What the generator is asked to write.
abbrev pub emit : List Xml → State → State
emit xs s = record s { xml = s.xml ++ xs }

unfoldable pub close : State → State
close s = emit (end_element "logfile" ∷ []) s

unfoldable pub line : String → Attributes → List Xml
line message attributes =
    start_element "line" attributes ∷ characters message ∷ end_element "line" ∷ []

-- `unicodedata.category(ch)[0] == "C"`, and the format of the times.
module _ (is_control : ℕ → Bool) (two_decimals : ℕ → String) where
  unfoldable pub sanitise : String → String
  sanitise String.[] = ""
  sanitise (String.◌∷◌ c s) =
      let rest = sanitise s in if is_control (code c) then rest else String.◌∷◌ c rest

  unfoldable pub drained : List Item → List Xml
  unfolding line sanitise
  drained [] = []
  drained (item ∷ queue) = line (sanitise item.msg) item.attributes ++ drained queue

  unfoldable pub drain_log_queue : State → State
  unfolding drained
  drain_log_queue s = record (emit (drained s.queue) s) { queue = [] }

  unfoldable pub log : String → Attributes → State → State
  unfolding drain_log_queue line
  log message attributes s = emit (line message attributes) (drain_log_queue s)

  unfoldable pub log_serial : String → String → State → State
  log_serial message machine s =
      if s.print_serial_logs
      then record s {
        queue =
            s.queue
            ++ record { msg = message; attributes = ("machine", machine) ∷ ("type", "serial") ∷ [] }
              ∷ [];
      }
      else s

  unfoldable pub head : String → Attributes → List Xml
  head message attributes =
      start_element "nest" []
      ∷ start_element "head" attributes
      ∷ characters message
      ∷ end_element "head"
      ∷ []

  unfoldable pub leave_nested : String → ℕ → State → State
  unfolding drain_log_queue log
  leave_nested message tic s = emit (end_element "nest" ∷ []) (
      log ("(finished: " <> message <> ", in " <> two_decimals (s.now - tic) <> " seconds)") []
        (drain_log_queue s))

  unfoldable pub nested : String → Attributes → Context State
  unfolding head drain_log_queue leave_nested
  nested message attributes s =
      (ok (modify (leave_nested message s.now)), drain_log_queue (emit (head message attributes) s))

  unfoldable pub subtest : String → Attributes → Context State
  unfolding nested
  subtest name attributes = nested ("subtest: " <> name) attributes

  unfoldable pub xml_logger : Logger State
  unfolding log nested subtest log_serial
  xml_logger = record {
    log = λ message attributes. modify (log message attributes);
    subtest = subtest;
    nested = nested;
    info = λ message attributes. modify (log message attributes);
    warning = λ message attributes. modify (log message attributes);
    error = λ message attributes. modify (log message attributes);
    log_serial = λ message machine. modify (log_serial message machine);
    print_serial_logs = λ enable. modify (λ s. record s { print_serial_logs = enable });
  }
