-- ===== src/TaskServer/Host.antt =====
-- What helper-tool.py uses of the machine that it runs on: the file system, certtool and taskd, over
-- an unknown state; the values that are filled in at build time; and its exceptions.
use nixpkgs_llvm_ws.Base.{String, List, Bool, Action}

pub data Error : Type 0 where
  os_error : String → Error
  taskd_error : String → Error
  -- a command that exits with a status other than 0
  called_process : Error
  key_error : String → Error
  -- `sys.exit(message)` and click's `fail`
  exit : String → Error
  fail : String → Error
  attribute type : Error

pub record Host : Type 1 where
  pub World : Type 0
  pub exists : String → World → Bool
  pub listdir : String → Action World Error (List String)
  -- the lines of a file, each with its line end
  pub lines : String → Action World Error (List String)
  pub read : String → Action World Error String
  -- `open(path, 'a').close()`
  pub touch : String → Action World Error (Unit {0})
  pub makedirs : String → Action World Error (Unit {0})
  pub chmod : String → String → Action World Error (Unit {0})
  -- `os.chown` to the user and the group of the Taskserver
  pub chown : String → Action World Error (Unit {0})
  pub rmtree : String → Action World Error (Unit {0})
  -- a temporary file with these contents, and its name
  pub temporary : String → Action World Error String
  -- `subprocess.check_output` as the group, and as the user, of the Taskserver
  pub check_output_as_group : List String → Action World Error String
  pub check_output_as_user : List String → Action World Error String
  pub stderr : String → World → World
  pub stdout : String → World → World
  -- `sys.stdout.isatty() or sys.stderr.isatty()`
  pub is_terminal : World → Bool

-- The constants at the head of the file.
pub record Config : Type 0 where
  pub is_auto_config : Bool
  pub certtool_command : String
  pub cert_bits : String
  pub client_expiration : String
  pub crl_expiration : String
  pub taskd_command : String
  pub taskd_data_dir : String
  pub fqdn : String
