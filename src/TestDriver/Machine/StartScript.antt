-- ===== src/TestDriver/Machine/StartScript.antt =====
-- `StartCommand` and `NixStartScript` of nixos/lib/test-driver/test_driver/machine.py: the command line of
-- QEMU, the environment that it gets, and the machine's name, which is read off the command.
use Prim.Native.Char.{code}
use nixpkgs_llvm_ws.Base.{
  String, ◌<>◌, ◌≡◌, refl, Bool, ◌||◌, if◌then◌else◌, Option, none, some, ◌==◌, string_eq, nat_eq,
  contains,
}
use mathlib.Core.Option
use nixpkgs_llvm_ws.Base.Dict.{Dict, insert, keys}
use nixpkgs_llvm_ws.Base.Text.{after_prefix}

-- `os.environ`
abbrev pub Environment : Type 0
Environment = Dict String String

unfoldable pub display_opts : Environment → String
unfolding string_eq
display_opts environ =
    if contains (keys environ) "DISPLAY" || contains (keys environ) "WAYLAND_DISPLAY"
    then ""
    else " -nographic"

unfoldable pub qemu_opts : Bool → String
qemu_opts allow_reboot =
    " -device virtio-serial -device virtconsole,chardev=shell -device virtio-rng-pci -serial stdio"
    <> (if allow_reboot then "" else " -no-reboot")

unfoldable pub cmd : Environment → String → String → String → String → Bool → String
unfolding display_opts qemu_opts
cmd environ script monitor_socket_path qmp_socket_path shell_socket_path allow_reboot =
    script
    <> " -qmp unix:"
    <> qmp_socket_path
    <> ",server=on,wait=off"
    <> " -monitor unix:"
    <> monitor_socket_path
    <> " -chardev socket,id=shell,path="
    <> shell_socket_path
    <> qemu_opts allow_reboot
    <> display_opts environ

unfoldable pub build_environment : Environment → String → String → Environment
unfolding insert string_eq
build_environment environ state_dir shared_dir =
    insert "USE_TMPDIR" "1" (insert "SHARED_DIR" shared_dir (insert "TMPDIR" state_dir environ))

-- What `(.+)-vm$` matches of the text: all in front of a `-vm` at the end, or in front of a newline at
-- the end, if it is not empty and has no newline.
unfoldable pub before_vm : String → Option String
unfolding string_eq nat_eq
before_vm String.[] = none
before_vm (String.◌∷◌ c s) =
    let rest = before_vm s in
    if code c == 10
    then none
    else if s == "-vm" || s == "-vm\n"
    then some (String.◌∷◌ c "")
    else Option.map (λ name. String.◌∷◌ c name) rest

-- `re.search("run-(.+)-vm$", script)`, at the first place where it matches.
unfoldable pub search_name : String → Option String
unfolding after_prefix before_vm
search_name String.[] = none
search_name (String.◌∷◌ c s) =
    let rest = search_name s in
    elim (after_prefix "run-" (String.◌∷◌ c s)) [
      | none ↦ rest
      | some tail ↦ elim (before_vm tail) [ none ↦ rest | some name ↦ some name ]
    ]

unfoldable pub machine_name : String → String
unfolding search_name
machine_name script = Option.get_or (search_name script) "machine"

machine_name_example : machine_name "/nix/store/abc-nixos-vm/bin/run-server-vm" ≡ "server"
unfolding machine_name search_name before_vm after_prefix string_eq nat_eq
machine_name_example = refl
