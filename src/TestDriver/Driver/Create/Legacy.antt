-- ===== src/TestDriver/Driver/Create/Legacy.antt =====
-- A dictionary passed to `create_machine`, and the same arguments passed one by one.
use mathlib.Core.Option
use nixpkgs_llvm_ws.Base.{
  String, [], ◌∷◌, ◌≡◌, refl, Bool, true, false, ◌||◌, ◌==◌, string_eq, arith, some,
}
use nixpkgs_llvm_ws.Base.{ok, err}
use nixpkgs_llvm_ws.Base.Lists.{All}
use nixpkgs_llvm_ws.Base.Dict.{Dict, keys, lookup, erase, lookup-erase}
use nixpkgs_llvm_ws.TestDriver.Driver.Create.{
  Value, text, flag, nothing, is_true, is_nothing, request, popped, create_from_dict,
  create_machine,
}

abbrev pub is_argument : String → Bool
is_argument k = k == "startCommand" || k == "name" || k == "keep_vm_state"

abbrev without : Dict String Value → Dict String Value
without args = erase "keep_vm_state" (erase "name" (erase "startCommand" args))

without-known :
    (args : Dict String Value) → All (λ k. is_argument k ≡ true) (keys args) → without args ≡ []
unfolding erase
without-known [] known = refl
without-known ((k, v) ∷ args) (here, there) = ground (arith, without-known args there)

lookup-other :
    (j k : String)
    → (j == k) ≡ false
    → (args : Dict String Value) → lookup j (erase k args) ≡ lookup j args
lookup-other j k apart args = let e = lookup-erase j k args in ground arith

popped-known :
    (repr : Value → String) (repr_dict : Dict String Value → String) (s : String)
    (args left : Dict String Value)
    → without args ≡ []
    → popped repr repr_dict s (erase "startCommand" args) left ≡ (
      ok (
          request true s
            (Option.get_or (lookup "name" args) nothing)
            (Option.get_or (lookup "keep_vm_state" args) (flag false))),
      [],
    )
unfolding popped string_eq
popped-known repr repr_dict s args left none_left =
    rw
      (
        popped,
        none_left,
        lookup-other "name" "startCommand" refl args,
        lookup-other "keep_vm_state" "startCommand" refl args,
      )
      refl

-- A dictionary with a text for `startCommand`, and with no other keys but `name` and `keep_vm_state`,
-- makes the machine that its values make as arguments, where a missing name is `None` and a missing
-- `keep_vm_state` is `False`, but with a warning. The caller's dictionary is then empty, and with it a
-- second call is refused.
pub create_from_dict-create_machine :
    (repr : Value → String) (repr_dict : Dict String Value → String) (s : String)
    (args : Dict String Value)
    → lookup "startCommand" args ≡ some (text s)
    → All (λ k. is_argument k ≡ true) (keys args)
    → (create_from_dict repr repr_dict nothing (flag false) args ≡ (
      ok
          (record (create_machine s
            (Option.get_or (lookup "name" args) nothing)
            (Option.get_or (lookup "keep_vm_state" args) (flag false))) { warned = true }),
      [],
    ))
      × (create_from_dict repr repr_dict nothing (flag false) []
          ≡ (err "Dictionary passed to create_machine must contain startCommand", []))
unfolding create_from_dict is_true is_nothing create_machine request lookup
create_from_dict-create_machine repr repr_dict s args given known =
    (rw given (popped-known repr repr_dict s args args (without-known args known)), refl)
