-- ===== src/TestDriver/Driver/Polls.antt =====
-- The polling conditions of a `Driver`: `Poll`, the context that puts one on the driver's stack, and the
-- check of the stack that a machine runs before each command.
pub mod Stack
use nixpkgs_llvm_ws.Base.{
  ℕ, String, ◌<>◌, List, [], ◌∷◌, ◌++◌, Bool, true, false, not, ◌&&◌, if◌then◌else◌, Option, none,
  some, ◌==◌, nat_eq,
}
use nixpkgs_llvm_ws.Base.{
  Action, Result, ok, err, pure, raise, modify, for_each, raise_if, follow, ◌>>=◌, ◌>>◌,
}
use nixpkgs_llvm_ws.TestDriver.Errors.{Error, assertion, exception}
use nixpkgs_llvm_ws.TestDriver.Retry.{retry}
use nixpkgs_llvm_ws.TestDriver.Polling
use nixpkgs_llvm_ws.TestDriver.Polling.{Tools, Settings, World}

-- A `PollingCondition` object, without its function.
pub record Condition : Type 0 where
  pub settings : Settings
  pub last_called : Option ℕ
  pub entry_count : ℕ

-- The stack holds objects by their identity. `rest` is all else that there is.
pub record State {ℓ} (U : Type ℓ) : Type ℓ where
  pub polling_conditions : List ℕ
  pub objects : ℕ → Condition
  pub rest : U

-- `xs.pop()`: the last, and the others.
unfoldable pub pop : List ℕ → Option (ℕ × List ℕ)
pop [] = none
pop (x ∷ xs) = elim (pop xs) [ none ↦ some (x, []) | some (last, others) ↦ some (last, x ∷ others) ]

unfoldable pub assign {ℓ} : {A : Type ℓ} → ℕ → A → (ℕ → A) → ℕ → A
assign i a f j = if j == i then a else f j

module _ {ℓ} {U : Type ℓ} where
  -- `Poll.__enter__`
  unfoldable pub enter : ℕ → Action (State U) Error (Unit {0})
  enter i s = (ok tt, record s { polling_conditions = s.polling_conditions ++ (i ∷ []) })

  -- `Poll.__exit__`
  unfoldable pub exit : ℕ → Action (State U) Error (Unit {0})
  unfolding pop
  exit i s = elim (pop s.polling_conditions) [
    | none ↦ (err (exception "pop from empty list"), s)
    | some (res, others) ↦
        (if res == i then ok tt else err (assertion ""), record s { polling_conditions = others })
  ]

  -- Behind the body of `with poll:`, which has returned or raised. An error of the exit comes first.
  unfoldable pub leave {ρ} : {A : Type ρ} → ℕ → Result Error A × State U → Result Error A × State U
  unfolding exit
  leave i (r, s) = let (x, t) = exit i s in elim x [ ok _ ↦ (r, t) | err e ↦ (err e, t) ]

  unfoldable pub with_poll {ρ} :
      {A : Type ρ} → ℕ → Action (State U) Error A → Action (State U) Error A
  unfolding enter leave
  with_poll i body = enter i >> λ s. leave i (body s)

  -- The object as its own methods see it, with the time that they read.
  unfoldable pub focus : (U → ℕ) → ℕ → State U → World (State U)
  focus clock i s = record {
    now = clock s.rest;
    last_called = (s.objects i).last_called;
    entry_count = (s.objects i).entry_count;
    rest = s;
  }

  unfoldable pub unfocus : ℕ → World (State U) → State U
  unfolding assign
  unfocus i w =
      let c = w.rest.objects i in
      record (w.rest) {
        objects =
            assign i (record c { last_called = w.last_called; entry_count = w.entry_count })
              w.rest.objects;
      }

  module _ (tools : Tools (State U)) (clock : U → ℕ)
      (fun : ℕ → Action (State U) Error (Option Bool)) where
    -- The function of an object, which may come back to any of the objects.
    unfoldable pub called : ℕ → Action (World (State U)) Error (Option Bool)
    unfolding focus unfocus
    called i w = let (r, s) = fun i (unfocus i w) in (r, focus clock i s)

    abbrev pub on_object {ρ} :
        {A : Type ρ} → ℕ → Action (World (State U)) Error A → Action (State U) Error A
    on_object i method s = let (r, w) = method (focus clock i s) in (r, unfocus i w)

    abbrev maybe_raise : ℕ → Action (State U) Error (Unit {0})
    maybe_raise i s = on_object i (Polling.maybe_raise tools (s.objects i).settings (called i)) s

    -- The loop goes over the stack as it stands at its beginning.
    unfoldable pub check_polling_conditions : Action (State U) Error (Unit {0})
    unfolding focus unfocus called Polling.maybe_raise
    check_polling_conditions s = for_each maybe_raise s.polling_conditions s

    -- `condition` of `Poll.wait`
    unfoldable pub condition : ℕ → Bool → Action (State U) Error Bool
    unfolding focus unfocus called Polling.check
    condition i last s =
        let c = (s.objects i).settings in
        (modify (λ s. if last then tools.info ("Last chance for " <> c.description) s else s)
            >> on_object i (Polling.check tools c (called i) true)
            >>= λ ret.
                modify (λ s.
                  if not ret && not last
                  then tools.info ("(" <> c.description <> " failure not fatal yet)") s
                  else s)
                >> pure ret)
          s

    -- `Poll.wait`, with the second that passes between two attempts.
    unfoldable pub wait : (ℕ → State U → State U) → ℕ → ℕ → Action (State U) Error (Unit {0})
    unfolding condition
    wait sleep i timeout s =
        let message = "waiting for " <> (s.objects i).settings.description in
        (modify (tools.nested_begin message)
            >> retry sleep (condition i) timeout
            >> modify (tools.nested_end message))
          s
