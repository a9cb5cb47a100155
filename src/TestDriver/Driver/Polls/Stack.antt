-- ===== src/TestDriver/Driver/Polls/Stack.antt =====
-- The stack of polling conditions behind a `with` statement.
use nixpkgs_llvm_ws.Base.{==-self, ℕ, List, [], ◌∷◌, ◌++◌, ◌≡◌, refl, ◌∙◌, ap, some, nat_eq}
use nixpkgs_llvm_ws.Base.{Action, Result, ok, err}
use nixpkgs_llvm_ws.TestDriver.Errors.{Error}
use nixpkgs_llvm_ws.TestDriver.Driver.Polls.{State, pop, enter, exit, leave, with_poll}

pop-append : (xs : List ℕ) (i : ℕ) → pop (xs ++ (i ∷ [])) ≡ some (i, xs)
unfolding pop
pop-append [] i = refl
pop-append (x ∷ xs) i = rw (pop-append xs i) refl

exit-popped {ℓ} :
    {U : Type ℓ} (i : ℕ) (xs : List ℕ) (s : State U)
    → pop s.polling_conditions ≡ some (i, xs)
    → exit i s ≡ (ok tt, record s { polling_conditions = xs })
unfolding exit
exit-popped i xs s popped = rw (exit, popped, ==-self i) refl

leave-popped {ℓ ρ} :
    {U : Type ℓ} {A : Type ρ} (i : ℕ) (xs : List ℕ) (x : Result Error A × State U)
    → pop x.1.polling_conditions ≡ some (i, xs)
    → ((leave i x).0 ≡ x.0) × ((leave i x).1.polling_conditions ≡ xs)
unfolding leave
leave-popped {U} {A} i xs (r, s) popped =
    let e : leave {A = A} i (r, s) ≡ (r, record s { polling_conditions = xs }) =
      ap
        (λ y. elim y.0 as (λ x. Result Error A × State U) [
          | ok _ ↦ (r, y.1)
          | err e ↦ (err e, y.1)
        ])
        (exit-popped i xs s popped) in
    (ap (λ y. y.0) e, ap (λ y. y.1.polling_conditions) e)

-- A `with` statement for a polling condition, whose body leaves the stack of conditions as it finds
-- it where it returns or raises, returns or raises what the body does with the condition on
-- top of the stack, and leaves the stack as it was. The assertion of the exit never fails.
pub with_poll-polling_conditions {ℓ ρ} :
    {U : Type ℓ} {A : Type ρ} (i : ℕ) (body : Action (State U) Error A) (s : State U)
    → ((t : State U) → (body t).1.polling_conditions ≡ t.polling_conditions)
    → ((with_poll i body s).0
        ≡ (body (record s { polling_conditions = s.polling_conditions ++ (i ∷ []) })).0)
      × ((with_poll i body s).1.polling_conditions ≡ s.polling_conditions)
unfolding with_poll enter
with_poll-polling_conditions i body s keeps =
    let t : State _ = record s { polling_conditions = s.polling_conditions ++ (i ∷ []) } in
    leave-popped i s.polling_conditions (body t)
      (ap pop (keeps t) ∙ pop-append s.polling_conditions i)
