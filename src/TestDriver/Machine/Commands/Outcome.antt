-- ===== src/TestDriver/Machine/Commands/Outcome.antt =====
-- What the calls that return say of the commands.
use nixpkgs_llvm_ws.Base.{
  ℕ, String, ◌<>◌, List, [], ◌∷◌, ◌≡◌, ◌∙◌, ap, ◌↔◌, Bool, true, not, Option, arith,
}
use nixpkgs_llvm_ws.Base.{ok, >>=-ok, >>=-eq-ok}
use nixpkgs_llvm_ws.Base.Int.{ℤ, is_zero}
use nixpkgs_llvm_ws.TestDriver.Machine.Shell.{Outside, Machine, Call, log, execute}
use nixpkgs_llvm_ws.TestDriver.Machine.Commands.{
  success_of, failure_of, must_succeed, must_fail, succeed_from, fail_from, succeed, fail,
}

pair_eq {ℓ κ} :
    {A : Type ℓ} {B : Type κ} {a c : A} {b d : B} → a ≡ c → b ≡ d → ◌≡◌ {A = A × B} (a, b) (c, d)
pair_eq p q = cc

module _ (O : Outside) (callbacks : List (Call O (Unit {0}))) where
  -- The commands were executed in their order, each with a status that the test accepts, from the
  -- machine `m` with `output` to the machine `u` with `total`.
  pub data Ran (accept : ℤ → Bool) (message : String) (timeout : Option ℕ)
      : List String → Machine O → String → Machine O → String → Type 0 where
    finished :
        {m v : Machine O} {output total : String}
        → m ≡ v
        → output ≡ total
        → Ran accept message timeout [] m output v total
    next :
        {command : String} {commands : List String} {m u v : Machine O} {output out total : String}
        {status : ℤ}
        → execute O callbacks command true true timeout (log O (message <> command) m).1
          ≡ (ok (status, out), u)
        → accept status ≡ true
        → Ran accept message timeout commands u (output <> out) v total
        → Ran accept message timeout (command ∷ commands) m output v total

  -- A call accepts what `P` accepts.
  success_of-eq :
      (command : String) (status : ℤ) (printed : String) (m u : Machine O) (out : String)
      → success_of O command (status, printed) m ≡ (ok out, u)
      → (is_zero status ≡ true) × (printed ≡ out) × (m ≡ u)
  unfolding success_of
  success_of-eq command status printed m u out h = ground arith

  failure_of-eq :
      (command : String) (status : ℤ) (printed : String) (m u : Machine O) (out : String)
      → failure_of O command (status, printed) m ≡ (ok out, u)
      → (not (is_zero status) ≡ true) × (printed ≡ out) × (m ≡ u)
  unfolding failure_of
  failure_of-eq command status printed m u out h = ground arith

  success_of-accepted :
      (command : String) (status : ℤ) (out : String) (m : Machine O)
      → is_zero status ≡ true
      → success_of O command (status, out) m ≡ (ok out, m)
  unfolding success_of
  success_of-accepted command status out m h = ground arith

  failure_of-accepted :
      (command : String) (status : ℤ) (out : String) (m : Machine O)
      → not (is_zero status) ≡ true
      → failure_of O command (status, out) m ≡ (ok out, m)
  unfolding failure_of
  failure_of-accepted command status out m h = ground arith

  succeed_from-Ran :
      (timeout : Option ℕ) (commands : List String) (m v : Machine O) (output total : String)
      → succeed_from O callbacks timeout output commands m ≡ (ok total, v)
      → Ran is_zero "must succeed: " timeout commands m output v total
  unfolding succeed_from must_succeed
  succeed_from-Ran timeout [] m v output total h = finished (ground arith) (ground arith)
  succeed_from-Ran timeout (command ∷ commands) m v output total h =
      let (out, u, first, rest) =
        >>=-eq-ok (must_succeed O callbacks timeout command)
          (λ out. succeed_from O callbacks timeout (output <> out) commands) m h in
      let ((status, printed), t, ran, judged) =
        >>=-eq-ok (execute O callbacks command true true timeout) (success_of O command)
          (log O ("must succeed: " <> command) m).1 first in
      let (accepted, same, here) = success_of-eq command status printed t u out judged in
      next (ran ∙ ap (λ x. (ok (status, x.0), x.1)) (pair_eq same here)) accepted
        (succeed_from-Ran timeout commands u v (output <> out) total rest)

  succeed_from-Ran-rev :
      (timeout : Option ℕ) (commands : List String) (m v : Machine O) (output total : String)
      → Ran is_zero "must succeed: " timeout commands m output v total
      → succeed_from O callbacks timeout output commands m ≡ (ok total, v)
  unfolding succeed_from must_succeed
  succeed_from-Ran-rev timeout [] m v output total (finished here same) =
      ap (λ x. (ok x.0, x.1)) (pair_eq same here)
  succeed_from-Ran-rev timeout (command ∷ commands) m v output total
        (next {u = u} {out = out} {status = status} ran accepted rest) =
      >>=-ok (must_succeed O callbacks timeout command)
        (λ out. succeed_from O callbacks timeout (output <> out) commands) m
        (>>=-ok (execute O callbacks command true true timeout) (success_of O command)
            (log O ("must succeed: " <> command) m).1 ran
          ∙ success_of-accepted command status out u accepted)
      ∙ succeed_from-Ran-rev timeout commands u v (output <> out) total rest

  -- `succeed` returns a text just when every command has been executed in its order with
  -- the exit status 0, and the text is then what the commands wrote, joined.
  pub succeed_iff :
      (timeout : Option ℕ) (commands : List String) (m v : Machine O) (total : String)
      → (succeed O callbacks timeout commands m ≡ (ok total, v))
        ↔ Ran is_zero "must succeed: " timeout commands m "" v total
  unfolding succeed
  succeed_iff timeout commands m v total = (
    succeed_from-Ran timeout commands m v "" total,
    succeed_from-Ran-rev timeout commands m v "" total,
  )

  fail_from-Ran :
      (timeout : Option ℕ) (commands : List String) (m v : Machine O) (output total : String)
      → fail_from O callbacks timeout output commands m ≡ (ok total, v)
      → Ran (λ status. not (is_zero status)) "must fail: " timeout commands m output v total
  unfolding fail_from must_fail
  fail_from-Ran timeout [] m v output total h = finished (ground arith) (ground arith)
  fail_from-Ran timeout (command ∷ commands) m v output total h =
      let (out, u, first, rest) =
        >>=-eq-ok (must_fail O callbacks timeout command)
          (λ out. fail_from O callbacks timeout (output <> out) commands) m h in
      let ((status, printed), t, ran, judged) =
        >>=-eq-ok (execute O callbacks command true true timeout) (failure_of O command)
          (log O ("must fail: " <> command) m).1 first in
      let (accepted, same, here) = failure_of-eq command status printed t u out judged in
      next (ran ∙ ap (λ x. (ok (status, x.0), x.1)) (pair_eq same here)) accepted
        (fail_from-Ran timeout commands u v (output <> out) total rest)

  fail_from-Ran-rev :
      (timeout : Option ℕ) (commands : List String) (m v : Machine O) (output total : String)
      → Ran (λ status. not (is_zero status)) "must fail: " timeout commands m output v total
      → fail_from O callbacks timeout output commands m ≡ (ok total, v)
  unfolding fail_from must_fail
  fail_from-Ran-rev timeout [] m v output total (finished here same) =
      ap (λ x. (ok x.0, x.1)) (pair_eq same here)
  fail_from-Ran-rev timeout (command ∷ commands) m v output total
        (next {u = u} {out = out} {status = status} ran accepted rest) =
      >>=-ok (must_fail O callbacks timeout command)
        (λ out. fail_from O callbacks timeout (output <> out) commands) m
        (>>=-ok (execute O callbacks command true true timeout) (failure_of O command)
            (log O ("must fail: " <> command) m).1 ran
          ∙ failure_of-accepted command status out u accepted)
      ∙ fail_from-Ran-rev timeout commands u v (output <> out) total rest

  -- `fail` returns a text just when every command has been executed in its order with
  -- an exit status other than 0, and the text is then what the commands wrote, joined.
  pub fail_iff :
      (timeout : Option ℕ) (commands : List String) (m v : Machine O) (total : String)
      → (fail O callbacks timeout commands m ≡ (ok total, v))
        ↔ Ran (λ status. not (is_zero status)) "must fail: " timeout commands m "" v total
  unfolding fail
  fail_iff timeout commands m v total =
      (fail_from-Ran timeout commands m v "" total, fail_from-Ran-rev timeout commands m v "" total)
