-- ===== src/TestDriver/Polling/Throttle.antt =====
-- A polling condition never runs inside itself nor more often than its interval allows, and a run
-- leaves the entry count as it was.
use nixpkgs_llvm_ws.Base.{
  ℕ, ◌+◌, ◌≤◌, ◌≡◌, refl, ◌∙◌, ap, sym, Bool, true, false, not, ◌&&◌, ◌||◌, if◌then◌else◌,
  Bool-cases, inl, inr, ◌⊎◌, Option, none, some,
}
use nixpkgs_llvm_ws.Base.{arith, Action, Result, ok, err}
use nixpkgs_llvm_ws.TestDriver.Errors.{Error}
use nixpkgs_llvm_ws.TestDriver.Polling.{
  Tools, Settings, World, answer_of, escapes, overdue, entered, exit, enter,
}
use nixpkgs_llvm_ws.TestDriver.Polling.{
  run_condition, reported, leave, guarded, check, maybe_raise, opened, log, last_message,
}

answer_of-escapes :
    (r : Result Error (Option Bool))
    → ((b : Bool) × (answer_of r ≡ ok b))
      ⊎ ((e : Error) × (answer_of r ≡ err e) × (escapes e ≡ true))
unfolding answer_of
answer_of-escapes (ok none) = inl (true, refl)
answer_of-escapes (ok (some b)) = inl (b, refl)
answer_of-escapes (err e) = elim (Bool-cases (escapes e)) [
  | inl out ↦ inr (e, rw out refl, out)
  | inr caught ↦ inl (false, rw caught refl)
]

-- What `maybe_raise` makes of an answer.
abbrev verdict : Error → Result Error Bool → Result Error (Unit {0})
verdict failure (ok b) = if b then ok tt else err failure
verdict failure (err e) = err e

module _ {ℓ} {U : Type ℓ} (tools : Tools U) (c : Settings)
    (condition : Action (World U) Error (Option Bool)) where
  -- The condition leaves by as many exits as it has entered, also where it raises.
  abbrev pub IsBalanced {ρ} : {A : Type ρ} → Action (World U) Error A → Type ℓ
  IsBalanced f = (w : World U) → (f w).1.entry_count ≡ w.entry_count

  reported_lem :
      (r : Result Error Bool) (u : World U)
      → ((reported tools c r u).0 ≡ r) × ((reported tools c r u).1.entry_count ≡ u.entry_count)
  unfolding reported log
  reported_lem (ok b) u = (refl, refl)
  reported_lem (err e) u = (refl, refl)

  leave_lem :
      (r : Result Error Bool) (u : World U) (n : ℕ)
      → u.entry_count ≡ n + 1
      → let (x, v) = leave tools c r u in
        (x ≡ r) × (v.entry_count ≡ n) × (v.last_called ≡ some v.now)
  unfolding leave exit entered log
  leave_lem (ok b) u n h = ground arith
  leave_lem (err e) u n h = ground arith

  -- What the condition answers behind the messages.
  abbrev answered : World U → Result Error Bool
  answered w =
      answer_of (condition (log tools c (tools.info (last_message tools c w)) (opened tools c w))).0

  -- A run inside the guard answers what the condition does, puts the count back, and never trips over
  -- the assertion of `__exit__`.
  guarded_lem :
      IsBalanced condition
      → (w : World U)
      → let (r, u) = guarded tools c condition w in
        (r ≡ answered w) × (u.entry_count ≡ w.entry_count) × (u.last_called ≡ some u.now)
  unfolding guarded run_condition opened log last_message enter
  guarded_lem balanced w =
      let start = log tools c (tools.info (last_message tools c w)) (opened tools c w) in
      let (r, same) = reported_lem (answered w) (condition start).1 in
      let (x, y) = run_condition tools c condition (opened tools c w) in
      let (answer, back, called) = leave_lem x y w.entry_count (same ∙ balanced start) in
      (answer ∙ r, back, called)

  -- If the condition is balanced then `check`, forced or not, leaves the entry count as it was, also
  -- where it raises. It raises only where the condition ended the process or never returned.
  pub check-IsBalanced :
      IsBalanced condition
      → (force : Bool) (w : World U)
      → let (r, u) = check tools c condition force w in
        (((b : Bool) × (r ≡ ok b)) ⊎ ((e : Error) × (r ≡ err e) × (escapes e ≡ true)))
        × (u.entry_count ≡ w.entry_count)
  unfolding check
  check-IsBalanced balanced force w =
      elim (Bool-cases ((entered w || not (overdue c w)) && not force)) [
        | inl skip ↦ rw skip (inl (true, refl), refl)
        | inr run ↦ rw run (
            let (answer, same, _) = guarded_lem balanced w in
            (
              elim (answer_of-escapes
                  (condition
                    (log tools c (tools.info (last_message tools c w)) (opened tools c w))).0) [
                      | inl (b, e) ↦ inl (b, answer ∙ e)
                      | inr (x, e, out) ↦ inr (x, answer ∙ e, out)
                    ],
              same,
            ))
      ]

  -- In a state with the entry count that the condition is called with, `maybe_raise` returns and
  -- changes nothing: a condition that comes back to its own polling condition does not run again.
  pub maybe_raise-entered :
      (w v : World U)
      → v.entry_count ≡ (opened tools c w).entry_count
      → maybe_raise tools c condition v ≡ (ok tt, v)
  unfolding maybe_raise entered check opened enter log
  maybe_raise-entered w v h = ground arith

  check_due :
      (w : World U)
      → w.entry_count ≡ 0
      → overdue c w ≡ true
      → check tools c condition false w ≡ guarded tools c condition w
  unfolding check entered
  check_due w idle due = rw (idle, due)

  check_recent :
      (v : World U) (t : ℕ)
      → v.last_called ≡ some t
      → v.now ≤ t + c.seconds_interval
      → check tools c condition false v ≡ (ok true, v)
  unfolding check overdue
  check_recent v t last soon = rw last (ground (arith))

  -- Take a state that is idle and overdue, so that an unforced check runs the condition, which is
  -- balanced. In a later state with the `last_called` that this check left, and in which no more than
  -- the interval has passed since its end, an unforced check answers `True` and changes nothing.
  pub check_again :
      IsBalanced condition
      → (w v : World U) → w.entry_count ≡ 0
      → overdue c w ≡ true
      → v.last_called ≡ (check tools c condition false w).1.last_called
      → v.now ≤ (check tools c condition false w).1.now + c.seconds_interval
      → check tools c condition false v ≡ (ok true, v)
  check_again balanced w v idle due last soon =
      let (_, _, called) = guarded_lem balanced w in
      check_recent v _
        (last
          ∙ ap (λ x. x.1.last_called) (check_due w idle due)
          ∙ called
          ∙ ap (λ x. some x.1.now) (sym (check_due w idle due)))
        soon
