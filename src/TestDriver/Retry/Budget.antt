-- ===== src/TestDriver/Retry/Budget.antt =====
-- How often `retry` calls its function, and with which argument.
use nixpkgs_llvm_ws.Base.{
  ℕ, zero, suc, ◌+◌, ◌<◌, ◌∙◌, ◌≡◌, ◌≢◌, refl, ◌⊎◌, inl, inr, Bool, true, false, arith,
}
use nixpkgs_llvm_ws.Base.{List, [], ◌∷◌, ◌++◌, Action, Result, ok, err, follow, raise_if, not}
use mathlib.Core.List.{append_assoc, append-nil}
use nixpkgs_llvm_ws.Base.Lists.{replicate}
use nixpkgs_llvm_ws.TestDriver.Errors.{Error}
use nixpkgs_llvm_ws.TestDriver.Retry.{poll, retry, timed_out}

-- Raising or not, a test leaves the state alone.
raise_if-state {ℓ} :
    {S : Type ℓ} (g : Bool → Bool) (e : Error) (x : Result Error Bool × S)
    → (follow (λ answer. raise_if (g answer) e) x).1 ≡ x.1
raise_if-state g e (ok true, s) = ground arith
raise_if-state g e (ok false, s) = ground arith
raise_if-state g e (err x, s) = refl

module _ {ℓ} {W : Type ℓ} (sleep : ℕ → W → W) (fn : Bool → Action W Error Bool) where
  -- The world with the arguments of the calls so far, and the seconds slept.
  abbrev pub Recorded : Type ℓ
  Recorded = W × List Bool × ℕ

  abbrev pub recording : Bool → Action Recorded Error Bool
  recording last (w, calls, slept) =
      let (r, w') = fn last w in (r, (w', calls ++ (last ∷ []), slept))

  abbrev pub counting : ℕ → Recorded → Recorded
  counting n (w, calls, slept) = (sleep n w, calls, slept + n)

  -- The calls and the sleeps behind those at hand, of a run that ended with a call in the loop,
  -- and of one that used the loop up.
  data Early (n : ℕ) (calls : List Bool) (slept : ℕ) : Recorded → Type ℓ where
    early :
        (k : ℕ) (w : W) (after : List Bool) (total : ℕ)
        → k < n
        → after ≡ calls ++ replicate (suc k) false
        → total ≡ slept + k
        → Early n calls slept (w, after, total)

  data Used (n : ℕ) (calls : List Bool) (slept : ℕ) : Recorded → Type ℓ where
    used :
        (w : W) (after : List Bool) (total : ℕ)
        → after ≡ calls ++ replicate n false
        → total ≡ slept + n
        → Used n calls slept (w, after, total)

  Spent : ℕ → List Bool → ℕ → Result Error Bool × Recorded → Type ℓ
  Spent n calls slept (r, u) =
      ((r ≢ ok false) × Early n calls slept u) ⊎ ((r ≡ ok false) × Used n calls slept u)

  Spent-later :
      (n : ℕ) (calls : List Bool) (slept : ℕ) (x : Result Error Bool × Recorded)
      → Spent n (calls ++ (false ∷ [])) (slept + 1) x
      → Spent (suc n) calls slept x
  unfolding Spent
  Spent-later n calls slept (r, u) (inl (ne, early k w after total lt e s)) =
      inl (ne, early (suc k) w after total (omega arith) (e ∙ append_assoc calls _ _) (omega arith))
  Spent-later n calls slept (r, u) (inr (h, used w after total e s)) =
      inr (h, used w after total (e ∙ append_assoc calls _ _) (omega arith))

  poll-Spent :
      (n : ℕ) (w : W) (calls : List Bool) (slept : ℕ)
      → Spent n calls slept (poll counting recording n (w, calls, slept))
  unfolding Spent poll
  poll-Spent zero w calls slept = inr (refl, used w calls slept (rw append-nil) (omega arith))
  poll-Spent (suc n) w calls slept = split (fn false w) refl (poll-Spent n)
    where
      split :
          (x : Result Error Bool × W)
          → fn false w ≡ x
          → ((w : W) (calls : List Bool) (slept : ℕ)
              → Spent n calls slept (poll counting recording n (w, calls, slept)))
          → Spent (suc n) calls slept (poll counting recording (suc n) (w, calls, slept))
      split (ok true, v) e ih =
          rw e (inl (λ p. cc, early zero v _ _ (omega arith) refl (omega arith)))
      split (ok false, u) e ih =
          rw e (Spent-later n calls slept _ (ih (sleep 1 u) (calls ++ (false ∷ [])) (slept + 1)))
      split (err x, v) e ih =
          rw e (inl (λ p. cc, early zero v _ _ (omega arith) refl (omega arith)))

  -- The calls and the seconds slept of a run with this timeout.
  abbrev pub WithinBudget : ℕ → List Bool → ℕ → Type 0
  WithinBudget timeout calls slept =
      ((k : ℕ) × (k < timeout) × (calls ≡ replicate (suc k) false) × (slept ≡ k))
      ⊎ ((calls ≡ replicate timeout false ++ (true ∷ [])) × (slept ≡ timeout))

  retry-Spent :
      (n : ℕ) (w : W) (x : Result Error Bool × Recorded)
      → poll counting recording n (w, [], 0) ≡ x
      → Spent n [] 0 x
      → let (_, (_, calls, slept)) = retry counting recording n (w, [], 0) in
        WithinBudget n calls slept
  unfolding Spent retry
  retry-Spent n w (ok true, u) e (inl (ne, early k _ after total lt a s)) =
      rw e (inl (k, lt, a, omega arith))
  retry-Spent n w (ok false, u) e (inl (ne, _)) = absurd (ne refl)
  retry-Spent n w (err x, u) e (inl (ne, early k _ after total lt a s)) =
      rw e (inl (k, lt, a, omega arith))
  retry-Spent n w (ok true, u) e (inr (h, _)) = cc
  retry-Spent n w (ok false, u) e (inr (h, used v after total a s)) = rw e (
      rw (raise_if-state not (timed_out n) (recording true (v, after, total)))
        (inr (rw a refl, omega arith)))
  retry-Spent n w (err x, u) e (inr (h, _)) = cc

  -- Started with nothing recorded, `retry` calls its function with `False` at most `timeout`
  -- times, sleeps a second after each call but one that ends it, and calls with `True` once at
  -- most, as the last call, and only when all the others were made.
  pub retry-WithinBudget :
      (timeout : ℕ) (w : W)
      → let (_, (_, calls, slept)) = retry counting recording timeout (w, [], 0) in
        WithinBudget timeout calls slept
  retry-WithinBudget timeout w = retry-Spent timeout w _ refl (poll-Spent timeout w [] 0)
