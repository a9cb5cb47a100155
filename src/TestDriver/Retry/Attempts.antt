-- ===== src/TestDriver/Retry/Attempts.antt =====
-- What `retry` returns, by the first call of the function that does not answer `False`.
use nixpkgs_llvm_ws.Base.{ℕ, zero, suc, ◌<◌, ◌∙◌, ◌≡◌, refl, ◌≢◌, Bool, true, false, arith}
use nixpkgs_llvm_ws.Base.{Action, Result, ok, err}
use nixpkgs_llvm_ws.TestDriver.Errors.{Error}
use nixpkgs_llvm_ws.TestDriver.Retry.{poll, retry, timed_out}

-- What the caller of `retry` sees, from what the deciding call has returned.
abbrev pub verdict : ℕ → Result Error Bool → Result Error (Unit {0})
verdict timeout (ok true) = ok tt
verdict timeout (ok false) = err (timed_out timeout)
verdict timeout (err e) = err e

module _ {ℓ} {W : Type ℓ} (sleep : ℕ → W → W) (fn : Bool → Action W Error Bool) where
  -- From the first state, so many calls in a row answer `False`, with a second's sleep after each.
  pub data Declines : ℕ → W → W → Type ℓ where
    here : (w : W) → Declines zero w w
    later :
        (k : ℕ) (w u v : W)
        → fn false w ≡ (ok false, u)
        → Declines k (sleep 1 u) v
        → Declines (suc k) w v

  -- The deciding call is the first that does not answer `False`, or the last chance.
  pub data Settles (timeout : ℕ) (w : W) (r : Result Error Bool) (v : W) : Type ℓ where
    early :
        (k : ℕ) (u : W)
        → k < timeout
        → Declines k w u
        → r ≢ ok false
        → fn false u ≡ (r, v)
        → Settles timeout w r v
    late : (u : W) → Declines timeout w u → fn true u ≡ (r, v) → Settles timeout w r v

  -- How the loop ends: with the first call that does not answer `False`, or with none.
  data Ends (n : ℕ) (w : W) : Type ℓ where
    stops :
        (k : ℕ) (u v : W) (r : Result Error Bool)
        → k < n
        → Declines k w u
        → r ≢ ok false
        → fn false u ≡ (r, v)
        → poll sleep fn n w ≡ (r, v)
        → Ends n w
    runs_out : (u : W) → Declines n w u → poll sleep fn n w ≡ (ok false, u) → Ends n w

  poll-here :
      (n : ℕ) (w v : W) (r : Result Error Bool)
      → fn false w ≡ (r, v)
      → r ≢ ok false
      → poll sleep fn (suc n) w ≡ (r, v)
  unfolding poll
  poll-here n w v (ok true) e ne = rw e
  poll-here n w v (ok false) e ne = absurd (ne refl)
  poll-here n w v (err x) e ne = rw e

  poll-declined :
      (n : ℕ) (w u : W)
      → fn false w ≡ (ok false, u)
      → poll sleep fn (suc n) w ≡ poll sleep fn n (sleep 1 u)
  unfolding poll
  poll-declined n w u e = rw e

  Ends-later : (n : ℕ) (w u : W) → fn false w ≡ (ok false, u) → Ends n (sleep 1 u) → Ends (suc n) w
  Ends-later n w u e (stops k x v r lt d ne h p) =
      stops (suc k) x v r (omega arith) (later k w u x e d) ne h (poll-declined n w u e ∙ p)
  Ends-later n w u e (runs_out x d p) = runs_out x (later n w u x e d) (poll-declined n w u e ∙ p)

  poll-Ends : (n : ℕ) (w : W) → Ends n w
  unfolding poll
  poll-Ends zero w = runs_out w (here w) refl
  poll-Ends (suc n) w = split (fn false w) refl (poll-Ends n)
    where
      split : (x : Result Error Bool × W) → fn false w ≡ x → ((u : W) → Ends n u) → Ends (suc n) w
      split (ok true, v) e ih =
          stops zero w v (ok true) (omega arith) (here w) (λ p. cc) e
            (poll-here n w v (ok true) e (λ p. cc))
      split (ok false, u) e ih = Ends-later n w u e (ih (sleep 1 u))
      split (err x, v) e ih =
          stops zero w v (err x) (omega arith) (here w) (λ p. cc) e
            (poll-here n w v (err x) e (λ p. cc))

  retry-stopped :
      (n : ℕ) (w v : W) (r : Result Error Bool)
      → r ≢ ok false
      → poll sleep fn n w ≡ (r, v)
      → retry sleep fn n w ≡ (verdict n r, v)
  unfolding retry
  retry-stopped n w v (ok true) ne e = rw e
  retry-stopped n w v (ok false) ne e = absurd (ne refl)
  retry-stopped n w v (err x) ne e = rw e

  retry-last :
      (n : ℕ) (w u v : W) (r : Result Error Bool)
      → poll sleep fn n w ≡ (ok false, u)
      → fn true u ≡ (r, v)
      → retry sleep fn n w ≡ (verdict n r, v)
  unfolding retry
  retry-last n w u v (ok true) e h = rw (e, h)
  retry-last n w u v (ok false) e h = rw (e, h)
  retry-last n w u v (err x) e h = rw (e, h)

  -- Every run of `retry` ends with a deciding call: the first call, among at most `timeout` calls
  -- with `False`, that does not answer `False`, or else the call with `True` behind them all.
  -- `retry` leaves the state of that call, returns if it answered `True`, raises its exception if
  -- it raised, and raises that the time is over if it answered `False`.
  pub retry-Settles :
      (timeout : ℕ) (w : W)
      → (r : Result Error Bool) × (v : W) × Settles timeout w r v
        × (retry sleep fn timeout w ≡ (verdict timeout r, v))
  retry-Settles n w = conclude (poll-Ends n w)
    where
      conclude :
          Ends n w
          → (r : Result Error Bool) × (v : W) × Settles n w r v
            × (retry sleep fn n w ≡ (verdict n r, v))
      conclude (stops k u v r lt d ne h p) = (r, v, early k u lt d ne h, retry-stopped n w v r ne p)
      conclude (runs_out u d p) =
          let (r, v) = fn true u in (r, v, late u d refl, retry-last n w u v r p refl)
