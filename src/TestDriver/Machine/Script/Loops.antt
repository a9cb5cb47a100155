-- ===== src/TestDriver/Machine/Script/Loops.antt =====
-- What an action keeps of its state, `retry` keeps too.
use nixpkgs_llvm_ws.Base.{ℕ, zero, suc, Bool, true, false, not, if◌then◌else◌}
use nixpkgs_llvm_ws.Base.{Action, Result, ok, err, pure, modify, raise_if, follow, ◌>>=◌, ◌>>◌}
use nixpkgs_llvm_ws.TestDriver.Errors.{Error}
use nixpkgs_llvm_ws.TestDriver.Retry.{poll, retry, timed_out}

module _ {ℓ} {W : Type ℓ} (P : W → Type 0) where
  abbrev pub Preserves {ρ} : {A : Type ρ} → Action W Error A → Type ℓ
  Preserves f = (w : W) → P w → P (f w).1

  follow-kept {ρ σ} :
      {A : Type ρ} {B : Type σ} (g : A → Action W Error B) (x : Result Error A × W)
      → ((a : A) → Preserves (g a))
      → P x.1
      → P (follow g x).1
  follow-kept g (ok a, w) h p = h a w p
  follow-kept g (err e, w) h p = p

  pub >>=-Preserves {ρ σ} :
      {A : Type ρ} {B : Type σ} (f : Action W Error A) (g : A → Action W Error B)
      → Preserves f
      → ((a : A) → Preserves (g a))
      → Preserves (f >>= g)
  >>=-Preserves f g hf hg w p = follow-kept g (f w) hg (hf w p)

  pub if-Preserves {ρ} :
      {A : Type ρ} (b : Bool) (f g : Action W Error A)
      → Preserves f
      → Preserves g
      → Preserves (if b then f else g)
  if-Preserves true f g hf hg = hf
  if-Preserves false f g hf hg = hg

  pub raise_if-Preserves : (b : Bool) (e : Error) → Preserves (raise_if b e)
  raise_if-Preserves true e w p = p
  raise_if-Preserves false e w p = p

  module _ (sleep : ℕ → W → W) (sleeps : (w : W) → P w → P (sleep 1 w))
      (fn : Bool → Action W Error Bool) (given : (last : Bool) → Preserves (fn last)) where
    poll-Preserves : (rounds : ℕ) → Preserves (poll sleep fn rounds)
    unfolding poll
    poll-Preserves zero w p = p
    poll-Preserves (suc rounds) w p =
        >>=-Preserves (fn false)
          (λ answer. if answer then pure true else (modify (sleep 1) >> poll sleep fn rounds))
          (given false)
          (λ answer.
            if-Preserves answer (pure true) (modify (sleep 1) >> poll sleep fn rounds) (λ w p. p)
              (>>=-Preserves (modify (sleep 1)) (λ _. poll sleep fn rounds) sleeps
                (λ _. poll-Preserves rounds)))
          w p

    pub retry-Preserves : (timeout : ℕ) → Preserves (retry sleep fn timeout)
    unfolding retry
    retry-Preserves timeout =
        let last : Action W Error (Unit {0}) =
          fn true >>= λ answer. raise_if (not answer) (timed_out timeout) in
        >>=-Preserves (poll sleep fn timeout) (λ returned. if returned then pure tt else last)
          (poll-Preserves timeout)
          (λ returned.
            if-Preserves returned (pure tt) last (λ w p. p)
              (>>=-Preserves (fn true) (λ answer. raise_if (not answer) (timed_out timeout))
                (given true) (λ answer. raise_if-Preserves (not answer) (timed_out timeout))))
