-- ===== src/TestDriver/Machine/Script/After.antt =====
-- When a machine is sound, and what a call leaves that keeps it so: a connected machine is booted, a
-- booted machine has a process, a pid, a shell and a monitor, and one with a pid has a process, a
-- shell and a monitor.
use nixpkgs_llvm_ws.Base.{◌≡◌, Bool, true, false, not, ◌&&◌, ◌||◌, if◌then◌else◌, arith, refl}
use nixpkgs_llvm_ws.Base.{Action, Result, ok, err, follow, ◌>>=◌}
use nixpkgs_llvm_ws.TestDriver.Errors.{Error}
use nixpkgs_llvm_ws.TestDriver.Machine.Shell.{Outside, Machine, Call, outside}
use nixpkgs_llvm_ws.TestDriver.Machine.Life.{has, is_made}

module _ (O : Outside) where
  -- Implications between Boolean fields, by their values.
  pub record IsSound (m : Machine O) : Type 0 where
    pub connected : (not m.connected || m.booted) ≡ true
    pub process : (not m.booted || m.process) ≡ true
    pub pid : (not m.booted || has m.pid) ≡ true
    pub shell : (not m.booted || is_made m.shell) ≡ true
    pub monitor : (not m.booted || is_made m.monitor) ≡ true
    pub held : (not (has m.pid) || m.process && is_made m.shell && is_made m.monitor) ≡ true

  abbrev pub Keeps {ρ} : {A : Type ρ} → Call O A → Type 0
  Keeps f = (m : Machine O) → IsSound m → IsSound (f m).1

  pub follow-IsSound {ρ σ} :
      {A : Type ρ} {B : Type σ} (f : A → Call O B) (x : Result Error A × Machine O)
      → ((a : A) → Keeps (f a))
      → IsSound x.1
      → IsSound (follow f x).1
  follow-IsSound f (ok a, m) h v = h a m v
  follow-IsSound f (err e, m) h v = v

  pub >>=-Keeps {ρ σ} :
      {A : Type ρ} {B : Type σ} (f : Call O A) (g : A → Call O B)
      → Keeps f
      → ((a : A) → Keeps (g a))
      → Keeps (f >>= g)
  >>=-Keeps f g hf hg m v = follow-IsSound g (f m) hg (hf m v)

  -- What a call leaves: where it raises, the machine is still sound.
  abbrev pub After {ρ} :
      {A : Type ρ} → (A → Machine O → Type 0) → Result Error A × Machine O → Type 0
  After Q (ok a, m) = Q a m
  After Q (err e, m) = IsSound m

  pub follow-After {ρ σ} :
      {A : Type ρ} {B : Type σ} (P : A → Machine O → Type 0) (Q : B → Machine O → Type 0)
      (g : A → Call O B) (x : Result Error A × Machine O)
      → After P x
      → ((a : A) (m : Machine O) → P a m → After Q (g a m))
      → After Q (follow g x)
  follow-After P Q g (ok a, m) p h = h a m p
  follow-After P Q g (err e, m) p h = p

  pub world-IsSound : (m : Machine O) (w : O.World) → IsSound m → IsSound (record m { world = w })
  world-IsSound m w v = ground arith

  pub outside-After {ρ} :
      {A : Type ρ} (P : Machine O → Type 0) (f : Action O.World Error A) (m : Machine O)
      → IsSound m
      → ((w : O.World) → P (record m { world = w }))
      → After (λ _. P) (outside O f m)
  outside-After {A} P f m v p = cases (f m.world)
    where
      cases : (x : Result Error A × O.World) → After (λ (_ : A). P) (x.0, record m { world = x.1 })
      cases (ok a, w) = p w
      cases (err e, w) = world-IsSound m w v

  pub chosen-After {ρ} :
      {A : Type ρ} (Q : A → Machine O → Type 0) (b : Bool) (x y : Result Error A × Machine O)
      → (b ≡ true → After Q x)
      → (b ≡ false → After Q y)
      → After Q (if b then x else y)
  chosen-After Q true x y h k = h refl
  chosen-After Q false x y h k = k refl

  pub weaken {ρ} :
      {A : Type ρ} (P Q : A → Machine O → Type 0) (x : Result Error A × Machine O)
      → After P x
      → ((a : A) (m : Machine O) → P a m → Q a m)
      → After Q x
  weaken P Q (ok a, m) p h = h a m p
  weaken P Q (err e, m) p h = p

  pub IsSound-After {ρ} :
      {A : Type ρ} (x : Result Error A × Machine O) → IsSound x.1 → After (λ _. IsSound) x
  IsSound-After (ok a, m) v = v
  IsSound-After (err e, m) v = v

  pub After-IsSound {ρ} :
      {A : Type ρ} (Q : A → Machine O → Type 0) (x : Result Error A × Machine O)
      → After Q x
      → ((a : A) (m : Machine O) → Q a m → IsSound m)
      → IsSound x.1
  After-IsSound Q (ok a, m) q h = h a m q
  After-IsSound Q (err e, m) q h = q
