-- ===== src/TestDriver/Driver/Fleet.antt =====
-- The loops over the machines: what they leave of each, where the logger answers.
pub mod Together
use nixpkgs_llvm_ws.Base.{
  String, List, [], ◌∷◌, ◌≡◌, refl, ◌∙◌, ap, Bool, true, false, not, ◌||◌, ◌&&◌, Option, none, some,
  arith, ℕ, if◌then◌else◌,
}
use nixpkgs_llvm_ws.Base.{Action, Result, ok, err, done, modify, ◌>>=◌, ◌>>◌, >>=-ok, follow}
use nixpkgs_llvm_ws.Base.Lists.{All}
use nixpkgs_llvm_ws.TestDriver.Errors.{Error}
use nixpkgs_llvm_ws.TestDriver.Logger.{Logger}
use nixpkgs_llvm_ws.TestDriver.Machine.Shell.{
  Outside, Machine, Socket, unmade, shut, live, Call, outside, log, launch, attach, start,
}
use nixpkgs_llvm_ws.TestDriver.Machine.Life.{has, awaited, wait_for_shutdown, release}
use nixpkgs_llvm_ws.TestDriver.Machine.Script.After.{IsSound, After, world-IsSound}
use nixpkgs_llvm_ws.TestDriver.Machine.Script.Starting.{
  Started, start-After, wait_for_shutdown-After,
}
use nixpkgs_llvm_ws.TestDriver.Machine.Script.Steps.{release-Keeps}
use nixpkgs_llvm_ws.TestDriver.Driver.{
  Driver, sweep, on_machines, on_world, cancel_timer, nested, start_all, join_all, cleanup,
}

module _ (O : Outside) where
  -- A logger that neither raises where a nested context is entered nor where it is left.
  abbrev pub IsCalm : Logger O.World → Type 0
  IsCalm logger =
      (message : String) (w : O.World)
      → (leave : Action O.World Error (Unit {0})) × (v : O.World) × (logger.nested message [] w
          ≡ (ok leave, v))
        × ((u : O.World) → (z : O.World) × (leave u ≡ (ok tt, z)))

  abbrev pub names : List (Machine O) → List String
  names [] = []
  names (m ∷ ms) = m.name ∷ names ms

  abbrev pub IsBooted : Machine O → Type 0
  IsBooted m = IsSound O m × (m.booted ≡ true)

  abbrev pub IsOff : Machine O → Type 0
  IsOff m = IsSound O m × (m.booted ≡ false) × (m.connected ≡ false) × (m.pid ≡ none)

  abbrev is_shut {ℓ} : {A : Type ℓ} → Socket A → Bool
  is_shut unmade = false
  is_shut shut = true
  is_shut (live _) = false

  -- The sockets of a machine with a process to kill are closed.
  abbrev pub IsClosed : Machine O → Type 0
  IsClosed m = IsSound O m × ((not (has m.pid) || is_shut m.shell && is_shut m.monitor) ≡ true)

  -- What returns in every world.
  abbrev pub Answers {ρ} : {A : Type ρ} → Action O.World Error A → Type ρ
  Answers {A} f = (w : O.World) → (a : A) × ((f w).0 ≡ ok a)

  -- Nothing fails or hangs in the start of QEMU.
  abbrev pub IsStarting : Type 0
  IsStarting =
      Answers O.create_sockets
      × ((reboots : Bool) → Answers (O.run_qemu reboots))
      × Answers O.accept_monitor
      × Answers O.accept_shell
      × Answers O.open_qmp
      × Answers O.await_prompt

  -- A call that takes each machine with `P` to one with `Q`, in any world.
  abbrev pub Turns : Call O (Unit {0}) → (Machine O → Type 0) → (Machine O → Type 0) → Type 0
  Turns call P Q =
      (m : Machine O) (w : O.World)
      → P m
      → (t : Machine O) × (call (record m { world = w }) ≡ (ok tt, t)) × Q t × (t.name ≡ m.name)

  pub sweep-Turns :
      (call : Call O (Unit {0})) (P Q : Machine O → Type 0)
      → Turns call P Q
      → (ms : List (Machine O)) (w : O.World) → All P ms
      → (ts : List (Machine O)) × (v : O.World) × (sweep O call ms w ≡ (ok tt, ts, v))
        × All Q ts
        × (names ts ≡ names ms)
  unfolding sweep
  sweep-Turns call P Q turns [] w given = ([], w, refl, tt, refl)
  sweep-Turns call P Q turns (m ∷ ms) w (p, ps) =
      let (t, ran, q, same) = turns m w p in
      let (ts, v, rest, qs, others) = sweep-Turns call P Q turns ms t.world ps in
      (t ∷ ts, v, cc, (q, qs), cc)

  pub nested-ok :
      (logger : Logger O.World)
      → IsCalm logger
      → (message : String) (body : Action (Driver O) Error (Unit {0})) (d : Driver O)
        (Q : List (Machine O) → Bool → Type 0)
      → ((w : O.World)
          → (e : Driver O) × (body (record d { world = w }) ≡ (ok tt, e))
            × Q e.machines e.race_timer)
      → (e : Driver O) × (nested O logger message body d ≡ (ok tt, e)) × Q e.machines e.race_timer
  unfolding nested
  nested-ok logger calm message body d Q runs =
      let (leave, w, entered, leaves) = calm message d.world in
      let (e, ran, q) = runs w in let (v, left) = leaves e.world in (record e { world = v }, cc, q)

  follow-Gives {ρ σ} :
      {A : Type ρ} {B : Type σ} (g : A → Call O B) (x : Result Error A × Machine O)
      → (a : A) × (x.0 ≡ ok a)
      → ((a : A) (m : Machine O) → (b : B) × ((g a m).0 ≡ ok b))
      → (b : B) × ((follow g x).0 ≡ ok b)
  follow-Gives g (ok a, m) given next = next a m
  follow-Gives g (err e, m) (a, given) next = absurd (cc)

  launch-Gives :
      IsStarting
      → (allow_reboot : Bool) (m : Machine O) → (pid : ℕ) × ((launch O allow_reboot m).0 ≡ ok pid)
  unfolding launch
  launch-Gives (sockets, runs, monitors, _, _, _) allow_reboot m =
      follow-Gives _ (outside O O.create_sockets (log O "starting vm" m).1) (sockets _) (λ _ n.
        follow-Gives _ (outside O (O.run_qemu allow_reboot) n) (runs allow_reboot _) (λ pid p.
          follow-Gives _ (outside O O.accept_monitor (record p { process = true })) (monitors _)
            (λ _ q. (pid, refl))))

  attach-Gives :
      IsStarting → (pid : ℕ) (m : Machine O) → (u : Unit {0}) × ((attach O pid m).0 ≡ ok u)
  unfolding attach
  attach-Gives (_, _, _, shells, sessions, prompts) pid m =
      follow-Gives _ (outside O O.accept_shell m) (shells _) (λ chunks n.
        follow-Gives _ (outside O O.open_qmp (record n { shell = live chunks })) (sessions _)
          (λ _ p. follow-Gives _ (outside O O.await_prompt p) (prompts _) (λ _ q. (tt, refl))))

  chosen-Gives {ρ} :
      {A : Type ρ} (b : Bool) (x y : Result Error A × Machine O)
      → (b ≡ true → (a : A) × (x.0 ≡ ok a))
      → (b ≡ false → (a : A) × (y.0 ≡ ok a))
      → (a : A) × ((if b then x else y).0 ≡ ok a)
  chosen-Gives true x y h k = h refl
  chosen-Gives false x y h k = k refl

  start-Gives :
      IsStarting
      → (allow_reboot : Bool) (m : Machine O) → (u : Unit {0}) × ((start O allow_reboot m).0 ≡ ok u)
  unfolding start
  start-Gives starts allow_reboot m =
      chosen-Gives m.booted _ _ (λ _. (tt, refl))
        (λ _.
          follow-Gives (attach O) (launch O allow_reboot m) (launch-Gives starts allow_reboot m)
            (attach-Gives starts))

  -- A call that returns leaves what holds behind it.
  returned :
      (Q : Machine O → Type 0) (x : Result Error (Unit {0}) × Machine O)
      → (u : Unit {0}) × (x.0 ≡ ok u)
      → After O (λ _. Q) x
      → (t : Machine O) × (x ≡ (ok tt, t)) × Q t
  returned Q (ok u, t) given q = (t, refl, q)
  returned Q (err e, t) (u, given) q = absurd (cc)

  pub start-Turns : IsStarting → Turns (start O false) (IsSound O) IsBooted
  start-Turns starts m w v =
      let u : Machine O = record m { world = w } in
      let (t, ran, (sound, booted, same)) =
        returned (Started O m.name) (start O false u) (start-Gives starts false u)
          (start-After O false u (world-IsSound O m w v)) in
      (t, ran, (sound, booted), same)

  awaited-Gives :
      Answers O.wait_process → (m : Machine O) → (u : Unit {0}) × ((awaited O m).0 ≡ ok u)
  unfolding awaited
  awaited-Gives ends m = follow-Gives _ (outside O O.wait_process m) (ends _) (λ _ n. (tt, refl))

  wait_for_shutdown-Gives :
      Answers O.wait_process
      → (m : Machine O) → IsSound O m
      → (u : Unit {0}) × ((wait_for_shutdown O m).0 ≡ ok u)
  unfolding wait_for_shutdown
  wait_for_shutdown-Gives ends m v =
      chosen-Gives m.booted _ _
        (λ on.
          chosen-Gives m.process _ _
            (λ _. awaited-Gives ends (log O "waiting for the VM to power off" m).1)
            (λ idle. absurd (ground (arith, v.process))))
        (λ _. (tt, refl))

  pub wait_for_shutdown-Turns : Answers O.wait_process → Turns (wait_for_shutdown O) IsBooted IsOff
  wait_for_shutdown-Turns ends m w (v, booted) =
      let u : Machine O = record m { world = w } in
      let vu : IsSound O u = world-IsSound O m w v in
      let (t, ran, (sound, off, apart, empty, same)) =
        returned
          (λ t.
            IsSound O t
            × (t.booted ≡ false)
            × (t.connected ≡ false)
            × (m.booted ≡ true → t.pid ≡ none)
            × (t.name ≡ m.name))
          (wait_for_shutdown O u) (wait_for_shutdown-Gives ends u vu)
          (wait_for_shutdown-After O u vu) in
      (t, ran, (sound, off, apart, empty booted), same)

  pub release-Turns : Turns (release O) (IsSound O) IsClosed
  unfolding release
  release-Turns m w v =
      let u : Machine O = record m { world = w } in
      (
        (release O u).1,
        ground arith,
        (release-Keeps O u (ground arith), ground arith),
        ground arith,
      )
