-- ===== src/TestDriver/Driver/Fleet/Together.antt =====
-- `start_all`, `join_all` and `__exit__` of a driver, from sound machines.
use nixpkgs_llvm_ws.Base.{◌≡◌, refl, ◌∙◌, false}
use nixpkgs_llvm_ws.Base.{ok, modify, ◌>>◌}
use nixpkgs_llvm_ws.Base.Lists.{All}
use nixpkgs_llvm_ws.TestDriver.Logger.{Logger}
use nixpkgs_llvm_ws.TestDriver.Machine.Shell.{Outside, start}
use nixpkgs_llvm_ws.TestDriver.Machine.Life.{wait_for_shutdown, release}
use nixpkgs_llvm_ws.TestDriver.Machine.Script.After.{IsSound}
use nixpkgs_llvm_ws.TestDriver.Driver.{
  Driver, on_machines, cancel_timer, start_all, join_all, cleanup,
}
use nixpkgs_llvm_ws.TestDriver.Driver.Fleet.{
  IsCalm, IsStarting, Answers, names, IsBooted, IsOff, IsClosed, sweep-Turns, nested-ok,
  start-Turns, wait_for_shutdown-Turns, release-Turns,
}

module _ (O : Outside) (logger : Logger O.World) (calm : IsCalm O logger) (d : Driver O) where
  start_all-IsBooted :
      IsStarting O
      → All (IsSound O) d.machines
      → (e : Driver O) × (start_all O logger d ≡ (ok tt, e))
        × (All (IsBooted O) e.machines × (names O e.machines ≡ names O d.machines))
  unfolding start_all on_machines
  start_all-IsBooted starts sound =
      nested-ok O logger calm "start all VMs" (on_machines O (start O false)) d
        (λ ms timer. All (IsBooted O) ms × (names O ms ≡ names O d.machines))
        (λ w.
          let (ts, v, ran, booted, same) =
            sweep-Turns O (start O false) (IsSound O) (IsBooted O) (start-Turns O starts) d.machines
              w sound in
          (record d { machines = ts; world = v }, cc, (booted, same)))

  join_all-IsOff :
      Answers O O.wait_process
      → All (IsBooted O) d.machines
      → (e : Driver O) × (join_all O logger d ≡ (ok tt, e))
        × (All (IsOff O) e.machines
            × (names O e.machines ≡ names O d.machines)
            × (e.race_timer ≡ false))
  unfolding join_all on_machines
  join_all-IsOff ends booted =
      nested-ok O logger calm "wait for all VMs to finish"
        (on_machines O (wait_for_shutdown O) >> modify (cancel_timer O)) d
        (λ ms timer. All (IsOff O) ms × (names O ms ≡ names O d.machines) × (timer ≡ false))
        (λ w.
          let (ts, v, ran, off, same) =
            sweep-Turns O (wait_for_shutdown O) (IsBooted O) (IsOff O)
              (wait_for_shutdown-Turns O ends) d.machines w booted in
          (record d { machines = ts; world = v; race_timer = false }, cc, (off, same, refl)))

  -- With a logger that does not raise, leaving the driver's context returns from any sound machines,
  -- booted or not. The timer is then off, and every machine with a pid has its sockets closed.
  pub cleanup-IsClosed :
      All (IsSound O) d.machines
      → (e : Driver O) × (cleanup O logger d ≡ (ok tt, e))
        × (All (IsClosed O) e.machines
            × (names O e.machines ≡ names O d.machines)
            × (e.race_timer ≡ false))
  unfolding cleanup on_machines
  cleanup-IsClosed sound =
      nested-ok O logger calm "cleanup" (modify (cancel_timer O) >> on_machines O (release O)) d
        (λ ms timer. All (IsClosed O) ms × (names O ms ≡ names O d.machines) × (timer ≡ false))
        (λ w.
          let (ts, v, ran, closed, same) =
            sweep-Turns O (release O) (IsSound O) (IsClosed O) (release-Turns O) d.machines w
              sound in
          (record d { machines = ts; world = v; race_timer = false }, cc, (closed, same, refl)))

-- With a logger that does not raise, machines that are sound, QEMU processes whose start neither
-- fails nor hangs, and guests that power off, so that waiting for a process returns: `start_all`
-- returns and leaves every machine booted, and `join_all` behind it returns too. Then no machine is
-- booted or connected or has a pid, they are the same machines in the same order by their names, and
-- the timer is off.
pub start_all-join_all :
    (O : Outside) (logger : Logger O.World) (calm : IsCalm O logger) (d : Driver O)
    → IsStarting O
    → Answers O O.wait_process
    → All (IsSound O) d.machines
    → (e : Driver O) × (f : Driver O) × (start_all O logger d ≡ (ok tt, e))
      × All (IsBooted O) e.machines
      × (join_all O logger e ≡ (ok tt, f))
      × All (IsOff O) f.machines
      × (names O f.machines ≡ names O d.machines)
      × (f.race_timer ≡ false)
start_all-join_all O logger calm d starts ends sound =
    let (e, started, (booted, same)) = start_all-IsBooted O logger calm d starts sound in
    let (f, joined, (off, same', timer)) = join_all-IsOff O logger calm e ends booted in
    (e, f, started, booted, joined, off, same' ∙ same, timer)
