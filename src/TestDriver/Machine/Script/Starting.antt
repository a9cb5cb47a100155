-- ===== src/TestDriver/Machine/Script/Starting.antt =====
-- `start` and `wait_for_shutdown` keep a machine sound, at whichever step they raise.
use nixpkgs_llvm_ws.Base.{ℕ, String, ◌≡◌, Bool, true, false, not, ◌||◌, arith, refl, none}
use nixpkgs_llvm_ws.TestDriver.Machine.Shell.{
  Outside, Machine, live, outside, log, launch, attach, start,
}
use nixpkgs_llvm_ws.TestDriver.Machine.Life.{is_made, awaited, wait_for_shutdown}
use nixpkgs_llvm_ws.TestDriver.Machine.Script.After.{
  IsSound, Keeps, After, follow-After, world-IsSound, outside-After, chosen-After, weaken,
  After-IsSound,
}

module _ (O : Outside) where
  -- A machine that is starting, with a process and a monitor, and with a shell or still without.
  abbrev Starting : String → Bool → Machine O → Type 0
  Starting name shell m =
      IsSound O m
      × (m.booted ≡ false)
      × (m.name ≡ name)
      × (m.process ≡ true)
      × (is_made m.monitor ≡ true)
      × ((not shell || is_made m.shell) ≡ true)

  abbrev pub Started : String → Machine O → Type 0
  Started name m = IsSound O m × (m.booted ≡ true) × (m.name ≡ name)

  Starting-world :
      (name : String) (shell : Bool) (m : Machine O) (w : O.World)
      → Starting name shell m
      → Starting name shell (record m { world = w })
  Starting-world name shell m w (v, off, same, proc, mon, sh) =
      (world-IsSound O m w v, off, same, proc, mon, sh)

  abbrev Off : String → Machine O → Type 0
  Off name m = IsSound O m × (m.booted ≡ false) × (m.name ≡ name)

  launch-After :
      (allow_reboot : Bool) (m : Machine O)
      → IsSound O m
      → m.booted ≡ false
      → After O (λ _. Starting m.name false) (launch O allow_reboot m)
  unfolding launch
  launch-After allow_reboot m v off =
      follow-After O (λ _. Off m.name) _ _ (outside O O.create_sockets (log O "starting vm" m).1)
        (outside-After O (Off m.name) O.create_sockets (log O "starting vm" m).1
          (world-IsSound O m _ v) (λ w. (world-IsSound O m w v, off, refl)))
        (λ _ n (vn, offn, same).
          follow-After O (λ _. Off m.name) _ _ (outside O (O.run_qemu allow_reboot) n)
            (outside-After O (Off m.name) (O.run_qemu allow_reboot) n vn
              (λ w. (world-IsSound O n w vn, offn, same)))
            (λ pid p (vp, offp, same').
              let q : Machine O = record p { process = true } in
              let vq : IsSound O q = ground arith in
              follow-After O (λ _ t. Off m.name t × (t.process ≡ true)) _ _
                (outside O O.accept_monitor q)
                (outside-After O (λ t. Off m.name t × (t.process ≡ true)) O.accept_monitor q vq
                  (λ w. ((world-IsSound O q w vq, offp, same'), refl)))
                (λ _ t ((vt, offt, same''), proc). (ground arith, offt, same'', proc, refl, refl))))

  attach-After :
      (name : String) (pid : ℕ) (m : Machine O)
      → Starting name false m
      → After O (λ _. Started name) (attach O pid m)
  unfolding attach
  attach-After name pid m given =
      let (v, _, _, _, _, _) = given in
      follow-After O (λ _. Starting name false) _ _ (outside O O.accept_shell m)
        (outside-After O (Starting name false) O.accept_shell m v
          (λ w. Starting-world name false m w given))
        (λ chunks n (vn, offn, samen, procn, monn, _).
          let p : Machine O = record n { shell = live chunks } in
          let gp : Starting name true p = (ground arith, offn, samen, procn, monn, refl) in
          follow-After O (λ _. Starting name true) _ _ (outside O O.open_qmp p)
            (outside-After O (Starting name true) O.open_qmp p gp.0
              (λ w. Starting-world name true p w gp))
            (λ _ q gq.
              follow-After O (λ _. Starting name true) _ _ (outside O O.await_prompt q)
                (outside-After O (Starting name true) O.await_prompt q gq.0
                  (λ w. Starting-world name true q w gq))
                (λ _ t (vt, offt, samet, proct, mont, shellt). (ground arith, refl, samet))))

  pub start-After :
      (allow_reboot : Bool) (m : Machine O)
      → IsSound O m
      → After O (λ _. Started m.name) (start O allow_reboot m)
  unfolding start
  start-After allow_reboot m v =
      chosen-After O (λ _. Started m.name) m.booted _ _ (λ on. (v, on, refl))
        (λ off.
          follow-After O (λ _. Starting m.name false) (λ _. Started m.name) (attach O)
            (launch O allow_reboot m) (launch-After allow_reboot m v off)
            (λ pid n given. attach-After m.name pid n given))

  pub start-Keeps : (allow_reboot : Bool) → Keeps O (start O allow_reboot)
  start-Keeps allow_reboot m v =
      After-IsSound O (λ _. Started m.name) (start O allow_reboot m) (start-After allow_reboot m v)
        (λ _ n (sound, _, _). sound)

  awaited-After :
      (m : Machine O)
      → IsSound O m
      → After O
          (λ _ t.
            IsSound O t
            × (t.booted ≡ false)
            × (t.connected ≡ false)
            × (t.pid ≡ none)
            × (t.name ≡ m.name))
          (awaited O m)
  unfolding awaited
  awaited-After m v =
      follow-After O (λ _ t. IsSound O t × (t.name ≡ m.name)) _ _ (outside O O.wait_process m)
        (outside-After O (λ t. IsSound O t × (t.name ≡ m.name)) O.wait_process m v
          (λ w. (world-IsSound O m w v, refl)))
        (λ _ t (vt, same). (ground arith, refl, refl, refl, same))

  -- A machine that is waited for is off, where the wait returns.
  pub wait_for_shutdown-After :
      (m : Machine O)
      → IsSound O m
      → After O
          (λ _ t.
            IsSound O t
            × (t.booted ≡ false)
            × (t.connected ≡ false)
            × (m.booted ≡ true → t.pid ≡ none)
            × (t.name ≡ m.name))
          (wait_for_shutdown O m)
  unfolding wait_for_shutdown
  wait_for_shutdown-After m v =
      chosen-After O Off m.booted _ _
        (λ on.
          chosen-After O Off m.process _ _
            (λ _.
              weaken O Awaited Off (awaited O (log O "waiting for the VM to power off" m).1)
                (awaited-After (log O "waiting for the VM to power off" m).1
                  (world-IsSound O m _ v))
                (λ _ t (sound, off, gone, empty, same). (sound, off, gone, (λ _. empty), same)))
            (λ _. world-IsSound O m _ v))
        (λ off. (v, off, ground (arith, v.connected), (λ on. absurd (cc)), refl))
    where
      Awaited : Unit {0} → Machine O → Type 0
      Awaited _ t =
          IsSound O t
          × (t.booted ≡ false)
          × (t.connected ≡ false)
          × (t.pid ≡ none)
          × (t.name ≡ m.name)

      Off : Unit {0} → Machine O → Type 0
      Off _ t =
          IsSound O t
          × (t.booted ≡ false)
          × (t.connected ≡ false)
          × (m.booted ≡ true → t.pid ≡ none)
          × (t.name ≡ m.name)

  pub wait_for_shutdown-Keeps : Keeps O (wait_for_shutdown O)
  wait_for_shutdown-Keeps m v =
      After-IsSound O _ (wait_for_shutdown O m) (wait_for_shutdown-After m v)
        (λ _ t (sound, _, _, _, _). sound)
