-- ===== src/CloudHv/Cleaning.antt =====
-- src/driver/cloud_hv.rs: what is gone from the host after `stop` and `kill`, and which processes they leave alone.
use vm_rs.Prelude.{
  ℕ, zero, suc, ◌-◌, ◌+◌, ◌*◌, ◌/◌, ◌≤◌, ◌≢◌, arith, ◌≡◌, refl, ◌∙◌, inl, inr, ◌⊎◌, ap, Bool, true,
  false, Option, none, some, List, [], ◌∷◌, ◌++◌, append-nil, append_assoc,
}
use vm_rs.Prelude.Tests.{ltb, le→ltb_false, Bool-cases, keep-if}
use vm_rs.Prelude.Find.{Contains, contains-split}
use vm_rs.Prelude.Text.{Str, codes, str_eq_refl}
use vm_rs.Prelude.Map.{lookup, remove, lookup-remove}
use vm_rs.Result.{Result, ok, err, IoError, VmError, not_found, Result-cases}
use vm_rs.Config.{VmmProcess, VmHandle}
use vm_rs.Exec.Rules.{Keeps, >>=-Keeps}
use vm_rs.CloudHv
use vm_rs.CloudHv.Processes
use vm_rs.CloudHv.Identity.{validate_process_iff, same_start-cases}
use vm_rs.CloudHv.Logged.{Logged, logged_system, logged_host}
use vm_rs.CloudHv.Stopping

module _ {W : Type 0} (system : CloudHv.System W) (host : Processes.Processes W) where
  -- The process of a handle is the driver's own: its command line can be read and names the
  -- hypervisor, and its start time is the recorded one, where one was recorded.
  abbrev pub IsOwn : Option VmmProcess → W → Type 0
  IsOwn o w =
      (p : VmmProcess) × (o ≡ some p)
      × ((bytes : List ℕ) × (system.read (CloudHv.proc_path p.pid (codes "cmdline")) w ≡ ok bytes)
          × Contains (system.from_utf8_lossy bytes) (codes "cloud-hypervisor"))
      × ((p.start_time_ticks ≡ none)
          ⊎ ((time : ℕ) × (p.start_time_ticks ≡ some time)
              × (CloudHv.read_proc_start_time system p.pid w ≡ some time)))

  -- Nothing happened, and the call says so.
  abbrev pub IsRefused :
      Result VmError (Unit {0}) × CloudHv.CloudHvDriver W → CloudHv.CloudHvDriver W → Type 0
  IsRefused after d = (e : VmError) × (after ≡ (err e, d))

  IsOwn-or_refused :
      (o : Option VmmProcess) (name : Str) (w : W)
      → IsOwn o w
        ⊎ ((o ≡ none)
            ⊎ ((p : VmmProcess) × (e : VmError) × (o ≡ some p)
                × (CloudHv.validate_cloud_hypervisor_process system p name w ≡ err e)))
  IsOwn-or_refused none name w = inr (inl refl)
  IsOwn-or_refused (some p) name w =
      elim (Result-cases (CloudHv.validate_cloud_hypervisor_process system p name w)) [
        | inr (e, bad) ↦ inr (inr (p, e, refl, bad))
        | inl (_, good) ↦
            let (bytes, there, same, named) = (validate_process_iff system p name w).0 good in
            inl (
              p,
              refl,
              (bytes, there, contains-split (system.from_utf8_lossy bytes) _ named),
              same_start-cases p.start_time_ticks _ same,
            )
      ]

  -- A `stop` or a `kill` of an untracked machine changes nothing and is an error, and so sends
  -- no signal, unless the handle names a process whose command line can be read and contains
  -- `cloud-hypervisor`, and whose start time is the recorded one where one was recorded.
  pub spares_other_processes :
      (h : VmHandle) (d : CloudHv.CloudHvDriver W)
      → lookup h.name d.vms ≡ none
      → (IsOwn h.process d.world ⊎ IsRefused (Stopping.stop system host h d) d)
        × (IsOwn h.process d.world ⊎ IsRefused (Stopping.kill system host h d) d)
  unfolding Stopping.stop Stopping.stop_named Stopping.stop_restored Stopping.kill
      Stopping.kill_named Stopping.kill_restored
  spares_other_processes h d untracked = elim (Bool-cases d.poisoned) [
    | inl locked ↦
        (inr (CloudHv.lock_poisoned, rw locked refl), inr (CloudHv.lock_poisoned, rw locked refl))
    | inr unlocked ↦ elim (IsOwn-or_refused h.process h.name d.world) [
      | inl own ↦ (inl own, inl own)
      | inr (inl nameless) ↦ (
        inr (not_found h.name, rw (unlocked, untracked, nameless) refl),
        inr (not_found h.name, rw (unlocked, untracked, nameless) refl),
      )
      | inr (inr (p, e, named, other)) ↦ (
        inr (e, rw (unlocked, untracked, named, other) refl),
        inr (e, rw (unlocked, untracked, named, other) refl),
      )
    ]
  ]

  -- A property of the host that no wait for a process and no signal undoes.
  pub record Undisturbed (J : W → Type 0) : Type 0 where
    pub by_sleep : (n : ℕ) (w : W) → J w → J (host.sleep n w)
    pub by_wait : (child : ℕ) (w : W) → J w → J (system.try_wait child w).1
    pub by_signal : (pid number : ℕ) (w : W) → J w → J (host.signal pid number w).1
    pub by_kill : (child : ℕ) → Keeps J (host.child_kill child)
    pub by_reap : (child : ℕ) → Keeps J (host.child_wait child)

  module _ (J : W → Type 0) (u : Undisturbed J) where
    unless_exited-Keeps :
        (answer : Result IoError Bool × W) (rest : W → Processes.Polled × W)
        → J answer.1
        → ((w : W) → J w → J (rest w).1)
        → J (Processes.unless_exited system host answer rest).1
    unless_exited-Keeps (ok true, w) rest h keeps = h
    unless_exited-Keeps (ok false, w) rest h keeps = keeps w h
    unless_exited-Keeps (err e, w) rest h keeps = h

    poll_exit-Keeps :
        (fuel child start timeout : ℕ) (w : W)
        → J w
        → J (Processes.poll_exit system host fuel child start timeout w).1
    unfolding Processes.poll_exit
    poll_exit-Keeps zero child start timeout w h = h
    poll_exit-Keeps (suc fuel) child start timeout w h =
        keep-if (λ (x : Processes.Polled × W). J x.1) (ltb (host.now w - start) timeout)
          (unless_exited-Keeps (system.try_wait child w) _ (u.by_wait child w h) (λ w' h'.
            poll_exit-Keeps fuel child start timeout (host.sleep (Processes.millis 200) w')
              (u.by_sleep (Processes.millis 200) w' h')))
          h

    wait_for_exit-Keeps :
        (child timeout : ℕ) → Keeps J (Processes.wait_for_exit system host child timeout)
    unfolding Processes.wait_for_exit Processes.after_poll
    wait_for_exit-Keeps child timeout w h =
        go (Processes.poll_exit system host rounds child (host.now w) timeout w).0
          (Processes.poll_exit system host rounds child (host.now w) timeout w).1
          (poll_exit-Keeps rounds child (host.now w) timeout w h)
      where
        rounds : ℕ
        rounds = Processes.rounds system host timeout (Processes.millis 200)

        forced : Keeps J (Processes.force_exit system host child timeout)
        forced =
            >>=-Keeps J (host.child_kill child) _ (u.by_kill child)
              (λ v. >>=-Keeps J (host.child_wait child) _ (u.by_reap child) (λ v' w' h'. h'))

        go :
            (polled : Processes.Polled) (w' : W)
            → J w'
            → J (Processes.after_poll system host child timeout (polled, w')).1
        go Processes.exited w' h' = h'
        go (Processes.failed e) w' h' = h'
        go Processes.timed_out w' h' = forced w' h'
        go Processes.out_of_fuel w' h' = h'

    cleanup_virtiofsd-Keeps :
        (children : List ℕ) (w : W) → J w → J (Processes.cleanup_virtiofsd system host children w)
    unfolding Processes.cleanup_virtiofsd
    cleanup_virtiofsd-Keeps [] w h = h
    cleanup_virtiofsd-Keeps (child ∷ children) w h =
        cleanup_virtiofsd-Keeps children _ (wait_for_exit-Keeps child (Processes.millis 1000) w h)

    wait_if_sent-Keeps :
        (h : VmHandle) (p : CloudHv.VmProcess) (sent : Result Str (Unit {0}) × W)
        → J sent.1
        → J (Stopping.wait_if_sent system host h p sent).1
    unfolding Stopping.wait_if_sent
    wait_if_sent-Keeps h p (err errno, w) k = k
    wait_if_sent-Keeps h p (ok _, w) k = wait_for_exit-Keeps p.child (Processes.millis 10000) w k

  -- A clock that does not go back, and that moves on by the time slept.
  pub record Ticks : Type 0 where
    pub sleeps : (n : ℕ) (w : W) → host.now w + n ≤ host.now (host.sleep n w)
    pub queries : (child : ℕ) (w : W) → host.now w ≤ host.now (system.try_wait child w).1

  module _ (ticks : Ticks) where
    unless_exited-ends :
        (answer : Result IoError Bool × W) (rest : W → Processes.Polled × W)
        → ((rest answer.1).0 ≢ Processes.out_of_fuel)
        → (Processes.unless_exited system host answer rest).0 ≢ Processes.out_of_fuel
    unless_exited-ends (ok true, w) rest more e = cc
    unless_exited-ends (ok false, w) rest more e = more e
    unless_exited-ends (err x, w) rest more e = cc

    poll_exit-ends :
        (n child start timeout : ℕ) (w : W)
        → start ≤ host.now w
        → timeout ≤ host.now w - start + n * 200000000
        → (Processes.poll_exit system host (suc n) child start timeout w).0 ≢ Processes.out_of_fuel
    unfolding Processes.poll_exit
    poll_exit-ends zero child start timeout w from enough =
        rw (le→ltb_false (host.now w - start) timeout (omega arith)) (λ e. cc)
    poll_exit-ends (suc n) child start timeout w from enough =
        elim (Bool-cases (ltb (host.now w - start) timeout)) [
          | inr over ↦ rw over (λ e. cc)
          | inl on ↦ rw on (
              unless_exited-ends (system.try_wait child w) _ (
                poll_exit-ends n child start timeout (host.sleep (Processes.millis 200) w1)
                  (omega (arith, ticks.queries child w, ticks.sleeps (Processes.millis 200) w1))
                  (omega (arith, ticks.queries child w, ticks.sleeps (Processes.millis 200) w1))))
        ]
      where
        w1 : W
        w1 = (system.try_wait child w).1

    -- On a host whose clock moves on by the time slept and which a query of a child does not
    -- turn back, the loop of `wait_for_exit` ends by itself, with the exit, an error or the
    -- timeout, within two rounds more than the intervals of 200 ms in the timeout.
    pub poll_exit_total :
        (child timeout : ℕ) (w : W)
        → (Processes.poll_exit system host
            (Processes.rounds system host timeout (Processes.millis 200))
            child
            (host.now w)
            timeout
            w).0
          ≢ Processes.out_of_fuel
    poll_exit_total child timeout w =
        poll_exit-ends (suc (timeout / Processes.millis 200)) child (host.now w) timeout w
          (omega arith) (omega arith)

-- The machine is not tracked, and its devices are the last whose deletion was asked for.
abbrev pub Cleaned :
    {W : Type 0}
    → VmHandle
    → CloudHv.VmProcess
    → List Str
    → CloudHv.CloudHvDriver (Logged W)
    → Type 0
Cleaned h p before d = (lookup h.name d.vms ≡ none) × (d.world.deleted ≡ before ++ p.tap_devices)

-- A host beside the list of the TAP devices whose deletion it was asked for.
module _ {W : Type 0} (inner : CloudHv.System W) (outer : Processes.Processes W) where
  abbrev system : CloudHv.System (Logged W)
  system = logged_system inner

  abbrev host : Processes.Processes (Logged W)
  host = logged_host outer

  abbrev HasDeleted : List Str → Logged W → Type 0
  HasDeleted taps x = x.deleted ≡ taps

  only_taps : (taps : List Str) → Undisturbed system host (HasDeleted taps)
  only_taps taps = record {
    by_sleep = λ n x h. h;
    by_wait = λ child x h. h;
    by_signal = λ pid number x h. h;
    by_kill = λ child x h. h;
    by_reap = λ child x h. h;
  }

  deleted-cleanup_taps :
      (taps : List Str) (x : Logged W)
      → (Processes.cleanup_taps system host taps x).deleted ≡ x.deleted ++ taps
  unfolding Processes.cleanup_taps
  deleted-cleanup_taps [] x = simp append-nil
  deleted-cleanup_taps (tap ∷ taps) x =
      deleted-cleanup_taps taps (host.delete_tap tap x) ∙ append_assoc x.deleted (tap ∷ []) taps

  clean_up-HasDeleted :
      (p : CloudHv.VmProcess) (before : List Str) (x : Logged W)
      → HasDeleted before x
      → HasDeleted (before ++ p.tap_devices) (Stopping.clean_up system host p x)
  unfolding Stopping.clean_up
  clean_up-HasDeleted p before x h =
      cleanup_virtiofsd-Keeps system host (HasDeleted (before ++ p.tap_devices))
        (only_taps (before ++ p.tap_devices)) p.virtiofsd_children
        (Processes.cleanup_taps system host p.tap_devices x)
        (deleted-cleanup_taps p.tap_devices x ∙ ap (λ l. l ++ p.tap_devices) h)

  -- With a lock that is not poisoned, `stop` and `kill` of a tracked machine leave it untracked
  -- and have asked for the deletion of exactly its TAP devices, each once and in their order,
  -- whatever the signals, the waits and the sidecars do and however the call ends.
  pub stop_cleans :
      (h : VmHandle) (p : CloudHv.VmProcess) (d : CloudHv.CloudHvDriver (Logged W))
      → d.poisoned ≡ false
      → lookup h.name d.vms ≡ some p
      → Cleaned h p d.world.deleted (Stopping.stop system host h d).1
        × Cleaned h p d.world.deleted (Stopping.kill system host h d).1
  unfolding Stopping.stop Stopping.stop_tracked Stopping.kill Stopping.kill_tracked
  stop_cleans h p d unlocked tracked =
      rw (unlocked, tracked)
        (
          (
            untracked,
            clean_up-HasDeleted p d.world.deleted _ (
                wait_if_sent-Keeps system host (HasDeleted d.world.deleted)
                  (only_taps d.world.deleted) h p _ refl),
          ),
          (
            untracked,
            clean_up-HasDeleted p d.world.deleted _ (
                wait_for_exit-Keeps system host (HasDeleted d.world.deleted)
                  (only_taps d.world.deleted) p.child (Processes.millis 2000) _ refl),
          ),
        )
    where
      untracked : lookup h.name (remove h.name d.vms) ≡ none
      untracked = lookup-remove h.name h.name d.vms ∙ rw (str_eq_refl h.name) refl
