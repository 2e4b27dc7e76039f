-- ===== src/CloudHv/Reports.antt =====
-- What `CloudHvDriver::state` (src/driver/cloud_hv.rs) reports, and what it does to the table.
use vm_rs.Prelude.{ℕ, ◌≡◌, ◌≢◌, refl, inl, inr, Bool, true, false, Option, none, some, List}
use vm_rs.Prelude.Tests.{Bool-cases}
use vm_rs.Prelude.Text.{Str, str_eq, str_eq_iff, str_eq_refl}
use vm_rs.Prelude.Map.{lookup, lookup-insert, lookup-remove}
use vm_rs.Result.{Result, ok, err, IoError}
use vm_rs.Config.{VmHandle, stopped, ready}
use vm_rs.Ready
use vm_rs.CloudHv

scan-cached :
    (decode : List ℕ → Str) (c : Ready.ReadyMarkerCache) (opened : Result IoError Ready.Log)
    (ip : Str)
    → c.ready_ip ≡ some ip
    → Ready.scan decode c opened ≡ (some ip, c)
unfolding Ready.scan Ready.scan_from
scan-cached decode c opened ip h = go c.ready_ip h
  where
    go : (o : Option Str) → o ≡ some ip → Ready.scan_from decode o c opened ≡ (some ip, c)
    go none e = cc
    go (some a) e = cc

module _ {W : Type 0} (system : CloudHv.System W) where
  -- A query about one machine leaves the driver's entry of every other name as it was.
  pub state-other :
      (h : VmHandle) (d : CloudHv.CloudHvDriver W) (j : Str)
      → h.name ≢ j
      → lookup j (CloudHv.state system h d).1.vms ≡ lookup j d.vms
  unfolding CloudHv.state
  state-other h d j other = elim (Bool-cases d.poisoned) [
    | inl locked ↦ simp locked refl
    | inr unlocked ↦ simp unlocked (entry (lookup h.name d.vms))
  ]
    where
      apart : str_eq h.name j ≡ false
      apart = elim (Bool-cases (str_eq h.name j)) [
        | inl same ↦ absurd (other ((str_eq_iff h.name j).0 same))
        | inr no' ↦ no'
      ]

      entry :
          (o : Option CloudHv.VmProcess)
          → lookup j (CloudHv.state_of_entry system h o d).1.vms ≡ lookup j d.vms
      entry none = refl
      entry (some p) =
          child p (system.try_wait p.child d.world).0 (system.try_wait p.child d.world).1
        where
          child :
              (p : CloudHv.VmProcess) (r : Result IoError Bool) (w : W)
              → lookup j (CloudHv.state_of_child system h p (r, w) d).1.vms ≡ lookup j d.vms
          child p (err e) w = refl
          child p (ok true) w = rw (lookup-remove, apart) refl
          child p (ok false) w = rw (lookup-insert, apart) refl

  -- With a lock that is not poisoned: a tracked machine whose process has exited is reported as
  -- stopped and is no longer tracked.
  pub exited_child :
      (h : VmHandle) (p : CloudHv.VmProcess) (d : CloudHv.CloudHvDriver W)
      → d.poisoned ≡ false
      → lookup h.name d.vms ≡ some p
      → (system.try_wait p.child d.world).0 ≡ ok true
      → ((CloudHv.state system h d).0 ≡ ok stopped)
        × (lookup h.name (CloudHv.state system h d).1.vms ≡ none)
  unfolding CloudHv.state
  exited_child h p d unlocked tracked exited =
      rw (unlocked, tracked, exited) (refl, rw (lookup-remove, str_eq_refl h.name) refl)

  -- With a lock that is not poisoned: a tracked machine whose readiness is cached is reported
  -- ready at the cached address as long as its process has not exited, whatever is in its log,
  -- and its entry stays as it is.
  pub stays_ready :
      (h : VmHandle) (p : CloudHv.VmProcess) (d : CloudHv.CloudHvDriver W) (ip : Str)
      → d.poisoned ≡ false
      → lookup h.name d.vms ≡ some p
      → p.ready.ready_ip ≡ some ip
      → (system.try_wait p.child d.world).0 ≡ ok false
      → ((CloudHv.state system h d).0 ≡ ok (ready ip))
        × (lookup h.name (CloudHv.state system h d).1.vms ≡ some p)
  unfolding CloudHv.state
  stays_ready h p d ip unlocked tracked cached alive =
      rw (unlocked, tracked, alive) (rw keeps (refl, rw (lookup-insert, str_eq_refl h.name) refl))
    where
      keeps :
          Ready.scan system.from_utf8_lossy p.ready
            (system.open_log h.serial_log (system.try_wait p.child d.world).1)
          ≡ (some ip, p.ready)
      keeps = scan-cached system.from_utf8_lossy p.ready _ ip cached
