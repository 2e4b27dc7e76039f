-- ===== src/CloudHv/Tracking.antt =====
-- src/driver/cloud_hv.rs: what `boot` does to the table of machines, and the driver under a `VmManager`.
use vm_rs.Prelude.{ℕ, ◌≡◌, refl, sym, ap, ◌∙◌, inl, inr, none, some, List, []}
use mathlib.Core.Path.{subst}
use vm_rs.Prelude.Tests.{Bool-cases, if◌then◌else◌}
use vm_rs.Prelude.Text.{Str, str_eq}
use vm_rs.Prelude.Map.{lookup, lookup-insert}
use vm_rs.Result.{Result, ok, err, VmError, Result-cases}
use vm_rs.Exec.Rules.{>>=-ok}
use vm_rs.Config.{VmmProcess, VmConfig, VmHandle}
use vm_rs.Driver.{Host, NamesHandles}
use vm_rs.Manager.{Manager}
use vm_rs.Manager.Calls.{Call, after_all, IsKeyed, after_all-IsKeyed}
use vm_rs.CloudHv
use vm_rs.CloudHv.Processes
use vm_rs.CloudHv.Stopping
use vm_rs.CloudHv.Booting

module _ {W : Type 0} (system : CloudHv.System W) (host : Processes.Processes W) where
  -- The machine of the handle is in the table, and the other entries are as they were.
  abbrev pub Tracks :
      VmConfig → VmHandle → CloudHv.CloudHvDriver W → CloudHv.CloudHvDriver W → Type 0
  Tracks c h before after =
      (h.name ≡ c.name)
      × ((p : CloudHv.VmProcess) × (h.process ≡ some p.identity)
          × ((j : Str)
              → lookup j after.vms ≡ (if str_eq c.name j then some p else lookup j before.vms)))

  track_ok :
      (c : VmConfig) (started : VmmProcess × List Str × List ℕ) (before d : CloudHv.CloudHvDriver W)
      (h : VmHandle)
      → d.vms ≡ before.vms
      → (Booting.track system host c started d).0 ≡ ok h
      → Tracks c h before (Booting.track system host c started d).1
  unfolding Booting.track
  track_ok c started before d h same e = elim (Bool-cases d.poisoned) [
    | inl locked ↦ absurd (clash (rw locked at e))
    | inr unlocked ↦
        let made = unok (rw unlocked at e) in
        rw unlocked (
          sym (ap (λ x. x.name) made),
          (
            entry,
            sym (ap (λ x. x.process) made),
            λ j.
                lookup-insert c.name j entry d.vms
                ∙ ap (λ vms. if str_eq c.name j then some entry else lookup j vms) same,
          ),
        )
  ]
    where
      clash : {x : VmError} → Path (Result VmError VmHandle) (err x) (ok h) → ⊥
      clash e' = cc

      unok : {made : VmHandle} → Path (Result VmError VmHandle) (ok made) (ok h) → made ≡ h
      unok e' = cc

      entry : CloudHv.VmProcess
      entry = record {
        identity = started.0;
        child = started.0.pid;
        tap_devices = started.1;
        virtiofsd_children = started.2;
        ready = record { ready_ip = none; scan_offset = 0; tail = [] };
      }

  track_err :
      (c : VmConfig) (started : VmmProcess × List Str × List ℕ) (d : CloudHv.CloudHvDriver W)
      (e : VmError)
      → (Booting.track system host c started d).0 ≡ err e
      → (Booting.track system host c started d).1.vms ≡ d.vms
  unfolding Booting.track
  track_err c started d e h = elim (Bool-cases d.poisoned) [
    | inl locked ↦ rw locked refl
    | inr unlocked ↦ absurd (clash (rw unlocked at h))
  ]
    where
      clash : {x : VmHandle} → Path (Result VmError VmHandle) (ok x) (err e) → ⊥
      clash e' = cc

  -- A `boot` that returns a handle has tracked, under the name of the configuration, a machine
  -- with the process of that handle; the handle has the name of the configuration, and every
  -- other entry of the table is as before.
  pub boot_ok :
      (c : VmConfig) (d : CloudHv.CloudHvDriver W) (h : VmHandle)
      → (Booting.boot system host c d).0 ≡ ok h
      → Tracks c h d (Booting.boot system host c d).1
  unfolding Booting.boot
  boot_ok c d h e =
      let (started, _, e1, after) =
        >>=-ok (Stopping.on_host system host (Booting.boot_machine system host c))
          (Booting.track system host c) d e in
      subst (λ (x : Result VmError VmHandle × CloudHv.CloudHvDriver W). Tracks c h d x.1)
        (sym after) (track_ok c started d _ h refl e1)

  -- A `boot` that returns an error leaves the table of machines as it was.
  pub boot_err :
      (c : VmConfig) (d : CloudHv.CloudHvDriver W) (e : VmError)
      → (Booting.boot system host c d).0 ≡ err e
      → (Booting.boot system host c d).1.vms ≡ d.vms
  unfolding Booting.boot
  boot_err c d e h = elim (Result-cases (Booting.boot_machine system host c d.world).0) [
    | inr (x, failed) ↦ rw failed refl
    | inl (started, booted) ↦ rw booted (
        track_err c started (record d { world = (Booting.boot_machine system host c d.world).1 }) e
          (rw booted at h))
  ]

  names_handles : NamesHandles (Booting.cloud_hv_driver system host)
  unfolding Booting.cloud_hv_driver
  names_handles = record { at = λ c d h e. (boot_ok c d h e).0 }

  -- A manager over the Cloud Hypervisor driver keeps each handle under its own name through any
  -- calls, with nothing assumed of the driver.
  pub managed-IsKeyed :
      (manager_host : Host (CloudHv.CloudHvDriver W)) (calls : List Call)
      (s : Manager (CloudHv.CloudHvDriver W))
      → IsKeyed s
      → IsKeyed (after_all (Booting.cloud_hv_driver system host) manager_host calls s)
  managed-IsKeyed manager_host calls s =
      after_all-IsKeyed (Booting.cloud_hv_driver system host) manager_host names_handles calls s
