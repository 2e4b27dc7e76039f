-- ===== src/CloudHv/Stopping.antt =====
-- `stop` and `kill` of src/driver/cloud_hv.rs.
use vm_rs.Prelude.{ℕ, Option, none, some, ◌++◌}
use vm_rs.Prelude.Tests.{if◌then◌else◌}
use vm_rs.Prelude.Text.{Str, codes, decimal}
use vm_rs.Prelude.Map.{lookup, remove}
use vm_rs.Result.{Result, ok, err, IoError, VmError, not_found, stop_failed, map_err}
use vm_rs.Exec.{Exec, raise, ◌>>◌}
use vm_rs.Config.{VmmProcess, VmHandle}
use vm_rs.CloudHv.{
  System, VmProcess, CloudHvDriver, lock_poisoned, validate_cloud_hypervisor_process,
}
use vm_rs.CloudHv.Processes.{
  Processes, sigterm, sigkill, millis, wait_for_exit, wait_for_pid_exit, cleanup_virtiofsd,
  cleanup_taps,
}

module _ {W : Type 0} (system : System W) (host : Processes W) where
  -- The host acts while the table stays.
  abbrev pub on_host : {A : Type 0} → Exec W VmError A → Exec (CloudHvDriver W) VmError A
  on_host act d = let after = act d.world in (after.0, record d { world = after.1 })

  unfoldable pub stop_error : VmHandle → Str → ℕ → Str → VmError
  stop_error handle what pid detail =
      stop_failed handle.name (what ++ decimal pid ++ codes ": " ++ detail)

  unfoldable pub not_clean : VmHandle → ℕ → IoError → VmError
  not_clean handle pid e =
      stop_failed handle.name (
        codes "cloud-hypervisor PID "
        ++ decimal pid
        ++ codes " did not exit cleanly: "
        ++ e.message)

  -- A signal that fails is only logged: the process may be gone already.
  unfoldable pub wait_if_sent :
      VmHandle → VmProcess → Result Str (Unit {0}) × W → Result VmError (Unit {0}) × W
  unfolding wait_for_exit not_clean
  wait_if_sent handle process (err errno, w) = (ok tt, w)
  wait_if_sent handle process (ok _, w) =
      let after = wait_for_exit system host process.child (millis 10000) w in
      (map_err (not_clean handle process.identity.pid) after.0, after.1)

  unfoldable pub clean_up : VmProcess → W → W
  unfolding cleanup_taps cleanup_virtiofsd
  clean_up process w =
      cleanup_virtiofsd system host process.virtiofsd_children
        (cleanup_taps system host process.tap_devices w)

  unfoldable pub stop_tracked : VmHandle → VmProcess → Exec W VmError (Unit {0})
  unfolding wait_if_sent clean_up
  stop_tracked handle process w =
      let after = wait_if_sent handle process (host.signal process.identity.pid sigterm w) in
      (after.0, clean_up process after.1)

  abbrev pub send : VmHandle → Str → ℕ → VmmProcess → Exec W VmError (Unit {0})
  send handle what number process w =
      let after = host.signal process.pid number w in
      (map_err (stop_error handle what process.pid) after.0, after.1)

  unfoldable pub stop_restored : VmHandle → VmmProcess → Exec W VmError (Unit {0})
  unfolding validate_cloud_hypervisor_process stop_error wait_for_pid_exit
  stop_restored handle process = do
    λ w. (validate_cloud_hypervisor_process system process handle.name w, w)
    send handle (codes "failed to send SIGTERM to restored VM PID ") sigterm process
    wait_for_pid_exit system host process handle.name (millis 10000)

  unfoldable pub stop_named : VmHandle → Option VmmProcess → Exec W VmError (Unit {0})
  unfolding stop_restored
  stop_named handle (some process) = stop_restored handle process
  stop_named handle none = raise (not_found handle.name)

  abbrev pub stop_entry : VmHandle → Option VmProcess → Exec (CloudHvDriver W) VmError (Unit {0})
  stop_entry handle (some process) d =
      on_host (stop_tracked handle process) (record d { vms = remove handle.name d.vms })
  stop_entry handle none d = on_host (stop_named handle handle.process) d

  unfoldable pub stop : VmHandle → Exec (CloudHvDriver W) VmError (Unit {0})
  unfolding stop_tracked stop_named remove lookup
  stop handle d =
      if d.poisoned then (err lock_poisoned, d) else stop_entry handle (lookup handle.name d.vms) d

  abbrev pub both :
      Result VmError (Unit {0}) → Result VmError (Unit {0}) → Result VmError (Unit {0})
  both (ok _) second = second
  both (err e) second = err e

  -- The child is killed and reaped, and everything is cleaned up, before an error is returned.
  unfoldable pub kill_tracked : VmHandle → VmProcess → Exec W VmError (Unit {0})
  unfolding stop_error wait_for_exit clean_up
  kill_tracked handle process w =
      let killed = host.child_kill process.child w in
      let waited = wait_for_exit system host process.child (millis 2000) killed.1 in
      (
        both
            (map_err
              (λ (e : IoError).
                stop_error handle (codes "failed to SIGKILL child PID ") process.identity.pid
                  e.message)
              killed.0)
            (map_err
              (λ (e : IoError).
                stop_error handle (codes "failed to reap killed VM PID ") process.identity.pid
                  e.message)
              waited.0),
        clean_up process waited.1,
      )

  unfoldable pub kill_restored : VmHandle → VmmProcess → Exec W VmError (Unit {0})
  unfolding validate_cloud_hypervisor_process stop_error
  kill_restored handle process = do
    λ w. (validate_cloud_hypervisor_process system process handle.name w, w)
    send handle (codes "failed to SIGKILL restored VM PID ") sigkill process

  unfoldable pub kill_named : VmHandle → Option VmmProcess → Exec W VmError (Unit {0})
  unfolding kill_restored
  kill_named handle (some process) = kill_restored handle process
  kill_named handle none = raise (not_found handle.name)

  abbrev pub kill_entry : VmHandle → Option VmProcess → Exec (CloudHvDriver W) VmError (Unit {0})
  kill_entry handle (some process) d =
      on_host (kill_tracked handle process) (record d { vms = remove handle.name d.vms })
  kill_entry handle none d = on_host (kill_named handle handle.process) d

  unfoldable pub kill : VmHandle → Exec (CloudHvDriver W) VmError (Unit {0})
  unfolding kill_tracked kill_named remove lookup
  kill handle d =
      if d.poisoned then (err lock_poisoned, d) else kill_entry handle (lookup handle.name d.vms) d
