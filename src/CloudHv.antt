-- ===== src/CloudHv.antt =====
-- src/driver/cloud_hv.rs: the table of the machines that the Cloud Hypervisor driver tracks, `state`, and the
-- checks that a process identifier still means the machine's own process.
pub mod Identity
pub mod Reports
pub mod Processes
pub mod Stopping
pub mod Booting
pub mod Cleaning
pub mod Logged
pub mod Tracking
use vm_rs.Prelude.{ℕ, Bool, true, false, ◌&&◌, Option, none, some, List, [], ◌∷◌, ◌++◌, ◌^◌, ◌-◌}
use vm_rs.Prelude.Tests.{not, ◌==◌, if◌then◌else◌}
use vm_rs.Prelude.Text.{Str, codes, contains, after_last, word_at, parse_unsigned, decimal}
use vm_rs.Prelude.Map.{Map, lookup, insert, remove}
use vm_rs.Result.{
  Result, ok, err, IoError, VmError, io, state_failed, hypervisor, ◌>>=◌, ◌>>◌, refuse_if,
}
use vm_rs.Config.{VmmProcess, VmHandle, VmState, running, ready, stopped}
use vm_rs.Ready.{ReadyMarkerCache, Log, scan, check_ready_marker}

-- What the driver asks the system: a file as bytes and as text, whether a signal 0 can be sent, whether a
-- child has exited, and a log that is opened for the marker.
pub record System (W : Type 0) : Type 0 where
  pub read : Str → W → Result IoError (List ℕ)
  pub read_to_string : Str → W → Result IoError Str
  pub can_signal : ℕ → W → Bool
  pub try_wait : ℕ → W → Result IoError Bool × W
  pub open_log : Str → W → Result IoError Log
  pub from_utf8_lossy : List ℕ → Str

-- A child process is its identifier.
pub record VmProcess : Type 0 where
  pub identity : VmmProcess
  pub child : ℕ
  pub tap_devices : List Str
  pub virtiofsd_children : List ℕ
  pub ready : ReadyMarkerCache

pub record CloudHvDriver (W : Type 0) : Type 0 where
  pub world : W
  pub vms : Map VmProcess
  pub poisoned : Bool

abbrev pub lock_poisoned : VmError
lock_poisoned = hypervisor (codes "lock poisoned: poisoned lock: another task failed inside")

unfoldable pub proc_path : ℕ → Str → Str
proc_path pid file = codes "/proc/" ++ decimal pid ++ codes "/" ++ file

unfoldable pub start_time_field : Option Str → Option ℕ
start_time_field none = none
start_time_field (some field) = parse_unsigned (2 ^ 64 - 1) field

unfoldable pub start_time_in : Option Str → Option ℕ
unfolding start_time_field
start_time_in none = none
start_time_in (some after_comm) = start_time_field (word_at 19 after_comm)

unfoldable pub start_time_of : Result IoError Str → Option ℕ
unfolding start_time_in
start_time_of (err e) = none
start_time_of (ok stat) = start_time_in (after_last (codes ") ") stat)

unfoldable pub require_time : Option ℕ → VmError → Result VmError ℕ
require_time (some time) e = ok time
require_time none e = err e

unfoldable pub is_time : ℕ → Option ℕ → Bool
is_time expected none = false
is_time expected (some actual) = actual == expected

unfoldable pub same_start : Option ℕ → Option ℕ → Bool
unfolding is_time
same_start none actual = true
same_start (some expected) actual = is_time expected actual

module _ {W : Type 0} (system : System W) where
  unfoldable pub read_proc_start_time : ℕ → W → Option ℕ
  unfolding start_time_of
  read_proc_start_time pid w =
      start_time_of (system.read_to_string (proc_path pid (codes "stat")) w)

  unfoldable pub pid_exists : VmmProcess → W → Bool
  unfolding same_start read_proc_start_time
  pid_exists process w =
      if not (system.can_signal process.pid w)
      then false
      else same_start process.start_time_ticks (read_proc_start_time process.pid w)

  unfoldable pub inspected : VmmProcess → Str → Result IoError (List ℕ) → Result VmError Str
  inspected process vm_name (ok bytes) = ok (system.from_utf8_lossy bytes)
  inspected process vm_name (err e) = err (
      state_failed vm_name
        (codes "unable to inspect PID " ++ decimal process.pid ++ codes ": " ++ e.message))

  unfoldable pub check_start : VmmProcess → Str → Option ℕ → Option ℕ → Result VmError (Unit {0})
  unfolding require_time
  check_start process vm_name none actual = ok tt
  check_start process vm_name (some expected) actual = do
    time ←
        require_time actual
          (state_failed vm_name (codes "unable to read start time for PID " ++ decimal process.pid))
    refuse_if (not (time == expected)) (
        state_failed vm_name
          (codes "PID " ++ decimal process.pid ++ codes " has been reused by a different process"))

  unfoldable pub validate_cloud_hypervisor_process :
      VmmProcess → Str → W → Result VmError (Unit {0})
  unfolding inspected check_start read_proc_start_time
  validate_cloud_hypervisor_process process vm_name w = do
    cmdline ← inspected process vm_name (system.read (proc_path process.pid (codes "cmdline")) w)
    check_start process vm_name process.start_time_ticks (read_proc_start_time process.pid w)
    refuse_if (not (contains cmdline (codes "cloud-hypervisor"))) (
        state_failed vm_name
          (codes "PID " ++ decimal process.pid ++ codes " is not a cloud-hypervisor process"))

  unfoldable pub process_identity : ℕ → Str → W → Result VmError VmmProcess
  unfolding require_time read_proc_start_time
  process_identity pid vm_name w = do
    time ←
        require_time (read_proc_start_time pid w)
          (state_failed vm_name (codes "unable to read start time for PID " ++ decimal pid))
    ok (record { pid = pid; start_time_ticks = some time })

  unfoldable pub ready_or_running : Option Str → VmState
  ready_or_running (some ip) = ready ip
  ready_or_running none = running

  unfoldable pub is_ok : Result VmError (Unit {0}) → Bool
  is_ok (ok _) = true
  is_ok (err e) = false

  unfoldable pub log_text : Str → W → Result IoError Str
  log_text path w = system.read_to_string path w

  -- `state` of a machine that is not in the table, from the process that its handle names.
  unfoldable pub state_of_restored : VmHandle → Option VmmProcess → W → VmState
  unfolding is_ok ready_or_running log_text pid_exists validate_cloud_hypervisor_process
  state_of_restored handle none w = stopped
  state_of_restored handle (some process) w =
      if not (is_ok (validate_cloud_hypervisor_process process handle.name w))
      then stopped
      else if not (pid_exists process w)
      then stopped
      else ready_or_running (check_ready_marker (log_text handle.serial_log w))

  -- The scan of a tracked machine's log, with the cache that it leaves in the table.
  unfoldable pub state_of_alive :
      VmHandle → VmProcess → CloudHvDriver W → Result VmError VmState × CloudHvDriver W
  unfolding ready_or_running
  state_of_alive handle process d =
      let (found, cache) =
        scan system.from_utf8_lossy process.ready (system.open_log handle.serial_log d.world) in
      (
        ok (ready_or_running found),
        record d { vms = insert handle.name (record process { ready = cache }) d.vms },
      )

  unfoldable pub state_of_child :
      VmHandle
      → VmProcess
      → Result IoError Bool × W
      → CloudHvDriver W
      → Result VmError VmState × CloudHvDriver W
  unfolding state_of_alive
  state_of_child handle process (err e, w) d = (err (io e), record d { world = w })
  state_of_child handle process (ok true, w) d =
      (ok stopped, record d { world = w; vms = remove handle.name d.vms })
  state_of_child handle process (ok false, w) d =
      state_of_alive handle process (record d { world = w })

  unfoldable pub state_of_entry :
      VmHandle → Option VmProcess → CloudHvDriver W → Result VmError VmState × CloudHvDriver W
  unfolding state_of_restored state_of_child
  state_of_entry handle none d = (ok (state_of_restored handle handle.process d.world), d)
  state_of_entry handle (some process) d =
      state_of_child handle process (system.try_wait process.child d.world) d

  unfoldable pub state : VmHandle → CloudHvDriver W → Result VmError VmState × CloudHvDriver W
  unfolding state_of_entry
  state handle d =
      if d.poisoned
      then (err lock_poisoned, d)
      else state_of_entry handle (lookup handle.name d.vms) d
