-- ===== src/Examples/Processes.antt =====
-- A system with one process, for src/driver/cloud_hv.rs.
use vm_rs.Prelude.{
  ℕ, ◌≡◌, ◌≢◌, refl, sym, ap, ◌∙◌, ◌↔◌, Bool, true, false, Option, none, some, List, [], ◌∷◌, ◌++◌,
  arith,
}
use vm_rs.Prelude.Text.{Str, codes, contains}
use vm_rs.Prelude.Map.{lookup}
use vm_rs.Result.{ok}
use vm_rs.Config.{VmmProcess, VmHandle, running, stopped}
use vm_rs.CloudHv
use vm_rs.CloudHv.Identity.{validate_process_iff, reused_pid}

-- The process started at tick 77. The world says whether the child has exited.
abbrev system : CloudHv.System Bool
system = record {
  read = λ path w. ok (codes "/usr/bin/cloud-hypervisor");
  read_to_string = λ path w. ok (codes "42 (ch v) S 1 1 1 0 0 0 0 0 0 0 0 0 0 0 0 0 0 0 77 0");
  can_signal = λ pid w. true;
  try_wait = λ child w. (ok w, w);
  open_log = λ path w. ok (record { metadata = ok 0; seek = λ n. ok tt; read_to_end = λ n. ok [] });
  from_utf8_lossy = λ bytes. bytes;
}

abbrev process : VmmProcess
process = record { pid = 42; start_time_ticks = some 77 }

abbrev older : VmmProcess
older = record { pid = 42; start_time_ticks = some 5 }

abbrev handle : VmmProcess → VmHandle
handle p = record {
  name = codes "web";
  namespace = codes "dev";
  state = running;
  process = some p;
  serial_log = codes "/var/log/serial";
  machine_id = none;
}

abbrev tracked : CloudHv.VmProcess
tracked = record {
  identity = process;
  child = 42;
  tap_devices = [];
  virtiofsd_children = [];
  ready = record { ready_ip = some (codes "10.0.0.2"); scan_offset = 9; tail = [] };
}

abbrev restored : CloudHv.CloudHvDriver Bool
restored = record { world = false; vms = []; poisoned = false }

abbrev driver : Bool → CloudHv.CloudHvDriver Bool
driver exited = record {
  world = exited;
  vms = (codes "web", tracked) ∷ (codes "db", tracked) ∷ [];
  poisoned = false;
}

abbrev or_zero : Option ℕ → ℕ
or_zero none = 0
or_zero (some n) = n

validate_process_iff_example :
    (CloudHv.validate_cloud_hypervisor_process system process (codes "web") false ≡ ok tt) ↔ (
      (bytes : List ℕ) × (system.read (CloudHv.proc_path 42 (codes "cmdline")) false ≡ ok bytes)
      × (CloudHv.same_start (some 77) (CloudHv.read_proc_start_time system 42 false) ≡ true)
      × (contains (system.from_utf8_lossy bytes) (codes "cloud-hypervisor") ≡ true))
validate_process_iff_example = validate_process_iff system process (codes "web") false

start_time : CloudHv.read_proc_start_time system 42 false ≡ some 77
unfolding CloudHv.read_proc_start_time vm_rs.Prelude.Text.after_last vm_rs.Prelude.Text.word_at
    vm_rs.Prelude.Text.parse_unsigned
start_time = refl

other_time : CloudHv.read_proc_start_time system 42 false ≢ some 5
other_time e =
    let clash : some 77 ≡ some 5 = sym start_time ∙ e in absurd (omega (arith, ap (or_zero) clash))

reused_pid_example : CloudHv.state system (handle older) restored ≡ (ok stopped, restored)
unfolding lookup
reused_pid_example =
    reused_pid system (handle older) older 5 restored refl refl refl refl other_time
