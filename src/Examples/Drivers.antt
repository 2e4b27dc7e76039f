-- ===== src/Examples/Drivers.antt =====
-- A host whose state is its clock, for the processes of src/driver/cloud_hv.rs.
use vm_rs.Prelude.{
  ◌⊎◌, ℕ, suc, ◌+◌, ◌≡◌, ◌≢◌, ◌≤◌, refl, Bool, true, false, Option, none, some, List, [], ◌∷◌, ◌++◌,
  arith,
}
use vm_rs.Prelude.Text.{Str, codes, decimal}
use vm_rs.Prelude.Map.{lookup}
use vm_rs.Result.{ok, err, IoError}
use vm_rs.Config.{VmConfig, VmHandle, running, starting, tap}
use vm_rs.Driver.{Host}
use vm_rs.Manager
use vm_rs.Manager.Calls.{Call, after_all, IsKeyed}
use vm_rs.CloudHv
use vm_rs.CloudHv.Processes
use vm_rs.CloudHv.Stopping
use vm_rs.CloudHv.Booting
use vm_rs.CloudHv.Cleaning.{
  Ticks, Cleaned, IsOwn, IsRefused, stop_cleans, spares_other_processes, poll_exit_total,
}
use vm_rs.CloudHv.Logged.{Logged, logged_system, logged_host}
use vm_rs.CloudHv.Tracking.{Tracks, boot_ok, managed-IsKeyed}

abbrev denied : IoError
denied = record { not_found = false; message = codes "denied" }

abbrev system : CloudHv.System ℕ
system = record {
  read = λ path w. err denied;
  read_to_string = λ path w. ok (codes "42 (ch v) S 1 1 1 0 0 0 0 0 0 0 0 0 0 0 0 0 0 0 77 0");
  can_signal = λ pid w. true;
  try_wait = λ child w. (ok false, w);
  open_log = λ path w. ok (record { metadata = ok 0; seek = λ n. ok tt; read_to_end = λ n. ok [] });
  from_utf8_lossy = λ bytes. bytes;
}

abbrev host : Processes.Processes ℕ
host = record {
  now = λ w. w;
  sleep = λ n w. w + n;
  signal = λ pid number w. (ok tt, w);
  child_kill = λ child w. (ok tt, w);
  child_wait = λ child w. (ok tt, w);
  exit_status = λ child w. codes "exit status: 1";
  delete_tap = λ tap w. suc w;
  remove_file = λ path w. w;
  probe = λ program w. (true, w);
  exists = λ path w. true;
  create_log = λ path w. (ok tt, w);
  clone_log = λ w. (ok tt, w);
  spawn = λ program args w. (ok 42, w);
  sha256_prefix = λ text. (codes "ab", codes "cd", codes "ef");
}

-- A tracked machine with one TAP device, and its handle.
abbrev tracked : CloudHv.VmProcess
tracked = record {
  identity = record { pid = 42; start_time_ticks = some 77 };
  child = 42;
  tap_devices = codes "tap0" ∷ [];
  virtiofsd_children = [];
  ready = record { ready_ip = none; scan_offset = 0; tail = [] };
}

abbrev handle : VmHandle
handle = record {
  name = codes "web";
  namespace = codes "dev";
  state = running;
  process = some (record { pid = 42; start_time_ticks = some 77 });
  serial_log = codes "/log";
  machine_id = none;
}

abbrev driver : CloudHv.CloudHvDriver ℕ
driver = record { world = 0; vms = (codes "web", tracked) ∷ []; poisoned = false }

abbrev restored : CloudHv.CloudHvDriver ℕ
restored = record { world = 0; vms = []; poisoned = false }

abbrev logged : CloudHv.CloudHvDriver (Logged ℕ)
logged = record {
  world = record { world = 0; deleted = [] };
  vms = (codes "web", tracked) ∷ [];
  poisoned = false;
}

stop_cleans_example :
    Cleaned handle tracked []
      (Stopping.stop (logged_system system) (logged_host host) handle logged).1
    × Cleaned handle tracked []
        (Stopping.kill (logged_system system) (logged_host host) handle logged).1
unfolding lookup vm_rs.Prelude.Text.str_eq
stop_cleans_example = stop_cleans system host handle tracked logged refl refl

spares_other_processes_example :
    (IsOwn system host handle.process 0
      ⊎ IsRefused system host (Stopping.stop system host handle restored) restored)
    × (IsOwn system host handle.process 0
        ⊎ IsRefused system host (Stopping.kill system host handle restored) restored)
unfolding lookup
spares_other_processes_example = spares_other_processes system host handle restored refl

ticks : Ticks system host
ticks = record { sleeps = λ n w. omega arith; queries = λ child w. omega arith }

poll_exit_total_example :
    (Processes.poll_exit system host 52 42 7 10000000000 7).0 ≢ Processes.out_of_fuel
poll_exit_total_example = poll_exit_total system host ticks 42 10000000000 7

abbrev config : VmConfig
config = record {
  name = codes "web";
  namespace = codes "dev";
  kernel = codes "/boot/vmlinuz";
  initramfs = none;
  root_disk = some (codes "/d");
  data_disk = none;
  seed_iso = none;
  cpus = 2;
  memory_mb = 512;
  networks = tap (codes "tap0") none ∷ [];
  shared_dirs = [];
  serial_log = codes "/l/serial";
  cmdline = none;
  netns = none;
  vsock = false;
  machine_id = none;
  efi_variable_store = none;
  rosetta = false;
}

abbrev booted : VmHandle
booted = record {
  name = codes "web";
  namespace = codes "dev";
  state = starting;
  process = some (record { pid = 42; start_time_ticks = some 77 });
  serial_log = codes "/l/serial";
  machine_id = none;
}

boot_ok_example :
    Tracks system host config booted restored (Booting.boot system host config restored).1
unfolding Booting.boot vm_rs.Prelude.Text.after_last vm_rs.Prelude.Text.word_at
    vm_rs.Prelude.Text.parse_unsigned
boot_ok_example = boot_ok system host config restored booted refl

-- Nothing is installed.
abbrev bare : Processes.Processes ℕ
bare = record host { probe = λ program w. (false, w); exists = λ path w. false }

abbrev manager : Manager.Manager (CloudHv.CloudHvDriver ℕ)
manager = record { world = restored; vms = []; poisoned = false; base_dir = codes "/vms" }

abbrev files : Host (CloudHv.CloudHvDriver ℕ)
files = record { create_dir_all = λ path w. (ok tt, w); now = λ w. 0; sleep = λ n w. w }

managed-IsKeyed_example : IsKeyed (
    after_all
      (Booting.cloud_hv_driver system host)
      files
      (Call.start config ∷ Call.stop (codes "web") ∷ [])
      manager)
unfolding lookup
managed-IsKeyed_example =
    managed-IsKeyed system host files (Call.start config ∷ Call.stop (codes "web") ∷ []) manager
      (record { at = λ j h e. cc })
