-- ===== src/Examples/Machines.antt =====
-- A configuration, a driver and a host for src/config.rs and src/vm/manager.rs, and runs on them.
use vm_rs.Prelude.{
  ℕ, zero, suc, ◌+◌, ◌≤◌, ◌≡◌, ◌≢◌, refl, ◌↔◌, inl, inr, ◌⊎◌, Bool, true, false, Option, none, some,
  List, [], ◌∷◌, ◌++◌, arith,
}
use vm_rs.Prelude.Lists.{All}
use vm_rs.Prelude.Text.{Str, codes}
use vm_rs.Prelude.Map.{lookup, insert}
use vm_rs.Paths.{join, with_slash}
use vm_rs.Result.{Result, ok, err, VmError, boot_failed}
use vm_rs.Config.{
  VmConfig, VmHandle, VmState, starting, running, ready, stopped, validate, display, is_ready, ip,
}
use vm_rs.Config.Validation.{IsValid, validate_iff, vm_dir_of_valid}
use vm_rs.Driver.{VmDriver, Host, NamesHandles}
use vm_rs.Manager
use vm_rs.Manager.Start.{IsFree, Accepted, reserved, start_ok, start_err, start_cases, restart}
use vm_rs.Manager.Calls.{
  Call, after, after_all, fixed_part, IsKeyed, after-frame, after_all-IsKeyed,
}
use vm_rs.Manager.Waiting.{Ticks, wait_all_ready_ok, wait_all_ready_total}

abbrev named : Str → VmConfig
named name = record {
  name = name;
  namespace = codes "dev";
  kernel = codes "/boot/vmlinuz";
  initramfs = none;
  root_disk = none;
  data_disk = none;
  seed_iso = none;
  cpus = 2;
  memory_mb = 512;
  networks = [];
  shared_dirs = [];
  serial_log = codes "/var/log/serial";
  cmdline = none;
  netns = none;
  vsock = false;
  machine_id = none;
  efi_variable_store = none;
  rosetta = false;
}

abbrev web : VmConfig
web = named (codes "web")

abbrev db : VmConfig
db = named (codes "db")

-- The world is a clock in nanoseconds. Machines boot at once, and a query finds them ready.
abbrev handle_of : VmConfig → VmHandle
handle_of c = record {
  name = c.name;
  namespace = c.namespace;
  state = running;
  process = none;
  serial_log = c.serial_log;
  machine_id = none;
}

abbrev driver : VmDriver ℕ
driver = record {
  boot = λ c w. (ok (handle_of c), w);
  stop = λ h w. (ok tt, w);
  kill = λ h w. (ok tt, w);
  state = λ h w. (ok (ready (codes "10.0.0.2")), w);
  pause = λ h w. (ok tt, w);
  resume = λ h w. (ok tt, w);
}

abbrev host : Host ℕ
host = record { create_dir_all = λ path w. (ok tt, w); now = λ w. w; sleep = λ n w. w + n }

abbrev empty : Manager.Manager ℕ
empty = record { world = 0; vms = []; poisoned = false; base_dir = codes "/vms" }

abbrev one : Manager.Manager ℕ
one = record {
  world = 0;
  vms = (codes "web", handle_of web) ∷ [];
  poisoned = false;
  base_dir = codes "/vms";
}

abbrev one_ready : Manager.Manager ℕ
one_ready = record {
  world = 0;
  vms = (codes "web", record (handle_of web) { state = ready (codes "10.0.0.2") }) ∷ [];
  poisoned = false;
  base_dir = codes "/vms";
}

web_accepted : validate web ≡ ok tt
unfolding validate vm_rs.Prelude.Text.is_empty vm_rs.Prelude.Text.len vm_rs.Prelude.Lists.all
    vm_rs.Config.is_name_char vm_rs.Prelude.Text.starts_with
web_accepted = refl

named_by_driver : NamesHandles driver
named_by_driver = record { at = λ c w h e. cc }

ticking : Ticks driver host
ticking = record { sleeps = λ n w. omega arith; queries = λ h w. omega arith }

empty-IsKeyed : IsKeyed empty
unfolding lookup
empty-IsKeyed = record { at = λ j h e. cc }

validate_iff_example : (validate web ≡ ok tt) ↔ IsValid web
validate_iff_example = validate_iff web

vm_dir_of_valid_example :
    (join (codes "/vms") (codes "web") ≡ with_slash (codes "/vms") ++ codes "web")
    × All (λ x. x ≢ b'/') (codes "web")
    × (codes "web" ≢ codes ".")
    × (codes "web" ≢ codes "..")
vm_dir_of_valid_example = vm_dir_of_valid (codes "/vms") web web_accepted

start_ok_example :
    (lookup (codes "web") (Manager.start driver host web empty).1.vms ≡ some (handle_of web))
    × (validate web ≡ ok tt)
    × IsFree (lookup (codes "web") empty.vms)
unfolding Manager.start validate vm_rs.Prelude.Text.is_empty vm_rs.Prelude.Text.len
    vm_rs.Prelude.Lists.all vm_rs.Config.is_name_char vm_rs.Prelude.Text.starts_with Manager.reserve
    Manager.check_free lookup Manager.boot_reserved
start_ok_example = start_ok driver host web empty (handle_of web) refl

start_err_example :
    ((Manager.start driver host web one).1.vms ≡ one.vms)
    ⊎ (lookup (codes "web") (Manager.start driver host web one).1.vms ≡ none)
unfolding Manager.start validate vm_rs.Prelude.Text.is_empty vm_rs.Prelude.Text.len
    vm_rs.Prelude.Lists.all vm_rs.Config.is_name_char vm_rs.Prelude.Text.starts_with Manager.reserve
    Manager.check_free lookup vm_rs.Prelude.Text.str_eq Manager.is_restartable display
start_err_example =
    start_err driver host web one
      (boot_failed (codes "web") (codes "VM already exists in state: running")) refl

start_cases_example :
    (Accepted web one
      × (Manager.start driver host web one
          ≡ Manager.boot_reserved driver host web (reserved web one)))
    ⊎ ((¬ Accepted web one) × (e : VmError) × (Manager.start driver host web one ≡ (err e, one)))
start_cases_example = start_cases driver host web one

web_stopped : Manager.Manager ℕ
web_stopped = (Manager.stop driver host (codes "web") one).1

stop_web : Manager.stop driver host (codes "web") one ≡ (ok tt, web_stopped)
unfolding Manager.stop Manager.get_handle Manager.update_cached_state lookup
    vm_rs.Prelude.Text.str_eq web_stopped
stop_web = refl

restart_example :
    Manager.start driver host web web_stopped
    ≡ Manager.boot_reserved driver host web (reserved web web_stopped)
restart_example =
    restart driver host web one web_stopped ((validate_iff web).0 web_accepted) (inl stop_web)

after-frame_example :
    fixed_part (lookup (codes "web") (after driver host (Call.stop (codes "web")) one).vms)
    ≡ fixed_part (lookup (codes "web") one.vms)
unfolding vm_rs.Manager.Calls.IsAbout
after-frame_example = after-frame driver host (Call.stop (codes "web")) one (codes "web") (λ e. e)

after_all-IsKeyed_example :
    IsKeyed
      (after_all driver host (Call.start web ∷ Call.start db ∷ Call.stop (codes "web") ∷ []) empty)
after_all-IsKeyed_example =
    after_all-IsKeyed driver host named_by_driver
      (Call.start web ∷ Call.start db ∷ Call.stop (codes "web") ∷ []) empty empty-IsKeyed

wait_all_ready_ok_example : is_ready (ready (codes "10.0.0.2")) ≡ true
unfolding Manager.wait_all_ready lookup Manager.wait_loop Manager.round Manager.vm_names
    Manager.poll Manager.state Manager.get_handle vm_rs.Prelude.Text.str_eq
    Manager.update_cached_state insert
wait_all_ready_ok_example =
    wait_all_ready_ok driver host 3 1 one one_ready refl (codes "web")
      (record (handle_of web) { state = ready (codes "10.0.0.2") }) refl

wait_all_ready_total_example :
    (r : Result VmError (Unit {0}) × Manager.Manager ℕ) × (Manager.wait_all_ready driver host
        (5 + 2)
        5
        one
      ≡ some r)
wait_all_ready_total_example = wait_all_ready_total driver host ticking 5 one
