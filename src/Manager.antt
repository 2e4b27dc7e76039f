-- ===== src/Manager.antt =====
-- src/vm/manager.rs: `VmManager` over any driver and host. Each method is an action on the manager's
-- state; the table of handles stands behind one lock, which may be poisoned.
pub mod Start
pub mod Waiting
pub mod Transitions
pub mod Calls
use vm_rs.Prelude.{
  ℕ, zero, suc, ◌+◌, ◌-◌, ◌*◌, ◌/◌, ◌%◌, Bool, true, false, ◌&&◌, Option, none, some, List, [], ◌∷◌,
  ◌++◌, map,
}
use vm_rs.Prelude.Tests.{ltb, not, ◌==◌, if◌then◌else◌}
use vm_rs.Prelude.Text.{Str, codes}
use vm_rs.Prelude.Map.{Map, lookup, insert, remove, keys}
use vm_rs.Paths.{join}
use vm_rs.Result.{
  Result, ok, err, map_err, VmError, IoError, boot_failed, not_found, hypervisor, io,
}
use vm_rs.Exec.{Exec, pure, raise, lift, ◌>>=◌, ◌>>◌, or_else}
use vm_rs.Config.{
  VmConfig, VmHandle, VmState, starting, running, ready, paused, stopped, failed, validate, display,
  is_ready, ip,
}
use vm_rs.Driver.{VmDriver, Host}

pub record Manager (W : Type 0) : Type 0 where
  pub world : W
  pub vms : Map VmHandle
  pub poisoned : Bool
  pub base_dir : Str

abbrev pub Method : Type 0 → Type 0 → Type 0
Method W A = Exec (Manager W) VmError A

-- The states from which `start` may boot again.
unfoldable pub is_restartable : VmState → Bool
is_restartable stopped = true
is_restartable (failed reason) = true
is_restartable _ = false

abbrev pub lock_poisoned : VmError
lock_poisoned = hypervisor (codes "lock poisoned: poisoned lock: another task failed inside")

-- What `start` writes into the table before it boots.
unfoldable pub reservation : VmConfig → VmHandle
reservation c = record {
  name = c.name;
  namespace = c.namespace;
  state = starting;
  process = none;
  serial_log = c.serial_log;
  machine_id = none;
}

-- The nanoseconds of a second.
abbrev pub nanos : ℕ
nanos = 1_000_000_000

-- Names joined by `", "`.
unfoldable pub join_names : List Str → Str
join_names [] = []
join_names (n ∷ []) = n
join_names (n ∷ m ∷ ns) = n ++ codes ", " ++ join_names (m ∷ ns)

-- The guard of `start` on an entry that is there already.
unfoldable pub check_free : VmConfig → Option VmHandle → Result VmError (Unit {0})
check_free c none = ok tt
check_free c (some existing) =
    if is_restartable existing.state
    then ok tt
    else err (boot_failed c.name (codes "VM already exists in state: " ++ display existing.state))

abbrev pub found : Str → Option VmHandle → Result VmError VmHandle
found name (some handle) = ok handle
found name none = err (not_found name)

abbrev pub with_state : Str → Option VmHandle → VmState → Map VmHandle → Map VmHandle
with_state name none state vms = vms
with_state name (some handle) state vms = insert name (record handle { state = state }) vms

-- The names whose cached state fails the predicate.
unfoldable pub pending_in : (VmState → Bool) → Map VmHandle → List Str
pending_in p [] = []
pending_in p ((name, handle) ∷ m) =
    if not (p handle.state) then name ∷ pending_in p m else pending_in p m

module _ {W : Type 0} where
  -- `self.vms.read()` and `self.vms.write()` with their `map_err`.
  abbrev pub lock : Method W (Unit {0})
  lock s = if s.poisoned then (err lock_poisoned, s) else (ok tt, s)

  abbrev pub put : Str → VmHandle → Method W (Unit {0})
  put name handle s = (ok tt, record s { vms = insert name handle s.vms })

  abbrev pub forget : Str → Method W (Unit {0})
  forget name s = (ok tt, record s { vms = remove name s.vms })

  -- An action of the driver or of the host, on the manager's world.
  abbrev pub on_world : {E A : Type 0} → (E → VmError) → Exec W E A → Method W A
  on_world f m s = (map_err f (m s.world).0, record s { world = (m s.world).1 })

  unfoldable pub reserve : VmConfig → Method W (Unit {0})
  reserve c = do lock; (λ s. (check_free c (lookup c.name s.vms), s)); put c.name (reservation c)

  -- The clean-up of a failed boot: the reservation goes, and the error is returned.
  unfoldable pub abandon : {A : Type 0} → Str → VmError → Method W A
  abandon name e = do lock; forget name; raise e

  unfoldable pub get_handle : Str → Method W VmHandle
  get_handle name = do lock; (λ s. (found name (lookup name s.vms), s))

  -- A name that is not in the table is left out of it.
  unfoldable pub update_cached_state : Str → VmState → Method W (Unit {0})
  update_cached_state name state = do
    lock
    (λ s. (ok tt, record s { vms = with_state name (lookup name s.vms) state s.vms }))

  unfoldable pub list : Method W (List VmHandle)
  list = do lock; (λ s. (ok (map (λ e. e.1) s.vms), s))

  unfoldable pub vm_names : Method W (List Str)
  vm_names = do lock; (λ s. (ok (keys s.vms), s))

  unfoldable pub pending_names : (VmState → Bool) → Method W (List Str)
  pending_names p = do lock; (λ s. (ok (pending_in p s.vms), s))

module _ {W : Type 0} (driver : VmDriver W) (host : Host W) where
  -- Everything of `start` behind the reservation.
  unfoldable pub boot_reserved : VmConfig → Method W VmHandle
  boot_reserved c = do
    (λ s. or_else (on_world io (host.create_dir_all (join s.base_dir c.name))) (abandon c.name) s)
    handle ← or_else (on_world (λ e. e) (driver.boot c)) (abandon c.name)
    lock
    put c.name handle
    pure handle

  unfoldable pub start : VmConfig → Method W VmHandle
  start c = do lift (validate c); reserve c; boot_reserved c

  unfoldable pub stop : Str → Method W (Unit {0})
  stop name = do
    handle ← get_handle name
    on_world (λ e. e) (driver.stop handle)
    update_cached_state name stopped

  unfoldable pub kill : Str → Method W (Unit {0})
  kill name = do
    handle ← get_handle name
    on_world (λ e. e) (driver.kill handle)
    update_cached_state name stopped

  unfoldable pub stop_by_handle : VmHandle → Method W (Unit {0})
  stop_by_handle handle = do
    on_world (λ e. e) (driver.stop handle)
    update_cached_state handle.name stopped

  unfoldable pub kill_by_handle : VmHandle → Method W (Unit {0})
  kill_by_handle handle = do
    on_world (λ e. e) (driver.kill handle)
    update_cached_state handle.name stopped

  unfoldable pub pause : Str → Method W (Unit {0})
  pause name = do
    handle ← get_handle name
    on_world (λ e. e) (driver.pause handle)
    update_cached_state name paused

  unfoldable pub resume : Str → Method W (Unit {0})
  resume name = do
    handle ← get_handle name
    on_world (λ e. e) (driver.resume handle)
    resumed ← on_world (λ e. e) (driver.state handle)
    update_cached_state name resumed

  unfoldable pub state : Str → Method W VmState
  state name = do
    handle ← get_handle name
    seen ← on_world (λ e. e) (driver.state handle)
    update_cached_state name seen
    pure seen

  unfoldable pub get_ip : Str → Method W (Option Str)
  get_ip name = do seen ← state name; pure (ip seen)

  abbrev go_on : Str → VmState → Method W Bool → Method W Bool
  go_on name (ready a) rest = rest
  go_on name (failed reason) rest = raise (boot_failed name reason)
  go_on name _ rest = do _ ← rest; pure false

  -- One round of `wait_all_ready` over the names: true when every one of them is ready.
  unfoldable pub poll : List Str → Method W Bool
  poll [] = pure true
  poll (name ∷ names) = do seen ← state name; go_on name seen (poll names)

  -- The report every ten seconds reads the table once more.
  unfoldable pub report : ℕ → Method W (Unit {0})
  report elapsed_secs =
      if ltb 0 elapsed_secs && elapsed_secs % 10 == 0
      then (do _ ← pending_names is_ready; pure tt)
      else pure tt

  abbrev give_up : Method W (Unit {0})
  give_up = do
    pending ← pending_names is_ready
    raise (hypervisor (codes "timeout waiting for VMs: " ++ join_names pending))

  abbrev pause_a_second : Method W (Unit {0})
  pause_a_second s = (ok tt, record s { world = host.sleep nanos s.world })

  abbrev elapsed : ℕ → Manager W → ℕ
  elapsed began s = host.now s.world - began

  -- The body of the loop: true when the method returns `Ok`, false when it goes round again.
  unfoldable pub round : ℕ → ℕ → Method W Bool
  round began timeout_secs s =
      if ltb (timeout_secs * nanos) (elapsed began s)
      then (do give_up; pure true) s
      else (do
        names ← vm_names
        all_ready ← poll names
        if all_ready
            then pure true
            else do (λ t. report (elapsed began t / nanos) t); pause_a_second; pure false)
          s

  -- The loop of `wait_all_ready`; `none` stands for fuel that ran out.
  unfoldable pub wait_loop : ℕ → ℕ → ℕ → Manager W → Option (Result VmError (Unit {0}) × Manager W)
  wait_loop zero began timeout_secs s = none
  wait_loop (suc fuel) began timeout_secs s =
      let (result, t) = round began timeout_secs s in
      elim result [
        | ok done ↦ elim done [
          | true ↦ some (ok tt, t)
          | false ↦ wait_loop fuel began timeout_secs t
        ]
        | err e ↦ some (err e, t)
      ]

  unfoldable pub wait_all_ready : ℕ → ℕ → Manager W → Option (Result VmError (Unit {0}) × Manager W)
  wait_all_ready fuel timeout_secs s = wait_loop fuel (host.now s.world) timeout_secs s
