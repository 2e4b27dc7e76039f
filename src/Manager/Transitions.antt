-- ===== src/Manager/Transitions.antt =====
-- What `stop`, `kill`, `pause`, `resume` and `state` of `VmManager` (src/vm/manager.rs) return and
-- cache, on every branch.
use vm_rs.Prelude.{◌≡◌, false, none, some, arith}
use vm_rs.Prelude.Text.{Str, str_eq_refl}
use vm_rs.Prelude.Map.{lookup, lookup-insert}
use vm_rs.Result.{ok, err, not_found}
use vm_rs.Config.{VmHandle, VmState, ip}
use vm_rs.Driver.{VmDriver, Host}
use vm_rs.Manager.{Manager, lock_poisoned, get_handle, update_cached_state}
use vm_rs.Manager

-- A method that hands the tracked machine to the driver and then caches a state.
module _ {W : Type 0} (driver : VmDriver W) (host : Host W) (s : Manager W) (name : Str) where
  -- With a lock that is not poisoned, `stop`, `kill`, `pause`, `resume` and `state` of a name
  -- that is not tracked return `NotFound` and change nothing.
  pub untracked_name :
      s.poisoned ≡ false
      → lookup name s.vms ≡ none
      → (Manager.stop driver host name s ≡ (err (not_found name), s))
        × (Manager.kill driver host name s ≡ (err (not_found name), s))
        × (Manager.pause driver host name s ≡ (err (not_found name), s))
        × (Manager.resume driver host name s ≡ (err (not_found name), s))
        × (Manager.state driver host name s ≡ (err (not_found name), s))
  unfolding Manager.stop Manager.kill Manager.pause Manager.resume Manager.state get_handle
  untracked_name p q = (rw (p, q), rw (p, q), rw (p, q), rw (p, q), rw (p, q))

  -- With a lock that is not poisoned, if the driver reports a state for a tracked machine,
  -- `state` returns it and caches it in the machine's handle, and `get_ip` returns the address
  -- of that report.
  pub state_ok :
      (h : VmHandle) (v : VmState)
      → s.poisoned ≡ false
      → lookup name s.vms ≡ some h
      → (driver.state h s.world).0 ≡ ok v
      → ((Manager.state driver host name s).0 ≡ ok v)
        × (lookup name (Manager.state driver host name s).1.vms ≡ some (record h { state = v }))
        × ((Manager.get_ip driver host name s).0 ≡ ok (ip v))
  unfolding Manager.state Manager.get_ip get_handle update_cached_state
  state_ok h v p q r = grind (arith, lookup-insert, str_eq_refl)
