-- ===== src/Driver.antt =====
-- src/driver/mod.rs: the `VmDriver` trait as an interface, over the state `W` of the hypervisor and
-- of the host on which it acts. Managers take a driver as a parameter.
use vm_rs.Prelude.{ℕ, ◌≡◌, ◌++◌}
use vm_rs.Prelude.Text.{Str, codes}
use vm_rs.Result.{ok, VmError, IoError, hypervisor}
use vm_rs.Exec.{Exec, raise}
use vm_rs.Config.{VmConfig, VmHandle, VmState}

pub record VmDriver (W : Type 0) : Type 0 where
  pub boot : VmConfig → Exec W VmError VmHandle
  pub stop : VmHandle → Exec W VmError (Unit {0})
  pub kill : VmHandle → Exec W VmError (Unit {0})
  pub state : VmHandle → Exec W VmError VmState
  pub pause : VmHandle → Exec W VmError (Unit {0})
  pub resume : VmHandle → Exec W VmError (Unit {0})

-- The bodies that the trait gives `pause` and `resume` for drivers that have none.
unfoldable pub default_pause : {W : Type 0} → VmHandle → Exec W VmError (Unit {0})
default_pause handle = raise (
    hypervisor (codes "pause is not supported by this driver for VM '" ++ handle.name ++ codes "'"))

-- What the driver's sources do in every `boot` that returns: the handle carries the name of the
-- configuration. A manager relies on it.
pub record NamesHandles {W : Type 0} (d : VmDriver W) : Type 0 where
  pub at : (c : VmConfig) (w : W) (h : VmHandle) → (d.boot c w).0 ≡ ok h → h.name ≡ c.name

-- The host's file system and clock, as a manager calls them: `create_dir_all`, the nanoseconds that an
-- `Instant` counts, and `sleep`.
pub record Host (W : Type 0) : Type 0 where
  pub create_dir_all : Str → Exec W IoError (Unit {0})
  pub now : W → ℕ
  pub sleep : ℕ → W → W

unfoldable pub default_resume : {W : Type 0} → VmHandle → Exec W VmError (Unit {0})
default_resume handle = raise (
    hypervisor
      (codes "resume is not supported by this driver for VM '" ++ handle.name ++ codes "'"))
