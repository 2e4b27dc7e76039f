-- ===== src/Config.antt =====
-- src/config.rs: the data that boots and tracks a virtual machine, and `VmConfig::validate`.
pub mod Validation
use vm_rs.Prelude.{ℕ, Bool, true, false, ◌||◌, Option, none, some, List, [], ◌∷◌, ◌++◌}
use vm_rs.Prelude.Tests.{ltb, not, ◌==◌}
use vm_rs.Prelude.Lists.{all}
use vm_rs.Prelude.Text.{Str, codes, len, is_empty, starts_with, is_ascii_alphanumeric}
use vm_rs.Result.{Result, ok, err, VmError, invalid_config, ◌>>=◌, ◌>>◌, refuse_if}

abbrev pub ready_marker : Str
ready_marker = codes "VMRS_READY"

-- The number of the file descriptor that the endpoint owns.
pub record VmSocketEndpoint : Type 0 where
  pub fd : ℕ

pub record VmmProcess : Type 0 where
  pub pid : ℕ
  pub start_time_ticks : Option ℕ

pub data NetworkAttachment : Type 0 where
  socket_pair_fd : VmSocketEndpoint → NetworkAttachment
  tap : (name : Str) (mac : Option Str) → NetworkAttachment

pub record SharedDir : Type 0 where
  pub host_path : Str
  pub tag : Str
  pub read_only : Bool

pub record VmConfig : Type 0 where
  pub name : Str
  pub namespace : Str
  pub kernel : Str
  pub initramfs : Option Str
  pub root_disk : Option Str
  pub data_disk : Option Str
  pub seed_iso : Option Str
  pub cpus : ℕ
  pub memory_mb : ℕ
  pub networks : List NetworkAttachment
  pub shared_dirs : List SharedDir
  pub serial_log : Str
  pub cmdline : Option Str
  pub netns : Option Str
  pub vsock : Bool
  pub machine_id : Option (List ℕ)
  pub efi_variable_store : Option Str
  pub rosetta : Bool

pub data VmState : Type 0 where
  starting running : VmState
  ready : (ip : Str) → VmState
  paused stopped : VmState
  failed : (reason : Str) → VmState

pub record VmHandle : Type 0 where
  pub name : Str
  pub namespace : Str
  pub state : VmState
  pub process : Option VmmProcess
  pub serial_log : Str
  pub machine_id : Option (List ℕ)

unfoldable pub is_running : VmState → Bool
is_running running = true
is_running (ready ip) = true
is_running _ = false

unfoldable pub is_ready : VmState → Bool
is_ready (ready ip) = true
is_ready _ = false

unfoldable pub ip : VmState → Option Str
ip (ready a) = some a
ip _ = none

-- `impl Display for VmState`
unfoldable pub display : VmState → Str
display starting = codes "starting"
display running = codes "running"
display (ready a) = codes "ready (" ++ a ++ codes ")"
display paused = codes "paused"
display stopped = codes "stopped"
display (failed reason) = codes "failed: " ++ reason

-- The closure that `validate` runs over the name.
unfoldable pub is_name_char : ℕ → Bool
unfolding is_ascii_alphanumeric
is_name_char c = is_ascii_alphanumeric c || c == b'-' || c == b'_' || c == b'.'

unfoldable pub validate : VmConfig → Result VmError (Unit {0})
validate c = do
  refuse_if (is_empty c.name) (invalid_config (codes "VM name must not be empty"))
  refuse_if (ltb 128 (len c.name))
      (invalid_config (codes "VM name must be 128 characters or fewer"))
  refuse_if (not (all is_name_char c.name)) (
      invalid_config
        (codes "VM name must contain only alphanumeric characters, hyphens, underscores, and dots"))
  refuse_if (starts_with c.name (codes ".") || starts_with c.name (codes "-"))
      (invalid_config (codes "VM name must not start with '.' or '-'"))
  refuse_if (c.cpus == 0) (invalid_config (codes "cpus must be at least 1"))
  refuse_if (c.memory_mb == 0) (invalid_config (codes "memory_mb must be at least 1"))
  refuse_if (is_empty c.kernel) (invalid_config (codes "kernel path must not be empty"))
  ok tt
