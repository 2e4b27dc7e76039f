-- ===== src/CloudHv/Booting.antt =====
-- `boot` of src/driver/cloud_hv.rs: the command line, the sidecars of shared directories, and what is undone when a step
-- fails. A path is a text, so that it is always UTF-8.
use vm_rs.Prelude.{ℕ, Bool, true, false, Option, none, some, List, [], ◌∷◌, ◌++◌}
use vm_rs.Prelude.Tests.{if◌then◌else◌}
use vm_rs.Prelude.Text.{Str, codes, decimal}
use vm_rs.Prelude.Map.{insert}
use vm_rs.Result.{Result, ok, err, IoError, VmError, io, boot_failed, invalid_config, map_err}
use vm_rs.Exec.{Exec, pure, raise, lift, ◌>>=◌, ◌>>◌}
use vm_rs.Paths.{join, parent, with_extension}
use vm_rs.Config.{
  VmmProcess, VmConfig, VmHandle, NetworkAttachment, SharedDir, socket_pair_fd, tap, starting,
}
use vm_rs.Driver.{VmDriver, default_pause, default_resume}
use vm_rs.CloudHv.{System, CloudHvDriver, lock_poisoned, process_identity, state}
use vm_rs.CloudHv.Processes.{Processes, millis, cleanup_virtiofsd, wait_for_socket}
use vm_rs.CloudHv.Stopping.{on_host, stop, kill}

-- A program with its arguments.
pub record Command : Type 0 where
  pub program : Str
  pub args : List Str

unfoldable pub base_command : Option Str → Str → Command
base_command none ch_binary = record { program = ch_binary; args = [] }
base_command (some netns) ch_binary = record {
  program = codes "ip";
  args = codes "netns" ∷ codes "exec" ∷ netns ∷ ch_binary ∷ [];
}

unfoldable pub option_args : Str → Option Str → Str → List Str
option_args flag none suffix = []
option_args flag (some value) suffix = flag ∷ (value ++ suffix) ∷ []

unfoldable pub disk_args : Option Str → Str → List Str
disk_args none suffix = []
disk_args (some path) suffix = codes "--disk" ∷ (codes "path=" ++ path ++ suffix) ∷ []

unfoldable pub default_cmdline : Option Str → Str
default_cmdline (some root_disk) = codes "console=ttyS0 root=/dev/vda1 rw ds=nocloud"
default_cmdline none = codes "console=ttyS0"

unfoldable pub or_default : Option Str → Str → Str
or_default (some text) other = text
or_default none other = other

unfoldable pub memory_arg : VmConfig → List SharedDir → Str
memory_arg c [] = codes "size=" ++ decimal c.memory_mb ++ codes "M"
memory_arg c (dir ∷ dirs) = codes "size=" ++ decimal c.memory_mb ++ codes "M,shared=on"

-- The arguments before the network's.
unfoldable pub machine_args : VmConfig → List Str
unfolding option_args disk_args default_cmdline or_default memory_arg
machine_args c =
    (codes "--kernel"
      ∷ c.kernel
      ∷ codes "--cmdline"
      ∷ or_default c.cmdline (default_cmdline c.root_disk)
      ∷ option_args (codes "--initramfs") c.initramfs [])
    ++ (codes "--cpus"
        ∷ (codes "boot=" ++ decimal c.cpus)
        ∷ codes "--memory"
        ∷ memory_arg c c.shared_dirs
        ∷ [])
    ++ disk_args c.root_disk []
    ++ disk_args c.seed_iso (codes ",readonly=on")
    ++ disk_args c.data_disk []

unfoldable pub serial_args : VmConfig → List Str
serial_args c =
    codes "--serial" ∷ (codes "file=" ++ c.serial_log) ∷ codes "--console" ∷ codes "off" ∷ []

module _ {W : Type 0} (system : System W) (host : Processes W) where
  unfoldable pub generate_mac : Str → Str
  generate_mac name =
      let (a, b, c) = host.sha256_prefix name in
      codes "52:54:00:" ++ a ++ codes ":" ++ b ++ codes ":" ++ c

  -- The TAP devices and their arguments.
  unfoldable pub network_args : Str → List NetworkAttachment → Result VmError (List Str × List Str)
  unfolding generate_mac or_default
  network_args name [] = ok ([], [])
  network_args name (socket_pair_fd endpoint ∷ nets) =
      err (invalid_config (codes "SocketPairFd not supported on Linux; use TAP devices"))
  network_args name (tap device mac ∷ nets) = elim (network_args name nets) [
    | err e ↦ err e
    | ok found ↦ ok (
      device ∷ found.0,
      codes "--net"
          ∷ (codes "tap=" ++ device ++ codes ",mac=" ++ or_default mac (generate_mac name))
          ∷ found.1,
    )
  ]

  unfoldable pub first_existing : List Str → VmError → Exec W VmError Str
  first_existing [] e = raise e
  first_existing (path ∷ paths) e =
      λ w. let rest = first_existing paths e w in if host.exists path w then (ok path, w) else rest

  unfoldable pub find_ch_binary : Exec W VmError Str
  unfolding first_existing
  find_ch_binary w =
      let (works, w') = host.probe (codes "cloud-hypervisor") w in
      let others =
        first_existing
          (codes "/usr/bin/cloud-hypervisor" ∷ codes "/usr/local/bin/cloud-hypervisor" ∷ [])
          (invalid_config (
            codes
              "cloud-hypervisor binary not found on PATH or in /usr/bin, /usr/local/bin. Install from https://github.com/cloud-hypervisor/cloud-hypervisor/releases"))
          w' in
      if works then (ok (codes "cloud-hypervisor"), w') else others

  abbrev pub virtiofsd_missing : VmError
  virtiofsd_missing = invalid_config (
      codes
        "virtiofsd not found. Required for VirtioFS shared directories on Linux. Install: apt install virtiofsd (Debian/Ubuntu) or from https://gitlab.com/virtio-fs/virtiofsd")

  unfoldable pub probe_or : Str → Exec W VmError Str → Exec W VmError Str
  probe_or program other w =
      let (works, w') = host.probe program w in
      let rest = other w' in if works then (ok program, w') else rest

  -- An absolute candidate may just exist.
  unfoldable pub exists_or : Str → Exec W VmError Str → Exec W VmError Str
  unfolding probe_or
  exists_or path other w =
      let probed = probe_or path other w in if host.exists path w then (ok path, w) else probed

  unfoldable pub find_virtiofsd : Exec W VmError Str
  unfolding probe_or exists_or
  find_virtiofsd = probe_or (codes "virtiofsd") (
      exists_or (codes "/usr/libexec/virtiofsd")
        (exists_or (codes "/usr/lib/virtiofsd") (raise virtiofsd_missing)))

  abbrev pub boot_error : Str → Str → IoError → VmError
  boot_error name what e = boot_failed name (what ++ e.message)

  unfoldable pub socket_path : Str → SharedDir → Str
  unfolding join
  socket_path vm_dir vol = join vm_dir (codes "virtiofs-" ++ vol.tag ++ codes ".sock")

  unfoldable pub virtiofsd_args : Str → SharedDir → List Str
  virtiofsd_args socket vol =
      (codes "--socket-path=" ++ socket)
      ∷ (codes "--shared-dir=" ++ vol.host_path)
      ∷ codes "--cache=never"
      ∷ codes "--sandbox=chroot"
      ∷ []

  -- The sidecars so far are removed only if the new one's socket does not appear.
  unfoldable pub await_socket : Str → SharedDir → Str → List ℕ → Exec W VmError (Unit {0})
  unfolding wait_for_socket cleanup_virtiofsd
  await_socket name vol socket children w =
      let (there, w') = wait_for_socket system host socket (millis 5000) w in
      if there then (ok tt, w') else (
        err (
            boot_failed name (
              codes "virtiofsd socket did not appear for '" ++ vol.tag ++ codes "' at " ++ socket)),
        cleanup_virtiofsd system host children w',
      )

  unfoldable pub start_sidecar : Str → Str → SharedDir → List ℕ → Exec W VmError ℕ
  unfolding find_virtiofsd virtiofsd_args await_socket
  start_sidecar name socket vol children = do
    virtiofsd ← find_virtiofsd
    λ w. (ok tt, host.remove_file socket w)
    child ← λ w.
        let after = host.spawn virtiofsd (virtiofsd_args socket vol) w in
        (
          map_err
              (boot_error name (codes "failed to spawn virtiofsd for '" ++ vol.tag ++ codes "': "))
              after.0,
          after.1,
        )
    await_socket name vol socket (children ++ child ∷ [])
    pure child

  unfoldable pub fs_args : Str → SharedDir → List Str
  fs_args socket vol =
      codes "--fs"
      ∷ (codes "tag="
          ++ vol.tag
          ++ codes ",socket="
          ++ socket
          ++ codes ",num_queues=1,queue_size=512")
      ∷ []

  unfoldable pub start_sidecars :
      Str → Str → List SharedDir → List ℕ → List Str → Exec W VmError (List ℕ × List Str)
  unfolding start_sidecar fs_args socket_path
  start_sidecars name vm_dir [] children args = pure (children, args)
  start_sidecars name vm_dir (vol ∷ vols) children args = do
    child ← start_sidecar name (socket_path vm_dir vol) vol children
    start_sidecars name vm_dir vols (children ++ child ∷ [])
        (args ++ fs_args (socket_path vm_dir vol) vol)

  abbrev pub clean_on_error : {A : Type 0} → List ℕ → Result VmError A × W → Result VmError A × W
  clean_on_error children (ok a, w) = (ok a, w)
  clean_on_error children (err e, w) = (err e, cleanup_virtiofsd system host children w)

  abbrev pub attempt :
      {A : Type 0} → List ℕ → (IoError → VmError) → Exec W IoError A → Exec W VmError A
  attempt children failed call w =
      let after = call w in clean_on_error children (map_err failed after.0, after.1)

  -- A process without an identity is killed and reaped.
  abbrev pub reap_on_error : {A : Type 0} → ℕ → List ℕ → Result VmError A → Exec W VmError A
  reap_on_error child children (ok a) w = (ok a, w)
  reap_on_error child children (err e) w = (
    err e,
    cleanup_virtiofsd system host children (host.child_wait child (host.child_kill child w).1).1,
  )

  abbrev pub check_alive :
      Str → Str → ℕ → List ℕ → Result IoError Bool × W → Result VmError (Unit {0}) × W
  check_alive name log child children (err e, w) = (err (io e), w)
  check_alive name log child children (ok false, w) = (ok tt, w)
  check_alive name log child children (ok true, w) = (
    err (
        boot_failed name (
          codes "cloud-hypervisor process (PID "
          ++ decimal child
          ++ codes ") exited immediately with "
          ++ host.exit_status child w
          ++ codes ". Check "
          ++ log)),
    cleanup_virtiofsd system host children w,
  )

  unfoldable pub spawn_machine : VmConfig → Command → List ℕ → Exec W VmError VmmProcess
  unfolding process_identity with_extension
  spawn_machine c cmd children = do
    attempt children (boot_error c.name (codes "failed to create VMM log file: "))
        (host.create_log (with_extension c.serial_log (codes "vmm.log")))
    attempt children io host.clone_log
    child ←
        attempt children (boot_error c.name (codes "failed to spawn cloud-hypervisor: "))
          (host.spawn cmd.program cmd.args)
    identity ← λ w. reap_on_error child children (process_identity system child c.name w) w
    λ w. (ok tt, host.sleep (millis 100) w)
    λ w.
        check_alive c.name (with_extension c.serial_log (codes "vmm.log")) child children
          (system.try_wait child w)
    pure identity

  unfoldable pub boot_machine : VmConfig → Exec W VmError (VmmProcess × List Str × List ℕ)
  unfolding find_ch_binary base_command machine_args network_args serial_args start_sidecars
      spawn_machine parent
  boot_machine c = do
    ch_binary ← find_ch_binary
    net ← lift (network_args c.name c.networks)
    sidecars ←
        start_sidecars c.name (or_default (parent c.serial_log) (codes "/tmp")) c.shared_dirs [] []
    identity ←
        spawn_machine c
          (record {
            program = (base_command c.netns ch_binary).program;
            args =
                (base_command c.netns ch_binary).args
                ++ machine_args c
                ++ net.1
                ++ serial_args c
                ++ sidecars.1;
          })
          sidecars.0
    pure (identity, net.0, sidecars.0)

  unfoldable pub track :
      VmConfig → VmmProcess × List Str × List ℕ → Exec (CloudHvDriver W) VmError VmHandle
  unfolding insert
  track c (identity, tap_devices, virtiofsd_children) d =
      if d.poisoned then (err lock_poisoned, d) else (
        ok (record {
          name = c.name;
          namespace = c.namespace;
          state = starting;
          process = some identity;
          serial_log = c.serial_log;
          machine_id = none;
        }),
        record d {
          vms =
              insert c.name
                (record {
                  identity = identity;
                  child = identity.pid;
                  tap_devices = tap_devices;
                  virtiofsd_children = virtiofsd_children;
                  ready = record { ready_ip = none; scan_offset = 0; tail = [] };
                })
                d.vms;
        },
      )

  unfoldable pub boot : VmConfig → Exec (CloudHvDriver W) VmError VmHandle
  unfolding boot_machine track
  boot c = do started ← on_host system host (boot_machine c); track c started

  -- The driver as managers take it.
  unfoldable pub cloud_hv_driver : VmDriver (CloudHvDriver W)
  unfolding boot stop kill state default_pause default_resume
  cloud_hv_driver = record {
    boot = boot;
    stop = stop system host;
    kill = kill system host;
    state = state system;
    pause = default_pause;
    resume = default_resume;
  }
