-- ===== src/CloudHv/Logged.antt =====
-- A host of src/driver/cloud_hv.rs that also keeps a list of the TAP devices whose deletion it was asked for.
use vm_rs.Prelude.{List, [], ◌∷◌, ◌++◌}
use vm_rs.Prelude.Text.{Str}
use vm_rs.CloudHv.{System}
use vm_rs.CloudHv.Processes.{Processes}

pub record Logged (W : Type 0) : Type 0 where
  pub world : W
  pub deleted : List Str

module _ {W : Type 0} where
  -- What an action of the host does, the list being as it was.
  abbrev pub beside : {A : Type 0} → (W → A × W) → Logged W → A × Logged W
  beside act x = ((act x.world).0, record x { world = (act x.world).1 })

  abbrev pub logged_system : System W → System (Logged W)
  logged_system system = record {
    read = λ path x. system.read path x.world;
    read_to_string = λ path x. system.read_to_string path x.world;
    can_signal = λ pid x. system.can_signal pid x.world;
    try_wait = λ child. beside (system.try_wait child);
    open_log = λ path x. system.open_log path x.world;
    from_utf8_lossy = system.from_utf8_lossy;
  }

  abbrev pub logged_host : Processes W → Processes (Logged W)
  logged_host host = record {
    now = λ x. host.now x.world;
    sleep = λ n x. record x { world = host.sleep n x.world };
    signal = λ pid number. beside (host.signal pid number);
    child_kill = λ child. beside (host.child_kill child);
    child_wait = λ child. beside (host.child_wait child);
    exit_status = λ child x. host.exit_status child x.world;
    delete_tap =
        λ tap x. record x { world = host.delete_tap tap x.world; deleted = x.deleted ++ tap ∷ [] };
    remove_file = λ path x. record x { world = host.remove_file path x.world };
    probe = λ program. beside (host.probe program);
    exists = λ path x. host.exists path x.world;
    create_log = λ path. beside (host.create_log path);
    clone_log = beside host.clone_log;
    spawn = λ program args. beside (host.spawn program args);
    sha256_prefix = host.sha256_prefix;
  }
