-- ===== src/Examples/Texts.antt =====
-- A seed configuration, a host for it and a serial log, for src/setup/seed.rs and src/driver/ready.rs,
-- and image references, for src/oci/registry.rs.
use vm_rs.Prelude.{
  ℕ, ◌+◌, ◌≤◌, ◌<◌, ◌≡◌, refl, Bool, true, false, Option, none, some, List, [], ◌∷◌, ◌++◌, ◌⊎◌,
  arith,
}
use vm_rs.Prelude.Lists.{All, All-map, all, all→All, length}
use vm_rs.Prelude.Tests.{ltb, ltb→lt}
use vm_rs.Prelude.Text.{Str, codes, split_once, parse_unsigned}
use vm_rs.Result.{Result, ok, err}
use vm_rs.Paths.{parent}
use vm_rs.Seed
use vm_rs.Seed.Iso.{SeedHost, create_seed_iso}
use vm_rs.Seed.Breaks.{breaks}
use vm_rs.Seed.Lines.{process_count, health_count, breaks-build_user_data}
use vm_rs.Seed.Network.{nic_count, breaks-build_network_config}
use vm_rs.Seed.Cleanup.{WasChecked, create_seed_iso_ok}
use vm_rs.Seed.Watched.{watched, IsBalanced, create_seed_iso_cleans}
use vm_rs.Ready.{fresh, scan, parse_ready_marker}
use vm_rs.Ready.Scanning.{scans, concat, log_of, IsAscii, scans_find}

abbrev seed : Seed.SeedConfig
seed = record {
  hostname = codes "web-1";
  ssh_pubkey = codes "ssh-ed25519 AAAA me";
  nics =
      record { name = codes "eth0"; ip = codes "10.0.1.2/24"; gateway = some (codes "10.0.1.1") }
      ∷ [];
  process = some (record {
    command = codes "serve 'all'";
    workdir = none;
    env = (codes "MODE", codes "a b") ∷ [];
  });
  volumes = record { tag = codes "data"; mount_point = codes "/data"; read_only = true } ∷ [];
  healthcheck = none;
  extra_hosts = (codes "db", codes "10.0.1.3") ∷ [];
}

-- The world counts the calls; programs and files always succeed.
abbrev seed_host : SeedHost ℕ
seed_host = record {
  process_id = 7;
  fetch_add = λ w. (0, w + 1);
  timestamp_nanos = λ w. 5;
  create_dir_all = λ path w. (ok tt, w + 1);
  write = λ path text w. (ok tt, w + 1);
  remove_dir_all = λ path w. (ok tt, w + 1);
  output = λ program args w. (ok (record { success = true; stderr = [] }), w + 1);
}

-- The text that a builder returned, for the statements below.
abbrev text_of : Result Seed.SetupError Str → Str
text_of (ok text) = text
text_of (err e) = []

-- Everything is ASCII here.
abbrev ascii_only : List ℕ → Str
ascii_only bytes = bytes

breaks-build_user_data_example :
    breaks (text_of (Seed.build_user_data seed))
    ≡ 6
      + length seed.volumes
      + length seed.extra_hosts
      + process_count seed.process
      + health_count seed.healthcheck
unfolding Seed.build_user_data vm_rs.Prelude.Text.contains_char vm_rs.Prelude.Text.first_word
    vm_rs.Prelude.Text.after_word vm_rs.Prelude.Text.starts_with Seed.is_safe_mount_tag
    vm_rs.Prelude.Text.len vm_rs.Prelude.Lists.all vm_rs.Prelude.Text.is_ascii_alphanumeric
    Seed.is_safe_mount_point Seed.is_safe_hostname Seed.is_safe_ip
    vm_rs.Prelude.Text.is_ascii_hexdigit Seed.is_safe_shell_fragment Seed.is_safe_env_name
breaks-build_user_data_example =
    breaks-build_user_data seed (text_of (Seed.build_user_data seed)) refl

breaks-build_network_config_example :
    breaks (text_of (Seed.build_network_config seed)) ≡ 2 + nic_count seed.nics
unfolding Seed.build_network_config Seed.is_safe_iface_name vm_rs.Prelude.Text.is_empty
    vm_rs.Prelude.Text.len vm_rs.Prelude.Lists.all vm_rs.Prelude.Text.is_ascii_alphanumeric
    Seed.is_safe_cidr vm_rs.Prelude.Text.is_ascii_hexdigit parse_unsigned
breaks-build_network_config_example =
    breaks-build_network_config seed (text_of (Seed.build_network_config seed)) refl

create_seed_iso_ok_example : (Seed.is_safe_hostname (codes "web-1") ≡ true) × WasChecked seed
unfolding create_seed_iso Seed.is_safe_hostname vm_rs.Prelude.Text.is_empty vm_rs.Prelude.Text.len
    vm_rs.Prelude.Lists.all vm_rs.Prelude.Text.is_ascii_alphanumeric parent Seed.build_user_data
    vm_rs.Prelude.Text.contains_char vm_rs.Prelude.Text.first_word vm_rs.Prelude.Text.after_word
    Seed.is_safe_mount_tag Seed.is_safe_mount_point Seed.is_safe_ip
    vm_rs.Prelude.Text.is_ascii_hexdigit Seed.is_safe_shell_fragment Seed.is_safe_env_name
    Seed.build_network_config Seed.is_safe_iface_name Seed.is_safe_cidr split_once parse_unsigned
    vm_rs.Prelude.Text.starts_with
create_seed_iso_ok_example = create_seed_iso_ok seed_host seed (codes "/vms/web/seed.iso") 0 refl

create_seed_iso_cleans_example :
    IsBalanced []
      (create_seed_iso
        (watched seed_host)
        seed
        (codes "/vms/web/seed.iso")
        (record { world = 0; events = [] })).1.events
create_seed_iso_cleans_example =
    create_seed_iso_cleans seed_host seed (codes "/vms/web/seed.iso")
      (record { world = 0; events = [] })

abbrev pieces : List (List ℕ)
pieces = codes "boot\nVMRS_RE" ∷ codes "A" ∷ []

abbrev last : List ℕ
last = codes "DY 10.0.0.2\n"

is_ascii : (bytes : List ℕ) → all (λ c. ltb c 128) bytes ≡ true → IsAscii bytes
is_ascii bytes h = All-map (λ c. ltb→lt c 128) bytes (all→All (λ c. ltb c 128) bytes h)

scans_find_example :
    (scan ascii_only
      (scans ascii_only (λ bytes h. refl) [] fresh pieces)
      (ok (log_of (concat pieces ++ last)))).0
    ≡ parse_ready_marker (concat pieces ++ last)
unfolding split_once concat all
scans_find_example =
    scans_find ascii_only (λ bytes h. refl) pieces last
      (is_ascii (codes "boot\nVMRS_RE") refl, (is_ascii (codes "A") refl, tt)) (is_ascii last refl)
      refl
