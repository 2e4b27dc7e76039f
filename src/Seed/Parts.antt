-- ===== src/Seed/Parts.antt =====
-- The loops of `build_user_data` and `build_network_config` (src/setup/seed.rs), taken apart: what the
-- first element of an accepted list passed, and what the rest of the list gave.
use vm_rs.Prelude.{◌≡◌, inl, inr, true, none, some, List, ◌∷◌, ◌++◌, arith}
use vm_rs.Prelude.Text.{Str, codes, decimal}
use vm_rs.Result.{ok, Result-cases}
use vm_rs.Seed

pub volume_lines-eq-ok :
    (v : Seed.VolumeMountConfig) (vs : List Seed.VolumeMountConfig) (text : Str)
    → Seed.volume_lines (v ∷ vs) ≡ ok text
    → (rest : Str) × (Seed.volume_lines vs ≡ ok rest)
      × (Seed.is_safe_mount_tag v.tag ≡ true)
      × (Seed.is_safe_mount_point v.mount_point ≡ true)
      × (text ≡ Seed.volume_line v ++ rest)
unfolding Seed.volume_lines
volume_lines-eq-ok v vs text h = elim (Result-cases (Seed.volume_lines vs)) [
  | inl (rest, e) ↦ (rest, e, ground arith, ground arith, ground arith)
  | inr (e, e') ↦ absurd (ground arith)
]

pub host_lines-eq-ok :
    (host ip : Str) (hosts : List (Str × Str)) (text : Str)
    → Seed.host_lines ((host, ip) ∷ hosts) ≡ ok text
    → (rest : Str) × (Seed.host_lines hosts ≡ ok rest)
      × (Seed.is_safe_hostname host ≡ true)
      × (Seed.is_safe_ip ip ≡ true)
      × (text ≡ Seed.host_line host ip ++ rest)
unfolding Seed.host_lines
host_lines-eq-ok host ip hosts text h = elim (Result-cases (Seed.host_lines hosts)) [
  | inl (rest, e) ↦ (rest, e, ground arith, ground arith, ground arith)
  | inr (e, e') ↦ absurd (ground arith)
]

pub env_lines-eq-ok :
    (k v : Str) (env : List (Str × Str)) (text : Str)
    → Seed.env_lines ((k, v) ∷ env) ≡ ok text
    → (rest : Str) × (Seed.env_lines env ≡ ok rest)
      × (Seed.is_safe_env_name k ≡ true)
      × (text ≡ Seed.env_line k v ++ rest)
unfolding Seed.env_lines
env_lines-eq-ok k v env text h = elim (Result-cases (Seed.env_lines env)) [
  | inl (rest, e) ↦ (rest, e, ground arith, ground arith)
  | inr (e, e') ↦ absurd (ground arith)
]

pub start_line-none :
    (command text : Str)
    → Seed.start_line none command ≡ ok text
    → text ≡ codes "  - sh -lc " ++ Seed.shell_quote command ++ codes "\n"
unfolding Seed.start_line
start_line-none command text h = ground arith

pub start_line-some :
    (wd command text : Str)
    → Seed.start_line (some wd) command ≡ ok text
    → (Seed.is_safe_mount_point wd ≡ true)
      × (text
          ≡ codes "  - cd "
            ++ Seed.shell_quote wd
            ++ codes " && sh -lc "
            ++ Seed.shell_quote command
            ++ codes "\n")
unfolding Seed.start_line
start_line-some wd command text h = (ground arith, ground arith)

pub health_lines-eq-ok :
    (hc : Seed.HealthCheckConfig) (text : Str)
    → Seed.health_lines (some hc) ≡ ok text
    → (Seed.is_safe_shell_fragment hc.command ≡ true)
      × (text
          ≡ codes "  - while true; do sh -lc "
            ++ Seed.shell_quote hc.command
            ++ codes
                " > /tmp/vmrs-health 2>&1 && echo 'healthy' >> /tmp/vmrs-health || echo 'unhealthy' >> /tmp/vmrs-health; sleep "
            ++ decimal hc.interval_secs
            ++ codes "; done &\n")
unfolding Seed.health_lines
health_lines-eq-ok hc text h = (ground arith, ground arith)

pub gateway_lines-some :
    (gw text : Str)
    → Seed.gateway_lines (some gw) ≡ ok text
    → (Seed.is_safe_ip gw ≡ true)
      × (text ≡ codes "    routes:\n      - to: default\n        via: " ++ gw ++ codes "\n")
unfolding Seed.gateway_lines
gateway_lines-some gw text h = (ground arith, ground arith)

pub process_lines-eq-ok :
    (p : Seed.ProcessConfig) (text : Str)
    → Seed.process_lines (some p) ≡ ok text
    → (exports command : Str) × (Seed.env_lines p.env ≡ ok exports)
      × (Seed.start_line p.workdir p.command ≡ ok command)
      × (Seed.is_safe_shell_fragment p.command ≡ true)
      × (text ≡ exports ++ command)
unfolding Seed.process_lines
process_lines-eq-ok p text h = elim (Result-cases (Seed.env_lines p.env)) [
  | inr (e, e') ↦ absurd (ground arith)
  | inl (exports, e) ↦ elim (Result-cases (Seed.start_line p.workdir p.command)) [
    | inl (command, e2) ↦ (exports, command, e, e2, ground arith, ground arith)
    | inr (e2, e') ↦ absurd (ground arith)
  ]
]

pub nic_lines-eq-ok :
    (nic : Seed.NicConfig) (nics : List Seed.NicConfig) (text : Str)
    → Seed.nic_lines (nic ∷ nics) ≡ ok text
    → (gateway rest : Str) × (Seed.gateway_lines nic.gateway ≡ ok gateway)
      × (Seed.nic_lines nics ≡ ok rest)
      × (Seed.is_safe_iface_name nic.name ≡ true)
      × (Seed.is_safe_cidr nic.ip ≡ true)
      × (text
          ≡ codes "  "
            ++ nic.name
            ++ codes ":\n"
            ++ codes "    addresses: ["
            ++ nic.ip
            ++ codes "]\n"
            ++ gateway
            ++ rest)
unfolding Seed.nic_lines
nic_lines-eq-ok nic nics text h = elim (Result-cases (Seed.gateway_lines nic.gateway)) [
  | inr (e, e') ↦ absurd (ground arith)
  | inl (gateway, e) ↦ elim (Result-cases (Seed.nic_lines nics)) [
    | inl (rest, e2) ↦ (gateway, rest, e, e2, ground arith, ground arith, ground arith)
    | inr (e2, e') ↦ absurd (ground arith)
  ]
]

-- What the parts of an accepted configuration gave, in the order of the text.
pub record Parts (c : Seed.SeedConfig) (text : Str) : Type 0 where
  pub volumes : Str
  pub hosts : Str
  pub process : Str
  pub health : Str
  pub key_ok : Seed.validate_ssh_pubkey c.ssh_pubkey ≡ ok tt
  pub volumes_ok : Seed.volume_lines c.volumes ≡ ok volumes
  pub hosts_ok : Seed.host_lines c.extra_hosts ≡ ok hosts
  pub process_ok : Seed.process_lines c.process ≡ ok process
  pub health_ok : Seed.health_lines c.healthcheck ≡ ok health
  pub text_eq :
      text
      ≡ Seed.user_data_head c.ssh_pubkey
        ++ volumes
        ++ hosts
        ++ process
        ++ health
        ++ Seed.user_data_tail

pub build_user_data-Parts :
    (c : Seed.SeedConfig) (text : Str) → Seed.build_user_data c ≡ ok text → Parts c text
unfolding Seed.build_user_data
build_user_data-Parts c text h = elim (Result-cases (Seed.validate_ssh_pubkey c.ssh_pubkey)) [
  | inr (e, e') ↦ absurd (ground arith)
  | inl (tt, e1) ↦ elim (Result-cases (Seed.volume_lines c.volumes)) [
    | inr (e, e') ↦ absurd (ground arith)
    | inl (volumes, e2) ↦ elim (Result-cases (Seed.host_lines c.extra_hosts)) [
      | inr (e, e') ↦ absurd (ground arith)
      | inl (hosts, e3) ↦ elim (Result-cases (Seed.process_lines c.process)) [
        | inr (e, e') ↦ absurd (ground arith)
        | inl (process, e4) ↦ elim (Result-cases (Seed.health_lines c.healthcheck)) [
          | inr (e, e') ↦ absurd (ground arith)
          | inl (health, e5) ↦ record {
            volumes = volumes;
            hosts = hosts;
            process = process;
            health = health;
            key_ok = e1;
            volumes_ok = e2;
            hosts_ok = e3;
            process_ok = e4;
            health_ok = e5;
            text_eq = ground arith;
          }
        ]
      ]
    ]
  ]
]
