-- ===== src/Seed/Lines.antt =====
-- `build_user_data` (src/setup/seed.rs), read as YAML lines: what an accepted configuration can put into
-- the lines that cloud-init reads.
use vm_rs.Prelude.{ℕ, suc, ◌+◌, ◌≡◌, true, Option, none, some, List, [], ◌∷◌, arith}
use vm_rs.Prelude.Lists.{length}
use vm_rs.Prelude.Text.{Str}
use vm_rs.Result.{ok}
use vm_rs.Seed
use vm_rs.Seed.Parts.{
  volume_lines-eq-ok, host_lines-eq-ok, env_lines-eq-ok, process_lines-eq-ok, start_line-none,
  start_line-some, health_lines-eq-ok, build_user_data-Parts,
}
use vm_rs.Seed.Breaks.{
  breaks, breaks_laws, breaks-append, breaks-hostname, breaks-ip, breaks-tag, breaks-env_name,
  breaks-mount_point, breaks-fragment, breaks-ssh_pubkey,
}

breaks-volume_line :
    (v : Seed.VolumeMountConfig)
    → Seed.is_safe_mount_tag v.tag ≡ true
    → Seed.is_safe_mount_point v.mount_point ≡ true
    → breaks (Seed.volume_line v) ≡ 1
unfolding Seed.volume_line breaks
breaks-volume_line v ht hm =
    simp breaks_laws (omega (arith, breaks-tag v.tag ht, breaks-mount_point v.mount_point hm))

breaks-volume_lines :
    (vs : List Seed.VolumeMountConfig) (text : Str)
    → Seed.volume_lines vs ≡ ok text
    → breaks text ≡ length vs
unfolding Seed.volume_lines breaks
breaks-volume_lines [] text h = ground arith
breaks-volume_lines (v ∷ vs) text h =
    let (rest, e, tag, mount, eq) = volume_lines-eq-ok v vs text h in
    rw
      (
        eq,
        breaks-append (Seed.volume_line v) rest,
        breaks-volume_line v tag mount,
        breaks-volume_lines vs rest e,
      )
      (omega arith)

breaks-host_lines :
    (hosts : List (Str × Str)) (text : Str)
    → Seed.host_lines hosts ≡ ok text
    → breaks text ≡ length hosts
unfolding Seed.host_lines breaks
breaks-host_lines [] text h = ground arith
breaks-host_lines ((host, ip) ∷ hosts) text h =
    let (rest, e, h', i', eq) = host_lines-eq-ok host ip hosts text h in
    rw eq (
      simp breaks_laws
        (omega (arith, breaks-hostname host h', breaks-ip ip i', breaks-host_lines hosts rest e)))

-- One line for each variable, and one more for each line feed in its value, which nothing checks.
unfoldable pub env_count : List (Str × Str) → ℕ
unfolding breaks
env_count [] = 0
env_count ((k, v) ∷ env) = suc (breaks v + env_count env)

breaks-env_lines :
    (env : List (Str × Str)) (text : Str)
    → Seed.env_lines env ≡ ok text
    → breaks text ≡ env_count env
unfolding Seed.env_lines breaks env_count
breaks-env_lines [] text h = ground arith
breaks-env_lines ((k, v) ∷ env) text h =
    let (rest, e, k', eq) = env_lines-eq-ok k v env text h in
    rw eq (simp breaks_laws (omega (arith, breaks-env_name k k', breaks-env_lines env rest e)))

breaks-start_line :
    (wd : Option Str) (command text : Str)
    → Seed.is_safe_shell_fragment command ≡ true
    → Seed.start_line wd command ≡ ok text
    → breaks text ≡ 1
unfolding breaks
breaks-start_line none command text h e =
    rw (start_line-none command text e)
      (simp breaks_laws (omega (arith, breaks-fragment command h)))
breaks-start_line (some wd) command text h e =
    let (w', eq) = start_line-some wd command text e in
    rw eq (simp breaks_laws (omega (arith, breaks-fragment command h, breaks-mount_point wd w')))

unfoldable pub process_count : Option Seed.ProcessConfig → ℕ
unfolding env_count
process_count none = 0
process_count (some p) = suc (env_count p.env)

breaks-process_lines :
    (p : Option Seed.ProcessConfig) (text : Str)
    → Seed.process_lines p ≡ ok text
    → breaks text ≡ process_count p
unfolding process_count breaks Seed.process_lines
breaks-process_lines none text h = ground arith
breaks-process_lines (some p) text h =
    let (exports, command, e, s, safe, eq) = process_lines-eq-ok p text h in
    rw
      (
        eq,
        breaks-append exports command,
        breaks-env_lines p.env exports e,
        breaks-start_line p.workdir p.command command safe s,
      )
      (omega arith)

unfoldable pub health_count : Option Seed.HealthCheckConfig → ℕ
health_count none = 0
health_count (some hc) = 1

breaks-health_lines :
    (hc : Option Seed.HealthCheckConfig) (text : Str)
    → Seed.health_lines hc ≡ ok text
    → breaks text ≡ health_count hc
unfolding health_count breaks Seed.health_lines
breaks-health_lines none text h = ground arith
breaks-health_lines (some hc) text h =
    let (safe, eq) = health_lines-eq-ok hc text h in
    rw eq (simp breaks_laws (omega (arith, breaks-fragment hc.command safe)))

-- The line feeds of an accepted `user-data` are six for its frame and one for each volume, extra
-- host, environment variable, process command and health check, plus those inside the values of
-- the environment: no other field of the configuration adds a line.
pub breaks-build_user_data :
    (c : Seed.SeedConfig) (text : Str)
    → Seed.build_user_data c ≡ ok text
    → breaks text
      ≡ 6
        + length c.volumes
        + length c.extra_hosts
        + process_count c.process
        + health_count c.healthcheck
unfolding breaks Seed.user_data_head Seed.user_data_tail
breaks-build_user_data c text h =
    let p = build_user_data-Parts c text h in
    rw p.text_eq (
      simp breaks_laws (
        omega (
          arith,
          breaks-ssh_pubkey c.ssh_pubkey p.key_ok,
          breaks-volume_lines c.volumes p.volumes p.volumes_ok,
          breaks-host_lines c.extra_hosts p.hosts p.hosts_ok,
          breaks-process_lines c.process p.process p.process_ok,
          breaks-health_lines c.healthcheck p.health p.health_ok,
        )))
