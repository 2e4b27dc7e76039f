-- ===== src/Seed.antt =====
-- src/setup/seed.rs: the cloud-init seed, that is its configuration, the checks of its fields, and the
-- texts of `user-data` and `network-config`. src/setup/mod.rs: `SetupError`.
pub mod Iso
pub mod Cleanup
pub mod Watched
pub mod Quoting
pub mod Parts
pub mod Breaks
pub mod Lines
pub mod Network
use vm_rs.Prelude.{ℕ, Bool, true, false, ◌&&◌, ◌||◌, Option, none, some, List, [], ◌∷◌, ◌++◌}
use vm_rs.Prelude.Tests.{leb, not, ◌==◌, if◌then◌else◌}
use vm_rs.Prelude.Lists.{all}
use vm_rs.Prelude.Text.{
  Str, codes, len, is_empty, starts_with, split_once, contains_char, first_word, trim_start,
  after_word, decimal, parse_unsigned, is_ascii_digit, is_ascii_alphanumeric, is_ascii_hexdigit,
}
use vm_rs.Result.{Result, ok, err, IoError, ◌>>=◌, ◌>>◌, refuse_if}
use vm_rs.Config.{ready_marker}

pub data SetupError : Type 0 where
  io : IoError → SetupError
  iso_creation asset_download config unsupported_image : Str → SetupError

pub record NicConfig : Type 0 where
  pub name : Str
  pub ip : Str
  pub gateway : Option Str

pub record ProcessConfig : Type 0 where
  pub command : Str
  pub workdir : Option Str
  pub env : List (Str × Str)

pub record VolumeMountConfig : Type 0 where
  pub tag : Str
  pub mount_point : Str
  pub read_only : Bool

pub record HealthCheckConfig : Type 0 where
  pub command : Str
  pub interval_secs : ℕ
  pub retries : ℕ

pub record SeedConfig : Type 0 where
  pub hostname : Str
  pub ssh_pubkey : Str
  pub nics : List NicConfig
  pub process : Option ProcessConfig
  pub volumes : List VolumeMountConfig
  pub healthcheck : Option HealthCheckConfig
  pub extra_hosts : List (Str × Str)

-- The characters that `shell_quote` writes for one character of the text.
unfoldable pub quote_char : ℕ → Str
quote_char c = if c == b'\'' then codes "'\\''" else c ∷ []

unfoldable pub quote_chars : Str → Str
unfolding quote_char
quote_chars [] = []
quote_chars (c ∷ s) = quote_char c ++ quote_chars s

unfoldable pub shell_quote : Str → Str
unfolding quote_chars
shell_quote s = codes "'" ++ quote_chars s ++ codes "'"

unfoldable pub is_env_char : ℕ → Bool
is_env_char c = is_ascii_alphanumeric c || c == b'_'

unfoldable pub starts_with_digit : Str → Bool
starts_with_digit [] = false
starts_with_digit (c ∷ s) = is_ascii_digit c

unfoldable pub is_safe_env_name : Str → Bool
unfolding starts_with_digit is_env_char
is_safe_env_name s =
    not (is_empty s) && leb (len s) 256 && all is_env_char s && not (starts_with_digit s)

unfoldable pub is_host_char : ℕ → Bool
is_host_char c = is_ascii_alphanumeric c || c == b'-' || c == b'.'

unfoldable pub is_safe_hostname : Str → Bool
unfolding is_host_char
is_safe_hostname s = not (is_empty s) && leb (len s) 253 && all is_host_char s

unfoldable pub is_ip_char : ℕ → Bool
is_ip_char c = is_ascii_hexdigit c || c == b'.' || c == b':'

unfoldable pub is_safe_ip : Str → Bool
unfolding is_ip_char
is_safe_ip s = not (is_empty s) && leb (len s) 45 && all is_ip_char s

unfoldable pub is_safe_prefix : Option ℕ → Bool
is_safe_prefix (some bits) = leb bits 128
is_safe_prefix none = false

unfoldable pub is_safe_split : Option (Str × Str) → Bool
unfolding is_safe_ip is_safe_prefix
is_safe_split none = false
is_safe_split (some (ip, prefix)) =
    if not (is_safe_ip ip) then false else is_safe_prefix (parse_unsigned 255 prefix)

unfoldable pub is_safe_cidr : Str → Bool
unfolding is_safe_split split_once
is_safe_cidr s = is_safe_split (split_once (codes "/") s)

unfoldable pub is_tag_char : ℕ → Bool
is_tag_char c = is_ascii_alphanumeric c || c == b'-' || c == b'_' || c == b'.'

unfoldable pub is_safe_mount_tag : Str → Bool
unfolding is_tag_char
is_safe_mount_tag s = not (is_empty s) && leb (len s) 128 && all is_tag_char s

unfoldable pub is_safe_mount_point : Str → Bool
is_safe_mount_point s =
    starts_with s (codes "/")
    && not (contains_char 0 s)
    && not (contains_char 10 s)
    && not (contains_char 13 s)
    && leb (len s) 1024

unfoldable pub is_iface_char : ℕ → Bool
is_iface_char c = is_ascii_alphanumeric c || c == b'-' || c == b'_'

unfoldable pub is_safe_iface_name : Str → Bool
unfolding is_iface_char
is_safe_iface_name s = not (is_empty s) && leb (len s) 15 && all is_iface_char s

unfoldable pub is_safe_shell_fragment : Str → Bool
is_safe_shell_fragment s =
    not (contains_char 0 s) && not (contains_char 10 s) && not (contains_char 13 s)

unfoldable pub require_word : Option Str → SetupError → Result SetupError Str
require_word (some word) e = ok word
require_word none e = err e

unfoldable pub validate_ssh_pubkey : Str → Result SetupError (Unit {0})
unfolding require_word
validate_ssh_pubkey s = do
  refuse_if (contains_char 0 s || contains_char 10 s || contains_char 13 s)
      (config (codes "SSH public key must be a single line without NUL bytes"))
  key_type ← require_word (first_word s) (config (codes "SSH public key is empty"))
  key_material ←
      require_word (first_word (after_word (trim_start s)))
        (config (codes "SSH public key is missing key material"))
  refuse_if
      (not (starts_with key_type (codes "ssh-")) && not (starts_with key_type (codes "ecdsa-")))
      (config (codes "unsupported SSH public key type '" ++ key_type ++ codes "'"))
  refuse_if (is_empty key_material) (config (codes "SSH public key is missing key material"))
  ok tt

unfoldable pub volume_line : VolumeMountConfig → Str
unfolding shell_quote
volume_line vol =
    codes "  - mkdir -p "
    ++ shell_quote vol.mount_point
    ++ codes " && mount -t virtiofs "
    ++ shell_quote vol.tag
    ++ codes " "
    ++ shell_quote vol.mount_point
    ++ (if vol.read_only then codes " -o ro" else [])
    ++ codes "\n"

unfoldable pub volume_lines : List VolumeMountConfig → Result SetupError Str
unfolding volume_line
volume_lines [] = ok []
volume_lines (vol ∷ vols) = do
  refuse_if (not (is_safe_mount_tag vol.tag))
      (config (codes "invalid VirtioFS tag '" ++ vol.tag ++ codes "'"))
  refuse_if (not (is_safe_mount_point vol.mount_point))
      (config (codes "invalid mount point '" ++ vol.mount_point ++ codes "'"))
  rest ← volume_lines vols
  ok (volume_line vol ++ rest)

unfoldable pub host_line : Str → Str → Str
host_line host ip = codes "  - echo '" ++ ip ++ codes " " ++ host ++ codes "' >> /etc/hosts\n"

unfoldable pub host_lines : List (Str × Str) → Result SetupError Str
unfolding host_line
host_lines [] = ok []
host_lines ((host, ip) ∷ hosts) = do
  refuse_if (not (is_safe_hostname host) || not (is_safe_ip ip))
      (config (codes "unsafe /etc/hosts entry: " ++ ip ++ codes " " ++ host))
  rest ← host_lines hosts
  ok (host_line host ip ++ rest)

unfoldable pub env_line : Str → Str → Str
unfolding shell_quote
env_line k v = codes "  - export " ++ k ++ codes "=" ++ shell_quote v ++ codes "\n"

unfoldable pub env_lines : List (Str × Str) → Result SetupError Str
unfolding env_line
env_lines [] = ok []
env_lines ((k, v) ∷ env) = do
  refuse_if (not (is_safe_env_name k))
      (config (codes "unsafe environment variable name '" ++ k ++ codes "'"))
  rest ← env_lines env
  ok (env_line k v ++ rest)

unfoldable pub start_line : Option Str → Str → Result SetupError Str
unfolding shell_quote
start_line (some wd) command = do
  refuse_if (not (is_safe_mount_point wd))
      (config (codes "invalid working directory '" ++ wd ++ codes "'"))
  ok (codes "  - cd " ++ shell_quote wd ++ codes " && sh -lc " ++ shell_quote command ++ codes "\n")
start_line none command = ok (codes "  - sh -lc " ++ shell_quote command ++ codes "\n")

unfoldable pub process_lines : Option ProcessConfig → Result SetupError Str
unfolding env_lines start_line
process_lines none = ok []
process_lines (some proc) = do
  refuse_if (not (is_safe_shell_fragment proc.command))
      (config (codes "process command contains unsafe control characters"))
  exports ← env_lines proc.env
  command ← start_line proc.workdir proc.command
  ok (exports ++ command)

unfoldable pub health_lines : Option HealthCheckConfig → Result SetupError Str
unfolding shell_quote
health_lines none = ok []
health_lines (some hc) = do
  refuse_if (not (is_safe_shell_fragment hc.command))
      (config (codes "healthcheck command contains unsafe control characters"))
  ok (
      codes "  - while true; do sh -lc "
      ++ shell_quote hc.command
      ++ codes
          " > /tmp/vmrs-health 2>&1 && echo 'healthy' >> /tmp/vmrs-health || echo 'unhealthy' >> /tmp/vmrs-health; sleep "
      ++ decimal hc.interval_secs
      ++ codes "; done &\n")

unfoldable pub user_data_head : Str → Str
user_data_head key =
    codes "#cloud-config\nssh_authorized_keys:\n  - "
    ++ key
    ++ codes "\ndisable_root: false\nruncmd:\n"

unfoldable pub user_data_tail : Str
user_data_tail =
    codes "  - echo \""
    ++ ready_marker
    ++ codes " $("
    ++ codes "hostname -I | awk '{print $1}'"
    ++ codes ")\"\n"

unfoldable pub build_user_data : SeedConfig → Result SetupError Str
unfolding validate_ssh_pubkey volume_lines host_lines process_lines health_lines
build_user_data c = do
  validate_ssh_pubkey c.ssh_pubkey
  volumes ← volume_lines c.volumes
  hosts ← host_lines c.extra_hosts
  process ← process_lines c.process
  health ← health_lines c.healthcheck
  ok (user_data_head c.ssh_pubkey ++ volumes ++ hosts ++ process ++ health ++ user_data_tail)

unfoldable pub gateway_lines : Option Str → Result SetupError Str
gateway_lines none = ok []
gateway_lines (some gw) = do
  refuse_if (not (is_safe_ip gw)) (config (codes "invalid gateway '" ++ gw ++ codes "'"))
  ok (codes "    routes:\n      - to: default\n        via: " ++ gw ++ codes "\n")

unfoldable pub nic_lines : List NicConfig → Result SetupError Str
unfolding gateway_lines
nic_lines [] = ok []
nic_lines (nic ∷ nics) = do
  refuse_if (not (is_safe_iface_name nic.name))
      (config (codes "invalid interface name '" ++ nic.name ++ codes "'"))
  refuse_if (not (is_safe_cidr nic.ip))
      (config (codes "invalid interface address '" ++ nic.ip ++ codes "'"))
  gateway ← gateway_lines nic.gateway
  rest ← nic_lines nics
  ok (
      codes "  "
      ++ nic.name
      ++ codes ":\n"
      ++ codes "    addresses: ["
      ++ nic.ip
      ++ codes "]\n"
      ++ gateway
      ++ rest)

unfoldable pub build_network_config : SeedConfig → Result SetupError Str
unfolding nic_lines
build_network_config c = do nics ← nic_lines c.nics; ok (codes "version: 2\nethernets:\n" ++ nics)
