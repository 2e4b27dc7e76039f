-- ===== src/Bridge.antt =====
-- src/network/bridge.rs: bridges, TAP devices and address translation, over a host that runs programs and writes
-- files.
pub mod Names
use vm_rs.Prelude.{ℕ, Bool, true, false, ◌&&◌, ◌||◌, Option, none, some, List, [], ◌∷◌, ◌++◌}
use vm_rs.Prelude.Tests.{ltb, not, ◌==◌, if◌then◌else◌}
use vm_rs.Prelude.Lists.{all}
use vm_rs.Prelude.Text.{Str, codes, len, is_empty, is_ascii_alphanumeric, contains, trim, decimal}
use vm_rs.Prelude.Split.{split_on}
use vm_rs.Result.{Result, ok, err, IoError, VmError, invalid_config, hypervisor, map_err, refuse_if}
use vm_rs.Result
use vm_rs.Exec.{Exec, pure, raise, lift, ◌>>=◌, ◌>>◌}

-- What a program returned: whether it succeeded, its status as text, and its two outputs as text.
pub record Output : Type 0 where
  pub success : Bool
  pub status : Str
  pub stdout : Str
  pub stderr : Str

pub record NetHost (W : Type 0) : Type 0 where
  pub run : (program : Str) (args : List Str) → Exec W IoError Output
  pub write : (path text : Str) → Exec W IoError (Unit {0})

unfoldable pub is_interface_char : ℕ → Bool
unfolding is_ascii_alphanumeric
is_interface_char c = is_ascii_alphanumeric c || c == b'-' || c == b'_'

unfoldable pub validate_interface_name : Str → Result VmError (Unit {0})
unfolding is_interface_char all len is_empty
validate_interface_name name =
    Result.◌>>◌
      (refuse_if (is_empty name || ltb 15 (len name)) (
        invalid_config (
          codes "interface name must be 1-15 characters, got "
          ++ decimal (len name)
          ++ codes " characters")))
      (refuse_if (not (all is_interface_char name)) (
        invalid_config (
          codes "interface name '"
          ++ name
          ++ codes
              "' contains invalid characters (only alphanumeric, hyphen, underscore allowed)")))

-- `args.join(" ")`
unfoldable pub join_words : List Str → Str
join_words [] = []
join_words (word ∷ []) = word
join_words (word ∷ next ∷ words) = word ++ codes " " ++ join_words (next ∷ words)

-- The last piece, of which there is always one.
unfoldable pub last_piece : List Str → Str
last_piece [] = codes "24"
last_piece (piece ∷ []) = piece
last_piece (piece ∷ next ∷ pieces) = last_piece (next ∷ pieces)

unfoldable pub gateway_cidr : Str → Str → Str
unfolding last_piece split_on
gateway_cidr gateway_ip subnet_cidr =
    gateway_ip ++ codes "/" ++ last_piece (split_on b'/' subnet_cidr)

module _ {W : Type 0} (host : NetHost W) where
  abbrev pub host_failed : {A : Type 0} → Str → Exec W IoError A → Exec W VmError A
  host_failed what call w =
      let after = call w in
      (map_err (λ (e : IoError). hypervisor (what ++ e.message)) after.0, after.1)

  -- An answer that the thing exists counts as success.
  unfoldable pub ip_result : List Str → Output → Result VmError (Unit {0})
  unfolding join_words contains trim
  ip_result args output =
      if output.success
      then ok tt
      else if contains output.stderr (codes "File exists")
      then ok tt
      else err
          (hypervisor (codes "ip " ++ join_words args ++ codes " failed: " ++ trim output.stderr))

  unfoldable pub run_ip : List Str → Exec W VmError (Unit {0})
  unfolding ip_result join_words
  run_ip args = do
    output ←
        host_failed (codes "failed to run ip " ++ join_words args ++ codes ": ")
          (host.run (codes "ip") args)
    lift (ip_result args output)

  unfoldable pub succeeded : Result IoError Output → Bool
  succeeded (ok output) = output.success
  succeeded (err e) = false

  unfoldable pub link_exists : Str → W → Bool × W
  unfolding succeeded
  link_exists name w =
      let after = host.run (codes "ip") (codes "link" ∷ codes "show" ∷ codes "dev" ∷ name ∷ []) w in
      (succeeded after.0, after.1)

  unfoldable pub nat_args : Str → Str → Str → List Str
  nat_args action bridge subnet =
      codes "-t"
      ∷ codes "nat"
      ∷ action
      ∷ codes "POSTROUTING"
      ∷ codes "-s"
      ∷ subnet
      ∷ codes "!"
      ∷ codes "-o"
      ∷ bridge
      ∷ codes "-j"
      ∷ codes "MASQUERADE"
      ∷ []

  unfoldable pub rule_added : Output → Result VmError (Unit {0})
  rule_added output =
      if output.success
      then ok tt
      else err (
          hypervisor (
            codes "iptables MASQUERADE rule failed (exit "
            ++ output.status
            ++ codes "). Are you running as root?"))

  unfoldable pub add_rule : Str → Str → Exec W VmError (Unit {0})
  unfolding nat_args rule_added
  add_rule bridge subnet = do
    output ←
        host_failed (codes "failed to add iptables NAT rule: ")
          (host.run (codes "iptables") (nat_args (codes "-A") bridge subnet))
    lift (rule_added output)

  unfoldable pub setup_nat : Str → Str → Exec W VmError (Unit {0})
  unfolding nat_args add_rule succeeded
  setup_nat bridge subnet w =
      let check = host.run (codes "iptables") (nat_args (codes "-C") bridge subnet) w in
      if succeeded check.0 then (ok tt, check.1) else add_rule bridge subnet check.1

  unfoldable pub create_link : Str → Exec W VmError (Unit {0})
  unfolding link_exists run_ip
  create_link name w =
      let (there, w') = link_exists name w in
      if there
      then (ok tt, w')
      else run_ip (codes "link" ∷ codes "add" ∷ name ∷ codes "type" ∷ codes "bridge" ∷ []) w'

  unfoldable pub assign_address : Str → Str → Output → Exec W VmError (Unit {0})
  unfolding run_ip contains
  assign_address name cidr output =
      if contains output.stdout cidr
      then pure tt
      else run_ip (codes "addr" ∷ codes "add" ∷ cidr ∷ codes "dev" ∷ name ∷ [])

  unfoldable pub bring_up : Str → Str → Str → Exec W VmError (Unit {0})
  unfolding create_link run_ip assign_address gateway_cidr setup_nat
  bring_up name gateway_ip subnet_cidr = do
    create_link name
    run_ip (codes "link" ∷ codes "set" ∷ name ∷ codes "up" ∷ [])
    shown ←
        host_failed (codes "failed to check bridge address: ")
          (host.run (codes "ip") (codes "addr" ∷ codes "show" ∷ codes "dev" ∷ name ∷ []))
    assign_address name (gateway_cidr gateway_ip subnet_cidr) shown
    host_failed (codes "failed to enable IPv4 forwarding for bridge '" ++ name ++ codes "': ")
        (host.write (codes "/proc/sys/net/ipv4/ip_forward") (codes "1"))
    setup_nat name subnet_cidr

  unfoldable pub ensure_bridge : Str → Str → Str → Exec W VmError (Unit {0})
  unfolding validate_interface_name bring_up
  ensure_bridge name gateway_ip subnet_cidr = do
    lift (validate_interface_name name)
    bring_up name gateway_ip subnet_cidr

  unfoldable pub create_tap : Str → Exec W VmError (Unit {0})
  unfolding validate_interface_name run_ip
  create_tap name = do
    lift (validate_interface_name name)
    run_ip (codes "tuntap" ∷ codes "add" ∷ codes "dev" ∷ name ∷ codes "mode" ∷ codes "tap" ∷ [])
    run_ip (codes "link" ∷ codes "set" ∷ name ∷ codes "up" ∷ [])

  unfoldable pub add_to_bridge : Str → Str → Exec W VmError (Unit {0})
  unfolding validate_interface_name run_ip
  add_to_bridge tap bridge = do
    lift (validate_interface_name tap)
    lift (validate_interface_name bridge)
    run_ip (codes "link" ∷ codes "set" ∷ tap ∷ codes "master" ∷ bridge ∷ [])

  -- Best effort: what the programs return is only logged.
  unfoldable pub delete_tap : Str → W → W
  delete_tap name w =
      (host.run (codes "ip")
        (codes "tuntap" ∷ codes "del" ∷ codes "dev" ∷ name ∷ codes "mode" ∷ codes "tap" ∷ []) w).1

  unfoldable pub delete_bridge : Str → W → W
  delete_bridge name w =
      let down =
        (host.run (codes "ip") (codes "link" ∷ codes "set" ∷ name ∷ codes "down" ∷ []) w).1 in
      (host.run (codes "ip")
        (codes "link" ∷ codes "del" ∷ name ∷ codes "type" ∷ codes "bridge" ∷ []) down).1
