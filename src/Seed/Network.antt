-- ===== src/Seed/Network.antt =====
-- `build_network_config` (src/setup/seed.rs), read as YAML lines, and the CIDR addresses in it.
use vm_rs.Prelude.{
  ℕ, ◌+◌, ◌-◌, ◌*◌, ◌≤◌, ◌≡◌, refl, inl, inr, true, ◌&&◌, Option, none, some, List, [], ◌∷◌, ◌++◌,
  arith,
}
use vm_rs.Prelude.Tests.{◌==◌, Bool-cases, leb, if-eq-some}
use vm_rs.Prelude.Text.{Str, codes, is_ascii_digit, split_once, parse_unsigned, parse_digits}
use vm_rs.Result.{ok, Result-cases}
use vm_rs.Seed
use vm_rs.Seed.Parts.{gateway_lines-some, nic_lines-eq-ok}
use vm_rs.Seed.Breaks.{breaks, breaks_laws, breaks-ip, breaks-iface}
use vm_rs.Prelude.Find.{split_once-eq-some}

breaks-parse_digits :
    (max acc : ℕ) (s : Str) (n : ℕ) → parse_digits max acc s ≡ some n → breaks s ≡ 0
unfolding parse_digits breaks is_ascii_digit
breaks-parse_digits max acc [] n h = refl
breaks-parse_digits max acc (c ∷ s) n h =
    let next = acc * 10 + (c - b'0') in
    let (d, e) = if-eq-some (is_ascii_digit c && leb next max) (parse_digits max next s) h in
    let more = breaks-parse_digits max next s n e in ground arith

breaks-parse_unsigned : (max : ℕ) (s : Str) (n : ℕ) → parse_unsigned max s ≡ some n → breaks s ≡ 0
unfolding parse_unsigned breaks
breaks-parse_unsigned max [] n h = refl
breaks-parse_unsigned max (c ∷ []) n h = elim (Bool-cases (c == b'+')) [
  | inl yes' ↦ absurd (ground arith)
  | inr no' ↦ breaks-parse_digits max 0 (c ∷ []) n (ground arith)
]
breaks-parse_unsigned max (c ∷ d ∷ s) n h = elim (Bool-cases (c == b'+')) [
  | inl yes' ↦ let more = breaks-parse_digits max 0 (d ∷ s) n (ground arith) in ground arith
  | inr no' ↦ breaks-parse_digits max 0 (c ∷ d ∷ s) n (ground arith)
]

safe_prefix :
    (o : Option ℕ) → Seed.is_safe_prefix o ≡ true → (bits : ℕ) × (o ≡ some bits) × (bits ≤ 128)
unfolding Seed.is_safe_prefix
safe_prefix none h = cc
safe_prefix (some bits) h = (bits, refl, ground arith)

safe_split :
    (o : Option (Str × Str))
    → Seed.is_safe_split o ≡ true
    → (ip prefix : Str) × (o ≡ some (ip, prefix))
      × (Seed.is_safe_ip ip ≡ true)
      × (Seed.is_safe_prefix (parse_unsigned 255 prefix) ≡ true)
unfolding Seed.is_safe_split
safe_split none h = cc
safe_split (some (ip, prefix)) h = (ip, prefix, refl, ground arith, ground arith)

-- An accepted CIDR address is an accepted address, a slash, and a number of at most 128.
pub is_safe_cidr_lem :
    (s : Str)
    → Seed.is_safe_cidr s ≡ true
    → (ip prefix : Str) × (bits : ℕ) × (s ≡ ip ++ (codes "/" ++ prefix))
      × (Seed.is_safe_ip ip ≡ true)
      × (parse_unsigned 255 prefix ≡ some bits)
      × (bits ≤ 128)
unfolding Seed.is_safe_cidr
is_safe_cidr_lem s h =
    let (ip, prefix, e, safe, p) = safe_split (split_once (codes "/") s) h in
    let (bits, parsed, small) = safe_prefix (parse_unsigned 255 prefix) p in
    (ip, prefix, bits, split_once-eq-some (codes "/") s ip prefix e, safe, parsed, small)

breaks-cidr : (s : Str) → Seed.is_safe_cidr s ≡ true → breaks s ≡ 0
unfolding breaks
breaks-cidr s h =
    let (ip, prefix, bits, eq, safe, parsed, _) = is_safe_cidr_lem s h in
    rw eq (
      simp breaks_laws
        (omega (arith, breaks-ip ip safe, breaks-parse_unsigned 255 prefix bits parsed)))

unfoldable pub gateway_count : Option Str → ℕ
gateway_count none = 0
gateway_count (some gw) = 3

breaks-gateway_lines :
    (gw : Option Str) (text : Str)
    → Seed.gateway_lines gw ≡ ok text
    → breaks text ≡ gateway_count gw
unfolding gateway_count breaks Seed.gateway_lines
breaks-gateway_lines none text h = ground arith
breaks-gateway_lines (some gw) text h =
    let (safe, eq) = gateway_lines-some gw text h in
    rw eq (simp breaks_laws (omega (arith, breaks-ip gw safe)))

unfoldable pub nic_count : List Seed.NicConfig → ℕ
unfolding gateway_count
nic_count [] = 0
nic_count (nic ∷ nics) = 2 + gateway_count nic.gateway + nic_count nics

breaks-nic_lines :
    (nics : List Seed.NicConfig) (text : Str)
    → Seed.nic_lines nics ≡ ok text
    → breaks text ≡ nic_count nics
unfolding nic_count breaks Seed.nic_lines
breaks-nic_lines [] text h = ground arith
breaks-nic_lines (nic ∷ nics) text h =
    let (gateway, rest, e, e2, name', ip', eq) = nic_lines-eq-ok nic nics text h in
    rw eq (
      simp breaks_laws (
        omega (
          arith,
          breaks-iface nic.name name',
          breaks-cidr nic.ip ip',
          breaks-gateway_lines nic.gateway gateway e,
          breaks-nic_lines nics rest e2,
        )))

-- The line feeds of an accepted `network-config` are two for the head, two for each interface and
-- three for each gateway: no field of an interface adds a line.
pub breaks-build_network_config :
    (c : Seed.SeedConfig) (text : Str)
    → Seed.build_network_config c ≡ ok text
    → breaks text ≡ 2 + nic_count c.nics
unfolding Seed.build_network_config breaks
breaks-build_network_config c text h = elim (Result-cases (Seed.nic_lines c.nics)) [
  | inr (e, e') ↦ absurd (ground arith)
  | inl (nics, e) ↦
      let eq : text ≡ codes "version: 2\nethernets:\n" ++ nics = ground arith in
      rw eq (simp breaks_laws (omega (arith, breaks-nic_lines c.nics nics e)))
]
