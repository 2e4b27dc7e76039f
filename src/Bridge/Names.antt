-- ===== src/Bridge/Names.antt =====
-- src/network/bridge.rs: which interface names are accepted, and what happens for the others.
use vm_rs.Prelude.{ℕ, ◌≢◌, [], ◌∷◌, ◌≡◌, refl, ◌↔◌, ◌≤◌, inl, inr, ◌⊎◌, true, false, ◌||◌, arith}
use vm_rs.Prelude.Tests.{ltb, Bool-cases}
use vm_rs.Prelude.Lists.{All, All-map, all, all→All, All→all}
use vm_rs.Prelude.Text.{Str, len, is_empty}
use vm_rs.Result.{Result, ok, err, VmError, Result-cases}
use vm_rs.Bridge

-- A letter, a digit, a hyphen or an underscore of ASCII.
abbrev pub IsInterfaceChar : ℕ → Type 0
IsInterfaceChar c =
    ((b'0' ≤ c) × (c ≤ b'9'))
    ⊎ ((b'A' ≤ c) × (c ≤ b'Z'))
    ⊎ ((b'a' ≤ c) × (c ≤ b'z'))
    ⊎ (c ≡ b'-')
    ⊎ (c ≡ b'_')

is_interface_char→IsInterfaceChar : (c : ℕ) → Bridge.is_interface_char c ≡ true → IsInterfaceChar c
unfolding Bridge.is_interface_char
is_interface_char→IsInterfaceChar c h = ground arith

IsInterfaceChar→is_interface_char : (c : ℕ) → IsInterfaceChar c → Bridge.is_interface_char c ≡ true
unfolding Bridge.is_interface_char
IsInterfaceChar→is_interface_char c h = ground arith

-- One to fifteen bytes of letters, digits, hyphens and underscores.
abbrev pub IsInterfaceName : Str → Type 0
IsInterfaceName name = (name ≢ []) × (len name ≤ 15) × All IsInterfaceChar name

nonempty_iff : (name : Str) → (is_empty name ≡ false) ↔ (name ≢ [])
unfolding is_empty
nonempty_iff [] = (λ h. cc, λ h. absurd (h refl))
nonempty_iff (c ∷ name) = (λ h e. cc, λ h. refl)

pub validate_interface_name_iff :
    (name : Str) → (Bridge.validate_interface_name name ≡ ok tt) ↔ IsInterfaceName name
unfolding Bridge.validate_interface_name
validate_interface_name_iff name = (
  λ h. elim (Bool-cases (is_empty name || ltb 15 (len name))) [
    | inl bad ↦ absurd (clash (rw bad at h))
    | inr sized ↦ elim (Bool-cases (all Bridge.is_interface_char name)) [
      | inr bad ↦ absurd (clash (rw (sized, bad) at h))
      | inl good ↦ (
        (nonempty_iff name).0 (ground arith),
        ground arith,
        All-map is_interface_char→IsInterfaceChar name (all→All Bridge.is_interface_char name good),
      )
    ]
  ],
  λ (nonempty, short, chars).
      let there = (nonempty_iff name).1 nonempty in
      let sized : (is_empty name || ltb 15 (len name)) ≡ false = ground arith in
      let good =
        All→all Bridge.is_interface_char name
          (All-map IsInterfaceChar→is_interface_char name chars) in
      rw (sized, good) refl,
)
  where
    clash : {x : VmError} → Path (Result VmError (Unit {0})) (err x) (ok tt) → ⊥
    clash e = cc

module _ {W : Type 0} (host : Bridge.NetHost W) where
  -- The call goes on with accepted names only; otherwise it is an error and the host is untouched.
  abbrev pub Guarded : Type 0 → Result VmError (Unit {0}) × W → W → Type 0
  Guarded accepted after w = accepted ⊎ ((e : VmError) × (after ≡ (err e, w)))

  -- `ensure_bridge`, `create_tap` and `add_to_bridge` with an interface name that is not one to
  -- fifteen bytes of ASCII letters, digits, hyphens and underscores return an error and leave
  -- the host alone: no program is run with such a name.
  pub interface_guard :
      (name bridge gateway_ip subnet : Str) (w : W)
      → Guarded (IsInterfaceName name) (Bridge.ensure_bridge host name gateway_ip subnet w) w
        × Guarded (IsInterfaceName name) (Bridge.create_tap host name w) w
        × Guarded
            (IsInterfaceName name × IsInterfaceName bridge)
            (Bridge.add_to_bridge host name bridge w)
            w
  unfolding Bridge.ensure_bridge Bridge.create_tap Bridge.add_to_bridge
  interface_guard name bridge gateway_ip subnet w =
      elim (Result-cases (Bridge.validate_interface_name name)) [
        | inr (e, bad) ↦ (inr (e, rw bad refl), inr (e, rw bad refl), inr (e, rw bad refl))
        | inl (_, good) ↦
            let named = (validate_interface_name_iff name).0 good in
            (
              inl named,
              inl named,
              elim (Result-cases (Bridge.validate_interface_name bridge)) [
                | inr (e, bad) ↦ inr (e, rw (good, bad) refl)
                | inl (_, good') ↦ inl (named, (validate_interface_name_iff bridge).0 good')
              ],
            )
      ]
