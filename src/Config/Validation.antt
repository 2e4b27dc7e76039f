-- ===== src/Config/Validation.antt =====
-- `VmConfig::validate` (src/config.rs) against the rules for a name and the sizes, and what an
-- accepted name means for the directory that `VmManager::vm_dir` (src/vm/manager.rs) makes of it.
use vm_rs.Prelude.{
  ℕ, ◌≤◌, ◌<◌, ◌≡◌, ◌≢◌, refl, ap, inl, inr, ◌↔◌, ◌⊎◌, true, false, [], ◌∷◌, ◌++◌, arith,
}
use vm_rs.Prelude.Tests.{Bool-cases}
use vm_rs.Prelude.Lists.{All, all, all→All, All→all, All-map}
use vm_rs.Prelude.Text.{Str, codes, len, is_empty, starts_with}
use vm_rs.Result.{ok, err, VmError, invalid_config}
use vm_rs.Paths.{join, with_slash, join_relative, join-injective}
use vm_rs.Config.{VmConfig, validate, is_name_char}

-- The characters of a name, as the documentation of `validate` lists them.
abbrev pub IsNameChar : ℕ → Type 0
IsNameChar c =
    ((b'0' ≤ c) × (c ≤ b'9'))
    ⊎ ((b'A' ≤ c) × (c ≤ b'Z'))
    ⊎ ((b'a' ≤ c) × (c ≤ b'z'))
    ⊎ (c ≡ b'-')
    ⊎ (c ≡ b'_')
    ⊎ (c ≡ b'.')

is_name_char→IsNameChar : (c : ℕ) → is_name_char c ≡ true → IsNameChar c
unfolding is_name_char
is_name_char→IsNameChar c h = ground arith

IsNameChar→is_name_char : (c : ℕ) → IsNameChar c → is_name_char c ≡ true
unfolding is_name_char
IsNameChar→is_name_char c h = ground arith

pub record IsValid (c : VmConfig) : Type 0 where
  pub named : c.name ≢ []
  pub short : len c.name ≤ 128
  pub chars : All IsNameChar c.name
  pub no_dot : (rest : Str) → c.name ≢ b'.' ∷ rest
  pub no_dash : (rest : Str) → c.name ≢ b'-' ∷ rest
  pub some_cpu : 0 < c.cpus
  pub some_memory : 0 < c.memory_mb
  pub kernel : c.kernel ≢ []

starts_with_one : (s : Str) (p : ℕ) → starts_with s (p ∷ []) ≡ true → (rest : Str) × (s ≡ p ∷ rest)
unfolding starts_with
starts_with_one [] p h = cc
starts_with_one (c ∷ s) p h = (s, ground arith)

one_starts_with : (s : Str) (p : ℕ) (rest : Str) → s ≡ p ∷ rest → starts_with s (p ∷ []) ≡ true
unfolding starts_with
one_starts_with [] p rest h = cc
one_starts_with (c ∷ s) p rest h = ground arith

is_empty_nil : (s : Str) → is_empty s ≡ true → s ≡ []
unfolding is_empty
is_empty_nil [] h = refl
is_empty_nil (c ∷ s) h = cc

is_empty-nil : is_empty [] ≡ true
unfolding is_empty
is_empty-nil = refl

not-is_empty : (s : Str) → s ≢ [] → is_empty s ≡ false
unfolding is_empty
not-is_empty [] h = absurd (h refl)
not-is_empty (c ∷ s) h = refl

-- What the tests of `validate` say when all of them pass.
record Passes (c : VmConfig) : Type 0 where
  named : is_empty c.name ≡ false
  short : len c.name ≤ 128
  chars : all is_name_char c.name ≡ true
  no_dot : starts_with c.name (b'.' ∷ []) ≡ false
  no_dash : starts_with c.name (b'-' ∷ []) ≡ false
  some_cpu : 0 < c.cpus
  some_memory : 0 < c.memory_mb
  kernel : is_empty c.kernel ≡ false

validate-Passes : (c : VmConfig) → validate c ≡ ok tt → Passes c
unfolding validate
validate-Passes c h = ground arith

IsValid-of_Passes : {c : VmConfig} → Passes c → IsValid c
IsValid-of_Passes {c} p = record {
  named = λ e. cc (p.named, ap is_empty e, is_empty-nil);
  short = p.short;
  chars = All-map is_name_char→IsNameChar c.name (all→All is_name_char c.name p.chars);
  no_dot = λ rest e. cc (p.no_dot, one_starts_with c.name b'.' rest e);
  no_dash = λ rest e. cc (p.no_dash, one_starts_with c.name b'-' rest e);
  some_cpu = p.some_cpu;
  some_memory = p.some_memory;
  kernel = λ e. cc (p.kernel, ap is_empty e, is_empty-nil);
}

not-starts_with : (s : Str) (p : ℕ) → ((rest : Str) → s ≢ p ∷ rest) → starts_with s (p ∷ []) ≡ false
not-starts_with s p h = elim (Bool-cases (starts_with s (p ∷ []))) [
  | inl yes' ↦ let (rest, e) = starts_with_one s p yes' in absurd (h rest e)
  | inr no' ↦ no'
]

Passes-of_IsValid : {c : VmConfig} → IsValid c → Passes c
Passes-of_IsValid {c} v = record {
  named = not-is_empty c.name v.named;
  short = v.short;
  chars = All→all is_name_char c.name (All-map IsNameChar→is_name_char c.name v.chars);
  no_dot = not-starts_with c.name b'.' v.no_dot;
  no_dash = not-starts_with c.name b'-' v.no_dash;
  some_cpu = v.some_cpu;
  some_memory = v.some_memory;
  kernel = not-is_empty c.kernel v.kernel;
}

Passes-validate : (c : VmConfig) → Passes c → validate c ≡ ok tt
unfolding validate
Passes-validate c h = ground arith

-- `validate` accepts exactly the configurations whose name is not empty, has at most 128 bytes,
-- consists of letters, digits, hyphens, underscores and dots and starts with neither a dot nor a
-- hyphen, and which have a processor, some memory and a kernel path.
pub validate_iff : (c : VmConfig) → (validate c ≡ ok tt) ↔ IsValid c
validate_iff c =
    (λ h. IsValid-of_Passes (validate-Passes c h), λ v. Passes-validate c (Passes-of_IsValid v))

message_of : VmError → Str
message_of (invalid_config why) = why
message_of _ = []

-- Every refusal of `validate` is an `InvalidConfig`.
pub validate-eq-err :
    (c : VmConfig) (e : VmError) → validate c ≡ err e → (why : Str) × (e ≡ invalid_config why)
unfolding validate message_of
validate-eq-err c e h = (message_of e, ground arith)

name_char-ne-slash : (x : ℕ) → IsNameChar x → x ≢ b'/'
name_char-ne-slash x h = ground arith

-- An accepted name is not an absolute path.
valid-relative : (c : VmConfig) → IsValid c → starts_with c.name (codes "/") ≡ false
valid-relative c v = not-starts_with c.name b'/' λ rest e. slash_head c.name rest e v.chars
  where
    slash_head : (s rest : Str) → s ≡ b'/' ∷ rest → ¬ All IsNameChar s
    slash_head [] rest e h = cc
    slash_head (x ∷ s) rest e h = ground arith

-- The path that joins a base directory and an accepted name is the base, as a directory, followed
-- by the name; the name holds no separator and is neither `.` nor `..`.
pub vm_dir_of_valid :
    (base : Str) (c : VmConfig)
    → validate c ≡ ok tt
    → (join base c.name ≡ with_slash base ++ c.name)
      × All (λ x. x ≢ b'/') c.name
      × (c.name ≢ codes ".")
      × (c.name ≢ codes "..")
vm_dir_of_valid base c h =
    let v = (validate_iff c).0 h in
    (
      join_relative base c.name (valid-relative c v),
      All-map name_char-ne-slash c.name v.chars,
      v.no_dot [],
      v.no_dot (codes "."),
    )

-- Two accepted configurations share a directory below a base only if they have the same name.
pub vm_dir-injective :
    (base : Str) (c d : VmConfig)
    → validate c ≡ ok tt
    → validate d ≡ ok tt
    → join base c.name ≡ join base d.name
    → c.name ≡ d.name
vm_dir-injective base c d hc hd =
    join-injective base c.name d.name (valid-relative c ((validate_iff c).0 hc))
      (valid-relative d ((validate_iff d).0 hd))
