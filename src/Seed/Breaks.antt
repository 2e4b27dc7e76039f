-- ===== src/Seed/Breaks.antt =====
-- The line feeds of a text, of a quoted text, and of the texts that the checks of src/setup/seed.rs
-- accept.
use vm_rs.Prelude.{
  ℕ, zero, suc, ◌+◌, ◌/◌, ◌%◌, ◌≡◌, refl, inl, inr, Bool, true, false, [], ◌∷◌, ◌++◌, arith,
}
use vm_rs.Prelude.Tests.{◌==◌, if◌then◌else◌, Bool-cases}
use vm_rs.Prelude.Lists.{all}
use vm_rs.Prelude.Text.{
  Str, codes, contains_char, decimal, digits, is_ascii_alphanumeric, is_ascii_digit,
  is_ascii_hexdigit,
}
use vm_rs.Result.{ok}
use vm_rs.Seed

-- The line feeds of a text.
unfoldable pub breaks : Str → ℕ
breaks [] = 0
breaks (c ∷ s) = (if c == 10 then 1 else 0) + breaks s

pub breaks-append : (s t : Str) → breaks (s ++ t) ≡ breaks s + breaks t
unfolding breaks
breaks-append [] t = omega arith
breaks-append (c ∷ s) t = omega (arith, breaks-append s t)

pub breaks-quote_char : (c : ℕ) → breaks (Seed.quote_char c) ≡ breaks (c ∷ [])
unfolding breaks Seed.quote_char
breaks-quote_char c = ground arith

pub breaks-quote_chars : (s : Str) → breaks (Seed.quote_chars s) ≡ breaks s
unfolding Seed.quote_chars
breaks-quote_chars [] = refl
breaks-quote_chars (c ∷ s) = omega (
  arith,
  breaks-append (Seed.quote_char c) (Seed.quote_chars s),
  breaks-quote_char c,
  breaks-quote_chars s,
  breaks-append (c ∷ []) s,
)

pub breaks-shell_quote : (s : Str) → breaks (Seed.shell_quote s) ≡ breaks s
unfolding Seed.shell_quote breaks
breaks-shell_quote s =
    omega (arith, breaks-append (codes "'" ++ Seed.quote_chars s) (codes "'"), breaks-quote_chars s)

pub breaks-no_feed : (s : Str) → contains_char 10 s ≡ false → breaks s ≡ 0
unfolding breaks contains_char
breaks-no_feed [] h = refl
breaks-no_feed (c ∷ s) h = ground (arith, breaks-no_feed s)

pub breaks-all : (p : ℕ → Bool) (s : Str) → p 10 ≡ false → all p s ≡ true → breaks s ≡ 0
unfolding breaks all
breaks-all p [] hp h = refl
breaks-all p (c ∷ s) hp h = elim (Bool-cases (c == 10)) [
  | inl yes' ↦ ground (arith, breaks-all p s)
  | inr no' ↦ ground (arith, breaks-all p s)
]

pub breaks-digits : (fuel n : ℕ) (acc : Str) → breaks acc ≡ 0 → breaks (digits fuel n acc) ≡ 0
unfolding breaks digits
breaks-digits zero n acc h = h
breaks-digits (suc fuel) n acc h =
    let more = breaks-digits fuel (n / 10) ((b'0' + n % 10) ∷ acc) in ground arith

pub breaks-decimal : (n : ℕ) → breaks (decimal n) ≡ 0
unfolding decimal breaks
breaks-decimal n = breaks-digits 39 n [] refl

pub breaks-read_only : (b : Bool) → breaks (if b then codes " -o ro" else []) ≡ 0
unfolding breaks
breaks-read_only true = refl
breaks-read_only false = refl

pub ruleset breaks_laws =
    (breaks-append, breaks-quote_chars, breaks-shell_quote, breaks-decimal, breaks-read_only)

-- The classes of characters that the checks accept hold no line feed.
pub breaks-hostname : (s : Str) → Seed.is_safe_hostname s ≡ true → breaks s ≡ 0
unfolding Seed.is_safe_hostname Seed.is_host_char is_ascii_alphanumeric is_ascii_digit
breaks-hostname s h = breaks-all Seed.is_host_char s refl (ground arith)

pub breaks-ip : (s : Str) → Seed.is_safe_ip s ≡ true → breaks s ≡ 0
unfolding Seed.is_safe_ip Seed.is_ip_char is_ascii_hexdigit is_ascii_digit
breaks-ip s h = breaks-all Seed.is_ip_char s refl (ground arith)

pub breaks-tag : (s : Str) → Seed.is_safe_mount_tag s ≡ true → breaks s ≡ 0
unfolding Seed.is_safe_mount_tag Seed.is_tag_char is_ascii_alphanumeric is_ascii_digit
breaks-tag s h = breaks-all Seed.is_tag_char s refl (ground arith)

pub breaks-iface : (s : Str) → Seed.is_safe_iface_name s ≡ true → breaks s ≡ 0
unfolding Seed.is_safe_iface_name Seed.is_iface_char is_ascii_alphanumeric is_ascii_digit
breaks-iface s h = breaks-all Seed.is_iface_char s refl (ground arith)

pub breaks-env_name : (s : Str) → Seed.is_safe_env_name s ≡ true → breaks s ≡ 0
unfolding Seed.is_safe_env_name Seed.is_env_char is_ascii_alphanumeric is_ascii_digit
breaks-env_name s h = breaks-all Seed.is_env_char s refl (ground arith)

pub breaks-mount_point : (s : Str) → Seed.is_safe_mount_point s ≡ true → breaks s ≡ 0
unfolding Seed.is_safe_mount_point
breaks-mount_point s h = breaks-no_feed s (ground arith)

pub breaks-fragment : (s : Str) → Seed.is_safe_shell_fragment s ≡ true → breaks s ≡ 0
unfolding Seed.is_safe_shell_fragment
breaks-fragment s h = breaks-no_feed s (ground arith)

pub breaks-ssh_pubkey : (s : Str) → Seed.validate_ssh_pubkey s ≡ ok tt → breaks s ≡ 0
unfolding Seed.validate_ssh_pubkey
breaks-ssh_pubkey s h = breaks-no_feed s (ground arith)
