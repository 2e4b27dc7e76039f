-- ===== src/Prelude/Text.antt =====
-- Rust strings as lists of code points, with the standard library's operations that the source
-- calls: byte lengths, equality, prefixes, the first match of a text, and whitespace.
use Prim.Native.Nat.{ℕ, zero, suc, ◌+◌, ◌-◌, ◌*◌, ◌/◌, ◌%◌}
use Prim.Native.Char.{code}
use Prim.Native.String.{String}
use mathlib.Core.Path.{◌≡◌, refl}
use mathlib.Core.Logic.{◌↔◌}
use mathlib.Core.Bool.{Bool, true, false, ◌&&◌, ◌||◌}
use mathlib.Core.List.{List, [], ◌∷◌, reverse}
use mathlib.Core.Option.{Option, none, some}
use native.Mathlib.Omega.{arith}
use vm_rs.Prelude.Tests.{ltb, leb, ◌==◌, if◌then◌else◌}

abbrev pub Str : Type 0
Str = List ℕ

-- The code points of a literal.
abbrev pub codes : String → Str
codes String.[] = []
codes (String.◌∷◌ c s) = code c ∷ codes s

-- The bytes of one code point in UTF-8, and `str::len`.
unfoldable pub char_len : ℕ → ℕ
char_len c = if ltb c 0x80 then 1 else if ltb c 0x800 then 2 else if ltb c 0x10000 then 3 else 4

unfoldable pub len : Str → ℕ
unfolding char_len
len [] = 0
len (c ∷ s) = char_len c + len s

unfoldable pub is_empty : Str → Bool
is_empty [] = true
is_empty (c ∷ s) = false

unfoldable pub str_eq : Str → Str → Bool
str_eq [] [] = true
str_eq (a ∷ s) (b ∷ t) = (a == b) && str_eq s t
str_eq [] (b ∷ t) = false
str_eq (a ∷ s) [] = false

pub str_eq_iff : (s t : Str) → (str_eq s t ≡ true) ↔ (s ≡ t)
unfolding str_eq
str_eq_iff [] [] = ground arith
str_eq_iff (a ∷ s) (b ∷ t) = ground (arith, str_eq_iff s t)
str_eq_iff [] (b ∷ t) = ground arith
str_eq_iff (a ∷ s) [] = ground arith

pub str_eq_refl : (s : Str) → str_eq s s ≡ true
str_eq_refl s = (str_eq_iff s s).1 refl

-- `str::starts_with` and `str::strip_prefix`.
unfoldable pub starts_with : Str → Str → Bool
starts_with s [] = true
starts_with [] (p ∷ ps) = false
starts_with (c ∷ s) (p ∷ ps) = (c == p) && starts_with s ps

unfoldable pub strip_prefix : Str → Str → Option Str
strip_prefix s [] = some s
strip_prefix [] (p ∷ ps) = none
strip_prefix (c ∷ s) (p ∷ ps) = let rest = strip_prefix s ps in if c == p then rest else none

unfoldable pub contains_char : ℕ → Str → Bool
contains_char c [] = false
contains_char c (d ∷ s) = (d == c) || contains_char c s

-- `str::find` with a text: what stands before the first match, and what stands after it.
unfoldable pub here_or : Option Str → Option (Str × Str) → Option (Str × Str)
here_or (some rest) later = some ([], rest)
here_or none later = later

unfoldable pub behind : ℕ → Option (Str × Str) → Option (Str × Str)
behind c (some (before, after)) = some (c ∷ before, after)
behind c none = none

unfoldable pub split_once : Str → Str → Option (Str × Str)
unfolding strip_prefix here_or behind
split_once p [] = here_or (strip_prefix [] p) none
split_once p (c ∷ s) = here_or (strip_prefix (c ∷ s) p) (behind c (split_once p s))

-- `char::is_whitespace`: the code points with the Unicode property White_Space.
unfoldable pub is_whitespace : ℕ → Bool
is_whitespace c =
    (leb 9 c && leb c 13)
    || c == 32
    || c == 0x85
    || c == 0xa0
    || c == 0x1680
    || (leb 0x2000 c && leb c 0x200a)
    || c == 0x2028
    || c == 0x2029
    || c == 0x202f
    || c == 0x205f
    || c == 0x3000

unfoldable pub is_ascii_digit : ℕ → Bool
is_ascii_digit c = leb b'0' c && leb c b'9'

unfoldable pub is_ascii_alphanumeric : ℕ → Bool
unfolding is_ascii_digit
is_ascii_alphanumeric c =
    is_ascii_digit c || (leb b'A' c && leb c b'Z') || (leb b'a' c && leb c b'z')

unfoldable pub is_ascii_hexdigit : ℕ → Bool
unfolding is_ascii_digit
is_ascii_hexdigit c = is_ascii_digit c || (leb b'A' c && leb c b'F') || (leb b'a' c && leb c b'f')

-- `str::trim_start`, and the text up to the first whitespace.
unfoldable pub trim_start : Str → Str
unfolding is_whitespace
trim_start [] = []
trim_start (c ∷ s) = let rest = trim_start s in if is_whitespace c then rest else c ∷ s

unfoldable pub until_whitespace : Str → Str
unfolding is_whitespace
until_whitespace [] = []
until_whitespace (c ∷ s) = let rest = until_whitespace s in if is_whitespace c then [] else c ∷ rest

-- `s.split_whitespace().next()`.
unfoldable pub first_word : Str → Option Str
unfolding trim_start until_whitespace is_empty
first_word s = let t = trim_start s in if is_empty t then none else some (until_whitespace t)

-- `str::trim`
unfoldable pub trim : Str → Str
unfolding trim_start
trim s = reverse (trim_start (reverse (trim_start s)))

-- What follows the first word, as `split_whitespace` reads on.
unfoldable pub after_word : Str → Str
unfolding is_whitespace
after_word [] = []
after_word (c ∷ s) = let rest = after_word s in if is_whitespace c then c ∷ s else rest

-- `Display` of an unsigned number: fuel for its digits, the last of which is written last.
unfoldable pub digits : ℕ → ℕ → Str → Str
digits zero n acc = acc
digits (suc fuel) n acc =
    let acc' = (b'0' + n % 10) ∷ acc in
    let rest = digits fuel (n / 10) acc' in if ltb n 10 then acc' else rest

-- Ten digits are enough for a `u32`, twenty for a `u64` and thirty-nine for a `u128`.
unfoldable pub decimal : ℕ → Str
unfolding digits
decimal n = digits 39 n []

-- `str::parse` of a number of at most `max`: an optional sign and at least one digit.
unfoldable pub parse_digits : ℕ → ℕ → Str → Option ℕ
unfolding is_ascii_digit
parse_digits max acc [] = some acc
parse_digits max acc (c ∷ s) =
    let next = acc * 10 + (c - b'0') in
    let rest = parse_digits max next s in if is_ascii_digit c && leb next max then rest else none

unfoldable pub parse_unsigned : ℕ → Str → Option ℕ
unfolding parse_digits
parse_unsigned max [] = none
parse_unsigned max (c ∷ []) = if c == b'+' then none else parse_digits max 0 (c ∷ [])
parse_unsigned max (c ∷ d ∷ s) =
    if c == b'+' then parse_digits max 0 (d ∷ s) else parse_digits max 0 (c ∷ d ∷ s)

-- `str::contains` with a text.
unfoldable pub contains : Str → Str → Bool
unfolding starts_with
contains [] p = starts_with [] p
contains (c ∷ s) p = starts_with (c ∷ s) p || contains s p

-- `str::rsplit_once`, of which the sources use the second part: what follows the last match.
unfoldable pub last_match : Option Str → Option Str → Option Str
last_match (some later) here = some later
last_match none here = here

unfoldable pub after_last : Str → Str → Option Str
unfolding strip_prefix last_match
after_last p [] = strip_prefix [] p
after_last p (c ∷ s) = last_match (after_last p s) (strip_prefix (c ∷ s) p)

-- `split_whitespace().collect()[n]`
unfoldable pub word_at : ℕ → Str → Option Str
unfolding first_word trim_start after_word
word_at zero s = first_word s
word_at (suc n) s = word_at n (after_word (trim_start s))
