-- ===== src/Seed/Quoting.antt =====
-- `shell_quote` (src/setup/seed.rs) against the way a POSIX shell reads a word: single quotes keep every
-- character up to the next one, a backslash outside of them keeps one, and a blank ends the word.
use vm_rs.Prelude.{ℕ, ◌≡◌, Bool, true, false, ◌&&◌, Option, none, some, [], ◌∷◌}
use vm_rs.Prelude.Tests.{◌==◌, not, if◌then◌else◌}
use vm_rs.Prelude.Text.{Str}

pub data Mode : Type 0 where
  bare quoted escaped : Mode

-- The mode after a character, unless a bare blank ends the word.
unfoldable pub next_mode : Mode → ℕ → Mode
next_mode bare c = if c == b'\'' then quoted else if c == b'\\' then escaped else bare
next_mode quoted c = if c == b'\'' then bare else quoted
next_mode escaped c = bare

unfoldable pub is_kept : Mode → ℕ → Bool
is_kept bare c = not (c == b'\'') && not (c == b'\\')
is_kept quoted c = not (c == b'\'')
is_kept escaped c = true

unfoldable pub ends_word : Mode → ℕ → Bool
ends_word bare c = c == b' '
ends_word quoted c = false
ends_word escaped c = false

unfoldable pub keep : Bool → ℕ → Option (Str × Str) → Option (Str × Str)
keep b c none = none
keep b c (some (word, rest)) = some (if b then c ∷ word else word, rest)

unfoldable pub end_of_text : Mode → Option (Str × Str)
end_of_text bare = some ([], [])
end_of_text quoted = none
end_of_text escaped = none

-- The word at the start of a command line and what follows it; none when a quote is left open.
unfoldable pub read_word : Mode → Str → Option (Str × Str)
unfolding next_mode is_kept ends_word keep end_of_text
read_word m [] = end_of_text m
read_word m (c ∷ s) =
    let rest = read_word (next_mode m c) s in
    if ends_word m c then some ([], c ∷ s) else keep (is_kept m c) c rest

-- A word that a blank or the end of the text follows.
abbrev pub EndsWord : Str → Type 0
EndsWord [] = Unit
EndsWord (c ∷ s) = c ≡ b' '
