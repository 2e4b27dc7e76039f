-- ===== src/Prelude/Split.antt =====
-- `find`, `split_once` and `rsplit_once` with one character.
use Prim.Native.Nat.{ℕ, zero, suc, ◌-◌}
use mathlib.Core.Path.{◌≡◌, refl}
use mathlib.Core.Bool.{false}
use mathlib.Core.List.{List, [], ◌∷◌, ◌++◌, reverse}
use mathlib.Core.Option.{Option, none, some}
use native.Mathlib.Omega.{arith}
use vm_rs.Prelude.Tests.{◌==◌, ==_iff, if◌then◌else◌}
use vm_rs.Prelude.Lists.{length}
use vm_rs.Prelude.Text.{Str, contains_char, behind, starts_with}

-- `find` of a character, with the text before it and the text after it.
unfoldable pub cut : ℕ → Str → Option (Str × Str)
unfolding behind
cut c [] = none
cut c (d ∷ s) = let later = behind d (cut c s) in if d == c then some ([], s) else later

unfoldable pub later_or : Option (Str × Str) → Option (Str × Str) → Option (Str × Str)
later_or (some later) here = some later
later_or none here = here

-- `rsplit_once` with a character.
unfoldable pub rsplit_once : ℕ → Str → Option (Str × Str)
unfolding behind later_or
rsplit_once c [] = none
rsplit_once c (d ∷ s) =
    later_or (behind d (rsplit_once c s)) (if d == c then some ([], s) else none)

-- `str::split` at one character: the pieces, of which there is at least one.
unfoldable pub to_first : ℕ → List Str → List Str
to_first c [] = (c ∷ []) ∷ []
to_first c (piece ∷ pieces) = (c ∷ piece) ∷ pieces

unfoldable pub split_on : ℕ → Str → List Str
unfolding to_first
split_on c [] = [] ∷ []
split_on c (d ∷ s) = let rest = split_on c s in if d == c then [] ∷ rest else to_first d rest

-- `trim_start_matches` and `trim_matches` of one character.
unfoldable pub trim_start_matches : ℕ → Str → Str
trim_start_matches c [] = []
trim_start_matches c (d ∷ s) = let rest = trim_start_matches c s in if d == c then rest else d ∷ s

unfoldable pub trim_matches : ℕ → Str → Str
unfolding trim_start_matches
trim_matches c s = reverse (trim_start_matches c (reverse (trim_start_matches c s)))

-- `str::replace` of one character, and of a text, which skips the characters of each match.
unfoldable pub replace_char : ℕ → Str → Str → Str
replace_char c by [] = []
replace_char c by (d ∷ s) =
    let rest = replace_char c by s in if d == c then by ++ rest else d ∷ rest

unfoldable pub replace_after : ℕ → Str → Str → Str → Str
unfolding starts_with
replace_after skipped pattern' by [] = []
replace_after (suc skipped) pattern' by (c ∷ s) = replace_after skipped pattern' by s
replace_after zero pattern' by (c ∷ s) =
    let matched = replace_after (length pattern' - 1) pattern' by s in
    let unmatched = replace_after zero pattern' by s in
    if starts_with (c ∷ s) pattern' then by ++ matched else c ∷ unmatched

unfoldable pub replace : Str → Str → Str → Str
unfolding replace_after
replace pattern' by s = replace_after zero pattern' by s

module _ (c : ℕ) where
  pub cut-none : (s : Str) → contains_char c s ≡ false → cut c s ≡ none
  unfolding contains_char cut behind
  cut-none [] h = refl
  cut-none (d ∷ s) h = ground (arith, cut-none s)

  pub cut-append : (a b : Str) → contains_char c a ≡ false → cut c (a ++ c ∷ b) ≡ some (a, b)
  unfolding contains_char cut behind
  cut-append [] b h = let same = (==_iff c c).1 refl in rw same refl
  cut-append (d ∷ a) b h = ground (arith, cut-append a b)

  pub rsplit_once-none : (s : Str) → contains_char c s ≡ false → rsplit_once c s ≡ none
  unfolding contains_char rsplit_once behind later_or
  rsplit_once-none [] h = refl
  rsplit_once-none (d ∷ s) h = ground (arith, rsplit_once-none s)

  pub rsplit_once-append :
      (a b : Str) → contains_char c b ≡ false → rsplit_once c (a ++ c ∷ b) ≡ some (a, b)
  unfolding contains_char rsplit_once behind later_or
  rsplit_once-append [] b h = let same = (==_iff c c).1 refl in rw (rsplit_once-none b h, same) refl
  rsplit_once-append (d ∷ a) b h = rw (rsplit_once-append a b h) refl

  pub contains_char-append :
      (a b : Str)
      → contains_char c a ≡ false
      → contains_char c b ≡ false
      → contains_char c (a ++ b) ≡ false
  unfolding contains_char
  contains_char-append [] b ha hb = hb
  contains_char-append (d ∷ a) b ha hb = ground (arith, contains_char-append a b)
