-- ===== src/Prelude/Find.antt =====
-- The searches of `Prelude/Text`: where the pieces that `str::split_once` returns stand in the text.
use Prim.Native.Nat.{ℕ}
use mathlib.Core.Path.{◌≡◌, refl, ap}
use mathlib.Core.Logic.{◌↔◌, ◌⊎◌, inl, inr}
use mathlib.Core.Bool.{true, false}
use mathlib.Core.List.{[], ◌∷◌, ◌++◌}
use mathlib.Core.Option.{Option, none, some}
use native.Mathlib.Omega.{arith}
use vm_rs.Prelude.Tests.{Bool-cases, ◌==◌, ==_iff, Option-cases, if-eq-some}
use vm_rs.Prelude.Text.{Str, contains, starts_with, strip_prefix, split_once}

pub strip_prefix-eq-some : (s p rest : Str) → strip_prefix s p ≡ some rest → s ≡ p ++ rest
unfolding strip_prefix
strip_prefix-eq-some s [] rest h = ground arith
strip_prefix-eq-some [] (d ∷ p) rest h = ground arith
strip_prefix-eq-some (c ∷ s) (d ∷ p) rest h =
    let (yes', e) = if-eq-some (c == d) (strip_prefix s p) h in
    cc ((==_iff c d).0 yes', strip_prefix-eq-some s p rest e)

-- The two ways in which a text is split: here, or in what follows its first character.
pub split_once-here :
    (p s rest : Str) → strip_prefix s p ≡ some rest → split_once p s ≡ some ([], rest)
unfolding split_once
split_once-here p [] rest h = rw (split_once, h) refl
split_once-here p (c ∷ s) rest h = rw (split_once, h) refl

pub split_once-later :
    (p : Str) (c : ℕ) (s before after : Str)
    → strip_prefix (c ∷ s) p ≡ none
    → split_once p s ≡ some (before, after)
    → split_once p (c ∷ s) ≡ some (c ∷ before, after)
unfolding split_once
split_once-later p c s before after h e = rw (split_once, h, e) refl

pub split_once-not_later :
    (p : Str) (c : ℕ) (s : Str)
    → strip_prefix (c ∷ s) p ≡ none
    → split_once p s ≡ none
    → split_once p (c ∷ s) ≡ none
unfolding split_once
split_once-not_later p c s h e = rw (split_once, h, e) refl

split_once-not_here : (p : Str) → strip_prefix [] p ≡ none → split_once p [] ≡ none
unfolding split_once
split_once-not_here p h = rw (split_once, h) refl

pub Split-cases :
    (o : Option (Str × Str)) → (o ≡ none) ⊎ ((before after : Str) × (o ≡ some (before, after)))
Split-cases none = inl refl
Split-cases (some (before, after)) = inr (before, after, refl)

pub split_once-eq-some :
    (p s before after : Str) → split_once p s ≡ some (before, after) → s ≡ before ++ (p ++ after)
split_once-eq-some p [] before after h = elim (Option-cases (strip_prefix [] p)) [
  | inl none' ↦ cc (split_once-not_here p none', h)
  | inr (rest, e) ↦ cc (strip_prefix-eq-some [] p rest e, split_once-here p [] rest e, h)
]
split_once-eq-some p (c ∷ s) before after h = elim (Option-cases (strip_prefix (c ∷ s) p)) [
  | inr (rest, e) ↦ cc (strip_prefix-eq-some (c ∷ s) p rest e, split_once-here p (c ∷ s) rest e, h)
  | inl none' ↦ elim (Split-cases (split_once p s)) [
    | inl e ↦ cc (split_once-not_later p c s none' e, h)
    | inr (b, a, e) ↦ cc (split_once-later p c s b a none' e, h, split_once-eq-some p s b a e)
  ]
]

-- A text stands somewhere in another one.
abbrev pub Contains : Str → Str → Type 0
Contains s p = (before after : Str) × (s ≡ before ++ (p ++ after))

starts_with-split : (s p : Str) → starts_with s p ≡ true → (after : Str) × (s ≡ p ++ after)
unfolding starts_with
starts_with-split s [] h = (s, refl)
starts_with-split [] (d ∷ p) h = cc
starts_with-split (c ∷ s) (d ∷ p) h =
    let same : c ≡ d = ground arith in
    let (after, e) = starts_with-split s p (ground arith) in (after, cc)

starts_with-append : (p after : Str) → starts_with (p ++ after) p ≡ true
unfolding starts_with
starts_with-append [] after = refl
starts_with-append (d ∷ p) after = ground (arith, starts_with-append p after, ==_iff d d)

pub contains-split : (s p : Str) → contains s p ≡ true → Contains s p
unfolding contains
contains-split [] p h = let (after, e) = starts_with-split [] p h in ([], after, e)
contains-split (c ∷ s) p h = elim (Bool-cases (starts_with (c ∷ s) p)) [
  | inl here ↦ let (after, e) = starts_with-split (c ∷ s) p here in ([], after, e)
  | inr later ↦
      let (before, after, e) = contains-split s p (rw later at h) in
      (c ∷ before, after, ap (λ t. c ∷ t) e)
]

contains-append : (before p after : Str) → contains (before ++ (p ++ after)) p ≡ true
unfolding contains starts_with
contains-append [] [] [] = refl
contains-append [] [] (c ∷ after) = refl
contains-append [] (d ∷ p) after = ground (arith, starts_with-append p after, ==_iff d d)
contains-append (c ∷ before) p after = ground (arith, contains-append before p after)

pub contains_iff : (s p : Str) → (contains s p ≡ true) ↔ Contains s p
contains_iff s p = (contains-split s p, λ (before, after, e). rw e (contains-append before p after))

pub not_contains_iff : (s p : Str) → (contains s p ≡ false) ↔ (¬ Contains s p)
not_contains_iff s p = (
  λ h found. cc ((contains_iff s p).1 found, h),
  λ h. elim (Bool-cases (contains s p)) [ inl e ↦ absurd (h ((contains_iff s p).0 e)) | inr e ↦ e ],
)
