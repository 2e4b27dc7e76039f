-- ===== src/Paths.antt =====
-- `std::path::Path::join` on Unix paths written as texts: an absolute second part replaces the
-- first, and a separator goes in between unless the first part is empty or ends in one.
use vm_rs.Prelude.{
  ℕ, ap, inl, inr, append_assoc, append-nil, ◌≡◌, refl, sym, ◌∙◌, Bool, true, false, [], ◌∷◌, ◌++◌,
  reverse, Option, none, some,
}
use vm_rs.Prelude.Tests.{◌==◌, if◌then◌else◌, Bool-cases}
use native.Mathlib.Omega.{arith}
use vm_rs.Prelude.Text.{Str, codes, starts_with, contains_char, str_eq}
use vm_rs.Prelude.Split.{rsplit_once, rsplit_once-append, rsplit_once-none}
use mathlib.Core.List.{append_cancel_left}

unfoldable pub ends_in_slash : Str → Bool
ends_in_slash [] = true
ends_in_slash (c ∷ []) = c == b'/'
ends_in_slash (c ∷ d ∷ s) = ends_in_slash (d ∷ s)

-- The base as it stands in front of a relative part; `""` joined with `p` is `p`.
unfoldable pub with_slash : Str → Str
unfolding ends_in_slash
with_slash base = if ends_in_slash base then base else base ++ codes "/"

unfoldable pub join : Str → Str → Str
unfolding with_slash starts_with
join base part = if starts_with part (codes "/") then part else with_slash base ++ part

pub join_relative :
    (base part : Str)
    → starts_with part (codes "/") ≡ false
    → join base part ≡ with_slash base ++ part
unfolding join
join_relative base part h = rw h

ends_in_slash-append :
    (s : Str) (c : ℕ) (t : Str) → ends_in_slash (s ++ c ∷ t) ≡ ends_in_slash (c ∷ t)
unfolding ends_in_slash
ends_in_slash-append [] c t = refl
ends_in_slash-append (a ∷ []) c t = refl
ends_in_slash-append (a ∷ b ∷ s) c t = ends_in_slash-append (b ∷ s) c t

pub with_slash-append :
    (s : Str) (c : ℕ) (t : Str)
    → ends_in_slash (c ∷ t) ≡ false
    → with_slash (s ++ c ∷ t) ≡ (s ++ c ∷ t) ++ codes "/"
unfolding with_slash
with_slash-append s c t h = rw (ends_in_slash-append s c t, h) refl

pub with_slash-extends : (s : Str) → (rest : Str) × (with_slash s ≡ s ++ rest)
unfolding with_slash
with_slash-extends s = elim (Bool-cases (ends_in_slash s)) [
  | inl yes' ↦ ([], rw yes' (sym (append-nil s)))
  | inr no' ↦ (codes "/", rw no' refl)
]

-- A relative part stands behind the base.
pub join-extends :
    (base part : Str)
    → starts_with part (codes "/") ≡ false
    → (rest : Str) × (join base part ≡ base ++ rest)
join-extends base part h =
    let (slash, e) = with_slash-extends base in
    (
      slash ++ part,
      join_relative base part h ∙ ap (λ b. b ++ part) e ∙ append_assoc base slash part,
    )

-- Relative parts with the same path below one base are the same.
pub join-injective :
    (base p q : Str)
    → starts_with p (codes "/") ≡ false
    → starts_with q (codes "/") ≡ false
    → join base p ≡ join base q
    → p ≡ q
join-injective base p q hp hq e =
    append_cancel_left (with_slash base) p q
      (sym (join_relative base p hp) ∙ e ∙ join_relative base q hq)

-- `Path::parent`, of a path whose last component is not `.`: what stands before the last component.
unfoldable drop_slashes : Str → Str
drop_slashes [] = []
drop_slashes (c ∷ s) = let rest = drop_slashes s in if c == b'/' then rest else c ∷ s

unfoldable drop_component : Str → Str
drop_component [] = []
drop_component (c ∷ s) = let rest = drop_component s in if c == b'/' then c ∷ s else rest

unfoldable root_of : Str → Str
unfolding starts_with
root_of path = if starts_with path (codes "/") then codes "/" else []

unfoldable pub parent : Str → Option Str
unfolding drop_slashes drop_component root_of
parent path = elim (drop_slashes (reverse path)) [
  | [] ↦ none
  | c ∷ s ↦ elim (drop_slashes (drop_component (c ∷ s))) [
    | [] ↦ some (root_of path)
    | d ∷ t ↦ some (reverse (d ∷ t))
  ]
]

-- `Path::with_extension`, of a path whose last component is a name.
unfoldable pub stem : Str → Option (Str × Str) → Str
stem name none = name
stem name (some ([], extension)) = name
stem name (some (c ∷ s, extension)) = c ∷ s

unfoldable pub extend : Str → Str → Str
unfolding stem rsplit_once
extend extension name = stem name (rsplit_once b'.' name) ++ b'.' ∷ extension

unfoldable pub with_extension_of : Str → Str → Option (Str × Str) → Str
unfolding extend
with_extension_of path extension none = extend extension path
with_extension_of path extension (some (dir, name)) = dir ++ b'/' ∷ extend extension name

unfoldable pub with_extension : Str → Str → Str
unfolding with_extension_of
with_extension path extension = with_extension_of path extension (rsplit_once b'/' path)

-- A name without a dot and a slash gets the extension after it.
pub with_extension_of_plain :
    (dir name extension : Str)
    → contains_char b'.' name ≡ false
    → contains_char b'/' name ≡ false
    → with_extension (dir ++ b'/' ∷ name) extension ≡ dir ++ b'/' ∷ (name ++ b'.' ∷ extension)
unfolding with_extension
with_extension_of_plain dir name extension no_dot no_slash =
    rw (rsplit_once-append b'/' dir name no_slash, rsplit_once-none b'.' name no_dot) refl

pub no_slash-relative : (q : Str) → contains_char b'/' q ≡ false → starts_with q (codes "/") ≡ false
unfolding contains_char starts_with
no_slash-relative [] h = refl
no_slash-relative (c ∷ q) h = ground arith

pub with_extension_of_name :
    (dir name extension : Str)
    → contains_char b'/' name ≡ false
    → with_extension (dir ++ b'/' ∷ name) extension ≡ dir ++ b'/' ∷ extend extension name
unfolding with_extension
with_extension_of_name dir name extension no_slash =
    rw (rsplit_once-append b'/' dir name no_slash) refl

-- A name below a base that is written with a separator.
pub join_name :
    (base name : Str)
    → with_slash base ≡ base ++ codes "/"
    → contains_char b'/' name ≡ false
    → join base name ≡ base ++ b'/' ∷ name
join_name base name slash no_slash =
    join_relative base name (no_slash-relative name no_slash)
    ∙ ap (λ b. b ++ name) slash
    ∙ append_assoc base (codes "/") name

pub str_eq-append : (base s t : Str) → str_eq (base ++ s) (base ++ t) ≡ str_eq s t
unfolding str_eq
str_eq-append [] s t = refl
str_eq-append (c ∷ base) s t = rw (==-self c) (str_eq-append base s t)
  where
    ==-self : (c : ℕ) → (c == c) ≡ true
    ==-self c = ground arith

pub join_slash :
    (base : Str) (c : ℕ) (part : Str)
    → starts_with (c ∷ part) (codes "/") ≡ false
    → ends_in_slash (c ∷ part) ≡ false
    → with_slash (join base (c ∷ part)) ≡ join base (c ∷ part) ++ codes "/"
unfolding join
join_slash base c part relative plain =
    rw relative (with_slash-append (with_slash base) c part plain)
