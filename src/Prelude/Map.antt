-- ===== src/Prelude/Map.antt =====
-- A `HashMap` with text or byte-string keys, as an association list. The order of the entries
-- stands for the unspecified order of iteration.
use mathlib.Core.Path.{◌≡◌, refl, sym}
use mathlib.Core.List.{List, [], ◌∷◌, map}
use mathlib.Core.Option.{Option, none, some}
use native.Mathlib.Omega.{arith}
use vm_rs.Prelude.Tests.{if◌then◌else◌, Bool-cases}
use vm_rs.Prelude.Lists.{All}
use mathlib.Core.Logic.{inl, inr}
use vm_rs.Prelude.Text.{Str, str_eq, str_eq_iff, str_eq_refl}

abbrev pub Map {ℓ} : Type ℓ → Type ℓ
Map V = List (Str × V)

module _ {ℓ} {V : Type ℓ} where
  -- HashMap::get
  unfoldable pub lookup : Str → Map V → Option V
  lookup k [] = none
  lookup k ((j, v) ∷ m) = if str_eq j k then some v else lookup k m

  -- HashMap::insert
  unfoldable pub insert : Str → V → Map V → Map V
  insert k v [] = (k, v) ∷ []
  insert k v ((j, w) ∷ m) = if str_eq j k then (j, v) ∷ m else (j, w) ∷ insert k v m

  -- HashMap::remove
  unfoldable pub remove : Str → Map V → Map V
  remove k [] = []
  remove k ((j, w) ∷ m) = let rest = remove k m in if str_eq j k then rest else (j, w) ∷ rest

  pub lookup-insert :
      (k j : Str) (v : V) (m : Map V)
      → lookup j (insert k v m) ≡ (if str_eq k j then some v else lookup j m)
  unfolding lookup insert
  lookup-insert k j v [] = refl
  lookup-insert k j v ((i, w) ∷ m) =
      ground (arith, str_eq_iff k j, str_eq_iff i k, str_eq_iff i j, lookup-insert k j v m)

  pub lookup-remove :
      (k j : Str) (m : Map V) → lookup j (remove k m) ≡ (if str_eq k j then none else lookup j m)
  unfolding lookup remove
  lookup-remove k j [] = ground arith
  lookup-remove k j ((i, w) ∷ m) =
      ground (arith, str_eq_iff k j, str_eq_iff i k, str_eq_iff i j, lookup-remove k j m)

  -- HashMap::keys
  abbrev pub keys : Map V → List Str
  keys = map (λ e. e.0)

pub lookup-nil {ℓ} : {V : Type ℓ} (k : Str) → lookup {V = V} k [] ≡ none
unfolding lookup
lookup-nil k = refl

-- Every key stands once.
module _ {V : Type 0} where
  abbrev pub Unique : Map V → Type 0
  Unique [] = Unit
  Unique ((k, v) ∷ m) = (lookup k m ≡ none) × Unique m

  pub insert-Unique : (k : Str) (v : V) (m : Map V) → Unique m → Unique (insert k v m)
  unfolding insert
  insert-Unique k v [] h = (lookup-nil k, tt)
  insert-Unique k v ((j, w) ∷ m) (fresh, h) = elim (Bool-cases (str_eq j k)) [
    | inl same ↦ rw same (fresh, h)
    | inr other ↦ rw other (
      ground (arith, lookup-insert k j v m, str_eq_iff j k, str_eq_iff k j),
      insert-Unique k v m h,
    )
  ]

-- A predicate on the entries of a map.
module _ {V : Type 0} (P : Str × V → Type 0) where
  pub All-insert : (k : Str) (v : V) (m : Map V) → P (k, v) → All P m → All P (insert k v m)
  unfolding insert
  All-insert k v [] p h = (p, tt)
  All-insert k v ((j, w) ∷ m) p (q, h) = elim (Bool-cases (str_eq j k)) [
    | inl same ↦ rw same (rw (sym ((str_eq_iff j k).0 same)) at p, h)
    | inr other ↦ rw other (q, All-insert k v m p h)
  ]

  pub All-lookup : (k : Str) (v : V) (m : Map V) → lookup k m ≡ some v → All P m → P (k, v)
  unfolding lookup
  All-lookup k v [] e h = cc
  All-lookup k v ((j, w) ∷ m) e (q, h) = elim (Bool-cases (str_eq j k)) [
    | inl same ↦
        let key : j ≡ k = (str_eq_iff j k).0 same in
        let value : w ≡ v = ground arith in rw (sym key, sym value) q
    | inr other ↦ All-lookup k v m (rw other at e) h
  ]

pub ruleset map_laws = (lookup-insert, lookup-remove, str_eq_refl)
