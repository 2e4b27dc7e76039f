-- ===== src/Exec/Rules.antt =====
-- Reasoning about chains of actions: what a success went through, and what every step keeps.
use vm_rs.Prelude.{◌≡◌, ap, inl, inr}
use vm_rs.Result.{Result, ok, err, Result-cases}
use vm_rs.Exec.{Exec, lift, resume_with, ◌>>=◌}

-- A success of a chain is one of its first action, and the rest runs on what that returned.
pub >>=-ok :
    {S E A B : Type 0} (m : Exec S E A) (f : A → Exec S E B) (s : S) {b : B}
    → ((m >>= f) s).0 ≡ ok b
    → (a : A) × ((m s).0 ≡ ok a) × ((f a (m s).1).0 ≡ ok b) × ((m >>= f) s ≡ f a (m s).1)
>>=-ok {S} {E} {A} {B} m f s {b} h = elim (Result-cases (m s).0) [
  | inl (a, e) ↦ (a, e, rw e at h, ap (λ r. resume_with r f (m s).1) e)
  | inr (x, e) ↦ absurd (clash (rw e at h))
]
  where
    clash : {x : E} → Path (Result E B) (err x) (ok b) → ⊥
    clash e = cc

-- A property of the state that an action keeps, whatever it returns.
module _ {S E : Type 0} (J : S → Type 0) where
  abbrev pub Keeps : {A : Type 0} → Exec S E A → Type 0
  Keeps m = (s : S) → J s → J (m s).1

  pub >>=-Keeps :
      {A B : Type 0} (m : Exec S E A) (f : A → Exec S E B)
      → Keeps m
      → ((a : A) → Keeps (f a))
      → Keeps (m >>= f)
  >>=-Keeps m f km kf s h = elim (Result-cases (m s).0) [
    | inl (a, e) ↦ rw e (kf a (m s).1 (km s h))
    | inr (x, e) ↦ rw e (km s h)
  ]

  pub lift-Keeps : {A : Type 0} (r : Result E A) → Keeps (lift r)
  lift-Keeps r s h = h
