-- ===== src/Exec.antt =====
-- Methods on `&self` behind a lock: an action takes the state and returns the result beside the
-- new state, which an early return leaves as it was written so far.
pub mod Rules
use vm_rs.Result.{Result, ok, err}

abbrev pub Exec {ℓ} : Type 0 → Type 0 → Type ℓ → Type ℓ
Exec S E A = S → Result E A × S

module _ {S E A : Type 0} where
  abbrev pub pure : A → Exec S E A
  pure a s = (ok a, s)

  abbrev pub raise : E → Exec S E A
  raise e s = (err e, s)

  abbrev pub lift : Result E A → Exec S E A
  lift r s = (r, s)

module _ {S E A B : Type 0} where
  abbrev pub resume_with : Result E A → (A → Exec S E B) → Exec S E B
  resume_with (ok a) f s = f a s
  resume_with (err e) f s = (err e, s)

  infixl 5 ◌>>=◌ ◌>>◌
  abbrev pub ◌>>=◌ : Exec S E A → (A → Exec S E B) → Exec S E B
  ◌>>=◌ m f s = resume_with (m s).0 f (m s).1

  abbrev pub ◌>>◌ : Exec S E A → Exec S E B → Exec S E B
  m >> n = m >>= λ _. n

module _ {S E A : Type 0} where
  abbrev pub recover_with : Result E A → (E → Exec S E A) → Exec S E A
  recover_with (ok a) f s = (ok a, s)
  recover_with (err e) f s = f e s

  -- `if let Err(e) = action { handler }`
  abbrev pub or_else : Exec S E A → (E → Exec S E A) → Exec S E A
  or_else m f s = recover_with (m s).0 f (m s).1
