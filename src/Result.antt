-- ===== src/Result.antt =====
-- Rust's `Result`, with `?` as the bind of a do block, and the errors of src/driver/mod.rs.
-- Of an `io::Error` the sources read the kind `NotFound` and the text.
use vm_rs.Prelude.{◌≡◌, refl, ◌⊎◌, inl, inr, Bool, true, false}
use vm_rs.Prelude.Text.{Str}

pub data Result {ℓ} (E : Type 0) (A : Type ℓ) : Type ℓ where
  ok : A → Result E A
  err : E → Result E A

infixl 5 ◌>>=◌ ◌>>◌
abbrev pub ◌>>=◌ {ℓ κ} :
    {E : Type 0} {A : Type ℓ} {B : Type κ} → Result E A → (A → Result E B) → Result E B
ok a >>= f = f a
err e >>= f = err e

abbrev pub ◌>>◌ {ℓ} : {E : Type 0} {B : Type ℓ} → Result E (Unit {0}) → Result E B → Result E B
m >> k = m >>= λ _. k

-- `if test { return Err(e) }`
abbrev pub refuse_if : {E : Type 0} → Bool → E → Result E (Unit {0})
refuse_if true e = err e
refuse_if false e = ok tt

pub record IoError : Type 0 where
  pub not_found : Bool
  pub message : Str

pub data VmError : Type 0 where
  boot_failed : (name detail : Str) → VmError
  not_found : (name : Str) → VmError
  stop_failed : (name detail : Str) → VmError
  state_failed : (name detail : Str) → VmError
  hypervisor : Str → VmError
  io : IoError → VmError
  invalid_config : Str → VmError

-- `map_err`
abbrev pub map_err {ℓ} : {E F : Type 0} {A : Type ℓ} → (E → F) → Result E A → Result F A
map_err f (ok a) = ok a
map_err f (err e) = err (f e)

pub Result-cases {ℓ} :
    {E : Type 0} {A : Type ℓ} (r : Result E A) → ((a : A) × (r ≡ ok a)) ⊎ ((e : E) × (r ≡ err e))
Result-cases (ok a) = inl (a, refl)
Result-cases (err e) = inr (e, refl)
