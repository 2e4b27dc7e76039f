-- ===== src/Boot/Memory.antt =====
-- Guest memory (`&mut [u8]` in src/driver/boot.rs): a size and a byte at each address, with slice
-- writes that panic out of bounds, and little-endian numbers.
use vm_rs.Prelude.{
  ℕ, zero, suc, ◌+◌, ◌*◌, ◌/◌, ◌%◌, ◌≤◌, ◌<◌, ◌≡◌, refl, ap, ◌⊎◌, none, some, List, [], ◌∷◌, arith,
}
use vm_rs.Prelude.Tests.{leb, ◌==◌, if◌then◌else◌, le→leb}
use vm_rs.Prelude.Lists.{length, get_elem?}
use vm_rs.Result.{VmError}

pub record Memory : Type 0 where
  pub size : ℕ
  pub byte : ℕ → ℕ

-- What a routine over the memory does: it returns, it returns an error, or it panics.
pub data Outcome (A : Type 0) : Type 0 where
  done : A → Memory → Outcome A
  fail : VmError → Memory → Outcome A
  panic : Outcome A

abbrev pub M : Type 0 → Type 0
M A = Memory → Outcome A

abbrev pub then_do : {A B : Type 0} → Outcome A → (A → M B) → Outcome B
then_do (done a m) f = f a m
then_do (fail e m) f = fail e m
then_do panic f = panic

infixl 5 ◌>>=◌ ◌>>◌
abbrev pub ◌>>=◌ : {A B : Type 0} → M A → (A → M B) → M B
◌>>=◌ c f m = then_do (c m) f

abbrev pub ◌>>◌ : {B : Type 0} → M (Unit {0}) → M B → M B
c >> k = c >>= λ _. k

abbrev pub pure : {A : Type 0} → A → M A
pure a m = done a m

abbrev pub throw : {A : Type 0} → VmError → M A
throw e m = fail e m

-- The bytes from an address on, replaced.
unfoldable pub poke : ℕ → List ℕ → (ℕ → ℕ) → ℕ → ℕ
poke a [] f x = f x
poke a (b ∷ bs) f x = if x == a then b else poke (a + 1) bs f x

unfoldable pub peek : ℕ → ℕ → (ℕ → ℕ) → List ℕ
peek zero a f = []
peek (suc n) a f = f a ∷ peek n (a + 1) f

-- `memory[a..a + bs.len()].copy_from_slice(bs)`
unfoldable pub write : ℕ → List ℕ → M (Unit {0})
write a bs m =
    if leb (a + length bs) m.size then done tt (record m { byte = poke a bs m.byte }) else panic

pub write_ok :
    (a : ℕ) (bs : List ℕ) (m : Memory)
    → a + length bs ≤ m.size
    → write a bs m ≡ done tt (record m { byte = poke a bs m.byte })
unfolding write
write_ok a bs m h = rw (le→leb (a + length bs) m.size h)

abbrev pub poked : ℕ → List ℕ → Memory → Memory
poked a bs m = record m { byte = poke a bs m.byte }

pub write_then :
    {B : Type 0} (a : ℕ) (bs : List ℕ) (k : M B) (m : Memory)
    → a + length bs ≤ m.size
    → (write a bs >> k) m ≡ k (poked a bs m)
unfolding write
write_then a bs k m h = rw (le→leb (a + length bs) m.size h)

-- `memory[a] = f(memory[a])`
unfoldable pub update : ℕ → (ℕ → ℕ) → M (Unit {0})
unfolding write
update a f m = write a (f (m.byte a) ∷ []) m

-- `xs[i]`
unfoldable pub index : List ℕ → ℕ → M ℕ
index xs i = elim (get_elem? xs i) [ some x ↦ pure x | none ↦ λ m. panic ]

-- `to_le_bytes` and `from_le_bytes`.
unfoldable pub le_bytes : ℕ → ℕ → List ℕ
le_bytes zero n = []
le_bytes (suc w) n = n % 256 ∷ le_bytes w (n / 256)

unfoldable pub from_le : List ℕ → ℕ
from_le [] = 0
from_le (b ∷ bs) = b + 256 * from_le bs

pub length-le_bytes : (w n : ℕ) → length (le_bytes w n) ≡ w
unfolding le_bytes
length-le_bytes zero n = refl
length-le_bytes (suc w) n = ap suc (length-le_bytes w (n / 256))

-- The largest number of a width, plus one.
unfoldable pub bound : ℕ → ℕ
bound zero = 1
bound (suc w) = 256 * bound w

pub from_le-le_bytes : (w n : ℕ) → n < bound w → from_le (le_bytes w n) ≡ n
unfolding from_le le_bytes bound
from_le-le_bytes zero n h = omega arith
from_le-le_bytes (suc w) n h = omega (arith, from_le-le_bytes w (n / 256) (omega arith))

-- A write changes nothing outside its range.
pub poke_outside :
    (a : ℕ) (bs : List ℕ) (f : ℕ → ℕ) (x : ℕ) → (x < a) ⊎ (a + length bs ≤ x) → poke a bs f x ≡ f x
unfolding poke
poke_outside a [] f x h = refl
poke_outside a (b ∷ bs) f x h = ground (arith, poke_outside (a + 1) bs f x)

pub peek_congr :
    (n a : ℕ) (f g : ℕ → ℕ) → ((x : ℕ) → a ≤ x → x < a + n → f x ≡ g x) → peek n a f ≡ peek n a g
unfolding peek
peek_congr zero a f g h = refl
peek_congr (suc n) a f g h =
    let first = h a (omega arith) (omega arith) in
    let rest = peek_congr n (a + 1) f g (λ x l k. h x (omega arith) (omega arith)) in cc

-- What is written is read back.
pub peek-poke : (bs : List ℕ) (a : ℕ) (f : ℕ → ℕ) → peek (length bs) a (poke a bs f) ≡ bs
unfolding peek
peek-poke [] a f = refl
peek-poke (b ∷ bs) a f =
    let first : poke a (b ∷ bs) f a ≡ b = unfold poke in ground arith in
    let rest =
      peek_congr (length bs) (a + 1) (poke a (b ∷ bs) f) (poke (a + 1) bs f)
        (λ x l k. unfold poke in ground arith) in
    cc (peek-poke bs (a + 1) f)

-- What is read from elsewhere is what was there.
pub peek-poke_outside :
    (n x a : ℕ) (bs : List ℕ) (f : ℕ → ℕ)
    → (x + n ≤ a) ⊎ (a + length bs ≤ x)
    → peek n x (poke a bs f) ≡ peek n x f
peek-poke_outside n x a bs f h =
    peek_congr n x (poke a bs f) f (λ y l k. poke_outside a bs f y (ground arith))

-- A little-endian number of `w` bytes.
unfoldable pub read_le : ℕ → ℕ → (ℕ → ℕ) → ℕ
unfolding peek from_le
read_le w a f = from_le (peek w a f)

pub read_le-poke : (w a v : ℕ) (f : ℕ → ℕ) → v < bound w → read_le w a (poke a (le_bytes w v) f) ≡ v
unfolding read_le
read_le-poke w a v f h =
    let bytes : peek w a (poke a (le_bytes w v) f) ≡ le_bytes w v =
      rw (length-le_bytes w v) at (peek-poke (le_bytes w v) a f) in
    rw bytes (from_le-le_bytes w v h)

pub read_le-poke_outside :
    (w x a : ℕ) (bs : List ℕ) (f : ℕ → ℕ)
    → (x + w ≤ a) ⊎ (a + length bs ≤ x)
    → read_le w x (poke a bs f) ≡ read_le w x f
unfolding read_le
read_le-poke_outside w x a bs f h = ap from_le (peek-poke_outside w x a bs f h)
