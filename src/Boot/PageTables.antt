-- ===== src/Boot/PageTables.antt =====
-- `setup_page_tables` (src/driver/boot.rs), and the four-level walk of a processor in long mode as
-- its specification.
use vm_rs.Prelude.{
  ℕ, zero, suc, ◌+◌, ◌*◌, ◌/◌, ◌%◌, ◌^◌, ◌≤◌, ◌<◌, min, ◌≡◌, refl, ap, ◌∙◌, ◌⊎◌, inl, inr, Bool,
  true, false, ◌&&◌, Option, none, some, List, [], ◌∷◌, arith,
}
use Prim.Native.Nat.{bit_or}
use vm_rs.Prelude.Tests.{ltb, ◌==◌, if◌then◌else◌, Bool-cases, ==_iff, ltb→lt, ltb_false→le}
use vm_rs.Prelude.Lists.{length}
use vm_rs.Boot.Memory.{
  Memory, done, M, ◌>>◌, pure, poke, write, write_ok, write_then, poked, le_bytes, length-le_bytes,
  bound, read_le, read_le-poke, read_le-poke_outside,
}

abbrev pub pml4_addr : ℕ
pml4_addr = 0x9000

abbrev pub pdpt_addr : ℕ
pdpt_addr = 0xA000

abbrev pub pd_addr : ℕ
pd_addr = 0xB000

abbrev pub pte_present : ℕ
pte_present = 1

abbrev pub pte_writable : ℕ
pte_writable = 2

abbrev pub pte_page_size : ℕ
pte_page_size = 128

unfoldable pub zeros : ℕ → List ℕ
zeros zero = []
zeros (suc n) = 0 ∷ zeros n

-- `phys_addr | PTE_PRESENT | PTE_WRITABLE | PTE_PAGE_SIZE` for the 2 MB page of an index.
unfoldable pub pd_entry : ℕ → ℕ
pd_entry i = bit_or (bit_or (bit_or (i * 2 * 1024 * 1024) pte_present) pte_writable) pte_page_size

-- `memory_mb.div_ceil(2).min(512)`
unfoldable pub num_pages : ℕ → ℕ
num_pages memory_mb = min ((memory_mb + 1) / 2) 512

-- The loop over the page directory, with the rounds that are left and the index.
unfoldable pub pd_loop : ℕ → ℕ → M (Unit {0})
pd_loop zero i = pure tt
pd_loop (suc k) i = do write (pd_addr + i * 8) (le_bytes 8 (pd_entry i)); pd_loop k (i + 1)

unfoldable pub setup_page_tables : ℕ → M (Unit {0})
setup_page_tables memory_mb = do
  write pml4_addr (zeros 0x3000)
  write pml4_addr (le_bytes 8 (bit_or (bit_or pdpt_addr pte_present) pte_writable))
  write pdpt_addr (le_bytes 8 (bit_or (bit_or pd_addr pte_present) pte_writable))
  pd_loop (num_pages memory_mb) 0

-- The walk. An entry is present if bit 0 is set; bits 12 to 51 are the address of the next table, and
-- with bit 7 set in the page directory bits 21 to 51 are the address of a 2 MB page.
abbrev is_present : ℕ → Bool
is_present entry = entry % 2 == 1

abbrev is_large : ℕ → Bool
is_large entry = entry / 128 % 2 == 1

abbrev next_table : ℕ → ℕ
next_table entry = entry / 4096 % 2 ^ 40 * 4096

abbrev page_of : ℕ → ℕ
page_of entry = entry / 2 ^ 21 % 2 ^ 31 * 2 ^ 21

unfoldable pub walk_pd : ℕ → ℕ → Option ℕ
walk_pd va entry =
    if is_present entry && is_large entry then some (page_of entry + va % 2 ^ 21) else none

unfoldable pub walk : (ℕ → ℕ) → ℕ → ℕ → Option ℕ
unfolding walk_pd
walk f cr3 va =
    let pml4e = read_le 8 (cr3 + 8 * (va / 2 ^ 39 % 512)) f in
    let pdpte = read_le 8 (next_table pml4e + 8 * (va / 2 ^ 30 % 512)) f in
    let pde = read_le 8 (next_table pdpte + 8 * (va / 2 ^ 21 % 512)) f in
    if is_present pml4e then (if is_present pdpte then walk_pd va pde else none) else none

length-zeros : (n : ℕ) → length (zeros n) ≡ n
unfolding zeros
length-zeros zero = refl
length-zeros (suc n) = ap suc (length-zeros n)

poke-zeros : (n a : ℕ) (f : ℕ → ℕ) (x : ℕ) → a ≤ x → x < a + n → poke a (zeros n) f x ≡ 0
unfolding poke zeros
poke-zeros zero a f x l h = absurd (omega arith)
poke-zeros (suc n) a f x l h = ground (arith, poke-zeros n (a + 1) f x)

read_zeros :
    (w n a x : ℕ) (f : ℕ → ℕ) → a ≤ x → x + w ≤ a + n → read_le w x (poke a (zeros n) f) ≡ 0
unfolding read_le
read_zeros zero n a x f l h = refl
read_zeros (suc w) n a x f l h = omega (
  arith,
  poke-zeros n a f x l (omega arith),
  read_zeros w n a (x + 1) f (omega arith) (omega arith),
)

holds_up_to : (ℕ → Bool) → ℕ → Bool
holds_up_to test zero = true
holds_up_to test (suc last) = if test last then holds_up_to test last else false

holds_at : (test : ℕ → Bool) (last i : ℕ) → i < last → holds_up_to test last ≡ true → test i ≡ true
unfolding holds_up_to
holds_at test zero i below found = absurd (omega arith)
holds_at test (suc last) i below found = elim (Bool-cases (test last)) [
  | inr failed ↦ absurd (ground arith)
  | inl passed ↦ ground (arith, holds_at test last i)
]

pd_entry_table : holds_up_to (λ i. pd_entry i == i * 2097152 + 131) 512 ≡ true
unfolding holds_up_to pd_entry
pd_entry_table = refl

-- The flags do not meet the address.
pd_entry_lem : (i : ℕ) → i < 512 → pd_entry i ≡ i * 2097152 + 131
pd_entry_lem i h =
    (==_iff _ _).0 (holds_at (λ i. pd_entry i == i * 2097152 + 131) 512 i h pd_entry_table)

pd_entry_small : (j : ℕ) → j < 512 → pd_entry j < bound 8
unfolding bound
pd_entry_small j h = rw (pd_entry_lem j h) (omega arith)

-- The bytes that the loop leaves.
pd_bytes : ℕ → ℕ → (ℕ → ℕ) → ℕ → ℕ
pd_bytes zero i f = f
pd_bytes (suc k) i f = pd_bytes k (i + 1) (poke (pd_addr + i * 8) (le_bytes 8 (pd_entry i)) f)

pd_loop-eq :
    (k i : ℕ) (m : Memory)
    → pd_addr + (i + k) * 8 ≤ m.size
    → pd_loop k i m ≡ done tt (record m { byte = pd_bytes k i m.byte })
unfolding pd_loop pd_bytes
pd_loop-eq zero i m h = refl
pd_loop-eq (suc k) i m h =
    let entry = le_bytes 8 (pd_entry i) in
    let m' : Memory = record m { byte = poke (pd_addr + i * 8) entry m.byte } in
    rw (write_ok (pd_addr + i * 8) entry m (omega (arith, length-le_bytes 8 (pd_entry i))))
      (pd_loop-eq k (i + 1) m' (omega arith))

read_pd_bytes_outside :
    (k i x : ℕ) (f : ℕ → ℕ)
    → (x + 8 ≤ pd_addr + i * 8) ⊎ (pd_addr + (i + k) * 8 ≤ x)
    → read_le 8 x (pd_bytes k i f) ≡ read_le 8 x f
unfolding pd_bytes
read_pd_bytes_outside zero i x f h = refl
read_pd_bytes_outside (suc k) i x f h =
    let entry = le_bytes 8 (pd_entry i) in
    read_pd_bytes_outside k (i + 1) x _ (omega arith)
    ∙ read_le-poke_outside 8 x (pd_addr + i * 8) entry f
        (omega (arith, length-le_bytes 8 (pd_entry i)))

read_pd_bytes :
    (k i j : ℕ) (f : ℕ → ℕ)
    → i ≤ j
    → j < i + k
    → j < 512
    → read_le 8 (pd_addr + j * 8) (pd_bytes k i f) ≡ j * 2097152 + 131
unfolding pd_bytes
read_pd_bytes zero i j f l h b = absurd (omega arith)
read_pd_bytes (suc k) i j f l h b = elim (Bool-cases (i == j)) [
  | inl same ↦
      let e : i ≡ j = (==_iff i j).0 same in
      let here = read_pd_bytes_outside k (i + 1) (pd_addr + j * 8) _ (omega arith) in
      here
      ∙ rw e
          (read_le-poke 8 (pd_addr + j * 8) (pd_entry j) f (pd_entry_small j b) ∙ pd_entry_lem j b)
  | inr other ↦ read_pd_bytes k (i + 1) j _ (ground arith) (omega arith) b
]

-- The memory after `setup_page_tables`.
table_bytes : ℕ → (ℕ → ℕ) → ℕ → ℕ
table_bytes memory_mb f = pd_bytes (num_pages memory_mb) 0 (
    poke pdpt_addr (le_bytes 8 (bit_or (bit_or pd_addr pte_present) pte_writable)) (
      poke pml4_addr (le_bytes 8 (bit_or (bit_or pdpt_addr pte_present) pte_writable))
        (poke pml4_addr (zeros 0x3000) f)))

num_pages-le : (memory_mb : ℕ) → num_pages memory_mb ≤ 512
unfolding num_pages
num_pages-le memory_mb = omega arith

setup-eq :
    (memory_mb : ℕ) (m : Memory)
    → 0xC000 ≤ m.size
    → setup_page_tables memory_mb m ≡ done tt (record m { byte = table_bytes memory_mb m.byte })
unfolding setup_page_tables table_bytes
setup-eq memory_mb m h =
    let e1 = le_bytes 8 (bit_or (bit_or pdpt_addr pte_present) pte_writable) in
    let e2 = le_bytes 8 (bit_or (bit_or pd_addr pte_present) pte_writable) in
    let m1 = poked pml4_addr (zeros 0x3000) m in
    let m2 = poked pml4_addr e1 m1 in
    let m3 = poked pdpt_addr e2 m2 in
    write_then pml4_addr (zeros 0x3000) _ m (omega (arith, length-zeros 0x3000, h))
    ∙ write_then pml4_addr e1 _ m1
        (omega (arith, length-le_bytes 8 (bit_or (bit_or pdpt_addr pte_present) pte_writable), h))
    ∙ write_then pdpt_addr e2 _ m2
        (omega (arith, length-le_bytes 8 (bit_or (bit_or pd_addr pte_present) pte_writable), h))
    ∙ pd_loop-eq (num_pages memory_mb) 0 m3 (omega (arith, num_pages-le memory_mb, h))

-- What the walk reads of the three tables.
module _ (memory_mb : ℕ) (f : ℕ → ℕ) where
  read_pml4 : read_le 8 pml4_addr (table_bytes memory_mb f) ≡ 0xA003
  unfolding table_bytes
  read_pml4 =
      read_pd_bytes_outside (num_pages memory_mb) 0 pml4_addr _ (omega arith)
      ∙ read_le-poke_outside 8 pml4_addr pdpt_addr _ _ (inl (omega arith))
      ∙ read_le-poke 8 pml4_addr 0xA003 _ (unfold bound in omega arith)

  read_pdpt : read_le 8 pdpt_addr (table_bytes memory_mb f) ≡ 0xB003
  unfolding table_bytes
  read_pdpt =
      read_pd_bytes_outside (num_pages memory_mb) 0 pdpt_addr _ (omega arith)
      ∙ read_le-poke 8 pdpt_addr 0xB003 _ (unfold bound in omega arith)

  read_mapped :
      (j : ℕ)
      → j < num_pages memory_mb
      → read_le 8 (pd_addr + j * 8) (table_bytes memory_mb f) ≡ j * 2097152 + 131
  unfolding table_bytes
  read_mapped j h =
      read_pd_bytes (num_pages memory_mb) 0 j _ (omega arith) (omega arith)
        (omega (arith, num_pages-le memory_mb))

  read_unmapped :
      (j : ℕ)
      → num_pages memory_mb ≤ j
      → j < 512
      → read_le 8 (pd_addr + j * 8) (table_bytes memory_mb f) ≡ 0
  unfolding table_bytes
  read_unmapped j l h =
      read_pd_bytes_outside (num_pages memory_mb) 0 (pd_addr + j * 8) _ (inr (omega arith))
      ∙ read_le-poke_outside 8 (pd_addr + j * 8) pdpt_addr _ _
          (inr (omega (arith, length-le_bytes 8 0xB003)))
      ∙ read_le-poke_outside 8 (pd_addr + j * 8) pml4_addr _ _
          (inr (omega (arith, length-le_bytes 8 0xA003)))
      ∙ read_zeros 8 0x3000 pml4_addr (pd_addr + j * 8) f (omega arith) (omega arith)

mapped_page : (va : ℕ) → va < 2 ^ 30 → walk_pd va (va / 2 ^ 21 * 2097152 + 131) ≡ some va
unfolding walk_pd
mapped_page va h =
    let entry = va / 2 ^ 21 * 2097152 + 131 in
    let present : is_present entry ≡ true = (==_iff (entry % 2) 1).1 (omega arith) in
    let large : is_large entry ≡ true = (==_iff (entry / 128 % 2) 1).1 (omega arith) in
    let address : page_of entry + va % 2 ^ 21 ≡ va = omega arith in rw (present, large, address)

unmapped_page : (va : ℕ) → walk_pd va 0 ≡ none
unfolding walk_pd
unmapped_page va = refl

-- Below 1 GB the walk passes the two upper tables and ends at the page directory.
walk_to_pd :
    (memory_mb : ℕ) (f : ℕ → ℕ) (va : ℕ)
    → va < 2 ^ 30
    → walk (table_bytes memory_mb f) pml4_addr va
      ≡ walk_pd va (read_le 8 (pd_addr + va / 2 ^ 21 * 8) (table_bytes memory_mb f))
unfolding walk
walk_to_pd memory_mb f va h =
    let i : va / 2 ^ 39 % 512 ≡ 0 = omega arith in
    let j : va / 2 ^ 30 % 512 ≡ 0 = omega arith in
    let k : va / 2 ^ 21 % 512 ≡ va / 2 ^ 21 = omega arith in
    let place : 0xB000 + 8 * (va / 2 ^ 21) ≡ pd_addr + va / 2 ^ 21 * 8 = omega arith in
    rw (i, j, k, read_pml4 memory_mb f, read_pdpt memory_mb f, place)

-- In a memory that reaches past the tables `setup_page_tables` returns without a panic, and after
-- it the processor's walk of an address below 1 GB gives that address if it is in the first
-- `memory_mb` megabytes, rounded up to 2 MB pages and capped at 512 of them, and nothing if it is
-- not.
pub setup_page_tables_identity :
    (memory_mb va : ℕ) (m : Memory)
    → 0xC000 ≤ m.size
    → va < 2 ^ 30
    → (m' : Memory) × (setup_page_tables memory_mb m ≡ done tt m')
      × (walk m'.byte pml4_addr va
          ≡ (if ltb va (min ((memory_mb + 1) / 2) 512 * 2 ^ 21) then some va else none))
unfolding num_pages
setup_page_tables_identity memory_mb va m h small = (
  record m { byte = table_bytes memory_mb m.byte },
  setup-eq memory_mb m h,
  walk_to_pd memory_mb m.byte va small ∙ elim (Bool-cases (ltb va (num_pages memory_mb * 2 ^ 21))) [
    | inl inside ↦
        rw (inside, read_mapped memory_mb m.byte (va / 2 ^ 21) (omega (arith, ltb→lt _ _ inside)))
          (mapped_page va small)
    | inr outside ↦
        rw
          (
            outside,
            read_unmapped memory_mb m.byte (va / 2 ^ 21) (omega (arith, ltb_false→le _ _ outside))
                (omega arith),
          )
          (unmapped_page va)
  ],
)
