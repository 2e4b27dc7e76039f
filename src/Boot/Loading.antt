-- ===== src/Boot/Loading.antt =====
-- `load_kernel_from_bytes` (src/driver/boot.rs): how each of its steps ends, and what it leaves alone.
use vm_rs.Prelude.{
  ℕ, ◌+◌, ◌-◌, ◌*◌, ◌%◌, ◌^◌, ◌≤◌, ◌<◌, min, ◌≡◌, refl, ◌∙◌, ◌⊎◌, inl, inr, Bool, true, false,
  Option, none, some, List, [], ◌∷◌, arith,
}
use vm_rs.Prelude.Tests.{
  leb, ltb, not, if◌then◌else◌, Bool-cases, ltb_false→le, le→ltb_false, keep-if,
}
use vm_rs.Prelude.Lists.{length, take, drop, get_elem?_of_lt, length-take}
use vm_rs.Prelude.Text.{Str}
use vm_rs.Result.{Result, ok, err, VmError, IoError, invalid_config}
use vm_rs.Boot.Memory.{
  Memory, Outcome, done, fail, panic, M, ◌>>=◌, ◌>>◌, then_do, pure, throw, poke_outside, write,
  write_ok, update, index, le_bytes, length-le_bytes,
}
use vm_rs.Boot.{
  slice, write_e820_entry, load_at, write_boot_params, write_cmdline, load_initramfs,
  write_memory_map, load_bzimage, load_kernel_from_bytes, page_up, above_1mb, is_bzimage,
  setup_sectors, kernel_addr, load_pm_kernel, load_flat, load_image, too_large, too_much_memory,
  too_small, bad_setup_sects,
}

above_1mb_ok :
    (memory_mb : ℕ)
    → 0 < memory_mb
    → above_1mb memory_mb ≡ pure (memory_mb * 1024 * 1024 - 0x100000)
unfolding above_1mb
above_1mb_ok memory_mb h = rw (le→ltb_false (memory_mb * 1024 * 1024) 0x100000 (omega arith)) refl

-- A routine that ends, with or without an error, in a memory of a kind.
abbrev pub Ends : {A : Type 0} → (Memory → Type 0) → Outcome A → Type 0
Ends Q (done a m) = Q m
Ends Q (fail e m) = Q m
Ends Q panic = ⊥

-- A routine that keeps a kind of memory, however it ends.
pub record Preserves {A : Type 0} (Q : Memory → Type 0) (c : M A) : Type 0 where
  pub at : (m : Memory) → Q m → Ends Q (c m)

module _ {B : Type 0} {Q : Memory → Type 0} where
  pub Preserves-then :
      (c : M (Unit {0})) (k : M B) → Preserves Q c → Preserves Q k → Preserves Q (c >> k)
  Preserves-then c k hc hk = record { at = λ m q. go (c m) (hc.at m q) }
    where
      go : (o : Outcome (Unit {0})) → Ends Q o → Ends Q (then_do o (λ _. k))
      go (done a m') q = hk.at m' q
      go (fail e m') q = q
      go panic q = q

-- A memory of size `s` that agrees with `f` from `lo` up to `hi`.
pub record Kept (lo hi s : ℕ) (f : ℕ → ℕ) (m : Memory) : Type 0 where
  pub size : m.size ≡ s
  pub same : (x : ℕ) → lo ≤ x → x < hi → m.byte x ≡ f x

module _ (lo hi s : ℕ) (f : ℕ → ℕ) where
  -- Room for `n` bytes at an address, outside the range.
  abbrev pub IsApart : ℕ → ℕ → Type 0
  IsApart a n = (a + n ≤ s) × ((a + n ≤ lo) ⊎ (hi ≤ a))

  pub Kept-write :
      (a n : ℕ) (bs : List ℕ)
      → length bs ≤ n
      → IsApart a n
      → Preserves (Kept lo hi s f) (write a bs)
  Kept-write a n bs l apart = record {
    at = λ m k. rw (write_ok a bs m (omega (arith, k.size))) (record {
      size = k.size;
      same = λ x above below. poke_outside a bs m.byte x (omega arith) ∙ k.same x above below;
    });
  }

  Kept-le :
      {B : Type 0} (a w v : ℕ) (k : M B)
      → IsApart a w
      → Preserves (Kept lo hi s f) k
      → Preserves (Kept lo hi s f) (write a (le_bytes w v) >> k)
  Kept-le a w v k apart h =
      Preserves-then (write a (le_bytes w v)) k
        (Kept-write a w (le_bytes w v) (omega (arith, length-le_bytes w v)) apart) h

  Kept-entry :
      (offset addr size entry_type : ℕ)
      → IsApart offset 20
      → Preserves (Kept lo hi s f) (write_e820_entry offset addr size entry_type)
  unfolding write_e820_entry
  Kept-entry offset addr size entry_type apart = Kept-le offset 8 addr _ (omega arith) (
      Kept-le (offset + 8) 8 size _ (omega arith) (
        Kept-write (offset + 16) 4 (le_bytes 4 entry_type)
          (omega (arith, length-le_bytes 4 entry_type)) (omega arith)))

  Kept-update : (a : ℕ) (g : ℕ → ℕ) → IsApart a 1 → Preserves (Kept lo hi s f) (update a g)
  unfolding update
  Kept-update a g apart = record {
    at = λ m k. (Kept-write a 1 (g (m.byte a) ∷ []) (omega arith) apart).at m k;
  }

  -- The memory map stands in the boot parameters, in 0x71E8 and from 0x72D0 to 0x730C.
  pub Kept-memory_map :
      (memory_mb : ℕ)
      → 0 < memory_mb
      → IsApart 0x7000 0x1000
      → Preserves (Kept lo hi s f) (write_memory_map memory_mb)
  unfolding write_memory_map
  Kept-memory_map memory_mb some_memory apart =
      Preserves-then _ _ (Kept-entry 0x72D0 0 0x9FC00 1 (omega arith)) (
        Preserves-then _ _ (Kept-entry 0x72E4 0x9FC00 0x60400 2 (omega arith)) (
          rw (above_1mb_ok memory_mb some_memory) (
            Preserves-then _ _
              (Kept-entry 0x72F8 0x100000 (memory_mb * 1024 * 1024 - 0x100000) 1 (omega arith))
              (Kept-write 0x71E8 1 (3 ∷ []) (omega arith) (omega arith)))))

  pub Kept-boot_params :
      (kernel : List ℕ)
      → IsApart 0x7000 0x1000
      → Preserves (Kept lo hi s f) (write_boot_params kernel)
  unfolding write_boot_params
  Kept-boot_params kernel apart =
      Preserves-then _ _
        (Kept-write 0x71F1 0x9F (slice 0x1F1 (min 0x290 (length kernel)) kernel)
          (omega (arith, length-take (min 0x290 (length kernel) - 0x1F1) (drop 0x1F1 kernel)))
          (omega arith))
        (Preserves-then _ _ (Kept-write 0x7210 1 (0xFF ∷ []) (omega arith) (omega arith)) (
          Preserves-then _ _ (Kept-update 0x7211 _ (omega arith)) (
            Kept-write 0x7224 2 (le_bytes 2 0xFE00) (omega (arith, length-le_bytes 2 0xFE00))
              (omega arith))))

  pub Kept-cmdline :
      (cmdline : List ℕ)
      → IsApart 0x7000 0x2000
      → Preserves (Kept lo hi s f) (write_cmdline cmdline)
  unfolding write_cmdline
  Kept-cmdline cmdline apart =
      Preserves-then _ _
        (Kept-write 0x8000 4095 (take 4095 cmdline) (omega (arith, length-take 4095 cmdline))
          (omega arith))
        (Preserves-then _ _
          (Kept-write (0x8000 + min (length cmdline) 4095) 1 (0 ∷ []) (omega arith) (omega arith))
          (Kept-write 0x7228 4 (le_bytes 4 0x8000) (omega (arith, length-le_bytes 4 0x8000))
            (omega arith)))

  pub Kept-load_at :
      (dest : ℕ) (bytes : List ℕ) (message : Str)
      → (dest + length bytes ≤ lo) ⊎ (hi ≤ dest)
      → Preserves (Kept lo hi s f) (load_at dest bytes message)
  unfolding load_at
  Kept-load_at dest bytes message apart = record {
    at = λ m k. elim (Bool-cases (ltb m.size (dest + length bytes))) [
      | inl over ↦ (let e : ltb m.size (dest + length bytes) ≡ true = over in simp e k)
      | inr fits ↦
          (let e : ltb m.size (dest + length bytes) ≡ false = fits in
            simp e (
              (Kept-write dest (length bytes) bytes (omega arith)
                  (omega (arith, ltb_false→le m.size (dest + length bytes) fits, k.size), apart)).at
                m k))
    ];
  }

  pub Kept-initramfs :
      (kernel_end : ℕ) (initramfs : Option (Result IoError (List ℕ)))
      → IsApart 0x7000 0x1000
      → hi ≤ kernel_end
      → Preserves (Kept lo hi s f) (load_initramfs kernel_end initramfs)
  unfolding load_initramfs
  Kept-initramfs kernel_end none apart above = record { at = λ m k. k }
  Kept-initramfs kernel_end (some (err e)) apart above = record { at = λ m k. k }
  Kept-initramfs kernel_end (some (ok initrd)) apart above =
      Preserves-then _ _ (Kept-load_at (page_up kernel_end) initrd _ (inr (omega arith))) (
        Kept-le 0x7218 4 (page_up kernel_end % 2 ^ 32) _ (omega arith) (
          Kept-write 0x721C 4 (le_bytes 4 (length initrd % 2 ^ 32))
            (omega (arith, length-le_bytes 4 (length initrd % 2 ^ 32))) (omega arith)))

  -- A refused test is an error that writes nothing.
  Kept-guard :
      {B : Type 0} (b : Bool) (e : VmError) (c : M B)
      → (b ≡ false → Preserves (Kept lo hi s f) c)
      → Preserves (Kept lo hi s f) (if b then throw e else c)
  Kept-guard true e c h = record { at = λ m k. k }
  Kept-guard false e c h = h refl

  -- Everything behind the copy of a bzImage's kernel.
  pub Kept-rest :
      (kernel cmdline : List ℕ) (kernel_end : ℕ) (initramfs : Option (Result IoError (List ℕ)))
      (memory_mb : ℕ)
      → 0 < memory_mb
      → IsApart 0x7000 0x2000
      → hi ≤ kernel_end
      → Preserves (Kept lo hi s f) (
          write_boot_params kernel
          >> (write_cmdline cmdline
              >> (load_initramfs kernel_end initramfs
                  >> (write_memory_map memory_mb >> pure kernel_addr))))
  Kept-rest kernel cmdline kernel_end initramfs memory_mb some_memory apart above =
      Preserves-then _ _ (Kept-boot_params kernel (omega arith)) (
        Preserves-then _ _ (Kept-cmdline cmdline apart) (
          Preserves-then _ _ (Kept-initramfs kernel_end initramfs (omega arith) above) (
            Preserves-then _ _ (Kept-memory_map memory_mb some_memory (omega arith))
              (record { at = λ m k. k }))))

module _ (lo hi s : ℕ) (f : ℕ → ℕ) (apart : IsApart lo hi s f 0x7000 0x2000)
    (below : hi ≤ 0x100000) where
  abbrev KeptHere : Memory → Type 0
  KeptHere = Kept lo hi s f

  Kept-flat : (kernel : List ℕ) → Preserves KeptHere (load_flat kernel)
  unfolding load_flat
  Kept-flat kernel =
      Preserves-then (load_at kernel_addr kernel too_large) (pure kernel_addr)
        (Kept-load_at lo hi s f kernel_addr kernel too_large (inr below)) (record { at = λ m k. k })

  module _ (kernel : List ℕ) (initramfs : Option (Result IoError (List ℕ))) (cmdline : List ℕ)
      (memory_mb : ℕ) (some_memory : 0 < memory_mb) where
    Kept-pm_kernel :
        (pm_kernel : List ℕ)
        → Preserves KeptHere (load_pm_kernel kernel initramfs cmdline memory_mb pm_kernel)
    unfolding load_pm_kernel
    Kept-pm_kernel pm_kernel =
        Preserves-then (load_at kernel_addr pm_kernel too_large) _
          (Kept-load_at lo hi s f kernel_addr pm_kernel too_large (inr below))
          (Kept-rest lo hi s f kernel cmdline (kernel_addr + length pm_kernel) initramfs memory_mb
            some_memory apart (omega arith))

    Kept-bzimage : (n : ℕ) → Preserves KeptHere (load_bzimage kernel initramfs cmdline memory_mb n)
    unfolding load_bzimage
    Kept-bzimage n =
        Kept-guard lo hi s f (leb (length kernel) ((n + 1) * 512))
          (invalid_config (bad_setup_sects n))
          (load_pm_kernel kernel initramfs cmdline memory_mb (drop ((n + 1) * 512) kernel))
          (λ _. Kept-pm_kernel (drop ((n + 1) * 512) kernel))

    -- The setup header lies within a kernel of the smallest size.
    Kept-header :
        0x250 ≤ length kernel
        → Preserves KeptHere (
            index kernel 0x1F1 >>= λ n.
            load_bzimage kernel initramfs cmdline memory_mb (setup_sectors n))
    unfolding index
    Kept-header long =
        let (x, found) = get_elem?_of_lt kernel 0x1F1 (omega arith) in
        record { at = λ m q. rw (found, then_do) ((Kept-bzimage (setup_sectors x)).at m q) }

    Kept-image :
        0x250 ≤ length kernel → Preserves KeptHere (load_image kernel initramfs cmdline memory_mb)
    unfolding load_image
    Kept-image long =
        keep-if (Preserves KeptHere) (not (is_bzimage kernel)) (Kept-flat kernel) (Kept-header long)

    -- The whole routine, for a range between the command line and the kernel.
    pub Kept-load : Preserves KeptHere (load_kernel_from_bytes kernel initramfs cmdline memory_mb)
    unfolding load_kernel_from_bytes
    Kept-load =
        Kept-guard lo hi s f (ltb 1024 memory_mb) (invalid_config (too_much_memory memory_mb)) _
          (λ _.
            Kept-guard lo hi s f (ltb (length kernel) 0x250) (invalid_config too_small)
              (load_image kernel initramfs cmdline memory_mb)
              (λ long. Kept-image (ltb_false→le (length kernel) 0x250 long)))

-- In a memory of at least 0x9000 bytes and told a size of at least one megabyte, the loader never
-- panics, whatever the kernel, the initramfs and the command line; and however it ends, the
-- memory has the same size and the bytes from 0x9000 up to 1 MB, where the page tables and the
-- GDT stand, are as they were.
pub load_kernel_from_bytes_safe :
    (kernel : List ℕ) (initramfs : Option (Result IoError (List ℕ))) (cmdline : List ℕ)
    (memory_mb : ℕ) (m : Memory)
    → 0 < memory_mb
    → 0x9000 ≤ m.size
    → Ends
        (Kept 0x9000 0x100000 m.size m.byte)
        (load_kernel_from_bytes kernel initramfs cmdline memory_mb m)
load_kernel_from_bytes_safe kernel initramfs cmdline memory_mb m some_memory room =
    (Kept-load 0x9000 0x100000 m.size m.byte (omega arith) (omega arith) kernel initramfs cmdline
        memory_mb some_memory).at
      m (record { size = refl; same = λ x a b. refl })
