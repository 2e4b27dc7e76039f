-- ===== src/Boot.antt =====
-- src/driver/boot.rs: what the loader puts into the guest's memory. The files are the results of
-- `std::fs::read`; a slice or an index out of bounds is a panic.
pub mod Memory
pub mod PageTables
pub mod Loading
use Prim.Native.Nat.{bit_or}
use vm_rs.Prelude.{
  ℕ, zero, suc, ◌+◌, ◌-◌, ◌*◌, ◌/◌, ◌%◌, ◌^◌, min, Bool, true, false, ◌&&◌, ◌||◌, Option, none,
  some, List, [], ◌∷◌, ◌++◌,
}
use vm_rs.Prelude.Tests.{leb, ltb, not, ◌==◌, if◌then◌else◌}
use vm_rs.Prelude.Lists.{length, take, drop}
use vm_rs.Prelude.Text.{decimal, Str, codes, str_eq}
use vm_rs.Result.{Result, ok, err, VmError, IoError, boot_failed, invalid_config}
use Memory.{M, panic, ◌>>=◌, ◌>>◌, pure, throw, write, update, index, le_bytes, from_le}

abbrev pub boot_params_addr : ℕ
boot_params_addr = 0x7000

abbrev pub cmdline_addr : ℕ
cmdline_addr = 0x8000

abbrev pub cmdline_max : ℕ
cmdline_max = 4096

abbrev pub gdt_addr : ℕ
gdt_addr = 0xC000

abbrev pub kernel_addr : ℕ
kernel_addr = 0x100000

unfoldable pub setup_gdt : M (Unit {0})
setup_gdt = do
  write gdt_addr (le_bytes 8 0)
  write (gdt_addr + 8) (le_bytes 8 0x00AF_9A00_0000_FFFF)
  write (gdt_addr + 16) (le_bytes 8 0x00CF_9200_0000_FFFF)

-- `xs[a..b]` for bounds that the length has been checked against.
abbrev pub slice : ℕ → ℕ → List ℕ → List ℕ
slice a b xs = take (b - a) (drop a xs)

unfoldable pub write_e820_entry : (offset addr size entry_type : ℕ) → M (Unit {0})
write_e820_entry offset addr size entry_type = do
  write offset (le_bytes 8 addr)
  write (offset + 8) (le_bytes 8 size)
  write (offset + 16) (le_bytes 4 entry_type)

-- The test for a bzImage: boot flag and `HdrS`.
unfoldable pub is_bzimage : List ℕ → Bool
is_bzimage kernel =
    from_le (slice 0x1FE 0x200 kernel) == 0xAA55 && str_eq (slice 0x202 0x206 kernel) (codes "HdrS")

-- `memory[dest..dest + data.len()].copy_from_slice(data)` behind its size check.
unfoldable pub load_at : ℕ → List ℕ → Str → M (Unit {0})
load_at dest bytes message m =
    if ltb m.size (dest + length bytes)
    then throw (invalid_config message) m
    else write dest bytes m

-- The setup header and the fields that the loader fills in.
unfoldable pub write_boot_params : List ℕ → M (Unit {0})
write_boot_params kernel = do
  write (boot_params_addr + 0x1F1) (slice 0x1F1 (min 0x290 (length kernel)) kernel)
  write (boot_params_addr + 0x210) (0xFF ∷ [])
  update (boot_params_addr + 0x211) (λ b. bit_or b 0x81)
  write (boot_params_addr + 0x224) (le_bytes 2 0xFE00)

-- The command line is cut to 4095 bytes and ended by a zero byte.
unfoldable pub write_cmdline : List ℕ → M (Unit {0})
write_cmdline cmdline = do
  write cmdline_addr (take (cmdline_max - 1) cmdline)
  write (cmdline_addr + min (length cmdline) (cmdline_max - 1)) (0 ∷ [])
  write (boot_params_addr + 0x228) (le_bytes 4 cmdline_addr)

-- `(end + 0xFFF) & !0xFFF`: the next page boundary.
abbrev pub page_up : ℕ → ℕ
page_up a = (a + 0xFFF) / 4096 * 4096

unfoldable pub read_failed : Str → IoError → VmError
read_failed what e = boot_failed [] (codes "failed to read " ++ what ++ codes ": " ++ e.message)

unfoldable pub load_initramfs : ℕ → Option (Result IoError (List ℕ)) → M (Unit {0})
load_initramfs kernel_end none = pure tt
load_initramfs kernel_end (some (err e)) = throw (read_failed (codes "initramfs") e)
load_initramfs kernel_end (some (ok initrd)) = do
  load_at (page_up kernel_end) initrd (codes "not enough memory for kernel + initramfs")
  write (boot_params_addr + 0x218) (le_bytes 4 (page_up kernel_end % 2 ^ 32))
  write (boot_params_addr + 0x21C) (le_bytes 4 (length initrd % 2 ^ 32))

-- `mem_size - 0x100000`, which panics where arithmetic is checked for overflow, as it is in a build
-- without `--release`.
unfoldable pub above_1mb : ℕ → M ℕ
above_1mb memory_mb =
    if ltb (memory_mb * 1024 * 1024) 0x100000
    then (λ m. panic)
    else pure (memory_mb * 1024 * 1024 - 0x100000)

unfoldable pub write_memory_map : ℕ → M (Unit {0})
unfolding above_1mb
write_memory_map memory_mb = do
  write_e820_entry (boot_params_addr + 0x2D0) 0 0x9FC00 1
  write_e820_entry (boot_params_addr + 0x2D0 + 20) 0x9FC00 (0x100000 - 0x9FC00) 2
  size ← above_1mb memory_mb
  write_e820_entry (boot_params_addr + 0x2D0 + 40) 0x100000 size 1
  write (boot_params_addr + 0x1E8) (3 ∷ [])

-- The setup sectors of a bzImage, of which 0 means 4.
unfoldable pub setup_sectors : ℕ → ℕ
setup_sectors zero = 4
setup_sectors (suc n) = suc n

abbrev pub too_large : Str
too_large = codes "kernel too large for allocated memory"

unfoldable pub bad_setup_sects : ℕ → Str
bad_setup_sects n = codes "bzImage setup_sects (" ++ decimal n ++ codes ") exceeds file size"

-- What follows the parse of the setup header, for the protected-mode kernel behind it.
unfoldable pub load_pm_kernel :
    List ℕ → Option (Result IoError (List ℕ)) → List ℕ → ℕ → List ℕ → M ℕ
load_pm_kernel kernel initramfs cmdline memory_mb pm_kernel = do
  load_at kernel_addr pm_kernel too_large
  write_boot_params kernel
  write_cmdline cmdline
  load_initramfs (kernel_addr + length pm_kernel) initramfs
  write_memory_map memory_mb
  pure kernel_addr

unfoldable pub load_bzimage : List ℕ → Option (Result IoError (List ℕ)) → List ℕ → ℕ → ℕ → M ℕ
load_bzimage kernel initramfs cmdline memory_mb setup_sects =
    let pm_offset = (setup_sects + 1) * 512 in
    if leb (length kernel) pm_offset
    then throw (invalid_config (bad_setup_sects setup_sects))
    else load_pm_kernel kernel initramfs cmdline memory_mb (drop pm_offset kernel)

-- A kernel without the magic numbers is copied whole.
unfoldable pub load_flat : List ℕ → M ℕ
load_flat kernel = do load_at kernel_addr kernel too_large; pure kernel_addr

unfoldable pub load_image : List ℕ → Option (Result IoError (List ℕ)) → List ℕ → ℕ → M ℕ
load_image kernel initramfs cmdline memory_mb =
    if not (is_bzimage kernel) then load_flat kernel else do
      n ← index kernel 0x1F1
      load_bzimage kernel initramfs cmdline memory_mb (setup_sectors n)

unfoldable pub too_much_memory : ℕ → Str
too_much_memory memory_mb =
    codes "direct boot currently supports up to 1024 MB guest memory (got "
    ++ decimal memory_mb
    ++ codes " MB); support for larger memory will be added in a future release"

abbrev pub too_small : Str
too_small = codes "kernel image too small for bzImage"

unfoldable pub load_kernel_from_bytes : List ℕ → Option (Result IoError (List ℕ)) → List ℕ → ℕ → M ℕ
load_kernel_from_bytes kernel initramfs cmdline memory_mb =
    if ltb 1024 memory_mb
    then throw (invalid_config (too_much_memory memory_mb))
    else if ltb (length kernel) 0x250
    then throw (invalid_config too_small)
    else load_image kernel initramfs cmdline memory_mb

unfoldable pub load_kernel :
    Result IoError (List ℕ) → Option (Result IoError (List ℕ)) → List ℕ → ℕ → M ℕ
load_kernel (err e) initramfs cmdline memory_mb = throw (read_failed (codes "kernel") e)
load_kernel (ok kernel) initramfs cmdline memory_mb =
    load_kernel_from_bytes kernel initramfs cmdline memory_mb
