-- ===== src/Examples/Images.antt =====
-- A guest memory of 2 MB and a flat kernel, for src/driver/boot.rs.
use vm_rs.Prelude.{ℕ, ◌*◌, ◌^◌, ◌≡◌, none, some, List, arith}
use vm_rs.Prelude.Tests.{ltb, if◌then◌else◌}
use vm_rs.Prelude.Lists.{replicate}
use vm_rs.Prelude.Text.{codes}
use vm_rs.Boot.{load_kernel_from_bytes}
use vm_rs.Boot.Memory.{Memory, done}
use vm_rs.Boot.PageTables.{setup_page_tables, walk, pml4_addr, setup_page_tables_identity}
use vm_rs.Boot.Loading.{Ends, Kept, load_kernel_from_bytes_safe}

abbrev memory : Memory
memory = record { size = 0x20_0000; byte = λ a. 0 }

abbrev kernel : List ℕ
kernel = replicate 600 0x90

setup_page_tables_identity_example :
    (m' : Memory) × (setup_page_tables 64 memory ≡ done tt m')
    × (walk m'.byte pml4_addr 0x12_3456
        ≡ (if ltb 0x12_3456 (32 * 2 ^ 21) then some 0x12_3456 else none))
setup_page_tables_identity_example =
    setup_page_tables_identity 64 0x12_3456 memory (omega arith) (omega arith)

load_kernel_from_bytes_safe_example :
    Ends
      (Kept 0x9000 0x100000 0x20_0000 (λ a. 0))
      (load_kernel_from_bytes kernel none (codes "console=ttyS0") 64 memory)
load_kernel_from_bytes_safe_example =
    load_kernel_from_bytes_safe kernel none (codes "console=ttyS0") 64 memory (omega arith)
      (omega arith)
