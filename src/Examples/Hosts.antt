-- ===== src/Examples/Hosts.antt =====
-- Programs of the host that answer at once, for src/network/bridge.rs and src/vm/disk.rs.
use vm_rs.Prelude.Lists.{length}
use vm_rs.Prelude.{
  inl, ℕ, suc, ◌≡◌, ◌≢◌, refl, ◌∙◌, Bool, true, false, Option, none, some, List, [], ◌∷◌,
}
use vm_rs.Prelude.Tests.{keep-if}
use vm_rs.Prelude.Text.{Str, codes, str_eq, str_eq_refl}
use vm_rs.Prelude.Map.{lookup, insert, lookup-insert}
use vm_rs.Result.{ok, IoError}
use vm_rs.Exec.{Exec}
use vm_rs.Disk.{Disk, Bytes}
use vm_rs.Bridge
use vm_rs.Bridge.Names.{IsInterfaceName, Guarded, interface_guard}
use vm_rs.Clone
use vm_rs.Clone.Sizes.{SameSize, Copies, clone_disk-SameSize}

-- The state counts the programs that were run.
abbrev net : Bridge.NetHost ℕ
net = record {
  run = λ program args w.
      (ok (record { success = true; status = []; stdout = []; stderr = [] }), suc w);
  write = λ path text w. (ok tt, w);
}

interface_guard_example :
    Guarded net
      (IsInterfaceName (codes "br 0"))
      (Bridge.ensure_bridge net (codes "br 0") (codes "10.0.0.1") (codes "10.0.0.0/24") 0)
      0
    × Guarded net (IsInterfaceName (codes "br 0")) (Bridge.create_tap net (codes "br 0") 0) 0
    × Guarded net
        (IsInterfaceName (codes "br 0") × IsInterfaceName (codes "br1"))
        (Bridge.add_to_bridge net (codes "br 0") (codes "br1") 0)
        0
interface_guard_example =
    interface_guard net (codes "br 0") (codes "br1") (codes "10.0.0.1") (codes "10.0.0.0/24") 0

-- A `cp` that copies whole files, without the failures of the disk.
abbrev copy_bytes : Str → Option Bytes → Exec Disk IoError Bool
copy_bytes target none d = (ok false, d)
copy_bytes target (some bytes) d = (ok true, record d { files = insert target bytes d.files })

abbrev programs : Clone.Programs
programs = record {
  cp = λ base target d. copy_bytes target (lookup base d.files) d;
  ssh_keygen = λ path d. (ok (ok tt), d);
}

copies : Copies programs
copies = record { copied = λ base target d h. go base target d (lookup base d.files) refl h }
  where
    go :
        (base target : Str) (d : Disk) (o : Option Bytes)
        → lookup base d.files ≡ o
        → (copy_bytes target o d).0 ≡ ok true
        → SameSize base target (copy_bytes target o d).1
    go base target d none e h = cc
    go base target d (some bytes) e h = (
      length bytes,
      inl (
        bytes,
        lookup-insert target base bytes d.files
            ∙ keep-if (λ (o : Option Bytes). o ≡ some bytes) (str_eq target base) refl e,
        refl,
      ),
      inl (bytes, lookup-insert target target bytes d.files ∙ rw (str_eq_refl target) refl, refl),
    )

abbrev disk : Disk
disk = record {
  files = (codes "/base", 1 ∷ 2 ∷ []) ∷ (codes "/vm/disk", 3 ∷ []) ∷ [];
  dirs = [];
  dir_len = λ path. 0;
  faults = [];
}

apart : codes "/vm/disk" ≢ codes "/base"
apart e = cc

clone_disk-SameSize_example :
    SameSize
      (codes "/base")
      (codes "/vm/disk")
      (Clone.clone_disk programs (codes "/base") (codes "/vm/disk") disk).1
unfolding Clone.clone_disk vm_rs.Prelude.Map.lookup vm_rs.Prelude.Map.remove
clone_disk-SameSize_example =
    clone_disk-SameSize programs copies (codes "/base") (codes "/vm/disk") disk apart refl
