-- ===== src/Clone.antt =====
-- src/vm/disk.rs: `clone_disk` on Linux; and src/setup/ssh.rs: `generate_ssh_key`. The programs `cp` and `ssh-keygen` are
-- parameters.
pub mod Sizes
use vm_rs.Prelude.{ℕ, Bool, true, false, ◌&&◌, Option, none, some, List, [], ◌∷◌, ◌++◌}
use vm_rs.Prelude.Tests.{◌==◌, if◌then◌else◌}
use vm_rs.Prelude.Text.{Str, codes, trim}
use vm_rs.Result.{Result, ok, err, IoError, VmError, map_err}
use vm_rs.Exec.{Exec, pure, raise, lift, ◌>>=◌, ◌>>◌}
use vm_rs.Paths.{join, parent}
use vm_rs.Disk.{Disk, exists, metadata_len, remove_file, create_dir_all, copy}
use vm_rs.Seed.{SetupError, config}
use vm_rs.Seed

-- `cp --reflink=auto` with whether it succeeded, and `ssh-keygen` with its status and error output if it failed.
pub record Programs : Type 0 where
  pub cp : (base target : Str) → Exec Disk IoError Bool
  pub ssh_keygen : (key_path : Str) → Exec Disk IoError (Result (Str × Str) (Unit {0}))

module _ (programs : Programs) where
  -- `true` if the target is there with the size of the base; a target of another size is removed.
  abbrev pub same_size : Str → Result IoError ℕ → Result IoError ℕ → Exec Disk IoError Bool
  same_size target (ok base_len) (ok target_len) =
      if base_len == target_len then pure true else do remove_file target; pure false
  same_size target (ok base_len) (err e) = pure false
  same_size target (err e) target_len = pure false

  unfoldable pub compare_sizes : Str → Str → Exec Disk IoError Bool
  unfolding metadata_len remove_file
  compare_sizes base target d =
      let base_meta = metadata_len base d in
      let target_meta = metadata_len target base_meta.1 in
      same_size target base_meta.0 target_meta.0 target_meta.1

  unfoldable pub is_cloned : Str → Str → Exec Disk IoError Bool
  unfolding compare_sizes exists
  is_cloned base target d = if exists target d then compare_sizes base target d else (ok false, d)

  abbrev pub create_parent : Option Str → Exec Disk IoError (Unit {0})
  create_parent none = pure tt
  create_parent (some dir) = create_dir_all dir

  unfoldable pub reflink_or_copy : Str → Str → Exec Disk IoError (Unit {0})
  unfolding copy
  reflink_or_copy base target = do
    cloned ← programs.cp base target
    (if cloned then pure tt else copy base target)

  unfoldable pub clone_anew : Str → Str → Exec Disk IoError (Unit {0})
  unfolding reflink_or_copy parent create_dir_all
  clone_anew base target = do create_parent (parent target); reflink_or_copy base target

  unfoldable pub clone_io : Str → Str → Exec Disk IoError (Unit {0})
  unfolding is_cloned clone_anew
  clone_io base target = do
    done ← is_cloned base target
    (if done then pure tt else clone_anew base target)

  -- Every error is one of a file operation or of running `cp`.
  unfoldable pub clone_disk : Str → Str → Exec Disk VmError (Unit {0})
  unfolding clone_io
  clone_disk base target d =
      let after = clone_io base target d in (map_err vm_rs.Result.io after.0, after.1)

  abbrev pub on_disk : {A : Type 0} → Exec Disk IoError A → Exec Disk SetupError A
  on_disk call d = (map_err Seed.io (call d).0, (call d).1)

  unfoldable pub key_made : Result (Str × Str) (Unit {0}) → Result SetupError (Unit {0})
  unfolding trim
  key_made (ok _) = ok tt
  key_made (err (status, stderr)) =
      err (config (codes "ssh-keygen failed (exit " ++ status ++ codes "): " ++ trim stderr))

  unfoldable pub make_key : Str → Exec Disk SetupError (Unit {0})
  unfolding key_made
  make_key key_path = do output ← on_disk (programs.ssh_keygen key_path); lift (key_made output)

  unfoldable pub key_unless_there : Str → Str → Exec Disk SetupError Str
  unfolding exists make_key
  key_unless_there key_path pub_path d =
      if exists key_path d && exists pub_path d
      then (ok pub_path, d)
      else (make_key key_path >> pure pub_path) d

  unfoldable pub generate_ssh_key : Str → Exec Disk SetupError Str
  unfolding create_dir_all key_unless_there join
  generate_ssh_key data_dir = do
    on_disk (create_dir_all data_dir)
    key_unless_there (join data_dir (codes "id_ed25519")) (join data_dir (codes "id_ed25519.pub"))
