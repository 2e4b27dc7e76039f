-- ===== src/Store/RoundTrip.antt =====
-- src/oci/store.rs on a disk on which nothing fails: what was put is what is read.
use vm_rs.Prelude.{ℕ, ◌≡◌, refl, inl, inr, ◌∙◌, some, List, [], ◌∷◌}
use vm_rs.Prelude.Tests.{Bool-cases}
use vm_rs.Prelude.Text.{Str, codes, str_eq_iff, str_eq_refl}
use vm_rs.Prelude.Map.{Map, lookup, insert, remove, lookup-insert}
use vm_rs.Result.{ok}
use vm_rs.Paths.{with_extension}
use vm_rs.Disk
use vm_rs.Store

-- What the file system reports for the length of directories.
module _ (dir_len : Str → ℕ) where
  abbrev pub healthy : Map Disk.Bytes → List Str → Disk.Disk
  healthy files dirs = record { files = files; dirs = dirs; dir_len = dir_len; faults = [] }

  pub write_atomically-healthy :
      (path : Str) (bytes : Disk.Bytes) (files : Map Disk.Bytes) (dirs : List Str)
      → Disk.write_atomically path bytes (healthy files dirs) ≡ (
        ok tt,
        healthy
            (insert path bytes (
              remove
                (with_extension path (codes "tmp"))
                (insert (with_extension path (codes "tmp")) bytes files)))
            dirs,
      )
  unfolding Disk.write_atomically Disk.write Disk.write_or Disk.used Disk.open_file Disk.sync_all
      Disk.rename Disk.fault_or Disk.next_fault Disk.exists Disk.attempt Disk.tail_of
      Disk.is_present Disk.rename_file
  write_atomically-healthy path bytes files dirs = rw (there, there) refl
    where
      there :
          lookup
            (with_extension path (codes "tmp"))
            (insert (with_extension path (codes "tmp")) bytes files)
          ≡ some bytes
      there =
          lookup-insert (with_extension path (codes "tmp")) (with_extension path (codes "tmp"))
            bytes files
          ∙ rw (str_eq_refl (with_extension path (codes "tmp"))) refl

  read-inserted :
      (path : Str) (bytes : Disk.Bytes) (files : Map Disk.Bytes) (dirs : List Str)
      → (Disk.read path (healthy (insert path bytes files) dirs)).0 ≡ ok bytes
  unfolding Disk.read Disk.attempt Disk.fault_or Disk.next_fault Disk.used Disk.read_file
  read-inserted path bytes files dirs = rw (lookup-insert, str_eq_refl path) refl

  -- On a disk on which nothing fails, `put_blob` of bytes with the hash of the digest succeeds,
  -- and `get_blob` of the digest then returns the bytes.
  pub put_get :
      (sha256_hex : Disk.Bytes → Str) (s : Store.ImageStore) (digest : Str) (bytes : Disk.Bytes)
      (files : Map Disk.Bytes) (dirs : List Str)
      → sha256_hex bytes ≡ Store.hash_of digest
      → ((Store.put_blob sha256_hex s digest bytes (healthy files dirs)).0
          ≡ ok (Store.blob_path s digest))
        × ((Store.get_blob s digest
              (Store.put_blob sha256_hex s digest bytes (healthy files dirs)).1).0
            ≡ ok bytes)
  unfolding Store.put_blob Store.get_blob
  put_get sha256_hex s digest bytes files dirs verified =
      rw
        (
          (str_eq_iff (sha256_hex bytes) (Store.hash_of digest)).1 verified,
          write_atomically-healthy (Store.blob_path s digest) bytes files dirs,
        )
        (refl, rw (read-inserted (Store.blob_path s digest) bytes) refl)

  pub create_dir_all-healthy :
      (path : Str) (files : Map Disk.Bytes) (dirs : List Str)
      → (dirs' : List Str) × (Disk.create_dir_all path (healthy files dirs)
          ≡ (ok tt, healthy files dirs'))
  unfolding Disk.create_dir_all Disk.attempt Disk.fault_or Disk.next_fault Disk.used Disk.tail_of
  create_dir_all-healthy path files dirs =
      elim (Bool-cases (Disk.is_dir path (healthy files dirs))) [
        | inl there ↦ (dirs, rw there refl)
        | inr missing ↦ (path ∷ dirs, rw missing refl)
      ]

  pub write-healthy :
      (path : Str) (bytes : Disk.Bytes) (files : Map Disk.Bytes) (dirs : List Str)
      → Disk.write path bytes (healthy files dirs) ≡ (ok tt, healthy (insert path bytes files) dirs)
  unfolding Disk.write Disk.write_or Disk.used Disk.tail_of Disk.next_fault
  write-healthy path bytes files dirs = refl

  -- On a disk on which nothing fails, `put_manifest` succeeds, and `get_manifest` of the same image
  -- and tag then returns the bytes.
  pub put_get_manifest :
      (s : Store.ImageStore) (image tag : Str) (bytes : Disk.Bytes) (files : Map Disk.Bytes)
      (dirs : List Str)
      → ((Store.put_manifest s image tag bytes (healthy files dirs)).0 ≡ ok tt)
        × ((Store.get_manifest s image tag
              (Store.put_manifest s image tag bytes (healthy files dirs)).1).0
            ≡ ok (some bytes))
  unfolding Store.put_manifest Store.get_manifest Store.cached_manifest
  put_get_manifest s image tag bytes files dirs =
      let (dirs', made) = create_dir_all-healthy (Store.image_dir s image) files dirs in
      rw (made, write-healthy (Store.manifest_path s image tag) bytes files dirs')
        (refl, rw (read-inserted (Store.manifest_path s image tag) bytes files dirs') refl)
