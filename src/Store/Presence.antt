-- ===== src/Store/Presence.antt =====
-- src/oci/store.rs: a blob that `has_blob` finds stays, and one that was put is found.
use vm_rs.Prelude.{◌≡◌, refl, sym, ap, ◌∙◌, inl, inr, true, Option, none, some, ◌∷◌, arith}
use vm_rs.Prelude.Tests.{Bool-cases, if◌then◌else◌, keep-if}
use vm_rs.Prelude.Text.{Str, str_eq, str_eq_refl}
use vm_rs.Prelude.Map.{lookup}
use vm_rs.Result.{Result, ok, IoError}
use vm_rs.Exec.{Exec, pure}
use vm_rs.Exec.Rules.{Keeps, >>=-Keeps}
use vm_rs.Disk
use vm_rs.Registry.{OciError}
use vm_rs.Store
use vm_rs.Store.Blobs.{IsHash, contents, put_blob-refines, blob_path_of, blob_path_of_hash}
use vm_rs.Store.Addressed.{put_manifest-contents}

-- A path that is a directory stays one.
abbrev DirStays : Str → Disk.Disk → Type 0
DirStays path d = Disk.is_dir path d ≡ true

fault_or-DirStays :
    {A : Type 0} (path : Str) (call : Exec Disk.Disk IoError A)
    → Keeps (DirStays path) call
    → Keeps (DirStays path) (Disk.attempt call)
unfolding Disk.attempt Disk.used Disk.fault_or Disk.is_dir
fault_or-DirStays {A} path call keeps d h = go (Disk.next_fault d.faults)
  where
    go :
        (fault : Option Disk.Fault)
        → DirStays path
            (Disk.fault_or {A = A} call fault (record d { faults = Disk.tail_of d.faults })).1
    go none = keeps (record d { faults = Disk.tail_of d.faults }) h
    go (some f) = h

write-DirStays :
    (path file : Str) (bytes : Disk.Bytes) → Keeps (DirStays path) (Disk.write file bytes)
unfolding Disk.write Disk.write_or Disk.used Disk.is_dir
write-DirStays path file bytes d h = go (Disk.next_fault d.faults)
  where
    go :
        (fault : Option Disk.Fault) → DirStays path (Disk.write_or file bytes fault (Disk.used d)).1
    go none = h
    go (some f) = h

rename-DirStays : (path from to : Str) → Keeps (DirStays path) (Disk.rename from to)
unfolding Disk.rename Disk.rename_file Disk.is_dir
rename-DirStays path from to =
    fault_or-DirStays path (λ d. Disk.rename_file from to (lookup from d.files) d)
      (λ d h. go d (lookup from d.files) h)
  where
    go :
        (d : Disk.Disk) (o : Option Disk.Bytes)
        → DirStays path d
        → DirStays path (Disk.rename_file from to o d).1
    go d none h = h
    go d (some bytes) h = h

create_dir_all-DirStays : (path dir : Str) → Keeps (DirStays path) (Disk.create_dir_all dir)
unfolding Disk.create_dir_all Disk.is_dir Disk.is_dir_of
create_dir_all-DirStays path dir =
    fault_or-DirStays path
      (λ d. (ok tt, if Disk.is_dir dir d then d else record d { dirs = dir ∷ d.dirs }))
      (λ d h. keep-if (DirStays path) (Disk.is_dir dir d) h (ground (arith, h)))

write_atomically-DirStays :
    (path file : Str) (bytes : Disk.Bytes)
    → Keeps (DirStays path) (Disk.write_atomically file bytes)
unfolding Disk.write_atomically Disk.open_file Disk.sync_all
write_atomically-DirStays path file bytes =
    >>=-Keeps (DirStays path) (Disk.write _ bytes) _ (write-DirStays path _ bytes) (λ u.
      >>=-Keeps (DirStays path) (Disk.open_file _) _ (fault_or-DirStays path _ (λ d h. h)) (λ v.
        >>=-Keeps (DirStays path) Disk.sync_all _ (fault_or-DirStays path _ (λ d h. h))
          (λ w. rename-DirStays path _ file)))

put_blob-DirStays :
    (sha256_hex : Disk.Bytes → Str) (s : Store.ImageStore) (path digest : Str) (bytes : Disk.Bytes)
    → Keeps (DirStays path) (Store.put_blob sha256_hex s digest bytes)
unfolding Store.put_blob
put_blob-DirStays sha256_hex s path digest bytes d h =
    elim (Bool-cases (str_eq (sha256_hex bytes) (Store.hash_of digest))) [
      | inr other ↦ rw other h
      | inl same ↦ rw same (
          >>=-Keeps (DirStays path)
            (Store.on_disk (Disk.write_atomically (Store.blob_path s digest) bytes))
            (λ u. pure (Store.blob_path s digest))
            (write_atomically-DirStays path (Store.blob_path s digest) bytes) (λ u d' h'. h') d h)
    ]

put_manifest-DirStays :
    (s : Store.ImageStore) (path image tag : Str) (bytes : Disk.Bytes)
    → Keeps (DirStays path) (Store.put_manifest s image tag bytes)
unfolding Store.put_manifest
put_manifest-DirStays s path image tag bytes =
    >>=-Keeps (DirStays path) (Store.on_disk (Disk.create_dir_all (Store.image_dir s image)))
      (λ u. Store.on_disk (Disk.write (Store.manifest_path s image tag) bytes))
      (create_dir_all-DirStays path (Store.image_dir s image))
      (λ u. write-DirStays path (Store.manifest_path s image tag) bytes)

-- A blob that the store finds, if its name is a hash.
abbrev pub Present : Store.ImageStore → Str → Disk.Disk → Type 0
Present s digest d = Store.has_blob s digest d ≡ true

exists-later :
    (path : Str) (d d' : Disk.Disk)
    → (Disk.is_present (lookup path d.files) ≡ true → Disk.is_present (lookup path d'.files) ≡ true)
    → (DirStays path d → DirStays path d')
    → Disk.exists path d ≡ true
    → Disk.exists path d' ≡ true
unfolding Disk.exists
exists-later path d d' files dirs h = elim (Bool-cases (Disk.is_present (lookup path d.files))) [
  | inl here ↦ rw (files here) refl
  | inr gone ↦ elim (Bool-cases (Disk.is_present (lookup path d'.files))) [
    | inl here ↦ rw here refl
    | inr gone' ↦ rw gone' (dirs (rw gone at h))
  ]
]

present-added :
    (hash q : Str) (bytes : Disk.Bytes) (o : Option Disk.Bytes)
    → Disk.is_present o ≡ true
    → Disk.is_present (if str_eq hash q then some bytes else o) ≡ true
unfolding Disk.is_present
present-added hash q bytes o h = keep-if (λ o. Disk.is_present o ≡ true) (str_eq hash q) refl h

module _ (sha256_hex : Disk.Bytes → Str) (hex : (bytes : Disk.Bytes) → IsHash (sha256_hex bytes))
    (s : Store.ImageStore) where
  at_digest :
      (D : Str) (d : Disk.Disk)
      → IsHash (Store.hash_of D)
      → lookup (Store.blob_path s D) d.files ≡ contents s d (Store.hash_of D)
  at_digest D d h =
      ap (λ path. lookup path d.files)
        (blob_path_of s D h ∙ sym (blob_path_of_hash s (Store.hash_of D) h))

  pub put_blob-Present :
      (digest : Str) (bytes : Disk.Bytes) (D : Str)
      → IsHash (Store.hash_of D)
      → Keeps (Present s D) (Store.put_blob sha256_hex s digest bytes)
  unfolding Store.has_blob
  put_blob-Present digest bytes D h d there =
      exists-later (Store.blob_path s D) d after.1 stays
        (put_blob-DirStays sha256_hex s (Store.blob_path s D) digest bytes d) there
    where
      after : Result OciError Str × Disk.Disk
      after = Store.put_blob sha256_hex s digest bytes d

      stays :
          Disk.is_present (lookup (Store.blob_path s D) d.files) ≡ true
          → Disk.is_present (lookup (Store.blob_path s D) after.1.files) ≡ true
      stays here =
          let here' : Disk.is_present (contents s d (Store.hash_of D)) ≡ true =
            ap Disk.is_present (sym (at_digest D d h)) ∙ here in
          ap Disk.is_present (at_digest D after.1 h)
          ∙ elim (put_blob-refines sha256_hex hex s digest bytes d) [
            | inl (e, verified, now) ↦
                ap Disk.is_present (now (Store.hash_of D) h)
                ∙ present-added (Store.hash_of digest) (Store.hash_of D) bytes _ here'
            | inr (e, refused, same) ↦ ap Disk.is_present (same (Store.hash_of D) h) ∙ here'
          ]

  pub put_manifest-Present :
      (image tag : Str) (bytes : Disk.Bytes) (D : Str)
      → IsHash (Store.hash_of D)
      → Keeps (Present s D) (Store.put_manifest s image tag bytes)
  unfolding Store.has_blob
  put_manifest-Present image tag bytes D h d there =
      exists-later (Store.blob_path s D) d after.1
        (λ here.
          ap Disk.is_present (
            at_digest D after.1 h
            ∙ put_manifest-contents s image tag bytes d (Store.hash_of D) h
            ∙ sym (at_digest D d h))
          ∙ here)
        (put_manifest-DirStays s (Store.blob_path s D) image tag bytes d) there
    where
      after : Result OciError (Unit {0}) × Disk.Disk
      after = Store.put_manifest s image tag bytes d

  -- After a success the blob is there.
  pub put_blob-puts :
      (digest : Str) (bytes : Disk.Bytes) (d : Disk.Disk) {path : Str}
      → (Store.put_blob sha256_hex s digest bytes d).0 ≡ ok path
      → Present s digest (Store.put_blob sha256_hex s digest bytes d).1
  unfolding Store.has_blob Disk.exists Disk.is_present
  put_blob-puts digest bytes d h = elim (put_blob-refines sha256_hex hex s digest bytes d) [
    | inr (e, refused, same) ↦ cc
    | inl (e, verified, now) ↦
        let held : IsHash (Store.hash_of digest) = rw (sym verified) (hex bytes) in
        let there : lookup (Store.blob_path s digest) after.1.files ≡ some bytes =
          at_digest digest after.1 held
          ∙ now (Store.hash_of digest) held
          ∙ rw (str_eq_refl (Store.hash_of digest)) refl in
        rw there refl
  ]
    where
      after : Result OciError Str × Disk.Disk
      after = Store.put_blob sha256_hex s digest bytes d
