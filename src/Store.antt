-- ===== src/Store.antt =====
-- src/oci/store.rs: the store of blobs by digest and of manifests by image and tag, over a disk. SHA-256 and the JSON
-- decoder are parameters.
pub mod Blobs
pub mod Addressed
pub mod Presence
pub mod RoundTrip
pub mod Manifests
pub mod Listing
pub mod Parsing
pub mod Layers
use vm_rs.Prelude.{
  ℕ, Bool, true, false, ◌||◌, Option, none, some, List, [], ◌∷◌, ◌++◌, map, ◌+◌, ◌-◌, ◌%◌, ◌^◌,
}
use vm_rs.Prelude.Tests.{if◌then◌else◌, not, ltb, ◌==◌}
use vm_rs.Prelude.Lists.{length, take}
use vm_rs.Prelude.Text.{Str, codes, str_eq, contains, strip_prefix, parse_unsigned, is_empty}
use vm_rs.Prelude.Split.{split_on, replace_char, replace}
use vm_rs.Result.{Result, ok, err, IoError, map_err}
use vm_rs.Exec.{Exec, pure, raise, lift, ◌>>=◌, ◌>>◌}
use vm_rs.Paths.{join}
use vm_rs.Disk.{
  Disk, Bytes, Names, exists, create_dir_all, write, read, read_dir, metadata_len, write_atomically,
}
use vm_rs.Registry.{OciError, manifest_parse, manifest_list, blob, io}

pub record RawDescriptor : Type 0 where
  pub digest : Option Str

pub record RawManifest : Type 0 where
  pub media_type : Option Str
  pub schema_version : Option ℕ
  pub config : Option RawDescriptor
  pub layers : Option (List RawDescriptor)

-- Of `ExposedPorts` the source reads the keys.
pub record RawContainerConfig : Type 0 where
  pub entrypoint : Option (List Str)
  pub cmd : Option (List Str)
  pub env : Option (List Str)
  pub working_dir : Option Str
  pub user : Option Str
  pub exposed_ports : Option (List Str)

pub record RawImageRoot : Type 0 where
  pub config : Option RawContainerConfig

pub record ImageStore : Type 0 where
  pub root : Str

pub record ImageManifest : Type 0 where
  pub config_digest : Str
  pub layer_digests : List Str
  pub media_type : Str

pub record ImageConfig : Type 0 where
  pub entrypoint : List Str
  pub cmd : List Str
  pub env : List Str
  pub working_dir : Str
  pub user : Str
  pub exposed_ports : List ℕ

-- `serde_json::from_slice` at the types of the store, with the text of its error, and the text of the error
-- of `str::parse` for a number.
pub record Json : Type 0 where
  pub number_error : Str → Str
  pub manifest : Bytes → Result Str RawManifest
  pub image_root : Bytes → Result Str RawImageRoot

abbrev pub on_disk : {A : Type 0} → Exec Disk IoError A → Exec Disk OciError A
on_disk call d = (map_err io (call d).0, (call d).1)

abbrev pub blob_dir : ImageStore → Str
blob_dir s = join s.root (codes "blobs/sha256")

abbrev pub manifests_dir : ImageStore → Str
manifests_dir s = join s.root (codes "manifests")

unfoldable pub new : Str → Exec Disk OciError ImageStore
new data_dir = do
  on_disk (create_dir_all (blob_dir (record { root = join data_dir (codes "images") })))
  on_disk (create_dir_all (manifests_dir (record { root = join data_dir (codes "images") })))
  pure (record { root = join data_dir (codes "images") })

-- `digest.strip_prefix("sha256:").unwrap_or(digest)`
unfoldable pub or_digest : Str → Option Str → Str
or_digest digest none = digest
or_digest digest (some hash) = hash

unfoldable pub hash_of : Str → Str
unfolding or_digest strip_prefix
hash_of digest = or_digest digest (strip_prefix digest (codes "sha256:"))

unfoldable pub blob_path : ImageStore → Str → Str
unfolding hash_of
blob_path s digest = join (blob_dir s) (hash_of digest)

unfoldable pub has_blob : ImageStore → Str → Disk → Bool
unfolding blob_path
has_blob s digest d = exists (blob_path s digest) d

module _ (sha256_hex : Bytes → Str) where
  unfoldable pub digest_mismatch : Str → Str → OciError
  digest_mismatch expected actual =
      blob
        (codes "digest mismatch: expected sha256:" ++ expected ++ codes ", got sha256:" ++ actual)

  unfoldable pub put_blob : ImageStore → Str → Bytes → Exec Disk OciError Str
  unfolding digest_mismatch blob_path str_eq
  put_blob s digest bytes =
      if not (str_eq (sha256_hex bytes) (hash_of digest))
      then raise (digest_mismatch (hash_of digest) (sha256_hex bytes))
      else do on_disk (write_atomically (blob_path s digest) bytes); pure (blob_path s digest)

unfoldable pub unreadable : Str → IoError → OciError
unreadable digest e = blob (codes "failed to read blob " ++ digest ++ codes ": " ++ e.message)

unfoldable pub get_blob : ImageStore → Str → Exec Disk OciError Bytes
unfolding blob_path unreadable
get_blob s digest d =
    let found = read (blob_path s digest) d in (map_err (unreadable digest) found.0, found.1)

unfoldable pub sanitize_name : Str → Str
unfolding replace_char
sanitize_name s = replace_char b':' (codes "_colon_") (replace_char b'/' (codes "_slash_") s)

unfoldable pub unsanitize_name : Str → Str
unfolding replace
unsanitize_name s = replace (codes "_colon_") (codes ":") (replace (codes "_slash_") (codes "/") s)

unfoldable pub image_dir : ImageStore → Str → Str
unfolding sanitize_name
image_dir s image = join (manifests_dir s) (sanitize_name image)

unfoldable pub manifest_path : ImageStore → Str → Str → Str
unfolding image_dir
manifest_path s image tag = join (image_dir s image) (sanitize_name tag ++ codes ".json")

unfoldable pub put_manifest : ImageStore → Str → Str → Bytes → Exec Disk OciError (Unit {0})
unfolding image_dir manifest_path
put_manifest s image tag bytes = do
  on_disk (create_dir_all (image_dir s image))
  on_disk (write (manifest_path s image tag) bytes)

unfoldable pub cached_manifest : Result IoError Bytes → Result OciError (Option Bytes)
cached_manifest (ok bytes) = ok (some bytes)
cached_manifest (err e) = if e.not_found then ok none else err (io e)

unfoldable pub get_manifest : ImageStore → Str → Str → Exec Disk OciError (Option Bytes)
unfolding manifest_path cached_manifest
get_manifest s image tag d =
    let found = read (manifest_path s image tag) d in (cached_manifest found.0, found.1)
