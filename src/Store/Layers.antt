-- ===== src/Store/Layers.antt =====
-- `extract_layers` of src/oci/store.rs, over a disk and a reader of archives that is a parameter.
use vm_rs.Prelude.{Bool, false, ◌&&◌, ◌||◌, Option, none, some, List, [], ◌∷◌, ◌++◌}
use vm_rs.Prelude.Tests.{not, ◌==◌, if◌then◌else◌}
use vm_rs.Prelude.Text.{Str, codes, str_eq, is_empty, starts_with, strip_prefix}
use vm_rs.Prelude.Split.{split_on}
use vm_rs.Result.{Result, ok, err, IoError, map_err}
use vm_rs.Exec.{Exec, pure, lift, ◌>>=◌, ◌>>◌}
use vm_rs.Paths.{join}
use vm_rs.Disk.{
  Disk, Bytes, exists, open_file, read, read_dir, create_dir_all, remove_file, remove_dir_all,
}
use vm_rs.Registry.{OciError, blob}
use vm_rs.Store.{ImageStore, ImageManifest, on_disk, blob_path}

-- An entry of an archive: its path, or the text of the error, and how it is unpacked below a directory.
pub record TarEntry : Type 0 where
  pub path : Result Str Str
  pub unpack_in : Str → Exec Disk IoError (Unit {0})

-- The entries of a file, which is decompressed first if the flag says so.
pub record Archive : Type 0 where
  pub entries : (gzip : Bool) → Bytes → Result Str (List (Result Str TarEntry))

-- The components of a path without its root and without `.`.
unfoldable pub keep_part : Str → List Str → List Str
unfolding is_empty str_eq
keep_part part parts = if is_empty part || str_eq part (codes ".") then parts else part ∷ parts

unfoldable pub named_parts : List Str → List Str
unfolding keep_part
named_parts [] = []
named_parts (part ∷ parts) = keep_part part (named_parts parts)

unfoldable pub components : Str → List Str
unfolding named_parts split_on
components path = named_parts (split_on b'/' path)

-- The last component and those before it.
unfoldable pub before_last : Str → List Str → List Str × Str
before_last part [] = ([], part)
before_last part (next ∷ parts) = let rest = before_last next parts in (part ∷ rest.0, rest.1)

unfoldable pub join_parts : List Str → Str
join_parts [] = []
join_parts (part ∷ []) = part
join_parts (part ∷ next ∷ parts) = part ++ codes "/" ++ join_parts (next ∷ parts)

unfoldable pub root_prefix : Str → Str
unfolding starts_with
root_prefix path = if starts_with path (codes "/") then codes "/" else []

-- `file_name`, which `..` has not, with the prefix `.wh.` taken off, beside `parent`.
unfoldable pub whiteout_at : Str → List Str × Str → Option (Str × Str)
unfolding root_prefix join_parts strip_prefix
whiteout_at path (before, name) = elim (strip_prefix name (codes ".wh.")) [
  | none ↦ none
  | some deleted_name ↦ some (root_prefix path ++ join_parts before, deleted_name)
]

unfoldable pub whiteout_in : Str → List Str → Option (Str × Str)
unfolding whiteout_at before_last
whiteout_in path [] = none
whiteout_in path (part ∷ parts) = whiteout_at path (before_last part parts)

unfoldable pub whiteout_of : Str → Option (Str × Str)
unfolding whiteout_in components
whiteout_of path = whiteout_in path (components path)

unfoldable pub any_parent : List Str → Bool
unfolding str_eq
any_parent [] = false
any_parent (part ∷ parts) = str_eq part (codes "..") || any_parent parts

unfoldable pub has_traversal : Str → Bool
unfolding any_parent components starts_with
has_traversal path = starts_with path (codes "/") || any_parent (components path)

-- A call whose failure is only logged.
abbrev pub ignoring : Exec Disk IoError (Unit {0}) → Exec Disk OciError (Unit {0})
ignoring call d = (ok tt, (call d).1)

unfoldable pub remove_children :
    (Str → Exec Disk IoError (Unit {0})) → Str → List Str → Exec Disk OciError (Unit {0})
unfolding join
remove_children remove dir [] = pure tt
remove_children remove dir (name ∷ names) = do
  ignoring (remove (join dir name))
  remove_children remove dir names

unfoldable pub clear_dir : Str → Exec Disk OciError (Unit {0})
unfolding read_dir remove_children remove_dir_all remove_file
clear_dir full_parent = do
  names ← λ d.
      let after = read_dir full_parent d in
      (
        map_err
            (λ (e : IoError). blob (
              codes "opaque whiteout read_dir failed for "
              ++ full_parent
              ++ codes ": "
              ++ e.message))
            after.0,
        after.1,
      )
  remove_children remove_dir_all full_parent names.directories
  remove_children remove_file full_parent names.regular

unfoldable pub opaque_whiteout : Str → Exec Disk OciError (Unit {0})
unfolding clear_dir exists
opaque_whiteout full_parent d = if exists full_parent d then clear_dir full_parent d else (ok tt, d)

-- The file, or else the directory.
abbrev pub if_not_removed :
    Str → Result IoError (Unit {0}) × Disk → Result OciError (Unit {0}) × Disk
if_not_removed path (ok _, d) = (ok tt, d)
if_not_removed path (err e, d) = ignoring (remove_dir_all path) d

unfoldable pub remove_either : Str → Exec Disk OciError (Unit {0})
unfolding remove_file remove_dir_all
remove_either path d = if_not_removed path (remove_file path d)

unfoldable pub whiteout : Str → Str × Str → Exec Disk OciError (Unit {0})
unfolding opaque_whiteout remove_either join str_eq
whiteout target (parent, deleted_name) =
    if str_eq deleted_name (codes ".wh..opq")
    then opaque_whiteout (join target parent)
    else remove_either (join (join target parent) deleted_name)

abbrev pub blob_error : {A : Type 0} → Str → Result Str A → Result OciError A
blob_error what = map_err (λ (e : Str). blob (what ++ e))

unfoldable pub unpack : Str → Str → TarEntry → Exec Disk OciError (Unit {0})
unfolding has_traversal
unpack target path entry d = if has_traversal path then (ok tt, d) else (
  map_err (λ (e : IoError). blob (codes "unpack error for " ++ path ++ codes ": " ++ e.message))
      (entry.unpack_in target d).0,
  (entry.unpack_in target d).1,
)

abbrev pub whiteout_or_unpack :
    Str → Str → TarEntry → Option (Str × Str) → Exec Disk OciError (Unit {0})
whiteout_or_unpack target path entry (some deleted) = whiteout target deleted
whiteout_or_unpack target path entry none = unpack target path entry

unfoldable pub extract_entry : Str → TarEntry → Exec Disk OciError (Unit {0})
unfolding whiteout unpack whiteout_of
extract_entry target entry = do
  path ← lift (blob_error (codes "tar path error: ") entry.path)
  whiteout_or_unpack target path entry (whiteout_of path)

unfoldable pub extract_entries : Str → List (Result Str TarEntry) → Exec Disk OciError (Unit {0})
unfolding extract_entry
extract_entries target [] = pure tt
extract_entries target (read_entry ∷ entries) = do
  entry ← lift (blob_error (codes "tar entry error: ") read_entry)
  extract_entry target entry
  extract_entries target entries

unfoldable pub has_magic : Bytes → Bool
has_magic [] = false
has_magic (a ∷ []) = false
has_magic (a ∷ b ∷ bytes) = (a == 0x1f) && (b == 0x8b)

unfoldable pub is_gzip : Str → Exec Disk OciError Bool
unfolding open_file read has_magic
is_gzip path = do on_disk (open_file path); bytes ← on_disk (read path); pure (has_magic bytes)

module _ (archive : Archive) (s : ImageStore) where
  unfoldable pub extract_file : Str → Str → Exec Disk OciError (Unit {0})
  unfolding is_gzip extract_entries open_file read
  extract_file target path = do
    on_disk (open_file path)
    gzip ← is_gzip path
    bytes ← on_disk (read path)
    entries ← lift (blob_error (codes "tar read error: ") (archive.entries gzip bytes))
    extract_entries target entries

  unfoldable pub extract_layer : Str → Str → Exec Disk OciError (Unit {0})
  unfolding blob_path exists extract_file
  extract_layer target digest d =
      if not (exists (blob_path s digest) d)
      then (err (blob (codes "missing layer blob: " ++ digest)), d)
      else extract_file target (blob_path s digest) d

  unfoldable pub extract_each : Str → List Str → Exec Disk OciError (Unit {0})
  unfolding extract_layer
  extract_each target [] = pure tt
  extract_each target (digest ∷ digests) = do
    extract_layer target digest
    extract_each target digests

  unfoldable pub extract_layers : ImageManifest → Str → Exec Disk OciError (Unit {0})
  unfolding create_dir_all extract_each
  extract_layers manifest target = do
    on_disk (create_dir_all target)
    extract_each target manifest.layer_digests
