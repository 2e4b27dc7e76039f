-- ===== src/Store/Listing.antt =====
-- src/oci/store.rs: `list_images`. Directories are read in the order that the disk has.
use vm_rs.Prelude.{
  ℕ, Bool, true, false, Option, none, some, List, [], ◌∷◌, ◌++◌, ◌+◌, ◌-◌, ◌%◌, ◌^◌,
}
use vm_rs.Prelude.Tests.{if◌then◌else◌, ltb, ◌==◌}
use vm_rs.Prelude.Lists.{length, take, drop}
use vm_rs.Prelude.Text.{Str, codes, str_eq}
use vm_rs.Exec.{Exec, pure, lift, ◌>>=◌}
use vm_rs.Paths.{join}
use vm_rs.Disk.{Disk, read, read_dir, metadata_len}
use vm_rs.Registry.{OciError}
use vm_rs.Store.{Json, ImageStore, on_disk, manifests_dir, blob_path, unsanitize_name}
use vm_rs.Store.Manifests.{parse_manifest}

-- A row of the list.
pub record Listed : Type 0 where
  pub repository : Str
  pub tag : Str
  pub layers : ℕ
  pub size_bytes : ℕ

-- `filename.ends_with(".json")`, with what stands before that.
unfoldable pub without_json : Str → Option Str
unfolding str_eq
without_json filename =
    let stem = length filename - 5 in
    if str_eq (drop stem filename) (codes ".json") then some (take stem filename) else none

-- `str::cmp` before or at the other text, and the order of the rows.
unfoldable pub str_le : Str → Str → Bool
str_le [] t = true
str_le (a ∷ s) [] = false
str_le (a ∷ s) (b ∷ t) = let rest = str_le s t in if a == b then rest else ltb a b

unfoldable pub listed_le : Listed → Listed → Bool
unfolding str_le str_eq
listed_le a b =
    if str_eq a.repository b.repository
    then str_le a.tag b.tag
    else str_le a.repository b.repository

unfoldable pub insert_listed : Listed → List Listed → List Listed
unfolding listed_le
insert_listed row [] = row ∷ []
insert_listed row (other ∷ rows) =
    let later = insert_listed row rows in
    if listed_le row other then row ∷ other ∷ rows else other ∷ later

unfoldable pub sort_listed : List Listed → List Listed
unfolding insert_listed
sort_listed [] = []
sort_listed (row ∷ rows) = insert_listed row (sort_listed rows)

module _ (json : Json) (s : ImageStore) where
  -- The sum wraps like a `u64`.
  unfoldable pub sizes_of : List Str → Exec Disk OciError ℕ
  unfolding metadata_len blob_path
  sizes_of [] = pure 0
  sizes_of (digest ∷ digests) = do
    size ← on_disk (metadata_len (blob_path s digest))
    total ← sizes_of digests
    pure ((size + total) % 2 ^ 64)

  unfoldable pub list_tag : Str → Str → Str → Str → Exec Disk OciError Listed
  unfolding parse_manifest sizes_of read
  list_tag dir repo_name filename tag = do
    bytes ← on_disk (read (join dir filename))
    manifest ← lift (parse_manifest json bytes)
    size ← sizes_of manifest.layer_digests
    pure (record {
      repository = repo_name;
      tag = unsanitize_name tag;
      layers = length manifest.layer_digests;
      size_bytes = size;
    })

  -- The rest of the directory, with the entry's row unless its name is no manifest's.
  abbrev pub before_rest :
      Str
      → Str
      → Str
      → Option Str
      → Exec Disk OciError (List Listed)
      → Exec Disk OciError (List Listed)
  before_rest dir repo_name filename none rest = rest
  before_rest dir repo_name filename (some tag) rest = do
    row ← list_tag dir repo_name filename tag
    rows ← rest
    pure (row ∷ rows)

  unfoldable pub list_tags : Str → Str → List Str → Exec Disk OciError (List Listed)
  unfolding without_json list_tag
  list_tags dir repo_name [] = pure []
  list_tags dir repo_name (filename ∷ filenames) =
      before_rest dir repo_name filename (without_json filename) (list_tags dir repo_name filenames)

  unfoldable pub list_repos : List Str → Exec Disk OciError (List Listed)
  unfolding list_tags read_dir
  list_repos [] = pure []
  list_repos (repo ∷ repos) = do
    names ← on_disk (read_dir (join (manifests_dir s) repo))
    rows ←
        list_tags (join (manifests_dir s) repo) (unsanitize_name repo)
          (names.regular ++ names.directories)
    more ← list_repos repos
    pure (rows ++ more)

  unfoldable pub list_images : Exec Disk OciError (List Listed)
  unfolding list_repos read_dir sort_listed
  list_images = do
    names ← on_disk (read_dir (manifests_dir s))
    rows ← list_repos names.directories
    pure (sort_listed rows)
