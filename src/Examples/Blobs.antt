-- ===== src/Examples/Blobs.antt =====
-- A store, a registry that answers every request, and hashes of two digits, for src/oci.
use vm_rs.Prelude.{
  ℕ, ◌≡◌, refl, ◌↔◌, Bool, true, false, Option, none, some, List, [], ◌∷◌, ◌++◌, map,
}
use vm_rs.Prelude.Lists.{All}
use vm_rs.Prelude.Text.{Str, codes}
use vm_rs.Result.{ok, err}
use vm_rs.Disk.{Disk, Bytes, Fault, is_a_directory}
use vm_rs.Registry.{ImageRef}
use vm_rs.Paths.{join}
use vm_rs.Prelude.Map.{lookup}
use vm_rs.Store
use vm_rs.Store.Layers
use vm_rs.Store.Blobs.{IsHash, Adds, put_blob-refines}
use vm_rs.Store.Addressed.{IsAddressed}
use vm_rs.Store.Presence.{Present}
use vm_rs.Store.RoundTrip.{healthy, put_get}
use vm_rs.Store.Manifests
use vm_rs.Store.Parsing.{Describes, parse_manifest_iff}
use vm_rs.Pull
use vm_rs.Pull.Platform
use vm_rs.Pull.Download
use vm_rs.Pull.Completeness.{pull-IsAddressed, pull_complete, ensure_blobs_again}

abbrev hash : Bytes → Str
hash [] = codes "e3"
hash (b ∷ bytes) = codes "2c"

hash-IsHash : (bytes : Bytes) → IsHash (hash bytes)
unfolding vm_rs.Prelude.Lists.all vm_rs.Prelude.Text.is_ascii_hexdigit
hash-IsHash [] = refl
hash-IsHash (b ∷ bytes) = refl

abbrev store : Store.ImageStore
store = record { root = codes "/d" }

-- The second call fails.
abbrev failing : Disk
failing = record {
  files = [];
  dirs = [];
  dir_len = λ path. 0;
  faults = none ∷ some (record { error = is_a_directory; written = some 1 }) ∷ [];
}

put_blob-refines_example :
    Adds hash store
      (codes "sha256:2c")
      (1 ∷ 2 ∷ [])
      failing
      (Store.put_blob hash store (codes "sha256:2c") (1 ∷ 2 ∷ []) failing)
put_blob-refines_example =
    put_blob-refines hash hash-IsHash store (codes "sha256:2c") (1 ∷ 2 ∷ []) failing

put_get_example :
    ((Store.put_blob hash store (codes "sha256:2c") (1 ∷ 2 ∷ []) (healthy (λ path. 0) [] [])).0
      ≡ ok (Store.blob_path store (codes "sha256:2c")))
    × ((Store.get_blob store
          (codes "sha256:2c")
          (Store.put_blob hash store
            (codes "sha256:2c")
            (1 ∷ 2 ∷ [])
            (healthy (λ path. 0) [] [])).1).0
        ≡ ok (1 ∷ 2 ∷ []))
unfolding Store.hash_of
put_get_example = put_get (λ path. 0) hash store (codes "sha256:2c") (1 ∷ 2 ∷ []) [] [] refl

abbrev described : Store.RawManifest
described = record {
  media_type = none;
  schema_version = some 2;
  config = some (record { digest = some (codes "sha256:2c") });
  layers = some (record { digest = some (codes "sha256:2c") } ∷ []);
}

abbrev json : Store.Json
json = record {
  number_error = λ text. [];
  manifest = λ bytes. ok described;
  image_root = λ bytes. err [];
}

abbrev manifest : Store.ImageManifest
manifest = record {
  config_digest = codes "sha256:2c";
  layer_digests = codes "sha256:2c" ∷ [];
  media_type = [];
}

parse_manifest_iff_example :
    (Manifests.parse_manifest json [] ≡ ok manifest)
    ↔ ((raw : Store.RawManifest) × (json.manifest [] ≡ ok raw) × Describes raw manifest)
parse_manifest_iff_example = parse_manifest_iff json [] manifest

abbrev platforms : List Pull.ManifestListEntry
platforms =
    record {
      digest = codes "sha256:e3";
      platform = some (record { os = some (codes "windows"); architecture = some (codes "amd64") });
    }
    ∷ record {
      digest = codes "sha256:2c";
      platform = some (record { os = some (codes "linux"); architecture = some (codes "amd64") });
    }
    ∷ []

abbrev client : Pull.Client (Unit {0})
client = record {
  send = λ url headers n. (
    ok (record {
      status_error = none;
      unauthorized = false;
      www_authenticate = none;
      body = ok (1 ∷ []);
    }),
    n,
  );
  json = json;
  token_response = λ bytes. err [];
  manifest_list = λ bytes. ok platforms;
  docker_config = λ text. err [];
  home = err [];
  read_to_string = λ path. err is_a_directory;
  is_aarch64 = false;
  build = ok tt;
  sha256_hex = hash;
}

abbrev world : Pull.World (Unit {0})
world = record { net = tt; disk = healthy (λ path. 0) [] [] }

resolve_platform_manifest-first_example :
    (entries : List Pull.ManifestListEntry) × (client.manifest_list [] ≡ ok entries)
    × Platform.FirstTarget (codes "amd64") entries (codes "sha256:2c")
unfolding Platform.resolve_platform_manifest
resolve_platform_manifest-first_example =
    Platform.resolve_platform_manifest-first client [] (codes "sha256:2c") refl

pull-IsAddressed_example :
    IsAddressed hash store (Download.pull client store (codes "ghcr.io/o/r:v") world).1.disk
unfolding vm_rs.Prelude.Map.lookup
pull-IsAddressed_example =
    pull-IsAddressed client store hash-IsHash (codes "ghcr.io/o/r:v") world (λ q bytes h there. cc)

pull_complete_example :
    All
      (λ D.
        IsHash (Store.hash_of D)
        → Present store D (Download.pull client store (codes "ghcr.io/o/r:v") world).1.disk)
      (codes "sha256:2c" ∷ codes "sha256:2c" ∷ [])
unfolding Download.pull vm_rs.Prelude.Text.contains_char vm_rs.Disk.create_dir_all vm_rs.Disk.write
    vm_rs.Disk.exists vm_rs.Prelude.Map.insert vm_rs.Paths.join vm_rs.Disk.write_atomically
    vm_rs.Paths.with_extension vm_rs.Prelude.Map.remove
pull_complete_example =
    pull_complete client store hash-IsHash (codes "ghcr.io/o/r:v") world manifest refl

abbrev ref : ImageRef
ref = record { registry = codes "ghcr.io"; repository = codes "o/r"; tag = codes "v" }

ensure_blobs_again_example :
    Download.ensure_blobs client store ref Pull.anonymous
      (codes "sha256:2c" ∷ [])
      (Download.ensure_blobs client store ref Pull.anonymous (codes "sha256:2c" ∷ []) world).1
    ≡ (
      ok tt,
      (Download.ensure_blobs client store ref Pull.anonymous (codes "sha256:2c" ∷ []) world).1,
    )
unfolding vm_rs.Prelude.Lists.all Store.hash_of vm_rs.Prelude.Text.is_ascii_hexdigit
    Download.ensure_blobs vm_rs.Disk.exists vm_rs.Prelude.Map.lookup vm_rs.Disk.write_atomically
    vm_rs.Prelude.Map.insert vm_rs.Paths.with_extension vm_rs.Paths.join
ensure_blobs_again_example =
    ensure_blobs_again client store hash-IsHash ref Pull.anonymous (codes "sha256:2c" ∷ []) world
      (refl, tt) refl

-- An entry that names a file outside the target.
abbrev outside : Layers.TarEntry
outside = record { path = ok (codes "../etc/.wh.passwd"); unpack_in = λ target d. (ok tt, d) }
