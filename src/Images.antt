-- ===== src/Images.antt =====
-- src/setup/image.rs: the catalog, the checksum manifests and the download of one asset, over a disk and an HTTP client
-- that is a parameter.
pub mod Preparing
pub mod Assets
pub mod Keeping
pub mod Verified
pub mod Complete
use vm_rs.Prelude.{
  ℕ, Bool, true, false, ◌&&◌, ◌||◌, Option, none, some, List, [], ◌∷◌, ◌++◌, map, reverse,
}
use vm_rs.Prelude.Tests.{if◌then◌else◌, not, ◌==◌, leb}
use vm_rs.Prelude.Lists.{all}
use vm_rs.Prelude.Text.{
  Str, codes, len, str_eq, is_empty, trim, trim_start, until_whitespace, after_word,
  is_ascii_hexdigit, starts_with,
}
use vm_rs.Prelude.Split.{split_on, trim_start_matches}
use vm_rs.Prelude.Map.{Map, lookup, insert}
use vm_rs.Result.{Result, ok, err, IoError, map_err}
use vm_rs.Exec.{Exec, pure, raise, lift, ◌>>=◌, ◌>>◌}
use vm_rs.Disk.{Disk, Bytes, read, write_atomically}
use vm_rs.Seed.{SetupError, io, asset_download, unsupported_image}

pub data Arch : Type 0 where
  aarch64 x86_64 : Arch

pub record ImageSpec : Type 0 where
  pub distro : Str
  pub version : Str
  pub arch : Option Arch

pub record PreparedImage : Type 0 where
  pub kernel : Str
  pub initramfs : Option Str
  pub disk : Str

pub record ImageAsset : Type 0 where
  pub filename : Str
  pub url : Str
  pub source_filename : Str
  pub checksum_url : Option Str

-- The asset's response: the status as text, whether it is a success, and the body.
pub record Response : Type 0 where
  pub status : Str
  pub is_success : Bool
  pub body : Result Str Bytes
  pub text : Result Str Str

-- The client, the build's target and the other crates and programs.
pub record Host (N : Type 0) : Type 0 where
  pub get : Str → N → Result Str Response × N
  pub build : Result Str (Unit {0})
  pub host_arch : Arch
  pub is_macos : Bool
  pub to_lowercase : Str → Str
  pub sha256_hex : Bytes → Str
  pub qemu_img_convert : Str → Str → Exec Disk IoError (Result (Str × Str) (Unit {0}))

-- The network, the disk and `checksum_cache`.
pub record World (N : Type 0) : Type 0 where
  pub net : N
  pub disk : Disk
  pub checksum_cache : Map (Map Str)

unfoldable pub arch_text : Arch → Str
arch_text aarch64 = codes "aarch64"
arch_text x86_64 = codes "x86_64"

-- `unwrap_or_else(Arch::host)`
unfoldable pub arch_or : Option Arch → Arch → Arch
arch_or (some arch) host_arch = arch
arch_or none host_arch = host_arch

unfoldable pub ubuntu_arch : Arch → Str
ubuntu_arch aarch64 = codes "arm64"
ubuntu_arch x86_64 = codes "amd64"

unfoldable pub release_base : Str → Str
release_base version =
    codes "https://cloud-images.ubuntu.com/releases/" ++ version ++ codes "/release"

unfoldable pub cloudimg : Str → Arch → Str
unfolding ubuntu_arch
cloudimg version arch = codes "ubuntu-" ++ version ++ codes "-server-cloudimg-" ++ ubuntu_arch arch

unfoldable pub ubuntu_asset : Str → Str → Str → ImageAsset
ubuntu_asset filename base source_filename = record {
  filename = filename;
  url = base ++ codes "/" ++ source_filename;
  source_filename = source_filename;
  checksum_url = some (base ++ codes "/SHA256SUMS");
}

unfoldable pub resolve_ubuntu : Str → Arch → List ImageAsset
unfolding ubuntu_asset release_base cloudimg
resolve_ubuntu version arch =
    let base = release_base version in
    let unpacked = base ++ codes "/unpacked" in
    ubuntu_asset (codes "vmlinuz") unpacked (cloudimg version arch ++ codes "-vmlinuz-generic")
    ∷ ubuntu_asset (codes "initramfs") unpacked (cloudimg version arch ++ codes "-initrd-generic")
    ∷ ubuntu_asset (codes "disk.img") base (cloudimg version arch ++ codes ".img")
    ∷ []

-- A line of a checksum manifest at its first whitespace.
unfoldable pub split_whitespace_at : Str → Str → Option (Str × Str)
split_whitespace_at digest [] = none
split_whitespace_at digest (c ∷ path) = some (digest, c ∷ path)

unfoldable pub split_line : Str → Option (Str × Str)
unfolding split_whitespace_at until_whitespace after_word
split_line line = split_whitespace_at (until_whitespace line) (after_word line)

-- `trim_start_matches("./")`
unfoldable pub trim_dot_slashes : Str → Str
trim_dot_slashes [] = []
trim_dot_slashes (a ∷ []) = a ∷ []
trim_dot_slashes (a ∷ b ∷ s) =
    let rest = trim_dot_slashes s in if (a == b'.') && (b == b'/') then rest else a ∷ b ∷ s

unfoldable pub to_ascii_lowercase : Str → Str
to_ascii_lowercase = map (λ c. if leb b'A' c && leb c b'Z' then Prim.Native.Nat.◌+◌ c 32 else c)

unfoldable pub is_digest : Str → Bool
unfolding len all is_ascii_hexdigit
is_digest digest = (len digest == 64) && all is_ascii_hexdigit digest

unfoldable pub asset_name : Str → Str
unfolding trim trim_start_matches trim_dot_slashes
asset_name path = trim_dot_slashes (trim_start_matches b'*' (trim path))

unfoldable pub add_entry : Str × Str → Map Str → Map Str
unfolding is_digest asset_name to_ascii_lowercase insert trim
add_entry (digest, path) manifest =
    if is_digest (trim digest)
    then insert (asset_name path) (to_ascii_lowercase (trim digest)) manifest
    else manifest

unfoldable pub add_split : Str → Option (Str × Str) → Map Str → Result SetupError (Map Str)
unfolding add_entry
add_split line none manifest = err (asset_download (codes "malformed checksum line: " ++ line))
add_split line (some split) manifest = ok (add_entry split manifest)

unfoldable pub add_line : Str → Map Str → Result SetupError (Map Str)
unfolding add_split split_line is_empty starts_with
add_line line manifest =
    if is_empty line || starts_with line (codes "#")
    then ok manifest
    else add_split line (split_line line) manifest

abbrev pub then_lines :
    Result SetupError (Map Str)
    → (Map Str → Result SetupError (Map Str))
    → Result SetupError (Map Str)
then_lines (ok manifest) rest = rest manifest
then_lines (err e) rest = err e

-- The lines, each without its whitespace: a last line that is empty and the carriage return of the others
-- make no difference.
unfoldable pub add_lines : List Str → Map Str → Result SetupError (Map Str)
unfolding add_line trim
add_lines [] manifest = ok manifest
add_lines (line ∷ lines) manifest = then_lines (add_line (trim line) manifest) (add_lines lines)

unfoldable pub nonempty_manifest : Map Str → Result SetupError (Map Str)
nonempty_manifest [] =
    err (asset_download (codes "checksum manifest did not contain any SHA256 entries"))
nonempty_manifest (entry ∷ manifest) = ok (entry ∷ manifest)

unfoldable pub parse_checksum_manifest : Str → Result SetupError (Map Str)
unfolding add_lines nonempty_manifest split_on
parse_checksum_manifest body = then_lines (add_lines (split_on 10 body) []) nonempty_manifest

module _ {N : Type 0} (host : Host N) where
  unfoldable pub resolve_image : ImageSpec → Result SetupError (List ImageAsset)
  unfolding resolve_ubuntu str_eq arch_or
  resolve_image spec =
      let distro = host.to_lowercase spec.distro in
      if str_eq distro (codes "ubuntu")
      then ok (resolve_ubuntu spec.version (arch_or spec.arch host.host_arch))
      else if str_eq distro (codes "alpine")
      then err (
          unsupported_image (
            codes
              "Alpine cloud-init images are not currently supported: the published assets here are netboot kernel/initramfs plus an ISO, not a writable root disk. Provide your own root disk image or use Ubuntu."))
      else err (
          unsupported_image (
            codes "unknown distro '"
            ++ distro
            ++ codes "'. Supported: ubuntu. Or bring your own kernel + disk image."))

  abbrev pub on_disk : {A : Type 0} → Exec Disk IoError A → Exec (World N) SetupError A
  on_disk call w = let after = call w.disk in (map_err io after.0, record w { disk = after.1 })

  abbrev pub get : (Str → SetupError) → Str → Exec (World N) SetupError Response
  get failed url w =
      let after = host.get url w.net in (map_err failed after.0, record w { net = after.1 })

  abbrev pub download_failed : Str → Str → Str → SetupError
  download_failed what url e = asset_download (what ++ url ++ codes ": " ++ e)

  unfoldable pub require_success : Response → Str → Str → Exec (World N) SetupError (Unit {0})
  require_success resp what url =
      if resp.is_success
      then pure tt
      else raise (asset_download (codes "HTTP " ++ resp.status ++ what ++ url))

  unfoldable pub verify_bytes : Bytes → Str → Str → Result SetupError (Unit {0})
  unfolding str_eq
  verify_bytes bytes expected label =
      if not (str_eq (host.sha256_hex bytes) expected)
      then err (
          asset_download (
            codes "SHA256 mismatch for "
            ++ label
            ++ codes ": expected "
            ++ expected
            ++ codes ", got "
            ++ host.sha256_hex bytes))
      else ok tt

  unfoldable pub verify_if : Bytes → Option Str → Str → Result SetupError (Unit {0})
  unfolding verify_bytes
  verify_if bytes none label = ok tt
  verify_if bytes (some expected) label = verify_bytes bytes expected label

  -- The answer is `Ok(true)` or an error.
  unfoldable pub verify_download : Str → Option Str → Exec (World N) SetupError Bool
  unfolding verify_bytes read
  verify_download path none = pure true
  verify_download path (some expected) = do
    bytes ← on_disk (read path)
    lift (verify_bytes bytes expected path)
    pure true

  unfoldable pub download_file : Str → Str → Option Str → Exec (World N) SetupError (Unit {0})
  unfolding require_success verify_if write_atomically
  download_file url path expected = do
    resp ← get (download_failed (codes "HTTP request failed for ") url) url
    require_success resp (codes " for ") url
    bytes ←
        lift (map_err (download_failed (codes "failed to read response body from ") url) resp.body)
    lift (verify_if bytes expected url)
    on_disk (write_atomically path bytes)

  unfoldable pub fetch_checksum_manifest : Str → Exec (World N) SetupError (Map Str)
  unfolding require_success parse_checksum_manifest
  fetch_checksum_manifest url = do
    resp ← get (download_failed (codes "failed to fetch checksum manifest ") url) url
    require_success resp (codes " for checksum manifest ") url
    body ←
        lift (map_err (download_failed (codes "failed to read checksum manifest ") url) resp.text)
    lift (parse_checksum_manifest body)

  unfoldable pub cache_manifest : Str → Option (Map Str) → Exec (World N) SetupError (Unit {0})
  unfolding fetch_checksum_manifest insert
  cache_manifest url (some manifest) = pure tt
  cache_manifest url none = do
    manifest ← fetch_checksum_manifest url
    λ w. (ok tt, record w { checksum_cache = insert url manifest w.checksum_cache })

  unfoldable pub checksum_in : Str → Str → Option Str → Result SetupError Str
  checksum_in url filename (some expected) = ok expected
  checksum_in url filename none =
      err (
        asset_download
          (codes "checksum manifest " ++ url ++ codes " does not contain " ++ filename))

  -- `cache.get(url).and_then(|manifest| manifest.get(filename))`
  unfoldable pub listed : Str → Option (Map Str) → Option Str
  unfolding lookup
  listed filename none = none
  listed filename (some manifest) = lookup filename manifest

  unfoldable pub expected_sha256 : Str → Str → Exec (World N) SetupError Str
  unfolding cache_manifest checksum_in listed lookup
  expected_sha256 url filename w =
      (cache_manifest url (lookup url w.checksum_cache) >> λ w'.
      (checksum_in url filename (listed filename (lookup url w'.checksum_cache)), w'))
        w
