-- ===== src/Images/Preparing.antt =====
-- `prepare_image` of src/setup/image.rs: every asset of the catalog in turn, and the files that the machine boots from.
use vm_rs.Prelude.{Option, none, some, List, [], ◌∷◌, ◌++◌, ◌&&◌}
use vm_rs.Prelude.Tests.{if◌then◌else◌, not}
use vm_rs.Prelude.Text.{Str, codes, trim}
use vm_rs.Result.{Result, ok, err, map_err}
use vm_rs.Exec.{Exec, pure, lift, ◌>>=◌, ◌>>◌}
use vm_rs.Paths.{join}
use vm_rs.Disk.{exists, create_dir_all}
use vm_rs.Seed.{SetupError, asset_download}
use vm_rs.Images.{
  Host, World, ImageSpec, ImageAsset, PreparedImage, arch_text, arch_or, resolve_image, on_disk,
  verify_download, download_file, expected_sha256,
}

module _ {N : Type 0} (host : Host N) where
  unfoldable pub image_dir : ImageSpec → Str → Str
  unfolding arch_text arch_or join
  image_dir spec cache_dir =
      join (join (join (join cache_dir (codes "images")) spec.distro) spec.version)
        (arch_text (arch_or spec.arch host.host_arch))

  unfoldable pub expected_of : Str → Option Str → Exec (World N) SetupError (Option Str)
  unfolding expected_sha256
  expected_of source_filename none = pure none
  expected_of source_filename (some url) = do
    expected ← expected_sha256 host url source_filename
    pure (some expected)

  -- A verified file is left alone; one that fails the verification ends the preparation.
  unfoldable pub verify_or_download :
      ImageAsset → Str → Option Str → Exec (World N) SetupError (Unit {0})
  unfolding verify_download download_file
  verify_or_download asset path expected = do
    verified ← verify_download host path expected
    (if verified then pure tt else download_file host asset.url path expected)

  unfoldable pub download_if_absent :
      ImageAsset → Str → Option Str → Exec (World N) SetupError (Unit {0})
  unfolding exists verify_or_download download_file
  download_if_absent asset path expected w =
      if exists path w.disk
      then verify_or_download asset path expected w
      else download_file host asset.url path expected w

  unfoldable pub prepare_asset : Str → ImageAsset → Exec (World N) SetupError (Unit {0})
  unfolding expected_of download_if_absent
  prepare_asset dir asset = do
    expected ← expected_of asset.source_filename asset.checksum_url
    download_if_absent asset (join dir asset.filename) expected

  unfoldable pub prepare_assets : Str → List ImageAsset → Exec (World N) SetupError (Unit {0})
  unfolding prepare_asset
  prepare_assets dir [] = pure tt
  prepare_assets dir (asset ∷ assets) = do prepare_asset dir asset; prepare_assets dir assets

  unfoldable pub converted : Result (Str × Str) (Unit {0}) → Result SetupError (Unit {0})
  unfolding trim
  converted (ok _) = ok tt
  converted (err (status, stderr)) = err (
      asset_download (
        codes "qemu-img convert failed (exit "
        ++ status
        ++ codes "): "
        ++ trim stderr
        ++ codes ". Install qemu-img: brew install qemu (macOS) or apt install qemu-utils (Linux)"))

  unfoldable pub convert_to_raw : Str → Str → Exec (World N) SetupError (Unit {0})
  unfolding converted
  convert_to_raw qcow2 raw = do
    output ← on_disk host (host.qemu_img_convert qcow2 raw)
    lift (converted output)

  unfoldable pub convert_if_needed : Str → Str → Exec (World N) SetupError (Unit {0})
  unfolding exists convert_to_raw
  convert_if_needed disk_downloaded raw_path w =
      if exists disk_downloaded w.disk && not (exists raw_path w.disk)
      then convert_to_raw disk_downloaded raw_path w
      else (ok tt, w)

  unfoldable pub raw_if_there : Str → Exec (World N) SetupError Str
  unfolding exists join
  raw_if_there dir w = (
    ok (
        if exists (join dir (codes "disk.raw")) w.disk
        then join dir (codes "disk.raw")
        else join dir (codes "disk.img")),
    w,
  )

  unfoldable pub raw_disk : Str → Exec (World N) SetupError Str
  unfolding convert_if_needed raw_if_there
  raw_disk dir = do
    convert_if_needed (join dir (codes "disk.img")) (join dir (codes "disk.raw"))
    raw_if_there dir

  unfoldable pub select_disk : Str → Exec (World N) SetupError Str
  unfolding raw_disk join
  select_disk dir = if host.is_macos then raw_disk dir else pure (join dir (codes "disk.img"))

  unfoldable pub require_file : Str → Str → Exec (World N) SetupError (Unit {0})
  unfolding exists
  require_file what path w =
      if not (exists path w.disk) then (err (asset_download (what ++ path)), w) else (ok tt, w)

  unfoldable pub initramfs_of : Str → Exec (World N) SetupError (Option Str)
  unfolding exists
  initramfs_of path w = (ok (if exists path w.disk then some path else none), w)

  unfoldable pub collect_image : Str → Exec (World N) SetupError PreparedImage
  unfolding select_disk require_file initramfs_of join
  collect_image dir = do
    initramfs ← initramfs_of (join dir (codes "initramfs"))
    disk ← select_disk dir
    require_file (codes "kernel not found after download: ") (join dir (codes "vmlinuz"))
    require_file (codes "disk image not found after download: ") disk
    pure (record { kernel = join dir (codes "vmlinuz"); initramfs = initramfs; disk = disk })

  unfoldable pub prepare_image : ImageSpec → Str → Exec (World N) SetupError PreparedImage
  unfolding image_dir resolve_image prepare_assets collect_image
  prepare_image spec cache_dir = do
    on_disk host (create_dir_all (image_dir spec cache_dir))
    assets ← lift (resolve_image host spec)
    lift (map_err (λ e. asset_download (codes "failed to create HTTP client: " ++ e)) host.build)
    λ w.
        (prepare_assets (image_dir spec cache_dir) assets
            >> collect_image (image_dir spec cache_dir))
          (record w { checksum_cache = [] })
