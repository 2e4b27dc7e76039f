-- ===== src/Images/Verified.antt =====
-- `prepare_image` of src/setup/image.rs: on success every asset has the checksum that its manifest lists.
use vm_rs.Prelude.{◌≡◌, refl, sym, ap, ◌∙◌, Option, some, List, [], ◌∷◌}
use mathlib.Core.Path.{subst}
use vm_rs.Prelude.Tests.{keep-if}
use vm_rs.Prelude.Lists.{All}
use vm_rs.Prelude.Text.{Str}
use vm_rs.Prelude.Map.{Map, lookup}
use vm_rs.Result.{Result, ok, map_err}
use vm_rs.Exec.{Exec, pure, lift, ◌>>=◌, resume_with}
use vm_rs.Exec.Rules.{Keeps, >>=-Keeps, >>=-ok}
use vm_rs.Paths.{join}
use vm_rs.Disk
use vm_rs.Seed.{SetupError}
use vm_rs.Images
use vm_rs.Images.Preparing
use vm_rs.Images.Assets.{
  Verified, TmpApart, IsListed, expected_sha256-IsListed, download_if_absent_ok,
}
use vm_rs.Images.Keeping.{Apart, prepare_assets-Keeps}

abbrev pub HasChecksum : Images.ImageAsset → Type 0
HasChecksum asset = (url : Str) × (asset.checksum_url ≡ some url)

-- The files of the assets are different, and none is the temporary file of another or its own.
abbrev pub AllApart : Str → List Images.ImageAsset → Type 0
AllApart dir [] = Unit
AllApart dir (asset ∷ assets) =
    TmpApart (join dir asset.filename)
    × HasChecksum asset
    × All (λ (other : Images.ImageAsset). Apart (join dir asset.filename) (join dir other.filename))
        assets
    × AllApart dir assets

module _ {N : Type 0} (host : Images.Host N) where
  -- Downloads leave the cached checksum manifests.
  module _ (cache : Map (Map Str)) where
    abbrev SameCache : Images.World N → Type 0
    SameCache w = w.checksum_cache ≡ cache

    download_file-SameCache :
        (url path : Str) (expected : Option Str)
        → Keeps SameCache (Images.download_file host url path expected)
    unfolding Images.download_file Images.require_success
    download_file-SameCache url path expected =
        >>=-Keeps SameCache (Images.get host _ url) _ (λ w h. h)
          (λ resp.
            >>=-Keeps SameCache (Images.require_success host resp _ url) _
              (keep-if (Keeps SameCache) resp.is_success (λ w h. h) (λ w h. h))
              (λ v.
                >>=-Keeps SameCache (lift (map_err _ resp.body)) _ (λ w h. h)
                  (λ bytes.
                    >>=-Keeps SameCache (lift (Images.verify_if host bytes expected url)) _
                      (λ w h. h) (λ x w h. h))))

    verify_download-SameCache :
        (path expected : Str) → Keeps SameCache (Images.verify_download host path (some expected))
    unfolding Images.verify_download
    verify_download-SameCache path expected =
        >>=-Keeps SameCache (Images.on_disk host (Disk.read path)) _ (λ w h. h)
          (λ bytes.
            >>=-Keeps SameCache (lift (Images.verify_bytes host bytes expected path)) _ (λ w h. h)
              (λ v w h. h))

    download_if_absent-SameCache :
        (asset : Images.ImageAsset) (path expected : Str)
        → Keeps SameCache (Preparing.download_if_absent host asset path (some expected))
    unfolding Preparing.download_if_absent Preparing.verify_or_download
    download_if_absent-SameCache asset path expected w h =
        keep-if (λ (x : Result SetupError (Unit {0}) × Images.World N). SameCache x.1)
          (Disk.exists path w.disk)
          (>>=-Keeps SameCache (Images.verify_download host path (some expected)) _
            (verify_download-SameCache path expected)
            (λ verified.
              keep-if (Keeps SameCache) verified (λ w h. h)
                (download_file-SameCache asset.url path (some expected)))
            w h)
          (download_file-SameCache asset.url path (some expected) w h)

  -- The asset's file has the checksum that the asset's cached manifest lists.
  abbrev pub AsListed : Str → Images.World N → Images.ImageAsset → Type 0
  AsListed dir w asset =
      (url : Str) × (expected : Str) × (asset.checksum_url ≡ some url)
      × IsListed host url asset.source_filename expected w
      × Verified host (join dir asset.filename) expected w

  prepare_asset_ok :
      (dir : Str) (asset : Images.ImageAsset) (w : Images.World N)
      → HasChecksum asset
      → TmpApart (join dir asset.filename)
      → (Preparing.prepare_asset host dir asset w).0 ≡ ok tt
      → AsListed dir (Preparing.prepare_asset host dir asset w).1 asset
  unfolding Preparing.prepare_asset Preparing.expected_of
  prepare_asset_ok dir asset w (url, has) apart h =
      subst (λ (x : Result SetupError (Unit {0}) × Images.World N). AsListed dir x.1 asset)
        (sym (ap (λ u. (Preparing.expected_of host asset.source_filename u >>= download) w) has))
        (with_url (
          ap (λ u. ((Preparing.expected_of host asset.source_filename u >>= download) w).0)
            (sym has)
          ∙ h))
    where
      path : Str
      path = join dir asset.filename

      download : Option Str → Exec (Images.World N) SetupError (Unit {0})
      download expected = Preparing.download_if_absent host asset path expected

      with_url :
          ((Preparing.expected_of host asset.source_filename (some url) >>= download) w).0 ≡ ok tt
          → AsListed dir
              ((Preparing.expected_of host asset.source_filename (some url) >>= download) w).1
              asset
      with_url h' =
          let (found, e1, h1, after1) =
            >>=-ok (Preparing.expected_of host asset.source_filename (some url)) download w h' in
          let (expected, e2, h2, after2) =
            >>=-ok (Images.expected_sha256 host url asset.source_filename)
              (λ (x : Str). pure {S = Images.World N} {E = SetupError} (some x)) w e1 in
          let w1 = (Images.expected_sha256 host url asset.source_filename w).1 in
          let (manifest, cached, lists) =
            expected_sha256-IsListed host url asset.source_filename w e2 in
          let step : (Preparing.expected_of host asset.source_filename (some url) >>= download) w
              ≡ download (some expected) w1 =
            ap
              (λ (r : Result SetupError (Option Str) × Images.World N).
                resume_with r.0 download r.1)
              after2 in
          let done : (download (some expected) w1).0 ≡ ok tt = ap (λ r. r.0) (sym step) ∙ h' in
          subst (λ (x : Result SetupError (Unit {0}) × Images.World N). AsListed dir x.1 asset)
            (sym step)
            (
              url,
              expected,
              has,
              (
                manifest,
                ap (lookup url)
                      (download_if_absent-SameCache w1.checksum_cache asset path expected w1 refl)
                    ∙ cached,
                lists,
              ),
              download_if_absent_ok host asset path expected w1 apart done,
            )

  pub prepare_assets_ok :
      (dir : Str) (assets : List Images.ImageAsset) (w : Images.World N)
      → AllApart dir assets
      → (Preparing.prepare_assets host dir assets w).0 ≡ ok tt
      → All (AsListed dir (Preparing.prepare_assets host dir assets w).1) assets
  unfolding Preparing.prepare_assets
  prepare_assets_ok dir [] w apart h = tt
  prepare_assets_ok dir (asset ∷ assets) w (tmp, has, others, rest) h =
      let (u, e, h1, after) =
        >>=-ok (Preparing.prepare_asset host dir asset)
          (λ u. Preparing.prepare_assets host dir assets) w h in
      let w1 = (Preparing.prepare_asset host dir asset w).1 in
      let (url, expected, is_url, (manifest, cached, lists), (bytes, there, checked)) =
        prepare_asset_ok dir asset w has tmp e in
      let (there', cached') =
        prepare_assets-Keeps host (join dir asset.filename) bytes url manifest dir assets others w1
          (there, cached) in
      subst
        (λ (x : Result SetupError (Unit {0}) × Images.World N).
          All (AsListed dir x.1) (asset ∷ assets))
        (sym after)
        (
          (url, expected, is_url, (manifest, cached', lists), (bytes, there', checked)),
          prepare_assets_ok dir assets w1 rest h1,
        )
