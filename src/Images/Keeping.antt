-- ===== src/Images/Keeping.antt =====
-- src/setup/image.rs: what the preparation of one asset keeps of another's file and of the cached checksums.
use vm_rs.Prelude.{◌≡◌, ap, ◌∙◌, inl, inr, false, Option, none, some, List, [], ◌∷◌}
use vm_rs.Prelude.Tests.{Bool-cases, Option-cases, keep-if}
use vm_rs.Prelude.Lists.{All}
use vm_rs.Prelude.Text.{Str, codes, str_eq, str_eq_iff}
use vm_rs.Prelude.Map.{Map, lookup, insert, lookup-insert}
use vm_rs.Result.{Result, ok, map_err}
use vm_rs.Exec.{lift}
use vm_rs.Exec.Rules.{Keeps, >>=-Keeps}
use vm_rs.Paths.{join, with_extension}
use vm_rs.Disk
use vm_rs.Disk.Writing.{read-Keeps, write_atomically-keeps}
use vm_rs.Seed.{SetupError}
use vm_rs.Images
use vm_rs.Images.Preparing
use vm_rs.Images.Assets.{Kept}

-- Another file than the one that is written, and than the file beside it.
abbrev pub Apart : Str → Str → Type 0
Apart q path = (str_eq path q ≡ false) × (str_eq (with_extension path (codes "tmp")) q ≡ false)

module _ {N : Type 0} (host : Images.Host N) (q : Str) (held : Disk.Bytes) (url : Str)
    (manifest : Map Str) where
  abbrev J : Images.World N → Type 0
  J = Kept q held url manifest

  require_success-Keeps :
      (resp : Images.Response) (what u : Str) → Keeps J (Images.require_success host resp what u)
  unfolding Images.require_success
  require_success-Keeps resp what u = keep-if (Keeps J) resp.is_success (λ w h. h) (λ w h. h)

  fetch-Keeps : (u : Str) → Keeps J (Images.fetch_checksum_manifest host u)
  unfolding Images.fetch_checksum_manifest
  fetch-Keeps u =
      >>=-Keeps J (Images.get host _ u) _ (λ w h. h)
        (λ resp.
          >>=-Keeps J (Images.require_success host resp _ u) _ (require_success-Keeps resp _ u)
            (λ v. >>=-Keeps J (lift (map_err _ resp.text)) _ (λ w h. h) (λ body w h. h)))

  cache_manifest-Keeps :
      (u : Str) (w : Images.World N)
      → J w
      → J (Images.cache_manifest host u (lookup u w.checksum_cache) w).1
  unfolding Images.cache_manifest
  cache_manifest-Keeps u w h = elim (Option-cases (lookup u w.checksum_cache)) [
    | inr (m, there) ↦ rw there h
    | inl missing ↦
        let other : str_eq u url ≡ false = elim (Bool-cases (str_eq u url)) [
          | inl same ↦ cc ((str_eq_iff u url).0 same, h.1, missing)
          | inr other ↦ other
        ] in
        rw missing (
          >>=-Keeps J (Images.fetch_checksum_manifest host u)
            (λ m w'. (ok tt, record w' { checksum_cache = insert u m w'.checksum_cache }))
            (fetch-Keeps u)
            (λ m w' h'. (h'.0, lookup-insert u url m w'.checksum_cache ∙ rw other h'.1)) w h)
  ]

  expected_of-Keeps :
      (source_filename : Str) (u : Option Str)
      → Keeps J (Preparing.expected_of host source_filename u)
  unfolding Preparing.expected_of Images.expected_sha256
  expected_of-Keeps source_filename none = λ w h. h
  expected_of-Keeps source_filename (some u) =
      >>=-Keeps J (Images.expected_sha256 host u source_filename) _
        (λ w h.
          >>=-Keeps J
            (λ (w' : Images.World N). Images.cache_manifest host u (lookup u w.checksum_cache) w) _
            (λ w' h'. cache_manifest-Keeps u w h) (λ v w' h'. h') w h)
        (λ e w h. h)

  verify_download-Keeps :
      (path : Str) (expected : Option Str) → Keeps J (Images.verify_download host path expected)
  unfolding Images.verify_download
  verify_download-Keeps path none = λ w h. h
  verify_download-Keeps path (some expected) =
      >>=-Keeps J (Images.on_disk host (Disk.read path)) _
        (λ w h. (ap (lookup q) (read-Keeps path w.disk) ∙ h.0, h.1))
        (λ bytes.
          >>=-Keeps J (lift (Images.verify_bytes host bytes expected path)) _ (λ w h. h)
            (λ v w h. h))

  download_file-Keeps :
      (u path : Str) (expected : Option Str)
      → Apart q path
      → Keeps J (Images.download_file host u path expected)
  unfolding Images.download_file
  download_file-Keeps u path expected (other, other_tmp) =
      >>=-Keeps J (Images.get host _ u) _ (λ w h. h)
        (λ resp.
          >>=-Keeps J (Images.require_success host resp _ u) _ (require_success-Keeps resp _ u)
            (λ v.
              >>=-Keeps J (lift (map_err _ resp.body)) _ (λ w h. h)
                (λ bytes.
                  >>=-Keeps J (lift (Images.verify_if host bytes expected u)) _ (λ w h. h)
                    (λ x w h. (
                      write_atomically-keeps path bytes q (some held) w.disk other other_tmp h.0,
                      h.1,
                    )))))

  pub prepare_asset-Keeps :
      (dir : Str) (asset : Images.ImageAsset)
      → Apart q (join dir asset.filename)
      → Keeps J (Preparing.prepare_asset host dir asset)
  unfolding Preparing.prepare_asset Preparing.download_if_absent Preparing.verify_or_download
  prepare_asset-Keeps dir asset apart =
      >>=-Keeps J (Preparing.expected_of host asset.source_filename asset.checksum_url) _
        (expected_of-Keeps asset.source_filename asset.checksum_url)
        (λ expected w h.
          keep-if (λ (x : Result SetupError (Unit {0}) × Images.World N). J x.1)
            (Disk.exists path w.disk)
            (>>=-Keeps J (Images.verify_download host path expected) _
              (verify_download-Keeps path expected)
              (λ verified.
                keep-if (Keeps J) verified (λ w h. h)
                  (download_file-Keeps asset.url path expected apart))
              w h)
            (download_file-Keeps asset.url path expected apart w h))
    where
      path : Str
      path = join dir asset.filename

  pub prepare_assets-Keeps :
      (dir : Str) (assets : List Images.ImageAsset)
      → All (λ (asset : Images.ImageAsset). Apart q (join dir asset.filename)) assets
      → Keeps J (Preparing.prepare_assets host dir assets)
  unfolding Preparing.prepare_assets
  prepare_assets-Keeps dir [] apart = λ w h. h
  prepare_assets-Keeps dir (asset ∷ assets) (a, as') =
      >>=-Keeps J (Preparing.prepare_asset host dir asset) _ (prepare_asset-Keeps dir asset a)
        (λ u. prepare_assets-Keeps dir assets as')
