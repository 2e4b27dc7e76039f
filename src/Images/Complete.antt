-- ===== src/Images/Complete.antt =====
-- `prepare_image` of src/setup/image.rs on Linux, from the catalog to the files of the machine.
use vm_rs.Prelude.{
  ℕ, ◌≡◌, refl, sym, ap, ◌∙◌, inl, inr, Bool, true, false, Option, none, some, List, [], ◌∷◌, ◌++◌,
  arith,
}
use mathlib.Core.Path.{subst}
use vm_rs.Prelude.Tests.{Bool-cases}
use vm_rs.Prelude.Lists.{All}
use vm_rs.Prelude.Text.{Str, codes, str_eq, contains_char}
use vm_rs.Result.{Result, ok, err, map_err}
use vm_rs.Exec.{lift}
use vm_rs.Exec.Rules.{>>=-ok}
use vm_rs.Paths.{
  join, with_slash, join_name, join_slash, str_eq-append, with_extension, with_extension_of_name,
  extend,
}
use vm_rs.Disk
use vm_rs.Seed.{SetupError}
use vm_rs.Images
use vm_rs.Images.Preparing
use vm_rs.Images.Keeping.{Apart}
use vm_rs.Images.Verified.{AsListed, AllApart, prepare_assets_ok}

-- Names in one directory.
module _ (dir : Str) (slash : with_slash dir ≡ dir ++ codes "/") where
  names-eq :
      (a b : Str)
      → contains_char b'/' a ≡ false
      → contains_char b'/' b ≡ false
      → str_eq b a ≡ false
      → str_eq (join dir b) (join dir a) ≡ false
  unfolding str_eq
  names-eq a b ha hb other =
      rw (join_name dir a slash ha, join_name dir b slash hb)
        (str_eq-append dir (b'/' ∷ b) (b'/' ∷ a) ∙ other)

  tmp-eq :
      (a b : Str)
      → contains_char b'/' a ≡ false
      → contains_char b'/' b ≡ false
      → str_eq (extend (codes "tmp") b) a ≡ false
      → str_eq (with_extension (join dir b) (codes "tmp")) (join dir a) ≡ false
  unfolding str_eq
  tmp-eq a b ha hb other =
      rw
        (
          join_name dir a slash ha,
          join_name dir b slash hb,
          with_extension_of_name dir b (codes "tmp") hb,
        )
        (str_eq-append dir (b'/' ∷ extend (codes "tmp") b) (b'/' ∷ a) ∙ other)

  names-Apart :
      (a b : Str)
      → contains_char b'/' a ≡ false
      → contains_char b'/' b ≡ false
      → str_eq b a ≡ false
      → str_eq (extend (codes "tmp") b) a ≡ false
      → Apart (join dir a) (join dir b)
  names-Apart a b ha hb other other_tmp = (names-eq a b ha hb other, tmp-eq a b ha hb other_tmp)

  ubuntu-AllApart :
      (version : Str) (arch : Images.Arch) → AllApart dir (Images.resolve_ubuntu version arch)
  unfolding Images.resolve_ubuntu Images.ubuntu_asset contains_char str_eq extend
  ubuntu-AllApart version arch = (
    tmp-eq vmlinuz vmlinuz refl refl refl,
    (_, refl),
    (
      names-Apart vmlinuz initramfs refl refl refl refl,
      (names-Apart vmlinuz disk refl refl refl refl, tt),
    ),
    (
      tmp-eq initramfs initramfs refl refl refl,
      (_, refl),
      (names-Apart initramfs disk refl refl refl refl, tt),
      (tmp-eq disk disk refl refl refl, (_, refl), tt, tt),
    ),
  )
    where
      vmlinuz : Str
      vmlinuz = codes "vmlinuz"

      initramfs : Str
      initramfs = codes "initramfs"

      disk : Str
      disk = codes "disk.img"

arch_slash :
    (base : Str) (arch : Images.Arch)
    → with_slash (join base (Images.arch_text arch))
      ≡ join base (Images.arch_text arch) ++ codes "/"
unfolding Images.arch_text vm_rs.Paths.ends_in_slash vm_rs.Prelude.Text.starts_with
arch_slash base Images.aarch64 = join_slash base b'a' (codes "arch64") refl refl
arch_slash base Images.x86_64 = join_slash base b'x' (codes "86_64") refl refl

module _ {N : Type 0} (host : Images.Host N) where
  -- On Linux the files are only looked at.
  collect_image_ok :
      (dir : Str) (w : Images.World N) (img : Images.PreparedImage)
      → host.is_macos ≡ false
      → (Preparing.collect_image host dir w).0 ≡ ok img
      → ((Preparing.collect_image host dir w).1 ≡ w)
        × (img.kernel ≡ join dir (codes "vmlinuz"))
        × (img.disk ≡ join dir (codes "disk.img"))
        × (Disk.exists (join dir (codes "vmlinuz")) w.disk ≡ true)
        × (Disk.exists (join dir (codes "disk.img")) w.disk ≡ true)
  unfolding Preparing.collect_image Preparing.select_disk Preparing.require_file
      Preparing.initramfs_of
  collect_image_ok dir w img linux h =
      elim (Bool-cases (Disk.exists (join dir (codes "vmlinuz")) w.disk)) [
        | inr missing ↦ absurd (clash (rw (linux, missing) at h))
        | inl kernel ↦ elim (Bool-cases (Disk.exists (join dir (codes "disk.img")) w.disk)) [
          | inr missing ↦ absurd (clash (rw (linux, kernel, missing) at h))
          | inl disk ↦
              let made = unok (rw (linux, kernel, disk) at h) in
              (
                rw (linux, kernel, disk) refl,
                sym (ap (λ x. x.kernel) made),
                sym (ap (λ x. x.disk) made),
                kernel,
                disk,
              )
        ]
      ]
    where
      clash : {x : SetupError} → Path (Result SetupError Images.PreparedImage) (err x) (ok img) → ⊥
      clash e = cc

      unok :
          {made : Images.PreparedImage}
          → Path (Result SetupError Images.PreparedImage) (ok made) (ok img)
          → made ≡ img
      unok e = cc

  -- Only Ubuntu is in the catalog.
  resolve_image_ok :
      (spec : Images.ImageSpec) (assets : List Images.ImageAsset)
      → Images.resolve_image host spec ≡ ok assets
      → Images.resolve_ubuntu spec.version (Images.arch_or spec.arch host.host_arch) ≡ assets
  unfolding Images.resolve_image
  resolve_image_ok spec assets h =
      elim (Bool-cases (str_eq (host.to_lowercase spec.distro) (codes "ubuntu"))) [
        | inl ubuntu ↦ unok (rw ubuntu at h)
        | inr other ↦ elim (Bool-cases (str_eq (host.to_lowercase spec.distro) (codes "alpine"))) [
          | inl alpine ↦ absurd (clash (rw (other, alpine) at h))
          | inr unknown ↦ absurd (clash (rw (other, unknown) at h))
        ]
      ]
    where
      clash :
          {x : SetupError}
          → Path (Result SetupError (List Images.ImageAsset)) (err x) (ok assets)
          → ⊥
      clash e = cc

      unok :
          {made : List Images.ImageAsset}
          → Path (Result SetupError (List Images.ImageAsset)) (ok made) (ok assets)
          → made ≡ assets
      unok e = cc

  abbrev pub Complete : Images.ImageSpec → Str → Images.PreparedImage → Images.World N → Type 0
  Complete spec dir img w =
      (img.kernel ≡ join dir (codes "vmlinuz"))
      × (img.disk ≡ join dir (codes "disk.img"))
      × All (AsListed host dir w)
          (Images.resolve_ubuntu spec.version (Images.arch_or spec.arch host.host_arch))

  -- On Linux, if `prepare_image` returns an image, its kernel and disk are the files of the
  -- catalog in the image directory, and each of the three files of the catalog for the version
  -- and architecture is there with bytes whose hash is the one that the fetched checksum
  -- manifest lists for its name, whether it was cached or downloaded.
  pub prepare_image_ok :
      (spec : Images.ImageSpec) (cache_dir : Str) (w : Images.World N) (img : Images.PreparedImage)
      → host.is_macos ≡ false
      → (Preparing.prepare_image host spec cache_dir w).0 ≡ ok img
      → Complete spec
          (Preparing.image_dir host spec cache_dir)
          img
          (Preparing.prepare_image host spec cache_dir w).1
  unfolding Preparing.prepare_image Preparing.image_dir
  prepare_image_ok spec cache_dir w img linux h =
      let (_, _, h1, after1) = >>=-ok (Images.on_disk host (Disk.create_dir_all dir)) _ w h in
      let w1 = (Images.on_disk host (Disk.create_dir_all dir) w).1 in
      let (assets, resolved, h2, after2) = >>=-ok (lift (Images.resolve_image host spec)) _ w1 h1 in
      let (_, _, h3, after3) = >>=-ok (lift (map_err _ host.build)) _ w1 h2 in
      let w2 = record w1 { checksum_cache = [] } in
      let (_, prepared, h4, after4) =
        >>=-ok (Preparing.prepare_assets host dir assets) (λ u. Preparing.collect_image host dir) w2
          h3 in
      let w3 = (Preparing.prepare_assets host dir assets w2).1 in
      let (same, kernel, disk, _, _) = collect_image_ok dir w3 img linux h4 in
      let catalog = resolve_image_ok spec assets resolved in
      subst
        (λ (x : Result SetupError Images.PreparedImage × Images.World N). Complete spec dir img x.1)
        (sym (after1 ∙ after2 ∙ after3 ∙ after4))
        (subst (λ (x : Images.World N). Complete spec dir img x) (sym same)
          (
            kernel,
            disk,
            subst (λ (as' : List Images.ImageAsset). All (AsListed host dir w3) as') (sym catalog)
                (prepare_assets_ok host dir assets w2
                  (subst (AllApart dir) catalog (
                    ubuntu-AllApart dir slash spec.version
                      (Images.arch_or spec.arch host.host_arch)))
                  prepared),
          ))
    where
      dir : Str
      dir = Preparing.image_dir host spec cache_dir

      slash : with_slash dir ≡ dir ++ codes "/"
      slash =
          arch_slash (join (join (join cache_dir (codes "images")) spec.distro) spec.version)
            (Images.arch_or spec.arch host.host_arch)
