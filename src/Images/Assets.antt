-- ===== src/Images/Assets.antt =====
-- src/setup/image.rs: what one asset leaves on the disk and in the cache of checksums.
use vm_rs.Prelude.{◌≡◌, refl, sym, ap, ◌∙◌, inl, inr, Bool, true, false, Option, none, some}
use mathlib.Core.Path.{subst}
use vm_rs.Prelude.Tests.{Bool-cases}
use vm_rs.Prelude.Text.{Str, codes, str_eq, str_eq_iff}
use vm_rs.Prelude.Map.{Map, lookup}
use vm_rs.Result.{Result, ok, err, map_err, Result-cases, IoError}
use vm_rs.Exec.{Exec, lift}
use vm_rs.Exec.Rules.{>>=-ok}
use vm_rs.Paths.{with_extension}
use vm_rs.Disk
use vm_rs.Disk.Writing.{read-Keeps, read-ok, write_atomically-ok}
use vm_rs.Seed.{SetupError}
use vm_rs.Images
use vm_rs.Images.Preparing

-- A file that stands at a path, and a checksum manifest that is cached.
abbrev pub Kept : {N : Type 0} → Str → Disk.Bytes → Str → Map Str → Images.World N → Type 0
Kept path bytes url manifest w =
    (lookup path w.disk.files ≡ some bytes) × (lookup url w.checksum_cache ≡ some manifest)

-- The file beside a path is another file.
abbrev pub TmpApart : Str → Type 0
TmpApart path = str_eq (with_extension path (codes "tmp")) path ≡ false

module _ {N : Type 0} (host : Images.Host N) where
  on_disk-ok :
      {A : Type 0} (call : Exec Disk.Disk IoError A) (w : Images.World N) {a : A}
      → (Images.on_disk host call w).0 ≡ ok a
      → (call w.disk).0 ≡ ok a
  on_disk-ok {A} call w {a} h = elim (Result-cases (call w.disk).0) [
    | inl (b, e) ↦ e ∙ unok (rw e at h)
    | inr (x, e) ↦ absurd (clash (rw e at h))
  ]
    where
      clash : {x : SetupError} → Path (Result SetupError A) (err x) (ok a) → ⊥
      clash e = cc

      unok :
          {b : A} → Path (Result SetupError A) (ok b) (ok a) → Path (Result IoError A) (ok b) (ok a)
      unok e = cc

  verify_bytes_ok :
      (bytes : Disk.Bytes) (expected label : Str)
      → Images.verify_bytes host bytes expected label ≡ ok tt
      → host.sha256_hex bytes ≡ expected
  unfolding Images.verify_bytes
  verify_bytes_ok bytes expected label h =
      elim (Bool-cases (str_eq (host.sha256_hex bytes) expected)) [
        | inl same ↦ (str_eq_iff (host.sha256_hex bytes) expected).0 same
        | inr other ↦ absurd (clash (rw other at h))
      ]
    where
      clash : {x : SetupError} → Path (Result SetupError (Unit {0})) (err x) (ok tt) → ⊥
      clash e = cc

  -- The asset's file, with the expected checksum.
  abbrev pub Verified : Str → Str → Images.World N → Type 0
  Verified path expected w =
      (bytes : Disk.Bytes) × (lookup path w.disk.files ≡ some bytes)
      × (host.sha256_hex bytes ≡ expected)

  download_file_ok :
      (url path expected : Str) (w : Images.World N)
      → TmpApart path
      → (Images.download_file host url path (some expected) w).0 ≡ ok tt
      → Verified path expected (Images.download_file host url path (some expected) w).1
  unfolding Images.download_file Images.verify_if
  download_file_ok url path expected w apart h =
      let (resp, _, h1, after1) = >>=-ok (Images.get host _ url) _ w h in
      let w1 =
        (Images.get host (Images.download_failed host (codes "HTTP request failed for ") url) url
          w).1 in
      let (_, _, h2, after2) =
        >>=-ok (Images.require_success host resp (codes " for ") url) _ w1 h1 in
      let w2 = (Images.require_success host resp (codes " for ") url w1).1 in
      let (bytes, _, h3, after3) = >>=-ok (lift (map_err _ resp.body)) _ w2 h2 in
      let (_, e4, h4, after4) =
        >>=-ok (lift (Images.verify_bytes host bytes expected url)) _ w2 h3 in
      subst (λ (x : Result SetupError (Unit {0}) × Images.World N). Verified path expected x.1)
        (sym (after1 ∙ after2 ∙ after3 ∙ after4))
        (
          bytes,
          write_atomically-ok path bytes w2.disk apart
              (on_disk-ok (Disk.write_atomically path bytes) w2 h4),
          verify_bytes_ok bytes expected url e4,
        )

  -- A file that is there is read, and fails the preparation unless it has the checksum.
  verify_download_ok :
      (path expected : Str) (w : Images.World N) {b : Bool}
      → (Images.verify_download host path (some expected) w).0 ≡ ok b
      → (b ≡ true) × Verified path expected (Images.verify_download host path (some expected) w).1
  unfolding Images.verify_download
  verify_download_ok path expected w {b} h =
      let (bytes, e1, h1, after1) = >>=-ok (Images.on_disk host (Disk.read path)) _ w h in
      let w1 = (Images.on_disk host (Disk.read path) w).1 in
      let (_, e2, h2, after2) =
        >>=-ok (lift (Images.verify_bytes host bytes expected path)) _ w1 h1 in
      (
        sym (unok h2),
        subst (λ (x : Result SetupError Bool × Images.World N). Verified path expected x.1)
            (sym (after1 ∙ after2))
            (
              bytes,
              ap (lookup path) (read-Keeps path w.disk)
                  ∙ read-ok path w.disk (on_disk-ok (Disk.read path) w e1),
              verify_bytes_ok bytes expected path e2,
            ),
      )
    where
      unok : {a : Bool} → Path (Result SetupError Bool) (ok a) (ok b) → a ≡ b
      unok e = cc

  verify_or_download_ok :
      (asset : Images.ImageAsset) (path expected : Str) (w : Images.World N)
      → (Preparing.verify_or_download host asset path (some expected) w).0 ≡ ok tt
      → Verified path expected (Preparing.verify_or_download host asset path (some expected) w).1
  unfolding Preparing.verify_or_download
  verify_or_download_ok asset path expected w h =
      let (b, e1, h1, after1) = >>=-ok (Images.verify_download host path (some expected)) _ w h in
      let (yes', verified) = verify_download_ok path expected w e1 in
      subst (λ (x : Result SetupError (Unit {0}) × Images.World N). Verified path expected x.1)
        (sym after1) (rw yes' verified)

  pub download_if_absent_ok :
      (asset : Images.ImageAsset) (path expected : Str) (w : Images.World N)
      → TmpApart path
      → (Preparing.download_if_absent host asset path (some expected) w).0 ≡ ok tt
      → Verified path expected (Preparing.download_if_absent host asset path (some expected) w).1
  unfolding Preparing.download_if_absent
  download_if_absent_ok asset path expected w apart h =
      elim (Bool-cases (Disk.exists path w.disk)) [
        | inl there ↦ rw there (verify_or_download_ok asset path expected w (rw there at h))
        | inr absent ↦ rw absent (download_file_ok asset.url path expected w apart (rw absent at h))
      ]

  -- The expected checksum is the one that the cached manifest lists.
  abbrev pub IsListed : Str → Str → Str → Images.World N → Type 0
  IsListed url filename expected w =
      (manifest : Map Str) × (lookup url w.checksum_cache ≡ some manifest)
      × (lookup filename manifest ≡ some expected)

  pub expected_sha256-IsListed :
      (url filename : Str) (w : Images.World N) {expected : Str}
      → (Images.expected_sha256 host url filename w).0 ≡ ok expected
      → IsListed url filename expected (Images.expected_sha256 host url filename w).1
  unfolding Images.expected_sha256 Images.checksum_in Images.listed
  expected_sha256-IsListed url filename w {expected} h =
      let (_, _, h1, after1) =
        >>=-ok (Images.cache_manifest host url (lookup url w.checksum_cache)) _ w h in
      let w1 = (Images.cache_manifest host url (lookup url w.checksum_cache) w).1 in
      subst (λ (x : Result SetupError Str × Images.World N). IsListed url filename expected x.1)
        (sym after1) (found (lookup url w1.checksum_cache) h1)
    where
      entry :
          (o : Option Str)
          → Images.checksum_in host url filename o ≡ ok expected
          → o ≡ some expected
      entry none e = cc
      entry (some a) e = cc

      found :
          (o : Option (Map Str))
          → Images.checksum_in host url filename (Images.listed host filename o) ≡ ok expected
          → (manifest : Map Str) × (o ≡ some manifest) × (lookup filename manifest ≡ some expected)
      found none e = cc
      found (some manifest) e = (manifest, refl, entry (lookup filename manifest) e)
