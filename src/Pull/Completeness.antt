-- ===== src/Pull/Completeness.antt =====
-- `pull` of src/oci/registry.rs: what is in the store when it has succeeded, and what it keeps whatever happens.
use vm_rs.Prelude.{◌≡◌, refl, sym, ◌∙◌, inl, inr, List, [], ◌∷◌}
use mathlib.Core.Path.{subst}
use vm_rs.Prelude.Tests.{Bool-cases}
use vm_rs.Prelude.Lists.{All}
use vm_rs.Prelude.Text.{Str, codes}
use vm_rs.Result.{Result, ok, map_err}
use vm_rs.Exec.{Exec, pure, lift, ◌>>=◌, ◌>>◌}
use vm_rs.Exec.Rules.{>>=-ok}
use vm_rs.Disk.{Bytes}
use vm_rs.Registry.{OciError, ImageRef, parse_image_ref}
use vm_rs.Store
use vm_rs.Store.Blobs.{IsHash}
use vm_rs.Store.Addressed.{IsAddressed, put_blob-IsAddressed, put_manifest-IsAddressed}
use vm_rs.Store.Presence.{Present, put_blob-Present, put_manifest-Present, put_blob-puts}
use vm_rs.Pull
use vm_rs.Pull.Auth
use vm_rs.Pull.Download
use vm_rs.Pull.Keeping.{ensure_blobs-Keeps, pull-Keeps}

module _ {N : Type 0} (client : Pull.Client N) (store : Store.ImageStore)
    (hex : (bytes : Bytes) → IsHash (client.sha256_hex bytes)) where
  -- If SHA-256 is written in hexadecimal digits: from a store in which every blob has its name
  -- as its hash, any `pull` leads to such a store, whatever the registry answers and whichever
  -- call of the disk fails.
  pub pull-IsAddressed :
      (image : Str) (w : Pull.World N)
      → IsAddressed client.sha256_hex store w.disk
      → IsAddressed client.sha256_hex store (Download.pull client store image w).1.disk
  pull-IsAddressed image w h =
      pull-Keeps client (IsAddressed client.sha256_hex store) store
        (put_blob-IsAddressed client.sha256_hex hex store)
        (put_manifest-IsAddressed client.sha256_hex store) image w h

  abbrev Found : Pull.World N → Str → Type 0
  Found w D = IsHash (Store.hash_of D) → Present store D w.disk

  fetch_and_put-Found :
      (r : ImageRef) (a : Pull.RegistryAuth) (D : Str) (w : Pull.World N)
      → (Download.fetch_and_put client store r a D w).0 ≡ ok tt
      → Present store D (Download.fetch_and_put client store r a D w).1.disk
  unfolding Download.fetch_and_put
  fetch_and_put-Found r a D w h =
      let (bytes, e, h1, after) =
        >>=-ok (Pull.fetch_blob client r D a) (λ bytes. put bytes >>= λ path. pure tt) w h in
      let w1 = (Pull.fetch_blob client r D a w).1 in
      let (path, e', h2, after') = >>=-ok (put bytes) (λ path. pure tt) w1 h1 in
      subst (λ (x : Result OciError (Unit {0}) × Pull.World N). Present store D x.1.disk)
        (sym (after ∙ after')) (put_blob-puts client.sha256_hex hex store D bytes w1.disk e')
    where
      put : Bytes → Exec (Pull.World N) OciError Str
      put bytes = Pull.on_store (Store.put_blob client.sha256_hex store D bytes)

  ensure_blob-Found :
      (r : ImageRef) (a : Pull.RegistryAuth) (D : Str) (w : Pull.World N)
      → (Download.ensure_blob client store r a D w).0 ≡ ok tt
      → Present store D (Download.ensure_blob client store r a D w).1.disk
  unfolding Download.ensure_blob
  ensure_blob-Found r a D w h = elim (Bool-cases (Store.has_blob store D w.disk)) [
    | inl here ↦ rw here here
    | inr missing ↦ rw missing (fetch_and_put-Found r a D w (rw missing at h))
  ]

  stays :
      (r : ImageRef) (a : Pull.RegistryAuth) (D : Str) (Ds : List Str) (w : Pull.World N)
      → Present store D w.disk
      → Found (Download.ensure_blobs client store r a Ds w).1 D
  stays r a D Ds w there hash =
      ensure_blobs-Keeps client (Present store D) store
        (λ digest bytes. put_blob-Present client.sha256_hex hex store digest bytes D hash)
        (λ image tag bytes. put_manifest-Present client.sha256_hex hex store image tag bytes D hash)
        r a Ds w there

  ensure_blobs-Found :
      (r : ImageRef) (a : Pull.RegistryAuth) (Ds : List Str) (w : Pull.World N)
      → (Download.ensure_blobs client store r a Ds w).0 ≡ ok tt
      → All (Found (Download.ensure_blobs client store r a Ds w).1) Ds
  unfolding Download.ensure_blobs
  ensure_blobs-Found r a [] w h = tt
  ensure_blobs-Found r a (D ∷ Ds) w h =
      let (u, e, h1, after) =
        >>=-ok (Download.ensure_blob client store r a D)
          (λ u. Download.ensure_blobs client store r a Ds) w h in
      let w1 = (Download.ensure_blob client store r a D w).1 in
      subst (λ (x : Result OciError (Unit {0}) × Pull.World N). All (Found x.1) (D ∷ Ds))
        (sym after)
        (stays r a D Ds w1 (ensure_blob-Found r a D w e), ensure_blobs-Found r a Ds w1 h1)

  -- What is found is not asked for again.
  ensure_blobs-idle :
      (r : ImageRef) (a : Pull.RegistryAuth) (Ds : List Str) (w : Pull.World N)
      → All (λ D. Present store D w.disk) Ds
      → Download.ensure_blobs client store r a Ds w ≡ (ok tt, w)
  unfolding Download.ensure_blobs Download.ensure_blob
  ensure_blobs-idle r a [] w h = refl
  ensure_blobs-idle r a (D ∷ Ds) w (here, rest) = rw here (ensure_blobs-idle r a Ds w rest)

  hashes-Present :
      (w : Pull.World N) (Ds : List Str)
      → All (λ D. IsHash (Store.hash_of D)) Ds
      → All (Found w) Ds
      → All (λ D. Present store D w.disk) Ds
  hashes-Present w [] hs fs = tt
  hashes-Present w (D ∷ Ds) (h, hs) (f, fs) = (f h, hashes-Present w Ds hs fs)

  -- If SHA-256 and the digests are in hexadecimal digits: once the layers have been fetched,
  -- fetching them again asks the registry for nothing and leaves the disk as it is.
  pub ensure_blobs_again :
      (r : ImageRef) (a : Pull.RegistryAuth) (Ds : List Str) (w : Pull.World N)
      → All (λ D. IsHash (Store.hash_of D)) Ds
      → (Download.ensure_blobs client store r a Ds w).0 ≡ ok tt
      → Download.ensure_blobs client store r a Ds (Download.ensure_blobs client store r a Ds w).1
        ≡ (ok tt, (Download.ensure_blobs client store r a Ds w).1)
  ensure_blobs_again r a Ds w hashes h =
      let w' = (Download.ensure_blobs client store r a Ds w).1 in
      ensure_blobs-idle r a Ds w' (hashes-Present w' Ds hashes (ensure_blobs-Found r a Ds w h))

  pull_ref-Found :
      (r : ImageRef) (w : Pull.World N) (m : Store.ImageManifest)
      → (Download.pull_ref client store r w).0 ≡ ok m
      → All (Found (Download.pull_ref client store r w).1) (m.config_digest ∷ m.layer_digests)
  unfolding Download.pull_ref
  pull_ref-Found r w m h =
      let (a, _, h1, after1) =
        >>=-ok (Auth.authenticate client r) (λ a. manifest a >>= ensured a) w h in
      let w1 = (Auth.authenticate client r w).1 in
      let (m', _, h2, after2) = >>=-ok (manifest a) (ensured a) w1 h1 in
      let w2 = (manifest a w1).1 in
      let (_, e3, h3, after3) = >>=-ok (config a m') (λ u. layers a m' >>= λ v. pure m') w2 h2 in
      let w3 = (config a m' w2).1 in
      let (_, e4, h4, after4) = >>=-ok (layers a m') (λ v. pure m') w3 h3 in
      let same : m' ≡ m = unok h4 in
      subst
        (λ (x : Result OciError Store.ImageManifest × Pull.World N).
          All (Found x.1) (m.config_digest ∷ m.layer_digests))
        (sym (after1 ∙ after2 ∙ after3 ∙ after4))
        (subst (λ m''. All (Found (layers a m' w3).1) (m''.config_digest ∷ m''.layer_digests)) same
          (
            stays r a m'.config_digest m'.layer_digests w3
                (ensure_blob-Found r a m'.config_digest w2 e3),
            ensure_blobs-Found r a m'.layer_digests w3 e4,
          ))
    where
      manifest : Pull.RegistryAuth → Exec (Pull.World N) OciError Store.ImageManifest
      manifest a = Download.pull_manifest client store r a

      config : Pull.RegistryAuth → Store.ImageManifest → Exec (Pull.World N) OciError (Unit {0})
      config a m' = Download.ensure_blob client store r a m'.config_digest

      layers : Pull.RegistryAuth → Store.ImageManifest → Exec (Pull.World N) OciError (Unit {0})
      layers a m' = Download.ensure_blobs client store r a m'.layer_digests

      ensured :
          Pull.RegistryAuth → Store.ImageManifest → Exec (Pull.World N) OciError Store.ImageManifest
      ensured a m' = config a m' >> (layers a m' >> pure m')

      unok :
          {m' : Store.ImageManifest}
          → Path (Result OciError Store.ImageManifest) (ok m') (ok m)
          → m' ≡ m
      unok e = cc

  -- If SHA-256 is written in hexadecimal digits: after a `pull` that returns a manifest, the
  -- store has the configuration and every layer of that manifest whose digest is in hexadecimal
  -- digits, whatever the registry answers and whatever was cached.
  pub pull_complete :
      (image : Str) (w : Pull.World N) (m : Store.ImageManifest)
      → (Download.pull client store image w).0 ≡ ok m
      → All
          (λ D.
            IsHash (Store.hash_of D) → Present store D (Download.pull client store image w).1.disk)
          (m.config_digest ∷ m.layer_digests)
  unfolding Download.pull
  pull_complete image w m h =
      let (_, _, h1, after) =
        >>=-ok
          (lift (
            map_err (Pull.http_failed client (codes "failed to create HTTP client: "))
              client.build))
          (λ u. Download.pull_ref client store (parse_image_ref image)) w h in
      subst
        (λ (x : Result OciError Store.ImageManifest × Pull.World N).
          All (Found x.1) (m.config_digest ∷ m.layer_digests))
        (sym after) (pull_ref-Found (parse_image_ref image) w m h1)
