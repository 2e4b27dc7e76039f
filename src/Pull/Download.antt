-- ===== src/Pull/Download.antt =====
-- `pull` of src/oci/registry.rs: the manifest, the configuration and the layers that the store lacks. Log lines are
-- left out.
use vm_rs.Prelude.{List, [], ◌∷◌}
use vm_rs.Prelude.Tests.{if◌then◌else◌}
use vm_rs.Prelude.Text.{Str, codes}
use vm_rs.Result.{Result, ok, err, map_err}
use vm_rs.Exec.{Exec, pure, raise, lift, ◌>>=◌, ◌>>◌}
use vm_rs.Disk.{Bytes}
use vm_rs.Registry.{OciError, ImageRef, manifest_list, parse_image_ref}
use vm_rs.Store.{ImageStore, ImageManifest, has_blob, put_blob, put_manifest}
use vm_rs.Store.Manifests.{parse_manifest}
use vm_rs.Pull.{Client, World, RegistryAuth, on_store, http_failed, fetch_manifest, fetch_blob}
use vm_rs.Pull.Auth.{authenticate}
use vm_rs.Pull.Platform.{resolve_platform_manifest}

module _ {N : Type 0} (client : Client N) (store : ImageStore) where
  -- A blob that the store has is not asked for.
  unfoldable pub fetch_and_put : ImageRef → RegistryAuth → Str → Exec (World N) OciError (Unit {0})
  unfolding fetch_blob put_blob
  fetch_and_put image_ref auth digest = do
    bytes ← fetch_blob client image_ref digest auth
    on_store (put_blob client.sha256_hex store digest bytes)
    pure tt

  unfoldable pub ensure_blob : ImageRef → RegistryAuth → Str → Exec (World N) OciError (Unit {0})
  unfolding has_blob fetch_and_put
  ensure_blob image_ref auth digest w =
      if has_blob store digest w.disk then (ok tt, w) else fetch_and_put image_ref auth digest w

  unfoldable pub ensure_blobs :
      ImageRef → RegistryAuth → List Str → Exec (World N) OciError (Unit {0})
  unfolding ensure_blob
  ensure_blobs image_ref auth [] = pure tt
  ensure_blobs image_ref auth (digest ∷ digests) = do
    ensure_blob image_ref auth digest
    ensure_blobs image_ref auth digests

  -- The manifest of the platform, stored under the tag that was asked for.
  unfoldable pub fetch_platform :
      ImageRef → RegistryAuth → Bytes → Exec (World N) OciError ImageManifest
  unfolding resolve_platform_manifest fetch_manifest put_manifest parse_manifest
  fetch_platform image_ref auth manifest_bytes = do
    platform_digest ← lift (resolve_platform_manifest client manifest_bytes)
    platform_bytes ← fetch_manifest client (record image_ref { tag = platform_digest }) auth
    on_store (put_manifest store image_ref.repository image_ref.tag platform_bytes)
    lift (parse_manifest client.json platform_bytes)

  abbrev pub with_manifest :
      ImageRef
      → RegistryAuth
      → Bytes
      → Result OciError ImageManifest
      → Exec (World N) OciError ImageManifest
  with_manifest image_ref auth manifest_bytes (ok m) = do
    on_store (put_manifest store image_ref.repository image_ref.tag manifest_bytes)
    pure m
  with_manifest image_ref auth manifest_bytes (err manifest_list) =
      fetch_platform image_ref auth manifest_bytes
  with_manifest image_ref auth manifest_bytes (err e) = raise e

  unfoldable pub pull_manifest : ImageRef → RegistryAuth → Exec (World N) OciError ImageManifest
  unfolding fetch_manifest put_manifest parse_manifest fetch_platform
  pull_manifest image_ref auth = do
    manifest_bytes ← fetch_manifest client image_ref auth
    with_manifest image_ref auth manifest_bytes (parse_manifest client.json manifest_bytes)

  unfoldable pub pull_ref : ImageRef → Exec (World N) OciError ImageManifest
  unfolding authenticate pull_manifest ensure_blob ensure_blobs
  pull_ref image_ref = do
    auth ← authenticate client image_ref
    manifest ← pull_manifest image_ref auth
    ensure_blob image_ref auth manifest.config_digest
    ensure_blobs image_ref auth manifest.layer_digests
    pure manifest

  unfoldable pub pull : Str → Exec (World N) OciError ImageManifest
  unfolding pull_ref parse_image_ref
  pull image = do
    lift (map_err (http_failed client (codes "failed to create HTTP client: ")) client.build)
    pull_ref (parse_image_ref image)
