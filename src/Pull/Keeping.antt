-- ===== src/Pull/Keeping.antt =====
-- `pull` of src/oci/registry.rs: every property of the disk that the writes of the store keep, `pull` keeps.
use vm_rs.Prelude.{Option, none, some, List, [], ◌∷◌}
use vm_rs.Prelude.Tests.{keep-if}
use vm_rs.Prelude.Text.{Str, str_eq}
use vm_rs.Result.{Result, ok, err}
use vm_rs.Exec.{lift}
use vm_rs.Exec.Rules.{Keeps, >>=-Keeps}
use vm_rs.Disk.{Disk, Bytes}
use vm_rs.Registry.{
  OciError, ImageRef, parse_image_ref, docker_hub, into_token, http, auth, manifest_parse,
  manifest_list, blob, io,
}
use vm_rs.Store
use vm_rs.Pull
use vm_rs.Pull.Auth
use vm_rs.Pull.Platform
use vm_rs.Pull.Download

module _ {N : Type 0} (client : Pull.Client N) (J : Disk → Type 0) where
  -- A property of the disk, as one of the world.
  abbrev OnDisk : Pull.World N → Type 0
  OnDisk w = J w.disk

  fetch_manifest-Keeps :
      (r : ImageRef) (a : Pull.RegistryAuth) → Keeps OnDisk (Pull.fetch_manifest client r a)
  unfolding Pull.fetch_manifest
  fetch_manifest-Keeps r a =
      >>=-Keeps OnDisk (Pull.send client _ _ _) _ (λ w h. h)
        (λ resp. >>=-Keeps OnDisk (lift (Pull.for_status _ resp)) _ (λ w h. h) (λ checked w h. h))

  fetch_blob-Keeps :
      (r : ImageRef) (digest : Str) (a : Pull.RegistryAuth)
      → Keeps OnDisk (Pull.fetch_blob client r digest a)
  unfolding Pull.fetch_blob
  fetch_blob-Keeps r digest a =
      >>=-Keeps OnDisk (Pull.send client _ _ _) _ (λ w h. h)
        (λ resp. >>=-Keeps OnDisk (lift (Pull.for_status _ resp)) _ (λ w h. h) (λ checked w h. h))

  exchange-Keeps :
      (basic_auth : Str) (url : Option Str) → Keeps OnDisk (Auth.exchange client basic_auth url)
  unfolding Auth.exchange
  exchange-Keeps basic_auth none = λ w h. h
  exchange-Keeps basic_auth (some url) =
      >>=-Keeps OnDisk (Pull.send client _ _ _) _ (λ w h. h)
        (λ resp.
          >>=-Keeps OnDisk (lift (Pull.for_status _ resp)) _ (λ w h. h)
            (λ checked.
              >>=-Keeps OnDisk (lift (Auth.token_in client _ checked)) _ (λ w h. h)
                (λ token_resp. last (into_token token_resp))))
    where
      last : (token : Option Str) → Keeps OnDisk (Auth.token_or_basic client basic_auth token)
      last none w h = h
      last (some token) w h = h

  challenged-Keeps :
      (r : ImageRef) (basic_auth : Str) (header : Option (Result Str Str))
      → Keeps OnDisk (Auth.challenged client r basic_auth header)
  unfolding Auth.challenged
  challenged-Keeps r basic_auth none = λ w h. h
  challenged-Keeps r basic_auth (some (err e)) = λ w h. h
  challenged-Keeps r basic_auth (some (ok challenge)) = exchange-Keeps basic_auth _

  probe-Keeps : (r : ImageRef) (stored : Option Str) → Keeps OnDisk (Auth.probe client r stored)
  unfolding Auth.probe
  probe-Keeps r none = λ w h. h
  probe-Keeps r (some basic_auth) =
      >>=-Keeps OnDisk (Pull.send client _ _ _) _ (λ w h. h)
        (λ resp.
          keep-if (Keeps OnDisk) resp.unauthorized
            (challenged-Keeps r basic_auth resp.www_authenticate) (λ w h. h))

  docker_hub_token-Keeps : (r : ImageRef) → Keeps OnDisk (Auth.docker_hub_token client r)
  unfolding Auth.docker_hub_token
  docker_hub_token-Keeps r =
      >>=-Keeps OnDisk (Pull.send client _ _ _) _ (λ w h. h)
        (λ resp.
          >>=-Keeps OnDisk (lift (Pull.for_status _ resp)) _ (λ w h. h)
            (λ checked.
              >>=-Keeps OnDisk (lift (Auth.token_in client _ checked)) _ (λ w h. h)
                (λ token_resp. last (into_token token_resp))))
    where
      last : (token : Option Str) → Keeps OnDisk (Auth.require_token client token)
      last none w h = h
      last (some token) w h = h

  authenticate-Keeps : (r : ImageRef) → Keeps OnDisk (Auth.authenticate client r)
  unfolding Auth.authenticate
  authenticate-Keeps r =
      keep-if (Keeps OnDisk) (str_eq r.registry docker_hub) (docker_hub_token-Keeps r)
        (probe-Keeps r _)

  -- What the store's own writes keep, `pull` keeps.
  module _ (store : Store.ImageStore)
      (put_blob-keeps : (digest : Str) (bytes : Bytes)
        → Keeps J (Store.put_blob client.sha256_hex store digest bytes))
      (put_manifest-keeps : (image tag : Str) (bytes : Bytes)
        → Keeps J (Store.put_manifest store image tag bytes)) where
    ensure_blob-Keeps :
        (r : ImageRef) (a : Pull.RegistryAuth) (digest : Str)
        → Keeps OnDisk (Download.ensure_blob client store r a digest)
    unfolding Download.ensure_blob Download.fetch_and_put
    ensure_blob-Keeps r a digest w h =
        keep-if (λ (after : Result OciError (Unit {0}) × Pull.World N). OnDisk after.1)
          (Store.has_blob store digest w.disk) h
          (>>=-Keeps OnDisk (Pull.fetch_blob client r digest a) _ (fetch_blob-Keeps r digest a)
            (λ bytes.
              >>=-Keeps OnDisk (Pull.on_store (Store.put_blob client.sha256_hex store digest bytes))
                _ (λ w h. put_blob-keeps digest bytes w.disk h) (λ u w h. h))
            w h)

    pub ensure_blobs-Keeps :
        (r : ImageRef) (a : Pull.RegistryAuth) (digests : List Str)
        → Keeps OnDisk (Download.ensure_blobs client store r a digests)
    unfolding Download.ensure_blobs
    ensure_blobs-Keeps r a [] = λ w h. h
    ensure_blobs-Keeps r a (digest ∷ digests) =
        >>=-Keeps OnDisk (Download.ensure_blob client store r a digest) _
          (ensure_blob-Keeps r a digest) (λ u. ensure_blobs-Keeps r a digests)

    fetch_platform-Keeps :
        (r : ImageRef) (a : Pull.RegistryAuth) (bytes : Bytes)
        → Keeps OnDisk (Download.fetch_platform client store r a bytes)
    unfolding Download.fetch_platform
    fetch_platform-Keeps r a bytes =
        >>=-Keeps OnDisk (lift (Platform.resolve_platform_manifest client bytes)) _ (λ w h. h)
          (λ digest.
            >>=-Keeps OnDisk (Pull.fetch_manifest client (record r { tag = digest }) a) _
              (fetch_manifest-Keeps (record r { tag = digest }) a)
              (λ platform_bytes.
                >>=-Keeps OnDisk
                  (Pull.on_store (Store.put_manifest store r.repository r.tag platform_bytes)) _
                  (λ w h. put_manifest-keeps r.repository r.tag platform_bytes w.disk h)
                  (λ u w h. h)))

    with_manifest-Keeps :
        (r : ImageRef) (a : Pull.RegistryAuth) (bytes : Bytes)
        (parsed : Result OciError Store.ImageManifest)
        → Keeps OnDisk (Download.with_manifest client store r a bytes parsed)
    with_manifest-Keeps r a bytes (ok m) =
        >>=-Keeps OnDisk (Pull.on_store (Store.put_manifest store r.repository r.tag bytes)) _
          (λ w h. put_manifest-keeps r.repository r.tag bytes w.disk h) (λ u w h. h)
    with_manifest-Keeps r a bytes (err manifest_list) = fetch_platform-Keeps r a bytes
    with_manifest-Keeps r a bytes (err (http e)) = λ w h. h
    with_manifest-Keeps r a bytes (err (auth e)) = λ w h. h
    with_manifest-Keeps r a bytes (err (manifest_parse e)) = λ w h. h
    with_manifest-Keeps r a bytes (err (blob e)) = λ w h. h
    with_manifest-Keeps r a bytes (err (io e)) = λ w h. h

    pull_ref-Keeps : (r : ImageRef) → Keeps OnDisk (Download.pull_ref client store r)
    unfolding Download.pull_ref Download.pull_manifest
    pull_ref-Keeps r = >>=-Keeps OnDisk (Auth.authenticate client r) _ (authenticate-Keeps r) (λ a.
        >>=-Keeps OnDisk (Download.pull_manifest client store r a) _
          (>>=-Keeps OnDisk (Pull.fetch_manifest client r a) _ (fetch_manifest-Keeps r a)
            (λ bytes. with_manifest-Keeps r a bytes _))
          (λ m.
            >>=-Keeps OnDisk (Download.ensure_blob client store r a m.config_digest) _
              (ensure_blob-Keeps r a m.config_digest)
              (λ u.
                >>=-Keeps OnDisk (Download.ensure_blobs client store r a m.layer_digests) _
                  (ensure_blobs-Keeps r a m.layer_digests) (λ v w h. h))))

    pub pull-Keeps : (image : Str) → Keeps OnDisk (Download.pull client store image)
    unfolding Download.pull
    pull-Keeps image =
        >>=-Keeps OnDisk (lift _) _ (λ w h. h) (λ u. pull_ref-Keeps (parse_image_ref image))
