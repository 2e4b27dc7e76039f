-- ===== src/Pull.antt =====
-- src/oci/registry.rs: requests to a registry, over an HTTP client and a host that are parameters, and
-- `pull`, which puts what the registry answers into the store.
pub mod Auth
pub mod Download
pub mod Platform
pub mod Keeping
pub mod Completeness
use vm_rs.Prelude.{ℕ, Bool, true, false, Option, none, some, List, [], ◌∷◌, ◌++◌}
use vm_rs.Prelude.Text.{Str, codes}
use vm_rs.Result.{Result, ok, err, IoError, map_err}
use vm_rs.Exec.{Exec, pure, raise, lift, ◌>>=◌, ◌>>◌}
use vm_rs.Disk.{Disk, Bytes}
use vm_rs.Registry.{OciError, ImageRef, TokenResponse, http}
use vm_rs.Store.{Json}

pub data RegistryAuth : Type 0 where
  anonymous : RegistryAuth
  bearer : Str → RegistryAuth
  basic : Str → RegistryAuth

pub record ManifestPlatform : Type 0 where
  pub os : Option Str
  pub architecture : Option Str

pub record ManifestListEntry : Type 0 where
  pub digest : Str
  pub platform : Option ManifestPlatform

pub record DockerAuthEntry : Type 0 where
  pub auth : Option Str

-- A response: the text of `error_for_status`, the status 401, the header `www-authenticate` with its
-- text, if it has one, and the body.
pub record Response : Type 0 where
  pub status_error : Option Str
  pub unauthorized : Bool
  pub www_authenticate : Option (Result Str Str)
  pub body : Result Str Bytes

-- The client, the decoders and the host. `N` is what the registry and the network keep between requests.
pub record Client (N : Type 0) : Type 0 where
  pub send : (url : Str) (headers : List (Str × Str)) → N → Result Str Response × N
  pub json : Json
  pub token_response : Bytes → Result Str TokenResponse
  pub manifest_list : Bytes → Result Str (List ManifestListEntry)
  pub docker_config : Str → Result Str (Option (List (Str × DockerAuthEntry)))
  pub home : Result Str Str
  pub read_to_string : Str → Result IoError Str
  pub is_aarch64 : Bool
  pub build : Result Str (Unit {0})
  pub sha256_hex : Bytes → Str

pub record World (N : Type 0) : Type 0 where
  pub net : N
  pub disk : Disk

-- A call of the store.
abbrev pub on_store : {N A : Type 0} → Exec Disk OciError A → Exec (World N) OciError A
on_store call w = let after = call w.disk in (after.0, record w { disk = after.1 })

unfoldable pub format_auth_header : RegistryAuth → Option Str
format_auth_header anonymous = none
format_auth_header (bearer token) = some (codes "Bearer " ++ token)
format_auth_header (basic token) = some (codes "Basic " ++ token)

unfoldable pub auth_headers : Option Str → List (Str × Str)
auth_headers none = []
auth_headers (some header) = (codes "Authorization", header) ∷ []

unfoldable pub for_status : (Str → OciError) → Response → Result OciError Response
for_status failed resp = elim resp.status_error [ none ↦ ok resp | some e ↦ err (failed e) ]

module _ {N : Type 0} (client : Client N) where
  abbrev pub send : (Str → OciError) → Str → List (Str × Str) → Exec (World N) OciError Response
  send failed url headers w =
      let after = client.send url headers w.net in
      (map_err failed after.0, record w { net = after.1 })

  abbrev pub http_failed : Str → Str → OciError
  http_failed what e = http (what ++ e)

  unfoldable pub fetch_manifest : ImageRef → RegistryAuth → Exec (World N) OciError Bytes
  unfolding format_auth_header auth_headers for_status
  fetch_manifest image_ref auth = do
    resp ←
        send (http_failed (codes "manifest fetch failed: "))
          (codes "https://"
            ++ image_ref.registry
            ++ codes "/v2/"
            ++ image_ref.repository
            ++ codes "/manifests/"
            ++ image_ref.tag)
          ((
            codes "Accept",
            codes
                "application/vnd.docker.distribution.manifest.v2+json, application/vnd.oci.image.manifest.v1+json, application/vnd.docker.distribution.manifest.list.v2+json, application/vnd.oci.image.index.v1+json",
          )
            ∷ auth_headers (format_auth_header auth))
    checked ← lift (for_status (http_failed (codes "manifest fetch failed: ")) resp)
    lift (map_err (http_failed (codes "failed to read manifest: ")) checked.body)

  unfoldable pub fetch_blob : ImageRef → Str → RegistryAuth → Exec (World N) OciError Bytes
  unfolding format_auth_header auth_headers for_status
  fetch_blob image_ref digest auth = do
    resp ←
        send (http_failed (codes "blob fetch failed: "))
          (codes "https://"
            ++ image_ref.registry
            ++ codes "/v2/"
            ++ image_ref.repository
            ++ codes "/blobs/"
            ++ digest)
          (auth_headers (format_auth_header auth))
    checked ← lift (for_status (http_failed (codes "blob fetch failed: ")) resp)
    lift (map_err (http_failed (codes "failed to read blob: ")) checked.body)
