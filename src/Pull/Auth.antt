-- ===== src/Pull/Auth.antt =====
-- src/oci/registry.rs: `authenticate`, with the credentials of the Docker configuration and the
-- challenge of a registry.
use vm_rs.Prelude.{Option, none, some, List, [], ◌∷◌, ◌++◌}
use vm_rs.Prelude.Tests.{if◌then◌else◌}
use vm_rs.Prelude.Text.{Str, codes, str_eq, trim, strip_prefix, is_empty}
use vm_rs.Prelude.Split.{split_on, trim_matches}
use vm_rs.Prelude.Map.{Map, lookup}
use vm_rs.Result.{Result, ok, err, IoError, map_err}
use vm_rs.Exec.{Exec, pure, raise, lift, ◌>>=◌}
use vm_rs.Paths.{join}
use vm_rs.Registry.{OciError, ImageRef, TokenResponse, auth, into_token, docker_hub}
use vm_rs.Pull.{
  Client, World, Response, RegistryAuth, DockerAuthEntry, anonymous, bearer, basic, send,
  for_status, http_failed,
}

-- `get(..).or_else(|| ..)`
abbrev pub or_entry : Option DockerAuthEntry → Option DockerAuthEntry → Option DockerAuthEntry
or_entry (some entry) other = some entry
or_entry none other = other

unfoldable pub auth_entry : Str → Map DockerAuthEntry → Option DockerAuthEntry
unfolding lookup
auth_entry registry auths = or_entry (lookup registry auths) (
    or_entry (lookup (codes "https://" ++ registry) auths) (
      or_entry (lookup (codes "https://" ++ registry ++ codes "/v2/") auths)
        (lookup (codes "https://" ++ registry ++ codes "/v1/") auths)))

unfoldable pub nonempty : Option Str → Option Str
unfolding is_empty
nonempty none = none
nonempty (some text) = if is_empty text then none else some text

unfoldable pub auth_of : Option DockerAuthEntry → Option Str
unfolding nonempty
auth_of none = none
auth_of (some entry) = nonempty entry.auth

unfoldable pub auth_in : Str → Option (Map DockerAuthEntry) → Option Str
unfolding auth_entry auth_of
auth_in registry none = none
auth_in registry (some auths) = auth_of (auth_entry registry auths)

unfoldable pub auth_in_config : Str → Result Str (Option (Map DockerAuthEntry)) → Option Str
unfolding auth_in
auth_in_config registry (err e) = none
auth_in_config registry (ok auths) = auth_in registry auths

-- The realm and the service of a challenge, as its parts are read one after another.
unfoldable pub read_part :
    Option Str → Option Str → Option Str × Option Str → Option Str × Option Str
unfolding trim_matches
read_part (some val) service' found = (some (trim_matches b'"' val), found.1)
read_part none (some val) found = (found.0, some (trim_matches b'"' val))
read_part none none found = found

unfoldable pub read_parts : List Str → Option Str × Option Str → Option Str × Option Str
unfolding read_part trim strip_prefix
read_parts [] found = found
read_parts (part ∷ parts) found = read_parts parts (
    read_part (strip_prefix (trim part) (codes "realm="))
      (strip_prefix (trim part) (codes "service=")) found)

unfoldable pub with_service : Str → Option Str → Str
with_service url none = url
with_service url (some svc) = url ++ codes "&service=" ++ svc

unfoldable pub token_url_of : Str → Option Str × Option Str → Option Str
unfolding with_service
token_url_of repository (none, service') = none
token_url_of repository (some realm, service') =
    some
      (with_service (realm ++ codes "?scope=repository:" ++ repository ++ codes ":pull") service')

unfoldable pub token_url_in : Str → Option Str → Option Str
unfolding token_url_of read_parts split_on
token_url_in repository none = none
token_url_in repository (some challenge) =
    token_url_of repository (read_parts (split_on b',' challenge) (none, none))

unfoldable pub parse_www_authenticate : Str → Str → Option Str
unfolding token_url_in strip_prefix
parse_www_authenticate header repository =
    token_url_in repository (strip_prefix header (codes "Bearer "))

module _ {N : Type 0} (client : Client N) where
  unfoldable pub auth_in_file : Str → Result IoError Str → Option Str
  unfolding auth_in_config
  auth_in_file registry (err e) = none
  auth_in_file registry (ok content) = auth_in_config registry (client.docker_config content)

  unfoldable pub auth_at_home : Str → Result Str Str → Option Str
  unfolding auth_in_file
  auth_at_home registry (err e) = none
  auth_at_home registry (ok home) =
      auth_in_file registry (client.read_to_string (join home (codes ".docker/config.json")))

  unfoldable pub read_docker_config_auth : Str → Option Str
  unfolding auth_at_home
  read_docker_config_auth registry = auth_at_home registry client.home

  abbrev pub auth_failed : Str → Str → OciError
  auth_failed what e = auth (what ++ e)

  -- `resp.json()`: the body, decoded.
  unfoldable pub token_in : (Str → OciError) → Response → Result OciError TokenResponse
  token_in failed resp = elim resp.body [
    | ok bytes ↦ map_err failed (client.token_response bytes)
    | err e ↦ err (failed e)
  ]

  abbrev pub require_token : Option Str → Exec (World N) OciError RegistryAuth
  require_token (some token) = pure (bearer token)
  require_token none = raise (auth (codes "no token in auth response"))

  unfoldable pub docker_hub_token : ImageRef → Exec (World N) OciError RegistryAuth
  unfolding for_status token_in into_token
  docker_hub_token image_ref = do
    resp ←
        send client (http_failed client (codes "auth request failed: "))
          (codes "https://auth.docker.io/token?service=registry.docker.io&scope=repository:"
            ++ image_ref.repository
            ++ codes ":pull")
          []
    checked ← lift (for_status (auth_failed (codes "auth failed: ")) resp)
    token_resp ← lift (token_in (auth_failed (codes "invalid auth response: ")) checked)
    require_token (into_token token_resp)

  -- Without a token in the answer the credentials themselves are used.
  abbrev pub token_or_basic : Str → Option Str → Exec (World N) OciError RegistryAuth
  token_or_basic basic_auth (some token) = pure (bearer token)
  token_or_basic basic_auth none = pure (basic basic_auth)

  unfoldable pub exchange : Str → Option Str → Exec (World N) OciError RegistryAuth
  unfolding for_status token_in into_token
  exchange basic_auth none = pure (basic basic_auth)
  exchange basic_auth (some token_url) = do
    resp ←
        send client (auth_failed (codes "token exchange failed: ")) token_url
          ((codes "Authorization", codes "Basic " ++ basic_auth) ∷ [])
    checked ← lift (for_status (auth_failed (codes "token exchange failed: ")) resp)
    token_resp ← lift (token_in (auth_failed (codes "invalid token response: ")) checked)
    token_or_basic basic_auth (into_token token_resp)

  unfoldable pub challenged :
      ImageRef → Str → Option (Result Str Str) → Exec (World N) OciError RegistryAuth
  unfolding exchange parse_www_authenticate
  challenged image_ref basic_auth none = pure (basic basic_auth)
  challenged image_ref basic_auth (some (err e)) = pure (basic basic_auth)
  challenged image_ref basic_auth (some (ok challenge)) =
      exchange basic_auth (parse_www_authenticate challenge image_ref.repository)

  unfoldable pub probe : ImageRef → Option Str → Exec (World N) OciError RegistryAuth
  unfolding challenged
  probe image_ref none = pure anonymous
  probe image_ref (some basic_auth) = do
    resp ←
        send client (http_failed client (codes "registry probe failed: "))
          (codes "https://" ++ image_ref.registry ++ codes "/v2/") []
    (if resp.unauthorized
        then challenged image_ref basic_auth resp.www_authenticate
        else pure (basic basic_auth))

  unfoldable pub authenticate : ImageRef → Exec (World N) OciError RegistryAuth
  unfolding docker_hub_token probe read_docker_config_auth str_eq
  authenticate image_ref =
      if str_eq image_ref.registry docker_hub
      then docker_hub_token image_ref
      else probe image_ref (read_docker_config_auth image_ref.registry)
