-- ===== src/Store/Manifests.antt =====
-- src/oci/store.rs: `parse_manifest` and `parse_config` of what the JSON decoder returns.
use vm_rs.Prelude.{ℕ, Bool, ◌||◌, Option, none, some, List, [], ◌∷◌, ◌++◌, ◌-◌, ◌^◌}
use vm_rs.Prelude.Text.{Str, codes, contains, parse_unsigned}
use vm_rs.Prelude.Split.{split_on}
use vm_rs.Result.{Result, ok, err, map_err, ◌>>=◌, ◌>>◌, refuse_if}
use vm_rs.Disk.{Bytes}
use vm_rs.Registry.{OciError, manifest_parse, manifest_list}
use vm_rs.Store.{Json, ImageManifest, ImageConfig, RawManifest, RawDescriptor, RawContainerConfig}

-- `media_type.as_deref().or_else(|| schema_version.map(|_| "")).unwrap_or("")`
unfoldable pub schema_or : Option ℕ → Str
schema_or (some version) = []
schema_or none = []

unfoldable pub media_type_of : RawManifest → Str
unfolding schema_or
media_type_of raw = elim raw.media_type [
  | some media_type ↦ media_type
  | none ↦ schema_or raw.schema_version
]

unfoldable pub is_list : Str → Bool
unfolding contains
is_list media_type =
    contains media_type (codes "manifest.list") || contains media_type (codes "index")

unfoldable pub or_missing : {A : Type 0} → Str → Option A → Result OciError A
or_missing what none = err (manifest_parse what)
or_missing what (some a) = ok a

-- `config.and_then(|c| c.digest)`
unfoldable pub config_digest_of : Option RawDescriptor → Option Str
config_digest_of none = none
config_digest_of (some c) = c.digest

-- `map(..).collect::<Result<_, _>>()`
unfoldable pub layer_digests_of : List RawDescriptor → Result OciError (List Str)
unfolding or_missing
layer_digests_of [] = ok []
layer_digests_of (l ∷ ls) = do
  digest ← or_missing (codes "missing layer digest") l.digest
  digests ← layer_digests_of ls
  ok (digest ∷ digests)

unfoldable pub manifest_of : RawManifest → Result OciError ImageManifest
unfolding media_type_of is_list config_digest_of layer_digests_of
manifest_of raw = do
  refuse_if (is_list (media_type_of raw)) manifest_list
  config_digest ← or_missing (codes "missing config digest") (config_digest_of raw.config)
  layers ← or_missing (codes "missing layers") raw.layers
  layer_digests ← layer_digests_of layers
  ok (record {
    config_digest = config_digest;
    layer_digests = layer_digests;
    media_type = media_type_of raw;
  })

unfoldable pub invalid : Str → Str → OciError
invalid what e = manifest_parse (what ++ e)

unfoldable pub parse_manifest : Json → Bytes → Result OciError ImageManifest
unfolding manifest_of invalid
parse_manifest json bytes = do
  raw ← map_err (invalid (codes "invalid JSON: ")) (json.manifest bytes)
  manifest_of raw

-- The port before the protocol.
unfoldable pub port_text : List Str → Str
port_text [] = []
port_text (piece ∷ pieces) = piece

unfoldable pub port_of : Json → Str → Result OciError ℕ
unfolding port_text split_on parse_unsigned or_missing
port_of json key =
    or_missing
      (codes "invalid exposed port '"
        ++ key
        ++ codes "': "
        ++ json.number_error (port_text (split_on b'/' key)))
      (parse_unsigned (2 ^ 16 - 1) (port_text (split_on b'/' key)))

unfoldable pub ports_of : Json → List Str → Result OciError (List ℕ)
unfolding port_of
ports_of json [] = ok []
ports_of json (key ∷ keys) = do
  port ← port_of json key
  ports ← ports_of json keys
  ok (port ∷ ports)

unfoldable pub exposed_ports_of : Json → Option (List Str) → Result OciError (List ℕ)
unfolding ports_of
exposed_ports_of json none = ok []
exposed_ports_of json (some keys) = ports_of json keys

-- `unwrap_or_default`
unfoldable pub or_empty : {A : Type 0} → Option (List A) → List A
or_empty none = []
or_empty (some xs) = xs

unfoldable pub container_config : Option RawContainerConfig → RawContainerConfig
container_config (some cfg) = cfg
container_config none = record {
  entrypoint = none;
  cmd = none;
  env = none;
  working_dir = none;
  user = none;
  exposed_ports = none;
}

unfoldable pub config_of : Json → RawContainerConfig → Result OciError ImageConfig
unfolding exposed_ports_of or_empty
config_of json cfg = do
  exposed_ports ← exposed_ports_of json cfg.exposed_ports
  ok (record {
    entrypoint = or_empty cfg.entrypoint;
    cmd = or_empty cfg.cmd;
    env = or_empty cfg.env;
    working_dir = or_empty cfg.working_dir;
    user = or_empty cfg.user;
    exposed_ports = exposed_ports;
  })

unfoldable pub parse_config : Json → Bytes → Result OciError ImageConfig
unfolding config_of container_config invalid
parse_config json bytes = do
  root ← map_err (invalid (codes "invalid config JSON: ")) (json.image_root bytes)
  config_of json (container_config root.config)
