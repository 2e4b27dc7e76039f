-- ===== src/Registry.antt =====
-- src/oci/registry.rs: the errors, tokens and image references.
pub mod Parsing
use vm_rs.Prelude.{ℕ, Bool, true, false, ◌&&◌, ◌||◌, Option, none, some, List, [], ◌∷◌, ◌++◌}
use vm_rs.Prelude.Tests.{◌==◌, not, if◌then◌else◌}
use vm_rs.Prelude.Text.{Str, codes, str_eq, contains_char}
use vm_rs.Result.{IoError}
use vm_rs.Prelude.Split.{cut, rsplit_once}

pub record ImageRef : Type 0 where
  pub registry : Str
  pub repository : Str
  pub tag : Str

pub data OciError : Type 0 where
  http : Str → OciError
  auth : Str → OciError
  manifest_parse : Str → OciError
  manifest_list : OciError
  blob : Str → OciError
  io : IoError → OciError

pub record TokenResponse : Type 0 where
  pub token : Option Str
  pub access_token : Option Str

unfoldable pub into_token : TokenResponse → Option Str
into_token r = elim r.token [ some token ↦ some token | none ↦ r.access_token ]

abbrev pub docker_hub : Str
docker_hub = codes "registry-1.docker.io"

-- The image without its digest, and the digest.
unfoldable pub without_digest : Str → Option (Str × Str) → Str × Option Str
without_digest image none = (image, none)
without_digest image (some (name, digest)) = (name, some digest)

-- The registry and the rest, where the first segment of several looks like a host.
unfoldable pub registry_of : Str → Option (Str × Str) → Str × Str
registry_of name none = (docker_hub, name)
registry_of name (some (first_part, rest)) =
    if contains_char b'.' first_part || contains_char b':' first_part
    then (first_part, rest)
    else (docker_hub, name)

unfoldable pub repo_and_tag : Str → Option Str → Option (Str × Str) → Str × Str
repo_and_tag rest (some digest) split = (rest, digest)
repo_and_tag rest none (some (repo, tag)) = (repo, tag)
repo_and_tag rest none none = (rest, codes "latest")

-- Official images of Docker Hub stand under `library/`.
unfoldable pub full_repo : Str → Str → Str
full_repo registry repo =
    if str_eq registry docker_hub && not (contains_char b'/' repo)
    then codes "library/" ++ repo
    else repo

unfoldable pub image_ref : Str → Str × Str → ImageRef
unfolding full_repo
image_ref registry (repo, tag) = record {
  registry = registry;
  repository = full_repo registry repo;
  tag = tag;
}

unfoldable pub parse_rest : Option Str → Str × Str → ImageRef
unfolding image_ref repo_and_tag rsplit_once
parse_rest digest (registry, rest) =
    image_ref registry (repo_and_tag rest digest (rsplit_once b':' rest))

unfoldable pub parse_name : Str × Option Str → ImageRef
unfolding parse_rest registry_of cut
parse_name (name, digest) = parse_rest digest (registry_of name (cut b'/' name))

unfoldable pub parse_image_ref : Str → ImageRef
unfolding parse_name without_digest cut
parse_image_ref image = parse_name (without_digest image (cut b'@' image))
