-- ===== src/Registry/Parsing.antt =====
-- `parse_image_ref` (src/oci/registry.rs) on references in their full and their short forms.
use vm_rs.Prelude.{◌≡◌, refl, ap, ◌∙◌, true, false, ◌||◌, Option, none, ◌∷◌, ◌++◌}
use vm_rs.Prelude.Text.{Str, codes, str_eq, contains_char}
use vm_rs.Prelude.Split.{cut-none, cut-append, rsplit_once-none, rsplit_once-append}
use vm_rs.Registry

-- The reference that joins a registry, a repository and a tag by `/` and `:` is taken apart into
-- these three, with the repository in its full form for that registry, if there is no `@` in it,
-- the registry holds a dot or a colon and no slash, and the tag holds no colon.
pub parse_full :
    (registry repo tag : Str)
    → contains_char b'.' registry || contains_char b':' registry ≡ true
    → contains_char b'/' registry ≡ false
    → contains_char b':' tag ≡ false
    → contains_char b'@' (registry ++ b'/' ∷ (repo ++ b':' ∷ tag)) ≡ false
    → Registry.parse_image_ref (registry ++ b'/' ∷ (repo ++ b':' ∷ tag))
      ≡ record { registry = registry; repository = Registry.full_repo registry repo; tag = tag }
unfolding Registry.parse_image_ref
parse_full registry repo tag host one_segment plain no_digest =
    rw
      (
        cut-none b'@' (registry ++ b'/' ∷ (repo ++ b':' ∷ tag)) no_digest,
        cut-append b'/' registry (repo ++ b':' ∷ tag) one_segment,
        host,
        rsplit_once-append b':' repo tag plain,
      )
      refl

full_repo-short :
    (name : Str)
    → contains_char b'/' name ≡ false
    → Registry.full_repo (codes "registry-1.docker.io") name ≡ codes "library/" ++ name
unfolding Registry.full_repo str_eq
full_repo-short name h = simp h refl

-- A reference without `/`, `:` and `@` is the latest tag of an official image of Docker Hub.
pub parse_short :
    (name : Str)
    → contains_char b'/' name ≡ false
    → contains_char b':' name ≡ false
    → contains_char b'@' name ≡ false
    → Registry.parse_image_ref name ≡ record {
      registry = codes "registry-1.docker.io";
      repository = codes "library/" ++ name;
      tag = codes "latest";
    }
unfolding Registry.parse_image_ref
parse_short name one_segment no_tag no_digest =
    ap (λ (o : Option (Str × Str)). Registry.parse_name (Registry.without_digest name o))
      (cut-none b'@' name no_digest)
    ∙ ap (λ (o : Option (Str × Str)). Registry.parse_rest none (Registry.registry_of name o))
        (cut-none b'/' name one_segment)
    ∙ ap
        (λ (o : Option (Str × Str)).
          Registry.image_ref Registry.docker_hub (Registry.repo_and_tag name none o))
        (rsplit_once-none b':' name no_tag)
    ∙ ap
        (λ (repo : Str). record {
          registry = codes "registry-1.docker.io";
          repository = repo;
          tag = codes "latest";
        })
        (full_repo-short name one_segment)
