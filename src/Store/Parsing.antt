-- ===== src/Store/Parsing.antt =====
-- src/oci/store.rs: which manifests `parse_manifest` accepts, and what it makes of them.
use vm_rs.Prelude.{
  ℕ, arith, ◌≡◌, refl, sym, ap, ◌∙◌, ◌↔◌, inl, inr, ◌⊎◌, false, Option, none, some, List, [], ◌∷◌,
  map,
}
use vm_rs.Prelude.Tests.{Bool-cases, Option-cases}
use vm_rs.Prelude.Text.{Str, codes}
use vm_rs.Prelude.Find.{Contains, not_contains_iff}
use vm_rs.Result.{Result, ok, err, Result-cases}
use vm_rs.Registry.{OciError}
use vm_rs.Store
use vm_rs.Store.Manifests

layer_digests_of-some :
    (ls : List Store.RawDescriptor) (ds : List Str)
    → map (λ l. l.digest) ls ≡ map some ds
    → Manifests.layer_digests_of ls ≡ ok ds
unfolding Manifests.layer_digests_of Manifests.or_missing
layer_digests_of-some [] [] h = refl
layer_digests_of-some [] (d ∷ ds) h = cc
layer_digests_of-some (l ∷ ls) [] h = cc
layer_digests_of-some (l ∷ ls) (d ∷ ds) h =
    let first : l.digest ≡ some d = cc in
    let rest : map (λ l. l.digest) ls ≡ map some ds = cc in
    rw (first, layer_digests_of-some ls ds rest) refl

layer_digests_of-ok :
    (ls : List Store.RawDescriptor) (ds : List Str)
    → Manifests.layer_digests_of ls ≡ ok ds
    → map (λ l. l.digest) ls ≡ map some ds
unfolding Manifests.layer_digests_of Manifests.or_missing
layer_digests_of-ok [] ds h = let e : [] ≡ ds = cc in rw (sym e) refl
layer_digests_of-ok (l ∷ ls) ds h = elim (Option-cases l.digest) [
  | inl missing ↦ absurd (clash (rw missing at h))
  | inr (d, there) ↦ elim (Result-cases (Manifests.layer_digests_of ls)) [
    | inr (e, bad) ↦ absurd (clash (rw (there, bad) at h))
    | inl (rest, good) ↦
        let e : d ∷ rest ≡ ds = unok (rw (there, good) at h) in
        rw (sym e, there, layer_digests_of-ok ls rest good) refl
  ]
]
  where
    clash : {x : OciError} → Path (Result OciError (List Str)) (err x) (ok ds) → ⊥
    clash e = cc

    unok : {a : List Str} → Path (Result OciError (List Str)) (ok a) (ok ds) → a ≡ ds
    unok e = cc

-- What the tests of `manifest_of` say when all of them pass.
abbrev Passes : Store.RawManifest → Store.ImageManifest → Type 0
Passes raw m =
    (Manifests.is_list (Manifests.media_type_of raw) ≡ false)
    × (Manifests.config_digest_of raw.config ≡ some m.config_digest)
    × ((ls : List Store.RawDescriptor) × (raw.layers ≡ some ls)
        × (map (λ l. l.digest) ls ≡ map some m.layer_digests))
    × (Manifests.media_type_of raw ≡ m.media_type)

-- The media type that a decoded manifest gives, or none and the empty one.
abbrev pub HasMediaType : Store.RawManifest → Str → Type 0
HasMediaType raw media_type =
    (raw.media_type ≡ some media_type) ⊎ ((raw.media_type ≡ none) × (media_type ≡ []))

-- What the decoded manifest holds when it is accepted.
abbrev pub Describes : Store.RawManifest → Store.ImageManifest → Type 0
Describes raw m =
    HasMediaType raw m.media_type
    × (¬ Contains m.media_type (codes "manifest.list"))
    × (¬ Contains m.media_type (codes "index"))
    × ((c : Store.RawDescriptor) × (raw.config ≡ some c) × (c.digest ≡ some m.config_digest))
    × ((ls : List Store.RawDescriptor) × (raw.layers ≡ some ls)
        × (map (λ l. l.digest) ls ≡ map some m.layer_digests))

is_list_iff :
    (media_type : Str)
    → (Manifests.is_list media_type ≡ false)
      ↔ ((¬ Contains media_type (codes "manifest.list")) × (¬ Contains media_type (codes "index")))
unfolding Manifests.is_list
is_list_iff s = (
  λ h. (
    (not_contains_iff s (codes "manifest.list")).0 (ground arith),
    (not_contains_iff s (codes "index")).0 (ground arith),
  ),
  λ (no_list, no_index).
      rw
        (
          (not_contains_iff s (codes "manifest.list")).1 no_list,
          (not_contains_iff s (codes "index")).1 no_index,
        )
        refl,
)

config_digest_of_iff :
    (config : Option Store.RawDescriptor) (digest : Str)
    → (Manifests.config_digest_of config ≡ some digest)
      ↔ ((c : Store.RawDescriptor) × (config ≡ some c) × (c.digest ≡ some digest))
unfolding Manifests.config_digest_of
config_digest_of_iff none digest = (λ h. cc, λ (c, e, d). cc)
config_digest_of_iff (some c) digest = (λ h. (c, refl, h), λ (c', e, d). cc)

media_type_of-none :
    (raw : Store.RawManifest) → raw.media_type ≡ none → Manifests.media_type_of raw ≡ []
unfolding Manifests.media_type_of Manifests.schema_or
media_type_of-none raw e = elim (Option-cases raw.schema_version) [
  | inl e' ↦ rw (e, e') refl
  | inr (version, e') ↦ rw (e, e') refl
]

media_type_of-some :
    (raw : Store.RawManifest) (media_type : Str)
    → raw.media_type ≡ some media_type
    → Manifests.media_type_of raw ≡ media_type
unfolding Manifests.media_type_of
media_type_of-some raw media_type e = rw e refl

media_type_of_iff :
    (raw : Store.RawManifest) (media_type : Str)
    → (Manifests.media_type_of raw ≡ media_type) ↔ HasMediaType raw media_type
media_type_of_iff raw media_type = (there raw media_type, back raw media_type)
  where
    there :
        (raw : Store.RawManifest) (media_type : Str)
        → Manifests.media_type_of raw ≡ media_type
        → HasMediaType raw media_type
    there raw media_type h = elim (Option-cases raw.media_type) [
      | inl e ↦ inr (e, sym h ∙ media_type_of-none raw e)
      | inr (s, e) ↦ inl (e ∙ ap some (sym (media_type_of-some raw s e) ∙ h))
    ]

    back :
        (raw : Store.RawManifest) (media_type : Str)
        → HasMediaType raw media_type
        → Manifests.media_type_of raw ≡ media_type
    back raw media_type (inl e) = media_type_of-some raw media_type e
    back raw media_type (inr (e, empty)) = media_type_of-none raw e ∙ sym empty

Passes-iff : (raw : Store.RawManifest) (m : Store.ImageManifest) → Passes raw m ↔ Describes raw m
Passes-iff raw m = (
  λ (single, config, layers, media).
      let (no_list, no_index) = (is_list_iff m.media_type).0 (rw media at single) in
      (
        (media_type_of_iff raw m.media_type).0 media,
        no_list,
        no_index,
        (config_digest_of_iff raw.config m.config_digest).0 config,
        layers,
      ),
  λ (typed, no_list, no_index, config, layers).
      let media = (media_type_of_iff raw m.media_type).1 typed in
      (
        rw media ((is_list_iff m.media_type).1 (no_list, no_index)),
        (config_digest_of_iff raw.config m.config_digest).1 config,
        layers,
        media,
      ),
)

manifest_of_described :
    (raw : Store.RawManifest) (m : Store.ImageManifest)
    → Passes raw m
    → Manifests.manifest_of raw ≡ ok m
unfolding Manifests.manifest_of Manifests.or_missing
manifest_of_described raw m (single, config, (ls, layers, digests), media) =
    rw (single, config, layers, layer_digests_of-some ls m.layer_digests digests, media) refl

manifest_of-ok :
    (raw : Store.RawManifest) (m : Store.ImageManifest)
    → Manifests.manifest_of raw ≡ ok m
    → Passes raw m
unfolding Manifests.manifest_of Manifests.or_missing
manifest_of-ok raw m h = elim (Bool-cases (Manifests.is_list (Manifests.media_type_of raw))) [
  | inl many ↦ absurd (clash (rw many at h))
  | inr single ↦ elim (Option-cases (Manifests.config_digest_of raw.config)) [
    | inl e ↦ absurd (clash (rw (single, e) at h))
    | inr (config, e1) ↦ elim (Option-cases raw.layers) [
      | inl e ↦ absurd (clash (rw (single, e1, e) at h))
      | inr (ls, e2) ↦ elim (Result-cases (Manifests.layer_digests_of ls)) [
        | inr (x, e) ↦ absurd (clash (rw (single, e1, e2, e) at h))
        | inl (ds, e3) ↦
            let made = unok (rw (single, e1, e2, e3) at h) in
            (
              single,
              e1 ∙ ap (λ x. some x.config_digest) made,
              (ls, e2, layer_digests_of-ok ls ds e3 ∙ ap (λ x. map some x.layer_digests) made),
              ap (λ x. x.media_type) made,
            )
      ]
    ]
  ]
]
  where
    clash : {x : OciError} → Path (Result OciError Store.ImageManifest) (err x) (ok m) → ⊥
    clash e = cc

    unok :
        {a : Store.ImageManifest} → Path (Result OciError Store.ImageManifest) (ok a) (ok m) → a ≡ m
    unok e = cc

-- A manifest is accepted exactly if it decodes, its media type, which is empty where none is
-- given, contains neither `manifest.list` nor `index`, and its configuration and every one of its
-- layers have a digest; the result is those digests, the layers in their order, and the media
-- type.
pub parse_manifest_iff :
    (json : Store.Json) (bytes : List ℕ) (m : Store.ImageManifest)
    → (Manifests.parse_manifest json bytes ≡ ok m)
      ↔ ((raw : Store.RawManifest) × (json.manifest bytes ≡ ok raw) × Describes raw m)
unfolding Manifests.parse_manifest
parse_manifest_iff json bytes m = (
  λ h. elim (Result-cases (json.manifest bytes)) [
    | inl (raw, e) ↦ (raw, e, (Passes-iff raw m).0 (manifest_of-ok raw m (rw e at h)))
    | inr (x, e) ↦ absurd (clash (rw e at h))
  ],
  λ (raw, e, described). rw e (manifest_of_described raw m ((Passes-iff raw m).1 described)),
)
  where
    clash : {x : OciError} → Path (Result OciError Store.ImageManifest) (err x) (ok m) → ⊥
    clash e = cc
