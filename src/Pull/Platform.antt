-- ===== src/Pull/Platform.antt =====
-- src/oci/registry.rs: `resolve_platform_manifest` picks the first entry for Linux on the target's architecture.
use vm_rs.Prelude.{
  ℕ, ap, arith, ◌≡◌, refl, inl, inr, Bool, true, false, Option, none, some, List, [], ◌∷◌, ◌++◌,
  ◌&&◌,
}
use vm_rs.Prelude.Tests.{if◌then◌else◌, Bool-cases}
use vm_rs.Prelude.Lists.{All}
use vm_rs.Prelude.Text.{Str, codes, str_eq, str_eq_iff, str_eq_refl}
use vm_rs.Result.{Result, ok, err, map_err, ◌>>=◌, Result-cases}
use vm_rs.Disk.{Bytes}
use vm_rs.Registry.{OciError, manifest_parse}
use vm_rs.Pull.{Client, ManifestListEntry, ManifestPlatform}

unfoldable pub target_arch : Bool → Str
target_arch true = codes "arm64"
target_arch false = codes "amd64"

unfoldable pub or_blank : Option Str → Str
or_blank none = []
or_blank (some text) = text

unfoldable pub is_target : Str → Option ManifestPlatform → Bool
unfolding or_blank str_eq
is_target arch none = false
is_target arch (some platform) =
    str_eq (or_blank platform.os) (codes "linux") && str_eq (or_blank platform.architecture) arch

unfoldable pub find_platform : Str → List ManifestListEntry → Result OciError Str
unfolding is_target
find_platform arch [] =
    err (manifest_parse (codes "no linux/" ++ arch ++ codes " manifest found in manifest list"))
find_platform arch (entry ∷ entries) =
    let later = find_platform arch entries in
    if is_target arch entry.platform then ok entry.digest else later

module _ {N : Type 0} (client : Client N) where
  unfoldable pub invalid_list : Str → OciError
  invalid_list e = manifest_parse (codes "invalid manifest list JSON: " ++ e)

  unfoldable pub resolve_platform_manifest : Bytes → Result OciError Str
  unfolding find_platform target_arch invalid_list
  resolve_platform_manifest bytes = do
    entries ← map_err invalid_list (client.manifest_list bytes)
    find_platform (target_arch client.is_aarch64) entries

-- The platform of an entry is Linux on an architecture.
abbrev pub IsFor : Str → Option ManifestPlatform → Type 0
IsFor arch o =
    (p : ManifestPlatform) × (o ≡ some p)
    × (p.os ≡ some (codes "linux"))
    × (p.architecture ≡ some arch)

or_blank-some : (o : Option Str) (c : ℕ) (s : Str) → or_blank o ≡ c ∷ s → o ≡ some (c ∷ s)
unfolding or_blank
or_blank-some none c s h = cc
or_blank-some (some t) c s h = ap some h

is_target-IsFor :
    (o : Option ManifestPlatform) (c : ℕ) (s : Str) → is_target (c ∷ s) o ≡ true → IsFor (c ∷ s) o
unfolding is_target
is_target-IsFor none c s h = cc
is_target-IsFor (some p) c s h = (
  p,
  refl,
  or_blank-some p.os _ _ ((str_eq_iff (or_blank p.os) (codes "linux")).0 (ground arith)),
  or_blank-some p.architecture c s
      ((str_eq_iff (or_blank p.architecture) (c ∷ s)).0 (ground arith)),
)

not-is_target :
    (o : Option ManifestPlatform) (arch : Str) → is_target arch o ≡ false → ¬ IsFor arch o
unfolding is_target or_blank
not-is_target o arch h (p, e, linux, same) =
    ground (arith, str_eq_refl (codes "linux"), str_eq_refl arch)

-- Every entry of the list before the chosen one is for something else.
abbrev pub FirstTarget : Str → List ManifestListEntry → Str → Type 0
FirstTarget arch entries digest =
    (before : List ManifestListEntry) × (entry : ManifestListEntry) × (after : List
      ManifestListEntry)
    × (entries ≡ before ++ entry ∷ after)
    × All (λ (e : ManifestListEntry). ¬ IsFor arch e.platform) before
    × IsFor arch entry.platform
    × (entry.digest ≡ digest)

find_platform-first :
    (c : ℕ) (s : Str) (entries : List ManifestListEntry) (digest : Str)
    → find_platform (c ∷ s) entries ≡ ok digest
    → FirstTarget (c ∷ s) entries digest
unfolding find_platform
find_platform-first c s [] digest h = absurd (clash h)
  where
    clash : {x : OciError} → Path (Result OciError Str) (err x) (ok digest) → ⊥
    clash e = cc
find_platform-first c s (entry ∷ entries) digest h =
    elim (Bool-cases (is_target (c ∷ s) entry.platform)) [
      | inl yes' ↦ (
        [],
        entry,
        entries,
        refl,
        tt,
        is_target-IsFor entry.platform c s yes',
        unok (rw yes' at h),
      )
      | inr no' ↦
          let (before, chosen, after, split, others, target, e) =
            find_platform-first c s entries digest (rw no' at h) in
          (
            entry ∷ before,
            chosen,
            after,
            rw split refl,
            (not-is_target entry.platform (c ∷ s) no', others),
            target,
            e,
          )
    ]
  where
    unok : {d : Str} → Path (Result OciError Str) (ok d) (ok digest) → d ≡ digest
    unok e = cc

-- The digest that is chosen from a manifest list is that of an entry for Linux and the
-- architecture of the build, and no entry before it is for that platform.
pub resolve_platform_manifest-first :
    {N : Type 0} (client : Client N) (bytes : Bytes) (digest : Str)
    → resolve_platform_manifest client bytes ≡ ok digest
    → (entries : List ManifestListEntry) × (client.manifest_list bytes ≡ ok entries)
      × FirstTarget (if client.is_aarch64 then codes "arm64" else codes "amd64") entries digest
unfolding resolve_platform_manifest target_arch
resolve_platform_manifest-first client bytes digest h =
    elim (Result-cases (client.manifest_list bytes)) [
      | inl (entries, e) ↦ (entries, e, chosen client.is_aarch64 entries (rw e at h))
      | inr (x, e) ↦ absurd (clash (rw e at h))
    ]
  where
    clash : {x : OciError} → Path (Result OciError Str) (err x) (ok digest) → ⊥
    clash e = cc

    chosen :
        (aarch64 : Bool) (entries : List ManifestListEntry)
        → find_platform (target_arch aarch64) entries ≡ ok digest
        → FirstTarget (if aarch64 then codes "arm64" else codes "amd64") entries digest
    chosen true entries h = find_platform-first _ _ entries digest h
    chosen false entries h = find_platform-first _ _ entries digest h
