-- ===== src/Store/Addressed.antt =====
-- src/oci/store.rs: every blob of the store has its name as its hash, whatever the store's calls do and wherever
-- they fail, and a blob that was put is the blob that is read.
use vm_rs.Prelude.{
  ℕ, ◌≡◌, ◌≢◌, refl, sym, ap, ◌∙◌, ◌⊎◌, inl, inr, Bool, true, false, Option, none, some, List, [],
  ◌∷◌, ◌++◌, arith, append_assoc,
}
use mathlib.Core.List.{append_cancel_left}
use vm_rs.Prelude.Tests.{Bool-cases, ◌==◌}
use vm_rs.Prelude.Text.{Str, codes, str_eq, str_eq_iff, contains_char, starts_with}
use vm_rs.Prelude.Split.{replace_char}
use vm_rs.Prelude.Map.{Map, lookup}
use vm_rs.Result.{Result, IoError, Result-cases}
use vm_rs.Paths.{no_slash-relative, join, with_slash, join-extends}
use vm_rs.Disk
use vm_rs.Disk.Writing.{write-SameBut, create_dir_all-Keeps}
use vm_rs.Store
use vm_rs.Store.Blobs.{IsHash, contents, put_blob-refines, blob_file, blob_path_of_hash}

module _ (sha256_hex : Disk.Bytes → Str) where
  abbrev pub IsAddressed : Store.ImageStore → Disk.Disk → Type 0
  IsAddressed s d =
      (q : Str) (bytes : Disk.Bytes) → IsHash q → contents s d q ≡ some bytes → sha256_hex bytes ≡ q

  pub put_blob-IsAddressed :
      ((bytes : Disk.Bytes) → IsHash (sha256_hex bytes))
      → (s : Store.ImageStore) (digest : Str) (bytes : Disk.Bytes) (d : Disk.Disk) → IsAddressed s d
      → IsAddressed s (Store.put_blob sha256_hex s digest bytes d).1
  put_blob-IsAddressed hex s digest bytes d inv q held h there =
      elim (put_blob-refines sha256_hex hex s digest bytes d) [
        | inr (e, refused, same) ↦ inv q held h (sym (same q h) ∙ there)
        | inl (e, verified, now) ↦ elim (Bool-cases (str_eq (Store.hash_of digest) q)) [
          | inr other ↦ inv q held h (sym (now q h ∙ rw other refl) ∙ there)
          | inl this ↦
              let found : some bytes ≡ some held = sym (now q h ∙ rw this refl) ∙ there in
              cc (verified, found, (str_eq_iff (Store.hash_of digest) q).0 this)
        ]
      ]

contains_char-replace_char :
    (c : ℕ) (by s : Str)
    → contains_char c by ≡ false
    → contains_char c (replace_char c by s) ≡ false
unfolding replace_char contains_char
contains_char-replace_char c by [] h = refl
contains_char-replace_char c by (d ∷ s) h = elim (Bool-cases (d == c)) [
  | inl same ↦ rw same (
      vm_rs.Prelude.Split.contains_char-append c by (replace_char c by s) h
        (contains_char-replace_char c by s h))
  | inr other ↦ rw other (ground (arith, contains_char-replace_char c by s h))
]

contains_char-replace_other :
    (c d : ℕ) (by s : Str)
    → contains_char c by ≡ false
    → contains_char c s ≡ false
    → contains_char c (replace_char d by s) ≡ false
unfolding replace_char contains_char
contains_char-replace_other c d by [] hb h = refl
contains_char-replace_other c d by (x ∷ s) hb h = elim (Bool-cases (x == d)) [
  | inl same ↦ rw same (
      vm_rs.Prelude.Split.contains_char-append c by (replace_char d by s) hb
        (contains_char-replace_other c d by s hb (ground arith)))
  | inr other ↦ rw other (ground (arith, contains_char-replace_other c d by s hb))
]

-- A sanitized name has no separator in it.
pub sanitize_name-no_slash : (s : Str) → contains_char b'/' (Store.sanitize_name s) ≡ false
unfolding Store.sanitize_name contains_char
sanitize_name-no_slash s =
    contains_char-replace_other b'/' b':' (codes "_colon_") (replace_char b'/' (codes "_slash_") s)
      refl (contains_char-replace_char b'/' (codes "_slash_") s refl)

json_relative :
    (s : Str) → contains_char b'/' s ≡ false → starts_with (s ++ codes ".json") (codes "/") ≡ false
unfolding contains_char starts_with
json_relative [] h = refl
json_relative (c ∷ s) h = ground arith

manifest_path-extends :
    (s : Store.ImageStore) (image tag : Str)
    → (rest : Str) × (Store.manifest_path s image tag
        ≡ with_slash s.root ++ (codes "manifests" ++ rest))
unfolding Store.manifest_path Store.image_dir join starts_with
manifest_path-extends s image tag =
    let (r2, e2) =
      join-extends (Store.image_dir s image) (Store.sanitize_name tag ++ codes ".json")
        (json_relative (Store.sanitize_name tag) (sanitize_name-no_slash tag)) in
    let (r1, e1) =
      join-extends (Store.manifests_dir s) (Store.sanitize_name image)
        (no_slash-relative (Store.sanitize_name image) (sanitize_name-no_slash image)) in
    (
      r1 ++ r2,
      e2
          ∙ ap (λ b. b ++ r2) e1
          ∙ ap (λ b. b ++ r2) (append_assoc (with_slash s.root) (codes "manifests") r1)
          ∙ append_assoc (with_slash s.root) (codes "manifests" ++ r1) r2,
    )

manifest_path-apart :
    (s : Store.ImageStore) (image tag q : Str) → Store.manifest_path s image tag ≢ blob_file s q
unfolding join starts_with
manifest_path-apart s image tag q e =
    let (rest, there) = manifest_path-extends s image tag in
    let tails : codes "manifests" ++ rest ≡ codes "blobs/sha256" ++ b'/' ∷ q =
      append_cancel_left (with_slash s.root) (codes "manifests" ++ rest)
        (codes "blobs/sha256" ++ b'/' ∷ q)
        (sym there ∙ e ∙ append_assoc (with_slash s.root) (codes "blobs/sha256") (b'/' ∷ q)) in
    head_apart tails
  where
    first : Str → ℕ
    first [] = 0
    first (c ∷ t) = c

    head_apart : {a b : Str} → b'm' ∷ a ≡ b'b' ∷ b → ⊥
    head_apart same = absurd (omega (arith, ap first same))

pub put_manifest-contents :
    (s : Store.ImageStore) (image tag : Str) (bytes : Disk.Bytes) (d : Disk.Disk) (q : Str)
    → IsHash q
    → contents s (Store.put_manifest s image tag bytes d).1 q ≡ contents s d q
unfolding Store.put_manifest
put_manifest-contents s image tag bytes d q h = elim (Result-cases made.0) [
  | inl (u, e) ↦ rw e (
      at_file (Disk.write path bytes made.1).1.files
      ∙ write-SameBut path bytes made.1 (blob_file s q) (manifest_path-apart s image tag q)
      ∙ ap (lookup (blob_file s q)) (create_dir_all-Keeps (Store.image_dir s image) d)
      ∙ sym (at_file d.files))
  | inr (x, e) ↦ rw e (
      ap (lookup (Store.blob_path s (codes "sha256:" ++ q)))
        (create_dir_all-Keeps (Store.image_dir s image) d))
]
  where
    path : Str
    path = Store.manifest_path s image tag

    made : Result IoError (Unit {0}) × Disk.Disk
    made = Disk.create_dir_all (Store.image_dir s image) d

    at_file :
        (files : Map Disk.Bytes)
        → lookup (Store.blob_path s (codes "sha256:" ++ q)) files ≡ lookup (blob_file s q) files
    at_file files = ap (λ p. lookup p files) (blob_path_of_hash s q h)

pub put_manifest-IsAddressed :
    (sha256_hex : Disk.Bytes → Str) (s : Store.ImageStore) (image tag : Str) (bytes : Disk.Bytes)
    (d : Disk.Disk)
    → IsAddressed sha256_hex s d
    → IsAddressed sha256_hex s (Store.put_manifest s image tag bytes d).1
put_manifest-IsAddressed sha256_hex s image tag bytes d inv q held h there =
    inv q held h (sym (put_manifest-contents s image tag bytes d q h) ∙ there)
