-- ===== src/Store/Blobs.antt =====
-- The blobs of src/oci/store.rs as a map from hashes to bytes, which `put_blob` adds to and `get_blob` reads.
use vm_rs.Prelude.{
  ◌≡◌, ◌≢◌, refl, sym, ap, ◌∙◌, ◌⊎◌, inl, inr, true, false, Option, some, [], ◌∷◌, ◌++◌, arith,
  append_assoc,
}
use mathlib.Core.List.{append_cancel_left}
use vm_rs.Prelude.Tests.{Bool-cases, if◌then◌else◌}
use vm_rs.Prelude.Lists.{all}
use vm_rs.Prelude.Text.{
  Str, codes, str_eq, str_eq_iff, str_eq_refl, is_ascii_hexdigit, is_ascii_digit, contains_char,
  starts_with,
}
use vm_rs.Prelude.Map.{Map, lookup}
use vm_rs.Result.{Result, ok, err, IoError, map_err}
use vm_rs.Exec.{resume_with}
use vm_rs.Paths.{
  no_slash-relative, join, join_relative, with_slash, with_slash-append, join-extends,
  with_extension, with_extension_of_plain,
}
use vm_rs.Disk
use vm_rs.Disk.Writing.{Replaced, write_atomically-Replaced, str_eq-apart}
use vm_rs.Registry.{OciError, io}
use vm_rs.Store

-- A hash as SHA-256 writes it.
abbrev pub IsHash : Str → Type 0
IsHash q = all is_ascii_hexdigit q ≡ true

hash-no_dot : (q : Str) → IsHash q → contains_char b'.' q ≡ false
unfolding all contains_char is_ascii_hexdigit is_ascii_digit
hash-no_dot [] h = refl
hash-no_dot (c ∷ q) h = ground (arith, hash-no_dot q)

hash-no_slash : (q : Str) → IsHash q → contains_char b'/' q ≡ false
unfolding all contains_char is_ascii_hexdigit is_ascii_digit
hash-no_slash [] h = refl
hash-no_slash (c ∷ q) h = ground (arith, hash-no_slash q)

-- The blobs as a map from hashes to bytes.
abbrev pub contents : Store.ImageStore → Disk.Disk → Str → Option Disk.Bytes
contents s d q = lookup (Store.blob_path s (codes "sha256:" ++ q)) d.files

abbrev pub with_blob : Str → Disk.Bytes → (Str → Option Disk.Bytes) → Str → Option Disk.Bytes
with_blob hash bytes stored q = if str_eq hash q then some bytes else stored q

abbrev pub blob_file : Store.ImageStore → Str → Str
blob_file s q = Store.blob_dir s ++ b'/' ∷ q

blob_dir_slash :
    (s : Store.ImageStore) → with_slash (Store.blob_dir s) ≡ Store.blob_dir s ++ codes "/"
unfolding join starts_with vm_rs.Paths.ends_in_slash
blob_dir_slash s = with_slash-append (with_slash s.root) b'b' (codes "lobs/sha256") refl

pub blob_path_of :
    (s : Store.ImageStore) (digest : Str)
    → IsHash (Store.hash_of digest)
    → Store.blob_path s digest ≡ blob_file s (Store.hash_of digest)
unfolding Store.blob_path
blob_path_of s digest h =
    join_relative (Store.blob_dir s) (Store.hash_of digest)
      (no_slash-relative (Store.hash_of digest) (hash-no_slash (Store.hash_of digest) h))
    ∙ ap (λ b. b ++ Store.hash_of digest) (blob_dir_slash s)
    ∙ append_assoc (Store.blob_dir s) (codes "/") (Store.hash_of digest)

pub blob_path_of_hash :
    (s : Store.ImageStore) (q : Str)
    → IsHash q
    → Store.blob_path s (codes "sha256:" ++ q) ≡ blob_file s q
unfolding Store.hash_of
blob_path_of_hash s q h = blob_path_of s (codes "sha256:" ++ q) h

-- Two blobs stand at the same path only if they have the same hash.
blob_file-eq :
    (s : Store.ImageStore) (q r : Str) → str_eq (blob_file s q) (blob_file s r) ≡ str_eq q r
blob_file-eq s q r = elim (Bool-cases (str_eq q r)) [
  | inl same ↦ rw (same, (str_eq_iff q r).0 same, str_eq_refl) refl
  | inr other ↦ rw other (
      str_eq-apart (blob_file s q) (blob_file s r) (λ e.
        let tails : b'/' ∷ q ≡ b'/' ∷ r =
          append_cancel_left (Store.blob_dir s) (b'/' ∷ q) (b'/' ∷ r) e in
        cc (str_eq_refl q, tails, other)))
]

tmp_file :
    (s : Store.ImageStore) (q : Str)
    → IsHash q
    → with_extension (blob_file s q) (codes "tmp") ≡ blob_file s (q ++ codes ".tmp")
tmp_file s q h =
    with_extension_of_plain (Store.blob_dir s) q (codes "tmp") (hash-no_dot q h) (hash-no_slash q h)

dot-in : (q rest : Str) → contains_char b'.' (q ++ b'.' ∷ rest) ≡ true
unfolding contains_char
dot-in [] rest = refl
dot-in (c ∷ q) rest = ground (arith, dot-in q rest)

-- The temporary file of a blob is no blob.
tmp-apart :
    (s : Store.ImageStore) (q r : Str)
    → IsHash q
    → IsHash r
    → with_extension (blob_file s q) (codes "tmp") ≢ blob_file s r
tmp-apart s q r hq hr e =
    let tails : b'/' ∷ (q ++ codes ".tmp") ≡ b'/' ∷ r =
      append_cancel_left (Store.blob_dir s) (b'/' ∷ (q ++ codes ".tmp")) (b'/' ∷ r)
        (sym (tmp_file s q hq) ∙ e) in
    cc (dot-in q (codes "tmp"), tails, hash-no_dot r hr)

module _ (sha256_hex : Disk.Bytes → Str) where
  abbrev pub Adds :
      Store.ImageStore → Str → Disk.Bytes → Disk.Disk → Result OciError Str × Disk.Disk → Type 0
  Adds s digest bytes d after =
      ((after.0 ≡ ok (Store.blob_path s digest))
        × (sha256_hex bytes ≡ Store.hash_of digest)
        × ((q : Str)
            → IsHash q
            → contents s after.1 q ≡ with_blob (Store.hash_of digest) bytes (contents s d) q))
      ⊎ ((e : OciError) × (after.0 ≡ err e)
          × ((q : Str) → IsHash q → contents s after.1 q ≡ contents s d q))

  at_hash :
      (s : Store.ImageStore) (q : Str) (files : Map Disk.Bytes)
      → IsHash q
      → lookup (Store.blob_path s (codes "sha256:" ++ q)) files ≡ lookup (blob_file s q) files
  at_hash s q files h = ap (λ path. lookup path files) (blob_path_of_hash s q h)

  -- If SHA-256 is written in hexadecimal digits: seen as a map from hashes to bytes, the store
  -- after `put_blob` has the bytes under the hash of the digest and is otherwise as before, the
  -- call returns the path of the blob, and the hash of the bytes is the digest's; or the call
  -- returns an error and the map is as before, whichever of its calls fails and however much
  -- was written by then.
  pub put_blob-refines :
      ((bytes : Disk.Bytes) → IsHash (sha256_hex bytes))
      → (s : Store.ImageStore) (digest : Str) (bytes : Disk.Bytes) (d : Disk.Disk)
      → Adds s digest bytes d (Store.put_blob sha256_hex s digest bytes d)
  unfolding Store.put_blob
  put_blob-refines hex s digest bytes d =
      elim (Bool-cases (str_eq (sha256_hex bytes) (Store.hash_of digest))) [
        | inr other ↦ rw other (inr (_, refl, λ q h. refl))
        | inl same ↦ rw same (
            let verified : sha256_hex bytes ≡ Store.hash_of digest =
              (str_eq_iff (sha256_hex bytes) (Store.hash_of digest)).0 same in
            written verified (rw (sym verified) (hex bytes))
              (write_atomically-Replaced (Store.blob_path s digest) bytes d))
      ]
    where
      after : Result IoError (Unit {0}) × Disk.Disk
      after = Disk.write_atomically (Store.blob_path s digest) bytes d

      apart :
          IsHash (Store.hash_of digest)
          → (q : Str) → IsHash q
          → with_extension (Store.blob_path s digest) (codes "tmp") ≢ blob_file s q
      apart hd q h = rw (blob_path_of s digest hd) (tmp-apart s (Store.hash_of digest) q hd h)

      written :
          sha256_hex bytes ≡ Store.hash_of digest
          → IsHash (Store.hash_of digest)
          → Replaced
              (Store.blob_path s digest)
              (with_extension (Store.blob_path s digest) (codes "tmp"))
              bytes
              d.files
              after
          → Adds s digest bytes d (
              resume_with {E = OciError}
                (map_err io after.0)
                (λ u d'. (ok (Store.blob_path s digest), d'))
                after.1)
      written verified hd (inl (e, now)) = rw e (
          inl (
            refl,
            verified,
            λ q h.
                at_hash s q after.1.files h
                ∙ now (blob_file s q) (apart hd q h)
                ∙ rw
                    (
                      blob_path_of s digest hd,
                      blob_file-eq s (Store.hash_of digest) q,
                      at_hash s q d.files h,
                    )
                    refl,
          ))
      written verified hd (inr (x, e, kept)) = rw e (
          inr (
            io x,
            refl,
            λ q h.
                at_hash s q after.1.files h
                ∙ kept (blob_file s q) (apart hd q h)
                ∙ sym (at_hash s q d.files h),
          ))
