-- ===== src/Clone/Sizes.antt =====
-- src/vm/disk.rs: a clone has the size of its base.
use vm_rs.Prelude.{
  ◌⊎◌, ℕ, ◌≡◌, ◌≢◌, refl, sym, ap, ◌∙◌, inl, inr, Bool, true, false, Option, none, some,
}
use mathlib.Core.Path.{subst}
use vm_rs.Prelude.Tests.{Bool-cases, ◌==◌, ==_iff, if◌then◌else◌}
use vm_rs.Prelude.Lists.{length}
use vm_rs.Prelude.Text.{Str}
use vm_rs.Prelude.Map.{lookup}
use vm_rs.Result.{Result, ok, err, IoError, VmError, Result-cases}
use vm_rs.Exec.{pure}
use vm_rs.Exec.Rules.{>>=-ok}
use vm_rs.Paths.{parent}
use vm_rs.Disk
use vm_rs.Disk.Writing.{read-Keeps, read-ok, write-ok, write-SameBut}
use vm_rs.Clone

-- A file of the size, or a directory for which the file system reports it.
abbrev pub HasSize : Str → Disk.Disk → ℕ → Type 0
HasSize path d n =
    ((bytes : Disk.Bytes) × (lookup path d.files ≡ some bytes) × (length bytes ≡ n))
    ⊎ ((lookup path d.files ≡ none) × (Disk.is_dir path d ≡ true) × (d.dir_len path ≡ n))

-- Both are there, and of one size.
abbrev pub SameSize : Str → Str → Disk.Disk → Type 0
SameSize base target d = (n : ℕ) × HasSize base d n × HasSize target d n

metadata_len-ok :
    (path : Str) (d : Disk.Disk) (n : ℕ) → (Disk.metadata_len path d).0 ≡ ok n → HasSize path d n
unfolding Disk.metadata_len Disk.attempt Disk.fault_or Disk.used Disk.length_of Disk.dir_length
    Disk.is_dir
metadata_len-ok path d n h = go (Disk.next_fault d.faults) h
  where
    found :
        (o : Option Disk.Bytes) (b : Bool)
        → lookup path d.files ≡ o
        → Disk.is_dir path d ≡ b
        → Disk.length_of o (Disk.dir_length b (d.dir_len path)) ≡ ok n
        → HasSize path d n
    found none true e e' h' = inr (e, e', cc)
    found none false e e' h' = cc
    found (some bytes) b e e' h' = inl (bytes, e, cc)

    go :
        (fault : Option Disk.Fault)
        → (Disk.fault_or
            (λ d'. (
              Disk.length_of
                  (lookup path d'.files)
                  (Disk.dir_length (Disk.is_dir path d') (d'.dir_len path)),
              d',
            ))
            fault
            (Disk.used d)).0
          ≡ ok n
        → HasSize path d n
    go none e = found (lookup path d.files) (Disk.is_dir path d) refl refl e
    go (some f) e = cc

-- To ask for the length of one path leaves the sizes of all.
metadata_len-HasSize :
    (asked path : Str) (d : Disk.Disk) (n : ℕ)
    → HasSize path d n
    → HasSize path (Disk.metadata_len asked d).1 n
unfolding Disk.metadata_len Disk.attempt Disk.fault_or Disk.used Disk.is_dir
metadata_len-HasSize asked path d n h = go (Disk.next_fault d.faults)
  where
    go :
        (fault : Option Disk.Fault)
        → HasSize path
            (Disk.fault_or
              (λ d'. (
                Disk.length_of
                    (lookup asked d'.files)
                    (Disk.dir_length (Disk.is_dir asked d') (d'.dir_len asked)),
                d',
              ))
              fault
              (Disk.used d)).1
            n
    go none = h
    go (some f) = h

copy-SameSize :
    (base target : Str) (d : Disk.Disk)
    → target ≢ base
    → (Disk.copy base target d).0 ≡ ok tt
    → SameSize base target (Disk.copy base target d).1
unfolding Disk.copy
copy-SameSize base target d apart h =
    let (bytes, e1, h1, after) = >>=-ok (Disk.read base) (λ bytes. Disk.write target bytes) d h in
    let d1 = (Disk.read base d).1 in
    subst (λ (x : Result IoError (Unit {0}) × Disk.Disk). SameSize base target x.1) (sym after)
      (
        length bytes,
        inl (
          bytes,
          write-SameBut target bytes d1 base apart
              ∙ ap (lookup base) (read-Keeps base d)
              ∙ read-ok base d e1,
          refl,
        ),
        inl (bytes, write-ok target bytes d1 h1, refl),
      )

-- A `cp` that succeeds has copied the base and left it.
pub record Copies (programs : Clone.Programs) : Type 0 where
  pub copied :
      (base target : Str) (d : Disk.Disk)
      → (programs.cp base target d).0 ≡ ok true
      → SameSize base target (programs.cp base target d).1

module _ (programs : Clone.Programs) (copies : Copies programs) where
  reflink_or_copy-SameSize :
      (base target : Str) (d : Disk.Disk)
      → target ≢ base
      → (Clone.reflink_or_copy programs base target d).0 ≡ ok tt
      → SameSize base target (Clone.reflink_or_copy programs base target d).1
  unfolding Clone.reflink_or_copy
  reflink_or_copy-SameSize base target d apart h =
      let (b, e, h1, after) =
        >>=-ok (programs.cp base target)
          (λ (b : Bool). if b then pure tt else Disk.copy base target) d h in
      let d1 = (programs.cp base target d).1 in
      subst (λ (x : Result IoError (Unit {0}) × Disk.Disk). SameSize base target x.1) (sym after)
        (elim (Bool-cases b) [
          | inl cloned ↦ rw cloned (copies.copied base target d (rw cloned at e))
          | inr refused ↦ rw refused (copy-SameSize base target d1 apart (rw refused at h1))
        ])

  -- The comparison answers `true` only for files of one size.
  compare_sizes-true :
      (base target : Str) (d : Disk.Disk)
      → (Clone.compare_sizes programs base target d).0 ≡ ok true
      → SameSize base target (Clone.compare_sizes programs base target d).1
  unfolding Clone.compare_sizes
  compare_sizes-true base target d h =
      go (Disk.metadata_len base d).0 (Disk.metadata_len target d1).0 refl refl h
    where
      clash : Path (Result IoError Bool) (ok false) (ok true) → ⊥
      clash e = cc

      d1 : Disk.Disk
      d1 = (Disk.metadata_len base d).1

      d2 : Disk.Disk
      d2 = (Disk.metadata_len target d1).1

      go :
          (b t : Result IoError ℕ)
          → (Disk.metadata_len base d).0 ≡ b
          → (Disk.metadata_len target d1).0 ≡ t
          → (Clone.same_size programs target b t d2).0 ≡ ok true
          → SameSize base target (Clone.same_size programs target b t d2).1
      go (ok n) (ok m) eb et h' = elim (Bool-cases (n == m)) [
        | inr other ↦
            let (_, _, never, _) =
              >>=-ok (Disk.remove_file target) (λ u. pure false) d2 (rw other at h') in
            absurd (clash never)
        | inl same ↦
            let size = metadata_len-ok base d n eb in
            let size' = metadata_len-ok target d1 m et in
            rw same (
              n,
              metadata_len-HasSize target base d1 n (metadata_len-HasSize base base d n size),
              subst (λ (k : ℕ). HasSize target d2 k) (sym ((==_iff n m).0 same))
                  (metadata_len-HasSize target target d1 m size'),
            )
      ]
      go (ok n) (err e) eb et h' = cc
      go (err e) t eb et h' = cc

  is_cloned-true :
      (base target : Str) (d : Disk.Disk)
      → (Clone.is_cloned programs base target d).0 ≡ ok true
      → SameSize base target (Clone.is_cloned programs base target d).1
  unfolding Clone.is_cloned
  is_cloned-true base target d h = elim (Bool-cases (Disk.exists target d)) [
    | inl there ↦ rw there (compare_sizes-true base target d (rw there at h))
    | inr absent ↦ absurd (clash (rw absent at h))
  ]
    where
      clash : Path (Result IoError Bool) (ok false) (ok true) → ⊥
      clash e = cc

  clone_io-SameSize :
      (base target : Str) (d : Disk.Disk)
      → target ≢ base
      → (Clone.clone_io programs base target d).0 ≡ ok tt
      → SameSize base target (Clone.clone_io programs base target d).1
  unfolding Clone.clone_io Clone.clone_anew
  clone_io-SameSize base target d apart h =
      let (b, e, h1, after) =
        >>=-ok (Clone.is_cloned programs base target)
          (λ (b : Bool). if b then pure tt else Clone.clone_anew programs base target) d h in
      let d1 = (Clone.is_cloned programs base target d).1 in
      subst (λ (x : Result IoError (Unit {0}) × Disk.Disk). SameSize base target x.1) (sym after)
        (elim (Bool-cases b) [
          | inl done ↦ rw done (is_cloned-true base target d (rw done at e))
          | inr anew ↦ rw anew (
              let (_, _, h2, after') =
                >>=-ok (Clone.create_parent programs (parent target))
                  (λ u. Clone.reflink_or_copy programs base target) d1 (rw anew at h1) in
              subst (λ (x : Result IoError (Unit {0}) × Disk.Disk). SameSize base target x.1)
                (sym after') (reflink_or_copy-SameSize base target _ apart h2))
        ])

  -- If a `cp` that succeeds leaves both files with one size: after a `clone_disk` to another
  -- path that returns `Ok`, the base and the target are there and their metadata give one size,
  -- whether the target was there before, was copied by `cp`, or was copied by the fallback.
  pub clone_disk-SameSize :
      (base target : Str) (d : Disk.Disk)
      → target ≢ base
      → (Clone.clone_disk programs base target d).0 ≡ ok tt
      → SameSize base target (Clone.clone_disk programs base target d).1
  unfolding Clone.clone_disk
  clone_disk-SameSize base target d apart h =
      elim (Result-cases (Clone.clone_io programs base target d).0) [
        | inl (_, e) ↦ clone_io-SameSize base target d apart e
        | inr (x, e) ↦ absurd (clash (rw e at h))
      ]
    where
      clash : {x : VmError} → Path (Result VmError (Unit {0})) (err x) (ok tt) → ⊥
      clash e' = cc
