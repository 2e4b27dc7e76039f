-- ===== src/Disk/Writing.antt =====
-- What the calls of `std::fs` leave in the files of the disk, whatever fails.
use vm_rs.Prelude.{
  ℕ, ◌≡◌, ◌≢◌, refl, sym, ap, ◌∙◌, ◌⊎◌, inl, inr, Bool, true, false, Option, none, some, ◌∷◌,
}
use vm_rs.Prelude.Tests.{Bool-cases, if◌then◌else◌}
use vm_rs.Prelude.Lists.{take}
use vm_rs.Prelude.Text.{Str, codes, str_eq, str_eq_iff, str_eq_refl}
use vm_rs.Prelude.Map.{Map, lookup, insert, remove, lookup-insert, lookup-remove}
use vm_rs.Result.{Result, ok, err, IoError, Result-cases}
use vm_rs.Exec.{Exec, resume_with}
use vm_rs.Paths.{with_extension}
use vm_rs.Disk

pub str_eq-apart : (s t : Str) → s ≢ t → str_eq s t ≡ false
str_eq-apart s t apart = elim (Bool-cases (str_eq s t)) [
  | inl same ↦ absurd (apart ((str_eq_iff s t).0 same))
  | inr no' ↦ no'
]

-- A call that leaves the files as they are, and one that may also write to one path.
abbrev pub Keeps : {A : Type 0} → Disk.Disk → Result IoError A × Disk.Disk → Type 0
Keeps d after = after.1.files ≡ d.files

pub open_file-Keeps : (path : Str) (d : Disk.Disk) → Keeps d (Disk.open_file path d)
unfolding Disk.open_file Disk.fault_or Disk.used
open_file-Keeps path d = go (Disk.next_fault d.faults)
  where
    go :
        (fault : Option Disk.Fault)
        → (Disk.fault_or
            (λ d'. (if Disk.exists path d' then ok tt else err Disk.no_such_file, d'))
            fault
            (Disk.used d)).1.files
          ≡ d.files
    go none = refl
    go (some f) = refl

pub sync_all-Keeps : (d : Disk.Disk) → Keeps d (Disk.sync_all d)
unfolding Disk.sync_all Disk.fault_or Disk.used
sync_all-Keeps d = go (Disk.next_fault d.faults)
  where
    go :
        (fault : Option Disk.Fault)
        → (Disk.fault_or {A = Unit {0}} (λ d'. (ok tt, d')) fault (Disk.used d)).1.files ≡ d.files
    go none = refl
    go (some f) = refl

-- What stands at every path but one.
abbrev pub SameBut : Str → Map Disk.Bytes → Map Disk.Bytes → Type 0
SameBut path files files' = (q : Str) → path ≢ q → lookup q files' ≡ lookup q files

insert-SameBut :
    (path : Str) (bytes : Disk.Bytes) (files : Map Disk.Bytes)
    → SameBut path files (insert path bytes files)
insert-SameBut path bytes files q apart =
    lookup-insert path q bytes files ∙ rw (str_eq-apart path q apart) refl

partly_written-SameBut :
    (path : Str) (bytes : Disk.Bytes) (written : Option ℕ) (files : Map Disk.Bytes)
    → SameBut path files (Disk.partly_written path bytes written files)
unfolding Disk.partly_written
partly_written-SameBut path bytes none files q apart = refl
partly_written-SameBut path bytes (some n) files q apart =
    insert-SameBut path (take n bytes) files q apart

pub write-SameBut :
    (path : Str) (bytes : Disk.Bytes) (d : Disk.Disk)
    → SameBut path d.files (Disk.write path bytes d).1.files
unfolding Disk.write Disk.write_or Disk.used
write-SameBut path bytes d = go (Disk.next_fault d.faults)
  where
    go :
        (fault : Option Disk.Fault)
        → SameBut path d.files (Disk.write_or path bytes fault (Disk.used d)).1.files
    go none = insert-SameBut path bytes d.files
    go (some f) = partly_written-SameBut path bytes f.written d.files

pub write-ok :
    (path : Str) (bytes : Disk.Bytes) (d : Disk.Disk)
    → (Disk.write path bytes d).0 ≡ ok tt
    → lookup path (Disk.write path bytes d).1.files ≡ some bytes
unfolding Disk.write Disk.write_or Disk.used
write-ok path bytes d h = go (Disk.next_fault d.faults) h
  where
    go :
        (fault : Option Disk.Fault)
        → (Disk.write_or path bytes fault (Disk.used d)).0 ≡ ok tt
        → lookup path (Disk.write_or path bytes fault (Disk.used d)).1.files ≡ some bytes
    go none e = lookup-insert path path bytes d.files ∙ rw (str_eq_refl path) refl
    go (some f) e = cc

-- A file takes another's name, or nothing happens.
abbrev Renamed : Str → Str → Disk.Bytes → Disk.Disk → Result IoError (Unit {0}) × Disk.Disk → Type 0
Renamed from to bytes d after =
    ((after.0 ≡ ok tt) × (after.1.files ≡ insert to bytes (remove from d.files)))
    ⊎ ((e : IoError) × (after.0 ≡ err e) × (after.1.files ≡ d.files))

rename-Renamed :
    (from to : Str) (bytes : Disk.Bytes) (d : Disk.Disk)
    → lookup from d.files ≡ some bytes
    → Renamed from to bytes d (Disk.rename from to d)
unfolding Disk.rename Disk.rename_file Disk.fault_or Disk.used
rename-Renamed from to bytes d there = go (Disk.next_fault d.faults)
  where
    moved :
        (o : Option Disk.Bytes)
        → o ≡ some bytes
        → Renamed from to bytes d (Disk.rename_file from to o (Disk.used d))
    moved none e = cc
    moved (some a) e = inl (refl, cc)

    go :
        (fault : Option Disk.Fault)
        → Renamed from to bytes d (
            Disk.fault_or
              (λ d'. Disk.rename_file from to (lookup from d'.files) d')
              fault
              (Disk.used d))
    go none = moved (lookup from d.files) there
    go (some f) = inr (f.error, refl, refl)

-- What a file written by way of another leaves at every path but the other's: the new bytes under its
-- name, or everything as it was.
abbrev pub Replaced :
    Str → Str → Disk.Bytes → Map Disk.Bytes → Result IoError (Unit {0}) × Disk.Disk → Type 0
Replaced path tmp bytes files after =
    ((after.0 ≡ ok tt)
      × ((q : Str)
          → tmp ≢ q
          → lookup q after.1.files ≡ (if str_eq path q then some bytes else lookup q files)))
    ⊎ ((e : IoError) × (after.0 ≡ err e) × SameBut tmp files after.1.files)

lookup-moved :
    (from to : Str) (bytes : Disk.Bytes) (files : Map Disk.Bytes) (q : Str)
    → from ≢ q
    → lookup q (insert to bytes (remove from files))
      ≡ (if str_eq to q then some bytes else lookup q files)
lookup-moved from to bytes files q apart =
    rw (lookup-insert, lookup-remove, str_eq-apart from q apart) refl

rename-Replaced :
    (path tmp : Str) (bytes : Disk.Bytes) (files : Map Disk.Bytes) (d : Disk.Disk)
    → lookup tmp d.files ≡ some bytes
    → SameBut tmp files d.files
    → Replaced path tmp bytes files (Disk.rename tmp path d)
rename-Replaced path tmp bytes files d there same = elim (rename-Renamed tmp path bytes d there) [
  | inl (e, moved) ↦
      inl (e, λ q apart. rw (moved, lookup-moved tmp path bytes d.files q apart, same q apart) refl)
  | inr (x, e, kept) ↦ inr (x, e, λ q apart. rw (kept, same q apart) refl)
]

-- A step that keeps the files and may fail comes before the rest.
before-Replaced :
    {A : Type 0} (path tmp : Str) (bytes : Disk.Bytes) (files : Map Disk.Bytes)
    (step : Result IoError A × Disk.Disk) (rest : A → Exec Disk.Disk IoError (Unit {0}))
    → SameBut tmp files step.1.files
    → ((a : A) → step.0 ≡ ok a → Replaced path tmp bytes files (rest a step.1))
    → Replaced path tmp bytes files (resume_with step.0 rest step.1)
before-Replaced path tmp bytes files step rest same next = elim (Result-cases step.0) [
  | inl (a, e) ↦ rw e (next a e)
  | inr (x, e) ↦ rw e (inr (x, refl, same))
]

keep-lookup :
    {files files' : Map Disk.Bytes} (q : Str) {o : Option Disk.Bytes}
    → files' ≡ files
    → lookup q files ≡ o
    → lookup q files' ≡ o
keep-lookup q e h = ap (lookup q) e ∙ h

keep-SameBut :
    (tmp : Str) (files0 : Map Disk.Bytes) {files files' : Map Disk.Bytes}
    → files' ≡ files
    → SameBut tmp files0 files
    → SameBut tmp files0 files'
keep-SameBut tmp files0 e h q apart = ap (lookup q) e ∙ h q apart

-- Whatever fails and wherever the writing stops, the files but the temporary one are as they
-- were, or the path alone has got the bytes and the call has succeeded.
pub write_atomically-Replaced :
    (path : Str) (bytes : Disk.Bytes) (d : Disk.Disk)
    → Replaced path
        (with_extension path (codes "tmp"))
        bytes
        d.files
        (Disk.write_atomically path bytes d)
unfolding Disk.write_atomically
write_atomically-Replaced path bytes d =
    before-Replaced path tmp bytes d.files (Disk.write tmp bytes d) _ (write-SameBut tmp bytes d)
      (λ u e.
        before-Replaced path tmp bytes d.files (Disk.open_file tmp d1) _
          (keep-SameBut tmp d.files (open_file-Keeps tmp d1) (write-SameBut tmp bytes d))
          (λ v e'.
            before-Replaced path tmp bytes d.files (Disk.sync_all d2) _
              (keep-SameBut tmp d.files kept (write-SameBut tmp bytes d))
              (λ w e''.
                rename-Replaced path tmp bytes d.files (Disk.sync_all d2).1
                  (keep-lookup tmp kept (write-ok tmp bytes d e))
                  (keep-SameBut tmp d.files kept (write-SameBut tmp bytes d)))))
  where
    tmp : Str
    tmp = with_extension path (codes "tmp")

    d1 : Disk.Disk
    d1 = (Disk.write tmp bytes d).1

    d2 : Disk.Disk
    d2 = (Disk.open_file tmp d1).1

    kept : (Disk.sync_all d2).1.files ≡ d1.files
    kept = sync_all-Keeps d2 ∙ open_file-Keeps tmp d1

pub create_dir_all-Keeps : (path : Str) (d : Disk.Disk) → Keeps d (Disk.create_dir_all path d)
unfolding Disk.create_dir_all Disk.fault_or Disk.used
create_dir_all-Keeps path d = go (Disk.next_fault d.faults)
  where
    chosen :
        (b : Bool)
        → (if b then Disk.used d else record (Disk.used d) { dirs = path ∷ d.dirs }).files ≡ d.files
    chosen true = refl
    chosen false = refl

    go :
        (fault : Option Disk.Fault)
        → (Disk.fault_or {A = Unit {0}}
            (λ d'. (ok tt, if Disk.is_dir path d' then d' else record d' { dirs = path ∷ d'.dirs }))
            fault
            (Disk.used d)).1.files
          ≡ d.files
    go none = chosen (Disk.is_dir path (Disk.used d))
    go (some f) = refl

-- A read leaves the files, and what it returns is what stands there.
pub read-Keeps : (path : Str) (d : Disk.Disk) → Keeps d (Disk.read path d)
unfolding Disk.read Disk.attempt Disk.fault_or Disk.used Disk.read_file
read-Keeps path d = go (Disk.next_fault d.faults)
  where
    found : (o : Option Disk.Bytes) → (Disk.read_file path o (Disk.used d)).1.files ≡ d.files
    found none = refl
    found (some bytes) = refl

    go :
        (fault : Option Disk.Fault)
        → (Disk.fault_or
            (λ d'. Disk.read_file path (lookup path d'.files) d')
            fault
            (Disk.used d)).1.files
          ≡ d.files
    go none = found (lookup path d.files)
    go (some f) = refl

pub read-ok :
    (path : Str) (d : Disk.Disk) {bytes : Disk.Bytes}
    → (Disk.read path d).0 ≡ ok bytes
    → lookup path d.files ≡ some bytes
unfolding Disk.read Disk.attempt Disk.fault_or Disk.used Disk.read_file
read-ok path d {bytes} h = go (Disk.next_fault d.faults) h
  where
    found :
        (o : Option Disk.Bytes)
        → (Disk.read_file path o (Disk.used d)).0 ≡ ok bytes
        → o ≡ some bytes
    found none e = cc
    found (some b) e = cc

    go :
        (fault : Option Disk.Fault)
        → (Disk.fault_or
            (λ d'. Disk.read_file path (lookup path d'.files) d')
            fault
            (Disk.used d)).0
          ≡ ok bytes
        → lookup path d.files ≡ some bytes
    go none e = found (lookup path d.files) e
    go (some f) e = cc

str_eq-≢ : (s t : Str) → str_eq s t ≡ false → s ≢ t
str_eq-≢ s t h e = cc (str_eq_refl s, e, h)

-- The writing of one file keeps another that is neither it nor its temporary file.
pub write_atomically-keeps :
    (path : Str) (bytes : Disk.Bytes) (q : Str) (o : Option Disk.Bytes) (d : Disk.Disk)
    → str_eq path q ≡ false
    → str_eq (with_extension path (codes "tmp")) q ≡ false
    → lookup q d.files ≡ o
    → lookup q (Disk.write_atomically path bytes d).1.files ≡ o
write_atomically-keeps path bytes q o d other other_tmp h =
    let apart = str_eq-≢ (with_extension path (codes "tmp")) q other_tmp in
    elim (write_atomically-Replaced path bytes d) [
      | inl (e, now) ↦ now q apart ∙ rw other h
      | inr (x, e, kept) ↦ kept q apart ∙ h
    ]

pub write_atomically-ok :
    (path : Str) (bytes : Disk.Bytes) (d : Disk.Disk)
    → str_eq (with_extension path (codes "tmp")) path ≡ false
    → (Disk.write_atomically path bytes d).0 ≡ ok tt
    → lookup path (Disk.write_atomically path bytes d).1.files ≡ some bytes
write_atomically-ok path bytes d other h = elim (write_atomically-Replaced path bytes d) [
  | inl (e, now) ↦
      now path (str_eq-≢ (with_extension path (codes "tmp")) path other)
      ∙ rw (str_eq_refl path) refl
  | inr (x, e, kept) ↦ absurd (clash (sym e ∙ h))
]
  where
    clash : {x : IoError} → Path (Result IoError (Unit {0})) (err x) (ok tt) → ⊥
    clash e = cc
