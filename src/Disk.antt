-- ===== src/Disk.antt =====
-- The calls of `std::fs` that the image store and the image cache make: a disk of files by path, of
-- directories, and of the failures to come. A call takes the next entry of `faults`; a failing write may
-- leave the first part of its data behind, which also stands for a machine that goes down meanwhile.
pub mod Writing
use vm_rs.Prelude.{ℕ, Bool, true, false, ◌||◌, ◌&&◌, Option, none, some, List, [], ◌∷◌, ◌++◌, ◌+◌}
use vm_rs.Prelude.Tests.{if◌then◌else◌, not}
use vm_rs.Prelude.Lists.{take, length}
use vm_rs.Prelude.Text.{Str, codes, str_eq, is_empty, strip_prefix, contains_char, starts_with}
use vm_rs.Prelude.Map.{Map, lookup, insert, remove, keys}
use vm_rs.Result.{Result, ok, err, IoError}
use vm_rs.Exec.{Exec, ◌>>=◌, ◌>>◌}
use vm_rs.Paths.{with_slash, with_extension}

abbrev pub Bytes : Type 0
Bytes = List ℕ

-- How a call fails, and how much a failing write had written by then, if it opened the file at all.
pub record Fault : Type 0 where
  pub error : IoError
  pub written : Option ℕ

pub record Disk : Type 0 where
  pub files : Map Bytes
  pub dirs : List Str
  pub dir_len : Str → ℕ
  pub faults : List (Option Fault)

abbrev pub no_such_file : IoError
no_such_file = record { not_found = true; message = codes "No such file or directory (os error 2)" }

abbrev pub is_a_directory : IoError
is_a_directory = record { not_found = false; message = codes "Is a directory (os error 21)" }

-- A directory may be named with a separator at its end.
unfoldable pub is_dir_of : Str → List Str → Bool
unfolding str_eq
is_dir_of slashed [] = false
is_dir_of slashed (dir ∷ dirs) = str_eq (with_slash dir) slashed || is_dir_of slashed dirs

unfoldable pub is_dir : Str → Disk → Bool
unfolding is_dir_of
is_dir path d = is_dir_of (with_slash path) d.dirs

unfoldable pub is_present : Option Bytes → Bool
is_present (some bytes) = true
is_present none = false

-- `Path::exists`
unfoldable pub exists : Str → Disk → Bool
unfolding is_present is_dir
exists path d = is_present (lookup path d.files) || is_dir path d

-- The next failure, and the disk on which it is used up.
unfoldable pub next_fault : List (Option Fault) → Option Fault
next_fault [] = none
next_fault (fault ∷ faults) = fault

unfoldable pub tail_of : List (Option Fault) → List (Option Fault)
tail_of [] = []
tail_of (fault ∷ faults) = faults

unfoldable pub used : Disk → Disk
unfolding tail_of
used d = record d { faults = tail_of d.faults }

unfoldable pub fault_or : {A : Type 0} → Exec Disk IoError A → Option Fault → Exec Disk IoError A
fault_or call none d = call d
fault_or call (some fault) d = (err fault.error, d)

unfoldable pub attempt : {A : Type 0} → Exec Disk IoError A → Exec Disk IoError A
unfolding fault_or next_fault used
attempt call d = fault_or call (next_fault d.faults) (used d)

-- `fs::write`
unfoldable pub partly_written : Str → Bytes → Option ℕ → Map Bytes → Map Bytes
partly_written path bytes none files = files
partly_written path bytes (some count) files = insert path (take count bytes) files

unfoldable pub write_or : Str → Bytes → Option Fault → Exec Disk IoError (Unit {0})
unfolding partly_written
write_or path bytes none d = (ok tt, record d { files = insert path bytes d.files })
write_or path bytes (some fault) d =
    (err fault.error, record d { files = partly_written path bytes fault.written d.files })

unfoldable pub write : Str → Bytes → Exec Disk IoError (Unit {0})
unfolding write_or next_fault used
write path bytes d = write_or path bytes (next_fault d.faults) (used d)

-- `fs::read`
unfoldable pub read_file : Str → Option Bytes → Exec Disk IoError Bytes
unfolding is_dir
read_file path (some bytes) d = (ok bytes, d)
read_file path none d = (err (if is_dir path d then is_a_directory else no_such_file), d)

unfoldable pub read : Str → Exec Disk IoError Bytes
unfolding attempt read_file
read path = attempt (λ d. read_file path (lookup path d.files) d)

-- `File::open` and `sync_all`
unfoldable pub open_file : Str → Exec Disk IoError (Unit {0})
unfolding attempt exists
open_file path = attempt (λ d. (if exists path d then ok tt else err no_such_file, d))

unfoldable pub sync_all : Exec Disk IoError (Unit {0})
unfolding attempt
sync_all = attempt (λ d. (ok tt, d))

-- `fs::rename` of a file: it replaces what stood at the other path.
unfoldable pub rename_file : Str → Str → Option Bytes → Exec Disk IoError (Unit {0})
rename_file from to none d = (err no_such_file, d)
rename_file from to (some bytes) d =
    (ok tt, record d { files = insert to bytes (remove from d.files) })

unfoldable pub rename : Str → Str → Exec Disk IoError (Unit {0})
unfolding attempt rename_file
rename from to = attempt (λ d. rename_file from to (lookup from d.files) d)

-- `fs::create_dir_all`
unfoldable pub create_dir_all : Str → Exec Disk IoError (Unit {0})
unfolding attempt is_dir
create_dir_all path =
    attempt (λ d. (ok tt, if is_dir path d then d else record d { dirs = path ∷ d.dirs }))

-- The length in `fs::metadata`: of a directory, it is what the file system reports for it.
unfoldable pub dir_length : Bool → ℕ → Result IoError ℕ
dir_length true n = ok n
dir_length false n = err no_such_file

unfoldable pub length_of : Option Bytes → Result IoError ℕ → Result IoError ℕ
length_of none otherwise = otherwise
length_of (some bytes) otherwise = ok (length bytes)

unfoldable pub metadata_len : Str → Exec Disk IoError ℕ
unfolding attempt length_of dir_length is_dir
metadata_len path =
    attempt
      (λ d. (length_of (lookup path d.files) (dir_length (is_dir path d) (d.dir_len path)), d))

-- `fs::read_dir`: the names in a directory, of its directories and of its files.
unfoldable pub name_under : Str → Str → List Str → List Str
unfolding strip_prefix contains_char
name_under dir path others = elim (strip_prefix path dir) [
  | none ↦ others
  | some name ↦ if is_empty name || contains_char b'/' name then others else name ∷ others
]

unfoldable pub names_under : Str → List Str → List Str
unfolding name_under
names_under dir [] = []
names_under dir (path ∷ paths) = name_under dir path (names_under dir paths)

pub record Names : Type 0 where
  pub directories : List Str
  pub regular : List Str

unfoldable pub read_names : Str → Disk → Result IoError Names
unfolding names_under is_dir
read_names path d =
    if is_dir path d
    then ok (record {
      directories = names_under (with_slash path) d.dirs;
      regular = names_under (with_slash path) (keys d.files);
    })
    else err no_such_file

unfoldable pub read_dir : Str → Exec Disk IoError Names
unfolding attempt read_names
read_dir path = attempt (λ d. (read_names path d, d))

-- `fs::remove_file`
unfoldable pub remove_file_of : Str → Option Bytes → Exec Disk IoError (Unit {0})
remove_file_of path none d = (err no_such_file, d)
remove_file_of path (some bytes) d = (ok tt, record d { files = remove path d.files })

unfoldable pub remove_file : Str → Exec Disk IoError (Unit {0})
unfolding attempt remove_file_of
remove_file path = attempt (λ d. remove_file_of path (lookup path d.files) d)

-- The data in a file beside the path, on the disk before it takes the path's name.
unfoldable pub write_atomically : Str → Bytes → Exec Disk IoError (Unit {0})
unfolding write open_file sync_all rename
write_atomically path bytes = do
  write (with_extension path (codes "tmp")) bytes
  open_file (with_extension path (codes "tmp"))
  sync_all
  rename (with_extension path (codes "tmp")) path

-- `fs::remove_dir_all`: the directory goes with everything below it.
unfoldable pub drop_files : Str → Map Bytes → Map Bytes
unfolding starts_with
drop_files slashed [] = []
drop_files slashed ((path, bytes) ∷ files) =
    let rest = drop_files slashed files in
    if starts_with path slashed then rest else (path, bytes) ∷ rest

unfoldable pub drop_dirs : Str → List Str → List Str
unfolding starts_with
drop_dirs slashed [] = []
drop_dirs slashed (dir ∷ dirs) =
    let rest = drop_dirs slashed dirs in
    if starts_with (with_slash dir) slashed then rest else dir ∷ rest

unfoldable pub remove_tree : Str → Disk → Result IoError (Unit {0}) × Disk
unfolding is_dir drop_files drop_dirs
remove_tree path d =
    if is_dir path d
    then (
      ok tt,
      record d {
        files = drop_files (with_slash path) d.files;
        dirs = drop_dirs (with_slash path) d.dirs;
      },
    )
    else (err no_such_file, d)

unfoldable pub remove_dir_all : Str → Exec Disk IoError (Unit {0})
unfolding attempt remove_tree
remove_dir_all path = attempt (remove_tree path)

-- `fs::copy`
unfoldable pub copy : Str → Str → Exec Disk IoError (Unit {0})
unfolding read write
copy from to = do bytes ← read from; write to bytes
