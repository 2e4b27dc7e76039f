-- ===== src/Ready.antt =====
-- src/driver/ready.rs: the scan of a serial log for the readiness marker, whole and increment by increment.
pub mod Overlap
pub mod Scanning
use vm_rs.Prelude.{
  ℕ, ◌+◌, Bool, true, false, ◌&&◌, Option, none, some, List, [], ◌∷◌, ◌++◌, reverse,
}
use vm_rs.Prelude.Tests.{ltb, if◌then◌else◌}
use vm_rs.Prelude.Lists.{length, take, drop}
use vm_rs.Prelude.Text.{Str, codes, is_empty, split_once, first_word, trim}
use vm_rs.Result.{Result, ok, err, IoError}
use vm_rs.Config.{ready_marker}

pub record ReadyMarkerCache : Type 0 where
  pub ready_ip : Option Str
  pub scan_offset : ℕ
  pub tail : Str

abbrev pub fresh : ReadyMarkerCache
fresh = record { ready_ip = none; scan_offset = 0; tail = [] }

-- A log that can be opened, as far as the calls on it go: its length, and its bytes from an offset on.
-- Opening, `metadata`, `seek` and `read_to_end` may each fail; all of these return `None`.
pub record Log : Type 0 where
  pub metadata : Result IoError ℕ
  pub seek : ℕ → Result IoError (Unit {0})
  pub read_to_end : ℕ → Result IoError (List ℕ)

unfoldable pub not_empty : Str → Option Str
not_empty [] = none
not_empty (c ∷ s) = some (c ∷ s)

unfoldable pub trimmed : Option Str → Option Str
unfolding not_empty
trimmed (some word) = not_empty (trim word)
trimmed none = none

unfoldable pub word_after : Option (Str × Str) → Option Str
unfolding trimmed
word_after (some (before, after)) = trimmed (first_word after)
word_after none = none

unfoldable pub parse_ready_marker : Str → Option Str
unfolding word_after
parse_ready_marker content = word_after (split_once ready_marker content)

unfoldable pub trailing_overlap : Str → Str
trailing_overlap content = reverse (take (length ready_marker + 64) (reverse content))

-- `from_utf8_lossy` is a parameter: the standard library's decoder of bytes.
module _ (from_utf8_lossy : List ℕ → Str) where
  unfoldable pub keep_found : ReadyMarkerCache → Str → Option Str → Option Str × ReadyMarkerCache
  keep_found c combined (some ip) =
      (some ip, record { ready_ip = some ip; scan_offset = c.scan_offset; tail = [] })
  keep_found c combined none = (
    none,
    record { ready_ip = c.ready_ip; scan_offset = c.scan_offset; tail = trailing_overlap combined },
  )

  unfoldable pub scan_bytes : ReadyMarkerCache → List ℕ → Option Str × ReadyMarkerCache
  unfolding keep_found
  scan_bytes c buf =
      let combined = c.tail ++ from_utf8_lossy buf in
      if is_empty buf && is_empty c.tail
      then (none, c)
      else keep_found c combined (parse_ready_marker combined)

  -- The offset starts again when the file has become shorter.
  unfoldable pub rewound : ReadyMarkerCache → ℕ → ReadyMarkerCache
  rewound c file_len =
      if ltb file_len c.scan_offset
      then record { ready_ip = c.ready_ip; scan_offset = 0; tail = [] }
      else c

  unfoldable pub read_from :
      ReadyMarkerCache
      → ℕ
      → Result IoError (Unit {0})
      → Result IoError (List ℕ)
      → Option Str × ReadyMarkerCache
  unfolding scan_bytes
  read_from c file_len (ok _) (ok buf) =
      scan_bytes (record { ready_ip = c.ready_ip; scan_offset = file_len; tail = c.tail }) buf
  read_from c file_len (ok _) (err e) = (none, c)
  read_from c file_len (err e) buf = (none, c)

  unfoldable pub scan_log :
      ReadyMarkerCache → Log → Result IoError ℕ → Option Str × ReadyMarkerCache
  unfolding rewound read_from
  scan_log c log (ok file_len) =
      let c' = rewound c file_len in
      read_from c' file_len (log.seek c'.scan_offset) (log.read_to_end c'.scan_offset)
  scan_log c log (err e) = (none, c)

  unfoldable pub scan_file : ReadyMarkerCache → Result IoError Log → Option Str × ReadyMarkerCache
  unfolding scan_log
  scan_file c (ok log) = scan_log c log log.metadata
  scan_file c (err e) = (none, c)

  unfoldable pub scan_from :
      Option Str → ReadyMarkerCache → Result IoError Log → Option Str × ReadyMarkerCache
  unfolding scan_file
  scan_from (some ip) c opened = (some ip, c)
  scan_from none c opened = scan_file c opened

  unfoldable pub scan : ReadyMarkerCache → Result IoError Log → Option Str × ReadyMarkerCache
  unfolding scan_from
  scan c opened = scan_from c.ready_ip c opened

unfoldable pub check_ready_marker : Result IoError Str → Option Str
unfolding parse_ready_marker
check_ready_marker (ok content) = parse_ready_marker content
check_ready_marker (err e) = none
