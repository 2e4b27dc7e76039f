-- ===== src/Seed/Iso.antt =====
-- `create_seed_iso` and the Linux body of `create_iso_image` (src/setup/seed.rs), over the host's file
-- system, clock and programs.
use vm_rs.Prelude.{ℕ, Bool, Option, none, some, List, [], ◌∷◌, ◌++◌}
use vm_rs.Prelude.Tests.{not, if◌then◌else◌}
use vm_rs.Prelude.Text.{Str, codes, trim, decimal}
use vm_rs.Result.{Result, ok, err, IoError, map_err}
use vm_rs.Exec.{Exec, pure, raise, lift, ◌>>=◌, ◌>>◌}
use vm_rs.Paths.{join, parent}
use vm_rs.Seed.{
  SeedConfig, NicConfig, SetupError, io, iso_creation, config, is_safe_hostname, build_user_data,
  build_network_config,
}

pub record Output : Type 0 where
  pub success : Bool
  pub stderr : Str

-- What `create_seed_iso` calls outside the crate. The counter is the process-wide `SEED_TMP_COUNTER`.
pub record SeedHost (W : Type 0) : Type 0 where
  pub process_id : ℕ
  pub fetch_add : W → ℕ × W
  pub timestamp_nanos : W → ℕ
  pub create_dir_all : Str → Exec W IoError (Unit {0})
  pub write : Str → Str → Exec W IoError (Unit {0})
  pub remove_dir_all : Str → Exec W IoError (Unit {0})
  pub output : (program : Str) (args : List Str) → Exec W IoError Output

module _ {W : Type 0} (host : SeedHost W) where
  -- `map_err(SetupError::Io)`
  abbrev pub on_host : {A : Type 0} → Exec W IoError A → Exec W SetupError A
  on_host m w = (map_err io (m w).0, (m w).1)

  abbrev pub unless_success :
      Result IoError Output → Exec W SetupError (Unit {0}) → Exec W SetupError (Unit {0})
  unless_success (ok out) other = if out.success then pure tt else other
  unless_success (err e) other = other

  unfoldable pub iso_args : Str → Str → List Str
  iso_args iso_path source_dir =
      codes "-output"
      ∷ iso_path
      ∷ codes "-volid"
      ∷ codes "cidata"
      ∷ codes "-joliet"
      ∷ codes "-rock"
      ∷ source_dir
      ∷ []

  unfoldable pub check_output : Output → Exec W SetupError (Unit {0})
  check_output out =
      if out.success
      then pure tt
      else raise (
          iso_creation (
            codes
              "neither genisoimage nor mkisofs succeeded. Install: apt install genisoimage. Last error: "
            ++ trim out.stderr))

  unfoldable pub create_iso_image : Str → Str → Exec W SetupError (Unit {0})
  unfolding iso_args check_output
  create_iso_image iso_path source_dir w =
      let first = host.output (codes "genisoimage") (iso_args iso_path source_dir) w in
      unless_success first.0
        (do
          out ← on_host (host.output (codes "mkisofs") (iso_args iso_path source_dir))
          check_output out)
        first.1

  unfoldable pub tmp_name : SeedConfig → ℕ → ℕ → Str
  tmp_name c nanos counter =
      codes ".seed-"
      ++ c.hostname
      ++ codes "-"
      ++ decimal host.process_id
      ++ codes "-"
      ++ decimal nanos
      ++ codes "-"
      ++ decimal counter

  unfoldable pub meta_data : SeedConfig → Str
  meta_data c =
      codes "instance-id: " ++ c.hostname ++ codes "\nlocal-hostname: " ++ c.hostname ++ codes "\n"

  unfoldable pub write_nics : SeedConfig → Str → List NicConfig → Exec W SetupError (Unit {0})
  write_nics c tmp_dir [] = pure tt
  write_nics c tmp_dir (nic ∷ nics) = do
    text ← lift (build_network_config c)
    on_host (host.write (join tmp_dir (codes "network-config")) text)

  unfoldable pub write_network : SeedConfig → Str → Exec W SetupError (Unit {0})
  unfolding write_nics
  write_network c tmp_dir = write_nics c tmp_dir c.nics

  -- The closure whose result is kept while the directory is removed.
  unfoldable pub fill : SeedConfig → Str → Str → Exec W SetupError (Unit {0})
  unfolding create_iso_image meta_data write_network
  fill c iso_path tmp_dir = do
    on_host (host.write (join tmp_dir (codes "meta-data")) (meta_data c))
    user_data ← lift (build_user_data c)
    on_host (host.write (join tmp_dir (codes "user-data")) user_data)
    write_network c tmp_dir
    create_iso_image iso_path tmp_dir

  -- The directory goes whatever the closure returned; a failure of that is only logged.
  unfoldable pub fill_and_remove : SeedConfig → Str → Str → Exec W SetupError (Unit {0})
  unfolding fill
  fill_and_remove c iso_path tmp_dir w =
      let filled = fill c iso_path tmp_dir w in (filled.0, (host.remove_dir_all tmp_dir filled.1).1)

  unfoldable pub in_parent : SeedConfig → Str → Option Str → Exec W SetupError (Unit {0})
  unfolding fill_and_remove tmp_name
  in_parent c iso_path none w = (err (config (codes "no parent directory for ISO path")), w)
  in_parent c iso_path (some dir) w =
      let (counter, w1) = host.fetch_add w in
      let tmp_dir = join dir (tmp_name c (host.timestamp_nanos w1) counter) in
      (on_host (host.create_dir_all tmp_dir) >> fill_and_remove c iso_path tmp_dir) w1

  unfoldable pub create_seed_iso : SeedConfig → Str → Exec W SetupError (Unit {0})
  unfolding in_parent
  create_seed_iso c iso_path =
      if not (is_safe_hostname c.hostname)
      then raise (config (codes "invalid hostname '" ++ c.hostname ++ codes "'"))
      else in_parent c iso_path (parent iso_path)
