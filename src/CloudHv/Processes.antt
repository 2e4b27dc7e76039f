-- ===== src/CloudHv/Processes.antt =====
-- src/driver/cloud_hv.rs: what the driver does to the host, the loops that wait for a process or a socket, and the removal of
-- sidecars and TAP devices.
use vm_rs.Prelude.{ℕ, zero, suc, Bool, true, false, List, [], ◌∷◌, ◌++◌, ◌-◌, ◌*◌, ◌/◌}
use vm_rs.Prelude.Tests.{ltb, not, if◌then◌else◌}
use vm_rs.Prelude.Text.{Str, codes, decimal}
use vm_rs.Result.{Result, ok, err, IoError, VmError, stop_failed}
use vm_rs.Exec.{Exec, raise, ◌>>◌}
use vm_rs.Config.{VmmProcess}
use vm_rs.CloudHv.{System, pid_exists}

-- Beside the queries of `System`: a clock that counts nanoseconds, signals with the text of their error, child
-- processes by their identifier, and programs. `sha256_prefix` gives the first three bytes of a hash
-- as six hexadecimal digits in pairs. The removal of a TAP device or of a file is only logged.
pub record Processes (W : Type 0) : Type 0 where
  pub now : W → ℕ
  pub sleep : ℕ → W → W
  pub signal : (pid number : ℕ) → W → Result Str (Unit {0}) × W
  pub child_kill : ℕ → Exec W IoError (Unit {0})
  pub child_wait : ℕ → Exec W IoError (Unit {0})
  pub exit_status : ℕ → W → Str
  pub delete_tap : Str → W → W
  pub remove_file : Str → W → W
  pub probe : (program : Str) → W → Bool × W
  pub exists : Str → W → Bool
  pub create_log : Str → Exec W IoError (Unit {0})
  pub clone_log : Exec W IoError (Unit {0})
  pub spawn : (program : Str) (args : List Str) → Exec W IoError ℕ
  pub sha256_prefix : Str → Str × Str × Str

abbrev pub sigterm : ℕ
sigterm = 15

abbrev pub sigkill : ℕ
sigkill = 9

-- `Duration::from_millis`
abbrev pub millis : ℕ → ℕ
millis n = n * 1000000

-- How a waiting loop ended.
pub data Polled : Type 0 where
  exited : Polled
  failed : IoError → Polled
  timed_out out_of_fuel : Polled

-- No error of the program: the loop of the model has come to its last round.
abbrev pub round_limit : IoError
round_limit = record { not_found = false; message = codes "no round left" }

module _ {W : Type 0} (system : System W) (host : Processes W) where
  abbrev pub unless_exited : Result IoError Bool × W → (W → Polled × W) → Polled × W
  unless_exited (ok true, w) rest = (exited, w)
  unless_exited (ok false, w) rest = rest w
  unless_exited (err e, w) rest = (failed e, w)

  -- The loop of `wait_for_exit`.
  unfoldable pub poll_exit : ℕ → (child start timeout : ℕ) → W → Polled × W
  poll_exit zero child start timeout w = (out_of_fuel, w)
  poll_exit (suc fuel) child start timeout w =
      let more : W → Polled × W =
        λ w'. poll_exit fuel child start timeout (host.sleep (millis 200) w') in
      if ltb (host.now w - start) timeout
      then unless_exited (system.try_wait child w) more
      else (timed_out, w)

  -- Two rounds more than the intervals in the timeout.
  abbrev pub rounds : (timeout interval : ℕ) → ℕ
  rounds timeout interval = suc (suc (timeout / interval))

  unfoldable pub required_sigkill : (child timeout : ℕ) → IoError
  required_sigkill child timeout = record {
    not_found = false;
    message =
        codes "PID "
        ++ decimal child
        ++ codes " required SIGKILL after waiting "
        ++ decimal (timeout / 1000000)
        ++ codes " ms";
  }

  unfoldable pub force_exit : (child timeout : ℕ) → Exec W IoError (Unit {0})
  unfolding required_sigkill
  force_exit child timeout = do
    host.child_kill child
    host.child_wait child
    raise (required_sigkill child timeout)

  unfoldable pub after_poll : (child timeout : ℕ) → Polled × W → Result IoError (Unit {0}) × W
  unfolding force_exit
  after_poll child timeout (exited, w) = (ok tt, w)
  after_poll child timeout (failed e, w) = (err e, w)
  after_poll child timeout (timed_out, w) = force_exit child timeout w
  after_poll child timeout (out_of_fuel, w) = (err round_limit, w)

  unfoldable pub wait_for_exit : (child timeout : ℕ) → Exec W IoError (Unit {0})
  unfolding poll_exit after_poll
  wait_for_exit child timeout w =
      after_poll child timeout
        (poll_exit (rounds timeout (millis 200)) child (host.now w) timeout w)

  -- The loops of `wait_for_pid_exit`: `true` when the process is gone.
  unfoldable pub poll_gone : ℕ → VmmProcess → (interval start timeout : ℕ) → W → Bool × W
  unfolding pid_exists
  poll_gone zero process interval start timeout w = (false, w)
  poll_gone (suc fuel) process interval start timeout w =
      let rest = poll_gone fuel process interval start timeout (host.sleep interval w) in
      if ltb (host.now w - start) timeout
      then (if not (pid_exists system process w) then (true, w) else rest)
      else (false, w)

  unfoldable pub gone_within : VmmProcess → (interval timeout : ℕ) → W → Bool × W
  unfolding poll_gone
  gone_within process interval timeout w =
      poll_gone (rounds timeout interval) process interval (host.now w) timeout w

  unfoldable pub remained_alive : VmmProcess → Str → VmError
  remained_alive process vm_name =
      stop_failed vm_name
        (codes "restored VM PID " ++ decimal process.pid ++ codes " remained alive after SIGKILL")

  unfoldable pub not_killed : VmmProcess → Str → Str → VmError
  not_killed process vm_name errno =
      stop_failed vm_name
        (codes "failed to SIGKILL restored VM PID " ++ decimal process.pid ++ codes ": " ++ errno)

  unfoldable pub after_sigkill :
      VmmProcess → Str → Result Str (Unit {0}) × W → Result VmError (Unit {0}) × W
  unfolding gone_within remained_alive not_killed
  after_sigkill process vm_name (err errno, w) = (err (not_killed process vm_name errno), w)
  after_sigkill process vm_name (ok _, w) =
      let (gone, w') = gone_within process (millis 100) (millis 2000) w in
      if gone then (ok tt, w') else (err (remained_alive process vm_name), w')

  unfoldable pub wait_for_pid_exit : VmmProcess → Str → ℕ → Exec W VmError (Unit {0})
  unfolding gone_within after_sigkill
  wait_for_pid_exit process vm_name timeout w =
      let (gone, w') = gone_within process (millis 200) timeout w in
      if gone
      then (ok tt, w')
      else after_sigkill process vm_name (host.signal process.pid sigkill w')

  unfoldable pub cleanup_virtiofsd : List ℕ → W → W
  unfolding wait_for_exit
  cleanup_virtiofsd [] w = w
  cleanup_virtiofsd (child ∷ children) w =
      cleanup_virtiofsd children (wait_for_exit child (millis 1000) w).1

  unfoldable pub cleanup_taps : List Str → W → W
  cleanup_taps [] w = w
  cleanup_taps (tap ∷ taps) w = cleanup_taps taps (host.delete_tap tap w)

  -- `wait_for_socket`
  unfoldable pub poll_socket : ℕ → Str → (start timeout : ℕ) → W → Bool × W
  poll_socket zero path start timeout w = (false, w)
  poll_socket (suc fuel) path start timeout w =
      let rest = poll_socket fuel path start timeout (host.sleep (millis 50) w) in
      if ltb (host.now w - start) timeout
      then (if host.exists path w then (true, w) else rest)
      else (false, w)

  unfoldable pub wait_for_socket : Str → ℕ → W → Bool × W
  unfolding poll_socket
  wait_for_socket path timeout w =
      poll_socket (rounds timeout (millis 50)) path (host.now w) timeout w
