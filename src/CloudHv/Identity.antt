-- ===== src/CloudHv/Identity.antt =====
-- The identity of a process in src/driver/cloud_hv.rs: an identifier together with a start time.
use vm_rs.Prelude.{
  ℕ, ◌≡◌, ◌≢◌, refl, ap, inl, inr, ◌⊎◌, ◌↔◌, true, false, Option, none, some, List, arith,
}
use vm_rs.Prelude.Tests.{◌==◌, ==_iff, Bool-cases, Option-cases}
use vm_rs.Prelude.Text.{Str, codes, contains}
use vm_rs.Prelude.Map.{lookup}
use vm_rs.Result.{ok, Result-cases}
use vm_rs.Config.{VmmProcess, VmHandle, stopped}
use vm_rs.CloudHv

is_time_lem : (n : ℕ) (o : Option ℕ) → CloudHv.is_time n o ≡ true → o ≡ some n
unfolding CloudHv.is_time
is_time_lem n none h = cc
is_time_lem n (some m) h = ap some ((==_iff m n).0 h)

pub same_start-cases :
    (expected actual : Option ℕ)
    → CloudHv.same_start expected actual ≡ true
    → (expected ≡ none) ⊎ ((time : ℕ) × (expected ≡ some time) × (actual ≡ some time))
unfolding CloudHv.same_start
same_start-cases none actual h = inl refl
same_start-cases (some time) actual h = inr (time, refl, is_time_lem time actual h)

module _ {W : Type 0} (system : CloudHv.System W) where
  check_start_iff :
      (p : VmmProcess) (name : Str) (expected actual : Option ℕ)
      → (CloudHv.check_start system p name expected actual ≡ ok tt)
        ↔ (CloudHv.same_start expected actual ≡ true)
  unfolding CloudHv.check_start CloudHv.same_start
  check_start_iff p name none actual = (λ h. refl, λ h. refl)
  check_start_iff p name (some n) none = (λ h. cc, λ h. cc)
  check_start_iff p name (some n) (some m) = elim (Bool-cases (m == n)) [
    | inl yes' ↦ (λ h. yes', λ h. rw yes' refl)
    | inr no' ↦ (λ h. absurd (ground arith), λ h. absurd (ground arith))
  ]

  -- A process passes the driver's check exactly if its command line can be read and contains
  -- `cloud-hypervisor`, and its start time is the recorded one where one was recorded.
  pub validate_process_iff :
      (p : VmmProcess) (name : Str) (w : W)
      → (CloudHv.validate_cloud_hypervisor_process system p name w ≡ ok tt) ↔ (
          (bytes : List ℕ) × (system.read (CloudHv.proc_path p.pid (codes "cmdline")) w ≡ ok bytes)
          × (CloudHv.same_start p.start_time_ticks (CloudHv.read_proc_start_time system p.pid w)
              ≡ true)
          × (contains (system.from_utf8_lossy bytes) (codes "cloud-hypervisor") ≡ true))
  unfolding CloudHv.validate_cloud_hypervisor_process
  validate_process_iff p name w = (
    λ h. elim (Result-cases (system.read (CloudHv.proc_path p.pid (codes "cmdline")) w)) [
      | inr (e, e') ↦ absurd (ground arith)
      | inl (bytes, e) ↦
          elim (Result-cases (
            CloudHv.check_start system p name p.start_time_ticks
              (CloudHv.read_proc_start_time system p.pid w))) [
                | inr (e2, e') ↦ absurd (ground arith)
                | inl (tt, c) ↦
                    elim (Bool-cases
                      (contains (system.from_utf8_lossy bytes) (codes "cloud-hypervisor"))) [
                        | inl named ↦ (bytes, e, (check_start_iff p name _ _).0 c, named)
                        | inr other ↦ absurd (ground arith)
                      ]
              ]
    ],
    λ (bytes, e, same, named). let c = (check_start_iff p name _ _).1 same in rw (e, c, named) refl,
  )

  -- An identity that was taken from a process counts, in the same moment, as existing exactly
  -- if the process can be signalled.
  pub process_identity-pid_exists :
      (pid : ℕ) (name : Str) (p : VmmProcess) (w : W)
      → CloudHv.process_identity system pid name w ≡ ok p
      → CloudHv.pid_exists system p w ≡ system.can_signal pid w
  unfolding CloudHv.process_identity CloudHv.pid_exists
  process_identity-pid_exists pid name p w h =
      elim (Option-cases (CloudHv.read_proc_start_time system pid w)) [
        | inl e ↦ absurd (ground arith)
        | inr (time, e) ↦
            let eq : record { pid = pid; start_time_ticks = some time } ≡ p = ground arith in
            let self = (==_iff time time).1 refl in
            rw (← eq, e, self)
              (elim (Bool-cases (system.can_signal pid w)) [
                | inl yes' ↦ rw yes' refl
                | inr no' ↦ rw no' refl
              ])
      ]

  -- With a lock that is not poisoned: an untracked machine whose handle names a process with a
  -- recorded start time is reported as stopped, and nothing changes, if the start time read for
  -- that identifier is not the recorded one.
  pub reused_pid :
      (h : VmHandle) (p : VmmProcess) (time : ℕ) (d : CloudHv.CloudHvDriver W)
      → d.poisoned ≡ false
      → lookup h.name d.vms ≡ none
      → h.process ≡ some p
      → p.start_time_ticks ≡ some time
      → CloudHv.read_proc_start_time system p.pid d.world ≢ some time
      → CloudHv.state system h d ≡ (ok stopped, d)
  unfolding CloudHv.state
  reused_pid h p time d unlocked absent named started other =
      elim (Result-cases (CloudHv.validate_cloud_hypervisor_process system p h.name d.world)) [
        | inr (e, refused) ↦ simp (unlocked, absent, named, refused) refl
        | inl (tt, passed) ↦
            let (bytes, _, same, _) = (validate_process_iff p h.name d.world).0 passed in
            absurd (other (is_time_lem time _ (rw started at same)))
      ]
