-- ===== src/Manager/Start.antt =====
-- `VmManager::start` (src/vm/manager.rs): what each outcome leaves in the table of handles.
use vm_rs.Prelude.{
  ◌≡◌, ◌≢◌, refl, true, false, Option, none, some, arith, ◌⊎◌, inl, inr, ◌++◌, ap, sym, ◌∙◌,
}
use vm_rs.Prelude.Tests.{Bool-cases, Option-cases}
use vm_rs.Prelude.Text.{Str, codes, str_eq, str_eq_refl, str_eq_iff}
use vm_rs.Prelude.Map.{lookup, insert, lookup-insert, lookup-remove}
use vm_rs.Result.{Result, ok, err, VmError, boot_failed, Result-cases}
use vm_rs.Exec.{Exec, ◌>>=◌, ◌>>◌}
use vm_rs.Config.{VmConfig, VmHandle, VmState, starting, stopped, failed, validate, display}
use vm_rs.Config.Validation.{IsValid, validate_iff}
use vm_rs.Driver.{VmDriver, Host}
use vm_rs.Manager.{
  Manager, start, stop, kill, reserve, boot_reserved, abandon, check_free, is_restartable,
  reservation, lock_poisoned, get_handle, update_cached_state, on_world,
}

module _ {W : Type 0} (driver : VmDriver W) (host : Host W) (c : VmConfig) (s : Manager W) where
  -- The lock stays as it was, on every branch.
  poisoned-boot_reserved : (boot_reserved driver host c s).1.poisoned ≡ s.poisoned
  unfolding boot_reserved abandon
  poisoned-boot_reserved = ground arith

  boot_reserved-frame :
      (j : Str)
      → str_eq c.name j ≡ false
      → lookup j (boot_reserved driver host c s).1.vms ≡ lookup j s.vms
  unfolding boot_reserved abandon
  boot_reserved-frame j h = grind (arith, lookup-insert, lookup-remove)

  boot_reserved_ok :
      {h : VmHandle}
      → (boot_reserved driver host c s).0 ≡ ok h
      → lookup c.name (boot_reserved driver host c s).1.vms ≡ some h
  unfolding boot_reserved abandon
  boot_reserved_ok {h} e = grind (arith, lookup-insert, lookup-remove, str_eq_refl)

  boot_reserved_err :
      {e : VmError}
      → s.poisoned ≡ false
      → (boot_reserved driver host c s).0 ≡ err e
      → lookup c.name (boot_reserved driver host c s).1.vms ≡ none
  unfolding boot_reserved abandon
  boot_reserved_err {e} p q = grind (arith, lookup-insert, lookup-remove, str_eq_refl)

  reserve-frame :
      (j : Str) → str_eq c.name j ≡ false → lookup j (reserve c s).1.vms ≡ lookup j s.vms
  unfolding reserve
  reserve-frame j h = grind (arith, lookup-insert)

  poisoned-reserve : (reserve c s).1.poisoned ≡ s.poisoned
  unfolding reserve
  poisoned-reserve = ground arith

  reserve_err : {e : VmError} → (reserve c s).0 ≡ err e → (reserve c s).1.vms ≡ s.vms
  unfolding reserve
  reserve_err {e} q = ground arith

  reserve_ok :
      (reserve c s).0 ≡ ok tt
      → (s.poisoned ≡ false)
        × (check_free c (lookup c.name s.vms) ≡ ok tt)
        × (lookup c.name (reserve c s).1.vms ≡ some (reservation c))
  unfolding reserve
  reserve_ok q = grind (arith, lookup-insert, str_eq_refl)

-- A name that can be started: it is not tracked, or its machine is stopped or has failed.
abbrev pub IsFree : Option VmHandle → Type 0
IsFree none = Unit
IsFree (some h) = (h.state ≡ stopped) ⊎ ((reason : Str) × (h.state ≡ failed reason))

restartable_states :
    (v : VmState) → is_restartable v ≡ true → (v ≡ stopped) ⊎ ((reason : Str) × (v ≡ failed reason))
unfolding is_restartable
restartable_states stopped h = inl refl
restartable_states (failed reason) h = inr (reason, refl)
restartable_states starting h = cc
restartable_states _ h = cc

states_restartable :
    (v : VmState) → (v ≡ stopped) ⊎ ((reason : Str) × (v ≡ failed reason)) → is_restartable v ≡ true
unfolding is_restartable
states_restartable v (inl e) = rw e refl
states_restartable v (inr (reason, e)) = rw e refl

check_free-IsFree : (c : VmConfig) (o : Option VmHandle) → check_free c o ≡ ok tt → IsFree o
unfolding check_free
check_free-IsFree c none h = tt
check_free-IsFree c (some v) h = restartable_states v.state (ground arith)

check_free-cases :
    (c : VmConfig) (o : Option VmHandle)
    → (IsFree o × (check_free c o ≡ ok tt))
      ⊎ ((¬ IsFree o) × (e : VmError) × (check_free c o ≡ err e))
unfolding check_free
check_free-cases c none = inl (tt, refl)
check_free-cases c (some v) = elim (Bool-cases (is_restartable v.state)) [
  | inl good ↦ inl (restartable_states v.state good, rw good refl)
  | inr bad ↦ inr (λ free. cc (states_restartable v.state free, bad), busy, rw bad refl)
]
  where
    busy : VmError
    busy = boot_failed c.name (codes "VM already exists in state: " ++ display v.state)

-- What a `start` asks for: a valid configuration, the lock, and a free name.
abbrev pub Accepted : {W : Type 0} → VmConfig → Manager W → Type 0
Accepted c s = IsValid c × (s.poisoned ≡ false) × IsFree (lookup c.name s.vms)

-- The table with the name reserved.
abbrev pub reserved : {W : Type 0} → VmConfig → Manager W → Manager W
reserved c s = record s { vms = insert c.name (reservation c) s.vms }

module _ {W : Type 0} (driver : VmDriver W) (host : Host W) where
  -- What a successful `stop` or `kill` leaves: the lock, and the name with a stopped machine.
  hand_over-IsFree :
      (act : VmHandle → Exec W VmError (Unit {0})) (name : Str) (s s' : Manager W)
      → (get_handle name >>= λ h. (on_world (λ e. e) (act h) >> update_cached_state name stopped)) s
        ≡ (ok tt, s')
      → (s'.poisoned ≡ false) × IsFree (lookup name s'.vms)
  unfolding get_handle update_cached_state
  hand_over-IsFree act name s s' h = elim (Bool-cases s.poisoned) [
    | inl locked ↦ absurd (failed_call (rw locked at h))
    | inr unlocked ↦ elim (Option-cases (lookup name s.vms)) [
      | inl e ↦ absurd (failed_call (rw (unlocked, e) at h))
      | inr (v, e) ↦ elim (Result-cases (act v s.world).0) [
        | inr (x, bad) ↦ absurd (failed_call (rw (unlocked, e, bad) at h))
        | inl (_, good) ↦
            let (kept, there) = ended_with (act v s.world).1 v (rw (unlocked, e, good, e) at h) in
            (kept, rw there (inl refl))
      ]
    ]
  ]
    where
      failed_call :
          {x : VmError} {s1 : Manager W}
          → Path (Result VmError (Unit {0}) × Manager W) (err x, s1) (ok tt, s')
          → ⊥
      failed_call e = cc

      ended_with :
          (w : W) (v : VmHandle)
          → Path
              (Result VmError (Unit {0}) × Manager W)
              (
                ok tt,
                record s {
                  world = w;
                  vms = insert name (record v { state = stopped }) s.vms;
                  poisoned = false;
                },
              )
              (ok tt, s')
          → (s'.poisoned ≡ false) × (lookup name s'.vms ≡ some (record v { state = stopped }))
      ended_with w v q =
          let same = ap (λ r. r.1) q in
          (
            ap (λ x. x.poisoned) (sym same),
            ap (λ x. lookup name x.vms) (sym same) ∙ simp (lookup-insert, str_eq_refl),
          )

  ended-IsFree :
      (c : VmConfig) (s s' : Manager W)
      → (stop driver host c.name s ≡ (ok tt, s')) ⊎ (kill driver host c.name s ≡ (ok tt, s'))
      → (s'.poisoned ≡ false) × IsFree (lookup c.name s'.vms)
  unfolding stop kill
  ended-IsFree c s s' (inl h) = hand_over-IsFree driver.stop c.name s s' h
  ended-IsFree c s s' (inr h) = hand_over-IsFree driver.kill c.name s s' h

  -- A `start` leaves the entry of every other name as it was, however it ends.
  pub start-frame :
      (c : VmConfig) (s : Manager W) (j : Str)
      → c.name ≢ j
      → lookup j (start driver host c s).1.vms ≡ lookup j s.vms
  unfolding start
  start-frame c s j h = ground (
    arith,
    str_eq_iff c.name j,
    reserve-frame driver host c s j,
    boot_reserved-frame driver host c (reserve c s).1 j,
  )

  start_parts :
      (c : VmConfig) (s : Manager W) (h : VmHandle)
      → (start driver host c s).0 ≡ ok h
      → (lookup c.name (start driver host c s).1.vms ≡ some h)
        × (validate c ≡ ok tt)
        × (check_free c (lookup c.name s.vms) ≡ ok tt)
  unfolding start
  start_parts c s h e =
      ground
        (arith, reserve_ok driver host c s, boot_reserved_ok driver host c (reserve c s).1 {h = h})

  -- A `start` that returns a handle has left exactly that handle under the configuration's
  -- name; the configuration was valid, and the name was free before: not tracked, or its
  -- machine stopped or failed.
  pub start_ok :
      (c : VmConfig) (s : Manager W) (h : VmHandle)
      → (start driver host c s).0 ≡ ok h
      → (lookup c.name (start driver host c s).1.vms ≡ some h)
        × (validate c ≡ ok tt)
        × IsFree (lookup c.name s.vms)
  start_ok c s h e =
      let (kept, valid, free) = start_parts c s h e in
      (kept, valid, check_free-IsFree c (lookup c.name s.vms) free)

  -- A `start` that returns an error has either changed no entry of the table or left the name
  -- out of it: no reservation stays behind.
  pub start_err :
      (c : VmConfig) (s : Manager W) (e : VmError)
      → (start driver host c s).0 ≡ err e
      → ((start driver host c s).1.vms ≡ s.vms)
        ⊎ (lookup c.name (start driver host c s).1.vms ≡ none)
  unfolding start
  start_err c s e q = ground (
    arith,
    reserve_err driver host c s {e = e},
    reserve_ok driver host c s,
    poisoned-reserve driver host c s,
    boot_reserved_err driver host c (reserve c s).1 {e = e},
  )

  -- A `start` either meets a valid configuration, a lock that is not poisoned and a name that
  -- is not tracked or whose machine is stopped or failed, and goes on to boot with the name
  -- reserved; or it does not meet all three, and is an error that changes nothing, the driver
  -- and the file system included.
  pub start_cases :
      (c : VmConfig) (s : Manager W)
      → (Accepted c s × (start driver host c s ≡ boot_reserved driver host c (reserved c s)))
        ⊎ ((¬ Accepted c s) × (e : VmError) × (start driver host c s ≡ (err e, s)))
  unfolding start reserve
  start_cases c s = elim (Result-cases (validate c)) [
    | inr (e, bad) ↦
        inr (λ (valid, unlocked, free). not_both bad ((validate_iff c).1 valid), e, rw bad refl)
    | inl (_, good) ↦ elim (Bool-cases s.poisoned) [
      | inl locked ↦ inr (λ (valid, unlocked, free). cc, lock_poisoned, rw (good, locked) refl)
      | inr unlocked ↦ elim (check_free-cases c (lookup c.name s.vms)) [
        | inl (free, passed) ↦
            inl (((validate_iff c).0 good, unlocked, free), rw (good, unlocked, passed) refl)
        | inr (busy, e, refused) ↦
            inr (λ (valid, unlocked', free). busy free, e, rw (good, unlocked, refused) refl)
      ]
    ]
  ]
    where
      not_both : {e : VmError} {r : Result VmError (Unit {0})} → r ≡ err e → r ≡ ok tt → ⊥
      not_both a b = cc

  -- After a `stop` or a `kill` of the name of a valid configuration that succeeds, a `start` of
  -- that configuration is not refused: it goes on to boot with the name reserved.
  pub restart :
      (c : VmConfig) (s s' : Manager W)
      → IsValid c
      → (stop driver host c.name s ≡ (ok tt, s')) ⊎ (kill driver host c.name s ≡ (ok tt, s'))
      → start driver host c s' ≡ boot_reserved driver host c (reserved c s')
  restart c s s' valid ended = elim (start_cases c s') [
    | inl (accepted, e) ↦ e
    | inr (refused, e, q) ↦
        let (unlocked, free) = ended-IsFree c s s' ended in absurd (refused (valid, unlocked, free))
  ]
