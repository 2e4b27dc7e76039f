-- ===== src/Manager/Waiting.antt =====
-- `VmManager::wait_all_ready` (src/vm/manager.rs): its rounds, its clock and its results.
use vm_rs.Prelude.{
  ℕ, zero, suc, ◌+◌, ◌*◌, ◌-◌, ◌≤◌, ◌<◌, ◌≡◌, refl, ◌⊎◌, inl, inr, sym, ap, ◌∙◌, true, false,
  Option, none, some, List, [], ◌∷◌, arith,
}
use native.Mathlib.Numerals.{add-two}
use vm_rs.Prelude.Tests.{Bool-cases, Option-cases}
use vm_rs.Prelude.Text.{Str, str_eq, str_eq_refl, str_eq_iff}
use vm_rs.Prelude.Map.{Map, lookup, lookup-insert, keys}
use vm_rs.Result.{Result, ok, err, VmError, Result-cases}
use vm_rs.Config.{VmHandle, VmState, ready, is_ready}
use vm_rs.Driver.{VmDriver, Host}
use vm_rs.Manager.{
  Manager, get_handle, update_cached_state, state, poll, round, report, wait_loop, wait_all_ready,
  pending_names, vm_names, nanos,
}
use vm_rs.Manager.Calls.{HasSameMachines, fixed_part, state-same}

-- A tracked name whose cached state is ready.
abbrev pub ReadyEntry : Option VmHandle → Type 0
ReadyEntry none = ⊥
ReadyEntry (some h) = is_ready h.state ≡ true

abbrev Among : Str → List Str → Type 0
Among j [] = ⊥
Among j (n ∷ ns) = (n ≡ j) ⊎ Among j ns

Among-keys : (j : Str) (m : Map VmHandle) (h : VmHandle) → lookup j m ≡ some h → Among j (keys m)
unfolding lookup
Among-keys j [] h e = cc
Among-keys j ((k, g) ∷ m) h e = elim (Bool-cases (str_eq k j)) [
  | inl same ↦ inl ((str_eq_iff k j).0 same)
  | inr other ↦ inr (Among-keys j m h (ground arith))
]

-- The address in a result that is a ready machine.
address : Result VmError VmState → Str
address (ok (ready a)) = a
address _ = []

entry_ready :
    (o : Option VmHandle) (h : VmHandle) → ReadyEntry o → o ≡ some h → is_ready h.state ≡ true
entry_ready none h r e = absurd r
entry_ready (some g) h r e = ground arith

module _ {W : Type 0} (driver : VmDriver W) (host : Host W) where
  -- A query that finds a machine ready leaves it cached as ready, and any entry that was ready.
  state_ready :
      (name : Str) (s : Manager W) (a : Str)
      → (state driver host name s).0 ≡ ok (ready a)
      → ReadyEntry (lookup name (state driver host name s).1.vms)
  unfolding state get_handle update_cached_state is_ready
  state_ready name s a e = grind (arith, lookup-insert, str_eq_refl)

  state_keeps_ready :
      (name j : Str) (s : Manager W) (a : Str)
      → (state driver host name s).0 ≡ ok (ready a)
      → ReadyEntry (lookup j s.vms)
      → ReadyEntry (lookup j (state driver host name s).1.vms)
  unfolding state get_handle update_cached_state is_ready
  state_keeps_ready name j s a e r = grind (arith, lookup-insert, str_eq_iff)

  poll_head :
      (name : Str) (names : List Str) (s : Manager W)
      → (poll driver host (name ∷ names) s).0 ≡ ok true
      → (a : Str) × ((state driver host name s).0 ≡ ok (ready a))
        × (poll driver host (name ∷ names) s ≡ poll driver host names (state driver host name s).1)
  unfolding poll address
  poll_head name names s e = (address (state driver host name s).0, ground arith, ground arith)

  poll_keeps_ready :
      (names : List Str) (s : Manager W) (j : Str)
      → (poll driver host names s).0 ≡ ok true
      → ReadyEntry (lookup j s.vms)
      → ReadyEntry (lookup j (poll driver host names s).1.vms)
  poll_keeps_ready [] s j e r = unfold poll in r
  poll_keeps_ready (n ∷ ns) s j e r =
      let (a, found, rest) = poll_head n ns s e in
      rw rest (
        poll_keeps_ready ns (state driver host n s).1 j (rw (← rest) e)
          (state_keeps_ready n j s a found r))

  -- A round that finds every machine ready leaves each polled name cached as ready.
  poll_ready :
      (names : List Str) (s : Manager W) (j : Str)
      → (poll driver host names s).0 ≡ ok true
      → Among j names
      → ReadyEntry (lookup j (poll driver host names s).1.vms)
  poll_ready [] s j e m = absurd m
  poll_ready (n ∷ ns) s j e (inl p) =
      let (a, found, rest) = poll_head n ns s e in
      rw rest (
        poll_keeps_ready ns (state driver host n s).1 j (rw (← rest) e)
          (rw (← p) (state_ready n s a found)))
  poll_ready (n ∷ ns) s j e (inr m) =
      let (a, found, rest) = poll_head n ns s e in
      rw rest (poll_ready ns (state driver host n s).1 j (rw (← rest) e) m)

  poll-same :
      (names : List Str) (s : Manager W)
      → (poll driver host names s).0 ≡ ok true
      → HasSameMachines s (poll driver host names s).1
  poll-same [] s e j = unfold poll in refl
  poll-same (n ∷ ns) s e j =
      let (a, found, rest) = poll_head n ns s e in
      rw rest
        (poll-same ns (state driver host n s).1 (rw (← rest) e) j ∙ state-same driver host n s j)

  -- A round that says to return `Ok` has polled every name of the table.
  round-true :
      (began timeout_secs : ℕ) (s : Manager W)
      → (round driver host began timeout_secs s).0 ≡ ok true
      → ((poll driver host (keys s.vms) s).0 ≡ ok true)
        × ((round driver host began timeout_secs s).1 ≡ (poll driver host (keys s.vms) s).1)
  unfolding round vm_names pending_names
  round-true began timeout_secs s e = ground arith

  -- One turn of the loop, by the result of its round.
  loop_done :
      (fuel began timeout_secs : ℕ) (s : Manager W)
      → (round driver host began timeout_secs s).0 ≡ ok true
      → wait_loop driver host (suc fuel) began timeout_secs s
        ≡ some (ok tt, (round driver host began timeout_secs s).1)
  unfolding wait_loop
  loop_done fuel began timeout_secs s e = ground arith

  loop_again :
      (fuel began timeout_secs : ℕ) (s : Manager W)
      → (round driver host began timeout_secs s).0 ≡ ok false
      → wait_loop driver host (suc fuel) began timeout_secs s
        ≡ wait_loop driver host fuel began timeout_secs (round driver host began timeout_secs s).1
  unfolding wait_loop
  loop_again fuel began timeout_secs s e = ground arith

  loop_fails :
      (fuel began timeout_secs : ℕ) (s : Manager W) (x : VmError)
      → (round driver host began timeout_secs s).0 ≡ err x
      → wait_loop driver host (suc fuel) began timeout_secs s
        ≡ some (err x, (round driver host began timeout_secs s).1)
  unfolding wait_loop
  loop_fails fuel began timeout_secs s x e = ground arith

  tracked_before :
      (s : Manager W) (j : Str) (h : VmHandle)
      → (poll driver host (keys s.vms) s).0 ≡ ok true
      → lookup j (poll driver host (keys s.vms) s).1.vms ≡ some h
      → Among j (keys s.vms)
  tracked_before s j h polled l = elim (Option-cases (lookup j s.vms)) [
    | inl gone ↦ cc (ap fixed_part l, poll-same (keys s.vms) s polled j, ap fixed_part gone)
    | inr (g, here) ↦ Among-keys j s.vms g here
  ]

  loop_ready :
      (fuel began timeout_secs : ℕ) (s t : Manager W)
      → wait_loop driver host fuel began timeout_secs s ≡ some (ok tt, t)
      → (j : Str) (h : VmHandle) → lookup j t.vms ≡ some h
      → is_ready h.state ≡ true
  loop_ready zero began timeout_secs s t e j h l = unfold wait_loop in cc
  loop_ready (suc fuel) began timeout_secs s t e j h l =
      elim (Result-cases (round driver host began timeout_secs s).0) [
        | inr (x, q) ↦ cc (loop_fails fuel began timeout_secs s x q)
        | inl (true, q) ↦
            let (polled, last) = round-true began timeout_secs s q in
            let m : (round driver host began timeout_secs s).1 ≡ t =
              ground (arith, loop_done fuel began timeout_secs s q) in
            let l' = rw (← m, last) at l in
            entry_ready _ h (poll_ready (keys s.vms) s j polled (tracked_before s j h polled l')) l'
        | inl (false, q) ↦
            loop_ready fuel began timeout_secs (round driver host began timeout_secs s).1 t
              (sym (loop_again fuel began timeout_secs s q) ∙ e) j h l
      ]

-- If `wait_all_ready` returns `Ok`, every machine that is then tracked is cached as ready.
pub wait_all_ready_ok :
    {W : Type 0} (driver : VmDriver W) (host : Host W) (fuel timeout_secs : ℕ) (s t : Manager W)
    → wait_all_ready driver host fuel timeout_secs s ≡ some (ok tt, t)
    → (j : Str) (h : VmHandle) → lookup j t.vms ≡ some h
    → is_ready h.state ≡ true
unfolding wait_all_ready
wait_all_ready_ok driver host fuel timeout_secs s = loop_ready driver host fuel _ timeout_secs s

-- The clock of the host: sleeping moves it on by the time slept, and a query does not turn it back.
pub record Ticks {W : Type 0} (driver : VmDriver W) (host : Host W) : Type 0 where
  pub sleeps : (n : ℕ) (w : W) → host.now w + n ≤ host.now (host.sleep n w)
  pub queries : (h : VmHandle) (w : W) → host.now w ≤ host.now (driver.state h w).1

module _ {W : Type 0} (driver : VmDriver W) (host : Host W) (ticks : Ticks driver host) where
  now-state :
      (n : Str) (s : Manager W) → host.now s.world ≤ host.now (state driver host n s).1.world
  unfolding state get_handle update_cached_state
  now-state n s = grind (arith, ticks.queries)

  now-poll :
      (ns : List Str) (s : Manager W) → host.now s.world ≤ host.now (poll driver host ns s).1.world
  unfolding poll
  now-poll [] s = omega arith
  now-poll (n ∷ ns) s = ground (arith, now-state n s, now-poll ns (state driver host n s).1)

  -- A round that goes round again was in time, and took a second.
  round-false :
      (began timeout_secs : ℕ) (s : Manager W)
      → (round driver host began timeout_secs s).0 ≡ ok false
      → (host.now s.world - began ≤ timeout_secs * nanos)
        × (host.now s.world + nanos ≤ host.now (round driver host began timeout_secs s).1.world)
  unfolding round vm_names pending_names report
  round-false began timeout_secs s e =
      ground (
        arith,
        now-poll (keys s.vms) s,
        ticks.sleeps nanos (poll driver host (keys s.vms) s).1.world,
      )

  loop_total :
      (fuel began timeout_secs : ℕ) (s : Manager W)
      → began ≤ host.now s.world
      → timeout_secs * nanos < (host.now s.world - began) + fuel * nanos
      → (r : Result VmError (Unit {0}) × Manager W) × (wait_loop driver host
            (suc fuel)
            began
            timeout_secs
            s
          ≡ some r)
  loop_total zero began timeout_secs s b lt =
      elim (Result-cases (round driver host began timeout_secs s).0) [
        | inr (x, q) ↦ (_, loop_fails driver host 0 began timeout_secs s x q)
        | inl (true, q) ↦ (_, loop_done driver host 0 began timeout_secs s q)
        | inl (false, q) ↦ absurd (omega (arith, round-false began timeout_secs s q))
      ]
  loop_total (suc fuel) began timeout_secs s b lt =
      elim (Result-cases (round driver host began timeout_secs s).0) [
        | inr (x, q) ↦ (_, loop_fails driver host (suc fuel) began timeout_secs s x q)
        | inl (true, q) ↦ (_, loop_done driver host (suc fuel) began timeout_secs s q)
        | inl (false, q) ↦
            let (r, again) =
              loop_total fuel began timeout_secs (round driver host began timeout_secs s).1
                (omega (arith, round-false began timeout_secs s q))
                (omega (arith, round-false began timeout_secs s q)) in
            (r, loop_again driver host (suc fuel) began timeout_secs s q ∙ again)
      ]

-- On a host whose clock moves on by the time slept and which queries of the driver do not turn
-- back, `wait_all_ready` ends: two rounds more than the seconds of the timeout always give a
-- result.
pub wait_all_ready_total :
    {W : Type 0} (driver : VmDriver W) (host : Host W)
    → Ticks driver host
    → (timeout_secs : ℕ) (s : Manager W)
    → (r : Result VmError (Unit {0}) × Manager W) × (wait_all_ready driver host
          (timeout_secs + 2)
          timeout_secs
          s
        ≡ some r)
unfolding wait_all_ready
wait_all_ready_total driver host ticks timeout_secs s = rw add-two (
    loop_total driver host ticks (suc timeout_secs) (host.now s.world) timeout_secs s (omega arith)
      (omega arith))
