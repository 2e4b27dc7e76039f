-- ===== src/Manager/Calls.antt =====
-- The methods of `VmManager` (src/vm/manager.rs) as one type of calls, and sequences of them.
use vm_rs.Prelude.{◌≡◌, refl, sym, ap, ◌∙◌, inl, inr, Option, none, some, List, [], ◌∷◌, arith}
use vm_rs.Prelude.Tests.{Bool-cases}
use vm_rs.Prelude.Text.{Str, str_eq, str_eq_iff}
use vm_rs.Prelude.Map.{lookup, lookup-insert}
use vm_rs.Result.{ok, Result-cases}
use vm_rs.Config.{VmConfig, VmHandle, VmState, starting}
use vm_rs.Driver.{VmDriver, Host, NamesHandles}
use vm_rs.Manager.{Manager, reserve, boot_reserved, abandon, get_handle, update_cached_state}
use vm_rs.Manager
use vm_rs.Manager.Start.{start-frame, start_ok, start_err}

pub data Call : Type 0 where
  start : VmConfig → Call
  stop kill pause resume state get_ip : Str → Call
  stop_by_handle kill_by_handle : VmHandle → Call

module _ {W : Type 0} (driver : VmDriver W) (host : Host W) where
  -- The state that a call leaves.
  unfoldable pub after : Call → Manager W → Manager W
  after (start c) s = (Manager.start driver host c s).1
  after (stop n) s = (Manager.stop driver host n s).1
  after (kill n) s = (Manager.kill driver host n s).1
  after (pause n) s = (Manager.pause driver host n s).1
  after (resume n) s = (Manager.resume driver host n s).1
  after (state n) s = (Manager.state driver host n s).1
  after (get_ip n) s = (Manager.get_ip driver host n s).1
  after (stop_by_handle h) s = (Manager.stop_by_handle driver host h s).1
  after (kill_by_handle h) s = (Manager.kill_by_handle driver host h s).1

  unfoldable pub after_all : List Call → Manager W → Manager W
  after_all [] s = s
  after_all (call ∷ calls) s = after_all calls (after call s)

-- A tracked machine without its state: the part of a handle that no method but `start` may change.
abbrev pub fixed_part : Option VmHandle → Option VmHandle
fixed_part none = none
fixed_part (some h) = some (record h { state = starting })

abbrev pub HasSameMachines : {W : Type 0} → Manager W → Manager W → Type 0
HasSameMachines s t = (j : Str) → fixed_part (lookup j t.vms) ≡ fixed_part (lookup j s.vms)

update-HasSameMachines :
    {W : Type 0} (name : Str) (v : VmState) (s : Manager W)
    → HasSameMachines s (update_cached_state name v s).1
unfolding update_cached_state
update-HasSameMachines name v s j = grind (arith, lookup-insert, str_eq_iff name j)

module _ {W : Type 0} (driver : VmDriver W) (host : Host W) where
  stop-same : (n : Str) (s : Manager W) → HasSameMachines s (Manager.stop driver host n s).1
  unfolding Manager.stop get_handle
  stop-same n s j = grind (arith, update-HasSameMachines)

  kill-same : (n : Str) (s : Manager W) → HasSameMachines s (Manager.kill driver host n s).1
  unfolding Manager.kill get_handle
  kill-same n s j = grind (arith, update-HasSameMachines)

  pause-same : (n : Str) (s : Manager W) → HasSameMachines s (Manager.pause driver host n s).1
  unfolding Manager.pause get_handle
  pause-same n s j = grind (arith, update-HasSameMachines)

  resume-same : (n : Str) (s : Manager W) → HasSameMachines s (Manager.resume driver host n s).1
  unfolding Manager.resume get_handle
  resume-same n s j = grind (arith, update-HasSameMachines)

  pub state-same : (n : Str) (s : Manager W) → HasSameMachines s (Manager.state driver host n s).1
  unfolding Manager.state get_handle
  state-same n s j = grind (arith, update-HasSameMachines)

  get_ip-same : (n : Str) (s : Manager W) → HasSameMachines s (Manager.get_ip driver host n s).1
  unfolding Manager.get_ip
  get_ip-same n s j = ground (arith, state-same n s j)

  stop_by_handle-same :
      (h : VmHandle) (s : Manager W) → HasSameMachines s (Manager.stop_by_handle driver host h s).1
  unfolding Manager.stop_by_handle
  stop_by_handle-same h s j = grind (arith, update-HasSameMachines)

  kill_by_handle-same :
      (h : VmHandle) (s : Manager W) → HasSameMachines s (Manager.kill_by_handle driver host h s).1
  unfolding Manager.kill_by_handle
  kill_by_handle-same h s j = grind (arith, update-HasSameMachines)

  -- The configuration whose name a call may add to or take from the table: only `start` has one.
  unfoldable pub IsAbout : Call → Str → Type 0
  IsAbout (start c) j = c.name ≡ j
  IsAbout _ j = ⊥

  -- A call other than a `start` of the name leaves the name tracked or untracked as it was, and
  -- of its handle changes at most the state.
  pub after-frame :
      (call : Call) (s : Manager W) (j : Str)
      → ¬ IsAbout call j
      → fixed_part (lookup j (after driver host call s).vms) ≡ fixed_part (lookup j s.vms)
  unfolding after IsAbout
  after-frame (start c) s j h = ap fixed_part (start-frame driver host c s j h)
  after-frame (stop n) s j h = stop-same n s j
  after-frame (kill n) s j h = kill-same n s j
  after-frame (pause n) s j h = pause-same n s j
  after-frame (resume n) s j h = resume-same n s j
  after-frame (state n) s j h = state-same n s j
  after-frame (get_ip n) s j h = get_ip-same n s j
  after-frame (stop_by_handle a) s j h = stop_by_handle-same a s j
  after-frame (kill_by_handle a) s j h = kill_by_handle-same a s j

-- Every handle stands under its own name.
pub record IsKeyed {W : Type 0} (s : Manager W) : Type 0 where
  pub at : (j : Str) (h : VmHandle) → lookup j s.vms ≡ some h → h.name ≡ j

same-IsKeyed : {W : Type 0} {s t : Manager W} → HasSameMachines s t → IsKeyed s → IsKeyed t
same-IsKeyed {s = s} {t = t} same k = record {
  at = λ j h e. keyed_at j h (lookup j s.vms) (sym (same j) ∙ ap fixed_part e) (k.at j);
}
  where
    keyed_at :
        (j : Str) (h : VmHandle) (o : Option VmHandle)
        → fixed_part o ≡ fixed_part (some h)
        → ((h : VmHandle) → o ≡ some h → h.name ≡ j)
        → h.name ≡ j
    keyed_at j h none e k = cc
    keyed_at j h (some g) e k = ground (arith, k g refl)

module _ {W : Type 0} (driver : VmDriver W) (host : Host W) (named : NamesHandles driver) where
  boot_reserved_name :
      (c : VmConfig) (s : Manager W) (h : VmHandle)
      → (boot_reserved driver host c s).0 ≡ ok h
      → h.name ≡ c.name
  unfolding boot_reserved abandon
  boot_reserved_name c s h e = grind (arith, named.at c)

  start_name :
      (c : VmConfig) (s : Manager W) (h : VmHandle)
      → (Manager.start driver host c s).0 ≡ ok h
      → h.name ≡ c.name
  unfolding Manager.start
  start_name c s h e = ground (arith, boot_reserved_name c (reserve c s).1 h)

  start_key :
      (c : VmConfig) (s : Manager W)
      → IsKeyed s
      → (j : Str) (h : VmHandle) → c.name ≡ j
      → lookup j (Manager.start driver host c s).1.vms ≡ some h
      → h.name ≡ j
  start_key c s k j h p e = elim (Result-cases (Manager.start driver host c s).0) [
    | inl (g, q) ↦ let kept = (start_ok driver host c s g q).0 in cc (kept, start_name c s g q)
    | inr (x, q) ↦ elim (start_err driver host c s x q) [
      | inl same ↦ k.at j h (ap (lookup j) (sym same) ∙ e)
      | inr gone ↦ cc gone
    ]
  ]

  start-IsKeyed :
      (c : VmConfig) (s : Manager W) → IsKeyed s → IsKeyed (Manager.start driver host c s).1
  start-IsKeyed c s k = record {
    at = λ j h e. elim (Bool-cases (str_eq c.name j)) [
      | inl same ↦ start_key c s k j h ((str_eq_iff c.name j).0 same) e
      | inr other ↦
          k.at j h
            (sym (start-frame driver host c s j (λ p. cc (other, (str_eq_iff c.name j).1 p))) ∙ e)
    ];
  }

  after-IsKeyed : (call : Call) (s : Manager W) → IsKeyed s → IsKeyed (after driver host call s)
  unfolding after
  after-IsKeyed (start c) s k = start-IsKeyed c s k
  after-IsKeyed (stop n) s k = same-IsKeyed (stop-same driver host n s) k
  after-IsKeyed (kill n) s k = same-IsKeyed (kill-same driver host n s) k
  after-IsKeyed (pause n) s k = same-IsKeyed (pause-same driver host n s) k
  after-IsKeyed (resume n) s k = same-IsKeyed (resume-same driver host n s) k
  after-IsKeyed (state n) s k = same-IsKeyed (state-same driver host n s) k
  after-IsKeyed (get_ip n) s k = same-IsKeyed (get_ip-same driver host n s) k
  after-IsKeyed (stop_by_handle a) s k = same-IsKeyed (stop_by_handle-same driver host a s) k
  after-IsKeyed (kill_by_handle a) s k = same-IsKeyed (kill_by_handle-same driver host a s) k

  -- If the driver boots machines under the name that it was asked for, then after any calls on
  -- a table in which each handle stands under its own name, each handle still does.
  pub after_all-IsKeyed :
      (calls : List Call) (s : Manager W) → IsKeyed s → IsKeyed (after_all driver host calls s)
  unfolding after_all
  after_all-IsKeyed [] s k = k
  after_all-IsKeyed (call ∷ calls) s k =
      after_all-IsKeyed calls (after driver host call s) (after-IsKeyed call s k)
