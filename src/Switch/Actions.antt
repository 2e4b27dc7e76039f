-- ===== src/Switch/Actions.antt =====
-- The switch of src/network/switch.rs under any sequence of `add_port`, `start`, `stop` and turns of
-- `forwarding_loop`.
use vm_rs.Prelude.{
  ℕ, suc, ◌+◌, ◌≤◌, ◌≡◌, refl, inl, inr, sym, Bool, false, Option, none, some, List, [], ◌∷◌, arith,
}
use vm_rs.Prelude.Tests.{if◌then◌else◌, Bool-cases, keep-if}
use vm_rs.Prelude.Lists.{All, All-map, All-append, length}
use vm_rs.Prelude.Text.{Str, str_eq, str_eq_iff, str_eq_refl}
use vm_rs.Prelude.Map.{Map, lookup, All-lookup, Unique}
use vm_rs.Result.{Result, ok, err, IoError}
use vm_rs.Switch.{
  NetworkSwitch, Sent, Slot, Event, not_ready, recv_error, received, MacAddress, MacTable, Seen,
  Round, Turn, Added, learn, learn_in, known_port, port_of, table_port, port_in, handle_event,
  handle_events, handle_frame, handle_parsed, deliver, add_port, or_default, age, sweep,
  retain_young, second, slots_from, poll_set, with_events, turn,
}
use vm_rs.Switch
use vm_rs.Switch.Invariant.{
  IsSound, HasPort, EntryOk, TableOk, SlotOk, events-IsSound, add_port-IsSound, age-IsSound,
}

abbrev SlotAt : Map (List ℕ) → Slot → Type 0
SlotAt nets slot = HasPort (lookup slot.net nets) slot.port

slots-at :
    (nets : Map (List ℕ)) (net : Str) (fds : List ℕ) (idx : ℕ) (rest : List ℕ)
    → lookup net nets ≡ some fds
    → idx + length rest ≤ length fds
    → All (SlotAt nets) (slots_from net idx rest)
unfolding slots_from
slots-at nets net fds idx [] e h = tt
slots-at nets net fds idx (fd ∷ rest) e h =
    (rw e (omega arith), slots-at nets net fds (suc idx) rest e (omega arith))

HasPort-cons :
    (net j : Str) (fds : List ℕ) (nets : Map (List ℕ)) (p : ℕ)
    → lookup net nets ≡ none
    → HasPort (lookup j nets) p
    → HasPort (lookup j ((net, fds) ∷ nets)) p
unfolding lookup
HasPort-cons net j fds nets p fresh h = elim (Bool-cases (str_eq net j)) [
  | inl same ↦ absurd (rw (sym ((str_eq_iff net j).0 same), fresh) at h)
  | inr other ↦ rw other h
]

lookup_head :
    (net : Str) (fds : List ℕ) (nets : Map (List ℕ)) → lookup net ((net, fds) ∷ nets) ≡ some fds
unfolding lookup
lookup_head net fds nets = rw str_eq_refl

poll_set-at : (nets : Map (List ℕ)) → Unique nets → All (SlotAt nets) (poll_set nets)
unfolding poll_set
poll_set-at [] u = tt
poll_set-at ((net, fds) ∷ nets) (fresh, u) =
    All-append (SlotAt ((net, fds) ∷ nets)) (slots_from net 0 fds) (poll_set nets)
      (slots-at ((net, fds) ∷ nets) net fds 0 fds (lookup_head net fds nets) (omega arith))
      (All-map (λ slot. HasPort-cons net slot.net fds nets slot.port fresh) (poll_set nets)
        (poll_set-at nets u))

with_events-ok :
    (nets : Map (List ℕ)) (slots : List Slot) (events : List Event)
    → All (SlotAt nets) slots
    → All (SlotOk nets) (with_events slots events)
unfolding with_events
with_events-ok nets [] events h = tt
with_events-ok nets (slot ∷ slots) [] (p, h) = (p, with_events-ok nets slots [] h)
with_events-ok nets (slot ∷ slots) (event ∷ events) (p, h) = (p, with_events-ok nets slots events h)

-- What other threads and the loop do to the switch.
pub data Action : Type 0 where
  add : (net : Str) (pair : Result IoError (ℕ × ℕ)) → Action
  begin : (spawned : Result IoError ℕ) → Action
  halt : Action
  go_round : Round → Action

abbrev after_turn : NetworkSwitch → Option Turn → NetworkSwitch
after_turn s none = record s { running = false }
after_turn s (some (s', sent)) = s'

unfoldable pub act : Action → NetworkSwitch → NetworkSwitch
act (add net pair) s = (add_port net pair s).1
act (begin spawned) s = (Switch.start spawned s).1
act halt s = Switch.stop s
act (go_round r) s = after_turn (age r.now s) (turn r s)

unfoldable pub act_all : List Action → NetworkSwitch → NetworkSwitch
act_all [] s = s
act_all (a ∷ rest) s = act_all rest (act a s)

turn-IsSound :
    (r : Round) (s : NetworkSwitch) → IsSound s → IsSound (after_turn (age r.now s) (turn r s))
unfolding turn
turn-IsSound r s h =
    let aged = age r.now s in
    let kept = age-IsSound r.now s h in
    keep-if (λ o. IsSound (after_turn aged o)) aged.networks_poisoned
      (record { tables = kept.tables; unique = kept.unique })
      (keep-if (λ o. IsSound (after_turn aged o)) r.any_ready
        (events-IsSound aged.networks _ aged
          (with_events-ok aged.networks (poll_set aged.networks) r.events
            (poll_set-at aged.networks kept.unique))
          kept).0
        kept)

abbrev Started : Type 0
Started = Result IoError (Unit {0}) × NetworkSwitch

act-IsSound : (a : Action) (s : NetworkSwitch) → IsSound s → IsSound (act a s)
unfolding act Switch.start Switch.stop
act-IsSound (add net pair) s h = add_port-IsSound net pair s h
act-IsSound (begin (ok now)) s h =
    keep-if (λ (r : Started). IsSound r.1) s.running h
      (keep-if (λ (r : Started). IsSound r.1) s.worker_poisoned
        (record { tables = h.tables; unique = h.unique })
        (record { tables = h.tables; unique = h.unique }))
act-IsSound (begin (err e)) s h =
    keep-if (λ (r : Started). IsSound r.1) s.running h
      (record { tables = h.tables; unique = h.unique })
act-IsSound halt s h = record { tables = h.tables; unique = h.unique }
act-IsSound (go_round r) s h = turn-IsSound r s h

-- From a switch in which every learnt address is at a port that its network has and no network is
-- listed twice, any sequence of added ports, starts, stops and turns of the loop, with any
-- frames, clocks and failures, leads to such a switch.
pub act_all-IsSound :
    (acts : List Action) (s : NetworkSwitch) → IsSound s → IsSound (act_all acts s)
unfolding act_all
act_all-IsSound [] s h = h
act_all-IsSound (a ∷ acts) s h = act_all-IsSound acts (act a s) (act-IsSound a s h)

pub new-IsSound : IsSound Switch.new
unfolding Switch.new
new-IsSound = record { tables = tt; unique = tt }

port_in_ok :
    (nets : Map (List ℕ)) (net : Str) (mac : MacAddress) (t : MacTable) (p : ℕ)
    → All (EntryOk nets net) t
    → table_port mac (some t) ≡ some p
    → HasPort (lookup net nets) p
port_in_ok nets net mac t p h e = go (lookup mac t) refl e
  where
    go : (o : Option Seen) → lookup mac t ≡ o → port_in o ≡ some p → HasPort (lookup net nets) p
    go none q e = cc
    go (some seen) q e =
        let port : seen.port ≡ p = ground arith in
        rw (sym port) (All-lookup (EntryOk nets net) mac seen t q h)

-- In a switch that satisfies the invariant, a port that is known for an address exists in that
-- network, so the range test before a unicast send never fails there.
pub known_port-HasPort :
    (s : NetworkSwitch) (net : Str) (mac : MacAddress) (p : ℕ)
    → IsSound s
    → known_port net mac s ≡ some p
    → HasPort (lookup net s.networks) p
unfolding known_port port_of
known_port-HasPort s net mac p h e = go (lookup net s.mac_tables) refl (if_some s.tables_poisoned e)
  where
    if_some : (b : Bool) {o : Option ℕ} → (if b then none else o) ≡ some p → o ≡ some p
    if_some b q = ground arith

    go :
        (o : Option MacTable)
        → lookup net s.mac_tables ≡ o
        → table_port mac o ≡ some p
        → HasPort (lookup net s.networks) p
    go none q e = cc
    go (some t) q e =
        port_in_ok s.networks net mac t p
          (All-lookup (TableOk s.networks) net t s.mac_tables q h.tables) e
