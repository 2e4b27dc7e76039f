-- ===== src/Examples/Frames.antt =====
-- Two networks and frames on them, for src/network/switch.rs.
use vm_rs.Prelude.{ℕ, ◌≡◌, ◌≢◌, refl, true, false, List, [], ◌∷◌, ◌++◌, arith}
use vm_rs.Prelude.Lists.{All, take}
use vm_rs.Prelude.Text.{Str, codes, str_eq, str_eq_iff}
use vm_rs.Prelude.Map.{lookup}
use vm_rs.Result.{ok}
use vm_rs.Switch
use vm_rs.Switch.Forwarding.{StaysIn, handle_event-StaysIn}
use vm_rs.Switch.Learning.{src_of, handle_frames, reply_reaches_sender}
use vm_rs.Switch.Invariant.{IsSound}
use vm_rs.Switch.Actions.{Action, act_all, act_all-IsSound, new-IsSound}

abbrev lan : Str
lan = codes "lan"

abbrev mac : ℕ → List ℕ
mac n = 2 ∷ 0 ∷ 0 ∷ 0 ∷ 0 ∷ n ∷ []

-- From the second station to the first, and back.
abbrev frame : List ℕ
frame = mac 1 ++ (mac 2 ++ (8 ∷ 0 ∷ 1 ∷ 2 ∷ 3 ∷ []))

abbrev reply : List ℕ
reply = mac 2 ++ (mac 1 ++ (8 ∷ 0 ∷ 9 ∷ []))

abbrev slot : ℕ → ℕ → Switch.Slot
slot port fd = record { net = lan; port = port; fd = fd }

-- Three ports on one network and one on another.
abbrev plugging : List Action
plugging =
    Action.add lan (ok (10, 20))
    ∷ Action.add lan (ok (11, 21))
    ∷ Action.add lan (ok (12, 22))
    ∷ Action.add (codes "wan") (ok (13, 23))
    ∷ Action.begin (ok 0)
    ∷ []

abbrev round : Switch.Round
round = record {
  flag = true;
  now = 5;
  any_ready = true;
  events = Switch.not_ready ∷ Switch.received frame 6 ∷ Switch.received reply 7 ∷ [];
}

abbrev switch : Switch.NetworkSwitch
switch = record {
  networks = (lan, 10 ∷ 11 ∷ 12 ∷ []) ∷ (codes "wan", 13 ∷ []) ∷ [];
  networks_poisoned = false;
  mac_tables = (lan, []) ∷ (codes "wan", []) ∷ [];
  tables_poisoned = false;
  running = true;
  worker = true;
  worker_poisoned = false;
  last_aged = 0;
}

-- The same after the first station has been heard at its port.
abbrev learnt : Switch.NetworkSwitch
learnt = record switch {
  mac_tables = (lan, (mac 1, record { port = 0; ts = 3 }) ∷ []) ∷ (codes "wan", []) ∷ [];
}

learnt-IsSound : IsSound learnt
unfolding lookup str_eq
learnt-IsSound = record { tables = ((omega arith, tt), (tt, tt)); unique = (refl, (refl, tt)) }

handle_event-StaysIn_example :
    All
      (StaysIn switch.networks (slot 1 11) (take Switch.max_frame_size frame))
      (Switch.handle_event switch.networks (slot 1 11) (Switch.received frame 6) switch).1
handle_event-StaysIn_example = handle_event-StaysIn switch.networks (slot 1 11) frame 6 switch

other_station : src_of reply ≢ src_of frame
unfolding str_eq
other_station e =
    let same : str_eq (src_of reply) (src_of frame) ≡ true = (str_eq_iff _ _).1 e in cc

-- A third station is heard in between.
abbrev third : List ℕ
third = mac 1 ++ (mac 3 ++ (8 ∷ 0 ∷ 5 ∷ []))

third_station : src_of third ≢ src_of frame
unfolding str_eq
third_station e =
    let same : str_eq (src_of third) (src_of frame) ≡ true = (str_eq_iff _ _).1 e in cc

reply_reaches_sender_example :
    (Switch.handle_frame switch.networks (slot 0 10) reply 7 (
      handle_frames switch.networks
        ((slot 2 12, third, 6) ∷ [])
        (Switch.handle_frame switch.networks (slot 1 11) frame 6 switch).0)).1
    ≡ (record { port = 1; fd = 11; frame = reply }) ∷ []
unfolding lookup str_eq Switch.is_multicast
reply_reaches_sender_example =
    reply_reaches_sender switch.networks (slot 1 11) (slot 0 10) (10 ∷ 11 ∷ 12 ∷ []) frame reply 6 7
      [] ((slot 2 12, third, 6) ∷ []) switch (omega arith) (omega arith) refl refl refl refl refl
      (omega arith) refl other_station refl (omega arith, third_station, tt)

act_all-IsSound_example :
    IsSound (act_all (plugging ++ (Action.go_round round ∷ Action.halt ∷ [])) Switch.new)
act_all-IsSound_example =
    act_all-IsSound (plugging ++ (Action.go_round round ∷ Action.halt ∷ [])) Switch.new new-IsSound
