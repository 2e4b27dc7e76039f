-- ===== src/Switch.antt =====
-- src/network/switch.rs: the userspace Ethernet switch. One turn of `forwarding_loop` is a function of
-- the switch's state and of what the system calls return in it: the flag that was read, the clock,
-- and for each port the readiness and the datagram. Its result is the new state and the frames sent.
pub mod Actions
pub mod Forwarding
pub mod Invariant
pub mod Learning
use vm_rs.Prelude.{
  ℕ, zero, suc, ◌+◌, ◌-◌, ◌/◌, ◌%◌, Bool, true, false, ◌&&◌, ◌||◌, Option, none, some, List, [],
  ◌∷◌, ◌++◌,
}
use vm_rs.Prelude.Tests.{ltb, leb, not, ◌==◌, if◌then◌else◌}
use vm_rs.Prelude.Lists.{length, take, drop, get_elem?}
use vm_rs.Prelude.Text.{Str, str_eq, codes}
use vm_rs.Prelude.Map.{Map, lookup, insert}
use vm_rs.Result.{Result, ok, err, IoError}
use vm_rs.Config.{VmSocketEndpoint}

abbrev pub min_frame_size : ℕ
min_frame_size = 14

abbrev pub max_frame_size : ℕ
max_frame_size = 1518

-- The nanoseconds of a second; an `Instant` is a number of nanoseconds.
abbrev pub second : ℕ
second = 1_000_000_000

-- `MacAddress([u8; 6])`: the six bytes.
abbrev pub MacAddress : Type 0
MacAddress = List ℕ

unfoldable pub from_bytes : List ℕ → Option MacAddress
from_bytes bytes = if ltb (length bytes) 6 then none else some (take 6 bytes)

unfoldable pub is_broadcast : MacAddress → Bool
is_broadcast mac = str_eq mac (255 ∷ 255 ∷ 255 ∷ 255 ∷ 255 ∷ 255 ∷ [])

-- `self.0[0] & 0x01 != 0`: the low bit of the first byte.
unfoldable pub is_multicast : MacAddress → Bool
is_multicast [] = false
is_multicast (b ∷ mac) = b % 2 == 1

-- The port and the time at which an address was last seen.
pub record Seen : Type 0 where
  pub port : ℕ
  pub ts : ℕ

abbrev pub MacTable : Type 0
MacTable = Map Seen

-- A `SwitchPort` is the number of the file descriptor that it owns. The three locks may be poisoned;
-- `worker` says whether a thread's handle is stored. `last_aged` is the variable of the loop.
pub record NetworkSwitch : Type 0 where
  pub networks : Map (List ℕ)
  pub networks_poisoned : Bool
  pub mac_tables : Map MacTable
  pub tables_poisoned : Bool
  pub running : Bool
  pub worker : Bool
  pub worker_poisoned : Bool
  pub last_aged : ℕ

unfoldable pub new : NetworkSwitch
new = record {
  networks = [];
  networks_poisoned = false;
  mac_tables = [];
  tables_poisoned = false;
  running = false;
  worker = false;
  worker_poisoned = false;
  last_aged = 0;
}

-- `entry(k).or_default()`.
unfoldable pub or_default {ℓ} : {V : Type ℓ} → V → Option V → V
or_default d none = d
or_default d (some v) = v

abbrev pub poisoned_error : IoError
poisoned_error = record {
  not_found = false;
  message = codes "lock poisoned: poisoned lock: another task failed inside";
}

abbrev pub Added : Type 0
Added = Result IoError VmSocketEndpoint × NetworkSwitch

-- `add_port`, given what `create_socketpair` returned: the switch's end and the machine's end.
unfoldable pub add_port : Str → Result IoError (ℕ × ℕ) → NetworkSwitch → Added
unfolding or_default
add_port net (err e) s = (err e, s)
add_port net (ok (switch_fd, vm_fd)) s =
    if s.networks_poisoned
    then (err poisoned_error, s)
    else (let s' = record s {
      networks = insert net (or_default [] (lookup net s.networks) ++ switch_fd ∷ []) s.networks;
    } in
        if s.tables_poisoned then (err poisoned_error, s') else (
          ok (record { fd = vm_fd }),
          record s' {
            mac_tables = insert net (or_default [] (lookup net s.mac_tables)) s.mac_tables;
          },
        ))

-- `start`: nothing if the flag is set; else the flag is set and the thread spawned, whose loop begins at
-- the time given, and its handle stored, unless the lock of the handle is poisoned.
unfoldable pub start : Result IoError ℕ → NetworkSwitch → Result IoError (Unit {0}) × NetworkSwitch
start spawned s = if s.running then (ok tt, s) else elim spawned [
  | err e ↦ (err e, record s { running = true })
  | ok now ↦
      if s.worker_poisoned
      then (err poisoned_error, record s { running = true; last_aged = now })
      else (ok tt, record s { running = true; worker = true; last_aged = now })
]

-- `stop`: the flag is cleared and the thread joined, whose handle a poisoned lock keeps.
unfoldable pub stop : NetworkSwitch → NetworkSwitch
stop s = record s { running = false; worker = s.worker && s.worker_poisoned }

-- The sweep of one table: entries seen less than 120 seconds ago stay.
unfoldable pub retain_young : ℕ → MacTable → MacTable
retain_young now [] = []
retain_young now ((mac, seen) ∷ table) =
    if ltb ((now - seen.ts) / second) 120
    then (mac, seen) ∷ retain_young now table
    else retain_young now table

unfoldable pub sweep : ℕ → Map MacTable → Map MacTable
unfolding retain_young
sweep now [] = []
sweep now ((net, table) ∷ tables) = (net, retain_young now table) ∷ sweep now tables

-- Every 30 seconds; a poisoned lock only skips the sweep.
unfoldable pub age : ℕ → NetworkSwitch → NetworkSwitch
age now s =
    if leb 30 ((now - s.last_aged) / second)
    then (if s.tables_poisoned
        then record s { last_aged = now }
        else record s { mac_tables = sweep now s.mac_tables; last_aged = now })
    else s

-- A frame handed to `send_frame`: the index of the port in its network, its descriptor, the bytes.
pub record Sent : Type 0 where
  pub port : ℕ
  pub fd : ℕ
  pub frame : List ℕ

-- The loop that floods a network, from index `idx` on, leaving out the source.
unfoldable pub flood_from : ℕ → List ℕ → ℕ → List ℕ → List Sent
flood_from idx [] src frame = []
flood_from idx (fd ∷ fds) src frame =
    let rest = flood_from (suc idx) fds src frame in
    if idx == src then rest else (record { port = idx; fd = fd; frame = frame }) ∷ rest

unfoldable pub flood : List ℕ → ℕ → List ℕ → List Sent
flood fds src frame = flood_from 0 fds src frame

unfoldable pub learn_in : Str → MacAddress → Seen → NetworkSwitch → Option MacTable → NetworkSwitch
learn_in net mac seen s (some table) = record s {
  mac_tables = insert net (insert mac seen table) s.mac_tables;
}
learn_in net mac seen s none = s

-- Learn: the source address is at the source port, if the network has a table.
unfoldable pub learn : Str → MacAddress → Seen → NetworkSwitch → NetworkSwitch
unfolding learn_in
learn net mac seen s =
    if s.tables_poisoned then s else learn_in net mac seen s (lookup net s.mac_tables)

-- `tables.get(net).and_then(|t| t.get(mac)).map(|(port, _)| *port)`.
abbrev pub port_in : Option Seen → Option ℕ
port_in none = none
port_in (some seen) = some seen.port

abbrev pub table_port : MacAddress → Option MacTable → Option ℕ
table_port mac none = none
table_port mac (some table) = port_in (lookup mac table)

unfoldable pub port_of : Str → MacAddress → Map MacTable → Option ℕ
port_of net mac tables = table_port mac (lookup net tables)

-- The port that the table of a network has for an address; a poisoned lock counts as unknown.
unfoldable pub known_port : Str → MacAddress → NetworkSwitch → Option ℕ
known_port net mac s = if s.tables_poisoned then none else port_of net mac s.mac_tables

-- The unicast branch: one port, if it is another one and in range; an unknown address is flooded.
unfoldable pub unicast : Option ℕ → List ℕ → ℕ → List ℕ → List Sent
unicast none fds src frame = flood fds src frame
unicast (some dst) fds src frame = if dst == src then [] else elim (get_elem? fds dst) [
  | some fd ↦ (record { port = dst; fd = fd; frame = frame }) ∷ []
  | none ↦ []
]

unfoldable pub forward : Str → MacAddress → List ℕ → ℕ → List ℕ → NetworkSwitch → List Sent
forward net dst fds src frame s =
    if is_broadcast dst || is_multicast dst
    then flood fds src frame
    else unicast (known_port net dst s) fds src frame

-- One port of the poll set: its network, its index there and its descriptor.
pub record Slot : Type 0 where
  pub net : Str
  pub port : ℕ
  pub fd : ℕ

-- What poll and recv say of one port: not readable, an error of `recv`, or a datagram and its time.
pub data Event : Type 0 where
  not_ready recv_error : Event
  received : (datagram : List ℕ) (at : ℕ) → Event

abbrev pub Turn : Type 0
Turn = NetworkSwitch × List Sent

-- The forwarding of a frame over the snapshot of its network's descriptors.
unfoldable pub deliver : Slot → MacAddress → List ℕ → NetworkSwitch → Option (List ℕ) → Turn
deliver slot dst frame s none = (s, [])
deliver slot dst frame s (some fds) = (s, forward slot.net dst fds slot.port frame s)

-- Learning and forwarding, once both addresses have been read.
unfoldable pub handle_parsed :
    Map (List ℕ) → Slot → List ℕ → ℕ → NetworkSwitch → Option MacAddress → Option MacAddress → Turn
unfolding deliver
handle_parsed port_fds slot frame at s (some dst) (some src) =
    let s' = learn slot.net src (record { port = slot.port; ts = at }) s in
    deliver slot dst frame s' (lookup slot.net port_fds)
handle_parsed port_fds slot frame at s _ _ = (s, [])

-- A frame whose length has been checked.
unfoldable pub handle_frame : Map (List ℕ) → Slot → List ℕ → ℕ → NetworkSwitch → Turn
handle_frame port_fds slot frame at s =
    handle_parsed port_fds slot frame at s (from_bytes (take 6 frame))
      (from_bytes (take 6 (drop 6 frame)))

-- The body of the loop over the poll set. `recv` cuts a datagram to the size of the buffer.
unfoldable pub handle_event : Map (List ℕ) → Slot → Event → NetworkSwitch → Turn
handle_event port_fds slot not_ready s = (s, [])
handle_event port_fds slot recv_error s = (s, [])
handle_event port_fds slot (received datagram at) s =
    let frame = take max_frame_size datagram in
    if ltb (length frame) min_frame_size then (s, []) else handle_frame port_fds slot frame at s

unfoldable pub handle_events : Map (List ℕ) → List (Slot × Event) → NetworkSwitch → Turn
handle_events port_fds [] s = (s, [])
handle_events port_fds ((slot, event) ∷ rest) s =
    let (s', sent) = handle_event port_fds slot event s in
    let (s'', more) = handle_events port_fds rest s' in (s'', sent ++ more)

-- The poll set: every port of every network, in the order of the snapshot.
unfoldable pub slots_from : Str → ℕ → List ℕ → List Slot
slots_from net idx [] = []
slots_from net idx (fd ∷ fds) =
    (record { net = net; port = idx; fd = fd }) ∷ slots_from net (suc idx) fds

unfoldable pub poll_set : Map (List ℕ) → List Slot
poll_set [] = []
poll_set ((net, fds) ∷ nets) = slots_from net 0 fds ++ poll_set nets

-- The events of a round, beside the ports that they are about; a missing one is a port not ready.
unfoldable pub with_events : List Slot → List Event → List (Slot × Event)
with_events [] events = []
with_events (slot ∷ slots) [] = (slot, not_ready) ∷ with_events slots []
with_events (slot ∷ slots) (event ∷ events) = (slot, event) ∷ with_events slots events

-- What the system returns in one turn of the loop: the flag as it was read, which another thread may
-- have cleared, the clock, the result of poll, and the events.
pub record Round : Type 0 where
  pub flag : Bool
  pub now : ℕ
  pub any_ready : Bool
  pub events : List Event

-- One turn of `while running`, after the flag was read as set; `none` is the `break` on a poisoned
-- lock. An empty poll set and a poll without readiness handle nothing.
unfoldable pub turn : Round → NetworkSwitch → Option Turn
turn r s =
    let aged = age r.now s in
    if aged.networks_poisoned
    then none
    else (if r.any_ready
        then some (handle_events aged.networks (with_events (poll_set aged.networks) r.events) aged)
        else some (aged, []))

-- The loop over the turns that the system grants; it ends early when the flag is found cleared.
unfoldable pub forwarding_loop : List Round → NetworkSwitch → Turn
forwarding_loop [] s = (s, [])
forwarding_loop (r ∷ rounds) s =
    if r.flag
    then elim (turn r s) [
      | none ↦ (record (age r.now s) { running = false }, [])
      | some (s', sent) ↦ (let (s'', more) = forwarding_loop rounds s' in (s'', sent ++ more))
    ]
    else (record s { running = false }, [])
