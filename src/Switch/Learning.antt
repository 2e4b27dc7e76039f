-- ===== src/Switch/Learning.antt =====
-- What `forwarding_loop` (src/network/switch.rs) learns from a frame, and what it does with that.
use vm_rs.Prelude.{
  ℕ, ◌≤◌, ◌<◌, ◌≡◌, ◌≢◌, refl, ap, ◌∙◌, inl, inr, false, ◌&&◌, Option, none, some, List, [], ◌∷◌,
  arith,
}
use vm_rs.Prelude.Tests.{Bool-cases, Option-cases, if◌then◌else◌, ltb, le→ltb_false, lt→ltb}
use vm_rs.Prelude.Lists.{length, get_elem?, take, drop, length-take, length-drop, take_of_length-le}
use vm_rs.Prelude.Text.{Str, str_eq, str_eq_iff, str_eq_refl}
use vm_rs.Prelude.Map.{Map, lookup, insert, lookup-insert}
use vm_rs.Switch.{
  NetworkSwitch, Slot, received, MacAddress, MacTable, Seen, unicast, forward, learn, known_port,
  port_of, is_broadcast, is_multicast, handle_event, handle_frame, handle_parsed, deliver,
  from_bytes, max_frame_size, min_frame_size,
}

-- What is known after learning, at every network and address.
pub known_port-learn :
    (net net' : Str) (mac mac' : MacAddress) (seen : Seen) (table : MacTable) (s : NetworkSwitch)
    → s.tables_poisoned ≡ false
    → lookup net s.mac_tables ≡ some table
    → known_port net' mac' (learn net mac seen s)
      ≡ (if str_eq net net' && str_eq mac mac' then some seen.port else known_port net' mac' s)
unfolding learn known_port port_of
known_port-learn net net' mac mac' seen table s p t = ground (
  arith,
  lookup-insert net net' (insert mac seen table) s.mac_tables,
  lookup-insert mac mac' seen table,
  str_eq_iff net net',
)

-- A frame to an address that is neither broadcast nor multicast, and that is known at a port of
-- the network other than the source, is sent to that port and nowhere else.
pub forward_known :
    (net : Str) (dst : MacAddress) (fds : List ℕ) (src p fd : ℕ) (frame : List ℕ)
    (s : NetworkSwitch)
    → is_multicast dst ≡ false
    → is_broadcast dst ≡ false
    → known_port net dst s ≡ some p
    → p ≢ src
    → get_elem? fds p ≡ some fd
    → forward net dst fds src frame s ≡ (record { port = p; fd = fd; frame = frame }) ∷ []
unfolding forward unicast
forward_known net dst fds src p fd frame s m b k h e = ground (arith)

-- The addresses of a frame.
abbrev pub dst_of : List ℕ → MacAddress
dst_of frame = take 6 frame

abbrev pub src_of : List ℕ → MacAddress
src_of frame = take 6 (drop 6 frame)

from_bytes_six : (mac : List ℕ) → length mac ≡ 6 → from_bytes mac ≡ some mac
unfolding from_bytes
from_bytes_six mac h =
    let short : ltb (length mac) 6 ≡ false = ground arith in
    rw short (ap some (take_of_length-le 6 mac (omega arith)))

handle_frame_long :
    (port_fds : Map (List ℕ)) (slot : Slot) (frame : List ℕ) (at : ℕ) (s : NetworkSwitch)
    → 14 ≤ length frame
    → handle_frame port_fds slot frame at s
      ≡ deliver slot
          (dst_of frame)
          frame
          (learn slot.net (src_of frame) (record { port = slot.port; ts = at }) s)
          (lookup slot.net port_fds)
unfolding handle_frame handle_parsed
handle_frame_long port_fds slot frame at s h = rw (
  from_bytes_six (dst_of frame) (omega (arith, length-take 6 frame)),
  from_bytes_six (src_of frame) (omega (arith, length-take 6 (drop 6 frame), length-drop 6 frame)),
)

-- A datagram of at least the smallest size is learnt from, then forwarded.
handle_event_long :
    (port_fds : Map (List ℕ)) (slot : Slot) (datagram : List ℕ) (at : ℕ) (s : NetworkSwitch)
    → min_frame_size ≤ length (take max_frame_size datagram)
    → handle_event port_fds slot (received datagram at) s
      ≡ handle_frame port_fds slot (take max_frame_size datagram) at s
unfolding handle_event
handle_event_long port_fds slot datagram at s h =
    rw (le→ltb_false (length (take max_frame_size datagram)) min_frame_size h)

-- A frame shorter than an Ethernet header is dropped: nothing is learnt or sent.
pub handle_event_short :
    (port_fds : Map (List ℕ)) (slot : Slot) (datagram : List ℕ) (at : ℕ) (s : NetworkSwitch)
    → length datagram < min_frame_size
    → handle_event port_fds slot (received datagram at) s ≡ (s, [])
unfolding handle_event
handle_event_short port_fds slot datagram at s h = rw (
    lt→ltb (length (take max_frame_size datagram)) min_frame_size
      (omega (arith, length-take max_frame_size datagram)))

state-deliver :
    (slot : Slot) (dst : MacAddress) (frame : List ℕ) (s : NetworkSwitch) (o : Option (List ℕ))
    → (deliver slot dst frame s o).0 ≡ s
unfolding deliver
state-deliver slot dst frame s none = refl
state-deliver slot dst frame s (some fds) = refl

-- With a lock that is not poisoned and a network that has a table: after a full frame its source
-- address is known in its network at the port that it came from, and every other pair of a
-- network and an address is known as before.
pub known_port-handle_frame :
    (port_fds : Map (List ℕ)) (slot : Slot) (frame : List ℕ) (at : ℕ) (table : MacTable)
    (s : NetworkSwitch) (net' : Str) (mac' : MacAddress)
    → min_frame_size ≤ length frame
    → s.tables_poisoned ≡ false
    → lookup slot.net s.mac_tables ≡ some table
    → known_port net' mac' (handle_frame port_fds slot frame at s).0 ≡ (
        if str_eq slot.net net' && str_eq (src_of frame) mac'
        then some slot.port
        else known_port net' mac' s)
known_port-handle_frame port_fds slot frame at table s net' mac' long p t =
    rw (handle_frame_long port_fds slot frame at s long, state-deliver)
      (known_port-learn slot.net net' (src_of frame) mac' _ table s p t)

poisoned-learn :
    (net : Str) (mac : MacAddress) (seen : Seen) (s : NetworkSwitch)
    → (learn net mac seen s).tables_poisoned ≡ s.tables_poisoned
unfolding learn
poisoned-learn net mac seen s = ground arith

table-learn :
    (net : Str) (mac : MacAddress) (seen : Seen) (table : MacTable) (s : NetworkSwitch)
    → s.tables_poisoned ≡ false
    → lookup net s.mac_tables ≡ some table
    → lookup net (learn net mac seen s).mac_tables ≡ some (insert mac seen table)
unfolding learn
table-learn net mac seen table s p t =
    ground (arith, lookup-insert net net (insert mac seen table) s.mac_tables, str_eq_refl net)

str_eq_ne : (s t : Str) → s ≢ t → str_eq s t ≡ false
str_eq_ne s t h = ground (arith, str_eq_iff s t)

-- The broadcast address is a group address.
not-is_broadcast : (mac : MacAddress) → is_multicast mac ≡ false → is_broadcast mac ≡ false
unfolding is_multicast is_broadcast str_eq
not-is_broadcast [] h = refl
not-is_broadcast (b ∷ mac) h = ground arith

-- A network has a table, whose lock is not poisoned, and an address is known in it at a port.
record Knows (net : Str) (mac : MacAddress) (p : ℕ) (s : NetworkSwitch) : Type 0 where
  unlocked : s.tables_poisoned ≡ false
  table : (t : MacTable) × (lookup net s.mac_tables ≡ some t)
  known : known_port net mac s ≡ some p

learn-missing :
    (net : Str) (mac : MacAddress) (seen : Seen) (s : NetworkSwitch)
    → lookup net s.mac_tables ≡ none
    → learn net mac seen s ≡ s
unfolding learn
learn-missing net mac seen s h = elim (Bool-cases s.tables_poisoned) [
  | inl e ↦ simp e
  | inr e ↦ simp (e, h)
]

table-learn-any :
    (net net' : Str) (mac : MacAddress) (seen : Seen) (table table' : MacTable) (s : NetworkSwitch)
    → s.tables_poisoned ≡ false
    → lookup net s.mac_tables ≡ some table
    → lookup net' s.mac_tables ≡ some table'
    → (t : MacTable) × (lookup net (learn net' mac seen s).mac_tables ≡ some t)
unfolding learn
table-learn-any net net' mac seen table table' s p e e' = elim (Bool-cases (str_eq net' net)) [
  | inl here ↦ (insert mac seen table', simp (p, e', lookup-insert, here))
  | inr there ↦ (table, simp (p, e', lookup-insert, there, e))
]

-- A frame of another station, on this network or another, with a table or not.
learn-Knows :
    (net net' : Str) (mac mac' : MacAddress) (p : ℕ) (seen : Seen) (s : NetworkSwitch)
    → mac' ≢ mac
    → Knows net mac p s
    → Knows net mac p (learn net' mac' seen s)
learn-Knows net net' mac mac' p seen s other k = elim (Option-cases (lookup net' s.mac_tables)) [
  | inl none' ↦ rw (learn-missing net' mac' seen s none') k
  | inr (table', there) ↦ record {
    unlocked = poisoned-learn net' mac' seen s ∙ k.unlocked;
    table = table-learn-any net net' mac' seen k.table.0 table' s k.unlocked k.table.1 there;
    known =
        known_port-learn net' net mac' mac seen table' s k.unlocked there
        ∙ (rw (str_eq_ne mac' mac other) (ground (arith, k.known)));
  }
]

-- A full frame that came in from a slot at some time.
abbrev pub Heard : Type 0
Heard = Slot × List ℕ × ℕ

-- Frames that are handled one after the other, with no ageing in between.
unfoldable pub handle_frames : Map (List ℕ) → List Heard → NetworkSwitch → NetworkSwitch
unfolding handle_frame
handle_frames port_fds [] s = s
handle_frames port_fds ((slot, frame, at) ∷ heard) s =
    handle_frames port_fds heard (handle_frame port_fds slot frame at s).0

-- Every frame is a full one from another station.
abbrev pub FromOthers : MacAddress → List Heard → Type 0
FromOthers mac [] = Unit
FromOthers mac ((slot, frame, at) ∷ heard) =
    (min_frame_size ≤ length frame) × (src_of frame ≢ mac) × FromOthers mac heard

handle_frames-Knows :
    (port_fds : Map (List ℕ)) (net : Str) (mac : MacAddress) (p : ℕ) (heard : List Heard)
    (s : NetworkSwitch)
    → FromOthers mac heard
    → Knows net mac p s
    → Knows net mac p (handle_frames port_fds heard s)
unfolding handle_frames
handle_frames-Knows port_fds net mac p [] s others k = k
handle_frames-Knows port_fds net mac p ((slot, frame, at) ∷ heard) s (long, other, others) k =
    handle_frames-Knows port_fds net mac p heard (handle_frame port_fds slot frame at s).0 others (
      rw (handle_frame_long port_fds slot frame at s long, state-deliver)
        (learn-Knows net slot.net mac (src_of frame) p _ s other k))

-- Station `a` sends a full frame from a port that its network has; the network has a table, whose
-- lock is not poisoned, and the address of `a` is not a multicast address. Any full frames of
-- other stations follow, on any networks, with no ageing in between. Then a full frame to that
-- address, from another port of the network and with another source address, is sent to the port
-- of `a` and nowhere else.
pub reply_reaches_sender :
    (port_fds : Map (List ℕ)) (a b : Slot) (fds : List ℕ) (frame reply : List ℕ) (at at' : ℕ)
    (table : MacTable) (heard : List Heard) (s : NetworkSwitch)
    → min_frame_size ≤ length frame
    → min_frame_size ≤ length reply
    → s.tables_poisoned ≡ false
    → lookup a.net s.mac_tables ≡ some table
    → lookup a.net port_fds ≡ some fds
    → get_elem? fds a.port ≡ some a.fd
    → b.net ≡ a.net
    → a.port ≢ b.port
    → dst_of reply ≡ src_of frame
    → src_of reply ≢ src_of frame
    → is_multicast (src_of frame) ≡ false
    → FromOthers (src_of frame) heard
    → (handle_frame port_fds b reply at'
        (handle_frames port_fds heard (handle_frame port_fds a frame at s).0)).1
      ≡ (record { port = a.port; fd = a.fd; frame = reply }) ∷ []
unfolding deliver
reply_reaches_sender port_fds a b fds frame reply at at' table heard s l l' p t f g n h d e m o =
    let seen : Seen = record { port = a.port; ts = at } in
    let seen' : Seen = record { port = b.port; ts = at' } in
    let learnt : Knows a.net (src_of frame) a.port (learn a.net (src_of frame) seen s) = record {
      unlocked = poisoned-learn a.net (src_of frame) seen s ∙ p;
      table = (insert (src_of frame) seen table, table-learn a.net (src_of frame) seen table s p t);
      known = simp (
        known_port-learn a.net a.net (src_of frame) (src_of frame) seen table s p t,
        str_eq_refl,
      );
    } in
    let s' = handle_frames port_fds heard (learn a.net (src_of frame) seen s) in
    let kept =
      learn-Knows a.net a.net (src_of frame) (src_of reply) a.port seen' s' e
        (handle_frames-Knows port_fds a.net (src_of frame) a.port heard _ o learnt) in
    rw (handle_frame_long port_fds a frame at s l, state-deliver)
      (rw (handle_frame_long port_fds b reply at' s' l', n, f, deliver)
        (rw (d, n)
          (forward_known a.net (src_of frame) fds b.port a.port a.fd reply
            (learn a.net (src_of reply) seen' s') m (not-is_broadcast (src_of frame) m) kept.known h
            g)))
