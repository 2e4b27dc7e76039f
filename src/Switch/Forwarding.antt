-- ===== src/Switch/Forwarding.antt =====
-- Where `forwarding_loop` (src/network/switch.rs) sends a frame.
use vm_rs.Prelude.{
  ℕ, zero, suc, ◌+◌, ◌-◌, ◌≤◌, ◌<◌, ◌≡◌, ◌≢◌, refl, inl, inr, Bool, true, false, ◌||◌, Option, none,
  some, List, [], ◌∷◌, arith,
}
use vm_rs.Prelude.Tests.{if◌then◌else◌, Bool-cases, ◌==◌, ltb}
use vm_rs.Prelude.Lists.{All, All-map, length, get_elem?, take, Member}
use vm_rs.Prelude.Text.{Str}
use vm_rs.Prelude.Map.{Map, lookup}
use vm_rs.Switch.{
  NetworkSwitch, Sent, Slot, received, MacAddress, flood_from, flood, unicast, forward, known_port,
  is_broadcast, is_multicast, handle_frame, handle_event, handle_parsed, deliver, max_frame_size,
  min_frame_size,
}

-- A frame sent to a port of the listed ones that is not the source, unchanged.
pub record IsTo (fds : List ℕ) (src : ℕ) (frame : List ℕ) (x : Sent) : Type 0 where
  pub other : x.port ≢ src
  pub owned : get_elem? fds x.port ≡ some x.fd
  pub same : x.frame ≡ frame

-- The same with the ports counted from `idx`.
record IsToFrom (idx : ℕ) (fds : List ℕ) (src : ℕ) (frame : List ℕ) (x : Sent) : Type 0 where
  above : idx ≤ x.port
  other : x.port ≢ src
  owned : get_elem? fds (x.port - idx) ≡ some x.fd
  same : x.frame ≡ frame

weaken :
    (idx fd : ℕ) (fds : List ℕ) (src : ℕ) (frame : List ℕ) (x : Sent)
    → IsToFrom (suc idx) fds src frame x
    → IsToFrom idx (fd ∷ fds) src frame x
weaken idx fd fds src frame x h = record {
  above = omega (arith, h.above);
  other = h.other;
  owned = (let e : x.port - idx ≡ suc (x.port - suc idx) = omega (arith, h.above) in rw e h.owned);
  same = h.same;
}

flood_from-IsToFrom :
    (idx : ℕ) (fds : List ℕ) (src : ℕ) (frame : List ℕ)
    → All (IsToFrom idx fds src frame) (flood_from idx fds src frame)
unfolding flood_from
flood_from-IsToFrom idx [] src frame = tt
flood_from-IsToFrom idx (fd ∷ fds) src frame =
    let rest =
      All-map (weaken idx fd fds src frame) (flood_from (suc idx) fds src frame)
        (flood_from-IsToFrom (suc idx) fds src frame) in
    elim (Bool-cases (idx == src)) [
      | inl same ↦ rw same rest
      | inr other ↦ rw other (here other, rest)
    ]
  where
    here :
        (idx == src) ≡ false
        → IsToFrom idx (fd ∷ fds) src frame (record { port = idx; fd = fd; frame = frame })
    here other = record {
      above = omega arith;
      other = ground arith;
      owned = (let e : idx - idx ≡ zero = omega arith in rw e refl);
      same = refl;
    }

from_zero :
    (fds : List ℕ) (src : ℕ) (frame : List ℕ) (x : Sent)
    → IsToFrom 0 fds src frame x
    → IsTo fds src frame x
from_zero fds src frame x h = record {
  other = h.other;
  owned = (let e : x.port - 0 ≡ x.port = omega arith in rw e at h.owned);
  same = h.same;
}

flood-IsTo :
    (fds : List ℕ) (src : ℕ) (frame : List ℕ) → All (IsTo fds src frame) (flood fds src frame)
unfolding flood
flood-IsTo fds src frame =
    All-map (from_zero fds src frame) (flood_from 0 fds src frame)
      (flood_from-IsToFrom 0 fds src frame)

unicast-IsTo :
    (dst : Option ℕ) (fds : List ℕ) (src : ℕ) (frame : List ℕ)
    → All (IsTo fds src frame) (unicast dst fds src frame)
unfolding unicast
unicast-IsTo none fds src frame = flood-IsTo fds src frame
unicast-IsTo (some p) fds src frame = elim (Bool-cases (p == src)) [
  | inl same ↦ rw same tt
  | inr other ↦ rw other (one (get_elem? fds p) refl other)
]
  where
    one :
        (o : Option ℕ)
        → get_elem? fds p ≡ o
        → (p == src) ≡ false
        → All
            (IsTo fds src frame)
            (elim o [ some fd ↦ (record { port = p; fd = fd; frame = frame }) ∷ [] | none ↦ [] ])
    one none e other = tt
    one (some fd) e other = (record { other = ground arith; owned = e; same = refl }, tt)

-- Wherever a frame is forwarded, it goes unchanged to ports of the given list other than the
-- source.
pub forward-IsTo :
    (net : Str) (dst : MacAddress) (fds : List ℕ) (src : ℕ) (frame : List ℕ) (s : NetworkSwitch)
    → All (IsTo fds src frame) (forward net dst fds src frame s)
unfolding forward
forward-IsTo net dst fds src frame s = elim (Bool-cases (is_broadcast dst || is_multicast dst)) [
  | inl group ↦ rw group (flood-IsTo fds src frame)
  | inr single ↦ rw single (unicast-IsTo (known_port net dst s) fds src frame)
]

-- The port belongs to the network of the slot.
abbrev pub StaysIn : Map (List ℕ) → Slot → List ℕ → Sent → Type 0
StaysIn port_fds slot frame x =
    (fds : List ℕ) × (lookup slot.net port_fds ≡ some fds) × IsTo fds slot.port frame x

deliver-StaysIn :
    (port_fds : Map (List ℕ)) (slot : Slot) (dst : MacAddress) (frame : List ℕ) (s : NetworkSwitch)
    (o : Option (List ℕ))
    → lookup slot.net port_fds ≡ o
    → All (StaysIn port_fds slot frame) (deliver slot dst frame s o).1
unfolding deliver
deliver-StaysIn port_fds slot dst frame s none e = tt
deliver-StaysIn port_fds slot dst frame s (some fds) e =
    All-map (λ x h. (fds, e, h)) (forward slot.net dst fds slot.port frame s)
      (forward-IsTo slot.net dst fds slot.port frame s)

parsed-StaysIn :
    (port_fds : Map (List ℕ)) (slot : Slot) (frame : List ℕ) (at : ℕ) (s : NetworkSwitch)
    (dst src : Option MacAddress)
    → All (StaysIn port_fds slot frame) (handle_parsed port_fds slot frame at s dst src).1
unfolding handle_parsed
parsed-StaysIn port_fds slot frame at s (some dst) (some src) =
    deliver-StaysIn port_fds slot dst frame _ (lookup slot.net port_fds) refl
parsed-StaysIn port_fds slot frame at s none _ = tt
parsed-StaysIn port_fds slot frame at s _ none = tt

-- Every frame that the switch sends for a datagram goes to a port of the sender's own network
-- other than the sender's, and is the datagram cut to the largest frame size.
pub handle_event-StaysIn :
    (port_fds : Map (List ℕ)) (slot : Slot) (datagram : List ℕ) (at : ℕ) (s : NetworkSwitch)
    → All
        (StaysIn port_fds slot (take max_frame_size datagram))
        (handle_event port_fds slot (received datagram at) s).1
unfolding handle_event handle_frame
handle_event-StaysIn port_fds slot datagram at s =
    elim (Bool-cases (ltb (length (take max_frame_size datagram)) min_frame_size)) [
      | inl short ↦ rw short tt
      | inr long ↦ rw long (parsed-StaysIn port_fds slot (take max_frame_size datagram) at s _ _)
    ]

Member-if :
    {A : Type 0} (b : Bool) (x y : A) (rest : List A)
    → Member x rest
    → Member x (if b then rest else y ∷ rest)
Member-if true x y rest m = m
Member-if false x y rest m = inr m

-- The frame that a flood sends to the port at a position.
abbrev copy : ℕ → ℕ → List ℕ → Sent
copy port fd frame = record { port = port; fd = fd; frame = frame }

flood_from_complete :
    (idx : ℕ) (fds : List ℕ) (src : ℕ) (frame : List ℕ) (i fd k : ℕ)
    → get_elem? fds i ≡ some fd
    → k ≡ idx + i
    → k ≢ src
    → Member (copy k fd frame) (flood_from idx fds src frame)
unfolding flood_from
flood_from_complete idx [] src frame i fd k e p h = cc
flood_from_complete idx (g ∷ fds) src frame zero fd k e p h =
    let away : (idx == src) ≡ false = ground arith in
    let here : copy idx g frame ≡ copy k fd frame = ground arith in rw away (inl here)
flood_from_complete idx (g ∷ fds) src frame (suc i) fd k e p h =
    Member-if (idx == src) (copy k fd frame) (copy idx g frame) (flood_from (suc idx) fds src frame)
      (flood_from_complete (suc idx) fds src frame i fd k e (omega arith) h)

-- A flood sends the frame to every port of the network except the source.
pub flood_complete :
    (fds : List ℕ) (src : ℕ) (frame : List ℕ) (i fd : ℕ)
    → get_elem? fds i ≡ some fd
    → i ≢ src
    → Member (record { port = i; fd = fd; frame = frame }) (flood fds src frame)
unfolding flood
flood_complete fds src frame i fd e h = flood_from_complete 0 fds src frame i fd i e (omega arith) h

flood_from-length :
    (idx : ℕ) (fds : List ℕ) (src : ℕ) (frame : List ℕ)
    → (src < idx → length (flood_from idx fds src frame) ≡ length fds)
      × (idx ≤ src
          → src < idx + length fds
          → length (flood_from idx fds src frame) + 1 ≡ length fds)
unfolding flood_from
flood_from-length idx [] src frame = (λ h. refl, λ h k. absurd (omega arith))
flood_from-length idx (fd ∷ fds) src frame =
    let ih = flood_from-length (suc idx) fds src frame in
    (λ h. ground (arith, ih.0), λ h k. ground (arith, ih.0, ih.1))

-- A flood from a port of the network sends one frame fewer than the network has ports.
pub length-flood :
    (fds : List ℕ) (src : ℕ) (frame : List ℕ)
    → src < length fds
    → length (flood fds src frame) + 1 ≡ length fds
unfolding flood
length-flood fds src frame h = (flood_from-length 0 fds src frame).1 (omega arith) (omega arith)
