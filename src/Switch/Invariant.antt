-- ===== src/Switch/Invariant.antt =====
-- The invariant of the tables of src/network/switch.rs, and the lemmas that carry it through
-- `add_port`, the ageing sweep and the handling of events.
use vm_rs.Prelude.{
  ℕ, ◌-◌, ◌/◌, ◌<◌, ◌≡◌, refl, inl, inr, sym, ◌∙◌, Option, none, some, List, [], ◌∷◌, ◌++◌, arith,
}
use vm_rs.Prelude.Tests.{Bool-cases, ltb, leb, keep-if}
use vm_rs.Prelude.Lists.{All, All-map, length, length-append}
use mathlib.Core.Path.{subst}
use vm_rs.Prelude.Text.{Str, str_eq, str_eq_iff}
use vm_rs.Prelude.Map.{
  Map, lookup, insert, lookup-insert, All-insert, All-lookup, Unique, insert-Unique,
}
use vm_rs.Result.{Result, ok, err, IoError}
use vm_rs.Switch.{
  NetworkSwitch, Slot, Event, not_ready, recv_error, received, MacAddress, MacTable, Seen, Turn,
  Added, learn, learn_in, handle_event, handle_events, handle_frame, handle_parsed, deliver,
  add_port, or_default, age, sweep, retain_young, second,
}

-- The ports of a network, absent or not, include a number.
abbrev pub HasPort : Option (List ℕ) → ℕ → Type 0
HasPort none p = ⊥
HasPort (some fds) p = p < length fds

-- An entry of the table of a network; a table with the network that it belongs to.
abbrev pub EntryOk : Map (List ℕ) → Str → Str × Seen → Type 0
EntryOk nets net e = HasPort (lookup net nets) e.1.port

abbrev pub TableOk : Map (List ℕ) → Str × MacTable → Type 0
TableOk nets t = All (EntryOk nets t.0) t.1

-- Every address that a table holds is at a port that its network has.
pub record IsSound (s : NetworkSwitch) : Type 0 where
  pub tables : All (TableOk s.networks) s.mac_tables
  pub unique : Unique s.networks

-- A network only gains ports.
HasPort-add :
    (o : Option (List ℕ)) (fd p : ℕ) → HasPort o p → p < length (or_default [] o ++ fd ∷ [])
unfolding or_default
HasPort-add none fd p h = absurd h
HasPort-add (some fds) fd p h = omega (arith, length-append fds (fd ∷ []))

module _ (net : Str) (fd : ℕ) (nets : Map (List ℕ)) where
  abbrev grown : Map (List ℕ)
  grown = insert net (or_default [] (lookup net nets) ++ fd ∷ []) nets

  HasPort-grown : (j : Str) (p : ℕ) → HasPort (lookup j nets) p → HasPort (lookup j grown) p
  HasPort-grown j p h = elim (Bool-cases (str_eq net j)) [
    | inl same ↦
        rw (lookup-insert, same)
          (HasPort-add (lookup net nets) fd p (rw (sym ((str_eq_iff net j).0 same)) at h))
    | inr other ↦ rw (lookup-insert, other) h
  ]

  tables-grown : (ts : Map MacTable) → All (TableOk nets) ts → All (TableOk grown) ts
  tables-grown ts h = All-map (λ t. All-map (λ e. HasPort-grown t.0 e.1.port) t.1) ts h

default-TableOk :
    (nets : Map (List ℕ)) (net : Str) (ts : Map MacTable)
    → All (TableOk nets) ts
    → TableOk nets (net, or_default [] (lookup net ts))
unfolding or_default
default-TableOk nets net ts h = go (lookup net ts) refl
  where
    go : (o : Option MacTable) → lookup net ts ≡ o → TableOk nets (net, or_default [] o)
    go none e = tt
    go (some t) e = All-lookup (TableOk nets) net t ts e h

pub add_port-IsSound :
    (net : Str) (pair : Result IoError (ℕ × ℕ)) (s : NetworkSwitch)
    → IsSound s
    → IsSound (add_port net pair s).1
unfolding add_port
add_port-IsSound net (err e) s h = h
add_port-IsSound net (ok (a, b)) s h =
    keep-if (λ (r : Added). IsSound r.1) s.networks_poisoned h
      (keep-if (λ (r : Added). IsSound r.1) s.tables_poisoned
        (record {
          tables = tables-grown net a s.networks s.mac_tables h.tables;
          unique = insert-Unique net _ s.networks h.unique;
        })
        (record {
          tables =
              All-insert (TableOk (grown net a s.networks)) net _ s.mac_tables
                (All-map (λ e. HasPort-grown net a s.networks net e.1.port) _
                  (default-TableOk s.networks net s.mac_tables h.tables))
                (tables-grown net a s.networks s.mac_tables h.tables);
          unique = insert-Unique net _ s.networks h.unique;
        }))

retain-EntryOk :
    (nets : Map (List ℕ)) (net : Str) (now : ℕ) (t : MacTable)
    → All (EntryOk nets net) t
    → All (EntryOk nets net) (retain_young now t)
unfolding retain_young
retain-EntryOk nets net now [] h = tt
retain-EntryOk nets net now ((mac, seen) ∷ t) (p, h) =
    elim (Bool-cases (ltb ((now - seen.ts) / second) 120)) [
      | inl young ↦ rw young (p, retain-EntryOk nets net now t h)
      | inr old ↦ rw old (retain-EntryOk nets net now t h)
    ]

sweep-TableOk :
    (nets : Map (List ℕ)) (now : ℕ) (ts : Map MacTable)
    → All (TableOk nets) ts
    → All (TableOk nets) (sweep now ts)
unfolding sweep
sweep-TableOk nets now [] h = tt
sweep-TableOk nets now ((net, t) ∷ ts) (p, h) =
    (retain-EntryOk nets net now t p, sweep-TableOk nets now ts h)

pub age-IsSound : (now : ℕ) (s : NetworkSwitch) → IsSound s → IsSound (age now s)
unfolding age
age-IsSound now s h =
    keep-if IsSound (leb 30 ((now - s.last_aged) / second))
      (keep-if IsSound s.tables_poisoned (record { tables = h.tables; unique = h.unique })
        (record { tables = sweep-TableOk s.networks now s.mac_tables h.tables; unique = h.unique }))
      h

networks-age : (now : ℕ) (s : NetworkSwitch) → (age now s).networks ≡ s.networks
unfolding age
networks-age now s = ground arith

learn-IsSound :
    (net : Str) (mac : MacAddress) (seen : Seen) (s : NetworkSwitch)
    → HasPort (lookup net s.networks) seen.port
    → IsSound s
    → IsSound (learn net mac seen s)
unfolding learn
learn-IsSound net mac seen s p h =
    keep-if IsSound s.tables_poisoned h (go (lookup net s.mac_tables) refl)
  where
    go : (o : Option MacTable) → lookup net s.mac_tables ≡ o → IsSound (learn_in net mac seen s o)
    go none e = h
    go (some t) e = record {
      tables =
          All-insert (TableOk s.networks) net (insert mac seen t) s.mac_tables
            (All-insert (EntryOk s.networks net) mac seen t p
              (All-lookup (TableOk s.networks) net t s.mac_tables e h.tables))
            h.tables;
      unique = h.unique;
    }

networks-learn :
    (net : Str) (mac : MacAddress) (seen : Seen) (s : NetworkSwitch)
    → (learn net mac seen s).networks ≡ s.networks
unfolding learn
networks-learn net mac seen s = ground arith

-- What one event does to the tables is at most one `learn` at the slot's own port.
module _ (port_fds : Map (List ℕ)) (slot : Slot) where
  state-deliver :
      (dst : MacAddress) (frame : List ℕ) (s : NetworkSwitch) (o : Option (List ℕ))
      → (deliver slot dst frame s o).0 ≡ s
  unfolding deliver
  state-deliver dst frame s none = refl
  state-deliver dst frame s (some fds) = refl

  parsed-IsSound :
      (frame : List ℕ) (at : ℕ) (s : NetworkSwitch) (dst src : Option MacAddress)
      → HasPort (lookup slot.net s.networks) slot.port
      → IsSound s
      → IsSound (handle_parsed port_fds slot frame at s dst src).0
        × ((handle_parsed port_fds slot frame at s dst src).0.networks ≡ s.networks)
  unfolding handle_parsed
  parsed-IsSound frame at s (some dst) (some src) p h = rw state-deliver (
    learn-IsSound slot.net src (record { port = slot.port; ts = at }) s p h,
    networks-learn slot.net src _ s,
  )
  parsed-IsSound frame at s none _ p h = (h, refl)
  parsed-IsSound frame at s _ none p h = (h, refl)

  event-IsSound :
      (event : Event) (s : NetworkSwitch)
      → HasPort (lookup slot.net s.networks) slot.port
      → IsSound s
      → IsSound (handle_event port_fds slot event s).0
        × ((handle_event port_fds slot event s).0.networks ≡ s.networks)
  unfolding handle_event handle_frame
  event-IsSound not_ready s p h = (h, refl)
  event-IsSound recv_error s p h = (h, refl)
  event-IsSound (received datagram at) s p h =
      keep-if (λ (r : Turn). IsSound r.0 × (r.0.networks ≡ s.networks)) _ (h, refl)
        (parsed-IsSound _ at s _ _ p h)

-- The slots of a poll set are at ports of the networks that it was made from.
abbrev pub SlotOk : Map (List ℕ) → Slot × Event → Type 0
SlotOk nets x = HasPort (lookup x.0.net nets) x.0.port

pub events-IsSound :
    (port_fds : Map (List ℕ)) (xs : List (Slot × Event)) (s : NetworkSwitch)
    → All (SlotOk s.networks) xs
    → IsSound s
    → IsSound (handle_events port_fds xs s).0
      × ((handle_events port_fds xs s).0.networks ≡ s.networks)
unfolding handle_events
events-IsSound port_fds [] s p h = (h, refl)
events-IsSound port_fds ((slot, event) ∷ xs) s (p, ps) h =
    let (h', same) = event-IsSound port_fds slot event s p h in
    let s' = (handle_event port_fds slot event s).0 in
    let (h'', same') =
      events-IsSound port_fds xs s' (subst (λ nets. All (SlotOk nets) xs) (sym same) ps) h' in
    (h'', same' ∙ same)
