-- ===== src/Examples/Network.antt =====
-- Two hosts around one mailbox: client 3 sends "hello", client 2 reads it.
use fame_z.Base.{
  List, [], arith, false, inl, inr, length, none, ok, pos, refl, ℕ, ◌++◌, ◌∷◌, ◌≡◌, ◌≤◌,
}
use fame_z.Base.Text.{c_string, show_digits, show_int, sprintf, sscanf, starts_with}
use fame_z.Bridge.{sidcid_text}
use fame_z.Examples.Hosts.{entries, hello, host, kernel, layout, slot_with}
use fame_z.Examples.Interrupts.{no_vector, wait}
use fame_z.Exchange.Mailbox.{
  Allows, Boxes, Event, departures, fetch, hand, idle, idle-ne-handed, post, posted, posts, update,
}
use fame_z.Exchange.Network.{Net, Turns, Wiring, at_host, commit, see, sends, then_}
use fame_z.Exchange.Network.Progress.{HasRoom, Turns-ends}
use fame_z.Exchange.Network.Relation.{Represents}
use fame_z.Exchange.Network.Sends.{posted-Represents}
use fame_z.Exchange.Network.View.{IsSound}
use fame_z.Exchange.Refinement.{Turns-delivers, Turns-refines}
use fame_z.Famez.Interrupt.Delivery.{Names}
use fame_z.Famez.Link.{ctl_write_0_sid_cid, recognise, stamp_sender}
use fame_z.Famez.Outgoing.{
  famez_create_outgoing, fill_slot, must_wait, note_longest, peer_id_of, publish, refusal, ringer,
  sid_cid_is_peer_id, wait_ready,
}
use fame_z.Famez.Outgoing.Send.{Accepts, Sent, famez_create_outgoing-Sent}
use fame_z.Famez.Slots.{IsPeer, slot_address}
use fame_z.Famez.Types.{Host, set_adapter, set_slot}

abbrev pub wiring : Wiring
wiring = record { globals = layout; base = λ j. 65536; entries = λ j. entries }

abbrev pub wiring-IsSound : IsSound wiring
wiring-IsSound = record {
  fits = λ j. record { sized = omega arith; last = omega arith; fits = omega arith };
  small = omega arith;
}

abbrev host_of_id : ℕ → Host
host_of_id j = set_adapter (λ a. record a { my_id = j; my_slot = at_host wiring j j }) host

-- Every slot is free.
abbrev pub quiet_net : Net
quiet_net = record { mem = λ n. slot_with n []; host = host_of_id; pending = λ j i. false }

pub quiet-Represents : Represents wiring quiet_net (λ n. idle)
quiet-Represents = record {
  slots = λ i p. (refl, λ j. refl);
  incoming = λ j p e. cc e;
  held = λ i j m p e. absurd (idle-ne-handed j m e);
  wired = λ j. (refl, refl, refl, refl, refl, refl, omega arith);
  ids = λ n p. refl;
}

pub client-IsPeer : (n : ℕ) → 1 ≤ n → n ≤ 4 → IsPeer layout n
client-IsPeer n low high = inl (low, high)

sender_Accepts : Accepts (see wiring quiet_net 3) (pos 2) sid_cid_is_peer_id 5
unfolding see peer_id_of
sender_Accepts = record {
  subnet = inr refl;
  peer_low = omega arith;
  peer_high = omega arith;
  room = omega arith;
  some_data = omega arith;
}

abbrev sender_sent : Host
sender_sent =
    record (set_slot 77824 (fill_slot 2 hello 5 (slot_with 3 [])) (see wiring quiet_net 3)) {
      longest = 1500;
      doorbells = ringer 2 3 ∷ [];
    }

hello_goes :
    famez_create_outgoing kernel false (pos 2) sid_cid_is_peer_id hello 5 (see wiring quiet_net 3)
    ≡ ok (pos 5) sender_sent
unfolding famez_create_outgoing refusal peer_id_of wait_ready must_wait note_longest publish see
    slot_address
hello_goes = refl

abbrev pub sent_net : Net
sent_net = commit wiring quiet_net 3 sender_sent

hello-Sent :
    Sent (see wiring quiet_net 3) sender_sent (peer_id_of (pos 2) sid_cid_is_peer_id) hello 5
unfolding see
hello-Sent =
    (rw hello_goes at (
      famez_create_outgoing-Sent kernel false (pos 2) sid_cid_is_peer_id hello 5
        (see wiring quiet_net 3) sender_Accepts refl)).1

abbrev pub hello_posted : Boxes
hello_posted = update 3 (posted 2 hello) (λ n. idle)

pub sent_Represents : Represents wiring sent_net hello_posted
unfolding peer_id_of
sent_Represents =
    posted-Represents wiring wiring-IsSound kernel quiet_net (λ n. idle) 3 (pos 2)
      sid_cid_is_peer_id hello sender_sent quiet-Represents
      (client-IsPeer 3 (omega arith) (omega arith)) sender_Accepts hello-Sent refl

names_3 : Names (see wiring sent_net 2) entries 3 43
unfolding see commit
names_3 = record {
  here = refl;
  first = no_vector;
  low = omega arith;
  high = omega arith;
  short = omega arith;
}

-- Peer 2 is a reader with nothing to read.
no_incoming : (sent_net.host 2).adapter.incoming_slot ≡ none
unfolding commit
no_incoming = refl

hello_plain : recognise (sent_net.host 2).adapter.max_buflen (stamp_sender (sent_net.mem 3)) ≡ none
unfolding recognise stamp_sender starts_with sscanf ctl_write_0_sid_cid c_string fill_slot commit
    slot_address see
hello_plain = refl

pub hello_fits : HasRoom 4096 (stamp_sender (sent_net.mem 3))
unfolding sidcid_text sprintf show_int show_digits stamp_sender fill_slot commit slot_address see
hello_fits = record { short = omega arith; room = omega arith; small = omega arith }

abbrev read_events : List Event
read_events = hand 3 2 ∷ fetch 3 2 hello ∷ []

ends_example :
    (v : Net) × Turns wiring kernel sent_net read_events v
    × ((v.mem 3).buflen ≡ 0)
    × ((v.host 2).adapter.incoming_slot ≡ none)
ends_example =
    Turns-ends wiring wiring-IsSound kernel wait sent_net hello_posted 2 3 hello sent_Represents
      (client-IsPeer 3 (omega arith) (omega arith)) (client-IsPeer 2 (omega arith) (omega arith)) 43
      4096 refl names_3 no_incoming hello_plain hello_fits

hello_ends :
    (v : Net) × Turns wiring kernel sent_net read_events v
    × ((v.mem 3).buflen ≡ 0)
    × ((v.host 2).adapter.incoming_slot ≡ none)
hello_ends =
    Turns-ends wiring wiring-IsSound kernel wait sent_net hello_posted 2 3 hello sent_Represents
      (client-IsPeer 3 (omega arith) (omega arith)) (client-IsPeer 2 (omega arith) (omega arith)) 43
      4096 refl names_3 no_incoming hello_plain hello_fits

abbrev last_net : Net
last_net = hello_ends.0

hello-Turns : Turns wiring kernel quiet_net (post 3 2 hello ∷ read_events) last_net
unfolding peer_id_of see
hello-Turns =
    then_
      (sends 3 false (pos 2) sid_cid_is_peer_id (pos 5) hello sender_sent
        (client-IsPeer 3 (omega arith) (omega arith)) refl sender_Accepts hello_goes)
      hello_ends.1

refines_example :
    (d : Boxes) × Allows (λ n. idle) (post 3 2 hello ∷ read_events) d × Represents wiring last_net d
refines_example =
    Turns-refines wiring wiring-IsSound kernel quiet_net last_net (λ n. idle)
      (post 3 2 hello ∷ read_events) quiet-Represents hello-Turns

delivers_example :
    (unread : List (List ℕ)) × (posts 3 (post 3 2 hello ∷ read_events)
      ≡ departures 3 (post 3 2 hello ∷ read_events) ++ unread)
    × (length unread ≤ 1)
    × ((last_net.mem 3).buflen ≡ 0 → unread ≡ [])
delivers_example =
    Turns-delivers wiring wiring-IsSound kernel quiet_net last_net (post 3 2 hello ∷ read_events) 3
      quiet-Represents hello-Turns (client-IsPeer 3 (omega arith) (omega arith))
