-- ===== src/Examples/Pings.antt =====
-- Client 3 sends "ping" to client 2, whose link layer answers.
use fame_z.Base.{
  List, [], arith, codes, false, inr, length, none, ok, pos, refl, suc, zero, ℕ, ◌<◌, ◌∷◌, ◌≡◌, ◌≤◌,
}
use fame_z.Base.Text.{show_digits, show_int, sprintf}
use fame_z.Bridge.{sidcid_text}
use fame_z.Examples.Hosts.{entries, kernel, slot_with}
use fame_z.Examples.Interrupts.{no_vector, wait}
use fame_z.Examples.Network.{client-IsPeer, quiet-Represents, quiet_net, wiring, wiring-IsSound}
use fame_z.Exchange.Mailbox.{Boxes, Event, fetch, hand, idle, posted, respond, update}
use fame_z.Exchange.Network.{Net, Turns, at_host, commit, see}
use fame_z.Exchange.Network.Conversation.{Turns-answered}
use fame_z.Exchange.Network.Progress.{HasRoom}
use fame_z.Exchange.Network.Relation.{Represents}
use fame_z.Exchange.Network.Sends.{posted-Represents}
use fame_z.Famez.Interrupt.Delivery.{Names}
use fame_z.Famez.Interrupt.Table.{HasVector}
use fame_z.Famez.Link.{sizeof_outbuf, stamp_sender}
use fame_z.Famez.Link.Requests.{Asks, asks_ping}
use fame_z.Famez.Outgoing.{
  famez_create_outgoing, fill_slot, must_wait, note_longest, peer_id_of, publish, refusal, ringer,
  sid_cid_is_peer_id, wait_ready,
}
use fame_z.Famez.Outgoing.Send.{Accepts, Sent, famez_create_outgoing-Sent}
use fame_z.Famez.Slots.{slot_address}
use fame_z.Famez.Types.{Host, set_slot}

abbrev ping_text : List ℕ
ping_text = codes "ping"

abbrev pong_text : List ℕ
pong_text = codes "pong"

ping-Accepts : Accepts (see wiring quiet_net 3) (pos 2) sid_cid_is_peer_id 4
unfolding see peer_id_of
ping-Accepts = record {
  subnet = inr refl;
  peer_low = omega arith;
  peer_high = omega arith;
  room = omega arith;
  some_data = omega arith;
}

abbrev pinging : Host
pinging =
    record (set_slot 77824 (fill_slot 2 ping_text 4 (slot_with 3 [])) (see wiring quiet_net 3)) {
      longest = 1500;
      doorbells = ringer 2 3 ∷ [];
    }

ping_goes :
    famez_create_outgoing kernel false
      (pos 2)
      sid_cid_is_peer_id
      ping_text
      4
      (see wiring quiet_net 3)
    ≡ ok (pos 4) pinging
unfolding famez_create_outgoing refusal peer_id_of wait_ready must_wait note_longest publish see
    slot_address
ping_goes = refl

abbrev ping_net : Net
ping_net = commit wiring quiet_net 3 pinging

ping-Sent :
    Sent (see wiring quiet_net 3) pinging (peer_id_of (pos 2) sid_cid_is_peer_id) ping_text 4
unfolding see
ping-Sent =
    (rw ping_goes at (
      famez_create_outgoing-Sent kernel false (pos 2) sid_cid_is_peer_id ping_text 4
        (see wiring quiet_net 3) ping-Accepts refl)).1

abbrev ping_posted : Boxes
ping_posted = update 3 (posted 2 ping_text) (λ n. idle)

ping-Represents : Represents wiring ping_net ping_posted
unfolding peer_id_of
ping-Represents =
    posted-Represents wiring wiring-IsSound kernel quiet_net (λ n. idle) 3 (pos 2)
      sid_cid_is_peer_id ping_text pinging quiet-Represents
      (client-IsPeer 3 (omega arith) (omega arith)) ping-Accepts ping-Sent refl

no_vector_42 : (m : ℕ) → 1 ≤ m → m < 2 → ¬ HasVector entries m 42
no_vector_42 zero l h v = omega arith
no_vector_42 (suc zero) l h (e, found, v) = ground arith
no_vector_42 (suc (suc m)) l h v = omega arith

names-ping : Names (see wiring ping_net 2) entries 3 43
unfolding see commit
names-ping = record {
  here = refl;
  first = no_vector;
  low = omega arith;
  high = omega arith;
  short = omega arith;
}

names-pong : Names (see wiring ping_net 3) entries 2 42
unfolding see commit
names-pong = record {
  here = refl;
  first = no_vector_42;
  low = omega arith;
  high = omega arith;
  short = omega arith;
}

ping-Asks :
    Asks (see wiring ping_net 2) (at_host wiring 2 3) pong_text (see wiring ping_net 2).adapter.core
unfolding see commit slot_address fill_slot
ping-Asks = asks_ping refl (refl, (refl, (refl, (refl, tt)))) refl refl

pong-HasRoom :
    HasRoom 4096 (stamp_sender (fill_slot 3 pong_text (length pong_text) (ping_net.mem 2)))
unfolding sidcid_text sprintf show_int show_digits stamp_sender fill_slot commit slot_address see
pong-HasRoom = record { short = omega arith; room = omega arith; small = omega arith }

abbrev pong_events : List Event
pong_events = respond 3 2 ping_text pong_text ∷ hand 2 3 ∷ fetch 2 3 pong_text ∷ []

ping_large : sizeof_outbuf ≤ (ping_net.host 2).adapter.max_buflen
unfolding commit
ping_large = omega arith

ping_class : length (ping_net.host 2).adapter.core.base_c_class_str ≤ 32
unfolding commit
ping_class = omega arith

ping_quiet : (ping_net.host 3).adapter.incoming_slot ≡ none
unfolding commit see
ping_quiet = refl

answered_example :
    (v : Net) × Turns wiring kernel ping_net pong_events v
    × ((v.mem 3).buflen ≡ 0)
    × ((v.mem 2).buflen ≡ 0)
    × ((v.host 3).adapter.incoming_slot ≡ none)
    × ((v.host 2).adapter.core ≡ (see wiring ping_net 2).adapter.core)
answered_example =
    Turns-answered wiring wiring-IsSound kernel wait ping_net ping_posted 2 3 ping_text
      ping-Represents (client-IsPeer 3 (omega arith) (omega arith))
      (client-IsPeer 2 (omega arith) (omega arith)) (λ e. omega (arith, e)) 43 42 4096 pong_text
      (see wiring ping_net 2).adapter.core refl refl
      (record {
        tells = names-ping;
        asks = ping-Asks;
        large = ping_large;
        class = ping_class;
        told = names-pong;
        quiet = ping_quiet;
        fits = pong-HasRoom;
      })
