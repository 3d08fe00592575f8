-- ===== src/Examples/Arrival.antt =====
-- A message from client 3 to client 2.
use fame_z.Base.{
  Returns-ok, [], and_then, arith, codes, false, inr, length, none, ok, pos, refl, some, to_s32, ℕ,
  ℤ, ◌∷◌, ◌≡◌,
}
use fame_z.Base.Text.{
  c_string, is_digit, read_digits, read_nat, show_digits, show_int, split_at, sprintf, sscanf,
  starts_with,
}
use fame_z.Base.Text.Memory.{NoNul, Without}
use fame_z.Bridge.{famez_bridge_read, famez_bridge_write, new_buffers, sidcid_text}
use fame_z.Bridge.Delivery.{Delivered, famez_bridge_write-Delivered}
use fame_z.Bridge.Destination.{by_peer, names_server, parse_target, target}
use fame_z.Bridge.Write.{CanWrite}
use fame_z.Examples.Device.{kstrtoint}
use fame_z.Examples.Hosts.{entries, hello, host, kernel}
use fame_z.Examples.Interrupts.{no_vector, slot_of_sender, wait}
use fame_z.Exchange.{CanReceive, arrived, delivery, message-arrives, write-arrives}
use fame_z.Famez.Incoming.Handoff.{released}
use fame_z.Famez.Interrupt.{all_msix}
use fame_z.Famez.Interrupt.Delivery.{delivered}
use fame_z.Famez.Link.{ctl_write_0_sid_cid, recognise, stamp_sender}
use fame_z.Famez.Outgoing.{
  famez_create_outgoing, fill_slot, must_wait, note_longest, peer_id_of, publish, refusal, ringer,
  sid_cid_is_peer_id, wait_ready,
}
use fame_z.Famez.Outgoing.Send.{Accepts}
use fame_z.Famez.Types.{Host, Mailslot, own_slot, set_adapter, set_slot}

-- Client 3, which sends "hello" to client 2.
abbrev sender : Host
sender = set_adapter (λ a. record a { my_id = 3; my_slot = 77824 }) host

abbrev sent_slot : Mailslot
sent_slot = fill_slot 2 hello 5 (own_slot sender)

abbrev sender_after : Host
sender_after = record (set_slot 77824 sent_slot sender) {
  longest = 1500;
  doorbells = ringer 2 3 ∷ [];
}

-- Client 2, which sees the slot.
abbrev receiver : Host
receiver = set_slot 77824 sent_slot host

hello-leaves :
    famez_create_outgoing kernel false (pos 2) sid_cid_is_peer_id hello 5 sender
    ≡ ok (pos 5) sender_after
unfolding famez_create_outgoing refusal peer_id_of wait_ready must_wait note_longest publish
hello-leaves = refl

sender-Accepts : Accepts sender (pos 2) sid_cid_is_peer_id 5
unfolding peer_id_of
sender-Accepts = record {
  subnet = inr refl;
  peer_low = omega arith;
  peer_high = omega arith;
  room = omega arith;
  some_data = omega arith;
}

abbrev arrived_slot : Mailslot
arrived_slot = arrived (peer_id_of (pos 2) sid_cid_is_peer_id) hello (own_slot sender)

arrived-plain : recognise 3968 arrived_slot ≡ none
unfolding recognise stamp_sender starts_with sscanf ctl_write_0_sid_cid c_string fill_slot
arrived-plain = refl

header-short : length (sidcid_text arrived_slot) ≡ 7
unfolding sidcid_text sprintf show_int show_digits stamp_sender fill_slot
header-short = refl

hello-CanReceive :
    (slots : ℕ → Mailslot)
    → CanReceive (record host { slots = slots }) entries 3 43 77824 4096 arrived_slot
unfolding fill_slot stamp_sender
hello-CanReceive slots = record {
  unlocked = refl;
  table = record { table = refl; enough = omega arith };
  names = record {
    here = refl;
    first = no_vector;
    low = omega arith;
    high = omega arith;
    short = omega arith;
  };
  place = slot_of_sender;
  plain_ = arrived-plain;
  short = omega (arith, header-short);
  room = omega (arith, header-short);
  small = omega (arith, header-short);
}

arrival_example :
    and_then (all_msix kernel 43 receiver) (λ _. famez_bridge_read wait false (pos 0) (pos 0) 4096)
    ≡ ok
        (delivery (peer_id_of (pos 2) sid_cid_is_peer_id) hello (own_slot sender))
        (released 77824 (delivered 77824 receiver))
arrival_example =
    message-arrives kernel sender sender_after receiver (pos 2) sid_cid_is_peer_id (pos 5) hello
      false entries 3 43 77824 wait false 4096 sender-Accepts refl hello-leaves refl
      (hello-CanReceive receiver.slots)

-- The same message, written by a user of client 3.
abbrev writer : Host
writer = set_adapter (λ a. record a { outgoing = some new_buffers }) sender

client_2 : parse_target kstrtoint 5 (codes "2") ≡ target (pos 2) sid_cid_is_peer_id
unfolding parse_target names_server by_peer split_at read_nat read_digits is_digit
client_2 = refl

writer-Accepts : Accepts writer (pos 2) sid_cid_is_peer_id 5
unfolding peer_id_of
writer-Accepts = record {
  subnet = inr refl;
  peer_low = omega arith;
  peer_high = omega arith;
  room = omega arith;
  some_data = omega arith;
}

writer-writes : CanWrite writer new_buffers
writer-writes = record { opened = refl; unlocked = refl }

two-NoNul : NoNul (codes "2")
two-NoNul = (ground arith, tt)

two-Without : Without b':' (codes "2")
two-Without = (refl, tt)

writer_done :
    (r : ℤ) × (h : Host) × (famez_bridge_write kernel kstrtoint (pos 0) (codes "2:hello") 7 writer
      ≡ ok r h)
    × Delivered kernel kstrtoint (pos 2) sid_cid_is_peer_id (codes "2") hello writer r h
writer_done =
    Returns-ok (Delivered kernel kstrtoint (pos 2) sid_cid_is_peer_id (codes "2") hello writer)
      (famez_bridge_write kernel kstrtoint (pos 0) (codes "2:hello") 7 writer)
      (famez_bridge_write-Delivered kernel kstrtoint (pos 2) sid_cid_is_peer_id (codes "2") hello
        new_buffers writer writer-writes refl two-NoNul two-Without client_2 writer-Accepts refl
        (omega arith))

abbrev reader : Host
reader = record host { slots = writer_done.1.slots }

write_arrival_example :
    (writer_done.0 ≡ to_s32 7)
    × (and_then (all_msix kernel 43 reader) (λ _. famez_bridge_read wait false (pos 0) (pos 0) 4096)
        ≡ ok
            (delivery (peer_id_of (pos 2) sid_cid_is_peer_id) hello (own_slot sender))
            (released 77824 (delivered 77824 reader)))
write_arrival_example =
    write-arrives kernel kstrtoint writer writer_done.1 reader (pos 2) sid_cid_is_peer_id
      writer_done.0 (codes "2") hello new_buffers entries 3 43 77824 wait false 4096 writer-writes
      refl two-NoNul two-Without client_2 writer-Accepts refl (omega arith) writer_done.2 refl
      (hello-CanReceive reader.slots)
