-- ===== src/Examples/Sends.antt =====
-- Sends, and the layout of the slots.
use fame_z.Base.{Returns, arith, false, inr, pos, refl, some, ◌*◌, ◌+◌, ◌≡◌, ◌≤◌}
use fame_z.Examples.Hosts.{hello, host, in_time, kernel, layout}
use fame_z.Famez.Outgoing.{famez_create_outgoing, peer_id_of, sid_cid_is_peer_id}
use fame_z.Famez.Outgoing.Send.{Accepts, Ended, famez_create_outgoing_total}
use fame_z.Famez.Slots.{calculate_mailslot, calculate_mailslot-disjoint, slot_address}

accepts : Accepts host (pos 3) sid_cid_is_peer_id 5
unfolding peer_id_of
accepts = record {
  subnet = inr refl;
  peer_low = omega arith;
  peer_high = omega arith;
  room = omega arith;
  some_data = omega arith;
}

send_total :
    Returns
      (Ended kernel false (pos 3) sid_cid_is_peer_id hello 5 host 0)
      (famez_create_outgoing kernel false (pos 3) sid_cid_is_peer_id hello 5 host)
send_total =
    famez_create_outgoing_total kernel false (pos 3) sid_cid_is_peer_id hello 5 host 0
      (in_time 1 host (omega arith) refl) accepts

slot_of_3 : calculate_mailslot 65536 layout 3 ≡ some 77824
unfolding calculate_mailslot slot_address
slot_of_3 = refl

slot_of_5 : calculate_mailslot 65536 layout 5 ≡ some 86016
unfolding calculate_mailslot slot_address
slot_of_5 = refl

slots_example :
    (65536 + 4096 ≤ 77824) × (77824 + 4096 ≤ 86016) × (86016 + 4096 ≤ 65536 + (5 + 1) * 4096)
slots_example =
    calculate_mailslot-disjoint 65536 layout 3 5 77824 86016
      (record { sized = omega arith; last = omega arith; fits = omega arith }) slot_of_3 slot_of_5
      (omega arith)
