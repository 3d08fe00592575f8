-- ===== src/Examples/Device.antt =====
-- The character device.
use fame_z.Base.{
  List, Returns, [], arith, bug_on, codes, e_2big, e_busy, e_inval, false, fault, is_neg, length,
  ok, pos, refl, some, true, ℕ, ◌+◌, ◌<◌, ◌≡◌, ◌≤◌, ◌⊎◌,
}
use fame_z.Base.Text.{read_nat, show_digits, show_int, sprintf}
use fame_z.Bridge.{
  copy_out, count_opener, famez_bridge_open, famez_bridge_read, famez_bridge_write, finish_open,
  new_buffers, sidcid_text,
}
use fame_z.Bridge.Destination.{Parsed, parsed, unparsed}
use fame_z.Bridge.Read.{NamesSender, famez_bridge_read-sscanf, whole}
use fame_z.Bridge.Read.Bounds.{WithinOne, copy_out-Bounded}
use fame_z.Bridge.Session.{
  IsClosed, IsExclusive, Reach-IsExclusive, close, close-races, initial, next, opens,
}
use fame_z.Bridge.Write.{FailsNegative, Finished, famez_bridge_write-Finished}
use fame_z.Examples.Hosts.{hello, host, in_time, kernel, slot_with}
use fame_z.Examples.Interrupts.{wait}
use fame_z.Famez.Types.{Host, Mailslot, set_adapter}

-- The sender's slot as a reader finds it: the header is "300,27:".
abbrev incoming : Mailslot
incoming = record (slot_with 3 hello) { peer_cid = 300; peer_sid = 27 }

header : sidcid_text incoming ≡ codes "300,27:"
unfolding sidcid_text sprintf show_int show_digits
header = refl

header-length : length (sidcid_text incoming) ≡ 7
header-length = rw header

-- The slot of client 3 is for the reader.
abbrev receiving : Host
receiving = record host {
  adapter = record (host.adapter) { incoming_slot = some 77824 };
  slots = λ p. incoming;
}

read_example :
    Returns
      (NamesSender 300 27 incoming)
      (famez_bridge_read wait false (pos 0) (pos 0) 12 receiving)
read_example =
    famez_bridge_read-sscanf wait false 12 receiving 77824 refl refl (omega arith) (omega arith)
      (omega (arith, header-length)) (omega (arith, header-length)) (omega (arith, header-length))

-- A buffer of 11 bytes for a message of 12.
bounded_example :
    WithinOne incoming (pos 0) (pos 0) 11 (copy_out (pos 0) (pos 0) 11 incoming).copied
    × ((copy_out (pos 0) (pos 0) 11 incoming ≡ whole incoming)
        ⊎ (is_neg (copy_out (pos 0) (pos 0) 11 incoming).ret ≡ true))
    × (12 < 5 + length (sidcid_text incoming)
        → copy_out (pos 0) (pos 0) 11 incoming ≡ record { ret = e_2big; copied = [] })
    × (5 + length (sidcid_text incoming) ≤ 12
        → pos 0 ≡ pos 0
        → pos 0 ≡ pos 0
        → copy_out (pos 0) (pos 0) 11 incoming ≡ whole incoming)
bounded_example =
    copy_out-Bounded incoming (pos 0) (pos 0) 11 (omega (arith, header-length))
      (omega (arith, header-length))

abbrev opened : Host
opened = set_adapter (λ a. record a { nr_users = pos 1; outgoing = some new_buffers }) host

race_example :
    Returns (λ r h'. (r ≡ pos 0) × IsClosed h') (close opened)
    × Returns
        (λ r h'. (r ≡ e_busy) × Returns (λ r' i. (r' ≡ pos 0) × IsClosed i) (close h'))
        (famez_bridge_open false true opened)
    × (close (count_opener opened).1 ≡ fault bug_on)
race_example = close-races false true opened (refl, (new_buffers, refl))

opens-opened : famez_bridge_open true true host ≡ ok (pos 0) opened
unfolding famez_bridge_open finish_open count_opener
opens-opened = refl

reach_example : IsExclusive opened
reach_example = Reach-IsExclusive (refl, refl) (next initial (opens true true (pos 0) opens-opened))

-- A `kstrtoint` that reads decimal numbers.
abbrev pub kstrtoint : List ℕ → Parsed
kstrtoint s = elim (read_nat s) [ some (n, []) ↦ parsed (pos n) | _ ↦ unparsed e_inval ]

kstrtoint-FailsNegative : FailsNegative kstrtoint
kstrtoint-FailsNegative s e h = ground arith

write_example :
    Returns
      (Finished kernel 7)
      (famez_bridge_write kernel kstrtoint (pos 0) (codes "3:hello") 7 opened)
write_example =
    famez_bridge_write-Finished kernel kstrtoint (pos 0) (codes "3:hello") 7 new_buffers opened
      kstrtoint-FailsNegative (in_time 3 opened (omega arith) refl)
      (record { opened = refl; unlocked = refl })
