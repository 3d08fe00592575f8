-- ===== src/Examples/Interrupts.antt =====
-- Interrupts, and the messages that they bring.
use fame_z.Base.{
  List, Returns, and_then, arith, none, pos, refl, some, suc, zero, ℕ, ◌+◌, ◌<◌, ◌≡◌, ◌≤◌,
}
use fame_z.Base.Text.{c_string, sscanf, starts_with}
use fame_z.Examples.Hosts.{entries, hello, host_with, in_time, kernel, layout}
use fame_z.Famez.Incoming.{Woken, famez_release_incoming}
use fame_z.Famez.Interrupt.{all_msix}
use fame_z.Famez.Interrupt.Delivery.{Names}
use fame_z.Famez.Interrupt.Locking.{HasTable, Served, all_msix-IsFree}
use fame_z.Famez.Interrupt.Stomping.{Stomped, famez_release_incoming-Stomped}
use fame_z.Famez.Interrupt.Table.{HasVector}
use fame_z.Famez.Link.{ctl_write_0_sid_cid, recognise, stamp_sender}
use fame_z.Famez.Slots.{calculate_mailslot, slot_address}
use fame_z.Famez.Types.{Host, set_adapter}

has_table : (msg : List ℕ) → HasTable (host_with msg) entries
has_table msg = record { table = refl; enough = omega arith }

interrupt_ends : Returns (Served kernel) (all_msix kernel 43 (host_with hello))
interrupt_ends =
    all_msix-IsFree kernel 43 (host_with hello) entries
      (in_time 1 (host_with hello) (omega arith) refl) refl (has_table hello) (omega arith)

pub no_vector : (m : ℕ) → 1 ≤ m → m < 3 → ¬ HasVector entries m 43
no_vector zero l h v = omega arith
no_vector (suc zero) l h (e, found, v) = ground arith
no_vector (suc (suc zero)) l h (e, found, v) = ground arith
no_vector (suc (suc (suc m))) l h v = omega arith

names : Names (host_with hello) entries 3 43
names = record {
  here = refl;
  first = no_vector;
  low = omega arith;
  high = omega arith;
  short = omega arith;
}

pub slot_of_sender : calculate_mailslot 65536 layout 3 ≡ some 77824
unfolding calculate_mailslot slot_address
slot_of_sender = refl

hello-plain : recognise 3968 (stamp_sender ((host_with hello).slots 77824)) ≡ none
unfolding recognise stamp_sender starts_with sscanf ctl_write_0_sid_cid c_string
hello-plain = refl

-- A reader that has the slot of client 2 when client 3's message arrives.
abbrev reading : Host
reading = set_adapter (λ a. record a { incoming_slot = some 73728 }) (host_with hello)

second_message :
    Returns
      (λ _. Stomped kernel reading 73728 77824)
      (and_then (all_msix kernel 43 reading) λ _. famez_release_incoming)
second_message =
    famez_release_incoming-Stomped kernel reading entries 3 43 73728 77824 refl
      (record { table = refl; enough = omega arith })
      (record {
        here = refl;
        first = no_vector;
        low = omega arith;
        high = omega arith;
        short = omega arith;
      })
      slot_of_sender hello-plain refl (ground arith)

-- A reader that waits until client 3's message is there.
abbrev pub wait : Host → Woken
wait h = record {
  ret = pos 0;
  elapsed = record { jiffies = h.jiffies + 1; slots = h.slots; incoming_slot = some 77824 };
}
