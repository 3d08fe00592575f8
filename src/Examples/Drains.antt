-- ===== src/Examples/Drains.antt =====
-- Client 3 has sent "hello" to client 2: the mailbox can be emptied.
use native.Mathlib.Decide.{ℕ_discrete}
use fame_z.Base.{
  List, [], arith, get_elem?, none, refl, some, suc, sym, zero, ℕ, ◌+◌, ◌<◌, ◌∙◌, ◌≡◌, ◌≤◌,
}
use fame_z.Base.Text.{starts_with}
use fame_z.Examples.Hosts.{entries, hello, kernel, layout}
use fame_z.Examples.Interrupts.{wait}
use fame_z.Examples.Network.{
  client-IsPeer, hello_fits, hello_posted, sent_Represents, sent_net, wiring, wiring-IsSound,
}
use fame_z.Exchange.Drain.{AllDeliverable, Tells}
use fame_z.Exchange.Drain.All.{Turns-drain}
use fame_z.Exchange.Mailbox.{Event, departures, idle, losses, posted, under_way, update_other}
use fame_z.Exchange.Network.{Net, Turns, commit, see}
use fame_z.Famez.Interrupt.Table.{HasVector}
use fame_z.Famez.Link.{recognise, stamp_sender}
use fame_z.Famez.Link.Silence.{recognise-none}
use fame_z.Famez.Outgoing.{fill_slot}
use fame_z.Famez.Slots.{IsPeer, slot_address}

-- Entry `m` has vector 40 + m and its own index.
entry_of : (m : ℕ) → m < 6 → get_elem? entries m ≡ some (record { vector = 40 + m; entry = m })
entry_of zero l = refl
entry_of (suc zero) l = refl
entry_of (suc (suc zero)) l = refl
entry_of (suc (suc (suc zero))) l = refl
entry_of (suc (suc (suc (suc zero)))) l = refl
entry_of (suc (suc (suc (suc (suc zero))))) l = refl
entry_of (suc (suc (suc (suc (suc (suc m)))))) l = absurd (omega arith)

own_vector : (m v : ℕ) → m < 6 → HasVector entries m v → v ≡ 40 + m
own_vector m v l (e, found, same) =
    let here : some e ≡ some (record { vector = 40 + m; entry = m }) = sym found ∙ entry_of m l in
    let fields : e.vector ≡ 40 + m = cc here in sym same ∙ fields

wiring-Tells : Tells wiring
wiring-Tells j i p q h mapped =
    let high : i ≤ 5 = omega arith in
    let low : 1 ≤ i = omega arith in
    (
      40 + i,
      record {
        here = entry_of i (omega arith);
        first = λ m l less has. omega (arith, own_vector m (40 + i) (omega arith) has);
        low = low;
        high = rw mapped (omega arith);
        short = omega arith;
      },
    )

hello_left : (n : ℕ) → recognise n (stamp_sender (sent_net.mem 3)) ≡ none
unfolding stamp_sender fill_slot commit slot_address see starts_with
hello_left n = recognise-none n (stamp_sender (sent_net.mem 3)) refl refl refl

hello-AllDeliverable : AllDeliverable wiring 4096 sent_net hello_posted
hello-AllDeliverable n p = elim (ℕ_discrete n 3) [
  | yes e ↦ rw e (client-IsPeer 2 (omega arith) (omega arith), hello_fits, hello_left)
  | no differ ↦ rw (update_other 3 n (posted 2 hello) (λ m. idle) differ) tt
]

drain_example :
    (es : List Event) × (v : Net) × Turns wiring kernel sent_net es v
    × ((i : ℕ)
        → IsPeer layout i
        → ((v.mem i).buflen ≡ 0)
          × (losses i es ≡ [])
          × (departures i es ≡ under_way (hello_posted i)))
drain_example =
    Turns-drain wiring wiring-IsSound kernel wait wiring-Tells 4096 sent_net hello_posted
      sent_Represents hello-AllDeliverable
