-- ===== src/Famez/Interrupt/Delivery.antt =====
-- A message that the link layer leaves alone reaches the reader: the interrupt's vector names the
-- sender, whose slot becomes the incoming one.
use native.Mathlib.Decide.{dec_lt}
use fame_z.Base.{
  List, ap, arith, false, get_elem?, length, lt→leb, none, ok, refl, some, suc, ℕ, ◌%◌, ◌-◌, ◌<◌,
  ◌^◌, ◌∙◌, ◌≡◌, ◌≤◌,
}
use fame_z.Famez.Incoming.{spin_unlock}
use fame_z.Famez.Interrupt.{all_msix, deliver, dispatch, irq_handled, match_vector}
use fame_z.Famez.Interrupt.Locking.{HasTable, all_msix_lem, with_lock}
use fame_z.Famez.Interrupt.Table.{HasVector, match_vector-found}
use fame_z.Famez.Link.{famez_link_request, recognise, stamp_sender}
use fame_z.Famez.Link.Locking.{IsFree, IsLocked}
use fame_z.Famez.Slots.{calculate_mailslot}
use fame_z.Famez.Types.{Host, Kernel, MsixEntry, set_slot, write_slot, write_slot_self}

-- The vector is that of entry `n`, of no entry before it, and the entry carries its own index.
pub record Names (h : Host) (entries : List MsixEntry) (n vector : ℕ) : Type 0 where
  pub here : get_elem? entries n ≡ some (record { vector = vector; entry = n })
  pub first : (m : ℕ) → 1 ≤ m → m < n → ¬ HasVector entries m vector
  pub low : 1 ≤ n
  pub high : n < h.bar2.n_events
  pub short : n < 2 ^ 16

pub match_vector-Names :
    (h : Host) (entries : List MsixEntry) (n vector : ℕ)
    → h.bar2.n_events ≤ length entries
    → Names h entries n vector
    → match_vector vector (h.bar2.n_events - 1) 1 entries ≡ some n
match_vector-Names h entries n vector enough names =
    let (j, found, lo, hi, has, first) =
      match_vector-found vector (h.bar2.n_events - 1) 1 entries (omega arith) in
    let at : HasVector entries n vector =
      (record { vector = vector; entry = n }, names.here, refl) in
    elim (dec_lt n j) [
      | yes l ↦ absurd (first n names.low l at)
      | no not_less ↦ elim (dec_lt j n) [
        | yes l ↦ absurd (names.first j lo l (has (omega arith)))
        | no not_more ↦ found ∙ ap some (omega arith)
      ]
    ]

-- The state behind the delivery of a message from the slot at `p`.
abbrev pub delivered : ℕ → Host → Host
delivered p h = record h {
  slots = write_slot p (stamp_sender (h.slots p)) h.slots;
  adapter = record (h.adapter) { incoming_slot = some p; incoming_slot_lock = false };
  wakeups = suc h.wakeups;
}

module _ (k : Kernel) where
  famez_link_request-none :
      (p : ℕ) (h : Host)
      → recognise h.adapter.max_buflen (stamp_sender (h.slots p)) ≡ none
      → famez_link_request k p h ≡ ok false (set_slot p (stamp_sender (h.slots p)) h)
  unfolding famez_link_request
  famez_link_request-none p h e =
      let none_ : recognise h.adapter.max_buflen (write_slot p (stamp_sender (h.slots p)) h.slots p)
          ≡ none =
        rw (write_slot_self p (stamp_sender (h.slots p)) h.slots) e in
      rw (none_, famez_link_request)

  deliver_lem :
      (p : ℕ) (h : Host)
      → IsLocked h
      → recognise h.adapter.max_buflen (stamp_sender (h.slots p)) ≡ none
      → deliver k p h ≡ ok irq_handled (delivered p h)
  unfolding deliver spin_unlock
  deliver_lem p h l e = rw (famez_link_request-none p h e) (rw l)

  -- With the lock free, a table with an entry for each event, and a vector that is first that of
  -- the sender's entry, for a message that the link layer leaves alone: the handler makes the
  -- sender's slot the incoming slot, wakes the readers, and touches nothing else but the sender's
  -- fixed ids.
  pub all_msix-delivers :
      (h : Host) (entries : List MsixEntry) (n vector p : ℕ)
      → IsFree h
      → HasTable h entries
      → Names h entries n vector
      → calculate_mailslot h.adapter.globals h.bar2 n ≡ some p
      → recognise h.adapter.max_buflen (stamp_sender (h.slots p)) ≡ none
      → all_msix k vector h ≡ ok irq_handled (delivered p h)
  unfolding dispatch
  all_msix-delivers h entries n vector p free tab names slot plain_ =
      let id : n % 2 ^ 16 ≡ n = omega (arith, names.short) in
      rw (all_msix_lem k vector h entries free tab.table) (
        rw (match_vector-Names h entries n vector tab.enough names, dispatch)
          (rw (lt→leb h.bar2.n_events n names.high, names.here, id, slot)
            (deliver_lem p (with_lock h) refl plain_)))
