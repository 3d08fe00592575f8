-- ===== src/Famez/Interrupt.antt =====
-- The interrupt handler `all_msix` of kernel/famez/famez_MSI-X.c.
pub mod Table
pub mod Locking
pub mod Delivery
pub mod Answers
pub mod Stomping
use fame_z.Base.{
  Bool, Cmd, List, Option, and_then, false, fault, get_elem?, if◌then◌else◌, leb, none,
  null_pointer, ok, out_of_bounds, some, suc, true, zero, ℕ, ◌%◌, ◌+◌, ◌-◌, ◌==◌, ◌^◌,
}
use fame_z.Famez.Incoming.{spin_lock, spin_unlock}
use fame_z.Famez.Link.{famez_link_request}
use fame_z.Famez.Slots.{calculate_mailslot}
use fame_z.Famez.Types.{Host, Kernel, MsixEntry, set_adapter}

-- The loop over the entries from `slotnum` on, `rounds` of them: the index of the first that has
-- the vector, or where the loop ended. `none` is a read past the table.
pub match_vector : ℕ → ℕ → ℕ → List MsixEntry → Option ℕ
match_vector vector zero slotnum entries = some slotnum
match_vector vector (suc rounds) slotnum entries = elim (get_elem? entries slotnum) [
  | none ↦ none
  | some e ↦ elim (vector == e.vector) [
    | true ↦ some slotnum
    | false ↦ match_vector vector rounds (slotnum + 1) entries
  ]
]

abbrev pub irq_none : Bool
irq_none = false

abbrev pub irq_handled : Bool
irq_handled = true

-- `wake_up` on the readers' queue.
abbrev pub wake_up : Host → Host
wake_up h = record h { wakeups = suc h.wakeups }

module _ (k : Kernel) where
  -- The end of the handler: the link layer's answer, or the new incoming slot for a reader.
  pub deliver : ℕ → Cmd Host Bool
  deliver p h = and_then (famez_link_request k p h) λ handled h'.
      if handled
      then ok irq_handled h'
      else and_then (spin_unlock (set_adapter (λ a. record a { incoming_slot = some p }) h'))
          (λ _ h''. ok irq_handled (wake_up h''))

  -- Behind the lock, with the table at hand.
  pub dispatch : ℕ → List MsixEntry → Cmd Host Bool
  dispatch vector entries h = elim (match_vector vector (h.bar2.n_events - 1) 1 entries) [
    | none ↦ fault out_of_bounds
    | some slotnum ↦
        if leb h.bar2.n_events slotnum
        then and_then (spin_unlock h) (λ _ h'. ok irq_none h')
        else elim (get_elem? entries slotnum) [
          | none ↦ fault out_of_bounds
          | some e ↦ elim (calculate_mailslot h.adapter.globals h.bar2 (e.entry % 2 ^ 16)) [
            | none ↦ and_then (spin_unlock h) (λ _ h'. ok irq_handled h')
            | some p ↦ deliver p h
          ]
        ]
  ]

  pub all_msix : ℕ → Cmd Host Bool
  all_msix vector h = and_then (spin_lock h) λ _ h'. elim h'.adapter.irq_private [
    | none ↦ fault null_pointer
    | some entries ↦ dispatch vector entries h'
  ]
