-- ===== src/Famez/Interrupt/Stomping.antt =====
-- A second message while a reader still holds the slot of the first.
use fame_z.Base.{List, Returns, and_then, ap, none, refl, some, ℕ, ◌∙◌, ◌≡◌, ◌≢◌}
use fame_z.Famez.Incoming.{famez_release_incoming}
use fame_z.Famez.Incoming.Handoff.{famez_release_incoming_lem}
use fame_z.Famez.Interrupt.{all_msix}
use fame_z.Famez.Interrupt.Delivery.{Names, all_msix-delivers, delivered}
use fame_z.Famez.Interrupt.Locking.{HasTable}
use fame_z.Famez.Link.{recognise, stamp_sender}
use fame_z.Famez.Link.Locking.{IsFree}
use fame_z.Famez.Slots.{calculate_mailslot}
use fame_z.Famez.Types.{Host, Kernel, MsixEntry, write_slot, write_slot_other, write_slot_self}

module _ (k : Kernel) where
  -- What the reader of the slot at `p` leaves behind when the slot at `q` came in meanwhile.
  abbrev pub Stomped : Host → (p q : ℕ) → Host → Type 0
  Stomped h p q h' =
      (h'.slots p ≡ h.slots p) × ((h'.slots q).buflen ≡ 0) × (h'.adapter.incoming_slot ≡ none)

  -- The reader has the slot at `p` when the interrupt delivers the slot at another `q`: its
  -- release then frees `q`, whose message nobody has read, and leaves the slot at `p` as it was,
  -- so that its sender stays blocked.
  pub famez_release_incoming-Stomped :
      (h : Host) (entries : List MsixEntry) (n vector p q : ℕ)
      → IsFree h
      → HasTable h entries
      → Names h entries n vector
      → calculate_mailslot h.adapter.globals h.bar2 n ≡ some q
      → recognise h.adapter.max_buflen (stamp_sender (h.slots q)) ≡ none
      → h.adapter.incoming_slot ≡ some p
      → p ≢ q
      → Returns (λ _. Stomped h p q) (and_then (all_msix k vector h) λ _. famez_release_incoming)
  famez_release_incoming-Stomped h entries n vector p q free tab names slot plain_ held differ =
      rw (all_msix-delivers k h entries n vector q free tab names slot plain_) (
        rw (famez_release_incoming_lem (delivered q h) q refl refl) (
          write_slot_other q p
                (record (write_slot q (stamp_sender (h.slots q)) h.slots q) { buflen = 0 })
                (write_slot q (stamp_sender (h.slots q)) h.slots) differ
              ∙ write_slot_other q p (stamp_sender (h.slots q)) h.slots differ,
          ap (λ s. s.buflen)
              (write_slot_self q (record ((delivered q h).slots q) { buflen = 0 })
                (delivered q h).slots),
          refl,
        ))
