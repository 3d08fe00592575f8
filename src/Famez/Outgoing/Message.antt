-- ===== src/Famez/Outgoing/Message.antt =====
-- What the peer finds: the bytes of the message in the slot, and the two ids in the doorbell.
use fame_z.Base.{List, arith, length, refl, ℕ, ◌%◌, ◌/◌, ◌<◌, ◌^◌, ◌≡◌}
use fame_z.Base.Text.Memory.{Holds, get-Holds}
use fame_z.Famez.Outgoing.{fill_slot, ringer}
use fame_z.Famez.Types.{Mailslot}

-- The slot holds the message and a NUL behind it, and no byte beyond is touched.
pub fill_slot-message :
    (peer_id : ℕ) (msg : List ℕ) (s : Mailslot)
    → let t = fill_slot peer_id msg (length msg) s in
      Holds t.buf 0 msg
      × (t.buf (length msg) ≡ 0)
      × ((i : ℕ) → length msg < i → t.buf i ≡ s.buf i)
      × (t.buflen ≡ length msg)
      × (t.peer_id ≡ s.peer_id)
      × (t.nodename ≡ s.nodename)
unfolding fill_slot
fill_slot-message peer_id msg s =
    (get-Holds _ 0 msg (λ j l. ground arith), ground arith, λ i l. ground arith, refl, refl, refl)

-- Ids below 2 ^ 16 come out of the doorbell value as they went in.
pub ringer_fields :
    (peer vector : ℕ)
    → peer < 2 ^ 16
    → vector < 2 ^ 16
    → (ringer peer vector / 2 ^ 16 ≡ peer)
      × (ringer peer vector % 2 ^ 16 ≡ vector)
      × (ringer peer vector < 2 ^ 32)
unfolding ringer
ringer_fields peer vector p v = (omega arith, omega arith, omega arith)
