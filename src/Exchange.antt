-- ===== src/Exchange.antt =====
-- From one host to another: a message that `famez_create_outgoing` sent is what the character
-- device of the peer gives its reader.
pub mod Mailbox
pub mod Network
pub mod Refinement
pub mod Drain
use fame_z.Base.{
  Bool, List, [], and_then, ap, false, length, none, ok, pos, refl, some, to_s32, ℕ, ℤ, ◌++◌, ◌+◌,
  ◌<◌, ◌^◌, ◌∙◌, ◌∷◌, ◌≡◌, ◌≤◌,
}
use fame_z.Base.Text.Memory.{NoNul, Without, read_bytes-Holds}
use fame_z.Bridge.{Reading, copy_out, famez_bridge_read, famez_bridge_write, sidcid_text}
use fame_z.Bridge.Delivery.{famez_bridge_write-Delivered}
use fame_z.Bridge.Destination.{Parsed, parse_target, target}
use fame_z.Bridge.Read.{copy_out-delivers, famez_bridge_read-released, whole}
use fame_z.Bridge.Write.{CanWrite, too_big}
use fame_z.Famez.Incoming.{Woken}
use fame_z.Famez.Incoming.Handoff.{released}
use fame_z.Famez.Interrupt.{all_msix}
use fame_z.Famez.Interrupt.Delivery.{Names, all_msix-delivers, delivered}
use fame_z.Famez.Interrupt.Locking.{HasTable}
use fame_z.Famez.Link.{recognise, stamp_sender}
use fame_z.Famez.Link.Locking.{IsFree}
use fame_z.Famez.Outgoing.{famez_create_outgoing, fill_slot, peer_id_of}
use fame_z.Famez.Outgoing.Message.{fill_slot-message}
use fame_z.Famez.Outgoing.Send.{Accepts, Sent, famez_create_outgoing-Sent}
use fame_z.Famez.Slots.{calculate_mailslot}
use fame_z.Famez.Types.{BridgeBuffers, Host, Kernel, Mailslot, MsixEntry, own_slot, write_slot_self}

-- What the peer's reader finds in the slot: the message, and the sender's ids stamped on it.
abbrev pub arrived : ℕ → List ℕ → Mailslot → Mailslot
arrived peer msg s = stamp_sender (fill_slot peer msg (length msg) s)

-- Host `b` is ready for the message in slot `s`, which it sees at `p`: its lock is free, its vector
-- table names the sender `n`, the link layer leaves the message alone, and the reader has room.
pub record CanReceive (b : Host) (entries : List MsixEntry) (n vector p buflen : ℕ) (s : Mailslot)
    : Type 0 where
  pub unlocked : IsFree b
  pub table : HasTable b entries
  pub names : Names b entries n vector
  pub place : calculate_mailslot b.adapter.globals b.bar2 n ≡ some p
  pub plain_ : recognise b.adapter.max_buflen s ≡ none
  pub short : length (sidcid_text s) ≤ 30
  pub room : s.buflen + length (sidcid_text s) ≤ buflen
  pub small : s.buflen + length (sidcid_text s) < 2 ^ 31

module _ (peer : ℕ) (msg : List ℕ) (old : Mailslot) where
  abbrev slot : Mailslot
  slot = arrived peer msg old

  -- What the reader gets: the header of the sender, and the message as it was sent.
  abbrev pub delivery : Reading
  delivery =
      let header = sidcid_text slot in
      record {
        ret = pos (length msg + length header);
        copied = (0, header) ∷ (length header, msg) ∷ [];
      }

  whole-delivery : whole slot ≡ delivery
  unfolding fill_slot stamp_sender
  whole-delivery = rw (read_bytes-Holds slot.buf 0 msg (fill_slot-message peer msg old).0)

  -- An interrupt and a read, behind which the slot is free.
  fill_slot-arrives :
      (k : Kernel) (b : Host) (entries : List MsixEntry) (n vector p : ℕ) (wait : Host → Woken)
      (nonblocking : Bool) (buflen : ℕ)
      → b.slots p ≡ fill_slot peer msg (length msg) old
      → CanReceive b entries n vector p buflen slot
      → and_then
          (all_msix k vector b)
          (λ _. famez_bridge_read wait nonblocking (pos 0) (pos 0) buflen)
        ≡ ok delivery (released p (delivered p b))
  fill_slot-arrives k b entries n vector p wait nonblocking buflen same can =
      let found : stamp_sender (b.slots p) ≡ slot = ap stamp_sender same in
      rw
        (all_msix-delivers k b entries n vector p can.unlocked can.table can.names can.place
          (rw found can.plain_))
        (rw
          (famez_bridge_read-released wait nonblocking (pos 0) (pos 0) buflen (delivered p b) p refl
            refl)
          (ap (λ x. ok x (released p (delivered p b)))
            (ap (copy_out (pos 0) (pos 0) buflen)
                (write_slot_self p (stamp_sender (b.slots p)) b.slots ∙ found)
              ∙ copy_out-delivers slot buflen can.short can.room can.small
              ∙ whole-delivery)))

module _ (k : Kernel) (a a' b : Host) (cid sid r : ℤ) (msg : List ℕ) where
  -- Host `a` has sent a message from a free slot, which the checks accepted. Host `b` sees the slot
  -- at `p`, its lock is free, its table of vectors is full and names the sender, its link layer
  -- leaves the message alone, and the header has at most 30 characters and fits the reader's buffer
  -- with the message, both below 2 ^ 31. Then behind the interrupt a read at `b` returns the
  -- sender's header and exactly the bytes that were sent, frees the slot and leaves the lock free.
  pub message-arrives :
      (in_interrupt : Bool) (entries : List MsixEntry) (n vector p : ℕ) (wait : Host → Woken)
      (nonblocking : Bool) (buflen : ℕ)
      → Accepts a cid sid (length msg)
      → (own_slot a).buflen ≡ 0
      → famez_create_outgoing k in_interrupt cid sid msg (length msg) a ≡ ok r a'
      → b.slots p ≡ a'.slots a.adapter.my_slot
      → CanReceive b entries n vector p buflen (arrived (peer_id_of cid sid) msg (own_slot a))
      → and_then
          (all_msix k vector b)
          (λ _. famez_bridge_read wait nonblocking (pos 0) (pos 0) buflen)
        ≡ ok (delivery (peer_id_of cid sid) msg (own_slot a)) (released p (delivered p b))
  message-arrives in_interrupt entries n vector p wait nonblocking buflen accepts free run same
        can =
      let peer = peer_id_of cid sid in
      let sent : Sent a a' peer msg (length msg) =
        (rw run at
          (famez_create_outgoing-Sent k in_interrupt cid sid msg (length msg) a accepts free)).1 in
      fill_slot-arrives peer msg (own_slot a) k b entries n vector p wait nonblocking buflen
        (same
          ∙ ap (λ f. f a.adapter.my_slot) sent.slots
          ∙ write_slot_self a.adapter.my_slot (fill_slot peer msg (length msg) (own_slot a))
              a.slots)
        can

module _ (k : Kernel) (kstrtoint : List ℕ → Parsed) (a a' b : Host) (cid sid r : ℤ)
    (head body : List ℕ) where
  -- A user of host `a` has written "HEAD:BODY" to the open device, whose buffer was unlocked and
  -- whose own slot was free, where HEAD has no NUL and no colon and names a peer that accepts BODY.
  -- Host `b` sees the slot at `p`, and can receive the message. Then behind the interrupt a user
  -- who reads at `b` gets the sender's header and exactly BODY, and the slot is free.
  pub write-arrives :
      (buffers : BridgeBuffers) (entries : List MsixEntry) (n vector p : ℕ) (wait : Host → Woken)
      (nonblocking : Bool) (buflen : ℕ)
      → CanWrite a buffers
      → too_big k a (length (head ++ b':' ∷ body)) ≡ false
      → NoNul head
      → Without b':' head
      → parse_target kstrtoint a.bar2.server_id head ≡ target cid sid
      → Accepts a cid sid (length body)
      → (own_slot a).buflen ≡ 0
      → length body < 2 ^ 31
      → famez_bridge_write k kstrtoint
          (pos 0)
          (head ++ b':' ∷ body)
          (length (head ++ b':' ∷ body))
          a
        ≡ ok r a'
      → b.slots p ≡ a'.slots a.adapter.my_slot
      → CanReceive b entries n vector p buflen (arrived (peer_id_of cid sid) body (own_slot a))
      → (r ≡ to_s32 (length (head ++ b':' ∷ body)))
        × (and_then
              (all_msix k vector b)
              (λ _. famez_bridge_read wait nonblocking (pos 0) (pos 0) buflen)
            ≡ ok (delivery (peer_id_of cid sid) body (own_slot a)) (released p (delivered p b)))
  write-arrives buffers entries n vector p wait nonblocking buflen writes fits nul colon names_
        accepts free small run same can =
      let peer = peer_id_of cid sid in
      let (whole, slots, rang, open_) = rw run at (
        famez_bridge_write-Delivered k kstrtoint cid sid head body buffers a writes fits nul colon
          names_ accepts free small) in
      (
        whole,
        fill_slot-arrives peer body (own_slot a) k b entries n vector p wait nonblocking buflen
            (same
              ∙ ap (λ f. f a.adapter.my_slot) slots
              ∙ write_slot_self a.adapter.my_slot (fill_slot peer body (length body) (own_slot a))
                  a.slots)
            can,
      )
