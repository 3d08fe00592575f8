-- ===== src/Famez/Link/Requests.antt =====
-- What a message asks of the link layer, and the answer that it gets at once.
use fame_z.Base.{
  All, List, Returns, [], arith, codes, length, pos, refl, some, ℕ, ℤ, ◌++◌, ◌<◌, ◌∷◌, ◌≡◌, ◌≤◌,
}
use fame_z.Base.Text.Memory.{Holds}
use fame_z.Base.Text.Print.{IsInt32}
use fame_z.Famez.Incoming.{clear_buflen}
use fame_z.Famez.Link.{
  Request, answer, ctl_write, famez_link_request, link_ctl_peer_attribute, peer_attribute, ping,
  recognise, stamp_sender,
}
use fame_z.Famez.Link.Acknowledgment.{
  link_ctl_ack-some, link_ctl_ack_text, outbuf-fits, recognise-peer_attribute, recognise-ping,
  standalone_acknowledgment-some, standalone_acknowledgment_text,
}
use fame_z.Famez.Link.Answers.{Answered, CanAnswer, reply-Answered}
use fame_z.Famez.Link.Assignment.{
  Assigned, HasMessage, IsTrailer, assign_ids-Assigned, ctl_write_message, ints-Small,
  recognise-ctl_write, through_u32-int32,
}
use fame_z.Famez.Link.Locking.{IsLocked, consume_lem}
use fame_z.Famez.Types.{CoreStructure, Host, Kernel, set_slot, write_slot_self}

-- The message at `p` is a request: the text that answers it, and the core structure behind it.
pub data Asks (h : Host) (p : ℕ) (text : List ℕ) (c : CoreStructure) : Type 0 where
  asks_ping :
      (h.slots p).buflen ≡ 4
      → Holds (h.slots p).buf 0 (codes "ping")
      → text ≡ codes "pong"
      → c ≡ h.adapter.core
      → Asks h p text c
  asks_attribute :
      Holds (h.slots p).buf 0 link_ctl_peer_attribute
      → text ≡ link_ctl_ack_text h.adapter.core
      → c ≡ h.adapter.core
      → Asks h p text c
  asks_write :
      (pfmsid pfmcid sid cid tag : ℤ) (trailer : List ℕ)
      → IsTrailer trailer
      → All IsInt32 (pfmsid ∷ pfmcid ∷ sid ∷ cid ∷ tag ∷ [])
      → HasMessage h.adapter.max_buflen
          (h.slots p)
          (ctl_write_message pfmsid pfmcid sid cid tag ++ trailer)
      → text ≡ standalone_acknowledgment_text tag
      → c ≡ Assigned pfmsid pfmcid sid cid h.adapter.core
      → Asks h p text c

-- An answer is not empty.
pub Asks-some :
    (h : Host) (p : ℕ) (text : List ℕ) (c : CoreStructure) → Asks h p text c → 0 < length text
Asks-some h p text c (asks_ping four holds t e) = rw t (omega arith)
Asks-some h p text c (asks_attribute holds t e) = rw t (link_ctl_ack-some h.adapter.core)
Asks-some h p text c (asks_write a b d f tag trailer behind ints message t e) =
    rw t (standalone_acknowledgment-some tag)

module _ (k : Kernel) (p : ℕ) (h : Host) (locked : IsLocked h) (can : CanAnswer h p) where
  abbrev pub stamped : Host
  stamped = set_slot p (stamp_sender (h.slots p)) h

  pub stamped-recognise :
      (r : Request)
      → recognise h.adapter.max_buflen (stamp_sender (h.slots p)) ≡ some r
      → famez_link_request k p h ≡ answer k p r stamped
  unfolding famez_link_request
  stamped-recognise r e =
      let found : recognise h.adapter.max_buflen (stamped.slots p) ≡ some r =
        rw (write_slot_self p (stamp_sender (h.slots p)) h.slots) e in
      rw (found, famez_link_request) refl

  pings :
      (h.slots p).buflen ≡ 4
      → Holds (h.slots p).buf 0 (codes "ping")
      → Returns (Answered (codes "pong") h.adapter.core h p) (famez_link_request k p h)
  unfolding answer stamp_sender clear_buflen
  pings four holds =
      rw
        (
          stamped-recognise ping
              (recognise-ping h.adapter.max_buflen (stamp_sender (h.slots p)) four holds),
          answer,
        )
        (rw (consume_lem p stamped locked)
          (reply-Answered k (codes "pong") h.adapter.core p h can (omega arith) (omega arith)))

  attributes :
      Holds (h.slots p).buf 0 link_ctl_peer_attribute
      → length h.adapter.core.base_c_class_str ≤ 32
      → Returns
          (Answered (link_ctl_ack_text h.adapter.core) h.adapter.core h p)
          (famez_link_request k p h)
  unfolding answer stamp_sender clear_buflen
  attributes holds class =
      let (fits, acks) =
        outbuf-fits h.adapter.core.base_c_class_str h.adapter.core.sid0 h.adapter.core.cid0 (pos 0)
          class in
      rw
        (
          stamped-recognise peer_attribute
              (recognise-peer_attribute h.adapter.max_buflen (stamp_sender (h.slots p)) holds),
          answer,
        )
        (rw (consume_lem p stamped locked) (
          reply-Answered k (link_ctl_ack_text h.adapter.core) h.adapter.core p h can fits
            (link_ctl_ack-some h.adapter.core)))

  writes :
      (pfmsid pfmcid sid cid tag : ℤ) (trailer : List ℕ)
      → IsTrailer trailer
      → All IsInt32 (pfmsid ∷ pfmcid ∷ sid ∷ cid ∷ tag ∷ [])
      → HasMessage h.adapter.max_buflen
          (h.slots p)
          (ctl_write_message pfmsid pfmcid sid cid tag ++ trailer)
      → Returns
          (Answered
            (standalone_acknowledgment_text tag)
            (Assigned pfmsid pfmcid sid cid h.adapter.core)
            h
            p)
          (famez_link_request k p h)
  unfolding answer stamp_sender clear_buflen
  writes a b c d tag trailer behind (ia, (ib, (ic, (id, (it, u))))) message =
      let (fits, acks) = outbuf-fits [] (pos 0) (pos 0) tag (omega arith) in
      rw
        (
          stamped-recognise (ctl_write a b c d tag) (
              recognise-ctl_write a b c d tag trailer behind h.adapter.max_buflen
                (stamp_sender (h.slots p))
                (ints-Small (a ∷ b ∷ c ∷ d ∷ tag ∷ []) (ia, (ib, (ic, (id, (it, u))))))
                (record { holds = message.holds; nul = message.nul; fits = message.fits })),
          answer,
        )
        (rw (consume_lem p stamped locked) (
          rw (through_u32-int32 tag it, assign_ids-Assigned a b c d h.adapter.core ia ib ic id)
            (reply-Answered k (standalone_acknowledgment_text tag) (Assigned a b c d h.adapter.core)
              p h can acks (standalone_acknowledgment-some tag))))

  -- With the lock held and the own slot free, a request is answered at once.
  pub famez_link_request-answers :
      (text : List ℕ) (c : CoreStructure)
      → Asks h p text c
      → length h.adapter.core.base_c_class_str ≤ 32
      → Returns (Answered text c h p) (famez_link_request k p h)
  famez_link_request-answers text c (asks_ping four holds t e) class = rw (t, e) (pings four holds)
  famez_link_request-answers text c (asks_attribute holds t e) class =
      rw (t, e) (attributes holds class)
  famez_link_request-answers text c (asks_write a b d f tag trailer behind ints message t e) class =
      rw (t, e) (writes a b d f tag trailer behind ints message)
