-- ===== src/Famez/Link.antt =====
-- `famez_link_request` of kernel/famez/famez_link.c: messages that the link layer answers itself,
-- in interrupt context, entered with the adapter's lock held.
pub mod Locking
pub mod Assignment
pub mod Answers
pub mod Acknowledgment
pub mod Requests
pub mod Silence
pub mod Conversation
use fame_z.Base.{
  Bool, Cmd, List, Option, [], and_then, codes, false, if◌then◌else◌, length, negsuc, none, ok,
  some, to_s32, to_u32, true, ℕ, ℤ, ◌%◌, ◌&&◌, ◌*◌, ◌==◌, ◌^◌, ◌∷◌,
}
use fame_z.Base.Text.{Piece, c_string, lits, num, sprintf, sscanf, starts_with}
use fame_z.Famez.Incoming.{clear_buflen, spin_unlock}
use fame_z.Famez.Outgoing.{famez_create_outgoing, sid_cid_is_peer_id}
use fame_z.Famez.Types.{CoreStructure, Host, Kernel, Mailslot, set_adapter, set_slot}

abbrev pub link_ctl_peer_attribute : List ℕ
link_ctl_peer_attribute = codes "Link CTL Peer-Attribute"

-- "Link CTL ACK C-Class=%s,SID0=%d,CID0=%d", with the class filled in.
pub link_ctl_ack : List ℕ → List Piece
link_ctl_ack class =
    lits (codes "Link CTL ACK C-Class=")
      (lits class (lits (codes ",SID0=") (num ∷ lits (codes ",CID0=") (num ∷ []))))

-- "CTL-Write Space=0,PFMSID=%d,PFMCID=%d,SID=%d,CID=%d,Tag=%d"
unfoldable pub ctl_write_0_sid_cid : List Piece
ctl_write_0_sid_cid = lits (codes "CTL-Write Space=0,PFMSID=") (
    num
    ∷ lits (codes ",PFMCID=") (
        num
        ∷ lits (codes ",SID=")
            (num ∷ lits (codes ",CID=") (num ∷ lits (codes ",Tag=") (num ∷ [])))))

-- "Standalone Acknowledgment Tag=%d,Reason=OK"
pub standalone_acknowledgment : List Piece
standalone_acknowledgment =
    lits (codes "Standalone Acknowledgment Tag=") (num ∷ lits (codes ",Reason=OK") [])

-- `char outbuf[128]`
abbrev pub sizeof_outbuf : ℕ
sizeof_outbuf = 128

-- `%d` into a `uint32_t`, stored in an `int32_t`.
abbrev pub through_u32 : ℤ → ℤ
through_u32 z = to_s32 (to_u32 z)

-- The fixed ids of the sender.
unfoldable pub stamp_sender : Mailslot → Mailslot
stamp_sender s = record s { peer_sid = 27; peer_cid = s.peer_id * 100 % 2 ^ 64 }

-- What the manager assigns to the component.
pub assign_ids : (pfmsid pfmcid sid cid : ℤ) → CoreStructure → CoreStructure
assign_ids pfmsid pfmcid sid cid c = record c {
  pfmsid = through_u32 pfmsid;
  pfmcid = through_u32 pfmcid;
  sid0 = through_u32 sid;
  cid0 = through_u32 cid;
  pmcid = negsuc 0;
}

-- What a message asks of the link layer.
pub data Request : Type 0 where
  ping peer_attribute : Request
  ctl_write : (pfmsid pfmcid sid cid tag : ℤ) → Request

five : List ℤ → Option Request
five (a ∷ b ∷ c ∷ d ∷ e ∷ []) = some (ctl_write a b c d e)
five _ = none

-- The three tests, in order, on the sender's slot. The text in `buf` ends within the slot.
unfoldable pub recognise : ℕ → Mailslot → Option Request
unfolding five
recognise max_buflen s =
    if s.buflen == 4 && starts_with (codes "ping") s.buf 0
    then some ping
    else (if starts_with link_ctl_peer_attribute s.buf 0
        then some peer_attribute
        else five (sscanf ctl_write_0_sid_cid (c_string max_buflen s.buf 0)))

-- Each answer begins by taking the message out of the slot and releasing the lock.
pub consume : ℕ → Cmd Host (Unit {0})
consume p h = spin_unlock (clear_buflen p h)

module _ (k : Kernel) where
  -- The answer goes to the peer that the slot names; its outcome is ignored.
  pub reply : ℕ → List ℕ → Cmd Host Bool
  reply p outbuf h =
      and_then
        (famez_create_outgoing k true (to_s32 (h.slots p).peer_id) sid_cid_is_peer_id outbuf
          (length outbuf) h)
        (λ _ h'. ok true h')

  -- `true` is IRQ_HANDLED.
  pub answer : ℕ → Request → Cmd Host Bool
  answer p ping h = and_then (consume p h) λ _ h'. reply p (codes "pong") h'
  answer p peer_attribute h = and_then (consume p h) λ _ h'.
      let c = h'.adapter.core in
      reply p (sprintf (link_ctl_ack c.base_c_class_str) (c.sid0 ∷ c.cid0 ∷ [])) h'
  answer p (ctl_write a b c d tag) h = and_then (consume p h) λ _ h'.
      reply p (sprintf standalone_acknowledgment (through_u32 tag ∷ []))
        (set_adapter (λ r. record r { core = assign_ids a b c d r.core }) h')

  unfoldable pub famez_link_request : ℕ → Cmd Host Bool
  famez_link_request p h =
      let h' = set_slot p (stamp_sender (h.slots p)) h in
      elim (recognise h.adapter.max_buflen (h'.slots p)) [
        | some r ↦ answer p r h'
        | none ↦ ok false h'
      ]
