-- ===== src/Famez/Link/Answers.antt =====
-- The link layer's answer to a message: what it leaves.
use mathlib.Core.Path.{fun_ext}
use fame_z.Base.{
  ==_refl, Bool, List, Returns, Returns-bind, Returns-mono, ap, arith, false, inr, length, refl,
  sym, to_s32, true, ℕ, ◌+◌, ◌<◌, ◌^◌, ◌∙◌, ◌∷◌, ◌≡◌, ◌≢◌, ◌≤◌,
}
use fame_z.Famez.Incoming.{clear_buflen}
use fame_z.Famez.Link.{reply, sizeof_outbuf, stamp_sender}
use fame_z.Famez.Link.Locking.{consumed}
use fame_z.Famez.Outgoing.{fill_slot, peer_id_of, ringer, sid_cid_is_peer_id}
use fame_z.Famez.Outgoing.Send.{Sent, famez_create_outgoing-Sent}
use fame_z.Famez.Types.{
  CoreStructure, Host, Kernel, Mailslot, own_slot, set_adapter, set_slot, write_slot,
  write_slot_other, write_slot_self,
}

-- A message that was answered: its sender's ids are stamped on it, and it is gone.
abbrev pub served_slot : Mailslot → Mailslot
served_slot s = record (stamp_sender s) { buflen = 0 }

-- What the answer to the message at `p` leaves: the text in the own slot, the message gone, no
-- other slot changed, the doorbell rung once, the core structure `c`, and the lock free.
pub record Answered (text : List ℕ) (c : CoreStructure) (h : Host) (p : ℕ) (handled : Bool)
    (h' : Host) : Type 0 where
  pub yes_ : handled ≡ true
  pub slots :
      h'.slots
      ≡ write_slot h.adapter.my_slot
          (fill_slot (h.slots p).peer_id text (length text) (own_slot h))
          (write_slot p (served_slot (h.slots p)) h.slots)
  pub rang : h'.doorbells ≡ ringer (h.slots p).peer_id h.adapter.my_id ∷ h.doorbells
  pub adapter : h'.adapter ≡ record (h.adapter) { incoming_slot_lock = false; core = c }
  pub bar2 : h'.bar2 ≡ h.bar2

-- The own slot is free, and is not the sender's, whose number is one of a client.
pub record CanAnswer (h : Host) (p : ℕ) : Type 0 where
  pub free : (own_slot h).buflen ≡ 0
  pub other : p ≢ h.adapter.my_slot
  pub low : 1 ≤ (h.slots p).peer_id
  pub high : (h.slots p).peer_id ≤ h.bar2.server_id
  pub bound : h.bar2.server_id < 2 ^ 32
  pub room : sizeof_outbuf ≤ h.adapter.max_buflen

write_slot_twice :
    (p : ℕ) (s t : Mailslot) (f : ℕ → Mailslot)
    → write_slot p s (write_slot p t f) ≡ write_slot p s f
write_slot_twice p s t f = fun_ext (λ q. ground arith)

-- A stamped and consumed message, and perhaps a new core structure.
abbrev taken_from : ℕ → CoreStructure → Host → Host
taken_from p c h =
    set_adapter (λ a. record a { core = c }) (consumed p (set_slot p (stamp_sender (h.slots p)) h))

module _ (p : ℕ) (c : CoreStructure) (h : Host) where
  taken_from-slots : (taken_from p c h).slots ≡ write_slot p (served_slot (h.slots p)) h.slots
  unfolding clear_buflen
  taken_from-slots =
      write_slot_twice p _ (stamp_sender (h.slots p)) h.slots
      ∙ ap (λ s. write_slot p (record s { buflen = 0 }) h.slots)
          (write_slot_self p (stamp_sender (h.slots p)) h.slots)

  taken_from-peer_id : ((taken_from p c h).slots p).peer_id ≡ (h.slots p).peer_id
  unfolding clear_buflen stamp_sender
  taken_from-peer_id = rw (==_refl p) refl

  taken_from-own : p ≢ h.adapter.my_slot → own_slot (taken_from p c h) ≡ own_slot h
  unfolding clear_buflen
  taken_from-own other =
      ap (λ f. f h.adapter.my_slot) taken_from-slots
      ∙ write_slot_other p h.adapter.my_slot (served_slot (h.slots p)) h.slots (λ e. other (sym e))

  Answered-Sent :
      (text : List ℕ) (h' : Host)
      → p ≢ h.adapter.my_slot
      → Sent (taken_from p c h) h' (h.slots p).peer_id text (length text)
      → Answered text c h p true h'
  unfolding clear_buflen
  Answered-Sent text h' other sent = record {
    yes_ = refl;
    slots =
        sent.slots
        ∙ ap
            (λ s.
              write_slot h.adapter.my_slot (fill_slot (h.slots p).peer_id text (length text) s)
                (taken_from p c h).slots)
            (taken_from-own other)
        ∙ ap
            (write_slot h.adapter.my_slot
              (fill_slot (h.slots p).peer_id text (length text) (own_slot h)))
            taken_from-slots;
    rang = sent.rang;
    adapter = sent.adapter;
    bar2 = sent.bar2;
  }

-- The answer is in the own slot.
pub Answered-own :
    (text : List ℕ) (c : CoreStructure) (h h' : Host) (p : ℕ) (handled : Bool)
    → Answered text c h p handled h'
    → h'.slots h.adapter.my_slot ≡ fill_slot (h.slots p).peer_id text (length text) (own_slot h)
Answered-own text c h h' p handled a =
    ap (λ f. f h.adapter.my_slot) a.slots
    ∙ write_slot_self h.adapter.my_slot
        (fill_slot (h.slots p).peer_id text (length text) (own_slot h))
        (write_slot p (served_slot (h.slots p)) h.slots)

peer_id_of-u32 : (n : ℕ) → n < 2 ^ 32 → peer_id_of (to_s32 n) sid_cid_is_peer_id ≡ n
unfolding peer_id_of
peer_id_of-u32 n h = ground arith

module _ (k : Kernel) where
  -- With the own slot free an answer that the checks accept goes out at once.
  reply-Sent :
      (p : ℕ) (outbuf : List ℕ) (h : Host)
      → (own_slot h).buflen ≡ 0
      → 1 ≤ (h.slots p).peer_id
      → (h.slots p).peer_id ≤ h.bar2.server_id
      → h.bar2.server_id < 2 ^ 32
      → length outbuf < h.adapter.max_buflen
      → 0 < length outbuf
      → Returns
          (λ r h'. (r ≡ true) × Sent h h' (h.slots p).peer_id outbuf (length outbuf))
          (reply k p outbuf h)
  unfolding reply
  reply-Sent p outbuf h free low high bound room some_data =
      let id = peer_id_of-u32 (h.slots p).peer_id (omega (arith, high, bound)) in
      Returns-bind
        (λ r h'.
          (r ≡ to_s32 (length outbuf))
          × Sent h h' (peer_id_of (to_s32 (h.slots p).peer_id) sid_cid_is_peer_id) outbuf
              (length outbuf))
        (λ r h'. (r ≡ true) × Sent h h' (h.slots p).peer_id outbuf (length outbuf)) _ _
        (famez_create_outgoing-Sent k true (to_s32 (h.slots p).peer_id) sid_cid_is_peer_id outbuf
          (length outbuf) h
          (record {
            subnet = inr refl;
            peer_low = omega (arith, id);
            peer_high = omega (arith, id);
            room = room;
            some_data = some_data;
          })
          free)
        λ r h' (e, sent). (refl, rw id at sent)

  pub reply-Answered :
      (text : List ℕ) (c : CoreStructure) (p : ℕ) (h : Host)
      → CanAnswer h p
      → length text + 1 ≤ sizeof_outbuf
      → 0 < length text
      → Returns (Answered text c h p) (reply k p text (taken_from p c h))
  unfolding clear_buflen
  reply-Answered text c p h can fits some_data =
      let id = taken_from-peer_id p c h in
      let t = taken_from p c h in
      Returns-mono (λ r h'. (r ≡ true) × Sent t h' (t.slots p).peer_id text (length text))
        (Answered text c h p) (reply k p text t)
        (reply-Sent p text t (ap (λ m. m.buflen) (taken_from-own p c h can.other) ∙ can.free)
          (omega (arith, id, can.low)) (omega (arith, id, can.high)) can.bound
          (omega (arith, fits, can.room)) some_data)
        λ r h' (e, sent). rw e (Answered-Sent p c h text h' can.other (rw id at sent))
