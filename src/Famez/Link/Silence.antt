-- ===== src/Famez/Link/Silence.antt =====
-- What a link layer (kernel/famez/famez_link.c) makes of what a link layer answers with.
use fame_z.Base.{
  Bool, Bool-cases, List, Option-cases, Returns, Returns-mono, [], arith, codes, false, inl, inr,
  length, none, pos, refl, suc, true, zero, ℕ, ℤ, ◌==◌, ◌∷◌, ◌≡◌, ◌≤◌,
}
use fame_z.Base.Text.{Piece, c_string, is_space, lit, lits, num, sprintf, sscanf, starts_with}
use fame_z.Base.Text.Memory.{Holds, starts_with-differs, starts_with-miss}
use fame_z.Famez.Incoming.{clear_buflen}
use fame_z.Famez.Link.{
  Request, answer, assign_ids, ctl_write, ctl_write_0_sid_cid, famez_link_request, link_ctl_ack,
  link_ctl_peer_attribute, peer_attribute, ping, recognise, stamp_sender, standalone_acknowledgment,
  through_u32,
}
use fame_z.Famez.Link.Acknowledgment.{
  link_ctl_ack-some, link_ctl_ack_text, outbuf-fits, standalone_acknowledgment-some,
  standalone_acknowledgment_text,
}
use fame_z.Famez.Link.Answers.{Answered, Answered-own, CanAnswer, reply-Answered}
use fame_z.Famez.Link.Locking.{IsLocked, consume_lem}
use fame_z.Famez.Link.Requests.{
  Asks, asks_attribute, asks_ping, asks_write, stamped, stamped-recognise,
}
use fame_z.Famez.Outgoing.Message.{fill_slot-message}
use fame_z.Famez.Types.{CoreStructure, Host, Kernel, Mailslot, own_slot, write_slot_self}

-- A text whose first byte is not that of the format.
lit-sscanf :
    (d : ℕ) (f : List Piece) (c : ℕ) (s : List ℕ)
    → is_space d ≡ false
    → (c == d) ≡ false
    → sscanf (lit d ∷ f) (c ∷ s) ≡ []
unfolding sscanf
lit-sscanf d f c s plain_ differ = rw (plain_, sscanf) (rw (differ, sscanf) refl)

-- The format behind its first byte.
abbrev behind_c : List Piece
behind_c = lits (codes "TL-Write Space=0,PFMSID=") (
    num
    ∷ lits (codes ",PFMCID=") (
        num
        ∷ lits (codes ",SID=")
            (num ∷ lits (codes ",CID=") (num ∷ lits (codes ",Tag=") (num ∷ [])))))

no_ctl_write :
    (n : ℕ) (buf : ℕ → ℕ)
    → (buf 0 == b'C') ≡ false
    → sscanf ctl_write_0_sid_cid (c_string n buf 0) ≡ []
unfolding ctl_write_0_sid_cid sscanf c_string
no_ctl_write zero buf first = refl
no_ctl_write (suc f) buf first = elim (Bool-cases (buf 0 == 0)) [
  | inl e ↦ rw (e, c_string) refl
  | inr e ↦ rw (e, c_string) (lit-sscanf b'C' behind_c (buf 0) (c_string f buf 1) refl first)
]

module _ (n : ℕ) (s : Mailslot) where
  pub recognise-none :
      (starts_with (codes "ping") s.buf 0 ≡ false)
      → (starts_with link_ctl_peer_attribute s.buf 0 ≡ false)
      → (s.buf 0 == b'C') ≡ false
      → recognise n s ≡ none
  unfolding recognise
  recognise-none ping_ link first = rw (ping_, link, no_ctl_write n s.buf first) (ground arith)

  recognise-pong : Holds s.buf 0 (codes "pong") → recognise n s ≡ none
  recognise-pong (p, (o, more)) =
      recognise-none (starts_with-differs (codes "p") b'i' (codes "ng") s.buf 0 (rw o refl))
        (starts_with-miss b'L' (codes "ink CTL Peer-Attribute") s.buf 0 (rw p refl)) (rw p refl)

  recognise-link_ctl_ack :
      (c : CoreStructure) → Holds s.buf 0 (link_ctl_ack_text c) → recognise n s ≡ none
  unfolding link_ctl_ack sprintf
  recognise-link_ctl_ack c holds =
      let first : s.buf 0 ≡ b'L' = holds.0 in
      let ninth : s.buf 9 ≡ b'A' = holds.1.1.1.1.1.1.1.1.1.0 in
      recognise-none (starts_with-miss b'p' (codes "ing") s.buf 0 (rw first refl))
        (starts_with-differs (codes "Link CTL ") b'P' (codes "eer-Attribute") s.buf 0
          (rw ninth refl))
        (rw first refl)

  recognise-standalone_acknowledgment :
      (tag : ℤ) → Holds s.buf 0 (standalone_acknowledgment_text tag) → recognise n s ≡ none
  unfolding standalone_acknowledgment sprintf
  recognise-standalone_acknowledgment tag holds =
      let first : s.buf 0 ≡ b'S' = holds.0 in
      recognise-none (starts_with-miss b'p' (codes "ing") s.buf 0 (rw first refl))
        (starts_with-miss b'L' (codes "ink CTL Peer-Attribute") s.buf 0 (rw first refl))
        (rw first refl)

-- No link layer takes the answer to a request for a request, whatever the length of its buffer.
pub Asks-silent :
    (h : Host) (p n : ℕ) (text : List ℕ) (c : CoreStructure) (s : Mailslot)
    → Asks h p text c
    → Holds s.buf 0 text
    → recognise n s ≡ none
Asks-silent h p n text c s (asks_ping four ping_ t e) holds = recognise-pong n s (rw t at holds)
Asks-silent h p n text c s (asks_attribute ask t e) holds =
    recognise-link_ctl_ack n s h.adapter.core (rw t at holds)
Asks-silent h p n text c s (asks_write a b d f tag trailer behind ints message t e) holds =
    recognise-standalone_acknowledgment n s tag (rw t at holds)

-- What a link layer that finds the text `text` in a slot makes of it.
abbrev IsSilent : List ℕ → Type 0
IsSilent text = (n : ℕ) (s : Mailslot) → Holds s.buf 0 text → recognise n s ≡ none

-- If the message was handled, what is in the own slot is no request to a link layer that reads it.
abbrev pub Silent : Host → ℕ → Bool → Host → Type 0
Silent h n handled h' =
    handled ≡ true → recognise n (stamp_sender (h'.slots h.adapter.my_slot)) ≡ none

module _ (k : Kernel) (p n : ℕ) (h : Host) (locked : IsLocked h) (can : CanAnswer h p) where
  Answered-Silent :
      (text : List ℕ) (c : CoreStructure) (handled : Bool) (h' : Host)
      → IsSilent text
      → Answered text c h p handled h'
      → Silent h n handled h'
  unfolding stamp_sender
  Answered-Silent text c handled h' silent a yes_ =
      silent n (stamp_sender (h'.slots h.adapter.my_slot)) (
        rw (Answered-own text c h h' p handled a)
          (fill_slot-message (h.slots p).peer_id text (own_slot h)).0)

  answer-Silent :
      (r : Request)
      → length h.adapter.core.base_c_class_str ≤ 32
      → Returns (Silent h n) (answer k p r (stamped k p h locked can))
  unfolding answer stamp_sender clear_buflen
  answer-Silent ping class =
      rw (consume_lem p (stamped k p h locked can) locked, answer)
        (Returns-mono (Answered (codes "pong") h.adapter.core h p) (Silent h n) _
          (reply-Answered k (codes "pong") h.adapter.core p h can (omega arith) (omega arith))
          λ handled h' a. Answered-Silent (codes "pong") h.adapter.core handled h' recognise-pong a)
  answer-Silent peer_attribute class =
      let c = h.adapter.core in
      let (fits, acks) = outbuf-fits c.base_c_class_str c.sid0 c.cid0 (pos 0) class in
      rw (consume_lem p (stamped k p h locked can) locked, answer)
        (Returns-mono (Answered (link_ctl_ack_text c) c h p) (Silent h n) _
          (reply-Answered k (link_ctl_ack_text c) c p h can fits (link_ctl_ack-some c))
          λ handled h' a.
            Answered-Silent (link_ctl_ack_text c) c handled h' (λ m s. recognise-link_ctl_ack m s c)
              a)
  answer-Silent (ctl_write a b d e tag) class =
      let c = assign_ids a b d e h.adapter.core in
      let text = standalone_acknowledgment_text (through_u32 tag) in
      let (fits, acks) = outbuf-fits [] (pos 0) (pos 0) (through_u32 tag) (omega arith) in
      rw (consume_lem p (stamped k p h locked can) locked, answer)
        (Returns-mono (Answered text c h p) (Silent h n) _
          (reply-Answered k text c p h can acks (standalone_acknowledgment-some (through_u32 tag)))
          λ handled h' a'.
            Answered-Silent text c handled h'
              (λ m s. recognise-standalone_acknowledgment m s (through_u32 tag)) a')

  -- With the lock held, the own slot free, of 128 bytes at least and not the sender's, the number
  -- of the sender that of a client, ids of 32 bits, and a class of at most 32 bytes: whatever the
  -- message is, the link layer returns, and if it handled the message, then a link layer that is
  -- handed the own slot, with a buffer of any length, takes it for no request.
  pub famez_link_request-Silent :
      length h.adapter.core.base_c_class_str ≤ 32 → Returns (Silent h n) (famez_link_request k p h)
  unfolding famez_link_request
  famez_link_request-Silent class =
      elim (Option-cases (recognise h.adapter.max_buflen (stamp_sender (h.slots p)))) [
        | inr (r, e) ↦ rw (stamped-recognise k p h locked can r e) (answer-Silent r class)
        | inl e ↦
            let found : recognise h.adapter.max_buflen ((stamped k p h locked can).slots p) ≡ none =
              rw (write_slot_self p (stamp_sender (h.slots p)) h.slots) e in
            rw (found, famez_link_request) (λ no. ground arith)
      ]
