-- ===== src/Famez/Link/Acknowledgment.antt =====
-- The answer to a request for the attributes: the component's class and ids, back to the peer.
use fame_z.Base.{List, [], arith, codes, false, length, some, ℕ, ℤ, ◌+◌, ◌<◌, ◌∷◌, ◌≡◌, ◌≤◌}
use fame_z.Base.Text.{lits, num, sprintf, starts_with}
use fame_z.Base.Text.Memory.{Holds, starts_with-miss, starts_with-prefix}
use fame_z.Base.Text.Print.{length-sprintf, widest-lits}
use fame_z.Famez.Link.{
  link_ctl_ack, link_ctl_peer_attribute, peer_attribute, ping, recognise, sizeof_outbuf,
  standalone_acknowledgment,
}
use fame_z.Famez.Types.{CoreStructure, Mailslot}

-- The texts that are printed to the buffer, with their NUL, fit it: the answer to a request for the
-- attributes with a class of no more than 32 bytes, and any acknowledgment.
pub outbuf-fits :
    (class : List ℕ) (sid cid tag : ℤ)
    → length class ≤ 32
    → (length (sprintf (link_ctl_ack class) (sid ∷ cid ∷ [])) + 1 ≤ sizeof_outbuf)
      × (length (sprintf standalone_acknowledgment (tag ∷ [])) + 1 ≤ sizeof_outbuf)
unfolding link_ctl_ack standalone_acknowledgment
outbuf-fits class sid cid tag short = (
  omega (
    arith,
    length-sprintf (link_ctl_ack class) (sid ∷ cid ∷ []),
    widest-lits class (lits (codes ",SID0=") (num ∷ lits (codes ",CID0=") (num ∷ []))),
  ),
  omega (arith, length-sprintf standalone_acknowledgment (tag ∷ [])),
)

-- The text of the answer.
abbrev pub link_ctl_ack_text : CoreStructure → List ℕ
link_ctl_ack_text c = sprintf (link_ctl_ack c.base_c_class_str) (c.sid0 ∷ c.cid0 ∷ [])

pub link_ctl_ack-some : (c : CoreStructure) → 0 < length (link_ctl_ack_text c)
unfolding link_ctl_ack sprintf
link_ctl_ack-some c = omega arith

-- The text that acknowledges an assignment.
abbrev pub standalone_acknowledgment_text : ℤ → List ℕ
standalone_acknowledgment_text tag = sprintf standalone_acknowledgment (tag ∷ [])

pub recognise-peer_attribute :
    (n : ℕ) (s : Mailslot)
    → Holds s.buf 0 link_ctl_peer_attribute
    → recognise n s ≡ some peer_attribute
unfolding recognise
recognise-peer_attribute n s holds =
    let first : s.buf 0 ≡ b'L' = holds.0 in
    let no_ping : starts_with (codes "ping") s.buf 0 ≡ false =
      starts_with-miss b'p' (codes "ing") s.buf 0 (ground arith) in
    rw (no_ping, starts_with-prefix s.buf 0 link_ctl_peer_attribute holds) (ground arith)

pub recognise-ping :
    (n : ℕ) (s : Mailslot) → s.buflen ≡ 4 → Holds s.buf 0 (codes "ping") → recognise n s ≡ some ping
unfolding recognise
recognise-ping n s four holds = rw (starts_with-prefix s.buf 0 (codes "ping") holds) (ground arith)

pub standalone_acknowledgment-some : (tag : ℤ) → 0 < length (standalone_acknowledgment_text tag)
unfolding standalone_acknowledgment sprintf
standalone_acknowledgment-some tag = omega arith
