-- ===== src/Bridge/Read.antt =====
-- `read` of the character device: what the caller gets, and that the slot is always let go.
pub mod Bounds
use fame_z.Base.{
  Bool, List, Returns, [], ap, arith, false, length, length-append, le→ltb, lt→leb, ok, pos, refl,
  some, suc, take-all, take-append, to_s32, zero, ℕ, ℤ, ◌%◌, ◌++◌, ◌+◌, ◌-◌, ◌<◌, ◌^◌, ◌∙◌, ◌∷◌,
  ◌≡◌, ◌≤◌,
}
use fame_z.Base.Text.{Piece, lit, num, read_bytes, show_int, sprintf, sscanf}
use fame_z.Base.Text.Scan.{plain, sscanf-sprintf}
use fame_z.Bridge.{Reading, copy_out, famez_bridge_read, read_slot, sidcid_text, sidcidstr}
use fame_z.Famez.Incoming.{Woken}
use fame_z.Famez.Incoming.Handoff.{famez_await_incoming-some, famez_release_incoming_lem, released}
use fame_z.Famez.Types.{Host, Mailslot}

abbrev pub header_format : List Piece
header_format = num ∷ lit b',' ∷ num ∷ lit b':' ∷ []

-- The header "CID,SID:" names both ids of the sender, which are 64-bit numbers: they are scanned
-- back from it.
sidcid_text-sscanf :
    (s : Mailslot)
    → s.peer_cid < 2 ^ 64
    → s.peer_sid < 2 ^ 64
    → sscanf header_format (sidcid_text s) ≡ pos s.peer_cid ∷ pos s.peer_sid ∷ []
unfolding sidcid_text plain
sidcid_text-sscanf s c i =
    sscanf-sprintf header_format (pos s.peer_cid ∷ pos s.peer_sid ∷ []) refl refl
      (omega arith, (omega arith, tt))

-- With an incoming slot and the lock free a read ends as the copy does, and whatever that was the
-- sender's slot is free again, no slot is incoming, and the lock is free.
pub famez_bridge_read-released :
    (wait : Host → Woken) (nonblocking : Bool) (ch cb : ℤ) (buflen : ℕ) (h : Host) (p : ℕ)
    → h.adapter.incoming_slot_lock ≡ false
    → h.adapter.incoming_slot ≡ some p
    → famez_bridge_read wait nonblocking ch cb buflen h
      ≡ ok (copy_out ch cb buflen (h.slots p)) (released p h)
unfolding famez_bridge_read read_slot
famez_bridge_read-released wait nonblocking ch cb buflen h p free e =
    rw (famez_await_incoming-some wait nonblocking h p e, famez_release_incoming_lem h p free e)

pub sidcidstr_lem : (text : List ℕ) → length text ≤ 30 → sidcidstr (length text) text ≡ text
unfolding sidcidstr
sidcidstr_lem text h = rw (take-all 30 text h, take-append text (0 ∷ []))

to_s32-small : (n : ℕ) → n < 2 ^ 31 → to_s32 n ≡ pos n
to_s32-small n h = ground arith

-- Header and body, and their length.
abbrev pub whole : Mailslot → Reading
whole s =
    let n = length (sidcid_text s) in
    record {
      ret = pos (s.buflen + n);
      copied = (0, sidcid_text s) ∷ (n, read_bytes s.buflen s.buf 0) ∷ [];
    }

-- The body of a whole reading.
pub whole-body :
    (s : Mailslot) (ret : ℤ) (header msg : List ℕ)
    → whole s ≡ record { ret = ret; copied = (0, header) ∷ (length header, msg) ∷ [] }
    → read_bytes s.buflen s.buf 0 ≡ msg
whole-body s ret header msg e = cc (ap (λ (r : Reading). r.copied) e)

abbrev pub copied_whole : (s : Mailslot) → Reading
copied_whole s =
    let n = length (sidcid_text s) in
    record {
      ret = to_s32 (s.buflen + n);
      copied = (0, sidcidstr n (sidcid_text s)) ∷ (n, read_bytes s.buflen s.buf 0) ∷ [];
    }

pub copied_whole_lem :
    (s : Mailslot)
    → length (sidcid_text s) ≤ 30
    → s.buflen + length (sidcid_text s) < 2 ^ 31
    → copied_whole s ≡ whole s
copied_whole_lem s short small =
    rw (sidcidstr_lem (sidcid_text s) short, to_s32-small (s.buflen + length (sidcid_text s)) small)

-- A header is not empty, so the size test does not wrap below zero.
pub sidcid_text-some : (s : Mailslot) → 0 < length (sidcid_text s)
unfolding sidcid_text sprintf
sidcid_text-some s = omega (
  arith,
  length-append (show_int (pos s.peer_cid)) (b',' ∷ show_int (pos s.peer_sid) ++ b':' ∷ []),
)

pub copy_out-passes :
    (s : Mailslot) (buflen : ℕ)
    → s.buflen + length (sidcid_text s) < 2 ^ 31
    → length (sidcid_text s) ≤ 30
    → s.buflen + length (sidcid_text s) ≤ buflen + 1
    → copy_out (pos 0) (pos 0) buflen s ≡ copied_whole s
unfolding copy_out
copy_out-passes s buflen small short room =
    let some_ = sidcid_text-some s in
    rw (
      lt→leb 32 (length (sidcid_text s)) (omega arith),
      le→ltb buflen ((s.buflen + length (sidcid_text s) + 2 ^ 64 - 1) % 2 ^ 64)
          (omega (arith, some_)),
    )

pub length-read_bytes : (n : ℕ) (m : ℕ → ℕ) (i : ℕ) → length (read_bytes n m i) ≡ n
unfolding read_bytes
length-read_bytes zero m i = refl
length-read_bytes (suc n) m i = ap suc (length-read_bytes n m (i + 1))

module _ (s : Mailslot) (buflen : ℕ) where
  abbrev n : ℕ
  n = length (sidcid_text s)

  -- With room for header and body, and no fault of the copies, the caller gets both, one behind
  -- the other, and their length.
  pub copy_out-delivers :
      n ≤ 30
      → s.buflen + n ≤ buflen
      → s.buflen + n < 2 ^ 31
      → copy_out (pos 0) (pos 0) buflen s ≡ whole s
  copy_out-delivers short room small =
      copy_out-passes s buflen small short (omega arith) ∙ copied_whole_lem s short small

-- What is copied is a text that names `cid` and `sid`, the body behind it, and nothing else.
abbrev pub NamesSender : ℕ → ℕ → Mailslot → Reading → Host → Type 0
NamesSender cid sid s r h' =
    (header : List ℕ) × (r.copied ≡ (0, header) ∷ (length header, read_bytes s.buflen s.buf 0) ∷ [])
    × (r.ret ≡ pos (length header + s.buflen))
    × (sscanf header_format header ≡ pos cid ∷ pos sid ∷ [])

-- A read of the slot at `p`, with the lock free, a header of at most 30 characters, a whole below 2
-- ^ 31 with room for it, and copies that do not fail: what the caller gets begins with a text from
-- which both 64-bit ids of the sender are scanned back, and the body is right behind that text.
pub famez_bridge_read-sscanf :
    (wait : Host → Woken) (nonblocking : Bool) (buflen : ℕ) (h : Host) (p : ℕ)
    → h.adapter.incoming_slot_lock ≡ false
    → h.adapter.incoming_slot ≡ some p
    → (h.slots p).peer_cid < 2 ^ 64
    → (h.slots p).peer_sid < 2 ^ 64
    → length (sidcid_text (h.slots p)) ≤ 30
    → (h.slots p).buflen + length (sidcid_text (h.slots p)) ≤ buflen
    → (h.slots p).buflen + length (sidcid_text (h.slots p)) < 2 ^ 31
    → Returns
        (NamesSender (h.slots p).peer_cid (h.slots p).peer_sid (h.slots p))
        (famez_bridge_read wait nonblocking (pos 0) (pos 0) buflen h)
famez_bridge_read-sscanf wait nonblocking buflen h p free e c i short room small =
    let s = h.slots p in
    rw
      (
        famez_bridge_read-released wait nonblocking (pos 0) (pos 0) buflen h p free e,
        copy_out-delivers s buflen short room small,
      )
      (sidcid_text s, refl, ap pos (omega arith), sidcid_text-sscanf s c i)
