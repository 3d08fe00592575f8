-- ===== src/Bridge/Session.antt =====
-- One opener at a time: `open`, `flush` and `release` of the character device.
use fame_z.Base.{
  Bool, Cmd, Returns, and_then, arith, bug_on, e_busy, e_nomem, false, fault, inl, none, ok, pos,
  some, true, ℕ, ℤ, ◌&&◌, ◌≡◌, ◌≢◌, ◌⊎◌,
}
use fame_z.Bridge.{
  count_opener, famez_bridge_flush, famez_bridge_open, famez_bridge_release, finish_open,
  uncount_opener,
}
use fame_z.Famez.Types.{BridgeBuffers, Host}

-- Nobody has the device open; or one opener has it, with its buffers.
abbrev pub IsClosed : Host → Type 0
IsClosed h = (h.adapter.nr_users ≡ pos 0) × (h.adapter.outgoing ≡ none)

abbrev IsOpen : Host → Type 0
IsOpen h = (h.adapter.nr_users ≡ pos 1) × ((b : BridgeBuffers) × (h.adapter.outgoing ≡ some b))

-- On a closed device `open` succeeds and opens it if both buffers are allocated; if not, it returns
-- -ENOMEM and leaves the state as it was.
famez_bridge_open-IsClosed :
    (b w : Bool) (h : Host)
    → IsClosed h
    → ((b && w) ≡ true → Returns (λ r h'. (r ≡ pos 0) × IsOpen h') (famez_bridge_open b w h))
      × ((b && w) ≡ false → famez_bridge_open b w h ≡ ok e_nomem h)
unfolding famez_bridge_open finish_open count_opener uncount_opener
famez_bridge_open-IsClosed b w h (n, o) = (λ e. ground arith, λ e. ground arith)

-- The last close: the flush that sees the only reference, then the release.
abbrev pub close : Cmd Host ℤ
close h = and_then (famez_bridge_flush 1 h) λ _ h'. famez_bridge_release h'

-- On a closed device an open with memory for both buffers, and the last close behind it, leave the
-- host as it was.
open-close :
    (h : Host) → IsClosed h → and_then (famez_bridge_open true true h) (λ _. close) ≡ ok (pos 0) h
unfolding famez_bridge_open finish_open count_opener uncount_opener famez_bridge_flush
    famez_bridge_release
open-close h (n, o) = ground arith

-- On an open device the owner's last close succeeds and closes it, be it alone or behind a second
-- open, which is refused with -EBUSY. But when that close falls between the increment and the
-- decrement of the second open, `release` finds a count of one and hits its BUG_ON.
pub close-races :
    (b w : Bool) (h : Host)
    → IsOpen h
    → Returns (λ r h'. (r ≡ pos 0) × IsClosed h') (close h)
      × Returns
          (λ r h'. (r ≡ e_busy) × Returns (λ r' i. (r' ≡ pos 0) × IsClosed i) (close h'))
          (famez_bridge_open b w h)
      × (close (count_opener h).1 ≡ fault bug_on)
unfolding famez_bridge_open finish_open count_opener uncount_opener famez_bridge_flush
    famez_bridge_release
close-races b w h (n, (buffers, o)) = (ground arith, ground arith, ground arith)

-- The calls that reach the driver one after the other: an open, a close of one of several
-- descriptors, and the last close of the opener.
pub data Step (h h' : Host) : Type 0 where
  opens : (b w : Bool) (r : ℤ) → famez_bridge_open b w h ≡ ok r h' → Step h h'
  shared_close : (n : ℕ) (r : ℤ) → n ≢ 1 → famez_bridge_flush n h ≡ ok r h' → Step h h'
  last_close : (r : ℤ) → IsOpen h → close h ≡ ok r h' → Step h h'

pub data Reach (h : Host) : Host → Type 0 where
  initial : Reach h h
  next : {g h' : Host} → Reach h g → Step g h' → Reach h h'

abbrev pub IsExclusive : Host → Type 0
IsExclusive h = IsClosed h ⊎ IsOpen h

Step-IsExclusive : (h h' : Host) → Step h h' → IsExclusive h → IsExclusive h'
unfolding famez_bridge_open finish_open count_opener uncount_opener famez_bridge_flush
    famez_bridge_release
Step-IsExclusive h h' (opens b w r e) x = ground arith
Step-IsExclusive h h' (shared_close n r ne e) x = ground arith
Step-IsExclusive h h' (last_close r o e) x = ground arith

-- From a closed device, calls that do not overlap keep the device closed, or open with one user
-- and its buffers.
pub Reach-IsExclusive : {h h' : Host} → IsClosed h → Reach h h' → IsExclusive h'
Reach-IsExclusive c initial = inl c
Reach-IsExclusive c (next {g} {h'} r s) = Step-IsExclusive g h' s (Reach-IsExclusive c r)
