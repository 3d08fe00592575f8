-- ===== src/Famez/Incoming/Handoff.antt =====
-- The hand-off of an incoming slot to a reader, and what a second message does to it.
use fame_z.Base.{
  Bool, Bool-cases, Option-cases, Returns, arith, false, if◌then◌else◌, inl, inr, is_zero, negsuc,
  none, ok, pos, refl, some, true, ℕ, ℤ, ◌↔◌, ◌≡◌, ◌≢◌,
}
use fame_z.Famez.Incoming.{
  SlotPtr, Woken, clear_buflen, err_ptr, famez_await_incoming, famez_release_incoming, ptr,
  spin_lock, spin_unlock,
}
use fame_z.Famez.Outgoing.{elapse}
use fame_z.Famez.Types.{Host, write_slot}

-- The state behind the release of the slot at `p`.
abbrev pub released : ℕ → Host → Host
released p h = record h {
  slots = write_slot p (record (h.slots p) { buflen = 0 }) h.slots;
  adapter = record (h.adapter) { incoming_slot = none; incoming_slot_lock = false };
}

-- A release clears the sender's `buflen` and the incoming slot, and leaves the lock free.
pub famez_release_incoming_lem :
    (h : Host) (p : ℕ)
    → h.adapter.incoming_slot_lock ≡ false
    → h.adapter.incoming_slot ≡ some p
    → famez_release_incoming h ≡ ok tt (released p h)
unfolding famez_release_incoming spin_lock spin_unlock clear_buflen
famez_release_incoming_lem h p free e = simp (free, e)

-- What `wait_event_interruptible` promises: it returns 0 only when the condition holds.
abbrev WakesOnSlot : (Host → Woken) → Type 0
WakesOnSlot wait =
    (h : Host) → (wait h).ret ≡ pos 0 → (p : ℕ) × ((wait h).elapsed.incoming_slot ≡ some p)

-- The reader gets the incoming slot, or an error: never a NULL.
abbrev IsSlotOrError : SlotPtr → Host → Type 0
IsSlotOrError (ptr o) h' = (p : ℕ) × (o ≡ some p) × (h'.adapter.incoming_slot ≡ some p)
IsSlotOrError (err_ptr e) h' = e ≢ pos 0

-- A message that is already there is handed out at once.
pub famez_await_incoming-some :
    (wait : Host → Woken) (nonblocking : Bool) (h : Host) (p : ℕ)
    → h.adapter.incoming_slot ≡ some p
    → famez_await_incoming wait nonblocking h ≡ ok (ptr (some p)) h
unfolding famez_await_incoming
famez_await_incoming-some wait nonblocking h p e = simp (e, famez_await_incoming)

sleeping :
    (wait : Host → Woken) (h : Host)
    → h.adapter.incoming_slot ≡ none
    → famez_await_incoming wait false h ≡ (
        let w = wait h in
        let h' = elapse w.elapsed h in
        if is_zero w.ret then ok (ptr h'.adapter.incoming_slot) h' else ok (err_ptr w.ret) h')
unfolding famez_await_incoming
sleeping wait h e = simp (e, famez_await_incoming)

is_zero_iff : (z : ℤ) → (is_zero z ≡ true) ↔ (z ≡ pos 0)
is_zero_iff (pos n) = ground arith
is_zero_iff (negsuc n) = ground arith

-- With a wait that returns 0 only on its condition, a reader gets the incoming slot or an
-- error: never a NULL.
famez_await_incoming-IsSlotOrError :
    (wait : Host → Woken) (nonblocking : Bool) (h : Host)
    → WakesOnSlot wait
    → Returns IsSlotOrError (famez_await_incoming wait nonblocking h)
unfolding famez_await_incoming
famez_await_incoming-IsSlotOrError wait nonblocking h wakes =
    elim (Option-cases h.adapter.incoming_slot) [
      | inr (p, e) ↦ rw (famez_await_incoming-some wait nonblocking h p e) (p, refl, e)
      | inl e ↦ empty nonblocking e
    ]
  where
    empty :
        (b : Bool)
        → h.adapter.incoming_slot ≡ none
        → Returns IsSlotOrError (famez_await_incoming wait b h)
    empty true e = ground arith
    empty false e = rw (sleeping wait h e) (elim (Bool-cases (is_zero (wait h).ret)) [
      | inl z ↦ let (p, slot) = wakes h ((is_zero_iff (wait h).ret).0 z) in rw z (p, slot, slot)
      | inr nz ↦ rw nz (λ z. ground (arith, (is_zero_iff (wait h).ret).1 z))
    ])
