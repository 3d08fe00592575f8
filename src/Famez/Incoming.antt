-- ===== src/Famez/Incoming.antt =====
-- `famez_await_incoming` and `famez_release_incoming` of kernel/famez/famez_IVSHMSG.c, and the
-- adapter's spin lock.
pub mod Handoff
use fame_z.Base.{
  Bool, Cmd, Option, and_then, bad_unlock, deadlock, e_again, false, fault, if◌then◌else◌, is_zero,
  none, null_pointer, ok, some, true, ℕ, ℤ,
}
use fame_z.Famez.Outgoing.{elapse}
use fame_z.Famez.Types.{Elapsed, Host, set_adapter, set_slot}

-- Taking a lock that is held spins for ever; giving back a lock that is free is a fault.
unfoldable pub spin_lock : Cmd Host (Unit {0})
spin_lock h =
    if h.adapter.incoming_slot_lock
    then fault deadlock
    else ok tt (set_adapter (λ a. record a { incoming_slot_lock = true }) h)

unfoldable pub spin_unlock : Cmd Host (Unit {0})
spin_unlock h =
    if h.adapter.incoming_slot_lock
    then ok tt (set_adapter (λ a. record a { incoming_slot_lock = false }) h)
    else fault bad_unlock

-- A pointer to a slot, perhaps NULL, or an error in its place.
pub data SlotPtr : Type 0 where
  ptr : Option ℕ → SlotPtr
  err_ptr : ℤ → SlotPtr

-- The answer of `wait_event_interruptible`, and what changed while the reader slept.
pub record Woken : Type 0 where
  pub ret : ℤ
  pub elapsed : Elapsed

pub famez_await_incoming : (Host → Woken) → Bool → Cmd Host SlotPtr
famez_await_incoming wait nonblocking h = elim h.adapter.incoming_slot [
  | some p ↦ ok (ptr (some p)) h
  | none ↦
      if nonblocking
      then ok (err_ptr e_again) h
      else (let w = wait h in
          let h' = elapse w.elapsed h in
          if is_zero w.ret then ok (ptr h'.adapter.incoming_slot) h' else ok (err_ptr w.ret) h')
]

-- `buflen = 0` in the sender's slot lets it send again.
unfoldable pub clear_buflen : ℕ → Host → Host
clear_buflen p h = set_slot p (record (h.slots p) { buflen = 0 }) h

pub famez_release_incoming : Cmd Host (Unit {0})
famez_release_incoming h = and_then (spin_lock h) λ _ h'. elim h'.adapter.incoming_slot [
  | none ↦ fault null_pointer
  | some p ↦ spin_unlock (set_adapter (λ a. record a { incoming_slot = none }) (clear_buflen p h'))
]
