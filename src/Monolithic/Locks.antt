-- ===== src/Monolithic/Locks.antt =====
-- The semaphores of the older driver's character device.
use fame_z.Base.{
  ==_refl, Bool, Returns, [], arith, false, ltb, none, ok, pos, refl, some, suc, to_s32, true, ℕ,
  ◌+◌, ◌<◌, ◌==◌, ◌^◌, ◌∷◌, ◌≡◌, ◌≤◌,
}
use fame_z.Base.Text.{read_bytes}
use fame_z.Monolithic.{MonoSlot, Station, write_msg}
use fame_z.Monolithic.Device.{
  Awoken, await_loop, bridge_read, copy_msg, famez_await_legible_slot, famez_release_legible_slot,
  give_lock, legible, lock_legible, read_legible, sender_id_text, take_lock,
}

await_loop-there :
    (wait : Station → Awoken) (nonblocking : Bool) (rounds p : ℕ) (s : Station)
    → s.config.legible_slot ≡ some p
    → await_loop wait nonblocking (suc rounds) s ≡ ok (legible p) s
unfolding await_loop
await_loop-there wait nonblocking rounds p s there = simp (there, await_loop)

await-there :
    (wait : Station → Awoken) (nonblocking : Bool) (rounds n p : ℕ) (s : Station)
    → s.config.legible_slot ≡ some p
    → s.config.legible_slot_lock ≡ suc n
    → famez_await_legible_slot wait false nonblocking (suc rounds) s ≡ ok (legible p) (take_lock s)
unfolding famez_await_legible_slot lock_legible
await-there wait nonblocking rounds n p s there lock =
    let free : (s.config.legible_slot_lock == 0) ≡ false = ground arith in
    simp free (await_loop-there wait nonblocking rounds p (take_lock s) there)

release-there :
    (p : ℕ) (s : Station)
    → s.config.legible_slot ≡ some p
    → famez_release_legible_slot s
      ≡ ok tt (
          give_lock (record s {
            slots = write_msg p (record (s.slots p) { msglen = 0 }) s.slots;
            config = record (s.config) { legible_slot = none };
          }))
unfolding famez_release_legible_slot
release-there p s there = simp (there, famez_release_legible_slot)

copy_msg-whole :
    (buflen : ℕ) (m : MonoSlot)
    → m.peer_id < 1000
    → m.msglen + 4 ≤ buflen
    → m.msglen + 4 < 2 ^ 31
    → copy_msg (pos 0) (pos 0) buflen m ≡ record {
      ret = pos (m.msglen + 4);
      copied = (0, sender_id_text m.peer_id) ∷ (4, read_bytes m.msglen m.msg 0) ∷ [];
    }
unfolding copy_msg sender_id_text
copy_msg-whole buflen m peer room small =
    let fits : ltb buflen (m.msglen + 4) ≡ false = ground arith in
    let three : ltb m.peer_id 1000 ≡ true = ground arith in
    let whole : to_s32 (m.msglen + 4) ≡ pos (m.msglen + 4) = ground arith in
    rw (fits, three, whole) refl

-- A read of a slot that is there, with the lock free, and room for it: the caller gets the sender's
-- three digits, a colon and the message; the slot is free again, and so is the lock.
pub bridge_read-delivers :
    (wait : Station → Awoken) (nonblocking : Bool) (rounds n p buflen : ℕ) (s : Station)
    → s.config.legible_slot ≡ some p
    → s.config.legible_slot_lock ≡ suc n
    → (s.slots p).peer_id < 1000
    → (s.slots p).msglen + 4 ≤ buflen
    → (s.slots p).msglen + 4 < 2 ^ 31
    → Returns
        (λ r s'.
          (r ≡ record {
            ret = pos ((s.slots p).msglen + 4);
            copied =
                (0, sender_id_text (s.slots p).peer_id)
                ∷ (4, read_bytes (s.slots p).msglen (s.slots p).msg 0)
                ∷ [];
          })
          × ((s'.slots p).msglen ≡ 0)
          × (s'.config.legible_slot ≡ none)
          × (s'.config.legible_slot_lock ≡ suc n))
        (bridge_read wait false nonblocking (suc rounds) (pos 0) (pos 0) buflen s)
unfolding bridge_read read_legible
bridge_read-delivers wait nonblocking rounds n p buflen s there lock peer room small =
    rw
      (
        await-there wait nonblocking rounds n p s there lock,
        release-there p (take_lock s) there,
        copy_msg-whole buflen (s.slots p) peer room small,
      )
      (refl, rw (==_refl p), refl, omega (arith, lock))
