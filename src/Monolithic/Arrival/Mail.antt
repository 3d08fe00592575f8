-- ===== src/Monolithic/Arrival/Mail.antt =====
-- The older driver from one station to the reader of another: the sends, the interrupt handler and
-- the character device together.
use fame_z.Base.{
  ==_refl, Bool, List, Returns, [], and_then, ap, arith, bytes_eq, codes, false, length, none, ok,
  pos, refl, some, suc, ℕ, ℤ, ◌+◌, ◌/◌, ◌<◌, ◌^◌, ◌∙◌, ◌∷◌, ◌≡◌, ◌≤◌,
}
use fame_z.Base.Text.{read_bytes}
use fame_z.Base.Text.Memory.{Holds, get-Holds, read_bytes-Holds, starts_with-Holds}
use fame_z.Famez.Types.{MsixEntry}
use fame_z.Monolithic.{MonoSlot, Slept, Station}
use fame_z.Monolithic.Arrival.{NamesSlot, handed_over, monolithic_all_msix-delivers, signed}
use fame_z.Monolithic.Device.{Awoken, MonoReading, bridge_read, sender_id_text}
use fame_z.Monolithic.Locks.{bridge_read-delivers}
use fame_z.Monolithic.Messages.{
  famez_sendmail, fill_msg, is_ping, monolithic_all_msix, monolithic_mailslot,
}
use fame_z.Monolithic.Sending.{IsUsleep, famez_sendmail-Mailed}

module _ (peer_id : ℕ) (msg : List ℕ) (m : MonoSlot) where
  fill_msg-Holds : Holds (fill_msg peer_id msg (length msg) m).msg 0 msg
  unfolding fill_msg
  fill_msg-Holds = get-Holds _ 0 msg λ j l. ground arith

  fill_msg-is_ping : is_ping (fill_msg peer_id msg (length msg) m) ≡ bytes_eq msg (codes "ping")
  unfolding fill_msg
  fill_msg-is_ping = starts_with-Holds _ 0 msg (codes "ping") fill_msg-Holds

-- What a reader gets from client `n`.
abbrev pub mail : ℕ → List ℕ → MonoReading
mail n msg = record { ret = pos (length msg + 4); copied = (0, sender_id_text n) ∷ (4, msg) ∷ [] }

abbrev reading_of : MonoSlot → MonoReading
reading_of m = record {
  ret = pos (m.msglen + 4);
  copied = (0, sender_id_text m.peer_id) ∷ (4, read_bytes m.msglen m.msg 0) ∷ [];
}

reading_of-mail :
    (n peer_id : ℕ) (msg : List ℕ) (m : MonoSlot)
    → reading_of (record (fill_msg peer_id msg (length msg) m) { peer_id = n }) ≡ mail n msg
unfolding fill_msg
reading_of-mail n peer_id msg m = rw (read_bytes-Holds _ 0 msg (fill_msg-Holds peer_id msg m)) refl

signed-slot : (n p : ℕ) (s : Station) → (signed n p s).slots p ≡ record (s.slots p) { peer_id = n }
signed-slot n p s = rw (==_refl p) refl

module _ (hz : ℕ) (usleep : Station → Slept) (a a' b : Station) (peer_id : ℕ) (msg : List ℕ) where
  abbrev SentSlot : ℕ → Type 0
  SentSlot p =
      (w : Station) × (b.slots p ≡ fill_msg peer_id msg (length msg) (w.slots a.config.my_slot))

  posted_slot :
      (p : ℕ) (r : ℤ)
      → IsUsleep usleep
      → a.jiffies + hz / 2 < 2 ^ 63
      → 1 ≤ peer_id
      → peer_id ≤ a.config.server_id
      → length msg < a.config.max_msglen
      → 0 < length msg
      → famez_sendmail hz usleep peer_id msg (length msg) a ≡ ok r a'
      → b.slots p ≡ a'.slots a.config.my_slot
      → SentSlot p
  posted_slot p r u room low high fits some_data run same =
      let (w, asleep, ret, own, rings, conf) = rw run at (
        famez_sendmail-Mailed hz usleep peer_id msg (length msg) a u room low high fits
          some_data) in
      (w, same ∙ own)

  -- With a clock that moves and stays below 2 ^ 63, station `a` has sent a message that is not
  -- "ping", which the checks accept, to a client; station `b` sees the slot at `p`, its table of
  -- vectors is full, the vector names the sender `n`, which is below 1000, the lock of its reader's
  -- slot is free, and the reader has room for the message and four bytes more, below 2 ^ 31. Then
  -- behind the interrupt a read returns the sender's three digits, a colon and exactly the bytes
  -- that were sent, frees the slot and leaves the lock as it was.
  pub mail-arrives :
      (entries : List MsixEntry) (n vector p : ℕ) (r : ℤ) (interrupted : Bool)
      (wait : Station → Awoken) (nonblocking : Bool) (rounds buflen locks : ℕ)
      → IsUsleep usleep
      → a.jiffies + hz / 2 < 2 ^ 63
      → 1 ≤ peer_id
      → peer_id ≤ a.config.server_id
      → length msg < a.config.max_msglen
      → 0 < length msg
      → famez_sendmail hz usleep peer_id msg (length msg) a ≡ ok r a'
      → b.slots p ≡ a'.slots a.config.my_slot
      → NamesSlot b entries n vector
      → monolithic_mailslot b.config.globals b.bar2 n ≡ some p
      → bytes_eq msg (codes "ping") ≡ false
      → b.config.legible_slot_lock ≡ suc locks
      → n < 1000
      → length msg + 4 ≤ buflen
      → length msg + 4 < 2 ^ 31
      → Returns
          (λ got s'.
            (got ≡ mail n msg)
            × ((s'.slots p).msglen ≡ 0)
            × (s'.config.legible_slot ≡ none)
            × (s'.config.legible_slot_lock ≡ suc locks))
          (and_then
            (monolithic_all_msix hz usleep interrupted vector b)
            (λ _. bridge_read wait false nonblocking (suc rounds) (pos 0) (pos 0) buflen))
  unfolding fill_msg
  mail-arrives entries n vector p r interrupted wait nonblocking rounds buflen locks u time low high
        fits some_data run same names slot other lock digits room small =
      let (w, found) = posted_slot p r u time low high fits some_data run same in
      let plain_ : is_ping (b.slots p) ≡ false =
        ap is_ping found ∙ fill_msg-is_ping peer_id msg (w.slots a.config.my_slot) ∙ other in
      let at : (signed n p b).slots p
          ≡ record (fill_msg peer_id msg (length msg) (w.slots a.config.my_slot)) { peer_id = n } =
        signed-slot n p b ∙ ap {A = MonoSlot} (λ m. record m { peer_id = n }) found in
      let len : ((signed n p b).slots p).msglen ≡ length msg = ap (λ m. m.msglen) at in
      let whole : reading_of ((signed n p b).slots p) ≡ mail n msg =
        ap reading_of at ∙ reading_of-mail n peer_id msg (w.slots a.config.my_slot) in
      let id : ((signed n p b).slots p).peer_id ≡ n = ap (λ m. m.peer_id) at in
      rw
        (monolithic_all_msix-delivers hz usleep b entries n vector p interrupted names slot plain_
          (omega (arith, lock)))
        (rw whole at (
          bridge_read-delivers wait nonblocking rounds locks p buflen (handed_over n p b) refl lock
            (omega (arith, id)) (omega (arith, len)) (omega (arith, len))))
