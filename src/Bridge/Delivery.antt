-- ===== src/Bridge/Delivery.antt =====
-- A write that names a reachable peer: the bytes behind the first colon go out, and nothing else.
use mathlib.Core.List.{append_assoc}
use fame_z.Base.{
  ==_refl, List, Returns, Returns-bind, [], ap, arith, e_restartsys, eq_ℤ, false, length,
  length-append, pos, refl, some, suc, sym, to_s32, true, ℕ, ℤ, ◌++◌, ◌+◌, ◌-◌, ◌<◌, ◌^◌, ◌∙◌, ◌∷◌,
  ◌≡◌,
}
use fame_z.Base.Text.{c_string, read_bytes, split_at}
use fame_z.Base.Text.Memory.{
  Holds, Holds-append, Holds-frame, NoNul, Without, get-Holds, read_bytes-Holds, split_at-c_string,
}
use fame_z.Bridge.{
  famez_bridge_write, send_restarting, send_wbuf, set_buffers, unlock_wbuf, write_locked,
}
use fame_z.Bridge.Destination.{Parsed, parse_target, target}
use fame_z.Bridge.Read.{whole}
use fame_z.Bridge.Write.{CanWrite, famez_bridge_write_lem, locked_buffers, too_big}
use fame_z.Famez.Outgoing.{fill_slot, memcpy, peer_id_of, ringer, store_byte}
use fame_z.Famez.Outgoing.Send.{Accepts, Sent, famez_create_outgoing-Sent}
use fame_z.Famez.Types.{BridgeBuffers, Host, Kernel, own_slot, write_slot}

-- A text that was copied into the write buffer, with the NUL behind it, stands there.
abbrev filled : BridgeBuffers → List ℕ → ℕ → ℕ
filled b user = store_byte (memcpy b.wbuf user (length user)) (length user) 0

filled-Holds : (b : BridgeBuffers) (user : List ℕ) → Holds (filled b user) 0 user
filled-Holds b user = get-Holds _ 0 user (λ j l. ground arith)

module _ (b : BridgeBuffers) (head body : List ℕ) where
  abbrev user : List ℕ
  user = head ++ b':' ∷ body

  length-user : length user ≡ length head + 1 + length body
  length-user = length-append head (b':' ∷ body) ∙ omega arith

  user-split : user ≡ (head ++ b':' ∷ []) ++ body
  user-split = sym (append_assoc head (b':' ∷ []) body)

  regroup : (m : ℕ → ℕ) → Holds m 0 user → Holds m 0 ((head ++ b':' ∷ []) ++ body)
  regroup m h = rw user-split at h

  split-user :
      NoNul head
      → Without b':' head
      → (rest : List ℕ) × (split_at b':' (c_string (suc (length user)) (filled b user) 0)
          ≡ some (head, rest))
  split-user n w =
      let h : Holds (filled b user) 0 ((head ++ b':' ∷ []) ++ body) =
        regroup (filled b user) (filled-Holds b user) in
      split_at-c_string b':' (suc (length user)) (filled b user) 0 head (ground arith)
        (Holds-append (filled b user) 0 (head ++ b':' ∷ []) body h).0 n w
        (omega (arith, length-user))

  read-body :
      read_bytes (length body) (store_byte (filled b user) (length head) 0) (length head + 1) ≡ body
  read-body =
      let h : Holds (filled b user) 0 ((head ++ b':' ∷ []) ++ body) =
        regroup (filled b user) (filled-Holds b user) in
      let place : 0 + length (head ++ b':' ∷ []) ≡ length head + 1 =
        omega (arith, length-append head (b':' ∷ [])) in
      let there : Holds (filled b user) (length head + 1) body =
        rw place at (Holds-append (filled b user) 0 (head ++ b':' ∷ []) body h).1 in
      read_bytes-Holds _ (length head + 1) body
        (Holds-frame (filled b user) _ (length head + 1) body (λ j l. ground arith) there)

-- The message went out of `h` into `h'`, whose write buffer is unlocked.
abbrev WentOut : Host → ℕ → List ℕ → ℤ → Host → Type 0
WentOut h peer_id body r h' =
    (h'.slots
      ≡ write_slot h.adapter.my_slot (fill_slot peer_id body (length body) (own_slot h)) h.slots)
    × (h'.doorbells ≡ ringer peer_id h.adapter.my_id ∷ h.doorbells)
    × ((b : BridgeBuffers) × (h'.adapter.outgoing ≡ some b))

module _ (k : Kernel) (cid sid : ℤ) (body : List ℕ) (n : ℕ) where
  send_restarting-WentOut :
      (restarts : ℕ) (h : Host)
      → Accepts h cid sid (length body)
      → (own_slot h).buflen ≡ 0
      → length body < 2 ^ 31
      → ((b : BridgeBuffers) × (h.adapter.outgoing ≡ some b))
      → Returns
          (λ r h'. (r ≡ to_s32 n) × WentOut h (peer_id_of cid sid) body r h')
          (send_restarting k (suc restarts) cid sid n body (length body) h)
  unfolding send_restarting
  send_restarting-WentOut restarts h accepts free small (b, open_) =
      Returns-bind
        (λ r h'. (r ≡ to_s32 (length body)) × Sent h h' (peer_id_of cid sid) body (length body))
        (λ r h'. (r ≡ to_s32 n) × WentOut h (peer_id_of cid sid) body r h') _ _
        (famez_create_outgoing-Sent k false cid sid body (length body) h accepts free)
        λ r h' (whole, sent).
          let count : to_s32 (length body) ≡ pos (length body) = ground arith in
          let no_restart : eq_ℤ r e_restartsys ≡ false = rw (whole, count) refl in
          let same : eq_ℤ r (to_s32 (length body)) ≡ true =
            rw (whole, count) (==_refl (length body)) in
          rw no_restart (
            rw same (refl, (sent.slots, sent.rang, (b, ap (λ a. a.outgoing) sent.adapter ∙ open_))))

module _ (k : Kernel) (kstrtoint : List ℕ → Parsed) (cid sid : ℤ) (head body : List ℕ) where
  -- "HEAD:BODY"
  abbrev text : List ℕ
  text = head ++ b':' ∷ body

  -- How a delivered write ends: the whole length, the body sent, and the write buffer unlocked.
  abbrev pub Delivered : Host → ℤ → Host → Type 0
  Delivered h r h' =
      (r ≡ to_s32 (length text))
      × (h'.slots
          ≡ write_slot h.adapter.my_slot
              (fill_slot (peer_id_of cid sid) body (length body) (own_slot h)) h.slots)
      × (h'.doorbells ≡ ringer (peer_id_of cid sid) h.adapter.my_id ∷ h.doorbells)
      × ((b : BridgeBuffers) × (h'.adapter.outgoing ≡ some b) × (b.wbuf_mutex ≡ false))

  send_wbuf-WentOut :
      (b : BridgeBuffers) (h : Host)
      → NoNul head
      → Without b':' head
      → parse_target kstrtoint h.bar2.server_id head ≡ target cid sid
      → Accepts h cid sid (length body)
      → (own_slot h).buflen ≡ 0
      → length body < 2 ^ 31
      → Returns
          (λ r h'. (r ≡ to_s32 (length text)) × WentOut h (peer_id_of cid sid) body r h')
          (send_wbuf k kstrtoint (record b { wbuf = filled b text }) (length text) h)
  unfolding send_wbuf
  send_wbuf-WentOut b h n w to accepts free small =
      let (rest, split) = split-user b head body n w in
      let len : length text - (length head + 1) ≡ length body =
        omega (arith, length-user b head body) in
      rw (split, send_wbuf)
        (rw to (
          rw (len, read-body b head body)
            (send_restarting-WentOut k cid sid body (length text) 1 _
              (record {
                subnet = accepts.subnet;
                peer_low = accepts.peer_low;
                peer_high = accepts.peer_high;
                room = accepts.room;
                some_data = accepts.some_data;
              })
              free small (_, refl))))

  unlock_wbuf-some :
      (b : BridgeBuffers) (h : Host)
      → h.adapter.outgoing ≡ some b
      → unlock_wbuf h ≡ set_buffers (record b { wbuf_mutex = false }) h
  unfolding unlock_wbuf
  unlock_wbuf-some b h e = simp (e, unlock_wbuf)

  -- A write of "HEAD:BODY" on an open device with its buffer unlocked and its own slot free, where
  -- HEAD has no NUL and no colon and names a peer that accepts the body, and the copy from the user
  -- does not fail: the whole length is returned, exactly the body is in the own slot, the doorbell
  -- rang once with the peer's id, and the buffer is unlocked.
  pub famez_bridge_write-Delivered :
      (b : BridgeBuffers) (h : Host)
      → CanWrite h b
      → too_big k h (length text) ≡ false
      → NoNul head
      → Without b':' head
      → parse_target kstrtoint h.bar2.server_id head ≡ target cid sid
      → Accepts h cid sid (length body)
      → (own_slot h).buflen ≡ 0
      → length body < 2 ^ 31
      → Returns (Delivered h) (famez_bridge_write k kstrtoint (pos 0) text (length text) h)
  unfolding write_locked
  famez_bridge_write-Delivered b h can fits n w to accepts free small =
      rw (famez_bridge_write_lem k kstrtoint (pos 0) text (length text) b h can fits) (
        Returns-bind (λ r h'. (r ≡ to_s32 (length text)) × WentOut h (peer_id_of cid sid) body r h')
          (Delivered h) _ _
          (send_wbuf-WentOut (locked_buffers k b) _ n w to
            (record {
              subnet = accepts.subnet;
              peer_low = accepts.peer_low;
              peer_high = accepts.peer_high;
              room = accepts.room;
              some_data = accepts.some_data;
            })
            free small)
          λ r h' (whole, (slots, rang, (c, open_))).
            rw (unlock_wbuf-some c h' open_) (whole, slots, rang, (_, refl, refl)))
