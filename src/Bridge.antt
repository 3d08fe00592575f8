-- ===== src/Bridge.antt =====
-- The character device `fzbridge.ko` of kernel/famez/fz_bridge.c. What the kernel answers to
-- `kzalloc`, `copy_to_user`, `copy_from_user`, `kstrtoint` and the reader's wait are arguments.
-- The bytes of a copy that fails are not followed.
pub mod Destination
pub mod Session
pub mod Read
pub mod Write
pub mod Address
pub mod Delivery
use fame_z.Bridge.Destination.{Parsed, Target, bad_target, chomp_comma, parse_target, target}
use fame_z.Base.{
  Bool, Cmd, List, [], and_then, bug_on, deadlock, dec, e_2big, e_badmsg, e_busy, e_fault, e_io,
  e_nomem, e_restartsys, e_timedout, eq_ℤ, false, fault, if◌then◌else◌, inc, is_neg, is_pos,
  is_zero, leb, length, ltb, none, null_pointer, ok, pos, some, suc, take, to_s32, true, zero, ℕ, ℤ,
  ◌%◌, ◌&&◌, ◌++◌, ◌+◌, ◌-◌, ◌==◌, ◌^◌, ◌||◌, ◌∷◌,
}
use fame_z.Base.Text.{c_string, lit, num, read_bytes, split_at, sprintf}
use fame_z.Famez.Incoming.{
  SlotPtr, Woken, err_ptr, famez_await_incoming, famez_release_incoming, ptr,
}
use fame_z.Famez.Outgoing.{famez_create_outgoing, memcpy, store_byte}
use fame_z.Famez.Types.{BridgeBuffers, Host, Kernel, Mailslot, own_slot, set_adapter}

-- The first step of `open`, `atomic_add_return(1, &nr_users)`: the new count and state.
unfoldable pub count_opener : Host → ℤ × Host
count_opener h =
    let n = inc h.adapter.nr_users in (n, set_adapter (λ a. record a { nr_users = n }) h)

unfoldable pub uncount_opener : Host → Host
uncount_opener h = set_adapter (λ a. record a { nr_users = dec a.nr_users }) h

abbrev zeroed : ℕ → ℕ
zeroed i = 0

abbrev pub new_buffers : BridgeBuffers
new_buffers = record { wbuf = zeroed; wbuf_mutex = false }

-- The rest of `open`, behind the count `n`: `buffers_ok` and `wbuf_ok` say whether the two
-- allocations succeed.
unfoldable pub finish_open : (n : ℤ) → (buffers_ok wbuf_ok : Bool) → Cmd Host ℤ
finish_open n buffers_ok wbuf_ok h =
    if eq_ℤ n (pos 1)
    then (if buffers_ok && wbuf_ok
        then ok (pos 0) (set_adapter (λ a. record a { outgoing = some new_buffers }) h)
        else ok e_nomem (uncount_opener h))
    else ok e_busy (uncount_opener h)

unfoldable pub famez_bridge_open : (buffers_ok wbuf_ok : Bool) → Cmd Host ℤ
famez_bridge_open buffers_ok wbuf_ok h =
    let (n, h') = count_opener h in finish_open n buffers_ok wbuf_ok h'

-- At each close of a descriptor; `f_count` is the file's reference count.
unfoldable pub famez_bridge_flush : (f_count : ℕ) → Cmd Host ℤ
famez_bridge_flush f_count h = if f_count == 1 then ok (pos 0) (uncount_opener h) else ok (pos 0) h

-- At the last close: BUG_ON a count that is not zero, and free the buffers.
unfoldable pub famez_bridge_release : Cmd Host ℤ
famez_bridge_release h =
    if is_zero h.adapter.nr_users
    then elim h.adapter.outgoing [
      | none ↦ fault null_pointer
      | some b ↦ ok (pos 0) (set_adapter (λ a. record a { outgoing = none }) h)
    ]
    else fault bug_on

-- What a read gave its caller: the return value, and the bytes copied to each offset of `buf`.
pub record Reading : Type 0 where
  pub ret : ℤ
  pub copied : List (ℕ × List ℕ)

-- "%llu,%llu:" of the sender's CID and SID.
unfoldable pub sidcid_text : Mailslot → List ℕ
sidcid_text s =
    sprintf (num ∷ lit b',' ∷ num ∷ lit b':' ∷ []) (pos s.peer_cid ∷ pos s.peer_sid ∷ [])

-- The first `n` bytes of `sidcidstr[32]`, which `snprintf` filled with 30 characters at most.
pub sidcidstr : ℕ → List ℕ → List ℕ
sidcidstr n text = take n (take 30 text ++ 0 ∷ [])

-- `ret > 0` of a copy is a partial transfer.
abbrev pub copy_error : ℤ → ℤ
copy_error ret = if is_pos ret then e_fault else ret

-- The two copies. `copy_header` and `copy_body` are the answers of `copy_to_user`.
pub copy_out : (copy_header copy_body : ℤ) → ℕ → Mailslot → Reading
copy_out copy_header copy_body buflen s =
    let text = sidcid_text s in
    let n = length text in
    if leb 32 n || ltb buflen ((s.buflen + n + 2 ^ 64 - 1) % 2 ^ 64)
    then record { ret = e_2big; copied = [] }
    else (if is_zero copy_header
        then (if is_zero copy_body
            then record {
              ret = to_s32 (s.buflen + n);
              copied = (0, sidcidstr n text) ∷ (n, read_bytes s.buflen s.buf 0) ∷ [];
            }
            else record { ret = copy_error copy_body; copied = (0, sidcidstr n text) ∷ [] })
        else record { ret = copy_error copy_header; copied = [] })

pub read_slot : (copy_header copy_body : ℤ) → ℕ → SlotPtr → Cmd Host Reading
read_slot copy_header copy_body buflen (err_ptr e) h = ok (record { ret = e; copied = [] }) h
read_slot copy_header copy_body buflen (ptr none) h = fault null_pointer
read_slot copy_header copy_body buflen (ptr (some p)) h =
    let r = copy_out copy_header copy_body buflen (h.slots p) in
    and_then (famez_release_incoming h) λ _ h'. ok r h'

pub famez_bridge_read :
    (Host → Woken) → (nonblocking : Bool) → (copy_header copy_body : ℤ) → ℕ → Cmd Host Reading
famez_bridge_read wait nonblocking copy_header copy_body buflen h =
    and_then (famez_await_incoming wait nonblocking h) (read_slot copy_header copy_body buflen)

-- POLLIN | POLLRDNORM, and POLLOUT | POLLWRNORM.
pub record PollMask : Type 0 where
  pub readable : Bool
  pub writable : Bool

unfoldable famez_bridge_poll : Host → PollMask
famez_bridge_poll h = record { readable = true; writable = (own_slot h).buflen == 0 }

-- The lie about the length: a message that went out whole counts as the whole write.
abbrev pub written : (successlen buflen : ℕ) → ℤ → ℤ
written successlen buflen r =
    if eq_ℤ r (to_s32 buflen) then to_s32 successlen else if is_neg r then r else e_io

abbrev pub set_buffers : BridgeBuffers → Host → Host
set_buffers b h = set_adapter (λ a. record a { outgoing = some b }) h

-- mutex_unlock(&buffers->wbuf_mutex)
pub unlock_wbuf : Host → Host
unlock_wbuf h = elim h.adapter.outgoing [
  | some b ↦ set_buffers (record b { wbuf_mutex = false }) h
  | none ↦ h
]

module _ (k : Kernel) where
  -- The send, tried again after a spurious timeout while `restarts` are left.
  pub send_restarting : ℕ → (cid sid : ℤ) → (successlen : ℕ) → List ℕ → ℕ → Cmd Host ℤ
  send_restarting zero cid sid successlen body buflen h =
      and_then (famez_create_outgoing k false cid sid body buflen h) λ r h'.
        elim (eq_ℤ r e_restartsys) [
          | false ↦ ok (written successlen buflen r) h'
          | true ↦ ok e_timedout h'
        ]
  send_restarting (suc n) cid sid successlen body buflen h =
      and_then (famez_create_outgoing k false cid sid body buflen h) λ r h'.
        elim (eq_ℤ r e_restartsys) [
          | false ↦ ok (written successlen buflen r) h'
          | true ↦ send_restarting n cid sid successlen body buflen h'
        ]

  -- Behind the copy from the user: split at the first colon, find the target, send the rest.
  pub send_wbuf : (List ℕ → Parsed) → BridgeBuffers → (buflen : ℕ) → Cmd Host ℤ
  send_wbuf kstrtoint b buflen h = elim (split_at b':' (c_string (suc buflen) b.wbuf 0)) [
    | none ↦ ok e_badmsg h
    | some (head, _) ↦
        let i = length head in
        let m = store_byte b.wbuf i 0 in
        let body_len = buflen - (i + 1) in
        let body = read_bytes body_len m (i + 1) in
        let chomped = set_buffers (record b { wbuf = chomp_comma head m }) h in
        elim (parse_target kstrtoint h.bar2.server_id head) [
          | bad_target e ↦ ok e chomped
          | target cid sid ↦ send_restarting 2 cid sid buflen body body_len chomped
        ]
  ]

  -- Between the lock and the unlock of the write buffer.
  pub write_locked :
      (List ℕ → Parsed) → (copy_from_user : ℤ) → List ℕ → ℕ → BridgeBuffers → Cmd Host ℤ
  write_locked kstrtoint copy_from_user user buflen b h =
      if is_zero copy_from_user
      then (let full = record b { wbuf = store_byte (memcpy b.wbuf user buflen) buflen 0 } in
          send_wbuf kstrtoint full buflen (set_buffers full h))
      else ok (copy_error copy_from_user) h

  pub famez_bridge_write : (List ℕ → Parsed) → (copy_from_user : ℤ) → List ℕ → ℕ → Cmd Host ℤ
  famez_bridge_write kstrtoint copy_from_user user buflen h =
      if leb ((h.adapter.max_buflen + 2 ^ 64 - 1) % 2 ^ 64) buflen
      then ok e_2big h
      else elim h.adapter.outgoing [
        | none ↦ fault null_pointer
        | some b ↦
            if b.wbuf_mutex
            then fault deadlock
            else (let held = record b { wbuf_mutex = true } in
                and_then
                  (write_locked kstrtoint copy_from_user user buflen held (set_buffers held h))
                  λ r h'. ok r (unlock_wbuf h'))
      ]
