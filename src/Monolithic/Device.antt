-- ===== src/Monolithic/Device.antt =====
-- The character device of kernel/famez/monolithic/famez_bridge.c. `interrupted` is the answer of
-- `down_interruptible`.
use fame_z.Base.{
  Bool, Cmd, List, [], and_then, bug_on, bytes_eq, codes, deadlock, dec, e_2big, e_again, e_badmsg,
  e_busy, e_fault, e_io, e_nomem, e_restartsys, eq_ℤ, false, fault, if◌then◌else◌, inc, is_neg,
  is_pos, is_zero, leb, length, ltb, none, null_pointer, ok, out_of_fuel, pos, some, suc, take,
  to_s32, to_u32, true, zero, ℕ, ℤ, ◌%◌, ◌&&◌, ◌++◌, ◌+◌, ◌-◌, ◌/◌, ◌==◌, ◌^◌, ◌∷◌,
}
use fame_z.Base.Text.{c_string, read_bytes, show_nat, split_at}
use fame_z.Bridge.{PollMask}
use fame_z.Bridge.Destination.{Parsed, parsed, unparsed}
use fame_z.Famez.Outgoing.{memcpy, store_byte}
use fame_z.Monolithic.{MonoBuffers, MonoSlot, Slept, Station, e_intr, set_config, sleep, write_msg}
use fame_z.Monolithic.Messages.{famez_sendmail}

-- `open`; the two answers are those of the allocations.
unfoldable pub bridge_open : (buffers_ok wbuf_ok : Bool) → Cmd Station ℤ
bridge_open buffers_ok wbuf_ok s =
    let n = inc s.config.nr_users in
    if eq_ℤ n (pos 1)
    then (if buffers_ok && wbuf_ok
        then ok (pos 0) (
            set_config
              (λ c. record c {
                nr_users = n;
                writer_support = some (record { wbuf = λ i. 0; wbuf_lock = 1 });
              })
              s)
        else ok e_nomem (set_config (λ c. record c { nr_users = dec n }) s))
    else ok e_busy (set_config (λ c. record c { nr_users = dec n }) s)

unfoldable pub bridge_flush : (f_count : ℕ) → Cmd Station ℤ
bridge_flush f_count s =
    if f_count == 1
    then ok (pos 0) (set_config (λ c. record c { nr_users = dec c.nr_users }) s)
    else ok (pos 0) s

unfoldable pub bridge_release : Cmd Station ℤ
bridge_release s =
    if is_zero s.config.nr_users
    then elim s.config.writer_support [
      | none ↦ fault null_pointer
      | some b ↦ ok (pos 0) (set_config (λ c. record c { writer_support = none }) s)
    ]
    else fault bug_on

abbrev pub take_lock : Station → Station
take_lock s = set_config (λ c. record c { legible_slot_lock = c.legible_slot_lock - 1 }) s

abbrev pub give_lock : Station → Station
give_lock s = set_config (λ c. record c { legible_slot_lock = c.legible_slot_lock + 1 }) s

-- FAMEZ_LOCK of the legible slot.
unfoldable pub lock_legible : (interrupted : Bool) → Cmd Station ℤ
lock_legible true s = ok e_intr s
lock_legible false s =
    if s.config.legible_slot_lock == 0 then fault deadlock else ok (pos 0) (take_lock s)

-- One wait: whether a signal ended it, what changed, and the answer of the lock behind it.
pub record Awoken : Type 0 where
  pub signalled : Bool
  pub slept : Slept
  pub interrupted : Bool

-- The slot, with the lock held; or an error, without.
pub data Legible : Type 0 where
  legible : ℕ → Legible
  illegible : ℤ → Legible

-- The loop, entered with the lock held; `f` rounds.
unfoldable pub await_loop : (Station → Awoken) → (nonblocking : Bool) → ℕ → Cmd Station Legible
await_loop wait nonblocking zero s = fault out_of_fuel
await_loop wait nonblocking (suc f) s = elim s.config.legible_slot [
  | some p ↦ ok (legible p) s
  | none ↦
      let s1 = give_lock s in
      let w = wait s1 in
      let s2 = sleep w.slept s1 in
      elim nonblocking [
        | true ↦ ok (illegible e_again) s1
        | false ↦ elim w.signalled [
          | true ↦ ok (illegible e_restartsys) s2
          | false ↦ elim w.interrupted [
            | true ↦ ok (illegible e_intr) s2
            | false ↦ elim (s2.config.legible_slot_lock == 0) [
              | true ↦ fault deadlock
              | false ↦ await_loop wait nonblocking f (take_lock s2)
            ]
          ]
        ]
      ]
]

unfoldable pub famez_await_legible_slot :
    (Station → Awoken) → (interrupted nonblocking : Bool) → ℕ → Cmd Station Legible
famez_await_legible_slot wait interrupted nonblocking rounds s =
    and_then (lock_legible interrupted s)
      λ ret s'. if is_zero ret then await_loop wait nonblocking rounds s' else ok (illegible ret) s'

unfoldable pub famez_release_legible_slot : Cmd Station (Unit {0})
famez_release_legible_slot s = elim s.config.legible_slot [
  | none ↦ fault null_pointer
  | some p ↦ ok tt (
      give_lock (record s {
        slots = write_msg p (record (s.slots p) { msglen = 0 }) s.slots;
        config = record (s.config) { legible_slot = none };
      }))
]

-- "%03llu:"
unfoldable pub sender_id_text : ℕ → List ℕ
sender_id_text n =
    (if ltb n 1000 then (48 + n / 100) ∷ (48 + n / 10 % 10) ∷ (48 + n % 10) ∷ [] else show_nat n)
    ++ b':' ∷ []

abbrev sender_id_len : ℕ
sender_id_len = 4

-- What a read gives: the return value, and the bytes copied to each offset.
pub record MonoReading : Type 0 where
  pub ret : ℤ
  pub copied : List (ℕ × List ℕ)

-- The two copies, with their answers.
unfoldable pub copy_msg : (copy_id copy_body : ℤ) → ℕ → MonoSlot → MonoReading
copy_msg copy_id copy_body buflen m =
    if ltb buflen (m.msglen + sender_id_len)
    then record { ret = e_2big; copied = [] }
    else (let id : ℕ × List ℕ = (0, take sender_id_len (sender_id_text m.peer_id)) in
        if is_zero copy_id
        then (if is_zero copy_body
            then record {
              ret = to_s32 (m.msglen + sender_id_len);
              copied = id ∷ (sender_id_len, read_bytes m.msglen m.msg 0) ∷ [];
            }
            else record { ret = e_fault; copied = id ∷ [] })
        else record { ret = if is_pos copy_id then e_fault else copy_id; copied = [] })

unfoldable pub read_legible : (copy_id copy_body : ℤ) → ℕ → Legible → Cmd Station MonoReading
read_legible copy_id copy_body buflen (illegible e) s = ok (record { ret = e; copied = [] }) s
read_legible copy_id copy_body buflen (legible p) s =
    and_then (famez_release_legible_slot s)
      λ _ s'. ok (copy_msg copy_id copy_body buflen (s.slots p)) s'

unfoldable pub bridge_read :
    (Station → Awoken)
    → (interrupted nonblocking : Bool) → (rounds : ℕ) → (copy_id copy_body : ℤ) → ℕ
    → Cmd Station MonoReading
bridge_read wait interrupted nonblocking rounds copy_id copy_body buflen s =
    and_then (famez_await_legible_slot wait interrupted nonblocking rounds s)
      (read_legible copy_id copy_body buflen)

abbrev pub set_writer : MonoBuffers → Station → Station
set_writer b s = set_config (λ c. record c { writer_support = some b }) s

-- FAMEZ_UNLOCK of the write buffer
unfoldable pub unlock_writer : Station → Station
unlock_writer s = elim s.config.writer_support [
  | none ↦ s
  | some b ↦ set_writer (record b { wbuf_lock = b.wbuf_lock + 1 }) s
]

module _ (hz : ℕ) (usleep : Station → Slept) (kstrtou16 : List ℕ → Parsed) where
  -- The peer of an address, or its error.
  unfoldable pub peer_of : (server_id : ℕ) → List ℕ → Parsed
  peer_of server_id head =
      if bytes_eq head (codes "server") then parsed (pos server_id) else kstrtou16 head

  unfoldable pub mail_to : Parsed → (successlen : ℕ) → List ℕ → ℕ → Cmd Station ℤ
  mail_to (unparsed e) successlen body buflen s = ok e s
  mail_to (parsed peer_id) successlen body buflen s =
      and_then (famez_sendmail hz usleep (to_u32 peer_id % 2 ^ 16) body buflen s) λ r s'.
        ok (if eq_ℤ r (to_s32 buflen) then to_s32 successlen else if is_neg r then r else e_io) s'

  -- Behind the copy from the user.
  unfoldable pub mail_wbuf : MonoBuffers → ℕ → Cmd Station ℤ
  mail_wbuf b buflen s = elim (split_at b':' (c_string (suc buflen) b.wbuf 0)) [
    | none ↦ ok e_badmsg s
    | some (head, _) ↦
        let i = length head in
        let m = store_byte b.wbuf i 0 in
        let body_len = buflen - (i + 1) in
        mail_to (peer_of s.config.server_id head) buflen (read_bytes body_len m (i + 1)) body_len
          (set_writer (record b { wbuf = m }) s)
  ]

  -- With the lock held.
  unfoldable pub write_held : (copy_from_user : ℤ) → List ℕ → ℕ → MonoBuffers → Cmd Station ℤ
  write_held copy_from_user user buflen b s =
      if is_zero copy_from_user
      then (let full = record b { wbuf = store_byte (memcpy b.wbuf user buflen) buflen 0 } in
          mail_wbuf full buflen (set_writer full s))
      else ok e_io s

  unfoldable pub bridge_write :
      (interrupted : Bool) → (copy_from_user : ℤ) → List ℕ → ℕ → Cmd Station ℤ
  bridge_write interrupted copy_from_user user buflen s =
      if leb ((s.config.max_msglen + 2 ^ 64 - 1) % 2 ^ 64) buflen
      then ok e_2big s
      else elim s.config.writer_support [
        | none ↦ fault null_pointer
        | some b ↦
            if interrupted
            then ok e_intr (unlock_writer s)
            else (if b.wbuf_lock == 0
                then fault deadlock
                else (let taken = record b { wbuf_lock = b.wbuf_lock - 1 } in
                    and_then (write_held copy_from_user user buflen taken (set_writer taken s))
                      λ r s'. ok r (unlock_writer s')))
      ]

unfoldable bridge_poll : Station → PollMask
bridge_poll s = record { readable = true; writable = (s.slots s.config.my_slot).msglen == 0 }
