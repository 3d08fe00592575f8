-- ===== src/Famez/Outgoing.antt =====
-- `famez_create_outgoing` of kernel/famez/famez_IVSHMSG.c: one message into the own mail slot, and
-- the doorbell. `in_interrupt` says which of the two delays the wait takes; both are the kernel's.
pub mod Wait
pub mod Send
pub mod Message
use fame_z.Base.{
  Bool, Cmd, List, Option, and_then, div_trunc, e_2big, e_badslt, e_netunreach, e_nodata,
  e_restartsys, eq_ℤ, false, fault, get_or, if◌then◌else◌, leb, ltb, negsuc, none, not, ok,
  out_of_fuel, pos, some, suc, to_s32, to_u32, true, zero, ℕ, ℤ, ◌%◌, ◌&&◌, ◌*◌, ◌+◌, ◌-◌, ◌==◌,
  ◌^◌, ◌||◌, ◌∷◌,
}
use fame_z.Famez.Types.{Elapsed, Host, Kernel, Mailslot, own_slot, set_slot}

-- FAMEZ_SID_DEFAULT and FAMEZ_SID_CID_IS_PEER_ID of famez.h.
abbrev pub sid_default : ℤ
sid_default = pos 27

abbrev pub sid_cid_is_peer_id : ℤ
sid_cid_is_peer_id = negsuc 41

abbrev pub delay_ms_loop_max : ℕ
delay_ms_loop_max = 10

abbrev pub prior_resp_wait : Kernel → ℕ
prior_resp_wait k = 5 * k.hz

-- The rounds that the wait is given: one for each tick up to the deadline, and six more.
abbrev pub wait_rounds : ℕ → ℕ
wait_rounds ticks = suc (suc (suc (suc (suc (suc ticks)))))

-- `time_before(a, b)` of linux/jiffies.h: the wrapped difference is negative as a `long`.
abbrev pub time_before : ℕ → ℕ → Bool
time_before a b = leb (2 ^ 63) ((a + 2 ^ 64 - b) % 2 ^ 64)

-- The doorbell register: the peer in the upper 16 bits, the vector in the lower.
pub ringer : ℕ → ℕ → ℕ
ringer peer vector = peer % 2 ^ 16 * 2 ^ 16 + vector % 2 ^ 16

unfoldable pub peer_id_of : ℤ → ℤ → ℕ
peer_id_of cid sid = to_u32 (if eq_ℤ sid sid_cid_is_peer_id then cid else div_trunc cid 100)

-- The time that a delay took, and what changed meanwhile.
abbrev pub elapse : Elapsed → Host → Host
elapse e h = record h {
  jiffies = e.jiffies;
  slots = e.slots;
  adapter = record (h.adapter) { incoming_slot = e.incoming_slot };
}

-- memcpy(dst, src, n)
abbrev pub memcpy : (ℕ → ℕ) → List ℕ → ℕ → ℕ → ℕ
memcpy dst src n i = if ltb i n then get_or src i 0 else dst i

abbrev pub store_byte : (ℕ → ℕ) → ℕ → ℕ → ℕ → ℕ
store_byte dst i v j = if j == i then v else dst j

-- The condition of the wait loop.
unfoldable pub must_wait : ℕ → ℕ → Host → Bool
must_wait now hw_timeout h = ltb 0 (own_slot h).buflen && time_before now hw_timeout

-- `if ((hw_timeout -= now) > longest) longest = hw_timeout`
unfoldable pub note_longest : ℕ → ℕ → Host → Host
note_longest now hw_timeout h =
    let left = (hw_timeout + 2 ^ 64 - now) % 2 ^ 64 in
    if ltb h.longest left then record h { longest = left } else h

-- The new contents of the own slot: the terminator goes in before the message is copied.
unfoldable pub fill_slot : ℕ → List ℕ → ℕ → Mailslot → Mailslot
fill_slot peer_id buf buflen s = record s {
  buflen = buflen;
  last_responder = peer_id;
  buf = memcpy (store_byte s.buf buflen 0) buf buflen;
}

-- Behind the wait: refuse to stomp, or fill the slot and ring.
unfoldable pub publish : ℕ → List ℕ → ℕ → Cmd Host ℤ
publish peer_id buf buflen h =
    if ltb 0 (own_slot h).buflen
    then ok e_restartsys h
    else ok (to_s32 buflen)
        (record (set_slot h.adapter.my_slot (fill_slot peer_id buf buflen (own_slot h)) h) {
          doorbells = ringer peer_id h.adapter.my_id ∷ h.doorbells;
        })

-- The checks of the arguments, in order: the error of the first that fails.
unfoldable pub refusal : Host → ℤ → ℤ → ℕ → Option ℤ
refusal h cid sid buflen =
    if not (eq_ℤ sid sid_default) && not (eq_ℤ sid sid_cid_is_peer_id)
    then some e_netunreach
    else (if ltb (peer_id_of cid sid) 1 || ltb h.bar2.server_id (peer_id_of cid sid)
        then some e_badslt
        else (if leb h.adapter.max_buflen buflen
            then some e_2big
            else (if buflen == 0 then some e_nodata else none)))

module _ (k : Kernel) where
  -- The loop that waits for the previous responder to clear `buflen`; it returns `now`.
  unfoldable pub wait_ready : ℕ → Bool → ℕ → ℕ → ℕ → Cmd Host ℕ
  wait_ready zero in_interrupt this_delay now hw_timeout h = fault out_of_fuel
  wait_ready (suc f) in_interrupt this_delay now hw_timeout h = elim (must_wait now hw_timeout h) [
    | true ↦
        let h' = elapse (k.delay in_interrupt this_delay h) h in
        wait_ready f in_interrupt
          (if ltb this_delay delay_ms_loop_max then this_delay + 2 else this_delay) h'.jiffies
          hw_timeout h'
    | false ↦ ok now h
  ]

  unfoldable pub famez_create_outgoing : Bool → ℤ → ℤ → List ℕ → ℕ → Cmd Host ℤ
  famez_create_outgoing in_interrupt cid sid buf buflen h =
      let hw_timeout = (h.jiffies + prior_resp_wait k) % 2 ^ 64 in
      elim (refusal h cid sid buflen) [
        | some e ↦ ok e h
        | none ↦
            and_then (wait_ready (wait_rounds (prior_resp_wait k)) in_interrupt 1 0 hw_timeout h)
              λ now h'. publish (peer_id_of cid sid) buf buflen (note_longest now hw_timeout h')
      ]
