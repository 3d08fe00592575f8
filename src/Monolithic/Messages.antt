-- ===== src/Monolithic/Messages.antt =====
-- Sending, and the interrupt handler, of kernel/famez/monolithic/famez_MSI-X.c.
use fame_z.Base.{
  Bool, Cmd, List, Option, and_then, atomic_sleep, codes, deadlock, e_2big, e_badslt, e_nodata,
  false, fault, get_elem?, if◌then◌else◌, leb, ltb, none, null_pointer, ok, out_of_bounds,
  out_of_fuel, some, suc, to_s32, true, zero, ℕ, ℤ, ◌%◌, ◌&&◌, ◌*◌, ◌+◌, ◌-◌, ◌/◌, ◌==◌, ◌^◌, ◌||◌,
  ◌∷◌,
}
use fame_z.Base.Text.{starts_with}
use fame_z.Famez.Interrupt.{match_vector}
use fame_z.Famez.Outgoing.{memcpy, ringer, store_byte}
use fame_z.Famez.Types.{MsixEntry}
use fame_z.Famez.Vectors.Handlers.{count}
use fame_z.Monolithic.{MonoGlobals, MonoSlot, Slept, Station, set_config, sleep, write_msg}

-- The loop that waits for the own slot, until the time is over.
unfoldable pub wait_slot : (Station → Slept) → ℕ → (hw_timeout : ℕ) → Cmd Station (Unit {0})
wait_slot usleep zero hw_timeout s = fault out_of_fuel
wait_slot usleep (suc f) hw_timeout s =
    elim (ltb 0 (s.slots s.config.my_slot).msglen && ltb s.jiffies hw_timeout) [
      | true ↦ wait_slot usleep f hw_timeout (sleep (usleep s) s)
      | false ↦ ok tt s
    ]

-- The new contents of the own slot.
unfoldable pub fill_msg : ℕ → List ℕ → ℕ → MonoSlot → MonoSlot
fill_msg peer_id msg msglen m = record m {
  msglen = msglen;
  last_responder = peer_id;
  msg = memcpy (store_byte m.msg msglen 0) msg msglen;
}

-- Behind the wait the slot is filled, whether it is free or not.
unfoldable pub stomp : ℕ → List ℕ → ℕ → Cmd Station ℤ
stomp peer_id msg msglen s = ok (to_s32 msglen) (record s {
  slots =
      write_msg s.config.my_slot (fill_msg peer_id msg msglen (s.slots s.config.my_slot)) s.slots;
  doorbells = ringer peer_id s.config.my_id ∷ s.doorbells;
})

unfoldable pub famez_sendmail :
    (hz : ℕ) → (Station → Slept) → (peer_id : ℕ) → List ℕ → ℕ → Cmd Station ℤ
famez_sendmail hz usleep peer_id msg msglen s =
    if ltb peer_id 1 || ltb s.config.server_id peer_id
    then ok e_badslt s
    else (if leb s.config.max_msglen msglen
        then ok e_2big s
        else (if msglen == 0
            then ok e_nodata s
            else and_then (wait_slot usleep (suc (hz / 2)) ((s.jiffies + hz / 2) % 2 ^ 64) s)
                (λ _ s'. stomp peer_id msg msglen s')))

-- `calculate_mailslot`: any slot but the first.
unfoldable pub monolithic_mailslot : ℕ → MonoGlobals → ℕ → Option ℕ
monolithic_mailslot base g slotnum =
    if ltb slotnum 1 || leb g.n_slots slotnum
    then none
    else some ((base + slotnum * g.slotsize) % 2 ^ 64)

-- down_interruptible: the answer says whether a signal came; a semaphore at 0 is not waited for.
unfoldable pub down_interruptible : (interrupted : Bool) → ℕ → Option ℕ
down_interruptible true count = none
down_interruptible false count = some (count - 1)

abbrev set_legible : ℕ → Station → Station
set_legible p s = set_config (λ c. record c { legible_slot = some p }) s

-- The hand-off to a reader, between the lock and the unlock if the lock was had.
unfoldable pub hand_off : (interrupted : Bool) → ℕ → Cmd Station Bool
hand_off true p s = ok true (record (set_legible p s) { wakeups = suc s.wakeups })
hand_off false p s =
    if s.config.legible_slot_lock == 0
    then fault deadlock
    else ok true (record (set_legible p s) { wakeups = suc s.wakeups })

abbrev pub is_ping : MonoSlot → Bool
is_ping m = m.msglen == 4 && starts_with (codes "ping") m.msg 0

-- The send comes to its usleep_range: the checks pass, the own slot is busy, and there is time.
unfoldable pub sendmail_sleeps : (hz peer_id msglen : ℕ) → Station → Bool
sendmail_sleeps hz peer_id msglen s =
    leb 1 peer_id
    && leb peer_id s.config.server_id
    && ltb msglen s.config.max_msglen
    && ltb 0 msglen
    && ltb 0 (s.slots s.config.my_slot).msglen
    && ltb s.jiffies ((s.jiffies + hz / 2) % 2 ^ 64)

-- The sender's slot is known: a ping is answered, anything else is for a reader. An interrupt must
-- not sleep: a send that would is a fault here.
unfoldable pub receive :
    (hz : ℕ) → (Station → Slept) → (interrupted : Bool) → (sender_id p : ℕ) → Cmd Station Bool
receive hz usleep interrupted sender_id p s =
    let s1 = record s {
      slots = write_msg p (record (s.slots p) { peer_id = sender_id }) s.slots;
    } in
    if is_ping (s1.slots p)
    then (if sendmail_sleeps hz sender_id 4 s1
        then fault atomic_sleep
        else and_then (famez_sendmail hz usleep sender_id (codes "pong") 4 s1) (λ _ s2. ok true s2))
    else hand_off interrupted p s1

-- Behind the search of the table.
unfoldable pub identify :
    (hz : ℕ) → (Station → Slept) → (interrupted : Bool) → List MsixEntry → ℕ → Cmd Station Bool
identify hz usleep interrupted entries slotnum s =
    if leb s.bar2.n_slots slotnum then ok false s else elim (get_elem? entries slotnum) [
      | none ↦ fault out_of_bounds
      | some e ↦ elim (monolithic_mailslot s.config.globals s.bar2 (e.entry % 2 ^ 16)) [
        | none ↦ ok true s
        | some p ↦ receive hz usleep interrupted (e.entry % 2 ^ 16) p s
      ]
    ]

unfoldable pub monolithic_all_msix :
    (hz : ℕ) → (Station → Slept) → (interrupted : Bool) → (vector : ℕ) → Cmd Station Bool
monolithic_all_msix hz usleep interrupted vector s = elim s.config.msix_entries [
  | none ↦ fault null_pointer
  | some entries ↦ elim (match_vector vector (s.bar2.n_slots - 1) 1 entries) [
    | none ↦ fault out_of_bounds
    | some slotnum ↦ identify hz usleep interrupted entries slotnum s
  ]
]
