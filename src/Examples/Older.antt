-- ===== src/Examples/Older.antt =====
-- The older driver: a station that is client 2, with the slot of client 3 at 77824.
use fame_z.Base.{
  List, Returns, [], and_then, arith, codes, false, if◌then◌else◌, length, none, ok, pos, refl,
  some, true, ℕ, ◌+◌, ◌==◌, ◌∷◌, ◌≡◌,
}
use fame_z.Bridge.Destination.{parsed}
use fame_z.Examples.Hosts.{entries, hello, host}
use fame_z.Examples.Interrupts.{no_vector}
use fame_z.Famez.Outgoing.{memcpy, ringer}
use fame_z.Monolithic.{MonoSlot, Slept, Station, write_msg}
use fame_z.Monolithic.Arrival.{NamesSlot}
use fame_z.Monolithic.Arrival.Mail.{mail, mail-arrives}
use fame_z.Monolithic.Device.{Awoken, bridge_read, bridge_write}
use fame_z.Monolithic.Messages.{
  famez_sendmail, fill_msg, monolithic_all_msix, monolithic_mailslot, stomp, wait_slot,
}
use fame_z.Monolithic.Sessions.{
  Call, call_modular, call_older, flush_call, open_call, release_call, serve, serve-agree,
}
use fame_z.Monolithic.Writing.{Written, bridge_write-Written}

abbrev pub msg_slot : ℕ → List ℕ → MonoSlot
msg_slot id text = record {
  nodename = [];
  msglen = length text;
  peer_id = id;
  last_responder = 0;
  msg = memcpy (λ i. 0) text (length text);
}

abbrev station : Station
station = record {
  config = record {
    nr_users = pos 1;
    max_msglen = 4032;
    my_id = 2;
    server_id = 5;
    globals = 65536;
    my_slot = 73728;
    msix_entries = some entries;
    legible_slot = some 77824;
    legible_slot_lock = 1;
    writer_support = some (record { wbuf = λ i. 0; wbuf_lock = 1 });
  };
  bar2 = record { slotsize = 4096; msg_offset = 64; n_slots = 6 };
  slots = λ p. if p == 77824 then msg_slot 3 hello else msg_slot 2 hello;
  jiffies = 1000;
  doorbells = [];
  wakeups = 0;
}

abbrev pub usleep : Station → Slept
usleep s = record { jiffies = s.jiffies + 1; slots = s.slots; legible_slot = s.config.legible_slot }

abbrev awake : Station → Awoken
awake s = record { signalled = true; slept = usleep s; interrupted = false }

-- Client 3, which sends to client 2; client 2 behind it, with its reader's slot free.
abbrev sender : Station
sender = record station {
  config = record (station.config) { my_id = 3; my_slot = 77824; legible_slot = none };
  slots = λ p. msg_slot 3 [];
}

abbrev emitted : List ℕ → Station
emitted msg = record sender {
  slots = write_msg 77824 (fill_msg 2 msg (length msg) (msg_slot 3 [])) sender.slots;
  doorbells = ringer 2 3 ∷ [];
}

abbrev receiver : List ℕ → Station
receiver msg = record station {
  config = record (station.config) { legible_slot = none };
  slots = (emitted msg).slots;
}

emitted-hello : famez_sendmail 10 usleep 2 hello 5 sender ≡ ok (pos 5) (emitted hello)
unfolding famez_sendmail wait_slot stomp
emitted-hello = refl

NamesSlot-3 : (msg : List ℕ) → NamesSlot (receiver msg) entries 3 43
NamesSlot-3 msg = record {
  table = refl;
  enough = omega arith;
  here = refl;
  first = no_vector;
  low = omega arith;
  high = omega arith;
  short = omega arith;
}

slot_of_3 : monolithic_mailslot 65536 station.bar2 3 ≡ some 77824
unfolding monolithic_mailslot
slot_of_3 = refl

mail-arrives_example :
    Returns
      (λ got s'.
        (got ≡ mail 3 hello)
        × ((s'.slots 77824).msglen ≡ 0)
        × (s'.config.legible_slot ≡ none)
        × (s'.config.legible_slot_lock ≡ 1))
      (and_then
        (monolithic_all_msix 10 usleep false 43 (receiver hello))
        (λ _. bridge_read awake false false 1 (pos 0) (pos 0) 9))
mail-arrives_example =
    mail-arrives 10 usleep sender (emitted hello) (receiver hello) 2 hello entries 3 43 77824
      (pos 5) false awake false 0 9 0 (record { moves = λ s l. omega arith }) (omega arith)
      (omega arith) (omega arith) (omega arith) (omega arith) emitted-hello refl (NamesSlot-3 hello)
      slot_of_3 refl refl (omega arith) (omega arith) (omega arith)

-- Client 3 asks twice: with the own slot free, and with a message left in it.
abbrev asked_free : Station
asked_free = record (receiver (codes "ping")) {
  slots = write_msg 73728 (msg_slot 2 []) (receiver (codes "ping")).slots;
}

again-Written :
    Returns
      (Written 7 1)
      (bridge_write 10 usleep (λ s. parsed (pos 3)) false (pos 0) (codes "3:again") 7 station)
again-Written =
    bridge_write-Written 10 usleep (record { moves = λ s l. omega arith }) (λ s. parsed (pos 3))
      (λ s e h. cc h) false (pos 0) (codes "3:again") 7 (record { wbuf = λ i. 0; wbuf_lock = 1 })
      station (omega arith) refl (λ e. omega arith)

-- Two opens, the close of the first and a release too many.
abbrev calls : List Call
calls = open_call true true ∷ open_call true true ∷ flush_call 1 ∷ release_call ∷ release_call ∷ []

abbrev closed_station : Station
closed_station = record station {
  config = record (station.config) { nr_users = pos 0; writer_support = none };
}

sessions_example : serve call_modular calls host ≡ serve call_older calls closed_station
sessions_example = serve-agree calls host closed_station (refl, refl)
