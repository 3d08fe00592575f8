-- ===== src/Examples/Hosts.antt =====
-- A host with four clients' slots of 4096 bytes, mapped at 65536; it is client 2, and the server
-- is 5.
use fame_z.Base.{
  List, [], arith, codes, false, if◌then◌else◌, length, none, pos, some, ℕ, ◌+◌, ◌<◌, ◌==◌, ◌∷◌,
  ◌≡◌,
}
use fame_z.Famez.Outgoing.{memcpy}
use fame_z.Famez.Outgoing.Wait.{InTime, IsClock}
use fame_z.Famez.Types.{Adapter, CoreStructure, Globals, Host, Kernel, Mailslot, MsixEntry}

abbrev pub kernel : Kernel
kernel = record {
  hz = 100;
  delay = λ b d h. record {
    jiffies = h.jiffies + 1;
    slots = h.slots;
    incoming_slot = h.adapter.incoming_slot;
  };
}

abbrev pub layout : Globals
layout = record { slotsize = 4096; buf_offset = 128; n_clients = 4; n_events = 6; server_id = 5 }

abbrev pub blank : ℕ → ℕ
blank i = 0

-- A slot that holds a message, or none.
abbrev pub slot_with : ℕ → List ℕ → Mailslot
slot_with id msg = record {
  nodename = [];
  buflen = length msg;
  peer_id = id;
  last_responder = 0;
  peer_sid = 0;
  peer_cid = 0;
  buf = memcpy blank msg (length msg);
}

abbrev pub core : CoreStructure
core = record {
  cce = 13;
  base_c_class_str = codes "Bridge";
  cid0 = pos 0;
  sid0 = pos 0;
  pmcid = pos 0;
  pfmcid = pos 0;
  pfmsid = pos 0;
  sfmcid = pos 0;
  sfmsid = pos 0;
  comp_dest_table = false;
}

abbrev pub entries : List MsixEntry
entries =
    record { vector = 40; entry = 0 }
    ∷ record { vector = 41; entry = 1 }
    ∷ record { vector = 42; entry = 2 }
    ∷ record { vector = 43; entry = 3 }
    ∷ record { vector = 44; entry = 4 }
    ∷ record { vector = 45; entry = 5 }
    ∷ []

abbrev pub adapter : Adapter
adapter = record {
  nr_users = pos 0;
  pdev = 1;
  max_buflen = 3968;
  my_id = 2;
  globals = 65536;
  my_slot = 73728;
  irq_private = some entries;
  incoming_slot = none;
  incoming_slot_lock = false;
  outgoing = none;
  core = core;
}

-- The slot of client 3, the sender, at 77824 holds `msg`; every other slot is empty.
abbrev pub host_with : List ℕ → Host
host_with msg = record {
  adapter = adapter;
  bar2 = layout;
  slots = λ p. if p == 77824 then slot_with 3 msg else slot_with 2 [];
  jiffies = 1000;
  longest = 0;
  doorbells = [];
  wakeups = 0;
}

abbrev pub host : Host
host = host_with []

abbrev pub hello : List ℕ
hello = codes "hello"

abbrev kernel_clock : IsClock kernel
kernel_clock = record {
  longest = 1;
  rate = omega arith;
  later = λ b d h l. omega arith;
  moves = λ b d h tick l. omega arith;
  bounded = λ b d h short l. omega arith;
}

pub in_time : (n : ℕ) (h : Host) → n < 100 → h.jiffies ≡ 1000 → InTime kernel n h
in_time n h l e = record { clock = kernel_clock; room = omega (arith, l, e) }
