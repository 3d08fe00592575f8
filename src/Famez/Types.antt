-- ===== src/Famez/Types.antt =====
-- The structures of kernel/famez/famez.h, and the machine that the handlers run on.
-- A pointer is an address, 0 for NULL, where the code never follows a NULL, and an `Option`
-- where it has to test for one.
use fame_z.Base.{==_refl, Bool, List, Option, arith, if◌then◌else◌, ℕ, ℤ, ◌==◌, ◌≡◌, ◌≢◌}

-- The start of BAR 2, written by the server.
pub record Globals : Type 0 where
  pub slotsize : ℕ
  pub buf_offset : ℕ
  pub n_clients : ℕ
  pub n_events : ℕ
  pub server_id : ℕ

-- One mailbox slot of BAR 2. `buf` is the memory behind the fixed fields.
pub record Mailslot : Type 0 where
  pub nodename : List ℕ
  pub buflen : ℕ
  pub peer_id : ℕ
  pub last_responder : ℕ
  pub peer_sid : ℕ
  pub peer_cid : ℕ
  pub buf : ℕ → ℕ

-- `struct msix_entry` of linux/pci.h.
pub record MsixEntry : Type 0 where
  pub vector : ℕ
  pub entry : ℕ

-- The Gen-Z core structure.
pub record CoreStructure : Type 0 where
  pub cce : ℕ
  pub base_c_class_str : List ℕ
  pub cid0 : ℤ
  pub sid0 : ℤ
  pub pmcid : ℤ
  pub pfmcid : ℤ
  pub pfmsid : ℤ
  pub sfmcid : ℤ
  pub sfmsid : ℤ
  pub comp_dest_table : Bool

-- The write support of one opener.
pub record BridgeBuffers : Type 0 where
  pub wbuf : ℕ → ℕ
  pub wbuf_mutex : Bool

pub record Adapter : Type 0 where
  pub nr_users : ℤ
  pub pdev : ℕ
  pub max_buflen : ℕ
  pub my_id : ℕ
  pub globals : ℕ
  pub my_slot : ℕ
  pub irq_private : Option (List MsixEntry)
  pub incoming_slot : Option ℕ
  pub incoming_slot_lock : Bool
  pub outgoing : Option BridgeBuffers
  pub core : CoreStructure

-- One adapter, the memory it maps, and what it does to the outside: the values written to the
-- doorbell register and the number of wake-ups of the readers' queue.
pub record Host : Type 0 where
  pub adapter : Adapter
  pub bar2 : Globals
  pub slots : ℕ → Mailslot
  pub jiffies : ℕ
  pub longest : ℕ
  pub doorbells : List ℕ
  pub wakeups : ℕ

-- What other CPUs, interrupts and peers may have changed when a sleep or a busy wait ends.
pub record Elapsed : Type 0 where
  pub jiffies : ℕ
  pub slots : ℕ → Mailslot
  pub incoming_slot : Option ℕ

-- The clock rate, and the kernel's `mdelay` (in an interrupt) and `msleep`.
pub record Kernel : Type 0 where
  pub hz : ℕ
  pub delay : (in_interrupt : Bool) → (ms : ℕ) → Host → Elapsed

abbrev pub own_slot : Host → Mailslot
own_slot h = h.slots h.adapter.my_slot

-- A store through a slot pointer.
abbrev pub write_slot : ℕ → Mailslot → (ℕ → Mailslot) → ℕ → Mailslot
write_slot p s slots q = if q == p then s else slots q

abbrev pub set_slot : ℕ → Mailslot → Host → Host
set_slot p s h = record h { slots = write_slot p s h.slots }

abbrev pub set_adapter : (Adapter → Adapter) → Host → Host
set_adapter f h = record h { adapter = f h.adapter }

pub write_slot_self : (p : ℕ) (s : Mailslot) (f : ℕ → Mailslot) → write_slot p s f p ≡ s
write_slot_self p s f = rw (==_refl p)

pub write_slot_other :
    (p q : ℕ) (s : Mailslot) (f : ℕ → Mailslot) → q ≢ p → write_slot p s f q ≡ f q
write_slot_other p q s f h = ground (arith, h)
