-- ===== src/Monolithic.antt =====
-- The older driver of kernel/famez/monolithic, one module for everything: its structures.
pub mod Messages
pub mod Arrival
pub mod Device
pub mod Sessions
pub mod Sending
pub mod Locks
pub mod Writing
pub mod Vectors
pub mod Config
pub mod Misc
pub mod Probe
use fame_z.Base.{List, Option, if◌then◌else◌, negsuc, ℕ, ℤ, ◌==◌}
use fame_z.Famez.Types.{MsixEntry}

-- `famez_globals_t`
pub record MonoGlobals : Type 0 where
  pub slotsize : ℕ
  pub msg_offset : ℕ
  pub n_slots : ℕ

-- `famez_mailslot_t`
pub record MonoSlot : Type 0 where
  pub nodename : List ℕ
  pub msglen : ℕ
  pub peer_id : ℕ
  pub last_responder : ℕ
  pub msg : ℕ → ℕ

-- `bridge_buffers_t`, with the count of its semaphore.
pub record MonoBuffers : Type 0 where
  pub wbuf : ℕ → ℕ
  pub wbuf_lock : ℕ

-- `famez_configuration_t`. The locks are semaphores, by their count.
pub record Configuration : Type 0 where
  pub nr_users : ℤ
  pub max_msglen : ℕ
  pub my_id : ℕ
  pub server_id : ℕ
  pub globals : ℕ
  pub my_slot : ℕ
  pub msix_entries : Option (List MsixEntry)
  pub legible_slot : Option ℕ
  pub legible_slot_lock : ℕ
  pub writer_support : Option MonoBuffers

-- One configuration with the memory it maps, and what it does to the outside.
pub record Station : Type 0 where
  pub config : Configuration
  pub bar2 : MonoGlobals
  pub slots : ℕ → MonoSlot
  pub jiffies : ℕ
  pub doorbells : List ℕ
  pub wakeups : ℕ

-- What others may have changed when a sleep ends.
pub record Slept : Type 0 where
  pub jiffies : ℕ
  pub slots : ℕ → MonoSlot
  pub legible_slot : Option ℕ

abbrev pub sleep : Slept → Station → Station
sleep e s = record s {
  jiffies = e.jiffies;
  slots = e.slots;
  config = record (s.config) { legible_slot = e.legible_slot };
}

abbrev pub set_config : (Configuration → Configuration) → Station → Station
set_config f s = record s { config = f s.config }

abbrev pub write_msg : ℕ → MonoSlot → (ℕ → MonoSlot) → ℕ → MonoSlot
write_msg p m slots q = if q == p then m else slots q

-- -EINTR
abbrev pub e_intr : ℤ
e_intr = negsuc 3
