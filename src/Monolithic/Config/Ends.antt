-- ===== src/Monolithic/Config/Ends.antt =====
-- How the creation of a configuration can end.
-- No driver has the device: no mapping, no driver data, no vector table.
use fame_z.Base.{false, none, pos, some, true, ℕ, ◌%◌, ◌*◌, ◌+◌, ◌-◌, ◌<◌, ◌^◌, ◌≡◌, ◌≢◌, ◌⊎◌}
use fame_z.Monolithic.{Configuration, MonoGlobals}
use fame_z.Monolithic.Config.{Card, ConfigPtr, config_err, config_ptr, zeroed_entries}

pub record IsUnclaimed (s : Card) : Type 0 where
  pub regs : s.regs ≡ 0
  pub globals : s.globals ≡ 0
  pub has_drvdata : s.has_drvdata ≡ false
  pub table : s.vectors.irq_private ≡ none

-- The device is let go, with so many mappings and blocks of memory live.
pub record IsLeft (mappings blocks : ℕ) (s' : Card) : Type 0 where
  pub unclaimed : IsUnclaimed s'
  pub mappings_left : s'.mappings ≡ mappings
  pub blocks_left : s'.blocks ≡ blocks

-- The mapping failed: nothing is mapped, and the driver data and their block are still there.
pub record IsStranded (mappings blocks : ℕ) (s' : Card) : Type 0 where
  pub regs : s'.regs ≡ 0
  pub globals : s'.globals ≡ 0
  pub has_drvdata : s'.has_drvdata ≡ true
  pub table : s'.vectors.irq_private ≡ none
  pub mappings_left : s'.mappings ≡ mappings
  pub blocks_left : s'.blocks ≡ blocks + 1

-- What the setup did not touch.
abbrev pub IsCalm : Card → Card → Type 0
IsCalm s s' =
    (s'.vectors.handlers ≡ s.vectors.handlers)
    × (s'.vectors.allocated ≡ s.vectors.allocated)
    × (s'.miscdevs ≡ s.miscdevs)
    × (s'.active ≡ s.active)
    × (s'.enabled ≡ s.enabled)

-- A new configuration, as the setup of the interrupts and the handlers need it.
pub record IsMade (g : MonoGlobals) (c : Configuration) (mappings blocks : ℕ) (s' : Card)
    : Type 0 where
  pub closed : (c.nr_users ≡ pos 0) × (c.writer_support ≡ none)
  pub quiet : (c.legible_slot ≡ none) × (c.legible_slot_lock ≡ 1)
  pub room : c.max_msglen + g.msg_offset ≡ g.slotsize
  pub some_room : 0 < c.max_msglen
  pub server : c.server_id ≡ (g.n_slots + 2 ^ 64 - 1) % 2 ^ 16
  pub slot : c.my_slot ≡ (c.globals + c.my_id * g.slotsize) % 2 ^ 64
  pub free : (s'.slots c.my_slot).msglen ≡ 0
  pub mapped : (c.globals ≡ s'.globals) × (s'.globals ≢ 0) × (s'.regs ≢ 0)
  pub table : s'.vectors.irq_private ≡ some (zeroed_entries g.n_slots)
  pub bound : s'.has_drvdata ≡ true
  pub two_mappings : s'.mappings ≡ mappings + 2
  pub one_block : s'.blocks ≡ blocks + 1

abbrev pub MadeOrLeft : MonoGlobals → Card → ConfigPtr → Card → Type 0
MadeOrLeft g s (config_ptr c) s' = IsMade g c s.mappings s.blocks s' × IsCalm s s'
MadeOrLeft g s (config_err r) s' =
    (r ≢ pos 0) × (IsLeft s.mappings s.blocks s' ⊎ IsStranded s.mappings s.blocks s') × IsCalm s s'
