-- ===== src/Famez/Adapter/Destruction.antt =====
-- What an adapter is when it is built, and that its destruction gives everything back.
use fame_z.Base.{Returns, arith, false, none, pos, refl, some, true, ℤ, ◌+◌, ◌<◌, ◌==◌, ◌≡◌, ◌≢◌}
use fame_z.Famez.Adapter.{
  AdapterPtr, Device, adapter_err, adapter_ptr, famez_adapter_destroy, give_back, iounmap,
  unmap_bars,
}
use fame_z.Famez.Slots.{calculate_mailslot}
use fame_z.Famez.Types.{Adapter, Globals}
use fame_z.Genz.Register.{genz_core_structure_destroy}

-- The device before the driver has it.
pub record IsUnbound (s : Device) : Type 0 where
  pub regs : s.regs ≡ 0
  pub globals : s.globals ≡ 0
  pub has_drvdata : s.has_drvdata ≡ false

-- A new adapter, as the handlers need it: no user, no incoming slot, the lock free, room for a
-- message, and an own slot of its id that is free.
pub record IsFresh (g : Globals) (a : Adapter) (s : Device) : Type 0 where
  pub closed : (a.nr_users ≡ pos 0) × (a.outgoing ≡ none)
  pub quiet : (a.incoming_slot ≡ none) × (a.incoming_slot_lock ≡ false)
  pub room : a.max_buflen + g.buf_offset ≡ g.slotsize
  pub some_room : 0 < a.max_buflen
  pub slot : calculate_mailslot a.globals g a.my_id ≡ some a.my_slot
  pub free : (s.slots a.my_slot).buflen ≡ 0
  pub mapped : (a.globals ≡ s.globals) × (s.globals ≢ 0) × (s.regs ≢ 0)
  pub bound : s.has_drvdata ≡ true

-- Nothing is left: no mapping, no memory, no driver data.
pub record IsGone (s s' : Device) : Type 0 where
  pub unbound : IsUnbound s'
  pub mappings : s'.mappings ≡ s.mappings
  pub blocks : s'.blocks ≡ s.blocks
  pub slots : s'.slots ≡ s.slots

-- The adapter as it is built: nobody uses it, and it owns a core structure with a table.
pub record IsBlank (a : Adapter) : Type 0 where
  pub some_pdev : a.pdev ≢ 0
  pub table : a.core.comp_dest_table ≡ true
  pub closed : (a.nr_users ≡ pos 0) × (a.outgoing ≡ none)
  pub quiet : (a.incoming_slot ≡ none) × (a.incoming_slot_lock ≡ false)
  pub no_irqs : a.irq_private ≡ none

abbrev pub FreshOrGone : Globals → Device → AdapterPtr → Device → Type 0
FreshOrGone g s (adapter_ptr a) s' =
    IsFresh g a s' × IsBlank a × (s'.mappings ≡ s.mappings + 2) × (s'.blocks ≡ s.blocks + 3)
FreshOrGone g s (adapter_err r) s' = (r ≢ pos 0) × IsGone s s'

-- What the construction holds beyond `s`: three blocks, and the mappings that are noted.
pub record Holds3 (s t : Device) : Type 0 where
  pub blocks : t.blocks ≡ s.blocks + 3
  pub mappings : iounmap t.globals (iounmap t.regs t.mappings) ≡ s.mappings
  pub slots : t.slots ≡ s.slots

-- The driver has let the device go.
pub record IsReleased (s s' : Device) : Type 0 where
  pub unbound : IsUnbound s'
  pub mappings : s'.mappings ≡ s.mappings
  pub blocks : s'.blocks ≡ s.blocks

-- The destruction of an adapter gives everything back.
pub famez_adapter_destroy-IsReleased :
    (a : Adapter) (s t : Device)
    → IsBlank a
    → t.blocks ≡ s.blocks + 3
    → iounmap t.globals (iounmap t.regs t.mappings) ≡ s.mappings
    → IsReleased s (famez_adapter_destroy (some a) t)
unfolding famez_adapter_destroy unmap_bars genz_core_structure_destroy
famez_adapter_destroy-IsReleased a s t b blocks mappings =
    let there : (a.pdev == 0) ≡ false = ground (arith, b.some_pdev) in
    rw there (record {
      unbound = record { regs = refl; globals = refl; has_drvdata = refl };
      mappings = mappings;
      blocks = ground (arith, b.table, b.closed.1, b.no_irqs);
    })

module _ (g : Globals) (s : Device) where
  pub give_back-FreshOrGone :
      (ret : ℤ) (a : Adapter) (t : Device)
      → ret ≢ pos 0
      → IsBlank a
      → Holds3 s t
      → Returns (FreshOrGone g s) (give_back ret a t)
  unfolding give_back famez_adapter_destroy unmap_bars genz_core_structure_destroy
  give_back-FreshOrGone ret a t bad b h =
      let there : (a.pdev == 0) ≡ false = ground (arith, b.some_pdev) in
      rw there (
        bad,
        record {
          unbound = record { regs = refl; globals = refl; has_drvdata = refl };
          mappings = h.mappings;
          blocks = ground (arith, b.table, b.closed.1, b.no_irqs, h.blocks);
          slots = h.slots;
        },
      )
