-- ===== src/Monolithic/Config.antt =====
-- The configuration of one device, in kernel/famez/monolithic/famez_config.c: the mapping of the
-- BARs, and the creation and destruction of the configuration.
pub mod Ends
pub mod Lifecycle
use fame_z.Base.{
  Bool, Cmd, List, Option, [], and_then, e_inval, e_nomem, false, if◌then◌else◌, is_neg, is_zero,
  leb, none, not, ok, pos, some, suc, true, zero, ℕ, ℤ, ◌%◌, ◌*◌, ◌+◌, ◌-◌, ◌==◌, ◌^◌, ◌∷◌,
}
use fame_z.Famez.Adapter.{iounmap, nodename_text}
use fame_z.Famez.Types.{MsixEntry}
use fame_z.Famez.Vectors.{Vectors}
use fame_z.Monolithic.{Configuration, MonoBuffers, MonoGlobals, MonoSlot, write_msg}

-- One device, and the list of active devices that all share. The fields of the configuration that
-- change while it is set up stand here: the two mappings, the vector table, which is the
-- `irq_private` of `vectors`, and `teardown_lookup` with the name of the misc device. `blocks`
-- counts the live blocks of memory but the table, which is live while its pointer is not NULL.
pub record Card : Type 0 where
  pub regs : ℕ
  pub globals : ℕ
  pub mappings : ℕ
  pub granted : ℕ
  pub released : ℕ
  pub has_drvdata : Bool
  pub blocks : ℕ
  pub enabled : Bool
  pub slots : ℕ → MonoSlot
  pub vectors : Vectors
  pub teardown_lookup : Option (List ℕ)
  pub miscdevs : ℕ
  pub active : List (List ℕ)

-- The kernel's answers, and what the device shows once it is mapped.
pub record ConfigAnswers : Type 0 where
  pub request_regions : ℤ
  pub iomap_regs : ℕ
  pub iomap_globals : ℕ
  pub config_ok : Bool
  pub table_ok : Bool
  pub bar2 : MonoGlobals
  pub iv_position : ℕ
  pub utsname : List ℕ
  pub devfn : ℕ

-- offsetof(famez_mailslot_t, msg)
abbrev pub offset_of_msg : ℕ
offset_of_msg = 64

unfoldable pub monolithic_unmap_bars : Card → Card
monolithic_unmap_bars s = record s {
  regs = 0;
  globals = 0;
  mappings = iounmap s.globals (iounmap s.regs s.mappings);
  released = s.released + 1;
}

pub map_bar2 : ConfigAnswers → Cmd Card ℤ
map_bar2 a s =
    if a.iomap_globals == 0
    then ok e_nomem (monolithic_unmap_bars s)
    else ok (pos 0) (record s { globals = a.iomap_globals; mappings = s.mappings + 1 })

pub monolithic_map_bars : ConfigAnswers → Cmd Card ℤ
monolithic_map_bars a s =
    if is_neg a.request_regions
    then ok a.request_regions s
    else (let s1 = record s { granted = s.granted + 1 } in
        if a.iomap_regs == 0
        then ok e_nomem (monolithic_unmap_bars s1)
        else map_bar2 a (record s1 { regs = a.iomap_regs; mappings = s1.mappings + 1 }))

-- kfree(config->writer_support), if it is there
abbrev free_writer : Option MonoBuffers → ℕ → ℕ
free_writer none blocks = blocks
free_writer (some b) blocks = blocks - 1

-- `none` is a NULL configuration. The pointer to the device is set when it is created.
unfoldable pub destroy_config : Option Configuration → Card → Card
destroy_config none s = s
destroy_config (some c) s =
    let s1 = monolithic_unmap_bars s in
    record s1 {
      has_drvdata = false;
      vectors = record (s1.vectors) { irq_private = none };
      blocks = free_writer c.writer_support s1.blocks - 1;
    }

-- A pointer to a configuration, or an error in its place.
pub data ConfigPtr : Type 0 where
  config_ptr : Configuration → ConfigPtr
  config_err : ℤ → ConfigPtr

-- err_kfree
pub give_config_back : ℤ → Configuration → Cmd Card ConfigPtr
give_config_back ret c s = ok (config_err ret) (destroy_config (some c) s)

-- The configuration behind kzalloc, with its lock.
unfoldable pub new_config : Configuration
new_config = record {
  nr_users = pos 0;
  max_msglen = 0;
  my_id = 0;
  server_id = 0;
  globals = 0;
  my_slot = 0;
  msix_entries = none;
  legible_slot = none;
  legible_slot_lock = 1;
  writer_support = none;
}

-- The table behind kzalloc.
pub zeroed_entries : ℕ → List MsixEntry
zeroed_entries zero = []
zeroed_entries (suc n) = record { vector = 0; entry = 0 } ∷ zeroed_entries n

-- The own slot behind the memset, with its name.
pub named_slot : List ℕ → MonoSlot
named_slot nodename = record {
  nodename = nodename;
  msglen = 0;
  peer_id = 0;
  last_responder = 0;
  msg = λ i. 0;
}

-- The own slot: the id is that of the device, and it is not compared with the number of slots.
pub place_own_slot : ConfigAnswers → Configuration → Cmd Card ConfigPtr
place_own_slot a c s =
    let p = (c.globals + c.my_id * a.bar2.slotsize) % 2 ^ 64 in
    ok (config_ptr (record c { my_slot = p }))
      (record s { slots = write_msg p (named_slot (nodename_text a.utsname a.devfn)) s.slots })

-- Behind the mapping: the checks of the globals, and the table.
pub check_bar2 : ConfigAnswers → Configuration → Cmd Card ConfigPtr
check_bar2 a c s =
    if not (offset_of_msg == a.bar2.msg_offset)
    then give_config_back e_inval c s
    else (if leb a.bar2.slotsize a.bar2.msg_offset
        then give_config_back e_inval c s
        else (let c1 = record c {
          globals = s.globals;
          max_msglen = a.bar2.slotsize - a.bar2.msg_offset;
          my_id = a.iv_position % 2 ^ 16;
          server_id = (a.bar2.n_slots + 2 ^ 64 - 1) % 2 ^ 16;
        } in
            if not a.table_ok
            then give_config_back e_nomem c1 s
            else place_own_slot a c1 (record s {
              vectors = record (s.vectors) { irq_private = some (zeroed_entries a.bar2.n_slots) };
            })))

-- When the mapping fails, the error is returned as it is.
pub create_config : ConfigAnswers → Cmd Card ConfigPtr
create_config a s =
    if not a.config_ok
    then ok (config_err e_nomem) s
    else and_then
        (monolithic_map_bars a (record s {
          has_drvdata = true;
          blocks = s.blocks + 1;
          regs = 0;
          globals = 0;
          teardown_lookup = none;
          vectors = record (s.vectors) { irq_private = none };
        }))
        (λ ret s1. if is_zero ret then check_bar2 a new_config s1 else ok (config_err ret) s1)
