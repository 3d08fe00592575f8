-- ===== src/Famez/Adapter.antt =====
-- `famez_adapter_create` and `famez_adapter_destroy` of kernel/famez/famez_adapter.c: the mapping
-- of the two BARs, the check of the server's globals, and the own mail slot.
pub mod Destruction
pub mod Mapping
pub mod Lifecycle
use fame_z.Base.{
  Bool, Cmd, List, Option, [], and_then, codes, e_inval, e_nomem, false, if◌then◌else◌, is_neg,
  is_zero, leb, ltb, none, not, ok, pos, some, take, true, ℕ, ℤ, ◌%◌, ◌++◌, ◌+◌, ◌-◌, ◌/◌, ◌==◌,
  ◌^◌, ◌∷◌,
}
use fame_z.Famez.Slots.{calculate_mailslot}
use fame_z.Famez.Types.{Adapter, CoreStructure, Globals, Mailslot, write_slot}
use fame_z.Genz.Register.{
  genz_core_structure_alloc_all, genz_core_structure_create, genz_core_structure_destroy,
}

-- What the device holds of the kernel: the two mappings by address, 0 for NULL, and how many
-- mappings are live; how often its regions were granted and released; whether it has driver data;
-- and the live blocks of memory. `slots` is the memory of BAR 2.
pub record Device : Type 0 where
  pub regs : ℕ
  pub globals : ℕ
  pub mappings : ℕ
  pub granted : ℕ
  pub released : ℕ
  pub has_drvdata : Bool
  pub blocks : ℕ
  pub slots : ℕ → Mailslot

-- The kernel's answers: `pci_request_regions`, the two `pci_iomap`, the three allocations; and what
-- the device shows once it is mapped: the globals and the IVPosition register.
pub record DeviceAnswers : Type 0 where
  pub request_regions : ℤ
  pub iomap_regs : ℕ
  pub iomap_globals : ℕ
  pub adapter_ok : Bool
  pub core_ok : Bool
  pub table_ok : Bool
  pub bar2 : Globals
  pub iv_position : ℕ
  pub utsname : List ℕ
  pub devfn : ℕ

-- offsetof(struct famez_mailslot, buf)
abbrev pub offset_of_buf : ℕ
offset_of_buf = 128

-- pci_iounmap, if there is a mapping
abbrev pub iounmap : ℕ → ℕ → ℕ
iounmap address mappings = if address == 0 then mappings else mappings - 1

unfoldable pub unmap_bars : Device → Device
unmap_bars s = record s {
  regs = 0;
  globals = 0;
  mappings = iounmap s.globals (iounmap s.regs s.mappings);
  released = s.released + 1;
}

pub map_globals : DeviceAnswers → Cmd Device ℤ
map_globals a s =
    if a.iomap_globals == 0
    then ok e_nomem (unmap_bars s)
    else ok (pos 0) (record s { globals = a.iomap_globals; mappings = s.mappings + 1 })

pub map_bars : DeviceAnswers → Cmd Device ℤ
map_bars a s =
    if is_neg a.request_regions
    then ok a.request_regions s
    else (let s1 = record s { granted = s.granted + 1 } in
        if a.iomap_regs == 0
        then ok e_nomem (unmap_bars s1)
        else map_globals a (record s1 { regs = a.iomap_regs; mappings = s1.mappings + 1 }))

-- kfree of an optional block
abbrev free_some {ℓ} : {A : Type ℓ} → Option A → ℕ → ℕ
free_some none blocks = blocks
free_some (some x) blocks = blocks - 1

-- `none` is a NULL adapter.
unfoldable pub famez_adapter_destroy : Option Adapter → Device → Device
famez_adapter_destroy none s = s
famez_adapter_destroy (some a) s =
    if a.pdev == 0
    then s
    else (let s1 = unmap_bars s in
        record s1 {
          has_drvdata = false;
          blocks =
              genz_core_structure_destroy a.core
                (free_some a.outgoing (free_some a.irq_private s1.blocks))
              - 1;
        })

abbrev pub hex_digit : ℕ → ℕ
hex_digit n = if ltb n 10 then 48 + n else 87 + n

-- "%s.%02x" of the node's name and the slot of the device, cut to 30 characters.
unfoldable pub nodename_text : List ℕ → ℕ → List ℕ
nodename_text utsname devfn =
    let slot = devfn / 8 % 32 in
    take 30 (utsname ++ b'.' ∷ hex_digit (slot / 16) ∷ hex_digit (slot % 16) ∷ [])

-- The slot behind the memset, with its name.
pub fresh_slot : List ℕ → Mailslot
fresh_slot nodename = record {
  nodename = nodename;
  buflen = 0;
  peer_id = 0;
  last_responder = 0;
  peer_sid = 0;
  peer_cid = 0;
  buf = λ i. 0;
}

-- The adapter behind kzalloc, with its core structure and the pointer to its device.
pub new_adapter : (pdev : ℕ) → CoreStructure → Adapter
new_adapter pdev core = record {
  nr_users = pos 0;
  pdev = pdev;
  max_buflen = 0;
  my_id = 0;
  globals = 0;
  my_slot = 0;
  irq_private = none;
  incoming_slot = none;
  incoming_slot_lock = false;
  outgoing = none;
  core = record core { base_c_class_str = codes "FAME-Z Adapter" };
}

-- A pointer to an adapter, or an error in its place.
pub data AdapterPtr : Type 0 where
  adapter_ptr : Adapter → AdapterPtr
  adapter_err : ℤ → AdapterPtr

-- err_kfree
pub give_back : ℤ → Adapter → Cmd Device AdapterPtr
give_back ret adapter s = ok (adapter_err ret) (famez_adapter_destroy (some adapter) s)

-- Behind the checks of the globals.
pub own_slot_of : DeviceAnswers → Adapter → Cmd Device AdapterPtr
own_slot_of a adapter s = elim (calculate_mailslot adapter.globals a.bar2 adapter.my_id) [
  | none ↦ give_back e_inval adapter s
  | some p ↦
      ok (adapter_ptr (record adapter { my_slot = p }))
        (record s { slots = write_slot p (fresh_slot (nodename_text a.utsname a.devfn)) s.slots })
]

-- Behind the mapping.
pub check_globals : DeviceAnswers → Adapter → Cmd Device AdapterPtr
check_globals a adapter s =
    if not (offset_of_buf == a.bar2.buf_offset)
    then give_back e_inval adapter s
    else (if leb a.bar2.slotsize a.bar2.buf_offset
        then give_back e_inval adapter s
        else own_slot_of a
            (record adapter {
              globals = s.globals;
              max_buflen = a.bar2.slotsize - a.bar2.buf_offset;
              my_id = a.iv_position % 2 ^ 16;
            })
            s)

-- Behind the core structure.
pub build : DeviceAnswers → Adapter → Cmd Device AdapterPtr
build a adapter s =
    and_then (map_bars a s)
      λ ret s1. if is_zero ret then check_globals a adapter s1 else give_back ret adapter s1

-- Behind the allocation of the core structure; the number is that of the live blocks.
pub with_core : DeviceAnswers → (pdev : ℕ) → Option CoreStructure × ℕ → Cmd Device AdapterPtr
with_core a pdev (none, blocks) s = ok (adapter_err e_nomem) (record s { blocks = blocks - 1 })
with_core a pdev (some c, blocks) s =
    build a (new_adapter pdev c) (record s { blocks = blocks; has_drvdata = true })

pub famez_adapter_create : DeviceAnswers → (pdev : ℕ) → Cmd Device AdapterPtr
famez_adapter_create a pdev s =
    if not a.adapter_ok
    then ok (adapter_err e_nomem) s
    else with_core a pdev
        (genz_core_structure_create genz_core_structure_alloc_all a.core_ok a.table_ok
          (s.blocks + 1))
        s
