-- ===== src/Genz/Register.antt =====
-- Core structures and bridge devices of kernel/genz/genz_device.c.
pub mod Outcome
pub mod Minors
use fame_z.Base.{
  Bool, Cmd, List, Option, [], deadlock, e_dom, e_nomem, false, fault, if◌then◌else◌, is_zero, leb,
  ltb, none, not, ok, pos, some, suc, true, zero, ℕ, ℤ, ◌%◌, ◌+◌, ◌-◌, ◌==◌, ◌||◌, ◌∷◌,
}
use fame_z.Famez.Types.{CoreStructure}
use fame_z.Genz.Class.{genz_class_getter}

-- The bits of `alloc`: whether to allocate the component destination table.
abbrev alloc_comp_dest_table : ℕ → Bool
alloc_comp_dest_table alloc = alloc % 2 == 1

abbrev pub genz_core_structure_alloc_all : ℕ
genz_core_structure_alloc_all = 3

-- A core structure out of zeroed memory.
abbrev pub zeroed_core : Bool → CoreStructure
zeroed_core table = record {
  cce = 0;
  base_c_class_str = [];
  cid0 = pos 0;
  sid0 = pos 0;
  pmcid = pos 0;
  pfmcid = pos 0;
  pfmsid = pos 0;
  sfmcid = pos 0;
  sfmsid = pos 0;
  comp_dest_table = table;
}

-- The blocks of memory that are allocated; `core_ok` and `table_ok` say whether `kzalloc` succeeds.
unfoldable pub genz_core_structure_create :
    (alloc : ℕ) → (core_ok table_ok : Bool) → (blocks : ℕ) → Option CoreStructure × ℕ
genz_core_structure_create alloc core_ok table_ok blocks =
    if not core_ok
    then (none, blocks)
    else (if alloc_comp_dest_table alloc
        then (if table_ok then (some (zeroed_core true), blocks + 2) else (none, blocks + 1 - 1))
        else (some (zeroed_core false), blocks + 1))

unfoldable pub genz_core_structure_destroy : CoreStructure → (blocks : ℕ) → ℕ
genz_core_structure_destroy core blocks =
    if core.comp_dest_table then blocks - 1 - 1 else blocks - 1

abbrev pub genz_minorbits : ℕ
genz_minorbits = 14

abbrev pub genz_cce_discrete_bridge : ℕ
genz_cce_discrete_bridge = 20

abbrev pub genz_cce_integrated_bridge : ℕ
genz_cce_integrated_bridge = 21

-- `struct genz_char_device`, by its address.
pub record CharDevice : Type 0 where
  pub address : ℕ
  pub major : ℕ
  pub minor : ℕ
  pub name : List ℕ
  pub genz_class : Option ℕ
  pub file_private_data : ℕ

-- The static data, and what the kernel has: the character devices it can open, the device nodes by
-- name, and the wrappers that were freed.
pub record Bridges : Type 0 where
  pub bridge_minor_bitmap : ℕ → Bool
  pub bridge_major : ℕ
  pub bridge_mutex : Bool
  pub cdevs : List CharDevice
  pub nodes : List (List ℕ)
  pub freed : List ℕ

-- The kernel's answers to one registration: 0 or an error, and the address of the new wrapper, 0
-- for NULL.
pub record CdevAnswers : Type 0 where
  pub register_chrdev_region : ℤ
  pub alloc_chrdev_region : ℤ
  pub new_major : ℕ
  pub wrapper : ℕ
  pub kobject_set_name : ℤ
  pub cdev_add : ℤ
  pub device_create : ℤ

-- The first clear bit from `i` on, `rounds` of them, or where the search ended.
pub find_first_zero_bit : (ℕ → Bool) → (rounds i : ℕ) → ℕ
find_first_zero_bit bitmap zero i = i
find_first_zero_bit bitmap (suc rounds) i = elim (bitmap i) [
  | false ↦ i
  | true ↦ find_first_zero_bit bitmap rounds (i + 1)
]

-- `up_and_out`: after an error the wrapper is freed, if there is one.
pub up_and_out : ℤ → (wrapper : ℕ) → Cmd Bridges ℤ
up_and_out ret wrapper s = ok ret (record s {
  bridge_mutex = false;
  freed = if is_zero ret || wrapper == 0 then s.freed else wrapper ∷ s.freed;
})

abbrev pub set_bit : ℕ → (ℕ → Bool) → ℕ → Bool
set_bit minor bitmap i = if i == minor then true else bitmap i

module _ (a : CdevAnswers) (devname : List ℕ) (file_private_data : ℕ) where
  -- The device that is added to the kernel.
  abbrev pub wrapped : ℕ → ℕ → CharDevice
  wrapped major minor = record {
    address = a.wrapper;
    major = major;
    minor = minor;
    name = devname;
    genz_class = genz_class_getter genz_cce_discrete_bridge;
    file_private_data = file_private_data;
  }

  -- Behind the allocation of the wrapper.
  pub add_device : ℕ → Cmd Bridges ℤ
  add_device minor s =
      if not (is_zero a.kobject_set_name)
      then up_and_out a.kobject_set_name a.wrapper s
      else (if not (is_zero a.cdev_add)
          then up_and_out a.cdev_add a.wrapper s
          else (let s1 = record s { cdevs = wrapped s.bridge_major minor ∷ s.cdevs } in
              if is_zero a.device_create
              then up_and_out (pos 0) a.wrapper (record s1 { nodes = devname ∷ s.nodes })
              else up_and_out a.device_create a.wrapper s1))

  -- Behind the registration of the region.
  pub take_minor : ℕ → Cmd Bridges ℤ
  take_minor minor s =
      let s1 = record s { bridge_minor_bitmap = set_bit minor s.bridge_minor_bitmap } in
      if a.wrapper == 0 then up_and_out e_nomem 0 s1 else add_device minor s1

  -- The region of one minor number, of the major number or of a new one.
  pub take_region : ℕ → Cmd Bridges ℤ
  take_region minor s =
      if s.bridge_major == 0
      then (if is_zero a.alloc_chrdev_region
          then take_minor minor (record s { bridge_major = a.new_major })
          else up_and_out a.alloc_chrdev_region 0 s)
      else (if is_zero a.register_chrdev_region
          then take_minor minor s
          else up_and_out a.register_chrdev_region 0 s)

  pub genz_register_bridge : (cce : ℕ) → Cmd Bridges ℤ
  genz_register_bridge cce s =
      if ltb cce genz_cce_discrete_bridge || ltb genz_cce_integrated_bridge cce
      then ok e_dom s
      else (if s.bridge_mutex
          then fault deadlock
          else (let s1 = record s { bridge_mutex = true } in
              let minor = find_first_zero_bit s.bridge_minor_bitmap genz_minorbits 0 in
              if leb genz_minorbits minor then up_and_out e_dom 0 s1 else take_region minor s1))
