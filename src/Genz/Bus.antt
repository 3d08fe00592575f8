-- ===== src/Genz/Bus.antt =====
-- The bus of kernel/genz/genz_bus.c. The kernel's answers are arguments: those of `class_register`,
-- `bus_register` and `device_add`, and whether an allocation succeeds.
pub mod Lifecycle
use fame_z.Base.{
  Bool, Cmd, List, Option, and_then, codes, e_already, e_nomem, false, if◌then◌else◌, is_zero, none,
  ok, pos, some, true, ℕ, ℤ, ◌==◌,
}
use fame_z.Genz.Class.{Registry, genz_classes_destroy, genz_classes_init}

-- Boolean: every driver matches.
abbrev genz_match : ℕ → ℕ → ℤ
genz_match dev drv = pos 1

abbrev genz_num_vf : ℕ → ℤ
genz_num_vf dev = pos 1

abbrev genz_dev_init : ℕ → ℤ
genz_dev_init dev = pos 0

-- A Gen-Z device, by its address, with the format of its name.
pub record GenzDevice : Type 0 where
  pub address : ℕ
  pub namefmt : List ℕ

-- The new device behind the customization, or NULL; `address` is what `kzalloc` returns, 0 for
-- NULL.
pub alloc_genzdev : (GenzDevice → GenzDevice) → List ℕ → (address : ℕ) → Option GenzDevice
alloc_genzdev customize_cb namefmt address =
    if address == 0
    then none
    else some (customize_cb (record { address = address; namefmt = namefmt }))

pub register_genzdev : ℕ → Cmd Registry ℤ
register_genzdev genz_dev s = elim s.the_one [
  | some other ↦ ok e_already s
  | none ↦ ok (pos 0) (record s { the_one = some genz_dev })
]

pub unregister_genzdev : ℕ → Registry → Registry
unregister_genzdev genz_dev s = elim s.the_one [
  | none ↦ s
  | some other ↦ if other == genz_dev then record s { the_one = none } else s
]

abbrev genz_device_customize : GenzDevice → GenzDevice
genz_device_customize d = d

pub genz_init_one : (address : ℕ) → Cmd Registry ℤ
genz_init_one address s = elim (alloc_genzdev genz_device_customize (codes "genz%02d") address) [
  | none ↦ ok e_nomem s
  | some d ↦ register_genzdev d.address s
]

pub genz_bus_exit : Cmd Registry (Unit {0})
genz_bus_exit s = genz_classes_destroy (record s { bus = false })

-- The root device of the first bus.
pub add_root : Bool → ℤ → Cmd Registry ℤ
add_root false ret s = ok (pos 0) s
add_root true ret s = elim (is_zero ret) [
  | true ↦ ok ret (record s { dev_root = true })
  | false ↦ and_then (genz_bus_exit s) λ _ s'. ok ret s'
]

-- Behind the classes: the bus, or the classes go again.
pub add_bus : Bool → (bus_register device_add : ℤ) → Cmd Registry ℤ
add_bus auto0 bus_register device_add s = elim (is_zero bus_register) [
  | false ↦ and_then (genz_classes_destroy s) λ _ s'. ok bus_register s'
  | true ↦ add_root auto0 device_add (record s { bus = true })
]

pub genz_bus_init :
    (auto0 : Bool) → (class_register : ℕ → ℤ) → (bus_register device_add : ℤ) → Cmd Registry ℤ
genz_bus_init auto0 class_register bus_register device_add s =
    and_then (genz_classes_init class_register s) λ ret s1. elim (is_zero ret) [
      | false ↦ ok ret s1
      | true ↦ add_bus auto0 bus_register device_add s1
    ]
