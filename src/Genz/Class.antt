-- ===== src/Genz/Class.antt =====
-- The device classes of kernel/genz/genz_class.c. `class_register` is the kernel's: its answer for
-- each index is an argument.
pub mod Unwind
use fame_z.Base.{
  Bool, Cmd, List, Option, [], codes, drop, false, fault, if◌then◌else◌, is_zero, leb, length, ltb,
  none, ok, out_of_bounds, pos, some, suc, true, zero, ℕ, ℤ, ◌&&◌, ◌+◌, ◌-◌, ◌==◌, ◌∷◌,
}

-- `genz_classes`: the names; the empty entry ends the loops.
abbrev genz_classes : List (Option (List ℕ))
genz_classes =
    some (codes "RESERVED")
    ∷ some (codes "genz_memory_p2p")
    ∷ some (codes "genz_memory_explicit")
    ∷ some (codes "genz_switch_integrated")
    ∷ some (codes "genz_switch_enclosure")
    ∷ some (codes "genz_switch_fabric")
    ∷ some (codes "genz_processor")
    ∷ some (codes "genz_processor_nb")
    ∷ some (codes "genz_accelerator_nb_nc")
    ∷ some (codes "genz_accelerator_nb")
    ∷ some (codes "genz_accelerator_nc")
    ∷ some (codes "genz_accelerator")
    ∷ some (codes "genz_io_nb_nc")
    ∷ some (codes "genz_io_nb")
    ∷ some (codes "genz_io_nc")
    ∷ some (codes "genz_io")
    ∷ some (codes "genz_block")
    ∷ some (codes "genz_block_nb")
    ∷ some (codes "genz_tr")
    ∷ some (codes "genz_multiclass")
    ∷ some (codes "genz_bridge_discrete")
    ∷ some (codes "genz_bridge_integrated")
    ∷ none
    ∷ []

abbrev maxindex : ℕ
maxindex = length genz_classes - 2

-- The index of the class, or NULL.
unfoldable pub genz_class_getter : ℕ → Option ℕ
genz_class_getter index = if ltb 0 index && leb index maxindex then some index else none

-- What the subsystem has registered with the kernel: the classes, the last one first; the bus; the
-- root device; and the one Gen-Z device.
pub record Registry : Type 0 where
  pub classes : List ℕ
  pub bus : Bool
  pub dev_root : Bool
  pub the_one : Option ℕ

abbrev pub remove : ℕ → List ℕ → List ℕ
remove i [] = []
remove i (x ∷ xs) = if x == i then xs else x ∷ remove i xs

pub class_unregister : ℕ → Registry → Registry
class_unregister i s = record s { classes = remove i s.classes }

-- `while (--i > 0) class_unregister(i)`
pub unregister_below : ℕ → Registry → Registry
unregister_below zero s = s
unregister_below (suc zero) s = s
unregister_below (suc (suc j)) s = unregister_below (suc j) (class_unregister (suc j) s)

-- The registration loop over the entries from index `i` on.
pub register_from : (ℕ → ℤ) → ℕ → List (Option (List ℕ)) → Cmd Registry ℤ
register_from class_register i [] s = fault out_of_bounds
register_from class_register i (none ∷ names) s = ok (pos 0) s
register_from class_register i (some name ∷ names) s = elim (is_zero (class_register i)) [
  | true ↦ register_from class_register (i + 1) names (record s { classes = i ∷ s.classes })
  | false ↦ ok (class_register i) (unregister_below i s)
]

abbrev pub behind_reserved : List (Option (List ℕ))
behind_reserved = drop 1 genz_classes

pub genz_classes_init : (ℕ → ℤ) → Cmd Registry ℤ
genz_classes_init class_register = register_from class_register 1 behind_reserved

pub destroy_from : ℕ → List (Option (List ℕ)) → Cmd Registry (Unit {0})
destroy_from i [] s = fault out_of_bounds
destroy_from i (none ∷ names) s = ok tt s
destroy_from i (some name ∷ names) s = destroy_from (i + 1) names (class_unregister i s)

pub genz_classes_destroy : Cmd Registry (Unit {0})
genz_classes_destroy = destroy_from 1 behind_reserved
