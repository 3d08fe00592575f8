-- ===== src/Monolithic/Misc.antt =====
-- `famez_bridge_setup` and `famez_bridge_teardown` of kernel/famez/monolithic/famez_bridge.c: the
-- misc device of one configuration.
use fame_z.Base.{
  Bool, Cmd, List, codes, e_nomem, fault, if◌then◌else◌, is_zero, none, not, null_pointer, ok, some,
  ℕ, ℤ, ◌%◌, ◌++◌, ◌+◌, ◌-◌, ◌/◌, ◌∷◌,
}
use fame_z.Famez.Adapter.{hex_digit}
use fame_z.Monolithic.Config.{Card}

-- Two allocations, and the registration.
pub record MiscAnswers : Type 0 where
  pub lookup_ok : Bool
  pub name_ok : Bool
  pub misc_register : ℤ

-- "famez%02x_bridge" of the device's slot
pub misc_name : (devfn : ℕ) → List ℕ
misc_name devfn =
    let slot = devfn / 8 % 32 in
    codes "famez" ++ hex_digit (slot / 16) ∷ hex_digit (slot % 16) ∷ codes "_bridge"

-- The structure and its name are two blocks.
unfoldable pub famez_bridge_setup : MiscAnswers → (devfn : ℕ) → Cmd Card ℤ
famez_bridge_setup a devfn s =
    if not a.lookup_ok
    then ok e_nomem s
    else (if not a.name_ok
        then ok e_nomem s
        else ok a.misc_register (record s {
          blocks = s.blocks + 2;
          teardown_lookup = some (misc_name devfn);
          miscdevs = if is_zero a.misc_register then s.miscdevs + 1 else s.miscdevs;
        }))

unfoldable pub famez_bridge_teardown : Cmd Card (Unit {0})
famez_bridge_teardown s = elim s.teardown_lookup [
  | none ↦ fault null_pointer
  | some name ↦
      ok tt (record s { miscdevs = s.miscdevs - 1; blocks = s.blocks - 2; teardown_lookup = none })
]
