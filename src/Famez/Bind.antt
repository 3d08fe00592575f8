-- ===== src/Famez/Bind.antt =====
-- `famez_register` and `famez_deregister` of kernel/famez/famez_register.c, and their one client,
-- the module entry of kernel/famez/fz_bridge.c.
pub mod All
pub mod Numbers
use fame_z.Base.{
  Cmd, List, [], and_then, codes, e_nodev, false, fault, if◌then◌else◌, is_neg, is_zero, ok, pos,
  take, true, ℕ, ℤ, ◌%◌, ◌++◌, ◌+◌, ◌/◌, ◌∷◌,
}
use fame_z.Famez.Adapter.{hex_digit}
use fame_z.Genz.Register.{Bridges, CdevAnswers, genz_cce_discrete_bridge, genz_register_bridge}
use fame_z.Monolithic.Messages.{down_interruptible}

-- A device to bind: its adapter, the device and function number, the answers to its registration,
-- and the adapter's class text.
pub record Binding : Type 0 where
  pub adapter : ℕ
  pub devfn : ℕ
  pub answers : CdevAnswers
  pub base_c_class_str : List ℕ

-- The list of adapters and the bridge devices of the Gen-Z subsystem.
pub record Bound : Type 0 where
  pub done : List Binding
  pub bridges : Bridges

-- "%s_%02x" of the owner's name and `devfn >> 3`, which is below 256.
abbrev pub devname_of : List ℕ → ℕ → List ℕ
devname_of ownername devfn =
    let slot = devfn / 8 in ownername ++ b'_' ∷ hex_digit (slot / 16) ∷ hex_digit (slot % 16) ∷ []

-- The loop over the adapters; `nbindings` counts those that are bound.
pub bind_from : (base_c_class_str ownername : List ℕ) → (nbindings : ℕ) → List Binding → Cmd Bound ℤ
bind_from base_c_class_str ownername nbindings [] s = ok (pos nbindings) s
bind_from base_c_class_str ownername nbindings (b ∷ bs) s =
    elim (genz_register_bridge b.answers (devname_of ownername b.devfn) b.adapter
      genz_cce_discrete_bridge s.bridges) [
        | fault f ↦ fault f
        | ok r bridges ↦ elim (is_zero r) [
          | false ↦ ok r (record s { bridges = bridges })
          | true ↦ bind_from base_c_class_str ownername (nbindings + 1) bs (record {
            done = record b { base_c_class_str = take 32 base_c_class_str } ∷ s.done;
            bridges = bridges;
          })
        ]
      ]

-- `down_interruptible` may be refused.
pub famez_register :
    (down_interruptible : ℤ) → (base_c_class_str ownername : List ℕ) → List Binding → Cmd Bound ℤ
famez_register down_interruptible base_c_class_str ownername adapters s =
    if is_zero down_interruptible
    then bind_from base_c_class_str ownername 0 adapters s
    else ok down_interruptible s

-- It releases nothing.
unfoldable famez_deregister : Cmd Bound ℤ
famez_deregister s = ok (pos 0) s

-- The name of the module of fz_bridge.c.
abbrev famez_bridge : List ℕ
famez_bridge = codes "famez_bridge"

unfoldable fzbridge_init : (down_interruptible : ℤ) → List Binding → Cmd Bound ℤ
fzbridge_init down_interruptible adapters s =
    and_then (famez_register down_interruptible (codes "Bridge") famez_bridge adapters s) λ ret s'.
      if is_neg ret then ok ret s' else (if is_zero ret then ok e_nodev s' else ok (pos 0) s')

unfoldable fzbridge_exit : Cmd Bound (Unit {0})
fzbridge_exit s = and_then (famez_deregister s) λ _ s'. ok tt s'
