-- ===== src/Monolithic/Probe.antt =====
-- The PCI driver of kernel/famez/monolithic/famez_config.c: probe and removal of one device.
pub mod Undo
pub mod Live
pub mod Outcome
pub mod Removal
pub mod Leaks
use fame_z.Base.{
  Bool, Cmd, List, Option, [], and_then, bytes_eq, codes, e_already, e_io, e_nodev, eq_ℤ, false,
  fault, if◌then◌else◌, is_neg, is_pos, is_zero, length, none, not, ok, pos, some, true, ℕ, ℤ, ◌++◌,
  ◌==◌, ◌||◌, ◌∷◌,
}
use fame_z.Base.Text.{show_nat}
use fame_z.Famez.Vectors.{IrqAnswers, Vectors}
use fame_z.Monolithic.{Configuration, Slept, Station}
use fame_z.Monolithic.Config.{
  Card, ConfigAnswers, ConfigPtr, config_err, config_ptr, create_config, destroy_config,
}
use fame_z.Monolithic.Messages.{famez_sendmail}
use fame_z.Monolithic.Misc.{MiscAnswers, famez_bridge_setup, famez_bridge_teardown}
use fame_z.Monolithic.Vectors.{famez_msix_setup, famez_msix_teardown}

-- What the kernel and the device answer to one probe.
pub record MonoAnswers : Type 0 where
  pub enable_device : ℤ
  pub revision : ℕ
  pub msix_cap : ℕ
  pub resource_start : ℕ
  pub config : ConfigAnswers
  pub irqs : IrqAnswers
  pub misc : MiscAnswers
  pub jiffies : ℕ

-- Whether a location is in the list of active devices.
unfoldable pub is_active : List ℕ → List (List ℕ) → Bool
is_active cardloc [] = false
is_active cardloc (x ∷ xs) = if bytes_eq cardloc x then true else is_active cardloc xs

-- "Client %d is ready"
unfoldable pub imalive : (my_id : ℕ) → List ℕ
imalive my_id = codes "Client " ++ show_nat my_id ++ codes " is ready"

-- The machine that the first message is sent on.
pub station_of : MonoAnswers → Configuration → Card → Station
station_of a c s = record {
  config = record c { msix_entries = s.vectors.irq_private };
  bar2 = a.config.bar2;
  slots = s.slots;
  jiffies = a.jiffies;
  doorbells = [];
  wakeups = 0;
}

-- A step on the vectors of a device.
pub on_vectors : {A : Type 0} → Cmd Vectors A → Cmd Card A
on_vectors run s = elim (run s.vectors) [
  | fault f ↦ fault f
  | ok r v ↦ ok r (record s { vectors = v })
]

-- err_pci_disable_device
pub disable_device : ℤ → Option Configuration → Cmd Card ℤ
disable_device ret c s = ok ret (destroy_config c (record s { enabled = false }))

-- The answer of the send: all of the text, or an error.
abbrev pub ready_result : ℤ → ℕ → ℤ
ready_result ret n = if is_pos ret then (if eq_ℤ ret (pos n) then pos 0 else e_io) else ret

module _ (a : MonoAnswers) where
  -- err_MSIX_teardown
  pub undo_msix : ℤ → Configuration → Cmd Card ℤ
  undo_msix ret c s =
      and_then (on_vectors (famez_msix_teardown a.config.bar2.n_slots) s)
        λ _ s'. disable_device ret (some c) s'

  -- err_bridge_teardown
  pub undo_bridge : ℤ → Configuration → Cmd Card ℤ
  undo_bridge ret c s = and_then (famez_bridge_teardown s) λ _ s'. undo_msix ret c s'

module _ (hz : ℕ) (usleep : Station → Slept) (a : MonoAnswers) (cardloc : List ℕ) where
  -- The message to the server; whatever the send answers, the device stays as it is.
  pub tell_server : Configuration → Cmd Card ℤ
  tell_server c s =
      let text = imalive c.my_id in
      elim (famez_sendmail hz usleep c.server_id text (length text) (station_of a c s)) [
        | fault f ↦ fault f
        | ok r h ↦ ok (ready_result r (length text)) (record s { slots = h.slots })
      ]

  -- The list of active devices.
  pub activate : Configuration → Cmd Card ℤ
  activate c s =
      if is_active cardloc s.active
      then undo_bridge a e_already c s
      else tell_server c (record s { active = s.active ++ cardloc ∷ [] })

  -- Behind the setup of the interrupts.
  pub add_bridge : Configuration → Cmd Card ℤ
  add_bridge c s =
      and_then (famez_bridge_setup a.misc a.config.devfn s)
        λ ret s'. if is_zero ret then activate c s' else undo_msix a ret c s'

  -- Behind the creation of the configuration.
  pub add_msix : ConfigPtr → Cmd Card ℤ
  add_msix (config_err ret) s = disable_device ret none s
  add_msix (config_ptr c) s =
      and_then (on_vectors (famez_msix_setup a.irqs a.config.bar2.n_slots) s)
        λ ret s'. if is_zero ret then add_bridge c s' else disable_device ret (some c) s'

  pub famez_probe : Cmd Card ℤ
  famez_probe s =
      if s.has_drvdata
      then ok e_already s
      else (if is_neg a.enable_device
          then ok a.enable_device s
          else (let s1 = record s { enabled = true } in
              if not (a.revision == 1) || a.msix_cap == 0 || a.resource_start == 0
              then disable_device e_nodev none s1
              else and_then (create_config a.config s1) add_msix))

-- `list_for_each_entry_safe`: each entry with the location goes.
pub deactivate : List ℕ → List (List ℕ) → List (List ℕ)
deactivate cardloc [] = []
deactivate cardloc (x ∷ xs) =
    let rest = deactivate cardloc xs in if bytes_eq x cardloc then rest else x ∷ rest

-- The configuration is the driver data of the device, and `n_slots` stands in its globals.
pub famez_remove : Option Configuration → (n_slots : ℕ) → List ℕ → Cmd Card (Unit {0})
famez_remove none n_slots cardloc s = ok tt s
famez_remove (some c) n_slots cardloc s = and_then (famez_bridge_teardown s) λ _ s1.
    and_then (on_vectors (famez_msix_teardown n_slots) s1) λ _ s2. ok tt (
      destroy_config (some c)
        (record s2 { enabled = false; active = deactivate cardloc s2.active }))
