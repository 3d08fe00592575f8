-- ===== src/Famez/Probe.antt =====
-- The PCI driver of kernel/famez/famez_pci.c: probe and removal of one device, and the list of the
-- adapters. The semaphore is taken and given back within a call; the code ignores a refusal.
pub mod Ends
pub mod Outcome
pub mod Dangling
pub mod Removal
use fame_z.Base.{
  Bool, Cmd, List, Option, [], bytes_eq, codes, e_already, e_io, e_nodev, eq_ℤ, false, fault,
  if◌then◌else◌, is_neg, is_pos, is_zero, length, none, not, ok, pos, some, to_s32, true, ℕ, ℤ,
  ◌++◌, ◌==◌, ◌||◌, ◌∷◌,
}
use fame_z.Famez.Adapter.{
  AdapterPtr, Device, DeviceAnswers, adapter_err, adapter_ptr, famez_adapter_create,
  famez_adapter_destroy,
}
use fame_z.Famez.Outgoing.{famez_create_outgoing, sid_cid_is_peer_id}
use fame_z.Famez.Types.{Adapter, Globals, Host, Kernel}
use fame_z.Famez.Vectors.{IrqAnswers, Vectors, famez_isr_setup, famez_isr_teardown}

-- An element of the list of adapters, by its device and the device's location.
pub record Listed : Type 0 where
  pub pdev : ℕ
  pub cardloc : List ℕ
  pub adapter : Adapter

-- One device, and the list that all share.
pub record Driver : Type 0 where
  pub device : Device
  pub vectors : Vectors
  pub enabled : Bool
  pub adapters : List Listed

-- What the kernel and the device answer to one probe.
pub record ProbeAnswers : Type 0 where
  pub enable_device : ℤ
  pub revision : ℕ
  pub msix_cap : ℕ
  pub resource_start : ℕ
  pub device : DeviceAnswers
  pub irqs : IrqAnswers
  pub jiffies : ℕ
  pub longest : ℕ

abbrev pub get_peer_attributes : List ℕ
get_peer_attributes = codes "Link CTL Peer-Attribute"

-- The test of the list: whether the location is there.
unfoldable pub is_listed : List ℕ → List Listed → Bool
is_listed cardloc [] = false
is_listed cardloc (x ∷ xs) = if bytes_eq cardloc x.cardloc then true else is_listed cardloc xs

-- The machine that the first message is sent on.
unfoldable pub host_of : ProbeAnswers → Adapter → Driver → Host
host_of a adapter s = record {
  adapter = record adapter { irq_private = s.vectors.irq_private };
  bar2 = a.device.bar2;
  slots = s.device.slots;
  jiffies = a.jiffies;
  longest = a.longest;
  doorbells = [];
  wakeups = 0;
}

-- err_pci_disable_device
pub disable : ℤ → Option Adapter → Cmd Driver ℤ
disable ret adapter s =
    ok ret (record s { enabled = false; device = famez_adapter_destroy adapter s.device })

-- err_MSIX_teardown
pub tear_down : ProbeAnswers → ℤ → Adapter → Cmd Driver ℤ
tear_down a ret adapter s = elim (famez_isr_teardown a.device.bar2.n_clients s.vectors) [
  | ok u v ↦ disable ret (some (record adapter { irq_private = none })) (record s { vectors = v })
  | fault f ↦ fault f
]

-- The answer of the send: all of the message, or an error.
abbrev pub handshake_result : ℤ → ℤ
handshake_result ret =
    if is_pos ret
    then (if eq_ℤ ret (pos (length get_peer_attributes)) then pos 0 else e_io)
    else ret

module _ (k : Kernel) (a : ProbeAnswers) (pdev : ℕ) (cardloc : List ℕ) where
  -- The first message to the server, from an adapter that is on the list.
  pub greet : Adapter → Cmd Driver ℤ
  greet adapter s =
      elim (famez_create_outgoing k false (to_s32 a.device.bar2.server_id) sid_cid_is_peer_id
        get_peer_attributes (length get_peer_attributes) (host_of a adapter s)) [
          | fault f ↦ fault f
          | ok r h ↦
              let s1 = record s { device = record (s.device) { slots = h.slots } } in
              if is_zero (handshake_result r)
              then ok (pos 0) s1
              else tear_down a (handshake_result r) adapter s1
        ]

  -- Behind the setup of the interrupts.
  pub enlist : Adapter → Cmd Driver ℤ
  enlist adapter s =
      if is_listed cardloc s.adapters
      then tear_down a e_already adapter s
      else greet adapter (record s {
        adapters = s.adapters ++ record { pdev = pdev; cardloc = cardloc; adapter = adapter } ∷ [];
      })

  -- The interrupts of a new adapter.
  pub set_up : Adapter → Cmd Driver ℤ
  set_up adapter s = elim (famez_isr_setup a.irqs a.device.bar2.n_events s.vectors) [
    | fault f ↦ fault f
    | ok r v ↦
        let s1 = record s { vectors = v } in
        if is_zero r then enlist adapter s1 else disable r (some adapter) s1
  ]

  -- Behind the creation of the adapter, if it succeeded.
  unfoldable pub created : AdapterPtr → Cmd Driver ℤ
  created (adapter_err e) s = disable e none s
  created (adapter_ptr adapter) s = set_up adapter s

  -- Behind the test of the device's features.
  pub configure : Cmd Driver ℤ
  configure s = elim (famez_adapter_create a.device pdev s.device) [
    | fault f ↦ fault f
    | ok p d ↦ created p (record s { device = d })
  ]

  pub famez_init_one : Cmd Driver ℤ
  famez_init_one s =
      if s.device.has_drvdata
      then ok e_already s
      else (if is_neg a.enable_device
          then ok a.enable_device s
          else (if not (a.revision == 1) || a.msix_cap == 0 || a.resource_start == 0
              then disable e_nodev none (record s { enabled = true })
              else configure (record s { enabled = true })))

-- `list_for_each_entry_safe`: each element with the location goes.
pub unlist : List ℕ → List Listed → List Listed
unlist cardloc [] = []
unlist cardloc (x ∷ xs) =
    let rest = unlist cardloc xs in if bytes_eq x.cardloc cardloc then rest else x ∷ rest

-- `adapter` is the driver data of the device.
pub famez_remove_one : Option Adapter → Globals → List ℕ → Cmd Driver (Unit {0})
famez_remove_one none bar2 cardloc s = ok tt s
famez_remove_one (some adapter) bar2 cardloc s =
    elim (famez_isr_teardown bar2.n_clients s.vectors) [
      | fault f ↦ fault f
      | ok u v ↦ ok tt (record s {
        vectors = v;
        enabled = false;
        adapters = unlist cardloc s.adapters;
        device = famez_adapter_destroy (some (record adapter { irq_private = none })) s.device;
      })
    ]

-- The answers of `pci_register_driver` go to insmod.
abbrev famez_init : (pci_register_driver : ℤ) → ℤ
famez_init pci_register_driver = pci_register_driver
