-- ===== src/Examples/Probes.antt =====
-- A device from its probe to its removal: the interrupts, the adapter and the list.
use fame_z.Base.{
  List, Returns, [], arith, codes, e_2big, false, length, none, ok, pos, refl, some, to_s32, true,
  ℕ, ◌+◌, ◌∷◌, ◌≡◌,
}
use fame_z.Examples.Hosts.{adapter, entries, in_time, kernel, layout, slot_with}
use fame_z.Famez.Adapter.{Device, DeviceAnswers, famez_adapter_create}
use fame_z.Famez.Adapter.Destruction.{FreshOrGone, IsUnbound}
use fame_z.Famez.Adapter.Lifecycle.{famez_adapter_create-FreshOrGone}
use fame_z.Famez.Outgoing.{famez_create_outgoing, peer_id_of, refusal, sid_cid_is_peer_id}
use fame_z.Famez.Probe.{
  Driver, ProbeAnswers, enlist, famez_init_one, get_peer_attributes, host_of, is_listed,
}
use fame_z.Famez.Probe.Dangling.{Dangles, enlist-Dangles}
use fame_z.Famez.Probe.Ends.{BoundOrLetGo}
use fame_z.Famez.Probe.Outcome.{famez_init_one-BoundOrLetGo}
use fame_z.Famez.Probe.Removal.{Undoes, famez_init_one-removed}
use fame_z.Famez.Types.{Adapter}
use fame_z.Famez.Vectors.{IrqAnswers, Vectors, famez_isr_setup}
use fame_z.Famez.Vectors.Handlers.{IsClear, IsReady, count}
use fame_z.Famez.Vectors.Setup.{ReadyOrClear, famez_isr_setup-ReadyOrClear}

abbrev pub irq_answers : IrqAnswers
irq_answers = record {
  msix_vec_count = pos 16;
  kzalloc = true;
  alloc_irq_vectors = pos 6;
  irq_vector = λ i. pos (40 + i);
  request_irq = λ i. pos 0;
}

abbrev pub idle_vector : ℕ → ℕ
idle_vector x = 0

abbrev pub no_vectors : Vectors
no_vectors = record { irq_private = none; allocated = false; handlers = idle_vector }

pub no_vectors-IsClear : IsClear idle_vector no_vectors
no_vectors-IsClear = (refl, refl, λ x. refl)

irqs_example : Returns (ReadyOrClear idle_vector 6) (famez_isr_setup irq_answers 6 no_vectors)
irqs_example = famez_isr_setup-ReadyOrClear irq_answers idle_vector 6 no_vectors no_vectors-IsClear

abbrev six_vectors : Vectors
six_vectors = record {
  irq_private = some entries;
  allocated = true;
  handlers = λ x. 0 + count x entries;
}

six_vectors-IsReady : IsReady idle_vector 6 six_vectors
six_vectors-IsReady =
    (entries, refl, refl, (refl, (refl, (refl, (refl, (refl, (refl, refl)))))), λ x. refl)

abbrev device : Device
device = record {
  regs = 0;
  globals = 0;
  mappings = 0;
  granted = 0;
  released = 0;
  has_drvdata = false;
  blocks = 10;
  slots = λ p. slot_with 2 [];
}

abbrev device_answers : DeviceAnswers
device_answers = record {
  request_regions = pos 0;
  iomap_regs = 4096;
  iomap_globals = 65536;
  adapter_ok = true;
  core_ok = true;
  table_ok = true;
  bar2 = layout;
  iv_position = 2;
  utsname = codes "node02";
  devfn = 32;
}

device-IsUnbound : IsUnbound device
device-IsUnbound = record { regs = refl; globals = refl; has_drvdata = refl }

adapter_example : Returns (FreshOrGone layout device) (famez_adapter_create device_answers 1 device)
adapter_example =
    famez_adapter_create-FreshOrGone device_answers device 1 (ground arith) device-IsUnbound

abbrev probe_answers : ProbeAnswers
probe_answers = record {
  enable_device = pos 0;
  revision = 1;
  msix_cap = 1;
  resource_start = 1;
  device = device_answers;
  irqs = irq_answers;
  jiffies = 1000;
  longest = 0;
}

abbrev driver : Driver
driver = record { device = device; vectors = no_vectors; enabled = false; adapters = [] }

abbrev pub cardloc : List ℕ
cardloc = codes "0000:00:04.0"

probe_example :
    Returns
      (BoundOrLetGo kernel probe_answers 1 cardloc idle_vector driver)
      (famez_init_one kernel probe_answers 1 cardloc driver)
probe_example =
    famez_init_one-BoundOrLetGo kernel probe_answers 1 cardloc idle_vector refl
      (λ h e. in_time 1 h (omega arith) e) driver (ground arith) device-IsUnbound no_vectors-IsClear
      refl

not_listed : is_listed cardloc [] ≡ false
unfolding is_listed
not_listed = refl

removal_example :
    Returns
      (Undoes kernel probe_answers 1 cardloc idle_vector driver)
      (famez_init_one kernel probe_answers 1 cardloc driver)
removal_example =
    famez_init_one-removed kernel probe_answers 1 cardloc idle_vector driver refl
      (λ h e. in_time 1 h (omega arith) e) (ground arith) device-IsUnbound no_vectors-IsClear refl
      not_listed

-- An adapter whose slots are too short for the first message.
abbrev short_adapter : Adapter
short_adapter = record adapter { max_buflen = 20 }

abbrev probing : Driver
probing = record driver { vectors = six_vectors; enabled = true }

too_short :
    famez_create_outgoing kernel false
      (to_s32 5)
      sid_cid_is_peer_id
      get_peer_attributes
      (length get_peer_attributes)
      (host_of probe_answers short_adapter probing)
    ≡ ok e_2big (host_of probe_answers short_adapter probing)
unfolding famez_create_outgoing refusal peer_id_of host_of
too_short = refl

dangling_example :
    Returns
      (Dangles kernel probe_answers 1 cardloc idle_vector
        (record { pdev = 1; cardloc = cardloc; adapter = short_adapter } ∷ []))
      (enlist kernel probe_answers 1 cardloc short_adapter probing)
dangling_example =
    enlist-Dangles kernel probe_answers 1 cardloc idle_vector short_adapter probing e_2big
      (host_of probe_answers short_adapter probing) (ground arith) six_vectors-IsReady not_listed
      too_short refl
