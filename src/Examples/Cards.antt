-- ===== src/Examples/Cards.antt =====
-- The life of a device under the older driver.
use fame_z.Base.{
  Returns, [], arith, codes, e_already, e_busy, false, none, ok, pos, refl, some, true, ◌≡◌,
}
use fame_z.Examples.Older.{msg_slot, usleep}
use fame_z.Examples.Probes.{cardloc, idle_vector, irq_answers, no_vectors, no_vectors-IsClear}
use fame_z.Famez.Vectors.{Vectors}
use fame_z.Monolithic.Config.{Card, ConfigAnswers, new_config, zeroed_entries}
use fame_z.Monolithic.Config.Ends.{IsStranded, IsUnclaimed}
use fame_z.Monolithic.Config.Lifecycle.{length-zeroed_entries}
use fame_z.Monolithic.Probe.{MonoAnswers, famez_probe, is_active}
use fame_z.Monolithic.Probe.Leaks.{famez_probe-IsStranded}
use fame_z.Monolithic.Probe.Live.{Probed}
use fame_z.Monolithic.Probe.Outcome.{famez_probe-Probed}
use fame_z.Monolithic.Probe.Removal.{RemovalUndoes, famez_probe-removed}
use fame_z.Monolithic.Sending.{IsUsleep}
use fame_z.Monolithic.Vectors.{famez_msix_setup}
use fame_z.Monolithic.Vectors.Outcome.{ReadyOrIdle, famez_msix_setup-ReadyOrIdle}

abbrev card : Card
card = record {
  regs = 0;
  globals = 0;
  mappings = 0;
  granted = 0;
  released = 0;
  has_drvdata = false;
  blocks = 10;
  enabled = false;
  slots = λ p. msg_slot 2 [];
  vectors = no_vectors;
  teardown_lookup = none;
  miscdevs = 0;
  active = [];
}

abbrev config_answers : ConfigAnswers
config_answers = record {
  request_regions = pos 0;
  iomap_regs = 4096;
  iomap_globals = 65536;
  config_ok = true;
  table_ok = true;
  bar2 = record { slotsize = 4096; msg_offset = 64; n_slots = 6 };
  iv_position = 2;
  utsname = codes "node02";
  devfn = 32;
}

abbrev mono_answers : MonoAnswers
mono_answers = record {
  enable_device = pos 0;
  revision = 1;
  msix_cap = 1;
  resource_start = 1;
  config = config_answers;
  irqs = record irq_answers { msix_vec_count = pos 64 };
  misc = record { lookup_ok = true; name_ok = true; misc_register = pos 0 };
  jiffies = 1000;
}

card-IsUnclaimed : IsUnclaimed card
card-IsUnclaimed = record { regs = refl; globals = refl; has_drvdata = refl; table = refl }

usleep-IsUsleep : IsUsleep usleep
usleep-IsUsleep = record { moves = λ s l. omega arith }

card_example :
    Returns
      (Probed mono_answers cardloc idle_vector card)
      (famez_probe 10 usleep mono_answers cardloc card)
card_example =
    famez_probe-Probed mono_answers cardloc idle_vector 10 usleep usleep-IsUsleep (omega arith) card
      no_vectors-IsClear card-IsUnclaimed refl

not_active : is_active cardloc [] ≡ false
unfolding is_active
not_active = refl

unprobed_example :
    Returns
      (RemovalUndoes mono_answers cardloc idle_vector card new_config)
      (famez_probe 10 usleep mono_answers cardloc card)
unfolding new_config
unprobed_example =
    famez_probe-removed mono_answers cardloc idle_vector card new_config 10 usleep usleep-IsUsleep
      (omega arith) no_vectors-IsClear card-IsUnclaimed refl not_active refl

abbrev refused : MonoAnswers
refused = record mono_answers { config = record config_answers { request_regions = e_busy } }

IsStranded-example :
    Returns
      (λ r s'.
        (r ≡ e_busy)
        × IsStranded 0 10 s'
        × (famez_probe 10 usleep refused cardloc s' ≡ ok e_already s'))
      (famez_probe 10 usleep refused cardloc card)
IsStranded-example =
    famez_probe-IsStranded 10 usleep refused cardloc card card-IsUnclaimed
      (record { enabled = refl; revision = refl; cap = ground arith; start = ground arith }) refl
      refl

abbrev table_card : Vectors
table_card = record no_vectors { irq_private = some (zeroed_entries 6) }

mono_irqs_example :
    Returns (ReadyOrIdle idle_vector 6 table_card) (famez_msix_setup mono_answers.irqs 6 table_card)
mono_irqs_example =
    famez_msix_setup-ReadyOrIdle mono_answers.irqs idle_vector 6 table_card (zeroed_entries 6) refl
      (length-zeroed_entries 6) refl (λ x. refl)
