-- ===== src/Monolithic/Probe/Outcome.antt =====
-- How a probe of the older driver ends.
use fame_z.Base.{
  Bool, Bool-cases, List, Returns, Returns-bind, Returns-mono, Returns-ok, ap, arith, false, inl,
  inr, is_neg, is_neg-nonzero, is_zero-nonzero, negsuc-nonzero, not, refl, true, ℕ, ◌+◌, ◌/◌, ◌<◌,
  ◌==◌, ◌^◌, ◌||◌, ◌∙◌, ◌≡◌,
}
use fame_z.Famez.Vectors.Handlers.{IsClear}
use fame_z.Monolithic.{Configuration, Slept, Station}
use fame_z.Monolithic.Config.{
  Card, ConfigPtr, config_err, config_ptr, destroy_config, zeroed_entries,
}
use fame_z.Monolithic.Config.Ends.{IsCalm, IsMade, IsUnclaimed, MadeOrLeft}
use fame_z.Monolithic.Config.Lifecycle.{create_config-MadeOrLeft, length-zeroed_entries}
use fame_z.Monolithic.Probe.{MonoAnswers, add_msix, disable_device, famez_probe}
use fame_z.Monolithic.Probe.Live.{Probed, Probed-failed, add_bridge-Probed}
use fame_z.Monolithic.Probe.Undo.{
  GivesBack, HoldsConfig, IsGivenBack, disable_device-GivesBack, on_vectors_lem,
}
use fame_z.Monolithic.Sending.{IsUsleep}
use fame_z.Monolithic.Vectors.{famez_msix_setup}
use fame_z.Monolithic.Vectors.Outcome.{ReadyOrIdle, famez_msix_setup-ReadyOrIdle}

module _ (a : MonoAnswers) (cardloc : List ℕ) (base : ℕ → ℕ) (hz : ℕ) (usleep : Station → Slept)
    (u : IsUsleep usleep) (room : a.jiffies + hz / 2 < 2 ^ 63) (s : Card)
    (clear : IsClear base s.vectors) where
  -- The device behind `pci_enable_device`.
  abbrev enabled_card : Card
  enabled_card = record s { enabled = true; has_drvdata = false }

  -- The handlers of a device whose configuration is made, or not.
  calm_handlers : (t : Card) → IsCalm enabled_card t → (x : ℕ) → t.vectors.handlers x ≡ base x
  calm_handlers t calm x = ap (λ f. f x) calm.0 ∙ clear.2 x

  made-Probed :
      (c : Configuration) (t : Card)
      → IsMade a.config.bar2 c s.mappings s.blocks t
      → IsCalm enabled_card t
      → Returns (Probed a cardloc base s) (add_msix hz usleep a cardloc (config_ptr c) t)
  unfolding add_msix
  made-Probed c t m calm =
      let (r, v, run, ended) =
        Returns-ok (ReadyOrIdle base a.config.bar2.n_slots t.vectors)
          (famez_msix_setup a.irqs a.config.bar2.n_slots t.vectors)
          (famez_msix_setup-ReadyOrIdle a.irqs base a.config.bar2.n_slots t.vectors
            (zeroed_entries a.config.bar2.n_slots) m.table
            (length-zeroed_entries a.config.bar2.n_slots) (calm.1 ∙ clear.1)
            (calm_handlers t calm)) in
      let held : HoldsConfig 1 c s (record t { vectors = v }) =
        (m.closed.1, (m.mapped.1, m.mapped.2), m.two_mappings, m.one_block, calm.3) in
      rw (on_vectors_lem (famez_msix_setup a.irqs a.config.bar2.n_slots) t r v run) (elim ended [
        | inl (good, ready) ↦ rw good (
            add_bridge-Probed a cardloc base hz usleep u room s c (record t { vectors = v }) held
              (m.bound, calm.4) ready calm.2)
        | inr (bad, (off, same, _)) ↦ rw (is_zero-nonzero r bad) (
            Returns-mono (GivesBack a base s r 0) (Probed a cardloc base s) _
              (disable_device-GivesBack a base s r 0 c (record t { vectors = v }) held off same
                calm.2)
              (Probed-failed a cardloc base s r bad))
      ])

  add_msix-Probed :
      (p : ConfigPtr) (t : Card)
      → MadeOrLeft a.config.bar2 enabled_card p t
      → Returns (Probed a cardloc base s) (add_msix hz usleep a cardloc p t)
  unfolding add_msix disable_device destroy_config
  add_msix-Probed (config_ptr c) t (m, calm) = made-Probed c t m calm
  add_msix-Probed (config_err r) t (bad, how, calm) = elim how [
    | inl left ↦ inr (
      bad,
      inr (
          inl (record {
            left = record {
              unclaimed = record {
                regs = left.unclaimed.regs;
                globals = left.unclaimed.globals;
                has_drvdata = left.unclaimed.has_drvdata;
                table = left.unclaimed.table;
              };
              mappings_left = left.mappings_left;
              blocks_left = left.blocks_left ∙ omega arith;
            };
            vectors = (left.unclaimed.table, calm.1 ∙ clear.1, calm_handlers t calm);
            miscdevs = calm.2;
            active = calm.3;
            disabled = refl;
          })),
    )
    | inr stranded ↦ inr (
      bad,
      inr (
          inr (
            inr (
              record {
                regs = stranded.regs;
                globals = stranded.globals;
                has_drvdata = stranded.has_drvdata;
                table = stranded.table;
                mappings_left = stranded.mappings_left;
                blocks_left = stranded.blocks_left;
              },
              (stranded.table, calm.1 ∙ clear.1, calm_handlers t calm),
              calm.2,
              calm.3,
              refl,
            ))),
    )
  ]

  abbrev lacks : MonoAnswers → Bool
  lacks b = not (b.revision == 1) || b.msix_cap == 0 || b.resource_start == 0

  -- A probe of a device that no driver has, with the clock moving, returns 0 with the device at
  -- work: mapped, its interrupts ready, its misc device registered and its location at the end of
  -- the list. Or it returns an error, and then the device is still at work; or it is disabled and
  -- let go with all it had; or so, but with the two blocks of a misc device that was not registered
  -- left over; or, when its mapping failed, its driver data and their block are left.
  pub famez_probe-Probed :
      IsUnclaimed s
      → s.enabled ≡ false
      → Returns (Probed a cardloc base s) (famez_probe hz usleep a cardloc s)
  unfolding famez_probe disable_device destroy_config
  famez_probe-Probed free off =
      let gone : (t : Card) → t ≡ s → IsGivenBack base 0 s t = λ t e. rw e (record {
        left = record { unclaimed = free; mappings_left = refl; blocks_left = omega arith };
        vectors = clear;
        miscdevs = refl;
        active = refl;
        disabled = off;
      }) in
      simp free.has_drvdata (elim (Bool-cases (is_neg a.enable_device)) [
        | inl bad ↦ simp bad (inr (is_neg-nonzero a.enable_device bad, inr (inl (gone s refl))))
        | inr good ↦ simp good (elim (Bool-cases (lacks a)) [
          | inl missing ↦ simp missing (
              inr (
                negsuc-nonzero 18,
                inr (
                    inl (record {
                      left = record {
                        unclaimed = record {
                          regs = free.regs;
                          globals = free.globals;
                          has_drvdata = refl;
                          table = free.table;
                        };
                        mappings_left = refl;
                        blocks_left = omega arith;
                      };
                      vectors = clear;
                      miscdevs = refl;
                      active = refl;
                      disabled = refl;
                    })),
              ))
          | inr has_all ↦ simp has_all (
              Returns-bind (MadeOrLeft a.config.bar2 enabled_card) (Probed a cardloc base s) _ _
                (create_config-MadeOrLeft a.config enabled_card (record {
                  regs = free.regs;
                  globals = free.globals;
                  has_drvdata = refl;
                  table = free.table;
                }))
                λ p t m. add_msix-Probed p t m)
        ])
      ])
