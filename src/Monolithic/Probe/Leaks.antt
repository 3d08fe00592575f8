-- ===== src/Monolithic/Probe/Leaks.antt =====
-- What a failed probe of the older driver leaves behind.
use fame_z.Base.{List, Returns, arith, e_already, false, is_neg, ok, refl, true, ℕ, ◌==◌, ◌≡◌, ◌≢◌}
use fame_z.Monolithic.{Slept, Station}
use fame_z.Monolithic.Config.{Card, destroy_config}
use fame_z.Monolithic.Config.Ends.{IsStranded, IsUnclaimed}
use fame_z.Monolithic.Config.Lifecycle.{create_config-refused}
use fame_z.Monolithic.Probe.{MonoAnswers, add_msix, disable_device, famez_probe}

module _ (hz : ℕ) (usleep : Station → Slept) (a : MonoAnswers) (cardloc : List ℕ) where
  -- The device has what a probe asks for.
  pub record HasFeatures : Type 0 where
    pub enabled : is_neg a.enable_device ≡ false
    pub revision : a.revision ≡ 1
    pub cap : a.msix_cap ≢ 0
    pub start : a.resource_start ≢ 0

  -- When the regions of a device with all features are refused, the error is returned, and the
  -- device keeps its driver data and one block of memory: another probe answers -EALREADY.
  pub famez_probe-IsStranded :
      (s : Card)
      → IsUnclaimed s
      → HasFeatures
      → a.config.config_ok ≡ true
      → is_neg a.config.request_regions ≡ true
      → Returns
          (λ r s'.
            (r ≡ a.config.request_regions)
            × IsStranded s.mappings s.blocks s'
            × (famez_probe hz usleep a cardloc s' ≡ ok e_already s'))
          (famez_probe hz usleep a cardloc s)
  unfolding famez_probe add_msix disable_device destroy_config
  famez_probe-IsStranded s free f made refused =
      let revision : (a.revision == 1) ≡ true = ground (arith, f.revision) in
      let cap : (a.msix_cap == 0) ≡ false = ground (arith, f.cap) in
      let start : (a.resource_start == 0) ≡ false = ground (arith, f.start) in
      simp
        (
          free.has_drvdata,
          f.enabled,
          revision,
          cap,
          start,
          create_config-refused a.config _ made refused,
        )
        (
          refl,
          record {
            regs = refl;
            globals = refl;
            has_drvdata = refl;
            table = refl;
            mappings_left = refl;
            blocks_left = refl;
          },
          refl,
        )
