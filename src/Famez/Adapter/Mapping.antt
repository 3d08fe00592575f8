-- ===== src/Famez/Adapter/Mapping.antt =====
-- The mapping of the BARs: both, or none.
use fame_z.Base.{
  Bool-cases, Returns, arith, inl, inr, is_neg, is_neg-nonzero, negsuc-nonzero, pos, refl, true, ℤ,
  ◌+◌, ◌==◌, ◌≡◌, ◌≢◌, ◌⊎◌,
}
use fame_z.Famez.Adapter.{Device, DeviceAnswers, map_bars, map_globals, unmap_bars}
use fame_z.Famez.Adapter.Destruction.{Holds3}

module _ (d : DeviceAnswers) (s : Device) where
  -- Both BARs are mapped.
  pub record IsMapped (t : Device) : Type 0 where
    pub held : Holds3 s t
    pub both : (t.globals ≢ 0) × (t.regs ≢ 0)
    pub live : t.mappings ≡ s.mappings + 2
    pub bound : t.has_drvdata ≡ true

  -- How the mapping ends: with both BARs, or an error and neither.
  abbrev pub MappedOrNot : ℤ → Device → Type 0
  MappedOrNot r t = ((r ≡ pos 0) × IsMapped t) ⊎ ((r ≢ pos 0) × Holds3 s t)

  pub map_bars-MappedOrNot :
      (t : Device)
      → Holds3 s t
      → t.regs ≡ 0
      → t.globals ≡ 0
      → t.has_drvdata ≡ true
      → Returns MappedOrNot (map_bars d t)
  unfolding map_bars map_globals unmap_bars
  map_bars-MappedOrNot t h regs globals bound =
      let even : t.mappings ≡ s.mappings = ground (arith, h.mappings) in
      elim (Bool-cases (is_neg d.request_regions)) [
        | inl bad ↦ rw (bad, map_bars) (inr (is_neg-nonzero d.request_regions bad, h))
        | inr good ↦
            rw (good, map_bars)
              (elim (Bool-cases (d.iomap_regs == 0)) [
                | inl no_regs ↦ rw no_regs (
                    inr (
                      negsuc-nonzero 11,
                      record { blocks = h.blocks; mappings = h.mappings; slots = h.slots },
                    ))
                | inr has_regs ↦ rw has_regs (elim (Bool-cases (d.iomap_globals == 0)) [
                  | inl no_globals ↦ rw no_globals (
                      inr (
                        negsuc-nonzero 11,
                        record { blocks = h.blocks; mappings = ground arith; slots = h.slots },
                      ))
                  | inr has_globals ↦ rw has_globals (
                      inl (
                        refl,
                        record {
                          held = record {
                            blocks = h.blocks;
                            mappings = ground arith;
                            slots = h.slots;
                          };
                          both = (ground arith, ground arith);
                          live = omega (arith, even);
                          bound = bound;
                        },
                      ))
                ])
              ])
      ]
