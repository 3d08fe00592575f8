-- ===== src/Monolithic/Config/Lifecycle.antt =====
-- A configuration is built whole; or its pieces are given back; or, when the mapping fails, it is
-- left behind.
use fame_z.Base.{
  Bool-cases, Returns, Returns-bind, ap, arith, e_inval, e_nomem, false, inl, inr, is_neg,
  is_neg-nonzero, is_zero, is_zero-nonzero, leb, length, negsuc-nonzero, none, ok, pos, refl, suc,
  true, zero, ℕ, ℤ, ◌+◌, ◌==◌, ◌≡◌, ◌≢◌, ◌⊎◌,
}
use fame_z.Monolithic.{Configuration}
use fame_z.Monolithic.Config.{
  Card, ConfigAnswers, check_bar2, config_err, create_config, destroy_config, give_config_back,
  map_bar2, monolithic_map_bars, monolithic_unmap_bars, named_slot, new_config, offset_of_msg,
  place_own_slot, zeroed_entries,
}
use fame_z.Monolithic.Config.Ends.{IsCalm, IsStranded, IsUnclaimed, MadeOrLeft}

pub length-zeroed_entries : (n : ℕ) → length (zeroed_entries n) ≡ n
unfolding zeroed_entries
length-zeroed_entries zero = refl
length-zeroed_entries (suc n) = ap suc (length-zeroed_entries n)

module _ (a : ConfigAnswers) (s : Card) where
  -- Both BARs are mapped.
  record AreMapped (t : Card) : Type 0 where
    both : (t.globals ≢ 0) × (t.regs ≢ 0)
    live : t.mappings ≡ s.mappings + 2
    bound : t.has_drvdata ≡ true
    blocks : t.blocks ≡ s.blocks + 1
    calm : IsCalm s t

  give_config_back-MadeOrLeft :
      (ret : ℤ) (c : Configuration) (t : Card)
      → ret ≢ pos 0
      → c.writer_support ≡ none
      → AreMapped t
      → Returns (MadeOrLeft a.bar2 s) (give_config_back ret c t)
  unfolding give_config_back destroy_config monolithic_unmap_bars
  give_config_back-MadeOrLeft ret c t bad closed m = (
    bad,
    inl (record {
      unclaimed = record { regs = refl; globals = refl; has_drvdata = refl; table = refl };
      mappings_left = ground (arith, m.both.0, m.both.1, m.live);
      blocks_left = ground (arith, closed, m.blocks);
    }),
    m.calm,
  )

  check_bar2-MadeOrLeft :
      (t : Card) → AreMapped t → Returns (MadeOrLeft a.bar2 s) (check_bar2 a new_config t)
  unfolding check_bar2 place_own_slot new_config named_slot
  check_bar2-MadeOrLeft t m = elim (Bool-cases (offset_of_msg == a.bar2.msg_offset)) [
    | inr e ↦
        rw (e, check_bar2)
          (give_config_back-MadeOrLeft e_inval new_config t (negsuc-nonzero 21) refl m)
    | inl e ↦
        rw (e, check_bar2)
          (elim (Bool-cases (leb a.bar2.slotsize a.bar2.msg_offset)) [
            | inl l ↦
                rw l (give_config_back-MadeOrLeft e_inval new_config t (negsuc-nonzero 21) refl m)
            | inr l ↦ rw l (elim (Bool-cases a.table_ok) [
              | inr none_ ↦
                  rw none_ (give_config_back-MadeOrLeft e_nomem _ t (negsuc-nonzero 11) refl m)
              | inl table ↦ rw table (
                record {
                  closed = (refl, refl);
                  quiet = (refl, refl);
                  room = ground arith;
                  some_room = ground arith;
                  server = refl;
                  slot = refl;
                  free = ground arith;
                  mapped = (refl, m.both.0, m.both.1);
                  table = refl;
                  bound = m.bound;
                  two_mappings = m.live;
                  one_block = m.blocks;
                },
                m.calm,
              )
            ])
          ])
  ]

  -- How the mapping ends: with both BARs, or an error and neither.
  abbrev MappedOrStranded : ℤ → Card → Type 0
  MappedOrStranded r t =
      ((r ≡ pos 0) × AreMapped t) ⊎ ((r ≢ pos 0) × IsStranded s.mappings s.blocks t × IsCalm s t)

  map_bars-MappedOrStranded :
      (t : Card)
      → t.mappings ≡ s.mappings
      → t.blocks ≡ s.blocks + 1
      → t.regs ≡ 0
      → t.globals ≡ 0
      → t.has_drvdata ≡ true
      → t.vectors.irq_private ≡ none
      → IsCalm s t
      → Returns MappedOrStranded (monolithic_map_bars a t)
  unfolding monolithic_map_bars map_bar2 monolithic_unmap_bars
  map_bars-MappedOrStranded t even blocks regs globals bound empty calm =
      elim (Bool-cases (is_neg a.request_regions)) [
        | inl bad ↦
            rw (bad, monolithic_map_bars)
              (inr (
                is_neg-nonzero a.request_regions bad,
                record {
                  regs = regs;
                  globals = globals;
                  has_drvdata = bound;
                  table = empty;
                  mappings_left = even;
                  blocks_left = blocks;
                },
                calm,
              ))
        | inr good ↦
            rw (good, monolithic_map_bars)
              (elim (Bool-cases (a.iomap_regs == 0)) [
                | inl no_regs ↦ rw no_regs (
                    inr (
                      negsuc-nonzero 11,
                      record {
                        regs = refl;
                        globals = refl;
                        has_drvdata = bound;
                        table = empty;
                        mappings_left = ground (arith, regs, globals, even);
                        blocks_left = blocks;
                      },
                      calm,
                    ))
                | inr has_regs ↦ rw has_regs (elim (Bool-cases (a.iomap_globals == 0)) [
                  | inl no_bar2 ↦ rw no_bar2 (
                      inr (
                        negsuc-nonzero 11,
                        record {
                          regs = refl;
                          globals = refl;
                          has_drvdata = bound;
                          table = empty;
                          mappings_left = ground arith;
                          blocks_left = blocks;
                        },
                        calm,
                      ))
                  | inr has_bar2 ↦ rw has_bar2 (
                      inl (
                        refl,
                        record {
                          both = (ground arith, ground arith);
                          live = omega (arith, even);
                          bound = bound;
                          blocks = blocks;
                          calm = calm;
                        },
                      ))
                ])
              ])
      ]

  -- For a device that no driver has, the creation returns a configuration that is ready, with its
  -- table of nSlots entries and its own slot emptied; or an error, and then either the device is
  -- let go with all its memory, or its mapping failed and the configuration and the driver data
  -- stay. Interrupts, misc devices and the list are not touched.
  pub create_config-MadeOrLeft : IsUnclaimed s → Returns (MadeOrLeft a.bar2 s) (create_config a s)
  unfolding create_config
  create_config-MadeOrLeft free = elim (Bool-cases a.config_ok) [
    | inr e ↦
        rw (e, create_config)
          (
            negsuc-nonzero 11,
            inl (record { unclaimed = free; mappings_left = refl; blocks_left = refl }),
            (refl, refl, refl, refl, refl),
          )
    | inl made ↦
        simp (made, create_config)
          (Returns-bind MappedOrStranded (MadeOrLeft a.bar2 s) _ _
            (map_bars-MappedOrStranded _ refl refl refl refl refl refl
              (refl, refl, refl, refl, refl))
            λ r t p. elim p [
              | inl (good, m) ↦ rw good (check_bar2-MadeOrLeft t m)
              | inr (bad, stranded, calm) ↦ rw (is_zero-nonzero r bad) (bad, inr stranded, calm)
            ])
  ]

-- A device whose regions were refused.
abbrev unmapped_card : Card → Card
unmapped_card s = record s {
  has_drvdata = true;
  blocks = s.blocks + 1;
  regs = 0;
  globals = 0;
  teardown_lookup = none;
  vectors = record (s.vectors) { irq_private = none };
}

-- When the regions are refused, the configuration that was allocated stays.
pub create_config-refused :
    (a : ConfigAnswers) (s : Card)
    → a.config_ok ≡ true
    → is_neg a.request_regions ≡ true
    → create_config a s ≡ ok (config_err a.request_regions) (unmapped_card s)
unfolding create_config monolithic_map_bars
create_config-refused a s made refused =
    let bad : is_zero a.request_regions ≡ false =
      is_zero-nonzero a.request_regions (is_neg-nonzero a.request_regions refused) in
    simp (made, refused, bad)
