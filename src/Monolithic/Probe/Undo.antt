-- ===== src/Monolithic/Probe/Undo.antt =====
-- The error paths of a probe give back what was set up.
use fame_z.Base.{
  Cmd, List, Returns, Returns-ok, arith, false, none, ok, refl, some, suc, ℕ, ℤ, ◌+◌, ◌≡◌, ◌≢◌,
}
use fame_z.Famez.Vectors.{Vectors}
use fame_z.Famez.Vectors.Handlers.{IsClear, IsReady}
use fame_z.Monolithic.{Configuration}
use fame_z.Monolithic.Config.{Card, destroy_config, monolithic_unmap_bars}
use fame_z.Monolithic.Config.Ends.{IsLeft}
use fame_z.Monolithic.Misc.{famez_bridge_teardown}
use fame_z.Monolithic.Probe.{MonoAnswers, disable_device, on_vectors, undo_bridge, undo_msix}
use fame_z.Monolithic.Vectors.{famez_msix_teardown}
use fame_z.Monolithic.Vectors.Outcome.{famez_msix_teardown-IsClear}

-- A set-up device as the error paths find it: its configuration with `n` blocks of memory.
abbrev pub HoldsConfig : ℕ → Configuration → Card → Card → Type 0
HoldsConfig n c s t =
    (c.writer_support ≡ none)
    × ((t.globals ≢ 0) × (t.regs ≢ 0))
    × (t.mappings ≡ s.mappings + 2)
    × (t.blocks ≡ s.blocks + n)
    × (t.active ≡ s.active)

-- A step on the vectors that returns.
pub on_vectors_lem :
    {A : Type 0} (run : Cmd Vectors A) (t : Card) (r : A) (v : Vectors)
    → run t.vectors ≡ ok r v
    → on_vectors run t ≡ ok r (record t { vectors = v })
unfolding on_vectors
on_vectors_lem run t r v e = rw (e, on_vectors)

-- The device is let go, but for `n` blocks of memory that nobody frees.
pub record IsGivenBack (base : ℕ → ℕ) (n : ℕ) (s s' : Card) : Type 0 where
  pub left : IsLeft s.mappings (s.blocks + n) s'
  pub vectors : IsClear base s'.vectors
  pub miscdevs : s'.miscdevs ≡ s.miscdevs
  pub active : s'.active ≡ s.active
  pub disabled : s'.enabled ≡ false

module _ (a : MonoAnswers) (base : ℕ → ℕ) (s : Card) where
  -- The error that is returned, and the device let go.
  abbrev pub GivesBack : ℤ → ℕ → ℤ → Card → Type 0
  GivesBack ret n r s' = (r ≡ ret) × IsGivenBack base n s s'

  pub disable_device-GivesBack :
      (ret : ℤ) (n : ℕ) (c : Configuration) (t : Card)
      → HoldsConfig (suc n) c s t
      → t.vectors.allocated ≡ false
      → ((x : ℕ) → t.vectors.handlers x ≡ base x)
      → t.miscdevs ≡ s.miscdevs
      → Returns (GivesBack ret n) (disable_device ret (some c) t)
  unfolding disable_device destroy_config monolithic_unmap_bars
  disable_device-GivesBack ret n c t (closed, both, mappings, blocks, active) off same misc = (
    refl,
    record {
      left = record {
        unclaimed = record { regs = refl; globals = refl; has_drvdata = refl; table = refl };
        mappings_left = ground (arith, both.0, both.1);
        blocks_left = rw closed (omega (arith, blocks));
      };
      vectors = (refl, off, same);
      miscdevs = misc;
      active = active;
      disabled = refl;
    },
  )

  pub undo_msix-GivesBack :
      (ret : ℤ) (n : ℕ) (c : Configuration) (t : Card)
      → HoldsConfig (suc n) c s t
      → IsReady base a.config.bar2.n_slots t.vectors
      → t.miscdevs ≡ s.miscdevs
      → Returns (GivesBack ret n) (undo_msix a ret c t)
  unfolding undo_msix
  undo_msix-GivesBack ret n c t h ready misc =
      let (x, v, run, (_, off, same)) =
        Returns-ok (λ _ v. IsClear base v) (famez_msix_teardown a.config.bar2.n_slots t.vectors)
          (famez_msix_teardown-IsClear base a.config.bar2.n_slots t.vectors ready) in
      rw (on_vectors_lem (famez_msix_teardown a.config.bar2.n_slots) t x v run)
        (disable_device-GivesBack ret n c (record t { vectors = v }) h off same misc)

  pub undo_bridge-GivesBack :
      (ret : ℤ) (n : ℕ) (c : Configuration) (t : Card) (name : List ℕ)
      → HoldsConfig (suc n + 2) c s t
      → IsReady base a.config.bar2.n_slots t.vectors
      → t.teardown_lookup ≡ some name
      → t.miscdevs ≡ s.miscdevs + 1
      → Returns (GivesBack ret n) (undo_bridge a ret c t)
  unfolding undo_bridge famez_bridge_teardown
  undo_bridge-GivesBack ret n c t name (closed, both, mappings, blocks, active) ready there misc =
      simp (there, famez_bridge_teardown)
        (undo_msix-GivesBack ret n c _ (closed, both, mappings, omega (arith, blocks), active) ready
          (omega (arith, misc)))
