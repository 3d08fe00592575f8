-- ===== src/Famez/Probe/Ends.antt =====
-- How a probe ends, and the ways back.
use fame_z.Base.{
  List, Returns, Returns-ok, [], false, inr, ok, pos, refl, some, true, ℕ, ℤ, ◌++◌, ◌+◌, ◌∷◌, ◌≡◌,
  ◌≢◌, ◌⊎◌,
}
use fame_z.Famez.Adapter.{iounmap}
use fame_z.Famez.Adapter.Destruction.{IsBlank, IsReleased, famez_adapter_destroy-IsReleased}
use fame_z.Famez.Probe.{Driver, Listed, ProbeAnswers, disable, tear_down}
use fame_z.Famez.Types.{Adapter, Kernel}
use fame_z.Famez.Vectors.{famez_isr_teardown}
use fame_z.Famez.Vectors.Handlers.{IsClear, IsReady, famez_isr_teardown-IsClear}

module _ (k : Kernel) (a : ProbeAnswers) (pdev : ℕ) (cardloc : List ℕ) (base : ℕ → ℕ) where
  abbrev pub listed : Adapter → Listed
  listed adapter = record { pdev = pdev; cardloc = cardloc; adapter = adapter }

  -- The device works, has its interrupts, and is the last of the list.
  pub record IsBound (s s' : Driver) : Type 0 where
    pub bound : s'.device.has_drvdata ≡ true
    pub vectors : IsReady base a.device.bar2.n_events s'.vectors
    pub last :
        (adapter : Adapter) × (s'.adapters ≡ s.adapters ++ listed adapter ∷ []) × IsBlank adapter
    pub blocks : s'.device.blocks ≡ s.device.blocks + 3
    pub mappings :
        iounmap s'.device.globals (iounmap s'.device.regs s'.device.mappings) ≡ s.device.mappings

  -- The device is given back, with its interrupts.
  pub record IsLetGo (s s' : Driver) : Type 0 where
    pub released : IsReleased s.device s'.device
    pub vectors : IsClear base s'.vectors
    pub disabled : s'.enabled ≡ false

  abbrev pub BoundOrLetGo : Driver → ℤ → Driver → Type 0
  BoundOrLetGo s r s' = ((r ≡ pos 0) × IsBound s s') ⊎ ((r ≢ pos 0) × IsLetGo s s')

  -- What a later step has to undo.
  pub record IsBuilt (s : Driver) (adapter : Adapter) (t : Driver) : Type 0 where
    pub blank : IsBlank adapter
    pub blocks : t.device.blocks ≡ s.device.blocks + 3
    pub mappings :
        iounmap t.device.globals (iounmap t.device.regs t.device.mappings) ≡ s.device.mappings
    pub bound : t.device.has_drvdata ≡ true

  pub disable-BoundOrLetGo :
      (ret : ℤ) (adapter : Adapter) (s t : Driver)
      → ret ≢ pos 0
      → IsBuilt s adapter t
      → IsClear base t.vectors
      → Returns (BoundOrLetGo s) (disable ret (some adapter) t)
  unfolding disable
  disable-BoundOrLetGo ret adapter s t bad b clear = inr (
    bad,
    record {
      released =
          famez_adapter_destroy-IsReleased adapter s.device t.device b.blank b.blocks b.mappings;
      vectors = clear;
      disabled = refl;
    },
  )

  module _ (events : a.device.bar2.n_events ≡ a.device.bar2.n_clients + 2) where
    pub tear_down-BoundOrLetGo :
        (ret : ℤ) (adapter : Adapter) (s t : Driver)
        → ret ≢ pos 0
        → IsBuilt s adapter t
        → IsReady base a.device.bar2.n_events t.vectors
        → Returns (BoundOrLetGo s) (tear_down a ret adapter t)
    unfolding tear_down
    tear_down-BoundOrLetGo ret adapter s t bad b ready =
        let (u, v, run, (clear, _)) =
          Returns-ok
            (λ _ s'. IsClear base s' × (famez_isr_teardown a.device.bar2.n_clients s' ≡ ok tt s'))
            (famez_isr_teardown a.device.bar2.n_clients t.vectors)
            (famez_isr_teardown-IsClear base a.device.bar2.n_clients t.vectors
              (rw events at ready)) in
        rw (run, tear_down)
          (disable-BoundOrLetGo ret _ s (record t { vectors = v }) bad
            (record {
              blank = record {
                some_pdev = b.blank.some_pdev;
                table = b.blank.table;
                closed = b.blank.closed;
                quiet = b.blank.quiet;
                no_irqs = refl;
              };
              blocks = b.blocks;
              mappings = b.mappings;
              bound = b.bound;
            })
            clear)
