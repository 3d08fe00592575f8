-- ===== src/Famez/Probe/Removal.antt =====
-- The removal of a device undoes its probe.
use fame_z.Base.{
  Bool-cases, List, Returns, Returns-mono, Returns-ok, [], ap, arith, bytes_eq, bytes_eq_comm,
  bytes_eq_refl, false, inl, inr, ok, pos, refl, some, ℕ, ℤ, ◌++◌, ◌+◌, ◌∷◌, ◌≡◌, ◌≢◌, ◌⊎◌,
}
use fame_z.Famez.Adapter.Destruction.{IsBlank, IsUnbound, famez_adapter_destroy-IsReleased}
use fame_z.Famez.Outgoing.Wait.{InTime}
use fame_z.Famez.Probe.{
  Driver, Listed, ProbeAnswers, famez_init_one, famez_remove_one, is_listed, unlist,
}
use fame_z.Famez.Probe.Ends.{BoundOrLetGo, IsBound, IsLetGo}
use fame_z.Famez.Probe.Outcome.{famez_init_one-BoundOrLetGo}
use fame_z.Famez.Types.{Adapter, Host, Kernel}
use fame_z.Famez.Vectors.{famez_isr_teardown}
use fame_z.Famez.Vectors.Handlers.{IsClear, famez_isr_teardown-IsClear}

-- What was appended goes again, and nothing else.
unlist-append :
    (cardloc : List ℕ) (l : List Listed) (x : Listed)
    → x.cardloc ≡ cardloc
    → is_listed cardloc l ≡ false
    → unlist cardloc (l ++ x ∷ []) ≡ l
unfolding unlist is_listed
unlist-append cardloc [] x own h = rw (own, bytes_eq_refl cardloc)
unlist-append cardloc (y ∷ ys) x own h = elim (Bool-cases (bytes_eq cardloc y.cardloc)) [
  | inl same ↦ absurd (ground (arith, same))
  | inr other ↦
      let rest = unlist-append cardloc ys x own (rw other at h) in
      rw (bytes_eq_comm y.cardloc cardloc, other) (ap (◌∷◌ y) rest)
]

module _ (k : Kernel) (a : ProbeAnswers) (pdev : ℕ) (cardloc : List ℕ) (base : ℕ → ℕ) where
  -- The device is as it was before the probe.
  abbrev Undone : Driver → Driver → Type 0
  Undone s s' = IsLetGo k a pdev cardloc base s s' × (s'.adapters ≡ s.adapters)

  IsBound-removed :
      (s t : Driver) (adapter : Adapter)
      → a.device.bar2.n_events ≡ a.device.bar2.n_clients + 2
      → IsBound k a pdev cardloc base s t
      → t.adapters ≡ s.adapters ++ record { pdev = pdev; cardloc = cardloc; adapter = adapter } ∷ []
      → IsBlank adapter
      → is_listed cardloc s.adapters ≡ false
      → Returns (λ _. Undone s) (famez_remove_one (some adapter) a.device.bar2 cardloc t)
  unfolding famez_remove_one
  IsBound-removed s t adapter events bound last blank new =
      let (x, v, run, (clear, _)) =
        Returns-ok
          (λ _ s'. IsClear base s' × (famez_isr_teardown a.device.bar2.n_clients s' ≡ ok tt s'))
          (famez_isr_teardown a.device.bar2.n_clients t.vectors)
          (famez_isr_teardown-IsClear base a.device.bar2.n_clients t.vectors
            (rw events at bound.vectors)) in
      rw (run, famez_remove_one)
        (
          record {
            released =
                famez_adapter_destroy-IsReleased _ s.device t.device
                  (record {
                    some_pdev = blank.some_pdev;
                    table = blank.table;
                    closed = blank.closed;
                    quiet = blank.quiet;
                    no_irqs = refl;
                  })
                  bound.blocks bound.mappings;
            vectors = clear;
            disabled = refl;
          },
          rw last (unlist-append cardloc s.adapters _ refl new),
        )

  -- The last of the list is the new adapter, and its removal undoes the probe.
  abbrev pub Undoes : Driver → ℤ → Driver → Type 0
  Undoes s r t =
      (r ≢ pos 0)
      ⊎ ((adapter : Adapter) × (t.adapters
            ≡ s.adapters ++ record { pdev = pdev; cardloc = cardloc; adapter = adapter } ∷ [])
          × Returns (λ _. Undone s) (famez_remove_one (some adapter) a.device.bar2 cardloc t))

  -- A probe of a new device whose location is not on the list, with the clock moving and nEvents =
  -- nClients + 2, returns an error, or puts an adapter at the end of the list whose removal gives
  -- back the mappings, the memory, the interrupts and the driver data, disables the device, and
  -- leaves the list as it was before the probe.
  pub famez_init_one-removed :
      (s : Driver)
      → a.device.bar2.n_events ≡ a.device.bar2.n_clients + 2
      → ((h : Host) → h.jiffies ≡ a.jiffies → InTime k 1 h)
      → pdev ≢ 0
      → IsUnbound s.device
      → IsClear base s.vectors
      → s.enabled ≡ false
      → is_listed cardloc s.adapters ≡ false
      → Returns (Undoes s) (famez_init_one k a pdev cardloc s)
  famez_init_one-removed s events on_time some_pdev unbound clear off new =
      Returns-mono (BoundOrLetGo k a pdev cardloc base s) (Undoes s) _
        (famez_init_one-BoundOrLetGo k a pdev cardloc base events on_time s some_pdev unbound clear
          off)
        λ r t ended. elim ended [
          | inl (_, bound) ↦
              let (adapter, last, blank) = bound.last in
              inr (adapter, last, IsBound-removed s t adapter events bound last blank new)
          | inr (bad, _) ↦ inl bad
        ]
