-- ===== src/Monolithic/Probe/Removal.antt =====
-- The removal of a device undoes its probe.
use fame_z.Base.{
  Bool-cases, List, Returns, Returns-mono, Returns-ok, [], ap, arith, bytes_eq, bytes_eq_comm,
  bytes_eq_refl, false, inl, inr, none, pos, refl, some, ℕ, ℤ, ◌++◌, ◌+◌, ◌-◌, ◌/◌, ◌<◌, ◌^◌, ◌∷◌,
  ◌≡◌, ◌≢◌, ◌⊎◌,
}
use fame_z.Famez.Vectors.Handlers.{IsClear}
use fame_z.Monolithic.{Configuration, Slept, Station}
use fame_z.Monolithic.Config.{Card, destroy_config, monolithic_unmap_bars}
use fame_z.Monolithic.Config.Ends.{IsUnclaimed}
use fame_z.Monolithic.Misc.{famez_bridge_teardown}
use fame_z.Monolithic.Probe.{MonoAnswers, deactivate, famez_probe, famez_remove, is_active}
use fame_z.Monolithic.Probe.Live.{IsLive, Probed}
use fame_z.Monolithic.Probe.Outcome.{famez_probe-Probed}
use fame_z.Monolithic.Probe.Undo.{IsGivenBack, on_vectors_lem}
use fame_z.Monolithic.Sending.{IsUsleep}
use fame_z.Monolithic.Vectors.{famez_msix_teardown}
use fame_z.Monolithic.Vectors.Outcome.{famez_msix_teardown-IsClear}

-- What was appended goes again, and nothing else.
deactivate-append :
    (cardloc : List ℕ) (l : List (List ℕ))
    → is_active cardloc l ≡ false
    → deactivate cardloc (l ++ cardloc ∷ []) ≡ l
unfolding deactivate is_active
deactivate-append cardloc [] h = rw (bytes_eq_refl cardloc)
deactivate-append cardloc (x ∷ xs) h = elim (Bool-cases (bytes_eq cardloc x)) [
  | inl same ↦ absurd (ground (arith, same))
  | inr other ↦
      let rest = deactivate-append cardloc xs (rw other at h) in
      rw (bytes_eq_comm x cardloc, other) (ap (◌∷◌ x) rest)
]

module _ (a : MonoAnswers) (cardloc : List ℕ) (base : ℕ → ℕ) (s : Card) (c : Configuration) where
  IsLive-removed :
      (t : Card)
      → IsLive a cardloc base s t
      → is_active cardloc s.active ≡ false
      → c.writer_support ≡ none
      → Returns
          (λ _ s'. IsGivenBack base 0 s s')
          (famez_remove (some c) a.config.bar2.n_slots cardloc t)
  unfolding famez_remove famez_bridge_teardown destroy_config monolithic_unmap_bars
  IsLive-removed t live new closed =
      let t1 = record t {
        miscdevs = t.miscdevs - 1;
        blocks = t.blocks - 2;
        teardown_lookup = none;
      } in
      let (x, v, run, cleared) =
        Returns-ok (λ _ v. IsClear base v) (famez_msix_teardown a.config.bar2.n_slots t.vectors)
          (famez_msix_teardown-IsClear base a.config.bar2.n_slots t.vectors live.vectors) in
      simp (live.lookup, famez_bridge_teardown)
        (rw (on_vectors_lem (famez_msix_teardown a.config.bar2.n_slots) t1 x v run) (record {
          left = record {
            unclaimed = record { regs = refl; globals = refl; has_drvdata = refl; table = refl };
            mappings_left = ground (arith, live.mapped.0, live.mapped.1, live.mapped.2);
            blocks_left = rw closed (omega (arith, live.blocks));
          };
          vectors = (refl, cleared.1, cleared.2);
          miscdevs = omega (arith, live.miscdevs);
          active = rw live.active (deactivate-append cardloc s.active new);
          disabled = refl;
        }))

  -- The removal of the device undoes the probe.
  abbrev pub RemovalUndoes : ℤ → Card → Type 0
  RemovalUndoes r t =
      (r ≢ pos 0)
      ⊎ Returns (λ _ s'. IsGivenBack base 0 s s')
          (famez_remove (some c) a.config.bar2.n_slots cardloc t)

  -- A probe of a device that no driver has and whose location is not on the list, with the clock
  -- moving, returns an error, or leaves a device whose removal, with its character device closed,
  -- gives back the mappings, the memory, the interrupts and the misc device, leaves the list as it
  -- was before the probe, and disables the device.
  pub famez_probe-removed :
      (hz : ℕ) (usleep : Station → Slept)
      → IsUsleep usleep
      → a.jiffies + hz / 2 < 2 ^ 63
      → IsClear base s.vectors
      → IsUnclaimed s
      → s.enabled ≡ false
      → is_active cardloc s.active ≡ false
      → c.writer_support ≡ none
      → Returns RemovalUndoes (famez_probe hz usleep a cardloc s)
  famez_probe-removed hz usleep u room clear free off new closed =
      Returns-mono (Probed a cardloc base s) RemovalUndoes _
        (famez_probe-Probed a cardloc base hz usleep u room s clear free off)
        λ r t ended. elim ended [
          | inl (_, live) ↦ inr (IsLive-removed t live new closed)
          | inr (bad, _) ↦ inl bad
        ]
