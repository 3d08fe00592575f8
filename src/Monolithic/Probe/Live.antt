-- ===== src/Monolithic/Probe/Live.antt =====
-- A device of the older driver is put to work, or given back: the steps behind its interrupts.
use fame_z.Base.{
  Bool-cases, List, Returns, Returns-mono, Returns-ok, [], ap, arith, e_already, e_nomem, false,
  inl, inr, is_zero, is_zero-false, is_zero-true, length, negsuc-nonzero, pos, refl, some, true, ℕ,
  ℤ, ◌++◌, ◌+◌, ◌/◌, ◌<◌, ◌^◌, ◌∷◌, ◌≡◌, ◌≢◌, ◌⊎◌,
}
use fame_z.Famez.Vectors.Handlers.{IsClear, IsReady}
use fame_z.Monolithic.{Configuration, Slept, Station}
use fame_z.Monolithic.Config.{Card}
use fame_z.Monolithic.Config.Ends.{IsStranded}
use fame_z.Monolithic.Messages.{famez_sendmail}
use fame_z.Monolithic.Misc.{famez_bridge_setup, misc_name}
use fame_z.Monolithic.Probe.{
  MonoAnswers, activate, add_bridge, imalive, is_active, ready_result, station_of, tell_server,
  undo_msix,
}
use fame_z.Monolithic.Probe.Undo.{
  GivesBack, HoldsConfig, IsGivenBack, undo_bridge-GivesBack, undo_msix-GivesBack,
}
use fame_z.Monolithic.Sending.{IsUsleep, KeepsWriter, famez_sendmail_total}

module _ (a : MonoAnswers) (cardloc : List ℕ) (base : ℕ → ℕ) where
  -- The device works: interrupts, misc device, and the end of the list.
  pub record IsLive (s s' : Card) : Type 0 where
    pub mapped : (s'.globals ≢ 0) × (s'.regs ≢ 0) × (s'.mappings ≡ s.mappings + 2)
    pub bound : (s'.has_drvdata ≡ true) × (s'.enabled ≡ true)
    pub vectors : IsReady base a.config.bar2.n_slots s'.vectors
    pub lookup : s'.teardown_lookup ≡ some (misc_name a.config.devfn)
    pub miscdevs : s'.miscdevs ≡ s.miscdevs + 1
    pub blocks : s'.blocks ≡ s.blocks + 3
    pub active : s'.active ≡ s.active ++ cardloc ∷ []

  -- The three ways in which an error lets the device go, with what is left behind.
  abbrev Left : Card → ℤ → Card → Type 0
  Left s r s' =
      IsGivenBack base 0 s s'
      ⊎ ((r ≡ a.misc.misc_register) × IsGivenBack base 2 s s')
      ⊎ (IsStranded s.mappings s.blocks s'
          × IsClear base s'.vectors
          × (s'.miscdevs ≡ s.miscdevs)
          × (s'.active ≡ s.active)
          × (s'.enabled ≡ false))

  abbrev pub Probed : Card → ℤ → Card → Type 0
  Probed s r s' = ((r ≡ pos 0) × IsLive s s') ⊎ ((r ≢ pos 0) × (IsLive s s' ⊎ Left s r s'))

  pub Probed-failed :
      (s : Card) (ret : ℤ)
      → ret ≢ pos 0
      → (r : ℤ) (t : Card) → GivesBack a base s ret 0 r t
      → Probed s r t
  Probed-failed s ret bad r t (same, gone) = inr (rw same bad, inr (inl gone))

  module _ (hz : ℕ) (usleep : Station → Slept) (u : IsUsleep usleep)
      (room : a.jiffies + hz / 2 < 2 ^ 63) (s : Card) where
    tell_server-Probed :
        (c : Configuration) (t : Card)
        → IsLive s t
        → Returns (Probed s) (tell_server hz usleep a cardloc c t)
    unfolding tell_server station_of
    tell_server-Probed c t live =
        let text = imalive c.my_id in
        let (r, h, run, _) =
          Returns-ok (λ _ s'. KeepsWriter (station_of a c t) s')
            (famez_sendmail hz usleep c.server_id text (length text) (station_of a c t))
            (famez_sendmail_total hz usleep c.server_id text (length text) (station_of a c t) u
              room) in
        let same : IsLive s (record t { slots = h.slots }) = record {
          mapped = live.mapped;
          bound = live.bound;
          vectors = live.vectors;
          lookup = live.lookup;
          miscdevs = live.miscdevs;
          blocks = live.blocks;
          active = live.active;
        } in
        rw (run, tell_server)
          (elim (Bool-cases (is_zero (ready_result r (length text)))) [
            | inl good ↦ inl (is_zero-true (ready_result r (length text)) good, same)
            | inr bad ↦ inr (is_zero-false (ready_result r (length text)) bad, inl same)
          ])

    activate-Probed :
        (c : Configuration) (t : Card)
        → HoldsConfig 3 c s t
        → (t.has_drvdata ≡ true) × (t.enabled ≡ true)
        → IsReady base a.config.bar2.n_slots t.vectors
        → t.teardown_lookup ≡ some (misc_name a.config.devfn)
        → t.miscdevs ≡ s.miscdevs + 1
        → Returns (Probed s) (activate hz usleep a cardloc c t)
    unfolding activate
    activate-Probed c t h bound ready there misc = elim (Bool-cases (is_active cardloc t.active)) [
      | inl again ↦
          rw (again, activate)
            (Returns-mono (GivesBack a base s e_already 0) (Probed s) _
              (undo_bridge-GivesBack a base s e_already 0 c t (misc_name a.config.devfn)
                (h.0, h.1, h.2, omega (arith, h.3), h.4) ready there misc)
              (Probed-failed s e_already (negsuc-nonzero 113)))
      | inr new ↦
          rw (new, activate)
            (tell_server-Probed c _ (record {
              mapped = (h.1.0, h.1.1, h.2);
              bound = bound;
              vectors = ready;
              lookup = there;
              miscdevs = misc;
              blocks = h.3;
              active = ap (λ l. l ++ cardloc ∷ []) h.4;
            }))
    ]

    pub add_bridge-Probed :
        (c : Configuration) (t : Card)
        → HoldsConfig 1 c s t
        → (t.has_drvdata ≡ true) × (t.enabled ≡ true)
        → IsReady base a.config.bar2.n_slots t.vectors
        → t.miscdevs ≡ s.miscdevs
        → Returns (Probed s) (add_bridge hz usleep a cardloc c t)
    unfolding add_bridge famez_bridge_setup
    add_bridge-Probed c t h bound ready misc =
        let no_memory =
          Returns-mono (GivesBack a base s e_nomem 0) (Probed s) (undo_msix a e_nomem c t)
            (undo_msix-GivesBack a base s e_nomem 0 c t h ready misc)
            (Probed-failed s e_nomem (negsuc-nonzero 11)) in
        elim (Bool-cases a.misc.lookup_ok) [
          | inr e ↦ simp (e, famez_bridge_setup) no_memory
          | inl lookup ↦ elim (Bool-cases a.misc.name_ok) [
            | inr e ↦ simp (lookup, e, famez_bridge_setup) no_memory
            | inl name ↦ elim (Bool-cases (is_zero a.misc.misc_register)) [
              | inl good ↦
                  simp (lookup, name, good, famez_bridge_setup)
                    (activate-Probed c _ (h.0, h.1, h.2, omega (arith, h.3), h.4) bound ready refl
                      (omega (arith, misc)))
              | inr bad ↦
                  simp (lookup, name, bad, famez_bridge_setup)
                    (Returns-mono (GivesBack a base s a.misc.misc_register 2) (Probed s) _
                      (undo_msix-GivesBack a base s a.misc.misc_register 2 c _
                        (h.0, h.1, h.2, omega (arith, h.3), h.4) ready misc)
                      λ r t' (same, gone). inr (
                        rw same (is_zero-false a.misc.misc_register bad),
                        inr (inr (inl (same, gone))),
                      ))
            ]
          ]
        ]
