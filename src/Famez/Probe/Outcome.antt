-- ===== src/Famez/Probe/Outcome.antt =====
-- A probe binds the device whole or gives it back; and the list of adapters is not cleaned up.
use fame_z.Base.{
  Bool, Bool-cases, List, Returns, Returns-ok, [], ap, arith, e_already, false, inl, inr, is_neg,
  is_neg-nonzero, is_zero, is_zero-false, is_zero-nonzero, length, negsuc-nonzero, not, refl,
  to_s32, true, ℕ, ◌++◌, ◌+◌, ◌==◌, ◌||◌, ◌∷◌, ◌≡◌, ◌≢◌,
}
use fame_z.Famez.Adapter.{
  AdapterPtr, adapter_err, adapter_ptr, famez_adapter_create, famez_adapter_destroy,
}
use fame_z.Famez.Adapter.Destruction.{FreshOrGone, IsReleased, IsUnbound}
use fame_z.Famez.Adapter.Lifecycle.{famez_adapter_create-FreshOrGone}
use fame_z.Famez.Outgoing.{famez_create_outgoing, sid_cid_is_peer_id}
use fame_z.Famez.Outgoing.Send.{Kept, famez_create_outgoing-Kept}
use fame_z.Famez.Outgoing.Wait.{InTime}
use fame_z.Famez.Probe.{
  Driver, ProbeAnswers, configure, created, disable, enlist, famez_init_one, get_peer_attributes,
  greet, handshake_result, host_of, is_listed, set_up,
}
use fame_z.Famez.Probe.Ends.{
  BoundOrLetGo, IsBuilt, disable-BoundOrLetGo, listed, tear_down-BoundOrLetGo,
}
use fame_z.Famez.Types.{Adapter, Host, Kernel}
use fame_z.Famez.Vectors.{famez_isr_setup}
use fame_z.Famez.Vectors.Handlers.{IsClear, IsReady}
use fame_z.Famez.Vectors.Setup.{ReadyOrClear, famez_isr_setup-ReadyOrClear}

module _ (k : Kernel) (a : ProbeAnswers) (pdev : ℕ) (cardloc : List ℕ) (base : ℕ → ℕ) where
  module _ (events : a.device.bar2.n_events ≡ a.device.bar2.n_clients + 2) where
    module _ (on_time : (h : Host) → h.jiffies ≡ a.jiffies → InTime k 1 h) where
      greet-BoundOrLetGo :
          (adapter : Adapter) (s t : Driver)
          → IsBuilt k a pdev cardloc base s adapter t
          → IsReady base a.device.bar2.n_events t.vectors
          → t.adapters ≡ s.adapters ++ listed k a pdev cardloc base adapter ∷ []
          → Returns (BoundOrLetGo k a pdev cardloc base s) (greet k a pdev cardloc adapter t)
      unfolding greet host_of
      greet-BoundOrLetGo adapter s t b ready last =
          let (r, h, run, _) =
            Returns-ok (λ r h'. Kept (host_of a adapter t) h' × InTime k 0 h')
              (famez_create_outgoing k false (to_s32 a.device.bar2.server_id) sid_cid_is_peer_id
                get_peer_attributes (length get_peer_attributes) (host_of a adapter t))
              (famez_create_outgoing-Kept k false (to_s32 a.device.bar2.server_id)
                sid_cid_is_peer_id get_peer_attributes (length get_peer_attributes)
                (host_of a adapter t) 0 (on_time (host_of a adapter t) refl)) in
          rw (run, greet)
            (elim (Bool-cases (is_zero (handshake_result r))) [
              | inl good ↦ rw good (
                  inl (
                    refl,
                    record {
                      bound = b.bound;
                      vectors = ready;
                      last = (adapter, last, b.blank);
                      blocks = b.blocks;
                      mappings = b.mappings;
                    },
                  ))
              | inr bad ↦ rw bad (
                  tear_down-BoundOrLetGo k a pdev cardloc base events (handshake_result r) adapter s
                    _ (is_zero-false _ bad)
                    (record {
                      blank = b.blank;
                      blocks = b.blocks;
                      mappings = b.mappings;
                      bound = b.bound;
                    })
                    ready)
            ])

      enlist-BoundOrLetGo :
          (adapter : Adapter) (s t : Driver)
          → IsBuilt k a pdev cardloc base s adapter t
          → IsReady base a.device.bar2.n_events t.vectors
          → t.adapters ≡ s.adapters
          → Returns (BoundOrLetGo k a pdev cardloc base s) (enlist k a pdev cardloc adapter t)
      unfolding enlist
      enlist-BoundOrLetGo adapter s t b ready same =
          elim (Bool-cases (is_listed cardloc t.adapters)) [
            | inl there ↦
                rw (there, enlist)
                  (tear_down-BoundOrLetGo k a pdev cardloc base events e_already adapter s t
                    (negsuc-nonzero 113) b ready)
            | inr new ↦
                rw (new, enlist)
                  (greet-BoundOrLetGo adapter s _
                    (record {
                      blank = b.blank;
                      blocks = b.blocks;
                      mappings = b.mappings;
                      bound = b.bound;
                    })
                    ready (ap (λ l. l ++ listed k a pdev cardloc base adapter ∷ []) same))
          ]

      set_up-BoundOrLetGo :
          (adapter : Adapter) (s t : Driver)
          → IsBuilt k a pdev cardloc base s adapter t
          → IsClear base t.vectors
          → t.adapters ≡ s.adapters
          → Returns (BoundOrLetGo k a pdev cardloc base s) (set_up k a pdev cardloc adapter t)
      unfolding set_up
      set_up-BoundOrLetGo adapter s t b clear same =
          let (r, v, run, ended) =
            Returns-ok (ReadyOrClear base a.device.bar2.n_events)
              (famez_isr_setup a.irqs a.device.bar2.n_events t.vectors)
              (famez_isr_setup-ReadyOrClear a.irqs base a.device.bar2.n_events t.vectors clear) in
          let built : IsBuilt k a pdev cardloc base s adapter (record t { vectors = v }) = record {
            blank = b.blank;
            blocks = b.blocks;
            mappings = b.mappings;
            bound = b.bound;
          } in
          rw (run, set_up)
            (elim ended [
              | inl (good, ready) ↦ rw good (enlist-BoundOrLetGo adapter s _ built ready same)
              | inr (bad, cleared) ↦
                  rw (is_zero-nonzero r bad)
                    (disable-BoundOrLetGo k a pdev cardloc base r adapter s _ bad built cleared)
            ])

      created-BoundOrLetGo :
          (p : AdapterPtr) (s t : Driver)
          → FreshOrGone a.device.bar2 s.device p t.device
          → IsClear base t.vectors
          → t.adapters ≡ s.adapters
          → Returns (BoundOrLetGo k a pdev cardloc base s) (created k a pdev cardloc p t)
      unfolding created disable famez_adapter_destroy
      created-BoundOrLetGo (adapter_err e) s t (bad, gone) clear same = inr (
        bad,
        record {
          released = record {
            unbound = gone.unbound;
            mappings = gone.mappings;
            blocks = gone.blocks;
          };
          vectors = clear;
          disabled = refl;
        },
      )
      created-BoundOrLetGo (adapter_ptr adapter) s t (fresh, blank, mappings, blocks) clear same =
          set_up-BoundOrLetGo adapter s t
            (record {
              blank = blank;
              blocks = blocks;
              mappings = ground (arith, fresh.mapped.1, fresh.mapped.2);
              bound = fresh.bound;
            })
            clear same

      configure-BoundOrLetGo :
          (s : Driver)
          → pdev ≢ 0
          → IsUnbound s.device
          → IsClear base s.vectors
          → Returns
              (BoundOrLetGo k a pdev cardloc base s)
              (configure k a pdev cardloc (record s { enabled = true }))
      unfolding configure
      configure-BoundOrLetGo s some_pdev unbound clear =
          let (p, d, run, ended) =
            Returns-ok (FreshOrGone a.device.bar2 s.device)
              (famez_adapter_create a.device pdev s.device)
              (famez_adapter_create-FreshOrGone a.device s.device pdev some_pdev unbound) in
          rw (run, configure) (created-BoundOrLetGo p s _ ended clear refl)

      abbrev lacks : ProbeAnswers → Bool
      lacks b = not (b.revision == 1) || b.msix_cap == 0 || b.resource_start == 0

      -- A probe of a new device, with the clock moving and nEvents = nClients + 2, returns: 0 with
      -- the device bound, its interrupts ready and its adapter last on the list; or an error with
      -- the device's mappings, memory, interrupts and driver data given back and the device
      -- disabled.
      pub famez_init_one-BoundOrLetGo :
          (s : Driver)
          → pdev ≢ 0
          → IsUnbound s.device
          → IsClear base s.vectors
          → s.enabled ≡ false
          → Returns (BoundOrLetGo k a pdev cardloc base s) (famez_init_one k a pdev cardloc s)
      unfolding famez_init_one disable famez_adapter_destroy
      famez_init_one-BoundOrLetGo s some_pdev unbound clear off =
          let same : IsReleased s.device s.device = record {
            unbound = unbound;
            mappings = refl;
            blocks = refl;
          } in
          simp unbound.has_drvdata (elim (Bool-cases (is_neg a.enable_device)) [
            | inl bad ↦ rw bad (
                inr (
                  is_neg-nonzero a.enable_device bad,
                  record { released = same; vectors = clear; disabled = off },
                ))
            | inr good ↦ rw good (elim (Bool-cases (lacks a)) [
              | inl missing ↦ rw missing (
                  inr (
                    negsuc-nonzero 18,
                    record { released = same; vectors = clear; disabled = refl },
                  ))
              | inr yes_ ↦ rw yes_ (configure-BoundOrLetGo s some_pdev unbound clear)
            ])
          ])
