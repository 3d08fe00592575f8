-- ===== src/Famez/Probe/Dangling.antt =====
-- A failed handshake leaves its adapter on the list.
use fame_z.Base.{
  List, Returns, Returns-ok, [], arith, false, is_zero, is_zero-false, length, ok, pos, refl,
  to_s32, ℕ, ℤ, ◌++◌, ◌+◌, ◌==◌, ◌∷◌, ◌≡◌, ◌≢◌,
}
use fame_z.Famez.Adapter.{famez_adapter_destroy, unmap_bars}
use fame_z.Famez.Outgoing.{famez_create_outgoing, sid_cid_is_peer_id}
use fame_z.Famez.Probe.{
  Driver, Listed, ProbeAnswers, disable, enlist, get_peer_attributes, greet, handshake_result,
  host_of, is_listed, tear_down,
}
use fame_z.Famez.Types.{Adapter, Host, Kernel}
use fame_z.Famez.Vectors.{famez_isr_teardown}
use fame_z.Famez.Vectors.Handlers.{IsClear, IsReady, famez_isr_teardown-IsClear}

module _ (k : Kernel) (a : ProbeAnswers) (pdev : ℕ) (cardloc : List ℕ) (base : ℕ → ℕ) where
  -- An error, the adapter destroyed, and the list `l`.
  abbrev pub Dangles : List Listed → ℤ → Driver → Type 0
  Dangles l r s' = (r ≢ pos 0) × (s'.adapters ≡ l) × (s'.device.has_drvdata ≡ false)

  tear_down-Dangles :
      (ret : ℤ) (adapter : Adapter) (t : Driver)
      → ret ≢ pos 0
      → adapter.pdev ≢ 0
      → IsReady base (a.device.bar2.n_clients + 2) t.vectors
      → Returns (Dangles t.adapters) (tear_down a ret adapter t)
  unfolding tear_down disable famez_adapter_destroy unmap_bars
  tear_down-Dangles ret adapter t bad some_pdev ready =
      let (u, v, run, _) =
        Returns-ok
          (λ _ s'. IsClear base s' × (famez_isr_teardown a.device.bar2.n_clients s' ≡ ok tt s'))
          (famez_isr_teardown a.device.bar2.n_clients t.vectors)
          (famez_isr_teardown-IsClear base a.device.bar2.n_clients t.vectors ready) in
      let there : (adapter.pdev == 0) ≡ false = ground (arith, some_pdev) in
      rw (run, tear_down) (rw there (bad, refl, refl))

  -- For an adapter with its interrupts, whose location is not on the list yet: when the first
  -- message to the server is not sent whole, the probe tears the device down and returns the
  -- error, but the destroyed adapter stays on the list.
  pub enlist-Dangles :
      (adapter : Adapter) (t : Driver) (r : ℤ) (h : Host)
      → adapter.pdev ≢ 0
      → IsReady base (a.device.bar2.n_clients + 2) t.vectors
      → is_listed cardloc t.adapters ≡ false
      → famez_create_outgoing k false
          (to_s32 a.device.bar2.server_id)
          sid_cid_is_peer_id
          get_peer_attributes
          (length get_peer_attributes)
          (host_of a adapter t)
        ≡ ok r h
      → is_zero (handshake_result r) ≡ false
      → Returns
          (Dangles
            (t.adapters ++ record { pdev = pdev; cardloc = cardloc; adapter = adapter } ∷ []))
          (enlist k a pdev cardloc adapter t)
  unfolding enlist greet host_of
  enlist-Dangles adapter t r h some_pdev ready new run bad =
      rw (new, enlist)
        (rw (run, greet)
          (rw bad (
            tear_down-Dangles (handshake_result r) adapter _ (is_zero-false _ bad) some_pdev
              ready)))
