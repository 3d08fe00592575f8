-- ===== src/Exchange/Network/Interrupts.antt =====
-- An interrupt hands the message of its sender to the host.
use native.Mathlib.Decide.{ℕ_discrete}
use fame_z.Base.{
  ==_refl, Bool, Bool-cases, List, ap, arith, false, inl, inr, none, ok, refl, some, sym, true, ℕ,
  ◌==◌, ◌∙◌, ◌≡◌, ◌≢◌,
}
use fame_z.Exchange.Mailbox.{
  Boxes, act, hand, hand_to, handed, handed-peer, posted, posted-ne-handed, put, update,
  update_other, update_self,
}
use fame_z.Exchange.Network.{Net, Wiring, at_host, commit, lower, ring, see}
use fame_z.Exchange.Network.Relation.{
  Agrees, Agrees-frame, Agrees-posted, Carries, HasHanded, IsWired, Represents, see-IsWired,
}
use fame_z.Exchange.Network.View.{IsSound, Wrote, commit-HasIds, commit_other, commit_self, see-mem}
use fame_z.Famez.Interrupt.{all_msix, irq_handled}
use fame_z.Famez.Interrupt.Delivery.{Names, all_msix-delivers, delivered}
use fame_z.Famez.Link.{recognise, stamp_sender}
use fame_z.Famez.Slots.{IsPeer, calculate_mailslot, calculate_mailslot_iff}
use fame_z.Famez.Types.{Host, Kernel, Mailslot}

stamp_sender-Carries : (msg : List ℕ) (s : Mailslot) → Carries msg s → Carries msg (stamp_sender s)
unfolding stamp_sender
stamp_sender-Carries msg s c = c

hand_to-posted : (j : ℕ) (msg : List ℕ) → hand_to j (posted j msg) ≡ some (handed j msg)
unfolding hand_to
hand_to-posted j msg = rw (==_refl j)

module _ (x : Wiring) (sound : IsSound x) (w : Net) (b : Boxes) (j i : ℕ) where
  abbrev place : ℕ
  place = at_host x j i

  abbrev host_after : Host
  host_after = delivered place (see x w j)

  abbrev after : Net
  after = commit x (lower j i w) j host_after

  module _ (msg : List ℕ) (rep : Represents x w b) (q : IsPeer x.globals i)
      (up : b i ≡ posted j msg) (quiet : (w.host j).adapter.incoming_slot ≡ none) where
    stamped : Mailslot
    stamped = stamp_sender ((see x w j).slots place)

    wrote : Wrote x sound (lower j i w) j i stamped host_after
    unfolding stamped see
    wrote = refl

    stamped-peer_id : stamped.peer_id ≡ (w.mem i).peer_id
    unfolding stamped stamp_sender
    stamped-peer_id = ap (λ (s : Mailslot). s.peer_id) (see-mem x sound w j i q)

    posted_slot : Agrees w i (posted j msg)
    posted_slot = rw up at (rep.slots i q)

    pub mem-handed : after.mem i ≡ stamp_sender (w.mem i)
    unfolding stamped
    mem-handed =
        commit_self x sound (lower j i w) j i stamped host_after wrote
        ∙ ap stamp_sender (see-mem x sound w j i q)

    pub mem-unhanded : (n : ℕ) → IsPeer x.globals n → n ≢ i → after.mem n ≡ w.mem n
    mem-unhanded n p differ =
        commit_other x sound (lower j i w) j i n stamped host_after wrote q p differ

    carried : Carries msg (after.mem i)
    carried = rw mem-handed (stamp_sender-Carries msg (w.mem i) posted_slot.0)

    cleared : (k : ℕ) → after.pending k i ≡ false
    unfolding commit ring see
    cleared k = elim (ℕ_discrete k j) [
      | yes e ↦ rw e (rw (==_refl j, ==_refl i) refl)
      | no differ ↦
          let e : (k == j) ≡ false = ground (arith, differ) in rw e (posted_slot.2 k differ)
    ]

    others : (k n : ℕ) → n ≢ i → after.pending k n ≡ w.pending k n
    unfolding commit ring see
    others k n differ =
        let e : (n == i) ≡ false = ground (arith, differ) in
        elim (Bool-cases (k == j)) [ inl t ↦ rw (e, t) | inr f ↦ rw (e, f) ]

    slots_after : (n : ℕ) → IsPeer x.globals n → Agrees after n (update i (handed j msg) b n)
    slots_after n p = elim (ℕ_discrete n i) [
      | yes e ↦ rw e (rw (==_refl i) (carried, cleared))
      | no differ ↦ rw (update_other i n (handed j msg) b differ) (
          Agrees-frame w after n (b n)
            (commit_other x sound (lower j i w) j i n stamped host_after wrote q p differ)
            (λ k. others k n differ) (rep.slots n p))
    ]

    incoming_here : (after.host j).adapter.incoming_slot ≡ some place
    unfolding commit
    incoming_here = ap (λ (g : Host). g.adapter.incoming_slot) (update_self j host_after w.host)

    incoming_elsewhere :
        (n : ℕ) → n ≢ j → (after.host n).adapter.incoming_slot ≡ (w.host n).adapter.incoming_slot
    unfolding commit
    incoming_elsewhere n differ =
        ap (λ (g : Host). g.adapter.incoming_slot) (update_other j n host_after w.host differ)

    incoming_after :
        (k a : ℕ)
        → (after.host k).adapter.incoming_slot ≡ some a
        → HasHanded x (update i (handed j msg) b) k a
    incoming_after k a taken = elim (ℕ_discrete k j) [
      | yes e ↦
          let at_j : (after.host j).adapter.incoming_slot ≡ some a = rw e at taken in
          let both : some place ≡ some a = sym incoming_here ∙ at_j in
          let here : a ≡ at_host x k i = rw e (sym (cc both)) in
          (i, q, here, (msg, update_self i (handed j msg) b ∙ ap (λ n. handed n msg) (sym e)))
      | no differ ↦
          let (n, p, at_n, (m, held)) =
            rep.incoming k a (sym (incoming_elsewhere k differ) ∙ taken) in
          let elsewhere : n ≢ i = λ e. posted-ne-handed j k msg m (sym up ∙ ap b (sym e) ∙ held) in
          (n, p, at_n, (m, update_other i n (handed j msg) b elsewhere ∙ held))
    ]

    held_after :
        (n k : ℕ) (m : List ℕ)
        → IsPeer x.globals n
        → update i (handed j msg) b n ≡ handed k m
        → (after.host k).adapter.incoming_slot ≡ some (at_host x k n)
    held_after n k m p there = elim (ℕ_discrete n i) [
      | yes e ↦
          let same : j ≡ k =
            handed-peer j k msg m
              (sym (ap (update i (handed j msg) b) e ∙ update_self i (handed j msg) b) ∙ there) in
          rw (e, ← same) incoming_here
      | no differ ↦
          let before = rep.held n k m p (sym (update_other i n (handed j msg) b differ) ∙ there) in
          elim (ℕ_discrete k j) [
            | yes e ↦
                let taken : none ≡ some (at_host x k n) =
                  sym quiet ∙ ap (λ a. (w.host a).adapter.incoming_slot) (sym e) ∙ before in
                cc taken
            | no other ↦ incoming_elsewhere k other ∙ before
          ]
    ]

    IsWired-here : IsWired x j host_after
    unfolding see
    IsWired-here = let r = rep.wired j in (r.0, r.1, r.2, r.3, refl, r.5, r.6)

    IsWired-after : (k : ℕ) → IsWired x k (after.host k)
    unfolding commit see
    IsWired-after k = elim (ℕ_discrete k j) [
      | yes e ↦ rw e (rw (==_refl j) (IsWired-here))
      | no differ ↦ rw (update_other j k host_after w.host differ) (rep.wired k)
    ]

    pub handed-Represents : Represents x after (update i (handed j msg) b)
    handed-Represents = record {
      slots = slots_after;
      incoming = incoming_after;
      held = held_after;
      wired = IsWired-after;
      ids =
          commit-HasIds x sound (lower j i w) j i stamped host_after wrote q stamped-peer_id
            rep.ids;
    }

  see-recognise :
      (s : Mailslot)
      → recognise (w.host j).adapter.max_buflen s ≡ none
      → recognise (see x w j).adapter.max_buflen s ≡ none
  unfolding see
  see-recognise s e = e

  -- What the handler does with an interrupt for a message that the link layer leaves alone.
  pub all_msix-hands :
      (k : Kernel) (vector : ℕ)
      → Represents x w b
      → IsPeer x.globals i
      → Names (see x w j) (x.entries j) i vector
      → recognise (w.host j).adapter.max_buflen (stamp_sender (w.mem i)) ≡ none
      → all_msix k vector (see x w j) ≡ ok irq_handled host_after
  all_msix-hands k vector rep q names plain_ =
      let wired = see-IsWired x w b j rep in
      let found : calculate_mailslot (see x w j).adapter.globals (see x w j).bar2 i ≡ some place =
        rw (wired.0, wired.1) ((calculate_mailslot_iff (x.base j) x.globals i).0 q) in
      let unread : recognise (see x w j).adapter.max_buflen (stamp_sender ((see x w j).slots place))
          ≡ none =
        rw (see-mem x sound w j i q) (see-recognise (stamp_sender (w.mem i)) plain_) in
      all_msix-delivers k (see x w j) (x.entries j) i vector place wired.4
        (record { table = wired.5; enough = rw wired.0 wired.6 }) names found unread

  -- An interrupt that is pending, for a message that the link layer leaves alone, is a hand-off
  -- that the mailbox allows.
  pub interrupts-Represents :
      (k : Kernel) (vector : ℕ) (r : Bool) (h : Host)
      → Represents x w b
      → IsPeer x.globals i
      → w.pending j i ≡ true
      → Names (see x w j) (x.entries j) i vector
      → (w.host j).adapter.incoming_slot ≡ none
      → recognise (w.host j).adapter.max_buflen (stamp_sender (w.mem i)) ≡ none
      → all_msix k vector (see x w j) ≡ ok r h
      → (c : Boxes) × (act (hand i j) b ≡ some c) × Represents x (commit x (lower j i w) j h) c
  unfolding act hand_to
  interrupts-Represents k vector r h rep q pending names quiet plain_ run =
      let (msg, up) = Agrees-posted w i j (b i) (rep.slots i q) pending in
      let same : h ≡ host_after = cc (all_msix-hands k vector rep q names plain_) in
      (
        update i (handed j msg) b,
        ap (λ p. put i (hand_to j p) b) up ∙ ap (λ o. put i o b) (hand_to-posted j msg),
        rw same (handed-Represents msg rep q up quiet),
      )
