-- ===== src/Exchange/Network/Sends.antt =====
-- A send is a post.
use native.Mathlib.Decide.{ℕ_discrete}
use fame_z.Base.{
  ==_refl, Bool, Bool-cases, List, [], ap, arith, false, if◌then◌else◌, inl, inr, length, ok, some,
  sym, true, ℕ, ℤ, ◌&&◌, ◌==◌, ◌∙◌, ◌∷◌, ◌≡◌, ◌≢◌, ◌≤◌,
}
use fame_z.Exchange.Mailbox.{
  Boxes, act, idle, idle-ne-handed, post, post_to, posted, posted-ne-handed, update, update_other,
  update_self,
}
use fame_z.Exchange.Network.{Net, Wiring, commit, see}
use fame_z.Exchange.Network.Relation.{
  Agrees, Agrees-frame, Agrees-idle, Carries, IsWired, Represents, own_slot-see, see-IsWired,
}
use fame_z.Exchange.Network.View.{
  IsSound, Wrote, commit-HasIds, commit_other, commit_self, ring-ringer,
}
use fame_z.Famez.Outgoing.{famez_create_outgoing, fill_slot, peer_id_of, ringer}
use fame_z.Famez.Outgoing.Message.{fill_slot-message}
use fame_z.Famez.Outgoing.Send.{Accepts, Sent, famez_create_outgoing-Sent}
use fame_z.Famez.Slots.{IsPeer, IsPeer-le}
use fame_z.Famez.Types.{Globals, Host, Kernel, Mailslot, own_slot, write_slot}

module _ (x : Wiring) (sound : IsSound x) (k : Kernel) (w : Net) (b : Boxes) (i : ℕ) (cid sid : ℤ)
    (msg : List ℕ) (h : Host) where
  abbrev to : ℕ
  to = peer_id_of cid sid

  abbrev after : Net
  after = commit x w i h

  module _ (rep : Represents x w b) (p : IsPeer x.globals i)
      (accepts : Accepts (see x w i) cid sid (length msg))
      (sent : Sent (see x w i) h to msg (length msg)) (empty : b i ≡ idle) where
    abbrev written : Mailslot
    written = fill_slot to msg (length msg) (own_slot (see x w i))

    wrote : Wrote x sound w i i written h
    wrote =
        sent.slots ∙ ap (λ a. write_slot a written (see x w i).slots) (see-IsWired x w b i rep).3

    carried : Carries msg (after.mem i)
    carried =
        let m = fill_slot-message to msg (own_slot (see x w i)) in
        rw (commit_self x sound w i i written h wrote) (m.3, m.0, accepts.some_data)

    written-peer_id : written.peer_id ≡ (w.mem i).peer_id
    unfolding fill_slot
    written-peer_id = ap (λ (s : Mailslot). s.peer_id) (own_slot-see x sound w b i rep p)

    -- The doorbell rings at the peer, with the sender's id.
    rung : (j n : ℕ) → after.pending j n ≡ (if (j == to) && (n == i) then true else w.pending j n)
    unfolding commit see
    rung j n =
        let here : h.doorbells ≡ ringer to i ∷ [] =
          sent.rang ∙ ap (λ a. ringer to a ∷ []) (see-IsWired x w b i rep).2 in
        let high : to ≤ x.globals.server_id = omega (
          arith,
          accepts.peer_high,
          ap (λ (g : Globals). g.server_id) (see-IsWired x w b i rep).0,
        ) in
        let own : i ≤ x.globals.server_id = IsPeer-le (x.base i) x.globals i (sound.fits i) p in
        rw here (ring-ringer x sound w.pending to i j n high own)

    rung_other : (j n : ℕ) → n ≢ i → after.pending j n ≡ w.pending j n
    rung_other j n differ =
        let e : (n == i) ≡ false = ground (arith, differ) in
        rung j n ∙ rw e (elim (Bool-cases (j == to)) [ inl t ↦ rw t | inr f ↦ rw f ])

    rung_up : after.pending to i ≡ true
    rung_up = rung to i ∙ rw (==_refl to, ==_refl i)

    rung_elsewhere : (j : ℕ) → j ≢ to → after.pending j i ≡ w.pending j i
    rung_elsewhere j differ = let e : (j == to) ≡ false = ground (arith, differ) in rung j i ∙ rw e

    idle_slot : Agrees w i idle
    idle_slot = rw empty at (rep.slots i p)

    slots_after : (n : ℕ) → IsPeer x.globals n → Agrees after n (update i (posted to msg) b n)
    slots_after n q = elim (ℕ_discrete n i) [
      | yes e ↦ rw e (rw (==_refl i) (carried, rung_up, λ j d. rung_elsewhere j d ∙ idle_slot.1 j))
      | no differ ↦ rw (update_other i n (posted to msg) b differ) (
          Agrees-frame w after n (b n) (commit_other x sound w i i n written h wrote p q differ)
            (λ j. rung_other j n differ) (rep.slots n q))
    ]

    incoming_after :
        (j : ℕ) → (after.host j).adapter.incoming_slot ≡ (w.host j).adapter.incoming_slot
    unfolding commit see
    incoming_after j = elim (ℕ_discrete j i) [
      | yes e ↦ rw e (rw (==_refl i) (ap (λ a. a.incoming_slot) sent.adapter))
      | no differ ↦ ap (λ (g : Host). g.adapter.incoming_slot) (update_other i j h w.host differ)
    ]

    IsWired-after : (j : ℕ) → IsWired x j (after.host j)
    unfolding commit see
    IsWired-after j = elim (ℕ_discrete j i) [
      | yes e ↦ rw e (rw (==_refl i) (rw (sent.bar2, sent.adapter) (see-IsWired x w b i rep)))
      | no differ ↦ rw (update_other i j h w.host differ) (rep.wired j)
    ]

    pub posted-Represents : Represents x after (update i (posted to msg) b)
    posted-Represents = record {
      slots = slots_after;
      incoming = λ j place taken.
          let (n, q, e, (m, held)) = rep.incoming j place (sym (incoming_after j) ∙ taken) in
          let differ : n ≢ i = λ e. idle-ne-handed j m (sym empty ∙ ap b (sym e) ∙ held) in
          (n, q, e, (m, update_other i n (posted to msg) b differ ∙ held));
      held = λ n j m q there. elim (ℕ_discrete n i) [
        | yes e ↦ absurd (
            posted-ne-handed to j msg m
              (sym (ap (update i (posted to msg) b) e ∙ update_self i (posted to msg) b) ∙ there))
        | no differ ↦
            incoming_after j
            ∙ rep.held n j m q (sym (update_other i n (posted to msg) b differ) ∙ there)
      ];
      wired = IsWired-after;
      ids = commit-HasIds x sound w i i written h wrote p written-peer_id rep.ids;
    }

  -- A send from a free slot is a post that the mailbox allows.
  pub sends-Represents :
      (in_interrupt : Bool) (r : ℤ)
      → Represents x w b
      → IsPeer x.globals i
      → (own_slot (see x w i)).buflen ≡ 0
      → Accepts (see x w i) cid sid (length msg)
      → famez_create_outgoing k in_interrupt cid sid msg (length msg) (see x w i) ≡ ok r h
      → (c : Boxes) × (act (post i to msg) b ≡ some c) × Represents x after c
  unfolding act post_to
  sends-Represents in_interrupt r rep p free accepts run =
      let sent =
        (rw run at (
          famez_create_outgoing-Sent k in_interrupt cid sid msg (length msg) (see x w i) accepts
            free)).1 in
      let own : (w.mem i).buflen ≡ 0 =
        ap (λ s. s.buflen) (sym (own_slot-see x sound w b i rep p)) ∙ free in
      let empty = Agrees-idle w i (b i) (rep.slots i p) own in
      (update i (posted to msg) b, rw empty, posted-Represents rep p accepts sent empty)
