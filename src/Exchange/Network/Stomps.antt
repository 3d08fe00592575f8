-- ===== src/Exchange/Network/Stomps.antt =====
-- An interrupt for a message while the reader has not taken the last one: the new message takes its
-- place, and the other one is stranded in its sender's slot.
use mathlib.Core.Path.{fun_ext}
use native.Mathlib.Decide.{ℕ_discrete}
use fame_z.Base.{
  ==_refl, Bool, Bool-cases, List, [], ap, inl, inr, none, ok, refl, some, sym, true, ℕ, ◌-◌, ◌/◌,
  ◌==◌, ◌∙◌, ◌≡◌, ◌≢◌,
}
use fame_z.Exchange.Mailbox.{
  Boxes, act, hand_to, handed, handed-peer, posted, posted-ne-handed, strand_at, stranded,
  stranded-ne-handed, supplant, update, update_other, update_self,
}
use fame_z.Exchange.Network.{Net, Wiring, at_host, commit, lower, see}
use fame_z.Exchange.Network.Interrupts.{all_msix-hands, handed-Represents}
use fame_z.Exchange.Network.Relation.{
  Agrees, Agrees-frame, Agrees-posted, HasHanded, Represents, incoming-handed,
}
use fame_z.Exchange.Network.View.{IsSound, at_host_ne}
use fame_z.Famez.Interrupt.{all_msix}
use fame_z.Famez.Interrupt.Delivery.{Names, delivered}
use fame_z.Famez.Link.{recognise, stamp_sender}
use fame_z.Famez.Slots.{IsPeer}
use fame_z.Famez.Types.{Host, Kernel, set_adapter}

-- Host `j` with no slot for its reader.
abbrev forgetful : Host → Host
forgetful h = set_adapter (λ a. record a { incoming_slot = none }) h

abbrev forget : ℕ → Net → Net
forget j w = record w { host = update j (forgetful (w.host j)) w.host }

update_twice : (j : ℕ) (h g : Host) (f : ℕ → Host) → update j h (update j g f) ≡ update j h f
update_twice j h g f =
    fun_ext (λ n. elim (Bool-cases (n == j)) [ inl e ↦ rw e refl | inr e ↦ rw e refl ])

module _ (x : Wiring) (sound : IsSound x) (w : Net) (b : Boxes) (j n : ℕ) (msg : List ℕ)
    (rep : Represents x w b) (r : IsPeer x.globals n) (held : b n ≡ handed j msg) where
  abbrev boxes : Boxes
  boxes = update n (stranded j msg) b

  forgotten : ((forget j w).host j).adapter.incoming_slot ≡ none
  forgotten =
      ap (λ (g : Host). g.adapter.incoming_slot) (update_self j (forgetful (w.host j)) w.host)

  kept : (k : ℕ) → k ≢ j → (forget j w).host k ≡ w.host k
  kept k differ = update_other j k (forgetful (w.host j)) w.host differ

  stranded_slot : Agrees w n (stranded j msg)
  stranded_slot = rw held at (rep.slots n r)

  slots_after : (i : ℕ) → IsPeer x.globals i → Agrees (forget j w) i (boxes i)
  slots_after i p = elim (ℕ_discrete i n) [
    | yes e ↦ rw e (rw (update_self n (stranded j msg) b) stranded_slot)
    | no differ ↦
        rw (update_other n i (stranded j msg) b differ)
          (Agrees-frame w (forget j w) i (b i) refl (λ k. refl) (rep.slots i p))
  ]

  incoming_after :
      (k a : ℕ) → ((forget j w).host k).adapter.incoming_slot ≡ some a → HasHanded x boxes k a
  incoming_after k a taken = elim (ℕ_discrete k j) [
    | yes e ↦
        let gone : none ≡ some a =
          sym forgotten ∙ ap (λ m. ((forget j w).host m).adapter.incoming_slot) (sym e) ∙ taken in
        cc gone
    | no differ ↦
        let before = sym (ap (λ (g : Host). g.adapter.incoming_slot) (kept k differ)) ∙ taken in
        let (i, p, at_i, (m, there)) = rep.incoming k a before in
        let elsewhere : i ≢ n = λ e. differ (handed-peer k j m msg (sym there ∙ ap b e ∙ held)) in
        (i, p, at_i, (m, update_other n i (stranded j msg) b elsewhere ∙ there))
  ]

  held_after :
      (i k : ℕ) (m : List ℕ)
      → IsPeer x.globals i
      → boxes i ≡ handed k m
      → ((forget j w).host k).adapter.incoming_slot ≡ some (at_host x k i)
  held_after i k m p there = elim (ℕ_discrete i n) [
    | yes e ↦
        absurd (
          stranded-ne-handed j k msg m
            (sym (ap boxes e ∙ update_self n (stranded j msg) b) ∙ there))
    | no differ ↦
        let before = rep.held i k m p (sym (update_other n i (stranded j msg) b differ) ∙ there) in
        elim (ℕ_discrete k j) [
          | yes e ↦
              let mine : (w.host j).adapter.incoming_slot ≡ some (at_host x j i) = rw e at before in
              let both : some (at_host x j i) ≡ some (at_host x j n) =
                sym mine ∙ rep.held n j msg r held in
              absurd (at_host_ne x sound j i n p r differ (cc both))
          | no other ↦ ap (λ (g : Host). g.adapter.incoming_slot) (kept k other) ∙ before
        ]
  ]

  forget-Represents : Represents x (forget j w) boxes
  forget-Represents = record {
    slots = slots_after;
    incoming = incoming_after;
    held = held_after;
    wired = λ k. elim (ℕ_discrete k j) [
      | yes e ↦ rw e (rw (update_self j (forgetful (w.host j)) w.host) (rep.wired j))
      | no differ ↦ rw (kept k differ) (rep.wired k)
    ];
    ids = rep.ids;
  }

  -- The new message is handed over as if there had been none.
  delivered-forget :
      (i : ℕ)
      → commit x (lower j i (forget j w)) j (delivered (at_host x j i) (see x (forget j w) j))
        ≡ commit x (lower j i w) j (delivered (at_host x j i) (see x w j))
  unfolding commit see
  delivered-forget i =
      let place = at_host x j i in
      let same : delivered place (see x (forget j w) j) ≡ delivered place (see x w j) =
        ap
          (λ (g : Host).
            delivered place (record g {
              slots = λ p. w.mem ((p - x.base j) / x.globals.slotsize);
              doorbells = [];
            }))
          (update_self j (forgetful (w.host j)) w.host) in
      ap (λ h. commit x (lower j i (forget j w)) j h) same
      ∙ ap (λ f. record (commit x (lower j i w) j (delivered place (see x w j))) { host = f })
          (update_twice j (delivered place (see x w j)) (forgetful (w.host j)) w.host)

-- An interrupt that is pending, for a message that the link layer leaves alone, while the reader's
-- slot is that of another peer, strands the message of that peer: the mailbox allows it.
pub stomps-Represents :
    (x : Wiring) (sound : IsSound x) (w : Net) (b : Boxes) (j i n : ℕ) (k : Kernel) (vector : ℕ)
    (r : Bool) (h : Host)
    → Represents x w b
    → IsPeer x.globals i
    → IsPeer x.globals n
    → w.pending j i ≡ true
    → Names (see x w j) (x.entries j) i vector
    → (w.host j).adapter.incoming_slot ≡ some (at_host x j n)
    → recognise (w.host j).adapter.max_buflen (stamp_sender (w.mem i)) ≡ none
    → all_msix k vector (see x w j) ≡ ok r h
    → (c : Boxes) × (act (supplant i n j) b ≡ some c) × Represents x (commit x (lower j i w) j h) c
unfolding act hand_to strand_at
stomps-Represents x sound w b j i n k vector r h rep q p pending names taken plain_ run =
    let (msg, up) = Agrees-posted w i j (b i) (rep.slots i q) pending in
    let (m, held) = incoming-handed x sound w b j n rep p taken in
    let same : h ≡ delivered (at_host x j i) (see x w j) =
      cc (all_msix-hands x sound w b j i k vector rep q names plain_, run) in
    let c = update n (stranded j m) b in
    let differ : i ≢ n = λ e. posted-ne-handed j j msg m (sym up ∙ ap b e ∙ held) in
    let still : c i ≡ posted j msg = update_other n i (stranded j m) b differ ∙ up in
    let rep' = forget-Represents x sound w b j n m rep p held in
    let after =
      handed-Represents x sound (forget j w) c j i msg rep' q still
        (forgotten x sound w b j n m rep p held) in
    (
      update i (handed j msg) c,
      rw held (rw (==_refl j) (rw still (rw (==_refl j) refl))),
      rw same (rw (delivered-forget x sound w b j n m rep p held i) at after),
    )
