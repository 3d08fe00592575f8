-- ===== src/Exchange/Network/Answers.antt =====
-- What the mailbox holds behind an interrupt for a request that the link layer answers: the message
-- is taken, and the answer is posted.
use native.Mathlib.Decide.{ℕ_discrete}
use fame_z.Base.{
  ==_refl, Bool, Bool-cases, List, [], ap, arith, bytes_eq_refl, false, if◌then◌else◌, inl, inr,
  length, refl, some, sym, true, ℕ, ◌&&◌, ◌<◌, ◌==◌, ◌∙◌, ◌∷◌, ◌≡◌, ◌≢◌,
}
use fame_z.Base.Text.{read_bytes}
use fame_z.Base.Text.Memory.{read_bytes-Holds}
use fame_z.Exchange.Mailbox.{
  Boxes, act, handed, idle, idle-ne-handed, post_to, posted, posted-ne-handed, respond, take_by,
  update, update_other, update_self,
}
use fame_z.Exchange.Network.{Net, Wiring, at_host, commit, lower, see}
use fame_z.Exchange.Network.Relation.{
  Agrees, Agrees-frame, Carries, IsWired, Represents, own_slot-see, see-IsWired,
}
use fame_z.Exchange.Network.View.{HasIds, IsSound, at_host_ne, ring-ringer, see-mem}
use fame_z.Famez.Link.{stamp_sender}
use fame_z.Famez.Link.Answers.{Answered, served_slot}
use fame_z.Famez.Outgoing.{fill_slot, ringer}
use fame_z.Famez.Outgoing.Message.{fill_slot-message}
use fame_z.Famez.Slots.{IsPeer, IsPeer-le}
use fame_z.Famez.Types.{
  Adapter, CoreStructure, Host, Mailslot, own_slot, write_slot, write_slot_other, write_slot_self,
}

module _ (x : Wiring) (sound : IsSound x) (w : Net) (b : Boxes) (j i : ℕ) where
  abbrev place : ℕ
  place = at_host x j i

  module _ (text : List ℕ) (c : CoreStructure) (handled : Bool) (h : Host) (rep : Represents x w b)
      (p : IsPeer x.globals j) (q : IsPeer x.globals i) (differ : i ≢ j)
      (a : Answered text c (see x w j) place handled h) where
    abbrev after : Net
    after = commit x (lower j i w) j h

    abbrev answer_slot : Mailslot
    answer_slot = fill_slot i text (length text) (w.mem j)

    own_place : (see x w j).adapter.my_slot ≡ at_host x j j
    own_place = (see-IsWired x w b j rep).3

    own_mem : own_slot (see x w j) ≡ w.mem j
    own_mem = own_slot-see x sound w b j rep p

    there : (see x w j).slots place ≡ w.mem i
    there = see-mem x sound w j i q

    sender : ((see x w j).slots place).peer_id ≡ i
    sender = ap (λ (s : Mailslot). s.peer_id) there ∙ rep.ids i q

    -- The slots in the mailbox: the answer in the own slot, and the message of the sender gone.
    slots-h :
        h.slots
        ≡ write_slot
            (at_host x j j)
            answer_slot
            (write_slot place (served_slot (w.mem i)) (see x w j).slots)
    slots-h = rw (sender, own_mem, own_place, there) at a.slots

    pub mem-answer : after.mem j ≡ answer_slot
    unfolding commit
    mem-answer =
        ap (λ f. f (at_host x j j)) slots-h
        ∙ write_slot_self (at_host x j j) answer_slot
            (write_slot place (served_slot (w.mem i)) (see x w j).slots)

    mem-elsewhere :
        (n : ℕ)
        → IsPeer x.globals n
        → n ≢ j
        → after.mem n ≡ write_slot place (served_slot (w.mem i)) (see x w j).slots (at_host x j n)
    unfolding commit
    mem-elsewhere n r d =
        ap (λ f. f (at_host x j n)) slots-h
        ∙ write_slot_other (at_host x j j) (at_host x j n) answer_slot
            (write_slot place (served_slot (w.mem i)) (see x w j).slots)
            (at_host_ne x sound j n j r p d)

    mem-served : after.mem i ≡ served_slot (w.mem i)
    mem-served =
        mem-elsewhere i q differ ∙ write_slot_self place (served_slot (w.mem i)) (see x w j).slots

    mem_other : (n : ℕ) → IsPeer x.globals n → n ≢ j → n ≢ i → after.mem n ≡ w.mem n
    mem_other n r d e =
        mem-elsewhere n r d
        ∙ write_slot_other place (at_host x j n) (served_slot (w.mem i)) (see x w j).slots
            (at_host_ne x sound j n i r q e)
        ∙ see-mem x sound w j n r

    ids_after : HasIds x after
    unfolding fill_slot stamp_sender
    ids_after n r = elim (ℕ_discrete n j) [
      | yes e ↦ rw e (ap (λ (s : Mailslot). s.peer_id) mem-answer ∙ rep.ids j p)
      | no d ↦ elim (ℕ_discrete n i) [
        | yes e ↦ rw e (ap (λ (s : Mailslot). s.peer_id) mem-served ∙ rep.ids i q)
        | no o ↦ ap (λ (s : Mailslot). s.peer_id) (mem_other n r d o) ∙ rep.ids n r
      ]
    ]

    -- The doorbell rings at the sender, with the own id.
    rung :
        (k n : ℕ)
        → after.pending k n ≡ (if (k == i) && (n == j) then true else (lower j i w).pending k n)
    unfolding commit see
    rung k n =
        let rang : h.doorbells ≡ ringer i j ∷ [] =
          rw (sender, (see-IsWired x w b j rep).2) at a.rang in
        rw rang (
          ring-ringer x sound (lower j i w).pending i j k n
            (IsPeer-le (x.base i) x.globals i (sound.fits i) q)
            (IsPeer-le (x.base j) x.globals j (sound.fits j) p))

    module _ (msg : List ℕ) (up : b i ≡ posted j msg) (empty : b j ≡ idle)
        (some_text : 0 < length text) where
      abbrev boxes_after : Boxes
      boxes_after = update j (posted i text) (update i idle b)

      posted_slot : Agrees w i (posted j msg)
      posted_slot = rw up at (rep.slots i q)

      idle_slot : Agrees w j idle
      idle_slot = rw empty at (rep.slots j p)

      rung_here : after.pending i j ≡ true
      rung_here = rung i j ∙ rw (==_refl i, ==_refl j)

      rung_quiet : (k : ℕ) → k ≢ i → after.pending k j ≡ false
      rung_quiet k d =
          let e : (k == i) ≡ false = ground (arith, d) in
          let s : (j == i) ≡ false = ground (arith, differ) in
          rung k j
          ∙ rw e (
              rw s (elim (Bool-cases (k == j)) [
                | inl t ↦ rw t (idle_slot.1 k)
                | inr f ↦ rw f (idle_slot.1 k)
              ]))

      rung_done : (k : ℕ) → after.pending k i ≡ false
      rung_done k =
          let s : (i == j) ≡ false = ground (arith, differ) in
          rung k i ∙ elim (ℕ_discrete k j) [
            | yes e ↦ ground (arith, s)
            | no d ↦ ground (arith, s, posted_slot.2 k d)
          ]

      rung_other : (k n : ℕ) → n ≢ i → n ≢ j → after.pending k n ≡ w.pending k n
      rung_other k n d e =
          let s : (n == i) ≡ false = ground (arith, d) in
          let t : (n == j) ≡ false = ground (arith, e) in rung k n ∙ ground (arith, s, t)

      answer-Carries : Carries text (after.mem j)
      answer-Carries =
          let m = fill_slot-message i text (w.mem j) in rw mem-answer (m.3, m.0, some_text)

      slots_after : (n : ℕ) → IsPeer x.globals n → Agrees after n (boxes_after n)
      slots_after n r = elim (ℕ_discrete n j) [
        | yes e ↦ rw e (
            rw (update_self j (posted i text) (update i idle b))
              (answer-Carries, rung_here, rung_quiet))
        | no d ↦ rw (update_other j n (posted i text) (update i idle b) d) (elim (ℕ_discrete n i) [
          | yes e ↦
              rw e
                (rw (update_self i idle b) (ap (λ (s : Mailslot). s.buflen) mem-served, rung_done))
          | no o ↦ rw (update_other i n idle b o) (
              Agrees-frame w after n (b n) (mem_other n r d o) (λ k. rung_other k n o d)
                (rep.slots n r))
        ])
      ]

      incoming_after :
          (k : ℕ) → (after.host k).adapter.incoming_slot ≡ (w.host k).adapter.incoming_slot
      unfolding commit see
      incoming_after k = elim (ℕ_discrete k j) [
        | yes e ↦ rw e (rw (==_refl j) (ap (λ (t : Adapter). t.incoming_slot) a.adapter))
        | no d ↦ ap (λ (g : Host). g.adapter.incoming_slot) (update_other j k h w.host d)
      ]

      IsWired-after : (k : ℕ) → IsWired x k (after.host k)
      unfolding commit see
      IsWired-after k = elim (ℕ_discrete k j) [
        | yes e ↦
            let r = see-IsWired x w b j rep in
            rw e (rw (==_refl j) (rw (a.bar2, a.adapter) (r.0, r.1, r.2, r.3, refl, r.5, r.6)))
        | no d ↦ rw (update_other j k h w.host d) (rep.wired k)
      ]

      boxes_other : (n : ℕ) → n ≢ j → n ≢ i → boxes_after n ≡ b n
      boxes_other n d o =
          update_other j n (posted i text) (update i idle b) d ∙ update_other i n idle b o

      held_after :
          (n k : ℕ) (m : List ℕ)
          → IsPeer x.globals n
          → boxes_after n ≡ handed k m
          → (after.host k).adapter.incoming_slot ≡ some (at_host x k n)
      held_after n k m r there = elim (ℕ_discrete n j) [
        | yes e ↦
            let at_j : boxes_after j ≡ handed k m = ap boxes_after (sym e) ∙ there in
            absurd (
              posted-ne-handed i k text m
                (sym (update_self j (posted i text) (update i idle b)) ∙ at_j))
        | no d ↦ elim (ℕ_discrete n i) [
          | yes e ↦
              let at_i : boxes_after i ≡ handed k m = ap boxes_after (sym e) ∙ there in
              absurd (
                idle-ne-handed k m (
                  sym (
                    update_other j i (posted i text) (update i idle b) differ
                    ∙ update_self i idle b)
                  ∙ at_i))
          | no o ↦ incoming_after k ∙ rep.held n k m r (sym (boxes_other n d o) ∙ there)
        ]
      ]

      pub answered-Represents : Represents x after boxes_after
      answered-Represents = record {
        slots = slots_after;
        incoming = λ k place taken.
            let (n, r, at_n, (m, held)) = rep.incoming k place (sym (incoming_after k) ∙ taken) in
            let d : n ≢ j = λ e. idle-ne-handed k m (sym empty ∙ ap b (sym e) ∙ held) in
            let o : n ≢ i = λ e. posted-ne-handed j k msg m (sym up ∙ ap b (sym e) ∙ held) in
            (n, r, at_n, (m, boxes_other n d o ∙ held));
        held = held_after;
        wired = IsWired-after;
        ids = ids_after;
      }

      -- The request and the answer are an event that the mailbox allows.
      pub act-answered :
          act (respond i j (read_bytes (w.mem i).buflen (w.mem i).buf 0) text) b ≡ some boxes_after
      unfolding act take_by post_to
      act-answered =
          let read : read_bytes (w.mem i).buflen (w.mem i).buf 0 ≡ msg =
            ap (λ n. read_bytes n (w.mem i).buf 0) posted_slot.0.0
            ∙ read_bytes-Holds (w.mem i).buf 0 msg posted_slot.0.1 in
          let still : update i idle b j ≡ idle =
            update_other i j idle b (λ e. differ (sym e)) ∙ empty in
          rw (read, up) (rw (==_refl j, bytes_eq_refl msg) (rw still refl))
