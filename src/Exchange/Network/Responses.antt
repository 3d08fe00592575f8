-- ===== src/Exchange/Network/Responses.antt =====
-- An interrupt for a request that the link layer answers is a response that the mailbox allows.
use fame_z.Base.{Bool, List, Returns, ap, arith, length, ok, some, sym, true, ℕ, ◌∙◌, ◌≡◌, ◌≢◌, ◌≤◌}
use fame_z.Base.Text.{read_bytes}
use fame_z.Exchange.Mailbox.{Boxes, act, idle, posted, respond, update}
use fame_z.Exchange.Network.{Net, Wiring, at_host, commit, lower, see}
use fame_z.Exchange.Network.Answers.{act-answered, answered-Represents}
use fame_z.Exchange.Network.Relation.{
  Agrees-idle, Agrees-posted, Represents, own_slot-see, see-IsWired,
}
use fame_z.Exchange.Network.View.{IsSound, at_host_ne, see-mem}
use fame_z.Famez.Interrupt.{all_msix}
use fame_z.Famez.Interrupt.Answers.{all_msix-answers}
use fame_z.Famez.Interrupt.Delivery.{Names}
use fame_z.Famez.Link.{sizeof_outbuf}
use fame_z.Famez.Link.Answers.{Answered}
use fame_z.Famez.Link.Requests.{Asks, Asks-some}
use fame_z.Famez.Slots.{IsPeer, IsPeer-le, calculate_mailslot_iff}
use fame_z.Famez.Types.{CoreStructure, Host, Kernel, Mailslot, own_slot}

module _ (x : Wiring) (sound : IsSound x) (w : Net) (b : Boxes) (j i : ℕ) where
  abbrev place : ℕ
  place = at_host x j i

  -- What the handler does with a request, when the own slot is free.
  pub all_msix-responds :
      (k : Kernel) (vector : ℕ) (text : List ℕ) (c : CoreStructure)
      → Represents x w b
      → IsPeer x.globals j
      → IsPeer x.globals i
      → i ≢ j
      → Names (see x w j) (x.entries j) i vector
      → Asks (see x w j) place text c
      → (own_slot (see x w j)).buflen ≡ 0
      → sizeof_outbuf ≤ (w.host j).adapter.max_buflen
      → length (w.host j).adapter.core.base_c_class_str ≤ 32
      → Returns (Answered text c (see x w j) place) (all_msix k vector (see x w j))
  unfolding see
  all_msix-responds k vector text c rep p q differ names asks free room class =
      let wired = see-IsWired x w b j rep in
      let id : ((see x w j).slots place).peer_id ≡ i =
        ap (λ (s : Mailslot). s.peer_id) (see-mem x sound w j i q) ∙ rep.ids i q in
      let high : i ≤ x.globals.server_id = IsPeer-le (x.base i) x.globals i (sound.fits i) q in
      let last = (sound.fits i).last in
      let small = sound.small in
      let low : 1 ≤ i = omega arith in
      all_msix-answers k (see x w j) (x.entries j) i vector place text c wired.4
        (record { table = wired.5; enough = rw wired.0 wired.6 }) names
        (rw (wired.0, wired.1) ((calculate_mailslot_iff (x.base j) x.globals i).0 q)) asks
        (record {
          free = free;
          other = rw wired.3 (at_host_ne x sound j i j q p differ);
          low = rw id low;
          high = rw (id, wired.0) high;
          bound = rw wired.0 (omega (arith, small));
          room = room;
        })
        class

  -- An interrupt that is pending, for a request that the link layer answers from a free slot, is a
  -- response that the mailbox allows.
  pub answers-Represents :
      (k : Kernel) (vector : ℕ) (text : List ℕ) (c : CoreStructure) (r : Bool) (h : Host)
      → Represents x w b
      → IsPeer x.globals j
      → IsPeer x.globals i
      → i ≢ j
      → w.pending j i ≡ true
      → Names (see x w j) (x.entries j) i vector
      → Asks (see x w j) place text c
      → (own_slot (see x w j)).buflen ≡ 0
      → sizeof_outbuf ≤ (w.host j).adapter.max_buflen
      → length (w.host j).adapter.core.base_c_class_str ≤ 32
      → all_msix k vector (see x w j) ≡ ok r h
      → (d : Boxes) × (act (respond i j (read_bytes (w.mem i).buflen (w.mem i).buf 0) text) b
          ≡ some d)
        × Represents x (commit x (lower j i w) j h) d
  answers-Represents k vector text c r h rep p q differ pending names asks free room class run =
      let (msg, up) = Agrees-posted w i j (b i) (rep.slots i q) pending in
      let a : Answered text c (see x w j) place r h =
        rw run at (all_msix-responds k vector text c rep p q differ names asks free room class) in
      let own : (w.mem j).buflen ≡ 0 =
        sym (ap (λ (s : Mailslot). s.buflen) (own_slot-see x sound w b j rep p)) ∙ free in
      let empty = Agrees-idle w j (b j) (rep.slots j p) own in
      let some_text = Asks-some (see x w j) place text c asks in
      (
        update j (posted i text) (update i idle b),
        act-answered x sound w b j i text c r h rep p q differ a msg up empty some_text,
        answered-Represents x sound w b j i text c r h rep p q differ a msg up empty some_text,
      )
