-- ===== src/Exchange/Network/Progress.antt =====
-- A message under way can be brought to its end.
use fame_z.Base.{
  List, [], ap, false, length, none, ok, pos, refl, some, ℕ, ◌+◌, ◌<◌, ◌^◌, ◌∙◌, ◌∷◌, ◌≡◌, ◌≢◌, ◌≤◌,
}
use fame_z.Base.Text.{read_bytes}
use fame_z.Base.Text.Memory.{read_bytes-Holds}
use fame_z.Bridge.{copy_out, sidcid_text}
use fame_z.Bridge.Read.{copy_out-delivers, famez_bridge_read-released}
use fame_z.Exchange.Mailbox.{
  Boxes, fetch, hand, handed, idle, posted, update, update_other, update_self,
}
use fame_z.Exchange.Network.{
  Net, Turn, Turns, Wiring, at_host, commit, interrupts, lower, no_turn, reads, see, then_,
}
use fame_z.Exchange.Network.Interrupts.{all_msix-hands, handed-Represents, mem-handed, mem-unhanded}
use fame_z.Exchange.Network.Reads.{after-Represents, buflen-freed, mem-unread}
use fame_z.Exchange.Network.Relation.{Agrees, Represents}
use fame_z.Exchange.Network.View.{IsSound, see-mem}
use fame_z.Famez.Incoming.{Woken}
use fame_z.Famez.Incoming.Handoff.{released}
use fame_z.Famez.Interrupt.{irq_handled}
use fame_z.Famez.Interrupt.Delivery.{Names, delivered}
use fame_z.Famez.Link.{recognise, stamp_sender}
use fame_z.Famez.Slots.{IsPeer}
use fame_z.Famez.Types.{Host, Kernel, Mailslot}

-- What a host needs for the message in a slot: a reader with room.
pub record HasRoom (buflen : ℕ) (s : Mailslot) : Type 0 where
  pub short : length (sidcid_text s) ≤ 30
  pub room : s.buflen + length (sidcid_text s) ≤ buflen
  pub small : s.buflen + length (sidcid_text s) < 2 ^ 31

module _ (x : Wiring) (sound : IsSound x) (k : Kernel) (wait : Host → Woken) where
  module _ (w : Net) (b : Boxes) (j i : ℕ) (msg : List ℕ) (rep : Represents x w b)
      (q : IsPeer x.globals i) (p : IsPeer x.globals j) where
    abbrev place : ℕ
    place = at_host x j i

    -- A read of a message that was handed over.
    pub read-Turn :
        (buflen : ℕ)
        → b i ≡ handed j msg
        → (w.host j).adapter.incoming_slot ≡ some place
        → HasRoom buflen (w.mem i)
        → Turn x k w (fetch i j msg) (commit x w j (released place (see x w j)))
    unfolding see
    read-Turn buflen held taken fits =
        let slot : Agrees w i (handed j msg) = rw held at (rep.slots i q) in
        let there : (see x w j).slots place ≡ w.mem i = see-mem x sound w j i q in
        let body : read_bytes (w.mem i).buflen (w.mem i).buf 0 ≡ msg =
          ap (λ n. read_bytes n (w.mem i).buf 0) slot.0.0
          ∙ read_bytes-Holds (w.mem i).buf 0 msg slot.0.1 in
        let n = length (sidcid_text (w.mem i)) in
        let gives : copy_out (pos 0) (pos 0) buflen ((see x w j).slots place) ≡ record {
          ret = pos ((w.mem i).buflen + n);
          copied = (0, sidcid_text (w.mem i)) ∷ (n, msg) ∷ [];
        } =
          ap (copy_out (pos 0) (pos 0) buflen) there
          ∙ copy_out-delivers (w.mem i) buflen fits.short fits.room fits.small
          ∙ ap
              (λ t. record {
                ret = pos ((w.mem i).buflen + n);
                copied = (0, sidcid_text (w.mem i)) ∷ (n, t) ∷ [];
              })
              body in
        reads j i buflen wait false (pos 0) (pos 0) (pos ((w.mem i).buflen + n))
          (sidcid_text (w.mem i)) msg (released place (see x w j)) p q taken fits.short fits.small
          refl
          (famez_bridge_read-released wait false (pos 0) (pos 0) buflen (see x w j) place
              (rep.wired j).4 taken
            ∙ ap (λ r. ok r (released place (see x w j))) gives)

  module _ (w : Net) (b : Boxes) (j i : ℕ) (msg : List ℕ) (rep : Represents x w b)
      (q : IsPeer x.globals i) (p : IsPeer x.globals j) where
    abbrev handed_net : Net
    handed_net = commit x (lower j i w) j (delivered (at_host x j i) (see x w j))

    -- An interrupt for a message that was posted to the host.
    interrupt-Turn :
        (vector : ℕ)
        → b i ≡ posted j msg
        → Names (see x w j) (x.entries j) i vector
        → (w.host j).adapter.incoming_slot ≡ none
        → recognise (w.host j).adapter.max_buflen (stamp_sender (w.mem i)) ≡ none
        → Turn x k w (hand i j) handed_net
    interrupt-Turn vector up names quiet plain_ =
        let slot : Agrees w i (posted j msg) = rw up at (rep.slots i q) in
        interrupts j i vector irq_handled (delivered (at_host x j i) (see x w j)) p q slot.1 names
          quiet plain_ (all_msix-hands x sound w b j i k vector rep q names plain_)

    incoming_there : (handed_net.host j).adapter.incoming_slot ≡ some (at_host x j i)
    unfolding commit
    incoming_there =
        ap (λ (g : Host). g.adapter.incoming_slot)
          (update_self j (delivered (at_host x j i) (see x w j)) w.host)

    -- Behind the two steps.
    abbrev pub ended_net : Net
    ended_net = commit x handed_net j (released (at_host x j i) (see x handed_net j))

    abbrev ended_boxes : Boxes
    ended_boxes = update i idle (update i (handed j msg) b)

    pub ended-Turns :
        (vector buflen : ℕ)
        → b i ≡ posted j msg
        → Names (see x w j) (x.entries j) i vector
        → (w.host j).adapter.incoming_slot ≡ none
        → recognise (w.host j).adapter.max_buflen (stamp_sender (w.mem i)) ≡ none
        → HasRoom buflen (stamp_sender (w.mem i))
        → Turns x k w (hand i j ∷ fetch i j msg ∷ []) ended_net
          × Represents x ended_net ended_boxes
          × ((ended_net.mem i).buflen ≡ 0)
          × ((ended_net.host j).adapter.incoming_slot ≡ none)
    unfolding commit
    ended-Turns vector buflen up names quiet plain_ fits =
        let b' = update i (handed j msg) b in
        let rep' : Represents x handed_net b' =
          handed-Represents x sound w b j i msg rep q up quiet in
        let held : b' i ≡ handed j msg = update_self i (handed j msg) b in
        let fits' : HasRoom buflen (handed_net.mem i) =
          rw (mem-handed x sound w b j i msg rep q up quiet) fits in
        (
          then_ (interrupt-Turn vector up names quiet plain_) (
              then_ (read-Turn handed_net b' j i msg rep' q p buflen held incoming_there fits')
                no_turn),
          after-Represents x sound handed_net b' j i msg rep' q held,
          buflen-freed x sound handed_net b' j i msg rep' q held,
          ap (λ (g : Host). g.adapter.incoming_slot)
              (update_self j (released (at_host x j i) (see x handed_net j)) handed_net.host),
        )

    pub ended-mem :
        (n : ℕ)
        → b i ≡ posted j msg
        → (w.host j).adapter.incoming_slot ≡ none
        → IsPeer x.globals n
        → n ≢ i
        → ended_net.mem n ≡ w.mem n
    ended-mem n up quiet r differ =
        let b' = update i (handed j msg) b in
        let rep' : Represents x handed_net b' =
          handed-Represents x sound w b j i msg rep q up quiet in
        mem-unread x sound handed_net b' j i msg rep' q (update_self i (handed j msg) b) n r differ
        ∙ mem-unhanded x sound w b j i msg rep q up quiet n r differ

    pub ended-host : (n : ℕ) → n ≢ j → ended_net.host n ≡ w.host n
    unfolding commit
    ended-host n differ =
        update_other j n (released (at_host x j i) (see x handed_net j)) handed_net.host differ
        ∙ update_other j n (delivered (at_host x j i) (see x w j)) w.host differ

    -- A message that is posted to a host, which can tell its sender, has no message for its reader
    -- yet, and does not take it for the link layer, can be handed over and read with room: two
    -- steps, whose second gives exactly the message, and behind which the sender's slot is free.
    pub Turns-ends :
        (vector buflen : ℕ)
        → b i ≡ posted j msg
        → Names (see x w j) (x.entries j) i vector
        → (w.host j).adapter.incoming_slot ≡ none
        → recognise (w.host j).adapter.max_buflen (stamp_sender (w.mem i)) ≡ none
        → HasRoom buflen (stamp_sender (w.mem i))
        → (v : Net) × Turns x k w (hand i j ∷ fetch i j msg ∷ []) v
          × ((v.mem i).buflen ≡ 0)
          × ((v.host j).adapter.incoming_slot ≡ none)
    Turns-ends vector buflen up names quiet plain_ fits =
        let (steps, _, free, gone) = ended-Turns vector buflen up names quiet plain_ fits in
        (ended_net, steps, free, gone)
