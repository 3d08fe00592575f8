-- ===== src/Exchange/Network/Conversation.antt =====
-- A request to a link layer is answered, and the host that asked reads the answer.
use fame_z.Base.{
  Bool, List, Returns-ok, [], ap, length, none, ok, sym, ℕ, ◌<◌, ◌∙◌, ◌∷◌, ◌≡◌, ◌≢◌, ◌≤◌,
}
use fame_z.Base.Text.{read_bytes}
use fame_z.Base.Text.Memory.{read_bytes-Holds}
use fame_z.Exchange.Mailbox.{
  Boxes, fetch, hand, handed, idle, posted, respond, update, update_other, update_self,
}
use fame_z.Exchange.Network.{Net, Turn, Turns, Wiring, at_host, commit, lower, responds, see, then_}
use fame_z.Exchange.Network.Answers.{answered-Represents, mem-answer}
use fame_z.Exchange.Network.Progress.{HasRoom, ended-Turns, ended-host, ended_net}
use fame_z.Exchange.Network.Relation.{Agrees, Represents, own_slot-see}
use fame_z.Exchange.Network.Responses.{all_msix-responds}
use fame_z.Exchange.Network.View.{IsSound}
use fame_z.Famez.Incoming.{Woken}
use fame_z.Famez.Interrupt.{all_msix}
use fame_z.Famez.Interrupt.Delivery.{Names}
use fame_z.Famez.Link.{recognise, sizeof_outbuf, stamp_sender}
use fame_z.Famez.Link.Answers.{Answered}
use fame_z.Famez.Link.Requests.{Asks, Asks-some}
use fame_z.Famez.Link.Silence.{Asks-silent}
use fame_z.Famez.Outgoing.{fill_slot}
use fame_z.Famez.Outgoing.Message.{fill_slot-message}
use fame_z.Famez.Slots.{IsPeer}
use fame_z.Famez.Types.{Adapter, CoreStructure, Host, Kernel, Mailslot, own_slot}

module _ (x : Wiring) (sound : IsSound x) (k : Kernel) (wait : Host → Woken) where
  module _ (w : Net) (b : Boxes) (j i : ℕ) (msg : List ℕ) (rep : Represents x w b)
      (q : IsPeer x.globals i) (p : IsPeer x.globals j) (differ : i ≢ j) where
    -- Host `j` can answer the request at once, and host `i` has a reader with room for the answer;
    -- each can tell the other.
    pub record CanConverse (vector vector' buflen : ℕ) (text : List ℕ) (c : CoreStructure)
        : Type 0 where
      pub tells : Names (see x w j) (x.entries j) i vector
      pub asks : Asks (see x w j) (at_host x j i) text c
      pub large : sizeof_outbuf ≤ (w.host j).adapter.max_buflen
      pub class : length (w.host j).adapter.core.base_c_class_str ≤ 32
      pub told : Names (see x w i) (x.entries i) j vector'
      pub quiet : (w.host i).adapter.incoming_slot ≡ none
      pub fits : HasRoom buflen (stamp_sender (fill_slot i text (length text) (w.mem j)))

    module _ (vector vector' buflen : ℕ) (text : List ℕ) (c : CoreStructure)
        (up : b i ≡ posted j msg) (empty : b j ≡ idle)
        (can : CanConverse vector vector' buflen text c) where
      free : (own_slot (see x w j)).buflen ≡ 0
      free =
          let a : Agrees w j idle = rw empty at (rep.slots j p) in
          ap (λ (s : Mailslot). s.buflen) (own_slot-see x sound w b j rep p) ∙ a.0

      answered :
          (r : Bool) × (h : Host) × (all_msix k vector (see x w j) ≡ ok r h)
          × Answered text c (see x w j) (at_host x j i) r h
      answered =
          Returns-ok (Answered text c (see x w j) (at_host x j i)) (all_msix k vector (see x w j)) (
            all_msix-responds x sound w b j i k vector text c rep p q differ can.tells can.asks free
              can.large can.class)

      abbrev h : Host
      h = answered.1

      abbrev answered_net : Net
      answered_net = commit x (lower j i w) j h

      abbrev answered_boxes : Boxes
      answered_boxes = update j (posted i text) (update i idle b)

      some_text : 0 < length text
      some_text = Asks-some (see x w j) (at_host x j i) text c can.asks

      read : read_bytes (w.mem i).buflen (w.mem i).buf 0 ≡ msg
      read =
          let slot : Agrees w i (posted j msg) = rw up at (rep.slots i q) in
          ap (λ n. read_bytes n (w.mem i).buf 0) slot.0.0
          ∙ read_bytes-Holds (w.mem i).buf 0 msg slot.0.1

      answer-Turn : Turn x k w (respond i j msg text) answered_net
      answer-Turn =
          let slot : Agrees w i (posted j msg) = rw up at (rep.slots i q) in
          rw read at (
            responds j i vector text c answered.0 h p q differ slot.1 can.tells can.asks free
              can.large can.class answered.2)

      answered_rep : Represents x answered_net answered_boxes
      answered_rep =
          answered-Represents x sound w b j i text c answered.0 h rep p q differ answered.3 msg up
            empty some_text

      answer : answered_net.mem j ≡ fill_slot i text (length text) (w.mem j)
      answer = mem-answer x sound w b j i text c answered.0 h rep p q differ answered.3

      host_asking : answered_net.host i ≡ w.host i
      unfolding commit
      host_asking = update_other j i h w.host differ

      told_again : Names (see x answered_net i) (x.entries i) j vector'
      unfolding see commit
      told_again =
          let n = can.told in
          record {
            here = n.here;
            first = n.first;
            low = n.low;
            high = rw host_asking n.high;
            short = n.short;
          }

      answer-silent :
          recognise (answered_net.host i).adapter.max_buflen (stamp_sender (answered_net.mem j))
          ≡ none
      unfolding stamp_sender
      answer-silent =
          Asks-silent (see x w j) (at_host x j i) (answered_net.host i).adapter.max_buflen text c
            (stamp_sender (answered_net.mem j)) can.asks
            (rw answer (fill_slot-message i text (w.mem j)).0)

      -- A request that is posted to a host with a free slot of its own, which can answer it at
      -- once, from a host that can tell it and has a reader with room for the answer: three steps,
      -- the last of which gives the host that asked exactly the answer. Behind them both slots are
      -- free, the reader has taken its message, and the core structure is the one that the answer
      -- is about.
      pub Turns-answered :
          (v : Net) × Turns x k w (respond i j msg text ∷ hand j i ∷ fetch j i text ∷ []) v
          × ((v.mem i).buflen ≡ 0)
          × ((v.mem j).buflen ≡ 0)
          × ((v.host i).adapter.incoming_slot ≡ none)
          × ((v.host j).adapter.core ≡ c)
      unfolding commit
      Turns-answered =
          let back : j ≢ i = λ e. differ (sym e) in
          let (steps, rep', free_j, taken) =
            ended-Turns x sound k wait answered_net answered_boxes i j text answered_rep p q vector'
              buflen (update_self j (posted i text) (update i idle b)) told_again
              (ap (λ (g : Host). g.adapter.incoming_slot) host_asking ∙ can.quiet) answer-silent
              (rw answer can.fits) in
          let end =
            ended_net x sound k wait answered_net answered_boxes i j text answered_rep p q in
          let phase : update j idle (update j (handed i text) answered_boxes) i ≡ idle =
            update_other j i idle (update j (handed i text) answered_boxes) differ
            ∙ update_other j i (handed i text) answered_boxes differ
            ∙ update_other j i (posted i text) (update i idle b) differ
            ∙ update_self i idle b in
          let free_i : Agrees end i idle = rw phase at (rep'.slots i q) in
          (
            end,
            then_ answer-Turn steps,
            free_i.0,
            free_j,
            taken,
            ap (λ (g : Host). g.adapter.core)
                  (ended-host x sound k wait answered_net answered_boxes i j text answered_rep p q j
                      back
                    ∙ update_self j h w.host)
                ∙ ap (λ (t : Adapter). t.core) answered.3.adapter,
          )
