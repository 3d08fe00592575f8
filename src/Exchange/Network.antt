-- ===== src/Exchange/Network.antt =====
-- Hosts around one mailbox, each with its own mapping of it: the handlers of different hosts run in
-- any order, a handler at a time. A send is a step when its own slot is free, which is where its
-- wait ends; an interrupt is one when the doorbell rang, for a message that the link layer leaves
-- alone, which strands the reader's last message if it is still there, or for one that it answers,
-- when the own slot is free; a read is one when a slot was handed over: it gives the message, or an
-- error and loses it.
pub mod View
pub mod Relation
pub mod Sends
pub mod Interrupts
pub mod Stomps
pub mod Reads
pub mod Answers
pub mod Responses
pub mod Progress
pub mod Conversation
use fame_z.Base.{
  Bool, List, [], false, if◌then◌else◌, is_neg, length, none, ok, some, true, ℕ, ℤ, ◌%◌, ◌&&◌, ◌+◌,
  ◌-◌, ◌/◌, ◌<◌, ◌==◌, ◌^◌, ◌∷◌, ◌≡◌, ◌≢◌, ◌≤◌,
}
use fame_z.Base.Text.{read_bytes}
use fame_z.Bridge.{Reading, famez_bridge_read, sidcid_text}
use fame_z.Exchange.Mailbox.{Event, fetch, hand, lose, post, respond, supplant, update}
use fame_z.Famez.Incoming.{Woken}
use fame_z.Famez.Interrupt.{all_msix}
use fame_z.Famez.Interrupt.Delivery.{Names}
use fame_z.Famez.Link.{recognise, sizeof_outbuf, stamp_sender}
use fame_z.Famez.Link.Requests.{Asks}
use fame_z.Famez.Outgoing.{famez_create_outgoing, peer_id_of}
use fame_z.Famez.Outgoing.Send.{Accepts}
use fame_z.Famez.Slots.{IsPeer, slot_address}
use fame_z.Famez.Types.{CoreStructure, Globals, Host, Kernel, Mailslot, MsixEntry, own_slot}

-- What does not change: the server's globals, and where each host maps BAR 2 and its vector table.
pub record Wiring : Type 0 where
  pub globals : Globals
  pub base : ℕ → ℕ
  pub entries : ℕ → List MsixEntry

-- The slots of all peers by id, the hosts by id, and the interrupts that are pending at a host, by
-- the sender's id.
pub record Net : Type 0 where
  pub mem : ℕ → Mailslot
  pub host : ℕ → Host
  pub pending : ℕ → ℕ → Bool

-- The doorbell register: the upper half is the peer to interrupt, the lower half the vector.
pub ring : List ℕ → (ℕ → ℕ → Bool) → ℕ → ℕ → Bool
ring [] pending j i = pending j i
ring (v ∷ vs) pending j i =
    if (j == v / 2 ^ 16) && (i == v % 2 ^ 16) then true else ring vs pending j i

-- An interrupt is taken.
abbrev pub lower : ℕ → ℕ → Net → Net
lower j i w = record w { pending = λ k n. if (k == j) && (n == i) then false else w.pending k n }

module _ (x : Wiring) where
  abbrev pub at_host : ℕ → ℕ → ℕ
  at_host j n = slot_address (x.base j) x.globals n

  -- Host `j` as it sees the mailbox, with no doorbell written yet.
  unfoldable pub see : Net → ℕ → Host
  see w j = record (w.host j) {
    slots = λ p. w.mem ((p - x.base j) / x.globals.slotsize);
    doorbells = [];
  }

  -- Host `j` has become `h`: the others see its slots, and its doorbells ring.
  unfoldable pub commit : Net → ℕ → Host → Net
  commit w j h = record {
    mem = λ n. h.slots (at_host j n);
    host = update j h w.host;
    pending = ring h.doorbells w.pending;
  }

  module _ (k : Kernel) where
    pub data Turn (w : Net) : Event → Net → Type 0 where
      sends :
          (i : ℕ) (in_interrupt : Bool) (cid sid r : ℤ) (msg : List ℕ) (h : Host)
          → IsPeer x.globals i
          → (own_slot (see w i)).buflen ≡ 0
          → Accepts (see w i) cid sid (length msg)
          → famez_create_outgoing k in_interrupt cid sid msg (length msg) (see w i) ≡ ok r h
          → Turn w (post i (peer_id_of cid sid) msg) (commit w i h)
      interrupts :
          (j i vector : ℕ) (r : Bool) (h : Host)
          → IsPeer x.globals j
          → IsPeer x.globals i
          → w.pending j i ≡ true
          → Names (see w j) (x.entries j) i vector
          → (w.host j).adapter.incoming_slot ≡ none
          → recognise (w.host j).adapter.max_buflen (stamp_sender (w.mem i)) ≡ none
          → all_msix k vector (see w j) ≡ ok r h
          → Turn w (hand i j) (commit (lower j i w) j h)
      stomps :
          (j i n vector : ℕ) (r : Bool) (h : Host)
          → IsPeer x.globals j
          → IsPeer x.globals i
          → IsPeer x.globals n
          → w.pending j i ≡ true
          → Names (see w j) (x.entries j) i vector
          → (w.host j).adapter.incoming_slot ≡ some (at_host j n)
          → recognise (w.host j).adapter.max_buflen (stamp_sender (w.mem i)) ≡ none
          → all_msix k vector (see w j) ≡ ok r h
          → Turn w (supplant i n j) (commit (lower j i w) j h)
      responds :
          (j i vector : ℕ) (text : List ℕ) (c : CoreStructure) (r : Bool) (h : Host)
          → IsPeer x.globals j
          → IsPeer x.globals i
          → i ≢ j
          → w.pending j i ≡ true
          → Names (see w j) (x.entries j) i vector
          → Asks (see w j) (at_host j i) text c
          → (own_slot (see w j)).buflen ≡ 0
          → sizeof_outbuf ≤ (w.host j).adapter.max_buflen
          → length (w.host j).adapter.core.base_c_class_str ≤ 32
          → all_msix k vector (see w j) ≡ ok r h
          → Turn w
              (respond i j (read_bytes (w.mem i).buflen (w.mem i).buf 0) text)
              (commit (lower j i w) j h)
      reads :
          (j i buflen : ℕ) (wait : Host → Woken) (nonblocking : Bool) (ch cb ret : ℤ)
          (header msg : List ℕ) (h : Host)
          → IsPeer x.globals j
          → IsPeer x.globals i
          → (w.host j).adapter.incoming_slot ≡ some (at_host j i)
          → length (sidcid_text (w.mem i)) ≤ 30
          → (w.mem i).buflen + length (sidcid_text (w.mem i)) < 2 ^ 31
          → is_neg ret ≡ false
          → famez_bridge_read wait nonblocking ch cb buflen (see w j)
            ≡ ok (record { ret = ret; copied = (0, header) ∷ (length header, msg) ∷ [] }) h
          → Turn w (fetch i j msg) (commit w j h)
      loses :
          (j i buflen : ℕ) (wait : Host → Woken) (nonblocking : Bool) (ch cb : ℤ) (r : Reading)
          (h : Host)
          → IsPeer x.globals j
          → IsPeer x.globals i
          → (w.host j).adapter.incoming_slot ≡ some (at_host j i)
          → is_neg r.ret ≡ true
          → famez_bridge_read wait nonblocking ch cb buflen (see w j) ≡ ok r h
          → Turn w (lose i j (read_bytes (w.mem i).buflen (w.mem i).buf 0)) (commit w j h)

    -- Any number of steps, with their events.
    pub data Turns : Net → List Event → Net → Type 0 where
      no_turn : {w : Net} → Turns w [] w
      then_ :
          {w v u : Net} {e : Event} {es : List Event}
          → Turn w e v
          → Turns v es u
          → Turns w (e ∷ es) u
