-- ===== src/Exchange/Refinement.antt =====
-- The drivers around one mailbox keep its promise.
use fame_z.Base.{List, [], arith, length, refl, some, ℕ, ◌++◌, ◌∷◌, ◌≡◌, ◌≤◌}
use fame_z.Exchange.Mailbox.{
  Allows, Boxes, Event, Phase, act, departures, event, handed, idle, posted, posts, stop, stranded,
  under_way,
}
use fame_z.Exchange.Mailbox.Balances.{Allows-Balances}
use fame_z.Exchange.Network.{
  Net, Turn, Turns, Wiring, interrupts, loses, no_turn, reads, responds, sends, stomps, then_,
}
use fame_z.Exchange.Network.Interrupts.{interrupts-Represents}
use fame_z.Exchange.Network.Reads.{loses-Represents, reads-Represents}
use fame_z.Exchange.Network.Relation.{Agrees, Represents}
use fame_z.Exchange.Network.Responses.{answers-Represents}
use fame_z.Exchange.Network.Sends.{sends-Represents}
use fame_z.Exchange.Network.Stomps.{stomps-Represents}
use fame_z.Exchange.Network.View.{IsSound}
use fame_z.Famez.Slots.{IsPeer}
use fame_z.Famez.Types.{Kernel}

module _ (x : Wiring) (sound : IsSound x) (k : Kernel) where
  -- Each step of a handler in the network is an event that the mailbox allows.
  Turn-Represents :
      (w v : Net) (b : Boxes) (e : Event)
      → Represents x w b
      → Turn x k w e v
      → (c : Boxes) × (act e b ≡ some c) × Represents x v c
  Turn-Represents w v b e rep (sends i in_interrupt cid sid r msg h p free accepts run) =
      sends-Represents x sound k w b i cid sid msg h in_interrupt r rep p free accepts run
  Turn-Represents w v b e rep (interrupts j i vector r h p q pending names quiet plain_ run) =
      interrupts-Represents x sound w b j i k vector r h rep q pending names quiet plain_ run
  Turn-Represents w v b e rep (stomps j i n vector r h p q o pending names taken plain_ run) =
      stomps-Represents x sound w b j i n k vector r h rep q o pending names taken plain_ run
  Turn-Represents w v b e rep
        (responds j i vector text c r h p q differ pending names asks free room class run) =
      answers-Represents x sound w b j i k vector text c r h rep p q differ pending names asks free
        room class run
  Turn-Represents w v b e rep
        (reads j i buflen wait nonblocking ch cb ret header msg h p q taken short small good run) =
      reads-Represents x sound w b j i buflen wait nonblocking ch cb ret header msg h rep q taken
        short small good run
  Turn-Represents w v b e rep (loses j i buflen wait nonblocking ch cb r h p q taken bad run) =
      loses-Represents x sound w b j i buflen wait nonblocking ch cb r h rep q taken run

  -- For hosts that map the whole mailbox, with ids below 2 ^ 16, and a network that stands for a
  -- state of the mailbox: whatever steps the handlers take, in any order, the mailbox allows the
  -- same posts, hand-offs, supplanted messages, fetches, losses and responses, and the network
  -- stands for its state again.
  pub Turns-refines :
      (w v : Net) (b : Boxes) (es : List Event)
      → Represents x w b
      → Turns x k w es v
      → (d : Boxes) × Allows b es d × Represents x v d
  Turns-refines w v b [] rep no_turn = (b, stop, rep)
  Turns-refines w v b (e ∷ es) rep (then_ {v = u} st more) =
      let (c, allowed, rep') = Turn-Represents w u b e rep st in
      let (d, allows, rep'') = Turns-refines u v c es rep' more in (d, event allowed allows, rep'')

  under_way_lem :
      (w : Net) (i : ℕ) (p : Phase)
      → Agrees w i p
      → (length (under_way p) ≤ 1) × ((w.mem i).buflen ≡ 0 → under_way p ≡ [])
  under_way_lem w i idle a = (omega arith, λ free. refl)
  under_way_lem w i (posted q msg) a = (omega arith, λ free. absurd (omega (arith, a.0.0, a.0.2)))
  under_way_lem w i (handed q msg) a = (omega arith, λ free. absurd (omega (arith, a.0.0, a.0.2)))
  under_way_lem w i (stranded q msg) a = (omega arith, λ free. absurd (omega (arith, a.0.0, a.0.2)))

  -- For hosts that map the whole mailbox, with ids below 2 ^ 16: along any steps of the handlers,
  -- in any order, from a network with every sender idle, what is taken from a peer (read, answered
  -- by a link layer, or lost to a read that gives an error) is what it sent, answers included, byte
  -- for byte, in order and each message once; one message at most is still under way, or stranded,
  -- and none if the peer's slot is free.
  pub Turns-delivers :
      (w v : Net) (es : List Event) (i : ℕ)
      → Represents x w (λ n. idle)
      → Turns x k w es v
      → IsPeer x.globals i
      → (unread : List (List ℕ)) × (posts i es ≡ departures i es ++ unread)
        × (length unread ≤ 1)
        × ((v.mem i).buflen ≡ 0 → unread ≡ [])
  Turns-delivers w v es i rep steps p =
      let (d, allows, rep') = Turns-refines w v (λ n. idle) es rep steps in
      let (short, empty) = under_way_lem v i (d i) (rep'.slots i p) in
      (under_way (d i), Allows-Balances i (λ n. idle) d es allows, short, empty)
