-- ===== src/Exchange/Drain.antt =====
-- Nothing stays in the mailbox for good: from any state that hosts around it reach, all messages
-- can be brought to their readers.
pub mod Steps
pub mod All
use fame_z.Base.{List, [], inl, inr, none, refl, ℕ, ◌++◌, ◌∙◌, ◌∷◌, ◌≡◌, ◌⊎◌}
use fame_z.Exchange.Mailbox.{Boxes, Event, Phase, handed, idle, losses, posted, posts, stranded}
use fame_z.Exchange.Mailbox.Balances.{losses-append, posts-append}
use fame_z.Exchange.Network.{Net, Turns, Wiring, no_turn, then_}
use fame_z.Exchange.Network.Progress.{HasRoom}
use fame_z.Exchange.Network.Relation.{Represents}
use fame_z.Famez.Interrupt.Delivery.{Names}
use fame_z.Famez.Link.{recognise, stamp_sender}
use fame_z.Famez.Slots.{IsPeer}
use fame_z.Famez.Types.{Host, Kernel}

-- Every host can tell every peer by the vector of its interrupt.
abbrev pub Tells : Wiring → Type 0
Tells x =
    (j i : ℕ)
    → IsPeer x.globals j
    → IsPeer x.globals i
    → (h : Host) → h.bar2 ≡ x.globals
    → (vector : ℕ) × Names h (x.entries j) i vector

Turns-append :
    {x : Wiring} {k : Kernel} (w v u : Net) (es fs : List Event)
    → Turns x k w es v
    → Turns x k v fs u
    → Turns x k w (es ++ fs) u
Turns-append w v u [] fs no_turn more = more
Turns-append w v u (e ∷ es) fs (then_ {v = m} st steps) more =
    then_ st (Turns-append m v u es fs steps more)

-- Hand-offs and fetches post nothing and lose nothing.
abbrev IsQuiet : List Event → Type 0
IsQuiet es = (n : ℕ) → (posts n es ≡ []) × (losses n es ≡ [])

IsQuiet-append : (es fs : List Event) → IsQuiet es → IsQuiet fs → IsQuiet (es ++ fs)
IsQuiet-append es fs e f n =
    let (posts_e, losses_e) = e n in
    let (posts_f, losses_f) = f n in
    (
      posts-append n es fs ∙ rw (posts_e, posts_f) refl,
      losses-append n es fs ∙ rw (losses_e, losses_f) refl,
    )

module _ (x : Wiring) (buflen : ℕ) where
  -- A message under way is not stranded, and goes to a peer with room for it, whose link layer
  -- leaves it alone.
  abbrev pub Deliverable : Net → ℕ → Phase → Type 0
  Deliverable w i idle = Unit {0}
  Deliverable w i (posted j msg) =
      IsPeer x.globals j
      × HasRoom buflen (stamp_sender (w.mem i))
      × ((n : ℕ) → recognise n (stamp_sender (w.mem i)) ≡ none)
  Deliverable w i (stranded j msg) = ⊥
  Deliverable w i (handed j msg) = IsPeer x.globals j × HasRoom buflen (w.mem i)

  abbrev pub AllDeliverable : Net → Boxes → Type 0
  AllDeliverable w b = (n : ℕ) → IsPeer x.globals n → Deliverable w n (b n)

  -- What is left can still be delivered.
  Deliverable-frame :
      (w v : Net) (n : ℕ) (p : Phase) → v.mem n ≡ w.mem n → Deliverable w n p → Deliverable v n p
  Deliverable-frame w v n idle e d = tt
  Deliverable-frame w v n (posted j msg) e d = rw e d
  Deliverable-frame w v n (handed j msg) e d = rw e d
  Deliverable-frame w v n (stranded j msg) e d = absurd d

module _ (x : Wiring) (k : Kernel) where
  -- Some steps that only hand over and fetch: each sender is idle behind them, or as it was.
  pub record Settles (w : Net) (b : Boxes) (es : List Event) (v : Net) (c : Boxes) : Type 0 where
    pub steps : Turns x k w es v
    pub rep : Represents x v c
    pub less : (n : ℕ) → IsPeer x.globals n → (c n ≡ idle) ⊎ ((c n ≡ b n) × (v.mem n ≡ w.mem n))
    pub silent : IsQuiet es

  pub Settles-then :
      (w v u : Net) (b c d : Boxes) (es fs : List Event)
      → Settles w b es v c
      → Settles v c fs u d
      → Settles w b (es ++ fs) u d
  Settles-then w v u b c d es fs s t = record {
    steps = Turns-append w v u es fs s.steps t.steps;
    rep = t.rep;
    less = λ n p. elim (t.less n p) [
      | inl gone ↦ inl gone
      | inr (same, mem) ↦ elim (s.less n p) [
        | inl gone ↦ inl (same ∙ gone)
        | inr (same', mem') ↦ inr (same ∙ same', mem ∙ mem')
      ]
    ];
    silent = IsQuiet-append es fs s.silent t.silent;
  }

  -- Some steps behind which sender `i` is idle.
  abbrev pub Drained : Net → Boxes → (Boxes → Type 0) → Type 0
  Drained w b done = (es : List Event) × (v : Net) × (c : Boxes) × Settles w b es v c × done c

  pub Settles-Deliverable :
      (buflen : ℕ) (w v : Net) (b c : Boxes) (es : List Event)
      → Settles w b es v c
      → AllDeliverable x buflen w b
      → AllDeliverable x buflen v c
  Settles-Deliverable buflen w v b c es s all n p = elim (s.less n p) [
    | inl gone ↦ rw gone tt
    | inr (same, mem) ↦ rw same (Deliverable-frame x buflen w v n (b n) mem (all n p))
  ]
