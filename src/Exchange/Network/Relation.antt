-- ===== src/Exchange/Network/Relation.antt =====
-- How the hosts and the slots stand for the state of the mailbox.
use native.Mathlib.Decide.{ℕ_discrete}
use fame_z.Base.{List, ap, arith, false, length, refl, some, sym, true, ℕ, ◌<◌, ◌∙◌, ◌≡◌, ◌≢◌, ◌≤◌}
use fame_z.Base.Text.Memory.{Holds}
use fame_z.Exchange.Mailbox.{Boxes, Phase, handed, idle, posted, stranded}
use fame_z.Exchange.Network.{Net, Wiring, at_host, see}
use fame_z.Exchange.Network.View.{HasIds, IsSound, at_host_ne, see-mem}
use fame_z.Famez.Slots.{IsPeer}
use fame_z.Famez.Types.{Host, Mailslot, own_slot}

-- A slot holds a message.
abbrev pub Carries : List ℕ → Mailslot → Type 0
Carries msg s = (s.buflen ≡ length msg) × Holds s.buf 0 msg × (0 < length msg)

-- No interrupt of sender `i` is pending but perhaps at `q`.
abbrev QuietBut : ℕ → Net → ℕ → Type 0
QuietBut q w i = (j : ℕ) → j ≢ q → w.pending j i ≡ false

-- The slot of sender `i` in each phase.
abbrev pub Agrees : Net → ℕ → Phase → Type 0
Agrees w i idle = ((w.mem i).buflen ≡ 0) × ((j : ℕ) → w.pending j i ≡ false)
Agrees w i (posted q msg) = Carries msg (w.mem i) × (w.pending q i ≡ true) × QuietBut q w i
Agrees w i (stranded q msg) = Carries msg (w.mem i) × ((j : ℕ) → w.pending j i ≡ false)
Agrees w i (handed q msg) = Carries msg (w.mem i) × ((j : ℕ) → w.pending j i ≡ false)

-- Host `j` as it was set up: its part of the mailbox, the lock free, and its vector table.
abbrev pub IsWired : Wiring → ℕ → Host → Type 0
IsWired x j h =
    (h.bar2 ≡ x.globals)
    × (h.adapter.globals ≡ x.base j)
    × (h.adapter.my_id ≡ j)
    × (h.adapter.my_slot ≡ at_host x j j)
    × (h.adapter.incoming_slot_lock ≡ false)
    × (h.adapter.irq_private ≡ some (x.entries j))
    × (x.globals.n_events ≤ length (x.entries j))

-- The slot at `p` is one that was handed to host `j`.
abbrev pub HasHanded : Wiring → Boxes → ℕ → ℕ → Type 0
HasHanded x b j p =
    (i : ℕ) × IsPeer x.globals i × (p ≡ at_host x j i) × ((msg : List ℕ) × (b i ≡ handed j msg))

-- The state of the network is that of the mailbox: each peer's slot is in its phase and carries the
-- peer's id, and a host's incoming slot is the one that was handed to it.
pub record Represents (x : Wiring) (w : Net) (b : Boxes) : Type 0 where
  pub slots : (i : ℕ) → IsPeer x.globals i → Agrees w i (b i)
  pub incoming : (j p : ℕ) → (w.host j).adapter.incoming_slot ≡ some p → HasHanded x b j p
  pub held :
      (i j : ℕ) (msg : List ℕ)
      → IsPeer x.globals i
      → b i ≡ handed j msg
      → (w.host j).adapter.incoming_slot ≡ some (at_host x j i)
  pub wired : (j : ℕ) → IsWired x j (w.host j)
  pub ids : HasIds x w

-- What a step does not touch stays in its phase.
pub Agrees-frame :
    (w v : Net) (i : ℕ) (p : Phase)
    → v.mem i ≡ w.mem i
    → ((j : ℕ) → v.pending j i ≡ w.pending j i)
    → Agrees w i p
    → Agrees v i p
Agrees-frame w v i idle m q (empty, quiet) = (rw m empty, λ j. q j ∙ quiet j)
Agrees-frame w v i (posted r msg) m q (c, up, quiet) = (rw m c, q r ∙ up, λ j d. q j ∙ quiet j d)
Agrees-frame w v i (handed r msg) m q (c, quiet) = (rw m c, λ j. q j ∙ quiet j)
Agrees-frame w v i (stranded r msg) m q (c, quiet) = (rw m c, λ j. q j ∙ quiet j)

-- A free slot belongs to an idle sender.
pub Agrees-idle : (w : Net) (i : ℕ) (p : Phase) → Agrees w i p → (w.mem i).buflen ≡ 0 → p ≡ idle
Agrees-idle w i idle a free = refl
Agrees-idle w i (posted r msg) a free = absurd (omega (arith, a.0.0, a.0.2))
Agrees-idle w i (handed r msg) a free = absurd (omega (arith, a.0.0, a.0.2))
Agrees-idle w i (stranded r msg) a free = absurd (omega (arith, a.0.0, a.0.2))

-- A pending interrupt is that of a message that was posted to the host.
pub Agrees-posted :
    (w : Net) (i j : ℕ) (p : Phase)
    → Agrees w i p
    → w.pending j i ≡ true
    → (msg : List ℕ) × (p ≡ posted j msg)
Agrees-posted w i j idle a up = absurd (ground (arith, a.1 j))
Agrees-posted w i j (posted r msg) a up = elim (ℕ_discrete j r) [
  | yes e ↦ (msg, ap (λ q. posted q msg) (sym e))
  | no differ ↦ absurd (ground (arith, a.2 j differ))
]
Agrees-posted w i j (handed r msg) a up = absurd (ground (arith, a.1 j))
Agrees-posted w i j (stranded r msg) a up = absurd (ground (arith, a.1 j))

pub see-IsWired :
    (x : Wiring) (w : Net) (b : Boxes) (j : ℕ) → Represents x w b → IsWired x j (see x w j)
unfolding see
see-IsWired x w b j rep = rep.wired j

-- A host's own slot is the one of its id.
pub own_slot-see :
    (x : Wiring) (sound : IsSound x) (w : Net) (b : Boxes) (j : ℕ)
    → Represents x w b
    → IsPeer x.globals j
    → own_slot (see x w j) ≡ w.mem j
own_slot-see x sound w b j rep p =
    ap (see x w j).slots (see-IsWired x w b j rep).3 ∙ see-mem x sound w j j p

pub incoming-handed :
    (x : Wiring) (sound : IsSound x) (w : Net) (b : Boxes) (j i : ℕ)
    → Represents x w b
    → IsPeer x.globals i
    → (w.host j).adapter.incoming_slot ≡ some (at_host x j i)
    → (msg : List ℕ) × (b i ≡ handed j msg)
incoming-handed x sound w b j i rep q taken =
    let (n, r, e, (msg, held)) = rep.incoming j (at_host x j i) taken in
    elim (ℕ_discrete i n) [
      | yes same ↦ (msg, ap b same ∙ held)
      | no differ ↦ absurd (at_host_ne x sound j i n q r differ e)
    ]
