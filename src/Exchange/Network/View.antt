-- ===== src/Exchange/Network/View.antt =====
-- Where a host sees the slot of a peer, and what a step of one host changes for all.
use native.Mathlib.Decide.{ℕ_discrete}
use fame_z.Base.{
  Bool, [], ap, arith, if◌then◌else◌, refl, sym, true, ℕ, ◌&&◌, ◌*◌, ◌+◌, ◌-◌, ◌/◌, ◌<◌, ◌==◌, ◌^◌,
  ◌∙◌, ◌∷◌, ◌≡◌, ◌≢◌, ◌≤◌,
}
use fame_z.Exchange.Network.{Net, Wiring, at_host, commit, ring, see}
use fame_z.Famez.Outgoing.{ringer}
use fame_z.Famez.Outgoing.Message.{ringer_fields}
use fame_z.Famez.Slots.{Fits, IsPeer, IsPeer-le, slot_address-eq}
use fame_z.Famez.Types.{Host, Mailslot, write_slot, write_slot_other, write_slot_self}

-- Every host maps the whole mailbox, and ids fit the doorbell.
pub record IsSound (x : Wiring) : Type 0 where
  pub fits : (j : ℕ) → Fits (x.base j) x.globals
  pub small : x.globals.server_id < 2 ^ 16

-- Each slot carries the id of its owner, which the server has set.
abbrev pub HasIds : Wiring → Net → Type 0
HasIds x w = (n : ℕ) → IsPeer x.globals n → (w.mem n).peer_id ≡ n

module _ (x : Wiring) (sound : IsSound x) where
  at_host-eq : (j n : ℕ) → IsPeer x.globals n → at_host x j n ≡ x.base j + n * x.globals.slotsize
  at_host-eq j n p =
      slot_address-eq (x.base j) x.globals n (sound.fits j)
        (IsPeer-le (x.base j) x.globals n (sound.fits j) p)

  -- One doorbell rings at one peer, with the sender's id.
  pub ring-ringer :
      (pending : ℕ → ℕ → Bool) (to i j n : ℕ)
      → to ≤ x.globals.server_id
      → i ≤ x.globals.server_id
      → ring (ringer to i ∷ []) pending j n ≡ (if (j == to) && (n == i) then true else pending j n)
  unfolding ring
  ring-ringer pending to i j n high own =
      let fields =
        ringer_fields to i (omega (arith, high, sound.small)) (omega (arith, own, sound.small)) in
      rw (fields.0, fields.1) refl

  quotient : (b n z : ℕ) → 0 < z → (b + n * z - b) / z ≡ n
  quotient b n z h = grind arith

  -- A host finds the slot of each peer.
  pub see-mem :
      (w : Net) (j n : ℕ) → IsPeer x.globals n → (see x w j).slots (at_host x j n) ≡ w.mem n
  unfolding see
  see-mem w j n p =
      ap (λ a. w.mem ((a - x.base j) / x.globals.slotsize)) (at_host-eq j n p)
      ∙ ap w.mem (quotient (x.base j) n x.globals.slotsize (sound.fits j).sized)

  -- Different peers have different slots.
  pub at_host_ne :
      (j n m : ℕ) → IsPeer x.globals n → IsPeer x.globals m → n ≢ m → at_host x j n ≢ at_host x j m
  at_host_ne j n m p q differ e =
      let z = (sound.fits j).sized in
      let same : x.base j + n * x.globals.slotsize ≡ x.base j + m * x.globals.slotsize =
        sym (at_host-eq j n p) ∙ e ∙ at_host-eq j m q in
      differ (
        sym (quotient (x.base j) n x.globals.slotsize z)
        ∙ ap (λ a. (a - x.base j) / x.globals.slotsize) same
        ∙ quotient (x.base j) m x.globals.slotsize z)

  -- A host that has written the slot of `i` and no other.
  abbrev pub Wrote : Net → ℕ → ℕ → Mailslot → Host → Type 0
  Wrote w j i s h = h.slots ≡ write_slot (at_host x j i) s (see x w j).slots

  pub commit_self :
      (w : Net) (j i : ℕ) (s : Mailslot) (h : Host) → Wrote w j i s h → (commit x w j h).mem i ≡ s
  unfolding commit
  commit_self w j i s h e =
      ap (λ f. f (at_host x j i)) e ∙ write_slot_self (at_host x j i) s (see x w j).slots

  pub commit_other :
      (w : Net) (j i n : ℕ) (s : Mailslot) (h : Host)
      → Wrote w j i s h
      → IsPeer x.globals i
      → IsPeer x.globals n
      → n ≢ i
      → (commit x w j h).mem n ≡ w.mem n
  unfolding commit
  commit_other w j i n s h e p q differ =
      ap (λ f. f (at_host x j n)) e
      ∙ write_slot_other (at_host x j i) (at_host x j n) s (see x w j).slots
          (at_host_ne j n i q p differ)
      ∙ see-mem w j n q

  pub commit-HasIds :
      (w : Net) (j i : ℕ) (s : Mailslot) (h : Host)
      → Wrote w j i s h
      → IsPeer x.globals i
      → s.peer_id ≡ (w.mem i).peer_id
      → HasIds x w
      → HasIds x (commit x w j h)
  commit-HasIds w j i s h e q same ids n p = elim (ℕ_discrete n i) [
    | yes here ↦
        rw here (ap (λ (t : Mailslot). t.peer_id) (commit_self w j i s h e) ∙ same ∙ ids i q)
    | no differ ↦ ap (λ (t : Mailslot). t.peer_id) (commit_other w j i n s h e q p differ) ∙ ids n p
  ]
