-- ===== src/Monolithic/Arrival.antt =====
-- The older driver's interrupt handler: whose slot a vector names, and what becomes of a ping and
-- of any other message.
pub mod Mail
use native.Mathlib.Decide.{dec_lt}
use fame_z.Base.{
  ==_refl, Bool, List, and_then, ap, arith, atomic_sleep, codes, false, fault, get_elem?,
  if◌then◌else◌, length, ltb, lt→leb, ok, refl, some, suc, true, ℕ, ◌%◌, ◌-◌, ◌<◌, ◌==◌, ◌^◌, ◌∙◌,
  ◌∷◌, ◌≡◌, ◌≤◌,
}
use fame_z.Famez.Interrupt.{match_vector}
use fame_z.Famez.Interrupt.Table.{HasVector, match_vector-found}
use fame_z.Famez.Outgoing.{ringer}
use fame_z.Famez.Types.{MsixEntry}
use fame_z.Monolithic.{Slept, Station, write_msg}
use fame_z.Monolithic.Messages.{
  famez_sendmail, fill_msg, hand_off, identify, is_ping, monolithic_all_msix, monolithic_mailslot,
  receive, sendmail_sleeps,
}

-- The vector is that of entry `n`, of no entry before it, and the entry carries its own index.
pub record NamesSlot (s : Station) (entries : List MsixEntry) (n vector : ℕ) : Type 0 where
  pub table : s.config.msix_entries ≡ some entries
  pub enough : s.bar2.n_slots ≤ length entries
  pub here : get_elem? entries n ≡ some (record { vector = vector; entry = n })
  pub first : (m : ℕ) → 1 ≤ m → m < n → ¬ HasVector entries m vector
  pub low : 1 ≤ n
  pub high : n < s.bar2.n_slots
  pub short : n < 2 ^ 16

match_vector-NamesSlot :
    (s : Station) (entries : List MsixEntry) (n vector : ℕ)
    → NamesSlot s entries n vector
    → match_vector vector (s.bar2.n_slots - 1) 1 entries ≡ some n
match_vector-NamesSlot s entries n vector names =
    let (j, found, lo, hi, has, first) =
      match_vector-found vector (s.bar2.n_slots - 1) 1 entries
        (omega (arith, names.enough, names.low, names.high)) in
    let at : HasVector entries n vector =
      (record { vector = vector; entry = n }, names.here, refl) in
    elim (dec_lt n j) [
      | yes l ↦ absurd (first n names.low l at)
      | no not_less ↦ elim (dec_lt j n) [
        | yes l ↦ absurd (names.first j lo l (has (omega (arith, names.high))))
        | no not_more ↦ found ∙ ap some (omega arith)
      ]
    ]

-- The sender's number is in its slot.
abbrev pub signed : ℕ → ℕ → Station → Station
signed n p s = record s { slots = write_msg p (record (s.slots p) { peer_id = n }) s.slots }

-- The state behind the hand-off of the slot at `p`.
abbrev legible_at : ℕ → Station → Station
legible_at p s = record s {
  config = record (s.config) { legible_slot = some p };
  wakeups = suc s.wakeups;
}

abbrev pub handed_over : ℕ → ℕ → Station → Station
handed_over n p s = legible_at p (signed n p s)

-- Whether the lock is had or not.
hand_off-legible :
    (interrupted : Bool) (p : ℕ) (s : Station)
    → 0 < s.config.legible_slot_lock
    → hand_off interrupted p s ≡ ok true (legible_at p s)
unfolding hand_off
hand_off-legible true p s free = refl
hand_off-legible false p s free =
    let lock : (s.config.legible_slot_lock == 0) ≡ false = ground arith in rw (lock, hand_off) refl

-- The own slot still holds a message.
abbrev pub busy : Station → Bool
busy s = ltb 0 (s.slots s.config.my_slot).msglen

-- "pong" is in the own slot, and the doorbell of client `n` rang.
abbrev pub ponged : ℕ → Station → Station
ponged n s = record s {
  slots =
      write_msg s.config.my_slot (fill_msg n (codes "pong") 4 (s.slots s.config.my_slot)) s.slots;
  doorbells = ringer n s.config.my_id ∷ s.doorbells;
}

module _ (hz : ℕ) (usleep : Station → Slept) where
  monolithic_all_msix-table :
      (interrupted : Bool) (s : Station) (entries : List MsixEntry) (n vector : ℕ)
      → s.config.msix_entries ≡ some entries
      → match_vector vector (s.bar2.n_slots - 1) 1 entries ≡ some n
      → monolithic_all_msix hz usleep interrupted vector s
        ≡ identify hz usleep interrupted entries n s
  unfolding monolithic_all_msix
  monolithic_all_msix-table interrupted s entries n vector table found =
      simp (table, found, monolithic_all_msix)

  monolithic_all_msix-receive :
      (interrupted : Bool) (s : Station) (entries : List MsixEntry) (n vector p : ℕ)
      → NamesSlot s entries n vector
      → monolithic_mailslot s.config.globals s.bar2 n ≡ some p
      → monolithic_all_msix hz usleep interrupted vector s ≡ receive hz usleep interrupted n p s
  unfolding identify
  monolithic_all_msix-receive interrupted s entries n vector p names slot =
      let id : n % 2 ^ 16 ≡ n = omega (arith, names.short) in
      rw
        (
          monolithic_all_msix-table interrupted s entries n vector names.table
              (match_vector-NamesSlot s entries n vector names),
          identify,
        )
        (rw (lt→leb s.bar2.n_slots n names.high, names.here)
          (rw id (rw slot (ap (λ m. receive hz usleep interrupted m p s) id))))

  receive-signed :
      (interrupted : Bool) (n p : ℕ) (s : Station)
      → receive hz usleep interrupted n p s ≡ (
          if is_ping (s.slots p)
          then (if sendmail_sleeps hz n 4 (signed n p s)
              then fault atomic_sleep
              else and_then
                  (famez_sendmail hz usleep n (codes "pong") 4 (signed n p s))
                  (λ _ s2. ok true s2))
          else hand_off interrupted p (signed n p s))
  unfolding receive
  receive-signed interrupted n p s = rw (==_refl p) refl

  -- Any other message, with the lock of the reader's slot free.
  pub monolithic_all_msix-delivers :
      (s : Station) (entries : List MsixEntry) (n vector p : ℕ) (interrupted : Bool)
      → NamesSlot s entries n vector
      → monolithic_mailslot s.config.globals s.bar2 n ≡ some p
      → is_ping (s.slots p) ≡ false
      → 0 < s.config.legible_slot_lock
      → monolithic_all_msix hz usleep interrupted vector s ≡ ok true (handed_over n p s)
  monolithic_all_msix-delivers s entries n vector p interrupted names slot plain_ free =
      monolithic_all_msix-receive interrupted s entries n vector p names slot
      ∙ receive-signed interrupted n p s
      ∙ rw plain_ (hand_off-legible interrupted p (signed n p s) free)
