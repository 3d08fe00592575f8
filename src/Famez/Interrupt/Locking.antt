-- ===== src/Famez/Interrupt/Locking.antt =====
-- The handler takes the adapter's lock and gives it back, whatever the interrupt was.
use fame_z.Base.{
  Bool, Bool-cases, List, Option-cases, Returns, Returns-bind, Returns-mono, Run, and_then, arith,
  inl, inr, leb, length, ok, refl, some, true, ℕ, ◌%◌, ◌-◌, ◌^◌, ◌≡◌, ◌≤◌, ◌⊎◌,
}
use fame_z.Famez.Incoming.{spin_lock, spin_unlock}
use fame_z.Famez.Interrupt.{all_msix, deliver, dispatch, irq_handled, irq_none, wake_up}
use fame_z.Famez.Interrupt.Table.{match_vector-found}
use fame_z.Famez.Link.Locking.{Handled, IsFree, IsLocked, famez_link_request-Handled}
use fame_z.Famez.Outgoing.Wait.{InTime}
use fame_z.Famez.Slots.{calculate_mailslot}
use fame_z.Famez.Types.{Host, Kernel, MsixEntry, set_adapter}

-- The table is there, with an entry for each event.
pub record HasTable (h : Host) (entries : List MsixEntry) : Type 0 where
  pub table : h.adapter.irq_private ≡ some entries
  pub enough : h.bar2.n_events ≤ length entries

-- The state behind `spin_lock`.
abbrev pub with_lock : Host → Host
with_lock h = set_adapter (λ a. record a { incoming_slot_lock = true }) h

spin_lock_lem : (h : Host) → IsFree h → spin_lock h ≡ ok tt (with_lock h)
unfolding spin_lock
spin_lock_lem h free = rw free

-- An unlock of a held lock returns, and the lock is free.
spin_unlock-IsFree :
    (b : Bool) (f : Host → Host) (h : Host)
    → ((g : Host) → IsFree g → IsFree (f g))
    → IsLocked h
    → Returns (λ r h'. (r ≡ b) × IsFree h') (and_then (spin_unlock h) λ _ h'. ok b (f h'))
unfolding spin_unlock
spin_unlock-IsFree b f h keeps l = rw l (refl, keeps _ refl)

module _ (k : Kernel) where
  deliver-IsFree :
      (p : ℕ) (h : Host)
      → InTime k 1 h
      → IsLocked h
      → Returns (λ r h'. (r ≡ irq_handled) × IsFree h') (deliver k p h)
  unfolding deliver
  deliver-IsFree p h t l =
      Returns-bind (Handled h) (λ r h'. (r ≡ irq_handled) × IsFree h') _ _
        (famez_link_request-Handled k p h t l)
        λ handled h' e. elim e [
          | inl (yes_, free) ↦ rw yes_ (refl, free)
          | inr (no_, held, _, _) ↦
              rw no_ (spin_unlock-IsFree irq_handled wake_up _ (λ g f. f) held)
        ]

  pub all_msix_lem :
      (vector : ℕ) (h : Host) (entries : List MsixEntry)
      → IsFree h
      → h.adapter.irq_private ≡ some entries
      → all_msix k vector h ≡ dispatch k vector entries (with_lock h)
  unfolding all_msix
  all_msix_lem vector h entries free table = rw (spin_lock_lem h free) (simp table)

  -- The interrupt was served, or belongs to no entry; the lock is free either way.
  abbrev pub Served : Bool → Host → Type 0
  Served r h' = ((r ≡ irq_handled) ⊎ (r ≡ irq_none)) × IsFree h'

  serve :
      (b : Bool) (r : Run Host Bool)
      → ((b ≡ irq_handled) ⊎ (b ≡ irq_none))
      → Returns (λ x h'. (x ≡ b) × IsFree h') r
      → Returns Served r
  serve b r c p = Returns-mono (λ x h'. (x ≡ b) × IsFree h') Served r p λ x h' q. ground arith

  dispatch-IsFree :
      (vector : ℕ) (entries : List MsixEntry) (h : Host)
      → InTime k 1 h
      → IsLocked h
      → 1 ≤ h.bar2.n_events
      → h.bar2.n_events ≤ length entries
      → Returns Served (dispatch k vector entries h)
  unfolding dispatch
  dispatch-IsFree vector entries h t l some_events enough =
      let (j, found, lo, hi, has, _) =
        match_vector-found vector (h.bar2.n_events - 1) 1 entries (omega arith) in
      rw (found, dispatch)
        (elim (Bool-cases (leb h.bar2.n_events j)) [
          | inl past ↦
              rw past
                (serve irq_none _ (inr refl) (spin_unlock-IsFree irq_none (λ g. g) h (λ g f. f) l))
          | inr within ↦ rw within (
              let (e, at, v) = has (ground arith) in
              rw at
                (elim (Option-cases
                  (calculate_mailslot h.adapter.globals h.bar2 (e.entry % 2 ^ 16))) [
                    | inl none_ ↦ rw none_ (
                        serve irq_handled _ (inl refl)
                          (spin_unlock-IsFree irq_handled (λ g. g) h (λ g f. f) l))
                    | inr (p, some_) ↦
                        rw some_ (serve irq_handled _ (inl refl) (deliver-IsFree p h t l))
                  ]))
        ])

  -- With a tick of 10 milliseconds at most, and a clock that moves in every delay of a tick or
  -- more, in this interrupt too, and stays below 2 ^ 63, `all_msix`, entered with the lock free and
  -- a table with an entry for each of one event or more, returns with the lock free: no path
  -- deadlocks, unlocks twice, or reads past the table.
  pub all_msix-IsFree :
      (vector : ℕ) (h : Host) (entries : List MsixEntry)
      → InTime k 1 h
      → IsFree h
      → HasTable h entries
      → 1 ≤ h.bar2.n_events
      → Returns Served (all_msix k vector h)
  all_msix-IsFree vector h entries t free tab some_events =
      rw (all_msix_lem vector h entries free tab.table) (
        dispatch-IsFree vector entries (with_lock h) (record { clock = t.clock; room = t.room })
          refl some_events tab.enough)
