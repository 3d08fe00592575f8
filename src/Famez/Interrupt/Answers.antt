-- ===== src/Famez/Interrupt/Answers.antt =====
-- The interrupt of a message that the link layer answers.
use fame_z.Base.{
  Bool, List, Returns, Returns-bind, Returns-mono, arith, length, lt→leb, refl, some, ℕ, ◌%◌, ◌^◌,
  ◌≡◌, ◌≤◌,
}
use fame_z.Famez.Interrupt.{all_msix, deliver, dispatch}
use fame_z.Famez.Interrupt.Delivery.{Names, match_vector-Names}
use fame_z.Famez.Interrupt.Locking.{HasTable, all_msix_lem, with_lock}
use fame_z.Famez.Link.{famez_link_request}
use fame_z.Famez.Link.Answers.{Answered, CanAnswer}
use fame_z.Famez.Link.Locking.{IsFree}
use fame_z.Famez.Link.Requests.{
  Asks, asks_attribute, asks_ping, asks_write, famez_link_request-answers,
}
use fame_z.Famez.Slots.{calculate_mailslot}
use fame_z.Famez.Types.{CoreStructure, Host, Kernel, MsixEntry}

-- Taking the lock first makes no difference.
module _ (text : List ℕ) (c : CoreStructure) (h : Host) (p : ℕ) where
  Answered-with_lock :
      (r : Bool) (h' : Host) → Answered text c (with_lock h) p r h' → Answered text c h p r h'
  Answered-with_lock r h' a = record {
    yes_ = a.yes_;
    slots = a.slots;
    rang = a.rang;
    adapter = a.adapter;
    bar2 = a.bar2;
  }

  CanAnswer-with_lock : CanAnswer h p → CanAnswer (with_lock h) p
  CanAnswer-with_lock a = record {
    free = a.free;
    other = a.other;
    low = a.low;
    high = a.high;
    bound = a.bound;
    room = a.room;
  }

  Asks-with_lock : Asks h p text c → Asks (with_lock h) p text c
  Asks-with_lock (asks_ping four holds t e) = asks_ping four holds t e
  Asks-with_lock (asks_attribute holds t e) = asks_attribute holds t e
  Asks-with_lock (asks_write a b d f tag trailer behind ints message t e) =
      asks_write a b d f tag trailer behind ints message t e

module _ (k : Kernel) where
  deliver-handled :
      (p : ℕ) (text : List ℕ) (c : CoreStructure) (h : Host)
      → Returns (Answered text c h p) (famez_link_request k p h)
      → Returns (Answered text c h p) (deliver k p h)
  unfolding deliver
  deliver-handled p text c h answered =
      Returns-bind (Answered text c h p) (Answered text c h p) _ _ answered λ handled h' a.
        rw a.yes_ (record {
          yes_ = refl;
          slots = a.slots;
          rang = a.rang;
          adapter = a.adapter;
          bar2 = a.bar2;
        })

  pub all_msix-answers :
      (h : Host) (entries : List MsixEntry) (n vector p : ℕ) (text : List ℕ) (c : CoreStructure)
      → IsFree h
      → HasTable h entries
      → Names h entries n vector
      → calculate_mailslot h.adapter.globals h.bar2 n ≡ some p
      → Asks h p text c
      → CanAnswer h p
      → length h.adapter.core.base_c_class_str ≤ 32
      → Returns (Answered text c h p) (all_msix k vector h)
  unfolding dispatch
  all_msix-answers h entries n vector p text c free tab names slot asks can class =
      let id : n % 2 ^ 16 ≡ n = omega (arith, names.short) in
      rw (all_msix_lem k vector h entries free tab.table) (
        rw (match_vector-Names h entries n vector tab.enough names, dispatch)
          (rw (lt→leb h.bar2.n_events n names.high, names.here, id, slot)
            (Returns-mono (Answered text c (with_lock h) p) (Answered text c h p)
              (deliver k p (with_lock h))
              (deliver-handled p text c (with_lock h) (
                famez_link_request-answers k p (with_lock h) refl
                  (CanAnswer-with_lock text c h p can) text c (Asks-with_lock text c h p asks)
                  class))
              (Answered-with_lock text c h p))))
