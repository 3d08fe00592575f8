-- ===== src/Famez/Link/Locking.antt =====
-- The lock discipline of the link layer: a message that it answers leaves the lock free, any other
-- leaves it held; and each answer returns.
use fame_z.Base.{
  Bool, List, Option-cases, Returns, Returns-bind, Returns-mono, arith, false, inl, inr, length, ok,
  refl, true, ℕ, ℤ, ◌≡◌, ◌⊎◌,
}
use fame_z.Famez.Incoming.{clear_buflen, spin_unlock}
use fame_z.Famez.Link.{
  Request, answer, assign_ids, consume, ctl_write, famez_link_request, peer_attribute, ping,
  recognise, reply, stamp_sender,
}
use fame_z.Famez.Outgoing.Send.{Kept, famez_create_outgoing-Kept}
use fame_z.Famez.Outgoing.Wait.{InTime}
use fame_z.Famez.Types.{Host, Kernel, set_adapter, set_slot}

abbrev pub IsLocked : Host → Type 0
IsLocked h = h.adapter.incoming_slot_lock ≡ true

abbrev pub IsFree : Host → Type 0
IsFree h = h.adapter.incoming_slot_lock ≡ false

-- How a request ended: answered with the lock given back, or left to the caller with the lock held.
abbrev pub Handled : Host → Bool → Host → Type 0
Handled h handled h' =
    ((handled ≡ true) × IsFree h')
    ⊎ ((handled ≡ false) × IsLocked h' × (h'.adapter ≡ h.adapter) × (h'.bar2 ≡ h.bar2))

-- The state behind `consume`.
abbrev pub consumed : ℕ → Host → Host
consumed p h = set_adapter (λ a. record a { incoming_slot_lock = false }) (clear_buflen p h)

pub consume_lem : (p : ℕ) (h : Host) → IsLocked h → consume p h ≡ ok tt (consumed p h)
unfolding consume spin_unlock clear_buflen
consume_lem p h locked = rw locked

consumed-IsFree : (p : ℕ) (h : Host) → IsFree (consumed p h)
consumed-IsFree p h = refl

consumed-InTime : (k : Kernel) (p : ℕ) (h : Host) → InTime k 1 h → InTime k 1 (consumed p h)
unfolding clear_buflen
consumed-InTime k p h t = record { clock = t.clock; room = t.room }

assigned-InTime :
    (k : Kernel) (a b c d : ℤ) (h : Host)
    → InTime k 1 h
    → InTime k 1 (set_adapter (λ r. record r { core = assign_ids a b c d r.core }) h)
assigned-InTime k a b c d h t = record { clock = t.clock; room = t.room }

module _ (k : Kernel) where
  reply-IsFree :
      (p : ℕ) (outbuf : List ℕ) (h : Host)
      → InTime k 1 h
      → IsFree h
      → Returns (λ r h'. (r ≡ true) × IsFree h') (reply k p outbuf h)
  unfolding reply
  reply-IsFree p outbuf h t free =
      Returns-bind (λ r h'. Kept h h' × InTime k 0 h') (λ r h'. (r ≡ true) × IsFree h') _ _
        (famez_create_outgoing-Kept k true _ _ outbuf (length outbuf) h 0 t)
        λ r h' (kept, _). ground arith

  answer-IsFree :
      (p : ℕ) (r : Request) (h : Host)
      → InTime k 1 h
      → IsLocked h
      → Returns (λ b h'. (b ≡ true) × IsFree h') (answer k p r h)
  unfolding answer
  answer-IsFree p ping h t locked =
      rw (consume_lem p h locked)
        (reply-IsFree p _ (consumed p h) (consumed-InTime k p h t) (consumed-IsFree p h))
  answer-IsFree p peer_attribute h t locked =
      rw (consume_lem p h locked)
        (reply-IsFree p _ (consumed p h) (consumed-InTime k p h t) (consumed-IsFree p h))
  answer-IsFree p (ctl_write a b c d tag) h t locked = rw (consume_lem p h locked) (
      reply-IsFree p _ _ (assigned-InTime k a b c d _ (consumed-InTime k p h t))
        (consumed-IsFree p h))

  pub famez_link_request-Handled :
      (p : ℕ) (h : Host)
      → InTime k 1 h
      → IsLocked h
      → Returns (Handled h) (famez_link_request k p h)
  unfolding famez_link_request
  famez_link_request-Handled p h t locked =
      let h' = set_slot p (stamp_sender (h.slots p)) h in
      elim (Option-cases (recognise h.adapter.max_buflen (h'.slots p))) [
        | inl e ↦ rw (e, famez_link_request) (ground arith)
        | inr (r, e) ↦
            rw (e, famez_link_request)
              (Returns-mono (λ b g. (b ≡ true) × IsFree g) (Handled h) _
                (answer-IsFree p r h' (record { clock = t.clock; room = t.room }) locked)
                λ b g q. inl q)
      ]
