-- ===== src/Famez/Link/Conversation.antt =====
-- The fabric manager's conversation with a component: what it assigned is what it is told.
use fame_z.Base.{
  All, Bool, List, Returns, Returns-mono, [], ap, arith, codes, length, ok, pos, refl, true, ℕ, ℤ,
  ◌++◌, ◌∙◌, ◌∷◌, ◌≡◌, ◌≤◌,
}
use fame_z.Base.Text.{Piece, c_string, lits, num, sprintf, sscanf}
use fame_z.Base.Text.Memory.{Holds, NoNul, c_string-Holds}
use fame_z.Base.Text.Print.{IsInt32, NoNul-sprintf, has_nul, has_nul-lits, int32-Small}
use fame_z.Base.Text.Scan.{NoSpace, Small, nums-lits, plain, plain-lits, sscanf-sprintf}
use fame_z.Famez.Link.{famez_link_request, link_ctl_ack, link_ctl_peer_attribute, sizeof_outbuf}
use fame_z.Famez.Link.Acknowledgment.{link_ctl_ack_text, outbuf-fits}
use fame_z.Famez.Link.Answers.{Answered, Answered-own, CanAnswer}
use fame_z.Famez.Link.Assignment.{
  Assigned, HasMessage, IsTrailer, ctl_write_message, famez_link_request-assigns,
}
use fame_z.Famez.Link.Locking.{IsLocked}
use fame_z.Famez.Link.Requests.{asks_attribute, famez_link_request-answers}
use fame_z.Famez.Outgoing.{fill_slot}
use fame_z.Famez.Outgoing.Message.{fill_slot-message}
use fame_z.Famez.Outgoing.Wait.{InTime}
use fame_z.Famez.Types.{Adapter, Host, Kernel, Mailslot, own_slot}

-- The text of a class: no byte ends it or is a space.
abbrev pub IsClass : List ℕ → Type 0
IsClass class = (length class ≤ 32) × NoNul class × NoSpace class

module _ (class : List ℕ) (is_class : IsClass class) (sid cid : ℤ) where
  abbrev ack : List ℕ
  ack = sprintf (link_ctl_ack class) (sid ∷ cid ∷ [])

  abbrev tail : List Piece
  tail = lits (codes ",SID0=") (num ∷ lits (codes ",CID0=") (num ∷ []))

  ack-scanned : Small sid → Small cid → sscanf (link_ctl_ack class) ack ≡ sid ∷ cid ∷ []
  unfolding link_ctl_ack plain
  ack-scanned s c =
      sscanf-sprintf (link_ctl_ack class) (sid ∷ cid ∷ []) (plain-lits class tail is_class.2 refl)
        (nums-lits class tail) (s, (c, tt))

  ack-NoNul : NoNul ack
  unfolding link_ctl_ack has_nul
  ack-NoNul =
      NoNul-sprintf (link_ctl_ack class) (sid ∷ cid ∷ []) (has_nul-lits class tail is_class.1 refl)

  -- The answer in a slot, as the peer scans it.
  stored-scanned :
      (n peer_id : ℕ) (s : Mailslot)
      → Small sid
      → Small cid
      → sizeof_outbuf ≤ n
      → sscanf (link_ctl_ack class) (c_string n (fill_slot peer_id ack (length ack) s).buf 0)
        ≡ sid ∷ cid ∷ []
  stored-scanned n peer_id s small_sid small_cid room =
      let (holds, nul, _, _, _, _) = fill_slot-message peer_id ack s in
      let (fits, _) = outbuf-fits class sid cid (pos 0) is_class.0 in
      ap (sscanf (link_ctl_ack class)) (
        c_string-Holds n (fill_slot peer_id ack (length ack) s).buf 0 ack holds ack-NoNul
          (ap (fill_slot peer_id ack (length ack) s).buf (omega arith) ∙ nul)
          (omega (arith, fits, room)))
      ∙ ack-scanned small_sid small_cid

module _ (k : Kernel) (pfmsid pfmcid sid cid tag : ℤ) (trailer : List ℕ) (p q : ℕ) (h h1 g : Host)
    (r : Bool) where
  -- The manager has assigned ids to a component of whose class no byte ends the text or is a space,
  -- by a message of five `int`s with its NUL within the slot, behind whose Tag there may be
  -- anything that has no NUL and begins with no digit, such as its own "!FZT=n", served with a
  -- clock that moves. When it asks the component for its attributes, be it at once or after
  -- anything that leaves the core structure as it is, with the lock held, as a client, and the
  -- component's own slot is free, of 128 bytes at least and not that client's, the text in that
  -- slot, read as a C string by the format of the answer, gives the SID and the CID that it
  -- assigned.
  pub assigned-acknowledged :
      IsTrailer trailer
      → InTime k 1 h
      → IsLocked h
      → All IsInt32 (pfmsid ∷ pfmcid ∷ sid ∷ cid ∷ tag ∷ [])
      → HasMessage h.adapter.max_buflen
          (h.slots p)
          (ctl_write_message pfmsid pfmcid sid cid tag ++ trailer)
      → famez_link_request k p h ≡ ok r h1
      → IsClass h.adapter.core.base_c_class_str
      → g.adapter.core ≡ h1.adapter.core
      → IsLocked g
      → Holds (g.slots q).buf 0 link_ctl_peer_attribute
      → CanAnswer g q
      → Returns
          (λ handled g'.
            (handled ≡ true)
            × (g'.adapter.core ≡ Assigned pfmsid pfmcid sid cid h.adapter.core)
            × (sscanf
                  (link_ctl_ack h.adapter.core.base_c_class_str)
                  (c_string g.adapter.max_buflen (g'.slots g.adapter.my_slot).buf 0)
                ≡ sid ∷ cid ∷ []))
          (famez_link_request k q g)
  assigned-acknowledged behind t locked ints message run is_class same locked' asks can =
      let class = h.adapter.core.base_c_class_str in
      let c = Assigned pfmsid pfmcid sid cid h.adapter.core in
      let core : g.adapter.core ≡ c =
        same
        ∙ (rw run at (
            famez_link_request-assigns k pfmsid pfmcid sid cid tag trailer p h behind t locked ints
              message)).1 in
      let short : length g.adapter.core.base_c_class_str ≤ 32 = rw core is_class.0 in
      Returns-mono (Answered (link_ctl_ack_text g.adapter.core) g.adapter.core g q) _ _
        (famez_link_request-answers k q g locked' can (link_ctl_ack_text g.adapter.core)
          g.adapter.core (asks_attribute asks refl refl) short)
        λ handled g' a. (
          a.yes_,
          ap (λ (x : Adapter). x.core) a.adapter ∙ core,
          ap (λ (m : Mailslot). sscanf (link_ctl_ack class) (c_string g.adapter.max_buflen m.buf 0))
                (Answered-own (link_ctl_ack_text g.adapter.core) g.adapter.core g g' q handled a
                  ∙ ap
                      (λ x.
                        fill_slot (g.slots q).peer_id (link_ctl_ack_text x)
                          (length (link_ctl_ack_text x)) (own_slot g))
                      core)
              ∙ stored-scanned class is_class sid cid g.adapter.max_buflen (g.slots q).peer_id
                  (own_slot g) (int32-Small sid ints.1.1.0) (int32-Small cid ints.1.1.1.0) can.room,
        )
