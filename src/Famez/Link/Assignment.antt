-- ===== src/Famez/Link/Assignment.antt =====
-- The id assignment: a CTL-Write message of the fabric manager sets the component's ids.
use fame_z.Base.{
  All, Bool, List, Returns, Returns-bind, Returns-mono, [], ap, arith, codes, false, length, negsuc,
  refl, some, true, ℕ, ℤ, ◌++◌, ◌<◌, ◌∙◌, ◌∷◌, ◌≡◌,
}
use fame_z.Base.Text.{c_string, sprintf, sscanf, starts_with}
use fame_z.Base.Text.Decimal.{Stops}
use fame_z.Base.Text.Memory.{Holds, NoNul, c_string-Holds, starts_with-miss}
use fame_z.Base.Text.Print.{IsInt32, NoNul-append, NoNul-sprintf, has_nul, int32-Small}
use fame_z.Base.Text.Scan.{Small, plain, sscanf-sprintf_append}
use fame_z.Famez.Incoming.{clear_buflen}
use fame_z.Famez.Link.{
  answer, assign_ids, ctl_write, ctl_write_0_sid_cid, famez_link_request, link_ctl_peer_attribute,
  recognise, reply, stamp_sender, standalone_acknowledgment, through_u32,
}
use fame_z.Famez.Link.Locking.{IsLocked, consume_lem, consumed}
use fame_z.Famez.Outgoing.Send.{Kept, famez_create_outgoing-Kept}
use fame_z.Famez.Outgoing.Wait.{InTime}
use fame_z.Famez.Types.{
  CoreStructure, Host, Kernel, Mailslot, set_adapter, set_slot, write_slot_self,
}

abbrev pub ctl_write_message : (pfmsid pfmcid sid cid tag : ℤ) → List ℕ
ctl_write_message pfmsid pfmcid sid cid tag =
    sprintf ctl_write_0_sid_cid (pfmsid ∷ pfmcid ∷ sid ∷ cid ∷ tag ∷ [])

-- What may stand behind the Tag, such as the "!FZT=n" that the manager puts behind each message.
abbrev pub IsTrailer : List ℕ → Type 0
IsTrailer trailer = NoNul trailer × Stops trailer

-- A slot that holds a message, with its NUL, within the slot.
pub record HasMessage (max_buflen : ℕ) (s : Mailslot) (msg : List ℕ) : Type 0 where
  pub holds : Holds s.buf 0 msg
  pub nul : s.buf (length msg) ≡ 0
  pub fits : length msg < max_buflen

pub through_u32-int32 : (z : ℤ) → IsInt32 z → through_u32 z ≡ z
through_u32-int32 z h = ground arith

pub ints-Small : (vs : List ℤ) → All IsInt32 vs → All Small vs
ints-Small [] h = tt
ints-Small (v ∷ vs) h = (int32-Small v h.0, ints-Small vs h.1)

module _ (pfmsid pfmcid sid cid tag : ℤ) (trailer : List ℕ) (behind : IsTrailer trailer) where
  abbrev values : List ℤ
  values = pfmsid ∷ pfmcid ∷ sid ∷ cid ∷ tag ∷ []

  abbrev message : List ℕ
  message = ctl_write_message pfmsid pfmcid sid cid tag ++ trailer

  values-scanned : All Small values → sscanf ctl_write_0_sid_cid message ≡ values
  unfolding ctl_write_0_sid_cid plain
  values-scanned s = sscanf-sprintf_append trailer behind.1 ctl_write_0_sid_cid values refl refl s

  message-NoNul : NoNul message
  unfolding ctl_write_0_sid_cid has_nul
  message-NoNul =
      NoNul-append (ctl_write_message pfmsid pfmcid sid cid tag) trailer
        (NoNul-sprintf ctl_write_0_sid_cid values refl) behind.0

  -- The message begins with a C: neither a ping nor a request for the attributes.
  message-head : (s : Mailslot) → Holds s.buf 0 message → s.buf 0 ≡ b'C'
  unfolding ctl_write_0_sid_cid sprintf
  message-head s h = h.0

  pub recognise-ctl_write :
      (n : ℕ) (s : Mailslot)
      → All Small values
      → HasMessage n s message
      → recognise n s ≡ some (ctl_write pfmsid pfmcid sid cid tag)
  unfolding recognise
  recognise-ctl_write n s small m =
      let first = message-head s m.holds in
      let text : c_string n s.buf 0 ≡ message =
        c_string-Holds n s.buf 0 message m.holds message-NoNul (ap s.buf (omega arith) ∙ m.nul)
          m.fits in
      let no_ping : starts_with (codes "ping") s.buf 0 ≡ false =
        starts_with-miss b'p' (codes "ing") s.buf 0 (ground arith) in
      let no_link : starts_with link_ctl_peer_attribute s.buf 0 ≡ false =
        starts_with-miss b'L' (codes "ink CTL Peer-Attribute") s.buf 0 (ground arith) in
      rw (no_ping, no_link, text, values-scanned small) (ground arith)

-- The new core structure, with the manager's numbers as they were sent.
abbrev pub Assigned : (pfmsid pfmcid sid cid : ℤ) → CoreStructure → CoreStructure
Assigned pfmsid pfmcid sid cid c = record c {
  pfmsid = pfmsid;
  pfmcid = pfmcid;
  sid0 = sid;
  cid0 = cid;
  pmcid = negsuc 0;
}

pub assign_ids-Assigned :
    (a b c d : ℤ) (r : CoreStructure)
    → IsInt32 a
    → IsInt32 b
    → IsInt32 c
    → IsInt32 d
    → assign_ids a b c d r ≡ Assigned a b c d r
unfolding assign_ids
assign_ids-Assigned a b c d r ha hb hc hd =
    rw (
      through_u32-int32 a ha,
      through_u32-int32 b hb,
      through_u32-int32 c hc,
      through_u32-int32 d hd,
    )

-- The request was answered, and left this core structure.
abbrev pub AnsweredWith : CoreStructure → Bool → Host → Type 0
AnsweredWith c handled h' = (handled ≡ true) × (h'.adapter.core ≡ c)

module _ (k : Kernel) where
  reply-core :
      (p : ℕ) (outbuf : List ℕ) (h : Host)
      → InTime k 1 h
      → Returns (AnsweredWith h.adapter.core) (reply k p outbuf h)
  unfolding reply
  reply-core p outbuf h t =
      Returns-bind (λ r h'. Kept h h' × InTime k 0 h') (AnsweredWith h.adapter.core) _ _
        (famez_create_outgoing-Kept k true _ _ outbuf (length outbuf) h 0 t)
        λ r h' (kept, _). ground arith

  -- With the lock held and a clock that moves, a CTL-Write message in the sender's slot, with five
  -- `int`s, anything behind them that does not go on the last, and a NUL within the slot, sets the
  -- ids of the core structure to the first four of them and `pmcid` to -1, and changes no other
  -- field.
  pub famez_link_request-assigns :
      (pfmsid pfmcid sid cid tag : ℤ) (trailer : List ℕ) (p : ℕ) (h : Host)
      → IsTrailer trailer
      → InTime k 1 h
      → IsLocked h
      → All IsInt32 (pfmsid ∷ pfmcid ∷ sid ∷ cid ∷ tag ∷ [])
      → HasMessage h.adapter.max_buflen
          (h.slots p)
          (ctl_write_message pfmsid pfmcid sid cid tag ++ trailer)
      → Returns
          (AnsweredWith (Assigned pfmsid pfmcid sid cid h.adapter.core))
          (famez_link_request k p h)
  unfolding famez_link_request answer stamp_sender clear_buflen
  famez_link_request-assigns a b c d tag trailer p h behind t locked (ia, (ib, (ic, (id, (it, u)))))
        m =
      let s = stamp_sender (h.slots p) in
      let h1 = set_slot p s h in
      let h2 = set_adapter (λ r. record r { core = assign_ids a b c d r.core }) (consumed p h1) in
      let out = sprintf standalone_acknowledgment (through_u32 tag ∷ []) in
      let small = ints-Small (a ∷ b ∷ c ∷ d ∷ tag ∷ []) (ia, (ib, (ic, (id, (it, u))))) in
      let found : recognise h.adapter.max_buflen (h1.slots p) ≡ some (ctl_write a b c d tag) =
        rw (write_slot_self p s h.slots) (
          recognise-ctl_write a b c d tag trailer behind h.adapter.max_buflen s small
            (record { holds = m.holds; nul = m.nul; fits = m.fits })) in
      rw (found, famez_link_request)
        (rw (consume_lem p h1 locked) (
          Returns-mono (AnsweredWith (assign_ids a b c d h.adapter.core))
            (AnsweredWith (Assigned a b c d h.adapter.core)) (reply k p out h2)
            (reply-core p out h2 (record { clock = t.clock; room = t.room }))
            λ r h' (e, core). (e, core ∙ assign_ids-Assigned a b c d h.adapter.core ia ib ic id)))
