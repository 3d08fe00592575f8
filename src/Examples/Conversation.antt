-- ===== src/Examples/Conversation.antt =====
-- The server assigns ids to client 2, and asks for them.
use fame_z.Base.{
  All, Bool, List, Returns, Returns-ok, [], arith, codes, length, ok, pos, refl, true, ℕ, ◌++◌, ◌+◌,
  ◌<◌, ◌∷◌, ◌≡◌, ◌≤◌,
}
use fame_z.Base.Text.{c_string, is_digit, show_digits, show_int, sprintf, sscanf}
use fame_z.Base.Text.Memory.{Holds, get-Holds}
use fame_z.Base.Text.Print.{IsInt32}
use fame_z.Examples.Hosts.{core, host_with, in_time, kernel, slot_with}
use fame_z.Famez.Interrupt.Locking.{with_lock}
use fame_z.Famez.Link.{
  ctl_write_0_sid_cid, famez_link_request, link_ctl_ack, link_ctl_peer_attribute, sizeof_outbuf,
  standalone_acknowledgment,
}
use fame_z.Famez.Link.Acknowledgment.{outbuf-fits}
use fame_z.Famez.Link.Answers.{CanAnswer}
use fame_z.Famez.Link.Assignment.{
  AnsweredWith, Assigned, HasMessage, IsTrailer, ctl_write_message, famez_link_request-assigns,
}
use fame_z.Famez.Link.Conversation.{IsClass, assigned-acknowledged}
use fame_z.Famez.Link.Silence.{Silent, famez_link_request-Silent}
use fame_z.Famez.Types.{Host, set_adapter}

slot_with-HasMessage :
    (id n : ℕ) (msg : List ℕ) → length msg < n → HasMessage n (slot_with id msg) msg
slot_with-HasMessage id n msg l = record {
  holds = get-Holds _ 0 msg (λ j m. ground arith);
  nul = ground arith;
  fits = l;
}

-- Behind each message the manager puts the number of its tracker.
abbrev tracker : List ℕ
tracker = codes "!FZT=1"

tracker-IsTrailer : IsTrailer tracker
unfolding is_digit
tracker-IsTrailer = (
  (
    (λ e. omega (arith, e)),
    (
      (λ e. omega (arith, e)),
      (
        (λ e. omega (arith, e)),
        ((λ e. omega (arith, e)), ((λ e. omega (arith, e)), ((λ e. omega (arith, e)), tt))),
      ),
    ),
  ),
  refl,
)

-- The manager's message: PFMSID 27, PFMCID 200, SID 1, CID 300, Tag 7.
abbrev write_ids : List ℕ
write_ids = ctl_write_message (pos 27) (pos 200) (pos 1) (pos 300) (pos 7) ++ tracker

write_ids-short : length write_ids < 3968
unfolding ctl_write_0_sid_cid sprintf show_int show_digits
write_ids-short = omega arith

write_ids-ints : All IsInt32 (pos 27 ∷ pos 200 ∷ pos 1 ∷ pos 300 ∷ pos 7 ∷ [])
write_ids-ints = (omega arith, (omega arith, (omega arith, (omega arith, (omega arith, tt)))))

-- Behind the assignment.
named :
    (r : Bool) × (h : Host) × (famez_link_request kernel 77824 (with_lock (host_with write_ids))
      ≡ ok r h)
    × AnsweredWith (Assigned (pos 27) (pos 200) (pos 1) (pos 300) core) r h
named =
    Returns-ok (AnsweredWith (Assigned (pos 27) (pos 200) (pos 1) (pos 300) core))
      (famez_link_request kernel 77824 (with_lock (host_with write_ids)))
      (famez_link_request-assigns kernel (pos 27) (pos 200) (pos 1) (pos 300) (pos 7) tracker 77824
        (with_lock (host_with write_ids)) tracker-IsTrailer
        (in_time 1 (with_lock (host_with write_ids)) (omega arith) refl) refl write_ids-ints
        (slot_with-HasMessage 3 3968 write_ids write_ids-short))

-- The question, with the ids assigned.
abbrev asked : Host
asked =
    set_adapter (λ a. record a { core = named.1.adapter.core })
      (with_lock (host_with link_ctl_peer_attribute))

asks-Holds : Holds (slot_with 3 link_ctl_peer_attribute).buf 0 link_ctl_peer_attribute
asks-Holds = (slot_with-HasMessage 3 3968 link_ctl_peer_attribute (omega arith)).holds

bridge-IsClass : IsClass (codes "Bridge")
bridge-IsClass = (
  omega arith,
  (
    (λ e. omega (arith, e)),
    (
      (λ e. omega (arith, e)),
      (
        (λ e. omega (arith, e)),
        ((λ e. omega (arith, e)), ((λ e. omega (arith, e)), ((λ e. omega (arith, e)), tt))),
      ),
    ),
  ),
  (refl, (refl, (refl, (refl, (refl, (refl, tt)))))),
)

asked-CanAnswer : CanAnswer asked 77824
asked-CanAnswer = record {
  free = refl;
  other = λ e. omega (arith, e);
  low = omega arith;
  high = omega arith;
  bound = omega arith;
  room = omega arith;
}

conversation_example :
    Returns
      (λ handled g'.
        (handled ≡ true)
        × (g'.adapter.core ≡ Assigned (pos 27) (pos 200) (pos 1) (pos 300) core)
        × (sscanf (link_ctl_ack (codes "Bridge")) (c_string 3968 (g'.slots 73728).buf 0)
            ≡ pos 1 ∷ pos 300 ∷ []))
      (famez_link_request kernel 77824 asked)
conversation_example =
    assigned-acknowledged kernel (pos 27) (pos 200) (pos 1) (pos 300) (pos 7) tracker 77824 77824
      (with_lock (host_with write_ids)) named.1 asked named.0 tracker-IsTrailer
      (in_time 1 (with_lock (host_with write_ids)) (omega arith) refl) refl write_ids-ints
      (slot_with-HasMessage 3 3968 write_ids write_ids-short) named.2 bridge-IsClass refl refl
      asks-Holds asked-CanAnswer

outbuf_example :
    (length (sprintf (link_ctl_ack (codes "Bridge")) (pos 1 ∷ pos 300 ∷ [])) + 1 ≤ sizeof_outbuf)
    × (length (sprintf standalone_acknowledgment (pos 7 ∷ [])) + 1 ≤ sizeof_outbuf)
outbuf_example = outbuf-fits (codes "Bridge") (pos 1) (pos 300) (pos 7) (omega arith)

-- The own slot behind the answer to the ping, to any link layer.
silent_example :
    Returns
      (Silent (with_lock (host_with (codes "ping"))) 3968)
      (famez_link_request kernel 77824 (with_lock (host_with (codes "ping"))))
silent_example =
    famez_link_request-Silent kernel 77824 3968 (with_lock (host_with (codes "ping"))) refl
      (record {
        free = refl;
        other = λ e. omega (arith, e);
        low = omega arith;
        high = omega arith;
        bound = omega arith;
        room = omega arith;
      })
      (omega arith)
