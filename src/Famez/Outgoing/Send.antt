-- ===== src/Famez/Outgoing/Send.antt =====
-- What `famez_create_outgoing` does on each path: refuse, time out, or send.
use fame_z.Base.{
  Bool, Bool-cases, List, Option-cases, Returns, Returns-bind, Returns-mono, Run, and_then, arith,
  e_2big, e_badslt, e_netunreach, e_nodata, e_restartsys, eq_ℤ, inl, inr, ltb, negsuc, none, ok,
  pos, some, suc, to_s32, true, ℕ, ℤ, ◌%◌, ◌*◌, ◌+◌, ◌<◌, ◌^◌, ◌↔◌, ◌∷◌, ◌≡◌, ◌≢◌, ◌≤◌, ◌⊎◌,
}
use fame_z.Famez.Outgoing.{
  famez_create_outgoing, fill_slot, note_longest, peer_id_of, prior_resp_wait, publish, refusal,
  ringer, sid_cid_is_peer_id, sid_default, wait_ready, wait_rounds,
}
use fame_z.Famez.Outgoing.Wait.{InTime, Ready, Waited, wait_ready-Ready, wait_ready-idle}
use fame_z.Famez.Types.{Host, Kernel, own_slot, write_slot}

-- The arguments pass every check.
pub record Accepts (h : Host) (cid sid : ℤ) (buflen : ℕ) : Type 0 where
  pub subnet : (sid ≡ sid_default) ⊎ (sid ≡ sid_cid_is_peer_id)
  pub peer_low : 1 ≤ peer_id_of cid sid
  pub peer_high : peer_id_of cid sid ≤ h.bar2.server_id
  pub room : buflen < h.adapter.max_buflen
  pub some_data : 0 < buflen

-- The message went out from `h` to `h'`: the own slot holds it, the doorbell rang once, and every
-- other slot is as it was.
pub record Sent (h h' : Host) (peer_id : ℕ) (buf : List ℕ) (buflen : ℕ) : Type 0 where
  pub was_free : (own_slot h).buflen ≡ 0
  pub slots :
      h'.slots ≡ write_slot h.adapter.my_slot (fill_slot peer_id buf buflen (own_slot h)) h.slots
  pub rang : h'.doorbells ≡ ringer peer_id h.adapter.my_id ∷ h.doorbells
  pub adapter : h'.adapter ≡ h.adapter
  pub bar2 : h'.bar2 ≡ h.bar2
  pub jiffies : h'.jiffies ≡ h.jiffies

-- The adapter but for `incoming_slot`.
abbrev pub Kept : Host → Host → Type 0
Kept h h' = h'.adapter ≡ record (h.adapter) { incoming_slot = h'.adapter.incoming_slot }

Kept-step : (h w h' : Host) → Kept h w → h'.adapter ≡ w.adapter → Kept h h'
Kept-step h w h' k e = ground arith

-- A publication behind the wait either refuses, since the slot is still busy, or sends.
abbrev Published : Host → ℕ → List ℕ → ℕ → ℤ → Host → Type 0
Published h peer_id buf buflen r h' =
    ((r ≡ e_restartsys)
      × (0 < (own_slot h).buflen)
      × (h'.slots ≡ h.slots)
      × (h'.doorbells ≡ h.doorbells)
      × (h'.adapter ≡ h.adapter)
      × (h'.jiffies ≡ h.jiffies))
    ⊎ ((r ≡ to_s32 buflen) × Sent h h' peer_id buf buflen)

publish-Published :
    (h : Host) (now t peer_id : ℕ) (buf : List ℕ) (buflen : ℕ)
    → Returns (Published h peer_id buf buflen) (publish peer_id buf buflen (note_longest now t h))
unfolding publish note_longest
publish-Published h now t peer_id buf buflen = elim (Bool-cases (ltb 0 (own_slot h).buflen)) [
  | inl busy ↦ ground arith
  | inr free ↦ ground arith
]

-- What each refusal means.
abbrev Refused : Host → ℤ → ℤ → ℕ → ℤ → Type 0
Refused h cid sid buflen r =
    ((r ≡ e_netunreach) × (sid ≢ sid_default) × (sid ≢ sid_cid_is_peer_id))
    ⊎ ((r ≡ e_badslt) × ((peer_id_of cid sid < 1) ⊎ (h.bar2.server_id < peer_id_of cid sid)))
    ⊎ ((r ≡ e_2big) × (h.adapter.max_buflen ≤ buflen))
    ⊎ ((r ≡ e_nodata) × (buflen ≡ 0))

eq_ℤ_iff : (a b : ℤ) → (eq_ℤ a b ≡ true) ↔ (a ≡ b)
eq_ℤ_iff (pos a) (pos b) = ground arith
eq_ℤ_iff (pos a) (negsuc b) = ground arith
eq_ℤ_iff (negsuc a) (pos b) = ground arith
eq_ℤ_iff (negsuc a) (negsuc b) = ground arith

module _ (h : Host) (cid sid : ℤ) (buflen : ℕ) where
  refusal-Refused : (r : ℤ) → refusal h cid sid buflen ≡ some r → Refused h cid sid buflen r
  unfolding refusal
  refusal-Refused r e = ground (arith, eq_ℤ_iff sid sid_default, eq_ℤ_iff sid sid_cid_is_peer_id)

  refusal-none : refusal h cid sid buflen ≡ none → Accepts h cid sid buflen
  unfolding refusal
  refusal-none e = ground (arith, eq_ℤ_iff sid sid_default, eq_ℤ_iff sid sid_cid_is_peer_id)

  refusal-Accepts : Accepts h cid sid buflen → refusal h cid sid buflen ≡ none
  unfolding refusal
  refusal-Accepts a = ground (arith, eq_ℤ_iff sid sid_default, eq_ℤ_iff sid sid_cid_is_peer_id)

one_more : (n x : ℕ) → suc n * x ≡ n * x + x
one_more n x = grind arith

module _ (k : Kernel) (b : Bool) (cid sid : ℤ) (buf : List ℕ) (buflen : ℕ) (h : Host) where
  abbrev run : Run Host ℤ
  run = famez_create_outgoing k b cid sid buf buflen h

  abbrev deadline : ℕ
  deadline = (h.jiffies + prior_resp_wait k) % 2 ^ 64

  abbrev finish : ℕ → Host → Run Host ℤ
  finish now h' = publish (peer_id_of cid sid) buf buflen (note_longest now deadline h')

  -- Behind the checks: the wait, then the publication.
  run-waits :
      Accepts h cid sid buflen
      → run ≡ and_then (wait_ready k (wait_rounds (prior_resp_wait k)) b 1 0 deadline h) finish
  unfolding famez_create_outgoing
  run-waits a = rw (refusal-Accepts h cid sid buflen a, famez_create_outgoing)

  -- An argument that fails a check is refused with the error of the check, and nothing changes.
  famez_create_outgoing-Refused :
      ¬ Accepts h cid sid buflen → (r : ℤ) × (run ≡ ok r h) × Refused h cid sid buflen r
  unfolding famez_create_outgoing
  famez_create_outgoing-Refused bad = elim (Option-cases (refusal h cid sid buflen)) [
    | inl e ↦ absurd (bad (refusal-none h cid sid buflen e))
    | inr (r, e) ↦ (r, rw (e, famez_create_outgoing), refusal-Refused h cid sid buflen r e)
  ]

  -- With the own slot free, accepted arguments are sent at once: no delay is taken.
  pub famez_create_outgoing-Sent :
      Accepts h cid sid buflen
      → (own_slot h).buflen ≡ 0
      → Returns (λ r h'. (r ≡ to_s32 buflen) × Sent h h' (peer_id_of cid sid) buf buflen) run
  famez_create_outgoing-Sent a free =
      rw
        (
          run-waits a,
          wait_ready-idle k (suc (suc (suc (suc (suc (prior_resp_wait k)))))) b 1 0 deadline h free,
        )
        (Returns-mono (Published h (peer_id_of cid sid) buf buflen) _ (finish 0 h)
          (publish-Published h 0 deadline (peer_id_of cid sid) buf buflen) λ r h' p. ground arith)

  -- How a send ends after the wait for the own slot.
  abbrev pub Ended : ℕ → ℤ → Host → Type 0
  Ended n r h' =
      (w : Host) × Waited h w
      × InTime k n h'
      × (h'.jiffies ≡ w.jiffies)
      × (((r ≡ e_restartsys)
            × (0 < (own_slot w).buflen)
            × (h'.slots ≡ w.slots)
            × (h'.doorbells ≡ h.doorbells)
            × (h'.adapter ≡ w.adapter))
          ⊎ ((r ≡ to_s32 buflen) × Sent w h' (peer_id_of cid sid) buf buflen))

  later-InTime :
      (n : ℕ) (i : InTime k (suc n) h) (h' : Host)
      → h'.jiffies ≤ deadline + i.clock.longest
      → InTime k n h'
  later-InTime n i h' l =
      let one = one_more n (prior_resp_wait k + i.clock.longest) in
      record { clock = i.clock; room = omega (arith, i.room, one) }

  -- With a clock that moves, the call always returns: it has sent the message into a free slot, or
  -- has given up with -ERESTARTSYS on a slot that is still busy, and has then written nothing.
  pub famez_create_outgoing_total :
      (n : ℕ) → InTime k (suc n) h → Accepts h cid sid buflen → Returns (Ended n) run
  famez_create_outgoing_total n i a =
      let one = one_more n (prior_resp_wait k + i.clock.longest) in
      let wrap : deadline ≡ h.jiffies + prior_resp_wait k = omega (arith, i.room, one) in
      rw (run-waits a) (
        Returns-bind (Ready k i.clock deadline h) (Ended n) _ finish
          (wait_ready-Ready k i.clock b deadline (omega (arith, i.room, one, wrap))
            (prior_resp_wait k) h (omega (arith, wrap)) (omega (arith, wrap)))
          λ now w (waited, _, room).
            Returns-mono (Published w (peer_id_of cid sid) buf buflen) (Ended n) (finish now w)
              (publish-Published w now deadline (peer_id_of cid sid) buf buflen)
              λ r h' p.
                let same : h'.jiffies ≡ w.jiffies = ground arith in
                (w, waited, later-InTime n i h' (omega (arith, same, room)), same, ground arith))

  -- Whatever the arguments, the call returns, and of the adapter it changes `incoming_slot` at
  -- most, by what happened during the wait.
  pub famez_create_outgoing-Kept :
      (n : ℕ) → InTime k (suc n) h → Returns (λ r h'. Kept h h' × InTime k n h') run
  unfolding famez_create_outgoing
  famez_create_outgoing-Kept n i = elim (Option-cases (refusal h cid sid buflen)) [
    | inr (r, e) ↦
        rw (e, famez_create_outgoing)
          (
            ground arith,
            later-InTime n i h
                (omega (arith, i.room, one_more n (prior_resp_wait k + i.clock.longest))),
          )
    | inl e ↦
        Returns-mono (Ended n) _ run
          (famez_create_outgoing_total n i (refusal-none h cid sid buflen e))
          λ r h' (w, waited, room, j, p). (
            elim p [
              | inl q ↦ Kept-step h w h' waited.adapter q.4
              | inr q ↦ Kept-step h w h' waited.adapter q.1.adapter
            ],
            room,
          )
  ]
