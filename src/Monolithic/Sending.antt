-- ===== src/Monolithic/Sending.antt =====
-- A send of the older driver ends, whatever the peer does, and does not ask whether the slot is
-- free.
use fame_z.Base.{
  ==_refl, Bool-cases, List, Returns, Returns-bind, Returns-mono, ap, arith, e_2big, false, inl,
  inr, leb, ltb, ok, refl, suc, to_s32, true, zero, ℕ, ℤ, ◌%◌, ◌&&◌, ◌+◌, ◌/◌, ◌<◌, ◌==◌, ◌^◌, ◌||◌,
  ◌∙◌, ◌∷◌, ◌≡◌, ◌≤◌,
}
use fame_z.Famez.Outgoing.{ringer}
use fame_z.Monolithic.{Slept, Station, sleep}
use fame_z.Monolithic.Messages.{famez_sendmail, fill_msg, stomp, wait_slot}

-- The clock moves during a sleep.
pub record IsUsleep (usleep : Station → Slept) : Type 0 where
  pub moves : (s : Station) → s.jiffies < 2 ^ 63 → s.jiffies < (usleep s).jiffies

-- A wait changes the clock, the slots and the legible slot only.
pub record WasAsleep (s s' : Station) : Type 0 where
  pub config : s'.config ≡ record (s.config) { legible_slot = s'.config.legible_slot }
  pub bar2 : s'.bar2 ≡ s.bar2
  pub doorbells : s'.doorbells ≡ s.doorbells

WasAsleep-trans : (r s t : Station) → WasAsleep r s → WasAsleep s t → WasAsleep r t
WasAsleep-trans r s t p q = ground arith

module _ (usleep : Station → Slept) (u : IsUsleep usleep) (t : ℕ) (deadline : t < 2 ^ 63) where
  wait_slot-again :
      (f : ℕ) (s : Station)
      → (ltb 0 (s.slots s.config.my_slot).msglen && ltb s.jiffies t) ≡ true
      → wait_slot usleep (suc f) t s ≡ wait_slot usleep f t (sleep (usleep s) s)
  unfolding wait_slot
  wait_slot-again f s e = rw (e, wait_slot)

  wait_slot-done :
      (f : ℕ) (s : Station)
      → (ltb 0 (s.slots s.config.my_slot).msglen && ltb s.jiffies t) ≡ false
      → wait_slot usleep (suc f) t s ≡ ok tt s
  unfolding wait_slot
  wait_slot-done f s e = rw (e, wait_slot)

  WasAsleep-refl : (s : Station) → WasAsleep s s
  WasAsleep-refl s = ground arith

  WasAsleep-sleep : (s : Station) → WasAsleep s (sleep (usleep s) s)
  WasAsleep-sleep s = ground arith

  wait_slot-WasAsleep :
      (f : ℕ) (s : Station)
      → t ≤ s.jiffies + f
      → Returns (λ _ s'. WasAsleep s s') (wait_slot usleep (suc f) t s)
  wait_slot-WasAsleep zero s fuel =
      let over : (ltb 0 (s.slots s.config.my_slot).msglen && ltb s.jiffies t) ≡ false =
        ground arith in
      rw (wait_slot-done 0 s over) (WasAsleep-refl s)
  wait_slot-WasAsleep (suc f) s fuel =
      elim (Bool-cases (ltb 0 (s.slots s.config.my_slot).msglen && ltb s.jiffies t)) [
        | inr e ↦ rw (wait_slot-done (suc f) s e) (WasAsleep-refl s)
        | inl e ↦
            let before : s.jiffies < t = ground arith in
            rw (wait_slot-again (suc f) s e) (
              Returns-mono (λ _ s'. WasAsleep (sleep (usleep s) s) s') (λ _ s'. WasAsleep s s') _
                (wait_slot-WasAsleep f (sleep (usleep s) s)
                  (omega (arith, u.moves s (omega arith))))
                λ x s' w. WasAsleep-trans s (sleep (usleep s) s) s' (WasAsleep-sleep s) w)
      ]

-- The message is in the own slot, whatever the slot held, and the doorbell rang once.
abbrev pub Mailed : Station → (peer_id : ℕ) → List ℕ → ℕ → ℤ → Station → Type 0
Mailed s peer_id msg msglen r s' =
    (w : Station) × WasAsleep s w
    × (r ≡ to_s32 msglen)
    × (s'.slots s.config.my_slot ≡ fill_msg peer_id msg msglen (w.slots s.config.my_slot))
    × (s'.doorbells ≡ ringer peer_id s.config.my_id ∷ s.doorbells)
    × (s'.config ≡ w.config)

pub famez_sendmail-Mailed :
    (hz : ℕ) (usleep : Station → Slept) (peer_id : ℕ) (msg : List ℕ) (msglen : ℕ) (s : Station)
    → IsUsleep usleep
    → s.jiffies + hz / 2 < 2 ^ 63
    → 1 ≤ peer_id
    → peer_id ≤ s.config.server_id
    → msglen < s.config.max_msglen
    → 0 < msglen
    → Returns (Mailed s peer_id msg msglen) (famez_sendmail hz usleep peer_id msg msglen s)
unfolding famez_sendmail stomp
famez_sendmail-Mailed hz usleep peer_id msg msglen s u room low high fits some_data =
    let time : (s.jiffies + hz / 2) % 2 ^ 64 ≡ s.jiffies + hz / 2 = omega arith in
    let peer_ok : (ltb peer_id 1 || ltb s.config.server_id peer_id) ≡ false = ground arith in
    let fits_ok : leb s.config.max_msglen msglen ≡ false = ground arith in
    let data_ok : (msglen == 0) ≡ false = ground arith in
    rw (peer_ok, fits_ok, data_ok, time)
      (Returns-bind (λ _ w. WasAsleep s w) (Mailed s peer_id msg msglen) _ _
        (wait_slot-WasAsleep usleep u (s.jiffies + hz / 2) room (hz / 2) s (omega arith))
        λ x w asleep.
          let own : w.config.my_slot ≡ s.config.my_slot = ap (λ c. c.my_slot) asleep.config in
          let id : w.config.my_id ≡ s.config.my_id = ap (λ c. c.my_id) asleep.config in
          (
            w,
            asleep,
            refl,
            rw own (rw (==_refl s.config.my_slot)),
            rw id (ap (◌∷◌ (ringer peer_id s.config.my_id)) asleep.doorbells),
            refl,
          ))

-- The write buffer of the device is untouched.
abbrev pub KeepsWriter : Station → Station → Type 0
KeepsWriter s s' = s'.config.writer_support ≡ s.config.writer_support

-- With a clock that moves a send returns, whatever its arguments, and leaves the write buffer
-- alone.
pub famez_sendmail_total :
    (hz : ℕ) (usleep : Station → Slept) (peer_id : ℕ) (msg : List ℕ) (msglen : ℕ) (s : Station)
    → IsUsleep usleep
    → s.jiffies + hz / 2 < 2 ^ 63
    → Returns (λ _ s'. KeepsWriter s s') (famez_sendmail hz usleep peer_id msg msglen s)
unfolding famez_sendmail
famez_sendmail_total hz usleep peer_id msg msglen s u room =
    elim (Bool-cases (ltb peer_id 1 || ltb s.config.server_id peer_id)) [
      | inl bad ↦ rw bad refl
      | inr peer_ok ↦ elim (Bool-cases (leb s.config.max_msglen msglen)) [
        | inl big ↦ rw (peer_ok, big) refl
        | inr fits ↦ elim (Bool-cases (msglen == 0)) [
          | inl empty ↦ rw (peer_ok, fits, empty) refl
          | inr some_data ↦
              Returns-mono (Mailed s peer_id msg msglen) (λ _ s'. KeepsWriter s s')
                (famez_sendmail hz usleep peer_id msg msglen s)
                (famez_sendmail-Mailed hz usleep peer_id msg msglen s u room (ground arith)
                  (ground arith) (ground arith) (ground arith))
                λ r s' (w, asleep, _, _, _, kept).
                  ap (λ c. c.writer_support) kept ∙ ap (λ c. c.writer_support) asleep.config
        ]
      ]
    ]

-- A message that does not fit is refused, and nothing changes.
famez_sendmail-too_big :
    (hz : ℕ) (usleep : Station → Slept) (peer_id : ℕ) (msg : List ℕ) (msglen : ℕ) (s : Station)
    → 1 ≤ peer_id
    → peer_id ≤ s.config.server_id
    → s.config.max_msglen ≤ msglen
    → famez_sendmail hz usleep peer_id msg msglen s ≡ ok e_2big s
unfolding famez_sendmail
famez_sendmail-too_big hz usleep peer_id msg msglen s low high big =
    let peer_ok : (ltb peer_id 1 || ltb s.config.server_id peer_id) ≡ false = ground arith in
    let big_ok : leb s.config.max_msglen msglen ≡ true = ground arith in rw (peer_ok, big_ok)
