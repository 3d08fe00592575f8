-- ===== src/Famez/Outgoing/Wait.antt =====
-- The wait loop of `famez_create_outgoing` ends: by the slot falling free, or by the deadline.
use fame_z.Base.{
  Bool, Bool-cases, Returns, Returns-mono, arith, false, if◌then◌else◌, inl, inr, ltb, ok, suc,
  true, zero, ℕ, ◌*◌, ◌+◌, ◌<◌, ◌^◌, ◌≡◌, ◌≤◌, ◌⊎◌,
}
use fame_z.Famez.Outgoing.{
  delay_ms_loop_max, elapse, must_wait, prior_resp_wait, time_before, wait_ready, wait_rounds,
}
use fame_z.Famez.Types.{Host, Kernel, own_slot}

-- What the kernel promises of a delay of `d` milliseconds, in an interrupt or not: the clock does
-- not go back, it moves when `d` is a tick or more, and it moves by `longest` ticks at most in any
-- of the loop's delays. A tick is 10 milliseconds at most.
pub record IsClock (k : Kernel) : Type 0 where
  pub longest : ℕ
  pub rate : 100 ≤ k.hz
  pub later :
      (b : Bool) (d : ℕ) (h : Host) → h.jiffies < 2 ^ 63 → h.jiffies ≤ (k.delay b d h).jiffies
  pub moves :
      (b : Bool) (d : ℕ) (h : Host)
      → 1000 ≤ d * k.hz
      → h.jiffies < 2 ^ 63
      → h.jiffies < (k.delay b d h).jiffies
  pub bounded :
      (b : Bool) (d : ℕ) (h : Host)
      → d ≤ delay_ms_loop_max + 1
      → h.jiffies < 2 ^ 63
      → (k.delay b d h).jiffies ≤ h.jiffies + longest

-- What `n` sends need: a clock that moves, and that many waits with a last delay each before the
-- counter leaves the range where `time_before` is `<`.
pub record InTime (k : Kernel) (n : ℕ) (h : Host) : Type 0 where
  pub clock : IsClock k
  pub room : h.jiffies + n * (prior_resp_wait k + clock.longest) < 2 ^ 63

-- A wait changes the clock, the slots and `incoming_slot`, and nothing else.
pub record Waited (h h' : Host) : Type 0 where
  pub adapter : h'.adapter ≡ record (h.adapter) { incoming_slot = h'.adapter.incoming_slot }
  pub bar2 : h'.bar2 ≡ h.bar2
  pub longest : h'.longest ≡ h.longest
  pub doorbells : h'.doorbells ≡ h.doorbells
  pub wakeups : h'.wakeups ≡ h.wakeups
  pub later : h.jiffies ≤ h'.jiffies

-- How the loop ends: the slot fell free, or the deadline passed; and not long behind it.
abbrev pub Ready : (k : Kernel) → IsClock k → ℕ → Host → ℕ → Host → Type 0
Ready k c hw_timeout h now h' =
    Waited h h'
    × (((own_slot h').buflen ≡ 0) ⊎ (hw_timeout ≤ now))
    × (h'.jiffies ≤ hw_timeout + c.longest)

Waited-refl : (h : Host) → Waited h h
Waited-refl h = ground arith

Waited-elapse :
    (k : Kernel) (b : Bool) (d : ℕ) (h : Host)
    → IsClock k
    → h.jiffies < 2 ^ 63
    → Waited h (elapse (k.delay b d h) h)
Waited-elapse k b d h c l = ground (arith, c.later b d h l)

Waited-trans : (g h i : Host) → Waited g h → Waited h i → Waited g i
Waited-trans g h i p q = ground arith

time_before-lt : (a b : ℕ) → a < 2 ^ 63 → b < 2 ^ 63 → time_before a b ≡ true → a < b
time_before-lt a b p q e = ground arith

time_before-le : (a b : ℕ) → a < 2 ^ 63 → b < 2 ^ 63 → time_before a b ≡ false → b ≤ a
time_before-le a b p q e = ground arith

must_wait-lt : (a b : ℕ) (h : Host) → a < 2 ^ 63 → b < 2 ^ 63 → must_wait a b h ≡ true → a < b
unfolding must_wait
must_wait-lt a b h p q e = time_before-lt a b p q (ground arith)

must_wait-ended :
    (a b : ℕ) (h : Host)
    → a < 2 ^ 63
    → b < 2 ^ 63
    → must_wait a b h ≡ false
    → ((own_slot h).buflen ≡ 0) ⊎ (b ≤ a)
unfolding must_wait
must_wait-ended a b h p q e = elim (Bool-cases (time_before a b)) [
  | inl s ↦ inl (ground arith)
  | inr s ↦ inr (time_before-le a b p q s)
]

wait_ready-exit :
    (k : Kernel) (f : ℕ) (b : Bool) (d now hw_timeout : ℕ) (h : Host)
    → must_wait now hw_timeout h ≡ false
    → wait_ready k (suc f) b d now hw_timeout h ≡ ok now h
unfolding wait_ready
wait_ready-exit k f b d now hw_timeout h e = rw (e, wait_ready)

wait_ready-again :
    (k : Kernel) (f : ℕ) (b : Bool) (d now hw_timeout : ℕ) (h : Host)
    → must_wait now hw_timeout h ≡ true
    → let h' = elapse (k.delay b d h) h in
      wait_ready k (suc f) b d now hw_timeout h
      ≡ wait_ready k f b (if ltb d delay_ms_loop_max then d + 2 else d) h'.jiffies hw_timeout h'
unfolding wait_ready
wait_ready-again k f b d now hw_timeout h e = rw (e, wait_ready)

pub wait_ready-idle :
    (k : Kernel) (f : ℕ) (b : Bool) (d now hw_timeout : ℕ) (h : Host)
    → (own_slot h).buflen ≡ 0
    → wait_ready k (suc f) b d now hw_timeout h ≡ ok now h
unfolding wait_ready must_wait
wait_ready-idle k f b d now hw_timeout h e = ground arith

module _ (k : Kernel) (c : IsClock k) (b : Bool) (t : ℕ) (deadline : t + c.longest < 2 ^ 63) where
  wait_ready-done :
      (f d now : ℕ) (h : Host)
      → now < 2 ^ 63
      → h.jiffies ≤ t + c.longest
      → must_wait now t h ≡ false
      → Returns (Ready k c t h) (wait_ready k (suc f) b d now t h)
  wait_ready-done f d now h small r e =
      rw (wait_ready-exit k f b d now t h e, Returns)
        (Waited-refl h, must_wait-ended now t h small (omega arith) e, r)

  -- One round: the rest of the loop ends, so the whole does.
  wait_ready-round :
      (f d now : ℕ) (h : Host)
      → now < 2 ^ 63
      → h.jiffies ≤ t + c.longest
      → (must_wait now t h ≡ true
          → let h' = elapse (k.delay b d h) h in
            Returns
              (Ready k c t h')
              (wait_ready k f b (if ltb d delay_ms_loop_max then d + 2 else d) h'.jiffies t h'))
      → Returns (Ready k c t h) (wait_ready k (suc f) b d now t h)
  wait_ready-round f d now h small room rest = elim (Bool-cases (must_wait now t h)) [
    | inr e ↦ wait_ready-done f d now h small room e
    | inl e ↦ rw (wait_ready-again k f b d now t h e) (
        Returns-mono (Ready k c t (elapse (k.delay b d h) h)) (Ready k c t h) _ (rest e)
          λ n h' (w, r, i). (Waited-trans h _ h' (Waited-elapse k b d h c (omega arith)) w, r, i))
  ]

  -- The time behind a delay that began before the deadline.
  elapse-bounded :
      (d : ℕ) (h : Host)
      → d ≤ delay_ms_loop_max + 1
      → h.jiffies ≤ t
      → (elapse (k.delay b d h) h).jiffies ≤ t + c.longest
  elapse-bounded d h short l = omega (arith, c.bounded b d h short (omega arith))

  -- The last delay is a tick or more, so it moves the clock.
  wait_ready-loop :
      (f : ℕ) (h : Host)
      → h.jiffies ≤ t + c.longest
      → t ≤ h.jiffies + f
      → Returns (Ready k c t h) (wait_ready k (suc f) b 11 h.jiffies t h)
  wait_ready-loop zero h i fuel = elim (Bool-cases (must_wait h.jiffies t h)) [
    | inr e ↦ wait_ready-done 0 11 h.jiffies h (omega arith) i e
    | inl e ↦ absurd (omega (arith, must_wait-lt h.jiffies t h (omega arith) (omega arith) e))
  ]
  wait_ready-loop (suc f) h i fuel = wait_ready-round (suc f) 11 h.jiffies h (omega arith) i λ e.
      let before = must_wait-lt h.jiffies t h (omega arith) (omega arith) e in
      wait_ready-loop f (elapse (k.delay b 11 h) h)
        (elapse-bounded 11 h (omega arith) (omega arith))
        (omega (arith, c.moves b 11 h (omega (arith, c.rate)) (omega arith)))

  -- The loop ends from the delay `d` on, with fuel `f`, where `left` ticks are left at most.
  abbrev Ends : (left f d : ℕ) → Type 0
  Ends left f d =
      (h : Host)
      → h.jiffies ≤ t + c.longest
      → t ≤ h.jiffies + left
      → Returns (Ready k c t h) (wait_ready k f b d h.jiffies t h)

  -- A shorter delay need not move the clock.
  Ends-step :
      (left f d : ℕ)
      → d ≤ delay_ms_loop_max + 1
      → Ends left f (if ltb d delay_ms_loop_max then d + 2 else d)
      → Ends left (suc f) d
  Ends-step left f d short rest h i fuel = wait_ready-round f d h.jiffies h (omega arith) i λ e.
      let before = must_wait-lt h.jiffies t h (omega arith) (omega arith) e in
      rest (elapse (k.delay b d h) h) (elapse-bounded d h short (omega arith))
        (omega (arith, c.later b d h (omega arith)))

  -- From `now = 0` too, a round for each tick up to the deadline, and six more for the delays of 1,
  -- 3, 5, 7 and 9 milliseconds and the test that ends the loop, are enough.
  pub wait_ready-Ready :
      (f : ℕ) (h : Host)
      → h.jiffies ≤ t
      → t ≤ h.jiffies + f
      → Returns (Ready k c t h) (wait_ready k (wait_rounds f) b 1 0 t h)
  wait_ready-Ready f h i fuel =
      wait_ready-round (suc (suc (suc (suc (suc f))))) 1 0 h (omega arith) (omega arith) λ e.
        let from_9 = Ends-step f (suc f) 9 (omega arith) (wait_ready-loop f) in
        let from_7 = Ends-step f (suc (suc f)) 7 (omega arith) from_9 in
        let from_5 = Ends-step f (suc (suc (suc f))) 5 (omega arith) from_7 in
        let from_3 = Ends-step f (suc (suc (suc (suc f)))) 3 (omega arith) from_5 in
        from_3 (elapse (k.delay b 1 h) h) (elapse-bounded 1 h (omega arith) i)
          (omega (arith, c.later b 1 h (omega arith)))
