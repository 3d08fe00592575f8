-- ===== src/Bridge/Write.antt =====
-- `write` of the character device: it always returns, the write buffer is unlocked again, and the
-- caller hears of its whole message or of an error, never of a part.
use fame_z.Base.{
  Bool, Bool-cases, List, Option-cases, Returns, Returns-bind, and_then, arith, e_restartsys, eq_ℤ,
  false, inl, inr, is_neg, is_zero, leb, negsuc, ok, pos, refl, some, suc, to_s32, true, zero, ℕ, ℤ,
  ◌%◌, ◌+◌, ◌-◌, ◌^◌, ◌≡◌, ◌⊎◌,
}
use fame_z.Base.Text.{c_string, split_at}
use fame_z.Bridge.{
  copy_error, famez_bridge_write, send_restarting, send_wbuf, set_buffers, unlock_wbuf,
  write_locked, written,
}
use fame_z.Bridge.Destination.{
  Parsed, Target, bad_target, by_peer, names_server, parse_target, parsed, target, unparsed,
  with_sid,
}
use fame_z.Famez.Outgoing.Send.{Kept, famez_create_outgoing-Kept}
use fame_z.Famez.Outgoing.Wait.{InTime}
use fame_z.Famez.Types.{BridgeBuffers, Host, Kernel}

-- The device is open, and no other write is under way.
pub record CanWrite (h : Host) (b : BridgeBuffers) : Type 0 where
  pub opened : h.adapter.outgoing ≡ some b
  pub unlocked : b.wbuf_mutex ≡ false

-- All of the `n` bytes, or an error.
abbrev pub WholeOrError : ℕ → ℤ → Type 0
WholeOrError n r = (r ≡ to_s32 n) ⊎ (is_neg r ≡ true)

-- The buffers of the device, whatever their lock.
abbrev HasBuffers : Host → Type 0
HasBuffers h = (b : BridgeBuffers) × (h.adapter.outgoing ≡ some b)

abbrev Progress : ℕ → ℤ → Host → Type 0
Progress n r h' = WholeOrError n r × HasBuffers h'

-- What `kstrtoint` promises: a failure is a negative error.
abbrev pub FailsNegative : (List ℕ → Parsed) → Type 0
FailsNegative kstrtoint = (s : List ℕ) (e : ℤ) → kstrtoint s ≡ unparsed e → is_neg e ≡ true

Parsed-cases : (p : Parsed) → ((v : ℤ) × (p ≡ parsed v)) ⊎ ((e : ℤ) × (p ≡ unparsed e))
Parsed-cases (parsed v) = inl (v, refl)
Parsed-cases (unparsed e) = inr (e, refl)

-- An address is understood, or its error is negative.
abbrev Understood : Target → Type 0
Understood (target cid sid) = Unit {0}
Understood (bad_target e) = is_neg e ≡ true

with_sid-Understood :
    (kstrtoint : List ℕ → Parsed) (s t : List ℕ)
    → FailsNegative kstrtoint
    → Understood (with_sid (kstrtoint s) (kstrtoint t))
unfolding with_sid
with_sid-Understood kstrtoint s t f = elim (Parsed-cases (kstrtoint s)) [
  | inr (e, p) ↦ rw p (f s e p)
  | inl (v, p) ↦
      rw p
        (elim (Parsed-cases (kstrtoint t)) [ inr (e, q) ↦ rw q (f t e q) | inl (w, q) ↦ rw q tt ])
]

by_peer-Understood :
    (kstrtoint : List ℕ → Parsed) (s : List ℕ)
    → FailsNegative kstrtoint
    → Understood (by_peer (kstrtoint s))
unfolding by_peer
by_peer-Understood kstrtoint s f = elim (Parsed-cases (kstrtoint s)) [
  | inr (e, p) ↦ rw p (f s e p)
  | inl (v, p) ↦ rw p tt
]

parse_target-Understood :
    (kstrtoint : List ℕ → Parsed) (server_id : ℕ) (head : List ℕ)
    → FailsNegative kstrtoint
    → Understood (parse_target kstrtoint server_id head)
unfolding parse_target
parse_target-Understood kstrtoint server_id head f = elim (Bool-cases (names_server head)) [
  | inl s ↦ rw (s, parse_target) tt
  | inr s ↦
      rw (s, parse_target)
        (elim (Option-cases (split_at b',' head)) [
          | inl c ↦ rw c (by_peer-Understood kstrtoint head f)
          | inr ((before, behind), c) ↦ rw c (with_sid-Understood kstrtoint before behind f)
        ])
]

Target-cases : (t : Target) → ((c s : ℤ) × (t ≡ target c s)) ⊎ ((e : ℤ) × (t ≡ bad_target e))
Target-cases (target c s) = inl (c, s, refl)
Target-cases (bad_target e) = inr (e, refl)

module _ (k : Kernel) where
  buffers-Kept : (h h' : Host) → Kept h h' → HasBuffers h → HasBuffers h'
  buffers-Kept h h' kept (b, e) = (b, ground arith)

  written-WholeOrError : (n m : ℕ) (r : ℤ) → WholeOrError n (written n m r)
  written-WholeOrError n m r = elim (Bool-cases (eq_ℤ r (to_s32 m))) [
    | inl e ↦ rw e (inl refl)
    | inr e ↦ rw e (elim (Bool-cases (is_neg r)) [ inl g ↦ rw g (inr g) | inr g ↦ rw g (inr refl) ])
  ]

  send_restarting-Progress :
      (restarts : ℕ) (cid sid : ℤ) (n : ℕ) (body : List ℕ) (len : ℕ) (h : Host)
      → InTime k (suc restarts) h
      → HasBuffers h
      → Returns (Progress n) (send_restarting k restarts cid sid n body len h)
  unfolding send_restarting
  send_restarting-Progress zero cid sid n body len h i b =
      Returns-bind (λ r h'. Kept h h' × InTime k 0 h') (Progress n) _ _
        (famez_create_outgoing-Kept k false cid sid body len h 0 i)
        λ r h' (kept, later). elim (Bool-cases (eq_ℤ r e_restartsys)) [
          | inl e ↦ rw e (inr refl, buffers-Kept h h' kept b)
          | inr e ↦ rw e (written-WholeOrError n len r, buffers-Kept h h' kept b)
        ]
  send_restarting-Progress (suc m) cid sid n body len h i b =
      Returns-bind (λ r h'. Kept h h' × InTime k (suc m) h') (Progress n) _ _
        (famez_create_outgoing-Kept k false cid sid body len h (suc m) i)
        λ r h' (kept, later). elim (Bool-cases (eq_ℤ r e_restartsys)) [
          | inl e ↦
              rw e
                (send_restarting-Progress m cid sid n body len h' later (buffers-Kept h h' kept b))
          | inr e ↦ rw e (written-WholeOrError n len r, buffers-Kept h h' kept b)
        ]

  send_wbuf-Progress :
      (kstrtoint : List ℕ → Parsed) (b : BridgeBuffers) (n : ℕ) (h : Host)
      → FailsNegative kstrtoint
      → InTime k 3 h
      → HasBuffers h
      → Returns (Progress n) (send_wbuf k kstrtoint b n h)
  unfolding send_wbuf
  send_wbuf-Progress kstrtoint b n h errors i bs =
      elim (Option-cases (split_at b':' (c_string (suc n) b.wbuf 0))) [
        | inl e ↦ rw (e, send_wbuf) (inr refl, bs)
        | inr ((head, rest), e) ↦
            rw (e, send_wbuf)
              (elim (Target-cases (parse_target kstrtoint h.bar2.server_id head)) [
                | inr (x, t) ↦ rw t (
                  inr (rw t at (parse_target-Understood kstrtoint h.bar2.server_id head errors)),
                  (_, refl),
                )
                | inl (cid, sid, t) ↦ rw t (
                    send_restarting-Progress 2 cid sid n _ _ _
                      (record { clock = i.clock; room = i.room }) (_, refl))
              ])
      ]

  write_locked-Progress :
      (kstrtoint : List ℕ → Parsed) (copied : ℤ) (user : List ℕ) (n : ℕ) (b : BridgeBuffers)
      (h : Host)
      → FailsNegative kstrtoint
      → InTime k 3 h
      → HasBuffers h
      → Returns (Progress n) (write_locked k kstrtoint copied user n b h)
  unfolding write_locked
  write_locked-Progress kstrtoint copied user n b h f i bs = elim (Bool-cases (is_zero copied)) [
    | inl z ↦
        rw z (
          send_wbuf-Progress kstrtoint _ n _ f (record { clock = i.clock; room = i.room })
            (_, refl))
    | inr z ↦ rw z (inr (failed copied z), bs)
  ]
    where
      failed : (c : ℤ) → is_zero c ≡ false → is_neg (copy_error c) ≡ true
      failed (pos m) z = ground arith
      failed (negsuc m) z = refl

  -- How a write ends: all or an error, and the buffers unlocked.
  abbrev pub Finished : ℕ → ℤ → Host → Type 0
  Finished n r h' =
      WholeOrError n r
      × ((b : BridgeBuffers) × (h'.adapter.outgoing ≡ some b) × (b.wbuf_mutex ≡ false))

  unlock_wbuf-Finished :
      (n : ℕ) (r : ℤ) (h : Host) → WholeOrError n r → HasBuffers h → Finished n r (unlock_wbuf h)
  unfolding unlock_wbuf
  unlock_wbuf-Finished n r h w (b, e) = (w, (record b { wbuf_mutex = false }, ground arith, refl))

  -- The size test of a write.
  abbrev pub too_big : Host → ℕ → Bool
  too_big h n = leb ((h.adapter.max_buflen + 2 ^ 64 - 1) % 2 ^ 64) n

  abbrev pub locked_buffers : BridgeBuffers → BridgeBuffers
  locked_buffers b = record b { wbuf_mutex = true }

  -- Past the size test a write runs between the lock and the unlock of the buffers.
  pub famez_bridge_write_lem :
      (kstrtoint : List ℕ → Parsed) (copied : ℤ) (user : List ℕ) (n : ℕ) (b : BridgeBuffers)
      (h : Host)
      → CanWrite h b
      → too_big h n ≡ false
      → famez_bridge_write k kstrtoint copied user n h
        ≡ and_then
            (write_locked k kstrtoint copied user n
              (locked_buffers b)
              (set_buffers (locked_buffers b) h))
            (λ r h'. ok r (unlock_wbuf h'))
  unfolding famez_bridge_write
  famez_bridge_write_lem kstrtoint copied user n b h c small =
      rw (small, famez_bridge_write) (simp (c.opened, c.unlocked))

  -- With a tick of 10 milliseconds at most, a clock that moves in every delay of a tick or more and
  -- stays below 2 ^ 63 through three waits, and a `kstrtoint` whose errors are negative, a write on
  -- an open device whose write buffer is unlocked returns: with the length of the whole write, or
  -- with a negative error. It is never short, and the write buffer is unlocked.
  pub famez_bridge_write-Finished :
      (kstrtoint : List ℕ → Parsed) (copied : ℤ) (user : List ℕ) (n : ℕ) (b : BridgeBuffers)
      (h : Host)
      → FailsNegative kstrtoint
      → InTime k 3 h
      → CanWrite h b
      → Returns (Finished n) (famez_bridge_write k kstrtoint copied user n h)
  unfolding famez_bridge_write
  famez_bridge_write-Finished kstrtoint copied user n b h f i c = elim (Bool-cases (too_big h n)) [
    | inl big ↦ rw (big, famez_bridge_write) (inr refl, (b, c.opened, c.unlocked))
    | inr small ↦ rw (famez_bridge_write_lem kstrtoint copied user n b h c small) (
        Returns-bind (Progress n) (Finished n) _ _
          (write_locked-Progress kstrtoint copied user n (locked_buffers b)
            (set_buffers (locked_buffers b) h) f (record { clock = i.clock; room = i.room })
            (locked_buffers b, refl))
          λ r h' (w, bs). unlock_wbuf-Finished n r h' w bs)
  ]
