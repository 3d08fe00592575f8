-- ===== src/Monolithic/Writing.antt =====
-- How a write of the older driver ends (`bridge_write` of kernel/famez/monolithic/famez_bridge.c),
-- and what it does to the count of the semaphore of the write buffer.
use fame_z.Base.{
  Bool, Bool-cases, List, Option, Returns, Returns-bind, arith, bytes_eq, codes, eq_ℤ, false,
  if◌then◌else◌, inl, inr, is_neg, is_zero, leb, length, none, not, pos, refl, some, suc, to_s32,
  to_u32, true, ℕ, ℤ, ◌%◌, ◌&&◌, ◌+◌, ◌-◌, ◌/◌, ◌<◌, ◌==◌, ◌^◌, ◌∙◌, ◌≡◌,
}
use fame_z.Base.Text.{c_string, read_bytes, split_at}
use fame_z.Bridge.Destination.{Parsed, parsed, unparsed}
use fame_z.Bridge.Read.{whole}
use fame_z.Bridge.Write.{FailsNegative, WholeOrError}
use fame_z.Famez.Outgoing.{memcpy, store_byte}
use fame_z.Monolithic.{MonoBuffers, Slept, Station, e_intr}
use fame_z.Monolithic.Device.{
  bridge_write, mail_to, mail_wbuf, peer_of, set_writer, unlock_writer, write_held,
}
use fame_z.Monolithic.Sending.{IsUsleep, KeepsWriter, famez_sendmail_total}

-- The device is open, and this is the count.
abbrev HasCount : ℕ → Station → Type 0
HasCount n s = (b : MonoBuffers) × (s.config.writer_support ≡ some b) × (b.wbuf_lock ≡ n)

-- A write of `n` bytes: all of them or an error, and the count.
abbrev pub Written : (n level : ℕ) → ℤ → Station → Type 0
Written n level r s = WholeOrError n r × HasCount level s

-- The size test of a write.
abbrev write_too_big : Station → ℕ → Bool
write_too_big s n = leb ((s.config.max_msglen + 2 ^ 64 - 1) % 2 ^ 64) n

unlock_writer-HasCount :
    (n level : ℕ) (r : ℤ) (s : Station)
    → Written n level r s
    → Written n (level + 1) r (unlock_writer s)
unfolding unlock_writer
unlock_writer-HasCount n level r s (whole, (b, open_, e)) =
    rw open_ (whole, (record b { wbuf_lock = b.wbuf_lock + 1 }, refl, omega (arith, e)))

module _ (hz : ℕ) (usleep : Station → Slept) (u : IsUsleep usleep) (kstrtou16 : List ℕ → Parsed)
    (negative : FailsNegative kstrtou16) where
  HasTime : Station → Type 0
  HasTime s = s.jiffies + hz / 2 < 2 ^ 63

  mail_to-Written :
      (p : Parsed) (n level : ℕ) (body : List ℕ) (buflen : ℕ) (s : Station)
      → ((e : ℤ) → p ≡ unparsed e → is_neg e ≡ true)
      → s.jiffies + hz / 2 < 2 ^ 63
      → HasCount level s
      → Returns (Written n level) (mail_to hz usleep kstrtou16 p n body buflen s)
  unfolding mail_to
  mail_to-Written (unparsed e) n level body buflen s fails time has = (inr (fails e refl), has)
  mail_to-Written (parsed id) n level body buflen s fails time (b, open_, e) =
      Returns-bind (λ _ s'. KeepsWriter s s') (Written n level) _ _
        (famez_sendmail_total hz usleep (to_u32 id % 2 ^ 16) body buflen s u time)
        λ r s' kept. (
          elim (Bool-cases (eq_ℤ r (to_s32 buflen))) [
            | inl all ↦ rw all (inl refl)
            | inr some_ ↦ rw some_ (elim (Bool-cases (is_neg r)) [
              | inl bad ↦ rw bad (inr bad)
              | inr part ↦ rw part (inr refl)
            ])
          ],
          (b, kept ∙ open_, e),
        )

  peer_of-negative :
      (server_id : ℕ) (head : List ℕ) (e : ℤ)
      → peer_of hz usleep kstrtou16 server_id head ≡ unparsed e
      → is_neg e ≡ true
  unfolding peer_of
  peer_of-negative server_id head e h = elim (Bool-cases (bytes_eq head (codes "server"))) [
    | inl server ↦ let bad : parsed (pos server_id) ≡ unparsed e = rw server at h in cc bad
    | inr other ↦ negative head e (rw other at h)
  ]

  module _ (b : MonoBuffers) (n : ℕ) (s : Station) (time : s.jiffies + hz / 2 < 2 ^ 63)
      (open_ : s.config.writer_support ≡ some b) where
    mail_wbuf-Written :
        (o : Option (List ℕ × List ℕ))
        → split_at b':' (c_string (suc n) b.wbuf 0) ≡ o
        → Returns (Written n b.wbuf_lock) (mail_wbuf hz usleep kstrtou16 b n s)
    unfolding mail_wbuf
    mail_wbuf-Written none e = rw (e, mail_wbuf) (inr refl, (b, open_, refl))
    mail_wbuf-Written (some (head, tail)) e =
        let i = length head in
        let m = store_byte b.wbuf i 0 in
        let body_len = n - (i + 1) in
        rw (e, mail_wbuf)
          (mail_to-Written (peer_of hz usleep kstrtou16 s.config.server_id head) n b.wbuf_lock
            (read_bytes body_len m (i + 1)) body_len (set_writer (record b { wbuf = m }) s)
            (peer_of-negative s.config.server_id head) time (record b { wbuf = m }, refl, refl))

  write_held-Written :
      (copied : ℤ) (user : List ℕ) (n : ℕ) (b : MonoBuffers) (s : Station)
      → s.jiffies + hz / 2 < 2 ^ 63
      → s.config.writer_support ≡ some b
      → Returns (Written n b.wbuf_lock) (write_held hz usleep kstrtou16 copied user n b s)
  unfolding write_held
  write_held-Written copied user n b s time open_ =
      let full = record b { wbuf = store_byte (memcpy b.wbuf user n) n 0 } in
      elim (Bool-cases (is_zero copied)) [
        | inr bad ↦ rw bad (inr refl, (b, open_, refl))
        | inl good ↦ rw good (
            mail_wbuf-Written full n (set_writer full s) time refl
              (split_at b':' (c_string (suc n) full.wbuf 0)) refl)
      ]

  -- With a clock that moves and a `kstrtou16` whose errors are negative, a write on an open device
  -- whose lock it gets, unless it is interrupted, returns: with the length of the whole write, or
  -- with a negative error. The count of the semaphore is as before, unless the wait for it was
  -- interrupted, behind the size test: then it is one more.
  pub bridge_write-Written :
      (interrupted : Bool) (copied : ℤ) (user : List ℕ) (n : ℕ) (b : MonoBuffers) (s : Station)
      → s.jiffies + hz / 2 < 2 ^ 63
      → s.config.writer_support ≡ some b
      → (interrupted ≡ false → 0 < b.wbuf_lock)
      → Returns
          (Written n
            (if interrupted && not (write_too_big s n) then b.wbuf_lock + 1 else b.wbuf_lock))
          (bridge_write hz usleep kstrtou16 interrupted copied user n s)
  unfolding bridge_write
  bridge_write-Written interrupted copied user n b s time open_ lock =
      elim (Bool-cases (write_too_big s n)) [
        | inl big ↦ rw big (elim (Bool-cases interrupted) [
          | inl e ↦ rw e (inr refl, (b, open_, refl))
          | inr e ↦ rw e (inr refl, (b, open_, refl))
        ])
        | inr small ↦ rw small (elim (Bool-cases interrupted) [
          | inl e ↦
              rw open_
                (rw e (unlock_writer-HasCount n b.wbuf_lock e_intr s (inr refl, (b, open_, refl))))
          | inr e ↦
              let taken = record b { wbuf_lock = b.wbuf_lock - 1 } in
              let one = lock e in
              let some_ : (b.wbuf_lock == 0) ≡ false = ground arith in
              let back : b.wbuf_lock - 1 + 1 ≡ b.wbuf_lock = omega arith in
              rw open_ (
                rw (e, some_)
                  (Returns-bind (Written n (b.wbuf_lock - 1)) (Written n b.wbuf_lock) _ _
                    (write_held-Written copied user n taken (set_writer taken s) time refl)
                    λ r s' w. rw back at (unlock_writer-HasCount n (b.wbuf_lock - 1) r s' w)))
        ])
      ]
