-- ===== src/Bridge/Read/Bounds.antt =====
-- The size test of a read in kernel/famez/fz_bridge.c, and how far the copies reach.
use native.Mathlib.Decide.{dec_le}
use fame_z.Base.{
  All, Bool-cases, List, [], arith, e_2big, false, inl, inr, is_neg, is_zero, leb, length, ltb, pos,
  refl, true, ℕ, ℤ, ◌%◌, ◌+◌, ◌-◌, ◌<◌, ◌^◌, ◌∙◌, ◌≡◌, ◌≤◌, ◌⊎◌,
}
use fame_z.Bridge.{Reading, copy_error, copy_out, sidcid_text}
use fame_z.Bridge.Read.{
  copied_whole, copied_whole_lem, copy_out-passes, length-read_bytes, sidcid_text-some,
  sidcidstr_lem, whole,
}
use fame_z.Famez.Types.{Mailslot}

module _ (s : Mailslot) (ch cb : ℤ) (buflen : ℕ) where
  abbrev n : ℕ
  n = length (sidcid_text s)

  abbrev reading : Reading
  reading = copy_out ch cb buflen s

  -- No copy reaches further than one byte behind the end of the buffer.
  abbrev pub WithinOne : List (ℕ × List ℕ) → Type 0
  WithinOne = All (λ c. c.0 + length c.1 ≤ buflen + 1)

  copy_out-refused :
      s.buflen + n < 2 ^ 31
      → buflen + 1 < s.buflen + n
      → reading ≡ record { ret = e_2big; copied = [] }
  unfolding copy_out
  copy_out-refused small big =
      let test : ltb buflen ((s.buflen + n + 2 ^ 64 - 1) % 2 ^ 64) ≡ true = ground arith in
      rw test (ground arith)

  copy_error-negative : (e : ℤ) → is_zero e ≡ false → is_neg (copy_error e) ≡ true
  copy_error-negative e bad = ground arith

  whole-WithinOne : n ≤ 30 → s.buflen + n ≤ buflen + 1 → WithinOne (copied_whole s).copied
  whole-WithinOne short room =
      rw (sidcidstr_lem (sidcid_text s) short)
        (omega arith, (omega (arith, length-read_bytes s.buflen s.buf 0), tt))

  copy_out-Ended :
      n ≤ 30
      → s.buflen + n < 2 ^ 31
      → s.buflen + n ≤ buflen + 1
      → WithinOne reading.copied × ((reading ≡ copied_whole s) ⊎ (is_neg reading.ret ≡ true))
  unfolding copy_out
  copy_out-Ended short small room =
      let header : leb 32 n ≡ false = ground arith in
      let some_ = sidcid_text-some s in
      let test : ltb buflen ((s.buflen + n + 2 ^ 64 - 1) % 2 ^ 64) ≡ false = ground arith in
      let (first, both) = whole-WithinOne short room in
      rw (header, test)
        (elim (Bool-cases (is_zero ch)) [
          | inr bad ↦ rw bad (tt, inr (copy_error-negative ch bad))
          | inl good ↦ rw good (elim (Bool-cases (is_zero cb)) [
            | inr bad ↦ rw bad ((first, tt), inr (copy_error-negative cb bad))
            | inl fine ↦ rw fine ((first, both), inl refl)
          ])
        ])

  -- With a header of at most 30 characters and a whole below 2 ^ 31, whatever the copies answer:
  -- what is copied ends one byte behind the end of the buffer at most, and the read gives header
  -- and body whole, or a negative error. A message that is two bytes or more too long is refused
  -- with nothing copied; any other is given whole if the copies do not fail, also when the buffer
  -- lacks one byte.
  pub copy_out-Bounded :
      n ≤ 30
      → s.buflen + n < 2 ^ 31
      → WithinOne reading.copied
        × ((reading ≡ whole s) ⊎ (is_neg reading.ret ≡ true))
        × (buflen + 1 < s.buflen + n → reading ≡ record { ret = e_2big; copied = [] })
        × (s.buflen + n ≤ buflen + 1 → ch ≡ pos 0 → cb ≡ pos 0 → reading ≡ whole s)
  copy_out-Bounded short small = elim (dec_le (s.buflen + n) (buflen + 1)) [
    | yes room ↦
        let same = copied_whole_lem s short small in
        let (within, ended) = copy_out-Ended short small room in
        (
          within,
          elim ended [ inl all ↦ inl (all ∙ same) | inr bad ↦ inr bad ],
          (λ big. absurd (omega (arith, room, big))),
          λ fits first second.
              rw (first, second) (copy_out-passes s buflen small short room ∙ same),
        )
    | no big ↦
        let refused = copy_out-refused small (omega (arith, big)) in
        (rw refused tt, inr (rw refused refl), (λ more. refused), λ fits. absurd (big fits))
  ]
