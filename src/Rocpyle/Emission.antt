-- ===== src/Rocpyle/Emission.antt =====
-- The buffer is large enough, and the end of the loop needs a second.
use fame_z.Base.{
  List, [], arith, false, length, length-append, negsuc, pos, refl, suc, true, zero, ℕ, ℤ, ◌*◌, ◌+◌,
  ◌∷◌, ◌≡◌, ◌≤◌,
}
use fame_z.Base.Text.{show_int}
use fame_z.Base.Text.Print.{length-show_int}
use fame_z.Rocpyle.{Emitter, Round, capped, gbuf_text, repeat_digits, sizeof_gbuf}

length-repeat_digits : (n : ℕ) → length (repeat_digits n) ≡ 10 * n
unfolding repeat_digits
length-repeat_digits zero = refl
length-repeat_digits (suc n) = omega (arith, length-repeat_digits n)

capped-le : (z : ℤ) → capped z ≤ 18
unfolding capped
capped-le (pos n) = ground arith
capped-le (negsuc n) = omega arith

-- Whatever the arguments are, the message and its NUL fit the buffer.
gbuf_text-fits : (peer mult : ℤ) → length (gbuf_text peer mult) + 1 ≤ sizeof_gbuf
unfolding gbuf_text
gbuf_text-fits peer mult = omega (
  arith,
  length-append (show_int peer) (b':' ∷ repeat_digits (capped mult)),
  length-show_int peer,
  length-repeat_digits (capped mult),
  capped-le mult,
)

-- `n` writes of all `len` bytes, and then the signal.
abbrev pub then_stop : ℕ → ℕ → List Round
then_stop len zero = record { signalled = true; write = pos 0 } ∷ []
then_stop len (suc n) = record { signalled = false; write = pos len } ∷ then_stop len n

abbrev going : ℤ → Emitter
going w = record { keepgoing = true; w = w }

abbrev stopped : ℤ → Emitter
stopped w = record { keepgoing = false; w = w }
