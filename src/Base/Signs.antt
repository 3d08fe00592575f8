-- ===== src/Base/Signs.antt =====
-- The tests of a sign say what they mean.
use Prim.Native.Nat.{ℕ}
use mathlib.Core.Path.{◌≡◌, refl}
use mathlib.Core.Logic.{◌≢◌}
use mathlib.Core.Bool.{true, false}
use native.Mathlib.Omega.{arith}
use fame_z.Base.Int.{ℤ, pos, negsuc, is_zero, is_neg}

pub is_zero-true : (z : ℤ) → is_zero z ≡ true → z ≡ pos 0
is_zero-true (pos n) h = ground arith
is_zero-true (negsuc n) h = absurd (ground arith)

pub is_zero-nonzero : (z : ℤ) → z ≢ pos 0 → is_zero z ≡ false
is_zero-nonzero (pos n) h = ground (arith, h)
is_zero-nonzero (negsuc n) h = refl

pub is_zero-false : (z : ℤ) → is_zero z ≡ false → z ≢ pos 0
is_zero-false (pos n) h e = ground arith
is_zero-false (negsuc n) h e = ground arith

pub is_neg-nonzero : (z : ℤ) → is_neg z ≡ true → z ≢ pos 0
is_neg-nonzero (pos n) h e = absurd (ground arith)
is_neg-nonzero (negsuc n) h e = ground arith

pub negsuc-nonzero : (n : ℕ) → negsuc n ≢ pos 0
negsuc-nonzero n e = ground arith
