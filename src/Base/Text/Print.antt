-- ===== src/Base/Text/Print.antt =====
-- What `sprintf` prints: how long it is, and that it holds no NUL.
use fame_z.Base.{
  Bool, Bool-cases, List, [], arith, false, inl, inr, length, length-append, ltb, negsuc, pos, suc,
  zero, ℕ, ℤ, ◌%◌, ◌++◌, ◌+◌, ◌/◌, ◌<◌, ◌==◌, ◌^◌, ◌||◌, ◌∷◌, ◌≡◌, ◌≤◌,
}
use fame_z.Base.Text.{
  Piece, digit, is_digit, lit, lits, num, show_digits, show_int, show_nat, sprintf,
}
use fame_z.Base.Text.Decimal.{AllDigits, show_digits-AllDigits}
use fame_z.Base.Text.Memory.{NoNul}
use fame_z.Base.Text.Scan.{Small}

pub NoNul-append : (s t : List ℕ) → NoNul s → NoNul t → NoNul (s ++ t)
NoNul-append [] t p q = q
NoNul-append (c ∷ s) t p q = (p.0, NoNul-append s t p.1 q)

digits-NoNul : (s : List ℕ) → AllDigits s → NoNul s
digits-NoNul [] a = tt
digits-NoNul (c ∷ s) a = (unfold is_digit in ground (arith, a.0), digits-NoNul s a.1)

NoNul-show_int : (z : ℤ) → NoNul (show_int z)
unfolding show_int
NoNul-show_int (pos n) = digits-NoNul (show_nat n) (show_digits-AllDigits 20 n)
NoNul-show_int (negsuc n) =
    (omega arith, digits-NoNul (show_nat (n + 1)) (show_digits-AllDigits 20 (n + 1)))

-- The literal bytes of a format.
unfoldable pub has_nul : List Piece → Bool
has_nul [] = false
has_nul (lit c ∷ f) = (c == 0) || has_nul f
has_nul (num ∷ f) = has_nul f

pub has_nul-lits :
    (s : List ℕ) (f : List Piece) → NoNul s → has_nul f ≡ false → has_nul (lits s f) ≡ false
unfolding has_nul
has_nul-lits [] f n e = e
has_nul-lits (c ∷ s) f n e =
    let first : (c == 0) ≡ false = ground (arith, n.0) in ground (arith, has_nul-lits s f n.1 e)

pub NoNul-sprintf : (f : List Piece) (vs : List ℤ) → has_nul f ≡ false → NoNul (sprintf f vs)
unfolding has_nul sprintf
NoNul-sprintf [] vs e = tt
NoNul-sprintf (lit c ∷ f) vs e = (ground arith, NoNul-sprintf f vs (ground arith))
NoNul-sprintf (num ∷ f) [] e = NoNul-sprintf f [] e
NoNul-sprintf (num ∷ f) (v ∷ vs) e =
    NoNul-append (show_int v) (sprintf f vs) (NoNul-show_int v) (NoNul-sprintf f vs e)

-- No number takes more bytes than the longest of 64 bits.
length-show_digits : (f n : ℕ) → length (show_digits f n) ≤ f
unfolding show_digits
length-show_digits zero n = omega arith
length-show_digits (suc f) n = elim (Bool-cases (ltb n 10)) [
  | inl small ↦ rw (small, show_digits) (omega arith)
  | inr big ↦
      rw (big, show_digits)
        (omega (
          arith,
          length-append (show_digits f (n / 10)) (digit (n % 10) ∷ []),
          length-show_digits f (n / 10),
        ))
]

pub length-show_int : (z : ℤ) → length (show_int z) ≤ 21
unfolding show_int
length-show_int (pos n) = omega (arith, length-show_digits 20 n)
length-show_int (negsuc n) = omega (arith, length-show_digits 20 (n + 1))

-- The most bytes that a format can print to.
abbrev widest : List Piece → ℕ
widest [] = 0
widest (lit c ∷ f) = suc (widest f)
widest (num ∷ f) = 21 + widest f

pub length-sprintf : (f : List Piece) (vs : List ℤ) → length (sprintf f vs) ≤ widest f
unfolding sprintf
length-sprintf [] vs = omega arith
length-sprintf (lit c ∷ f) vs = omega (arith, length-sprintf f vs)
length-sprintf (num ∷ f) [] = omega (arith, length-sprintf f [])
length-sprintf (num ∷ f) (v ∷ vs) =
    omega (arith, length-append (show_int v) (sprintf f vs), length-show_int v, length-sprintf f vs)

pub widest-lits : (s : List ℕ) (f : List Piece) → widest (lits s f) ≡ length s + widest f
widest-lits [] f = omega arith
widest-lits (c ∷ s) f = omega (arith, widest-lits s f)

-- An `int`.
abbrev pub IsInt32 : ℤ → Type 0
IsInt32 (pos n) = n < 2 ^ 31
IsInt32 (negsuc n) = n < 2 ^ 31

pub int32-Small : (z : ℤ) → IsInt32 z → Small z
int32-Small (pos n) h = omega arith
int32-Small (negsuc n) h = omega arith
