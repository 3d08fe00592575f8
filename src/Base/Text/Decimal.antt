-- ===== src/Base/Text/Decimal.antt =====
-- A printed number is read back.
use native.Mathlib.Nat.{pow-suc}
use fame_z.Base.{
  All, Bool-cases, List, [], ap, arith, false, inl, inr, ltb, refl, some, suc, true, zero, ℕ, ◌%◌,
  ◌*◌, ◌++◌, ◌+◌, ◌-◌, ◌/◌, ◌<◌, ◌^◌, ◌∙◌, ◌∷◌, ◌≡◌,
}
use fame_z.Base.Text.{digit, is_digit, read_digits, read_nat, show_digits, show_nat}

-- The value that `read_digits` collects from a text of digits.
value : ℕ → List ℕ → ℕ
value acc [] = acc
value acc (c ∷ s) = value (acc * 10 + (c - 48)) s

value-append : (acc : ℕ) (s t : List ℕ) → value acc (s ++ t) ≡ value (value acc s) t
unfolding value
value-append acc [] t = refl
value-append acc (c ∷ s) t = value-append (acc * 10 + (c - 48)) s t

abbrev pub AllDigits : List ℕ → Type 0
AllDigits = All (λ c. is_digit c ≡ true)

AllDigits-append : (s t : List ℕ) → AllDigits s → AllDigits t → AllDigits (s ++ t)
AllDigits-append [] t p q = q
AllDigits-append (c ∷ s) t p q = (p.0, AllDigits-append s t p.1 q)

pub show_digits-AllDigits : (f n : ℕ) → AllDigits (show_digits f n)
unfolding show_digits is_digit
show_digits-AllDigits zero n = tt
show_digits-AllDigits (suc f) n = elim (Bool-cases (ltb n 10)) [
  | inl small ↦ rw (small, show_digits) (ground arith, tt)
  | inr big ↦
      rw (big, show_digits)
        (AllDigits-append (show_digits f (n / 10)) (digit (n % 10) ∷ [])
          (show_digits-AllDigits f (n / 10)) (ground arith, tt))
]

-- `n` has at most `f` digits.
show_digits-value : (f n : ℕ) → n < 10 ^ f → value 0 (show_digits f n) ≡ n
unfolding show_digits value
show_digits-value zero n h = omega arith
show_digits-value (suc f) n h = elim (Bool-cases (ltb n 10)) [
  | inl small ↦ rw (small, show_digits) (omega arith)
  | inr big ↦
      rw (big, show_digits)
        (value-append 0 (show_digits f (n / 10)) (digit (n % 10) ∷ [])
          ∙ omega (arith, show_digits-value f (n / 10) (omega (arith, pow-suc 10 f))))
]

-- A text that does not go on with a digit.
abbrev pub Stops : List ℕ → Type 0
Stops [] = Unit {0}
Stops (c ∷ s) = is_digit c ≡ false

read_digits-append :
    (acc : ℕ) (s rest : List ℕ)
    → AllDigits s
    → Stops rest
    → read_digits acc (s ++ rest) ≡ (value acc s, rest)
unfolding read_digits value
read_digits-append acc [] [] p q = refl
read_digits-append acc [] (c ∷ rest) p q = rw (q, read_digits)
read_digits-append acc (c ∷ s) rest p q =
    rw (p.0, read_digits) (read_digits-append (acc * 10 + (c - 48)) s rest p.1 q)

abbrev Starts : List ℕ → Type 0
Starts s = (c : ℕ) × (t : List ℕ) × (s ≡ c ∷ t) × (is_digit c ≡ true)

Starts-append : (s t : List ℕ) → Starts s → Starts (s ++ t)
Starts-append s t (c, u, e, d) = (c, u ++ t, rw e refl, d)

show_digits-Starts : (f n : ℕ) → n < 10 ^ suc f → Starts (show_digits (suc f) n)
unfolding show_digits
show_digits-Starts zero n h =
    let small : ltb n 10 ≡ true = ground arith in
    (digit n, [], rw (small, show_digits), unfold is_digit in ground arith)
show_digits-Starts (suc f) n h = elim (Bool-cases (ltb n 10)) [
  | inl small ↦ (digit n, [], rw (small, show_digits), unfold is_digit in ground arith)
  | inr big ↦
      rw (big, show_digits)
        (Starts-append (show_digits (suc f) (n / 10)) (digit (n % 10) ∷ [])
          (show_digits-Starts f (n / 10) (omega (arith, pow-suc 10 (suc f)))))
]

module _ (rest : List ℕ) (stops : Stops rest) where
  -- A printed number begins with a digit and is read back whole.
  pub read_nat-show_nat :
      (n : ℕ)
      → n < 10 ^ 20
      → (c : ℕ) × (t : List ℕ) × (show_nat n ++ rest ≡ c ∷ t)
        × (is_digit c ≡ true)
        × (read_nat (show_nat n ++ rest) ≡ some (n, rest))
  unfolding read_nat
  read_nat-show_nat n h =
      let (c, t, e, d) = Starts-append (show_nat n) rest (show_digits-Starts 19 n h) in
      (
        c,
        t,
        e,
        d,
        rw e (
            rw d (
              rw (← e) (
                ap some (
                  read_digits-append 0 (show_nat n) rest (show_digits-AllDigits 20 n) stops
                  ∙ ap (λ v. (v, rest)) (show_digits-value 20 n h))))),
      )
