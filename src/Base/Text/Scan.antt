-- ===== src/Base/Text/Scan.antt =====
-- `sscanf` reads back what `sprintf` printed with the same format.
use mathlib.Core.List.{append-nil, append_assoc}
use fame_z.Base.{
  ==_refl, All, Bool, Bool-cases, List, [], ap, arith, false, inl, inr, length, negsuc, not, pos,
  refl, some, suc, sym, true, ℕ, ℤ, ◌&&◌, ◌++◌, ◌+◌, ◌<◌, ◌==◌, ◌^◌, ◌||◌, ◌∙◌, ◌∷◌, ◌≡◌,
}
use fame_z.Base.Text.{
  Piece, is_digit, is_space, lit, lits, num, read_int, show_int, skip_spaces, sprintf, sscanf,
}
use fame_z.Base.Text.Decimal.{Stops, read_nat-show_nat}

abbrev pub Small : ℤ → Type 0
Small (pos n) = n < 10 ^ 20
Small (negsuc n) = n + 1 < 10 ^ 20

abbrev nums : List Piece → ℕ
nums [] = 0
nums (lit c ∷ f) = nums f
nums (num ∷ f) = suc (nums f)

-- The next piece cannot be taken for a digit, or for a space.
abbrev stops : List Piece → Bool
stops [] = true
stops (lit c ∷ f) = not (is_digit c)
stops (num ∷ f) = false

abbrev no_space : List Piece → Bool
no_space [] = false
no_space (lit c ∷ f) = not (is_space c)
no_space (num ∷ f) = false

-- No number touches another number or a digit, and no space another space.
unfoldable pub plain : List Piece → Bool
unfolding is_digit
plain [] = true
plain (lit c ∷ f) = (not (is_space c) || no_space f) && plain f
plain (num ∷ f) = stops f && plain f

module _ (rest : List ℕ) (s : Stops rest) where
  read_int-show_int :
      (z : ℤ) → Small z → read_int (skip_spaces (show_int z ++ rest)) ≡ some (z, rest)
  unfolding read_int show_int skip_spaces
  read_int-show_int (pos n) h =
      let (c, t, e, d, r) = read_nat-show_nat rest s n h in
      let sp : is_space c ≡ false = unfold is_digit in ground arith in
      let mi : (c == b'-') ≡ false = unfold is_digit in ground arith in
      rw e (rw (sp, skip_spaces) (rw (mi, read_int) (rw (← e) (rw r))))
  read_int-show_int (negsuc n) h =
      let (c, t, e, d, r) = read_nat-show_nat rest s (n + 1) h in rw r (ground arith)

skip_spaces-stop : (c : ℕ) (s : List ℕ) → is_space c ≡ false → skip_spaces (c ∷ s) ≡ c ∷ s
unfolding skip_spaces
skip_spaces-stop c s e = rw (e, skip_spaces)

skip_spaces-space : (c : ℕ) (s : List ℕ) → is_space c ≡ true → skip_spaces (c ∷ s) ≡ skip_spaces s
unfolding skip_spaces
skip_spaces-space c s e = rw (e, skip_spaces)

module _ (rest : List ℕ) (s : Stops rest) where
  -- A text printed by a format that starts with no space is left alone.
  skip_spaces-sprintf :
      (f : List Piece) (vs : List ℤ)
      → no_space f ≡ true
      → skip_spaces (sprintf f vs ++ rest) ≡ sprintf f vs ++ rest
  unfolding skip_spaces sprintf
  skip_spaces-sprintf [] vs e = cc
  skip_spaces-sprintf (lit c ∷ f) vs e = skip_spaces-stop c (sprintf f vs ++ rest) (ground arith)
  skip_spaces-sprintf (num ∷ f) vs e = cc

  Stops-sprintf : (f : List Piece) (vs : List ℤ) → stops f ≡ true → Stops (sprintf f vs ++ rest)
  unfolding sprintf
  Stops-sprintf [] vs e = s
  Stops-sprintf (lit c ∷ f) vs e = ground arith
  Stops-sprintf (num ∷ f) vs e = cc

  -- The numbers that went into the text come out of it, in order, whatever is behind it.
  pub sscanf-sprintf_append :
      (f : List Piece) (vs : List ℤ)
      → plain f ≡ true
      → nums f ≡ length vs
      → All Small vs
      → sscanf f (sprintf f vs ++ rest) ≡ vs
  unfolding sscanf sprintf plain
  sscanf-sprintf_append [] [] p n a = refl
  sscanf-sprintf_append [] (v ∷ vs) p n a = absurd (omega arith)
  sscanf-sprintf_append (lit c ∷ f) vs p n a = elim (Bool-cases (is_space c)) [
    | inl sp ↦
        rw (sp, sscanf)
          (rw
            (skip_spaces-space c (sprintf f vs ++ rest) sp, skip_spaces-sprintf f vs (ground arith))
            (sscanf-sprintf_append f vs (ground arith) n a))
    | inr sp ↦ rw (sp, sscanf) (rw (==_refl c) (sscanf-sprintf_append f vs (ground arith) n a))
  ]
  sscanf-sprintf_append (num ∷ f) [] p n a = absurd (omega arith)
  sscanf-sprintf_append (num ∷ f) (v ∷ vs) p n a =
      rw (append_assoc (show_int v) (sprintf f vs) rest) (
        rw
          (
            read_int-show_int (sprintf f vs ++ rest) (Stops-sprintf f vs (ground arith)) v a.0,
            sscanf,
          )
          (ap (◌∷◌ v) (sscanf-sprintf_append f vs (ground arith) (omega arith) a.1)))

pub sscanf-sprintf :
    (f : List Piece) (vs : List ℤ)
    → plain f ≡ true
    → nums f ≡ length vs
    → All Small vs
    → sscanf f (sprintf f vs) ≡ vs
sscanf-sprintf f vs p n a =
    ap (sscanf f) (sym (append-nil (sprintf f vs))) ∙ sscanf-sprintf_append [] tt f vs p n a

-- A text without spaces, in a format.
abbrev pub NoSpace : List ℕ → Type 0
NoSpace = All (λ c. is_space c ≡ false)

pub plain-lits :
    (s : List ℕ) (f : List Piece) → NoSpace s → plain f ≡ true → plain (lits s f) ≡ true
unfolding plain
plain-lits [] f n p = p
plain-lits (c ∷ s) f n p = rw (n.0) (plain-lits s f n.1 p)

pub nums-lits : (s : List ℕ) (f : List Piece) → nums (lits s f) ≡ nums f
nums-lits [] f = refl
nums-lits (c ∷ s) f = nums-lits s f
