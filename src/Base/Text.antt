-- ===== src/Base/Text.antt =====
-- The text functions of the C library that the drivers call, over lists of bytes:
-- `sprintf` with %d and %llu, `sscanf` with %d, `strchr`, `strncmp`, and a C string in memory.
pub mod Decimal
pub mod Scan
pub mod Memory
pub mod Print
use fame_z.Base.{
  ℕ, zero, suc, ◌+◌, ◌-◌, ◌*◌, ◌/◌, ◌%◌, ℤ, pos, negsuc, Bool, true, false, ◌&&◌, Option, none,
  some, List, [], ◌∷◌, ◌++◌, ltb, leb, ◌==◌, if◌then◌else◌,
}

unfoldable pub is_digit : ℕ → Bool
is_digit c = leb 48 c && leb c 57

abbrev pub digit : ℕ → ℕ
digit d = d + 48

-- %llu: at most `fuel` decimal digits. Twenty are enough for 64 bits.
unfoldable pub show_digits : ℕ → ℕ → List ℕ
show_digits zero n = []
show_digits (suc f) n = elim (ltb n 10) [
  | true ↦ digit n ∷ []
  | false ↦ show_digits f (n / 10) ++ digit (n % 10) ∷ []
]

abbrev pub show_nat : ℕ → List ℕ
show_nat n = show_digits 20 n

-- %d
unfoldable pub show_int : ℤ → List ℕ
show_int (pos n) = show_nat n
show_int (negsuc n) = b'-' ∷ show_nat (n + 1)

-- The digits at the head of a text, added to `acc`, and the rest.
unfoldable pub read_digits : ℕ → List ℕ → ℕ × List ℕ
read_digits acc [] = (acc, [])
read_digits acc (c ∷ s) = elim (is_digit c) [
  | true ↦ read_digits (acc * 10 + (c - 48)) s
  | false ↦ (acc, c ∷ s)
]

-- At least one digit.
unfoldable pub read_nat : List ℕ → Option (ℕ × List ℕ)
read_nat [] = none
read_nat (c ∷ s) = if is_digit c then some (read_digits 0 (c ∷ s)) else none

negated : Option (ℕ × List ℕ) → Option (ℤ × List ℕ)
negated none = none
negated (some (n, s)) = some (if n == 0 then pos 0 else negsuc (n - 1), s)

positive : Option (ℕ × List ℕ) → Option (ℤ × List ℕ)
positive none = none
positive (some (n, s)) = some (pos n, s)

-- %d of `sscanf`: an optional minus, and digits.
pub read_int : List ℕ → Option (ℤ × List ℕ)
unfolding negated positive
read_int [] = none
read_int (c ∷ s) = if c == b'-' then negated (read_nat s) else positive (read_nat (c ∷ s))

abbrev pub is_space : ℕ → Bool
is_space c = if leb 9 c && leb c 13 then true else c == 32

pub skip_spaces : List ℕ → List ℕ
skip_spaces [] = []
skip_spaces (c ∷ s) = elim (is_space c) [ true ↦ skip_spaces s | false ↦ c ∷ s ]

-- A format of `sscanf` or `sprintf`.
pub data Piece : Type 0 where
  lit : ℕ → Piece
  num : Piece

abbrev pub lits : List ℕ → List Piece → List Piece
lits [] f = f
lits (c ∷ s) f = lit c ∷ lits s f

-- The values converted before the first mismatch. A space of the format skips spaces of the text.
unfoldable pub sscanf : List Piece → List ℕ → List ℤ
sscanf [] s = []
sscanf (num ∷ f) s = elim (read_int (skip_spaces s)) [
  | none ↦ []
  | some (v, rest) ↦ v ∷ sscanf f rest
]
sscanf (lit c ∷ f) [] = elim (is_space c) [ true ↦ sscanf f [] | false ↦ [] ]
sscanf (lit c ∷ f) (x ∷ s) = elim (is_space c) [
  | true ↦ sscanf f (skip_spaces (x ∷ s))
  | false ↦ elim (x == c) [ true ↦ sscanf f s | false ↦ [] ]
]

-- `sprintf` of a format with one value for each %d.
unfoldable pub sprintf : List Piece → List ℤ → List ℕ
sprintf [] vs = []
sprintf (lit c ∷ f) vs = c ∷ sprintf f vs
sprintf (num ∷ f) [] = sprintf f []
sprintf (num ∷ f) (v ∷ vs) = show_int v ++ sprintf f vs

-- strchr: the text before the first `c`, and the text behind it.
unfoldable pub split_at : ℕ → List ℕ → Option (List ℕ × List ℕ)
split_at c [] = none
split_at c (x ∷ s) = elim (x == c) [
  | true ↦ some ([], s)
  | false ↦ elim (split_at c s) [ none ↦ none | some (a, b) ↦ some (x ∷ a, b) ]
]

-- The C string that starts at `i` in memory, of at most `fuel` bytes.
unfoldable pub c_string : ℕ → (ℕ → ℕ) → ℕ → List ℕ
c_string zero m i = []
c_string (suc f) m i = elim (m i == 0) [ true ↦ [] | false ↦ m i ∷ c_string f m (i + 1) ]

-- The `n` bytes from `i` on.
unfoldable pub read_bytes : ℕ → (ℕ → ℕ) → ℕ → List ℕ
read_bytes zero m i = []
read_bytes (suc n) m i = m i ∷ read_bytes n m (i + 1)

-- !strncmp(s, p, strlen(p)): the C string at 0 begins with `p`, which holds no NUL.
unfoldable pub starts_with : List ℕ → (ℕ → ℕ) → ℕ → Bool
starts_with [] m i = true
starts_with (c ∷ p) m i = elim (m i == c) [ true ↦ starts_with p m (i + 1) | false ↦ false ]
