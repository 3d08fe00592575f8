-- ===== src/Base/Text/Memory.antt =====
-- A text in memory: what was stored is what a C string, a byte count or a prefix test reads.
use mathlib.Core.Path.{ap₂}
use fame_z.Base.{
  ==_refl, All, Bool-cases, List, [], ap, arith, bytes_eq, false, get_or, inl, inr, length, refl,
  some, suc, true, zero, ℕ, ◌&&◌, ◌++◌, ◌+◌, ◌<◌, ◌==◌, ◌∙◌, ◌∷◌, ◌≡◌, ◌≢◌, ◌≤◌,
}
use fame_z.Base.Text.{c_string, read_bytes, split_at, starts_with}

-- Memory holds the text `s` from `i` on.
abbrev pub Holds : (ℕ → ℕ) → ℕ → List ℕ → Type 0
Holds m i [] = Unit {0}
Holds m i (c ∷ s) = (m i ≡ c) × Holds m (i + 1) s

abbrev pub NoNul : List ℕ → Type 0
NoNul = All (λ c. c ≢ 0)

pub read_bytes-Holds :
    (m : ℕ → ℕ) (i : ℕ) (s : List ℕ) → Holds m i s → read_bytes (length s) m i ≡ s
unfolding read_bytes
read_bytes-Holds m i [] h = refl
read_bytes-Holds m i (c ∷ s) h = rw (h.0, read_bytes-Holds m (i + 1) s h.1)

-- With a NUL behind it the text is the C string.
pub c_string-Holds :
    (f : ℕ) (m : ℕ → ℕ) (i : ℕ) (s : List ℕ)
    → Holds m i s
    → NoNul s
    → m (i + length s) ≡ 0
    → length s < f
    → c_string f m i ≡ s
unfolding c_string
c_string-Holds zero m i s h n e l = absurd (omega arith)
c_string-Holds (suc f) m i [] h n e l = let here : m i ≡ 0 = ap m (omega arith) ∙ e in ground arith
c_string-Holds (suc f) m i (c ∷ s) h n e l =
    let end : m (i + 1 + length s) ≡ 0 = ap m (omega arith) ∙ e in
    let more : (m i == 0) ≡ false = ground (arith, n.0) in
    rw (more, c_string)
      (ap₂ (λ a b. a ∷ b) h.0 (c_string-Holds f m (i + 1) s h.1 n.1 end (omega arith)))

-- Byte by byte.
pub get-Holds :
    (m : ℕ → ℕ) (i : ℕ) (s : List ℕ)
    → ((j : ℕ) → j < length s → m (i + j) ≡ get_or s j 0)
    → Holds m i s
get-Holds m i [] g = tt
get-Holds m i (c ∷ s) g = (
  ap m (omega arith) ∙ g 0 (omega arith),
  get-Holds m (i + 1) s λ j l. ap m (omega arith) ∙ g (suc j) (omega arith),
)

pub starts_with-miss :
    (c : ℕ) (p : List ℕ) (m : ℕ → ℕ) (i : ℕ) → (m i == c) ≡ false → starts_with (c ∷ p) m i ≡ false
unfolding starts_with
starts_with-miss c p m i e = rw (e, starts_with)

-- A byte behind the prefix `q` that is not the prefix's.
pub starts_with-differs :
    (q : List ℕ) (c : ℕ) (p : List ℕ) (m : ℕ → ℕ) (i : ℕ)
    → (m (i + length q) == c) ≡ false
    → starts_with (q ++ c ∷ p) m i ≡ false
unfolding starts_with
starts_with-differs [] c p m i e = starts_with-miss c p m i (ap (λ j. m j == c) (omega arith) ∙ e)
starts_with-differs (d ∷ q) c p m i e =
    let more = starts_with-differs q c p m (i + 1) (ap (λ j. m j == c) (omega arith) ∙ e) in
    elim (Bool-cases (m i == d)) [
      | inl same ↦ rw (same, starts_with) more
      | inr differ ↦ starts_with-miss d (q ++ c ∷ p) m i differ
    ]

pub starts_with-prefix : (m : ℕ → ℕ) (i : ℕ) (p : List ℕ) → Holds m i p → starts_with p m i ≡ true
unfolding starts_with
starts_with-prefix m i [] h = refl
starts_with-prefix m i (c ∷ p) h =
    rw (h.0, starts_with) (rw (==_refl c) (starts_with-prefix m (i + 1) p h.1))

-- A text of the same length with the prefix is the prefix.
pub starts_with-Holds :
    (m : ℕ → ℕ) (i : ℕ) (s p : List ℕ)
    → Holds m i s
    → ((length s == length p) && starts_with p m i) ≡ bytes_eq s p
unfolding starts_with
starts_with-Holds m i [] [] h = refl
starts_with-Holds m i [] (d ∷ p) h = ground arith
starts_with-Holds m i (c ∷ s) [] h = ground arith
starts_with-Holds m i (c ∷ s) (d ∷ p) h =
    let same : (suc (length s) == suc (length p)) ≡ (length s == length p) = ground arith in
    let more = starts_with-Holds m (i + 1) s p h.1 in
    rw (h.0, starts_with)
      (elim (Bool-cases (c == d)) [
        | inl hit ↦ rw (hit, same) more
        | inr miss ↦ rw miss (ground arith)
      ])

-- No byte of the text is `c`.
abbrev pub Without : ℕ → List ℕ → Type 0
Without c = All (λ x. (x == c) ≡ false)

pub split_at-append : (c : ℕ) (s t : List ℕ) → Without c s → split_at c (s ++ c ∷ t) ≡ some (s, t)
unfolding split_at
split_at-append c [] t w = rw (==_refl c, split_at)
split_at-append c (x ∷ s) t w = rw (w.0, split_at) (rw (split_at-append c s t w.1))

pub Holds-append :
    (m : ℕ → ℕ) (i : ℕ) (s t : List ℕ) → Holds m i (s ++ t) → Holds m i s × Holds m (i + length s) t
Holds-append m i [] t h = (tt, let e : i + 0 ≡ i = omega arith in rw e h)
Holds-append m i (c ∷ s) t h =
    let (a, b) = Holds-append m (i + 1) s t h.1 in
    let e : i + suc (length s) ≡ i + 1 + length s = omega arith in ((h.0, a), rw e b)

-- A change before the text does not touch it.
pub Holds-frame :
    (m m' : ℕ → ℕ) (i : ℕ) (s : List ℕ)
    → ((j : ℕ) → i ≤ j → m' j ≡ m j)
    → Holds m i s
    → Holds m' i s
Holds-frame m m' i [] f h = tt
Holds-frame m m' i (c ∷ s) f h =
    (f i (omega arith) ∙ h.0, Holds-frame m m' (i + 1) s (λ j l. f j (omega arith)) h.1)

-- The C string of a memory that holds a text and the byte `c` begins with both.
pub split_at-c_string :
    (c f : ℕ) (m : ℕ → ℕ) (i : ℕ) (s : List ℕ)
    → c ≢ 0
    → Holds m i (s ++ c ∷ [])
    → NoNul s
    → Without c s
    → length s < f
    → (rest : List ℕ) × (split_at c (c_string f m i) ≡ some (s, rest))
unfolding c_string split_at
split_at-c_string c zero m i s nz h n w l = absurd (omega arith)
split_at-c_string c (suc f) m i [] nz h n w l =
    let more : (m i == 0) ≡ false = ground (arith, h.0) in
    let hit : (m i == c) ≡ true = ground (arith, h.0) in
    (c_string f m (i + 1), rw (more, c_string) (rw (hit, split_at)))
split_at-c_string c (suc f) m i (x ∷ s) nz h n w l =
    let (rest, e) = split_at-c_string c f m (i + 1) s nz h.1 n.1 w.1 (omega arith) in
    let more : (m i == 0) ≡ false = ground (arith, n.0, h.0) in
    let miss : (m i == c) ≡ false = ground (arith, h.0, w.0) in
    (rest, rw (more, c_string) (rw (miss, split_at) (rw (e, h.0))))
