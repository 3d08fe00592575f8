-- ===== src/Famez/Vectors/Handlers.antt =====
-- Handlers are counted: what is freed is what was requested.
use fame_z.Base.{
  List, Returns, Returns-bind, [], and_then, arith, false, if◌then◌else◌, none, ok, refl, some, suc,
  true, zero, ℕ, ◌++◌, ◌+◌, ◌-◌, ◌==◌, ◌∙◌, ◌∷◌, ◌≡◌,
}
use fame_z.Famez.Types.{MsixEntry}
use fame_z.Famez.Vectors.{Vectors, famez_isr_teardown, free_first, free_irq, free_irqs}

-- How many of the entries have the vector.
abbrev pub count : ℕ → List MsixEntry → ℕ
count x [] = 0
count x (e ∷ es) = if x == e.vector then suc (count x es) else count x es

pub free_irqs-count :
    (es : List MsixEntry) (handlers : ℕ → ℕ) (x : ℕ)
    → free_irqs es handlers x ≡ handlers x - count x es
unfolding free_irqs
free_irqs-count [] handlers x = omega arith
free_irqs-count (e ∷ es) handlers x =
    free_irqs-count es (free_irq e.vector handlers) x ∙ ground arith

pub count-append : (x : ℕ) (es fs : List MsixEntry) → count x (es ++ fs) ≡ count x es + count x fs
count-append x [] fs = omega arith
count-append x (e ∷ es) fs = ground (arith, count-append x es fs)

-- The `n` entries have these handlers on top of `base`.
abbrev pub Handles : (ℕ → ℕ) → List MsixEntry → Vectors → Type 0
Handles base es s = (x : ℕ) → s.handlers x ≡ base x + count x es

-- No table, no vectors, and the handlers of `base`.
abbrev pub IsClear : (ℕ → ℕ) → Vectors → Type 0
IsClear base s = (s.irq_private ≡ none) × (s.allocated ≡ false) × ((x : ℕ) → s.handlers x ≡ base x)

-- Entry `i` has its own index, for each of the `n` entries from `i` on.
abbrev pub Indexed : ℕ → ℕ → List MsixEntry → Type 0
Indexed i zero es = es ≡ []
Indexed i (suc n) [] = ⊥
Indexed i (suc n) (e ∷ es) = (e.entry ≡ i) × Indexed (i + 1) n es

-- The table of `n` entries, the vectors, and a handler for each entry on top of `base`.
abbrev pub IsReady : (ℕ → ℕ) → ℕ → Vectors → Type 0
IsReady base n s =
    (es : List MsixEntry) × (s.irq_private ≡ some es)
    × (s.allocated ≡ true)
    × Indexed 0 n es
    × Handles base es s

pub free_first-count :
    (base : ℕ → ℕ) (i n : ℕ) (es : List MsixEntry) (s : Vectors)
    → Indexed i n es
    → Handles base es s
    → Returns (λ _ s'. (x : ℕ) → s'.handlers x ≡ base x) (free_first n es s)
unfolding free_first
free_first-count base i zero es s d h = λ x. h x ∙ rw d (omega arith)
free_first-count base i (suc n) [] s d h = absurd d
free_first-count base i (suc n) (e ∷ es) s d h =
    free_first-count base (i + 1) n es _ d.1 (λ x. ground (arith, h x))

teardown-some :
    (n_clients : ℕ) (s : Vectors) (es : List MsixEntry)
    → s.irq_private ≡ some es
    → famez_isr_teardown n_clients s
      ≡ and_then
          (free_first (n_clients + 2) es s)
          (λ _ s'. ok tt (record s' { allocated = false; irq_private = none }))
unfolding famez_isr_teardown
teardown-some n_clients s es table = simp (table, famez_isr_teardown)

-- On a table of nClients + 2 entries with their handlers, the teardown frees each handler once and
-- leaves nothing; a second teardown changes nothing.
pub famez_isr_teardown-IsClear :
    (base : ℕ → ℕ) (n_clients : ℕ) (s : Vectors)
    → IsReady base (n_clients + 2) s
    → Returns
        (λ _ s'. IsClear base s' × (famez_isr_teardown n_clients s' ≡ ok tt s'))
        (famez_isr_teardown n_clients s)
unfolding famez_isr_teardown
famez_isr_teardown-IsClear base n_clients s (es, table, _, indexed, h) =
    rw (teardown-some n_clients s es table) (
      Returns-bind (λ _ s'. (x : ℕ) → s'.handlers x ≡ base x) _ (free_first (n_clients + 2) es s) _
        (free_first-count base 0 (n_clients + 2) es s indexed h)
        λ u s' same. ((refl, refl, same), refl))
