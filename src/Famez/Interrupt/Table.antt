-- ===== src/Famez/Interrupt/Table.antt =====
-- The search of the vector table.
use native.Mathlib.Decide.{ℕ_discrete}
use fame_z.Base.{
  Bool-cases, List, [], ap, arith, false, get_elem?, inl, inr, length, refl, some, suc, zero, ℕ,
  ◌+◌, ◌<◌, ◌==◌, ◌∷◌, ◌≡◌, ◌≤◌,
}
use fame_z.Famez.Interrupt.{match_vector}
use fame_z.Famez.Types.{MsixEntry}

-- Entry `i` of the table has the vector.
abbrev pub HasVector : List MsixEntry → ℕ → ℕ → Type 0
HasVector entries i vector = (e : MsixEntry) × (get_elem? entries i ≡ some e) × (e.vector ≡ vector)

get_elem?-some :
    (entries : List MsixEntry) (i : ℕ)
    → i < length entries
    → (e : MsixEntry) × (get_elem? entries i ≡ some e)
get_elem?-some [] i h = absurd (omega arith)
get_elem?-some (x ∷ xs) zero h = (x, refl)
get_elem?-some (x ∷ xs) (suc i) h = get_elem?-some xs i (omega arith)

miss_lem :
    (entries : List MsixEntry) (m i : ℕ) (e : MsixEntry) (vector : ℕ)
    → m ≡ i
    → get_elem? entries i ≡ some e
    → (vector == e.vector) ≡ false
    → ¬ HasVector entries m vector
miss_lem entries m i e vector same found miss (e', found', v) =
    let one : e ≡ e' = cc (ap (get_elem? entries) same) in
    ground (arith, ap (λ (x : MsixEntry). x.vector) one)

-- Within the table the search ends: at the first entry with the vector, or behind the last round.
pub match_vector-found :
    (vector rounds i : ℕ) (entries : List MsixEntry)
    → i + rounds ≤ length entries
    → (j : ℕ) × (match_vector vector rounds i entries ≡ some j)
      × (i ≤ j)
      × (j ≤ i + rounds)
      × (j < i + rounds → HasVector entries j vector)
      × ((m : ℕ) → i ≤ m → m < j → ¬ HasVector entries m vector)
unfolding match_vector
match_vector-found vector zero i entries h =
    (i, refl, omega arith, omega arith, (λ l. absurd (omega arith)), λ m a b. absurd (omega arith))
match_vector-found vector (suc r) i entries h =
    let (e, found) = get_elem?-some entries i (omega arith) in
    elim (Bool-cases (vector == e.vector)) [
      | inl hit ↦ (
        i,
        rw (found, match_vector) (rw hit),
        omega arith,
        omega arith,
        (λ l. (e, found, ground arith)),
        λ m a b. absurd (omega arith),
      )
      | inr miss ↦
          let (j, eq, lo, hi, has, first) =
            match_vector-found vector r (i + 1) entries (omega arith) in
          (
            j,
            rw (found, match_vector) (rw miss eq),
            omega arith,
            omega arith,
            (λ l. has (omega arith)),
            λ m a b hv. elim (ℕ_discrete m i) [
              | yes same ↦ miss_lem entries m i e vector same found miss hv
              | no other ↦ first m (omega arith) b hv
            ],
          )
    ]
