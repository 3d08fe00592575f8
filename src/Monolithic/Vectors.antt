-- ===== src/Monolithic/Vectors.antt =====
-- `famez_MSIX_setup` and `famez_MSIX_teardown` of kernel/famez/monolithic/famez_MSI-X.c. The table
-- comes with the configuration; its pointer `msix_entries` is the `irq_private` of the state.
pub mod Outcome
use fame_z.Base.{
  Cmd, List, Option, [], and_then, e_inval, e_nospc, eq_ℤ, false, fault, if◌then◌else◌, is_neg, ltb,
  none, not, null_pointer, ok, out_of_bounds, pos, some, suc, to_u32, true, zero, ℕ, ℤ, ◌+◌, ◌==◌,
  ◌∷◌,
}
use fame_z.Famez.Types.{MsixEntry}
use fame_z.Famez.Vectors.{IrqAnswers, Vectors, attach, fill_vectors, free_first, give_up}

-- `config->msix_entries[i].entry = i` for `rounds` entries from `i` on; `none` is a write past the
-- table.
pub number_entries : (i rounds : ℕ) → List MsixEntry → Option (List MsixEntry)
number_entries i zero es = some es
number_entries i (suc rounds) [] = none
number_entries i (suc rounds) (e ∷ es) = elim (number_entries (i + 1) rounds es) [
  | none ↦ none
  | some l ↦ some (record e { entry = i } ∷ l)
]

-- Behind the numbering: the allocation of exactly `nvectors` vectors, and the handlers.
pub allocate : IrqAnswers → (nvectors : ℕ) → List MsixEntry → Cmd Vectors ℤ
allocate a nvectors entries s =
    if is_neg a.alloc_irq_vectors
    then ok a.alloc_irq_vectors (record s { irq_private = none })
    else (if ltb (to_u32 a.alloc_irq_vectors) nvectors
        then give_up e_nospc s
        else attach a (fill_vectors a.irq_vector 0 entries) (record s { allocated = true }))

-- The table is numbered in place.
pub number : IrqAnswers → (nvectors : ℕ) → List MsixEntry → Cmd Vectors ℤ
number a nvectors table s = elim (number_entries 0 nvectors table) [
  | none ↦ fault out_of_bounds
  | some entries ↦ allocate a nvectors entries (record s { irq_private = some entries })
]

pub famez_msix_setup : IrqAnswers → (n_slots : ℕ) → Cmd Vectors ℤ
famez_msix_setup a n_slots s =
    if is_neg a.msix_vec_count
    then ok a.msix_vec_count s
    else (if not (eq_ℤ a.msix_vec_count (pos 64))
        then ok e_inval s
        else (if ltb 64 n_slots then ok e_nospc s else elim s.irq_private [
          | none ↦ if n_slots == 0 then allocate a 0 [] s else fault null_pointer
          | some table ↦ number a n_slots table s
        ]))

pub famez_msix_teardown : (n_slots : ℕ) → Cmd Vectors (Unit {0})
famez_msix_teardown n_slots s = elim s.irq_private [
  | none ↦ ok tt s
  | some entries ↦
      and_then (free_first n_slots entries s)
        λ _ s'. ok tt (record s' { allocated = false; irq_private = none })
]
