-- ===== src/Monolithic/Vectors/Outcome.antt =====
-- The setup of the older driver is all or nothing, and its teardown undoes it.
use fame_z.Base.{
  Bool-cases, List, Returns, Returns-bind, Returns-mono, [], arith, eq_ℤ, false, inl, inr, is_neg,
  is_neg-nonzero, length, ltb, negsuc-nonzero, none, pos, refl, some, suc, to_u32, zero, ℕ, ℤ, ◌+◌,
  ◌∷◌, ◌≡◌, ◌≢◌, ◌⊎◌,
}
use fame_z.Famez.Types.{MsixEntry}
use fame_z.Famez.Vectors.{IrqAnswers, Vectors, fill_vectors, free_first, give_up}
use fame_z.Famez.Vectors.Handlers.{Indexed, IsClear, IsReady, free_first-count}
use fame_z.Famez.Vectors.Setup.{ReadyOrClear, attach-ReadyOrClear, fill_vectors-Filled}
use fame_z.Monolithic.Vectors.{
  allocate, famez_msix_setup, famez_msix_teardown, number, number_entries,
}

-- The vectors are not set up; the table is still there, or freed.
abbrev IsIdle : (ℕ → ℕ) → Vectors → Vectors → Type 0
IsIdle base s s' =
    (s'.allocated ≡ false)
    × ((x : ℕ) → s'.handlers x ≡ base x)
    × ((s'.irq_private ≡ none) ⊎ (s'.irq_private ≡ s.irq_private))

abbrev pub ReadyOrIdle : (ℕ → ℕ) → ℕ → Vectors → ℤ → Vectors → Type 0
ReadyOrIdle base n s r s' = ((r ≡ pos 0) × IsReady base n s') ⊎ ((r ≢ pos 0) × IsIdle base s s')

number_entries-Indexed :
    (i n : ℕ) (table : List MsixEntry)
    → length table ≡ n
    → (es : List MsixEntry) × (number_entries i n table ≡ some es) × Indexed i n es
unfolding number_entries
number_entries-Indexed i zero [] h = ([], refl, refl)
number_entries-Indexed i zero (e ∷ es) h = absurd (omega arith)
number_entries-Indexed i (suc n) [] h = absurd (omega arith)
number_entries-Indexed i (suc n) (e ∷ es) h =
    let (l, eq, d) = number_entries-Indexed (i + 1) n es (omega arith) in
    (record e { entry = i } ∷ l, rw eq, (refl, d))

module _ (a : IrqAnswers) (base : ℕ → ℕ) (n_slots : ℕ) (s : Vectors) where
  allocate-ReadyOrIdle :
      (entries : List MsixEntry)
      → Indexed 0 n_slots entries
      → s.allocated ≡ false
      → ((x : ℕ) → s.handlers x ≡ base x)
      → Returns
          (ReadyOrIdle base n_slots s)
          (allocate a n_slots entries (record s { irq_private = some entries }))
  unfolding allocate give_up
  allocate-ReadyOrIdle entries indexed off same = elim (Bool-cases (is_neg a.alloc_irq_vectors)) [
    | inl bad ↦ rw bad (inr (is_neg-nonzero a.alloc_irq_vectors bad, (off, same, inl refl)))
    | inr good ↦ rw good (elim (Bool-cases (ltb (to_u32 a.alloc_irq_vectors) n_slots)) [
      | inl few ↦ rw few (inr (negsuc-nonzero 27, (refl, same, inl refl)))
      | inr enough ↦ rw enough (
          Returns-mono (ReadyOrClear base n_slots) (ReadyOrIdle base n_slots s) _
            (attach-ReadyOrClear a base n_slots (fill_vectors a.irq_vector 0 entries) _
              (fill_vectors-Filled a.irq_vector 0 n_slots entries indexed) refl same)
            λ r s' p. elim p [
              | inl ready ↦ inl ready
              | inr (bad, (none_, off', same')) ↦ inr (bad, (off', same', inl none_))
            ])
    ])
  ]

  -- Behind `create_config`, which leaves a table of nSlots entries, the setup returns 0 with each
  -- entry numbered, the vectors allocated and one handler on each; or an error with no vector and
  -- no handler, and the table as it was or freed with its pointer cleared.
  pub famez_msix_setup-ReadyOrIdle :
      (table : List MsixEntry)
      → s.irq_private ≡ some table
      → length table ≡ n_slots
      → s.allocated ≡ false
      → ((x : ℕ) → s.handlers x ≡ base x)
      → Returns (ReadyOrIdle base n_slots s) (famez_msix_setup a n_slots s)
  unfolding famez_msix_setup number
  famez_msix_setup-ReadyOrIdle table there sized off same =
      let idle : IsIdle base s s = (off, same, inr refl) in
      let (es, numbered, indexed) = number_entries-Indexed 0 n_slots table sized in
      elim (Bool-cases (is_neg a.msix_vec_count)) [
        | inl bad ↦ rw bad (inr (is_neg-nonzero a.msix_vec_count bad, idle))
        | inr good ↦ rw good (elim (Bool-cases (eq_ℤ a.msix_vec_count (pos 64))) [
          | inr other ↦ rw other (inr (negsuc-nonzero 21, idle))
          | inl exact ↦ rw exact (elim (Bool-cases (ltb 64 n_slots)) [
            | inl many ↦ rw many (inr (negsuc-nonzero 27, idle))
            | inr fits ↦
                rw fits
                  (simp there (rw (numbered, number) (allocate-ReadyOrIdle es indexed off same)))
          ])
        ])
      ]

-- The teardown of a set-up table frees each handler once, and leaves no table and no vector.
pub famez_msix_teardown-IsClear :
    (base : ℕ → ℕ) (n_slots : ℕ) (s : Vectors)
    → IsReady base n_slots s
    → Returns (λ _ s'. IsClear base s') (famez_msix_teardown n_slots s)
unfolding famez_msix_teardown
famez_msix_teardown-IsClear base n_slots s (es, table, _, indexed, h) =
    simp (table, famez_msix_teardown)
      (Returns-bind (λ _ s'. (x : ℕ) → s'.handlers x ≡ base x) _ (free_first n_slots es s) _
        (free_first-count base 0 n_slots es s indexed h) λ u s' same. (refl, refl, same))
