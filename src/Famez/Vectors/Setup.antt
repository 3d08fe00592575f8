-- ===== src/Famez/Vectors/Setup.antt =====
-- The setup of the interrupts is all or nothing.
use mathlib.Core.List.{append-nil, append_assoc}
use fame_z.Base.{
  Bool-cases, List, Returns, [], ap, arith, inl, inr, is_neg, is_neg-nonzero, is_zero,
  is_zero-false, length, length-append, pos, refl, some, suc, sym, take, take-append, true, zero, ℕ,
  ℤ, ◌++◌, ◌+◌, ◌∙◌, ◌∷◌, ◌≡◌, ◌≢◌, ◌⊎◌,
}
use fame_z.Famez.Types.{MsixEntry}
use fame_z.Famez.Vectors.{
  IrqAnswers, Lookup, Vectors, attach, famez_isr_setup, fill_vectors, give_up, looked_up,
  lookup_failed, new_entries, put_vector, request_irqs,
}
use fame_z.Famez.Vectors.Handlers.{
  Handles, Indexed, IsClear, IsReady, count, count-append, free_irqs-count,
}

new_entries-Indexed : (i n : ℕ) → Indexed i n (new_entries i n)
unfolding new_entries
new_entries-Indexed i zero = refl
new_entries-Indexed i (suc n) = (refl, new_entries-Indexed (i + 1) n)

-- The filled table has the entries of the old one; an error is negative.
abbrev Filled : ℕ → ℕ → Lookup → Type 0
Filled i n (looked_up es) = Indexed i n es
Filled i n (lookup_failed r) = r ≢ pos 0

put_vector-Filled :
    (i n : ℕ) (e : MsixEntry) (v : ℤ) (l : Lookup)
    → e.entry ≡ i
    → Filled (i + 1) n l
    → Filled i (suc n) (put_vector e v l)
unfolding put_vector
put_vector-Filled i n e v (looked_up es) own f = (own, f)
put_vector-Filled i n e v (lookup_failed r) own f = f

pub fill_vectors-Filled :
    (irq_vector : ℕ → ℤ) (i n : ℕ) (es : List MsixEntry)
    → Indexed i n es
    → Filled i n (fill_vectors irq_vector i es)
unfolding fill_vectors
fill_vectors-Filled irq_vector i zero [] d = refl
fill_vectors-Filled irq_vector i (suc n) [] d = absurd d
fill_vectors-Filled irq_vector i zero (e ∷ es) d = absurd (ground (arith, d))
fill_vectors-Filled irq_vector i (suc n) (e ∷ es) d = elim (Bool-cases (is_neg (irq_vector i))) [
  | inl bad ↦ rw (bad, fill_vectors) (is_neg-nonzero (irq_vector i) bad)
  | inr good ↦
      rw (good, fill_vectors)
        (put_vector-Filled i n e (irq_vector i) _ d.0
          (fill_vectors-Filled irq_vector (i + 1) n es d.1))
]

-- How a setup ends.
abbrev pub ReadyOrClear : (ℕ → ℕ) → ℕ → ℤ → Vectors → Type 0
ReadyOrClear base n r s' = ((r ≡ pos 0) × IsReady base n s') ⊎ ((r ≢ pos 0) × IsClear base s')

-- The loop, with `before` behind it.
request_irqs-ReadyOrClear :
    (request_irq : ℕ → ℤ) (base : ℕ → ℕ) (n i : ℕ) (all before es : List MsixEntry) (s : Vectors)
    → all ≡ before ++ es
    → i ≡ length before
    → Indexed 0 n all
    → s.irq_private ≡ some all
    → s.allocated ≡ true
    → Handles base before s
    → Returns (ReadyOrClear base n) (request_irqs request_irq all i es s)
unfolding request_irqs give_up
request_irqs-ReadyOrClear request_irq base n i all before [] s split place indexed table allocated
      h =
    inl (
      refl,
      (
        all,
        table,
        allocated,
        indexed,
        λ x. h x ∙ ap (λ l. base x + count x l) (sym (append-nil before) ∙ sym split),
      ),
    )
request_irqs-ReadyOrClear request_irq base n i all before (e ∷ es) s split place indexed table
      allocated h =
    elim (Bool-cases (is_zero (request_irq i))) [
      | inl good ↦
          rw (good, request_irqs)
            (request_irqs-ReadyOrClear request_irq base n (i + 1) all (before ++ e ∷ []) es _
              (split ∙ sym (append_assoc before (e ∷ []) es))
              (omega (arith, place, length-append before (e ∷ []))) indexed table allocated
              λ x. ground (arith, h x, count-append x before (e ∷ [])))
      | inr bad ↦
          let done : take i all ≡ before =
            ap (λ j. take j all) place
            ∙ ap (take (length before)) split
            ∙ take-append before (e ∷ es) in
          rw (bad, request_irqs, done)
            (inr (
              is_zero-false (request_irq i) bad,
              (refl, refl, λ x. free_irqs-count before s.handlers x ∙ omega (arith, h x)),
            ))
    ]

pub attach-ReadyOrClear :
    (a : IrqAnswers) (base : ℕ → ℕ) (n : ℕ) (l : Lookup) (s : Vectors)
    → Filled 0 n l
    → s.allocated ≡ true
    → ((x : ℕ) → s.handlers x ≡ base x)
    → Returns (ReadyOrClear base n) (attach a l s)
unfolding attach give_up
attach-ReadyOrClear a base n (lookup_failed r) s f allocated same = inr (f, (refl, refl, same))
attach-ReadyOrClear a base n (looked_up es) s f allocated same =
    request_irqs-ReadyOrClear a.request_irq base n 0 es [] es _ refl refl f refl allocated
      λ x. same x ∙ omega arith

-- On a device without interrupts the setup returns 0 with a table of nEvents entries, each with its
-- own index, the vectors, and a handler for each entry; or an error, and there is no table, no
-- vector and no new handler.
pub famez_isr_setup-ReadyOrClear :
    (a : IrqAnswers) (base : ℕ → ℕ) (n_events : ℕ) (s : Vectors)
    → IsClear base s
    → Returns (ReadyOrClear base n_events) (famez_isr_setup a n_events s)
unfolding famez_isr_setup give_up
famez_isr_setup-ReadyOrClear a base n_events s (no_table, no_vectors, same) =
    let attached =
      attach-ReadyOrClear a base n_events (fill_vectors a.irq_vector 0 (new_entries 0 n_events))
        (record s { allocated = true; irq_private = some (new_entries 0 n_events) })
        (fill_vectors-Filled a.irq_vector 0 n_events (new_entries 0 n_events)
          (new_entries-Indexed 0 n_events))
        refl same in
    ground (arith, attached, is_neg-nonzero a.msix_vec_count, is_neg-nonzero a.alloc_irq_vectors)
