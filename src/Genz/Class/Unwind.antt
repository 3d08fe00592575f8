-- ===== src/Genz/Class/Unwind.antt =====
-- The registration of the classes is all or nothing.
use fame_z.Base.{
  ==_refl, Bool-cases, List, Option, Returns, Returns-mono, [], ap, arith, inl, inr, is_zero,
  is_zero-false, none, ok, pos, refl, some, suc, zero, ℕ, ℤ, ◌+◌, ◌∙◌, ◌∷◌, ◌≡◌, ◌≢◌, ◌⊎◌,
}
use fame_z.Genz.Class.{
  Registry, behind_reserved, class_unregister, destroy_from, genz_classes_destroy,
  genz_classes_init, register_from, remove, unregister_below,
}

-- The classes `n` to 1, the last one first.
abbrev pub upto : ℕ → List ℕ
upto zero = []
upto (suc n) = suc n ∷ upto n

unregister_below_lem :
    (n : ℕ) (s : Registry)
    → s.classes ≡ upto n
    → unregister_below (suc n) s ≡ record s { classes = [] }
unfolding unregister_below class_unregister
unregister_below_lem zero s e = ground arith
unregister_below_lem (suc n) s e =
    let first : remove (suc n) (upto (suc n)) ≡ upto n = rw (==_refl (suc n)) in
    unregister_below_lem n (class_unregister (suc n) s) (ap (remove (suc n)) e ∙ first)

-- The names up to the empty entry.
abbrev Named : List (Option (List ℕ)) → ℕ → Type 0
Named [] n = ⊥
Named (none ∷ names) n = n ≡ 0
Named (some name ∷ names) zero = ⊥
Named (some name ∷ names) (suc n) = Named names n

-- The loop ends with all classes registered, or with an error and none.
abbrev pub AllOrNone : ℕ → Registry → ℤ → Registry → Type 0
AllOrNone n s r s' =
    ((r ≡ pos 0) × (s' ≡ record s { classes = upto n }))
    ⊎ ((r ≢ pos 0) × (s' ≡ record s { classes = [] }))

register_from-AllOrNone :
    (class_register : ℕ → ℤ) (i n : ℕ) (names : List (Option (List ℕ))) (s : Registry)
    → Named names n
    → s.classes ≡ upto i
    → Returns (AllOrNone (i + n) s) (register_from class_register (i + 1) names s)
unfolding register_from
register_from-AllOrNone class_register i n [] s d e = absurd d
register_from-AllOrNone class_register i n (none ∷ names) s d e = inl (refl, ground arith)
register_from-AllOrNone class_register i zero (some name ∷ names) s d e = absurd d
register_from-AllOrNone class_register i (suc n) (some name ∷ names) s d e =
    let next : i + 1 ≡ suc i = omega arith in
    let all : i + suc n ≡ i + 1 + n = omega arith in
    elim (Bool-cases (is_zero (class_register (i + 1)))) [
      | inl good ↦
          let s1 = record s { classes = (i + 1) ∷ s.classes } in
          rw (good, register_from)
            (rw all (
              Returns-mono (AllOrNone (i + 1 + n) s1) (AllOrNone (i + 1 + n) s) _
                (register_from-AllOrNone class_register (i + 1) n names s1 d
                  (rw next (ap (◌∷◌ (suc i)) e)))
                λ r s' p. p))
      | inr bad ↦
          rw (bad, register_from) (inr (is_zero-false _ bad, rw next (unregister_below_lem i s e)))
    ]

-- With a class for each name, `genz_classes_init` returns 0 and every class is registered, or the
-- error of the first class that fails, and none is.
pub genz_classes_init-AllOrNone :
    (class_register : ℕ → ℤ) (s : Registry)
    → s.classes ≡ []
    → Returns (AllOrNone 21 s) (genz_classes_init class_register s)
unfolding genz_classes_init
genz_classes_init-AllOrNone class_register s e =
    register_from-AllOrNone class_register 0 21 behind_reserved s refl e

-- The destruction unregisters all that the initialization registered.
pub genz_classes_destroy_lem :
    (s : Registry)
    → s.classes ≡ upto 21
    → genz_classes_destroy s ≡ ok tt (record s { classes = [] })
unfolding genz_classes_destroy destroy_from class_unregister
genz_classes_destroy_lem s e = simp e
