-- ===== src/Famez/Bind/Numbers.antt =====
-- The numbers of the devices that `famez_register` adds, and `fzbridge_init` with it.
use fame_z.Base.{
  All, Bool-cases, List, Returns, Returns-ok, [], false, inl, inr, is_zero, take, ℕ, ℤ, ◌+◌, ◌∷◌,
  ◌≡◌, ◌≢◌,
}
use fame_z.Famez.Bind.{Binding, Bound, bind_from, devname_of, famez_register}
use fame_z.Genz.Register.{genz_cce_discrete_bridge, genz_register_bridge}
use fame_z.Genz.Register.Minors.{IsNumbered, genz_register_bridge-IsNumbered}
use fame_z.Genz.Register.Outcome.{Ends, genz_register_bridge-Ends}
use fame_z.Monolithic.Messages.{down_interruptible}

-- The kernel hands out no major number 0.
abbrev HasMajors : List Binding → Type 0
HasMajors = All (λ b. b.answers.new_major ≢ 0)

abbrev pub BoundApart : Bound → Type 0
BoundApart s = (s.bridges.bridge_mutex ≡ false) × IsNumbered s.bridges

module _ (class owner : List ℕ) where
  bind_from-BoundApart :
      (nbindings : ℕ) (bs : List Binding) (s : Bound)
      → HasMajors bs
      → BoundApart s
      → Returns (λ r s'. BoundApart s') (bind_from class owner nbindings bs s)
  unfolding bind_from
  bind_from-BoundApart nbindings [] s majors apart = apart
  bind_from-BoundApart nbindings (b ∷ bs) s (major, majors) (free, numbered) =
      let name = devname_of owner b.devfn in
      let (r, bridges, run, (unlocked, _)) =
        Returns-ok (Ends b.answers name b.adapter s.bridges)
          (genz_register_bridge b.answers name b.adapter genz_cce_discrete_bridge s.bridges)
          (genz_register_bridge-Ends b.answers name b.adapter genz_cce_discrete_bridge s.bridges
            free) in
      let apart : IsNumbered bridges = rw run at (
        genz_register_bridge-IsNumbered b.answers name b.adapter genz_cce_discrete_bridge s.bridges
          major free numbered) in
      rw (run, bind_from)
        (elim (Bool-cases (is_zero r)) [
          | inr bad ↦ rw bad (unlocked, apart)
          | inl good ↦ rw good (
              bind_from-BoundApart (nbindings + 1) bs
                (record {
                  done = record b { base_c_class_str = take 32 class } ∷ s.done;
                  bridges = bridges;
                })
                majors (unlocked, apart))
        ])

  -- With the mutex of the subsystem free, and each device numbered apart from the others under the
  -- one major number: so it is behind a registration of a driver set, whatever the kernel answers
  -- to its parts, but for a major number 0.
  pub famez_register-BoundApart :
      (down_interruptible : ℤ) (bs : List Binding) (s : Bound)
      → HasMajors bs
      → BoundApart s
      → Returns (λ r s'. BoundApart s') (famez_register down_interruptible class owner bs s)
  unfolding famez_register
  famez_register-BoundApart down_interruptible bs s majors apart =
      elim (Bool-cases (is_zero down_interruptible)) [
        | inl taken ↦ rw taken (bind_from-BoundApart 0 bs s majors apart)
        | inr refused ↦ rw refused apart
      ]
