-- ===== src/Genz/Register/Minors.antt =====
-- The numbers of the bridge devices of kernel/genz/genz_device.c: no two have the same.
use native.Mathlib.Decide.{dec_lt, ℕ_discrete}
use fame_z.Base.{
  ==_refl, All, Bool, Bool-cases, List, Returns, [], arith, false, inl, inr, is_zero, leb, ltb,
  refl, true, ℕ, ℤ, ◌<◌, ◌==◌, ◌||◌, ◌∷◌, ◌≡◌, ◌≢◌,
}
use fame_z.Genz.Register.{
  Bridges, CdevAnswers, CharDevice, add_device, find_first_zero_bit, genz_cce_discrete_bridge,
  genz_cce_integrated_bridge, genz_minorbits, genz_register_bridge, set_bit, take_minor,
  take_region, up_and_out, wrapped,
}
use fame_z.Genz.Register.Outcome.{find_first_zero_bit-found}

-- A minor number below 14 whose bit is set, under the major number.
abbrev Known : (ℕ → Bool) → ℕ → CharDevice → Type 0
Known bitmap major d = (d.minor < genz_minorbits) × (bitmap d.minor ≡ true) × (d.major ≡ major)

abbrev Distinct : List CharDevice → Type 0
Distinct [] = Unit {0}
Distinct (d ∷ ds) = All (λ e. e.minor ≢ d.minor) ds × Distinct ds

-- Each device has a number of its own, and there are none before there is a major number.
abbrev pub IsNumbered : Bridges → Type 0
IsNumbered s =
    All (Known s.bridge_minor_bitmap s.bridge_major) s.cdevs
    × Distinct s.cdevs
    × (s.bridge_major ≡ 0 → s.cdevs ≡ [])

set_bit-Known :
    (minor : ℕ) (bitmap : ℕ → Bool) (major : ℕ) (ds : List CharDevice)
    → All (Known bitmap major) ds
    → All (Known (set_bit minor bitmap) major) ds
set_bit-Known minor bitmap major [] known = tt
set_bit-Known minor bitmap major (d ∷ ds) ((low, set, same), known) =
    ((low, ground arith, same), set_bit-Known minor bitmap major ds known)

-- A number whose bit is clear is that of no device.
clear-fresh :
    (minor : ℕ) (bitmap : ℕ → Bool) (major : ℕ) (ds : List CharDevice)
    → bitmap minor ≡ false
    → All (Known bitmap major) ds
    → All (λ e. e.minor ≢ minor) ds
clear-fresh minor bitmap major [] clear known = tt
clear-fresh minor bitmap major (d ∷ ds) clear ((low, set, same), known) = (
  λ e. let found : bitmap minor ≡ true = rw e at set in absurd (ground arith),
  clear-fresh minor bitmap major ds clear known,
)

module _ (a : CdevAnswers) (devname : List ℕ) (file_private_data : ℕ) where
  abbrev Numbers : ℤ → Bridges → Type 0
  Numbers r s = IsNumbered s

  add_device-IsNumbered :
      (minor : ℕ) (s : Bridges)
      → IsNumbered s
      → IsNumbered
          (record s { cdevs = wrapped a devname file_private_data s.bridge_major minor ∷ s.cdevs })
      → Returns Numbers (add_device a devname file_private_data minor s)
  unfolding add_device up_and_out
  add_device-IsNumbered minor s before after = ground arith

  take_minor-IsNumbered :
      (minor : ℕ) (s : Bridges)
      → minor < genz_minorbits
      → s.bridge_minor_bitmap minor ≡ false
      → s.bridge_major ≢ 0
      → IsNumbered s
      → Returns Numbers (take_minor a devname file_private_data minor s)
  unfolding take_minor up_and_out
  take_minor-IsNumbered minor s low clear major (known, distinct, none_yet) =
      let s1 = record s { bridge_minor_bitmap = set_bit minor s.bridge_minor_bitmap } in
      let kept = set_bit-Known minor s.bridge_minor_bitmap s.bridge_major s.cdevs known in
      let fresh = clear-fresh minor s.bridge_minor_bitmap s.bridge_major s.cdevs clear known in
      elim (Bool-cases (a.wrapper == 0)) [
        | inl missing ↦ rw missing (kept, distinct, none_yet)
        | inr there ↦ rw there (
            add_device-IsNumbered minor s1 (kept, distinct, none_yet)
              (
                ((low, rw (==_refl minor) refl, refl), kept),
                (fresh, distinct),
                λ e. absurd (major e),
              ))
      ]

  take_region-IsNumbered :
      (minor : ℕ) (s : Bridges)
      → a.new_major ≢ 0
      → minor < genz_minorbits
      → s.bridge_minor_bitmap minor ≡ false
      → IsNumbered s
      → Returns Numbers (take_region a devname file_private_data minor s)
  unfolding take_region up_and_out
  take_region-IsNumbered minor s named low clear (known, distinct, none_yet) =
      elim (ℕ_discrete s.bridge_major 0) [
        | yes e ↦
            let empty = none_yet e in
            let first : IsNumbered (record s { bridge_major = a.new_major }) =
              rw empty (tt, tt, λ z. refl) in
            let test : (s.bridge_major == 0) ≡ true = ground arith in
            rw test (elim (Bool-cases (is_zero a.alloc_chrdev_region)) [
              | inl good ↦ rw good (
                  take_minor-IsNumbered minor (record s { bridge_major = a.new_major }) low clear
                    named first)
              | inr bad ↦ rw bad (known, distinct, none_yet)
            ])
        | no has ↦
            let test : (s.bridge_major == 0) ≡ false = ground (arith, has) in
            rw test (elim (Bool-cases (is_zero a.register_chrdev_region)) [
              | inl good ↦
                  rw good (take_minor-IsNumbered minor s low clear has (known, distinct, none_yet))
              | inr bad ↦ rw bad (known, distinct, none_yet)
            ])
      ]

  -- A registration with the mutex free keeps the numbers apart, also when it fails.
  pub genz_register_bridge-IsNumbered :
      (cce : ℕ) (s : Bridges)
      → a.new_major ≢ 0
      → s.bridge_mutex ≡ false
      → IsNumbered s
      → Returns Numbers (genz_register_bridge a devname file_private_data cce s)
  unfolding genz_register_bridge up_and_out
  genz_register_bridge-IsNumbered cce s named free numbered =
      let minor = find_first_zero_bit s.bridge_minor_bitmap genz_minorbits 0 in
      let (lo, hi, clear) = find_first_zero_bit-found s.bridge_minor_bitmap genz_minorbits 0 in
      elim (Bool-cases (ltb cce genz_cce_discrete_bridge || ltb genz_cce_integrated_bridge cce)) [
        | inl other ↦ rw other numbered
        | inr bridge ↦
            rw (bridge, free)
              (elim (dec_lt minor genz_minorbits) [
                | no full ↦
                    let test : leb genz_minorbits minor ≡ true = ground (arith, full) in
                    rw test numbered
                | yes low ↦
                    let test : leb genz_minorbits minor ≡ false = ground (arith, low) in
                    rw test (
                      take_region-IsNumbered minor (record s { bridge_mutex = true }) named low
                        (clear low) numbered)
              ])
      ]
