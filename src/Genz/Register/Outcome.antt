-- ===== src/Genz/Register/Outcome.antt =====
-- What a registration of a bridge leaves behind, on success and on failure.
use fame_z.Base.{
  ==_refl, Bool, Bool-cases, List, Returns, ap, arith, e_nomem, false, inl, inr, is_zero,
  is_zero-false, leb, pos, refl, suc, true, zero, ℕ, ℤ, ◌+◌, ◌<◌, ◌==◌, ◌∷◌, ◌≡◌, ◌≢◌, ◌≤◌, ◌⊎◌,
}
use fame_z.Famez.Probe.{created}
use fame_z.Genz.Register.{
  Bridges, CdevAnswers, add_device, find_first_zero_bit, genz_minorbits, genz_register_bridge,
  take_minor, take_region, up_and_out, wrapped,
}

-- The search ends at a clear bit, or at the end.
pub find_first_zero_bit-found :
    (bitmap : ℕ → Bool) (rounds i : ℕ)
    → let j = find_first_zero_bit bitmap rounds i in
      (i ≤ j) × (j ≤ i + rounds) × (j < i + rounds → bitmap j ≡ false)
unfolding find_first_zero_bit
find_first_zero_bit-found bitmap zero i = (omega arith, omega arith, λ h. absurd (omega arith))
find_first_zero_bit-found bitmap (suc rounds) i = elim (Bool-cases (bitmap i)) [
  | inr e ↦ rw (e, find_first_zero_bit) (omega arith, omega arith, λ h. e)
  | inl e ↦
      let (lo, hi, clear) = find_first_zero_bit-found bitmap rounds (i + 1) in
      rw (e, find_first_zero_bit) (omega arith, omega arith, λ h. clear (omega arith))
]

module _ (a : CdevAnswers) (devname : List ℕ) (file_private_data : ℕ) where
  -- The new device is the last one that was added, under a minor number that was free.
  abbrev Added : Bridges → Bridges → Type 0
  Added s s' =
      (minor : ℕ) × (minor < genz_minorbits)
      × (s.bridge_minor_bitmap minor ≡ false)
      × (s'.bridge_minor_bitmap minor ≡ true)
      × (s'.cdevs ≡ wrapped a devname file_private_data s'.bridge_major minor ∷ s.cdevs)
      × (s'.nodes ≡ devname ∷ s.nodes)

  -- How a registration ends.
  abbrev pub Ends : Bridges → ℤ → Bridges → Type 0
  Ends s r s' =
      (s'.bridge_mutex ≡ false)
      × (((r ≡ pos 0) × Added s s' × (s'.freed ≡ s.freed)) ⊎ ((r ≢ pos 0) × (s'.nodes ≡ s.nodes)))

  -- An error frees the mutex and adds no node.
  up_and_out-Fails :
      (ret : ℤ) (w : ℕ) (s t : Bridges)
      → is_zero ret ≡ false
      → t.nodes ≡ s.nodes
      → Returns (Ends s) (up_and_out ret w t)
  unfolding up_and_out
  up_and_out-Fails ret w s t bad nodes = (refl, inr (is_zero-false ret bad, nodes))

  -- So far only the bit of the minor number was set.
  abbrev Took : ℕ → Bridges → Bridges → Type 0
  Took minor s t =
      (minor < genz_minorbits)
      × (s.bridge_minor_bitmap minor ≡ false)
      × (t.bridge_minor_bitmap minor ≡ true)
      × (t.cdevs ≡ s.cdevs)
      × (t.nodes ≡ s.nodes)
      × (t.freed ≡ s.freed)

  add_device-Ends :
      (minor : ℕ) (s t : Bridges)
      → Took minor s t
      → Returns (Ends s) (add_device a devname file_private_data minor t)
  unfolding add_device
  add_device-Ends minor s t (small, clear, set, cdevs, nodes, freed) =
      elim (Bool-cases (is_zero a.kobject_set_name)) [
        | inr bad ↦
            rw (bad, add_device) (up_and_out-Fails a.kobject_set_name a.wrapper s t bad nodes)
        | inl named_ ↦ elim (Bool-cases (is_zero a.cdev_add)) [
          | inr bad ↦
              rw (named_, bad, add_device) (up_and_out-Fails a.cdev_add a.wrapper s t bad nodes)
          | inl added ↦ elim (Bool-cases (is_zero a.device_create)) [
            | inr bad ↦
                rw (named_, added, bad, add_device)
                  (up_and_out-Fails a.device_create a.wrapper s _ bad nodes)
            | inl created ↦
                rw (named_, added, created, add_device)
                  (unfold up_and_out in
                    (
                      refl,
                      inl (
                        refl,
                        (
                          minor,
                          small,
                          clear,
                          set,
                          ap (◌∷◌ (wrapped a devname file_private_data t.bridge_major minor)) cdevs,
                          ap (◌∷◌ devname) nodes,
                        ),
                        freed,
                      ),
                    ))
          ]
        ]
      ]

  take_minor-Ends :
      (minor : ℕ) (s t : Bridges)
      → minor < genz_minorbits
      → s.bridge_minor_bitmap minor ≡ false
      → t.cdevs ≡ s.cdevs
      → t.nodes ≡ s.nodes
      → t.freed ≡ s.freed
      → Returns (Ends s) (take_minor a devname file_private_data minor t)
  unfolding take_minor
  take_minor-Ends minor s t small clear cdevs nodes freed = elim (Bool-cases (a.wrapper == 0)) [
    | inl missing ↦ rw (missing, take_minor) (up_and_out-Fails e_nomem 0 s _ refl nodes)
    | inr there ↦
        rw (there, take_minor)
          (add_device-Ends minor s _ (small, clear, rw (==_refl minor), cdevs, nodes, freed))
  ]

  take_region-Ends :
      (minor : ℕ) (s : Bridges)
      → minor < genz_minorbits
      → s.bridge_minor_bitmap minor ≡ false
      → Returns
          (Ends s)
          (take_region a devname file_private_data minor (record s { bridge_mutex = true }))
  unfolding take_region
  take_region-Ends minor s small clear = elim (Bool-cases (s.bridge_major == 0)) [
    | inl none_yet ↦ rw none_yet (elim (Bool-cases (is_zero a.alloc_chrdev_region)) [
      | inl good ↦ rw good (take_minor-Ends minor s _ small clear refl refl refl)
      | inr bad ↦ rw bad (up_and_out-Fails a.alloc_chrdev_region 0 s _ bad refl)
    ])
    | inr has ↦ rw has (elim (Bool-cases (is_zero a.register_chrdev_region)) [
      | inl good ↦ rw good (take_minor-Ends minor s _ small clear refl refl refl)
      | inr bad ↦ rw bad (up_and_out-Fails a.register_chrdev_region 0 s _ bad refl)
    ])
  ]

  -- Entered with the mutex free, a registration returns with it free: 0 with the device added
  -- under a minor number below 14 that was free, or an error and no device node.
  pub genz_register_bridge-Ends :
      (cce : ℕ) (s : Bridges)
      → s.bridge_mutex ≡ false
      → Returns (Ends s) (genz_register_bridge a devname file_private_data cce s)
  unfolding genz_register_bridge take_region take_minor add_device up_and_out
  genz_register_bridge-Ends cce s free =
      let (lo, hi, clear) = find_first_zero_bit-found s.bridge_minor_bitmap genz_minorbits 0 in
      elim (Bool-cases
        (leb genz_minorbits (find_first_zero_bit s.bridge_minor_bitmap genz_minorbits 0))) [
          | inl past ↦ rw past (ground arith)
          | inr within ↦ rw within (
              ground (
                arith,
                take_region-Ends (find_first_zero_bit s.bridge_minor_bitmap genz_minorbits 0) s
                    (ground arith) (clear (ground arith)),
              ))
        ]
