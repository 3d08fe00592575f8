-- ===== src/Genz/Bus/Lifecycle.antt =====
-- The bus comes up whole or not at all, and carries one Gen-Z device.
use fame_z.Base.{
  Bool, Bool-cases, Returns, Returns-bind, [], ap, arith, e_already, false, inl, inr, is_zero,
  is_zero-false, is_zero-nonzero, is_zero-true, none, ok, pos, refl, some, true, ℕ, ℤ, ◌∙◌, ◌≡◌,
  ◌≢◌, ◌⊎◌,
}
use fame_z.Genz.Bus.{
  add_bus, add_root, alloc_genzdev, genz_bus_exit, genz_bus_init, genz_init_one, register_genzdev,
  unregister_genzdev,
}
use fame_z.Genz.Class.{Registry, genz_classes_init}
use fame_z.Genz.Class.Unwind.{
  AllOrNone, genz_classes_destroy_lem, genz_classes_init-AllOrNone, upto,
}

-- Nothing is registered.
pub record IsDown (s : Registry) : Type 0 where
  pub classes : s.classes ≡ []
  pub bus : s.bus ≡ false
  pub dev_root : s.dev_root ≡ false

-- Everything is registered; the root device only if it was asked for.
pub record IsUp (auto0 : Bool) (s : Registry) : Type 0 where
  pub classes : s.classes ≡ upto 21
  pub bus : s.bus ≡ true
  pub dev_root : s.dev_root ≡ auto0

abbrev pub UpOrDown : Bool → ℤ → Registry → Type 0
UpOrDown auto0 r s = ((r ≡ pos 0) × IsUp auto0 s) ⊎ ((r ≢ pos 0) × IsDown s)

add_root-UpOrDown :
    (auto0 : Bool) (device_add : ℤ) (s : Registry)
    → s.classes ≡ upto 21
    → s.bus ≡ true
    → s.dev_root ≡ false
    → Returns (UpOrDown auto0) (add_root auto0 device_add s)
unfolding add_root genz_bus_exit
add_root-UpOrDown false device_add s c b d =
    inl (refl, record { classes = c; bus = b; dev_root = d })
add_root-UpOrDown true device_add s c b d = elim (Bool-cases (is_zero device_add)) [
  | inl good ↦
      rw (good, add_root)
        (inl (is_zero-true device_add good, record { classes = c; bus = b; dev_root = refl }))
  | inr bad ↦
      rw (bad, add_root)
        (rw (genz_classes_destroy_lem (record s { bus = false }) c)
          (inr (is_zero-false device_add bad, record { classes = refl; bus = refl; dev_root = d })))
]

add_bus-UpOrDown :
    (auto0 : Bool) (bus_register device_add : ℤ) (s : Registry)
    → s.classes ≡ upto 21
    → s.bus ≡ false
    → s.dev_root ≡ false
    → Returns (UpOrDown auto0) (add_bus auto0 bus_register device_add s)
unfolding add_bus
add_bus-UpOrDown auto0 bus_register device_add s c b d = elim (Bool-cases (is_zero bus_register)) [
  | inl good ↦
      rw (good, add_bus) (add_root-UpOrDown auto0 device_add (record s { bus = true }) c refl d)
  | inr bad ↦
      rw (bad, add_bus)
        (rw (genz_classes_destroy_lem s c)
          (inr (is_zero-false bus_register bad, record { classes = refl; bus = b; dev_root = d })))
]

-- With nothing registered, whatever the kernel answers, `genz_bus_init` returns 0 with all
-- classes, the bus and the root device that was asked for registered, or an error with nothing
-- registered.
pub genz_bus_init-UpOrDown :
    (auto0 : Bool) (class_register : ℕ → ℤ) (bus_register device_add : ℤ) (s : Registry)
    → IsDown s
    → Returns (UpOrDown auto0) (genz_bus_init auto0 class_register bus_register device_add s)
unfolding genz_bus_init
genz_bus_init-UpOrDown auto0 class_register bus_register device_add s down =
    Returns-bind (AllOrNone 21 s) (UpOrDown auto0) (genz_classes_init class_register s) _
      (genz_classes_init-AllOrNone class_register s down.classes)
      λ ret s1 p. elim p [
        | inr (bad, none_) ↦ rw (is_zero-nonzero ret bad) (
            inr (
              bad,
              record {
                classes = ap (λ x. x.classes) none_;
                bus = ap (λ x. x.bus) none_ ∙ down.bus;
                dev_root = ap (λ x. x.dev_root) none_ ∙ down.dev_root;
              },
            ))
        | inl (good, all) ↦ rw good (
            add_bus-UpOrDown auto0 bus_register device_add s1 (ap (λ x. x.classes) all)
              (ap (λ x. x.bus) all ∙ down.bus) (ap (λ x. x.dev_root) all ∙ down.dev_root))
      ]

-- With the bus up, the exit takes the classes and the bus away, and leaves the root device where
-- it was.
genz_bus_exit-keeps_root :
    (auto0 : Bool) (s : Registry)
    → IsUp auto0 s
    → genz_bus_exit s ≡ ok tt (record s { classes = []; bus = false })
unfolding genz_bus_exit
genz_bus_exit-keeps_root auto0 s up = genz_classes_destroy_lem (record s { bus = false }) up.classes

-- With no Gen-Z device yet, and memory for two, the probe of a first makes it the one device; a
-- second is refused with -EALREADY; only the device itself can be unregistered, and then the place
-- is free again.
genz_init_one-exclusive :
    (a b : ℕ) (s : Registry)
    → a ≢ 0
    → b ≢ 0
    → a ≢ b
    → s.the_one ≡ none
    → let s1 = record s { the_one = some a } in
      (genz_init_one a s ≡ ok (pos 0) s1)
      × (genz_init_one b s1 ≡ ok e_already s1)
      × (unregister_genzdev b s1 ≡ s1)
      × (unregister_genzdev a s1 ≡ s)
unfolding genz_init_one alloc_genzdev register_genzdev unregister_genzdev
genz_init_one-exclusive a b s na nb ne e = (ground arith, ground arith, ground arith, ground arith)
