-- ===== src/Examples/Drivers.antt =====
-- The bus, the bridge devices and their binding.
use fame_z.Base.{Bool, List, Returns, [], arith, codes, false, none, pos, refl, true, ℕ, ◌∷◌}
use fame_z.Famez.Bind.{Binding, Bound, famez_register}
use fame_z.Famez.Bind.Numbers.{BoundApart, famez_register-BoundApart}
use fame_z.Genz.Bus.{genz_bus_init}
use fame_z.Genz.Bus.Lifecycle.{UpOrDown, genz_bus_init-UpOrDown}
use fame_z.Genz.Class.{Registry}
use fame_z.Genz.Class.Unwind.{upto}
use fame_z.Genz.Register.{Bridges, CdevAnswers, genz_register_bridge}
use fame_z.Genz.Register.Outcome.{Ends, genz_register_bridge-Ends}

abbrev down : Registry
down = record { classes = []; bus = false; dev_root = false; the_one = none }

-- The bus comes up with classes that all register.
bus_example : Returns (UpOrDown true) (genz_bus_init true (λ i. pos 0) (pos 0) (pos 0) down)
bus_example =
    genz_bus_init-UpOrDown true (λ i. pos 0) (pos 0) (pos 0) down
      (record { classes = refl; bus = refl; dev_root = refl })

abbrev up : Registry
up = record { classes = upto 21; bus = true; dev_root = true; the_one = none }

abbrev cdev_answers : CdevAnswers
cdev_answers = record {
  register_chrdev_region = pos 0;
  alloc_chrdev_region = pos 0;
  new_major = 240;
  wrapper = 4096;
  kobject_set_name = pos 0;
  cdev_add = pos 0;
  device_create = pos 0;
}

abbrev bridges_with : ℕ → (ℕ → Bool) → Bridges
bridges_with major bitmap = record {
  bridge_minor_bitmap = bitmap;
  bridge_major = major;
  bridge_mutex = false;
  cdevs = [];
  nodes = [];
  freed = [];
}

abbrev no_bridges : Bridges
no_bridges = bridges_with 0 (λ m. false)

abbrev name : List ℕ
name = codes "fzbridge_04"

bridge_example :
    Returns
      (Ends cdev_answers name 1 no_bridges)
      (genz_register_bridge cdev_answers name 1 20 no_bridges)
bridge_example = genz_register_bridge-Ends cdev_answers name 1 20 no_bridges refl

abbrev binding : Binding
binding = record {
  adapter = 1;
  devfn = 40;
  answers = cdev_answers;
  base_c_class_str = codes "FAME-Z Adapter";
}

abbrev unbound : Bound
unbound = record { done = []; bridges = no_bridges }

apart_example :
    Returns
      (λ r s'. BoundApart s')
      (famez_register (pos 0) (codes "Bridge") (codes "famez_bridge") (binding ∷ []) unbound)
apart_example =
    famez_register-BoundApart (codes "Bridge") (codes "famez_bridge") (pos 0) (binding ∷ []) unbound
      (ground arith, tt) (refl, (tt, tt, λ e. refl))
