-- ===== src/Famez/Bind/All.antt =====
-- The binding of all adapters, and the entry of the bridge module.
use mathlib.Core.List.{append_cancel_left}
use fame_z.Base.{
  List, [], ap, arith, false, get_or, length, pos, take, ℕ, ℤ, ◌%◌, ◌+◌, ◌/◌, ◌<◌, ◌∷◌, ◌≡◌, ◌≢◌,
  ◌⊎◌,
}
use fame_z.Famez.Adapter.{hex_digit}
use fame_z.Famez.Bind.{Binding, Bound, devname_of}

-- The device nodes and the bindings behind those of some adapters.
abbrev nodes_of : List ℕ → List Binding → List (List ℕ) → List (List ℕ)
nodes_of owner [] nodes = nodes
nodes_of owner (b ∷ bs) nodes = nodes_of owner bs (devname_of owner b.devfn ∷ nodes)

abbrev classified : List ℕ → Binding → Binding
classified class b = record b { base_c_class_str = take 32 class }

abbrev done_of : List ℕ → List Binding → List Binding → List Binding
done_of class [] done = done
done_of class (b ∷ bs) done = done_of class bs (classified class b ∷ done)

-- The first `n` adapters have a device node under their own name and their class text. They are all
-- of them, counted from `nbindings` on, or the one behind them failed.
abbrev pub Bindings : (class owner : List ℕ) → Bound → ℕ → List Binding → ℤ → Bound → Type 0
Bindings class owner s nbindings bs r s' =
    (s'.bridges.bridge_mutex ≡ false)
    × ((n : ℕ) × (s'.bridges.nodes ≡ nodes_of owner (take n bs) s.bridges.nodes)
        × (s'.done ≡ done_of class (take n bs) s.done)
        × (((n ≡ length bs) × (r ≡ pos (nbindings + n))) ⊎ ((n < length bs) × (r ≢ pos 0))))

hex_digit-injective : (m n : ℕ) → hex_digit m ≡ hex_digit n → m ≡ n
hex_digit-injective m n e = ground (arith, e)

-- Devices of different slots of one bus get different names.
devname_of-slots :
    (owner : List ℕ) (a b : ℕ)
    → a < 256
    → b < 256
    → devname_of owner a ≡ devname_of owner b
    → a / 8 ≡ b / 8
devname_of-slots owner a b la lb e =
    let t = append_cancel_left owner _ _ e in
    let hi : hex_digit (a / 8 / 16) ≡ hex_digit (b / 8 / 16) = ap (λ s. get_or s 1 0) t in
    let lo : hex_digit (a / 8 % 16) ≡ hex_digit (b / 8 % 16) = ap (λ s. get_or s 2 0) t in
    let high = hex_digit-injective (a / 8 / 16) (b / 8 / 16) hi in
    let low = hex_digit-injective (a / 8 % 16) (b / 8 % 16) lo in omega (arith, high, low)
