-- ===== src/Famez/Slots.antt =====
-- `calculate_mailslot` of kernel/famez/famez_adapter.c: where a mail slot lies in BAR 2.
use fame_z.Base.{
  ℕ, ◌+◌, ◌*◌, ◌%◌, ◌^◌, ◌≤◌, ◌<◌, ◌≡◌, ◌∙◌, ◌⊎◌, ◌&&◌, ◌||◌, not, Option, none, some, arith, ltb,
  ◌==◌, if◌then◌else◌,
}
use fame_z.Famez.Types.{Globals}

-- The address of slot `slotnum` behind the mapping at `base`, in 64-bit arithmetic.
unfoldable pub slot_address : ℕ → Globals → ℕ → ℕ
slot_address base g slotnum = (base + slotnum * g.slotsize) % 2 ^ 64

unfoldable pub calculate_mailslot : ℕ → Globals → ℕ → Option ℕ
calculate_mailslot base g slotnum =
    if (ltb slotnum 1 || ltb g.n_clients slotnum) && not (slotnum == g.server_id)
    then none
    else some (slot_address base g slotnum)

-- The ids that own a slot: the clients, and the server.
abbrev pub IsPeer : Globals → ℕ → Type 0
IsPeer g n = ((1 ≤ n) × (n ≤ g.n_clients)) ⊎ (n ≡ g.server_id)

-- The mapping holds slots 0 to `server_id` and does not wrap.
pub record Fits (base : ℕ) (g : Globals) : Type 0 where
  pub sized : 0 < g.slotsize
  pub last : g.n_clients < g.server_id
  pub fits : base + (g.server_id + 1) * g.slotsize ≤ 2 ^ 64

pub slot_address-eq :
    (base : ℕ) (g : Globals) (n : ℕ)
    → Fits base g
    → n ≤ g.server_id
    → slot_address base g n ≡ base + n * g.slotsize
unfolding slot_address
slot_address-eq base g n f h =
    let room : base + n * g.slotsize < 2 ^ 64 = grind arith in omega arith

pub IsPeer-le : (base : ℕ) (g : Globals) (n : ℕ) → Fits base g → IsPeer g n → n ≤ g.server_id
IsPeer-le base g n f p = omega arith

-- A slot is found for exactly the ids 1 to nClients and the server's; slot 0, the globals, is not.
pub calculate_mailslot_iff :
    (base : ℕ) (g : Globals) (n : ℕ)
    → (IsPeer g n → calculate_mailslot base g n ≡ some (slot_address base g n))
      × (¬ IsPeer g n → calculate_mailslot base g n ≡ none)
unfolding calculate_mailslot
calculate_mailslot_iff base g n = (λ p. ground arith, λ p. ground (arith, p))

calculate_mailslot-IsPeer :
    (base : ℕ) (g : Globals) (n a : ℕ)
    → calculate_mailslot base g n ≡ some a
    → IsPeer g n × (a ≡ slot_address base g n)
unfolding calculate_mailslot
calculate_mailslot-IsPeer base g n a e = ground arith

calculate_mailslot-eq :
    (base : ℕ) (g : Globals) (n a : ℕ)
    → Fits base g
    → calculate_mailslot base g n ≡ some a
    → (a ≡ base + n * g.slotsize) × (n ≤ g.server_id) × (1 ≤ n)
calculate_mailslot-eq base g n a f e =
    let (p, ea) = calculate_mailslot-IsPeer base g n a e in
    let le = IsPeer-le base g n f p in (ea ∙ slot_address-eq base g n f le, le, omega arith)

-- In a mapping that holds all slots and does not wrap, the slots of different peers share no byte,
-- and lie between the globals and the mapping's end.
pub calculate_mailslot-disjoint :
    (base : ℕ) (g : Globals) (n m a b : ℕ)
    → Fits base g
    → calculate_mailslot base g n ≡ some a
    → calculate_mailslot base g m ≡ some b
    → n < m
    → (base + g.slotsize ≤ a)
      × (a + g.slotsize ≤ b)
      × (b + g.slotsize ≤ base + (g.server_id + 1) * g.slotsize)
calculate_mailslot-disjoint base g n m a b f ea eb lt =
    let (en, _, n1) = calculate_mailslot-eq base g n a f ea in
    let (em, mk, _) = calculate_mailslot-eq base g m b f eb in
    (grind arith, grind arith, grind arith)
