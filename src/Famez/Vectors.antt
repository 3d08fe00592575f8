-- ===== src/Famez/Vectors.antt =====
-- `famez_ISR_setup` and `famez_ISR_teardown` of kernel/famez/famez_MSI-X.c: the table of vectors
-- and the handlers on them. What the PCI and IRQ layers answer is an argument.
pub mod Handlers
pub mod Setup
use fame_z.Base.{
  Bool, Cmd, List, Option, [], and_then, e_inval, e_nomem, e_nospc, false, fault, if◌then◌else◌,
  is_neg, is_zero, ltb, none, not, ok, out_of_bounds, pos, some, suc, take, to_u32, true, zero, ℕ,
  ℤ, ◌+◌, ◌-◌, ◌==◌, ◌∷◌,
}
use fame_z.Famez.Types.{MsixEntry}

-- The table, whether the device has vectors allocated, and how many handlers each vector has.
pub record Vectors : Type 0 where
  pub irq_private : Option (List MsixEntry)
  pub allocated : Bool
  pub handlers : ℕ → ℕ

-- `pci_msix_vec_count`, `kzalloc`, `pci_alloc_irq_vectors`, `pci_irq_vector` of an index, and
-- `request_irq` for an index.
pub record IrqAnswers : Type 0 where
  pub msix_vec_count : ℤ
  pub kzalloc : Bool
  pub alloc_irq_vectors : ℤ
  pub irq_vector : ℕ → ℤ
  pub request_irq : ℕ → ℤ

-- The new table: each entry has its own index, and the vector 0.
pub new_entries : (i rounds : ℕ) → List MsixEntry
new_entries i zero = []
new_entries i (suc rounds) = record { vector = 0; entry = i } ∷ new_entries (i + 1) rounds

-- The table with its vectors, or the first error of `pci_irq_vector`.
pub data Lookup : Type 0 where
  looked_up : List MsixEntry → Lookup
  lookup_failed : ℤ → Lookup

pub put_vector : MsixEntry → ℤ → Lookup → Lookup
put_vector e v (lookup_failed r) = lookup_failed r
put_vector e v (looked_up es) = looked_up (record e { vector = to_u32 v } ∷ es)

pub fill_vectors : (ℕ → ℤ) → ℕ → List MsixEntry → Lookup
fill_vectors irq_vector i [] = looked_up []
fill_vectors irq_vector i (e ∷ es) = elim (is_neg (irq_vector i)) [
  | true ↦ lookup_failed (irq_vector i)
  | false ↦ put_vector e (irq_vector i) (fill_vectors irq_vector (i + 1) es)
]

abbrev add_handler : ℕ → (ℕ → ℕ) → ℕ → ℕ
add_handler v handlers x = if x == v then handlers x + 1 else handlers x

-- free_irq(v, adapter)
abbrev pub free_irq : ℕ → (ℕ → ℕ) → ℕ → ℕ
free_irq v handlers x = if x == v then handlers x - 1 else handlers x

-- The handlers of these entries, in order.
pub free_irqs : List MsixEntry → (ℕ → ℕ) → ℕ → ℕ
free_irqs [] handlers = handlers
free_irqs (e ∷ es) handlers = free_irqs es (free_irq e.vector handlers)

-- `err_pci_free_irq_vectors` and `err_kfree_msix_entries`.
unfoldable pub give_up : ℤ → Cmd Vectors ℤ
give_up ret s = ok ret (record s { allocated = false; irq_private = none })

-- The loop over the entries from `last_irq_index` on; `all` is the whole table.
pub request_irqs :
    (ℕ → ℤ) → (all : List MsixEntry) → (last_irq_index : ℕ) → List MsixEntry → Cmd Vectors ℤ
request_irqs request_irq all last_irq_index [] s = ok (pos 0) s
request_irqs request_irq all last_irq_index (e ∷ es) s =
    elim (is_zero (request_irq last_irq_index)) [
      | true ↦
          request_irqs request_irq all (last_irq_index + 1) es
            (record s { handlers = add_handler e.vector s.handlers })
      | false ↦
          give_up (request_irq last_irq_index)
            (record s { handlers = free_irqs (take last_irq_index all) s.handlers })
    ]

-- Behind the allocation of the vectors.
pub attach : IrqAnswers → Lookup → Cmd Vectors ℤ
attach a (lookup_failed r) s = give_up r s
attach a (looked_up es) s = request_irqs a.request_irq es 0 es (record s { irq_private = some es })

pub famez_isr_setup : IrqAnswers → (n_events : ℕ) → Cmd Vectors ℤ
famez_isr_setup a n_events s =
    if is_neg a.msix_vec_count
    then ok a.msix_vec_count s
    else (if ltb (to_u32 a.msix_vec_count) 16
        then ok e_inval s
        else (if ltb (to_u32 a.msix_vec_count) n_events
            then ok e_nospc s
            else (if not a.kzalloc
                then ok e_nomem (record s { irq_private = none })
                else (if is_neg a.alloc_irq_vectors
                    then ok a.alloc_irq_vectors (record s { irq_private = none })
                    else (if ltb (to_u32 a.alloc_irq_vectors) n_events
                        then give_up e_nospc s
                        else attach a (fill_vectors a.irq_vector 0 (new_entries 0 n_events))
                            (record s {
                              allocated = true;
                              irq_private = some (new_entries 0 n_events);
                            }))))))

-- The first `n` handlers are freed.
pub free_first : ℕ → List MsixEntry → Cmd Vectors (Unit {0})
free_first zero es s = ok tt s
free_first (suc n) [] s = fault out_of_bounds
free_first (suc n) (e ∷ es) s =
    free_first n es (record s { handlers = free_irq e.vector s.handlers })

pub famez_isr_teardown : (n_clients : ℕ) → Cmd Vectors (Unit {0})
famez_isr_teardown n_clients s = elim s.irq_private [
  | none ↦ ok tt s
  | some entries ↦
      and_then (free_first (n_clients + 2) entries s)
        λ _ s'. ok tt (record s' { allocated = false; irq_private = none })
]
