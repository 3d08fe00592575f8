-- ===== src/Famez/Adapter/Lifecycle.antt =====
-- An adapter is built whole, ready for the handlers, or not at all.
use fame_z.Base.{
  Bool-cases, Option-cases, Returns, Returns-bind, ap, arith, e_inval, inl, inr, is_neg,
  is_zero-nonzero, leb, negsuc-nonzero, refl, true, ℕ, ◌+◌, ◌-◌, ◌<◌, ◌==◌, ◌≡◌, ◌≢◌,
}
use fame_z.Famez.Adapter.{
  Device, DeviceAnswers, adapter_err, build, check_globals, famez_adapter_create,
  famez_adapter_destroy, fresh_slot, give_back, map_bars, map_globals, new_adapter, nodename_text,
  offset_of_buf, own_slot_of, unmap_bars, with_core,
}
use fame_z.Famez.Adapter.Destruction.{
  FreshOrGone, Holds3, IsBlank, IsGone, IsUnbound, give_back-FreshOrGone,
}
use fame_z.Famez.Adapter.Mapping.{IsMapped, MappedOrNot, map_bars-MappedOrNot}
use fame_z.Famez.Slots.{calculate_mailslot}
use fame_z.Famez.Types.{Adapter, write_slot_self}
use fame_z.Genz.Register.{genz_core_structure_create, genz_core_structure_destroy, zeroed_core}

module _ (d : DeviceAnswers) (s : Device) where
  own_slot_of-FreshOrGone :
      (a : Adapter) (t : Device)
      → IsBlank a
      → IsMapped d s t
      → a.max_buflen + d.bar2.buf_offset ≡ d.bar2.slotsize
      → 0 < a.max_buflen
      → a.globals ≡ t.globals
      → Returns (FreshOrGone d.bar2 s) (own_slot_of d a t)
  unfolding own_slot_of fresh_slot
  own_slot_of-FreshOrGone a t b m room some_room same =
      elim (Option-cases (calculate_mailslot a.globals d.bar2 a.my_id)) [
        | inl e ↦
            rw (e, own_slot_of)
              (give_back-FreshOrGone d.bar2 s e_inval a t (negsuc-nonzero 21) b m.held)
        | inr (p, e) ↦
            rw (e, own_slot_of)
              (
                record {
                  closed = b.closed;
                  quiet = b.quiet;
                  room = room;
                  some_room = some_room;
                  slot = e;
                  free =
                      ap (λ x. x.buflen)
                        (write_slot_self p (fresh_slot (nodename_text d.utsname d.devfn)) t.slots);
                  mapped = (same, m.both.0, m.both.1);
                  bound = m.bound;
                },
                record {
                  some_pdev = b.some_pdev;
                  table = b.table;
                  closed = b.closed;
                  quiet = b.quiet;
                  no_irqs = b.no_irqs;
                },
                m.live,
                m.held.blocks,
              )
      ]

  check_globals-FreshOrGone :
      (a : Adapter) (t : Device)
      → IsBlank a
      → IsMapped d s t
      → Returns (FreshOrGone d.bar2 s) (check_globals d a t)
  unfolding check_globals
  check_globals-FreshOrGone a t b m = elim (Bool-cases (offset_of_buf == d.bar2.buf_offset)) [
    | inr e ↦
        rw (e, check_globals)
          (give_back-FreshOrGone d.bar2 s e_inval a t (negsuc-nonzero 21) b m.held)
    | inl e ↦
        rw (e, check_globals)
          (elim (Bool-cases (leb d.bar2.slotsize d.bar2.buf_offset)) [
            | inl l ↦ rw l (give_back-FreshOrGone d.bar2 s e_inval a t (negsuc-nonzero 21) b m.held)
            | inr l ↦ rw l (
                own_slot_of-FreshOrGone _ t
                  (record {
                    some_pdev = b.some_pdev;
                    table = b.table;
                    closed = b.closed;
                    quiet = b.quiet;
                    no_irqs = b.no_irqs;
                  })
                  m (ground arith) (ground arith) refl)
          ])
  ]

  build-FreshOrGone :
      (a : Adapter) (t : Device)
      → IsBlank a
      → Holds3 s t
      → t.regs ≡ 0
      → t.globals ≡ 0
      → t.has_drvdata ≡ true
      → Returns (FreshOrGone d.bar2 s) (build d a t)
  unfolding build
  build-FreshOrGone a t b h regs globals bound =
      Returns-bind (MappedOrNot d s) (FreshOrGone d.bar2 s) (map_bars d t) _
        (map_bars-MappedOrNot d s t h regs globals bound)
        λ r t1 p. elim p [
          | inl (good, m) ↦ rw good (check_globals-FreshOrGone a t1 b m)
          | inr (bad, h1) ↦
              rw (is_zero-nonzero r bad) (give_back-FreshOrGone d.bar2 s r a t1 bad b h1)
        ]

  -- For a device that no driver has: the adapter is built whole and ready for the handlers, or an
  -- error is returned and the device has no mapping, no memory and no driver data.
  pub famez_adapter_create-FreshOrGone :
      (pdev : ℕ)
      → pdev ≢ 0
      → IsUnbound s
      → Returns (FreshOrGone d.bar2 s) (famez_adapter_create d pdev s)
  unfolding famez_adapter_create with_core new_adapter genz_core_structure_create build map_bars
      check_globals map_globals own_slot_of
  famez_adapter_create-FreshOrGone pdev some_pdev unbound = elim (Bool-cases d.adapter_ok) [
    | inr e ↦ rw e (
      negsuc-nonzero 11,
      record { unbound = unbound; mappings = refl; blocks = refl; slots = refl },
    )
    | inl adapter ↦ elim (Bool-cases d.core_ok) [
      | inr e ↦
          rw (adapter, e, genz_core_structure_create)
            (negsuc-nonzero 11, gone (s.blocks + 1 - 1) (omega arith))
      | inl core ↦ elim (Bool-cases d.table_ok) [
        | inr e ↦
            rw (adapter, core, e, genz_core_structure_create)
              (negsuc-nonzero 11, gone (s.blocks + 1 + 1 - 1 - 1) (omega arith))
        | inl table ↦
            rw (adapter, core, table, genz_core_structure_create)
              (build-FreshOrGone (new_adapter pdev (zeroed_core true))
                (record s { blocks = s.blocks + 1 + 2; has_drvdata = true })
                (record {
                  some_pdev = some_pdev;
                  table = refl;
                  closed = (refl, refl);
                  quiet = (refl, refl);
                  no_irqs = refl;
                })
                (record {
                  blocks = omega arith;
                  mappings = ground (arith, unbound.regs, unbound.globals);
                  slots = refl;
                })
                unbound.regs unbound.globals refl)
      ]
    ]
  ]
    where
      gone : (n : ℕ) → n ≡ s.blocks → IsGone s (record s { blocks = n })
      gone n e = record {
        unbound = record {
          regs = unbound.regs;
          globals = unbound.globals;
          has_drvdata = unbound.has_drvdata;
        };
        mappings = refl;
        blocks = e;
        slots = refl;
      }

-- When the regions are refused, and memory is there, the error is returned and the driver releases
-- the regions all the same, though they were not granted.
famez_adapter_create-releases :
    (a : DeviceAnswers) (pdev : ℕ) (s : Device)
    → pdev ≢ 0
    → a.adapter_ok ≡ true
    → a.core_ok ≡ true
    → a.table_ok ≡ true
    → is_neg a.request_regions ≡ true
    → Returns
        (λ r s'.
          (r ≡ adapter_err a.request_regions)
          × (s'.granted ≡ s.granted)
          × (s'.released ≡ s.released + 1))
        (famez_adapter_create a pdev s)
unfolding famez_adapter_create with_core build give_back map_bars unmap_bars famez_adapter_destroy
    new_adapter genz_core_structure_create genz_core_structure_destroy
famez_adapter_create-releases a pdev s some_pdev adapter core table refused = ground arith
