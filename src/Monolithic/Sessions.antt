-- ===== src/Monolithic/Sessions.antt =====
-- Opening and closing the character device: the older driver and the modular one, call by call.
use mathlib.Core.Path.{ap₂}
use fame_z.Base.{
  Bool, Cmd, Fault, List, Option, Run, [], ap, arith, false, fault, none, ok, refl, some, true, ℕ,
  ℤ, ◌∷◌, ◌≡◌,
}
use fame_z.Bridge.{
  count_opener, famez_bridge_flush, famez_bridge_open, famez_bridge_release, finish_open,
  uncount_opener,
}
use fame_z.Famez.Types.{Host}
use fame_z.Monolithic.{Station}
use fame_z.Monolithic.Device.{bridge_flush, bridge_open, bridge_release}

-- The calls that a process makes, with the answers of the kernel.
pub data Call : Type 0 where
  open_call : (buffers_ok wbuf_ok : Bool) → Call
  flush_call : (f_count : ℕ) → Call
  release_call : Call

-- One call of either driver.
pub call_modular : Call → Cmd Host ℤ
call_modular (open_call buffers_ok wbuf_ok) h = famez_bridge_open buffers_ok wbuf_ok h
call_modular (flush_call f_count) h = famez_bridge_flush f_count h
call_modular release_call h = famez_bridge_release h

pub call_older : Call → Cmd Station ℤ
call_older (open_call buffers_ok wbuf_ok) s = bridge_open buffers_ok wbuf_ok s
call_older (flush_call f_count) s = bridge_flush f_count s
call_older release_call s = bridge_release s

-- The results of calls that come one after the other, and the fault that ends them, if one does.
module _ {S : Type 0} where
  abbrev go_on : (S → List ℤ × Option Fault) → Run S ℤ → List ℤ × Option Fault
  go_on later (fault f) = ([], some f)
  go_on later (ok r s) = (r ∷ (later s).0, (later s).1)

  abbrev pub serve : (Call → Cmd S ℤ) → List Call → S → List ℤ × Option Fault
  serve call [] s = ([], none)
  serve call (c ∷ cs) s = go_on (serve call cs) (call c s)

abbrev is_there : {A : Type 0} → Option A → Bool
is_there none = false
is_there (some x) = true

-- The same number of users, and buffers in both or in none.
abbrev Alike : Host → Station → Type 0
Alike h s =
    (h.adapter.nr_users ≡ s.config.nr_users)
    × (is_there h.adapter.outgoing ≡ is_there s.config.writer_support)

-- The same result, in states that are alike; or the same fault.
abbrev SameEnd : Run Host ℤ → Run Station ℤ → Type 0
SameEnd (ok r h) (ok q s) = (r ≡ q) × Alike h s
SameEnd (ok r h) (fault f) = ⊥
SameEnd (fault f) (ok q s) = ⊥
SameEnd (fault f) (fault g) = f ≡ g

call-SameEnd :
    (c : Call) (h : Host) (s : Station) → Alike h s → SameEnd (call_modular c h) (call_older c s)
unfolding call_modular call_older famez_bridge_open bridge_open finish_open count_opener
    uncount_opener famez_bridge_flush bridge_flush famez_bridge_release bridge_release
call-SameEnd (open_call b w) h s (u, e) = ground arith
call-SameEnd (flush_call n) h s (u, e) = ground arith
call-SameEnd release_call h s (u, e) = ground arith

go_on-agree :
    (f : Host → List ℤ × Option Fault) (g : Station → List ℤ × Option Fault) (x : Run Host ℤ)
    (y : Run Station ℤ)
    → ((h : Host) (s : Station) → Alike h s → f h ≡ g s)
    → SameEnd x y
    → go_on f x ≡ go_on g y
go_on-agree f g (ok r h) (ok q s) later (e, a) =
    ap₂ (λ n (t : List ℤ × Option Fault). (n ∷ t.0, t.1)) e (later h s a)
go_on-agree f g (ok r h) (fault y) later e = absurd e
go_on-agree f g (fault x) (ok q s) later e = absurd e
go_on-agree f g (fault x) (fault y) later e = ap (λ z. ([], some z)) e

-- For states with the same number of users and with buffers in both or in none, any calls, one
-- after the other, get the same results from both drivers, and end in the same fault, if in any.
pub serve-agree :
    (cs : List Call) (h : Host) (s : Station)
    → Alike h s
    → serve call_modular cs h ≡ serve call_older cs s
serve-agree [] h s a = refl
serve-agree (c ∷ cs) h s a =
    go_on-agree (serve call_modular cs) (serve call_older cs) (call_modular c h) (call_older c s)
      (serve-agree cs) (call-SameEnd c h s a)
