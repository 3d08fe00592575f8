-- ===== src/Rocpyle.antt =====
-- kernel/rocpyle/bloop.c: a program that writes the same message to a device until it is
-- interrupted. What the system answers is an argument: the numbers that `strtoul` reads, the open,
-- and a round of the loop for each write.
pub mod Emission
use fame_z.Base.{
  Bool, Cmd, List, Option, [], and_then, codes, div_by_zero, eq_ℤ, false, fault, if◌then◌else◌,
  length, ltb, negsuc, none, not, ok, out_of_fuel, pos, some, suc, to_s32, to_u32, true, zero, ℕ, ℤ,
  ◌++◌, ◌+◌, ◌==◌, ◌||◌, ◌∷◌,
}
use fame_z.Base.Text.{show_int}

-- The variables that the loop changes.
pub record Emitter : Type 0 where
  pub keepgoing : Bool
  pub w : ℤ

-- Whether the signal came before the test of the loop, and what `write` answers.
pub record Round : Type 0 where
  pub signalled : Bool
  pub write : ℤ

pub stopit : Emitter → Emitter
stopit s = record s { keepgoing = false }

abbrev ten_digits : List ℕ
ten_digits = codes "0123456789"

-- The loop of `strcat`.
pub repeat_digits : ℕ → List ℕ
repeat_digits zero = []
repeat_digits (suc n) = ten_digits ++ repeat_digits n

-- `if (mult > 18) mult = 18`, and the rounds of a loop up to it.
pub capped : ℤ → ℕ
capped (pos n) = if ltb 18 n then 18 else n
capped (negsuc n) = 0

-- What is in `gbuf`, which has 300 bytes.
pub gbuf_text : (peer mult : ℤ) → List ℕ
gbuf_text peer mult = show_int peer ++ b':' ∷ repeat_digits (capped mult)

abbrev pub sizeof_gbuf : ℕ
sizeof_gbuf = 300

abbrev hear : Round → Emitter → Emitter
hear r s = if r.signalled then stopit s else s

-- `w++` of an `int`, which wraps as the machine's does.
abbrev pub one_more_write : ℤ → ℤ
one_more_write w = to_s32 (to_u32 w + 1)

-- The loop: the exit code of a failed write, or none.
pub write_loop : (len : ℕ) → List Round → Cmd Emitter (Option ℕ)
write_loop len [] s = if s.keepgoing then fault out_of_fuel else ok none s
write_loop len (r ∷ rs) s = elim (hear r s).keepgoing [
  | false ↦ ok none (hear r s)
  | true ↦ elim (eq_ℤ r.write (pos len)) [
    | true ↦ write_loop len rs (record (hear r s) { w = one_more_write s.w })
    | false ↦ ok (some 1) (hear r s)
  ]
]

-- Behind the loop: the rates are divided by the seconds that it took.
pub report : (elapsed : ℕ) → Option ℕ → Cmd Emitter ℕ
report elapsed (some code) s = ok code s
report elapsed none s = if elapsed == 0 then fault div_by_zero else ok 0 s

-- `main`, with its exit code.
pub main : (argc peer mult : ℕ) → (open_ok : Bool) → List Round → (elapsed : ℕ) → Cmd Emitter ℕ
main argc peer mult open_ok rounds elapsed s =
    if not (argc == 4) || not open_ok
    then ok 1 s
    else and_then
        (write_loop (length (gbuf_text (to_s32 peer) (to_s32 mult))) rounds
          (record s { w = pos 0 }))
        (report elapsed)
