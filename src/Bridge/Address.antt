-- ===== src/Bridge/Address.antt =====
-- The order of the two ids in the address of a message.
use fame_z.Base.{
  ==_iff, Bool, Bool-cases, List, [], arith, e_netunreach, false, inl, inr, ok, pos, refl, some,
  true, ℕ, ◌++◌, ◌<◌, ◌==◌, ◌^◌, ◌∷◌, ◌≡◌, ◌≢◌,
}
use fame_z.Base.Text.{is_digit, show_nat, split_at}
use fame_z.Base.Text.Decimal.{AllDigits, read_nat-show_nat, show_digits-AllDigits}
use fame_z.Base.Text.Memory.{Without, split_at-append}
use fame_z.Bridge.Destination.{Parsed, names_server, parse_target, parsed, target, with_sid}
use fame_z.Famez.Outgoing.{famez_create_outgoing, refusal}
use fame_z.Famez.Types.{Host, Kernel}

-- What `kstrtoint(s, 0, &v)` promises of a decimal number without a leading zero.
abbrev ReadsDecimal : (List ℕ → Parsed) → Type 0
ReadsDecimal kstrtoint = (n : ℕ) → 0 < n → n < 2 ^ 31 → kstrtoint (show_nat n) ≡ parsed (pos n)

-- "a,b"
abbrev pair_text : ℕ → ℕ → List ℕ
pair_text a b = show_nat a ++ b',' ∷ show_nat b

digits-Without : (c : ℕ) (s : List ℕ) → is_digit c ≡ false → AllDigits s → Without c s
digits-Without c [] h a = tt
digits-Without c (x ∷ s) h a = (ne x a.0, digits-Without c s h a.1)
  where
    ne : (x : ℕ) → is_digit x ≡ true → (x == c) ≡ false
    ne x d = elim (Bool-cases (x == c)) [
      | inr e ↦ e
      | inl e ↦
          let same : x ≡ c = (==_iff x c).0 e in
          let digit : is_digit c ≡ true = rw (← same) d in absurd (ground arith)
    ]

split_at-pair : (a b : ℕ) → split_at b',' (pair_text a b) ≡ some (show_nat a, show_nat b)
split_at-pair a b =
    split_at-append b',' (show_nat a) (show_nat b)
      (digits-Without b',' (show_nat a) (unfold is_digit in refl) (show_digits-AllDigits 20 a))

-- A text that begins with a digit is no word for the server.
names_server-digit : (c : ℕ) (t : List ℕ) → is_digit c ≡ true → names_server (c ∷ t) ≡ false
unfolding names_server is_digit
names_server-digit c t d = ground arith

-- The driver reads "a,b" as SID a and CID b.
parse_target-pair :
    (kstrtoint : List ℕ → Parsed) (server_id a b : ℕ)
    → ReadsDecimal kstrtoint
    → 0 < a
    → 0 < b
    → a < 2 ^ 31
    → b < 2 ^ 31
    → parse_target kstrtoint server_id (pair_text a b) ≡ target (pos b) (pos a)
unfolding parse_target with_sid
parse_target-pair kstrtoint server_id a b r pa pb ha hb =
    let (c, t, e, d, _) =
      read_nat-show_nat (b',' ∷ show_nat b) (unfold is_digit in refl) a (omega arith) in
    let word : names_server (pair_text a b) ≡ false = rw e (names_server-digit c t d) in
    rw (word, parse_target) (rw (split_at-pair a b) (rw (r a pa ha, r b pb hb) refl))

-- The header of a message, without its colon, names the sender as "CID,SID". Used as the address
-- of an answer, with both ids positive and below 2 ^ 31 and a `kstrtoint` that reads decimal
-- numbers, it is read the other way round: unless the sender's CID is the default SID the send is
-- refused with -ENETUNREACH, and nothing changes.
header-refused :
    (k : Kernel) (kstrtoint : List ℕ → Parsed) (in_interrupt : Bool) (cid sid : ℕ) (body : List ℕ)
    (buflen : ℕ) (h : Host)
    → ReadsDecimal kstrtoint
    → 0 < cid
    → 0 < sid
    → cid < 2 ^ 31
    → sid < 2 ^ 31
    → cid ≢ 27
    → (parse_target kstrtoint h.bar2.server_id (pair_text cid sid) ≡ target (pos sid) (pos cid))
      × (famez_create_outgoing k in_interrupt (pos sid) (pos cid) body buflen h ≡ ok e_netunreach h)
unfolding famez_create_outgoing refusal
header-refused k kstrtoint in_interrupt cid sid body buflen h r pc ps hc hs other =
    let refused : refusal h (pos sid) (pos cid) buflen ≡ some e_netunreach =
      ground (arith, other) in
    (
      parse_target-pair kstrtoint h.bar2.server_id cid sid r pc ps hc hs,
      rw (refused, famez_create_outgoing),
    )
