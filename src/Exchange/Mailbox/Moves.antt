-- ===== src/Exchange/Mailbox/Moves.antt =====
-- What a move of a message from phase to phase tells of both.
use native.Mathlib.Decide.{ℕ_discrete}
use fame_z.Base.{
  ==_refl, List, Option, [], arith, bytes_eq, false, none, refl, some, true, ℕ, ◌==◌, ◌∷◌, ◌≡◌,
}
use fame_z.Exchange.Mailbox.{
  Boxes, Phase, act, fetch_by, hand, hand_behind, hand_to, handed, idle, post, post_behind, post_to,
  posted, put, strand_at, stranded, take_by, under_way, update,
}

bytes_eq-eq : (xs ys : List ℕ) → bytes_eq xs ys ≡ true → xs ≡ ys
bytes_eq-eq [] [] h = refl
bytes_eq-eq [] (y ∷ ys) h = cc
bytes_eq-eq (x ∷ xs) [] h = cc
bytes_eq-eq (x ∷ xs) (y ∷ ys) h = ground (arith, bytes_eq-eq xs ys)

pub put-some :
    (i : ℕ) (o : Option Phase) (b c : Boxes)
    → put i o b ≡ some c
    → (p : Phase) × (o ≡ some p) × (c ≡ update i p b)
put-some i none b c h = cc
put-some i (some p) b c h = (p, refl, cc)

pub post_to-some :
    (peer : ℕ) (msg : List ℕ) (p q : Phase)
    → post_to peer msg p ≡ some q
    → (p ≡ idle) × (q ≡ posted peer msg)
unfolding post_to
post_to-some peer msg idle q h = (refl, cc)
post_to-some peer msg (posted r m) q h = cc
post_to-some peer msg (handed r m) q h = cc
post_to-some peer msg (stranded r m) q h = cc

pub hand_to-some : (peer : ℕ) (p q : Phase) → hand_to peer p ≡ some q → under_way q ≡ under_way p
unfolding hand_to
hand_to-some peer idle q h = cc
hand_to-some peer (posted r m) q h = ground arith
hand_to-some peer (handed r m) q h = cc
hand_to-some peer (stranded r m) q h = cc

pub fetch_by-some :
    (peer : ℕ) (msg : List ℕ) (p q : Phase)
    → fetch_by peer msg p ≡ some q
    → (under_way p ≡ msg ∷ []) × (q ≡ idle)
unfolding fetch_by
fetch_by-some peer msg idle q h = cc
fetch_by-some peer msg (posted r m) q h = cc
fetch_by-some peer msg (handed r m) q h = ground (arith, bytes_eq-eq m msg)
fetch_by-some peer msg (stranded r m) q h = cc

pub take_by-some :
    (peer : ℕ) (msg : List ℕ) (p q : Phase)
    → take_by peer msg p ≡ some q
    → (under_way p ≡ msg ∷ []) × (q ≡ idle)
unfolding take_by
take_by-some peer msg idle q h = cc
take_by-some peer msg (posted r m) q h = ground (arith, bytes_eq-eq m msg)
take_by-some peer msg (handed r m) q h = cc
take_by-some peer msg (stranded r m) q h = cc

-- A message that is served is gone, and behind that the response is posted.
pub post_behind-some :
    (j i : ℕ) (response : List ℕ) (o : Option Boxes) (d : Boxes)
    → post_behind j i response o ≡ some d
    → (c : Boxes) × (o ≡ some c) × (act (post j i response) c ≡ some d)
unfolding act
post_behind-some j i response none d h = cc h
post_behind-some j i response (some c) d h = (c, refl, h)

-- The other message is stranded, and behind that the sender's is handed over.
pub hand_behind-some :
    (j i : ℕ) (o : Option Boxes) (d : Boxes)
    → hand_behind j i o ≡ some d
    → (c : Boxes) × (o ≡ some c) × (act (hand i j) c ≡ some d)
unfolding act
hand_behind-some j i none d h = cc h
hand_behind-some j i (some c) d h = (c, refl, h)

pub strand_at-some :
    (peer : ℕ) (p q : Phase) → strand_at peer p ≡ some q → under_way q ≡ under_way p
unfolding strand_at
strand_at-some peer idle q h = cc
strand_at-some peer (posted r m) q h = cc
strand_at-some peer (handed r m) q h = ground arith
strand_at-some peer (stranded r m) q h = cc

pub put-under_way :
    (i n : ℕ) (o : Option Phase) (b c : Boxes)
    → put n o b ≡ some c
    → ((q : Phase) → o ≡ some q → under_way q ≡ under_way (b n))
    → under_way (c i) ≡ under_way (b i)
put-under_way i n o b c h same =
    let (p, taken, after) = put-some n o b c h in
    rw after (elim (ℕ_discrete n i) [
      | yes e ↦ rw (← e) (rw (==_refl n) (same p taken))
      | no differ ↦ let b_ : (i == n) ≡ false = ground (arith, differ) in rw b_ refl
    ])
