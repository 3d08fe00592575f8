-- ===== src/Exchange/Mailbox/Balances.antt =====
-- The account of a sender: what it posted is what was taken from it and what is under way.
use mathlib.Core.List.{append-nil, append_assoc}
use native.Mathlib.Decide.{ℕ_discrete}
use fame_z.Base.{==_refl, List, [], ap, arith, false, refl, some, sym, ℕ, ◌++◌, ◌==◌, ◌∙◌, ◌∷◌, ◌≡◌}
use fame_z.Exchange.Mailbox.{
  Allows, Boxes, Event, Phase, act, departures, event, fetch, fetch_by, hand, hand_to, idle, lose,
  losses, post, post_to, posts, put, respond, stop, strand_at, supplant, take_by, under_way, update,
}
use fame_z.Exchange.Mailbox.Moves.{
  fetch_by-some, hand_behind-some, hand_to-some, post_behind-some, post_to-some, put-some,
  put-under_way, strand_at-some, take_by-some,
}

-- What one event does to the account of sender `i`.
abbrev Balances : ℕ → Boxes → Event → Boxes → Type 0
Balances i b e c = under_way (b i) ++ posts i (e ∷ []) ≡ departures i (e ∷ []) ++ under_way (c i)

module _ (i j peer : ℕ) (msg : List ℕ) (b c : Boxes) where
  act-post : act (post j peer msg) b ≡ some c → Balances i b (post j peer msg) c
  unfolding act
  act-post h =
      let (p, taken, after) = put-some j (post_to peer msg (b j)) b c h in
      let (empty, full) = post_to-some peer msg (b j) p taken in
      rw (after, full)
        (elim (ℕ_discrete j i) [
          | yes e ↦ rw (← e) (rw (empty, ==_refl j))
          | no differ ↦
              let a : (j == i) ≡ false = ground (arith, differ) in
              let b_ : (i == j) ≡ false = ground (arith, differ) in rw (a, b_) (append-nil _)
        ])

  act-hand : act (hand j peer) b ≡ some c → Balances i b (hand j peer) c
  unfolding act
  act-hand h =
      let (p, taken, after) = put-some j (hand_to peer (b j)) b c h in
      rw after (elim (ℕ_discrete j i) [
        | yes e ↦ rw (← e) (rw (==_refl j) (append-nil _ ∙ sym (hand_to-some peer (b j) p taken)))
        | no differ ↦ let b_ : (i == j) ≡ false = ground (arith, differ) in rw b_ (append-nil _)
      ])

  -- The message of sender `j` is gone.
  gone-Balances :
      (p : Phase)
      → (under_way (b j) ≡ msg ∷ []) × (p ≡ idle)
      → c ≡ update j p b
      → Balances i b (fetch j peer msg) c
  gone-Balances p (full, empty) after =
      rw (after, empty)
        (elim (ℕ_discrete j i) [
          | yes e ↦ rw (← e) (rw (full, ==_refl j))
          | no differ ↦
              let a : (j == i) ≡ false = ground (arith, differ) in
              let b_ : (i == j) ≡ false = ground (arith, differ) in rw (a, b_) (append-nil _)
        ])

  act-fetch : act (fetch j peer msg) b ≡ some c → Balances i b (fetch j peer msg) c
  unfolding act
  act-fetch h =
      let (p, taken, after) = put-some j (fetch_by peer msg (b j)) b c h in
      gone-Balances p (fetch_by-some peer msg (b j) p taken) after

  act-lose : act (lose j peer msg) b ≡ some c → Balances i b (lose j peer msg) c
  unfolding act
  act-lose h = act-fetch h

act-respond :
    (i j peer : ℕ) (msg response : List ℕ) (b d : Boxes)
    → act (respond j peer msg response) b ≡ some d
    → Balances i b (respond j peer msg response) d
unfolding act
act-respond i j peer msg response b d h =
    let (c, took, posted_) =
      post_behind-some peer j response (put j (take_by peer msg (b j)) b) d h in
    let (p, taken, after) = put-some j (take_by peer msg (b j)) b c took in
    let first = gone-Balances i j peer msg b c p (take_by-some peer msg (b j) p taken) after in
    let second = act-post i peer j response c d posted_ in
    ap (λ l. l ++ posts i (post peer j response ∷ [])) (sym (append-nil _) ∙ first)
    ∙ append_assoc (departures i (fetch j peer msg ∷ [])) (under_way (c i))
        (posts i (post peer j response ∷ []))
    ∙ ap (λ l. departures i (fetch j peer msg ∷ []) ++ l) second

act-supplant :
    (i j n peer : ℕ) (b d : Boxes)
    → act (supplant j n peer) b ≡ some d
    → Balances i b (supplant j n peer) d
unfolding act
act-supplant i j n peer b d h =
    let (c, stranded_, handed_) = hand_behind-some peer j (put n (strand_at peer (b n)) b) d h in
    let kept = put-under_way i n (strand_at peer (b n)) b c stranded_ (strand_at-some peer (b n)) in
    ap (λ l. l ++ []) (sym kept) ∙ act-hand i j peer [] c d handed_

act-Balances : (i : ℕ) (b c : Boxes) (e : Event) → act e b ≡ some c → Balances i b e c
act-Balances i b c (post j peer msg) h = act-post i j peer msg b c h
act-Balances i b c (hand j peer) h = act-hand i j peer [] b c h
act-Balances i b c (fetch j peer msg) h = act-fetch i j peer msg b c h
act-Balances i b c (lose j peer msg) h = act-lose i j peer msg b c h
act-Balances i b c (supplant j n peer) h = act-supplant i j n peer b c h
act-Balances i b c (respond j peer msg response) h = act-respond i j peer msg response b c h

posts-cons :
    (i : ℕ) (e : Event) (es : List Event) → posts i (e ∷ es) ≡ posts i (e ∷ []) ++ posts i es
posts-cons i (post j peer msg) es = ground arith
posts-cons i (hand j peer) es = refl
posts-cons i (fetch j peer msg) es = refl
posts-cons i (lose j peer msg) es = refl
posts-cons i (supplant j n peer) es = refl
posts-cons i (respond j peer msg response) es = ground arith

pub posts-append : (i : ℕ) (es fs : List Event) → posts i (es ++ fs) ≡ posts i es ++ posts i fs
posts-append i [] fs = refl
posts-append i (post j peer msg ∷ es) fs = let more = posts-append i es fs in ground (arith, more)
posts-append i (hand j peer ∷ es) fs = posts-append i es fs
posts-append i (fetch j peer msg ∷ es) fs = posts-append i es fs
posts-append i (lose j peer msg ∷ es) fs = posts-append i es fs
posts-append i (supplant j n peer ∷ es) fs = posts-append i es fs
posts-append i (respond j peer msg response ∷ es) fs =
    let more = posts-append i es fs in ground (arith, more)

pub losses-append : (i : ℕ) (es fs : List Event) → losses i (es ++ fs) ≡ losses i es ++ losses i fs
losses-append i [] fs = refl
losses-append i (post j peer msg ∷ es) fs = losses-append i es fs
losses-append i (hand j peer ∷ es) fs = losses-append i es fs
losses-append i (fetch j peer msg ∷ es) fs = losses-append i es fs
losses-append i (lose j peer msg ∷ es) fs = let more = losses-append i es fs in ground (arith, more)
losses-append i (supplant j n peer ∷ es) fs = losses-append i es fs
losses-append i (respond j peer msg response ∷ es) fs = losses-append i es fs

departures-cons :
    (i : ℕ) (e : Event) (es : List Event)
    → departures i (e ∷ es) ≡ departures i (e ∷ []) ++ departures i es
departures-cons i (post j peer msg) es = refl
departures-cons i (hand j peer) es = refl
departures-cons i (fetch j peer msg) es = ground arith
departures-cons i (lose j peer msg) es = ground arith
departures-cons i (supplant j n peer) es = refl
departures-cons i (respond j peer msg response) es = ground arith

-- Along any sequence that the mailbox allows, what sender `i` posted, behind what was under way at
-- first, is what was taken from it and what is still under way: in order, and each message once.
pub Allows-Balances :
    (i : ℕ) (b d : Boxes) (es : List Event)
    → Allows b es d
    → under_way (b i) ++ posts i es ≡ departures i es ++ under_way (d i)
Allows-Balances i b d [] stop = append-nil _
Allows-Balances i b d (e ∷ es) (event {c = c} h a) =
    rw (posts-cons i e es, departures-cons i e es)
      (sym (append_assoc (under_way (b i)) (posts i (e ∷ [])) (posts i es))
        ∙ ap (λ l. l ++ posts i es) (act-Balances i b c e h)
        ∙ append_assoc (departures i (e ∷ [])) (under_way (c i)) (posts i es)
        ∙ ap (λ l. departures i (e ∷ []) ++ l) (Allows-Balances i c d es a)
        ∙ sym (append_assoc (departures i (e ∷ [])) (departures i es) (under_way (d i))))
