-- ===== src/Exchange/Mailbox.antt =====
-- What the mailbox promises, without slots, interrupts or adapters: each sender has one message
-- under way at a time, to one peer, which takes it once: its reader gets it, or loses it to an
-- error, or its link layer answers it. A message that another one supplants before it is read is
-- stranded.
pub mod Moves
pub mod Balances
use fame_z.Base.{
  ==_refl, List, Option, [], arith, bytes_eq, false, if◌then◌else◌, none, some, ℕ, ◌&&◌, ◌==◌, ◌∷◌,
  ◌≡◌, ◌≢◌,
}

-- Where the message of one sender is.
pub data Phase : Type 0 where
  idle : Phase
  posted : (peer : ℕ) → List ℕ → Phase
  handed : (peer : ℕ) → List ℕ → Phase
  stranded : (peer : ℕ) → List ℕ → Phase

pub data Event : Type 0 where
  post : (sender peer : ℕ) → List ℕ → Event
  hand : (sender peer : ℕ) → Event
  fetch : (sender peer : ℕ) → List ℕ → Event
  respond : (sender peer : ℕ) (msg response : List ℕ) → Event
  lose : (sender peer : ℕ) → List ℕ → Event
  supplant : (sender other peer : ℕ) → Event

abbrev pub Boxes : Type 0
Boxes = ℕ → Phase

unfoldable pub post_to : ℕ → List ℕ → Phase → Option Phase
post_to peer msg idle = some (posted peer msg)
post_to peer msg (posted _ _) = none
post_to peer msg (handed _ _) = none
post_to peer msg (stranded _ _) = none

unfoldable pub hand_to : ℕ → Phase → Option Phase
hand_to peer idle = none
hand_to peer (posted q msg) = if q == peer then some (handed q msg) else none
hand_to peer (handed _ _) = none
hand_to peer (stranded _ _) = none

unfoldable pub fetch_by : ℕ → List ℕ → Phase → Option Phase
fetch_by peer msg idle = none
fetch_by peer msg (posted _ _) = none
fetch_by peer msg (handed q m) = if q == peer && bytes_eq m msg then some idle else none
fetch_by peer msg (stranded _ _) = none

unfoldable pub take_by : ℕ → List ℕ → Phase → Option Phase
take_by peer msg idle = none
take_by peer msg (posted q m) = if q == peer && bytes_eq m msg then some idle else none
take_by peer msg (handed _ _) = none
take_by peer msg (stranded _ _) = none

unfoldable pub strand_at : ℕ → Phase → Option Phase
strand_at peer idle = none
strand_at peer (posted _ _) = none
strand_at peer (handed q msg) = if q == peer then some (stranded q msg) else none
strand_at peer (stranded _ _) = none

abbrev pub update {ℓ} : {A : Type ℓ} → ℕ → A → (ℕ → A) → ℕ → A
update i a f j = if j == i then a else f j

pub update_self {ℓ} : {A : Type ℓ} (i : ℕ) (a : A) (f : ℕ → A) → update i a f i ≡ a
update_self i a f = rw (==_refl i)

pub update_other {ℓ} : {A : Type ℓ} (i j : ℕ) (a : A) (f : ℕ → A) → j ≢ i → update i a f j ≡ f j
update_other i j a f differ = let e : (j == i) ≡ false = ground (arith, differ) in rw e

pub idle-ne-handed : (q : ℕ) (msg : List ℕ) → idle ≢ handed q msg
idle-ne-handed q msg e = cc

pub posted-ne-handed : (q r : ℕ) (msg m : List ℕ) → posted q msg ≢ handed r m
posted-ne-handed q r msg m e = cc

pub stranded-ne-handed : (q r : ℕ) (msg m : List ℕ) → stranded q msg ≢ handed r m
stranded-ne-handed q r msg m e = cc

pub handed-peer : (q r : ℕ) (msg m : List ℕ) → handed q msg ≡ handed r m → q ≡ r
handed-peer q r msg m e = cc

abbrev pub put : ℕ → Option Phase → Boxes → Option Boxes
put i none b = none
put i (some p) b = some (update i p b)

abbrev pub post_behind : (j i : ℕ) → List ℕ → Option Boxes → Option Boxes
post_behind j i response none = none
post_behind j i response (some b) = put j (post_to i response (b j)) b

abbrev pub hand_behind : (j i : ℕ) → Option Boxes → Option Boxes
hand_behind j i none = none
hand_behind j i (some b) = put i (hand_to j (b i)) b

-- One event, if it is allowed. A message that is served is gone, and the peer has posted its reply.
unfoldable pub act : Event → Boxes → Option Boxes
unfolding post_to hand_to fetch_by take_by strand_at
act (post i j msg) b = put i (post_to j msg (b i)) b
act (hand i j) b = put i (hand_to j (b i)) b
act (fetch i j msg) b = put i (fetch_by j msg (b i)) b
act (lose i j msg) b = put i (fetch_by j msg (b i)) b
act (supplant i n j) b = hand_behind j i (put n (strand_at j (b n)) b)
act (respond i j msg response) b = post_behind j i response (put i (take_by j msg (b i)) b)

-- A sequence of events.
pub data Allows : Boxes → List Event → Boxes → Type 0 where
  stop : {b : Boxes} → Allows b [] b
  event :
      {b c d : Boxes} {e : Event} {es : List Event}
      → act e b ≡ some c
      → Allows c es d
      → Allows b (e ∷ es) d

-- What sender `i` posted, replies included, and what was taken from it, in order: read, answered or
-- lost.
abbrev pub posts : ℕ → List Event → List (List ℕ)
posts i [] = []
posts i (post j _ msg ∷ es) = if j == i then msg ∷ posts i es else posts i es
posts i (hand _ _ ∷ es) = posts i es
posts i (fetch _ _ _ ∷ es) = posts i es
posts i (lose _ _ _ ∷ es) = posts i es
posts i (supplant _ _ _ ∷ es) = posts i es
posts i (respond _ j _ response ∷ es) = if j == i then response ∷ posts i es else posts i es

abbrev pub departures : ℕ → List Event → List (List ℕ)
departures i [] = []
departures i (post _ _ _ ∷ es) = departures i es
departures i (hand _ _ ∷ es) = departures i es
departures i (fetch j _ msg ∷ es) = if j == i then msg ∷ departures i es else departures i es
departures i (lose j _ msg ∷ es) = if j == i then msg ∷ departures i es else departures i es
departures i (supplant _ _ _ ∷ es) = departures i es
departures i (respond j _ msg _ ∷ es) = if j == i then msg ∷ departures i es else departures i es

-- What was taken and lost.
abbrev pub losses : ℕ → List Event → List (List ℕ)
losses i [] = []
losses i (post _ _ _ ∷ es) = losses i es
losses i (hand _ _ ∷ es) = losses i es
losses i (fetch _ _ _ ∷ es) = losses i es
losses i (lose j _ msg ∷ es) = if j == i then msg ∷ losses i es else losses i es
losses i (supplant _ _ _ ∷ es) = losses i es
losses i (respond _ _ _ _ ∷ es) = losses i es

abbrev pub under_way : Phase → List (List ℕ)
under_way idle = []
under_way (posted _ msg) = msg ∷ []
under_way (handed _ msg) = msg ∷ []
under_way (stranded _ msg) = msg ∷ []
