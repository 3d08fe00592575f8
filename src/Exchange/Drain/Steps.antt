-- ===== src/Exchange/Drain/Steps.antt =====
-- How one sender gets idle: its message is handed over and read.
use native.Mathlib.Decide.{ℕ_discrete}
use fame_z.Base.{List, Option, [], ap, inl, inr, none, refl, some, sym, ℕ, ◌∙◌, ◌∷◌, ◌≡◌, ◌≢◌}
use fame_z.Exchange.Drain.{
  AllDeliverable, Deliverable, Drained, Settles, Settles-Deliverable, Settles-then, Tells,
}
use fame_z.Exchange.Mailbox.{
  Boxes, Phase, fetch, hand, handed, idle, posted, posted-ne-handed, stranded, update, update_other,
  update_self,
}
use fame_z.Exchange.Network.{Net, Wiring, at_host, commit, no_turn, see, then_}
use fame_z.Exchange.Network.Progress.{ended-Turns, ended-mem, ended_net, read-Turn}
use fame_z.Exchange.Network.Reads.{after-Represents, incoming_free, mem-unread}
use fame_z.Exchange.Network.Relation.{Represents}
use fame_z.Exchange.Network.View.{IsSound}
use fame_z.Famez.Incoming.{Woken}
use fame_z.Famez.Incoming.Handoff.{released}
use fame_z.Famez.Slots.{IsPeer}
use fame_z.Famez.Types.{Host, Kernel}

module _ (x : Wiring) (sound : IsSound x) (k : Kernel) (wait : Host → Woken) (tells : Tells x)
    (buflen : ℕ) where
  -- A read.
  drain_handed :
      (w : Net) (b : Boxes) (i j : ℕ) (msg : List ℕ) (rep : Represents x w b)
      → IsPeer x.globals i
      → b i ≡ handed j msg
      → Deliverable x buflen w i (handed j msg)
      → Settles x k w b
          (fetch i j msg ∷ [])
          (commit x w j (released (at_host x j i) (see x w j)))
          (update i idle b)
  drain_handed w b i j msg rep q held (p, fits) = record {
    steps =
        then_
          (read-Turn x sound k wait w b j i msg rep q p buflen held (rep.held i j msg q held) fits)
          no_turn;
    rep = after-Represents x sound w b j i msg rep q held;
    less = λ n r. elim (ℕ_discrete n i) [
      | yes e ↦ inl (ap (update i idle b) e ∙ update_self i idle b)
      | no differ ↦
          inr (update_other i n idle b differ, mem-unread x sound w b j i msg rep q held n r differ)
    ];
    silent = λ n. (refl, refl);
  }

  -- An interrupt and a read, at a host with no message for its reader yet.
  drain_posted :
      (w : Net) (b : Boxes) (i j : ℕ) (msg : List ℕ) (rep : Represents x w b)
      (q : IsPeer x.globals i)
      → (p : IsPeer x.globals j) → b i ≡ posted j msg
      → (w.host j).adapter.incoming_slot ≡ none
      → Deliverable x buflen w i (posted j msg)
      → Settles x k w b
          (hand i j ∷ fetch i j msg ∷ [])
          (ended_net x sound k wait w b j i msg rep q p)
          (update i idle (update i (handed j msg) b))
  unfolding see
  drain_posted w b i j msg rep q p up quiet (_, fits, plain_) =
      let (vector, names) = tells j i p q (see x w j) (rep.wired j).0 in
      let (steps, rep', _, _) =
        ended-Turns x sound k wait w b j i msg rep q p vector buflen up names quiet
          (plain_ (w.host j).adapter.max_buflen) fits in
      record {
        steps = steps;
        rep = rep';
        less = λ n r. elim (ℕ_discrete n i) [
          | yes e ↦ inl (
              ap (update i idle (update i (handed j msg) b)) e
              ∙ update_self i idle (update i (handed j msg) b))
          | no differ ↦ inr (
            update_other i n idle (update i (handed j msg) b) differ
                ∙ update_other i n (handed j msg) b differ,
            ended-mem x sound k wait w b j i msg rep q p n up quiet r differ,
          )
        ];
        silent = λ n. (refl, refl);
      }

  -- If the host has another message for its reader, that one is read first.
  drain_behind :
      (w : Net) (b : Boxes) (i j : ℕ) (msg : List ℕ) (o : Option ℕ)
      → Represents x w b
      → AllDeliverable x buflen w b
      → IsPeer x.globals i
      → b i ≡ posted j msg
      → (w.host j).adapter.incoming_slot ≡ o
      → Drained x k w b (λ c. c i ≡ idle)
  drain_behind w b i j msg none rep all q up quiet =
      let d : Deliverable x buflen w i (posted j msg) = rw up at (all i q) in
      (
        hand i j ∷ fetch i j msg ∷ [],
        ended_net x sound k wait w b j i msg rep q d.0,
        update i idle (update i (handed j msg) b),
        drain_posted w b i j msg rep q d.0 up quiet d,
        update_self i idle (update i (handed j msg) b),
      )
  drain_behind w b i j msg (some place) rep all q up taken =
      let (n, r, _, (m, held)) = rep.incoming j place taken in
      let v = commit x w j (released (at_host x j n) (see x w j)) in
      let c = update n idle b in
      let first = drain_handed w b n j m rep r held (rw held at (all n r)) in
      let differ : i ≢ n = λ e. posted-ne-handed j j msg m (sym up ∙ ap b e ∙ held) in
      let still : c i ≡ posted j msg = update_other n i idle b differ ∙ up in
      let d : Deliverable x buflen v i (posted j msg) =
        rw still at (Settles-Deliverable x k buflen w v b c (fetch n j m ∷ []) first all i q) in
      (
        fetch n j m ∷ hand i j ∷ fetch i j msg ∷ [],
        ended_net x sound k wait v c j i msg first.rep q d.0,
        update i idle (update i (handed j msg) c),
        Settles-then x k w v (ended_net x sound k wait v c j i msg first.rep q d.0) b c
            (update i idle (update i (handed j msg) c)) (fetch n j m ∷ [])
            (hand i j ∷ fetch i j msg ∷ []) first
            (drain_posted v c i j msg first.rep q d.0 still
              (incoming_free x sound w b j n m rep r held) d),
        update_self i idle (update i (handed j msg) c),
      )

  pub drain_phase :
      (w : Net) (b : Boxes) (i : ℕ) (p : Phase)
      → Represents x w b
      → AllDeliverable x buflen w b
      → IsPeer x.globals i
      → b i ≡ p
      → Drained x k w b (λ c. c i ≡ idle)
  drain_phase w b i idle rep all q e = (
    [],
    w,
    b,
    record {
      steps = no_turn;
      rep = rep;
      less = λ n r. inr (refl, refl);
      silent = λ n. (refl, refl);
    },
    e,
  )
  drain_phase w b i (posted j msg) rep all q e =
      drain_behind w b i j msg (w.host j).adapter.incoming_slot rep all q e refl
  drain_phase w b i (handed j msg) rep all q e = (
    fetch i j msg ∷ [],
    commit x w j (released (at_host x j i) (see x w j)),
    update i idle b,
    drain_handed w b i j msg rep q e (rw e at (all i q)),
    update_self i idle b,
  )
  drain_phase w b i (stranded j msg) rep all q e = let never : ⊥ = rw e at (all i q) in absurd never
