-- ===== src/Exchange/Drain/All.antt =====
-- All messages can be brought to their readers, one sender after the other.
use mathlib.Core.List.{append-nil}
use native.Mathlib.Decide.{dec_le, ℕ_discrete}
use fame_z.Base.{List, [], ap, arith, inl, inr, refl, suc, sym, zero, ℕ, ◌++◌, ◌∙◌, ◌≡◌, ◌≤◌, ◌⊎◌}
use fame_z.Exchange.Drain.{
  AllDeliverable, Deliverable, Drained, Settles-Deliverable, Settles-then, Tells,
}
use fame_z.Exchange.Drain.Steps.{drain_phase}
use fame_z.Exchange.Mailbox.{Boxes, Event, departures, idle, losses, under_way}
use fame_z.Exchange.Mailbox.Balances.{Allows-Balances}
use fame_z.Exchange.Network.{Net, Turns, Wiring, no_turn}
use fame_z.Exchange.Network.Relation.{Agrees, Agrees-idle, Represents}
use fame_z.Exchange.Network.View.{IsSound}
use fame_z.Exchange.Refinement.{Turns-refines}
use fame_z.Famez.Incoming.{Woken}
use fame_z.Famez.Slots.{IsPeer, IsPeer-le}
use fame_z.Famez.Types.{Globals, Host, Kernel}

IsPeer-cases : (g : Globals) (n : ℕ) → IsPeer g n ⊎ (¬ IsPeer g n)
IsPeer-cases g n = elim (ℕ_discrete n g.server_id) [
  | yes e ↦ inl (inr e)
  | no differ ↦ elim (dec_le 1 n) [
    | no below ↦ inr (λ p. ground (arith, p, below, differ))
    | yes low ↦ elim (dec_le n g.n_clients) [
      | yes high ↦ inl (inl (low, high))
      | no above ↦ inr (λ p. ground (arith, p, above, differ))
    ]
  ]
]

module _ (x : Wiring) (sound : IsSound x) (k : Kernel) (wait : Host → Woken) (tells : Tells x)
    (buflen : ℕ) where
  -- One peer more.
  drain_next :
      (m : ℕ) (w : Net) (b : Boxes)
      → AllDeliverable x buflen w b
      → Drained x k w b (λ c. (i : ℕ) → IsPeer x.globals i → i ≤ m → c i ≡ idle)
      → Drained x k w b (λ c. (i : ℕ) → IsPeer x.globals i → i ≤ suc m → c i ≡ idle)
  drain_next m w b all (es, v, c, s, done) = elim (IsPeer-cases x.globals (suc m)) [
    | inr other ↦ (
      es,
      v,
      c,
      s,
      λ i q l. elim (ℕ_discrete i (suc m)) [
        | yes e ↦ absurd (other (rw e at q))
        | no differ ↦ done i q (omega (arith, differ))
      ],
    )
    | inl peer ↦
        let (fs, u, d, t, gone) =
          drain_phase x sound k wait tells buflen v c (suc m) (c (suc m)) s.rep
            (Settles-Deliverable x k buflen w v b c es s all) peer refl in
        (
          es ++ fs,
          u,
          d,
          Settles-then x k w v u b c d es fs s t,
          λ i q l. elim (ℕ_discrete i (suc m)) [
            | yes e ↦ ap d e ∙ gone
            | no differ ↦ elim (t.less i q) [
              | inl idle_ ↦ idle_
              | inr (same, _) ↦ same ∙ done i q (omega (arith, differ))
            ]
          ],
        )
  ]

  drain_upto :
      (m : ℕ) (w : Net) (b : Boxes)
      → Represents x w b
      → AllDeliverable x buflen w b
      → Drained x k w b (λ c. (i : ℕ) → IsPeer x.globals i → i ≤ m → c i ≡ idle)
  drain_upto zero w b rep all = (
    [],
    w,
    b,
    record {
      steps = no_turn;
      rep = rep;
      less = λ n r. inr (refl, refl);
      silent = λ n. (refl, refl);
    },
    λ i q l. let last = (sound.fits i).last in absurd (omega arith),
  )
  drain_upto (suc m) w b rep all = drain_next m w b all (drain_upto m w b rep all)

  -- Hosts that map the whole mailbox, and can tell every peer, stand for a state of the mailbox in
  -- which no message is stranded, and each one under way goes to a peer with room for it and a link
  -- layer that leaves it alone. Then there are steps behind which the slot of every peer is free,
  -- nothing was lost, and what was taken from it is just the message that was under way.
  pub Turns-drain :
      (w : Net) (b : Boxes)
      → Represents x w b
      → ((n : ℕ) → IsPeer x.globals n → Deliverable x buflen w n (b n))
      → (es : List Event) × (v : Net) × Turns x k w es v
        × ((i : ℕ)
            → IsPeer x.globals i
            → ((v.mem i).buflen ≡ 0) × (losses i es ≡ []) × (departures i es ≡ under_way (b i)))
  Turns-drain w b rep all =
      let (es, v, c, s, done) = drain_upto x.globals.server_id w b rep all in
      (
        es,
        v,
        s.steps,
        λ i q.
            let high = IsPeer-le (x.base i) x.globals i (sound.fits i) q in
            let a : Agrees v i idle = rw (done i q high) at (s.rep.slots i q) in
            let (d, allows, rep') = Turns-refines x sound k w v b es rep s.steps in
            let end : d i ≡ idle = Agrees-idle v i (d i) (rep'.slots i q) a.0 in
            let account = Allows-Balances i b d es allows in
            (
              a.0,
              (s.silent i).1,
              sym (append-nil (departures i es))
                  ∙ ap (λ p. departures i es ++ under_way p) (sym end)
                  ∙ sym account
                  ∙ ap (λ l. under_way (b i) ++ l) (s.silent i).0
                  ∙ append-nil (under_way (b i)),
            ),
      )
