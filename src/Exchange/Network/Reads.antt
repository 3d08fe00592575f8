-- ===== src/Exchange/Network/Reads.antt =====
-- A read fetches the message that was handed to the host.
use native.Mathlib.Decide.{ℕ_discrete}
use fame_z.Base.{
  ==_refl, Bool, List, [], ap, arith, bytes_eq_refl, false, inl, inr, is_neg, length, none, ok,
  refl, some, sym, true, ℕ, ℤ, ◌+◌, ◌<◌, ◌^◌, ◌∙◌, ◌∷◌, ◌≡◌, ◌≢◌, ◌≤◌,
}
use fame_z.Base.Text.{read_bytes}
use fame_z.Base.Text.Memory.{read_bytes-Holds}
use fame_z.Bridge.{Reading, copy_out, famez_bridge_read, sidcid_text}
use fame_z.Bridge.Read.{famez_bridge_read-released, whole, whole-body}
use fame_z.Bridge.Read.Bounds.{copy_out-Bounded}
use fame_z.Exchange.Mailbox.{
  Boxes, act, fetch, fetch_by, handed, handed-peer, idle, idle-ne-handed, lose, update,
  update_other, update_self,
}
use fame_z.Exchange.Network.{Net, Wiring, at_host, commit, ring, see}
use fame_z.Exchange.Network.Relation.{
  Agrees, Agrees-frame, HasHanded, IsWired, Represents, incoming-handed,
}
use fame_z.Exchange.Network.View.{
  IsSound, Wrote, at_host_ne, commit-HasIds, commit_other, commit_self, see-mem,
}
use fame_z.Famez.Incoming.{Woken}
use fame_z.Famez.Incoming.Handoff.{released}
use fame_z.Famez.Slots.{IsPeer}
use fame_z.Famez.Types.{Host, Mailslot}

module _ (x : Wiring) (sound : IsSound x) (w : Net) (b : Boxes) (j i : ℕ) where
  abbrev place : ℕ
  place = at_host x j i

  abbrev host_after : Host
  host_after = released place (see x w j)

  abbrev after : Net
  after = commit x w j host_after

  -- The bytes in a slot are the message.
  handed-text :
      (m : List ℕ) → Agrees w i (handed j m) → read_bytes (w.mem i).buflen (w.mem i).buf 0 ≡ m
  handed-text m slot =
      ap (λ n. read_bytes n (w.mem i).buf 0) slot.0.0 ∙ read_bytes-Holds (w.mem i).buf 0 m slot.0.1

  module _ (msg : List ℕ) (rep : Represents x w b) (q : IsPeer x.globals i)
      (held : b i ≡ handed j msg) where
    freed : Mailslot
    freed = record ((see x w j).slots place) { buflen = 0 }

    wrote : Wrote x sound w j i freed host_after
    unfolding freed see
    wrote = refl

    freed-peer_id : freed.peer_id ≡ (w.mem i).peer_id
    unfolding freed
    freed-peer_id = ap (λ (s : Mailslot). s.peer_id) (see-mem x sound w j i q)

    handed_slot : Agrees w i (handed j msg)
    handed_slot = rw held at (rep.slots i q)

    pub buflen-freed : (after.mem i).buflen ≡ 0
    unfolding freed
    buflen-freed = ap (λ s. s.buflen) (commit_self x sound w j i freed host_after wrote)

    pub mem-unread : (n : ℕ) → IsPeer x.globals n → n ≢ i → after.mem n ≡ w.mem n
    mem-unread n p differ = commit_other x sound w j i n freed host_after wrote q p differ

    pub incoming_free : (after.host j).adapter.incoming_slot ≡ none
    unfolding commit
    incoming_free = ap (λ (g : Host). g.adapter.incoming_slot) (update_self j host_after w.host)

    quiet : (k n : ℕ) → after.pending k n ≡ w.pending k n
    unfolding commit ring see
    quiet k n = refl

    slots_after : (n : ℕ) → IsPeer x.globals n → Agrees after n (update i idle b n)
    slots_after n p = elim (ℕ_discrete n i) [
      | yes e ↦ rw e (rw (==_refl i) (buflen-freed, λ k. quiet k i ∙ handed_slot.1 k))
      | no differ ↦
          rw (update_other i n idle b differ)
            (Agrees-frame w after n (b n) (mem-unread n p differ) (λ k. quiet k n) (rep.slots n p))
    ]

    incoming_elsewhere :
        (n : ℕ) → n ≢ j → (after.host n).adapter.incoming_slot ≡ (w.host n).adapter.incoming_slot
    unfolding commit
    incoming_elsewhere n differ =
        ap (λ (g : Host). g.adapter.incoming_slot) (update_other j n host_after w.host differ)

    incoming_after :
        (k a : ℕ)
        → (after.host k).adapter.incoming_slot ≡ some a
        → HasHanded x (update i idle b) k a
    unfolding commit
    incoming_after k a taken = elim (ℕ_discrete k j) [
      | yes e ↦
          let gone : none ≡ some a =
            sym (ap (λ (g : Host). g.adapter.incoming_slot) (update_self j host_after w.host))
            ∙ ap (λ n. (update j host_after w.host n).adapter.incoming_slot) (sym e)
            ∙ taken in
          cc gone
      | no differ ↦
          let (n, p, at_n, (m, other)) =
            rep.incoming k a (sym (incoming_elsewhere k differ) ∙ taken) in
          let elsewhere : n ≢ i = λ e. differ (handed-peer k j m msg (sym other ∙ ap b e ∙ held)) in
          (n, p, at_n, (m, update_other i n idle b elsewhere ∙ other))
    ]

    held_after :
        (n k : ℕ) (m : List ℕ)
        → IsPeer x.globals n
        → update i idle b n ≡ handed k m
        → (after.host k).adapter.incoming_slot ≡ some (at_host x k n)
    held_after n k m p there = elim (ℕ_discrete n i) [
      | yes e ↦
          absurd (idle-ne-handed k m (sym (ap (update i idle b) e ∙ update_self i idle b) ∙ there))
      | no differ ↦
          let before = rep.held n k m p (sym (update_other i n idle b differ) ∙ there) in
          elim (ℕ_discrete k j) [
            | yes e ↦
                let mine : (w.host j).adapter.incoming_slot ≡ some (at_host x j n) =
                  rw e at before in
                let both : some (at_host x j n) ≡ some place = sym mine ∙ rep.held i j msg q held in
                absurd (at_host_ne x sound j n i p q differ (cc both))
            | no other ↦ incoming_elsewhere k other ∙ before
          ]
    ]

    IsWired-here : IsWired x j host_after
    unfolding see
    IsWired-here = let r = rep.wired j in (r.0, r.1, r.2, r.3, refl, r.5, r.6)

    IsWired-after : (k : ℕ) → IsWired x k (after.host k)
    unfolding commit
    IsWired-after k = elim (ℕ_discrete k j) [
      | yes e ↦ rw e (rw (==_refl j) IsWired-here)
      | no differ ↦ rw (update_other j k host_after w.host differ) (rep.wired k)
    ]

    pub after-Represents : Represents x after (update i idle b)
    after-Represents = record {
      slots = slots_after;
      incoming = incoming_after;
      held = held_after;
      wired = IsWired-after;
      ids = commit-HasIds x sound w j i freed host_after wrote q freed-peer_id rep.ids;
    }

  -- A read of the message that was handed over, which gives no error, gives the message: it is a
  -- fetch that the mailbox allows.
  pub reads-Represents :
      (buflen : ℕ) (wait : Host → Woken) (nonblocking : Bool) (ch cb ret : ℤ) (header msg : List ℕ)
      (h : Host)
      → Represents x w b
      → IsPeer x.globals i
      → (w.host j).adapter.incoming_slot ≡ some place
      → length (sidcid_text (w.mem i)) ≤ 30
      → (w.mem i).buflen + length (sidcid_text (w.mem i)) < 2 ^ 31
      → is_neg ret ≡ false
      → famez_bridge_read wait nonblocking ch cb buflen (see x w j)
        ≡ ok (record { ret = ret; copied = (0, header) ∷ (length header, msg) ∷ [] }) h
      → (c : Boxes) × (act (fetch i j msg) b ≡ some c) × Represents x (commit x w j h) c
  unfolding act fetch_by see
  reads-Represents buflen wait nonblocking ch cb ret header msg h rep q taken short small good run =
      let (m, held) = incoming-handed x sound w b j i rep q taken in
      let slot : Agrees w i (handed j m) = rw held at (rep.slots i q) in
      let there : (see x w j).slots place ≡ w.mem i = see-mem x sound w j i q in
      let ran =
        famez_bridge_read-released wait nonblocking ch cb buflen (see x w j) place (rep.wired j).4
          taken in
      let same : h ≡ host_after = cc (ran, run) in
      let got : copy_out ch cb buflen (w.mem i)
          ≡ record { ret = ret; copied = (0, header) ∷ (length header, msg) ∷ [] } =
        ap (copy_out ch cb buflen) (sym there) ∙ cc (ran, run) in
      let (_, ended, _, _) = copy_out-Bounded (w.mem i) ch cb buflen short small in
      let given : copy_out ch cb buflen (w.mem i) ≡ whole (w.mem i) = elim ended [
        | inl all ↦ all
        | inr bad ↦
            let negative : is_neg ret ≡ true = sym (ap (λ (r : Reading). is_neg r.ret) got) ∙ bad in
            absurd (ground arith)
      ] in
      let text : read_bytes (w.mem i).buflen (w.mem i).buf 0 ≡ msg =
        whole-body (w.mem i) ret header msg (sym given ∙ got) in
      let right : m ≡ msg = sym (handed-text m slot) ∙ text in
      (
        update i idle b,
        rw held (rw (right, ==_refl j, bytes_eq_refl msg)),
        rw same (after-Represents m rep q held),
      )

  -- A read that gives an error loses the message, which is a loss that the mailbox allows.
  pub loses-Represents :
      (buflen : ℕ) (wait : Host → Woken) (nonblocking : Bool) (ch cb : ℤ) (r : Reading) (h : Host)
      → Represents x w b
      → IsPeer x.globals i
      → (w.host j).adapter.incoming_slot ≡ some place
      → famez_bridge_read wait nonblocking ch cb buflen (see x w j) ≡ ok r h
      → (c : Boxes) × (act (lose i j (read_bytes (w.mem i).buflen (w.mem i).buf 0)) b ≡ some c)
        × Represents x (commit x w j h) c
  unfolding act fetch_by see
  loses-Represents buflen wait nonblocking ch cb r h rep q taken run =
      let (m, held) = incoming-handed x sound w b j i rep q taken in
      let slot : Agrees w i (handed j m) = rw held at (rep.slots i q) in
      let ran =
        famez_bridge_read-released wait nonblocking ch cb buflen (see x w j) place (rep.wired j).4
          taken in
      let same : h ≡ host_after = cc (ran, run) in
      (
        update i idle b,
        rw held (rw (handed-text m slot, ==_refl j, bytes_eq_refl m)),
        rw same (after-Represents m rep q held),
      )
