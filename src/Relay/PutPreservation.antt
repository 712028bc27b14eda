-- ===== src/Relay/PutPreservation.antt =====
-- Put keeps the invariant.
use mathlib.Core.Path.{subst}
use native.Mathlib.Nat.{mod-eq_of_lt}
use heliograph_relay.Common.{
  ℕ, ◌+◌, ◌-◌, ◌%◌, ◌≤◌, ◌<◌, ◌≡◌, refl, sym, ◌∙◌, inl, List, [], ◌∷◌, ◌++◌, Text, length,
  length-append, All, All-append, arith,
}
use heliograph_relay.Common.Decimal.{value-decimal}
use heliograph_relay.Spool.Disk.{Codec, Faults}
use heliograph_relay.Relay.Message.{Message, Time, zero_time, key}
use heliograph_relay.Relay.Store.{Store, queue, put, next_id}
use heliograph_relay.Relay.Frame.{queue-expire}
use heliograph_relay.Relay.Expiry.{number, After, Ordered}
use heliograph_relay.Relay.Accepting
use heliograph_relay.Relay.Invariant.{Marks, marks, Item, Tidy, Valid, split_expired-Tidy}
use heliograph_relay.Relay.Preservation.{
  Tidy-mono, Valid-marks, one_queue, waits-Valid, expire-Valid,
}

Ordered-append :
    (ms : List Message) (x : Message)
    → Ordered ms
    → All (λ m. After m x) ms
    → Ordered (ms ++ x ∷ [])
Ordered-append [] x h a = (tt, tt)
Ordered-append (m ∷ ms) x h a =
    (All-append (After m) ms (x ∷ []) h.0 (a.0, tt), Ordered-append ms x h.1 a.1)

-- What lies in a queue came before what is put into it next.
Items-After :
    (c : Marks) (k : Text) (x : Message) (ms : List Message)
    → c.clock ≤ x.arrived
    → c.ids < number x.id
    → All (Item c k) ms
    → All (λ m. After m x) ms
Items-After c k x [] t i h = tt
Items-After c k x (m ∷ ms) t i h =
    ((omega (arith, h.0.past), omega (arith, h.0.counted)), Items-After c k x ms t i h.1)

module _ (clock now : Time) (s : Store) (later : clock ≤ now) (valid : Valid clock s)
    (room : s.ids + 1 < 18446744073709551616) (cd : Codec) (f : Faults) (m : Message)
    (free : m.lease ≡ []) (no_deadline : m.lease_until ≡ zero_time) where
  abbrev k : Text
  k = key m.estate m.station m.dir

  abbrev put_marks : Marks
  put_marks = record { clock = now; epoch = s.epoch; ids = s.ids + 1; leases = s.leases }

  number-next : number (next_id s).1 ≡ s.ids + 1
  unfolding next_id
  number-next = value-decimal ((s.ids + 1) % 18446744073709551616) ∙ mod-eq_of_lt room

  room-Tidy : Tidy (marks clock s) s.max k (Accepting.room cd f now m s)
  room-Tidy = split_expired-Tidy (marks clock s) s.max k (now - s.ttl) (queue k s) (valid k)

  longer :
      (max : ℕ) (j : Text) (ms : List Message)
      → Tidy (marks clock s) max j ms
      → Tidy put_marks max j ms
  longer max j ms h =
      Tidy-mono (marks clock s) put_marks max j ms later refl (omega arith) (omega arith) h

  new-Item :
      (name : Text) → Item put_marks k (record (Accepting.numbered cd f now m s) { file = name })
  new-Item name = record {
    routed = refl;
    past = omega arith;
    counted = omega (arith, number-next);
    clean = λ _. no_deadline;
    held = inl free;
  }

  kept-Tidy :
      (name : Text)
      → length (Accepting.room cd f now m s) < s.max
      → Tidy put_marks s.max k (
          Accepting.room cd f now m s
          ++ record (Accepting.numbered cd f now m s) { file = name } ∷ [])
  kept-Tidy name fits =
      let old = Accepting.room cd f now m s in
      let new = record (Accepting.numbered cd f now m s) { file = name } in
      record {
        items =
            All-append (Item put_marks k) old (new ∷ []) (longer s.max k old room-Tidy).items
              (new-Item name, tt);
        ordered = Ordered-append old new room-Tidy.ordered (
            Items-After (marks clock s) k new old later (omega (arith, number-next))
              room-Tidy.items);
        bounded = omega (arith, length-append old (new ∷ []));
      }

  from_counters :
      (t : Store)
      → Accepting.NextId cd f now m s t
      → ((j : Text) → Tidy put_marks s.max j (queue j t))
      → Valid now t
  from_counters t n h =
      Valid-marks now t put_marks s.max (omega arith) (sym n.epoch)
        (omega (arith, n.ids ∙ mod-eq_of_lt room)) (omega (arith, n.leases)) n.max h

  -- Whatever Put answers, the store is well formed.
  pub put-Valid : Valid now (put cd f now m s).0
  put-Valid = elim (Accepting.put-PutEnd cd f now m s) [
    | Accepting.rejected e p ↦
        subst (λ r. Valid now r.0) (sym p) (waits-Valid clock now s later valid)
    | Accepting.full p ↦ subst (λ r. Valid now r.0) (sym p) (expire-Valid clock now s later valid k)
    | Accepting.lost unwritten p ↦
        subst (λ r. Valid now r.0) (sym p)
          (from_counters _ (Accepting.tried-NextId cd f now m s) λ j.
            rw (Accepting.queue-lost cd f now m s j, queue-expire j k now s)
              (one_queue put_marks s.max k j _ _ (longer s.max k _ room-Tidy)
                (longer s.max j _ (valid j))))
    | Accepting.kept name e g p ↦
        subst (λ r. Valid now r.0) (sym p)
          (from_counters _ (Accepting.kept-NextId cd f now m s _) λ j.
            rw (Accepting.queue-kept cd f now m s name j)
              (one_queue put_marks s.max k j _ _ (kept-Tidy name g.2) (longer s.max j _ (valid j))))
  ]
