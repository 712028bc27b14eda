-- ===== src/Relay/Collect.antt =====
-- Collection: what Take, TakeLeased and Ack hand over, and what they leave in each queue.
use mathlib.Core.Path.{subst}
use heliograph_relay.Common.{
  ℕ, ◌+◌, ◌≡◌, refl, sym, ap, inl, inr, true, false, not, ◌||◌, List, [], ◌∷◌, Text, same, same_iff,
  length, is_empty, ltb, ℤ, pos, ltb_ℤ, arith, if◌then◌else◌, Bool-cases, map,
}
use heliograph_relay.Relay.Message.{Message, Time, ok, err, key, valid_route, no_such_lease}
use heliograph_relay.Relay.Store.{Store, queue, expire, expire_leases, reached, take, next_lease}
use heliograph_relay.Relay.Leased.{
  no_lease, max_lease, take_leased, hold_messages, grant_lease, split_lease, ack, is_blank,
}
use heliograph_relay.Relay.Frame.{
  current, queue-current, queue-current_self, queue-settle_queue, queue-set_queue,
  current-SameCounters,
}
use heliograph_relay.Relay.Loops.{pick, take_loop-eq-pick, pick-Merge, Merge, done, right}
use heliograph_relay.Relay.Holding.{mark, mark_queue, hold_loop-eq-pick, split_lease-Merge}

pub Merge-nil {ℓ} : {A : Type ℓ} {ys zs : List A} → Merge [] ys zs → ys ≡ zs
Merge-nil done = refl
Merge-nil (right {y = y} m) = ap (◌∷◌ y) (Merge-nil m)

pick_none :
    (limit : ℤ) (n : ℕ) (ms : List Message) → (pick limit n ms).0 ≡ [] → (pick limit n ms).1 ≡ ms
pick_none limit n ms e =
    Merge-nil (subst (λ xs. Merge xs (pick limit n ms).1 ms) e (pick-Merge limit n ms))

is_empty→nil {ℓ} : {A : Type ℓ} (xs : List A) → is_empty xs ≡ true → xs ≡ []
is_empty→nil [] h = refl
is_empty→nil (x ∷ xs) h = cc

held_none :
    (limit : ℤ) (id : Text) (until : Time) (n : ℕ) (ms : List Message)
    → (pick limit n ms).0 ≡ []
    → mark_queue limit id until n ms ≡ ms
unfolding pick mark_queue
held_none limit id until n [] e = refl
held_none limit id until n (m ∷ ms) e =
    elim (Bool-cases (not (is_empty m.lease) || reached limit n)) [
      | inl skip ↦ rw skip (ap (◌∷◌ m) (held_none limit id until n ms (ground arith)))
      | inr grab ↦ ground arith
    ]

is_empty-map : (f : Message → Message) (ms : List Message) → is_empty (map f ms) ≡ is_empty ms
is_empty-map f [] = refl
is_empty-map f (m ∷ ms) = refl

queue-leases : (j : Text) (n : ℕ) (t : Store) → queue j (record t { leases = n }) ≡ queue j t
unfolding queue
queue-leases j n t = refl

queue-next_lease : (j : Text) (t : Store) → queue j (next_lease t).0 ≡ queue j t
unfolding next_lease queue
queue-next_lease j t = refl

module _ (now : Time) (k : Text) (limit : ℤ) (d : ℕ) (t : Store) where
  abbrev granted : Text
  granted = (next_lease t).1

  grant_lease-queue :
      (j : Text)
      → queue j (grant_lease now k limit d t).0
        ≡ (if same k j then mark_queue limit granted (now + d) 0 (queue k t) else queue j t)
  unfolding grant_lease
  grant_lease-queue j =
      rw
        (
          hold_loop-eq-pick limit granted (now + d) [] (queue k t),
          is_empty-map (mark granted (now + d)) (pick limit 0 (queue k t)).0,
        )
        (elim (Bool-cases (is_empty (pick limit 0 (queue k t)).0)) [
          | inl none_held ↦ rw none_held (
              ground (
                arith,
                queue-next_lease j t,
                held_none limit granted (now + d) 0 (queue k t) (is_empty→nil _ none_held),
                same_iff k j,
              ))
          | inr some_held ↦ rw some_held (
              ground (
                arith,
                queue-next_lease j t,
                queue-set_queue j k (mark_queue limit granted (now + d) 0 (queue k t))
                    (next_lease t).0,
              ))
        ])

  grant_lease-result : (grant_lease now k limit d t).1 ≡ (
      if is_empty (pick limit 0 (queue k t)).0 then no_lease else record {
        id = granted;
        until = now + d;
        messages = map (mark granted (now + d)) (pick limit 0 (queue k t)).0;
      })
  unfolding grant_lease
  grant_lease-result =
      rw
        (
          hold_loop-eq-pick limit granted (now + d) [] (queue k t),
          is_empty-map (mark granted (now + d)) (pick limit 0 (queue k t)).0,
        )
        (ground arith)

pub split_lease_none :
    (id : Text) (ms : List Message) → (split_lease id ms).0 ≡ [] → (split_lease id ms).1 ≡ ms
split_lease_none id ms e =
    Merge-nil (subst (λ xs. Merge xs (split_lease id ms).1 ms) e (split_lease-Merge id ms))

module _ (now : Time) (estate station dir : Text) (limit : ℤ) (s : Store)
    (valid : valid_route estate station dir ≡ true) where
  abbrev due : List Message
  due = current (key estate station dir) now s

  -- Take answers with what `pick` takes.
  pub take-result : (take now estate station dir limit s).1 ≡ ok (pick limit 0 due).0
  unfolding take
  take-result =
      rw
        (
          valid,
          queue-current_self (key estate station dir) now s,
          take_loop-eq-pick limit [] [] due,
        )
        (elim (Bool-cases (is_empty (pick limit 0 due).0)) [
          | inl none_taken ↦ rw none_taken (ap ok (sym (is_empty→nil _ none_taken)))
          | inr some_taken ↦ rw some_taken
        ])

  pub take-queue :
      (j : Text)
      → queue j (take now estate station dir limit s).0
        ≡ (if same (key estate station dir) j then (pick limit 0 due).1 else queue j s)
  unfolding take
  take-queue j =
      let k = key estate station dir in
      let s₁ = expire_leases k now (expire k now s) in
      rw (valid, queue-current_self k now s, take_loop-eq-pick limit [] [] due)
        (elim (Bool-cases (is_empty (pick limit 0 due).0)) [
          | inl none_taken ↦ rw none_taken (
              ground
                (arith, queue-current j k now s, pick_none limit 0 due (is_empty→nil _ none_taken)))
          | inr some_taken ↦ rw some_taken (
              ground (
                arith,
                queue-settle_queue j k (pick limit 0 due).0 (pick limit 0 due).1 s₁,
                queue-current j k now s,
              ))
        ])

  -- `settle_queue` of Ack.
  pub ack-queue :
      (id : Text)
      → is_blank id ≡ false
      → (j : Text)
      → queue j (ack now estate station dir id s).0
        ≡ (if same (key estate station dir) j then (split_lease id due).1 else queue j s)
  unfolding ack
  ack-queue id named j =
      let k = key estate station dir in
      let s₁ = expire_leases k now (expire k now s) in
      rw (valid, named, queue-current_self k now s)
        (elim (Bool-cases (is_empty (split_lease id due).0)) [
          | inl none_acked ↦ rw none_acked (
              ground (
                arith,
                queue-current j k now s,
                split_lease_none id due (is_empty→nil _ none_acked),
              ))
          | inr some_acked ↦ rw some_acked (
              ground (
                arith,
                queue-settle_queue j k (split_lease id due).0 (split_lease id due).1 s₁,
                queue-current j k now s,
              ))
        ])

  pub ack-result :
      (id : Text)
      → is_blank id ≡ false
      → (ack now estate station dir id s).1 ≡ (
          if is_empty (split_lease id due).0
          then err no_such_lease
          else ok (length (split_lease id due).0))
  unfolding ack
  ack-result id named =
      rw (valid, named, queue-current_self (key estate station dir) now s) (ground arith)

  -- The id of the next lease.
  abbrev lease_id : Text
  lease_id = (next_lease s).1

  lease_id-started :
      (next_lease
        (expire_leases (key estate station dir) now (expire (key estate station dir) now s))).1
      ≡ lease_id
  unfolding next_lease
  lease_id-started =
      let c = current-SameCounters (key estate station dir) now s in rw (c.epoch, c.leases)

  hold_messages-queue :
      (d : ℕ) (j : Text)
      → queue j (hold_messages now (key estate station dir) limit d s).0 ≡ (
          if same (key estate station dir) j
          then mark_queue limit lease_id (now + d) 0 due
          else queue j s)
  unfolding hold_messages
  hold_messages-queue d j =
      let k = key estate station dir in
      rw
        (
          grant_lease-queue now k limit d (expire_leases k now (expire k now s)) j,
          lease_id-started,
          queue-current_self k now s,
        )
        (ground (arith, queue-current j k now s))

  hold_messages-lease :
      (d : ℕ)
      → (hold_messages now (key estate station dir) limit d s).1 ≡ (
          if is_empty (pick limit 0 due).0 then no_lease else record {
            id = lease_id;
            until = now + d;
            messages = map (mark lease_id (now + d)) (pick limit 0 due).0;
          })
  unfolding hold_messages
  hold_messages-lease d =
      let k = key estate station dir in
      rw (
        grant_lease-result now k limit d (expire_leases k now (expire k now s)),
        lease_id-started,
        queue-current_self k now s,
      )

  module _ (d : ℕ) (positive : ltb 0 d ≡ true) (short : ltb_ℤ max_lease (pos d) ≡ false) where
    pub take_leased-queue :
        (j : Text)
        → queue j (take_leased now estate station dir limit (pos d) s).0 ≡ (
            if same (key estate station dir) j
            then mark_queue limit lease_id (now + d) 0 due
            else queue j s)
    unfolding take_leased
    take_leased-queue j = rw (valid, positive, short) (hold_messages-queue d j)

    pub take_leased-result :
        (take_leased now estate station dir limit (pos d) s).1
        ≡ ok (
            if is_empty (pick limit 0 due).0 then no_lease else record {
              id = lease_id;
              until = now + d;
              messages = map (mark lease_id (now + d)) (pick limit 0 due).0;
            })
    unfolding take_leased
    take_leased-result = rw (valid, positive, short) (ap ok (hold_messages-lease d))
