-- ===== src/Relay/Single.antt =====
-- A queue that holds one message, or none: what Take, TakeLeased and Ack answer.
use heliograph_relay.Common.{
  ℕ, ◌+◌, ◌≤◌, ◌<◌, ◌≡◌, refl, ◌∙◌, true, false, [], ◌∷◌, Text, same_refl, is_empty, pos, ltb,
  ltb_ℤ, arith, same, ne→same, ◌≢◌, ◌%◌,
}
use heliograph_relay.Relay.Message.{
  Message, Time, ok, err, key, valid_route, no_such_lease, zero_time,
}
use heliograph_relay.Relay.Store.{
  Store, queue, take, next_lease, split_expired, release, release_all,
}
use heliograph_relay.Relay.Leased.{
  Lease, no_lease, max_lease, take_leased, ack, split_lease, is_blank,
}
use heliograph_relay.Relay.Frame.{current}
use heliograph_relay.Relay.Loops.{pick}
use heliograph_relay.Relay.Holding.{mark, mark_queue}
use heliograph_relay.Relay.Collect.{
  take-result, take-queue, take_leased-result, take_leased-queue, ack-result, ack-queue,
}
use heliograph_relay.Relay.Guarantees.{at_self}
use heliograph_relay.Relay.Counters.{take_leased-SameSettings, hold_messages-leases}
use heliograph_relay.Relay.Freshness.{lease_text_injective}

abbrev pub lapsed : Message → Message
lapsed y = record y { lease = []; lease_until = zero_time }

turned :
    (n : ℕ)
    → ◌≢◌ {A = ℕ} ((n % 18446744073709551616 + 1) % 18446744073709551616) (n % 18446744073709551616)
turned n e = omega (arith, e)

-- The lease that TakeLeased grants on one message.
abbrev pub lease_on : Time → ℕ → Store → Message → Lease
lease_on now d s x =
    let id = (next_lease s).1 in
    record { id = id; until = now + d; messages = mark id (now + d) x ∷ [] }

module _ (now : Time) (estate station dir : Text) (s : Store)
    (valid : valid_route estate station dir ≡ true) where
  abbrev k : Text
  k = key estate station dir

  -- The lease after this one has another id.
  pub lease_renewed :
      (d : ℕ)
      → ltb 0 d ≡ true
      → ltb_ℤ max_lease (pos d) ≡ false
      → same
          (next_lease (take_leased now estate station dir (pos 0) (pos d) s).0).1
          (next_lease s).1
        ≡ false
  unfolding next_lease
  lease_renewed d positive short =
      let s' = (take_leased now estate station dir (pos 0) (pos d) s).0 in
      let same_epoch = (take_leased-SameSettings now estate station dir (pos 0) (pos d) s).epoch in
      let counted : s'.leases ≡ (s.leases + 1) % 18446744073709551616 =
        unfold take_leased in
        rw (valid, positive, short) (hold_messages-leases now k (pos 0) d s) in
      rw (same_epoch, counted)
        (ne→same _ _ (λ e. absurd (turned (s.leases + 1) (lease_text_injective s.epoch _ _ e))))

  module _ (x : Message) (free : x.lease ≡ []) (young : now ≤ x.arrived + s.ttl)
      (alone : queue k s ≡ x ∷ []) where
    free_current : current k now s ≡ x ∷ []
    unfolding current split_expired release_all release
    free_current = rw alone (ground (arith, free, young))

    module _ (d : ℕ) (positive : ltb 0 d ≡ true) (short : ltb_ℤ max_lease (pos d) ≡ false) where
      pub lease_one :
          (take_leased now estate station dir (pos 0) (pos d) s).1 ≡ ok (lease_on now d s x)
      unfolding pick
      lease_one =
          take_leased-result now estate station dir (pos 0) s valid d positive short
          ∙ rw (free_current, pick, free) refl

      pub lease_one-queue :
          queue k (take_leased now estate station dir (pos 0) (pos d) s).0
          ≡ (lease_on now d s x).messages
      unfolding mark_queue
      lease_one-queue =
          take_leased-queue now estate station dir (pos 0) s valid d positive short k
          ∙ at_self k _ _
          ∙ rw (free_current, mark_queue, free) refl

  -- A message under a lease that runs.
  module _ (y : Message) (held : is_empty y.lease ≡ false) (running : now < y.lease_until)
      (young : now ≤ y.arrived + s.ttl) (alone : queue k s ≡ y ∷ []) where
    held_current : current k now s ≡ y ∷ []
    unfolding current split_expired release_all release
    held_current = rw alone (ground (arith, held, running, young))

    pub take_held : (take now estate station dir (pos 0) s).1 ≡ ok []
    unfolding pick
    take_held =
        take-result now estate station dir (pos 0) s valid ∙ rw (held_current, pick, held) refl

    pub take_held-queue : queue k (take now estate station dir (pos 0) s).0 ≡ y ∷ []
    unfolding pick
    take_held-queue =
        take-queue now estate station dir (pos 0) s valid k
        ∙ at_self k _ _
        ∙ rw (held_current, pick, held) refl

    pub ack_held : is_blank y.lease ≡ false → (ack now estate station dir y.lease s).1 ≡ ok 1
    unfolding split_lease
    ack_held named =
        ack-result now estate station dir (pos 0) s valid y.lease named
        ∙ rw (held_current, same_refl y.lease) refl

    pub ack_held-queue :
        is_blank y.lease ≡ false → queue k (ack now estate station dir y.lease s).0 ≡ []
    unfolding split_lease
    ack_held-queue named =
        ack-queue now estate station dir (pos 0) s valid y.lease named k
        ∙ at_self k _ _
        ∙ rw (held_current, same_refl y.lease) refl

    module _ (d : ℕ) (positive : ltb 0 d ≡ true) (short : ltb_ℤ max_lease (pos d) ≡ false) where
      pub lease_held : (take_leased now estate station dir (pos 0) (pos d) s).1 ≡ ok no_lease
      unfolding pick
      lease_held =
          take_leased-result now estate station dir (pos 0) s valid d positive short
          ∙ rw (held_current, pick, held) refl

      pub lease_held-queue :
          queue k (take_leased now estate station dir (pos 0) (pos d) s).0 ≡ y ∷ []
      unfolding mark_queue
      lease_held-queue =
          take_leased-queue now estate station dir (pos 0) s valid d positive short k
          ∙ at_self k _ _
          ∙ rw (held_current, mark_queue, held) refl

  -- A message whose lease has lapsed is granted like one that waits.
  module _ (y : Message) (held : is_empty y.lease ≡ false) (over : y.lease_until ≤ now)
      (young : now ≤ y.arrived + s.ttl) (alone : queue k s ≡ y ∷ []) where
    current-lapsed : current k now s ≡ lapsed y ∷ []
    unfolding current split_expired release_all release
    current-lapsed = rw alone (ground (arith, held, over, young))

    pub lease_again :
        (d : ℕ)
        → ltb 0 d ≡ true
        → ltb_ℤ max_lease (pos d) ≡ false
        → (take_leased now estate station dir (pos 0) (pos d) s).1
          ≡ ok (lease_on now d s (lapsed y))
    unfolding pick
    lease_again d positive short =
        take_leased-result now estate station dir (pos 0) s valid d positive short
        ∙ rw (current-lapsed, pick) refl

  module _ (none_left : queue k s ≡ []) (id : Text) (named : is_blank id ≡ false) where
    none_current : current k now s ≡ []
    unfolding current split_expired release_all
    none_current = rw none_left refl

    pub ack_none : (ack now estate station dir id s).1 ≡ err no_such_lease
    unfolding split_lease
    ack_none = ack-result now estate station dir (pos 0) s valid id named ∙ rw none_current refl

    pub ack_none-queue : queue k (ack now estate station dir id s).0 ≡ []
    unfolding split_lease
    ack_none-queue =
        ack-queue now estate station dir (pos 0) s valid id named k
        ∙ at_self k _ _
        ∙ rw none_current refl
