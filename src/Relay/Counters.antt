-- ===== src/Relay/Counters.antt =====
-- The settings and the counters of a store under Take, TakeLeased and Ack.
use heliograph_relay.Common.{
  ℕ, ◌+◌, ◌%◌, ◌≤◌, ◌≡◌, refl, ap, ◌∙◌, Text, ℤ, pos, negsuc, arith, [], is_empty, inl, inr,
  Bool-cases,
}
use heliograph_relay.Relay.Message.{Time, key, valid_route}
use heliograph_relay.Relay.Store.{Store, queue, expire, expire_leases, take, take_loop, next_lease}
use heliograph_relay.Relay.Leased.{
  take_leased, hold_messages, grant_lease, hold_loop, split_lease, ack, is_blank,
}
use heliograph_relay.Relay.Frame.{
  SameCounters, SameCounters-trans, current-SameCounters, settle_queue-SameCounters,
  set_queue-SameCounters,
}

SameCounters-refl : (s : Store) → SameCounters s s
SameCounters-refl s = record { ids = refl; leases = refl; epoch = refl; max = refl; ttl = refl }

-- All but the lease counter.
pub record SameSettings (s t : Store) : Type 0 where
  pub ids : t.ids ≡ s.ids
  pub epoch : t.epoch ≡ s.epoch
  pub max : t.max ≡ s.max
  pub ttl : t.ttl ≡ s.ttl

pub take-SameCounters :
    (now : Time) (estate station dir : Text) (limit : ℤ) (s : Store)
    → SameCounters s (take now estate station dir limit s).0
unfolding take
take-SameCounters now estate station dir limit s =
    let k = key estate station dir in
    let s₁ = expire_leases k now (expire k now s) in
    let (taken, kept) = take_loop limit [] [] (queue k s₁) in
    let same₁ = current-SameCounters k now s in
    elim (Bool-cases (valid_route estate station dir)) [
      | inr bad ↦ rw bad (SameCounters-refl s)
      | inl good ↦ elim (Bool-cases (is_empty taken)) [
        | inl nothing ↦ rw (good, nothing) same₁
        | inr something ↦
            rw (good, something)
              (SameCounters-trans s s₁ _ same₁ (settle_queue-SameCounters k taken kept s₁))
      ]
    ]

pub ack-SameCounters :
    (now : Time) (estate station dir id : Text) (s : Store)
    → SameCounters s (ack now estate station dir id s).0
unfolding ack
ack-SameCounters now estate station dir id s =
    let k = key estate station dir in
    let s₁ = expire_leases k now (expire k now s) in
    let (acked, kept) = split_lease id (queue k s₁) in
    let same₁ = current-SameCounters k now s in
    elim (Bool-cases (valid_route estate station dir)) [
      | inr bad ↦ rw bad (SameCounters-refl s)
      | inl good ↦ elim (Bool-cases (is_blank id)) [
        | inl blank ↦ rw (good, blank) (SameCounters-refl s)
        | inr named ↦ elim (Bool-cases (is_empty acked)) [
          | inl nothing ↦ rw (good, named, nothing) same₁
          | inr something ↦
              rw (good, named, something)
                (SameCounters-trans s s₁ _ same₁ (settle_queue-SameCounters k acked kept s₁))
        ]
      ]
    ]

grant_lease-SameSettings :
    (now : Time) (k : Text) (limit : ℤ) (d : ℕ) (s : Store)
    → SameSettings s (grant_lease now k limit d s).0
unfolding grant_lease next_lease
grant_lease-SameSettings now k limit d s =
    let (marked, held) = hold_loop limit (next_lease s).1 (now + d) [] (queue k s) in
    ground (arith, set_queue-SameCounters k marked (next_lease s).0)

pub hold_messages-SameSettings :
    (now : Time) (k : Text) (limit : ℤ) (d : ℕ) (s : Store)
    → SameSettings s (hold_messages now k limit d s).0
unfolding hold_messages
hold_messages-SameSettings now k limit d s =
    let s₁ = expire_leases k now (expire k now s) in
    let a = current-SameCounters k now s in
    let b = grant_lease-SameSettings now k limit d s₁ in
    record {
      ids = b.ids ∙ a.ids;
      epoch = b.epoch ∙ a.epoch;
      max = b.max ∙ a.max;
      ttl = b.ttl ∙ a.ttl;
    }

pub take_leased-SameSettings :
    (now : Time) (estate station dir : Text) (limit d : ℤ) (s : Store)
    → SameSettings s (take_leased now estate station dir limit d s).0
unfolding take_leased
take_leased-SameSettings now estate station dir limit (negsuc d) s = ground arith
take_leased-SameSettings now estate station dir limit (pos d) s =
    ground (arith, hold_messages-SameSettings now (key estate station dir) limit d s)

grant_lease-leases :
    (now : Time) (k : Text) (limit : ℤ) (d : ℕ) (s : Store)
    → (grant_lease now k limit d s).0.leases ≡ (s.leases + 1) % 18446744073709551616
unfolding grant_lease next_lease
grant_lease-leases now k limit d s =
    let (marked, held) = hold_loop limit (next_lease s).1 (now + d) [] (queue k s) in
    ground (arith, set_queue-SameCounters k marked (next_lease s).0)

pub hold_messages-leases :
    (now : Time) (k : Text) (limit : ℤ) (d : ℕ) (s : Store)
    → (hold_messages now k limit d s).0.leases ≡ (s.leases + 1) % 18446744073709551616
unfolding hold_messages
hold_messages-leases now k limit d s =
    grant_lease-leases now k limit d (expire_leases k now (expire k now s))
    ∙ ap (λ (n : ℕ). (n + 1) % 18446744073709551616) (current-SameCounters k now s).leases

-- TakeLeased moves the lease counter by one at most.
pub take_leased-leases-le :
    (now : Time) (estate station dir : Text) (limit d : ℤ) (s : Store)
    → (take_leased now estate station dir limit d s).0.leases ≤ s.leases + 1
unfolding take_leased
take_leased-leases-le now estate station dir limit (negsuc d) s = ground arith
take_leased-leases-le now estate station dir limit (pos d) s =
    ground (arith, hold_messages-leases now (key estate station dir) limit d s)
