-- ===== src/Relay/Frame.antt =====
-- How each step of the store changes the queues: the queue of its own key, and of every other key.
use heliograph_relay.Common.{
  ◌-◌, ◌≡◌, refl, true, List, [], ◌∷◌, Text, same, same_iff, same_refl, lookup-insert, lookup-erase,
  arith, if◌then◌else◌, ◌∙◌, is_empty,
}
use heliograph_relay.Relay.Message.{Message, Time}
use heliograph_relay.Relay.Store.{
  Store, queue, set_queue, drop_durable, split_expired, expire, expire_leases, release_all,
  settle_queue,
}

pub queue-set_queue :
    (j k : Text) (ms : List Message) (s : Store)
    → queue j (set_queue k ms s) ≡ (if same k j then ms else queue j s)
unfolding queue set_queue
queue-set_queue j k [] s = ground (arith, lookup-erase k j s.q)
queue-set_queue j k (m ∷ ms) s = ground (arith, lookup-insert k j (m ∷ ms) s.q)

pub queue-drop_durable :
    (j : Text) (ms : List Message) (s : Store) → queue j (drop_durable ms s) ≡ queue j s
unfolding queue drop_durable
queue-drop_durable j ms s = ground arith

pub split_expired_none :
    (cut : Time) (ms : List Message)
    → is_empty (split_expired cut ms).0 ≡ true
    → (split_expired cut ms).1 ≡ ms
unfolding split_expired
split_expired_none cut [] h = refl
split_expired_none cut (m ∷ ms) h = ground arith

-- Expiry leaves what lies behind the expired messages, and no other queue changes.
pub queue-expire :
    (j k : Text) (now : Time) (s : Store)
    → queue j (expire k now s)
      ≡ (if same k j then (split_expired (now - s.ttl) (queue k s)).1 else queue j s)
unfolding expire
queue-expire j k now s = ground (
  arith,
  queue-set_queue j k (split_expired (now - s.ttl) (queue k s)).1
      (drop_durable (split_expired (now - s.ttl) (queue k s)).0 s),
  queue-drop_durable j (split_expired (now - s.ttl) (queue k s)).0 s,
  split_expired_none (now - s.ttl) (queue k s),
  same_iff k j,
)

pub queue-expire_leases :
    (j k : Text) (now : Time) (s : Store)
    → queue j (expire_leases k now s)
      ≡ (if same k j then release_all now (queue k s) else queue j s)
unfolding expire_leases
queue-expire_leases j k now s = queue-set_queue j k (release_all now (queue k s)) s

pub queue-settle_queue :
    (j k : Text) (gone kept : List Message) (s : Store)
    → queue j (settle_queue k gone kept s) ≡ (if same k j then kept else queue j s)
unfolding settle_queue
queue-settle_queue j k gone kept s =
    queue-drop_durable j gone (set_queue k kept s) ∙ queue-set_queue j k kept s

-- What the queue of a key holds once the messages and the leases that are due have expired.
unfoldable pub current : Text → Time → Store → List Message
current k now s = release_all now (split_expired (now - s.ttl) (queue k s)).1

pub queue-current :
    (j k : Text) (now : Time) (s : Store)
    → queue j (expire_leases k now (expire k now s))
      ≡ (if same k j then current k now s else queue j s)
unfolding current
queue-current j k now s = ground (
  arith,
  queue-expire_leases j k now (expire k now s),
  queue-expire j k now s,
  queue-expire k k now s,
  same_refl k,
)

pub queue-current_self :
    (k : Text) (now : Time) (s : Store)
    → queue k (expire_leases k now (expire k now s)) ≡ current k now s
queue-current_self k now s = ground (arith, queue-current k k now s, same_refl k)

-- The settings and the counters of a store, which no expiry touches.
pub record SameCounters (s t : Store) : Type 0 where
  pub ids : t.ids ≡ s.ids
  pub leases : t.leases ≡ s.leases
  pub epoch : t.epoch ≡ s.epoch
  pub max : t.max ≡ s.max
  pub ttl : t.ttl ≡ s.ttl

pub set_queue-SameCounters :
    (k : Text) (ms : List Message) (s : Store) → SameCounters s (set_queue k ms s)
unfolding set_queue
set_queue-SameCounters k [] s = record {
  ids = refl;
  leases = refl;
  epoch = refl;
  max = refl;
  ttl = refl;
}
set_queue-SameCounters k (m ∷ ms) s = record {
  ids = refl;
  leases = refl;
  epoch = refl;
  max = refl;
  ttl = refl;
}

pub drop_durable-SameCounters : (ms : List Message) (s : Store) → SameCounters s (drop_durable ms s)
unfolding drop_durable
drop_durable-SameCounters ms s = ground arith

pub SameCounters-trans : (s t u : Store) → SameCounters s t → SameCounters t u → SameCounters s u
SameCounters-trans s t u a b = record {
  ids = b.ids ∙ a.ids;
  leases = b.leases ∙ a.leases;
  epoch = b.epoch ∙ a.epoch;
  max = b.max ∙ a.max;
  ttl = b.ttl ∙ a.ttl;
}

pub expire-SameCounters : (k : Text) (now : Time) (s : Store) → SameCounters s (expire k now s)
unfolding expire
expire-SameCounters k now s =
    let (old, rest) = split_expired (now - s.ttl) (queue k s) in
    ground (
      arith,
      drop_durable-SameCounters (split_expired (now - s.ttl) (queue k s)).0 s,
      set_queue-SameCounters k (split_expired (now - s.ttl) (queue k s)).1
          (drop_durable (split_expired (now - s.ttl) (queue k s)).0 s),
    )

pub current-SameCounters :
    (k : Text) (now : Time) (s : Store) → SameCounters s (expire_leases k now (expire k now s))
unfolding expire_leases
current-SameCounters k now s =
    SameCounters-trans s (expire k now s) _ (expire-SameCounters k now s)
      (set_queue-SameCounters k _ (expire k now s))

pub settle_queue-SameCounters :
    (k : Text) (gone kept : List Message) (s : Store) → SameCounters s (settle_queue k gone kept s)
unfolding settle_queue
settle_queue-SameCounters k gone kept s =
    SameCounters-trans s (set_queue k kept s) _ (set_queue-SameCounters k kept s)
      (drop_durable-SameCounters gone (set_queue k kept s))
