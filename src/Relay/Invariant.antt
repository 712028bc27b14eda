-- ===== src/Relay/Invariant.antt =====
-- What holds of every store that the operations make: each message lies in its route's queue, in
-- the order of arrival and of ids, under a lease that this run granted, and no queue is too long.
use heliograph_relay.Common.{
  ℕ, suc, ◌+◌, ◌-◌, ◌≤◌, ◌≡◌, refl, ap, ◌⊎◌, inl, inr, not, ◌&&◌, ◌||◌, List, [], ◌∷◌, ◌++◌, Text,
  length, is_empty, All, ltb, leb, arith, if◌then◌else◌, Bool-cases, ◌≢◌, decimal, ℤ,
}
use heliograph_relay.Relay.Message.{Message, Time, key}
use heliograph_relay.Relay.Store.{Store, queue, split_expired, release, release_all, reached}
use heliograph_relay.Relay.Loops.{Merge, done, left, right, length-Merge}
use heliograph_relay.Relay.Holding.{mark, mark_queue}
use heliograph_relay.Relay.Expiry.{
  number, Ordered, Clean, release_all-Ordered, mark_queue-Ordered, Merge-All, Merge-Ordered,
}
use heliograph_relay.Relay.Frame.{current}

abbrev pub lease_text : Text → ℕ → Text
lease_text epoch n = epoch ++ b'-' ∷ decimal n

-- The counters by which the messages of a store are judged, with the clock.
pub record Marks : Type 0 where
  pub clock : Time
  pub epoch : Text
  pub ids : ℕ
  pub leases : ℕ

abbrev pub Granted : Text → ℕ → Text → Type 0
Granted epoch leases lease = (n : ℕ) × (n ≤ leases) × (lease ≡ lease_text epoch n)

pub record Item (c : Marks) (k : Text) (m : Message) : Type 0 where
  pub routed : key m.estate m.station m.dir ≡ k
  pub past : m.arrived ≤ c.clock
  pub counted : number m.id ≤ c.ids
  pub clean : Clean m
  pub held : (m.lease ≡ []) ⊎ Granted c.epoch c.leases m.lease

pub record Tidy (c : Marks) (max : ℕ) (k : Text) (ms : List Message) : Type 0 where
  pub items : All (Item c k) ms
  pub ordered : Ordered ms
  pub bounded : length ms ≤ max

abbrev pub marks : Time → Store → Marks
marks now s = record { clock = now; epoch = s.epoch; ids = s.ids; leases = s.leases }

abbrev pub Valid : Time → Store → Type 0
Valid now s = (k : Text) → Tidy (marks now s) s.max k (queue k s)

-- Time passes, and the counters grow.
pub Item-mono :
    (c d : Marks) (k : Text) (m : Message)
    → c.clock ≤ d.clock
    → c.epoch ≡ d.epoch
    → c.ids ≤ d.ids
    → c.leases ≤ d.leases
    → Item c k m
    → Item d k m
Item-mono c d k m t e i l h = record {
  routed = h.routed;
  past = omega arith;
  counted = omega arith;
  clean = h.clean;
  held = elim h.held [ inl free ↦ inl free | inr (n, p, q) ↦ inr (n, omega arith, rw (← e) q) ];
}

pub Items-mono :
    (c d : Marks) (k : Text) (ms : List Message)
    → c.clock ≤ d.clock
    → c.epoch ≡ d.epoch
    → c.ids ≤ d.ids
    → c.leases ≤ d.leases
    → All (Item c k) ms
    → All (Item d k) ms
Items-mono c d k [] t e i l h = tt
Items-mono c d k (m ∷ ms) t e i l h =
    (Item-mono c d k m t e i l h.0, Items-mono c d k ms t e i l h.1)

release-Item :
    (c : Marks) (k : Text) (now : Time) (m : Message) → Item c k m → Item c k (release now m)
unfolding release
release-Item c k now m h = elim (Bool-cases (not (is_empty m.lease) && leb m.lease_until now)) [
  | inl due ↦ rw due (record {
    routed = h.routed;
    past = h.past;
    counted = h.counted;
    clean = λ _. refl;
    held = inl refl;
  })
  | inr not_due ↦ rw not_due h
]

release_all-Items :
    (c : Marks) (k : Text) (now : Time) (ms : List Message)
    → All (Item c k) ms
    → All (Item c k) (release_all now ms)
unfolding release_all
release_all-Items c k now [] h = tt
release_all-Items c k now (m ∷ ms) h =
    (release-Item c k now m h.0, release_all-Items c k now ms h.1)

length-release_all : (now : Time) (ms : List Message) → length (release_all now ms) ≡ length ms
unfolding release_all
length-release_all now [] = refl
length-release_all now (m ∷ ms) = ap suc (length-release_all now ms)

pub release_all-Tidy :
    (c : Marks) (max : ℕ) (k : Text) (now : Time) (ms : List Message)
    → Tidy c max k ms
    → Tidy c max k (release_all now ms)
release_all-Tidy c max k now ms h = record {
  items = release_all-Items c k now ms h.items;
  ordered = release_all-Ordered now ms h.ordered;
  bounded = omega (arith, length-release_all now ms, h.bounded);
}

pub Merge-Tidy :
    (c : Marks) (max : ℕ) (k : Text) {xs ys zs : List Message}
    → Merge xs ys zs
    → Tidy c max k zs
    → Tidy c max k ys
Merge-Tidy c max k m h = record {
  items = (Merge-All (Item c k) m h.items).1;
  ordered = (Merge-Ordered m h.ordered).1;
  bounded = omega (arith, length-Merge m, h.bounded);
}

split_expired-Merge :
    (cut : Time) (ms : List Message) → Merge (split_expired cut ms).0 (split_expired cut ms).1 ms
unfolding split_expired
split_expired-Merge cut [] = done
split_expired-Merge cut (m ∷ ms) = elim (Bool-cases (ltb m.arrived cut)) [
  | inl old ↦ rw old (left (split_expired-Merge cut ms))
  | inr young ↦ rw young (Merge-right (m ∷ ms))
]
  where
    Merge-right : (xs : List Message) → Merge [] xs xs
    Merge-right [] = done
    Merge-right (x ∷ xs) = right (Merge-right xs)

pub split_expired-Tidy :
    (c : Marks) (max : ℕ) (k : Text) (cut : Time) (ms : List Message)
    → Tidy c max k ms
    → Tidy c max k (split_expired cut ms).1
split_expired-Tidy c max k cut ms h = Merge-Tidy c max k (split_expired-Merge cut ms) h

pub current-Tidy :
    (c : Marks) (max : ℕ) (k : Text) (now : Time) (s : Store)
    → Tidy c max k (queue k s)
    → Tidy c max k (current k now s)
unfolding current
current-Tidy c max k now s h =
    release_all-Tidy c max k now _ (split_expired-Tidy c max k (now - s.ttl) (queue k s) h)

-- Marking a message under the lease that the counter has just reached.
module _ (c : Marks) (k : Text) (limit : ℤ) (id : Text) (until : Time)
    (granted : Granted c.epoch c.leases id) (nonempty : id ≢ []) where
  mark_queue-Items :
      (n : ℕ) (ms : List Message)
      → All (Item c k) ms
      → All (Item c k) (mark_queue limit id until n ms)
  unfolding mark_queue
  mark_queue-Items n [] h = tt
  mark_queue-Items n (m ∷ ms) h = elim (Bool-cases (not (is_empty m.lease) || reached limit n)) [
    | inl skip ↦ rw skip (h.0, mark_queue-Items n ms h.1)
    | inr grab ↦ rw grab (marked, mark_queue-Items (n + 1) ms h.1)
  ]
    where
      marked : Item c k (mark id until m)
      marked = record {
        routed = h.0.routed;
        past = h.0.past;
        counted = h.0.counted;
        clean = λ e. absurd (nonempty e);
        held = inr granted;
      }

  length-mark_queue :
      (n : ℕ) (ms : List Message) → length (mark_queue limit id until n ms) ≡ length ms
  unfolding mark_queue
  length-mark_queue n [] = refl
  length-mark_queue n (m ∷ ms) =
      ap suc (length-mark_queue (if not (is_empty m.lease) || reached limit n then n else n + 1) ms)

  pub mark_queue-Tidy :
      (max n : ℕ) (ms : List Message)
      → Tidy c max k ms
      → Tidy c max k (mark_queue limit id until n ms)
  mark_queue-Tidy max n ms h = record {
    items = mark_queue-Items n ms h.items;
    ordered = mark_queue-Ordered limit id until n ms h.ordered;
    bounded = omega (arith, length-mark_queue n ms, h.bounded);
  }
