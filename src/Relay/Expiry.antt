-- ===== src/Relay/Expiry.antt =====
-- Expiry by age and by lease over a queue whose messages lie in the order of their arrival.
use heliograph_relay.Common.{
  ℕ, ◌+◌, ◌≤◌, ◌<◌, ◌≡◌, refl, Bool, true, not, ◌||◌, List, [], ◌∷◌, Text, is_empty, keep, All, ltb,
  ℤ, arith, Bool-cases, inl, inr,
}
use heliograph_relay.Common.Decimal.{value_from}
use heliograph_relay.Relay.Message.{Message, Time, zero_time}
use heliograph_relay.Relay.Store.{reached, release, release_all, split_expired}
use heliograph_relay.Relay.Loops.{Merge, done, left, right}
use heliograph_relay.Relay.Holding.{mark_queue}

abbrev pub fresh : Time → Message → Bool
fresh cut m = not (ltb m.arrived cut)

-- The counter in a message's id, which is "m" and a decimal.
abbrev pub number : Text → ℕ
number [] = 0
number (c ∷ cs) = value_from 0 cs

-- `x` came later than `m`.
abbrev pub After : Message → Message → Type 0
After m x = (m.arrived ≤ x.arrived) × (number m.id < number x.id)

-- Oldest first.
abbrev pub Ordered : List Message → Type 0
Ordered [] = Unit {0}
Ordered (m ∷ ms) = All (After m) ms × Ordered ms

keep-fresh-All :
    (cut : Time) (m : Message) (ms : List Message)
    → fresh cut m ≡ true
    → All (After m) ms
    → keep (fresh cut) ms ≡ ms
keep-fresh-All cut m [] h a = refl
keep-fresh-All cut m (x ∷ ms) h a = ground (arith, keep-fresh-All cut m ms h a.1)

-- In a queue whose messages lie in the order of arrival the loop of expireLocked drops every
-- message that is too old, and no other.
pub split_expired-eq-keep :
    (cut : Time) (ms : List Message) → Ordered ms → (split_expired cut ms).1 ≡ keep (fresh cut) ms
unfolding split_expired
split_expired-eq-keep cut [] h = refl
split_expired-eq-keep cut (m ∷ ms) h =
    ground (arith, split_expired-eq-keep cut ms h.1, keep-fresh-All cut m ms)

pub release-arrived : (now : Time) (m : Message) → (release now m).arrived ≡ m.arrived
unfolding release
release-arrived now m = ground arith

pub release-id : (now : Time) (m : Message) → (release now m).id ≡ m.id
unfolding release
release-id now m = ground arith

After-release : (now : Time) (m x : Message) → After m x → After (release now m) (release now x)
After-release now m x h =
    rw (release-arrived now m, release-arrived now x, release-id now m, release-id now x) h

After-release_all :
    (now : Time) (m : Message) (ms : List Message)
    → All (After m) ms
    → All (After (release now m)) (release_all now ms)
unfolding release_all
After-release_all now m [] h = tt
After-release_all now m (x ∷ ms) h = (After-release now m x h.0, After-release_all now m ms h.1)

pub release_all-Ordered :
    (now : Time) (ms : List Message) → Ordered ms → Ordered (release_all now ms)
unfolding release_all
release_all-Ordered now [] h = tt
release_all-Ordered now (m ∷ ms) h =
    (After-release_all now m ms h.0, release_all-Ordered now ms h.1)

module _ (limit : ℤ) (id : Text) (until : Time) where
  After-mark_queue :
      (x : Message) (n : ℕ) (ms : List Message)
      → All (After x) ms
      → All (After x) (mark_queue limit id until n ms)
  unfolding mark_queue
  After-mark_queue x n [] h = tt
  After-mark_queue x n (m ∷ ms) h =
      ground (arith, After-mark_queue x n ms h.1, After-mark_queue x (n + 1) ms h.1)

  pub mark_queue-Ordered :
      (n : ℕ) (ms : List Message) → Ordered ms → Ordered (mark_queue limit id until n ms)
  unfolding mark_queue
  mark_queue-Ordered n [] h = tt
  mark_queue-Ordered n (m ∷ ms) h = elim (Bool-cases (not (is_empty m.lease) || reached limit n)) [
    | inl skip ↦ rw skip (After-mark_queue m n ms h.0, mark_queue-Ordered n ms h.1)
    | inr grab ↦ rw grab (After-mark_queue m (n + 1) ms h.0, mark_queue-Ordered (n + 1) ms h.1)
  ]

After-keep :
    (x : Message) (p : Message → Bool) (ms : List Message)
    → All (After x) ms
    → All (After x) (keep p ms)
After-keep x p [] h = tt
After-keep x p (m ∷ ms) h = ground (arith, After-keep x p ms h.1)

pub keep-Ordered : (p : Message → Bool) (ms : List Message) → Ordered ms → Ordered (keep p ms)
keep-Ordered p [] h = tt
keep-Ordered p (m ∷ ms) h = ground (arith, keep-Ordered p ms h.1, After-keep m p ms h.0)

-- A message that nobody holds has no deadline.
abbrev pub Clean : Message → Type 0
Clean m = m.lease ≡ [] → m.lease_until ≡ zero_time

-- What holds of a whole holds of either part.
pub Merge-All {ℓ κ} :
    {A : Type ℓ} (P : A → Type κ) {xs ys zs : List A}
    → Merge xs ys zs
    → All P zs
    → All P xs × All P ys
Merge-All P done h = (tt, tt)
Merge-All P (left m) h = let (a, b) = Merge-All P m h.1 in ((h.0, a), b)
Merge-All P (right m) h = let (a, b) = Merge-All P m h.1 in (a, (h.0, b))

pub Merge-Ordered :
    {xs ys zs : List Message} → Merge xs ys zs → Ordered zs → Ordered xs × Ordered ys
Merge-Ordered done h = (tt, tt)
Merge-Ordered (left {x = x} m) h =
    let (a, b) = Merge-Ordered m h.1 in (((Merge-All (After x) m h.0).0, a), b)
Merge-Ordered (right {y = y} m) h =
    let (a, b) = Merge-Ordered m h.1 in (a, ((Merge-All (After y) m h.0).1, b))
