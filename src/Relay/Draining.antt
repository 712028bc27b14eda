-- ===== src/Relay/Draining.antt =====
-- A collector that calls Take again and again: how soon a queue is empty.
use mathlib.Core.Path.{subst}
use heliograph_relay.Common.{
  ℕ, zero, suc, ◌+◌, ◌-◌, ◌≤◌, ◌≡◌, refl, sym, ap, ◌∙◌, true, inl, inr, List, [], ◌∷◌, ◌++◌, Text,
  length, length-append, is_empty, keep, All, ℤ, pos, negsuc, arith,
}
use heliograph_relay.Relay.Message.{Message, Time, Result, ok, err, key, valid_route}
use heliograph_relay.Relay.Store.{Store, queue, reached, take, split_expired, release, release_all}
use heliograph_relay.Relay.Frame.{current}
use heliograph_relay.Relay.Loops.{pick, pick-Merge, pick_full, pick_complete, Held}
use heliograph_relay.Relay.Expiry.{
  fresh, Ordered, split_expired-eq-keep, Merge-All, release-arrived,
}
use heliograph_relay.Relay.Collect.{take-result, take-queue}
use heliograph_relay.Relay.Counters.{take-SameCounters}
use heliograph_relay.Relay.Guarantees.{at_self}
use heliograph_relay.Relay.Invariant.{Valid}

-- The messages that nobody holds.
abbrev pub free : List Message → List Message
free = keep (λ m. is_empty m.lease)

pick-free :
    (limit : ℤ) (n : ℕ) (ms : List Message)
    → (pick limit n ms).0 ++ free (pick limit n ms).1 ≡ free ms
unfolding pick
pick-free limit n [] = refl
pick-free limit n (m ∷ ms) =
    ground (arith, pick-free limit n ms, pick-free limit (n + 1) ms, pick_full limit n ms)

Held-free : (ms : List Message) → All Held ms → free ms ≡ []
Held-free [] h = refl
Held-free (m ∷ ms) h = ground (arith, Held-free ms h.1, h.0)

reached-pos : (limit : ℤ) (n : ℕ) → reached limit n ≡ true → 1 ≤ n
reached-pos (pos l) n h = ground arith
reached-pos (negsuc l) n h = ground arith

-- A round takes at least one message, where one is free.
pick_progress :
    (limit : ℤ) (n : ℕ) (ms : List Message)
    → length (free ms) ≤ n + 1
    → length (free (pick limit 0 ms).1) ≤ n
pick_progress limit n ms h =
    let counted = ap length (pick-free limit 0 ms) in
    let parts = length-append (pick limit 0 ms).0 (free (pick limit 0 ms).1) in
    elim (pick_complete limit 0 ms) [
      | inl full ↦
          omega (arith, reached-pos limit (0 + length (pick limit 0 ms).0) full, counted, parts, h)
      | inr all_held ↦ omega (arith, ap length (Held-free (pick limit 0 ms).1 all_held))
    ]

-- A message that is not due.
abbrev Calm : Time → Time → Message → Type 0
Calm cut now m = (fresh cut m ≡ true) × (release now m ≡ m)

Calm-split_expired :
    (cut now : Time) (ms : List Message) → All (Calm cut now) ms → (split_expired cut ms).1 ≡ ms
unfolding split_expired
Calm-split_expired cut now [] h = refl
Calm-split_expired cut now (m ∷ ms) h = ground (arith, h.0.0)

Calm-release_all :
    (cut now : Time) (ms : List Message) → All (Calm cut now) ms → release_all now ms ≡ ms
unfolding release_all
Calm-release_all cut now [] h = refl
Calm-release_all cut now (m ∷ ms) h = λ i. h.0.1 i ∷ Calm-release_all cut now ms h.1 i

release_twice : (now : Time) (m : Message) → release now (release now m) ≡ release now m
unfolding release
release_twice now m = ground arith

release_all-Calm :
    (cut now : Time) (ms : List Message)
    → All (λ m. fresh cut m ≡ true) ms
    → All (Calm cut now) (release_all now ms)
unfolding release_all
release_all-Calm cut now [] h = tt
release_all-Calm cut now (m ∷ ms) h =
    ((rw (release-arrived now m) h.0, release_twice now m), release_all-Calm cut now ms h.1)

kept-fresh : (cut : Time) (ms : List Message) → All (λ m. fresh cut m ≡ true) (keep (fresh cut) ms)
kept-fresh cut [] = tt
kept-fresh cut (m ∷ ms) = ground (arith, kept-fresh cut ms)

current-Calm :
    (k : Text) (now : Time) (s : Store)
    → Ordered (queue k s)
    → All (Calm (now - s.ttl) now) (current k now s)
unfolding current
current-Calm k now s h =
    rw (split_expired-eq-keep (now - s.ttl) (queue k s) h)
      (release_all-Calm (now - s.ttl) now _ (kept-fresh (now - s.ttl) (queue k s)))

Calm-current :
    (k : Text) (now : Time) (s : Store)
    → All (Calm (now - s.ttl) now) (queue k s)
    → current k now s ≡ queue k s
unfolding current
Calm-current k now s h =
    rw (Calm-split_expired (now - s.ttl) now (queue k s) h)
      (Calm-release_all (now - s.ttl) now (queue k s) h)

empty : (ms : List Message) → length ms ≤ 0 → ms ≡ []
empty [] h = refl
empty (m ∷ ms) h = absurd (omega (arith, h))

abbrev handed : Result (List Message) → List Message
handed (ok ms) = ms
handed (err e) = []

module _ (now : Time) (estate station dir : Text) (limit : ℤ) where
  abbrev k : Text
  k = key estate station dir

  -- `n` calls of Take at one instant: the store afterwards, and all that was handed over.
  unfoldable pub rounds : ℕ → Store → Store × List Message
  unfolding take
  rounds zero s = (s, [])
  rounds (suc n) s =
      let (s', r) = take now estate station dir limit s in
      let (s'', ms) = rounds n s' in (s'', handed r ++ ms)

  module _ (valid : valid_route estate station dir ≡ true) where
    left_over :
        (s : Store)
        → queue k (take now estate station dir limit s).0 ≡ (pick limit 0 (current k now s)).1
    left_over s = take-queue now estate station dir limit s valid k ∙ at_self k _ _

    still-Calm :
        (s : Store)
        → All (Calm (now - s.ttl) now) (current k now s)
        → let s' = (take now estate station dir limit s).0 in
          All (Calm (now - s'.ttl) now) (queue k s')
    still-Calm s h =
        let same_ttl = (take-SameCounters now estate station dir limit s).ttl in
        rw (same_ttl, left_over s)
          (Merge-All (Calm (now - s.ttl) now) (pick-Merge limit 0 (current k now s)) h).1

    rounds_drain :
        (n : ℕ) (s : Store)
        → All (Calm (now - s.ttl) now) (current k now s)
        → length (free (current k now s)) ≤ n
        → ((rounds n s).1 ≡ free (current k now s)) × (free (current k now (rounds n s).0) ≡ [])
    unfolding rounds
    rounds_drain zero s h few =
        let none_free = empty (free (current k now s)) few in (sym none_free, none_free)
    rounds_drain (suc n) s h few =
        let s' = (take now estate station dir limit s).0 in
        let ms = current k now s in
        let calm = still-Calm s h in
        let e : current k now s' ≡ (pick limit 0 ms).1 = Calm-current k now s' calm ∙ left_over s in
        let (a, b) =
          rounds_drain n s'
            (subst (All (Calm (now - s'.ttl) now)) (sym (Calm-current k now s' calm)) calm)
            (rw e (pick_progress limit n ms (omega (arith, few)))) in
        (rw (take-result now estate station dir limit s valid, a, e) (pick-free limit 0 ms), b)

    -- A collector that calls Take as often as there are free messages in its queue is handed all of
    -- them, each once and in their order, whatever limit it gives, and leaves no free message behind.
    -- The store must be one that the operations can make, and all calls fall on one instant.
    pub take_drains :
        (n : ℕ) (s : Store)
        → Valid now s
        → length (free (current k now s)) ≤ n
        → ((rounds n s).1 ≡ free (current k now s)) × (free (current k now (rounds n s).0) ≡ [])
    take_drains n s h few = rounds_drain n s (current-Calm k now s (h k).ordered) few
