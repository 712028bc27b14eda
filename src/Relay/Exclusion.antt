-- ===== src/Relay/Exclusion.antt =====
-- While a lease runs, whoever else collects sees the queue as if its messages had been taken.
use heliograph_relay.Common.{
  ℕ, ◌+◌, ◌<◌, ◌≡◌, refl, ap, false, not, ◌||◌, List, [], ◌∷◌, Text, is_empty, keep, ℤ, arith,
  Bool-cases, inl, inr, ◌≢◌,
}
use heliograph_relay.Relay.Message.{Message, Time}
use heliograph_relay.Relay.Store.{reached, release, release_all}
use heliograph_relay.Relay.Loops.{pick}
use heliograph_relay.Relay.Holding.{mark_queue}
use heliograph_relay.Relay.Expiry.{fresh}
use heliograph_relay.Relay.Lapse.{release-running}

not_empty : (t : Text) → t ≢ [] → is_empty t ≡ false
not_empty t h = ground arith

module _ (limit : ℤ) (id : Text) (until later cut : Time) (nonempty : id ≢ [])
    (u : later < until) where
  abbrev aged : List Message → List Message
  aged ms = release_all later (keep (fresh cut) ms)

  pub pick-mark_queue :
      (other : ℤ) (c n : ℕ) (ms : List Message)
      → (pick other c (aged (mark_queue limit id until n ms))).0
        ≡ (pick other c (aged (pick limit n ms).1)).0
  unfolding release_all mark_queue pick
  pick-mark_queue other c n [] = refl
  pick-mark_queue other c n (m ∷ ms) =
      elim (Bool-cases (not (is_empty m.lease) || reached limit n)) [
        | inl skip ↦ elim (Bool-cases (fresh cut m)) [
          | inr old ↦ rw (skip, old) (pick-mark_queue other c n ms)
          | inl young ↦
              elim (Bool-cases (not (is_empty (release later m).lease) || reached other c)) [
                | inl passes ↦ rw (skip, young, passes) (pick-mark_queue other c n ms)
                | inr takes ↦
                    rw (skip, young, takes)
                      (ap (◌∷◌ (release later m)) (pick-mark_queue other (c + 1) n ms))
              ]
        ]
        | inr grab ↦ elim (Bool-cases (fresh cut m)) [
          | inr old ↦ rw (grab, old) (pick-mark_queue other c (n + 1) ms)
          | inl young ↦
              rw (grab, young, release-running id until later m u, not_empty id nonempty)
                (pick-mark_queue other c (n + 1) ms)
        ]
      ]
