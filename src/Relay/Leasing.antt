-- ===== src/Relay/Leasing.antt =====
-- What a collection under a lease promises: as good as Take when it is acknowledged in time, and as
-- if it had never been when it is not.
use heliograph_relay.Common.{
  ℕ, ◌+◌, ◌-◌, ◌≤◌, ◌<◌, ◌≡◌, sym, ◌∙◌, ap, true, false, [], Text, keep, All, All-keep, ltb, ℤ, pos,
  ltb_ℤ, arith, ◌≢◌,
}
use heliograph_relay.Relay.Message.{Time, ok, key, valid_route}
use heliograph_relay.Relay.Store.{Store, queue, take, next_lease, release_all}
use heliograph_relay.Relay.Leased.{max_lease, take_leased, ack, is_blank, split_lease}
use heliograph_relay.Relay.Frame.{current}
use heliograph_relay.Relay.Loops.{pick, pick-Merge}
use heliograph_relay.Relay.Holding.{mark_queue, Unnamed}
use heliograph_relay.Relay.Expiry.{
  Ordered, Clean, fresh, split_expired-eq-keep, release_all-Ordered, mark_queue-Ordered,
  keep-Ordered, Merge-Ordered,
}
use heliograph_relay.Relay.Lapse.{lapse, split_lease-later, release_all-Unnamed}
use heliograph_relay.Relay.Exclusion.{pick-mark_queue}
use heliograph_relay.Relay.Guarantees.{at_self}
use heliograph_relay.Relay.Counters.{take_leased-SameSettings, take-SameCounters}
use heliograph_relay.Relay.Collect.{take-result, take-queue, ack-queue, take_leased-queue}

-- What holds of a queue before it is collected from: the order of arrival, no deadline without a
-- lease, and no message under the lease id that comes next.
pub record Ready (k id : Text) (s : Store) : Type 0 where
  pub ordered : Ordered (queue k s)
  pub clean : All Clean (queue k s)
  pub unused : All (Unnamed id) (queue k s)
  pub nonempty : id ≢ []
  pub named : is_blank id ≡ false

-- The store after TakeLeased, and the id that it grants.
abbrev pub leased_store : Time → Text → Text → Text → ℤ → ℕ → Store → Store
leased_store now estate station dir limit d s =
    (take_leased now estate station dir limit (pos d) s).0

abbrev pub granted_id : Store → Text
granted_id s = (next_lease s).1

positive_test : (d : ℕ) → 0 < d → ltb 0 d ≡ true
positive_test d h = ground arith

short_test : (d : ℕ) → d ≤ 300000000000 → ltb_ℤ max_lease (pos d) ≡ false
short_test d h = ground arith

module _ (now later : Time) (estate station dir : Text) (limit : ℤ) (d : ℕ) (s : Store)
    (valid : valid_route estate station dir ≡ true) (positive : 0 < d) (short : d ≤ 300000000000)
    (order : now ≤ later) (ready : Ready (key estate station dir) (granted_id s) s) where
  abbrev k : Text
  k = key estate station dir

  abbrev s' : Store
  s' = leased_store now estate station dir limit d s

  ttl_same : s'.ttl ≡ s.ttl
  ttl_same = (take_leased-SameSettings now estate station dir limit (pos d) s).ttl

  queue_after : queue k s' ≡ mark_queue limit (granted_id s) (now + d) 0 (current k now s)
  queue_after =
      take_leased-queue now estate station dir limit s valid d (positive_test d positive)
        (short_test d short) k
      ∙ at_self k _ _

  current-keep : current k now s ≡ release_all now (keep (fresh (now - s.ttl)) (queue k s))
  unfolding current
  current-keep = rw (split_expired-eq-keep (now - s.ttl) (queue k s) ready.ordered)

  current-Ordered : Ordered (current k now s)
  current-Ordered =
      rw current-keep (release_all-Ordered now _ (keep-Ordered _ (queue k s) ready.ordered))

  -- A collector that never acknowledges loses nothing and reorders nothing: once its lease has
  -- run out, the queue is what it would be had it never collected. The route must be valid, the
  -- lease last from one nanosecond to five minutes, and the queue be in the order of arrival,
  -- with no message under the new lease's id.
  pub lease_abandoned : now + d ≤ later → current k later s' ≡ current k later s
  unfolding current
  lease_abandoned over =
      let ms = mark_queue limit (granted_id s) (now + d) 0 (current k now s) in
      rw
        (
          queue_after,
          ttl_same,
          split_expired-eq-keep (later - s.ttl) (queue k s) ready.ordered,
          split_expired-eq-keep (later - s.ttl) ms
              (mark_queue-Ordered limit (granted_id s) (now + d) 0 _ current-Ordered),
          current-keep,
        )
        (lapse limit (granted_id s) (now + d) now later (now - s.ttl) (later - s.ttl) ready.nonempty
          over order (omega arith) 0 (queue k s) ready.clean)

  abbrev taken_store : Store
  taken_store = (take now estate station dir limit s).0

  current_leased :
      current k later s'
      ≡ release_all later (
          keep
            (fresh (later - s.ttl))
            (mark_queue limit (granted_id s) (now + d) 0 (current k now s)))
  unfolding current
  current_leased =
      rw (queue_after, ttl_same)
        (ap (release_all later) (
          split_expired-eq-keep (later - s.ttl) _
            (mark_queue-Ordered limit (granted_id s) (now + d) 0 _ current-Ordered)))

  current_taken :
      current k later taken_store
      ≡ release_all later (keep (fresh (later - s.ttl)) (pick limit 0 (current k now s)).1)
  unfolding current
  current_taken =
      rw
        (
          take-queue now estate station dir limit s valid k ∙ at_self k _ _,
          (take-SameCounters now estate station dir limit s).ttl,
        )
        (ap (release_all later) (
          split_expired-eq-keep (later - s.ttl) _
            (Merge-Ordered (pick-Merge limit 0 (current k now s)) current-Ordered).1))

  unused_now : All (Unnamed (granted_id s)) (current k now s)
  unused_now = rw current-keep (
      release_all-Unnamed (granted_id s) now _ ready.nonempty
        (All-keep _ _ (queue k s) ready.unused))

  -- A lease that is acknowledged while it runs leaves the queue as Take would have left it, less
  -- what has expired or come free since. The route must be valid, the lease last from one
  -- nanosecond to five minutes, and the queue be in the order of arrival, with no message under
  -- the new lease's id.
  pub lease_acknowledged :
      later < now + d
      → queue k (ack later estate station dir (granted_id s) s').0 ≡ current k later taken_store
  lease_acknowledged running =
      ack-queue later estate station dir limit s' valid (granted_id s) ready.named k
      ∙ at_self k _ _
      ∙ ap (λ ms. (split_lease (granted_id s) ms).1) current_leased
      ∙ split_lease-later limit (granted_id s) (now + d) later (later - s.ttl) ready.nonempty
          running 0 _ unused_now
      ∙ sym current_taken

  -- While a lease runs, another collector is handed what it would be handed if the messages under
  -- the lease had been taken for good. The route must be valid, the lease last from one
  -- nanosecond to five minutes, and the queue be in the order of arrival, with no message under
  -- the new lease's id.
  pub lease_excludes :
      (other : ℤ)
      → later < now + d
      → (take later estate station dir other s').1
        ≡ (take later estate station dir other taken_store).1
  lease_excludes other running =
      take-result later estate station dir other s' valid
      ∙ ap ok (
          rw (current_leased, current_taken)
            (pick-mark_queue limit (granted_id s) (now + d) later (later - s.ttl) ready.nonempty
              running other 0 0 _))
      ∙ sym (take-result later estate station dir other taken_store valid)
