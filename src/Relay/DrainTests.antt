-- ===== src/Relay/DrainTests.antt =====
-- Two messages, collected one at a time.
use heliograph_relay.Common.{◌+◌, ◌≡◌, refl, [], length, pos, arith, lookup, insert, same, decimal}
use heliograph_relay.Relay.Message.{key, valid_route}
use heliograph_relay.Relay.Store.{
  new_store, expire, split_expired, queue, set_queue, next_id, accept, written, enqueue, put,
  release, release_all,
}
use heliograph_relay.Relay.Frame.{current}
use heliograph_relay.Relay.Steps.{step, run}
use heliograph_relay.Relay.Draining.{free, rounds, take_drains}
use heliograph_relay.Relay.Tests.{e, st, dir, noon, two, two-Valid, valid}

two_free : length (free (current (key e st dir) (noon + 1) two)) ≡ 2
unfolding run step put expire split_expired queue set_queue next_id accept written enqueue lookup
    insert key valid_route same decimal new_store current release release_all
two_free = refl

take_drains_example :
    ((rounds (noon + 1) e st dir (pos 1) 2 two).1 ≡ free (current (key e st dir) (noon + 1) two))
    × (free (current (key e st dir) (noon + 1) (rounds (noon + 1) e st dir (pos 1) 2 two).0) ≡ [])
take_drains_example =
    take_drains (noon + 1) e st dir (pos 1) valid 2 two two-Valid (omega (arith, two_free))
