-- ===== src/Conformance/Calls.antt =====
-- What each collection of the suite, and each call that is refused, does to a relay that keeps its messages on a disk where nothing fails.
use mathlib.Core.Path.{subst}
use heliograph_relay.Common.{
  ℕ, ◌+◌, ◌*◌, ◌≤◌, ◌<◌, ◌≡◌, refl, sym, ap, ◌∙◌, true, false, List, [], map, All, Text, same, pos,
}
use heliograph_relay.Relay.Message.{Message, Time, key, valid_dir, valid_route}
use heliograph_relay.Relay.Store.{Store, queue, take}
use heliograph_relay.Relay.Counters.{take-SameCounters}
use heliograph_relay.Relay.Isolation.{take-other}
use heliograph_relay.Spool.Disk.{Codec}
use heliograph_relay.Auth.Types.{Reason, refusal}
use heliograph_relay.Auth.Scoped.{Authoriser}
use heliograph_relay.Server.Put.{put_handler}
use heliograph_relay.Server.LeaseParam.{Floats}
use heliograph_relay.Server.Get.{read_request, get_handler}
use heliograph_relay.Server.Answers.{put_grant}
use heliograph_relay.Server.Reply.{token, refuse}
use heliograph_relay.Server.Collecting.{Waits, take_all, take_all-queue, get_handler-Collected}
use heliograph_relay.Server.Service.{serve}
use heliograph_relay.Recovery.Calls.{take-Mirrored}
use heliograph_relay.Conformance.Client.{Msg, Refusal, Content}
use heliograph_relay.Server.Admitting.{valid_route-dir}
use heliograph_relay.Conformance.Ready.{
  Collects, Calm, Keeps, hour, queue_at, Ready, later, moved_unwritten,
}
use heliograph_relay.Conformance.Client
use heliograph_relay.Conformance.Machine.{
  Bench, Machine, machine, send, bearer, route, msg_of, idle, content_of,
}

-- One call, the relay's number `n`, on a route.
module _ (c : Codec) (fl : Floats) (auth : Authoriser) (b : Bench auth.State)
    (Sane : auth.State → Type 0) (keeps : Keeps auth Sane) (begin file : ℕ)
    (calm : Calm b begin file) (estate station dir : Text)
    (valid : valid_route estate station dir ≡ true) (n : ℕ) (w : Machine auth.State) (few : n < 100)
    (h : Ready c Sane begin file n w) where
  abbrev Next : Machine auth.State → Type 0
  Next = Ready c Sane begin file (n + 1)

  -- Every queue but the route's is as it was.
  abbrev pub Elsewhere : Machine auth.State → Type 0
  Elsewhere w' =
      (j : Text)
      → same (key estate station dir) j ≡ false
      → queue j w'.server.store ≡ queue j w.server.store

  right : valid_dir dir ≡ true
  right = valid_route-dir estate station dir valid

  abbrev instant : Time
  instant = w.now + b.lag w.sends

  soon : (begin ≤ instant) × (instant ≤ begin + (n + 1) * hour)
  soon = later c b Sane begin file n calm w h

  module _ (tok : Text) (ms : List Message) (allowed : Collects auth Sane estate dir tok)
      (waits : All (Waits instant w.server.store) ms)
      (waiting : queue_at estate station dir w ≡ ms) where
    abbrev collected : Machine auth.State × (ℕ × List Msg)
    collected = Client.take (machine c fl auth b) estate station dir tok w

    abbrev taken : Store
    taken = (take instant estate station dir (pos 0) w.server.store).0

    handed :
        (collected.1 ≡ (200, map msg_of ms))
        × (collected.0.server.store ≡ taken)
        × Sane collected.0.server.auth
        × (collected.0.now ≡ instant)
    unfolding Client.take send serve
    handed =
        let r = route estate station dir in
        let credential = token (bearer tok) in
        let (reply, store, st) =
          get_handler-Collected auth fl instant r (idle (instant + w.server.wait)) w.server.store ms
            (take_all instant r w.server.store ms valid waits waiting) credential w.server.auth
            right (allowed w.server.auth instant station valid h.sane) in
        (
          ap (λ a. (a.code, Client.read_array (content_of b.stamp a.body))) reply,
          store,
          subst Sane (sym st) (keeps w.server.auth instant _ h.sane),
          refl,
        )

    collected-Ready : Next collected.0
    collected-Ready =
        let (_, store, sane, clock) = handed in
        let counters = take-SameCounters instant estate station dir (pos 0) w.server.store in
        moved_unwritten c b Sane begin file n calm w h collected.0 taken store sane clock
          (take-Mirrored c (file + n) instant estate station dir (pos 0) w.server.store h.mirrored)
          (counters.ttl, counters.max)

    -- All that waits is handed over and gone; no other queue changes.
    pub take_step :
        (collected.1 ≡ (200, map msg_of ms))
        × Next collected.0
        × (queue_at estate station dir collected.0 ≡ [])
        × Elsewhere collected.0
    take_step =
        let (answer, store, _, _) = handed in
        (
          answer,
          collected-Ready,
          ap (queue (key estate station dir)) store
              ∙ take_all-queue instant (route estate station dir) w.server.store ms valid waits
                  waiting,
          λ j apart.
              ap (queue j) store
              ∙ take-other j instant estate station dir apart (pos 0) w.server.store,
        )

  module _ (tok : Text) (why : Reason) where
    -- The answer to a call that is refused; the queues stay.
    abbrev pub Declined : {A : Type 0} → (Content → A) → Machine auth.State × (ℕ × A) → Type 0
    Declined read r =
        let reply = refuse (refusal why) in
        (r.1 ≡ (reply.code, read (content_of b.stamp reply.body)))
        × Next r.0
        × ((j : Text) → queue j r.0.server.store ≡ queue j w.server.store)

    pub put_refused :
        (seq : ℕ) (body : Text)
        → (put_grant auth instant
            (token (bearer tok))
            (route estate station dir)
            (pos (b.size seq body))
            w.server.auth).1
          ≡ refusal why
        → Declined Client.read_refusal
            (Client.put_r (machine c fl auth b) estate station dir tok seq body w)
    unfolding Client.put_r send serve put_handler
    put_refused seq body denied =
        let (w', _) = Client.put_r (machine c fl auth b) estate station dir tok seq body w in
        rw (valid_route-dir estate station dir valid, denied)
          (
            refl,
            moved_unwritten c b Sane begin file n calm w h _ w.server.store refl
                (keeps w.server.auth instant _ h.sane) refl h.mirrored (refl, refl),
            λ j. refl,
          )

    pub take_refused :
        (auth.admit w.server.auth instant
            (read_request auth instant (token (bearer tok)) (route estate station dir))).1
          ≡ refusal why
        → Declined Client.read_array (Client.take (machine c fl auth b) estate station dir tok w)
    unfolding Client.take send serve get_handler
    take_refused denied =
        rw (valid_route-dir estate station dir valid, denied)
          (
            refl,
            moved_unwritten c b Sane begin file n calm w h _ w.server.store refl
                (keeps w.server.auth instant _ h.sane) refl h.mirrored (refl, refl),
            λ j. refl,
          )
