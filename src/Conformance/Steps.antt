-- ===== src/Conformance/Steps.antt =====
-- What each call of the suite does to a relay that keeps its messages on a disk where nothing fails.
use mathlib.Core.Path.{subst}
use heliograph_relay.Common.{
  ℕ, ◌+◌, ◌*◌, ◌≤◌, ◌<◌, ◌≡◌, refl, sym, ap, ◌∙◌, true, false, [], ◌∷◌, has_prefix, Text, same,
  length, pos, arith,
}
use heliograph_relay.Relay.Message.{Message, Time, ok, key, valid_dir, valid_route}
use heliograph_relay.Relay.Store.{queue, put, next_id}
use heliograph_relay.Relay.Isolation.{put-other}
use heliograph_relay.Relay.Accepting
use heliograph_relay.Spool.Disk.{Codec, no_faults}
use heliograph_relay.Auth.Scoped.{Authoriser}
use heliograph_relay.Server.Put.{Decoded, cap, new_message}
use heliograph_relay.Server.LeaseParam.{Floats}
use heliograph_relay.Server.Answers.{put_grant}
use heliograph_relay.Server.Reply.{token}
use heliograph_relay.Server.Sending
use heliograph_relay.Server.Admitting.{valid_route-dir, put_ok, put_handler-Told}
use heliograph_relay.Server.Service.{serve}
use heliograph_relay.Relay.Durability.{made}
use heliograph_relay.Spool.Durable.{Nanosecond}
use heliograph_relay.Recovery.Mirror.{Survives}
use heliograph_relay.Recovery.Settling.{Mirrored}
use heliograph_relay.Recovery.Storing.{Temporary, put-Mirrored}
use heliograph_relay.Conformance.Client.{Msg, Refusal, Content}
use heliograph_relay.Conformance.Ready.{
  Sends, Calm, Keeps, hour, queue_at, Ready, Fresh, later, moved,
}
use heliograph_relay.Conformance.Client
use heliograph_relay.Conformance.Machine.{Bench, Machine, machine, send, bearer, route, posted}

temporary : Temporary no_faults
unfolding has_prefix
temporary = refl

-- One call, the relay's number `n`, on a route.
module _ (c : Codec) (fl : Floats) (auth : Authoriser) (b : Bench auth.State)
    (Sane : auth.State → Type 0) (keeps : Keeps auth Sane) (begin file : ℕ)
    (calm : Calm b begin file) (estate station dir : Text)
    (valid : valid_route estate station dir ≡ true) (n : ℕ) (w : Machine auth.State) (few : n < 100)
    (h : Ready c Sane begin file n w) where
  abbrev Next : Machine auth.State → Type 0
  Next = Ready c Sane begin file (n + 1)

  -- Every queue but the route's is as it was.
  abbrev pub Elsewhere : Machine auth.State → Type 0
  Elsewhere w' =
      (j : Text)
      → same (key estate station dir) j ≡ false
      → queue j w'.server.store ≡ queue j w.server.store

  right : valid_dir dir ≡ true
  right = valid_route-dir estate station dir valid

  abbrev instant : Time
  instant = w.now + b.lag w.sends

  soon : (begin ≤ instant) × (instant ≤ begin + (n + 1) * hour)
  soon = later c b Sane begin file n calm w h

  module _ (tok : Text) (seq : ℕ) (body : Text) (allowed : Sends auth Sane estate dir tok)
      (vacant : queue_at estate station dir w ≡ []) (small : length body ≤ 1024)
      (survives : (x : Message)
        → x.estate ≡ estate
        → x.station ≡ station
        → x.dir ≡ dir
        → Survives c x) where
    abbrev pub Holds : Machine auth.State → Type 0
    Holds w' = (x : Message) × (queue_at estate station dir w' ≡ x ∷ []) × Fresh begin seq body x

    abbrev m : Message
    m = new_message (route estate station dir) seq body

    stored : (put c no_faults instant m w.server.store).1 ≡ ok tt
    stored = put_ok c instant m w.server.store valid (omega arith) vacant (omega (arith, h.max))

    fitting :
        (limit : ℕ)
        → b.size seq body ≤ limit
        → posted c fl auth b seq body limit ≡ Decoded.message seq body
    fitting limit le = ground arith

    abbrev sent : Machine auth.State × (ℕ × Refusal)
    sent = Client.put_r (machine c fl auth b) estate station dir tok seq body w

    told :
        (sent.1.0 ≡ 202)
        × (sent.0.server.store ≡ (put c no_faults instant m w.server.store).0)
        × Sane sent.0.server.auth
    unfolding Client.put_r send serve
    told =
        let size = pos (b.size seq body) in
        let (admitted, wide) = allowed w.server.auth instant station size valid h.sane in
        let g =
          (put_grant auth instant (token (bearer tok)) (route estate station dir) size
            w.server.auth).1 in
        let whole : posted c fl auth b seq body (cap g + 1024) ≡ Decoded.message seq body =
          fitting (cap g + 1024) (omega (arith, calm.compact seq body, wide)) in
        let (reply, store, st) =
          put_handler-Told c auth instant (route estate station dir) seq body w.server.store stored
            (token (bearer tok)) size (posted c fl auth b seq body) w.server.auth right admitted
            whole (omega (arith, wide)) in
        (ap (λ a. a.code) reply, store, subst Sane (sym st) (keeps w.server.auth instant _ h.sane))

    sent-now : sent.0.now ≡ instant
    unfolding Client.put_r send serve
    sent-now = refl

    put_kept : Mirrored c (file + (n + 1)) (put c no_faults instant m w.server.store).0
    put_kept =
        let range : Nanosecond instant =
          (omega (arith, soon.0, calm.early), omega (arith, soon.1, calm.late)) in
        let room : (file + n) + 1 < 18446744073709551616 = omega (arith, calm.numbers) in
        let writing : Temporary no_faults = temporary in
        subst (λ i. Mirrored c i (put c no_faults instant m w.server.store).0) (omega arith)
          (put-Mirrored c no_faults instant m w.server.store (file + n) h.mirrored room writing refl
            refl range (survives (made instant m w.server.store) refl refl refl))

    alone :
        Sending.Alone c no_faults auth instant
          (route estate station dir)
          seq
          body
          w.server.store
          (put c no_faults instant m w.server.store).0
    alone =
        Sending.put-Alone c no_faults auth instant (route estate station dir) seq body
          w.server.store vacant stored

    sent-Ready : Next sent.0
    sent-Ready =
        let (_, store, sane) = told in
        let (_, _, ttl, max, _) = alone in
        moved c b Sane begin file n calm w h sent.0 _ store sane sent-now put_kept (ttl, max)

    sent-Holds : Holds sent.0
    unfolding next_id
    sent-Holds =
        let (name, _, _, _, e) = alone in
        (
          Accepting.stored instant m (next_id w.server.store).1 name,
          ap (queue (key estate station dir)) (told.1) ∙ e,
          record { seq_eq = refl; body_eq = refl; named = refl; free = refl; arrived = soon.0 },
        )

    -- The message is told to be accepted, and waits alone; no other queue changes.
    pub put_step : (sent.1.0 ≡ 202) × Next sent.0 × Holds sent.0 × Elsewhere sent.0
    put_step = (
      told.0,
      sent-Ready,
      sent-Holds,
      λ j apart.
          ap (queue j) (told.1)
          ∙ put-other j instant estate station dir apart c no_faults m w.server.store refl,
    )
