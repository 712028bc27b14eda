-- ===== src/Conformance/LeaseCalls.antt =====
-- What a collection under a lease and an acknowledgement do to the relay, and a collection whatever
-- it finds.
use mathlib.Core.Path.{subst}
use heliograph_relay.Common.{ℕ, ◌+◌, ◌≡◌, refl, sym, ap, true, some, List, map, Text, pos, ℤ, ltb_ℤ}
use heliograph_relay.Relay.Message.{Message, Time, Result, ok, err, valid_route}
use heliograph_relay.Relay.Store.{Store, take}
use heliograph_relay.Relay.Leased.{Lease, take_leased, ack}
use heliograph_relay.Relay.Counters.{take-SameCounters, ack-SameCounters, take_leased-SameSettings}
use heliograph_relay.Spool.Disk.{Codec}
use heliograph_relay.Auth.Types.{Grant, Reason, refusal}
use heliograph_relay.Auth.Scoped.{Authoriser}
use heliograph_relay.Server.Reply.{token, refuse}
use heliograph_relay.Server.LeaseParam.{Floats, parse_lease}
use heliograph_relay.Server.Get.{read_request, ack_admitted, ack_handler, ack_refusal}
use heliograph_relay.Server.Collecting.{get_handler-Collected, get_handler-Leased}
use heliograph_relay.Server.Admitting.{valid_route-dir}
use heliograph_relay.Server.Service.{serve}
use heliograph_relay.Recovery.Calls.{take-Mirrored, ack-Mirrored, take_leased-Mirrored}
use heliograph_relay.Conformance.Client.{Msg, LeaseReply}
use heliograph_relay.Conformance.Client
use heliograph_relay.Conformance.Machine.{
  Bench, Machine, machine, send, bearer, route, msg_of, until_text, idle, content_of,
}
use heliograph_relay.Conformance.Ready.{Collects, DeniesRead, Calm, Keeps, Ready, moved_unwritten}

module _ (c : Codec) (fl : Floats) (auth : Authoriser) (b : Bench auth.State)
    (Sane : auth.State → Type 0) (keeps : Keeps auth Sane) (begin file : ℕ)
    (calm : Calm b begin file) (estate station dir : Text)
    (valid : valid_route estate station dir ≡ true) (n : ℕ) (w : Machine auth.State)
    (h : Ready c Sane begin file n w) (tok : Text) where
  abbrev instant : Time
  instant = w.now + b.lag w.sends

  -- The relay after a call that leaves this store.
  abbrev pub Left : Store → Machine auth.State → Type 0
  Left s w' = Ready c Sane begin file (n + 1) w' × (w'.server.store ≡ s) × (w'.now ≡ instant)

  module _ (allowed : Collects auth Sane estate dir tok) where
    admitted :
        (auth.admit w.server.auth instant
          (read_request auth instant (token (bearer tok)) (route estate station dir))).1.allow
        ≡ true
    admitted = allowed w.server.auth instant station valid h.sane

    -- A collection without a lease, whatever Take gives.
    module _ (ms : List Message)
        (found : (take instant estate station dir (pos 0) w.server.store).1 ≡ ok ms) where
      pub plain_call :
          let r = Client.take (machine c fl auth b) estate station dir tok w in
          (r.1 ≡ (200, map msg_of ms))
          × Left (take instant estate station dir (pos 0) w.server.store).0 r.0
      unfolding Client.take send serve
      plain_call =
          let s = w.server.store in
          let counters = take-SameCounters instant estate station dir (pos 0) s in
          let (reply, store, st) =
            get_handler-Collected auth fl instant (route estate station dir)
              (idle (instant + w.server.wait)) s ms found (token (bearer tok)) w.server.auth
              (valid_route-dir estate station dir valid) admitted in
          (
            ap (λ a. (a.code, Client.read_array (content_of b.stamp a.body))) reply,
            (
              moved_unwritten c b Sane begin file n calm w h _ _ store
                  (subst Sane (sym st) (keeps w.server.auth instant _ h.sane)) refl
                  (take-Mirrored c (file + n) instant estate station dir (pos 0) s h.mirrored)
                  (counters.ttl, counters.max),
              store,
              refl,
            ),
          )

    module _ (v : Text) (d : ℤ) (l : Lease) (asked : parse_lease fl v ≡ ok d)
        (positive : ltb_ℤ (pos 0) d ≡ true)
        (found : (take_leased instant estate station dir (pos 0) d w.server.store).1 ≡ ok l) where
      pub leased_call :
          let r = Client.take_leased (machine c fl auth b) estate station dir tok v w in
          (r.1 ≡ (
            200,
            record { lease = l.id; until = until_text b.stamp l; messages = map msg_of l.messages },
          ))
          × Left (take_leased instant estate station dir (pos 0) d w.server.store).0 r.0
      unfolding Client.take_leased send serve
      leased_call =
          let s = w.server.store in
          let settings = take_leased-SameSettings instant estate station dir (pos 0) d s in
          let (reply, store, st) =
            get_handler-Leased auth fl instant (route estate station dir)
              (idle (instant + w.server.wait)) s v d l asked positive found (token (bearer tok))
              w.server.auth (valid_route-dir estate station dir valid) admitted in
          (
            ap (λ a. (a.code, Client.read_lease (content_of b.stamp a.body))) reply,
            (
              moved_unwritten c b Sane begin file n calm w h _ _ store
                  (subst Sane (sym st) (keeps w.server.auth instant _ h.sane)) refl
                  (take_leased-Mirrored c (file + n) instant estate station dir (pos 0) d s
                    h.mirrored)
                  (settings.ttl, settings.max),
              store,
              refl,
            ),
          )

    -- What an acknowledgement is answered with.
    abbrev pub acked : Result ℕ → ℕ × ℕ
    acked (ok k) = (200, k)
    acked (err e) =
        let a = refuse (ack_refusal e) in (a.code, Client.read_deleted (content_of b.stamp a.body))

    module _ (id : Text) where
      abbrev after : Store
      after = (ack instant estate station dir id w.server.store).0

      ack_admitted-Answered :
          (result : Result ℕ) (g : Grant) (st : auth.State)
          → (ack instant estate station dir id w.server.store).1 ≡ result
          → let d =
              ack_admitted auth instant g (route estate station dir) (some id) w.server.store st in
            ((d.reply.code, Client.read_deleted (content_of b.stamp d.reply.body)) ≡ acked result)
            × (d.store ≡ after)
            × (d.auth ≡ st)
      unfolding ack_admitted
      ack_admitted-Answered (ok k) g st found = rw (ack_admitted, found) (refl, refl, refl)
      ack_admitted-Answered (err e) g st found = rw (ack_admitted, found) (refl, refl, refl)

      pub ack_call :
          (result : Result ℕ)
          → (ack instant estate station dir id w.server.store).1 ≡ result
          → let r = Client.ack (machine c fl auth b) estate station dir tok id w in
            (r.1 ≡ acked result) × Left after r.0
      unfolding Client.ack send serve ack_handler
      ack_call result found =
          let s = w.server.store in
          let (st', g) =
            auth.admit w.server.auth instant
              (read_request auth instant (token (bearer tok)) (route estate station dir)) in
          let counters = ack-SameCounters instant estate station dir id s in
          let (reply, store, st) = ack_admitted-Answered result g st' found in
          rw (valid_route-dir estate station dir valid, admitted)
            (
              reply,
              (
                moved_unwritten c b Sane begin file n calm w h _ after store
                    (subst Sane (sym st) (keeps w.server.auth instant _ h.sane)) refl
                    (ack-Mirrored c (file + n) instant estate station dir id s h.mirrored)
                    (counters.ttl, counters.max),
                store,
                refl,
              ),
            )

  -- An acknowledgement that the authoriser refuses.
  pub ack_refused :
      (id : Text) (why : Reason)
      → DeniesRead auth Sane estate dir tok why
      → let r = Client.ack (machine c fl auth b) estate station dir tok id w in
        (r.1.0 ≡ (refuse (refusal why)).code) × Left w.server.store r.0
  unfolding Client.ack send serve ack_handler
  ack_refused id why denied =
      rw
        (
          valid_route-dir estate station dir valid,
          denied w.server.auth instant station valid h.sane,
        )
        (
          refl,
          (
            moved_unwritten c b Sane begin file n calm w h _ w.server.store refl
                (keeps w.server.auth instant _ h.sane) refl h.mirrored (refl, refl),
            refl,
            refl,
          ),
        )
