-- ===== src/Conformance/Returning.antt =====
-- The suite's section on a lease that is abandoned, against a relay with a spool.
use mathlib.Core.Path.{subst}
use heliograph_relay.Recovery.Settling.{Mirrored}
use heliograph_relay.Recovery.Storing.{Mirrored-raise}
use heliograph_relay.Relay.Leased.{take_leased}
use heliograph_relay.Common.{
  ℕ, ◌+◌, ◌≤◌, ◌<◌, ◌≡◌, refl, ap, ◌∙◌, true, false, [], ◌∷◌, Text, bytes, is_empty, arith, pos,
  same, same_refl, map,
}
use heliograph_relay.Relay.Message.{Message, key, valid_route}
use heliograph_relay.Relay.Store.{Store, next_lease, queue}
use heliograph_relay.Relay.Leased.{Lease}
use heliograph_relay.Relay.Holding.{mark}
use heliograph_relay.Relay.Single.{
  lease_on, lease_one, lease_one-queue, lapsed, lease_again, lease_renewed,
}
use heliograph_relay.Spool.Disk.{Codec}
use heliograph_relay.Auth.Scoped.{Authoriser, c2s}
use heliograph_relay.Server.LeaseParam.{Floats}
use heliograph_relay.Recovery.Mirror.{Survives}
use heliograph_relay.Conformance.Client.{Target, LeaseReply, Result}
use heliograph_relay.Conformance.Client
use heliograph_relay.Conformance.Durability.{report, count_results}
use heliograph_relay.Conformance.Leasing.{dying_station, lease_returns}
use heliograph_relay.Conformance.LeaseCalls
use heliograph_relay.Conformance.LeaseTerms.{
  half_minute, Reads, thirty_seconds, one_second, granted-full,
}
use heliograph_relay.Conformance.Machine.{Bench, Machine, machine, until_text, msg_of}
use heliograph_relay.Conformance.Passing.{Judges}
use heliograph_relay.Conformance.Stations.{valid_route-suffix}
use heliograph_relay.Conformance.Steps
use heliograph_relay.Conformance.Ready.{Calm, Keeps, queue_at, Ready, Fresh, later}

module _ (c : Codec) (fl : Floats) (auth : Authoriser) (b : Bench auth.State) (t : Target)
    (Sane : auth.State → Type 0) (keeps : Keeps auth Sane) (judges : Judges auth Sane t)
    (begin file : ℕ) (calm : Calm b begin file) (thirty : Reads fl (bytes "30") half_minute)
    (one : Reads fl (bytes "1") 1000000000) (uniq : Text) (named : is_empty t.estate ≡ false)
    (survives_on : (x : Message)
      → x.estate ≡ t.estate
      → x.station ≡ dying_station uniq
      → x.dir ≡ c2s
      → Survives c x) where
  abbrev relay : Client.Peer (Machine auth.State)
  relay = machine c fl auth b

  abbrev station : Text
  station = dying_station uniq

  abbrev hour_of_capture : Text
  hour_of_capture = bytes "an hour of capture"

  valid : valid_route t.estate station c2s ≡ true
  valid = valid_route-suffix t.estate uniq b'-' (bytes "dying") named

  abbrev At : ℕ → Machine auth.State → Type 0
  At = Ready c Sane begin file

  abbrev slept : Machine auth.State → Machine auth.State
  slept w = record w { now = w.now + 1500000000 }

  -- A second and a half passes.
  slept-Ready : (n : ℕ) (w : Machine auth.State) → At n w → At (n + 1) (slept w)
  slept-Ready n w h = record {
    sane = h.sane;
    mirrored =
        subst (λ i. Mirrored c i w.server.store) (omega arith)
          (Mirrored-raise c (file + n) w.server.store h.mirrored);
    ttl = h.ttl;
    max = h.max;
    after = omega (arith, h.after);
    before = omega (arith, h.before);
  }

  module _ (n : ℕ) (few : n < 90) (w : Machine auth.State) (h : At n w) (x : Message)
      (alone : queue_at t.estate station c2s w ≡ x ∷ [])
      (fresh : Fresh begin 9 hour_of_capture x) where
    abbrev instant : ℕ
    instant = w.now + b.lag w.sends

    abbrev l : Lease
    l = lease_on instant 1000000000 w.server.store x

    abbrev y : Message
    y = mark l.id l.until x

    abbrev first : Machine auth.State × (ℕ × LeaseReply)
    first = Client.take_leased relay t.estate station c2s t.station_tok (bytes "1s") w

    abbrev woken : Machine auth.State
    woken = slept first.0

    abbrev again : Machine auth.State × (ℕ × LeaseReply)
    again = Client.take_leased relay t.estate station c2s t.station_tok (bytes "30s") woken

    abbrev l' : Lease
    l' = lease_on (woken.now + b.lag woken.sends) half_minute woken.server.store (lapsed y)

    abbrev reply : Lease → Message → LeaseReply
    reply g m = record {
      lease = g.id;
      until = until_text b.stamp g;
      messages = map msg_of (m ∷ []);
    }

    young : instant ≤ x.arrived + w.server.store.ttl
    young = omega (arith, fresh.arrived, (later c b Sane begin file n calm w h).1, h.ttl)

    abbrev granted_store : Store
    granted_store =
        (take_leased instant t.estate station c2s (pos 0) (pos 1000000000) w.server.store).0

    granted :
        (first.1 ≡ (200, reply l y))
        × At (n + 1) first.0
        × (first.0.server.store ≡ granted_store)
        × (queue_at t.estate station c2s first.0 ≡ y ∷ [])
        × (first.0.now ≡ instant)
    granted =
        let (told, (next, store, clock)) =
          LeaseCalls.leased_call c fl auth b Sane keeps begin file calm t.estate station c2s valid n
            w h t.station_tok judges.station_collects (bytes "1s") (pos 1000000000) l
            (one_second fl one) refl
            (lease_one instant t.estate station c2s w.server.store valid x fresh.free young alone
              1000000000 refl refl) in
        (
          told,
          next,
          store,
          ap (queue (key t.estate station c2s)) store
              ∙ lease_one-queue instant t.estate station c2s w.server.store valid x fresh.free young
                  alone 1000000000 refl refl,
          clock,
        )

    renewed : same (next_lease woken.server.store).1 (next_lease w.server.store).1 ≡ false
    renewed =
        ap (λ (s : Store). same (next_lease s).1 (next_lease w.server.store).1) (granted.2)
        ∙ lease_renewed instant t.estate station c2s w.server.store valid 1000000000 refl refl

    redelivery : again.1 ≡ (200, reply l' (mark l'.id l'.until (lapsed y)))
    redelivery =
        let (_, next, _, waiting, clock) = granted in
        let h₂ = slept-Ready (n + 1) first.0 next in
        let (_, soon) = later c b Sane begin file ((n + 1) + 1) calm woken h₂ in
        let (told, _) =
          LeaseCalls.leased_call c fl auth b Sane keeps begin file calm t.estate station c2s valid
            ((n + 1) + 1) woken h₂ t.station_tok judges.station_collects (bytes "30s")
            (pos half_minute) l' (thirty_seconds fl thirty) refl
            (lease_again (woken.now + b.lag woken.sends) t.estate station c2s woken.server.store
              valid y (granted-full w.server.store) (omega (arith, clock))
              (omega (arith, fresh.arrived, soon, h₂.ttl)) waiting half_minute refl refl) in
        told

  -- Run against this relay, the part of the suite's section on leases in which a lease is abandoned
  -- passes: when the lease has run out, the next collection gets the message again, with the id that it
  -- had and under a lease of another id; and Report counts three passes.
  -- The disk must mirror the queues at first, the section's queue be empty and no system call fail; the
  -- estate have a name; the authoriser judge the suite's credentials as they are meant, each side's
  -- calls admitted and no others; the head of the message survive the codec; the floats read "1" and
  -- "30" as so many seconds; and calls follow one another within the hour, in a time that a spool file
  -- holds, with small file numbers and marshalled bodies.
  pub lease_returns_passes :
      (w : Machine auth.State)
      → At 0 w
      → queue_at t.estate station c2s w ≡ []
      → report (lease_returns relay t uniq w).1 ≡ (record { pass = 3; fail = 0; skipped = 0 }, true)
  unfolding lease_returns Client.put report count_results
  lease_returns_passes w h vacant =
      let (_, h₁, (x, alone, fresh), _) =
        Steps.put_step c fl auth b Sane keeps begin file calm t.estate station c2s valid 0 w
          (omega arith) h t.control 9 hour_of_capture judges.control_sends vacant (omega arith)
          survives_on in
      let w₁ = (Client.put_r relay t.estate station c2s t.control 9 hour_of_capture w).0 in
      let (short, _, _, _, _) = granted (0 + 1) (omega arith) w₁ h₁ x alone fresh in
      let back = redelivery (0 + 1) (omega arith) w₁ h₁ x alone fresh in
      let other = renewed (0 + 1) (omega arith) w₁ h₁ x alone fresh in
      rw (short, back, other, same_refl x.id) refl
