-- ===== src/Conformance/Holding.antt =====
-- The suite's section on a lease that holds its message, from the message sent.
use heliograph_relay.Common.{
  ℕ, ◌+◌, ◌*◌, ◌≤◌, ◌<◌, ◌≡◌, refl, ap, ◌∙◌, true, false, [], ◌∷◌, Text, bytes, is_empty, arith,
  pos, ◌&&◌, ◌==◌, if◌then◌else◌, Bool, suc,
}
use heliograph_relay.Relay.Message.{Message, key, valid_route}
use heliograph_relay.Relay.Store.{queue}
use heliograph_relay.Relay.Leased.{Lease}
use heliograph_relay.Relay.Holding.{mark}
use heliograph_relay.Relay.Single.{lease_on, lease_one, lease_one-queue}
use heliograph_relay.Spool.Disk.{Codec}
use heliograph_relay.Auth.Types.{Reason}
use heliograph_relay.Auth.Scoped.{Authoriser, c2s}
use heliograph_relay.Server.LeaseParam.{Floats}
use heliograph_relay.Recovery.Mirror.{Survives}
use heliograph_relay.Conformance.Client.{Target, LeaseReply, Result}
use heliograph_relay.Conformance.Client
use heliograph_relay.Conformance.Durability.{report, Counts}
use heliograph_relay.Conformance.Leasing.{wanted, held_station, lease_holds, is_leased}
use heliograph_relay.Conformance.LeaseCalls
use heliograph_relay.Conformance.LeaseTerms.{
  half_minute, Reads, thirty_seconds, Brisk, granted-named, granted-full, until_text-full,
}
use heliograph_relay.Conformance.Machine.{Bench, Machine, machine, until_text}
use heliograph_relay.Conformance.Passing.{Judges, report-Passed}
use heliograph_relay.Conformance.Stations.{valid_route-suffix}
use heliograph_relay.Conformance.Steps
use heliograph_relay.Conformance.Leases.{held_by_passes}
use heliograph_relay.Conformance.Leases
use heliograph_relay.Conformance.Ready.{DeniesRead, Calm, Keeps, queue_at, Ready, Fresh, later}

module _ (c : Codec) (fl : Floats) (auth : Authoriser) (b : Bench auth.State) (t : Target)
    (Sane : auth.State → Type 0) (keeps : Keeps auth Sane) (judges : Judges auth Sane t)
    (begin file : ℕ) (calm : Calm b begin file) (brisk : Brisk b)
    (reads : Reads fl (bytes "30") half_minute)
    (foreign : DeniesRead auth Sane t.other_estate c2s t.station_tok Reason.bad_credential)
    (uniq : Text) (named : is_empty t.estate ≡ false)
    (survives_on : (x : Message)
      → x.estate ≡ t.estate
      → x.station ≡ held_station uniq
      → x.dir ≡ c2s
      → Survives c x) where
  abbrev relay : Client.Peer (Machine auth.State)
  relay = machine c fl auth b

  abbrev station : Text
  station = held_station uniq

  valid : valid_route t.estate station c2s ≡ true
  valid = valid_route-suffix t.estate uniq b'-' (bytes "held") named

  -- The lease on the message that was sent, and the relay after it.
  module _ (n : ℕ) (few : n < 90) (w : Machine auth.State) (h : Ready c Sane begin file n w)
      (x : Message) (alone : queue_at t.estate station c2s w ≡ x ∷ [])
      (fresh : Fresh begin 3 wanted x) where
    abbrev instant : ℕ
    instant = w.now + b.lag w.sends

    abbrev l : Lease
    l = lease_on instant half_minute w.server.store x

    abbrev y : Message
    y = mark l.id l.until x

    abbrev called : Machine auth.State × (ℕ × LeaseReply)
    called = Client.take_leased relay t.estate station c2s t.station_tok (bytes "30s") w

    soon : (begin ≤ instant) × (instant ≤ begin + (n + 1) * 3600000000000)
    soon = later c b Sane begin file n calm w h

    young : instant ≤ x.arrived + w.server.store.ttl
    young = omega (arith, fresh.arrived, soon.1, h.ttl)

    granted :
        (called.1 ≡ (
          200,
          Leases.answered c fl auth b t Sane keeps judges begin file calm brisk reads uniq valid
              foreign y
              (granted-full w.server.store)
              (granted-named w.server.store)
              fresh.arrived
              (until_text b.stamp l),
        ))
        × Leases.Held c fl auth b t Sane keeps judges begin file calm brisk reads uniq valid foreign
            y 3
            (n + 1)
            called.0
    granted =
        let (told, (next, store, clock)) =
          LeaseCalls.leased_call c fl auth b Sane keeps begin file calm t.estate station c2s valid n
            w h t.station_tok judges.station_collects (bytes "30s") (pos half_minute) l
            (thirty_seconds fl reads) refl
            (lease_one instant t.estate station c2s w.server.store valid x fresh.free young alone
              half_minute refl refl) in
        (
          told,
          (
            next,
            ap (queue (key t.estate station c2s)) store
                ∙ lease_one-queue instant t.estate station c2s w.server.store valid x fresh.free
                    young alone half_minute refl refl,
            omega (arith, clock),
          ),
        )

    stamped : is_empty (until_text b.stamp l) ≡ false
    stamped = until_text-full b l brisk (omega (arith, soon.0, calm.early))

    judged : let r = called.1 in (r.0 == 200 && is_leased r.1) ≡ true
    judged = rw (granted.0, granted-full w.server.store, stamped) refl

  counted_if :
      (e : Text)
      → ◌≡◌ {A = Counts × Bool}
          (record { pass = suc (if is_empty e then 10 else 11); fail = 0; skipped = 0 }, true)
          (record { pass = if is_empty e then 11 else 12; fail = 0; skipped = 0 }, true)
  counted_if [] = refl
  counted_if (x ∷ e) = refl

  -- Run against this relay, the part of the suite's section on leases in which the lease holds passes:
  -- its message is answered under a lease with a deadline, whole and with its id; while the lease runs no
  -- collection gets it, with a lease or without; its acknowledgement deletes one message, which no
  -- collection gets after that; one more, one of a lease that never was, one without a token and, where
  -- the target has a second estate, one there are refused; and Report counts eleven passes, or twelve.
  -- The disk must mirror the queues at first, the section's queue be empty and no system call fail; the
  -- estate have a name; the authoriser judge the suite's credentials as they are meant, each side's
  -- calls admitted and no others, and refuse one on the other estate; the head of the message survive
  -- the codec; the floats read "30" as thirty seconds; a printed deadline not be empty; and calls follow
  -- one another within a second, in a time that a spool file holds, with small file numbers and
  -- marshalled bodies.
  pub lease_holds_passes :
      (w : Machine auth.State)
      → Ready c Sane begin file 0 w
      → queue_at t.estate station c2s w ≡ []
      → (report (lease_holds relay t uniq w).1.0 ≡ (
        record { pass = if is_empty t.other_estate then 11 else 12; fail = 0; skipped = 0 },
        true,
      ))
        × ((lease_holds relay t uniq w).1.1 ≡ true)
  unfolding lease_holds Client.put
  lease_holds_passes w h vacant =
      let (told, h₁, (x, alone, fresh), _) =
        Steps.put_step c fl auth b Sane keeps begin file calm t.estate station c2s valid 0 w
          (omega arith) h t.control 3 wanted judges.control_sends vacant (omega arith)
          survives_on in
      let w₁ = (Client.put_r relay t.estate station c2s t.control 3 wanted w).0 in
      let (asked, held) = granted (0 + 1) (omega arith) w₁ h₁ x alone fresh in
      let sure = judged (0 + 1) (omega arith) w₁ h₁ x alone fresh in
      let w₂ = (Client.take_leased relay t.estate station c2s t.station_tok (bytes "30s") w₁).0 in
      let (passed, ten) =
        held_by_passes c fl auth b t Sane keeps judges begin file calm brisk reads uniq valid
          foreign (y (0 + 1) (omega arith) w₁ h₁ x alone fresh) (granted-full w₁.server.store)
          (granted-named w₁.server.store) fresh.arrived ((0 + 1) + 1) w₂
          (until_text b.stamp (l (0 + 1) (omega arith) w₁ h₁ x alone fresh)) fresh.body_eq
          fresh.named (omega arith) held in
      rw (told, sure, asked)
        (report-Passed _ ((refl, refl), passed) ∙ rw ten (counted_if t.other_estate), refl)
