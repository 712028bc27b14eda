-- ===== src/Conformance/Leases.antt =====
-- The section on a lease that is acknowledged, against a relay with a spool.
use heliograph_relay.Common.{
  ℕ, ◌+◌, ◌*◌, ◌≤◌, ◌<◌, ◌≡◌, refl, ap, ◌∙◌, true, false, [], ◌∷◌, map, Text, bytes, same_refl,
  length, is_empty, arith, pos, if◌then◌else◌, Bool-cases, inl, inr, suc, Bool,
}
use heliograph_relay.Relay.Message.{Message, ok, err, no_such_lease, key, valid_route}
use heliograph_relay.Relay.Store.{Store, queue}
use heliograph_relay.Relay.Leased.{is_blank}
use heliograph_relay.Relay.Single.{
  take_held, take_held-queue, lease_held, lease_held-queue, ack_held, ack_held-queue, ack_none,
  ack_none-queue,
}
use heliograph_relay.Spool.Disk.{Codec}
use heliograph_relay.Auth.Types.{Reason, status}
use heliograph_relay.Server.Reply.{refuse}
use heliograph_relay.Server.Get.{ack_refusal}
use heliograph_relay.Auth.Scoped.{Authoriser, c2s}
use heliograph_relay.Server.LeaseParam.{Floats}
use heliograph_relay.Conformance.Client.{Target, LeaseReply}
use heliograph_relay.Conformance.Client
use heliograph_relay.Conformance.Leasing.{wanted, held_station, others_lease, held_by}
use heliograph_relay.Conformance.LeaseCalls
use heliograph_relay.Conformance.LeaseTerms.{half_minute, Reads, thirty_seconds, Brisk}
use heliograph_relay.Conformance.Machine.{Bench, Machine, machine, msg_of}
use heliograph_relay.Conformance.Passing.{Judges, Passed}
use heliograph_relay.Conformance.Calls
use heliograph_relay.Conformance.Stations.{valid_route-suffix}
use heliograph_relay.Conformance.Ready.{DeniesRead, Calm, Keeps, queue_at, Ready, later}

abbrev ten_more : ℕ → ℕ
ten_more n = suc (suc (suc (suc (suc (suc (suc (suc (suc (suc n)))))))))

ten_or_more : (b : Bool) → ten_more (if b then 0 else 1) ≡ (if b then 10 else 11)
ten_or_more true = refl
ten_or_more false = refl

module _ (c : Codec) (fl : Floats) (auth : Authoriser) (b : Bench auth.State) (t : Target)
    (Sane : auth.State → Type 0) (keeps : Keeps auth Sane) (judges : Judges auth Sane t)
    (begin file : ℕ) (calm : Calm b begin file) (brisk : Brisk b)
    (reads : Reads fl (bytes "30") half_minute) (uniq : Text)
    (valid : valid_route t.estate (held_station uniq) c2s ≡ true)
    (foreign : DeniesRead auth Sane t.other_estate c2s t.station_tok Reason.bad_credential) where
  abbrev station : Text
  station = held_station uniq

  abbrev relay : Client.Peer (Machine auth.State)
  relay = machine c fl auth b

  abbrev second : ℕ
  second = 1000000000

  -- A message under a lease that runs for more than `left` calls, before the relay's call `n`.
  abbrev pub Held : Message → ℕ → ℕ → Machine auth.State → Type 0
  Held y left n w =
      Ready c Sane begin file n w
      × (queue_at t.estate station c2s w ≡ y ∷ [])
      × (w.now + left * second < y.lease_until)

  abbrev Emptied : ℕ → Machine auth.State → Type 0
  Emptied n w = Ready c Sane begin file n w × (queue_at t.estate station c2s w ≡ [])

  module _ (y : Message) (held : is_empty y.lease ≡ false) (named : is_blank y.lease ≡ false)
      (arrived : begin ≤ y.arrived) (n : ℕ) (few : n < 100) (w : Machine auth.State) where
    abbrev s : Store
    s = w.server.store

    abbrev instant : ℕ
    instant = w.now + b.lag w.sends

    runs : (left : ℕ) → Held y (left + 1) n w → instant + left * second < y.lease_until
    runs left (h, alone, time) = omega (arith, brisk.quick w.sends, time)

    young : Ready c Sane begin file n w → instant ≤ y.arrived + s.ttl
    young h = omega (arith, arrived, (later c b Sane begin file n calm w h).1, h.ttl)

    running : (left : ℕ) → Held y (left + 1) n w → instant < y.lease_until
    running left h = omega (arith, runs left h)

    -- Another collection under a lease gets nothing.
    held_lease :
        (left : ℕ)
        → Held y (left + 1) n w
        → let r = Client.take_leased relay t.estate station c2s t.station_tok (bytes "30s") w in
          (r.1 ≡ (200, record { lease = []; until = []; messages = [] })) × Held y left (n + 1) r.0
    held_lease left h =
        let alone = h.1 in
        let (told, (next, store, clock)) =
          LeaseCalls.leased_call c fl auth b Sane keeps begin file calm t.estate station c2s valid n
            w h.0 t.station_tok judges.station_collects (bytes "30s") (pos half_minute) _
            (thirty_seconds fl reads) refl
            (lease_held instant t.estate station c2s s valid y held (running left h) (young h.0)
              alone half_minute refl refl) in
        (
          told,
          (
            next,
            ap (queue (key t.estate station c2s)) store
                ∙ lease_held-queue instant t.estate station c2s s valid y held (running left h)
                    (young h.0) alone half_minute refl refl,
            omega (arith, clock, runs left h),
          ),
        )

    -- So does one without a lease.
    held_take :
        (left : ℕ)
        → Held y (left + 1) n w
        → let r = Client.take relay t.estate station c2s t.station_tok w in
          (r.1 ≡ (200, [])) × Held y left (n + 1) r.0
    held_take left h =
        let alone = h.1 in
        let (told, (next, store, clock)) =
          LeaseCalls.plain_call c fl auth b Sane keeps begin file calm t.estate station c2s valid n
            w h.0 t.station_tok judges.station_collects []
            (take_held instant t.estate station c2s s valid y held (running left h) (young h.0)
              alone) in
        (
          told,
          (
            next,
            ap (queue (key t.estate station c2s)) store
                ∙ take_held-queue instant t.estate station c2s s valid y held (running left h)
                    (young h.0) alone,
            omega (arith, clock, runs left h),
          ),
        )

    -- Its acknowledgement deletes it.
    held_ack :
        (left : ℕ)
        → Held y (left + 1) n w
        → let r = Client.ack relay t.estate station c2s t.station_tok y.lease w in
          (r.1 ≡ (200, 1)) × Emptied (n + 1) r.0
    held_ack left h =
        let alone = h.1 in
        let (told, (next, store, clock)) =
          LeaseCalls.ack_call c fl auth b Sane keeps begin file calm t.estate station c2s valid n w
            h.0 t.station_tok judges.station_collects y.lease (ok 1)
            (ack_held instant t.estate station c2s s valid y held (running left h) (young h.0) alone
              named) in
        (
          told,
          (
            next,
            ap (queue (key t.estate station c2s)) store
                ∙ ack_held-queue instant t.estate station c2s s valid y held (running left h)
                    (young h.0) alone named,
          ),
        )

  -- An acknowledgement that finds nothing.
  gone_ack :
      (id : Text) (named : is_blank id ≡ false) (n : ℕ) (w : Machine auth.State)
      → Emptied n w
      → let r = Client.ack relay t.estate station c2s t.station_tok id w in
        (r.1.0 ≡ 410) × Emptied (n + 1) r.0
  unfolding refuse status ack_refusal
  gone_ack id named n w (h, vacant) =
      let s = w.server.store in
      let instant = w.now + b.lag w.sends in
      let (told, (next, store, clock)) =
        LeaseCalls.ack_call c fl auth b Sane keeps begin file calm t.estate station c2s valid n w h
          t.station_tok judges.station_collects id (err no_such_lease)
          (ack_none instant t.estate station c2s s valid vacant id named) in
      (
        ap (λ a. a.0) told,
        (
          next,
          ap (queue (key t.estate station c2s)) store
              ∙ ack_none-queue instant t.estate station c2s s valid vacant id named,
        ),
      )

  module _ (y : Message) (held : is_empty y.lease ≡ false) (named : is_blank y.lease ≡ false)
      (arrived : begin ≤ y.arrived) where
    -- The calls of held_by up to the acknowledgement, and the collection after it.
    abbrev KeptCalls : Machine auth.State → Type 0
    KeptCalls w =
        let r₁ = Client.take_leased relay t.estate station c2s t.station_tok (bytes "30s") w in
        let r₂ = Client.take relay t.estate station c2s t.station_tok r₁.0 in
        let r₃ = Client.ack relay t.estate station c2s t.station_tok y.lease r₂.0 in
        let r₄ = Client.take relay t.estate station c2s t.station_tok r₃.0 in
        (r₁.1 ≡ (200, record { lease = []; until = []; messages = [] }))
        × (r₂.1 ≡ (200, []))
        × (r₃.1 ≡ (200, 1))
        × (r₄.1 ≡ (200, []))

    abbrev kept_machine : Machine auth.State → Machine auth.State
    kept_machine w =
        let w₁ = (Client.take_leased relay t.estate station c2s t.station_tok (bytes "30s") w).0 in
        let w₂ = (Client.take relay t.estate station c2s t.station_tok w₁).0 in
        let w₃ = (Client.ack relay t.estate station c2s t.station_tok y.lease w₂).0 in
        (Client.take relay t.estate station c2s t.station_tok w₃).0

    while_held :
        (n : ℕ) (w : Machine auth.State)
        → n < 90
        → Held y 3 n w
        → KeptCalls w × Emptied ((((n + 1) + 1) + 1) + 1) (kept_machine w)
    while_held n w few h =
        let (e₁, h₁) = held_lease y held named arrived n (omega arith) w 2 h in
        let w₁ = (Client.take_leased relay t.estate station c2s t.station_tok (bytes "30s") w).0 in
        let (e₂, h₂) = held_take y held named arrived (n + 1) (omega arith) w₁ 1 h₁ in
        let w₂ = (Client.take relay t.estate station c2s t.station_tok w₁).0 in
        let (e₃, (h₃, gone)) = held_ack y held named arrived ((n + 1) + 1) (omega arith) w₂ 0 h₂ in
        let w₃ = (Client.ack relay t.estate station c2s t.station_tok y.lease w₂).0 in
        let (e₄, h₄, still, _) =
          Calls.take_step c fl auth b Sane keeps begin file calm t.estate station c2s valid
            (((n + 1) + 1) + 1) w₃ (omega arith) h₃ t.station_tok [] judges.station_collects tt
            gone in
        ((e₁, e₂, e₃, e₄), (h₄, still))

    refused_calls :
        (n : ℕ) (w : Machine auth.State)
        → Emptied n w
        → let (w₁, again) = Client.ack relay t.estate station c2s t.station_tok y.lease w in
          let (w₂, never) =
            Client.ack relay t.estate station c2s t.station_tok
              (bytes "definitely-not-a-lease")
              w₁ in
          let nobody = Client.ack relay t.estate station c2s [] y.lease w₂ in
          (again.0 ≡ 410)
          × (never.0 ≡ 410)
          × (nobody.1.0 ≡ 401)
          × Ready c Sane begin file (((n + 1) + 1) + 1) nobody.0
    unfolding is_blank refuse status
    refused_calls n w h =
        let (e₁, h₁) = gone_ack y.lease named n w h in
        let w₁ = (Client.ack relay t.estate station c2s t.station_tok y.lease w).0 in
        let (e₂, h₂) = gone_ack (bytes "definitely-not-a-lease") refl (n + 1) w₁ h₁ in
        let w₂ =
          (Client.ack relay t.estate station c2s t.station_tok (bytes "definitely-not-a-lease")
            w₁).0 in
        let (e₃, (h₃, _, _)) =
          LeaseCalls.ack_refused c fl auth b Sane keeps begin file calm t.estate station c2s valid
            ((n + 1) + 1) w₂ h₂.0 [] y.lease Reason.no_credential judges.nobody_collects in
        (e₁, e₂, e₃, h₃)

    abbrev pub answered : Text → LeaseReply
    answered until = record { lease = y.lease; until = until; messages = map msg_of (y ∷ []) }

    -- The token of one estate is refused on the other, where there is one.
    others_passes :
        (n : ℕ) (w : Machine auth.State) (until : Text)
        → Ready c Sane begin file n w
        → let rs = (others_lease relay t uniq (answered until) w).1 in
          Passed rs × (length rs ≡ (if is_empty t.other_estate then 0 else 1))
    unfolding others_lease refuse status
    others_passes n w until h = elim (Bool-cases (is_empty t.other_estate)) [
      | inl sole ↦ rw sole (tt, refl)
      | inr other ↦
          let valid' : valid_route t.other_estate station c2s ≡ true =
            valid_route-suffix t.other_estate uniq b'-' (bytes "held") other in
          let (e, _) =
            LeaseCalls.ack_refused c fl auth b Sane keeps begin file calm t.other_estate station c2s
              valid' n w h t.station_tok y.lease Reason.bad_credential foreign in
          rw (other, e) (((refl, refl), tt), refl)
    ]

    pub held_by_passes :
        (n : ℕ) (w : Machine auth.State) (until : Text)
        → y.body ≡ wanted
        → is_empty y.id ≡ false
        → n < 90
        → Held y 3 n w
        → Passed (held_by relay t uniq (answered until) w).1
          × (length (held_by relay t uniq (answered until) w).1
              ≡ (if is_empty t.other_estate then 10 else 11))
    unfolding held_by others_lease
    held_by_passes n w until body id few h =
        let ((e₁, e₂, e₃, e₄), gone) = while_held n w few h in
        let (e₅, e₆, e₇, h₇) = refused_calls ((((n + 1) + 1) + 1) + 1) (kept_machine w) gone in
        let (passed, many) = others_passes _ _ until h₇ in
        rw (body, id, same_refl wanted, e₁, e₂, e₃, e₄, e₅, e₆, e₇)
          (
            (
              (refl, refl),
              (
                (refl, refl),
                (
                  (refl, refl),
                  (
                    (refl, refl),
                    (
                      (refl, refl),
                      (
                        (refl, refl),
                        ((refl, refl), ((refl, refl), ((refl, refl), ((refl, refl), passed)))),
                      ),
                    ),
                  ),
                ),
              ),
            ),
            ap ten_more many ∙ ten_or_more (is_empty t.other_estate),
          )
