-- ===== src/Conformance/Survival.antt =====
-- The section on durability, run against a relay with a spool.
use heliograph_relay.Common.{
  ℕ, ◌+◌, ◌<◌, ◌≡◌, refl, ap, ◌∙◌, ◌⊎◌, inl, inr, Bool, true, false, List, [], ◌∷◌, map, All, Text,
  bytes, same, same_refl, is_empty, arith,
}
use heliograph_relay.Relay.Message.{Message, key}
use heliograph_relay.Relay.Store.{Store, new_store}
use heliograph_relay.Spool.Disk.{Codec}
use heliograph_relay.Spool.Load.{open_spool}
use heliograph_relay.Auth.Scoped.{Authoriser, c2s}
use heliograph_relay.Server.LeaseParam.{Floats}
use heliograph_relay.Server.Collecting.{Waits}
use heliograph_relay.Server.Service.{new_authorising_server}
use heliograph_relay.Recovery.Mirror.{Survives, plain}
use heliograph_relay.Recovery.Restart.{Restarted, restart_restores, open_spool-limits}
use heliograph_relay.Conformance.Client.{Target, Result, Msg, Run}
use heliograph_relay.Conformance.Client
use heliograph_relay.Conformance.Durability.{
  durability, survives_restart, collected_once, report, count_results, captured, is_only,
  durable_station, collected_station, not_twice,
}
use heliograph_relay.Conformance.Machine.{Bench, Machine, machine, restart, msg_of}
use heliograph_relay.Conformance.Stations.{same-key_suffix, valid_route-suffix}
use heliograph_relay.Conformance.Steps
use heliograph_relay.Conformance.Calls
use heliograph_relay.Conformance.Ready.{
  Sends, Collects, Calm, Keeps, queue_at, Ready, Fresh, Fresh-Waits,
}

module _ (c : Codec) (fl : Floats) (auth : Authoriser) (b : Bench auth.State) (t : Target)
    (Sane : auth.State → Type 0) (keeps : Keeps auth Sane)
    (sends : Sends auth Sane t.estate c2s t.control)
    (collects : Collects auth Sane t.estate c2s t.station_tok) (begin file : ℕ)
    (calm : Calm b begin file) (starts : Sane b.first) where
  abbrev At : ℕ → Machine auth.State → Type 0
  At = Ready c Sane begin file

  abbrev queue_of : Text → Machine auth.State → List Message
  queue_of station w = queue_at t.estate station c2s w

  module _ (n : ℕ) (w : Machine auth.State) (few : n < 100) (h : At n w) where
    abbrev opened : Store
    opened = (open_spool c b.dir w.server.store.spool (new_store (b.epoch w.starts))).0

    abbrev back : Machine auth.State
    back = record w { server = new_authorising_server opened b.first; starts = w.starts + 1 }

    restored :
        Restarted c
          (file + n)
          b.dir
          w.server.store
          h.mirrored.live
          (open_spool c b.dir w.server.store.spool (new_store (b.epoch w.starts)))
    restored =
        restart_restores c (file + n) w.server.store b.dir (b.epoch w.starts) h.mirrored
          (omega (arith, calm.numbers)) calm.named

    comes_back : restart c fl auth b w ≡ (back, true)
    unfolding restart
    comes_back = rw (restart, restored.1) refl

    -- The relay comes back with the queues that it had, under no lease.
    restart_step :
        (restart c fl auth b w ≡ (back, true))
        × At n back
        × ((station : Text) → queue_of station back ≡ map plain (queue_of station w))
    unfolding new_store
    restart_step =
        let (queues, report, (sp, mirror, next)) = restored in
        let (ttl, max) =
          open_spool-limits c b.dir w.server.store.spool (new_store (b.epoch w.starts)) in
        (
          comes_back,
          record {
            sane = starts;
            mirrored = record { sp = sp; live = h.mirrored.live; mirror = mirror; next = next };
            ttl = ttl;
            max = max;
            after = h.after;
            before = h.before;
          },
          λ station. queues (key t.estate station c2s),
        )

  module _ (uniq : Text) (named : is_empty t.estate ≡ false)
      (survives_on : (x : Message)
        → x.estate ≡ t.estate
        → (x.station ≡ durable_station uniq) ⊎ (x.station ≡ collected_station uniq)
        → x.dir ≡ c2s
        → Survives c x) where
    abbrev lever : Machine auth.State → Machine auth.State × Bool
    lever = restart c fl auth b

    abbrev relay : Client.Peer (Machine auth.State)
    relay = machine c fl auth b

    -- The second half of the section, after `n` calls.
    collected_once_lem :
        (n : ℕ) (w : Machine auth.State)
        → n < 90
        → At n w
        → queue_of (collected_station uniq) w ≡ []
        → (collected_once relay t uniq lever w).1 ≡ Client.assert not_twice true ∷ []
    unfolding collected_once Client.put
    collected_once_lem n w few h vacant =
        let station = collected_station uniq in
        let valid = valid_route-suffix t.estate uniq b'-' (bytes "collected") named in
        let (told, h₁, (x, alone, fresh), _) =
          Steps.put_step c fl auth b Sane keeps begin file calm t.estate station c2s valid n w
            (omega arith) h t.control 12 (bytes "durable") sends vacant (omega arith)
            (λ x e st. survives_on x e (inr st)) in
        let w₁ = (Client.put_r relay t.estate station c2s t.control 12 (bytes "durable") w).0 in
        let waits : All (Waits (w₁.now + b.lag w₁.sends) w₁.server.store) (x ∷ []) = (
          Fresh-Waits c b Sane begin file (n + 1) calm w₁ h₁ 12 (bytes "durable") x (omega arith)
              fresh,
          tt,
        ) in
        let (handed, h₂, emptied, _) =
          Calls.take_step c fl auth b Sane keeps begin file calm t.estate station c2s valid (n + 1)
            w₁ (omega arith) h₁ t.station_tok (x ∷ []) collects waits alone in
        let w₂ = (Client.take relay t.estate station c2s t.station_tok w₁).0 in
        let (up, h₃, queues) = restart_step ((n + 1) + 1) w₂ (omega arith) h₂ in
        let w₃ = back ((n + 1) + 1) w₂ (omega arith) h₂ in
        let (again, _, _, _) =
          Calls.take_step c fl auth b Sane keeps begin file calm t.estate station c2s valid
            ((n + 1) + 1) w₃ (omega arith) h₃ t.station_tok [] collects tt
            (queues station ∙ ap (map plain) emptied) in
        rw (told, handed, up, again) refl

    abbrev their_key : Text
    their_key = key t.estate (collected_station uniq) c2s

    apart : same (key t.estate (durable_station uniq) c2s) their_key ≡ false
    unfolding same
    apart = same-key_suffix t.estate uniq c2s (bytes "-durable") (bytes "-collected")

    only_captured :
        (x : Message)
        → x.body ≡ captured
        → x.seq ≡ 11
        → is_only 11 captured (msg_of (plain x) ∷ []) ≡ true
    only_captured x body seq = rw (body, seq, same_refl captured) refl

    -- Run against this relay with a spool, the suite's section on durability passes: what was accepted is
    -- there after a restart, what was collected is not, and Report counts four passes and no failure.
    -- The disk must mirror the queues at first, those of the two stations be empty and no system call fail;
    -- the authoriser serve the suite's two credentials; the heads of the messages survive the codec; calls
    -- follow one another within the hour, in a time that a spool file holds; and file numbers and the
    -- marshalled bodies stay small.
    pub durability_passes :
        (w : Machine auth.State)
        → At 0 w
        → queue_of (durable_station uniq) w ≡ []
        → queue_of (collected_station uniq) w ≡ []
        → report (durability relay t uniq w).1 ≡ (record { pass = 4; fail = 0; skipped = 0 }, true)
    unfolding durability survives_restart report count_results Client.put
    durability_passes w h vacant vacant' =
        let station = durable_station uniq in
        let other = collected_station uniq in
        let valid = valid_route-suffix t.estate uniq b'-' (bytes "durable") named in
        let (told, h₁, (x, alone, fresh), same₁) =
          Steps.put_step c fl auth b Sane keeps begin file calm t.estate station c2s valid 0 w
            (omega arith) h t.control 11 captured sends vacant (omega arith)
            (λ x e st. survives_on x e (inl st)) in
        let w₁ = (Client.put_r relay t.estate station c2s t.control 11 captured w).0 in
        let (up, h₂, queues) = restart_step (0 + 1) w₁ (omega arith) h₁ in
        let w₂ = back (0 + 1) w₁ (omega arith) h₁ in
        let fresh' : Fresh begin 11 captured (plain x) = record {
          seq_eq = fresh.seq_eq;
          body_eq = fresh.body_eq;
          named = fresh.named;
          free = refl;
          arrived = fresh.arrived;
        } in
        let waits : All (Waits (w₂.now + b.lag w₂.sends) w₂.server.store) (plain x ∷ []) = (
          Fresh-Waits c b Sane begin file (0 + 1) calm w₂ h₂ 11 captured (plain x) (omega arith)
              fresh',
          tt,
        ) in
        let (handed, h₃, _, same₃) =
          Calls.take_step c fl auth b Sane keeps begin file calm t.estate station c2s valid (0 + 1)
            w₂ (omega arith) h₂ t.station_tok (plain x ∷ []) collects waits
            (queues station ∙ ap (map plain) alone) in
        let w₃ = (Client.take relay t.estate station c2s t.station_tok w₂).0 in
        let still_vacant =
          same₃ their_key apart ∙ queues other ∙ ap (map plain) (same₁ their_key apart ∙ vacant') in
        let last = collected_once_lem ((0 + 1) + 1) w₃ (omega arith) h₃ still_vacant in
        rw (told, up, handed, last, only_captured x fresh.body_eq fresh.seq_eq) refl
