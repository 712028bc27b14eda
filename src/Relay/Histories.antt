-- ===== src/Relay/Histories.antt =====
-- Whatever is called, in whatever order: the store stays well formed.
use mathlib.Core.Path.{subst}
use heliograph_relay.Common.{
  ℕ, ◌+◌, ◌≤◌, ◌<◌, ◌≡◌, refl, sym, List, [], ◌∷◌, Text, length, arith, lookup,
}
use heliograph_relay.Spool.Disk.{Codec, Faults}
use heliograph_relay.Relay.Message.{Message, Time, zero_time, key}
use heliograph_relay.Relay.Store.{Store, queue, new_store, put, depth}
use heliograph_relay.Relay.Leased.{sweep, expire_keys, keys}
use heliograph_relay.Relay.Steps.{Call, puts, takes, leases, acks, depths, sweeps, step, run}
use heliograph_relay.Relay.Frame.{SameCounters, SameCounters-trans, expire-SameCounters}
use heliograph_relay.Relay.Counters.{
  take-SameCounters, ack-SameCounters, take_leased-SameSettings, take_leased-leases-le,
}
use heliograph_relay.Relay.Accepting
use heliograph_relay.Relay.Invariant.{Valid}
use heliograph_relay.Relay.Preservation.{
  take-Valid, ack-Valid, depth-Valid, take_leased-Valid, waits-Valid, expire-Valid,
}
use heliograph_relay.Relay.PutPreservation.{put-Valid}

-- A message as the handler makes it: nobody holds it.
abbrev pub Plain : Call → Type 0
Plain (puts c f m) = (m.lease ≡ []) × (m.lease_until ≡ zero_time)
Plain _ = Unit {0}

-- Each call comes no earlier than the one before it.
abbrev pub Chronological : Time → List (Time × Call) → Type 0
Chronological t [] = Unit {0}
Chronological t ((now, c) ∷ cs) = (t ≤ now) × Plain c × Chronological now cs

-- The instant of the last call.
abbrev pub last_instant : Time → List (Time × Call) → Time
last_instant t [] = t
last_instant t ((now, _) ∷ cs) = last_instant now cs

abbrev counters_limit : ℕ
counters_limit = 18446744073709551616

expire_keys-Valid :
    (t now : Time) (ks : List Text) (s : Store)
    → t ≤ now
    → Valid t s
    → Valid now (expire_keys now ks s)
unfolding expire_keys
expire_keys-Valid t now [] s later v = waits-Valid t now s later v
expire_keys-Valid t now (k ∷ ks) s later v =
    expire_keys-Valid now now ks _ (omega arith) (expire-Valid t now s later v k)

expire_keys-SameCounters :
    (now : Time) (ks : List Text) (s : Store) → SameCounters s (expire_keys now ks s)
unfolding expire_keys
expire_keys-SameCounters now [] s = record {
  ids = refl;
  leases = refl;
  epoch = refl;
  max = refl;
  ttl = refl;
}
expire_keys-SameCounters now (k ∷ ks) s =
    SameCounters-trans s _ _ (expire-SameCounters k now s) (expire_keys-SameCounters now ks _)

-- A call moves each counter by one at most.
record Near (s t : Store) : Type 0 where
  ids : t.ids ≤ s.ids + 1
  leases : t.leases ≤ s.leases + 1

SameCounters→Near : (s t : Store) → SameCounters s t → Near s t
SameCounters→Near s t h = record { ids = omega (arith, h.ids); leases = omega (arith, h.leases) }

NextId→Near :
    (now : Time) (cd : Codec) (f : Faults) (m : Message) (s t : Store)
    → Accepting.NextId cd f now m s t
    → Near s t
NextId→Near now cd f m s t h = record {
  ids = omega (arith, h.ids);
  leases = omega (arith, h.leases);
}

put-Near :
    (now : Time) (cd : Codec) (f : Faults) (m : Message) (s : Store) → Near s (put cd f now m s).0
put-Near now cd f m s = elim (Accepting.put-PutEnd cd f now m s) [
  | Accepting.rejected e p ↦
      subst (λ r. Near s r.0) (sym p) (record { ids = omega arith; leases = omega arith })
  | Accepting.full p ↦
      subst (λ r. Near s r.0) (sym p) (SameCounters→Near s _ (expire-SameCounters _ now s))
  | Accepting.lost unwritten p ↦
      subst (λ r. Near s r.0) (sym p)
        (NextId→Near now cd f m s _ (Accepting.tried-NextId cd f now m s))
  | Accepting.kept name e g p ↦
      subst (λ r. Near s r.0) (sym p)
        (NextId→Near now cd f m s _ (Accepting.kept-NextId cd f now m s _))
]

step-Near :
    (now : Time) (c : Call) (s : Store)
    → s.ids + 1 < counters_limit
    → s.leases + 1 < counters_limit
    → Near s (step now c s)
unfolding step
step-Near now (puts cd f m) s i l = put-Near now cd f m s
step-Near now (takes e st d limit) s i l =
    SameCounters→Near s _ (take-SameCounters now e st d limit s)
step-Near now (leases e st d limit dur) s i l = record {
  ids = omega (arith, (take_leased-SameSettings now e st d limit dur s).ids);
  leases = take_leased-leases-le now e st d limit dur s;
}
step-Near now (acks e st d id) s i l = SameCounters→Near s _ (ack-SameCounters now e st d id s)
step-Near now (depths e st d) s i l =
    SameCounters→Near s _ (unfold depth in expire-SameCounters (key e st d) now s)
step-Near now sweeps s i l =
    SameCounters→Near s _ (unfold sweep in expire_keys-SameCounters now (keys s) s)

step-Valid :
    (t now : Time) (c : Call) (s : Store)
    → t ≤ now
    → Plain c
    → s.ids + 1 < counters_limit
    → s.leases + 1 < counters_limit
    → Valid t s
    → Valid now (step now c s)
unfolding step
step-Valid t now (puts cd f m) s later (a, b) i l v = put-Valid t now s later v i cd f m a b
step-Valid t now (takes e st d limit) s later p i l v = take-Valid t now s later v e st d limit
step-Valid t now (leases e st d limit dur) s later p i l v =
    take_leased-Valid t now s later v l e st d limit dur
step-Valid t now (acks e st d id) s later p i l v = ack-Valid t now s later v e st d id
step-Valid t now (depths e st d) s later p i l v = depth-Valid t now s later v e st d
step-Valid t now sweeps s later p i l v = unfold sweep in expire_keys-Valid t now (keys s) s later v

-- From a well-formed store every history of calls ends in a well-formed store: each message lies in
-- the queue of its own route, in the order of arrival and with rising ids, free or under a lease of
-- this run, and no queue is longer than the limit. Instants must not fall, messages must come
-- without a lease, and the two counters must not pass 2^64.
pub run-Valid :
    (t : Time) (cs : List (Time × Call)) (s : Store)
    → Chronological t cs
    → s.ids + length cs < 18446744073709551616
    → s.leases + length cs < 18446744073709551616
    → Valid t s
    → Valid (last_instant t cs) (run cs s)
unfolding run
run-Valid t [] s h i l v = v
run-Valid t ((now, c) ∷ cs) s (later, plain, h) i l v =
    let near = step-Near now c s (omega arith) (omega arith) in
    run-Valid now cs (step now c s) h (omega (arith, near.ids)) (omega (arith, near.leases))
      (step-Valid t now c s later plain (omega arith) (omega arith) v)

-- An empty store is well formed.
pub new_store-Valid : (epoch : Text) (t : Time) → Valid t (new_store epoch)
unfolding new_store queue lookup
new_store-Valid epoch t k = record { items = tt; ordered = tt; bounded = omega arith }
