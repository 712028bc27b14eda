-- ===== src/Recovery/Runs.antt =====
-- The disk through whole histories of calls.
use heliograph_relay.Common.{
  ℕ, ◌+◌, ◌<◌, ◌≡◌, refl, sym, some, List, [], ◌∷◌, length, false, Text, arith, lookup,
}
use mathlib.Core.Path.{subst}
use heliograph_relay.Relay.Message.{Time, zero_time, key}
use heliograph_relay.Relay.Store.{Store, queue, new_store, put, depth}
use heliograph_relay.Relay.Leased.{sweep, keys}
use heliograph_relay.Relay.Durability.{made}
use heliograph_relay.Relay.Steps.{Call, puts, takes, leases, acks, depths, sweeps, step, run}
use heliograph_relay.Spool.Disk.{Codec, Spool}
use heliograph_relay.Spool.Durable.{Nanosecond}
use heliograph_relay.Recovery.Mirror.{Survives}
use heliograph_relay.Recovery.Settling.{Mirrored, expire-Mirrored}
use heliograph_relay.Recovery.Calls.{
  take-Mirrored, ack-Mirrored, take_leased-Mirrored, expire_keys-Mirrored,
}
use heliograph_relay.Recovery.Storing.{Temporary, put-Mirrored, Mirrored-raise}

-- What a call must bring for the disk to follow it: a message without a lease whose head survives the
-- codec, an instant that a spool file can hold, and a temporary file named as one.
abbrev pub FitsCall : Codec → Time → Call → Store → Type 0
FitsCall c now (puts c' f m) s =
    (c' ≡ c)
    × Temporary f
    × (m.lease ≡ [])
    × (m.lease_until ≡ zero_time)
    × Nanosecond now
    × Survives c (made now m s)
FitsCall c now _ s = Unit {0}

abbrev pub FitsRun : Codec → List (Time × Call) → Store → Type 0
FitsRun c [] s = Unit {0}
FitsRun c ((now, call) ∷ cs) s = FitsCall c now call s × FitsRun c cs (step now call s)

step-Mirrored :
    (c : Codec) (n : ℕ) (now : Time) (call : Call) (s : Store)
    → n + 1 < 18446744073709551616
    → FitsCall c now call s
    → Mirrored c n s
    → Mirrored c (n + 1) (step now call s)
unfolding step
step-Mirrored c n now (puts c' f m) s room (e, t, free, undue, range, survives) h =
    subst (λ d. Mirrored c (n + 1) (put d f now m s).0) (sym e)
      (put-Mirrored c f now m s n h room t free undue range survives)
step-Mirrored c n now (takes est st d limit) s room fit h =
    Mirrored-raise c n _ (take-Mirrored c n now est st d limit s h)
step-Mirrored c n now (leases est st d limit dur) s room fit h =
    Mirrored-raise c n _ (take_leased-Mirrored c n now est st d limit dur s h)
step-Mirrored c n now (acks est st d id) s room fit h =
    Mirrored-raise c n _ (ack-Mirrored c n now est st d id s h)
step-Mirrored c n now (depths est st d) s room fit h =
    Mirrored-raise c n _ (unfold depth in expire-Mirrored c n (key est st d) now s h)
step-Mirrored c n now sweeps s room fit h =
    Mirrored-raise c n _ (unfold sweep in expire_keys-Mirrored c n now (keys s) s h)

-- Through every history of calls, with any write failing at any step, the disk stays a mirror of the
-- queues: its files are those of the messages that are queued, of all routes in the order of their
-- acceptance, and of no others. It must be one at first, no file be immovable or unreadable, the next
-- file number stay below 2^64, and each message that is put fit: come without a lease, with a head that
-- survives the codec, at an instant that a spool file holds, and with a write whose temporary file has
-- the prefix of those.
pub run-Mirrored :
    (c : Codec) (n : ℕ) (cs : List (Time × Call)) (s : Store)
    → n + length cs < 18446744073709551616
    → FitsRun c cs s
    → Mirrored c n s
    → Mirrored c (n + length cs) (run cs s)
unfolding run
run-Mirrored c n [] s room fit h = record {
  sp = h.sp;
  live = h.live;
  mirror = h.mirror;
  next = omega (arith, h.next);
}
run-Mirrored c n ((now, call) ∷ cs) s room (fit, fits) h =
    let later =
      run-Mirrored c (n + 1) cs (step now call s) (omega arith) fits
        (step-Mirrored c n now call s (omega arith) fit h) in
    record {
      sp = later.sp;
      live = later.live;
      mirror = later.mirror;
      next = omega (arith, later.next);
    }

-- An empty directory mirrors an empty store.
pub new_store-Mirrored :
    (c : Codec) (epoch : Text) (sp : Spool)
    → sp.disk ≡ []
    → ((name : Text) → sp.stuck name ≡ false)
    → ((name : Text) → sp.unreadable name ≡ false)
    → sp.next ≡ 1
    → Mirrored c 1 (record (new_store epoch) { spool = some sp })
unfolding new_store queue lookup
new_store-Mirrored c epoch sp e loose legible first = record {
  sp = sp;
  live = [];
  mirror = record {
    spooled = refl;
    loose = loose;
    legible = legible;
    files = e;
    numbered = omega (arith, first);
    small = omega (arith, first);
    queues = λ k. refl;
    readable = tt;
  };
  next = omega (arith, first);
}
