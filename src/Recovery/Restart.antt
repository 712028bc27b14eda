-- ===== src/Recovery/Restart.antt =====
-- A restart: what OpenSpool makes of the disk that a history of calls has left.
use mathlib.Core.Path.{subst}
use mathlib.Core.List.{append_assoc, append-nil}
use native.Mathlib.Nat.{mod-eq_of_lt}
use heliograph_relay.Common.{
  ℕ, ◌+◌, ◌%◌, ◌≤◌, ◌<◌, ◌≡◌, refl, sym, ap, ◌∙◌, inl, inr, false, Option, none, some, on_both,
  List, [], ◌∷◌, ◌++◌, map, keep, All, length, Text, same, same_iff, arith, if◌then◌else◌,
  Bool-cases, lookup,
}
use heliograph_relay.Relay.Message.{Message}
use heliograph_relay.Relay.Store.{Store, queue, enqueue, new_store}
use heliograph_relay.Relay.Leased.{is_blank}
use heliograph_relay.Relay.Frame.{queue-set_queue, set_queue-SameCounters}
use heliograph_relay.Relay.Promises.{set_queue-spool}
use heliograph_relay.Spool.Disk.{Codec, Spool}
use heliograph_relay.Spool.Load.{
  Loaded, SpoolReport, load, recover, open_spool, body_bytes, raise_to,
}
use heliograph_relay.Spool.Open.{message_number}
use heliograph_relay.Recovery.Mirror.{plain, route_of, routed, Readable, Mirror}
use heliograph_relay.Recovery.Settling.{Mirrored}
use heliograph_relay.Recovery.Reading.{Loads, load-Loads}

queue-recovered :
    (k r : Text) (m : Message) (i : ℕ) (s : Store)
    → queue k (record (enqueue r m s) { ids = i })
      ≡ (if same r k then queue r s ++ m ∷ [] else queue k s)
unfolding enqueue queue
queue-recovered k r m i s = queue-set_queue k r (queue r s ++ m ∷ []) s

recover-queue :
    (k : Text) (ms : List Message) (s : Store)
    → queue k (recover ms s) ≡ queue k s ++ keep (routed k) ms
unfolding recover
recover-queue k [] s = sym (append-nil (queue k s))
recover-queue k (m ∷ ms) s =
    let r = route_of m in
    let i = raise_to (message_number m.id) (enqueue r m s).ids in
    let next = recover-queue k ms (record (enqueue r m s) { ids = i }) in
    elim (Bool-cases (routed k m)) [
      | inl mine ↦
          next
          ∙ rw (queue-recovered k r m i s, mine)
              (subst
                (λ t.
                  (queue r s ++ m ∷ []) ++ keep (routed k) ms ≡ queue t s ++ m ∷ keep (routed k) ms)
                ((same_iff r k).0 mine) (append_assoc (queue r s) (m ∷ []) (keep (routed k) ms)))
      | inr other ↦ next ∙ rw (queue-recovered k r m i s, other)
    ]

recover-spool : (ms : List Message) (s : Store) → (recover ms s).spool ≡ s.spool
unfolding recover enqueue
recover-spool [] s = refl
recover-spool (m ∷ ms) s =
    recover-spool ms _ ∙ set_queue-spool (route_of m) (queue (route_of m) s ++ m ∷ []) s

keep-plain :
    (c : Codec) (k : Text) (ms : List Message)
    → All (Readable c) ms
    → map plain (keep (routed k) ms) ≡ keep (routed k) ms
keep-plain c k [] h = refl
keep-plain c k (m ∷ ms) h =
    let e : plain m ≡ m = rw (h.0.free, h.0.undue) in
    elim (Bool-cases (routed k m)) [
      | inl mine ↦ rw mine (λ i. e i ∷ keep-plain c k ms h.1 i)
      | inr other ↦ rw other (keep-plain c k ms h.1)
    ]

-- What a restart must find: the same queues with every lease gone, a report of the same messages,
-- and a disk that mirrors them.
abbrev pub Restarted : Codec → ℕ → Text → Store → List Message → Store × Option SpoolReport → Type 0
Restarted c n dir s live (s', report) =
    ((k : Text) → queue k s' ≡ map plain (queue k s))
    × (report
        ≡ some (record {
          dir = dir;
          messages = length live;
          bytes = body_bytes live;
          quarantined = [];
        }))
    × ((sp : Spool) × Mirror c s' sp live × (sp.next ≤ n))

module _ (c : Codec) (n : ℕ) (s : Store) (dir epoch : Text) (h : Mirrored c n s)
    (room : n < 18446744073709551616) (named : is_blank dir ≡ false) where
  abbrev w : Mirror c s h.sp h.live
  w = h.mirror

  abbrev loaded : Spool × Loaded
  loaded = load c h.sp

  loads : Loads c h.live h.sp loaded
  loads = load-Loads c h.live h.sp w.files w.small w.numbered w.readable w.legible

  abbrev opened : Spool
  opened = record loaded.0 { dir = dir; next = (loaded.1.highest + 1) % 18446744073709551616 }

  abbrev restored : Store
  restored = recover loaded.1.msgs (record (new_store epoch) { spool = some opened })

  fresh_queue : (k : Text) → queue k (record (new_store epoch) { spool = some opened }) ≡ []
  unfolding queue new_store lookup
  fresh_queue k = refl

  restored-queue : (k : Text) → queue k restored ≡ keep (routed k) h.live
  restored-queue k =
      recover-queue k loaded.1.msgs (record (new_store epoch) { spool = some opened })
      ∙ rw (fresh_queue k, loads.msgs)

  next_eq : opened.next ≡ loaded.1.highest + 1
  next_eq = mod-eq_of_lt (omega (arith, loads.below, h.next))

  restored-Mirror : Mirror c restored opened h.live
  restored-Mirror = record {
    spooled = recover-spool loaded.1.msgs (record (new_store epoch) { spool = some opened });
    loose = λ name. ap (λ (t : Spool). t.stuck name) loads.unmoved ∙ w.loose name;
    legible = λ name. ap (λ (t : Spool). t.unreadable name) loads.unmoved ∙ w.legible name;
    files = ap (λ (t : Spool). t.disk) loads.unmoved ∙ w.files;
    numbered = rw next_eq loads.numbered;
    small = omega (arith, next_eq, loads.below, h.next);
    queues = λ k. ap (map plain) (restored-queue k) ∙ keep-plain c k h.live w.readable;
    readable = w.readable;
  }

  -- Opening the spool that a store has left gives back each of its queues, in the same order and with
  -- every lease gone, reports as many messages, moves no file aside, and leaves the disk a mirror of
  -- the same messages. The disk must be a mirror of the store's queues, every file of it
  -- one that can be read and moved, with the next file number below 2^64, and the directory have a name.
  pub restart_restores : Restarted c n dir s h.live (open_spool c dir s.spool (new_store epoch))
  unfolding open_spool
  restart_restores =
      subst (λ o. Restarted c n dir s h.live (open_spool c dir o (new_store epoch))) (sym w.spooled)
        (rw (open_spool, named, loads.quarantined, loads.msgs)
          (
            λ k.
                subst
                  (λ ms.
                    queue k (recover ms (record (new_store epoch) { spool = some opened }))
                    ≡ map plain (queue k s))
                  loads.msgs (restored-queue k ∙ sym (w.queues k)),
            refl,
            (
              opened,
              subst
                  (λ ms.
                    Mirror c (recover ms (record (new_store epoch) { spool = some opened })) opened
                      h.live)
                  loads.msgs restored-Mirror,
              omega (arith, next_eq, loads.below, h.next),
            ),
          ))

recover-limits :
    (ms : List Message) (s : Store) → ((recover ms s).ttl ≡ s.ttl) × ((recover ms s).max ≡ s.max)
unfolding recover enqueue
recover-limits [] s = (refl, refl)
recover-limits (m ∷ ms) s =
    let counters = set_queue-SameCounters (route_of m) (queue (route_of m) s ++ m ∷ []) s in
    let (ttl, max) = recover-limits ms _ in (ttl ∙ counters.ttl, max ∙ counters.max)

-- A store that is opened has the limits that it was made with.
pub open_spool-limits :
    (c : Codec) (dir : Text) (o : Option Spool) (s : Store)
    → let s' = (open_spool c dir o s).0 in (s'.ttl ≡ s.ttl) × (s'.max ≡ s.max)
unfolding open_spool
open_spool-limits c dir none s = (refl, refl)
open_spool-limits c dir (some sp) s =
    let l = (load c sp).1 in
    let P = λ (r : Store × Option SpoolReport). (r.0.ttl ≡ s.ttl) × (r.0.max ≡ s.max) in
    on_both P (is_blank dir) (refl, refl) (recover-limits l.msgs _)
