-- ===== src/Recovery/Settling.antt =====
-- The disk when a queue changes: what leaves it leaves the disk, and marks are not on the disk.
use mathlib.Core.Path.{subst}
use heliograph_relay.Common.{
  ℕ, ◌-◌, ◌≤◌, ◌≡◌, ◌≢◌, refl, sym, ap, ◌∙◌, inl, inr, Bool, false, some, List, [], ◌∷◌, map, keep,
  All, Text, same, same_iff, arith, if◌then◌else◌, is_empty, ltb, Bool-cases, on_both,
}
use heliograph_relay.Relay.Message.{Message, Time}
use heliograph_relay.Relay.Store.{
  Store, queue, set_queue, drop_durable, expire, split_expired, release, release_all, expire_leases,
  settle_queue,
}
use heliograph_relay.Relay.Frame.{queue-set_queue, queue-drop_durable, queue-settle_queue}
use heliograph_relay.Relay.Loops.{Merge, done, left, right}
use heliograph_relay.Relay.Expiry.{Merge-All}
use heliograph_relay.Relay.Promises.{set_queue-spool}
use heliograph_relay.Spool.Disk.{Codec, Spool, remove}
use heliograph_relay.Recovery.Mirror.{plain, routed, Readable, Mirror}
use heliograph_relay.Recovery.Removal.{
  leave, remove-drop_files, drop_files-Merge, Numbered-Merge, Numbered-named, remove-plain,
}

-- The store mirrors some messages on a disk whose next file number is at most `n`.
pub record Mirrored (c : Codec) (n : ℕ) (s : Store) : Type 0 where
  pub sp : Spool
  pub live : List Message
  pub mirror : Mirror c s sp live
  pub next : sp.next ≤ n

-- The same spool, and the same queues but for their leases.
pub Mirror-requeue :
    (c : Codec) (s s' : Store) (sp : Spool) (live : List Message)
    → s'.spool ≡ s.spool
    → ((k : Text) → map plain (queue k s') ≡ map plain (queue k s))
    → Mirror c s sp live
    → Mirror c s' sp live
Mirror-requeue c s s' sp live e q h = record {
  spooled = e ∙ h.spooled;
  loose = h.loose;
  legible = h.legible;
  files = h.files;
  numbered = h.numbered;
  small = h.small;
  queues = λ k. q k ∙ h.queues k;
  readable = h.readable;
}

pub map-Merge :
    (f : Message → Message) {xs ys zs : List Message}
    → Merge xs ys zs
    → Merge (map f xs) (map f ys) (map f zs)
map-Merge f done = done
map-Merge f (left m) = left (map-Merge f m)
map-Merge f (right m) = right (map-Merge f m)

remove-same :
    (ms : List Message) (sp : Spool)
    → ((name : Text) → sp.stuck name ≡ false)
    → All (λ m. is_empty m.file ≡ false) (map plain ms)
    → ((remove ms sp).next ≡ sp.next)
      × ((remove ms sp).stuck ≡ sp.stuck)
      × ((remove ms sp).unreadable ≡ sp.unreadable)
remove-same ms sp h f =
    let e = sym (remove-plain ms sp) ∙ remove-drop_files (map plain ms) sp h f in
    (
      ap (λ (t : Spool). t.next) e,
      ap (λ (t : Spool). t.stuck) e,
      ap (λ (t : Spool). t.unreadable) e,
    )

elsewhere : (j k : Text) → same k j ≡ false → j ≢ k
elsewhere j k h p = ground (arith, same_iff k j, sym p)

-- Messages leave one queue and their files leave the disk.
pub settle-Mirrored :
    (c : Codec) (n : ℕ) (k : Text) (s s' : Store) (gone kept : List Message)
    → (h : Mirrored c n s) → Merge gone kept (queue k s)
    → s'.spool ≡ some (remove gone h.sp)
    → ((j : Text) → queue j s' ≡ (if same k j then kept else queue j s))
    → Mirrored c n s'
settle-Mirrored c n k s s' gone kept h m e q =
    let w = h.mirror in
    let l = leave k h.live (map-Merge plain m) (w.queues k) in
    let named =
      (Merge-All (λ x. is_empty x.file ≡ false) l.split
        (Numbered-named 1 h.sp.next h.live w.numbered)).0 in
    let (nx, stk, seen) = remove-same gone h.sp w.loose named in
    let gone_eq =
      sym (remove-plain gone h.sp) ∙ remove-drop_files (map plain gone) h.sp w.loose named in
    record {
      sp = remove gone h.sp;
      live = l.rest;
      mirror = record {
        spooled = e;
        loose = λ name. ap (λ (f : Text → Bool). f name) stk ∙ w.loose name;
        legible = λ name. ap (λ (f : Text → Bool). f name) seen ∙ w.legible name;
        files =
            ap (λ (t : Spool). t.disk) gone_eq
            ∙ rw w.files (drop_files-Merge c 1 h.sp.next l.split w.small w.numbered);
        numbered = rw nx (Numbered-Merge 1 h.sp.next l.split w.numbered);
        small = rw nx w.small;
        queues = λ j. elim (Bool-cases (same k j)) [
          | inl here ↦
              rw (q j, here)
                (subst (λ t. map plain kept ≡ keep (routed t) l.rest) ((same_iff k j).0 here)
                  (sym l.here))
          | inr there ↦ rw (q j, there) (w.queues j ∙ sym (l.there j (λ p. elsewhere j k there p)))
        ];
        readable = (Merge-All (Readable c) l.split w.readable).1;
      };
      next = rw nx h.next;
    }

all_right {ℓ} : {A : Type ℓ} (ms : List A) → Merge [] ms ms
all_right [] = done
all_right (m ∷ ms) = right (all_right ms)

drop_durable-spool :
    (ms : List Message) (s : Store) (sp : Spool)
    → s.spool ≡ some sp
    → (drop_durable ms s).spool ≡ some (remove ms sp)
unfolding drop_durable
drop_durable-spool ms s sp e = rw (drop_durable, e)

settle_queue-spool :
    (k : Text) (gone kept : List Message) (s : Store) (sp : Spool)
    → s.spool ≡ some sp
    → (settle_queue k gone kept s).spool ≡ some (remove gone sp)
unfolding settle_queue
settle_queue-spool k gone kept s sp e =
    drop_durable-spool gone (set_queue k kept s) sp (set_queue-spool k kept s ∙ e)

split_expired-Merge :
    (cut : Time) (ms : List Message) → Merge (split_expired cut ms).0 (split_expired cut ms).1 ms
unfolding split_expired
split_expired-Merge cut [] = done
split_expired-Merge cut (m ∷ ms) = elim (Bool-cases (ltb m.arrived cut)) [
  | inl old ↦ rw old (left (split_expired-Merge cut ms))
  | inr young ↦ rw young (right (all_right ms))
]

pub expire-Mirrored :
    (c : Codec) (n : ℕ) (k : Text) (now : Time) (s : Store)
    → Mirrored c n s
    → Mirrored c n (expire k now s)
unfolding expire drop_durable
expire-Mirrored c n k now s h =
    let (old, rest) = split_expired (now - s.ttl) (queue k s) in
    on_both (Mirrored c n) (is_empty old) h (
      settle-Mirrored c n k s (set_queue k rest (drop_durable old s)) old rest h
        (split_expired-Merge (now - s.ttl) (queue k s))
        (set_queue-spool k rest (drop_durable old s) ∙ rw h.mirror.spooled)
        (λ j.
          ground
            (arith, queue-set_queue j k rest (drop_durable old s), queue-drop_durable j old s)))

pub release-plain : (now : Time) (ms : List Message) → map plain (release_all now ms) ≡ map plain ms
unfolding release_all release
release-plain now [] = refl
release-plain now (m ∷ ms) = ground (arith, release-plain now ms)

pub requeue-Mirrored :
    (c : Codec) (n : ℕ) (k : Text) (ms : List Message) (s : Store)
    → map plain ms ≡ map plain (queue k s)
    → Mirrored c n s
    → Mirrored c n (set_queue k ms s)
requeue-Mirrored c n k ms s e h = record {
  sp = h.sp;
  live = h.live;
  mirror =
      Mirror-requeue c s (set_queue k ms s) h.sp h.live (set_queue-spool k ms s)
        (λ j. elim (Bool-cases (same k j)) [
          | inl here ↦
              rw (queue-set_queue j k ms s, here)
                (subst (λ t. map plain ms ≡ map plain (queue t s)) ((same_iff k j).0 here) e)
          | inr there ↦ rw (queue-set_queue j k ms s, there)
        ])
        h.mirror;
  next = h.next;
}

pub expire_leases-Mirrored :
    (c : Codec) (n : ℕ) (k : Text) (now : Time) (s : Store)
    → Mirrored c n s
    → Mirrored c n (expire_leases k now s)
unfolding expire_leases
expire_leases-Mirrored c n k now s h = requeue-Mirrored c n k _ s (release-plain now (queue k s)) h

pub due-Mirrored :
    (c : Codec) (n : ℕ) (k : Text) (now : Time) (s : Store)
    → Mirrored c n s
    → Mirrored c n (expire_leases k now (expire k now s))
due-Mirrored c n k now s h =
    expire_leases-Mirrored c n k now (expire k now s) (expire-Mirrored c n k now s h)

pub settle_queue-Mirrored :
    (c : Codec) (n : ℕ) (k : Text) (gone kept : List Message) (s : Store)
    → Mirrored c n s
    → Merge gone kept (queue k s)
    → Mirrored c n (settle_queue k gone kept s)
settle_queue-Mirrored c n k gone kept s h m =
    settle-Mirrored c n k s (settle_queue k gone kept s) gone kept h m
      (settle_queue-spool k gone kept s h.sp h.mirror.spooled)
      (λ j. queue-settle_queue j k gone kept s)
