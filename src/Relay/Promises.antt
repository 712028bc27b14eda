-- ===== src/Relay/Promises.antt =====
-- What Put promises its callers, and what the routing key keeps apart.
use mathlib.Core.Path.{subst}
use heliograph_relay.Common.{
  ◌-◌, ◌≤◌, ◌<◌, ◌≡◌, refl, sym, ◌∙◌, ap, ◌⊎◌, inl, inr, true, List, [], ◌∷◌, ◌++◌, Text, same,
  length, none, if◌then◌else◌, ◌↔◌, arith,
}
use heliograph_relay.Common.Separators.{Lacks, cut_unique}
use heliograph_relay.Spool.Disk.{Codec, Faults}
use heliograph_relay.Relay.Message.{
  Message, Time, Result, ok, err, Error, key, valid_route, max_body_bytes,
}
use heliograph_relay.Relay.Store.{
  Store, set_queue, drop_durable, queue, expire, split_expired, next_id, put, written,
}
use heliograph_relay.Relay.Accepting

-- The messages of a queue that are young enough to stay.
abbrev pub unexpired : Text → Time → Store → List Message
unexpired k now s = (split_expired (now - s.ttl) (queue k s)).1

-- The message as Put stores it, at the end of its queue.
abbrev pub Appended : Time → Message → Store → Store → Type 0
Appended now m s s' =
    let k = key m.estate m.station m.dir in
    (file : Text) × ((j : Text)
      → queue j s' ≡ (
          if same k j
          then unexpired k now s ++ record m { arrived = now; id = (next_id s).1; file = file } ∷ []
          else queue j s))

-- No queue has changed, unless by the expiry of the route that was written to.
abbrev pub Untouched : Time → Message → Store → Store → Type 0
Untouched now m s s' =
    let k = key m.estate m.station m.dir in
    (j : Text) → (queue j s' ≡ queue j s) ⊎ (queue j s' ≡ queue j (expire k now s))

abbrev Ends : Time → Message → Store → Store × Result (Unit {0}) → Type 0
Ends now m s r =
    ((r.1 ≡ ok tt) × Appended now m s r.0) ⊎ ((e : Error) × (r.1 ≡ err e) × Untouched now m s r.0)

-- Put either accepts the message, and then its route's queue is the messages that had not expired
-- with this one behind them and every other queue is as it was; or it returns an error, and then no
-- queue has gained a message: each is as it was, or as its expiry leaves it.
pub put_appends :
    (c : Codec) (f : Faults) (now : Time) (m : Message) (s : Store)
    → let (s', r) = put c f now m s in
      ((r ≡ ok tt) × Appended now m s s') ⊎ ((e : Error) × (r ≡ err e) × Untouched now m s s')
put_appends c f now m s = elim (Accepting.put-PutEnd c f now m s) [
  | Accepting.rejected e p ↦ subst (Ends now m s) (sym p) (inr (e, refl, λ j. inl refl))
  | Accepting.full p ↦ subst (Ends now m s) (sym p) (inr (_, refl, λ j. inr refl))
  | Accepting.lost unwritten p ↦
      subst (Ends now m s) (sym p) (inr (_, refl, λ j. inr (Accepting.queue-lost c f now m s j)))
  | Accepting.kept name e g p ↦
      subst (Ends now m s) (sym p) (inl (refl, (name, Accepting.queue-kept c f now m s name)))
]

-- The tests that Put makes of a message.
abbrev pub Admissible : Time → Message → Store → Type 0
Admissible now m s =
    (valid_route m.estate m.station m.dir ≡ true)
    × (length m.body ≤ max_body_bytes)
    × (length (unexpired (key m.estate m.station m.dir) now s) < s.max)

pub refused_not_ok : (e : Error) → ◌≡◌ {A = Result (Unit {0})} (err e) (ok tt) → ⊥
refused_not_ok e h = cc

pub set_queue-spool :
    (k : Text) (ms : List Message) (s : Store) → (set_queue k ms s).spool ≡ s.spool
unfolding set_queue
set_queue-spool k [] s = refl
set_queue-spool k (m ∷ ms) s = refl

expire-volatile :
    (k : Text) (now : Time) (s : Store) → s.spool ≡ none → (expire k now s).spool ≡ none
unfolding expire drop_durable
expire-volatile k now s h = ground (
  arith,
  h,
  set_queue-spool k (unexpired k now s) s,
  set_queue-spool k (split_expired (now - s.ttl) (queue k s)).1
      (drop_durable (split_expired (now - s.ttl) (queue k s)).0 s),
)

-- Put accepts no message but one with a valid route, a body within the limit and room in its queue;
-- without a spool it accepts each of those.
pub put_accepts :
    (c : Codec) (f : Faults) (now : Time) (m : Message) (s : Store)
    → s.spool ≡ none
    → ((put c f now m s).1 ≡ ok tt) ↔ Admissible now m s
unfolding written
put_accepts c f now m s volatile = (
  λ h. elim (Accepting.put-PutEnd c f now m s) [
    | Accepting.rejected e p ↦ absurd (refused_not_ok e (sym (ap (λ r. r.1) p) ∙ h))
    | Accepting.full p ↦ absurd (refused_not_ok _ (sym (ap (λ r. r.1) p) ∙ h))
    | Accepting.lost unwritten p ↦ absurd (refused_not_ok _ (sym (ap (λ r. r.1) p) ∙ h))
    | Accepting.kept name e g p ↦ g
  ],
  λ g.
      ap (λ r. r.1) (Accepting.put-accept c f now m s g)
      ∙ ap (λ r. r.1)
          (Accepting.accept_ok c f (key m.estate m.station m.dir) (Accepting.numbered c f now m s)
            (next_id (expire (key m.estate m.station m.dir) now s)).0 m.file
            (unfold next_id in rw (expire-volatile (key m.estate m.station m.dir) now s volatile))),
)

-- Two routes whose estates and stations hold no slash share a queue's key only if they are the same
-- route.
pub key_injective :
    (estate station dir estate' station' dir' : Text)
    → Lacks b'/' estate
    → Lacks b'/' station
    → Lacks b'/' estate'
    → Lacks b'/' station'
    → key estate station dir ≡ key estate' station' dir'
    → (estate ≡ estate') × (station ≡ station') × (dir ≡ dir')
unfolding key
key_injective e st d e' st' d' he hs he' hs' p =
    let (a, rest) = cut_unique b'/' e e' (st ++ b'/' ∷ d) (st' ++ b'/' ∷ d') he he' p in
    let (b, c) = cut_unique b'/' st st' d d' hs hs' rest in (a, b, c)
