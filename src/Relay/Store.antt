-- ===== src/Relay/Store.antt =====
-- relay.go and the queue half of lease.go: the store and its operations. Each operation runs under
-- the store's lock, so it is a function from the store to the store; `now` is the clock's reading.
use heliograph_relay.Common.{
  ℕ, ◌+◌, ◌-◌, ◌%◌, Bool, true, false, not, ◌&&◌, ◌||◌, Option, none, some, List, [], ◌∷◌, ◌++◌,
  Text, Dict, lookup, insert, erase, decimal, length, ltb, leb, is_empty, ℤ, pos, negsuc,
  if◌then◌else◌,
}
use heliograph_relay.Relay.Message.{
  Message, Time, zero_time, Result, ok, err, too_large, queue_full, bad_route, not_durable, key,
  valid_route, max_body_bytes, default_ttl, default_max_queue,
}
use heliograph_relay.Spool.Disk.{Spool, Codec, Faults, write, remove}

pub record Store : Type 0 where
  pub q : Dict (List Message)
  pub ttl : ℕ
  pub max : ℕ
  pub spool : Option Spool
  pub ids : ℕ
  pub leases : ℕ
  pub epoch : Text

-- The epoch is the process's start, printed in base 36.
unfoldable pub new_store : Text → Store
new_store epoch = record {
  q = [];
  ttl = default_ttl;
  max = default_max_queue;
  spool = none;
  ids = 0;
  leases = 0;
  epoch = epoch;
}

-- `s.q[k]`; a missing key has an empty queue.
unfoldable pub queue : Text → Store → List Message
queue k s = elim (lookup k s.q) [ none ↦ [] | some ms ↦ ms ]

-- `s.q[k] = ms`, or `delete(s.q, k)` when nothing is left.
unfoldable pub set_queue : Text → List Message → Store → Store
set_queue k [] s = record s { q = erase k s.q }
set_queue k (m ∷ ms) s = record s { q = insert k (m ∷ ms) s.q }

unfoldable pub drop_durable : List Message → Store → Store
drop_durable ms s = elim s.spool [ none ↦ s | some sp ↦ record s { spool = some (remove ms sp) } ]

-- The loop of expireLocked: what lies before the first message that is not before `cut`, and the
-- rest.
unfoldable pub split_expired : Time → List Message → List Message × List Message
split_expired cut [] = ([], [])
split_expired cut (m ∷ ms) =
    let (old, rest) = split_expired cut ms in
    if ltb m.arrived cut then (m ∷ old, rest) else ([], m ∷ ms)

unfoldable pub expire : Text → Time → Store → Store
unfolding split_expired
expire k now s =
    let (old, rest) = split_expired (now - s.ttl) (queue k s) in
    if is_empty old then s else set_queue k rest (drop_durable old s)

-- One message of expireLeasesLocked.
unfoldable pub release : Time → Message → Message
release now m =
    if not (is_empty m.lease) && leb m.lease_until now
    then record m { lease = []; lease_until = zero_time }
    else m

unfoldable pub release_all : Time → List Message → List Message
unfolding release
release_all now [] = []
release_all now (m ∷ ms) = release now m ∷ release_all now ms

unfoldable pub expire_leases : Text → Time → Store → Store
unfolding release_all
expire_leases k now s = set_queue k (release_all now (queue k s)) s

unfoldable pub next_id : Store → Store × Text
next_id s = let n = (s.ids + 1) % 18446744073709551616 in (record s { ids = n }, b'm' ∷ decimal n)

unfoldable pub next_lease : Store → Store × Text
next_lease s =
    let n = (s.leases + 1) % 18446744073709551616 in
    (record s { leases = n }, s.epoch ++ b'-' ∷ decimal n)

unfoldable pub enqueue : Text → Message → Store → Store
enqueue k m s = set_queue k (queue k s ++ m ∷ []) s

-- The durable copy, where there is a spool: the spool afterwards, and the file unless the write
-- failed.
unfoldable pub written : Codec → Faults → Message → Option Spool → Option Spool × Option Text
written c f m none = (none, some m.file)
written c f m (some sp) = let (sp', file) = write c f m sp in (some sp', file)

-- The message is durable before it is queued.
unfoldable pub accept : Codec → Faults → Text → Message → Store → Store × Result (Unit {0})
accept c f k m s =
    let (sp, file) = written c f m s.spool in
    elim file [
      | none ↦ (record s { spool = sp }, err not_durable)
      | some name ↦ (enqueue k (record m { file = name }) (record s { spool = sp }), ok tt)
    ]

unfoldable pub put : Codec → Faults → Time → Message → Store → Store × Result (Unit {0})
put c f now m s =
    let k = key m.estate m.station m.dir in
    let s₁ = expire k now s in
    let (s₂, id) = next_id s₁ in
    if not (valid_route m.estate m.station m.dir)
    then (s, err bad_route)
    else if ltb max_body_bytes (length m.body)
    then (s, err too_large)
    else if leb s.max (length (queue k s₁))
    then (s₁, err queue_full)
    else accept c f k (record m { arrived = now; id = id }) s₂

-- `limit > 0 && count >= limit`: no limit at zero and below.
abbrev pub reached : ℤ → ℕ → Bool
reached (pos n) count = ltb 0 n && leb n count
reached (negsuc n) count = false

-- The loop of Take: what is taken, and what is kept.
unfoldable pub take_loop :
    ℤ → List Message → List Message → List Message → List Message × List Message
take_loop limit taken kept [] = (taken, kept)
take_loop limit taken kept (m ∷ ms) =
    let skip = not (is_empty m.lease) || reached limit (length taken) in
    take_loop limit (if skip then taken else taken ++ m ∷ [])
      (if skip then kept ++ m ∷ [] else kept) ms

-- What is left, with the durable copies of `gone` removed.
unfoldable pub settle_queue : Text → List Message → List Message → Store → Store
unfolding set_queue drop_durable
settle_queue k gone kept s = drop_durable gone (set_queue k kept s)

unfoldable pub take : Time → Text → Text → Text → ℤ → Store → Store × Result (List Message)
unfolding expire expire_leases take_loop settle_queue
take now estate station dir limit s =
    let k = key estate station dir in
    let s₁ = expire_leases k now (expire k now s) in
    let (taken, kept) = take_loop limit [] [] (queue k s₁) in
    if not (valid_route estate station dir)
    then (s, err bad_route)
    else if is_empty taken
    then (s₁, ok [])
    else (settle_queue k taken kept s₁, ok taken)

unfoldable pub depth : Time → Text → Text → Text → Store → Store × ℕ
unfolding expire
depth now estate station dir s =
    let k = key estate station dir in let s₁ = expire k now s in (s₁, length (queue k s₁))

unfoldable pub durable : Store → Bool
durable s = elim s.spool [ none ↦ false | some _ ↦ true ]
