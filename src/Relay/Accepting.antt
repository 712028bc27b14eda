-- ===== src/Relay/Accepting.antt =====
-- What Put does to the queues and to the spool, on each of its branches.
use heliograph_relay.Common.{
  ℕ, ◌+◌, ◌-◌, ◌%◌, ◌≤◌, ◌<◌, ◌≡◌, refl, ◌∙◌, ap, inl, inr, true, List, [], ◌∷◌, ◌++◌, Text, same,
  same_refl, length, ltb, leb, arith, if◌then◌else◌, Bool-cases, Option-cases, Option, none, some,
}
use heliograph_relay.Relay.Message.{
  Message, Time, Result, ok, err, Error, key, valid_route, max_body_bytes, too_large, queue_full,
  bad_route, not_durable,
}
use heliograph_relay.Relay.Store.{
  Store, queue, expire, split_expired, next_id, enqueue, accept, put, written,
}
use heliograph_relay.Spool.Disk.{Codec, Faults, Spool}
use heliograph_relay.Relay.Frame.{
  queue-expire, queue-set_queue, expire-SameCounters, set_queue-SameCounters,
}

-- The message as Put stores it.
abbrev pub stored : Time → Message → Text → Text → Message
stored now m id file = record m { arrived = now; id = id; file = file }

queue-enqueue :
    (j k : Text) (m : Message) (s : Store)
    → queue j (enqueue k m s) ≡ (if same k j then queue k s ++ m ∷ [] else queue j s)
unfolding enqueue
queue-enqueue j k m s = queue-set_queue j k (queue k s ++ m ∷ []) s

queue-next_id : (j : Text) (s : Store) → queue j (next_id s).0 ≡ queue j s
unfolding next_id queue
queue-next_id j s = refl

queue-spool :
    (j : Text) (sp : Option Spool) (s : Store) → queue j (record s { spool = sp }) ≡ queue j s
unfolding queue
queue-spool j sp s = refl

at_same {ℓ} : {A : Type ℓ} (k : Text) (a b : A) → (if same k k then a else b) ≡ a
at_same k a b = rw (same_refl k)

module _ (c : Codec) (f : Faults) (k : Text) (m : Message) (s : Store) where
  abbrev pub copy : Option Spool × Option Text
  copy = written c f m s.spool

  pub accept_ok :
      (name : Text)
      → copy.1 ≡ some name
      → accept c f k m s
        ≡ (enqueue k (record m { file = name }) (record s { spool = copy.0 }), ok tt)
  unfolding accept
  accept_ok name e = rw (accept, e)

  accept_err : copy.1 ≡ none → accept c f k m s ≡ (record s { spool = copy.0 }, err not_durable)
  unfolding accept
  accept_err e = rw (accept, e)

module _ (c : Codec) (f : Faults) (now : Time) (m : Message) (s : Store) where
  abbrev k : Text
  k = key m.estate m.station m.dir

  -- The message with its id and its time, before it has a file.
  abbrev pub numbered : Message
  numbered = record m { arrived = now; id = (next_id s).1 }

  abbrev pub room : List Message
  room = (split_expired (now - s.ttl) (queue k s)).1

  abbrev pub copied : Option Spool × Option Text
  copied = written c f numbered (next_id (expire k now s)).0.spool

  next_id-expire : (next_id (expire k now s)).1 ≡ (next_id s).1
  unfolding next_id
  next_id-expire = rw (expire-SameCounters k now s).ids

  pub queue-room : queue k (expire k now s) ≡ room
  queue-room = queue-expire k k now s ∙ at_same k _ _

  abbrev pub Guarded : Type 0
  Guarded =
      (valid_route m.estate m.station m.dir ≡ true)
      × (length m.body ≤ max_body_bytes)
      × (length room < s.max)

  pub put-accept : Guarded → put c f now m s ≡ accept c f k numbered (next_id (expire k now s)).0
  unfolding put
  put-accept (valid, small, free) = rw (valid, queue-room, next_id-expire) (ground arith)

  -- The store when an id has been given out and the spool has been written to.
  abbrev pub tried : Store
  tried = record (next_id (expire k now s)).0 { spool = copied.0 }

  -- The four ways in which Put ends.
  pub data PutEnd (r : Store × Result (Unit {0})) : Type 0 where
    rejected : (e : Error) → r ≡ (s, err e) → PutEnd r
    full : r ≡ (expire k now s, err queue_full) → PutEnd r
    lost : copied.1 ≡ none → r ≡ (tried, err not_durable) → PutEnd r
    kept :
        (name : Text)
        → copied.1 ≡ some name
        → Guarded
        → r ≡ (enqueue k (record numbered { file = name }) tried, ok tt)
        → PutEnd r

  accept-PutEnd : Guarded → PutEnd (put c f now m s)
  accept-PutEnd g =
      let t = (next_id (expire k now s)).0 in
      elim (Option-cases copied.1) [
        | inl e ↦ lost e (put-accept g ∙ accept_err c f k numbered t e)
        | inr (name, e) ↦ kept name e g (put-accept g ∙ accept_ok c f k numbered t name e)
      ]

  pub put-PutEnd : PutEnd (put c f now m s)
  put-PutEnd = elim (Bool-cases (valid_route m.estate m.station m.dir)) [
    | inr bad ↦ rejected bad_route (unfold put in rw bad)
    | inl valid ↦ elim (Bool-cases (ltb max_body_bytes (length m.body))) [
      | inl large ↦ rejected too_large (unfold put in rw (valid, large))
      | inr small ↦ elim (Bool-cases (leb s.max (length room))) [
        | inl crowded ↦ full (
            unfold put in rw (valid, small, queue-room, (expire-SameCounters k now s).max, crowded))
        | inr free ↦ accept-PutEnd (valid, ground arith, ground arith)
      ]
    ]
  ]

  queue-tried : (j : Text) → queue j tried ≡ (if same k j then room else queue j s)
  queue-tried j =
      queue-spool j copied.0 (next_id (expire k now s)).0
      ∙ queue-next_id j (expire k now s)
      ∙ queue-expire j k now s

  pub queue-kept :
      (name j : Text)
      → queue j (enqueue k (record numbered { file = name }) tried)
        ≡ (if same k j then room ++ record numbered { file = name } ∷ [] else queue j s)
  queue-kept name j = ground (
    arith,
    queue-enqueue j k (record numbered { file = name }) tried,
    queue-tried j,
    queue-tried k,
    same_refl k,
  )

  pub queue-lost : (j : Text) → queue j tried ≡ queue j (expire k now s)
  queue-lost j =
      queue-spool j copied.0 (next_id (expire k now s)).0 ∙ queue-next_id j (expire k now s)

  -- Only the counter of ids moves.
  pub record NextId (t : Store) : Type 0 where
    pub ids : t.ids ≡ (s.ids + 1) % 18446744073709551616
    pub leases : t.leases ≡ s.leases
    pub epoch : t.epoch ≡ s.epoch
    pub max : t.max ≡ s.max

  pub tried-NextId : NextId tried
  unfolding next_id
  tried-NextId =
      let h = expire-SameCounters k now s in
      record {
        ids = ap (λ (n : ℕ). (n + 1) % 18446744073709551616) h.ids;
        leases = h.leases;
        epoch = h.epoch;
        max = h.max;
      }

  pub kept-NextId : (n : Message) → NextId (enqueue k n tried)
  unfolding enqueue
  kept-NextId n =
      let a = set_queue-SameCounters k (queue k tried ++ n ∷ []) tried in
      let b = tried-NextId in
      record {
        ids = a.ids ∙ b.ids;
        leases = a.leases ∙ b.leases;
        epoch = a.epoch ∙ b.epoch;
        max = a.max ∙ b.max;
      }
