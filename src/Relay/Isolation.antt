-- ===== src/Relay/Isolation.antt =====
-- No operation of the store on one queue changes another queue.
use heliograph_relay.Common.{
  ℕ, ◌+◌, ◌≡◌, refl, ◌∙◌, false, List, [], ◌∷◌, ◌++◌, Text, same, is_empty, ℤ, pos, negsuc, arith,
  inl, inr, on_both, Option-cases,
}
use heliograph_relay.Relay.Message.{Message, Time, key}
use heliograph_relay.Relay.Store.{
  Store, queue, set_queue, expire, expire_leases, take_loop, settle_queue, next_id, next_lease,
  written, accept, enqueue, put, take,
}
use heliograph_relay.Relay.Leased.{
  take_leased, hold_messages, grant_lease, hold_loop, split_lease, ack,
}
use heliograph_relay.Relay.Frame.{queue-set_queue, queue-expire, queue-current, queue-settle_queue}
use heliograph_relay.Spool.Disk.{Codec, Faults}

module _ (j k : Text) (other : same k j ≡ false) where
  pub expire-other : (now : Time) (s : Store) → queue j (expire k now s) ≡ queue j s
  expire-other now s = ground (arith, queue-expire j k now s, other)

  current-other :
      (now : Time) (s : Store) → queue j (expire_leases k now (expire k now s)) ≡ queue j s
  current-other now s = ground (arith, queue-current j k now s, other)

  settle_queue-other :
      (gone kept : List Message) (s : Store) → queue j (settle_queue k gone kept s) ≡ queue j s
  settle_queue-other gone kept s = ground (arith, queue-settle_queue j k gone kept s, other)

  set_queue-other : (ms : List Message) (s : Store) → queue j (set_queue k ms s) ≡ queue j s
  set_queue-other ms s = ground (arith, queue-set_queue j k ms s, other)

  accept-other :
      (c : Codec) (f : Faults) (m : Message) (s : Store) → queue j (accept c f k m s).0 ≡ queue j s
  unfolding accept enqueue queue
  accept-other c f m s = elim (Option-cases (written c f m s.spool).1) [
    | inl e ↦ rw (accept, e) refl
    | inr (name, e) ↦
        let s' = record s { spool = (written c f m s.spool).0 } in
        rw (accept, e) (set_queue-other (queue k s' ++ record m { file = name } ∷ []) s')
  ]

next_id-queue : (j : Text) (s : Store) → queue j (next_id s).0 ≡ queue j s
unfolding next_id queue
next_id-queue j s = refl

next_lease-queue : (j : Text) (s : Store) → queue j (next_lease s).0 ≡ queue j s
unfolding next_lease queue
next_lease-queue j s = refl

module _ (j : Text) (now : Time) (estate station dir : Text)
    (other : same (key estate station dir) j ≡ false) where
  abbrev k : Text
  k = key estate station dir

  pub take-other :
      (limit : ℤ) (s : Store) → queue j (take now estate station dir limit s).0 ≡ queue j s
  unfolding take
  take-other limit s =
      let s₁ = expire_leases k now (expire k now s) in
      let (taken, kept) = take_loop limit [] [] (queue k s₁) in
      ground (arith, current-other j k other now s, settle_queue-other j k other taken kept s₁)

  pub ack-other : (id : Text) (s : Store) → queue j (ack now estate station dir id s).0 ≡ queue j s
  unfolding ack
  ack-other id s =
      let s₁ = expire_leases k now (expire k now s) in
      let (acked, kept) = split_lease id (queue k s₁) in
      ground (arith, current-other j k other now s, settle_queue-other j k other acked kept s₁)

  hold_messages-other :
      (limit : ℤ) (d : ℕ) (s : Store) → queue j (hold_messages now k limit d s).0 ≡ queue j s
  unfolding hold_messages grant_lease next_lease
  hold_messages-other limit d s =
      let s₁ = expire_leases k now (expire k now s) in
      let (s', id) = next_lease s₁ in
      let (marked, held) = hold_loop limit id (now + d) [] (queue k s₁) in
      let P = λ (r : Store × _). queue j r.0 ≡ queue j s in
      let same_queue : queue j s' ≡ queue j s₁ = next_lease-queue j s₁ in
      on_both P (is_empty held) (same_queue ∙ current-other j k other now s)
        (set_queue-other j k other marked s' ∙ same_queue ∙ current-other j k other now s)

  pub take_leased-other :
      (limit d : ℤ) (s : Store)
      → queue j (take_leased now estate station dir limit d s).0 ≡ queue j s
  unfolding take_leased
  take_leased-other limit (negsuc d) s = ground arith
  take_leased-other limit (pos d) s = ground (arith, hold_messages-other limit d s)

  pub put-other :
      (c : Codec) (f : Faults) (m : Message) (s : Store)
      → key m.estate m.station m.dir ≡ k
      → queue j (put c f now m s).0 ≡ queue j s
  unfolding put
  put-other c f m s e =
      let s₁ = expire k now s in
      let (s₂, id) = next_id s₁ in
      let m' = record m { arrived = now; id = id } in
      rw (put, e)
        (ground (
          arith,
          expire-other j k other now s,
          next_id-queue j s₁,
          accept-other j k other c f m' s₂,
        ))
