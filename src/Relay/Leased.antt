-- ===== src/Relay/Leased.antt =====
-- lease.go: collection under a lease and its acknowledgement; and relay.go's Sweep.
use heliograph_relay.Common.{
  ℕ, ◌+◌, ◌-◌, Bool, not, List, [], ◌∷◌, ◌++◌, Text, same, length, ltb, is_empty, ℤ, pos, negsuc,
  ltb_ℤ, if◌then◌else◌, map,
}
use heliograph_relay.Common.Split.{trim_space}
use heliograph_relay.Relay.Message.{
  Message, Time, zero_time, Result, ok, err, bad_route, no_such_lease, bad_lease, lease_too_long,
  key, valid_route,
}
use heliograph_relay.Relay.Store.{
  Store, queue, set_queue, expire, expire_leases, next_lease, reached, settle_queue,
}

-- Five minutes.
abbrev pub max_lease : ℤ
max_lease = pos 300000000000

pub record Lease : Type 0 where
  pub id : Text
  pub until : Time
  pub messages : List Message

abbrev pub no_lease : Lease
no_lease = record { id = []; until = zero_time; messages = [] }

-- The loop of TakeLeased over the queue, in place: the queue afterwards, and what is held.
unfoldable pub hold_loop :
    ℤ → Text → Time → List Message → List Message → List Message × List Message
hold_loop limit id until held [] = ([], held)
hold_loop limit id until held (m ∷ ms) =
    let marked = record m { lease = id; lease_until = until } in
    let skipped = hold_loop limit id until held ms in
    let taken = hold_loop limit id until (held ++ marked ∷ []) ms in
    if not (is_empty m.lease)
    then (m ∷ skipped.0, skipped.1)
    else if reached limit (length held)
    then (m ∷ ms, held)
    else (marked ∷ taken.0, taken.1)

-- TakeLeased from the lease's id on, once what is due has expired.
unfoldable pub grant_lease : Time → Text → ℤ → ℕ → Store → Store × Lease
grant_lease now k limit d s =
    let (s', id) = next_lease s in
    let (marked, held) = hold_loop limit id (now + d) [] (queue k s) in
    if is_empty held
    then (s', no_lease)
    else (set_queue k marked s', record { id = id; until = now + d; messages = held })

-- TakeLeased behind its guards, for a positive duration of `d` nanoseconds.
unfoldable pub hold_messages : Time → Text → ℤ → ℕ → Store → Store × Lease
hold_messages now k limit d s = grant_lease now k limit d (expire_leases k now (expire k now s))

unfoldable pub take_leased : Time → Text → Text → Text → ℤ → ℤ → Store → Store × Result Lease
take_leased now estate station dir limit (negsuc d) s =
    if not (valid_route estate station dir) then (s, err bad_route) else (s, err bad_lease)
take_leased now estate station dir limit (pos d) s =
    let (s', lease) = hold_messages now (key estate station dir) limit d s in
    if not (valid_route estate station dir)
    then (s, err bad_route)
    else if not (ltb 0 d)
    then (s, err bad_lease)
    else if ltb_ℤ max_lease (pos d)
    then (s, err lease_too_long)
    else (s', ok lease)

-- The loop of Ack: what the lease holds, and the rest.
unfoldable pub split_lease : Text → List Message → List Message × List Message
split_lease id [] = ([], [])
split_lease id (m ∷ ms) =
    let (acked, kept) = split_lease id ms in
    if same m.lease id then (m ∷ acked, kept) else (acked, m ∷ kept)

-- `strings.TrimSpace(id) == ""`
unfoldable pub is_blank : Text → Bool
unfolding trim_space
is_blank id = is_empty (trim_space id)

unfoldable pub ack : Time → Text → Text → Text → Text → Store → Store × Result ℕ
unfolding is_blank expire expire_leases split_lease settle_queue
ack now estate station dir id s =
    let k = key estate station dir in
    let s₁ = expire_leases k now (expire k now s) in
    let (acked, kept) = split_lease id (queue k s₁) in
    if not (valid_route estate station dir)
    then (s, err bad_route)
    else if is_blank id
    then (s, err no_such_lease)
    else if is_empty acked
    then (s₁, err no_such_lease)
    else (settle_queue k acked kept s₁, ok (length acked))

-- How many messages lie in the queues of these keys.
unfoldable pub total : List Text → Store → ℕ
total [] s = 0
total (k ∷ ks) s = length (queue k s) + total ks s

unfoldable pub expire_keys : Time → List Text → Store → Store
expire_keys now [] s = s
expire_keys now (k ∷ ks) s = expire_keys now ks (expire k now s)

unfoldable pub keys : Store → List Text
keys s = map (λ e. e.0) s.q

-- Sweep goes through the map in some order: here in the order of its entries.
unfoldable pub sweep : Time → Store → Store × ℕ
unfolding total expire_keys keys
sweep now s = let s' = expire_keys now (keys s) s in (s', total (keys s) s - total (keys s') s')
