-- ===== src/Recovery/Calls.antt =====
-- Every call of the store but Put keeps the disk a mirror of the queues.
use heliograph_relay.Common.{
  ℕ, ◌+◌, ◌≡◌, refl, not, List, [], ◌∷◌, map, Text, arith, is_empty, ltb, ltb_ℤ, on_both, ℤ, pos,
  negsuc,
}
use heliograph_relay.Relay.Message.{Message, Time, Result, key, valid_route}
use heliograph_relay.Relay.Store.{Store, queue, expire, expire_leases, take, take_loop, next_lease}
use heliograph_relay.Relay.Leased.{
  Lease, take_leased, hold_messages, grant_lease, hold_loop, ack, split_lease, is_blank, max_lease,
  expire_keys,
}
use heliograph_relay.Relay.Loops.{Merge, pick-Merge, take_loop-eq-pick}
use heliograph_relay.Relay.Holding.{split_lease-Merge, mark_queue, hold_loop-eq-pick}
use heliograph_relay.Spool.Disk.{Codec}
use heliograph_relay.Recovery.Mirror.{plain}
use heliograph_relay.Recovery.Settling.{
  Mirrored, Mirror-requeue, expire-Mirrored, requeue-Mirrored, due-Mirrored, settle_queue-Mirrored,
}

take_loop-Merge :
    (limit : ℤ) (ms : List Message)
    → Merge (take_loop limit [] [] ms).0 (take_loop limit [] [] ms).1 ms
take_loop-Merge limit ms = rw (take_loop-eq-pick limit [] [] ms) (pick-Merge limit 0 ms)

pub take-Mirrored :
    (c : Codec) (n : ℕ) (now : Time) (estate station dir : Text) (limit : ℤ) (s : Store)
    → Mirrored c n s
    → Mirrored c n (take now estate station dir limit s).0
unfolding take
take-Mirrored c n now estate station dir limit s h =
    let k = key estate station dir in
    let s₁ = expire_leases k now (expire k now s) in
    let h₁ = due-Mirrored c n k now s h in
    let P : Store × Result (List Message) → Type 0 = λ r. Mirrored c n r.0 in
    on_both P (not (valid_route estate station dir)) h (
      on_both P (is_empty (take_loop limit [] [] (queue k s₁)).0) h₁
        (settle_queue-Mirrored c n k _ _ s₁ h₁ (take_loop-Merge limit (queue k s₁))))

pub ack-Mirrored :
    (c : Codec) (n : ℕ) (now : Time) (estate station dir id : Text) (s : Store)
    → Mirrored c n s
    → Mirrored c n (ack now estate station dir id s).0
unfolding ack
ack-Mirrored c n now estate station dir id s h =
    let k = key estate station dir in
    let s₁ = expire_leases k now (expire k now s) in
    let h₁ = due-Mirrored c n k now s h in
    let P : Store × Result ℕ → Type 0 = λ r. Mirrored c n r.0 in
    on_both P (not (valid_route estate station dir)) h (
      on_both P (is_blank id) h (
        on_both P (is_empty (split_lease id (queue k s₁)).0) h₁
          (settle_queue-Mirrored c n k _ _ s₁ h₁ (split_lease-Merge id (queue k s₁)))))

mark_queue-plain :
    (limit : ℤ) (id : Text) (until : Time) (n : ℕ) (ms : List Message)
    → map plain (mark_queue limit id until n ms) ≡ map plain ms
unfolding mark_queue
mark_queue-plain limit id until n [] = refl
mark_queue-plain limit id until n (m ∷ ms) =
    ground (arith, mark_queue-plain limit id until n ms, mark_queue-plain limit id until (n + 1) ms)

next_lease-Mirrored :
    (c : Codec) (n : ℕ) (s : Store) → Mirrored c n s → Mirrored c n (next_lease s).0
unfolding next_lease queue
next_lease-Mirrored c n s h = record {
  sp = h.sp;
  live = h.live;
  mirror = Mirror-requeue c s (next_lease s).0 h.sp h.live refl (λ k. refl) h.mirror;
  next = h.next;
}

grant_lease-Mirrored :
    (c : Codec) (n : ℕ) (now : Time) (k : Text) (limit : ℤ) (d : ℕ) (s : Store)
    → Mirrored c n s
    → Mirrored c n (grant_lease now k limit d s).0
unfolding grant_lease
grant_lease-Mirrored c n now k limit d s h =
    let (s', id) = next_lease s in
    let (marked, held) = hold_loop limit id (now + d) [] (queue k s) in
    let h' = next_lease-Mirrored c n s h in
    on_both {A = Store × Lease} (λ r. Mirrored c n r.0) (is_empty held) h'
      (requeue-Mirrored c n k marked s'
        (rw (hold_loop-eq-pick limit id (now + d) [] (queue k s))
          (unfold next_lease queue in mark_queue-plain limit id (now + d) 0 (queue k s)))
        h')

pub take_leased-Mirrored :
    (c : Codec) (n : ℕ) (now : Time) (estate station dir : Text) (limit d : ℤ) (s : Store)
    → Mirrored c n s
    → Mirrored c n (take_leased now estate station dir limit d s).0
unfolding take_leased hold_messages
take_leased-Mirrored c n now estate station dir limit (negsuc d) s h =
    on_both {A = Store × Result Lease} (λ r. Mirrored c n r.0)
      (not (valid_route estate station dir)) h h
take_leased-Mirrored c n now estate station dir limit (pos d) s h =
    let k = key estate station dir in
    let P : Store × Result Lease → Type 0 = λ r. Mirrored c n r.0 in
    on_both P (not (valid_route estate station dir)) h (
      on_both P (not (ltb 0 d)) h (
        on_both P (ltb_ℤ max_lease (pos d)) h
          (grant_lease-Mirrored c n now k limit d _ (due-Mirrored c n k now s h))))

pub expire_keys-Mirrored :
    (c : Codec) (n : ℕ) (now : Time) (ks : List Text) (s : Store)
    → Mirrored c n s
    → Mirrored c n (expire_keys now ks s)
unfolding expire_keys
expire_keys-Mirrored c n now [] s h = h
expire_keys-Mirrored c n now (k ∷ ks) s h =
    expire_keys-Mirrored c n now ks (expire k now s) (expire-Mirrored c n k now s h)
