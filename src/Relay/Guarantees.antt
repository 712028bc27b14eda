-- ===== src/Relay/Guarantees.antt =====
-- What collection promises: Take, TakeLeased and Ack on the store, whoever calls.
use native.Mathlib.Nat.{zero-add}
use heliograph_relay.Common.{
  zero, suc, ◌≤ℤ◌, ◌≡◌, ◌∙◌, ◌⊎◌, inl, inr, true, false, List, Text, same, same_refl, length,
  is_empty, All, ℤ, pos, negsuc, arith, if◌then◌else◌, ◌≢◌,
}
use heliograph_relay.Relay.Message.{Message, Time, ok, err, key, valid_route, no_such_lease}
use heliograph_relay.Relay.Store.{Store, queue, reached, take}
use heliograph_relay.Relay.Leased.{ack, is_blank, split_lease}
use heliograph_relay.Relay.Frame.{current}
use heliograph_relay.Relay.Loops.{
  pick, pick-Merge, pick-Free, pick_complete, length-pick-le, Merge, Free, Held,
}
use heliograph_relay.Relay.Holding.{split_lease-Merge, split_lease-All}
use heliograph_relay.Relay.Collect.{take-result, take-queue, ack-queue, ack-result}

abbrev pub at_self {ℓ} : {A : Type ℓ} (k : Text) (a b : A) → (if same k k then a else b) ≡ a
at_self k a b = rw (same_refl k)

limited :
    (limit : ℤ) (ms : List Message) → (limit ≤ℤ pos 0) ⊎ (pos (length (pick limit 0 ms).0) ≤ℤ limit)
limited (pos zero) ms = inl (omega arith)
limited (pos (suc l)) ms = inr (omega (arith, length-pick-le l 0 ms))
limited (negsuc n) ms = inl (omega arith)

-- On a valid route Take succeeds: what it hands over and what it leaves in the queue are, in their
-- order, the messages that had not expired; it hands over free messages only; and it stops short of
-- a free message only where the limit is reached. A positive limit is not exceeded.
pub take_conserves :
    (now : Time) (estate station dir : Text) (limit : ℤ) (s : Store)
    → valid_route estate station dir ≡ true
    → let k = key estate station dir in
      let (s', r) = take now estate station dir limit s in
      (taken : List Message) × (r ≡ ok taken)
      × Merge taken (queue k s') (current k now s)
      × All Free taken
      × ((reached limit (length taken) ≡ true) ⊎ All Held (queue k s'))
      × ((limit ≤ℤ pos 0) ⊎ (pos (length taken) ≤ℤ limit))
take_conserves now estate station dir limit s valid =
    let k = key estate station dir in
    let ms = current k now s in
    let e = take-queue now estate station dir limit s valid k ∙ at_self k _ _ in
    (
      (pick limit 0 ms).0,
      take-result now estate station dir limit s valid,
      rw e (pick-Merge limit 0 ms),
      pick-Free limit 0 ms,
      rw e (rw zero-add at (pick_complete limit 0 ms)),
      limited limit ms,
    )

-- On a valid route, an acknowledgement that names a lease deletes exactly the messages under it,
-- and says how many: the rest of what had not expired stays, in its order. If none is under it
-- the answer is that there is no such lease.
pub ack_deletes :
    (now : Time) (estate station dir id : Text) (s : Store)
    → valid_route estate station dir ≡ true
    → is_blank id ≡ false
    → let k = key estate station dir in
      let (s', r) = ack now estate station dir id s in
      (acked : List Message) × (r
        ≡ (if is_empty acked then err no_such_lease else ok (length acked)))
      × Merge acked (queue k s') (current k now s)
      × All (λ m. m.lease ≡ id) acked
      × All (λ m. m.lease ≢ id) (queue k s')
ack_deletes now estate station dir id s valid named =
    let k = key estate station dir in
    let ms = current k now s in
    let e = ack-queue now estate station dir (pos 0) s valid id named k ∙ at_self k _ _ in
    (
      (split_lease id ms).0,
      ack-result now estate station dir (pos 0) s valid id named,
      rw e (split_lease-Merge id ms),
      (split_lease-All id ms).0,
      rw e (split_lease-All id ms).1,
    )
