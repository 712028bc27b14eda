-- ===== src/Relay/Holding.antt =====
-- The loops of TakeLeased and Ack against the loop of Take.
use heliograph_relay.Common.{
  ℕ, ◌+◌, ◌≡◌, refl, sym, inl, inr, true, not, ◌||◌, List, [], ◌∷◌, ◌++◌, Text, same, same_iff,
  same_refl, ne→same, length, length-append, is_empty, All, ℤ, arith, if◌then◌else◌, Bool-cases,
  map, ◌≢◌,
}
use mathlib.Core.List.{append-nil, append_assoc}
use heliograph_relay.Relay.Message.{Message, Time}
use heliograph_relay.Relay.Store.{reached}
use heliograph_relay.Relay.Leased.{hold_loop, split_lease}
use heliograph_relay.Relay.Loops.{pick, Merge, done, left, right, pick_full}

abbrev pub mark : Text → Time → Message → Message
mark id until m = record m { lease = id; lease_until = until }

-- The queue after TakeLeased, where `n` messages are held already.
unfoldable pub mark_queue : ℤ → Text → Time → ℕ → List Message → List Message
mark_queue limit id until n [] = []
mark_queue limit id until n (m ∷ ms) =
    let skip = not (is_empty m.lease) || reached limit n in
    (if skip then m else mark id until m) ∷ mark_queue limit id until (if skip then n else n + 1) ms

mark_queue_full :
    (limit : ℤ) (id : Text) (until : Time) (n : ℕ) (ms : List Message)
    → reached limit n ≡ true
    → mark_queue limit id until n ms ≡ ms
unfolding mark_queue
mark_queue_full limit id until n [] h = refl
mark_queue_full limit id until n (m ∷ ms) h = ground (arith, mark_queue_full limit id until n ms h)

-- TakeLeased marks exactly the messages that Take would take.
pub hold_loop-eq-pick :
    (limit : ℤ) (id : Text) (until : Time) (held ms : List Message)
    → hold_loop limit id until held ms ≡ (
      mark_queue limit id until (length held) ms,
      held ++ map (mark id until) (pick limit (length held) ms).0,
    )
unfolding hold_loop pick mark_queue
hold_loop-eq-pick limit id until held [] = λ i. ([], sym (append-nil held) i)
hold_loop-eq-pick limit id until held (m ∷ ms) = elim (Bool-cases (is_empty m.lease)) [
  | inr taken ↦ rw (taken, hold_loop-eq-pick limit id until held ms)
  | inl free ↦ elim (Bool-cases (reached limit (length held))) [
    | inl full ↦
        rw
          (
            free,
            full,
            mark_queue_full limit id until (length held) ms full,
            pick_full limit (length held) ms full,
          )
          (λ i. (m ∷ ms, sym (append-nil held) i))
    | inr more ↦
        rw
          (
            free,
            more,
            hold_loop-eq-pick limit id until (held ++ mark id until m ∷ []) ms,
            length-append held (mark id until m ∷ []),
          )
          (simp append_assoc)
  ]
]

abbrev pub Unnamed : Text → Message → Type 0
Unnamed id m = m.lease ≢ id

-- Acknowledging a lease leaves what Take would have left.
pub split_lease-mark_queue :
    (limit : ℤ) (id : Text) (until : Time) (n : ℕ) (ms : List Message)
    → All (Unnamed id) ms
    → split_lease id (mark_queue limit id until n ms)
      ≡ (map (mark id until) (pick limit n ms).0, (pick limit n ms).1)
unfolding split_lease mark_queue pick
split_lease-mark_queue limit id until n [] h = refl
split_lease-mark_queue limit id until n (m ∷ ms) h =
    elim (Bool-cases (not (is_empty m.lease) || reached limit n)) [
      | inl skip ↦ rw (skip, split_lease-mark_queue limit id until n ms h.1, ne→same m.lease id h.0)
      | inr grab ↦ rw (grab, split_lease-mark_queue limit id until (n + 1) ms h.1, same_refl id)
    ]

pub split_lease-Merge :
    (id : Text) (ms : List Message) → Merge (split_lease id ms).0 (split_lease id ms).1 ms
unfolding split_lease
split_lease-Merge id [] = done
split_lease-Merge id (m ∷ ms) = elim (Bool-cases (same m.lease id)) [
  | inl hit ↦ rw hit (left (split_lease-Merge id ms))
  | inr miss ↦ rw miss (right (split_lease-Merge id ms))
]

-- Exactly the messages under the lease go.
pub split_lease-All :
    (id : Text) (ms : List Message)
    → All (λ m. m.lease ≡ id) (split_lease id ms).0 × All (Unnamed id) (split_lease id ms).1
unfolding split_lease
split_lease-All id [] = (tt, tt)
split_lease-All id (m ∷ ms) = ground (arith, same_iff m.lease id, split_lease-All id ms)
