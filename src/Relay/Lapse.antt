-- ===== src/Relay/Lapse.antt =====
-- A lease that nobody acknowledges, and one that is acknowledged in time, seen from the queue.
use heliograph_relay.Common.{
  ℕ, ◌+◌, ◌≤◌, ◌<◌, ◌≡◌, refl, sym, ap, Bool, true, false, not, ◌&&◌, ◌||◌, List, [], ◌∷◌, Text,
  same_refl, ne→same, is_empty, keep, All, leb, ℤ, arith, if◌then◌else◌, Bool-cases, ◌≢◌, inl, inr,
}
use heliograph_relay.Relay.Message.{Message, Time}
use heliograph_relay.Relay.Store.{reached, release, release_all}
use heliograph_relay.Relay.Leased.{split_lease}
use heliograph_relay.Relay.Loops.{pick}
use heliograph_relay.Relay.Holding.{mark, mark_queue, Unnamed}
use heliograph_relay.Relay.Expiry.{fresh, Clean}

release-mark :
    (id : Text) (until now later : Time) (m : Message)
    → id ≢ []
    → until ≤ later
    → Clean m
    → (release now m).lease ≡ []
    → now ≤ later
    → release later (mark id until (release now m)) ≡ release later m
unfolding release
release-mark id until now later m nonempty u c e h = ground arith

release-release :
    (now later : Time) (m : Message) → now ≤ later → release later (release now m) ≡ release later m
unfolding release
release-release now later m h = ground arith

release-fresh : (cut now : Time) (m : Message) → fresh cut (release now m) ≡ fresh cut m
unfolding release
release-fresh cut now m = ground arith

fresh_mono : (c d : Time) (m : Message) → c ≤ d → fresh c m ≡ false → fresh d m ≡ false
fresh_mono c d m h e = ground arith

is_empty→eq : (t : Text) → is_empty t ≡ true → t ≡ []
is_empty→eq t h = ground arith

-- When a lease has run out, and the queue has aged, the queue is what it would be without it.
module _ (limit : ℤ) (id : Text) (until now later cut cut' : Time) (nonempty : id ≢ [])
    (u : until ≤ later) (t : now ≤ later) (c : cut ≤ cut') where
  lapse_mark :
      (skip : Bool) (m : Message)
      → Clean m
      → (skip ≡ false → (release now m).lease ≡ [])
      → release later (if skip then release now m else mark id until (release now m))
        ≡ release later m
  lapse_mark true m clean free = release-release now later m t
  lapse_mark false m clean free = release-mark id until now later m nonempty u clean (free refl) t

  abbrev settled : List Message → List Message
  settled ms = release_all later (keep (fresh cut') ms)

  skip-Free :
      (n : ℕ) (m : Message) → not (is_empty m.lease) || reached limit n ≡ false → m.lease ≡ []
  skip-Free n m e = is_empty→eq m.lease (ground arith)

  mark-fresh :
      (skip : Bool) (m : Message)
      → fresh cut' (if skip then release now m else mark id until (release now m)) ≡ fresh cut' m
  mark-fresh true m = release-fresh cut' now m
  mark-fresh false m = release-fresh cut' now m

  pub lapse :
      (n : ℕ) (ms : List Message)
      → All Clean ms
      → settled (mark_queue limit id until n (release_all now (keep (fresh cut) ms))) ≡ settled ms
  unfolding mark_queue release_all
  lapse n [] h = refl
  lapse n (m ∷ ms) h = elim (Bool-cases (fresh cut m)) [
    | inr old ↦ rw (old, fresh_mono cut cut' m c old) (lapse n ms h.1)
    | inl young ↦
        let skip = not (is_empty (release now m).lease) || reached limit n in
        elim (Bool-cases (fresh cut' m)) [
          | inr older ↦
              rw (young, mark-fresh skip m, older) (lapse (if skip then n else n + 1) ms h.1)
          | inl keeps ↦
              rw
                (
                  young,
                  mark-fresh skip m,
                  keeps,
                  lapse_mark skip m h.0 (skip-Free n (release now m)),
                )
                (ap (◌∷◌ (release later m)) (lapse (if skip then n else n + 1) ms h.1))
        ]
  ]

release-Unnamed :
    (id : Text) (now : Time) (m : Message) → id ≢ [] → Unnamed id m → Unnamed id (release now m)
unfolding release
release-Unnamed id now m e h = elim (Bool-cases (not (is_empty m.lease) && leb m.lease_until now)) [
  | inl due ↦ rw due (λ p. e (sym p))
  | inr not_due ↦ rw not_due h
]

pub release_all-Unnamed :
    (id : Text) (now : Time) (ms : List Message)
    → id ≢ []
    → All (Unnamed id) ms
    → All (Unnamed id) (release_all now ms)
unfolding release_all
release_all-Unnamed id now [] e h = tt
release_all-Unnamed id now (m ∷ ms) e h =
    (release-Unnamed id now m e h.0, release_all-Unnamed id now ms e h.1)

-- A lease that still runs is not released.
pub release-running :
    (id : Text) (until later : Time) (m : Message)
    → later < until
    → release later (mark id until m) ≡ mark id until m
unfolding release
release-running id until later m h = ground arith

module _ (limit : ℤ) (id : Text) (until later cut : Time) (nonempty : id ≢ [])
    (u : later < until) where
  -- What an acknowledgement in time leaves is what Take would have left.
  pub split_lease-later :
      (n : ℕ) (ms : List Message)
      → All (Unnamed id) ms
      → (split_lease id (release_all later (keep (fresh cut) (mark_queue limit id until n ms)))).1
        ≡ release_all later (keep (fresh cut) (pick limit n ms).1)
  unfolding split_lease release_all mark_queue pick
  split_lease-later n [] h = refl
  split_lease-later n (m ∷ ms) h = elim (Bool-cases (not (is_empty m.lease) || reached limit n)) [
    | inl skip ↦ elim (Bool-cases (fresh cut m)) [
      | inr old ↦ rw (skip, old) (split_lease-later n ms h.1)
      | inl young ↦
          rw
            (
              skip,
              young,
              ne→same (release later m).lease id (release-Unnamed id later m nonempty h.0),
            )
            (ap (◌∷◌ (release later m)) (split_lease-later n ms h.1))
    ]
    | inr grab ↦ elim (Bool-cases (fresh cut m)) [
      | inr old ↦ rw (grab, old) (split_lease-later (n + 1) ms h.1)
      | inl young ↦
          rw (grab, young, release-running id until later m u, same_refl id)
            (split_lease-later (n + 1) ms h.1)
    ]
  ]
