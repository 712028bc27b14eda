-- ===== src/Server/Waking.antt =====
-- The registration of held polls: what entering, leaving and waking do to each queue's channels.
use heliograph_relay.Common.{
  ℕ, ◌≡◌, Bool, false, List, [], ◌∷◌, ◌++◌, Text, same, same_iff, same_refl, lookup, insert,
  lookup-insert, lookup-erase, map, if◌then◌else◌, arith, Option-cases, inl, inr, All, ◌≢◌,
}
use heliograph_relay.Server.Waiters.{
  Chan, Waiters, waiting, enter, leave, wake, drop_chan, put_waiters, signal,
}

-- A channel that no poll waits on.
abbrev pub Unused : ℕ → List Chan → Type 0
Unused ch cs = All (λ c. c.id ≢ ch) cs

drop_chan-append :
    (ch : ℕ) (b : Bool) (cs : List Chan)
    → Unused ch cs
    → drop_chan ch (cs ++ record { id = ch; filled = b } ∷ []) ≡ cs
unfolding drop_chan
drop_chan-append ch b [] h = ground arith
drop_chan-append ch b (c ∷ cs) h = ground (arith, drop_chan-append ch b cs h.1)

pub waiting-put_waiters :
    (k j : Text) (cs : List Chan) (w : Waiters)
    → waiting j (put_waiters k cs w) ≡ (if same k j then cs else waiting j w)
unfolding waiting
waiting-put_waiters k j [] w = ground (arith, lookup-erase k j w)
waiting-put_waiters k j (c ∷ cs) w = ground (arith, lookup-insert k j (c ∷ cs) w)

pub waiting-insert :
    (k j : Text) (cs : List Chan) (w : Waiters)
    → waiting j (insert k cs w) ≡ (if same k j then cs else waiting j w)
unfolding waiting
waiting-insert k j cs w = ground (arith, lookup-insert k j cs w)

-- A message on a queue fills the channel of every poll that is held on it, and of no other poll.
pub wake_fills :
    (k j : Text) (w : Waiters)
    → waiting j (wake k w) ≡ (if same k j then map signal (waiting j w) else waiting j w)
unfolding wake waiting
wake_fills k j w = elim (Option-cases (lookup k w)) [
  | inl e ↦ rw (wake, e) (ground (arith, e, same_iff k j))
  | inr (cs, e) ↦
      rw (wake, e) (ground (arith, e, same_iff k j, lookup-insert k j (map signal cs) w))
]

-- A poll that is held and then leaves, woken or not, leaves every queue's channels as it found them.
-- Its channel must be a new one.
pub leave-enter :
    (k j : Text) (ch : ℕ) (w : Waiters)
    → Unused ch (waiting k w)
    → waiting j (leave k ch (enter k ch w)) ≡ waiting j w
unfolding leave enter
leave-enter k j ch w h =
    let cs = waiting k w ++ record { id = ch; filled = false } ∷ [] in
    let held = insert k cs w in
    ground (
      arith,
      waiting-put_waiters k j (drop_chan ch (waiting k held)) held,
      waiting-insert k k cs w,
      waiting-insert k j cs w,
      drop_chan-append ch false (waiting k w) h,
      same_refl k,
      same_iff k j,
    )
