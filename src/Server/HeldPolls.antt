-- ===== src/Server/HeldPolls.antt =====
-- server.go: the polls that are held while others come and go and messages are accepted. Each of
-- these runs under the lock of the waiters, so a history is a sequence of them.
use heliograph_relay.Common.{
  ℕ, ◌≡◌, ◌≢◌, refl, ap, ◌∙◌, Bool, true, false, ◌||◌, Option, none, some, List, [], ◌∷◌, ◌++◌,
  Text, same, same_iff, same_refl, map, ◌==◌, if◌then◌else◌, arith, All,
}
use heliograph_relay.Server.Waiters.{Chan, Waiters, waiting, enter, leave, wake, drop_chan, signal}
use heliograph_relay.Server.Waking.{Unused, wake_fills, waiting-put_waiters, waiting-insert}

pub data Happening : Type 0 where
  arrives departs : (k : Text) (ch : ℕ) → Happening
  accepted : (k : Text) → Happening

unfoldable pub happen : Happening → Waiters → Waiters
unfolding enter leave wake
happen (arrives k ch) w = enter k ch w
happen (departs k ch) w = leave k ch w
happen (accepted k) w = wake k w

unfoldable pub happens : List Happening → Waiters → Waiters
happens [] w = w
happens (h ∷ hs) w = happens hs (happen h w)

-- What a poll's channel holds: nothing if it is not registered.
unfoldable pub token_in : ℕ → List Chan → Option Bool
token_in ch [] = none
token_in ch (c ∷ cs) = if c.id == ch then some c.filled else token_in ch cs

-- The comings and goings of other polls.
abbrev pub NotOf : ℕ → Happening → Type 0
NotOf ch (arrives k c) = c ≢ ch
NotOf ch (departs k c) = c ≢ ch
NotOf ch (accepted k) = Unit {0}

abbrev pub is_message : Text → Happening → Bool
is_message k (accepted j) = same j k
is_message k _ = false

unfoldable pub any_message : Text → List Happening → Bool
any_message k [] = false
any_message k (h ∷ hs) = is_message k h || any_message k hs

token_in-append :
    (ch : ℕ) (c : Chan) (cs : List Chan) → c.id ≢ ch → token_in ch (cs ++ c ∷ []) ≡ token_in ch cs
unfolding token_in
token_in-append ch c [] h = ground arith
token_in-append ch c (x ∷ cs) h = ground (arith, token_in-append ch c cs h)

token_in-new :
    (ch : ℕ) (cs : List Chan)
    → Unused ch cs
    → token_in ch (cs ++ record { id = ch; filled = false } ∷ []) ≡ some false
unfolding token_in
token_in-new ch [] h = ground arith
token_in-new ch (x ∷ cs) h = ground (arith, token_in-new ch cs h.1, h.0)

token_in-drop_chan :
    (ch c : ℕ) (cs : List Chan) → c ≢ ch → token_in ch (drop_chan c cs) ≡ token_in ch cs
unfolding token_in drop_chan
token_in-drop_chan ch c [] h = refl
token_in-drop_chan ch c (x ∷ cs) h = ground (arith, token_in-drop_chan ch c cs h)

token_in-signal :
    (ch : ℕ) (b : Bool) (cs : List Chan)
    → token_in ch cs ≡ some b
    → token_in ch (map signal cs) ≡ some true
unfolding token_in
token_in-signal ch b [] h = ground (arith, h)
token_in-signal ch b (x ∷ cs) h = ground (arith, token_in-signal ch b cs, h)

module _ (k : Text) (ch : ℕ) where
  happen-token :
      (h : Happening) (b : Bool) (w : Waiters)
      → NotOf ch h
      → token_in ch (waiting k w) ≡ some b
      → token_in ch (waiting k (happen h w)) ≡ some (b || is_message k h)
  unfolding happen
  happen-token (arrives j c) b w n e =
      let cs = waiting j w ++ record { id = c; filled = false } ∷ [] in
      ground (
        arith,
        waiting-insert j k cs w,
        same_iff j k,
        token_in-append ch (record { id = c; filled = false }) (waiting j w) n,
        e,
      )
  happen-token (departs j c) b w n e = ground (
    arith,
    waiting-put_waiters j k (drop_chan c (waiting j w)) w,
    same_iff j k,
    token_in-drop_chan ch c (waiting j w) n,
    e,
  )
  happen-token (accepted j) b w n e =
      ground (arith, wake_fills j k w, token_in-signal ch b (waiting k w) e, e)

  happens-token :
      (hs : List Happening) (b : Bool) (w : Waiters)
      → All (NotOf ch) hs
      → token_in ch (waiting k w) ≡ some b
      → token_in ch (waiting k (happens hs w)) ≡ some (b || any_message k hs)
  unfolding happens any_message
  happens-token [] b w n e = ground (arith, e)
  happens-token (h ∷ hs) b w n e =
      ground
        (arith, happens-token hs (b || is_message k h) (happen h w) n.1 (happen-token h b w n.0 e))

  -- From the moment a poll is held on a queue until it leaves, whatever other polls come and go and
  -- whatever messages are accepted, it stays registered, and its channel holds a token exactly when a
  -- message was accepted on its queue since. Its channel must be its own.
  pub held_wakes :
      (hs : List Happening) (w : Waiters)
      → Unused ch (waiting k w)
      → All (NotOf ch) hs
      → token_in ch (waiting k (happens hs (enter k ch w))) ≡ some (any_message k hs)
  unfolding enter
  held_wakes hs w new n = happens-token hs false (enter k ch w) n (
      ap (token_in ch)
        (waiting-insert k k (waiting k w ++ record { id = ch; filled = false } ∷ []) w)
      ∙ rw (same_refl k) (token_in-new ch (waiting k w) new))
