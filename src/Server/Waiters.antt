-- ===== src/Server/Waiters.antt =====
-- server.go: the channels of the polls that are held, by queue. A channel holds at most one token.
use heliograph_relay.Common.{
  ℕ, Bool, true, false, none, some, List, [], ◌∷◌, ◌++◌, Text, Dict, lookup, insert, erase, ◌==◌,
  map, if◌then◌else◌,
}

pub record Chan : Type 0 where
  pub id : ℕ
  pub filled : Bool

abbrev pub Waiters : Type 0
Waiters = Dict (List Chan)

unfoldable pub waiting : Text → Waiters → List Chan
waiting k w = elim (lookup k w) [ none ↦ [] | some cs ↦ cs ]

-- The start of hold: a new, empty channel.
unfoldable pub enter : Text → ℕ → Waiters → Waiters
unfolding waiting
enter k ch w = insert k (waiting k w ++ record { id = ch; filled = false } ∷ []) w

unfoldable pub drop_chan : ℕ → List Chan → List Chan
drop_chan ch [] = []
drop_chan ch (c ∷ cs) = if c.id == ch then cs else c ∷ drop_chan ch cs

abbrev pub put_waiters : Text → List Chan → Waiters → Waiters
put_waiters k [] w = erase k w
put_waiters k (c ∷ cs) w = insert k (c ∷ cs) w

-- The deferred end of hold.
unfoldable pub leave : Text → ℕ → Waiters → Waiters
unfolding drop_chan waiting
leave k ch w = put_waiters k (drop_chan ch (waiting k w)) w

abbrev pub signal : Chan → Chan
signal c = record c { filled = true }

-- A send that does not block: a channel that holds its token keeps it.
unfoldable pub wake : Text → Waiters → Waiters
wake k w = elim (lookup k w) [ none ↦ w | some cs ↦ insert k (map signal cs) w ]
