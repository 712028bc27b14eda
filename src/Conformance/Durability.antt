-- ===== src/Conformance/Durability.antt =====
-- conformance.go: the section on durability, and Report.
use heliograph_relay.Common.{
  ℕ, ◌+◌, Bool, true, false, not, ◌&&◌, none, some, List, [], ◌∷◌, ◌++◌, Text, bytes, same, length,
  ◌==◌, if◌then◌else◌,
}
use heliograph_relay.Auth.Scoped.{c2s}
use heliograph_relay.Conformance.Client.{
  Msg, Peer, Target, Run, ◌>>=◌, pure, Result, assert, put, take,
}

abbrev pub survives : Text
survives = bytes "a message accepted before the relay restarts is still there after it"

abbrev pub not_twice : Text
not_twice = bytes "a message collected before the relay restarts does not come back after it"

abbrev pub came_back : Text
came_back = bytes "the relay answers again after being restarted"

abbrev pub accepted : Text
accepted = bytes "a message is accepted before the relay is restarted"

abbrev pub skip : Text → Result
skip name = record { name = name; good = false; skipped = true }

-- 0x00, 0xff, a line feed, "durable", 0xfe
abbrev pub captured : Text
captured = 0x00 ∷ 0xff ∷ 10 ∷ (bytes "durable" ++ 0xfe ∷ [])

-- One message, with this body and number.
abbrev pub is_only : ℕ → Text → List Msg → Bool
is_only seq body (m ∷ []) = same m.body body && m.seq == seq
is_only seq body _ = false

abbrev pub durable_station : Text → Text
durable_station uniq = uniq ++ bytes "-durable"

abbrev pub collected_station : Text → Text
collected_station uniq = uniq ++ bytes "-collected"

module _ {S : Type 0} (p : Peer S) (t : Target) (uniq : Text) (restart : S → S × Bool) where
  -- What is collected before a restart does not come back after it.
  unfoldable pub collected_once : Run S (List Result)
  collected_once = do
    let station = collected_station uniq
    code ← put p t.estate station c2s t.control 12 (bytes "durable")
    if not (code == 202) then pure (assert not_twice false ∷ []) else do
      (_, got) ← take p t.estate station c2s t.station_tok
      if not (length got == 1) then pure (assert not_twice false ∷ []) else do
        up ← restart
        if not up then pure (assert not_twice false ∷ []) else do
          (_, again) ← take p t.estate station c2s t.station_tok
          pure (assert not_twice (length again == 0) ∷ [])

  unfoldable pub survives_restart : Run S (List Result)
  unfolding collected_once
  survives_restart = do
    let station = durable_station uniq
    code ← put p t.estate station c2s t.control 11 captured
    if not (code == 202) then pure (assert accepted false ∷ []) else do
      up ← restart
      if not up then pure (assert accepted true ∷ assert came_back false ∷ []) else do
        (code, got) ← take p t.estate station c2s t.station_tok
        rest ← collected_once
        pure (
            assert accepted true
            ∷ assert came_back true
            ∷ assert survives (code == 200 && is_only 11 captured got)
            ∷ rest)

-- With no lever the two assertions are reported as skipped.
unfoldable pub durability : {S : Type 0} → Peer S → Target → Text → Run S (List Result)
unfolding survives_restart
durability p t uniq = elim p.disrupt [
  | none ↦ pure (skip survives ∷ skip not_twice ∷ [])
  | some restart ↦ survives_restart p t uniq restart
]

pub record Counts : Type 0 where
  pub pass : ℕ
  pub fail : ℕ
  pub skipped : ℕ

unfoldable pub count_results : List Result → Counts
count_results [] = record { pass = 0; fail = 0; skipped = 0 }
count_results (r ∷ rs) =
    let c = count_results rs in
    if r.skipped
    then record c { skipped = c.skipped + 1 }
    else if r.good
    then record c { pass = c.pass + 1 }
    else record c { fail = c.fail + 1 }

-- Report, without what it prints.
unfoldable pub report : List Result → Counts × Bool
unfolding count_results
report rs = let c = count_results rs in (c, c.fail == 0)
