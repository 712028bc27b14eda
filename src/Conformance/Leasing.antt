-- ===== src/Conformance/Leasing.antt =====
-- conformance.go: of the section on leases, a lease that holds its message until it is acknowledged,
-- and one that is abandoned.
use heliograph_relay.Common.{
  Bool, true, false, not, ◌&&◌, List, [], ◌∷◌, ◌++◌, Text, bytes, same, length, is_empty, ◌==◌,
  if◌then◌else◌,
}
use heliograph_relay.Auth.Scoped.{c2s}
use heliograph_relay.Conformance.Client.{
  Msg, LeaseReply, Peer, Target, Run, ◌>>=◌, pure, Result, assert, put, take, take_leased, ack,
}

-- 0x00, 0xff, "lease", 0xfe
abbrev pub wanted : Text
wanted = 0x00 ∷ 0xff ∷ (bytes "lease" ++ 0xfe ∷ [])

abbrev pub held_station : Text → Text
held_station uniq = uniq ++ bytes "-held"

abbrev pub dying_station : Text → Text
dying_station uniq = uniq ++ bytes "-dying"

-- Of a list's first message, which is there where these are asked.
abbrev pub first_body : List Msg → Text
first_body (m ∷ ms) = m.body
first_body [] = []

abbrev pub first_id : List Msg → Text
first_id (m ∷ ms) = m.id
first_id [] = []

-- One message, under a lease with a deadline.
abbrev pub is_leased : LeaseReply → Bool
is_leased l = not (is_empty l.lease) && not (is_empty l.until) && length l.messages == 1

module _ {S : Type 0} (p : Peer S) (t : Target) (uniq : Text) where
  -- While the lease runs, and when it is acknowledged.
  -- Asked only where the target has a second estate.
  unfoldable pub others_lease : LeaseReply → Run S (List Result)
  others_lease lease = if is_empty t.other_estate then pure [] else do
    (code, _) ← ack p t.other_estate (held_station uniq) c2s t.station_tok lease.lease
    pure (assert (bytes "one estate's token cannot acknowledge another's lease") (code == 401) ∷ [])

  -- While the lease runs, and when it is acknowledged.
  unfoldable pub held_by : LeaseReply → Run S (List Result)
  unfolding others_lease
  held_by lease = do
    let station = held_station uniq
    (_, second) ← take_leased p t.estate station c2s t.station_tok (bytes "30s")
    (_, steal) ← take p t.estate station c2s t.station_tok
    (code, deleted) ← ack p t.estate station c2s t.station_tok lease.lease
    (_, after) ← take p t.estate station c2s t.station_tok
    (again, _) ← ack p t.estate station c2s t.station_tok lease.lease
    (never, _) ← ack p t.estate station c2s t.station_tok (bytes "definitely-not-a-lease")
    (nobody, _) ← ack p t.estate station c2s [] lease.lease
    others ← others_lease lease
    pure (
        assert (bytes "a leased message is byte for byte what was sent")
          (same (first_body lease.messages) wanted)
        ∷ assert (bytes "a leased message carries an id") (not (is_empty (first_id lease.messages)))
        ∷ assert (bytes "a message under a live lease is not handed to a second collector")
            (length second.messages == 0)
        ∷ assert (bytes "an empty leased collection says so in both fields")
            (is_empty second.lease && is_empty second.until)
        ∷ assert (bytes "a message under a live lease is not handed to a collection with no lease")
            (length steal == 0)
        ∷ assert (bytes "acknowledging a lease deletes what it held") (code == 200 && deleted == 1)
        ∷ assert (bytes "an acknowledged message is not delivered again") (length after == 0)
        ∷ assert (bytes "an acknowledgement the relay is not holding is refused with 410")
            (again == 410)
        ∷ assert (bytes "an acknowledgement of a lease that never existed is refused with 410")
            (never == 410)
        ∷ assert (bytes "an acknowledgement with no token is refused") (nobody == 401)
        ∷ others)

  -- With whether the section goes on.
  unfoldable pub lease_holds : Run S (List Result × Bool)
  unfolding held_by
  lease_holds = do
    let station = held_station uniq
    code ← put p t.estate station c2s t.control 3 wanted
    if not (code == 202)
        then pure (assert (bytes "a leased collection holds the message") false ∷ [], false)
        else do
          (code, lease) ← take_leased p t.estate station c2s t.station_tok (bytes "30s")
          let leased = code == 200 && is_leased lease
          let name =
              bytes "a leased collection answers with a lease id, a deadline and the messages"
          if not leased
              then pure (assert name false ∷ [], false)
              else do rest ← held_by lease; pure (assert name true ∷ rest, true)

  -- What a redelivery shows, where it was one message.
  abbrev pub redelivered : LeaseReply → LeaseReply → List Result
  redelivered short back =
      if length back.messages == 1
      then assert (bytes "a redelivered message keeps the id it had")
          (same (first_id back.messages) (first_id short.messages))
        ∷ assert (bytes "a redelivered message is under a new lease")
            (not (same back.lease short.lease))
        ∷ []
      else []

  unfoldable pub lease_returns : Run S (List Result)
  lease_returns = do
    let station = dying_station uniq
    let name = bytes "an unacknowledged lease returns the messages when it expires"
    _ ← put p t.estate station c2s t.control 9 (bytes "an hour of capture")
    (_, short) ← take_leased p t.estate station c2s t.station_tok (bytes "1s")
    if not (length short.messages == 1) then pure (assert name false ∷ []) else do
      _ ← (λ s. (p.sleep 1500000000 s, tt))
      (_, back) ← take_leased p t.estate station c2s t.station_tok (bytes "30s")
      pure (assert name (length back.messages == 1) ∷ redelivered short back)

  -- A lease that is not granted ends the section.
  unfoldable pub leases_kept : Run S (List Result)
  unfolding lease_holds lease_returns
  leases_kept = do
    (held, on) ← lease_holds
    if not on then pure held else do returned ← lease_returns; pure (held ++ returned)
