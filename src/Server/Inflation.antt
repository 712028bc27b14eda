-- ===== src/Server/Inflation.antt =====
-- A body that the store would take and the handler's cap turns away: encoding/json writes a []byte in
-- base64, four bytes for three, and the handler caps what it reads at its limit and 1024 bytes.
use heliograph_relay.Common.{
  ℕ, ◌+◌, ◌*◌, ◌/◌, ◌≤◌, ◌<◌, ◌≡◌, refl, true, [], Text, length, ltb, ℤ, arith, if◌then◌else◌,
}
use heliograph_relay.Relay.Message.{Time, valid_route, max_body_bytes, key, ok}
use heliograph_relay.Relay.Store.{Store, queue, put}
use heliograph_relay.Spool.Disk.{Codec, no_faults}
use heliograph_relay.Auth.Types.{Grant, status}
use heliograph_relay.Auth.Scoped.{Authoriser}
use heliograph_relay.Server.Reply.{refuse}
use heliograph_relay.Server.Put.{Route, Decoded, cap, new_message, put_admitted, put_handler}
use heliograph_relay.Server.Answers.{put_grant}
use heliograph_relay.Server.Admitting.{valid_route-dir, put_ok}

cap-le : (g : Grant) → cap g ≤ max_body_bytes
unfolding cap
cap-le g = ground arith

module _ (c : Codec) (auth : Authoriser) (now : Time) (r : Route) (seq : ℕ) (body : Text) (size : ℕ)
    (s : Store) where
  -- MaxBytesReader and the decoder, on a document of this size.
  abbrev pub read_up_to : ℕ → Decoded
  read_up_to limit = if ltb limit size then Decoded.over_cap else Decoded.message seq body

  cut : (limit : ℕ) → limit < size → read_up_to limit ≡ Decoded.over_cap
  cut limit lt = ground arith

  -- A sender that is admitted with a body of more than 6,292,224 bytes, in a document that holds it in
  -- base64, is told that it is too large, and nothing is stored; while Put itself takes it, up to
  -- MaxBodyBytes, on a valid route where the queue is empty and has room and no system call fails.
  pub inflated_refused :
      (credential : Text) (length_header : ℤ) (st : auth.State)
      → valid_route r.estate r.station r.dir ≡ true
      → (put_grant auth now credential r length_header st).1.allow ≡ true
      → 4 * ((length body + 2) / 3) ≤ size
      → 6292224 < length body
      → length body ≤ max_body_bytes
      → queue (key r.estate r.station r.dir) s ≡ []
      → 0 < s.max
      → let d = put_handler c no_faults auth now credential r length_header read_up_to s st in
        (d.reply.code ≡ 413)
        × (d.store ≡ s)
        × ((put c no_faults now (new_message r seq body) s).1 ≡ ok tt)
  unfolding put_handler refuse status
  inflated_refused credential length_header st valid allowed coded long fits vacant room =
      let (st', g) = put_grant auth now credential r length_header st in
      let over : read_up_to (cap g + 1024) ≡ Decoded.over_cap =
        cut (cap g + 1024) (omega (arith, cap-le g)) in
      rw (valid_route-dir r.estate r.station r.dir valid, allowed)
        (rw (put_admitted, over)
          (refl, refl, put_ok c now (new_message r seq body) s valid fits vacant room))
