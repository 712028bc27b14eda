-- ===== src/Conformance/Machine.antt =====
-- The server of this repository as the relay under test: Server.Service behind the suite's calls, one
-- after another, on a clock that goes on between them. What net/http and encoding/json do to a call
-- is a parameter as far as it shows: how long a marshalled body is, and how a time is printed.
use heliograph_relay.Common.{
  ℕ, ◌+◌, Bool, true, false, Option, none, some, [], ◌++◌, Text, bytes, ltb, pos, is_empty, map,
  ◌==◌, if◌then◌else◌,
}
use heliograph_relay.Relay.Message.{Message, Time, zero_time}
use heliograph_relay.Relay.Store.{new_store}
use heliograph_relay.Relay.Leased.{Lease}
use heliograph_relay.Spool.Disk.{Codec, no_faults}
use heliograph_relay.Spool.Load.{open_spool}
use heliograph_relay.Auth.Types.{Reason}
use heliograph_relay.Auth.Scoped.{Authoriser}
use heliograph_relay.Server.Reply.{Body, timeout}
use heliograph_relay.Server.Put.{Route, Decoded}
use heliograph_relay.Server.LeaseParam.{Floats}
use heliograph_relay.Server.Get.{World}
use heliograph_relay.Server.Service.{
  Server, HttpRequest, Response, replied, serve, putting, getting, acknowledging,
  new_authorising_server,
}
use heliograph_relay.Server.Service
use heliograph_relay.Conformance.Client.{
  Call, post, fetch, acknowledge, Msg, Content, blank, refused, array, leased, deleted, Answer,
  Peer,
}

-- The values of Reason's constants.
unfoldable pub reason_text : Reason → Text
reason_text Reason.allowed = []
reason_text Reason.no_credential = bytes "no-credential"
reason_text Reason.bad_credential = bytes "bad-credential"
reason_text Reason.wrong_direction = bytes "wrong-direction"
reason_text Reason.out_of_scope = bytes "out-of-scope"
reason_text Reason.estate_wide = bytes "estate-wide-credential"
reason_text Reason.authority_expired = bytes "authority-expired"
reason_text Reason.authority_unverifiable = bytes "authority-unverifiable"
reason_text Reason.authoriser_unavailable = bytes "authoriser-unavailable"
reason_text Reason.not_durable = bytes "not-durable"
reason_text Reason.revoked = bytes "authority-revoked"
reason_text Reason.bad_lease = bytes "bad-lease"
reason_text Reason.no_such_lease = bytes "no-such-lease"
reason_text Reason.bad_route = bytes "bad-route"
reason_text Reason.unreadable = bytes "unreadable-request"
reason_text Reason.too_large = bytes "too-large"
reason_text Reason.queue_full = bytes "queue-full"
reason_text Reason.internal = bytes "internal"
reason_text (Reason.custom t) = t

-- What surrounds the relay: `lag n` passes before its call number `n`, and its start number `n` has
-- the epoch `epoch n`.
pub record Bench (S : Type 0) : Type 0 where
  pub size : ℕ → Text → ℕ
  pub stamp : Time → Text
  pub lag : ℕ → ℕ
  pub dir : Text
  pub epoch : ℕ → Text
  pub first : S

pub record Machine (S : Type 0) : Type 0 where
  pub now : Time
  pub server : Server S
  pub sends : ℕ
  pub starts : ℕ

abbrev pub msg_of : Message → Msg
msg_of m = record { id = m.id; seq = m.seq; body = m.body }

-- Lease.MarshalJSON: no `until` at the zero time.
abbrev pub until_text : (Time → Text) → Lease → Text
until_text stamp l = if l.until == zero_time then [] else stamp l.until

abbrev pub content_of : (Time → Text) → Body → Content
content_of stamp Body.nothing = blank
content_of stamp (Body.error sentence why) =
    refused (record { error = sentence; reason = reason_text why })
content_of stamp (Body.array ms) = array (map msg_of ms)
content_of stamp (Body.leased l) =
    leased (record { lease = l.id; until = until_text stamp l; messages = map msg_of l.messages })
content_of stamp (Body.deleted n) = deleted n

abbrev pub answer_of : (Time → Text) → Response → Answer
answer_of stamp (replied r) = record { code = r.code; content = content_of stamp r.body }
answer_of stamp _ = record { code = 200; content = blank }

-- Target.do sets the header for a credential that is not empty.
abbrev pub bearer : Text → Text
bearer tok = if is_empty tok then [] else bytes "Bearer " ++ tok

-- A poll that nobody interrupts ends with its time.
abbrev pub idle : Time → World
idle later = record { event = timeout; later = later; meanwhile = λ s. s }

abbrev pub blank_request : Text → Time → HttpRequest
blank_request tok later = record {
  authorization = bearer tok;
  accept = [];
  content_length = pos 0;
  decode = λ limit. Decoded.unreadable;
  lease_id = none;
  query = record { limit = []; lease = []; wait = [] };
  world = idle later;
}

abbrev pub route : Text → Text → Text → Route
route estate station dir = record { estate = estate; station = station; dir = dir }

module _ (codec : Codec) (fl : Floats) (auth : Authoriser) (b : Bench auth.State) where
  -- A marshalled message, cut off by MaxBytesReader past the limit.
  abbrev pub posted : ℕ → Text → ℕ → Decoded
  posted seq body limit =
      if ltb limit (b.size seq body) then Decoded.over_cap else Decoded.message seq body

  abbrev pub target_of : Call → Service.Target
  target_of (post e st d tok seq body) = putting (route e st d)
  target_of (fetch e st d wait lease tok) = getting (route e st d)
  target_of (acknowledge e st d lease tok) = acknowledging (route e st d)

  abbrev pub request_of : Call → Time → HttpRequest
  request_of (post e st d tok seq body) later = record (blank_request tok later) {
    content_length = pos (b.size seq body);
    decode = posted seq body;
  }
  request_of (fetch e st d wait lease tok) later = record (blank_request tok later) {
    query = record { limit = []; lease = lease; wait = wait };
  }
  request_of (acknowledge e st d lease tok) later = record (blank_request tok later) {
    lease_id = some lease;
  }

  unfoldable pub send : Call → Machine auth.State → Machine auth.State × Option Answer
  unfolding serve
  send call w =
      let now = w.now + b.lag w.sends in
      let (server', response) =
        serve codec no_faults fl auth now (target_of call) (request_of call (now + w.server.wait))
          w.server in
      (
        record w { now = now; server = server'; sends = w.sends + 1 },
        some (answer_of b.stamp response),
      )

  -- The process ends, and another one is started on what is on the disk.
  unfoldable pub restart : Machine auth.State → Machine auth.State × Bool
  restart w =
      let (store, report) =
        open_spool codec b.dir w.server.store.spool (new_store (b.epoch w.starts)) in
      let server = new_authorising_server store b.first in
      elim report [
        | none ↦ (w, false)
        | some _ ↦ (record w { server = server; starts = w.starts + 1 }, true)
      ]

  abbrev pub machine : Peer (Machine auth.State)
  machine = record {
    send = send;
    sleep = λ n w. record w { now = w.now + n };
    disrupt = some restart;
  }
