-- ===== src/Server/Put.antt =====
-- server.go: the handler of POST /v1/{estate}/{station}/{dir}. The request's body is decoded by
-- net/http and encoding/json, which are a parameter: from the cap on the body to what was read.
use heliograph_relay.Common.{
  ℕ, ◌+◌, not, List, [], ◌∷◌, Text, length, ltb, ℤ, pos, negsuc, if◌then◌else◌, ◌&&◌,
}
use heliograph_relay.Relay.Message.{
  Message, Time, zero_time, Error, ok, err, too_large, queue_full, bad_route, not_durable, key,
  valid_dir, max_body_bytes,
}
use heliograph_relay.Relay.Store.{Store, put}
use heliograph_relay.Spool.Disk.{Codec, Faults}
use heliograph_relay.Auth.Types.{
  Op, Reason, Request, Grant, Settlement, Outcome, refusal, refusal_with,
}
use heliograph_relay.Auth.Scoped.{Authoriser}
use heliograph_relay.Server.Reply.{Reply, Body, refuse, message_of}

pub record Route : Type 0 where
  pub estate : Text
  pub station : Text
  pub dir : Text

-- What the decoder makes of a request's body.
pub data Decoded : Type 0 where
  message : (seq : ℕ) (body : Text) → Decoded
  over_cap unreadable : Decoded

-- What comes of a request, besides the store: the settlements, and the queues that are woken.
pub record Done (S : Type 0) : Type 0 where
  pub store : Store
  pub auth : S
  pub reply : Reply
  pub settled : List Settlement
  pub woken : List Text

abbrev pub settlement : Grant → Route → Op → ℕ → ℕ → Outcome → Time → Time → Settlement
settlement g r op bytes messages outcome at started = record {
  ref = g.ref;
  estate = r.estate;
  station = r.station;
  dir = r.dir;
  op = op;
  bytes = bytes;
  messages = messages;
  outcome = outcome;
  at = at;
  started = started;
}

-- The authoriser's cap, where it is tighter.
unfoldable pub cap : Grant → ℕ
cap g = elim g.max_bytes [
  | pos n ↦ if ltb 0 n && ltb n max_body_bytes then n else max_body_bytes
  | negsuc n ↦ max_body_bytes
]

-- How put answers what the store said.
unfoldable pub put_refusal : Error → Grant
put_refusal too_large = refusal_with Reason.too_large (message_of too_large)
put_refusal queue_full = refusal_with Reason.queue_full (message_of queue_full)
put_refusal bad_route = refusal_with Reason.bad_route (message_of bad_route)
put_refusal not_durable = refusal Reason.not_durable
put_refusal _ = refusal Reason.internal

abbrev pub new_message : Route → ℕ → Text → Message
new_message r seq body = record {
  id = [];
  estate = r.estate;
  station = r.station;
  dir = r.dir;
  seq = seq;
  body = body;
  arrived = zero_time;
  file = [];
  lease = [];
  lease_until = zero_time;
}

module _ (codec : Codec) (faults : Faults) (auth : Authoriser) where
  -- What follows a message that was decoded.
  unfoldable pub put_message :
      Time → Grant → Route → ℕ → Text → Store → auth.State → Done auth.State
  unfolding cap put_refusal
  put_message now g r seq body s st =
      let (s', result) = put codec faults now (new_message r seq body) s in
      let refused : Store → Grant → Done auth.State = λ s'' why. record {
        store = s'';
        auth = st;
        reply = refuse why;
        settled = settlement g r Op.write 0 0 Outcome.refused now now ∷ [];
        woken = [];
      } in
      if ltb (cap g) (length body) then refused s (refusal Reason.too_large) else elim result [
        | err e ↦ refused s' (put_refusal e)
        | ok _ ↦ record {
          store = s';
          auth = st;
          reply = record { code = 202; body = Body.nothing };
          settled = settlement g r Op.write (length body) 1 Outcome.accepted now now ∷ [];
          woken = key r.estate r.station r.dir ∷ [];
        }
      ]

  -- What follows admission.
  unfoldable pub put_admitted :
      Time → Grant → Route → (ℕ → Decoded) → Store → auth.State → Done auth.State
  unfolding put_message
  put_admitted now g r decode s st =
      let refused : Reason → Done auth.State = λ why. record {
        store = s;
        auth = st;
        reply = refuse (refusal why);
        settled = settlement g r Op.write 0 0 Outcome.refused now now ∷ [];
        woken = [];
      } in
      elim (decode (cap g + 1024)) [
        | over_cap ↦ refused Reason.too_large
        | unreadable ↦ refused Reason.unreadable
        | message seq body ↦ put_message now g r seq body s st
      ]

  unfoldable pub put_handler :
      Time → Text → Route → ℤ → (ℕ → Decoded) → Store → auth.State → Done auth.State
  unfolding put_admitted
  put_handler now credential r content_length decode s st =
      let req : Request = record {
        credential = credential;
        estate = r.estate;
        station = r.station;
        dir = r.dir;
        op = Op.write;
        bytes = content_length;
        at = now;
      } in
      let (st', g) = auth.admit st now req in
      let refused : auth.State → Grant → Done auth.State = λ st'' why. record {
        store = s;
        auth = st'';
        reply = refuse why;
        settled = [];
        woken = [];
      } in
      if not (valid_dir r.dir)
      then refused st (refusal Reason.bad_route)
      else if not g.allow
      then refused st' g
      else put_admitted now g r decode s st'
