-- ===== src/Server/Reply.antt =====
-- server.go: refusals, what a handler answers, and the long poll's ends.
use heliograph_relay.Common.{
  ℕ, Bool, true, false, List, [], Text, bytes, is_empty, if◌then◌else◌, none, some,
}
use heliograph_relay.Common.Split.{cut_prefix, trim_space}
use heliograph_relay.Relay.Message.{
  Message, Error, too_large, queue_full, bad_route, not_durable, no_such_lease, bad_lease,
  lease_too_long,
}
use heliograph_relay.Relay.Leased.{Lease}
use heliograph_relay.Auth.Types.{Reason, Grant, status, detail}

-- What a request is answered with.
pub data Body : Type 0 where
  nothing : Body
  error : Text → Reason → Body
  array : List Message → Body
  leased : Lease → Body
  deleted : ℕ → Body

pub record Reply : Type 0 where
  pub code : ℕ
  pub body : Body

-- A refusal that names no reason still refuses.
abbrev pub named : Reason → Reason
named Reason.allowed = Reason.bad_credential
named r = r

unfoldable pub refuse : Grant → Reply
refuse g =
    let reason = named g.reason in
    record {
      code = status reason;
      body = error (if is_empty g.detail then detail reason else g.detail) reason;
    }

-- `err.Error()`
unfoldable pub message_of : Error → Text
message_of too_large = bytes "message is larger than the relay will carry"
message_of queue_full = bytes "this queue is full: the recipient is not collecting"
message_of bad_route = bytes "a message must name an estate, a station and a direction"
message_of not_durable =
    bytes "the relay could not store this message durably, so it has not been accepted"
message_of no_such_lease =
    bytes
      "the relay is not holding that lease, so the messages may already have been returned to the queue"
message_of bad_lease = bytes "a lease must be a duration, like 30s"
message_of lease_too_long = bytes "a lease may not be longer than 5m0s"

-- What ends a held poll first.
pub data Event : Type 0 where
  message timeout hung_up : Event
  withdrawn : Reason → Event

-- A withdrawal that gives no reason is still one.
abbrev pub or_revoked : Reason → Reason
or_revoked Reason.allowed = Reason.revoked
or_revoked r = r

-- The select of hold: whether a message woke the poll, and why its authority ended.
unfoldable pub hold : Event → Bool × Reason
hold message = (true, Reason.allowed)
hold (withdrawn why) = (false, or_revoked why)
hold timeout = (false, Reason.allowed)
hold hung_up = (false, Reason.allowed)

-- The bearer credential of an Authorization header.
unfoldable pub token : Text → Text
unfolding cut_prefix trim_space
token header = elim (cut_prefix (bytes "Bearer ") header) [
  | none ↦ []
  | some after ↦ trim_space after
]

-- "unknown" stands for a version or a hash that nobody set.
unfoldable pub reported : Text → Text
reported version = if is_empty version then bytes "unknown" else version
