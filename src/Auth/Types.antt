-- ===== src/Auth/Types.antt =====
-- auth.go and the types of scope.go: what an authoriser is asked, what it answers, and how a
-- refusal is reported.
use heliograph_relay.Common.{
  ℕ, Bool, true, false, not, ◌&&◌, ◌||◌, List, [], ◌∷◌, Text, bytes, same, ℤ, if◌then◌else◌,
  is_empty,
}
use heliograph_relay.Relay.Message.{Time, valid_dir}

-- An authoriser's Op is a string: `other` is one that is neither "read" nor "write".
pub data Op : Type 0 where
  read write other : Op

pub record Request : Type 0 where
  pub credential : Text
  pub estate : Text
  pub station : Text
  pub dir : Text
  pub op : Op
  pub bytes : ℤ
  pub at : Time

-- The reasons of auth.go; `custom` is a text that an authoriser made up.
pub data Reason : Type 0 where
  allowed : Reason
  no_credential bad_credential wrong_direction out_of_scope estate_wide : Reason
  authority_expired authority_unverifiable : Reason
  authoriser_unavailable not_durable revoked : Reason
  bad_lease no_such_lease bad_route unreadable too_large queue_full internal : Reason
  custom : Text → Reason

unfoldable pub status : Reason → ℕ
status allowed = 200
status authoriser_unavailable = 503
status not_durable = 503
status queue_full = 429
status too_large = 413
status bad_route = 400
status unreadable = 400
status bad_lease = 400
status no_such_lease = 410
status internal = 500
status _ = 401

-- The sentence for a reason, where the authoriser gave none.
unfoldable pub detail : Reason → Text
detail wrong_direction = bytes "not authorised to write that direction for this estate"
detail out_of_scope = bytes "this credential is not scoped to that station and direction"
detail estate_wide = bytes "this tenant refuses estate-wide credentials"
detail authority_expired = bytes "this authorisation lease is outside the window it was minted for"
detail authority_unverifiable = bytes "this authorisation lease could not be verified"
detail revoked = bytes "the authority for this request was withdrawn while it was open"
detail authoriser_unavailable =
    bytes "the authoriser could not be reached, so this request was neither allowed nor refused"
detail not_durable =
    bytes "the relay could not store this message durably, so it has not been accepted"
detail bad_route = bytes "a message must name an estate, a station and a direction of c2s or s2c"
detail bad_lease = bytes "a lease must be a duration, like 30s"
detail no_such_lease =
    bytes
      "the relay is not holding that lease, so the messages may already have been returned to the queue"
detail unreadable = bytes "could not read the message"
detail too_large = bytes "message is larger than the relay will carry"
detail queue_full = bytes "this queue is full: the recipient is not collecting"
detail internal = bytes "could not accept the message"
detail _ = bytes "not authorised for this estate"

-- What a credential may do.
pub record Scope : Type 0 where
  pub estate : Text
  pub stations : List Text
  pub all_stations : Bool
  pub read : List Text
  pub write : List Text

abbrev pub no_scope : Scope
no_scope = record { estate = []; stations = []; all_stations = false; read = []; write = [] }

pub record Grant : Type 0 where
  pub allow : Bool
  pub reason : Reason
  pub detail : Text
  pub max_bytes : ℤ
  pub ref : Text
  pub scope : Scope

-- `Grant{Reason: r}`, `Grant{Reason: r, Detail: d}` and `Grant{Allow: true, Scope: s}`.
abbrev pub refusal_with : Reason → Text → Grant
refusal_with r d = record {
  allow = false;
  reason = r;
  detail = d;
  max_bytes = ℤ.pos 0;
  ref = [];
  scope = no_scope;
}

abbrev pub refusal : Reason → Grant
refusal r = refusal_with r []

abbrev pub permission : Scope → Grant
permission s = record (refusal allowed) { allow = true; scope = s }

pub data Outcome : Type 0 where
  accepted delivered empty refused revoked acknowledged : Outcome

pub record Settlement : Type 0 where
  pub ref : Text
  pub estate : Text
  pub station : Text
  pub dir : Text
  pub op : Op
  pub bytes : ℕ
  pub messages : ℕ
  pub outcome : Outcome
  pub at : Time
  pub started : Time

-- slices.Contains
unfoldable pub contains : Text → List Text → Bool
contains t [] = false
contains t (x ∷ xs) = same x t || contains t xs

-- The lists of a scope that an operation is looked up in.
abbrev pub directions : Scope → Op → List Text
directions s read = s.read
directions s write = s.write
directions s other = []

unfoldable pub permits : Scope → Text → Text → Text → Op → Bool
permits s estate station dir op =
    if is_empty estate || is_empty station || not (valid_dir dir)
    then false
    else if is_empty s.estate || not (same s.estate estate)
    then false
    else if not s.all_stations && not (contains station s.stations)
    then false
    else contains dir (directions s op)

unfoldable pub station_scoped : Scope → Bool
station_scoped s = not s.all_stations && not (is_empty s.stations)
