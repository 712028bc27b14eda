-- ===== src/Relay/Message.antt =====
-- relay.go: the message, the routing key and the limits. Instants are numbers of nanoseconds from
-- the earliest instant that a Go `time.Time` can hold, so Go's zero time is a number too.
use heliograph_relay.Common.{
  ℕ, ◌*◌, Bool, false, ◌||◌, ◌∷◌, ◌++◌, Text, bytes, same, is_empty, if◌then◌else◌,
}

abbrev pub Time : Type 0
Time = ℕ

-- `time.Time{}`: the first of January of year 1.
abbrev pub zero_time : Time
zero_time = 9223372036854775808 * 1000000000

-- `lease` is empty when nobody holds the message, and `file` when there is no durable copy.
pub record Message : Type 0 where
  pub id : Text
  pub estate : Text
  pub station : Text
  pub dir : Text
  pub seq : ℕ
  pub body : Text
  pub arrived : Time
  pub file : Text
  pub lease : Text
  pub lease_until : Time

abbrev pub default_ttl : ℕ
default_ttl = 7 * 24 * 3600 * 1000000000

abbrev pub default_max_queue : ℕ
default_max_queue = 256

abbrev pub max_body_bytes : ℕ
max_body_bytes = 8388608

-- Of the errors that the store returns, ErrBadLease and its neighbours are lease.go's.
pub data Error : Type 0 where
  too_large queue_full bad_route not_durable : Error
  no_such_lease bad_lease lease_too_long : Error

pub data Result {ℓ} (A : Type ℓ) : Type ℓ where
  ok : A → Result A
  err : Error → Result A

unfoldable pub key : Text → Text → Text → Text
key estate station dir = estate ++ b'/' ∷ (station ++ b'/' ∷ dir)

unfoldable pub valid_dir : Text → Bool
valid_dir d = same d (bytes "c2s") || same d (bytes "s2c")

unfoldable pub valid_route : Text → Text → Text → Bool
valid_route estate station dir =
    if is_empty estate || is_empty station
    then false
    else same dir (bytes "c2s") || same dir (bytes "s2c")

-- A message that nobody holds.
abbrev pub available : Message → Bool
available m = is_empty m.lease
