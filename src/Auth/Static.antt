-- ===== src/Auth/Static.antt =====
-- server.go and auth.go: the tokens of a self-hosted estate, and their lift onto the authoriser.
use heliograph_relay.Common.{
  Bool, true, false, not, ◌&&◌, ◌||◌, Option, none, some, [], ◌∷◌, Text, same, Dict, lookup, insert,
  is_empty, if◌then◌else◌,
}
use heliograph_relay.Relay.Message.{valid_dir}
use heliograph_relay.Auth.Types.{
  Op, read, write, other, Request, Grant, Scope, refusal, permission, no_credential, bad_credential,
  wrong_direction,
}
use heliograph_relay.Auth.Scoped.{Authoriser, c2s, s2c}

-- The boolean interface of server.go.
pub record Auth : Type 0 where
  pub allow_read : Text → Text → Text → Text → Bool
  pub allow_write : Text → Text → Text → Text → Bool

-- sha256 of each side's token, by estate.
pub record StaticAuth : Type 0 where
  pub control : Dict Text
  pub station : Dict Text

abbrev pub new_static_auth : StaticAuth
new_static_auth = record { control = []; station = [] }

-- `match(m[estate], got)`: a missing entry reads as the zero digest, which matches nothing, as a
-- stored zero digest does.
unfoldable pub token_matches : Text → Option Text → Text → Bool
token_matches zero_digest none got = false
token_matches zero_digest (some want) got = not (same want zero_digest) && same want got

module _ (sha256 : Text → Text) (zero_digest : Text) where
  unfoldable pub set_control : Text → Text → StaticAuth → StaticAuth
  set_control estate token a = record a { control = insert estate (sha256 token) a.control }

  unfoldable pub set_station : Text → Text → StaticAuth → StaticAuth
  set_station estate token a = record a { station = insert estate (sha256 token) a.station }

  unfoldable pub static_read : StaticAuth → Text → Text → Text → Text → Bool
  unfolding token_matches
  static_read a token estate station dir =
      if is_empty token || is_empty estate || is_empty station || not (valid_dir dir)
      then false
      else token_matches zero_digest (lookup estate a.control) (sha256 token)
        || token_matches zero_digest (lookup estate a.station) (sha256 token)

  unfoldable pub static_write : StaticAuth → Text → Text → Text → Text → Bool
  unfolding token_matches
  static_write a token estate station dir =
      if is_empty token || is_empty estate || is_empty station
      then false
      else if same dir c2s
      then token_matches zero_digest (lookup estate a.control) (sha256 token)
      else if same dir s2c
      then token_matches zero_digest (lookup estate a.station) (sha256 token)
      else false

  abbrev pub static_auth : StaticAuth → Auth
  static_auth a = record { allow_read = static_read a; allow_write = static_write a }

-- What a boolean answer is worth: the whole estate.
abbrev pub estate_scope : Request → Scope
estate_scope req = record {
  estate = req.estate;
  stations = [];
  all_stations = true;
  read = c2s ∷ s2c ∷ [];
  write = req.dir ∷ [];
}

-- The switch of authAdapter.Admit.
unfoldable pub adapt : Auth → Op → Request → Grant
adapt a read req =
    if a.allow_read req.credential req.estate req.station req.dir
    then permission (estate_scope req)
    else refusal bad_credential
adapt a write req =
    if a.allow_write req.credential req.estate req.station req.dir
    then permission (estate_scope req)
    else if a.allow_read req.credential req.estate req.station req.dir
    then refusal wrong_direction
    else refusal bad_credential
adapt a other req = refusal bad_credential

unfoldable pub adapter_admit : Auth → Request → Grant
unfolding adapt
adapter_admit a req = if is_empty req.credential then refusal no_credential else adapt a req.op req

abbrev pub from_auth : Auth → Authoriser
from_auth a = record {
  State = Unit {0};
  admit = λ s now req. (s, adapter_admit a req);
  watch = λ s now req ref. (s, false);
}
