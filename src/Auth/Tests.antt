-- ===== src/Auth/Tests.antt =====
-- Instances of the authorisers' theorems. A digest is the text itself, behind one byte.
use heliograph_relay.Common.{
  ◌≡◌, ◌↔◌, ◌⊎◌, refl, true, false, none, some, [], ◌∷◌, Text, bytes, arith, Dict, lookup, same,
  if◌then◌else◌, pos, any, List,
}
use heliograph_relay.Relay.Message.{valid_dir}
use heliograph_relay.Auth.Types.{Op, Request, Grant, Scope, Reason, permits, contains, permission}
use heliograph_relay.Auth.Scoped.{c2s, s2c}
use heliograph_relay.Auth.Static.{StaticAuth}
use heliograph_relay.Auth.Authority.{
  Authority, Signed, Settings, Wire, Floors, check, floor, revoke,
}
use heliograph_relay.Auth.Remote.{Answer, unreachable, response}
use heliograph_relay.Common.Separators.{Lacks}
use heliograph_relay.Auth.Watching.{among, waits_on, revoke_ends}
use heliograph_relay.Auth.Authority.{watch_key, no_watch}
use heliograph_relay.Auth.Bounds.{
  Honoured, check_honours, check_lapses, revoke_refuses, Change, changes,
}
use heliograph_relay.Auth.Reused.{Exchange}

abbrev pub scope : Scope
scope = record {
  estate = bytes "e";
  stations = bytes "s" ∷ [];
  all_stations = false;
  read = c2s ∷ [];
  write = s2c ∷ [];
}

abbrev pub request : Request
request = record {
  credential = bytes "secret";
  estate = bytes "e";
  station = bytes "s";
  dir = c2s;
  op = Op.read;
  bytes = pos 0;
  at = 1000;
}

abbrev wire : Wire
wire = record {
  decode64 = λ t. some t;
  encode64 = λ t. t;
  unmarshal = λ t. none;
  marshal = λ p. [];
}

abbrev settings : Settings
settings = record { wire = wire; verify = some (λ p s. same p s); audience = bytes "relay" }

abbrev authority : Authority
authority = record {
  scope = scope;
  not_before = 500;
  expires = 2000;
  epoch = pos 3;
  audience = bytes "relay";
}

abbrev signed : Signed
signed = record { payload = bytes "p"; signature = bytes "p" }

abbrev pub no_floors : Floors
no_floors = record { epoch = []; watchers = [] }

-- The lease is honoured while nothing is revoked.
honoured : (check settings no_floors 1000 authority signed request).allow ≡ true
unfolding check floor permits contains valid_dir lookup same
honoured = refl

check_honours_example :
    ((check settings no_floors 1000 authority signed request).allow ≡ true)
    ↔ Honoured settings no_floors 1000 authority signed request
check_honours_example = check_honours settings no_floors 1000 authority signed request

check_lapses_example :
    (check settings no_floors 900000000500 authority signed request).allow ≡ false
check_lapses_example =
    check_lapses settings no_floors 900000000500 authority signed request (omega arith)

-- The estate's floor is raised to four, and then a poll ends and another revocation names two.
abbrev since : List Change
since =
    Change.unwatched (watch_key (bytes "e") (bytes "s") c2s) 7
    ∷ Change.revoked (bytes "e") (pos 2)
    ∷ []

revoke_refuses_example :
    (check settings
      (changes settings since (revoke (bytes "e") (pos 4) no_floors).0)
      1000
      authority
      signed
      request).allow
    ≡ false
revoke_refuses_example =
    revoke_refuses settings no_floors 1000 authority signed request (pos 4) since refl

abbrev pub digest : Text → Text
digest t = 0 ∷ t

abbrev pub scopes : Dict Scope
scopes = (0 ∷ bytes "secret", scope) ∷ []

abbrev tokens : StaticAuth
tokens = record {
  control = (bytes "e", 0 ∷ bytes "c") ∷ [];
  station = (bytes "e", 0 ∷ bytes "t") ∷ [];
}

abbrev answer : Answer
answer =
    response 200
      (some (record { allow = true; reason = Reason.allowed; detail = []; scope = some scope }))

abbrev first_asked : Exchange
first_asked = record { req = request; answer = answer; now = 1000; later = 1005 }

-- The second time it cannot be reached.
abbrev asked_again : Exchange
asked_again = record { req = request; answer = unreachable; now = 2000; later = 2000 }

abbrev yes : Grant
yes = permission scope

abbrev watched : Floors
watched = record { epoch = []; watchers = (watch_key (bytes "e") (bytes "s") c2s, 7 ∷ []) ∷ [] }

zero_free : Lacks 0 (bytes "e")
zero_free = (λ p. absurd (omega (arith, p)), tt)

revoke_ends_example :
    (no_watch (revoke (bytes "e") (pos 4) watched).0 (watch_key (bytes "e") (bytes "s") c2s) ≡ (
      if same (bytes "e") (bytes "e")
      then []
      else no_watch watched (watch_key (bytes "e") (bytes "s") c2s)))
    × ((among 7 (no_watch watched (watch_key (bytes "e") (bytes "s") c2s)) ≡ false)
        ⊎ (among 7 (revoke (bytes "e") (pos 4) watched).1 ≡ true))
    × (among 7 (revoke (bytes "e") (pos 4) watched).1
        ≡ any (waits_on (bytes "e") 7) watched.watchers)
revoke_ends_example =
    revoke_ends (bytes "e") (bytes "e") (pos 4) watched (bytes "s") c2s 7 zero_free zero_free
