-- ===== src/Server/Tests.antt =====
-- Instances of the handlers' theorems, on an estate with one station's scope.
use heliograph_relay.Common.{
  ℕ, ◌*◌, ◌≤◌, ◌≡◌, ◌⊎◌, refl, false, none, some, [], ◌∷◌, Text, bytes, Dict, same, if◌then◌else◌,
  pos,
}
use heliograph_relay.Common.Split.{trim_space, trim_left, trim_right, cut_suffix, cut_prefix}
use heliograph_relay.Relay.Message.{ok}
use heliograph_relay.Relay.Store.{Store, new_store}
use heliograph_relay.Spool.Disk.{Codec, no_faults}
use heliograph_relay.Auth.Types.{Scope, Reason}
use heliograph_relay.Auth.Scoped.{scoped_auth, c2s, s2c}
use heliograph_relay.Server.Reply.{withdrawn}
use heliograph_relay.Server.Put.{Route, Decoded, put_handler}
use heliograph_relay.Server.LeaseParam.{Floats, parse_lease, read_number, bounded, cut_unit}
use heliograph_relay.Server.Get.{Query, World, get_handler, ack_handler}
use heliograph_relay.Server.Answers.{PutDone, put_grant, put_settles}
use heliograph_relay.Server.Polling.{SettledOnce, get_settles}
use heliograph_relay.Server.Acknowledging.{AckDone, ack_settles}

abbrev pub digest : Text → Text
digest t = 0 ∷ t

abbrev pub scopes : Dict Scope
scopes =
    (
      0 ∷ bytes "secret",
      record {
        estate = bytes "e";
        stations = bytes "s" ∷ [];
        all_stations = false;
        read = s2c ∷ [];
        write = c2s ∷ [];
      },
    )
    ∷ []

abbrev pub route : Route
route = record { estate = bytes "e"; station = bytes "s"; dir = c2s }

abbrev pub mute : Codec
mute = record { marshal = λ h. []; unmarshal = λ t. none }

abbrev pub store : Store
store = new_store (bytes "x")

abbrev pub decode : ℕ → Decoded
decode limit = Decoded.message 1 (bytes "hi")

put_settles_example :
    PutDone mute no_faults
      (scoped_auth digest)
      1000
      route
      (put_grant (scoped_auth digest) 1000 (bytes "secret") route (pos 2) scopes).1
      decode
      store
      (put_handler mute no_faults
        (scoped_auth digest)
        1000
        (bytes "secret")
        route
        (pos 2)
        decode
        store
        scopes)
put_settles_example =
    put_settles mute no_faults (scoped_auth digest) 1000 (bytes "secret") route (pos 2) decode store
      scopes

-- A notation of seconds that holds one number.
abbrev pub floats : Floats
floats = record {
  Float = ℕ;
  parse = λ t. (if same t (bytes "2") then some 2 else none);
  is_negative = λ x. false;
  scale = λ x unit. pos (x * unit);
}

two_seconds : parse_lease floats (bytes "2s") ≡ ok (pos 2000000000)
unfolding parse_lease read_number bounded cut_unit same trim_space trim_left trim_right cut_suffix
    cut_prefix
two_seconds = refl

abbrev query : Query
query = record { limit = []; lease = bytes "2s"; wait = [] }

abbrev world : World
world = record { event = withdrawn Reason.revoked; later = 2000; meanwhile = λ s. s }

get_settles_example :
    let d =
      get_handler
        (scoped_auth digest)
        floats
        1000
        (bytes "secret")
        route
        query
        world
        store
        scopes in
    ((d.settled ≡ []) × (d.store ≡ store) × (400 ≤ d.reply.code)) ⊎ SettledOnce d
get_settles_example =
    get_settles (scoped_auth digest) floats 1000 (bytes "secret") route query world store scopes

ack_settles_example :
    AckDone (scoped_auth digest) 1000 route (some (bytes "x-1")) store (
      ack_handler
        (scoped_auth digest)
        1000
        (bytes "secret")
        route
        (some (bytes "x-1"))
        store
        scopes)
ack_settles_example =
    ack_settles (scoped_auth digest) 1000 (bytes "secret") route (some (bytes "x-1")) store scopes
