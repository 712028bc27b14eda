-- ===== src/Auth/RolesTests.antt =====
-- One credential listed in two roles, as ParseStationScopes reads it.
use heliograph_relay.Common.{
  ◌≡◌, refl, ◌⊎◌, inl, inr, false, ◌&&◌, Some, Text, bytes, same, lookup, insert, Dict,
}
use heliograph_relay.Common.Split.{split, trim_space, trim_left, trim_right}
use heliograph_relay.Auth.Types.{Op, Request, Scope, contains}
use heliograph_relay.Auth.Scoped.{
  role_dirs, widened, list_station, read_entry, read_entries, parse_station_scopes, parsed, fault,
  ScopeError, scope_of, scoped_admit, add,
}
use heliograph_relay.Auth.Listing.{Lists, roles_apart}
use heliograph_relay.Auth.Tests.{digest, scopes}

-- A configuration that is read.
one_listed : parse_station_scopes digest (bytes "e:s:station:secret") ≡ parsed scopes
unfolding parse_station_scopes read_entries read_entry list_station widened add scope_of role_dirs
    split trim_space trim_left trim_right lookup insert same contains
one_listed = refl

abbrev spec : Text
spec = bytes "e:s:station:secret, e:t:control:secret"

as_station : Some (Lists (bytes "station") (bytes "secret")) (split b',' spec)
unfolding split trim_space trim_left trim_right
as_station = inl (bytes "e", bytes "s", refl)

as_control : Some (Lists (bytes "control") (bytes "secret")) (split b',' spec)
unfolding split trim_space trim_left trim_right
as_control = inr (inl (bytes "e", bytes "t", refl))

roles_apart_example :
    ((f : ScopeError) × (parse_station_scopes digest spec ≡ fault f))
    ⊎ ((bytes "station" ≡ bytes "control")
        × ((a : Dict Scope) × (parse_station_scopes digest spec ≡ parsed a)
            × ((req : Request)
                → ((scoped_admit digest a (record req { op = Op.read })).allow
                    && (scoped_admit digest a (record req { op = Op.write })).allow)
                  ≡ false)))
roles_apart_example =
    roles_apart digest spec (bytes "station") (bytes "control") (bytes "secret") as_station
      as_control
