-- ===== src/Conformance/Tests.antt =====
-- A lease by either encoder, and one customer's station.
use heliograph_relay.Common.{
  ◌≡◌, refl, true, false, some, [], ◌∷◌, insert, Text, bytes, same, lookup, Dict, pos,
}
use heliograph_relay.Auth.Types.{Op, Request, station_scoped, contains}
use heliograph_relay.Auth.Scoped.{c2s, narrow}
use heliograph_relay.Auth.Remote.{remote_admit, cached_grant, ask, remember, decision_key}
use heliograph_relay.Auth.Reused.{Barless}
use heliograph_relay.Common.Separators.{searched-Lacks}
use heliograph_relay.Auth.Authority.{
  Authority, Wire, is, parse_authority, new_authority, to_payload,
}
use heliograph_relay.Auth.Minting.{Base64, minted}
use heliograph_relay.Auth.MintingTests.{authority, wire, sign, base, begins, ends}
use heliograph_relay.Conformance.ControlPlane.{
  Binding, tenancy, tenant_estate, tenant_alpha, tenant_wide, bound_dirs, scope_for, decide,
}
use heliograph_relay.Conformance.Tenants.{granted, tenants_apart}
use heliograph_relay.Conformance.Lease.{Value, lease, lease_fields, payload_at}
use heliograph_relay.Conformance.Encoders.{made, encoders_agree}

abbrev plain : Authority
plain = record authority { audience = [] }

abbrev reader : Wire
reader = record wire { unmarshal = λ t. some (to_payload plain) }

reader-Base64 : Base64 reader
reader-Base64 = record { decodes = base.decodes; stopless = base.stopless }

abbrev json : Dict Value → Text
json d = bytes "json"

read_back : reader.unmarshal (json (lease_fields plain)) ≡ some (payload_at (lease_fields plain))
unfolding lease_fields lookup same
read_back = refl

encoders_agree_example :
    (parse_authority reader (lease reader json sign plain) ≡ is (made reader json sign plain))
    × (parse_authority reader (new_authority reader plain sign) ≡ is (minted reader plain sign))
    × ((made reader json sign plain).0 ≡ (minted reader plain sign).0)
encoders_agree_example =
    encoders_agree reader json sign plain reader-Base64 read_back refl (refl, refl) begins ends

abbrev alpha : Request
alpha = record {
  credential = bytes "alpha-station-credential";
  estate = tenant_estate;
  station = tenant_alpha;
  dir = c2s;
  op = Op.read;
  bytes = pos 0;
  at = 1000;
}

-- Bravo has asked for the same before.
abbrev bravo : Request
bravo = record alpha { credential = bytes "bravo-station-credential" }

alpha_reads : (granted [] ((900, bravo) ∷ []) 1000 alpha).allow ≡ true
unfolding remote_admit cached_grant ask remember decision_key decide scope_for narrow station_scoped
    contains lookup insert same
alpha_reads = refl

alpha_plain : Barless alpha
alpha_plain = (
  searched-Lacks b'|' (bytes "alpha-station-credential") refl,
  searched-Lacks b'|' tenant_estate refl,
  searched-Lacks b'|' tenant_alpha refl,
  searched-Lacks b'|' c2s refl,
)

bravo_plain : Barless bravo
bravo_plain = (
  searched-Lacks b'|' (bytes "bravo-station-credential") refl,
  searched-Lacks b'|' tenant_estate refl,
  searched-Lacks b'|' tenant_alpha refl,
  searched-Lacks b'|' c2s refl,
)

tenants_apart_example :
    (same (bytes "alpha-station-credential") tenant_wide ≡ false)
    × ((b : Binding)
        → lookup (bytes "alpha-station-credential") tenancy ≡ some b
        → (tenant_estate ≡ tenant_estate)
          × (tenant_alpha ≡ b.station)
          × (contains c2s (bound_dirs b Op.read) ≡ true))
tenants_apart_example =
    tenants_apart [] ((900, bravo) ∷ []) 1000 alpha (bravo_plain, tt) alpha_plain alpha_reads
