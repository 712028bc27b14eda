-- ===== src/Auth/MintingTests.antt =====
-- A lease minted and shown. Its base64 shifts every byte past the full stop.
use heliograph_relay.Common.{
  ◌+◌, ◌-◌, ◌*◌, ◌≡◌, ◌↔◌, ◌⊎◌, refl, true, some, [], ◌∷◌, ◌++◌, map, Text, bytes, same, arith, pos,
}
use heliograph_relay.Common.Separators.{Lacks}
use heliograph_relay.Relay.Message.{Time}
use heliograph_relay.Auth.Scoped.{scoped_auth}
use heliograph_relay.Auth.Authority.{
  Authority, Settings, Wire, is, parse_authority, new_authority, to_payload, unix_seconds,
  authority_admit,
}
use heliograph_relay.Auth.Bounds.{Honoured}
use heliograph_relay.Auth.Minting.{Base64, Dated, minted, parse-new_authority}
use heliograph_relay.Auth.Referral.{Outside, bearing, minted_decides}
use heliograph_relay.Auth.Tests.{scope, request, no_floors, digest, scopes}

-- The first second of 2025.
abbrev new_year : Time
new_year = (9223372036854775808 + 62135596800 + 1735689600) * 1000000000

abbrev pub authority : Authority
authority = record {
  scope = scope;
  not_before = new_year + 7;
  expires = new_year + 600000000000;
  epoch = pos 3;
  audience = bytes "relay";
}

abbrev pub wire : Wire
wire = record {
  decode64 = λ t. some (map (λ x. x - 47) t);
  encode64 = map (λ x. x + 47);
  unmarshal = λ t. some (to_payload authority);
  marshal = λ p. p.est;
}

shift_back : (t : Text) → map (λ x. x - 47) (map (λ x. x + 47) t) ≡ t
shift_back [] = refl
shift_back (x ∷ t) = let e : x + 47 - 47 ≡ x = omega arith in λ i. e i ∷ shift_back t i

stopless : (t : Text) → Lacks b'.' (map (λ x. x + 47) t)
stopless [] = tt
stopless (x ∷ t) = (λ e. absurd (omega (arith, e)), stopless t)

pub base : Base64 wire
base = record { decodes = λ t i. some (shift_back t i); stopless = stopless }

pub begins : Dated (new_year + 7)
unfolding unix_seconds
begins = (omega arith, refl)

pub ends : Dated (new_year + 600000000000)
unfolding unix_seconds
ends = (omega arith, refl)

abbrev pub sign : Text → Text
sign t = t ++ bytes "!"

abbrev settings : Settings
settings = record {
  wire = wire;
  verify = some (λ p s. same s (p ++ bytes "!"));
  audience = bytes "relay";
}

parse-new_authority_example :
    parse_authority wire (new_authority wire authority sign) ≡ is (minted wire authority sign)
parse-new_authority_example = parse-new_authority wire authority sign base refl begins ends

minted_decides_example :
    let r = bearing settings authority sign request in
    let lease = minted wire authority sign in
    let out =
      authority_admit settings
        (scoped_auth digest)
        (no_floors, scopes)
        (new_year + 60000000000)
        r in
    ((out.1.allow ≡ true) ↔ (
      Honoured settings no_floors (new_year + 60000000000) lease.0 lease.1 r
      ⊎ (Outside settings no_floors (new_year + 60000000000) lease.0 lease.1 r
          × (((scoped_auth digest).admit scopes (new_year + 60000000000) r).1.allow ≡ true))))
    × (out.0.0 ≡ no_floors)
minted_decides_example =
    minted_decides settings (scoped_auth digest) no_floors scopes (new_year + 60000000000) request
      authority sign base refl begins ends
