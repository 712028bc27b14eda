-- ===== src/Conformance/Encoders.antt =====
-- The suite's encoder of leases and the relay's own say the same.
use heliograph_relay.Common.{◌≡◌, refl, ap, ◌∙◌, false, some, [], Text, same, Dict, lookup, arith}
use heliograph_relay.Auth.Authority.{
  Authority, Signed, Wire, is, unix_seconds, to_payload, parse_authority, new_authority,
}
use heliograph_relay.Auth.Minting.{
  Base64, Dated, in_seconds, minted, parse-assembled, to_authority-to_payload, parse-new_authority,
}
use heliograph_relay.Conformance.Lease.{Value, lease, lease_fields, payload_at}

-- Leases that the suite makes: for named stations, for any audience.
abbrev pub Plain : Authority → Type 0
Plain a = (a.scope.all_stations ≡ false) × (a.audience ≡ [])

fields-payload : (a : Authority) → Plain a → payload_at (lease_fields a) ≡ to_payload a
unfolding lease_fields lookup same unix_seconds
fields-payload a h = ground (arith, h)

-- What ParseAuthority gives for the suite's lease.
abbrev pub made : Wire → (Dict Value → Text) → (Text → Text) → Authority → Authority × Signed
made w json sign a =
    let body = w.encode64 (json (lease_fields a)) in
    (in_seconds a, record { payload = body; signature = sign body })

parse-lease :
    (w : Wire) (json : Dict Value → Text) (sign : Text → Text) (a : Authority)
    → Base64 w
    → w.unmarshal (json (lease_fields a)) ≡ some (payload_at (lease_fields a))
    → Plain a
    → Dated a.not_before
    → Dated a.expires
    → parse_authority w (lease w json sign a) ≡ is (made w json sign a)
unfolding lease
parse-lease w json sign a base back plain begins ends =
    let raw = json (lease_fields a) in
    let signature = sign (w.encode64 raw) in
    parse-assembled w raw signature (to_payload a) base (back ∙ ap some (fields-payload a plain))
      begins.1 ends.1
    ∙ ap (λ b. is (b, record { payload = w.encode64 raw; signature = signature }))
        (to_authority-to_payload a begins ends)

-- The two encoders agree: a lease that the conformance suite makes and one that NewAuthority mints
-- for the same authority are both read as that authority, with its instants in whole seconds, each
-- with the signature over its own payload. The authority names its stations and no audience; JSON and
-- base64 give back what was written, base64 has no full stop, and neither instant is outside Go's
-- range or in the second that stands for none.
pub encoders_agree :
    (w : Wire) (json : Dict Value → Text) (sign : Text → Text) (a : Authority)
    → Base64 w
    → w.unmarshal (json (lease_fields a)) ≡ some (payload_at (lease_fields a))
    → w.unmarshal (w.marshal (to_payload a)) ≡ some (to_payload a)
    → Plain a
    → Dated a.not_before
    → Dated a.expires
    → (parse_authority w (lease w json sign a) ≡ is (made w json sign a))
      × (parse_authority w (new_authority w a sign) ≡ is (minted w a sign))
      × ((made w json sign a).0 ≡ (minted w a sign).0)
encoders_agree w json sign a base back back' plain begins ends = (
  parse-lease w json sign a base back plain begins ends,
  parse-new_authority w a sign base back' begins ends,
  refl,
)
