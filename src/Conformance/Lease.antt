-- ===== src/Conformance/Lease.antt =====
-- conformance/conformance.go: Lease, the suite's own encoder of authorisation leases. The encoding of
-- a JSON object is a parameter.
use heliograph_relay.Common.{
  Bool, false, not, some, List, [], ◌∷◌, ◌++◌, Text, bytes, Dict, lookup, is_empty, if◌then◌else◌,
  ℤ, pos,
}
use heliograph_relay.Auth.Authority.{Authority, Payload, Wire, unix_seconds, is_zero}

pub data Value : Type 0 where
  text : Text → Value
  texts : List Text → Value
  int : ℤ → Value

-- A field that is there only if it says something.
abbrev pub optional : Bool → Text → Value → Dict Value → Dict Value
optional present k v fields = if present then (k, v) ∷ fields else fields

unfoldable pub lease_fields : Authority → Dict Value
unfolding unix_seconds
lease_fields a =
    (bytes "e", text a.scope.estate)
    ∷ (bytes "nbf", int (unix_seconds a.not_before))
    ∷ (bytes "exp", int (unix_seconds a.expires))
    ∷ optional (not (is_empty a.scope.stations)) (bytes "s") (texts a.scope.stations) (
        optional (not (is_empty a.scope.read)) (bytes "r") (texts a.scope.read) (
          optional (not (is_empty a.scope.write)) (bytes "w") (texts a.scope.write)
            (optional (not (is_zero a.epoch)) (bytes "ep") (int a.epoch) [])))

-- Lease, of an authority for named stations and any audience. json.Marshal cannot fail here.
unfoldable pub lease : Wire → (Dict Value → Text) → (Text → Text) → Authority → Text
unfolding lease_fields
lease w json sign a =
    let body = w.encode64 (json (lease_fields a)) in
    bytes "hl1." ++ (body ++ b'.' ∷ w.encode64 (sign body))

-- encoding/json into the payload: a field that is missing is left at its zero.
abbrev text_at : Text → Dict Value → Text
text_at k d = elim (lookup k d) [ some (text t) ↦ t | _ ↦ [] ]

abbrev texts_at : Text → Dict Value → List Text
texts_at k d = elim (lookup k d) [ some (texts ts) ↦ ts | _ ↦ [] ]

abbrev int_at : Text → Dict Value → ℤ
int_at k d = elim (lookup k d) [ some (int n) ↦ n | _ ↦ pos 0 ]

abbrev pub payload_at : Dict Value → Payload
payload_at d = record {
  est = text_at (bytes "e") d;
  stns = texts_at (bytes "s") d;
  all = false;
  read = texts_at (bytes "r") d;
  write = texts_at (bytes "w") d;
  nbf = int_at (bytes "nbf") d;
  exp = int_at (bytes "exp") d;
  epoch = int_at (bytes "ep") d;
  aud = text_at (bytes "aud") d;
}
