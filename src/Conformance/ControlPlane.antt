-- ===== src/Conformance/ControlPlane.antt =====
-- cmd/conformance/main.go: the authoriser of the conformance suite, which answers a relay under test.
-- What it decodes of a request is the request itself, and its answer is what the relay decodes.
use heliograph_relay.Common.{
  Bool, true, false, not, ◌||◌, Option, none, some, List, [], ◌∷◌, Text, bytes, same, Dict, lookup,
  is_empty, if◌then◌else◌,
}
use heliograph_relay.Common.Split.{trim_space}
use heliograph_relay.Auth.Types.{
  Op, read, write, other, Reason, allowed, bad_credential, no_credential, wrong_direction,
  out_of_scope, Request, Scope, contains,
}
use heliograph_relay.Auth.Scoped.{c2s, s2c}
use heliograph_relay.Auth.Remote.{Decision}

abbrev pub tenant_estate : Text
tenant_estate = bytes "e-tenancy"

abbrev pub tenant_alpha : Text
tenant_alpha = bytes "alpha-01"

abbrev pub tenant_bravo : Text
tenant_bravo = bytes "bravo-07"

abbrev pub tenant_wide : Text
tenant_wide = bytes "estate-wide-credential"

-- One credential's station, and the directions it reads and writes.
pub record Binding : Type 0 where
  pub station : Text
  pub read : List Text
  pub write : List Text

abbrev station_side : Text → Binding
station_side station = record { station = station; read = c2s ∷ []; write = s2c ∷ [] }

abbrev control_side : Text → Binding
control_side station = record { station = station; read = s2c ∷ []; write = c2s ∷ [] }

abbrev pub tenancy : Dict Binding
tenancy =
    (bytes "alpha-station-credential", station_side tenant_alpha)
    ∷ (bytes "alpha-control-credential", control_side tenant_alpha)
    ∷ (bytes "bravo-station-credential", station_side tenant_bravo)
    ∷ (bytes "bravo-control-credential", control_side tenant_bravo)
    ∷ []

abbrev pub station_scope : Text → Text → List Text → List Text → Scope
station_scope estate station rd wr = record {
  estate = estate;
  stations = station ∷ [];
  all_stations = false;
  read = rd;
  write = wr;
}

-- Only "write" looks in the written directions.
abbrev pub bound_dirs : Binding → Op → List Text
bound_dirs b write = b.write
bound_dirs b _ = b.read

unfoldable pub scope_for : Request → Option Scope
scope_for r =
    if same r.credential tenant_wide
    then some (record {
      estate = r.estate;
      stations = [];
      all_stations = true;
      read = c2s ∷ s2c ∷ [];
      write = c2s ∷ s2c ∷ [];
    })
    else elim (lookup r.credential tenancy) [
      | none ↦ none
      | some b ↦
          if not (same r.estate tenant_estate) || not (same r.station b.station)
          then none
          else if not (contains r.dir (bound_dirs b r.op))
          then none
          else some (station_scope r.estate b.station b.read b.write)
    ]

abbrev pub says : Bool → Reason → Option Scope → Decision
says allow reason scope = record { allow = allow; reason = reason; detail = []; scope = scope }

-- The answer for an ordinary estate: whether it is allowed, and the reason if it is not. A missing
-- estate has a pair of empty tokens and is not known.
unfoldable pub judge : Request → Text → Text → Bool → Bool × Reason
judge r control station known =
    if is_empty r.credential
    then (false, no_credential)
    else if not known
    then (false, bad_credential)
    else elim r.op [
      | read ↦ (same r.credential control || same r.credential station, bad_credential)
      | write ↦
          if same r.dir c2s
          then (
            same r.credential control,
            if same r.credential station then wrong_direction else bad_credential,
          )
          else if same r.dir s2c
          then (
            same r.credential station,
            if same r.credential control then wrong_direction else bad_credential,
          )
          else (false, bad_credential)
      | other ↦ (false, bad_credential)
    ]

-- controlPlane.decide behind its reading of the request.
unfoldable pub decide : Dict (Text × Text) → Request → Decision
unfolding scope_for judge trim_space
decide tokens r = elim (scope_for r) [
  | some scope ↦ says true allowed (some scope)
  | none ↦ elim (lookup r.credential tenancy) [
    | some _ ↦ says false out_of_scope none
    | none ↦
        let found = lookup (trim_space r.estate) tokens in
        let pair : Text × Text = elim found [ none ↦ ([], []) | some p ↦ p ] in
        let known : Bool = elim found [ none ↦ false | some _ ↦ true ] in
        let (allow, reason) = judge r pair.0 pair.1 known in
        if not allow
        then says false reason none
        else if same r.credential pair.1
        then says true allowed (some (station_scope r.estate r.station (c2s ∷ []) (s2c ∷ [])))
        else says true allowed (some (station_scope r.estate r.station (s2c ∷ []) (c2s ∷ [])))
  ]
]
