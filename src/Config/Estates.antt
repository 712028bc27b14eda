-- ===== src/Config/Estates.antt =====
-- cmd/heliograph-relay/main.go: what the environment configures. Each fault is one that the program
-- reports before it exits with status 2.
use heliograph_relay.Common.{
  Bool, not, ◌||◌, List, [], ◌∷◌, Text, bytes, same, is_empty, Dict, if◌then◌else◌,
}
use heliograph_relay.Common.Split.{split, trim_space, to_lower}
use heliograph_relay.Auth.Types.{Scope}
use heliograph_relay.Auth.Scoped.{parse_station_scopes, parsed, fault}
use heliograph_relay.Auth.Static.{StaticAuth, new_static_auth, set_control, set_station}

unfoldable pub truthy : Text → Bool
unfolding to_lower trim_space
truthy v =
    let t = to_lower (trim_space v) in
    same t (bytes "1") || same t (bytes "true") || same t (bytes "yes") || same t (bytes "on")

pub data Fault : Type 0 where
  bad_estate same_token : Text → Fault
  two_sources bad_stations nothing_set bad_lease_key bad_spool : Fault

pub data Outcome {ℓ} (A : Type ℓ) : Type ℓ where
  serves : A → Outcome A
  exits : Fault → Outcome A

module _ (sha256 : Text → Text) (zero_digest : Text) where
  -- One `estate:controlToken:stationToken`.
  unfoldable pub read_estate : Text → List Text → StaticAuth → Outcome StaticAuth
  read_estate e (estate ∷ control ∷ station ∷ []) a =
      if is_empty estate || is_empty control || is_empty station
      then exits (bad_estate e)
      else if same control station
      then exits (same_token estate)
      else serves (
          set_station sha256 zero_digest estate station
            (set_control sha256 zero_digest estate control a))
  read_estate e _ a = exits (bad_estate e)

  unfoldable pub read_estates : List Text → StaticAuth → Outcome StaticAuth
  unfolding read_estate
  read_estates [] a = serves a
  read_estates (e ∷ es) a = elim (read_estate e (split b':' (trim_space e)) a) [
    | exits f ↦ exits f
    | serves a' ↦ read_estates es a'
  ]

-- HELIOGRAPH_RELAY_ESTATES, _AUTHORISER and _STATIONS.
pub record Env : Type 0 where
  pub estates : Text
  pub authoriser : Text
  pub stations : Text

-- Who answers: the scopes, the authoriser's URL, or the estates' tokens.
pub data Source : Type 0 where
  scoped : Dict Scope → Source
  remote : Text → Source
  static : StaticAuth → Source

module _ (sha256 : Text → Text) (zero_digest : Text) where
  unfoldable pub configure : Env → Outcome Source
  unfolding read_estates trim_space
  configure env =
      let stations = trim_space env.stations in
      let url = trim_space env.authoriser in
      let has_spec = not (is_empty (trim_space env.estates)) in
      if not (is_empty stations)
      then (if not (is_empty url) || has_spec
          then exits two_sources
          else elim (parse_station_scopes sha256 stations) [
            | fault f ↦ exits bad_stations
            | parsed a ↦ serves (scoped a)
          ])
      else if not (is_empty url)
      then serves (remote url)
      else if not has_spec
      then exits nothing_set
      else elim (read_estates sha256 zero_digest (split b',' env.estates) new_static_auth) [
        | exits f ↦ exits f
        | serves a ↦ serves (static a)
      ]
