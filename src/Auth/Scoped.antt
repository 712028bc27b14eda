-- ===== src/Auth/Scoped.antt =====
-- scope.go: one scope per credential, and the rule of a tenant that is hosted. Credentials are
-- stored by their digest; sha256 is a parameter.
use heliograph_relay.Common.{
  ℕ, suc, ◌+◌, Bool, true, false, not, ◌||◌, Option, none, some, List, [], ◌∷◌, ◌++◌, Text, bytes,
  same, Dict, lookup, insert, erase, is_empty, any, if◌then◌else◌, zero,
}
use heliograph_relay.Common.Split.{split, trim_space}
use heliograph_relay.Relay.Message.{Time}
use heliograph_relay.Auth.Types.{
  Request, Grant, Scope, no_scope, refusal, refusal_with, permission, no_credential, bad_credential,
  out_of_scope, estate_wide, contains, permits, station_scoped,
}

-- What the server needs of whatever decides. `watch` tells whether there is a channel that can end
-- a held poll.
pub record Authoriser : Type 1 where
  pub State : Type 0
  pub admit : State → Time → Request → State × Grant
  pub watch : State → Time → Request → Text → State × Bool

module _ (sha256 : Text → Text) where
  unfoldable pub scope_of : Dict Scope → Text → Option Scope
  scope_of a credential = lookup (sha256 credential) a

  unfoldable pub add : Text → Scope → Dict Scope → Dict Scope
  add credential s a = insert (sha256 credential) s a

  unfoldable pub withdraw : Text → Dict Scope → Dict Scope
  withdraw credential a = erase (sha256 credential) a

  unfoldable pub scoped_admit : Dict Scope → Request → Grant
  unfolding scope_of
  scoped_admit a req =
      if is_empty req.credential then refusal no_credential else elim (scope_of a req.credential) [
        | none ↦ refusal bad_credential
        | some s ↦
            if permits s req.estate req.station req.dir req.op
            then permission s
            else refusal out_of_scope
      ]

  abbrev pub scoped_auth : Authoriser
  scoped_auth = record {
    State = Dict Scope;
    admit = λ a now req. (a, scoped_admit a req);
    watch = λ a now req ref. (a, false);
  }

abbrev pub named_none : Text
named_none =
    bytes "this tenant requires a credential scoped to named stations, and this grant named none"

abbrev pub wide_detail : Text
wide_detail =
    bytes
      "this tenant refuses estate-wide credentials, because one account may hold several customers"

-- What Hosted makes of the inner answer.
unfoldable pub narrow : Grant → Grant
narrow g =
    if not g.allow || station_scoped g.scope
    then g
    else refusal_with estate_wide (if g.scope.all_stations then wide_detail else named_none)

abbrev pub hosted : Authoriser → Authoriser
hosted inner = record {
  State = inner.State;
  admit = λ a now req. (let (a', g) = inner.admit a now req in (a', narrow g));
  watch = inner.watch;
}

-- The faults of a configuration entry.
pub data ScopeError : Type 0 where
  shape empty_part bad_role both_sides : Text → ScopeError
  nothing : ScopeError

pub data Parsed {ℓ} (A : Type ℓ) : Type ℓ where
  parsed : A → Parsed A
  fault : ScopeError → Parsed A

abbrev pub c2s : Text
c2s = bytes "c2s"

abbrev pub s2c : Text
s2c = bytes "s2c"

-- The directions that a role reads and writes.
unfoldable pub role_dirs : Text → Option (List Text × List Text)
role_dirs role =
    if same role (bytes "station")
    then some (c2s ∷ [], s2c ∷ [])
    else if same role (bytes "control")
    then some (s2c ∷ [], c2s ∷ [])
    else none

-- The scopes so far, the roles of each credential, and how many entries there were.
pub record ScopeTable : Type 0 where
  pub scopes : Dict Scope
  pub roles : Dict (List Text)
  pub count : ℕ

abbrev pub roles_of : ScopeTable → Text → List Text
roles_of t credential = elim (lookup credential t.roles) [ none ↦ [] | some rs ↦ rs ]

module _ (sha256 : Text → Text) where
  -- The scope of a credential when one more station is listed for it.
  unfoldable pub widened : ScopeTable → Text → Text → Text → List Text → List Text → Scope
  unfolding scope_of
  widened t credential estate station rd wr =
      let old : Scope = elim (scope_of sha256 t.scopes credential) [
        | none ↦ no_scope
        | some s ↦ s
      ] in
      record old {
        estate = estate;
        stations =
            if contains station old.stations then old.stations else old.stations ++ station ∷ [];
        read = rd;
        write = wr;
      }

  unfoldable pub list_station :
      ScopeTable → Text → Text → Text → Text → List Text × List Text → ScopeTable
  unfolding widened add
  list_station t estate station role credential (rd, wr) =
      let seen = roles_of t credential in
      record {
        scopes = add sha256 credential (widened t credential estate station rd wr) t.scopes;
        roles = insert credential (if contains role seen then seen else role ∷ seen) t.roles;
        count = t.count + 1;
      }

  -- One entry, cut at its colons.
  unfoldable pub read_entry : Text → List Text → ScopeTable → Parsed ScopeTable
  unfolding list_station role_dirs
  read_entry entry (estate ∷ station ∷ role ∷ credential ∷ []) t =
      if is_empty estate || is_empty station || is_empty credential
      then fault (empty_part entry)
      else elim (role_dirs role) [
        | none ↦ fault (bad_role entry)
        | some dirs ↦
            if any (λ r. not (same r role)) (roles_of t credential)
            then fault (both_sides entry)
            else parsed (list_station t estate station role credential dirs)
      ]
  read_entry entry _ t = fault (shape entry)

  unfoldable pub read_entries : List Text → ScopeTable → Parsed ScopeTable
  unfolding read_entry
  read_entries [] t = parsed t
  read_entries (e ∷ es) t =
      let entry = trim_space e in
      elim (is_empty entry) [
        | true ↦ read_entries es t
        | false ↦ elim (read_entry entry (split b':' entry) t) [
          | fault f ↦ fault f
          | parsed t' ↦ read_entries es t'
        ]
      ]

  unfoldable pub parse_station_scopes : Text → Parsed (Dict Scope)
  unfolding read_entries
  parse_station_scopes spec =
      elim (read_entries (split b',' spec) (record { scopes = []; roles = []; count = 0 })) [
        | fault f ↦ fault f
        | parsed t ↦ elim t.count [ zero ↦ fault nothing | suc _ ↦ parsed t.scopes ]
      ]
