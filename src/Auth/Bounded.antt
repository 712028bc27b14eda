-- ===== src/Auth/Bounded.antt =====
-- What the other authorisers grant: scopes, tokens, the hosted rule and the cache of decisions.
use heliograph_relay.Common.{
  ℕ, ◌+◌, ◌≡◌, refl, ◌⊎◌, inl, inr, true, false, ◌&&◌, ◌||◌, Text, same, same_iff, is_empty, Option,
  none, some, ltb, if◌then◌else◌, arith, Bool-cases, Option-cases, ◌↔◌, ◌≢◌, Dict, lookup,
  lookup-insert,
}
use heliograph_relay.Common.Separators.{cons_injective}
use heliograph_relay.Relay.Message.{Time, valid_dir}
use heliograph_relay.Auth.Types.{
  Op, Request, Grant, Scope, refusal, no_credential, authoriser_unavailable, permits,
  station_scoped, contains, directions,
}
use heliograph_relay.Auth.Scoped.{Authoriser, narrow, hosted, scope_of, scoped_admit, c2s, s2c}
use heliograph_relay.Auth.Static.{StaticAuth, token_matches, static_write}
use heliograph_relay.Auth.Remote.{
  Answer, RemoteAuth, remote_admit, cached_grant, decision_key, remember, ask,
}

-- The scope names the estate, covers the station, and lists the direction for the operation.
abbrev pub Covers : Scope → Text → Text → Text → Op → Type 0
Covers s estate station dir op =
    (is_empty estate ≡ false)
    × (is_empty station ≡ false)
    × (valid_dir dir ≡ true)
    × (s.estate ≡ estate)
    × ((s.all_stations || contains station s.stations) ≡ true)
    × (contains dir (directions s op) ≡ true)

permits_iff :
    (s : Scope) (estate station dir : Text) (op : Op)
    → (permits s estate station dir op ≡ true) ↔ Covers s estate station dir op
unfolding permits
permits_iff s estate station dir op = ground (arith, same_iff s.estate estate)

-- A credential is admitted exactly when it is given, it has a scope, and that scope covers the
-- request's route and operation.
pub scoped_admits :
    (sha256 : Text → Text) (a : Dict Scope) (req : Request)
    → ((scoped_admit sha256 a req).allow ≡ true) ↔ (
        (is_empty req.credential ≡ false)
        × ((s : Scope) × (scope_of sha256 a req.credential ≡ some s)
            × Covers s req.estate req.station req.dir req.op))
unfolding scoped_admit
scoped_admits sha256 a req = elim (Option-cases (scope_of sha256 a req.credential)) [
  | inl e ↦ rw e (ground arith)
  | inr (s, e) ↦ rw e (ground (arith, permits_iff s req.estate req.station req.dir req.op))
]

-- Behind Hosted, what is admitted has a scope that names its stations.
pub hosted_narrows :
    (inner : Authoriser) (st : inner.State) (now : Time) (req : Request)
    → let (_, g) = (hosted inner).admit st now req in
      (g.allow ≡ false) ⊎ (station_scoped g.scope ≡ true)
unfolding narrow
hosted_narrows inner st now req = ground arith

sides_differ : c2s ≢ s2c
sides_differ e = omega (arith, (cons_injective _ _ _ _ e).0)

-- A side's token is the one that was set for the estate, by its digest.
abbrev pub Holds : Text → Option Text → Text → Type 0
Holds zero_digest held digest = (held ≡ some digest) × (digest ≢ zero_digest)

token_matches_iff :
    (zero_digest : Text) (held : Option Text) (digest : Text)
    → (token_matches zero_digest held digest ≡ true) ↔ Holds zero_digest held digest
unfolding token_matches
token_matches_iff z none d = ground arith
token_matches_iff z (some w) d = ground (arith, same_iff w z, same_iff w d)

-- A token may write towards the stations only if it is the estate's control token, and back only if
-- it is the estate's station token; there it may, where the route is given in full.
pub static_writes :
    (sha256 : Text → Text) (zero_digest : Text) (a : StaticAuth) (token estate station dir : Text)
    → (static_write sha256 zero_digest a token estate station dir ≡ true) ↔ (
        (is_empty token ≡ false)
        × (is_empty estate ≡ false)
        × (is_empty station ≡ false)
        × (((dir ≡ c2s) × Holds zero_digest (lookup estate a.control) (sha256 token))
            ⊎ ((dir ≡ s2c) × Holds zero_digest (lookup estate a.station) (sha256 token))))
unfolding static_write
static_writes sha256 z a token estate station dir = ground (
  arith,
  same_iff dir c2s,
  same_iff dir s2c,
  sides_differ,
  token_matches_iff z (lookup estate a.control) (sha256 token),
  token_matches_iff z (lookup estate a.station) (sha256 token),
)

-- How long an answer is reused.
abbrev pub lasting : RemoteAuth → Grant → ℕ
lasting a g = if g.allow then a.positive else a.negative

-- Where there is nothing to decide, or no decision.
abbrev pub Undecided : Answer → Request → Grant → Type 0
Undecided answer req g =
    ((is_empty req.credential ≡ true) × (g ≡ refusal no_credential))
    ⊎ ((ask answer ≡ none) × (g ≡ refusal authoriser_unavailable))

-- An answer of the remote authoriser comes from its cache, where an entry under the request's key has
-- not run out; or from the authoriser, and then it is remembered; or it is a refusal that leaves
-- the cache as it was.
pub remote_sources :
    (answer : Answer) (now later : Time) (req : Request) (a : RemoteAuth)
    → let (a', g) = remote_admit answer now later req a in
      ((a' ≡ a) × (cached_grant (decision_key req) now a ≡ some g))
      ⊎ ((a' ≡ remember (decision_key req) later g a) × (ask answer ≡ some g))
      ⊎ ((a' ≡ a) × Undecided answer req g)
unfolding remote_admit
remote_sources answer now later req a = elim (Bool-cases (is_empty req.credential)) [
  | inl e ↦ rw e (inr (inr (refl, inl (refl, refl))))
  | inr e ↦ elim (Option-cases (cached_grant (decision_key req) now a)) [
    | inr (g, p) ↦ rw (e, p) (inl (refl, refl))
    | inl p ↦ elim (Option-cases (ask answer)) [
      | inr (g, q) ↦ rw (e, p, q) (inr (inl (refl, refl)))
      | inl q ↦ rw (e, p, q) (inr (inr (refl, inr (refl, refl))))
    ]
  ]
]

-- A remembered answer is reused for its own request only, and only until its time is over: `lasting`
-- after it came, for an answer that lasts at all.
pub remember_lasts :
    (k j : Text) (came t : Time) (g : Grant) (a : RemoteAuth)
    → cached_grant j t (remember k came g a) ≡ (
        if same k j && ltb 0 (lasting a g)
        then (if ltb t (came + lasting a g) then some g else none)
        else cached_grant j t a)
unfolding cached_grant remember
remember_lasts k j came t g a =
    ground (arith, lookup-insert k j (record { grant = g; until = came + lasting a g }) a.cache)
