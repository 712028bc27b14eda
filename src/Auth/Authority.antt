-- ===== src/Auth/Authority.antt =====
-- authlease.go: authorisation leases, checked locally, and referred onwards where they do not
-- reach. base64, the payload's JSON and the signature check are parameters.
use heliograph_relay.Common.{
  ℕ, ◌+◌, ◌-◌, ◌*◌, ◌/◌, ◌%◌, Bool, true, false, not, ◌&&◌, ◌||◌, Option, none, some, List, [], ◌∷◌,
  ◌++◌, Text, bytes, same, has_prefix, Dict, lookup, insert, erase, is_empty, ltb, ℤ, pos, negsuc,
  ltb_ℤ, if◌then◌else◌, ◌==◌,
}
use heliograph_relay.Common.Split.{split}
use heliograph_relay.Relay.Message.{Time}
use heliograph_relay.Auth.Types.{
  Reason, Request, Grant, Scope, refusal, refusal_with, permission, authority_unverifiable,
  authority_expired, out_of_scope, permits,
}
use heliograph_relay.Auth.Scoped.{Authoriser}

-- Fifteen minutes.
abbrev pub max_authority_life : ℕ
max_authority_life = 900000000000

abbrev pub authority_prefix : Text
authority_prefix = bytes "hl1"

pub record Authority : Type 0 where
  pub scope : Scope
  pub not_before : Time
  pub expires : Time
  pub epoch : ℤ
  pub audience : Text

-- The wire shape. The three numbers are int64.
pub record Payload : Type 0 where
  pub est : Text
  pub stns : List Text
  pub all : Bool
  pub read : List Text
  pub write : List Text
  pub nbf : ℤ
  pub exp : ℤ
  pub epoch : ℤ
  pub aud : Text

pub record Signed : Type 0 where
  pub payload : Text
  pub signature : Text

-- Why a credential is no lease: the two errors.
pub data LeaseError : Type 0 where
  not_an_authority bad_authority : LeaseError

pub data Read {ℓ} (A : Type ℓ) : Type ℓ where
  is : A → Read A
  fails : LeaseError → Read A

-- encoding/base64 and encoding/json at the payload.
pub record Wire : Type 0 where
  pub decode64 : Text → Option Text
  pub encode64 : Text → Text
  pub unmarshal : Text → Option Payload
  pub marshal : Payload → Text

-- time.Unix(sec, 0): the seconds since the year 1 are an int64, which wraps.
unfoldable pub unix : ℤ → Time
unix (pos n) = (n + 62135596800 + 9223372036854775808) % 18446744073709551616 * 1000000000
unix (negsuc n) = (62135596800 + 9223372036854775808 - (n + 1)) % 18446744073709551616 * 1000000000

abbrev pub is_zero : ℤ → Bool
is_zero (pos n) = n == 0
is_zero (negsuc n) = false

abbrev pub to_authority : Payload → Authority
to_authority p = record {
  scope = record {
    estate = p.est;
    stations = p.stns;
    all_stations = p.all;
    read = p.read;
    write = p.write;
  };
  not_before = unix p.nbf;
  expires = unix p.exp;
  epoch = p.epoch;
  audience = p.aud;
}

-- What is read once the two parts are decoded.
unfoldable pub read_payload : Wire → Text → Text → Text → Read (Authority × Signed)
unfolding unix
read_payload w payload raw sig = elim (w.unmarshal raw) [
  | none ↦ fails bad_authority
  | some p ↦
      if is_zero p.exp || is_zero p.nbf
      then fails bad_authority
      else is (to_authority p, record { payload = payload; signature = sig })
]

unfoldable pub read_parts : Wire → List Text → Read (Authority × Signed)
unfolding read_payload
read_parts w (prefix ∷ payload ∷ signature ∷ []) =
    if not (same prefix authority_prefix)
    then fails not_an_authority
    else elim (w.decode64 payload) [
      | none ↦ fails bad_authority
      | some raw ↦ elim (w.decode64 signature) [
        | none ↦ fails bad_authority
        | some sig ↦ read_payload w payload raw sig
      ]
    ]
read_parts w _ = fails not_an_authority

unfoldable pub parse_authority : Wire → Text → Read (Authority × Signed)
unfolding read_parts
parse_authority w credential = read_parts w (split b'.' credential)

-- Time.Unix: whole seconds since 1970, as an int64, which wraps.
unfoldable pub unix_seconds : Time → ℤ
unix_seconds t =
    let s = t / 1000000000 in
    if ltb s 62135596800
    then pos (s + 9223372036854775808 - 62135596800)
    else if ltb s 9223372098990372608
    then negsuc (9223372098990372608 - s - 1)
    else pos (s - 9223372098990372608)

abbrev pub to_payload : Authority → Payload
to_payload a = record {
  est = a.scope.estate;
  stns = a.scope.stations;
  all = a.scope.all_stations;
  read = a.scope.read;
  write = a.scope.write;
  nbf = unix_seconds a.not_before;
  exp = unix_seconds a.expires;
  epoch = a.epoch;
  aud = a.audience;
}

-- NewAuthority. json.Marshal cannot fail at a payload.
unfoldable pub new_authority : Wire → Authority → (Text → Text) → Text
unfolding unix_seconds
new_authority w a sign =
    let payload = w.encode64 (w.marshal (to_payload a)) in
    authority_prefix ++ b'.' ∷ (payload ++ b'.' ∷ w.encode64 (sign payload))

-- The revocation floors, and the polls that are held, by estate, station and direction.
pub record Floors : Type 0 where
  pub epoch : Dict ℤ
  pub watchers : Dict (List ℕ)

-- `a.epoch[estate]`: zero where nothing was revoked.
unfoldable pub floor : Floors → Text → ℤ
floor fl estate = elim (lookup estate fl.epoch) [ none ↦ pos 0 | some e ↦ e ]

unfoldable pub watch_key : Text → Text → Text → Text
watch_key estate station dir = estate ++ 0 ∷ (station ++ 0 ∷ dir)

-- The loop of Revoke over the watchers: those that stay, and the channels that end.
unfoldable pub ending : Text → Dict (List ℕ) → Dict (List ℕ) × List ℕ
ending estate [] = ([], [])
ending estate ((k, chans) ∷ ws) =
    let (kept, ended) = ending estate ws in
    if has_prefix (estate ++ 0 ∷ []) k then (kept, chans ++ ended) else ((k, chans) ∷ kept, ended)

-- The floors afterwards, and the channels that are told `revoked`.
unfoldable pub revoke : Text → ℤ → Floors → Floors × List ℕ
unfolding ending floor
revoke estate epoch fl =
    let (kept, ended) = ending estate fl.watchers in
    (
      record {
        epoch = if ltb_ℤ (floor fl estate) epoch then insert estate epoch fl.epoch else fl.epoch;
        watchers = kept;
      },
      ended,
    )

-- AuthorityAuth without its inner authoriser; no verifier refuses every lease.
pub record Settings : Type 0 where
  pub wire : Wire
  pub verify : Option (Text → Text → Bool)
  pub audience : Text

abbrev pub verified : Settings → Signed → Bool
verified c s = elim c.verify [ none ↦ false | some f ↦ f s.payload s.signature ]

unfoldable pub check : Settings → Floors → Time → Authority → Signed → Request → Grant
check c fl now auth s req =
    if not (verified c s)
    then refusal authority_unverifiable
    else if not (is_empty c.audience) && not (same auth.audience c.audience)
    then refusal_with authority_unverifiable (bytes "this lease was minted for a different relay")
    else if ltb (auth.not_before + max_authority_life) auth.expires
    then refusal_with authority_expired (bytes "this lease is longer than this relay will honour")
    else if ltb now auth.not_before
    then refusal_with authority_expired (bytes "this lease is not in force yet")
    else if not (ltb now auth.expires)
    then refusal authority_expired
    else if ltb_ℤ auth.epoch (floor fl auth.scope.estate)
    then refusal Reason.revoked
    else if not (permits auth.scope req.estate req.station req.dir req.op)
    then refusal out_of_scope
    else permission auth.scope

-- `g.Allow || g.Reason != ReasonOutOfScope`
abbrev pub is_final : Grant → Bool
is_final g = g.allow || elim g.reason [ out_of_scope ↦ false | _ ↦ true ]

module _ (c : Settings) (inner : Authoriser) where
  unfoldable pub authority_admit :
      Floors × inner.State → Time → Request → (Floors × inner.State) × Grant
  authority_admit (fl, st) now req =
      let onwards = inner.admit st now req in
      elim (parse_authority c.wire req.credential) [
        | fails _ ↦ ((fl, onwards.0), onwards.1)
        | is (auth, s) ↦
            let g = check c fl now auth s req in
            if is_final g then ((fl, st), g) else ((fl, onwards.0), onwards.1)
      ]

abbrev pub no_watch : Floors → Text → List ℕ
no_watch fl k = elim (lookup k fl.watchers) [ none ↦ [] | some cs ↦ cs ]

-- The registration of a held poll's channel; `none` refers to the inner authoriser.
unfoldable pub watch_lease : Settings → Floors → Time → Request → ℕ → Option Floors
watch_lease c fl now req ch = elim (parse_authority c.wire req.credential) [
  | fails _ ↦ none
  | is (auth, s) ↦
      let k = watch_key auth.scope.estate req.station req.dir in
      let g = check c fl now auth s req in
      if g.allow
      then some (record fl { watchers = insert k (no_watch fl k ++ ch ∷ []) fl.watchers })
      else none
]

-- The first occurrence of a channel goes.
unfoldable pub drop_channel : ℕ → List ℕ → List ℕ
drop_channel ch [] = []
drop_channel ch (x ∷ xs) = if x == ch then xs else x ∷ drop_channel ch xs

abbrev pub put_chans : Text → List ℕ → Dict (List ℕ) → Dict (List ℕ)
put_chans k [] d = erase k d
put_chans k (x ∷ xs) d = insert k (x ∷ xs) d

-- What the goroutine of Watch does at the end, however the poll ended.
unfoldable pub unwatch : Text → ℕ → Floors → Floors
unfolding drop_channel
unwatch k ch fl = record fl { watchers = put_chans k (drop_channel ch (no_watch fl k)) fl.watchers }
