-- ===== src/Auth/Remote.antt =====
-- remote.go: an authoriser behind a URL, whose decisions are cached. The answer that the client
-- gets is an argument: `none` where there was no decision to be had.
use heliograph_relay.Common.{
  ℕ, ◌+◌, Bool, true, false, not, ◌&&◌, Option, none, some, [], ◌∷◌, ◌++◌, Text, bytes, Dict,
  lookup, insert, is_empty, ltb, pos, if◌then◌else◌, ◌==◌,
}
use heliograph_relay.Relay.Message.{Time}
use heliograph_relay.Auth.Types.{
  Op, read, write, other, Reason, allowed, Request, Grant, Scope, no_scope, refusal, no_credential,
  bad_credential, authoriser_unavailable,
}

pub record Cached : Type 0 where
  pub grant : Grant
  pub until : Time

-- `positive` and `negative` are how long a yes and a no are reused.
pub record RemoteAuth : Type 0 where
  pub positive : ℕ
  pub negative : ℕ
  pub cache : Dict Cached

abbrev pub new_remote_auth : RemoteAuth
new_remote_auth = record { positive = 30000000000; negative = 5000000000; cache = [] }

abbrev pub op_text : Op → Text
op_text read = bytes "read"
op_text write = bytes "write"
op_text other = []

unfoldable pub decision_key : Request → Text
decision_key r =
    r.credential ++ b'|' ∷ (r.estate ++ b'|' ∷ (r.station ++ b'|' ∷ (r.dir ++ b'|' ∷ op_text r.op)))

-- A decision as the authoriser's JSON has it, its scope left out where there was none.
pub record Decision : Type 0 where
  pub allow : Bool
  pub reason : Reason
  pub detail : Text
  pub scope : Option Scope

-- The answer over HTTP: no response, or a status with what the body decodes to.
pub data Answer : Type 0 where
  unreachable : Answer
  response : ℕ → Option Decision → Answer

abbrev pub is_allowed : Reason → Bool
is_allowed allowed = true
is_allowed _ = false

abbrev pub to_grant : Decision → Grant
to_grant d = record {
  allow = d.allow;
  reason = if not d.allow && is_allowed d.reason then bad_credential else d.reason;
  detail = d.detail;
  max_bytes = pos 0;
  ref = [];
  scope = elim d.scope [ none ↦ no_scope | some s ↦ s ];
}

-- Only 200 with a readable body is a decision.
unfoldable pub ask : Answer → Option Grant
ask unreachable = none
ask (response status none) = none
ask (response status (some d)) = if status == 200 then some (to_grant d) else none

-- What is left in the cache of a decision.
unfoldable pub remember : Text → Time → Grant → RemoteAuth → RemoteAuth
remember k now g a =
    let ttl = if g.allow then a.positive else a.negative in
    if ltb 0 ttl
    then record a { cache = insert k (record { grant = g; until = now + ttl }) a.cache }
    else a

-- A cached decision that still holds.
unfoldable pub cached_grant : Text → Time → RemoteAuth → Option Grant
cached_grant k now a = elim (lookup k a.cache) [
  | none ↦ none
  | some e ↦ if ltb now e.until then some e.grant else none
]

-- `later` is the clock when the answer has come.
unfoldable pub remote_admit : Answer → Time → Time → Request → RemoteAuth → RemoteAuth × Grant
unfolding ask remember cached_grant
remote_admit answer now later req a =
    if is_empty req.credential
    then (a, refusal no_credential)
    else elim (cached_grant (decision_key req) now a) [
      | some g ↦ (a, g)
      | none ↦ elim (ask answer) [
        | none ↦ (a, refusal authoriser_unavailable)
        | some g ↦ (remember (decision_key req) later g a, g)
      ]
    ]
