-- ===== src/Server/Service.antt =====
-- server.go: the server as a whole, its routes and the requests that need no credential. Which
-- pattern a request matches, and with which path values, is ServeMux's answer: the target.
use heliograph_relay.Common.{
  ℕ, ◌*◌, Bool, true, ◌||◌, Option, List, [], ◌∷◌, Text, bytes, has_prefix, ℤ, if◌then◌else◌,
}
use heliograph_relay.Relay.Message.{Time}
use heliograph_relay.Relay.Store.{Store, durable}
use heliograph_relay.Spool.Disk.{Codec, Faults}
use heliograph_relay.Auth.Scoped.{Authoriser}
use heliograph_relay.Server.Reply.{Reply, token, reported}
use heliograph_relay.Server.Put.{Route, Decoded, Done, put_handler}
use heliograph_relay.Server.LeaseParam.{Floats}
use heliograph_relay.Server.Get.{Query, World, get_handler, ack_handler}
use heliograph_relay.Server.Waiters.{Waiters, wake}

pub record Server (S : Type 0) : Type 0 where
  pub store : Store
  pub auth : S
  pub wait : ℕ
  pub waiters : Waiters
  pub version : Text
  pub hash : Text

-- NewAuthorisingServer: a poll waits 25 seconds.
abbrev pub new_authorising_server : {S : Type 0} → Store → S → Server S
new_authorising_server store auth = record {
  store = store;
  auth = auth;
  wait = 25 * 1000000000;
  waiters = [];
  version = [];
  hash = [];
}

-- NewServer, whose authoriser is from_auth's.
abbrev pub new_server : Store → Server (Unit {0})
new_server store = new_authorising_server store tt

pub data Target : Type 0 where
  putting getting acknowledging : Route → Target
  health version root unmatched : Target

-- What a handler reads of a request.
pub record HttpRequest : Type 0 where
  pub authorization : Text
  pub accept : Text
  pub content_length : ℤ
  pub decode : ℕ → Decoded
  pub lease_id : Option Text
  pub query : Query
  pub world : World

pub data Field : Type 0 where
  text : Text → Field
  flag : Bool → Field

-- A reply of a queue's handler, a JSON object, the page with its four insertions, or what ServeMux
-- says where no pattern matches.
pub data Response : Type 0 where
  replied : Reply → Response
  object : List (Text × Field) → Response
  page : List Text → Response
  not_routed : Response

abbrev pub what_it_is : Text
what_it_is =
    bytes
      "Stores and forwards opaque ciphertext between a control and a station. It holds no keys, does no crypto, and never sees plaintext."

abbrev pub source_url : Text
source_url = bytes "https://github.com/heliograph-io/heliograph-relay"

abbrev pub docs_url : Text
docs_url = bytes "https://heliograph.dbhq.uk/relay"

abbrev pub short_what : Text
short_what = bytes "Stores and forwards ciphertext it cannot read."

-- strings.Contains
unfoldable pub has_part : Text → Text → Bool
has_part part [] = has_prefix part []
has_part part (c ∷ cs) = has_prefix part (c ∷ cs) || has_part part cs

unfoldable pub health_of : {S : Type 0} → Server S → Response
unfolding durable reported
health_of s = object (
    (bytes "ok", flag true)
    ∷ (bytes "version", text (reported s.version))
    ∷ (bytes "hash", text (reported s.hash))
    ∷ (bytes "durable", flag (durable s.store))
    ∷ [])

unfoldable pub version_of : {S : Type 0} → Server S → Response
unfolding reported
version_of s = object (
    (bytes "service", text (bytes "heliograph-relay"))
    ∷ (bytes "implementation", text (bytes "go"))
    ∷ (bytes "version", text (reported s.version))
    ∷ (bytes "source", text source_url)
    ∷ [])

unfoldable pub root_of : {S : Type 0} → Text → Server S → Response
unfolding reported has_part
root_of accept s =
    if has_part (bytes "text/html") accept
    then page (short_what ∷ reported s.version ∷ source_url ∷ docs_url ∷ [])
    else object (
        (bytes "service", text (bytes "heliograph-relay"))
        ∷ (bytes "implementation", text (bytes "go"))
        ∷ (bytes "version", text (reported s.version))
        ∷ (bytes "what", text what_it_is)
        ∷ (bytes "source", text source_url)
        ∷ (bytes "docs", text docs_url)
        ∷ [])

-- The wakes of a request, one queue after another.
unfoldable pub wake_all : List Text → Waiters → Waiters
unfolding wake
wake_all [] w = w
wake_all (k ∷ ks) w = wake_all ks (wake k w)

abbrev pub settle_into : {S : Type 0} → Server S → Done S → Server S × Response
settle_into s d = (
  record s { store = d.store; auth = d.auth; waiters = wake_all d.woken s.waiters },
  replied d.reply,
)

module _ (codec : Codec) (faults : Faults) (fl : Floats) (auth : Authoriser) where
  -- A request through Routes. A held poll's own channel comes and goes within its call.
  unfoldable pub serve :
      Time → Target → HttpRequest → Server auth.State → Server auth.State × Response
  unfolding put_handler get_handler ack_handler token health_of version_of root_of
  serve now (putting r) q s = settle_into s (
      put_handler codec faults auth now (token q.authorization) r q.content_length q.decode s.store
        s.auth)
  serve now (getting r) q s =
      settle_into s
        (get_handler auth fl now (token q.authorization) r q.query q.world s.store s.auth)
  serve now (acknowledging r) q s =
      settle_into s (ack_handler auth now (token q.authorization) r q.lease_id s.store s.auth)
  serve now health q s = (s, health_of s)
  serve now version q s = (s, version_of s)
  serve now root q s = (s, root_of q.accept s)
  serve now unmatched q s = (s, not_routed)
