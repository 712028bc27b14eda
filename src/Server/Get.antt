-- ===== src/Server/Get.antt =====
-- server.go: the handlers of GET /v1/{estate}/{station}/{dir}, with and without a lease, and of the
-- acknowledgement. Between the two collections of a held poll other requests change the store.
use heliograph_relay.Common.{
  Bool, true, false, not, ◌&&◌, Option, none, some, List, [], ◌∷◌, Text, bytes, same, length,
  is_empty, ltb_ℤ, ℤ, pos, if◌then◌else◌,
}
use heliograph_relay.Relay.Message.{
  Message, Time, Error, Result, ok, err, bad_route, no_such_lease, bad_lease, lease_too_long,
  valid_dir,
}
use heliograph_relay.Relay.Store.{Store, take}
use heliograph_relay.Relay.Leased.{no_lease, take_leased, ack}
use heliograph_relay.Auth.Types.{Op, Reason, Request, Grant, Outcome, refusal, refusal_with}
use heliograph_relay.Auth.Scoped.{Authoriser}
use heliograph_relay.Server.Reply.{Body, refuse, message_of, Event, timeout, withdrawn, hold}
use heliograph_relay.Server.Put.{Route, Done, settlement}
use heliograph_relay.Server.LeaseParam.{Floats, parse_lease, atoi}
use heliograph_relay.Spool.Load.{body_bytes}

pub record Query : Type 0 where
  pub limit : Text
  pub lease : Text
  pub wait : Text

-- What the world does to a held poll: how it ends, when, and what becomes of the store meanwhile.
pub record World : Type 0 where
  pub event : Event
  pub later : Time
  pub meanwhile : Store → Store

-- A nil channel never delivers.
unfoldable pub seen : Bool → Event → Event
seen watched (withdrawn why) = if watched then withdrawn why else timeout
seen watched e = e

abbrev pub is_allowed : Reason → Bool
is_allowed Reason.allowed = true
is_allowed _ = false

-- What a collection yields: nothing where it failed, whose error the second one drops.
abbrev pub or_none {ℓ} : {A : Type ℓ} → A → Result A → A
or_none a (ok b) = b
or_none a (err e) = a

unfoldable pub get_refusal : Error → Grant
get_refusal bad_lease = refusal_with Reason.bad_lease (message_of bad_lease)
get_refusal lease_too_long = refusal_with Reason.bad_lease (message_of lease_too_long)
get_refusal bad_route = refusal_with Reason.bad_route (message_of bad_route)
get_refusal _ = refusal Reason.internal

unfoldable pub ack_refusal : Error → Grant
ack_refusal no_such_lease = refusal Reason.no_such_lease
ack_refusal bad_route = refusal_with Reason.bad_route (message_of bad_route)
ack_refusal _ = refusal Reason.internal

module _ (S : Type 0) (g : Grant) (r : Route) (started : Time) where
  -- A refusal behind admission settles nothing but itself.
  abbrev pub refused_with : Outcome → Time → Store → S → Grant → Done S
  refused_with o at s st why = record {
    store = s;
    auth = st;
    reply = refuse why;
    settled = settlement g r Op.read 0 0 o at started ∷ [];
    woken = [];
  }

  -- A delivery settles what was handed over, an empty one too.
  unfoldable pub delivered_as : (List Message → Body) → Time → Store → S → List Message → Done S
  delivered_as body at s st msgs = record {
    store = s;
    auth = st;
    reply = record { code = 200; body = body msgs };
    settled =
        settlement g r Op.read (body_bytes msgs) (length msgs)
          (if is_empty msgs then Outcome.empty else Outcome.delivered) at started
        ∷ [];
    woken = [];
  }

module _ (auth : Authoriser) where
  -- The end of a held poll: a second collection if a message woke it.
  unfoldable pub resume {ℓ} :
      {A : Type ℓ} (g : Grant) (r : Route) (started : Time) (w : World) (watched : Bool)
      → (Time → Store → Store × Result A)
      → (none_yet : A) → (Time → Store → auth.State → A → Done auth.State)
      → Store
      → auth.State
      → Done auth.State
  resume g r started w watched collect none_yet finish s st =
      let s' = w.meanwhile s in
      let (woken, why) = hold (seen watched w.event) in
      let again = collect w.later s' in
      if not (is_allowed why)
      then refused_with auth.State g r started Outcome.revoked w.later s' st (refusal why)
      else if woken
      then finish w.later again.0 st (or_none none_yet again.1)
      else finish w.later s' st none_yet

  -- Both ways of collecting: the first try, and the held line where it finds nothing.
  unfoldable pub poll {ℓ} :
      {A : Type ℓ} (g : Grant) (r : Route) (req : Request) (started : Time) (w : World)
      (wait : Bool)
      → (Time → Store → Store × Result A)
      → (nothing_in : A → Bool) → (none_yet : A) → (Time → Store → auth.State → A → Done auth.State)
      → Store
      → auth.State
      → Done auth.State
  unfolding resume get_refusal
  poll g r req started w wait collect nothing_in none_yet finish s st =
      let (s', result) = collect started s in
      elim result [
        | err e ↦ refused_with auth.State g r started Outcome.refused started s' st (get_refusal e)
        | ok a ↦
            let (st', watched) = auth.watch st started req g.ref in
            if nothing_in a && wait
            then resume g r started w watched collect none_yet finish s' st'
            else finish started s' st a
      ]

  -- The two response shapes.
  unfoldable pub collect_plain :
      Grant → Route → Request → Time → World → Bool → ℤ → Store → auth.State → Done auth.State
  unfolding poll delivered_as
  collect_plain g r req started w wait limit s st =
      poll g r req started w wait (λ at s'. take at r.estate r.station r.dir limit s') is_empty []
        (λ at s' st' msgs. delivered_as auth.State g r started Body.array at s' st' msgs) s st

  unfoldable pub collect_leased :
      Grant → Route → Request → Time → World → Bool → ℤ → ℤ → Store → auth.State → Done auth.State
  unfolding poll delivered_as
  collect_leased g r req started w wait limit held s st =
      poll g r req started w wait (λ at s'. take_leased at r.estate r.station r.dir limit held s')
        (λ l. is_empty l.messages) no_lease
        (λ at s' st' l.
          delivered_as auth.State g r started (λ msgs. Body.leased l) at s' st' l.messages)
        s st

  abbrev pub read_request : Time → Text → Route → Request
  read_request now credential r = record {
    credential = credential;
    estate = r.estate;
    station = r.station;
    dir = r.dir;
    op = Op.read;
    bytes = pos 0;
    at = now;
  }

  abbrev pub turned_away : Store → auth.State → Grant → Done auth.State
  turned_away s st why = record {
    store = s;
    auth = st;
    reply = refuse why;
    settled = [];
    woken = [];
  }

  module _ (fl : Floats) where
    -- What follows admission.
    unfoldable pub get_admitted :
        Time → Grant → Route → Request → Query → World → Store → auth.State → Done auth.State
    unfolding collect_plain collect_leased atoi
    get_admitted now g r req query w s st =
        let limit = atoi query.limit in
        let wait = not (same query.wait (bytes "0")) in
        elim (parse_lease fl query.lease) [
          | err e ↦
              refused_with auth.State g r now Outcome.refused now s st
                (refusal_with Reason.bad_lease (message_of e))
          | ok held ↦
              if ltb_ℤ (pos 0) held
              then collect_leased g r req now w wait limit held s st
              else collect_plain g r req now w wait limit s st
        ]

    unfoldable pub get_handler :
        Time → Text → Route → Query → World → Store → auth.State → Done auth.State
    unfolding get_admitted
    get_handler now credential r query w s st =
        let req = read_request now credential r in
        let (st', g) = auth.admit st now req in
        if not (valid_dir r.dir)
        then turned_away s st (refusal Reason.bad_route)
        else if not g.allow
        then turned_away s st' g
        else get_admitted now g r req query w s st'

  -- The acknowledgement's body, `none` where it cannot be read.
  unfoldable pub ack_admitted :
      Time → Grant → Route → Option Text → Store → auth.State → Done auth.State
  unfolding ack_refusal
  ack_admitted now g r none s st =
      refused_with auth.State g r now Outcome.refused now s st
        (refusal_with Reason.unreadable (bytes "could not read the acknowledgement"))
  ack_admitted now g r (some id) s st =
      let (s', result) = ack now r.estate r.station r.dir id s in
      elim result [
        | err e ↦ refused_with auth.State g r now Outcome.refused now s' st (ack_refusal e)
        | ok n ↦ record {
          store = s';
          auth = st;
          reply = record { code = 200; body = Body.deleted n };
          settled = settlement g r Op.read 0 n Outcome.acknowledged now now ∷ [];
          woken = [];
        }
      ]

  unfoldable pub ack_handler :
      Time → Text → Route → Option Text → Store → auth.State → Done auth.State
  unfolding ack_admitted
  ack_handler now credential r id s st =
      let (st', g) = auth.admit st now (read_request now credential r) in
      if not (valid_dir r.dir)
      then turned_away s st (refusal Reason.bad_route)
      else if not g.allow
      then turned_away s st' g
      else ack_admitted now g r id s st'
