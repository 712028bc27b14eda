-- ===== src/Server/Collecting.antt =====
-- A collection of a whole queue: messages that are all free and young enough.
use heliograph_relay.Common.{
  ℕ, ◌+◌, ◌-◌, ◌≤◌, ◌≡◌, refl, ◌∙◌, true, false, Bool, List, [], ◌∷◌, ◌&&◌, All, Text, bytes, same,
  is_empty, pos, ℤ, ltb_ℤ, arith,
}
use heliograph_relay.Common.Split.{trim_space, trim_left, trim_right}
use heliograph_relay.Relay.Message.{Message, Time, ok, key, valid_dir, valid_route}
use heliograph_relay.Relay.Store.{Store, queue, take, split_expired, release, release_all}
use heliograph_relay.Relay.Leased.{Lease, take_leased}
use heliograph_relay.Relay.Frame.{current}
use heliograph_relay.Relay.Loops.{pick}
use heliograph_relay.Relay.Collect.{take-result, take-queue}
use heliograph_relay.Relay.Guarantees.{at_self}
use heliograph_relay.Auth.Types.{Request, Grant}
use heliograph_relay.Auth.Scoped.{Authoriser}
use heliograph_relay.Server.Reply.{Body}
use heliograph_relay.Server.Put.{Route, Done}
use heliograph_relay.Server.LeaseParam.{Floats, parse_lease, atoi}
use heliograph_relay.Server.Get.{
  Query, World, poll, collect_plain, collect_leased, get_admitted, get_handler, delivered_as,
  read_request,
}

-- Nobody holds the message, and its time is not up.
abbrev pub Waits : Time → Store → Message → Type 0
Waits now s x = (x.lease ≡ []) × (now ≤ x.arrived + s.ttl)

module _ (now : Time) (s : Store) where
  none_expired :
      (ms : List Message) → All (Waits now s) ms → (split_expired (now - s.ttl) ms).1 ≡ ms
  unfolding split_expired
  none_expired [] h = refl
  none_expired (x ∷ ms) h = ground (arith, h.0.1)

  none_released : (ms : List Message) → All (Waits now s) ms → release_all now ms ≡ ms
  unfolding release_all release
  none_released [] h = refl
  none_released (x ∷ ms) h = rw (h.0.0, none_released ms h.1)

  picks_everything :
      (n : ℕ) (ms : List Message) → All (Waits now s) ms → pick (pos 0) n ms ≡ (ms, [])
  unfolding pick
  picks_everything n [] h = refl
  picks_everything n (x ∷ ms) h = rw (h.0.0, picks_everything (n + 1) ms h.1)

module _ (now : Time) (r : Route) (s : Store) (ms : List Message)
    (valid : valid_route r.estate r.station r.dir ≡ true) (waits : All (Waits now s) ms)
    (waiting : queue (key r.estate r.station r.dir) s ≡ ms) where
  abbrev here : Text
  here = key r.estate r.station r.dir

  all-current : current here now s ≡ ms
  unfolding current
  all-current = rw (waiting, none_expired now s ms waits) (none_released now s ms waits)

  pub take_all : (take now r.estate r.station r.dir (pos 0) s).1 ≡ ok ms
  take_all =
      take-result now r.estate r.station r.dir (pos 0) s valid
      ∙ rw (all-current, picks_everything now s 0 ms waits) refl

  pub take_all-queue : queue here (take now r.estate r.station r.dir (pos 0) s).0 ≡ []
  take_all-queue =
      take-queue now r.estate r.station r.dir (pos 0) s valid here
      ∙ at_self here _ _
      ∙ rw (all-current, picks_everything now s 0 ms waits) refl

-- A poll that does not wait, with no limit and no lease.
abbrev pub at_once : Query
at_once = record { limit = []; lease = []; wait = bytes "0" }

no_lease_asked : (fl : Floats) → parse_lease fl [] ≡ ok (pos 0)
unfolding parse_lease trim_space trim_left trim_right
no_lease_asked fl = refl

and_false : (b : Bool) → (b && false) ≡ false
and_false true = refl
and_false false = refl

module _ (auth : Authoriser) (fl : Floats) (now : Time) (r : Route) (w : World) (s : Store)
    (ms : List Message) (found : (take now r.estate r.station r.dir (pos 0) s).1 ≡ ok ms) where
  -- What Take gives is handed over.
  abbrev pub Collected : auth.State → Done auth.State → Type 0
  Collected st d =
      (d.reply ≡ record { code = 200; body = Body.array ms })
      × (d.store ≡ (take now r.estate r.station r.dir (pos 0) s).0)
      × (d.auth ≡ st)

  get_admitted-Collected :
      (g : Grant) (req : Request) (st : auth.State)
      → Collected st (get_admitted auth fl now g r req at_once w s st)
  unfolding get_admitted collect_plain poll delivered_as atoi same
  get_admitted-Collected g req st =
      rw (get_admitted, no_lease_asked fl)
        (rw (poll, found, and_false (is_empty ms)) (refl, refl, refl))

  pub get_handler-Collected :
      (credential : Text) (st : auth.State)
      → valid_dir r.dir ≡ true
      → (auth.admit st now (read_request auth now credential r)).1.allow ≡ true
      → Collected
          (auth.admit st now (read_request auth now credential r)).0
          (get_handler auth fl now credential r at_once w s st)
  unfolding get_handler
  get_handler-Collected credential st right allowed =
      let (st', g) = auth.admit st now (read_request auth now credential r) in
      rw (right, allowed) (get_admitted-Collected g (read_request auth now credential r) st')

-- The same poll, for a lease.
abbrev pub for_lease : Text → Query
for_lease v = record { limit = []; lease = v; wait = bytes "0" }

module _ (auth : Authoriser) (fl : Floats) (now : Time) (r : Route) (w : World) (s : Store)
    (v : Text) (d : ℤ) (l : Lease) (asked : parse_lease fl v ≡ ok d)
    (positive : ltb_ℤ (pos 0) d ≡ true)
    (found : (take_leased now r.estate r.station r.dir (pos 0) d s).1 ≡ ok l) where
  -- What TakeLeased gives is handed over.
  abbrev pub Leased : auth.State → Done auth.State → Type 0
  Leased st x =
      (x.reply ≡ record { code = 200; body = Body.leased l })
      × (x.store ≡ (take_leased now r.estate r.station r.dir (pos 0) d s).0)
      × (x.auth ≡ st)

  get_admitted-Leased :
      (g : Grant) (req : Request) (st : auth.State)
      → Leased st (get_admitted auth fl now g r req (for_lease v) w s st)
  unfolding get_admitted collect_leased poll delivered_as atoi same
  get_admitted-Leased g req st =
      rw (get_admitted, asked)
        (rw positive (rw (poll, found, and_false (is_empty l.messages)) (refl, refl, refl)))

  pub get_handler-Leased :
      (credential : Text) (st : auth.State)
      → valid_dir r.dir ≡ true
      → (auth.admit st now (read_request auth now credential r)).1.allow ≡ true
      → Leased
          (auth.admit st now (read_request auth now credential r)).0
          (get_handler auth fl now credential r (for_lease v) w s st)
  unfolding get_handler
  get_handler-Leased credential st right allowed =
      let (st', g) = auth.admit st now (read_request auth now credential r) in
      rw (right, allowed) (get_admitted-Leased g (read_request auth now credential r) st')
