-- ===== src/Server/Tenancy.antt =====
-- Tenant isolation: the queues that a request to the server can change.
use heliograph_relay.Common.{
  ◌≡◌, refl, ap, ◌⊎◌, inl, inr, not, true, false, Option, none, some, Text, same, same_iff, Dict,
  pos, if◌then◌else◌, Bool-cases,
}
use heliograph_relay.Relay.Message.{Time, key, valid_dir}
use heliograph_relay.Relay.Store.{Store, queue}
use heliograph_relay.Spool.Disk.{Codec, Faults}
use heliograph_relay.Auth.Types.{Op, Request, Scope}
use heliograph_relay.Auth.Scoped.{Authoriser, scoped_auth, scope_of}
use heliograph_relay.Auth.Bounded.{Covers, scoped_admits}
use heliograph_relay.Server.Reply.{token}
use heliograph_relay.Server.Put.{Route, Done, put_handler}
use heliograph_relay.Server.LeaseParam.{Floats}
use heliograph_relay.Server.Get.{get_handler, ack_handler}
use heliograph_relay.Server.Confinement.{put_admitted-Kept, get_admitted-Kept, ack_admitted-Kept}
use heliograph_relay.Server.Service.{
  Server, Target, putting, getting, acknowledging, health, version, root, unmatched, HttpRequest,
  serve,
}

-- A request that acts on a queue, and how.
abbrev pub acts : Target → Option (Route × Op)
acts (putting r) = some (r, Op.write)
acts (getting r) = some (r, Op.read)
acts (acknowledging r) = some (r, Op.read)
acts _ = none

-- What the authoriser is asked for it.
abbrev pub asked : Time → HttpRequest → Route → Op → Request
asked now q r op = record {
  credential = token q.authorization;
  estate = r.estate;
  station = r.station;
  dir = r.dir;
  op = op;
  bytes = elim op [ Op.write ↦ q.content_length | _ ↦ pos 0 ];
  at = now;
}

-- The request acts on the queue `k`, in a valid direction, and the authoriser admits it.
abbrev pub Admitted : (auth : Authoriser) → Text → Time → Target → HttpRequest → auth.State → Type 0
Admitted auth k now t q st =
    (r : Route) × (op : Op) × (acts t ≡ some (r, op))
    × (key r.estate r.station r.dir ≡ k)
    × (valid_dir r.dir ≡ true)
    × ((auth.admit st now (asked now q r op)).1.allow ≡ true)

module _ (codec : Codec) (faults : Faults) (fl : Floats) (auth : Authoriser) (k : Text) (now : Time)
    (q : HttpRequest) (s : Server auth.State) where
  Confined : Target → Type 0
  Confined t =
      (queue k (serve codec faults fl auth now t q s).0.store ≡ queue k s.store)
      ⊎ Admitted auth k now t q s.auth

  guarded :
      (t : Target) (r : Route) (op : Op) (no_route not_allowed admitted : Done auth.State)
      → acts t ≡ some (r, op)
      → no_route.store ≡ s.store
      → not_allowed.store ≡ s.store
      → (same (key r.estate r.station r.dir) k ≡ false → queue k admitted.store ≡ queue k s.store)
      → let g = (auth.admit s.auth now (asked now q r op)).1 in
        let d =
          if not (valid_dir r.dir)
          then no_route
          else if not g.allow
          then not_allowed
          else admitted in
        (queue k d.store ≡ queue k s.store) ⊎ Admitted auth k now t q s.auth
  guarded t r op no_route not_allowed admitted e a b c =
      let kept = ap (queue k) b in
      elim (Bool-cases (valid_dir r.dir)) [
        | inr wrong ↦ inl (rw wrong (ap (queue k) a))
        | inl right ↦ elim (Bool-cases (auth.admit s.auth now (asked now q r op)).1.allow) [
          | inr refused ↦ inl (rw (right, refused) kept)
          | inl allowed ↦ elim (Bool-cases (same (key r.estate r.station r.dir) k)) [
            | inr other ↦ inl (rw (right, allowed) (c other))
            | inl own ↦
                inr (r, op, e, (same_iff (key r.estate r.station r.dir) k).0 own, right, allowed)
          ]
        ]
      ]

  -- A request leaves a queue as it was, unless the request acts on that very queue, in a valid
  -- direction, and the authoriser admits it for that estate, station, direction and operation. What
  -- other requests do while it is held must leave the queue as it was.
  pub serve_confined :
      ((s' : Store) → queue k (q.world.meanwhile s') ≡ queue k s')
      → (t : Target)
      → (queue k (serve codec faults fl auth now t q s).0.store ≡ queue k s.store)
        ⊎ Admitted auth k now t q s.auth
  unfolding serve put_handler get_handler ack_handler
  serve_confined outside (putting r) =
      let (st, g) = auth.admit s.auth now (asked now q r Op.write) in
      guarded (putting r) r Op.write _ _ _ refl refl refl
        (λ other. put_admitted-Kept auth k r other codec faults now g q.decode s.store st)
  serve_confined outside (getting r) =
      let (st, g) = auth.admit s.auth now (asked now q r Op.read) in
      guarded (getting r) r Op.read _ _ _ refl refl refl (λ other.
        get_admitted-Kept auth k r other q.world outside fl now g (asked now q r Op.read) q.query
          s.store st)
  serve_confined outside (acknowledging r) =
      let (st, g) = auth.admit s.auth now (asked now q r Op.read) in
      guarded (acknowledging r) r Op.read _ _ _ refl refl refl
        (λ other. ack_admitted-Kept auth k r other now g q.lease_id s.store st)
  serve_confined outside health = inl refl
  serve_confined outside version = inl refl
  serve_confined outside root = inl refl
  serve_confined outside unmatched = inl refl

-- Where each credential has one scope, a request leaves a queue as it was, unless the credential has
-- a scope, the request's route is that queue's, and the scope covers that route for the operation.
-- What other requests do while it is held must leave the queue as it was.
pub scoped_confined :
    (sha256 : Text → Text) (codec : Codec) (faults : Faults) (fl : Floats) (k : Text) (now : Time)
    (q : HttpRequest) (s : Server (Dict Scope))
    → ((s' : Store) → queue k (q.world.meanwhile s') ≡ queue k s')
    → (t : Target)
    → (queue k (serve codec faults fl (scoped_auth sha256) now t q s).0.store ≡ queue k s.store)
      ⊎ ((r : Route) × (op : Op) × (acts t ≡ some (r, op))
          × (key r.estate r.station r.dir ≡ k)
          × ((scope : Scope) × (scope_of sha256 s.auth (token q.authorization) ≡ some scope)
              × Covers scope r.estate r.station r.dir op))
scoped_confined sha256 codec faults fl k now q s outside t =
    elim (serve_confined codec faults fl (scoped_auth sha256) k now q s outside t) [
      | inl kept ↦ inl kept
      | inr (r, op, e, own, right, allowed) ↦
          let (_, covered) = (scoped_admits sha256 s.auth (asked now q r op)).0 allowed in
          inr (r, op, e, own, covered)
    ]
