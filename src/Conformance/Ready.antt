-- ===== src/Conformance/Ready.antt =====
-- What the suite's sections rely on, and the state of a relay between their calls.
use mathlib.Core.Path.{subst}
use heliograph_relay.Common.{
  is_empty, sym, ap, ◌∙◌, arith, ℕ, ◌+◌, ◌*◌, ◌≤◌, ◌<◌, ◌≡◌, false, List, [], Text, length, ℤ, true,
}
use heliograph_relay.Relay.Message.{
  Message, Time, key, valid_route, max_body_bytes, default_ttl, default_max_queue,
}
use heliograph_relay.Relay.Store.{Store, queue}
use heliograph_relay.Relay.Leased.{is_blank}
use heliograph_relay.Spool.Disk.{Codec, unix_epoch}
use heliograph_relay.Auth.Types.{Request, Reason, refusal}
use heliograph_relay.Auth.Scoped.{Authoriser}
use heliograph_relay.Server.Put.{cap}
use heliograph_relay.Server.Get.{read_request}
use heliograph_relay.Server.Answers.{put_grant}
use heliograph_relay.Server.Reply.{token}
use heliograph_relay.Server.Collecting.{Waits}
use heliograph_relay.Recovery.Settling.{Mirrored}
use heliograph_relay.Recovery.Storing.{Mirrored-raise}
use heliograph_relay.Conformance.Machine.{Bench, Machine, bearer, route}

-- `tok` may send in a direction of the estate, to any station, with no cap of its own.
abbrev pub Sends : (auth : Authoriser) → (auth.State → Type 0) → Text → Text → Text → Type 0
Sends auth Sane estate dir tok =
    (st : auth.State) (now : Time) (station : Text) (size : ℤ)
    → valid_route estate station dir ≡ true
    → Sane st
    → let g = (put_grant auth now (token (bearer tok)) (route estate station dir) size st).1 in
      (g.allow ≡ true) × (cap g ≡ max_body_bytes)

-- `tok` may collect.
abbrev pub Collects : (auth : Authoriser) → (auth.State → Type 0) → Text → Text → Text → Type 0
Collects auth Sane estate dir tok =
    (st : auth.State) (now : Time) (station : Text)
    → valid_route estate station dir ≡ true
    → Sane st
    → (auth.admit st now
        (read_request auth now (token (bearer tok)) (route estate station dir))).1.allow
      ≡ true

-- `tok` is refused, and why.
abbrev pub Denies :
    (auth : Authoriser) → (auth.State → Type 0) → Text → Text → Text → Reason → Type 0
Denies auth Sane estate dir tok why =
    (st : auth.State) (now : Time) (station : Text) (size : ℤ)
    → valid_route estate station dir ≡ true
    → Sane st
    → (put_grant auth now (token (bearer tok)) (route estate station dir) size st).1 ≡ refusal why

abbrev pub DeniesRead :
    (auth : Authoriser) → (auth.State → Type 0) → Text → Text → Text → Reason → Type 0
DeniesRead auth Sane estate dir tok why =
    (st : auth.State) (now : Time) (station : Text)
    → valid_route estate station dir ≡ true
    → Sane st
    → (auth.admit st now (read_request auth now (token (bearer tok)) (route estate station dir))).1
      ≡ refusal why

-- An hour: no call comes later than that after the one before.
abbrev pub hour : ℕ
hour = 3600 * 1000000000

-- What the suite relies on of the world around the relay.
pub record Calm {S : Type 0} (b : Bench S) (begin file : ℕ) : Type 0 where
  pub prompt : (i : ℕ) → b.lag i ≤ hour
  pub named : is_blank b.dir ≡ false
  pub early : unix_epoch ≤ begin
  pub late : begin + 100 * hour < unix_epoch + 9223372036854775808
  pub numbers : file + 100 < 18446744073709551616
  pub compact : (seq : ℕ) (body : Text) → b.size seq body ≤ 2 * length body + 64

-- `Sane` holds of the authoriser's states.
abbrev pub Keeps : (auth : Authoriser) → (auth.State → Type 0) → Type 0
Keeps auth Sane =
    (st : auth.State) (now : Time) (req : Request) → Sane st → Sane (auth.admit st now req).0

abbrev pub queue_at : {S : Type 0} → Text → Text → Text → Machine S → List Message
queue_at estate station dir w = queue (key estate station dir) w.server.store

-- A relay that mirrors its queues on the disk, after `n` calls.
pub record Ready (c : Codec) {S : Type 0} (Sane : S → Type 0) (begin file n : ℕ) (w : Machine S)
    : Type 0 where
  pub sane : Sane w.server.auth
  pub mirrored : Mirrored c (file + n) w.server.store
  pub ttl : w.server.store.ttl ≡ default_ttl
  pub max : w.server.store.max ≡ default_max_queue
  pub after : begin ≤ w.now
  pub before : w.now ≤ begin + n * hour

-- A message of the run, waiting in its queue.
pub record Fresh (begin seq : ℕ) (body : Text) (x : Message) : Type 0 where
  pub seq_eq : x.seq ≡ seq
  pub body_eq : x.body ≡ body
  pub named : is_empty x.id ≡ false
  pub free : x.lease ≡ []
  pub arrived : begin ≤ x.arrived

module _ (c : Codec) {S : Type 0} (b : Bench S) (Sane : S → Type 0) (begin file n : ℕ)
    (calm : Calm b begin file) (w : Machine S) (h : Ready c Sane begin file n w) where
  -- When the next call comes.
  abbrev pub now : Time
  now = w.now + b.lag w.sends

  pub later : (begin ≤ now) × (now ≤ begin + (n + 1) * hour)
  later = (omega (arith, h.after), omega (arith, h.before, calm.prompt w.sends))

  -- A call that keeps the mirror and the limits leaves the relay ready for the next one.
  pub moved :
      (w' : Machine S) (s : Store)
      → w'.server.store ≡ s
      → Sane w'.server.auth
      → w'.now ≡ now
      → Mirrored c (file + (n + 1)) s
      → (s.ttl ≡ w.server.store.ttl) × (s.max ≡ w.server.store.max)
      → Ready c Sane begin file (n + 1) w'
  moved w' s store sane clock mirrored (ttl, max) = record {
    sane = sane;
    mirrored = subst (Mirrored c (file + (n + 1))) (sym store) mirrored;
    ttl = ap (λ (t : Store). t.ttl) store ∙ ttl ∙ h.ttl;
    max = ap (λ (t : Store). t.max) store ∙ max ∙ h.max;
    after = omega (arith, clock, later.0);
    before = omega (arith, clock, later.1);
  }

  -- The same, where no file is written.
  pub moved_unwritten :
      (w' : Machine S) (s : Store)
      → w'.server.store ≡ s
      → Sane w'.server.auth
      → w'.now ≡ now
      → Mirrored c (file + n) s
      → (s.ttl ≡ w.server.store.ttl) × (s.max ≡ w.server.store.max)
      → Ready c Sane begin file (n + 1) w'
  moved_unwritten w' s store sane clock mirrored limits =
      moved w' s store sane clock
        (subst (λ i. Mirrored c i s) (omega arith) (Mirrored-raise c (file + n) s mirrored)) limits

  -- Messages of the run wait, since none of them is a week old.
  pub Fresh-Waits :
      (seq : ℕ) (body : Text) (x : Message)
      → n < 100
      → Fresh begin seq body x
      → Waits now w.server.store x
  Fresh-Waits seq body x few fresh = (fresh.free, omega (arith, fresh.arrived, later.1, h.ttl))
