-- ===== src/Server/Admitting.antt =====
-- A message that the relay takes: the conditions under which a sender is answered with 202.
use heliograph_relay.Common.{
  ℕ, ◌+◌, ◌-◌, ◌≤◌, ◌<◌, ◌≡◌, refl, ap, ◌∙◌, true, false, Option, none, some, [], Text, length, ℤ,
  arith, ltb,
}
use heliograph_relay.Relay.Message.{Message, Time, ok, key, valid_dir, valid_route, max_body_bytes}
use heliograph_relay.Relay.Store.{Store, queue, put, next_id, expire, split_expired, written}
use heliograph_relay.Relay.Accepting
use heliograph_relay.Spool.Disk.{Codec, Spool, no_faults, write, publish, spool_name}
use heliograph_relay.Auth.Types.{Grant}
use heliograph_relay.Auth.Scoped.{Authoriser}
use heliograph_relay.Server.Reply.{Body}
use heliograph_relay.Server.Put.{
  Route, Decoded, Done, cap, new_message, put_message, put_admitted, put_handler,
}
use heliograph_relay.Server.Answers.{put_grant}

pub valid_route-dir :
    (estate station dir : Text) → valid_route estate station dir ≡ true → valid_dir dir ≡ true
unfolding valid_route valid_dir
valid_route-dir estate station dir h = ground (arith, h)

-- Where no system call fails, the copy is written.
written_somewhere :
    (c : Codec) (m : Message) (o : Option Spool)
    → (name : Text) × ((written c no_faults m o).1 ≡ some name)
unfolding written write publish
written_somewhere c m none = (m.file, refl)
written_somewhere c m (some sp) = (spool_name sp.next, refl)

module _ (c : Codec) (now : Time) (m : Message) (s : Store)
    (valid : valid_route m.estate m.station m.dir ≡ true) (small : length m.body ≤ max_body_bytes)
    (vacant : queue (key m.estate m.station m.dir) s ≡ []) (room : 0 < s.max) where
  -- Put accepts what it can write, where the queue is empty.
  pub put_ok : (put c no_faults now m s).1 ≡ ok tt
  unfolding split_expired
  put_ok =
      let numbered = Accepting.numbered c no_faults now m s in
      let k = key m.estate m.station m.dir in
      let t = (next_id (expire k now s)).0 in
      let none_left : length (Accepting.room c no_faults now m s) ≡ 0 =
        ap (λ ms. length (split_expired (now - s.ttl) ms).1) vacant in
      let (name, e) = written_somewhere c numbered t.spool in
      ap (λ r. r.1)
        (Accepting.put-accept c no_faults now m s (valid, small, omega (arith, none_left)))
      ∙ ap (λ r. r.1) (Accepting.accept_ok c no_faults k numbered t name e)

module _ (c : Codec) (auth : Authoriser) (now : Time) (r : Route) (seq : ℕ) (body : Text)
    (s : Store) (stored : (put c no_faults now (new_message r seq body) s).1 ≡ ok tt) where
  -- The store is Put's, and the sender is told.
  abbrev pub Told : auth.State → Done auth.State → Type 0
  Told st d =
      (d.reply ≡ record { code = 202; body = Body.nothing })
      × (d.store ≡ (put c no_faults now (new_message r seq body) s).0)
      × (d.auth ≡ st)

  put_message-Told :
      (g : Grant) (st : auth.State)
      → length body ≤ cap g
      → Told st (put_message c no_faults auth now g r seq body s st)
  unfolding put_message
  put_message-Told g st fits =
      let e : ltb (cap g) (length body) ≡ false = ground arith in
      rw (put_message, e, stored) (refl, refl, refl)

  pub put_handler-Told :
      (credential : Text) (size : ℤ) (decode : ℕ → Decoded) (st : auth.State)
      → let (st', g) = put_grant auth now credential r size st in
        valid_dir r.dir ≡ true
        → g.allow ≡ true
        → decode (cap g + 1024) ≡ Decoded.message seq body
        → length body ≤ cap g
        → Told st' (put_handler c no_faults auth now credential r size decode s st)
  unfolding put_handler put_admitted
  put_handler-Told credential size decode st right allowed whole fits =
      let (st', g) = put_grant auth now credential r size st in
      rw (right, allowed) (rw (put_admitted, whole) (put_message-Told g st' fits))
