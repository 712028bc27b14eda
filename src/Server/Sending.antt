-- ===== src/Server/Sending.antt =====
-- A message that is answered with 202, from the request to its queue.
use mathlib.Core.Path.{subst}
use heliograph_relay.Common.{
  ℕ, ◌-◌, ◌≡◌, refl, sym, ap, ◌∙◌, inl, inr, not, true, false, Bool, [], ◌∷◌, ◌++◌, Text, length,
  ltb, ℤ, if◌then◌else◌, arith, Bool-cases,
}
use heliograph_relay.Relay.Message.{Message, Time, ok, key, valid_dir, valid_route}
use heliograph_relay.Relay.Store.{Store, queue, put, enqueue, next_id, split_expired}
use heliograph_relay.Relay.Frame.{expire-SameCounters, set_queue-SameCounters}
use heliograph_relay.Relay.Guarantees.{at_self}
use heliograph_relay.Relay.Promises.{refused_not_ok}
use heliograph_relay.Relay.Accepting
use heliograph_relay.Spool.Disk.{Codec, Faults}
use heliograph_relay.Auth.Types.{Grant, Reason, refusal}
use heliograph_relay.Auth.Scoped.{Authoriser}
use heliograph_relay.Server.Reply.{refuse}
use heliograph_relay.Server.Put.{
  Route, Decoded, Done, cap, new_message, put_message, put_admitted, put_handler, put_refusal,
}
use heliograph_relay.Server.Answers.{Result-cases, put_grant, refuse_fails}

not_success : (g : Grant) → (refuse g).code ≡ 202 → ⊥
not_success g h = omega (arith, refuse_fails g, h)

module _ (c : Codec) (f : Faults) (auth : Authoriser) (now : Time) (r : Route) (seq : ℕ)
    (body : Text) (s : Store) where
  -- A request that is answered with 202: the direction is valid, and the store took the message.
  abbrev Taken : Done auth.State → Type 0
  Taken d =
      d.reply.code ≡ 202
      → ((put c f now (new_message r seq body) s).1 ≡ ok tt)
        × (d.store ≡ (put c f now (new_message r seq body) s).0)

  put_message-Taken :
      (g : Grant) (st : auth.State) → Taken (put_message c f auth now g r seq body s st)
  unfolding put_message
  put_message-Taken g st = elim (Bool-cases (ltb (cap g) (length body))) [
    | inl e ↦ rw e (λ h. absurd (not_success (refusal Reason.too_large) h))
    | inr e ↦ elim (Result-cases (put c f now (new_message r seq body) s).1) [
      | inl (why, p) ↦ rw (e, p) (λ h. absurd (not_success (put_refusal why) h))
      | inr (_, p) ↦ rw (e, p) (λ h. (refl, refl))
    ]
  ]

  abbrev pub Accepted : Bool → Bool → Done auth.State → Type 0
  Accepted right allowed d =
      d.reply.code ≡ 202
      → (right ≡ true)
        × (allowed ≡ true)
        × ((put c f now (new_message r seq body) s).1 ≡ ok tt)
        × (d.store ≡ (put c f now (new_message r seq body) s).0)

  guarded :
      (right allowed : Bool) (x y z : Done auth.State)
      → (x.reply.code ≡ 202 → ⊥)
      → (y.reply.code ≡ 202 → ⊥)
      → Taken z
      → Accepted right allowed (if not right then x else if not allowed then y else z)
  guarded false allowed x y z no_route denied taken = λ h. absurd (no_route h)
  guarded true false x y z no_route denied taken = λ h. absurd (denied h)
  guarded true true x y z no_route denied taken = λ h. (refl, refl, (taken h).0, (taken h).1)

  pub put_handler-Accepted :
      (credential : Text) (size : ℤ) (st : auth.State)
      → Accepted
          (valid_dir r.dir)
          (put_grant auth now credential r size st).1.allow
          (put_handler c f auth now credential r size (λ limit. Decoded.message seq body) s st)
  unfolding put_handler put_admitted
  put_handler-Accepted credential size st =
      let (st', g) = put_grant auth now credential r size st in
      guarded (valid_dir r.dir) g.allow _ _ _ (not_success (refusal Reason.bad_route))
        (not_success g) (put_message-Taken g st')

  abbrev pub k : Text
  k = key r.estate r.station r.dir

  abbrev pub m : Message
  m = new_message r seq body

  -- What Put makes of an empty queue that it adds to.
  abbrev pub Alone : Store → Type 0
  Alone s' =
      (file : Text) × (valid_route r.estate r.station r.dir ≡ true)
      × (s'.ttl ≡ s.ttl)
      × (s'.max ≡ s.max)
      × (queue k s' ≡ Accepting.stored now m (next_id s).1 file ∷ [])

  kept-ttl : (x : Message) → (enqueue k x (Accepting.tried c f now m s)).ttl ≡ s.ttl
  unfolding enqueue next_id
  kept-ttl x =
      let t = Accepting.tried c f now m s in
      (set_queue-SameCounters k (queue k t ++ x ∷ []) t).ttl ∙ (expire-SameCounters k now s).ttl

  no_room : queue k s ≡ [] → Accepting.room c f now m s ≡ []
  unfolding split_expired
  no_room none_waiting = ap (λ ms. (split_expired (now - s.ttl) ms).1) none_waiting

  pub put-Alone : queue k s ≡ [] → (put c f now m s).1 ≡ ok tt → Alone (put c f now m s).0
  put-Alone none_waiting accepted = elim (Accepting.put-PutEnd c f now m s) [
    | Accepting.rejected e p ↦ absurd (refused_not_ok e (sym (ap (λ x. x.1) p) ∙ accepted))
    | Accepting.full p ↦ absurd (refused_not_ok _ (sym (ap (λ x. x.1) p) ∙ accepted))
    | Accepting.lost unwritten p ↦ absurd (refused_not_ok _ (sym (ap (λ x. x.1) p) ∙ accepted))
    | Accepting.kept name e g p ↦
        let x = Accepting.stored now m (next_id s).1 name in
        subst (λ o. Alone o.0) (sym p)
          (
            name,
            g.0,
            kept-ttl x,
            (Accepting.kept-NextId c f now m s x).max,
            Accepting.queue-kept c f now m s name k
                ∙ at_self k _ _
                ∙ ap (λ ms. ms ++ x ∷ []) (no_room none_waiting),
          )
  ]
