-- ===== src/Server/Answers.antt =====
-- What the handlers answer: a refusal is never a success, and a message is settled once.
use mathlib.Core.Path.{subst}
use heliograph_relay.Common.{
  ℕ, ◌+◌, ◌≤◌, ◌≡◌, refl, sym, ap, ◌⊎◌, inl, inr, not, [], ◌∷◌, Text, length, ltb, ℤ, ◌≤ℤ◌, arith,
  on_both, Bool-cases,
}
use heliograph_relay.Relay.Message.{Time, Error, Result, ok, err, valid_dir}
use heliograph_relay.Relay.Store.{Store, put}
use heliograph_relay.Relay.Leased.{max_lease}
use heliograph_relay.Spool.Disk.{Codec, Faults}
use heliograph_relay.Auth.Types.{Op, Reason, Grant, Settlement, Outcome, status, refusal}
use heliograph_relay.Auth.Scoped.{Authoriser}
use heliograph_relay.Server.Reply.{named, refuse}
use heliograph_relay.Server.Put.{
  Route, Decoded, Done, cap, new_message, put_message, put_admitted, put_handler,
}
use heliograph_relay.Server.LeaseParam.{Floats, parse_lease, read_number, bounded}

status_named : (r : Reason) → 400 ≤ status (named r)
unfolding status
status_named Reason.allowed = omega arith
status_named Reason.no_credential = omega arith
status_named Reason.bad_credential = omega arith
status_named Reason.wrong_direction = omega arith
status_named Reason.out_of_scope = omega arith
status_named Reason.estate_wide = omega arith
status_named Reason.authority_expired = omega arith
status_named Reason.authority_unverifiable = omega arith
status_named Reason.authoriser_unavailable = omega arith
status_named Reason.not_durable = omega arith
status_named Reason.revoked = omega arith
status_named Reason.bad_lease = omega arith
status_named Reason.no_such_lease = omega arith
status_named Reason.bad_route = omega arith
status_named Reason.unreadable = omega arith
status_named Reason.too_large = omega arith
status_named Reason.queue_full = omega arith
status_named Reason.internal = omega arith
status_named (Reason.custom t) = omega arith

-- A refusal is answered with an error status, whatever reason the authoriser gave it, a missing or
-- a contradictory one too.
pub refuse_fails : (g : Grant) → 400 ≤ (refuse g).code
unfolding refuse
refuse_fails g = status_named g.reason

-- A lease that a collector asks for is granted for the longest duration at most.
pub parse_lease_bounded :
    (fl : Floats) (raw : Text) (d : ℤ) → parse_lease fl raw ≡ ok d → d ≤ℤ max_lease
unfolding parse_lease read_number bounded
parse_lease_bounded fl raw d h = ground arith

pub Decoded-cases :
    (d : Decoded)
    → (d ≡ Decoded.over_cap)
      ⊎ (d ≡ Decoded.unreadable)
      ⊎ ((seq : ℕ) × (body : Text) × (d ≡ Decoded.message seq body))
Decoded-cases (Decoded.message seq body) = inr (inr (seq, body, refl))
Decoded-cases Decoded.over_cap = inl refl
Decoded-cases Decoded.unreadable = inr (inl refl)

pub Result-cases {ℓ} :
    {A : Type ℓ} (r : Result A) → ((e : Error) × (r ≡ err e)) ⊎ ((a : A) × (r ≡ ok a))
Result-cases (ok a) = inr (a, refl)
Result-cases (err e) = inl (e, refl)

-- What the authoriser says of a message that is sent.
abbrev pub put_grant :
    (auth : Authoriser) → Time → Text → Route → ℤ → auth.State → auth.State × Grant
put_grant auth now credential r size st = auth.admit st now (record {
  credential = credential;
  estate = r.estate;
  station = r.station;
  dir = r.dir;
  op = Op.write;
  bytes = size;
  at = now;
})

module _ (c : Codec) (f : Faults) (auth : Authoriser) where
  -- A request that was turned away: nothing is settled and nothing is stored.
  abbrev pub TurnedAway : Store → Done auth.State → Type 0
  TurnedAway s d = (d.settled ≡ []) × (d.store ≡ s) × (400 ≤ d.reply.code)

  -- A request that was admitted and failed: it is settled once, as refused.
  abbrev pub Refused : Done auth.State → Type 0
  Refused d =
      (x : Settlement) × (d.settled ≡ x ∷ []) × (x.outcome ≡ Outcome.refused) × (400 ≤ d.reply.code)

  -- A request that was accepted: the store took the message that its body decodes to, it is settled
  -- once with its size, and the answer is 202.
  abbrev pub Accepted : Time → Route → Grant → (ℕ → Decoded) → Store → Done auth.State → Type 0
  Accepted now r g decode s d =
      (seq : ℕ) × (body : Text) × (x : Settlement) × (decode (cap g + 1024)
        ≡ Decoded.message seq body)
      × (length body ≤ cap g)
      × (put c f now (new_message r seq body) s ≡ (d.store, ok tt))
      × (d.settled ≡ x ∷ [])
      × (x.outcome ≡ Outcome.accepted)
      × (x.bytes ≡ length body)
      × (d.reply.code ≡ 202)

  abbrev pub PutDone : Time → Route → Grant → (ℕ → Decoded) → Store → Done auth.State → Type 0
  PutDone now r g decode s d = TurnedAway s d ⊎ Refused d ⊎ Accepted now r g decode s d

  put_message-ends :
      (now : Time) (g : Grant) (r : Route) (decode : ℕ → Decoded) (seq : ℕ) (body : Text)
      (s : Store) (st : auth.State)
      → decode (cap g + 1024) ≡ Decoded.message seq body
      → PutDone now r g decode s (put_message c f auth now g r seq body s st)
  unfolding put_message
  put_message-ends now g r decode seq body s st read =
      elim (Bool-cases (ltb (cap g) (length body))) [
        | inl e ↦ rw e (inr (inl (_, refl, refl, refuse_fails _)))
        | inr e ↦ elim (Result-cases (put c f now (new_message r seq body) s).1) [
          | inl (why, p) ↦ rw (e, p) (inr (inl (_, refl, refl, refuse_fails _)))
          | inr (_, p) ↦
              rw (e, p)
                (inr (
                  inr (
                    seq,
                    body,
                    _,
                    read,
                    ground (arith, e),
                    ap (λ x. ((put c f now (new_message r seq body) s).0, x)) p,
                    refl,
                    refl,
                    refl,
                    refl,
                  )))
        ]
      ]

  put_admitted-ends :
      (now : Time) (g : Grant) (r : Route) (decode : ℕ → Decoded) (s : Store) (st : auth.State)
      → PutDone now r g decode s (put_admitted c f auth now g r decode s st)
  unfolding put_admitted
  put_admitted-ends now g r decode s st = elim (Decoded-cases (decode (cap g + 1024))) [
    | inl e ↦ rw (put_admitted, e) (inr (inl (_, refl, refl, refuse_fails _)))
    | inr (inl e) ↦ rw (put_admitted, e) (inr (inl (_, refl, refl, refuse_fails _)))
    | inr (inr (seq, body, e)) ↦
        let read : put_admitted c f auth now g r decode s st
            ≡ put_message c f auth now g r seq body s st =
          rw (put_admitted, e) refl in
        subst (PutDone now r g decode s) (sym read)
          (put_message-ends now g r decode seq body s st e)
  ]

  -- However a message is sent, the handler turns it away, storing and settling nothing; or it
  -- settles it once, as refused and with an error status; or it answers 202, and then the store took
  -- the message with the number and the body that were read from the request, which is no longer than
  -- the grant's cap, and it is settled once, as accepted and with its size.
  pub put_settles :
      (now : Time) (credential : Text) (r : Route) (size : ℤ) (decode : ℕ → Decoded) (s : Store)
      (st : auth.State)
      → PutDone now r
          (put_grant auth now credential r size st).1
          decode
          s
          (put_handler c f auth now credential r size decode s st)
  unfolding put_handler
  put_settles now credential r size decode s st =
      let (st', g) = put_grant auth now credential r size st in
      let P = PutDone now r g decode s in
      on_both P (not (valid_dir r.dir)) (inl (refl, refl, refuse_fails (refusal Reason.bad_route)))
        (on_both P (not g.allow) (inl (refl, refl, refuse_fails g))
          (put_admitted-ends now g r decode s st'))
