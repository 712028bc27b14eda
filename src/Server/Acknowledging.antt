-- ===== src/Server/Acknowledging.antt =====
-- What the handler of the acknowledgement answers and settles.
use heliograph_relay.Common.{
  ℕ, ◌≤◌, ◌≡◌, refl, ap, ◌⊎◌, inl, inr, not, Option, none, some, [], ◌∷◌, Text, bytes, on_both,
}
use heliograph_relay.Relay.Message.{Time, ok, valid_dir}
use heliograph_relay.Relay.Store.{Store}
use heliograph_relay.Relay.Leased.{ack}
use heliograph_relay.Auth.Types.{Reason, Settlement, Outcome, Grant, refusal, refusal_with}
use heliograph_relay.Auth.Scoped.{Authoriser}
use heliograph_relay.Server.Reply.{Body}
use heliograph_relay.Server.Put.{Route, Done}
use heliograph_relay.Server.Answers.{refuse_fails, Result-cases}
use heliograph_relay.Server.Get.{ack_refusal, ack_admitted, ack_handler, read_request}

module _ (auth : Authoriser) where
  -- The ways in which an acknowledgement ends.
  abbrev pub AckDone : Time → Route → Option Text → Store → Done auth.State → Type 0
  AckDone now r id s d =
      ((d.settled ≡ []) × (d.store ≡ s) × (400 ≤ d.reply.code))
      ⊎ ((x : Settlement) × (d.settled ≡ x ∷ [])
          × (x.outcome ≡ Outcome.refused)
          × (x.messages ≡ 0)
          × (400 ≤ d.reply.code))
      ⊎ ((lease : Text) × (n : ℕ) × (x : Settlement) × (id ≡ some lease)
          × (ack now r.estate r.station r.dir lease s ≡ (d.store, ok n))
          × (d.settled ≡ x ∷ [])
          × (x.outcome ≡ Outcome.acknowledged)
          × (x.messages ≡ n)
          × (d.reply.code ≡ 200)
          × (d.reply.body ≡ Body.deleted n))

  ack_admitted-AckDone :
      (now : Time) (g : Grant) (r : Route) (id : Option Text) (s : Store) (st : auth.State)
      → AckDone now r id s (ack_admitted auth now g r id s st)
  unfolding ack_admitted
  ack_admitted-AckDone now g r none s st = inr (
      inl (
        _,
        refl,
        refl,
        refl,
        refuse_fails (refusal_with Reason.unreadable (bytes "could not read the acknowledgement")),
      ))
  ack_admitted-AckDone now g r (some lease) s st =
      let done = ack now r.estate r.station r.dir lease s in
      elim (Result-cases done.1) [
        | inl (e, p) ↦
            rw (ack_admitted, p) (inr (inl (_, refl, refl, refl, refuse_fails (ack_refusal e))))
        | inr (n, p) ↦
            rw (ack_admitted, p)
              (inr (inr (lease, n, _, refl, ap (λ x. (done.0, x)) p, refl, refl, refl, refl, refl)))
      ]

  -- An acknowledgement is turned away, with an error status, nothing settled and the store as it was;
  -- or it is settled once, as refused and with an error status; or the store has deleted what its
  -- lease held, and the answer and the one settlement give the number of the messages.
  pub ack_settles :
      (now : Time) (credential : Text) (r : Route) (id : Option Text) (s : Store) (st : auth.State)
      → AckDone now r id s (ack_handler auth now credential r id s st)
  unfolding ack_handler
  ack_settles now credential r id s st =
      let (st', g) = auth.admit st now (read_request auth now credential r) in
      let P = AckDone now r id s in
      on_both P (not (valid_dir r.dir)) (inl (refl, refl, refuse_fails (refusal Reason.bad_route)))
        (on_both P (not g.allow) (inl (refl, refl, refuse_fails g))
          (ack_admitted-AckDone now g r id s st'))
