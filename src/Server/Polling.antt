-- ===== src/Server/Polling.antt =====
-- What the handler of GET answers: one settlement for each poll that was admitted, in step with the
-- answer, and nothing delivered once the authority is withdrawn.
use heliograph_relay.Common.{
  ◌≤◌, ◌<◌, ◌≡◌, refl, sym, ap, length, ◌⊎◌, inl, inr, Bool, true, false, not, ◌&&◌, List, [], ◌∷◌,
  Text, bytes, same, is_empty, ℤ, pos, ltb_ℤ, arith, on_both,
}
use heliograph_relay.Relay.Message.{Message, Time, Result, valid_dir}
use heliograph_relay.Relay.Store.{Store, take}
use heliograph_relay.Relay.Leased.{take_leased, no_lease}
use heliograph_relay.Spool.Load.{body_bytes}
use heliograph_relay.Auth.Types.{Reason, Request, Grant, Settlement, Outcome, refusal, refusal_with}
use heliograph_relay.Auth.Scoped.{Authoriser}
use heliograph_relay.Server.Reply.{Body, Reply, refuse, withdrawn, hold, message_of, or_revoked}
use heliograph_relay.Server.Put.{Route, Done}
use heliograph_relay.Server.LeaseParam.{Floats, parse_lease, atoi}
use heliograph_relay.Server.Answers.{refuse_fails, Result-cases}
use heliograph_relay.Server.Get.{
  Query, World, seen, is_allowed, get_refusal, refused_with, delivered_as, resume, poll,
  collect_plain, collect_leased, read_request, get_admitted, get_handler,
}

-- The messages of an answer.
abbrev pub carried : Body → List Message
carried (Body.array ms) = ms
carried (Body.leased l) = l.messages
carried _ = []

-- The settlement says what the answer says, and counts the messages that it carries and their bytes.
abbrev pub InStep : Settlement → Reply → Type 0
InStep x a =
    (x.messages ≡ length (carried a.body))
    × (x.bytes ≡ body_bytes (carried a.body))
    × ((((x.outcome ≡ Outcome.refused) ⊎ (x.outcome ≡ Outcome.revoked))
          × (x.messages ≡ 0)
          × (400 ≤ a.code))
        ⊎ ((x.outcome ≡ Outcome.delivered) × (0 < x.messages) × (a.code ≡ 200))
        ⊎ ((x.outcome ≡ Outcome.empty) × (x.messages ≡ 0) × (a.code ≡ 200)))

abbrev pub SettledOnce : {S : Type 0} → Done S → Type 0
SettledOnce d = (x : Settlement) × (d.settled ≡ x ∷ []) × InStep x d.reply

failed-SettledOnce :
    (S : Type 0) (g : Grant) (r : Route) (started at : Time) (s : Store) (st : S) (why : Grant)
    (o : Outcome)
    → (o ≡ Outcome.refused) ⊎ (o ≡ Outcome.revoked)
    → SettledOnce (refused_with S g r started o at s st why)
unfolding refuse body_bytes
failed-SettledOnce S g r started at s st why o h =
    (_, refl, (refl, refl, inl (h, refl, refuse_fails why)))

delivered-SettledOnce :
    (S : Type 0) (g : Grant) (r : Route) (started : Time) (body : List Message → Body) (at : Time)
    (s : Store) (st : S) (ms : List Message)
    → carried (body ms) ≡ ms
    → SettledOnce (delivered_as S g r started body at s st ms)
unfolding delivered_as
delivered-SettledOnce S g r started body at s st [] e =
    (_, refl, (ap length (sym e), ap body_bytes (sym e), inr (inr (refl, refl, refl))))
delivered-SettledOnce S g r started body at s st (m ∷ ms) e =
    (_, refl, (ap length (sym e), ap body_bytes (sym e), inr (inl (refl, omega arith, refl))))

never_allowed : (r : Reason) → is_allowed (or_revoked r) ≡ false
never_allowed Reason.no_credential = refl
never_allowed Reason.bad_credential = refl
never_allowed Reason.wrong_direction = refl
never_allowed Reason.out_of_scope = refl
never_allowed Reason.estate_wide = refl
never_allowed Reason.authority_expired = refl
never_allowed Reason.authority_unverifiable = refl
never_allowed Reason.authoriser_unavailable = refl
never_allowed Reason.not_durable = refl
never_allowed Reason.revoked = refl
never_allowed Reason.bad_lease = refl
never_allowed Reason.no_such_lease = refl
never_allowed Reason.bad_route = refl
never_allowed Reason.unreadable = refl
never_allowed Reason.too_large = refl
never_allowed Reason.queue_full = refl
never_allowed Reason.internal = refl
never_allowed Reason.allowed = refl
never_allowed (Reason.custom t) = refl

module _ (auth : Authoriser) where
  resume-SettledOnce {ℓ} :
      {A : Type ℓ} (g : Grant) (r : Route) (started : Time) (w : World) (watched : Bool)
      (collect : Time → Store → Store × Result A) (none_yet : A)
      (finish : Time → Store → auth.State → A → Done auth.State) (s : Store) (st : auth.State)
      → ((at : Time) (s : Store) (st : auth.State) (a : A) → SettledOnce (finish at s st a))
      → SettledOnce (resume auth g r started w watched collect none_yet finish s st)
  unfolding resume
  resume-SettledOnce g r started w watched collect none_yet finish s st h =
      let (woken, why) = hold (seen watched w.event) in
      on_both SettledOnce (not (is_allowed why))
        (failed-SettledOnce auth.State g r started w.later (w.meanwhile s) st (refusal why)
          Outcome.revoked (inr refl))
        (on_both SettledOnce woken (h _ _ _ _) (h _ _ _ _))

  poll-SettledOnce {ℓ} :
      {A : Type ℓ} (g : Grant) (r : Route) (req : Request) (started : Time) (w : World)
      (wait : Bool) (collect : Time → Store → Store × Result A) (nothing_in : A → Bool)
      (none_yet : A) (finish : Time → Store → auth.State → A → Done auth.State) (s : Store)
      (st : auth.State)
      → ((at : Time) (s : Store) (st : auth.State) (a : A) → SettledOnce (finish at s st a))
      → SettledOnce (poll auth g r req started w wait collect nothing_in none_yet finish s st)
  unfolding poll
  poll-SettledOnce g r req started w wait collect nothing_in none_yet finish s st h =
      elim (Result-cases (collect started s).1) [
        | inl (e, p) ↦
            rw (poll, p)
              (failed-SettledOnce auth.State g r started started (collect started s).0 st
                (get_refusal e) Outcome.refused (inl refl))
        | inr (a, p) ↦
            rw (poll, p)
              (on_both SettledOnce (nothing_in a && wait)
                (resume-SettledOnce g r started w (auth.watch st started req g.ref).1 collect
                  none_yet finish (collect started s).0 (auth.watch st started req g.ref).0 h)
                (h started (collect started s).0 st a))
      ]

  collect_plain-SettledOnce :
      (g : Grant) (r : Route) (req : Request) (now : Time) (w : World) (wait : Bool) (limit : ℤ)
      (s : Store) (st : auth.State)
      → SettledOnce (collect_plain auth g r req now w wait limit s st)
  unfolding collect_plain
  collect_plain-SettledOnce g r req now w wait limit s st =
      poll-SettledOnce g r req now w wait (λ at s'. take at r.estate r.station r.dir limit s')
        is_empty [] (λ at s' st' msgs. delivered_as auth.State g r now Body.array at s' st' msgs) s
        st
        (λ at s' st' msgs. delivered-SettledOnce auth.State g r now Body.array at s' st' msgs refl)

  collect_leased-SettledOnce :
      (g : Grant) (r : Route) (req : Request) (now : Time) (w : World) (wait : Bool)
      (limit held : ℤ) (s : Store) (st : auth.State)
      → SettledOnce (collect_leased auth g r req now w wait limit held s st)
  unfolding collect_leased
  collect_leased-SettledOnce g r req now w wait limit held s st =
      poll-SettledOnce g r req now w wait
        (λ at s'. take_leased at r.estate r.station r.dir limit held s') (λ l. is_empty l.messages)
        no_lease
        (λ at s' st' l.
          delivered_as auth.State g r now (λ msgs. Body.leased l) at s' st' l.messages)
        s st
        (λ at s' st' l.
          delivered-SettledOnce auth.State g r now (λ msgs. Body.leased l) at s' st' l.messages
            refl)

  get_admitted-SettledOnce :
      (fl : Floats) (now : Time) (g : Grant) (r : Route) (req : Request) (query : Query) (w : World)
      (s : Store) (st : auth.State)
      → SettledOnce (get_admitted auth fl now g r req query w s st)
  unfolding get_admitted
  get_admitted-SettledOnce fl now g r req query w s st =
      elim (Result-cases (parse_lease fl query.lease)) [
        | inl (e, p) ↦
            rw (get_admitted, p)
              (failed-SettledOnce auth.State g r now now s st
                (refusal_with Reason.bad_lease (message_of e)) Outcome.refused (inl refl))
        | inr (held, p) ↦
            rw (get_admitted, p)
              (on_both SettledOnce (ltb_ℤ (pos 0) held)
                (collect_leased-SettledOnce g r req now w (not (same query.wait (bytes "0")))
                  (atoi query.limit) held s st)
                (collect_plain-SettledOnce g r req now w (not (same query.wait (bytes "0")))
                  (atoi query.limit) s st))
      ]

  -- A poll is turned away, with an error status, nothing settled and the store as it was; or it is
  -- settled once, with the number of the messages that the answer carries and of their bytes, and in
  -- step with its status: refused or revoked with no message and an error status, delivered with at
  -- least one message and 200, or empty with none and 200.
  pub get_settles :
      (fl : Floats) (now : Time) (credential : Text) (r : Route) (query : Query) (w : World)
      (s : Store) (st : auth.State)
      → let d = get_handler auth fl now credential r query w s st in
        ((d.settled ≡ []) × (d.store ≡ s) × (400 ≤ d.reply.code)) ⊎ SettledOnce d
  unfolding get_handler
  get_settles fl now credential r query w s st =
      let (st', g) = auth.admit st now (read_request auth now credential r) in
      let P : Done auth.State → Type 0 =
        λ d. ((d.settled ≡ []) × (d.store ≡ s) × (400 ≤ d.reply.code)) ⊎ SettledOnce d in
      on_both P (not (valid_dir r.dir)) (inl (refl, refl, refuse_fails (refusal Reason.bad_route)))
        (on_both P (not g.allow) (inl (refl, refl, refuse_fails g))
          (inr (get_admitted-SettledOnce fl now g r _ query w s st')))

  -- The end of a held and watched poll whose authority is withdrawn hands over nothing: the store
  -- stays as the other requests have made it meanwhile, and the answer is an error that is
  -- settled as revoked.
  pub withdrawn_poll {ℓ} :
      {A : Type ℓ} (g : Grant) (r : Route) (started : Time) (w : World) (why : Reason)
      (collect : Time → Store → Store × Result A) (none_yet : A)
      (finish : Time → Store → auth.State → A → Done auth.State) (s : Store) (st : auth.State)
      → w.event ≡ withdrawn why
      → let d = resume auth g r started w true collect none_yet finish s st in
        (d.store ≡ w.meanwhile s)
        × (400 ≤ d.reply.code)
        × ((x : Settlement) × (d.settled ≡ x ∷ [])
            × (x.outcome ≡ Outcome.revoked)
            × (x.messages ≡ 0))
  unfolding resume seen hold
  withdrawn_poll g r started w why collect none_yet finish s st e =
      rw (e, never_allowed why)
        (refl, refuse_fails (refusal (or_revoked why)), (_, refl, refl, refl))
