-- ===== src/Server/Confinement.antt =====
-- Which requests change which queues.
use heliograph_relay.Common.{
  ℕ, ◌+◌, ◌≡◌, refl, ap, ◌∙◌, inl, inr, not, false, Bool, Option, none, some, [], Text, bytes, same,
  ltb, ltb_ℤ, length, pos, is_empty, on_both, Bool-cases, ◌&&◌,
}
use heliograph_relay.Relay.Message.{Time, Result, key}
use heliograph_relay.Relay.Store.{Store, queue, put, take}
use heliograph_relay.Relay.Leased.{take_leased, ack, no_lease}
use heliograph_relay.Relay.Isolation.{take-other, take_leased-other, ack-other, put-other}
use heliograph_relay.Spool.Disk.{Codec, Faults}
use heliograph_relay.Auth.Types.{Request, Grant}
use heliograph_relay.Auth.Scoped.{Authoriser}
use heliograph_relay.Server.Reply.{Body, hold}
use heliograph_relay.Server.Put.{Route, Decoded, Done, cap, new_message, put_message, put_admitted}
use heliograph_relay.Server.LeaseParam.{Floats, parse_lease, atoi}
use heliograph_relay.Server.Get.{
  Query, World, seen, is_allowed, resume, poll, collect_plain, collect_leased, get_admitted,
  ack_admitted, delivered_as,
}
use heliograph_relay.Server.Answers.{Result-cases, Decoded-cases}

module _ (auth : Authoriser) (j : Text) (r : Route)
    (other : same (key r.estate r.station r.dir) j ≡ false) where
  -- The queue `j` is as it was.
  abbrev pub Kept : Store → Done auth.State → Type 0
  Kept s d = queue j d.store ≡ queue j s

  module _ (c : Codec) (f : Faults) (now : Time) where
    put_message-Kept :
        (g : Grant) (seq : ℕ) (body : Text) (s : Store) (st : auth.State)
        → Kept s (put_message c f auth now g r seq body s st)
    unfolding put_message
    put_message-Kept g seq body s st =
        let kept =
          put-other j now r.estate r.station r.dir other c f (new_message r seq body) s refl in
        elim (Bool-cases (ltb (cap g) (length body))) [
          | inl e ↦ rw e refl
          | inr e ↦ elim (Result-cases (put c f now (new_message r seq body) s).1) [
            | inl (why, p) ↦ rw (e, p) kept
            | inr (_, p) ↦ rw (e, p) kept
          ]
        ]

    pub put_admitted-Kept :
        (g : Grant) (decode : ℕ → Decoded) (s : Store) (st : auth.State)
        → Kept s (put_admitted c f auth now g r decode s st)
    unfolding put_admitted
    put_admitted-Kept g decode s st = elim (Decoded-cases (decode (cap g + 1024))) [
      | inl e ↦ rw (put_admitted, e) refl
      | inr (inl e) ↦ rw (put_admitted, e) refl
      | inr (inr (seq, body, e)) ↦ rw (put_admitted, e) (put_message-Kept g seq body s st)
    ]

  module _ (w : World) (outside : (s : Store) → queue j (w.meanwhile s) ≡ queue j s) where
    poll-Kept {ℓ} :
        {A : Type ℓ} (g : Grant) (req : Request) (started : Time) (wait : Bool)
        (collect : Time → Store → Store × Result A) (nothing_in : A → Bool) (none_yet : A)
        (finish : Time → Store → auth.State → A → Done auth.State) (s : Store) (st : auth.State)
        → ((at : Time) (s' : Store) → queue j (collect at s').0 ≡ queue j s')
        → ((at : Time) (s' : Store) (st' : auth.State) (a : A) → (finish at s' st' a).store ≡ s')
        → Kept s (poll auth g r req started w wait collect nothing_in none_yet finish s st)
    unfolding poll resume
    poll-Kept g req started wait collect nothing_in none_yet finish s st keeps puts_back =
        let (s₁, first) = collect started s in
        let (st₁, watched) = auth.watch st started req g.ref in
        let s₂ = w.meanwhile s₁ in
        let again = collect w.later s₂ in
        let (woken, why) = hold (seen watched w.event) in
        let idle : queue j s₂ ≡ queue j s = outside s₁ ∙ keeps started s in
        let P : Done auth.State → Type 0 = Kept s in
        elim (Result-cases first) [
          | inl (e, p) ↦ rw (poll, p) (keeps started s)
          | inr (a, p) ↦
              rw (poll, p)
                (on_both P (nothing_in a && wait)
                  (on_both P (not (is_allowed why)) idle (
                    on_both P woken
                      (ap (queue j) (puts_back w.later again.0 st₁ _) ∙ keeps w.later s₂ ∙ idle)
                      (ap (queue j) (puts_back w.later s₂ st₁ none_yet) ∙ idle)))
                  (ap (queue j) (puts_back started s₁ st a) ∙ keeps started s))
        ]

    pub get_admitted-Kept :
        (fl : Floats) (now : Time) (g : Grant) (req : Request) (query : Query) (s : Store)
        (st : auth.State)
        → Kept s (get_admitted auth fl now g r req query w s st)
    unfolding get_admitted collect_plain collect_leased delivered_as
    get_admitted-Kept fl now g req query s st =
        let limit = atoi query.limit in
        let wait = not (same query.wait (bytes "0")) in
        let P : Done auth.State → Type 0 = Kept s in
        elim (Result-cases (parse_lease fl query.lease)) [
          | inl (e, p) ↦ rw (get_admitted, p) refl
          | inr (held, p) ↦
              rw (get_admitted, p)
                (on_both P (ltb_ℤ (pos 0) held)
                  (poll-Kept g req now wait
                    (λ at s'. take_leased at r.estate r.station r.dir limit held s')
                    (λ l. is_empty l.messages) no_lease
                    (λ at s' st' l.
                      delivered_as auth.State g r now (λ msgs. Body.leased l) at s' st' l.messages)
                    s st
                    (λ at s'. take_leased-other j at r.estate r.station r.dir other limit held s')
                    (λ at s' st' a. refl))
                  (poll-Kept g req now wait (λ at s'. take at r.estate r.station r.dir limit s')
                    is_empty []
                    (λ at s' st' msgs. delivered_as auth.State g r now Body.array at s' st' msgs) s
                    st (λ at s'. take-other j at r.estate r.station r.dir other limit s')
                    (λ at s' st' a. refl)))
        ]

  pub ack_admitted-Kept :
      (now : Time) (g : Grant) (id : Option Text) (s : Store) (st : auth.State)
      → Kept s (ack_admitted auth now g r id s st)
  unfolding ack_admitted
  ack_admitted-Kept now g none s st = refl
  ack_admitted-Kept now g (some id) s st =
      let kept = ack-other j now r.estate r.station r.dir other id s in
      elim (Result-cases (ack now r.estate r.station r.dir id s).1) [
        | inl (e, p) ↦ rw (ack_admitted, p) kept
        | inr (n, p) ↦ rw (ack_admitted, p) kept
      ]
