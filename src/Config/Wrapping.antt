-- ===== src/Config/Wrapping.antt =====
-- What main's wrap makes of an authoriser: the rule of a hosted tenant, and leases without a key.
use heliograph_relay.Common.{
  ℕ, ◌≡◌, refl, sym, ap, ◌∙◌, ◌⊎◌, inl, inr, Bool, true, Option, none, Text, is_empty, arith,
  Bool-cases,
}
use heliograph_relay.Common.Split.{trim_space}
use heliograph_relay.Relay.Message.{Time}
use heliograph_relay.Auth.Types.{Request, Grant, station_scoped, refusal, authority_unverifiable}
use heliograph_relay.Auth.Scoped.{Authoriser, narrow}
use heliograph_relay.Auth.Authority.{
  Authority, Signed, Settings, Floors, Read, is, fails, LeaseError, parse_authority,
  authority_admit, check, is_final,
}
use heliograph_relay.Auth.Bounds.{Honoured, check_honours}
use heliograph_relay.Config.Estates.{Outcome, serves, exits, truthy}
use heliograph_relay.Config.Start.{Libraries, Settled, tenant, wrap, lease_settings}

Read-cases {ℓ} :
    {A : Type ℓ} (r : Read A) → ((x : A) × (r ≡ is x)) ⊎ ((e : LeaseError) × (r ≡ fails e))
Read-cases (is x) = inl (x, refl)
Read-cases (fails e) = inr (e, refl)

narrow-scope : (g : Grant) → (narrow g).allow ≡ true → station_scoped (narrow g).scope ≡ true
unfolding narrow
narrow-scope g h = ground arith

check-scope :
    (c : Settings) (fl : Floors) (now : Time) (auth : Authority) (s : Signed) (req : Request)
    → (check c fl now auth s req).allow ≡ true
    → (check c fl now auth s req).scope ≡ auth.scope
unfolding check
check-scope c fl now auth s req h = ground arith

module _ (c : Settings) (inner : Authoriser) (fl : Floors) (st : inner.State) (now : Time)
    (req : Request) where
  abbrev out : (Floors × inner.State) × Grant
  out = authority_admit c inner (fl, st) now req

  -- Where an admission comes from: the inner authoriser, or a lease that is honoured and its scope.
  admitted_by :
      out.1.allow ≡ true
      → (out.1 ≡ (inner.admit st now req).1)
        ⊎ ((auth : Authority) × (s : Signed) × (parse_authority c.wire req.credential
              ≡ is (auth, s))
            × Honoured c fl now auth s req
            × (out.1.scope ≡ auth.scope))
  unfolding authority_admit
  admitted_by h = elim (Read-cases (parse_authority c.wire req.credential)) [
    | inr (e, p) ↦ inl (rw (authority_admit, p) refl)
    | inl ((auth, s), p) ↦ elim (Bool-cases (is_final (check c fl now auth s req))) [
      | inr passed ↦ inl (rw (authority_admit, p, passed) refl)
      | inl final ↦
          let e : out ≡ ((fl, st), check c fl now auth s req) =
            rw (authority_admit, p, final) refl in
          let allowed = sym (ap (λ o. o.1.allow) e) ∙ h in
          inr (
            auth,
            s,
            p,
            (check_honours c fl now auth s req).0 allowed,
            ap (λ o. o.1.scope) e ∙ check-scope c fl now auth s req allowed,
          )
    ]
  ]

-- On a hosted relay, whatever authoriser it asks, a request is admitted only under a scope that names
-- its stations, or by a lease that is honoured, under the lease's own scope.
pub wrap_hosted :
    (lib : Libraries) (env : Settled) (c : Settings) (a : Authoriser) (fl : Floors) (st : a.State)
    (channel : ℕ) (now : Time) (req : Request)
    → truthy env.hosted ≡ true
    → let g = ((wrap lib env c a).admit ((fl, st), channel) now req).1 in
      g.allow ≡ true
      → (station_scoped g.scope ≡ true)
        ⊎ ((auth : Authority) × (s : Signed) × (parse_authority c.wire req.credential
              ≡ is (auth, s))
            × Honoured c fl now auth s req
            × (g.scope ≡ auth.scope))
wrap_hosted lib env c a fl st channel now req flag allowed =
    let inner = tenant (truthy env.hosted) a in
    elim (admitted_by c inner fl st now req allowed) [
      | inr leased ↦ inr leased
      | inl e ↦
          let g = (a.admit st now req).1 in
          let narrowed : (authority_admit c inner (fl, st) now req).1 ≡ narrow g =
            e ∙ rw flag refl in
          inl (
            ap (λ x. station_scoped x.scope) narrowed
            ∙ narrow-scope g (sym (ap (λ x. x.allow) narrowed) ∙ allowed))
    ]

abbrev verifier : Outcome Settings → Option (Text → Text → Bool)
verifier (serves c) = c.verify
verifier (exits f) = none

keyless-verifier :
    (lib : Libraries) (env : Settled) (c : Settings)
    → is_empty (trim_space env.lease_key) ≡ true
    → lease_settings lib env ≡ serves c
    → c.verify ≡ none
unfolding lease_settings
keyless-verifier lib env c blank settled =
    sym (ap verifier settled) ∙ rw (lease_settings, blank) refl

check-keyless :
    (c : Settings) (fl : Floors) (now : Time) (auth : Authority) (s : Signed) (req : Request)
    → c.verify ≡ none
    → check c fl now auth s req ≡ refusal authority_unverifiable
unfolding check
check-keyless c fl now auth s req e = rw (check, e) refl

-- Without a key for leases a credential that reads as a lease is refused as unverifiable, whatever it
-- says, and the authoriser behind is not asked.
pub wrap_keyless :
    (lib : Libraries) (env : Settled) (c : Settings) (a : Authoriser) (fl : Floors) (st : a.State)
    (channel : ℕ) (now : Time) (req : Request) (auth : Authority) (s : Signed)
    → is_empty (trim_space env.lease_key) ≡ true
    → lease_settings lib env ≡ serves c
    → parse_authority c.wire req.credential ≡ is (auth, s)
    → (wrap lib env c a).admit ((fl, st), channel) now req
      ≡ (((fl, st), channel), refusal authority_unverifiable)
unfolding authority_admit
wrap_keyless lib env c a fl st channel now req auth s blank settled lease =
    let refused = check-keyless c fl now auth s req (keyless-verifier lib env c blank settled) in
    rw (authority_admit, lease, refused) refl
