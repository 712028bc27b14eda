-- ===== src/Conformance/Tenants.antt =====
-- Two customers under one estate, behind a hosted relay that asks the suite's authoriser.
use mathlib.Core.Path.{subst}
use heliograph_relay.Common.{
  ◌≡◌, ◌∙◌, ap, List, [], ◌∷◌, All, Some, refl, sym, inl, inr, true, false, none, some, Text, same,
  same_iff, Dict, lookup, arith, Bool-cases,
}
use heliograph_relay.Relay.Message.{Time}
use heliograph_relay.Auth.Types.{Request, Grant, contains, station_scoped}
use heliograph_relay.Auth.Scoped.{narrow}
use heliograph_relay.Auth.Remote.{Answer, response, Decision, remote_admit, to_grant}
use heliograph_relay.Auth.Reused.{Exchange, asked, Barless, Same, Decides, remote_answers}
use heliograph_relay.Config.Start.{tenant, remote_auth}
use heliograph_relay.Conformance.ControlPlane.{
  Binding, tenancy, tenant_estate, tenant_wide, bound_dirs, scope_for, decide,
}

-- The harness's answer to a request, at once.
abbrev pub answering : Dict (Text × Text) → Time → Request → Answer × Time
answering tokens now r = (response 200 (some (decide tokens r)), now)

-- The requests that it has answered before, the last one first.
abbrev pub answered : Dict (Text × Text) → List (Time × Request) → List Exchange
answered tokens [] = []
answered tokens ((at, r) ∷ past) =
    record { req = r; answer = response 200 (some (decide tokens r)); now = at; later = at }
    ∷ answered tokens past

-- What a hosted relay that has asked these, and cached what it was told, makes of it.
abbrev pub granted : Dict (Text × Text) → List (Time × Request) → Time → Request → Grant
granted tokens past now r =
    ((tenant true (remote_auth (answering tokens))).admit (asked (answered tokens past)) now r).1

clash {ℓ} : {A : Type ℓ} → false ≡ true → A
clash e = absurd (ground (arith, e))

module _ (tokens : Dict (Text × Text)) (r : Request) where
  abbrev decided : Grant
  decided = to_grant (decide tokens r)

  wide_unbound : same r.credential tenant_wide ≡ true → lookup r.credential tenancy ≡ none
  unfolding lookup same
  wide_unbound h =
      subst (λ t. lookup t tenancy ≡ none) (sym ((same_iff r.credential tenant_wide).0 h)) refl

  wide_refused : same r.credential tenant_wide ≡ true → (narrow decided).allow ≡ true → ⊥
  unfolding decide scope_for narrow station_scoped
  wide_refused h = rw (decide, h) (λ e. clash e)

  -- The request stays within the credential's binding.
  abbrev Within : Binding → Type 0
  Within b =
      (r.estate ≡ tenant_estate)
      × (r.station ≡ b.station)
      × (contains r.dir (bound_dirs b r.op) ≡ true)

  unscoped :
      (b : Binding)
      → lookup r.credential tenancy ≡ some b
      → scope_for r ≡ none
      → (narrow decided).allow ≡ true
      → ⊥
  unfolding decide narrow
  unscoped b e p = rw (decide, p, e) (λ h. clash h)

  bound-Within :
      (b : Binding)
      → lookup r.credential tenancy ≡ some b
      → same r.credential tenant_wide ≡ false
      → (narrow decided).allow ≡ true
      → Within b
  unfolding scope_for
  bound-Within b e n h = elim (Bool-cases (same r.estate tenant_estate)) [
    | inr elsewhere ↦ absurd (unscoped b e (rw (scope_for, n, e, elsewhere) refl) h)
    | inl here ↦ elim (Bool-cases (same r.station b.station)) [
      | inr another ↦ absurd (unscoped b e (rw (scope_for, n, e, here, another) refl) h)
      | inl own ↦ elim (Bool-cases (contains r.dir (bound_dirs b r.op))) [
        | inr wrong ↦ absurd (unscoped b e (rw (scope_for, n, e, here, own, wrong) refl) h)
        | inl right ↦
            ((same_iff r.estate tenant_estate).0 here, (same_iff r.station b.station).0 own, right)
      ]
    ]
  ]

  judged :
      (narrow decided).allow ≡ true
      → (same r.credential tenant_wide ≡ false)
        × ((b : Binding) → lookup r.credential tenancy ≡ some b → Within b)
  judged h = elim (Bool-cases (same r.credential tenant_wide)) [
    | inl wide ↦ absurd (wide_refused wide h)
    | inr narrow_one ↦ (narrow_one, λ b e. bound-Within b e narrow_one h)
  ]

same_decision : (d e : Decision) → response 200 (some d) ≡ response 200 (some e) → d ≡ e
same_decision d e p = ground (arith, p)

-- The decision that a grant hands on was made of a request for the same.
abbrev Judged : Dict (Text × Text) → Request → Grant → Type 0
Judged tokens r g = (q : Request) × Same q r × (g ≡ to_grant (decide tokens q))

earlier-Judged :
    (tokens : Dict (Text × Text)) (past : List (Time × Request)) (now : Time) (r : Request)
    (g : Grant)
    → Some (Decides r now g) (answered tokens past)
    → Judged tokens r g
earlier-Judged tokens [] now r g h = absurd h
earlier-Judged tokens ((at, q) ∷ past) now r g (inl (alike, (d, p, e), _)) =
    (q, alike, e ∙ ap to_grant (sym (same_decision _ _ p)))
earlier-Judged tokens ((at, q) ∷ past) now r g (inr older) =
    earlier-Judged tokens past now r g older

answered-Barless :
    (tokens : Dict (Text × Text)) (past : List (Time × Request))
    → All (λ x. Barless x.1) past
    → All (λ y. Barless y.req) (answered tokens past)
answered-Barless tokens [] h = tt
answered-Barless tokens ((at, q) ∷ past) h = (h.0, answered-Barless tokens past h.1)

module _ (tokens : Dict (Text × Text)) (past : List (Time × Request)) (now : Time) (r : Request)
    (plain : All (λ x. Barless x.1) past) (plain' : Barless r) where
  abbrev asking : Exchange
  asking = record {
    req = r;
    answer = response 200 (some (decide tokens r));
    now = now;
    later = now;
  }

  abbrev g : Grant
  g = (remote_admit asking.answer now now r (asked (answered tokens past))).1

  grant-Judged : (narrow g).allow ≡ true → Judged tokens r g
  unfolding narrow
  grant-Judged allowed =
      elim (remote_answers (answered tokens past) asking (answered-Barless tokens past plain)
        plain') [
          | inl (d, p, e) ↦
              (r, (refl, refl, refl, refl, refl), e ∙ ap to_grant (sym (same_decision _ _ p)))
          | inr (inl older) ↦ earlier-Judged tokens past now r g older
          | inr (inr (inl (_, e))) ↦ clash (sym (ap (λ h. (narrow h).allow) e) ∙ allowed)
          | inr (inr (inr (_, e))) ↦ clash (sym (ap (λ h. (narrow h).allow) e) ∙ allowed)
        ]

  -- On a hosted relay that asks the conformance suite's authoriser, whatever it asked and cached before,
  -- whoever is admitted does not hold the credential for the whole estate, and a credential that is
  -- bound to one customer's station is admitted for that station of that estate only, in the directions
  -- that it is bound to. No part of the requests may hold a bar.
  pub tenants_apart :
      (granted tokens past now r).allow ≡ true
      → (same r.credential tenant_wide ≡ false)
        × ((b : Binding) → lookup r.credential tenancy ≡ some b → Within tokens r b)
  tenants_apart allowed =
      let (q, (e₁, e₂, e₃, e₄, e₅), e) = grant-Judged allowed in
      let (unwide, bound) = judged tokens q (ap (λ h. (narrow h).allow) (sym e) ∙ allowed) in
      (
        ap (λ c. same c tenant_wide) (sym e₁) ∙ unwide,
        λ b listed.
            let (here, station, dir) = bound b (ap (λ c. lookup c tenancy) e₁ ∙ listed) in
            (
              sym e₂ ∙ here,
              sym e₃ ∙ station,
              subst (λ d. contains d (bound_dirs b r.op) ≡ true) e₄
                  (subst (λ o. contains q.dir (bound_dirs b o) ≡ true) e₅ dir),
            ),
      )
