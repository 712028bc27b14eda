-- ===== src/Auth/Reused.antt =====
-- remote.go: RemoteAuth over a history of requests, each with the answer that the authoriser would
-- give and the clock before and after it.
use mathlib.Core.Path.{subst}
use heliograph_relay.Common.{
  ◌+◌, ◌<◌, ◌≡◌, ◌≢◌, refl, sym, ap, ◌∙◌, ◌⊎◌, inl, inr, true, none, some, List, [], ◌∷◌, All, Some,
  Text, same, same_iff, lookup, insert, lookup-insert, is_empty, ltb, if◌then◌else◌, arith,
  Bool-cases, Option-cases, ◌==◌,
}
use heliograph_relay.Common.Separators.{Lacks, cut_unique, cons_injective}
use heliograph_relay.Relay.Message.{Time}
use heliograph_relay.Auth.Types.{Op, Request, Grant, refusal, no_credential, authoriser_unavailable}
use heliograph_relay.Auth.Remote.{
  Answer, unreachable, response, Decision, Cached, RemoteAuth, new_remote_auth, remote_admit,
  cached_grant, decision_key, op_text, remember, ask, to_grant,
}
use heliograph_relay.Auth.Bounded.{remote_sources, lasting}

pub record Exchange : Type 0 where
  pub req : Request
  pub answer : Answer
  pub now : Time
  pub later : Time

-- What was asked in the past, the last request first.
abbrev pub asked : List Exchange → RemoteAuth
asked [] = new_remote_auth
asked (x ∷ past) = (remote_admit x.answer x.now x.later x.req (asked past)).0

-- The authoriser's answer is this decision.
abbrev pub Decided : Exchange → Grant → Type 0
Decided x g = (d : Decision) × (x.answer ≡ response 200 (some d)) × (g ≡ to_grant d)

ask-decision :
    (a : Answer) (g : Grant)
    → ask a ≡ some g
    → (d : Decision) × (a ≡ response 200 (some d)) × (g ≡ to_grant d)
unfolding ask
ask-decision unreachable g e = absurd (ground (arith, e))
ask-decision (response status none) g e = absurd (ground (arith, e))
ask-decision (response status (some d)) g e = elim (Bool-cases (status == 200)) [
  | inl ok ↦ (d, ground (arith, ok), ground (arith, ok, e))
  | inr bad ↦ absurd (ground (arith, bad, e))
]

-- Where an entry of the cache comes from.
abbrev Given : Text → Cached → Exchange → Type 0
Given k e x =
    (decision_key x.req ≡ k)
    × Decided x e.grant
    × (e.until ≡ x.later + lasting new_remote_auth e.grant)

abbrev Known : List Exchange → Type 0
Known past = (k : Text) (e : Cached) → lookup k (asked past).cache ≡ some e → Some (Given k e) past

abbrev Steady : RemoteAuth → Type 0
Steady a = (a.positive ≡ new_remote_auth.positive) × (a.negative ≡ new_remote_auth.negative)

remember-Steady :
    (k : Text) (now : Time) (g : Grant) (a : RemoteAuth) → Steady a → Steady (remember k now g a)
unfolding remember
remember-Steady k now g a h = ground (arith, h.0, h.1)

asked-Steady : (past : List Exchange) → Steady (asked past)
asked-Steady [] = (refl, refl)
asked-Steady (x ∷ past) =
    let h = asked-Steady past in
    elim (remote_sources x.answer x.now x.later x.req (asked past)) [
      | inl (e, _) ↦ subst Steady (sym e) h
      | inr (inl (e, _)) ↦ subst Steady (sym e) (remember-Steady _ _ _ _ h)
      | inr (inr (e, _)) ↦ subst Steady (sym e) h
    ]

some_injective : (a b : Cached) → some a ≡ some b → a ≡ b
some_injective a b e = ground (arith, e)

lookup-remember :
    (k j : Text) (later : Time) (g : Grant) (a : RemoteAuth) (e : Cached)
    → Steady a
    → lookup j (remember k later g a).cache ≡ some e
    → ((k ≡ j) × (e.grant ≡ g) × (e.until ≡ later + lasting new_remote_auth g))
      ⊎ (lookup j a.cache ≡ some e)
unfolding remember
lookup-remember k j later g a e h found =
    let entry : Cached = record { grant = g; until = later + lasting a g } in
    let lasts : lasting a g ≡ lasting new_remote_auth g = ground (arith, h.0, h.1) in
    let lives : ltb 0 (lasting a g) ≡ true = ground (arith, lasts) in
    let kept : (remember k later g a).cache ≡ insert k entry a.cache = rw (remember, lives) refl in
    let there = sym (lookup-insert k j entry a.cache) ∙ ap (lookup j) (sym kept) ∙ found in
    elim (Bool-cases (same k j)) [
      | inr other ↦ inr (sym (rw other refl) ∙ there)
      | inl here ↦
          let e_eq : e ≡ entry = some_injective e entry (sym there ∙ rw here refl) in
          inl (
            (same_iff k j).0 here,
            ap (λ (c : Cached). c.grant) e_eq,
            ap (λ (c : Cached). c.until) e_eq ∙ ap (λ n. later + n) lasts,
          )
    ]

asked-Known : (past : List Exchange) → Known past
unfolding lookup
asked-Known [] k e found = absurd (ground (arith, found))
asked-Known (x ∷ past) k e found = elim (remote_sources x.answer x.now x.later x.req (asked past)) [
  | inl (same_cache, _) ↦
      inr
        (asked-Known past k e (sym (ap (λ (a : RemoteAuth). lookup k a.cache) same_cache) ∙ found))
  | inr (inr (same_cache, _)) ↦
      inr
        (asked-Known past k e (sym (ap (λ (a : RemoteAuth). lookup k a.cache) same_cache) ∙ found))
  | inr (inl (kept, answered)) ↦
      elim (lookup-remember (decision_key x.req) k x.later _ (asked past) e (asked-Steady past)
        (sym (ap (λ (a : RemoteAuth). lookup k a.cache) kept) ∙ found)) [
          | inr before ↦ inr (asked-Known past k e before)
          | inl (here, grant, until) ↦ inl (
            here,
            ask-decision x.answer e.grant (answered ∙ ap some (sym grant)),
            until ∙ ap (λ g. x.later + lasting new_remote_auth g) (sym grant),
          )
        ]
]

cached_entry :
    (k : Text) (now : Time) (a : RemoteAuth) (g : Grant)
    → cached_grant k now a ≡ some g
    → (e : Cached) × (lookup k a.cache ≡ some e) × (now < e.until) × (e.grant ≡ g)
unfolding cached_grant
cached_entry k now a g h = elim (Option-cases (lookup k a.cache)) [
  | inl p ↦ absurd (ground (arith, p, h))
  | inr (e, p) ↦ elim (Bool-cases (ltb now e.until)) [
    | inr over ↦ absurd (ground (arith, p, over, h))
    | inl runs ↦ (e, p, ground (arith, runs), ground (arith, p, runs, h))
  ]
]

-- No part of the request holds a bar, which is what the cache's key puts between them.
abbrev pub Barless : Request → Type 0
Barless r = Lacks b'|' r.credential × Lacks b'|' r.estate × Lacks b'|' r.station × Lacks b'|' r.dir

-- They ask for the same.
abbrev pub Same : Request → Request → Type 0
Same q r =
    (q.credential ≡ r.credential)
    × (q.estate ≡ r.estate)
    × (q.station ≡ r.station)
    × (q.dir ≡ r.dir)
    × (q.op ≡ r.op)

op_text_injective : (p q : Op) → op_text p ≡ op_text q → p ≡ q
op_text_injective Op.read Op.read e = refl
op_text_injective Op.write Op.write e = refl
op_text_injective Op.other Op.other e = refl
op_text_injective Op.read Op.write e = absurd (omega (arith, (cons_injective _ _ _ _ e).0))
op_text_injective Op.write Op.read e = absurd (omega (arith, (cons_injective _ _ _ _ e).0))
op_text_injective Op.read Op.other e = cc
op_text_injective Op.write Op.other e = cc
op_text_injective Op.other Op.read e = cc
op_text_injective Op.other Op.write e = cc

decision_key_injective :
    (q r : Request) → Barless q → Barless r → decision_key q ≡ decision_key r → Same q r
unfolding decision_key
decision_key_injective q r (c, s, t, d) (c', s', t', d') e =
    let (e₁, e₂) = cut_unique b'|' _ _ _ _ c c' e in
    let (e₃, e₄) = cut_unique b'|' _ _ _ _ s s' e₂ in
    let (e₅, e₆) = cut_unique b'|' _ _ _ _ t t' e₄ in
    let (e₇, e₈) = cut_unique b'|' _ _ _ _ d d' e₆ in
    (e₁, e₃, e₅, e₇, op_text_injective q.op r.op e₈)

-- This answer decided a request for the same, and lasts beyond `now`.
abbrev pub Decides : Request → Time → Grant → Exchange → Type 0
Decides r now g y =
    Same y.req r × Decided y g × (now < y.later + (if g.allow then 30000000000 else 5000000000))

Given-Decides :
    (k : Text) (e : Cached) (r : Request) (now : Time) (g : Grant) (past : List Exchange)
    → decision_key r ≡ k
    → Barless r
    → now < e.until
    → e.grant ≡ g
    → All (λ y. Barless y.req) past
    → Some (Given k e) past
    → Some (Decides r now g) past
Given-Decides k e r now g [] key plain runs gr none_left known = absurd known
Given-Decides k e r now g (y ∷ past) key plain runs gr (p, ps) (inl (here, (d, a, q), until)) =
    inl (
      decision_key_injective y.req r p plain (here ∙ sym key),
      (d, a, sym gr ∙ q),
      subst (λ h. now < y.later + lasting new_remote_auth h) gr (subst (λ n. now < n) until runs),
    )
Given-Decides k e r now g (y ∷ past) key plain runs gr (p, ps) (inr older) =
    inr (Given-Decides k e r now g past key plain runs gr ps older)

no_decision : (a : Answer) (d : Decision) → ask a ≡ none → a ≡ response 200 (some d) → ⊥
unfolding ask
no_decision a d silent h = absurd (ground (arith, sym (ap ask h) ∙ silent))

pub remote_answers :
    (past : List Exchange) (x : Exchange)
    → All (λ y. Barless y.req) past
    → Barless x.req
    → let g = (remote_admit x.answer x.now x.later x.req (asked past)).1 in
      Decided x g
      ⊎ Some (Decides x.req x.now g) past
      ⊎ ((is_empty x.req.credential ≡ true) × (g ≡ refusal no_credential))
      ⊎ (((d : Decision) → x.answer ≢ response 200 (some d)) × (g ≡ refusal authoriser_unavailable))
remote_answers past x plain plain' =
    let a = asked past in
    let g = (remote_admit x.answer x.now x.later x.req a).1 in
    elim (remote_sources x.answer x.now x.later x.req a) [
      | inl (_, found) ↦
          let (e, p, runs, gr) = cached_entry (decision_key x.req) x.now a g found in
          inr (
            inl (
              Given-Decides (decision_key x.req) e x.req x.now g past refl plain' runs gr plain
                (asked-Known past (decision_key x.req) e p)))
      | inr (inl (_, answered)) ↦ inl (ask-decision x.answer g answered)
      | inr (inr (_, inl bare)) ↦ inr (inr (inl bare))
      | inr (inr (_, inr (silent, e))) ↦ inr (inr (inr (λ d h. no_decision x.answer d silent h, e)))
    ]
