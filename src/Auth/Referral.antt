-- ===== src/Auth/Referral.antt =====
-- AuthorityAuth.Admit: when a lease decides, and when the inner authoriser is asked.
use heliograph_relay.Common.{
  ◌+◌, ◌≤◌, ◌<◌, ◌≡◌, ◌⊎◌, ◌↔◌, sym, ap, ◌∙◌, inl, inr, true, false, ◌||◌, some, Text, same,
  is_empty, ◌≤ℤ◌, if◌then◌else◌, arith, Bool-cases,
}
use heliograph_relay.Relay.Message.{Time}
use heliograph_relay.Auth.Types.{Request, Grant, permits}
use heliograph_relay.Auth.Scoped.{Authoriser}
use heliograph_relay.Auth.Authority.{
  Authority, Signed, Settings, Floors, is, max_authority_life, check, floor, verified, is_final,
  parse_authority, new_authority, authority_admit, to_payload,
}
use heliograph_relay.Auth.Bounds.{Honoured, check_honours}
use heliograph_relay.Auth.Minting.{Base64, Dated, minted, parse-new_authority}

clash {ℓ} : {A : Type ℓ} → true ≡ false → A
clash e = absurd (ground (arith, e))

-- A lease in force whose scope does not reach the request.
abbrev pub Outside : Settings → Floors → Time → Authority → Signed → Request → Type 0
Outside c fl now auth s req =
    (verified c s ≡ true)
    × ((is_empty c.audience || same auth.audience c.audience) ≡ true)
    × (auth.expires ≤ auth.not_before + max_authority_life)
    × (auth.not_before ≤ now)
    × (now < auth.expires)
    × (floor fl auth.scope.estate ≤ℤ auth.epoch)
    × (permits auth.scope req.estate req.station req.dir req.op ≡ false)

module _ (c : Settings) (fl : Floors) (now : Time) (auth : Authority) (s : Signed)
    (req : Request) where
  abbrev local : Grant
  local = check c fl now auth s req

  final-check : (is_final local ≡ false) ↔ Outside c fl now auth s req
  unfolding check
  final-check = ground arith

  allowed-final : local.allow ≡ true → is_final local ≡ true
  unfolding check
  allowed-final h = ground arith

module _ (c : Settings) (inner : Authoriser) (fl : Floors) (st : inner.State) (now : Time)
    (req : Request) where
  abbrev out : (Floors × inner.State) × Grant
  out = authority_admit c inner (fl, st) now req

  abbrev onwards : inner.State × Grant
  onwards = inner.admit st now req

  out-read :
      (auth : Authority) (s : Signed)
      → parse_authority c.wire req.credential ≡ is (auth, s)
      → out ≡ (
          if is_final (check c fl now auth s req)
          then ((fl, st), check c fl now auth s req)
          else ((fl, onwards.0), onwards.1))
  unfolding authority_admit
  out-read auth s h = rw (authority_admit, h)

  -- A request whose credential reads as a lease is admitted exactly when the lease is honoured, or the
  -- lease is in force, its scope does not reach the request and the inner authoriser admits it; the
  -- revocation floors stay as they are.
  pub lease_decides :
      (auth : Authority) (s : Signed)
      → parse_authority c.wire req.credential ≡ is (auth, s)
      → ((out.1.allow ≡ true) ↔ (
          Honoured c fl now auth s req ⊎ (Outside c fl now auth s req × (onwards.1.allow ≡ true))))
        × (out.0.0 ≡ fl)
  lease_decides auth s h =
      let honoured = check_honours c fl now auth s req in
      let referred = final-check c fl now auth s req in
      let settled = allowed-final c fl now auth s req in
      elim (Bool-cases (is_final (check c fl now auth s req))) [
        | inl final ↦
            let e : out ≡ ((fl, st), check c fl now auth s req) = out-read auth s h ∙ rw final in
            (
              (
                λ allow. inl (honoured.0 (sym (ap (λ o. o.1.allow) e) ∙ allow)),
                λ d. elim d [
                  | inl fine ↦ ap (λ o. o.1.allow) e ∙ honoured.1 fine
                  | inr (outside, _) ↦ clash (sym final ∙ referred.1 outside)
                ],
              ),
              ap (λ o. o.0.0) e,
            )
        | inr passed ↦
            let e : out ≡ ((fl, onwards.0), onwards.1) = out-read auth s h ∙ rw passed in
            (
              (
                λ allow. inr (referred.0 passed, sym (ap (λ o. o.1.allow) e) ∙ allow),
                λ d. elim d [
                  | inl fine ↦ clash (sym (settled (honoured.1 fine)) ∙ passed)
                  | inr (_, inner_allows) ↦ ap (λ o. o.1.allow) e ∙ inner_allows
                ],
              ),
              ap (λ o. o.0.0) e,
            )
      ]

-- A request that bears a minted lease.
abbrev pub bearing : Settings → Authority → (Text → Text) → Request → Request
bearing c a sign req = record req { credential = new_authority c.wire a sign }

-- A request that bears a lease minted for this relay's wire is admitted exactly when the authority it
-- was minted from, with its instants in whole seconds, is honoured, or is in force and does not reach
-- the request while the inner authoriser admits it; the revocation floors stay as they are. The
-- decoders give back what the encoders wrote, base64 has no full stop, and neither instant is outside
-- Go's range or in the second that stands for none.
pub minted_decides :
    (c : Settings) (inner : Authoriser) (fl : Floors) (st : inner.State) (now : Time)
    (req : Request) (a : Authority) (sign : Text → Text)
    → Base64 c.wire
    → c.wire.unmarshal (c.wire.marshal (to_payload a)) ≡ some (to_payload a)
    → Dated a.not_before
    → Dated a.expires
    → let r = bearing c a sign req in
      let lease = minted c.wire a sign in
      let out = authority_admit c inner (fl, st) now r in
      ((out.1.allow ≡ true) ↔ (
        Honoured c fl now lease.0 lease.1 r
        ⊎ (Outside c fl now lease.0 lease.1 r × ((inner.admit st now r).1.allow ≡ true))))
      × (out.0.0 ≡ fl)
minted_decides c inner fl st now req a sign base back begins ends =
    let lease = minted c.wire a sign in
    lease_decides c inner fl st now (bearing c a sign req) lease.0 lease.1
      (parse-new_authority c.wire a sign base back begins ends)
