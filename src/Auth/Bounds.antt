-- ===== src/Auth/Bounds.antt =====
-- What an authorisation lease can and cannot do, and what a revocation changes.
use heliograph_relay.Common.{
  ℕ, refl, inl, inr, Bool-cases, none, some, List, [], ◌∷◌, ◌+◌, ◌≤◌, ◌<◌, ◌≡◌, ◌⊎◌, true, false,
  ◌&&◌, ◌||◌, Text, same, same_iff, same_refl, is_empty, ℤ, ◌≤ℤ◌, ltb_ℤ, if◌then◌else◌, arith, ◌↔◌,
  lookup-insert,
}
use heliograph_relay.Relay.Message.{Time}
use heliograph_relay.Auth.Types.{Request, permits}
use heliograph_relay.Auth.Authority.{
  Authority, Signed, Settings, Floors, max_authority_life, check, floor, verified, revoke,
  watch_lease, unwatch, parse_authority, Read, LeaseError, fails, is,
}

-- The conditions under which a lease is honoured.
abbrev pub Honoured : Settings → Floors → Time → Authority → Signed → Request → Type 0
Honoured c fl now auth s req =
    (verified c s ≡ true)
    × ((is_empty c.audience || same auth.audience c.audience) ≡ true)
    × (auth.expires ≤ auth.not_before + max_authority_life)
    × (auth.not_before ≤ now)
    × (now < auth.expires)
    × (floor fl auth.scope.estate ≤ℤ auth.epoch)
    × (permits auth.scope req.estate req.station req.dir req.op ≡ true)

-- A lease is honoured exactly when its signature verifies, it was minted for this relay, its window
-- is at most fifteen minutes long and holds the present instant, its epoch is not below its estate's
-- floor, and its scope permits the request.
pub check_honours :
    (c : Settings) (fl : Floors) (now : Time) (auth : Authority) (s : Signed) (req : Request)
    → ((check c fl now auth s req).allow ≡ true) ↔ Honoured c fl now auth s req
unfolding check
check_honours c fl now auth s req = ground arith

-- No lease is honoured fifteen minutes after the instant from which it holds, or later, whatever
-- expiry it names and whatever was revoked.
pub check_lapses :
    (c : Settings) (fl : Floors) (now : Time) (auth : Authority) (s : Signed) (req : Request)
    → auth.not_before + max_authority_life ≤ now
    → (check c fl now auth s req).allow ≡ false
unfolding check
check_lapses c fl now auth s req late = ground arith

floor-revoke :
    (estate : Text) (epoch : ℤ) (fl : Floors) (e : Text)
    → floor (revoke estate epoch fl).0 e
      ≡ (if ltb_ℤ (floor fl estate) epoch && same estate e then epoch else floor fl e)
unfolding revoke floor
floor-revoke estate epoch fl e = ground (arith, lookup-insert estate e epoch fl.epoch)

-- A revocation lowers no floor, and moves that of its own estate only.
pub revoke_raises :
    (estate : Text) (epoch : ℤ) (fl : Floors) (e : Text)
    → (floor fl e ≤ℤ floor (revoke estate epoch fl).0 e)
      × (epoch ≤ℤ floor (revoke estate epoch fl).0 estate)
      × ((estate ≡ e) ⊎ (floor (revoke estate epoch fl).0 e ≡ floor fl e))
revoke_raises estate epoch fl e = (
  ground (arith, floor-revoke estate epoch fl e, same_iff estate e),
  ground (arith, floor-revoke estate epoch fl estate, same_refl estate),
  ground (arith, floor-revoke estate epoch fl e, same_iff estate e),
)

-- What changes the floors and the watchers of an AuthorityAuth.
pub data Change : Type 0 where
  revoked : Text → ℤ → Change
  watched : Time → Request → ℕ → Change
  unwatched : Text → ℕ → Change

abbrev pub change : Settings → Change → Floors → Floors
change c (revoked estate epoch) fl = (revoke estate epoch fl).0
change c (watched now req ch) fl = elim (watch_lease c fl now req ch) [ none ↦ fl | some f ↦ f ]
change c (unwatched k ch) fl = unwatch k ch fl

abbrev pub changes : Settings → List Change → Floors → Floors
changes c [] fl = fl
changes c (x ∷ xs) fl = changes c xs (change c x fl)

Read-cases {ℓ} :
    {A : Type ℓ} (p : Read A) → ((e : LeaseError) × (p ≡ fails e)) ⊎ ((a : A) × (p ≡ is a))
Read-cases (fails e) = inl (e, refl)
Read-cases (is a) = inr (a, refl)

watch_lease-floor :
    (c : Settings) (now : Time) (req : Request) (ch : ℕ) (fl : Floors) (e : Text)
    → floor (elim (watch_lease c fl now req ch) [ none ↦ fl | some f ↦ f ]) e ≡ floor fl e
unfolding watch_lease floor
watch_lease-floor c now req ch fl e = elim (Read-cases (parse_authority c.wire req.credential)) [
  | inl (why, p) ↦ rw (watch_lease, p) refl
  | inr ((auth, s), p) ↦ elim (Bool-cases (check c fl now auth s req).allow) [
    | inl granted ↦ rw (watch_lease, p, granted) refl
    | inr refused ↦ rw (watch_lease, p, refused) refl
  ]
]

change-raises :
    (c : Settings) (x : Change) (fl : Floors) (e : Text) → floor fl e ≤ℤ floor (change c x fl) e
unfolding unwatch floor
change-raises c (revoked estate epoch) fl e = (revoke_raises estate epoch fl e).0
change-raises c (watched now req ch) fl e = ground (arith, watch_lease-floor c now req ch fl e)
change-raises c (unwatched k ch) fl e = ground arith

changes-raise :
    (c : Settings) (xs : List Change) (fl : Floors) (e : Text)
    → floor fl e ≤ℤ floor (changes c xs fl) e
changes-raise c [] fl e = ground arith
changes-raise c (x ∷ xs) fl e =
    ground (arith, change-raises c x fl e, changes-raise c xs (change c x fl) e)

-- After a revocation, and after whatever revocations, registrations and ends of held polls come later,
-- no lease of the estate with a lower epoch is honoured.
pub revoke_refuses :
    (c : Settings) (fl : Floors) (now : Time) (auth : Authority) (s : Signed) (req : Request)
    (epoch : ℤ) (later : List Change)
    → ltb_ℤ auth.epoch epoch ≡ true
    → (check c (changes c later (revoke auth.scope.estate epoch fl).0) now auth s req).allow ≡ false
unfolding check
revoke_refuses c fl now auth s req epoch later low =
    let e = auth.scope.estate in
    ground (arith, (revoke_raises e epoch fl e).1, changes-raise c later (revoke e epoch fl).0 e)
