-- ===== src/Relay/Freshness.antt =====
-- The id of the next lease is new in a well-formed store, so the laws of leasing apply to it; and
-- an id of another run of the process names nothing.
use native.Mathlib.Nat.{mod-eq_of_lt}
use heliograph_relay.Common.{
  ℕ, ◌+◌, ◌<◌, ◌≡◌, refl, sym, ◌∙◌, ◌⊎◌, inl, inr, Bool, true, false, not, List, [], ◌∷◌, ◌++◌,
  Text, All, any, arith, ◌≢◌, is_empty, decimal, Bool-cases, ne→same,
}
use heliograph_relay.Common.Split.{is_space, trim_left, trim_right, trim_space}
use heliograph_relay.Common.Decimal.{decimal_injective}
use heliograph_relay.Relay.Message.{Message, Time, err, key, no_such_lease, valid_route}
use heliograph_relay.Relay.Store.{Store, queue, next_lease}
use heliograph_relay.Relay.Leased.{is_blank, ack, split_lease}
use heliograph_relay.Relay.Holding.{Unnamed}
use heliograph_relay.Relay.Frame.{current}
use heliograph_relay.Relay.Expiry.{Clean}
use heliograph_relay.Relay.Leasing.{Ready, granted_id}
use heliograph_relay.Common.Separators.{Lacks, cut_unique, cons_injective}
use heliograph_relay.Common.{pos}
use heliograph_relay.Relay.Guarantees.{at_self}
use heliograph_relay.Relay.Collect.{ack-queue, ack-result, split_lease_none}
use heliograph_relay.Relay.Invariant.{Marks, marks, Item, Valid, lease_text, Granted, current-Tidy}

append_cancel : (xs ys zs : Text) → xs ++ ys ≡ xs ++ zs → ys ≡ zs
append_cancel [] ys zs e = e
append_cancel (x ∷ xs) ys zs e = append_cancel xs ys zs (ground arith)

-- Something other than white space.
abbrev has_ink : Text → Bool
has_ink = any λ c. not (is_space c)

trim_left-ink : (t : Text) → has_ink t ≡ true → has_ink (trim_left t) ≡ true
unfolding trim_left
trim_left-ink [] h = h
trim_left-ink (c ∷ cs) h = elim (Bool-cases (is_space c)) [
  | inl space ↦ rw space (trim_left-ink cs (ground arith))
  | inr ink ↦ rw ink h
]

trim_right-ink : (t : Text) → has_ink t ≡ true → is_empty (trim_right t) ≡ false
unfolding trim_right
trim_right-ink [] h = cc
trim_right-ink (c ∷ cs) h = elim (Bool-cases (is_space c)) [
  | inl space ↦ rw (space, trim_right-ink cs (ground arith))
  | inr ink ↦ rw ink
]

has_ink-append :
    (xs : Text) (y : ℕ) (ys : Text) → is_space y ≡ false → has_ink (xs ++ y ∷ ys) ≡ true
has_ink-append [] y ys h = rw h
has_ink-append (x ∷ xs) y ys h = ground (arith, has_ink-append xs y ys h)

pub lease_text-named : (epoch : Text) (n : ℕ) → is_blank (lease_text epoch n) ≡ false
unfolding is_blank trim_space
lease_text-named epoch n =
    trim_right-ink (trim_left (lease_text epoch n))
      (trim_left-ink (lease_text epoch n) (has_ink-append epoch b'-' (decimal n) refl))

pub lease_text-ne-nil : (epoch : Text) (n : ℕ) → lease_text epoch n ≢ []
lease_text-ne-nil [] n e = cc
lease_text-ne-nil (x ∷ xs) n e = cc

pub lease_text_injective :
    (epoch : Text) (a b : ℕ) → lease_text epoch a ≡ lease_text epoch b → a ≡ b
lease_text_injective epoch a b e =
    decimal_injective a b (cons_injective b'-' b'-' _ _ (append_cancel epoch _ _ e)).1

Granted-Unnamed :
    (epoch : Text) (n : ℕ) (lease : Text)
    → (lease ≡ []) ⊎ Granted epoch n lease
    → lease ≢ lease_text epoch (n + 1)
Granted-Unnamed epoch n lease (inl free) e = lease_text-ne-nil epoch (n + 1) (sym e ∙ free)
Granted-Unnamed epoch n lease (inr (i, le, p)) e =
    absurd (omega (arith, lease_text_injective epoch i (n + 1) (sym p ∙ e)))

Items-Unnamed :
    (c : Marks) (k : Text) (ms : List Message)
    → All (Item c k) ms
    → All (Unnamed (lease_text c.epoch (c.leases + 1))) ms
Items-Unnamed c k [] h = tt
Items-Unnamed c k (m ∷ ms) h =
    (Granted-Unnamed c.epoch c.leases m.lease h.0.held, Items-Unnamed c k ms h.1)

Items-Clean : (c : Marks) (k : Text) (ms : List Message) → All (Item c k) ms → All Clean ms
Items-Clean c k [] h = tt
Items-Clean c k (m ∷ ms) h = (h.0.clean, Items-Clean c k ms h.1)

-- A well-formed store is ready for every collection under a lease: the id that comes next names no
-- message of any queue, and is no blank text.
pub Valid-Ready :
    (t : Time) (k : Text) (s : Store)
    → s.leases + 1 < 18446744073709551616
    → Valid t s
    → Ready k (granted_id s) s
unfolding next_lease
Valid-Ready t k s room v = rw (mod-eq_of_lt room) (record {
  ordered = (v k).ordered;
  clean = Items-Clean (marks t s) k (queue k s) (v k).items;
  unused = Items-Unnamed (marks t s) k (queue k s) (v k).items;
  nonempty = lease_text-ne-nil s.epoch (s.leases + 1);
  named = lease_text-named s.epoch (s.leases + 1);
})

split_lease-Unnamed :
    (id : Text) (ms : List Message) → All (Unnamed id) ms → (split_lease id ms).0 ≡ []
unfolding split_lease
split_lease-Unnamed id [] h = refl
split_lease-Unnamed id (m ∷ ms) h = rw (ne→same m.lease id h.0) (split_lease-Unnamed id ms h.1)

module _ (old : Text) (n : ℕ) where
  foreign :
      (c : Marks) (k : Text) (m : Message)
      → Lacks b'-' old
      → Lacks b'-' c.epoch
      → old ≢ c.epoch
      → Item c k m
      → Unnamed (lease_text old n) m
  foreign c k m h g e i p = elim i.held [
    | inl free ↦ lease_text-ne-nil old n (sym p ∙ free)
    | inr (j, _, q) ↦ e (cut_unique b'-' old c.epoch (decimal n) (decimal j) h g (sym p ∙ q)).0
  ]

  foreign-All :
      (c : Marks) (k : Text) (ms : List Message)
      → Lacks b'-' old
      → Lacks b'-' c.epoch
      → old ≢ c.epoch
      → All (Item c k) ms
      → All (Unnamed (lease_text old n)) ms
  foreign-All c k [] h g e i = tt
  foreign-All c k (m ∷ ms) h g e i = (foreign c k m h g e i.0, foreign-All c k ms h g e i.1)

-- On a well-formed store and a valid route, an acknowledgement from before a restart, whose lease
-- id carries another epoch, is refused and deletes no message that had not expired. Neither epoch
-- may hold a dash; they are base-36 numerals.
pub stale_ack :
    (t now : Time) (estate station dir old : Text) (n : ℕ) (s : Store)
    → Valid t s
    → valid_route estate station dir ≡ true
    → Lacks b'-' old
    → Lacks b'-' s.epoch
    → old ≢ s.epoch
    → let k = key estate station dir in
      let (s', r) = ack now estate station dir (lease_text old n) s in
      (r ≡ err no_such_lease) × (queue k s' ≡ current k now s)
stale_ack t now estate station dir old n s v good h g e =
    let k = key estate station dir in
    let id = lease_text old n in
    let tidy = current-Tidy (marks t s) s.max k now s (v k) in
    let gone =
      split_lease-Unnamed id (current k now s)
        (foreign-All old n (marks t s) k _ h g e tidy.items) in
    (
      ack-result now estate station dir (pos 0) s good id (lease_text-named old n) ∙ rw gone,
      ack-queue now estate station dir (pos 0) s good id (lease_text-named old n) k
          ∙ at_self k _ _
          ∙ split_lease_none id (current k now s) gone,
    )
