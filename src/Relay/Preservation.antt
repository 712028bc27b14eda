-- ===== src/Relay/Preservation.antt =====
-- Every call keeps the invariant, and so does every history that begins with an empty store.
use heliograph_relay.Common.{
  ℕ, ◌+◌, ◌-◌, ◌≤◌, ◌<◌, ◌≡◌, refl, sym, ◌∙◌, ap, inl, inr, true, false, List, [], ◌∷◌, ◌++◌, Text,
  same, same→eq, ltb, arith, if◌then◌else◌, Bool-cases, ◌≢◌, ℤ, pos, negsuc, ltb_ℤ,
}
use mathlib.Core.Path.{subst}
use native.Mathlib.Nat.{mod-eq_of_lt}
use heliograph_relay.Relay.Message.{Message, Time, key, valid_route}
use heliograph_relay.Relay.Store.{Store, queue, expire, take, depth, next_lease}
use heliograph_relay.Relay.Leased.{max_lease, take_leased, ack, is_blank}
use heliograph_relay.Relay.Frame.{current, queue-expire, SameCounters, expire-SameCounters}
use heliograph_relay.Relay.Loops.{pick-Merge}
use heliograph_relay.Relay.Holding.{mark_queue, split_lease-Merge}
use heliograph_relay.Relay.Collect.{take-queue, ack-queue, take_leased-queue}
use heliograph_relay.Relay.Counters.{
  take-SameCounters, ack-SameCounters, take_leased-SameSettings, hold_messages-leases,
}
use heliograph_relay.Relay.Invariant.{
  Marks, marks, Tidy, Valid, Items-mono, lease_text, current-Tidy, split_expired-Tidy, Merge-Tidy,
  mark_queue-Tidy,
}

pub Tidy-mono :
    (c d : Marks) (max : ℕ) (k : Text) (ms : List Message)
    → c.clock ≤ d.clock
    → c.epoch ≡ d.epoch
    → c.ids ≤ d.ids
    → c.leases ≤ d.leases
    → Tidy c max k ms
    → Tidy d max k ms
Tidy-mono c d max k ms t e i l h = record {
  items = Items-mono c d k ms t e i l h.items;
  ordered = h.ordered;
  bounded = h.bounded;
}

-- A store whose queues are tidy by marks that do not pass its own.
pub Valid-marks :
    (now : Time) (t : Store) (d : Marks) (max : ℕ)
    → d.clock ≤ now
    → d.epoch ≡ t.epoch
    → d.ids ≤ t.ids
    → d.leases ≤ t.leases
    → t.max ≡ max
    → ((k : Text) → Tidy d max k (queue k t))
    → Valid now t
Valid-marks now t d max c e i l m h k =
    subst (λ (n : ℕ). Tidy (marks now t) n k (queue k t)) (sym m)
      (Tidy-mono d (marks now t) max k (queue k t) c e i l (h k))

-- A store whose counters are the same and whose queues are tidy by them.
module _ (clock now : Time) (s t : Store) (later : clock ≤ now) (counters : SameCounters s t) where
  Valid-same : ((k : Text) → Tidy (marks clock s) s.max k (queue k t)) → Valid now t
  Valid-same h k =
      subst (λ (max : ℕ). Tidy (marks now t) max k (queue k t)) (sym counters.max)
        (Tidy-mono (marks clock s) (marks now t) s.max k (queue k t) later (sym counters.epoch)
          (omega (arith, counters.ids)) (omega (arith, counters.leases)) (h k))

append_cons-ne-nil : (xs : Text) (y : ℕ) (ys : Text) → xs ++ y ∷ ys ≢ []
append_cons-ne-nil [] y ys e = cc
append_cons-ne-nil (x ∷ xs) y ys e = cc

-- One queue is tidy because it was made so, the others because they are as they were.
pub one_queue :
    (c : Marks) (max : ℕ) (k j : Text) (ms ns : List Message)
    → Tidy c max k ms
    → Tidy c max j ns
    → Tidy c max j (if same k j then ms else ns)
one_queue c max k j ms ns a b = elim (Bool-cases (same k j)) [
  | inl e ↦ rw e (subst (λ i. Tidy c max i ms) (same→eq k j e) a)
  | inr e ↦ rw e b
]

module _ (clock now : Time) (s : Store) (later : clock ≤ now) (valid : Valid clock s) where
  abbrev c : Marks
  c = marks clock s

  SameCounters-refl : (t : Store) → SameCounters t t
  SameCounters-refl t = record { ids = refl; leases = refl; epoch = refl; max = refl; ttl = refl }

  pub waits-Valid : Valid now s
  waits-Valid = Valid-same clock now s s later (SameCounters-refl s) valid

  pub expire-Valid : (k : Text) → Valid now (expire k now s)
  expire-Valid k = Valid-same clock now s _ later (expire-SameCounters k now s) λ j.
      rw (queue-expire j k now s) (
        one_queue c s.max k j _ _ (split_expired-Tidy c s.max k (now - s.ttl) (queue k s) (valid k))
          (valid j))

  pub take-Valid :
      (estate station dir : Text) (limit : ℤ) → Valid now (take now estate station dir limit s).0
  take-Valid estate station dir limit =
      let k = key estate station dir in
      elim (Bool-cases (valid_route estate station dir)) [
        | inr bad ↦ subst (Valid now) (sym (take-bad bad)) waits-Valid
        | inl good ↦
            Valid-same clock now s _ later (take-SameCounters now estate station dir limit s) λ j.
              rw (take-queue now estate station dir limit s good j) (
                one_queue c s.max k j _ _
                  (Merge-Tidy c s.max k (pick-Merge limit 0 _)
                    (current-Tidy c s.max k now s (valid k)))
                  (valid j))
      ]
    where
      take-bad :
          valid_route estate station dir ≡ false → (take now estate station dir limit s).0 ≡ s
      take-bad bad = unfold take in rw bad

  pub ack-Valid : (estate station dir id : Text) → Valid now (ack now estate station dir id s).0
  ack-Valid estate station dir id =
      let k = key estate station dir in
      elim (Bool-cases (valid_route estate station dir)) [
        | inr bad ↦ subst (Valid now) (sym (ack-bad bad)) waits-Valid
        | inl good ↦ elim (Bool-cases (is_blank id)) [
          | inl blank ↦ subst (Valid now) (sym (ack-blank good blank)) waits-Valid
          | inr named ↦
              Valid-same clock now s _ later (ack-SameCounters now estate station dir id s) λ j.
                rw (ack-queue now estate station dir (pos 0) s good id named j) (
                  one_queue c s.max k j _ _
                    (Merge-Tidy c s.max k (split_lease-Merge id _)
                      (current-Tidy c s.max k now s (valid k)))
                    (valid j))
        ]
      ]
    where
      ack-bad : valid_route estate station dir ≡ false → (ack now estate station dir id s).0 ≡ s
      ack-bad bad = unfold ack in rw bad

      ack-blank :
          valid_route estate station dir ≡ true
          → is_blank id ≡ true
          → (ack now estate station dir id s).0 ≡ s
      ack-blank good blank = unfold ack in rw (good, blank)

  pub depth-Valid : (estate station dir : Text) → Valid now (depth now estate station dir s).0
  unfolding depth
  depth-Valid estate station dir = expire-Valid (key estate station dir)

  -- The lease counter has room for one more.
  module _ (room : s.leases + 1 < 18446744073709551616) where
    abbrev leased_marks : Marks
    leased_marks = record { clock = now; epoch = s.epoch; ids = s.ids; leases = s.leases + 1 }

    next_id_is : (next_lease s).1 ≡ lease_text s.epoch (s.leases + 1)
    unfolding next_lease
    next_id_is = ap (lease_text s.epoch) (omega arith)

    nonempty : (next_lease s).1 ≢ []
    nonempty e = append_cons-ne-nil s.epoch _ _ (sym next_id_is ∙ e)

    marked-Tidy :
        (k : Text) (limit : ℤ) (until : Time)
        → Tidy leased_marks s.max k (mark_queue limit (next_lease s).1 until 0 (current k now s))
    marked-Tidy k limit until =
        mark_queue-Tidy leased_marks k limit (next_lease s).1 until
          (s.leases + 1, omega arith, next_id_is) nonempty s.max 0 _
          (Tidy-mono c leased_marks s.max k _ later refl (omega arith) (omega arith)
            (current-Tidy c s.max k now s (valid k)))

    -- TakeLeased behind its guards.
    hold-Valid :
        (estate station dir : Text) (limit : ℤ) (d : ℕ)
        → valid_route estate station dir ≡ true
        → ltb 0 d ≡ true
        → ltb_ℤ max_lease (pos d) ≡ false
        → Valid now (take_leased now estate station dir limit (pos d) s).0
    hold-Valid estate station dir limit d good positive short =
        let k = key estate station dir in
        let t = (take_leased now estate station dir limit (pos d) s).0 in
        let kept = take_leased-SameSettings now estate station dir limit (pos d) s in
        Valid-marks now t leased_marks s.max (omega arith) (sym kept.epoch)
          (omega (arith, kept.ids)) (omega (arith, counted)) kept.max
          λ j.
            rw (take_leased-queue now estate station dir limit s good d positive short j)
              (one_queue leased_marks s.max k j _ _ (marked-Tidy k limit (now + d)) (others j))
      where
        counted : (take_leased now estate station dir limit (pos d) s).0.leases ≡ s.leases + 1
        counted =
            unfold take_leased in
            rw (good, positive, short)
              (hold_messages-leases now (key estate station dir) limit d s ∙ mod-eq_of_lt room)

        others : (j : Text) → Tidy leased_marks s.max j (queue j s)
        others j =
            Tidy-mono c leased_marks s.max j _ later refl (omega arith) (omega arith) (valid j)

    pub take_leased-Valid :
        (estate station dir : Text) (limit d : ℤ)
        → Valid now (take_leased now estate station dir limit d s).0
    take_leased-Valid estate station dir limit (negsuc d) =
        subst (Valid now) (sym rejected) waits-Valid
      where
        rejected : (take_leased now estate station dir limit (negsuc d) s).0 ≡ s
        rejected = unfold take_leased in ground arith
    take_leased-Valid estate station dir limit (pos d) =
        elim (Bool-cases (valid_route estate station dir)) [
          | inr bad ↦ subst (Valid now) (sym (no_route bad)) waits-Valid
          | inl good ↦ elim (Bool-cases (ltb 0 d)) [
            | inr none ↦ subst (Valid now) (sym (no_time good none)) waits-Valid
            | inl positive ↦ elim (Bool-cases (ltb_ℤ max_lease (pos d))) [
              | inl long ↦ subst (Valid now) (sym (too_long good positive long)) waits-Valid
              | inr short ↦ hold-Valid estate station dir limit d good positive short
            ]
          ]
        ]
      where
        no_route :
            valid_route estate station dir ≡ false
            → (take_leased now estate station dir limit (pos d) s).0 ≡ s
        no_route bad = unfold take_leased in rw bad

        no_time :
            valid_route estate station dir ≡ true
            → ltb 0 d ≡ false
            → (take_leased now estate station dir limit (pos d) s).0 ≡ s
        no_time good none = unfold take_leased in rw (good, none)

        too_long :
            valid_route estate station dir ≡ true
            → ltb 0 d ≡ true
            → ltb_ℤ max_lease (pos d) ≡ true
            → (take_leased now estate station dir limit (pos d) s).0 ≡ s
        too_long good positive long = unfold take_leased in rw (good, positive, long)
