-- ===== src/Auth/Watching.antt =====
-- Which held polls a revocation ends.
use mathlib.Core.Path.{subst}
use heliograph_relay.Common.{
  refl, ◌∙◌, Bool, true, ◌&&◌, ◌||◌, any, ◌==◌, some, Bool-cases, inl, inr, ◌⊎◌, false, same_refl,
  ℕ, ◌≡◌, List, [], ◌∷◌, ◌++◌, Text, same, same_iff, has_prefix, Dict, lookup, none, if◌then◌else◌,
  arith, ℤ,
}
use heliograph_relay.Common.Separators.{Lacks}
use heliograph_relay.Auth.Authority.{Floors, ending, revoke, watch_key, no_watch}

ending-lookup :
    (estate j : Text) (ws : Dict (List ℕ))
    → lookup j (ending estate ws).0
      ≡ (if has_prefix (estate ++ 0 ∷ []) j then none else lookup j ws)
unfolding ending lookup
ending-lookup estate j [] = ground arith
ending-lookup estate j ((k, chans) ∷ ws) = ground (arith, same_iff k j, ending-lookup estate j ws)

-- A text is cut at its first separator.
prefix-same :
    (c : ℕ) (xs ys t : Text)
    → Lacks c xs
    → Lacks c ys
    → has_prefix (xs ++ c ∷ []) (ys ++ c ∷ t) ≡ same xs ys
unfolding has_prefix same
prefix-same c [] [] t h k = ground arith
prefix-same c [] (y ∷ ys) t h k = ground arith
prefix-same c (x ∷ xs) [] t h k = ground arith
prefix-same c (x ∷ xs) (y ∷ ys) t h k = ground (arith, prefix-same c xs ys t h.1 k.1)

-- A channel is among these.
abbrev pub among : ℕ → List ℕ → Bool
among ch cs = any (λ x. x == ch) cs

-- A watcher of the estate waits on the channel.
abbrev pub waits_on : Text → ℕ → Text × List ℕ → Bool
waits_on estate ch (k, chans) = has_prefix (estate ++ 0 ∷ []) k && among ch chans

among-append : (ch : ℕ) (xs ys : List ℕ) → among ch (xs ++ ys) ≡ among ch xs || among ch ys
among-append ch [] ys = refl
among-append ch (x ∷ xs) ys = ground (arith, among-append ch xs ys)

ending-among :
    (estate : Text) (ch : ℕ) (ws : Dict (List ℕ))
    → among ch (ending estate ws).1 ≡ any (waits_on estate ch) ws
unfolding ending
ending-among estate ch [] = refl
ending-among estate ch ((k, chans) ∷ ws) =
    ground (arith, ending-among estate ch ws, among-append ch chans (ending estate ws).1)

lookup-waits_on :
    (estate j : Text) (ch : ℕ) (ws : Dict (List ℕ))
    → has_prefix (estate ++ 0 ∷ []) j ≡ true
    → among ch (elim (lookup j ws) [ none ↦ [] | some cs ↦ cs ]) ≡ true
    → any (waits_on estate ch) ws ≡ true
unfolding lookup
lookup-waits_on estate j ch [] p h = absurd (ground (arith, h))
lookup-waits_on estate j ch ((k, chans) ∷ ws) p h = elim (Bool-cases (same k j)) [
  | inl here ↦
      let e : k ≡ j = (same_iff k j).0 here in
      let q : has_prefix (estate ++ 0 ∷ []) k ≡ true = rw e p in
      let r : among ch chans ≡ true =
        subst
          (λ b.
            among ch (elim (if b then some chans else lookup j ws) [ none ↦ [] | some cs ↦ cs ])
            ≡ true)
          here h in
      rw (q, r) refl
  | inr there ↦
      let rest = lookup-waits_on estate j ch ws p (
        subst
          (λ b.
            among ch (elim (if b then some chans else lookup j ws) [ none ↦ [] | some cs ↦ cs ])
            ≡ true)
          there h) in
      ground (arith, rest)
]

-- A revocation ends every poll that is held for its estate, on any station and in any direction, and
-- no poll of another estate: those of the estate are registered no longer and those of another one as
-- before; the channel of each of the estate's polls is told, and a channel is told only where a poll
-- of the estate waits on it. The estates' names must hold no zero byte.
pub revoke_ends :
    (estate other : Text) (epoch : ℤ) (fl : Floors) (station dir : Text) (ch : ℕ)
    → Lacks 0 estate
    → Lacks 0 other
    → (no_watch (revoke estate epoch fl).0 (watch_key other station dir)
        ≡ (if same estate other then [] else no_watch fl (watch_key other station dir)))
      × ((among ch (no_watch fl (watch_key estate station dir)) ≡ false)
          ⊎ (among ch (revoke estate epoch fl).1 ≡ true))
      × (among ch (revoke estate epoch fl).1 ≡ any (waits_on estate ch) fl.watchers)
unfolding revoke watch_key
revoke_ends estate other epoch fl station dir ch h k =
    let j = other ++ 0 ∷ (station ++ 0 ∷ dir) in
    let own = estate ++ 0 ∷ (station ++ 0 ∷ dir) in
    let mine : has_prefix (estate ++ 0 ∷ []) own ≡ true =
      prefix-same 0 estate estate (station ++ 0 ∷ dir) h h ∙ same_refl estate in
    let told = ending-among estate ch fl.watchers in
    (
      ground (
        arith,
        ending-lookup estate j fl.watchers,
        prefix-same 0 estate other (station ++ 0 ∷ dir) h k,
      ),
      elim (Bool-cases (among ch (no_watch fl own))) [
        | inl waits ↦ inr (told ∙ lookup-waits_on estate own ch fl.watchers mine waits)
        | inr idle ↦ inl idle
      ],
      told,
    )
