-- ===== src/Common/Separators.antt =====
-- Texts joined by a separator that the first of them does not hold.
use Prim.Native.Nat.{ℕ}
use mathlib.Core.Path.{◌≡◌, refl, sym}
use mathlib.Core.Logic.{◌≢◌}
use mathlib.Core.List.{[], ◌∷◌, ◌++◌}
use native.Mathlib.Omega.{arith}
use heliograph_relay.Common.Lists.{All, any}
use mathlib.Core.Bool.{false}
use heliograph_relay.Common.Tests.{◌==◌}
use heliograph_relay.Common.Texts.{Text}

abbrev pub Lacks : ℕ → Text → Type 0
Lacks c t = All (λ x. x ≢ c) t

-- A text is searched for it.
pub searched-Lacks : (c : ℕ) (t : Text) → any (λ x. x == c) t ≡ false → Lacks c t
searched-Lacks c [] h = tt
searched-Lacks c (x ∷ t) h =
    (λ p. absurd (ground (arith, h, p)), searched-Lacks c t (ground (arith, h)))

pub cons_injective :
    (x y : ℕ) (xs ys : Text) → ◌≡◌ {A = Text} (x ∷ xs) (y ∷ ys) → (x ≡ y) × (xs ≡ ys)
cons_injective x y xs ys e = ground arith

-- Such a text can be cut in one way only.
pub cut_unique :
    (c : ℕ) (xs ys r t : Text)
    → Lacks c xs
    → Lacks c ys
    → xs ++ c ∷ r ≡ ys ++ c ∷ t
    → (xs ≡ ys) × (r ≡ t)
cut_unique c [] [] r t h k e = (refl, (cons_injective c c r t e).1)
cut_unique c [] (y ∷ ys) r t h k e = absurd (k.0 (sym (cons_injective c y r _ e).0))
cut_unique c (x ∷ xs) [] r t h k e = absurd (h.0 (cons_injective x c _ t e).0)
cut_unique c (x ∷ xs) (y ∷ ys) r t h k e =
    let (same_head, tails) = cons_injective x y _ _ e in
    let (a, b) = cut_unique c xs ys r t h.1 k.1 tails in ((λ i. same_head i ∷ a i), b)
