-- ===== src/Common/Decimal.antt =====
-- strconv.FormatUint in base ten, and the number that a decimal text denotes.
use Prim.Native.Nat.{ℕ, zero, suc, ◌+◌, ◌-◌, ◌*◌, ◌/◌, ◌%◌, ◌<◌, ◌≤◌}
use heliograph_relay.Common.Lists.{All, All-append, length, length-append}
use mathlib.Core.Path.{◌≡◌, refl, sym, ap, ◌∙◌}
use mathlib.Core.List.{[], ◌∷◌, ◌++◌}
use native.Mathlib.Omega.{arith}
use heliograph_relay.Common.Tests.{ltb, if◌then◌else◌, Bool-cases}
use heliograph_relay.Common.Texts.{Text}
use mathlib.Core.Logic.{inl, inr}

-- `n + 1` rounds of fuel are enough for `n`.
digits_of : ℕ → ℕ → Text
digits_of zero n = []
digits_of (suc f) n =
    let more = digits_of f (n / 10) in
    if ltb n 10 then (n + b'0') ∷ [] else more ++ (n % 10 + b'0') ∷ []

unfoldable pub decimal : ℕ → Text
unfolding digits_of
decimal n = digits_of (suc n) n

-- Reads digits with an accumulator.
unfoldable pub value_from : ℕ → Text → ℕ
value_from acc [] = acc
value_from acc (c ∷ cs) = value_from (acc * 10 + (c - b'0')) cs

value_from-append :
    (acc : ℕ) (s : Text) (c : ℕ) → value_from acc (s ++ c ∷ []) ≡ value_from acc s * 10 + (c - b'0')
unfolding value_from
value_from-append acc [] c = refl
value_from-append acc (x ∷ s) c = value_from-append (acc * 10 + (x - b'0')) s c

value-digits_of : (f n : ℕ) → n < f → value_from 0 (digits_of f n) ≡ n
unfolding digits_of value_from
value-digits_of zero n h = elim h [ ]
value-digits_of (suc f) n h = elim (Bool-cases (ltb n 10)) [
  | inl small ↦ rw small (ground arith)
  | inr large ↦
      rw (large, value_from-append 0 (digits_of f (n / 10)) (n % 10 + b'0'))
        (ground (arith, value-digits_of f (n / 10)))
]

-- Reading back what was printed gives the number.
pub value-decimal : (n : ℕ) → value_from 0 (decimal n) ≡ n
unfolding decimal
value-decimal n = value-digits_of (suc n) n (omega arith)

pub decimal_injective : (a b : ℕ) → decimal a ≡ decimal b → a ≡ b
decimal_injective a b e = sym (value-decimal a) ∙ ap (value_from 0) e ∙ value-decimal b

-- An ASCII digit.
abbrev pub Digit : ℕ → Type 0
Digit c = (48 ≤ c) × (c ≤ 57)

digits_of-Digit : (f n : ℕ) → All Digit (digits_of f n)
unfolding digits_of
digits_of-Digit zero n = tt
digits_of-Digit (suc f) n = elim (Bool-cases (ltb n 10)) [
  | inl small ↦ rw small ((ground arith, ground arith), tt)
  | inr large ↦ rw large (
      All-append Digit (digits_of f (n / 10)) _ (digits_of-Digit f (n / 10))
        ((omega arith, omega arith), tt))
]

pub decimal-Digit : (n : ℕ) → All Digit (decimal n)
unfolding decimal
decimal-Digit n = digits_of-Digit (suc n) n

-- 10 to the power of `k`.
abbrev pub ten_to : ℕ → ℕ
ten_to zero = 1
ten_to (suc k) = 10 * ten_to k

length-digits_of : (f k n : ℕ) → n < ten_to (suc k) → length (digits_of f n) ≤ suc k
unfolding digits_of
length-digits_of zero k n h = omega arith
length-digits_of (suc f) zero n h = ground arith
length-digits_of (suc f) (suc k) n h = elim (Bool-cases (ltb n 10)) [
  | inl small ↦ rw small (omega arith)
  | inr large ↦
      rw (large, length-append (digits_of f (n / 10)))
        (omega (arith, length-digits_of f k (n / 10) (omega arith)))
]

pub length-decimal : (k n : ℕ) → n < ten_to (suc k) → length (decimal n) ≤ suc k
unfolding decimal
length-decimal k n h = length-digits_of (suc n) k n h
