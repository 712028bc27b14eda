-- ===== src/Server/LeaseParam.antt =====
-- lease.go: ParseLease, and strconv.Atoi as the handler of GET uses it. Floating-point numbers are
-- a parameter: strconv.ParseFloat, the sign test, and the product with a unit as a Duration.
use heliograph_relay.Common.{
  ℕ, ◌+◌, ◌-◌, ◌*◌, Bool, true, false, ◌&&◌, ◌||◌, Option, none, some, [], ◌∷◌, Text, bytes, same,
  any, is_empty, ltb, leb, ℤ, pos, negsuc, ltb_ℤ, if◌then◌else◌, ◌==◌,
}
use heliograph_relay.Common.Split.{trim_space, cut_suffix}
use heliograph_relay.Relay.Message.{Result, ok, err, bad_lease, lease_too_long}
use heliograph_relay.Relay.Leased.{max_lease}

pub record Floats : Type 1 where
  pub Float : Type 0
  pub parse : Text → Option Float
  pub is_negative : Float → Bool
  pub scale : Float → ℕ → ℤ

-- The unit in nanoseconds and what stands before it: seconds where there is no unit.
unfoldable pub cut_unit : Text → ℕ × Text
unfolding cut_suffix
cut_unit v = elim (cut_suffix (bytes "ms") v) [
  | some n ↦ (1000000, n)
  | none ↦ elim (cut_suffix (bytes "s") v) [
    | some n ↦ (1000000000, n)
    | none ↦ elim (cut_suffix (bytes "m") v) [
      | some n ↦ (60000000000, n)
      | none ↦ elim (cut_suffix (bytes "h") v) [
        | some n ↦ (3600000000000, n)
        | none ↦ (1000000000, v)
      ]
    ]
  ]
]

-- strings.ContainsAny(v, "eE+- \t")
abbrev pub is_refused : ℕ → Bool
is_refused c = c == b'e' || c == b'E' || c == b'+' || c == b'-' || c == 32 || c == 9

module _ (fl : Floats) where
  -- The bound on the duration that was read.
  unfoldable pub bounded : ℤ → Result ℤ
  bounded d = if ltb_ℤ max_lease d then err lease_too_long else ok d

  unfoldable pub read_number : ℕ → Text → Result ℤ
  unfolding bounded
  read_number unit v = if is_empty v || any is_refused v then err bad_lease else elim (fl.parse v) [
    | none ↦ err bad_lease
    | some n ↦ if fl.is_negative n then err bad_lease else bounded (fl.scale n unit)
  ]

  unfoldable pub parse_lease : Text → Result ℤ
  unfolding read_number cut_unit trim_space
  parse_lease raw =
      let v = trim_space raw in
      let (unit, number) = cut_unit v in
      if is_empty v || same v (bytes "0") then ok (pos 0) else read_number unit number

abbrev pub is_digit : ℕ → Bool
is_digit c = leb b'0' c && leb c b'9'

unfoldable pub digits_value : ℕ → Text → Option ℕ
digits_value acc [] = some acc
digits_value acc (c ∷ cs) =
    let rest = digits_value (acc * 10 + (c - b'0')) cs in if is_digit c then rest else none

-- The digits' number within 64 bits, with the nearest int64 out of range.
unfoldable pub signed : Bool → ℕ → ℤ
signed true n =
    if n == 0
    then pos 0
    else negsuc (if ltb 9223372036854775808 n then 9223372036854775807 else n - 1)
signed false n = pos (if ltb 9223372036854775807 n then 9223372036854775807 else n)

unfoldable pub atoi_digits : Bool → Text → ℤ
unfolding digits_value signed
atoi_digits neg [] = pos 0
atoi_digits neg (c ∷ cs) = elim (digits_value 0 (c ∷ cs)) [ none ↦ pos 0 | some n ↦ signed neg n ]

-- `n, _ := strconv.Atoi(v)`: zero for what is no number.
unfoldable pub atoi : Text → ℤ
unfolding atoi_digits
atoi [] = pos 0
atoi (c ∷ cs) =
    if c == b'-'
    then atoi_digits true cs
    else if c == b'+'
    then atoi_digits false cs
    else atoi_digits false (c ∷ cs)
