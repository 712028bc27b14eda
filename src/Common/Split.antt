-- ===== src/Common/Split.antt =====
-- strings.Split at a byte, strings.TrimSpace on ASCII white space, and strings.ToLower on ASCII.
use Prim.Native.Nat.{ℕ, ◌+◌}
use mathlib.Core.Option.{Option, none, some}
use mathlib.Core.Bool.{Bool, ◌&&◌, ◌||◌}
use mathlib.Core.List.{List, [], ◌∷◌, map, reverse}
use heliograph_relay.Common.Tests.{ltb, leb, ◌==◌, if◌then◌else◌}
use heliograph_relay.Common.Lists.{is_empty}
use heliograph_relay.Common.Texts.{Text}

-- unicode.IsSpace at one byte.
abbrev pub is_space : ℕ → Bool
is_space c = (ltb 8 c && ltb c 14) || c == 32

abbrev pub cons_first : ℕ → List Text → List Text
cons_first c [] = (c ∷ []) ∷ []
cons_first c (p ∷ ps) = (c ∷ p) ∷ ps

unfoldable pub split : ℕ → Text → List Text
split sep [] = [] ∷ []
split sep (c ∷ cs) = if c == sep then [] ∷ split sep cs else cons_first c (split sep cs)

unfoldable pub trim_left : Text → Text
trim_left [] = []
trim_left (c ∷ cs) = let rest = trim_left cs in if is_space c then rest else c ∷ cs

-- White space at the end goes with nothing but white space behind it.
unfoldable pub trim_right : Text → Text
trim_right [] = []
trim_right (c ∷ cs) =
    let rest = trim_right cs in if is_space c && is_empty rest then [] else c ∷ rest

unfoldable pub trim_space : Text → Text
unfolding trim_left trim_right
trim_space s = trim_right (trim_left s)

unfoldable pub to_lower : Text → Text
to_lower = map λ c. if leb b'A' c && leb c b'Z' then c + 32 else c

-- strings.CutPrefix
unfoldable pub cut_prefix : Text → Text → Option Text
cut_prefix [] s = some s
cut_prefix (p ∷ ps) [] = none
cut_prefix (p ∷ ps) (c ∷ cs) = if p == c then cut_prefix ps cs else none

-- strings.CutSuffix
unfoldable pub cut_suffix : Text → Text → Option Text
unfolding cut_prefix
cut_suffix ext s = elim (cut_prefix (reverse ext) (reverse s)) [
  | none ↦ none
  | some t ↦ some (reverse t)
]
