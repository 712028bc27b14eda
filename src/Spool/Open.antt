-- ===== src/Spool/Open.antt =====
-- spool.go: what a restart recovers from the spool's directory.
use heliograph_relay.Common.{
  ℕ, ◌+◌, ◌-◌, ◌*◌, Bool, true, not, ◌&&◌, Option, none, some, [], ◌∷◌, Text, same, ltb, leb, ◌==◌,
  if◌then◌else◌,
}
use heliograph_relay.Relay.Message.{Message, valid_route, zero_time}
use heliograph_relay.Common.Split.{is_space}
use heliograph_relay.Spool.Disk.{Codec, Head, from_unix_nano, spool_ext}

-- What stands before the first newline, and what stands behind it; `none` where there is none.
unfoldable pub cut_line : Text → Option (Text × Text)
cut_line [] = none
cut_line (c ∷ cs) =
    let rest = cut_line cs in
    if c == 10 then some ([], cs) else elim rest [ none ↦ none | some (a, b) ↦ some (c ∷ a, b) ]

unfoldable pub from_head : Text → Head → Text → Message
from_head path h body = record {
  id = h.id;
  estate = h.estate;
  station = h.station;
  dir = h.dir;
  seq = h.seq;
  body = body;
  arrived = from_unix_nano h.at;
  file = path;
  lease = [];
  lease_until = zero_time;
}

unfoldable pub read_spool_file : Codec → Text → Text → Option Message
unfolding cut_line from_head
read_spool_file c path raw = elim (cut_line raw) [
  | none ↦ none
  | some (line, body) ↦ elim (c.unmarshal line) [
    | none ↦ none
    | some h ↦
        if not (valid_route h.estate h.station h.dir) then none else some (from_head path h body)
  ]
]

-- strings.TrimSuffix with the extension, or `none` where the name does not end in it.
unfoldable pub strip_suffix : Text → Text → Option Text
strip_suffix ext [] = if same [] ext then some [] else none
strip_suffix ext (c ∷ cs) =
    let rest = strip_suffix ext cs in
    if same (c ∷ cs) ext then some [] else elim rest [ none ↦ none | some s ↦ some (c ∷ s) ]

abbrev pub is_digit : ℕ → Bool
is_digit c = leb b'0' c && leb c b'9'

-- The digits at the front, read after the digits that make `acc`.
unfoldable pub scan_digits : ℕ → Text → ℕ
scan_digits acc [] = acc
scan_digits acc (c ∷ cs) =
    let rest = scan_digits (acc * 10 + (c - b'0')) cs in if is_digit c then rest else acc

-- A numeral at the front that fits in 64 bits.
unfoldable pub scan_number : Text → Option ℕ
unfolding scan_digits
scan_number [] = none
scan_number (c ∷ cs) =
    let n = scan_digits 0 (c ∷ cs) in
    if is_digit c && ltb n 18446744073709551616 then some n else none

unfoldable pub skip_space : Text → Text
skip_space [] = []
skip_space (c ∷ cs) = let rest = skip_space cs in if is_space c then rest else c ∷ cs

-- fmt.Sscanf(trimmed, "%d", &n): what follows the numeral is not looked at.
unfoldable pub spool_number : Text → Option ℕ
unfolding strip_suffix scan_number skip_space
spool_number name = elim (strip_suffix spool_ext name) [
  | none ↦ none
  | some s ↦ scan_number (skip_space s)
]

abbrev pub all_digits : Text → Bool
all_digits [] = true
all_digits (c ∷ cs) = is_digit c && all_digits cs

-- strconv.ParseUint(s, 10, 64)
unfoldable pub parse_uint : Text → Option ℕ
unfolding scan_number
parse_uint s = if all_digits s then scan_number s else none

-- The counter in an id, where the id begins with "m".
unfoldable pub message_number : Text → Option ℕ
unfolding parse_uint
message_number [] = none
message_number (c ∷ cs) = if c == b'm' then parse_uint cs else none
