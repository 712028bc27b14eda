-- ===== src/Config/Tests.antt =====
-- Instances of the configuration's theorems, and runs of the switches.
use heliograph_relay.Common.{◌≡◌, refl, none, some, Text, bytes}
use heliograph_relay.Common.Split.{trim_space, trim_left, trim_right}
use heliograph_relay.Config.LeaseKey.{Decoders, key, parse_public_key, decode_key, is_hex}

abbrev raw : Text
raw = bytes "0123456789abcdef0123456789abcdef"

abbrev decoders : Decoders
decoders = record { hex = λ t. none; base64 = λ t. some t; base64_url = λ t. none }

read_key : parse_public_key decoders raw ≡ key raw
unfolding parse_public_key decode_key is_hex trim_space trim_left trim_right
read_key = refl
