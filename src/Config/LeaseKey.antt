-- ===== src/Config/LeaseKey.antt =====
-- verify.go: the key that leases are verified with. Hex and base64 decoding, and the signature
-- check of crypto/ed25519, are parameters.
use heliograph_relay.Common.{
  ℕ, Bool, false, not, ◌&&◌, ◌||◌, Option, none, some, Text, all, is_empty, length, leb, ◌==◌,
  if◌then◌else◌,
}
use heliograph_relay.Common.Split.{trim_space}

abbrev pub public_key_size : ℕ
public_key_size = 32

abbrev pub private_key_size : ℕ
private_key_size = 64

abbrev pub signature_size : ℕ
signature_size = 64

unfoldable pub is_hex : Text → Bool
is_hex =
    all λ c. (leb b'0' c && leb c b'9') || (leb b'a' c && leb c b'f') || (leb b'A' c && leb c b'F')

pub record Decoders : Type 0 where
  pub hex : Text → Option Text
  pub base64 : Text → Option Text
  pub base64_url : Text → Option Text

pub data Key : Type 0 where
  key : Text → Key
  not_configured undecodable private_key wrong_size : Key

-- The bytes of a key in whichever spelling it comes.
unfoldable pub decode_key : Decoders → Text → Option Text
unfolding is_hex
decode_key d s =
    if length s == 64 && is_hex s
    then d.hex s
    else elim (d.base64 s) [ some raw ↦ some raw | none ↦ d.base64_url s ]

unfoldable pub parse_public_key : Decoders → Text → Key
unfolding decode_key trim_space
parse_public_key d text =
    let s = trim_space text in
    if is_empty s then not_configured else elim (decode_key d s) [
      | none ↦ undecodable
      | some raw ↦
          if length raw == private_key_size
          then private_key
          else if not (length raw == public_key_size)
          then wrong_size
          else key raw
    ]

-- Ed25519Verifier: a key of another size refuses everything.
unfoldable pub ed25519_verifier : (Text → Text → Text → Bool) → Text → Text → Text → Bool
ed25519_verifier verify pub_key payload signature =
    if not (length pub_key == public_key_size)
    then false
    else if not (length signature == signature_size)
    then false
    else verify pub_key payload signature
