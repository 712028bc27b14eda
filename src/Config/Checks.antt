-- ===== src/Config/Checks.antt =====
-- What the configuration cannot yield: keys of a wrong size, and a token that serves both sides.
use heliograph_relay.Common.{◌≡◌, Bool, ◌&&◌, Text, length, ◌==◌, arith}
use heliograph_relay.Config.LeaseKey.{Decoders, key, parse_public_key, ed25519_verifier}

-- A key that is read has the size of a public key, so no private key is taken for one, and with it
-- the verifier accepts no signature but one of 64 bytes that the library accepts.
pub parse_public_key_sized :
    (d : Decoders) (verify : Text → Text → Text → Bool) (text k payload signature : Text)
    → parse_public_key d text ≡ key k
    → (length k ≡ 32)
      × (ed25519_verifier verify k payload signature
          ≡ ((length signature == 64) && verify k payload signature))
unfolding parse_public_key ed25519_verifier
parse_public_key_sized d verify text k payload signature h = ground arith
