-- ===== src/Auth/Minting.antt =====
-- Leases from NewAuthority to ParseAuthority, and on to the answer of AuthorityAuth.Admit.
use heliograph_relay.Common.{
  ℕ, ◌-◌, ◌*◌, ◌%◌, ◌<◌, ◌≡◌, ap, refl, ◌∙◌, false, some, [], ◌∷◌, ◌++◌, Text, same, arith,
}
use heliograph_relay.Common.Split.{split}
use heliograph_relay.Common.Separators.{Lacks}
use heliograph_relay.Relay.Message.{Time}
use heliograph_relay.Auth.Authority.{
  Authority, Signed, Wire, is, unix, is_zero, Payload, to_authority, to_payload, unix_seconds,
  read_payload, read_parts, parse_authority, new_authority, authority_prefix,
}

split-first : (c : ℕ) (a b : Text) → Lacks c a → split c (a ++ c ∷ b) ≡ a ∷ split c b
unfolding split
split-first c [] b h = ground arith
split-first c (x ∷ a) b h = ground (arith, split-first c a b h.1, h.0)

split-only : (c : ℕ) (a : Text) → Lacks c a → split c a ≡ a ∷ []
unfolding split
split-only c [] h = refl
split-only c (x ∷ a) h = ground (arith, split-only c a h.1, h.0)

-- An instant of Go without its fraction of a second.
abbrev pub whole : Time → Time
whole t = t - t % 1000000000

unix-unix_seconds :
    (t : Time) → t < 18446744073709551616 * 1000000000 → unix (unix_seconds t) ≡ whole t
unfolding unix unix_seconds
unix-unix_seconds t small = ground arith

-- What the wire keeps of an authority: its instants in whole seconds.
abbrev pub in_seconds : Authority → Authority
in_seconds a = record a { not_before = whole a.not_before; expires = whole a.expires }

-- What ParseAuthority gives for a minted lease: the signature is checked against the encoded payload.
abbrev pub minted : Wire → Authority → (Text → Text) → Authority × Signed
minted w a sign =
    let payload = w.encode64 (w.marshal (to_payload a)) in
    (in_seconds a, record { payload = payload; signature = sign payload })

-- Documented of encoding/base64: it decodes what it encodes, and its alphabet has no full stop.
pub record Base64 (w : Wire) : Type 0 where
  pub decodes : (t : Text) → w.decode64 (w.encode64 t) ≡ some t
  pub stopless : (t : Text) → Lacks b'.' (w.encode64 t)

-- The instants that the wire can hold: those of Go, without the second that stands for none.
abbrev pub Dated : Time → Type 0
Dated t = (t < 18446744073709551616 * 1000000000) × (is_zero (unix_seconds t) ≡ false)

prefix-Lacks : Lacks b'.' authority_prefix
prefix-Lacks = (
  λ e. absurd (omega (arith, e)),
  (λ e. absurd (omega (arith, e)), (λ e. absurd (omega (arith, e)), tt)),
)

-- Three parts, joined by full stops.
abbrev pub assembled : Wire → Text → Text → Text
assembled w raw signature =
    authority_prefix ++ b'.' ∷ (w.encode64 raw ++ b'.' ∷ w.encode64 signature)

module _ (w : Wire) (raw signature : Text) (p : Payload) (base : Base64 w)
    (back : w.unmarshal raw ≡ some p) (begins : is_zero p.nbf ≡ false)
    (ends : is_zero p.exp ≡ false) where
  abbrev payload : Text
  payload = w.encode64 raw

  parts :
      split b'.' (assembled w raw signature)
      ≡ authority_prefix ∷ payload ∷ w.encode64 signature ∷ []
  parts =
      split-first b'.' authority_prefix _ prefix-Lacks
      ∙ rw (
        split-first b'.' payload (w.encode64 signature) (base.stopless raw),
        split-only b'.' (w.encode64 signature) (base.stopless signature),
      )

  payload_read :
      read_payload w payload raw signature
      ≡ is (to_authority p, record { payload = payload; signature = signature })
  unfolding read_payload
  payload_read = rw (read_payload, back, ends, begins) refl

  -- A lease of three parts is read as the authority that its payload holds.
  pub parse-assembled :
      parse_authority w (assembled w raw signature)
      ≡ is (to_authority p, record { payload = payload; signature = signature })
  unfolding parse_authority read_parts same
  parse-assembled = rw (parts, base.decodes raw, base.decodes signature, payload_read)

pub to_authority-to_payload :
    (a : Authority)
    → Dated a.not_before
    → Dated a.expires
    → to_authority (to_payload a) ≡ in_seconds a
to_authority-to_payload a begins ends =
    rw (unix-unix_seconds a.not_before begins.0, unix-unix_seconds a.expires ends.0)

-- A minted lease is read back as the authority it was minted from, with its instants in whole
-- seconds, together with the encoded payload and the signature made over it. The decoders give back
-- what the encoders wrote, base64 has no full stop, and neither instant is outside Go's range or in
-- the second that stands for none.
pub parse-new_authority :
    (w : Wire) (a : Authority) (sign : Text → Text)
    → Base64 w
    → w.unmarshal (w.marshal (to_payload a)) ≡ some (to_payload a)
    → Dated a.not_before
    → Dated a.expires
    → parse_authority w (new_authority w a sign) ≡ is (minted w a sign)
unfolding new_authority
parse-new_authority w a sign base back begins ends =
    let raw = w.marshal (to_payload a) in
    let signature = sign (w.encode64 raw) in
    parse-assembled w raw signature (to_payload a) base back begins.1 ends.1
    ∙ ap (λ b. is (b, record { payload = w.encode64 raw; signature = signature }))
        (to_authority-to_payload a begins ends)
