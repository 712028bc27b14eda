-- ===== src/Conformance/Exchange.antt =====
-- conformance.go: Run's sections on the exchange of a message, the two sides' scopes, a missing
-- credential and the reasons of refusals; and those on estates, directions and bodies.
use heliograph_relay.Common.{
  not, ◌&&◌, List, [], ◌∷◌, ◌++◌, Text, bytes, same, length, is_empty, ◌==◌, if◌then◌else◌,
}
use heliograph_relay.Auth.Scoped.{c2s, s2c}
use heliograph_relay.Conformance.Client.{
  Msg, Peer, Target, Run, ◌>>=◌, pure, Result, assert, put, put_r, take,
}

-- 0x00, 0xff, 0x7b, 0x22, 0x10, "cipher", 0xfe
abbrev pub ciphertext : Text
ciphertext = 0x00 ∷ 0xff ∷ 0x7b ∷ 0x22 ∷ 0x10 ∷ (bytes "cipher" ++ 0xfe ∷ [])

abbrev pub wrong_token : Text
wrong_token = bytes "definitely-not-the-token"

-- What is only asserted where one message came back.
abbrev pub unchanged : Text → List Msg → List Result
unchanged want (m ∷ []) =
    assert (bytes "the body is byte-for-byte what was sent") (same m.body want)
    ∷ assert (bytes "the sequence number is unchanged") (m.seq == 1)
    ∷ []
unchanged want _ = []

module _ {S : Type 0} (p : Peer S) (t : Target) (uniq : Text) where
  unfoldable pub exchanged : Run S (List Result)
  exchanged = do
    sent ← put p t.estate uniq c2s t.control 1 ciphertext
    (code, got) ← take p t.estate uniq c2s t.station_tok
    (_, again) ← take p t.estate uniq c2s t.station_tok
    pure (
        assert (bytes "a control token may queue a request") (sent == 202)
        ∷ assert (bytes "a station token may collect it") (code == 200)
        ∷ assert (bytes "exactly one message came back") (length got == 1)
        ∷ (unchanged ciphertext got
            ++ assert (bytes "a collected message is not delivered twice") (length again == 0)
              ∷ []))

  unfoldable pub scopes_split : Run S (List Result)
  scopes_split = do
    evil ← put p t.estate uniq c2s t.station_tok 2 (bytes "evil")
    fake ← put p t.estate uniq s2c t.control 2 (bytes "fake status")
    real ← put p t.estate uniq s2c t.station_tok 1 (bytes "real status")
    (code, got) ← take p t.estate uniq s2c t.control
    pure (
        assert (bytes "a station token may NOT queue a request") (not (evil == 202))
        ∷ assert (bytes "a control token may NOT publish a status") (not (fake == 202))
        ∷ assert (bytes "a station token may publish a status") (real == 202)
        ∷ assert (bytes "a control token may read a status") (code == 200 && length got == 1)
        ∷ [])

  unfoldable pub credentials_wanted : Run S (List Result)
  credentials_wanted = do
    none_put ← put p t.estate uniq c2s [] 3 (bytes "x")
    (none_get, _) ← take p t.estate uniq c2s []
    wrong_put ← put p t.estate uniq c2s wrong_token 3 (bytes "x")
    pure (
        assert (bytes "a put with no token is refused") (none_put == 401)
        ∷ assert (bytes "a get with no token is refused") (none_get == 401)
        ∷ assert (bytes "a put with a wrong token is refused") (wrong_put == 401)
        ∷ [])

  unfoldable pub reasons_given : Run S (List Result)
  reasons_given = do
    (_, none) ← put_r p t.estate uniq c2s [] 3 (bytes "x")
    (_, wrong) ← put_r p t.estate uniq c2s wrong_token 3 (bytes "x")
    (_, dirn) ← put_r p t.estate uniq c2s t.station_tok 3 (bytes "x")
    pure (
        assert (bytes "a refusal names a machine-readable reason")
          (not (is_empty none.reason) && not (is_empty wrong.reason) && not (is_empty dirn.reason))
        ∷ assert (bytes "a missing credential and a wrong one are told apart")
            (not (same none.reason wrong.reason))
        ∷ assert (bytes "a good credential in the wrong direction is not reported as a bad one")
            (not (same dirn.reason wrong.reason))
        ∷ assert (bytes "a refusal still carries a sentence for a person")
            (not (is_empty none.error) && not (is_empty wrong.error) && not (is_empty dirn.error))
        ∷ [])

  -- The four sections in the order of Run.
  unfoldable pub exchange_sections : Run S (List Result)
  unfolding exchanged scopes_split credentials_wanted reasons_given
  exchange_sections = do
    a ← exchanged
    b ← scopes_split
    c ← credentials_wanted
    d ← reasons_given
    pure (a ++ (b ++ (c ++ d)))

  unfoldable pub estates_apart : Run S (List Result)
  estates_apart = do
    code ← put p t.other_estate uniq c2s t.control 1 (bytes "x")
    (read, _) ← take p t.other_estate uniq c2s t.station_tok
    pure (
        assert (bytes "one estate's token cannot write into another") (not (code == 202))
        ∷ assert (bytes "one estate's token cannot read another") (read == 401)
        ∷ [])

  -- The section on estates is left out where the harness knows of one estate only.
  unfoldable pub boundaries : Run S (List Result)
  unfolding estates_apart
  boundaries = do
    apart ← (λ s. if is_empty t.other_estate then (s, []) else estates_apart s)
    unknown ← put p (bytes "estate-that-does-not-exist") uniq c2s t.control 1 (bytes "x")
    sideways ← put p t.estate uniq (bytes "sideways") t.control 1 (bytes "x")
    pure (
        apart
        ++ assert (bytes "an unconfigured estate is refused") (not (unknown == 202))
          ∷ assert (bytes "a direction other than c2s or s2c is refused") (not (sideways == 202))
          ∷ [])
