-- ===== src/Conformance/HoldingTests.antt =====
-- The sections on a lease that holds its message and on one that is abandoned, against the relay of TestBench.
use heliograph_relay.Common.{
  ℕ, ◌*◌, ◌≡◌, refl, sym, true, false, none, some, [], bytes, same, pos, arith, if◌then◌else◌, Text,
}
use heliograph_relay.Relay.Message.{Message}
use heliograph_relay.Spool.Disk.{Codec, head_of}
use heliograph_relay.Auth.Scoped.{c2s}
use heliograph_relay.Server.LeaseParam.{Floats}
use heliograph_relay.Recovery.Mirror.{Survives}
use heliograph_relay.Recovery.Tests.{present}
use heliograph_relay.Conformance.Durability.{report}
use heliograph_relay.Conformance.Leasing.{lease_holds, lease_returns, held_station, dying_station}
use heliograph_relay.Conformance.LeaseTerms.{Reads, Brisk, half_minute}
use heliograph_relay.Conformance.Machine.{machine}
use heliograph_relay.Conformance.Holding.{lease_holds_passes}
use heliograph_relay.Conformance.Returning.{lease_returns_passes}
use heliograph_relay.Conformance.Tokens.{two_tokens-Judges}
use heliograph_relay.Conformance.TokensTests.{set, two}
use heliograph_relay.Conformance.TestBench.{
  foreign, target, uniq, tag, tokens, coded, coded-Survives, bench, calm, keeps, relay, ready,
  vacant,
}

abbrev codec : Text → Codec
codec station = coded (λ h. true) station station c2s c2s

survives_on :
    (station : Text) (x : Message)
    → x.estate ≡ bytes "e1"
    → x.station ≡ station
    → x.dir ≡ c2s
    → Survives (codec station) x
unfolding head_of
survives_on station x e st d =
    coded-Survives (λ h. true) station station c2s c2s x e (sym st) (sym d)

-- A notation of seconds that holds two numbers.
abbrev floats : Floats
floats = record {
  Float = ℕ;
  parse =
      λ t. (if same t (bytes "30") then some 30 else if same t (bytes "1") then some 1 else none);
  is_negative = λ x. false;
  scale = λ x unit. pos (x * unit);
}

reads : Reads floats (bytes "30") half_minute
unfolding same
reads = record { value = 30; parsed = refl; positive = refl; scaled = refl }

one_reads : Reads floats (bytes "1") 1000000000
unfolding same
one_reads = record { value = 1; parsed = refl; positive = refl; scaled = refl }

brisk : Brisk bench
brisk = record { quick = λ i. omega arith; stamped = λ at. refl }

lease_holds_passes_example :
    (report
        (lease_holds
          (machine (codec (held_station uniq)) floats tokens bench)
          target
          uniq
          relay).1.0
      ≡ (record { pass = 12; fail = 0; skipped = 0 }, true))
    × ((lease_holds (machine (codec (held_station uniq)) floats tokens bench) target uniq relay).1.1
        ≡ true)
lease_holds_passes_example =
    lease_holds_passes (codec (held_station uniq)) floats tokens bench target (λ st. Unit {0}) keeps
      (two_tokens-Judges tag [] set target two) present 1 calm brisk reads foreign uniq refl
      (survives_on (held_station uniq)) relay (ready (codec (held_station uniq))) (vacant _)

lease_returns_passes_example :
    report
      (lease_returns (machine (codec (dying_station uniq)) floats tokens bench) target uniq relay).1
    ≡ (record { pass = 3; fail = 0; skipped = 0 }, true)
lease_returns_passes_example =
    lease_returns_passes (codec (dying_station uniq)) floats tokens bench target (λ st. Unit {0})
      keeps (two_tokens-Judges tag [] set target two) present 1 calm reads one_reads uniq refl
      (survives_on (dying_station uniq)) relay (ready (codec (dying_station uniq))) (vacant _)
