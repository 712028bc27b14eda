-- ===== src/Conformance/LeaseTerms.antt =====
-- What the suite's sections on leases rely on besides.
use heliograph_relay.Common.{
  ℕ, ◌≤◌, ◌≡◌, ◌≢◌, refl, false, some, [], ◌∷◌, Text, bytes, same, pos, is_empty, arith, ◌==◌,
}
use heliograph_relay.Common.Split.{cut_suffix, cut_prefix, trim_space, trim_left, trim_right}
use heliograph_relay.Relay.Message.{Time, zero_time, ok}
use heliograph_relay.Relay.Store.{Store, next_lease}
use heliograph_relay.Relay.Leased.{is_blank}
use heliograph_relay.Relay.Freshness.{lease_text-named, lease_text-ne-nil}
use heliograph_relay.Spool.Disk.{unix_epoch}
use heliograph_relay.Server.LeaseParam.{Floats, parse_lease, read_number, cut_unit, bounded}
use heliograph_relay.Conformance.Machine.{Bench, until_text}
use heliograph_relay.Relay.Leased.{Lease}

abbrev pub half_minute : ℕ
half_minute = 30000000000

-- ParseFloat reads a number of seconds, and the product with a second is exact.
pub record Reads (fl : Floats) (digits : Text) (nanoseconds : ℕ) : Type 0 where
  pub value : fl.Float
  pub parsed : fl.parse digits ≡ some value
  pub positive : fl.is_negative value ≡ false
  pub scaled : fl.scale value 1000000000 ≡ pos nanoseconds

pub thirty_seconds :
    (fl : Floats)
    → Reads fl (bytes "30") half_minute
    → parse_lease fl (bytes "30s") ≡ ok (pos half_minute)
unfolding parse_lease read_number cut_unit bounded cut_suffix cut_prefix trim_space trim_left
    trim_right same
thirty_seconds fl r = rw (r.parsed, r.positive, r.scaled) refl

pub one_second :
    (fl : Floats)
    → Reads fl (bytes "1") 1000000000
    → parse_lease fl (bytes "1s") ≡ ok (pos 1000000000)
unfolding parse_lease read_number cut_unit bounded cut_suffix cut_prefix trim_space trim_left
    trim_right same
one_second fl r = rw (r.parsed, r.positive, r.scaled) refl

-- Calls follow within a second, and a printed time is not empty.
pub record Brisk {S : Type 0} (b : Bench S) : Type 0 where
  pub quick : (i : ℕ) → b.lag i ≤ 1000000000
  pub stamped : (at : Time) → is_empty (b.stamp at) ≡ false

pub granted-named : (s : Store) → is_blank (next_lease s).1 ≡ false
unfolding next_lease
granted-named s = lease_text-named s.epoch _

not_nil : (t : Text) → t ≢ [] → is_empty t ≡ false
not_nil [] h = absurd (h refl)
not_nil (x ∷ t) h = refl

pub granted-full : (s : Store) → is_empty (next_lease s).1 ≡ false
unfolding next_lease
granted-full s = not_nil _ (lease_text-ne-nil s.epoch _)

not_zero : (at : ℕ) → unix_epoch ≤ at → (at == zero_time) ≡ false
not_zero at h = ground arith

-- A deadline of the run is not Go's zero time, so it is printed.
pub until_text-full :
    {S : Type 0} (b : Bench S) (l : Lease)
    → Brisk b
    → unix_epoch ≤ l.until
    → is_empty (until_text b.stamp l) ≡ false
until_text-full b l brisk late =
    let e : (l.until == zero_time) ≡ false = not_zero l.until late in
    rw (e, brisk.stamped l.until) refl
