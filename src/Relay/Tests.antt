-- ===== src/Relay/Tests.antt =====
-- Runs of the store on a route with two messages, and instances of the theorems there.
use heliograph_relay.Common.{
  ℕ, ◌+◌, ◌*◌, ◌∙◌, ◌≤◌, ◌<◌, ◌≡◌, ◌≢◌, ◌⊎◌, refl, true, false, none, List, [], ◌∷◌, Text, bytes,
  pos, ◌≤ℤ◌, length, is_empty, All, arith, lookup, insert, decimal, same, if◌then◌else◌,
}
use heliograph_relay.Common.Separators.{Lacks, cons_injective}
use heliograph_relay.Spool.Disk.{Codec, no_faults}
use heliograph_relay.Relay.Message.{
  Message, Time, zero_time, ok, err, Error, no_such_lease, key, valid_route,
}
use heliograph_relay.Relay.Store.{
  Store, new_store, expire, set_queue, next_id, accept, written, enqueue, queue, put, take, reached,
  split_expired,
}
use heliograph_relay.Relay.Leased.{ack, is_blank}
use heliograph_relay.Relay.Frame.{current}
use heliograph_relay.Relay.Loops.{Merge, Free, Held}
use heliograph_relay.Relay.Guarantees.{take_conserves, ack_deletes}
use heliograph_relay.Relay.Invariant.{Valid, lease_text}
use heliograph_relay.Relay.Leasing.{
  Ready, granted_id, leased_store, lease_abandoned, lease_acknowledged, lease_excludes,
}
use heliograph_relay.Relay.Steps.{Call, puts, step, run}
use heliograph_relay.Relay.Histories.{Chronological, run-Valid, new_store-Valid}
use heliograph_relay.Relay.Freshness.{stale_ack, Valid-Ready}
use heliograph_relay.Relay.Promises.{Appended, Untouched, put_appends, key_injective}

abbrev pub e : Text
e = bytes "e"

abbrev pub st : Text
st = bytes "s"

abbrev pub dir : Text
dir = bytes "c2s"

abbrev pub noon : Time
noon = 1000000000000000000

-- A codec that keeps nothing.
abbrev mute : Codec
mute = record { marshal = λ h. []; unmarshal = λ t. none }

abbrev pub sent : ℕ → Message
sent seq = record {
  id = [];
  estate = e;
  station = st;
  dir = dir;
  seq = seq;
  body = bytes "hi";
  arrived = zero_time;
  file = [];
  lease = [];
  lease_until = zero_time;
}

abbrev calls : List (Time × Call)
calls = (noon, puts mute no_faults (sent 1)) ∷ (noon + 1, puts mute no_faults (sent 2)) ∷ []

abbrev pub fresh_store : Store
fresh_store = new_store (bytes "x")

abbrev pub two : Store
two = run calls fresh_store

pub valid : valid_route e st dir ≡ true
unfolding valid_route same
valid = refl

in_order : Chronological noon calls
in_order = (omega arith, (refl, refl), (omega arith, (refl, refl), tt))

ids_free : fresh_store.ids + length calls < 18446744073709551616
unfolding new_store
ids_free = omega arith

leases_free : fresh_store.leases + length calls < 18446744073709551616
unfolding new_store
leases_free = omega arith

pub two-Valid : Valid (noon + 1) two
two-Valid =
    run-Valid noon calls fresh_store in_order ids_free leases_free
      (new_store-Valid (bytes "x") noon)

run-Valid_example : Valid (noon + 1) two
run-Valid_example =
    run-Valid noon calls fresh_store in_order ids_free leases_free
      (new_store-Valid (bytes "x") noon)

-- Two messages are queued, oldest first.
two_queued : length (queue (key e st dir) two) ≡ 2
unfolding run step put expire split_expired queue set_queue next_id accept written enqueue lookup
    insert key valid_route same decimal new_store
two_queued = refl

grants_none : two.leases + 1 < 18446744073709551616
unfolding run step put expire split_expired queue set_queue next_id accept written enqueue lookup
    insert key valid_route same decimal new_store
grants_none = omega arith

ready : Ready (key e st dir) (granted_id two) two
ready = Valid-Ready (noon + 1) (key e st dir) two grants_none two-Valid

abbrev minute : ℕ
minute = 60000000000

positive : 0 < minute
positive = omega arith

short : minute ≤ 300000000000
short = omega arith

soon : noon + 1 ≤ noon + minute
soon = omega arith

late : noon + 1 ≤ noon + 2 * minute
late = omega arith

over : noon + 1 + minute ≤ noon + 2 * minute
over = omega arith

running : noon + minute < noon + 1 + minute
running = omega arith

abbrev held : Store
held = leased_store (noon + 1) e st dir (pos 1) minute two

abbrev taken : Store
taken = (take (noon + 1) e st dir (pos 1) two).0

lease_abandoned_example :
    current (key e st dir) (noon + 2 * minute) held ≡ current (key e st dir) (noon + 2 * minute) two
lease_abandoned_example =
    lease_abandoned (noon + 1) (noon + 2 * minute) e st dir (pos 1) minute two valid positive short
      late ready over

lease_acknowledged_example :
    queue (key e st dir) (ack (noon + minute) e st dir (granted_id two) held).0
    ≡ current (key e st dir) (noon + minute) taken
lease_acknowledged_example =
    lease_acknowledged (noon + 1) (noon + minute) e st dir (pos 1) minute two valid positive short
      soon ready running

lease_excludes_example :
    (take (noon + minute) e st dir (pos 0) held).1 ≡ (take (noon + minute) e st dir (pos 0) taken).1
lease_excludes_example =
    lease_excludes (noon + 1) (noon + minute) e st dir (pos 1) minute two valid positive short soon
      ready (pos 0) running

put_appends_example :
    let (s', r) = put mute no_faults (noon + 2) (sent 3) two in
    ((r ≡ ok tt) × Appended (noon + 2) (sent 3) two s')
    ⊎ ((x : Error) × (r ≡ err x) × Untouched (noon + 2) (sent 3) two s')
put_appends_example = put_appends mute no_faults (noon + 2) (sent 3) two

volatile : fresh_store.spool ≡ none
unfolding new_store
volatile = refl

take_conserves_example :
    let (s', r) = take (noon + 2) e st dir (pos 1) two in
    (ms : List Message) × (r ≡ ok ms)
    × Merge ms (queue (key e st dir) s') (current (key e st dir) (noon + 2) two)
    × All Free ms
    × ((reached (pos 1) (length ms) ≡ true) ⊎ All Held (queue (key e st dir) s'))
    × ((pos 1 ≤ℤ pos 0) ⊎ (pos (length ms) ≤ℤ pos 1))
take_conserves_example = take_conserves (noon + 2) e st dir (pos 1) two valid

named : is_blank (bytes "x-1") ≡ false
unfolding is_blank
named = refl

ack_deletes_example :
    let (s', r) = ack (noon + minute) e st dir (bytes "x-1") held in
    (acked : List Message) × (r ≡ (if is_empty acked then err no_such_lease else ok (length acked)))
    × Merge acked (queue (key e st dir) s') (current (key e st dir) (noon + minute) held)
    × All (λ m. m.lease ≡ bytes "x-1") acked
    × All (λ m. m.lease ≢ bytes "x-1") (queue (key e st dir) s')
ack_deletes_example = ack_deletes (noon + minute) e st dir (bytes "x-1") held valid named

epoch_two : two.epoch ≡ bytes "x"
unfolding run step put expire split_expired queue set_queue next_id accept written enqueue lookup
    insert key valid_route same decimal new_store
epoch_two = refl

x_dashless : Lacks b'-' (bytes "x")
x_dashless = (λ p. absurd (omega (arith, p)), tt)

y_dashless : Lacks b'-' (bytes "y")
y_dashless = (λ p. absurd (omega (arith, p)), tt)

epochs_differ : bytes "y" ≢ two.epoch
epochs_differ p = absurd (omega (arith, (cons_injective _ _ _ _ (p ∙ epoch_two)).0))

stale_ack_example :
    let (s', r) = ack (noon + 2) e st dir (lease_text (bytes "y") 1) two in
    (r ≡ err no_such_lease) × (queue (key e st dir) s' ≡ current (key e st dir) (noon + 2) two)
stale_ack_example =
    stale_ack (noon + 1) (noon + 2) e st dir (bytes "y") 1 two two-Valid valid y_dashless
      (rw epoch_two x_dashless) epochs_differ

e_slashless : Lacks b'/' e
e_slashless = (λ p. absurd (omega (arith, p)), tt)

st_slashless : Lacks b'/' st
st_slashless = (λ p. absurd (omega (arith, p)), tt)

key_injective_example : (e ≡ e) × (st ≡ st) × (dir ≡ dir)
key_injective_example =
    key_injective e st dir e st dir e_slashless st_slashless e_slashless st_slashless refl
