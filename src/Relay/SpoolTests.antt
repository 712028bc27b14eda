-- ===== src/Relay/SpoolTests.antt =====
-- A run of Put with a spool, and the instance of its theorem.
use heliograph_relay.Common.{
  ℕ, ◌+◌, ◌<◌, ◌≡◌, ◌≢◌, refl, false, none, some, [], bytes, arith, lookup, same, if◌then◌else◌,
}
use heliograph_relay.Common.Separators.{Lacks}
use heliograph_relay.Spool.Disk.{
  Spool, Codec, no_faults, unix_epoch, spool_name, head_of, write, publish,
}
use heliograph_relay.Spool.Durable.{Nanosecond}
use heliograph_relay.Relay.Message.{Time, ok, key, valid_route}
use heliograph_relay.Relay.Store.{
  Store, new_store, expire, split_expired, queue, set_queue, next_id, accept, written, put,
}
use heliograph_relay.Relay.Durability.{Durable, made, put-Durable}
use heliograph_relay.Relay.Tests.{sent, fresh_store}

abbrev disk : Spool
disk = record {
  dir = bytes "spool";
  next = 1;
  disk = [];
  stuck = λ name. false;
  unreadable = λ name. false;
}

abbrev spooled_store : Store
spooled_store = record fresh_store { spool = some disk }

abbrev present : Time
present = unix_epoch + 1700000000000000000

-- A codec that knows the head of one message.
abbrev one_head : Codec
one_head = record {
  marshal = λ h. bytes "head";
  unmarshal = λ t.
      (if same t (bytes "head")
        then some (head_of (made present (sent 1) spooled_store))
        else none);
}

free : lookup (spool_name 1) disk.disk ≡ none
unfolding lookup
free = refl

in_range : Nanosecond present
in_range = (omega arith, omega arith)

survives :
    one_head.unmarshal (one_head.marshal (head_of (made present (sent 1) spooled_store)))
    ≡ some (head_of (made present (sent 1) spooled_store))
unfolding same
survives = refl

other_byte : (c : ℕ) → 10 < c → c ≢ 10
other_byte c h p = absurd (omega (arith, h, p))

one_line : Lacks 10 (bytes "head")
one_line = (
  other_byte 104 (omega arith),
  (other_byte 101 (omega arith), (other_byte 97 (omega arith), (other_byte 100 (omega arith), tt))),
)

accepted : (put one_head no_faults present (sent 1) spooled_store).1 ≡ ok tt
unfolding put expire split_expired queue set_queue next_id accept written write publish lookup key
    valid_route same new_store
accepted = refl

put-Durable_example :
    Durable one_head present
      (sent 1)
      spooled_store
      (put one_head no_faults present (sent 1) spooled_store).0
put-Durable_example =
    put-Durable one_head no_faults present (sent 1) spooled_store disk refl free refl refl refl
      in_range survives one_line accepted
