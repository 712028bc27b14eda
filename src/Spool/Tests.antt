-- ===== src/Spool/Tests.antt =====
-- Instances of the spool's theorems, with a codec that writes a head by its sequence number alone.
use heliograph_relay.Common.{
  ◌+◌, ◌≡◌, refl, true, false, none, some, [], bytes, arith, lookup, same, if◌then◌else◌,
}
use heliograph_relay.Common.Separators.{Lacks}
use heliograph_relay.Relay.Message.{Message, zero_time, valid_route}
use heliograph_relay.Spool.Disk.{
  Spool, Codec, head_of, no_faults, file_content, write, spool_name, unix_epoch,
}
use heliograph_relay.Spool.Open.{read_spool_file}
use heliograph_relay.Spool.Durable.{Written, write_whole, Nanosecond, read-write}

abbrev m : Message
m = record {
  id = bytes "m1";
  estate = bytes "e";
  station = bytes "s";
  dir = bytes "c2s";
  seq = 7;
  body = bytes "hi";
  arrived = unix_epoch + 1700000000000000000;
  file = [];
  lease = [];
  lease_until = zero_time;
}

-- A codec that knows the head of this message.
abbrev codec : Codec
codec = record {
  marshal = λ h. bytes "head";
  unmarshal = λ t. (if same t (bytes "head") then some (head_of m) else none);
}

abbrev empty_spool : Spool
empty_spool = record {
  dir = bytes "spool";
  next = 1;
  disk = [];
  stuck = λ name. false;
  unreadable = λ name. false;
}

free : lookup (spool_name 1) empty_spool.disk ≡ none
unfolding lookup
free = refl

write_whole_example : Written codec no_faults m empty_spool (write codec no_faults m empty_spool)
write_whole_example = write_whole codec no_faults m empty_spool free refl

survives : codec.unmarshal (codec.marshal (head_of m)) ≡ some (head_of m)
unfolding same
survives = refl

one_line : Lacks 10 (codec.marshal (head_of m))
one_line = (
  λ p. absurd (omega (arith, p)),
  (
    λ p. absurd (omega (arith, p)),
    (λ p. absurd (omega (arith, p)), (λ p. absurd (omega (arith, p)), tt)),
  ),
)

routed : valid_route m.estate m.station m.dir ≡ true
unfolding valid_route same
routed = refl

in_range : Nanosecond m.arrived
in_range = (omega arith, omega arith)

read-write_example :
    read_spool_file codec (spool_name 1) (file_content codec m)
    ≡ some (record m { file = spool_name 1; lease = []; lease_until = zero_time })
read-write_example = read-write codec (spool_name 1) m survives one_line routed in_range
