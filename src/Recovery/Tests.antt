-- ===== src/Recovery/Tests.antt =====
-- Two messages through a spool and a restart.
use heliograph_relay.Common.{
  ℕ, ◌+◌, ◌<◌, ◌≡◌, ◌≢◌, refl, true, false, some, List, [], ◌∷◌, Text, bytes, arith, lookup, insert,
  erase, same, has_prefix, decimal, if◌then◌else◌, ◌==◌, pos,
}
use heliograph_relay.Spool.Disk.{
  Spool, Codec, Head, no_faults, unix_epoch, unix_nano, head_of, file_content, write, publish,
}
use heliograph_relay.Spool.Durable.{Nanosecond}
use heliograph_relay.Spool.Load.{open_spool}
use heliograph_relay.Relay.Message.{Time, key, valid_route}
use heliograph_relay.Relay.Store.{
  Store, new_store, expire, split_expired, queue, set_queue, next_id, accept, written, enqueue, put,
  drop_durable,
}
use heliograph_relay.Relay.Leased.{is_blank}
use heliograph_relay.Relay.Durability.{made}
use heliograph_relay.Relay.Steps.{Call, puts, leases, step, run}
use heliograph_relay.Relay.Tests.{e, st, dir, sent}
use heliograph_relay.Recovery.Mirror.{Survives}
use heliograph_relay.Recovery.Settling.{Mirrored}
use heliograph_relay.Recovery.Restart.{Restarted, restart_restores}
use heliograph_relay.Recovery.Runs.{FitsRun, run-Mirrored, new_store-Mirrored}

abbrev pub disk : Spool
disk = record {
  dir = bytes "spool";
  next = 1;
  disk = [];
  stuck = λ name. false;
  unreadable = λ name. false;
}

abbrev pub begin : Store
begin = record (new_store (bytes "x")) { spool = some disk }

abbrev pub present : Time
present = unix_epoch + 1700000000000000000

abbrev head : Text → ℕ → Head
head id seq = record {
  id = id;
  estate = e;
  station = st;
  dir = dir;
  seq = seq;
  at = 1700000000000000000;
}

-- A codec that knows two heads.
abbrev two_heads : Codec
two_heads = record {
  marshal = λ h. (if h.seq == 1 then bytes "one" else bytes "two");
  unmarshal = λ t.
      (if same t (bytes "one") then some (head (bytes "m1") 1) else some (head (bytes "m2") 2));
}

abbrev calls : List (Time × Call)
calls =
    (present, puts two_heads no_faults (sent 1))
    ∷ (present, puts two_heads no_faults (sent 2))
    ∷ (present, leases e st dir (pos 1) (pos 60000000000))
    ∷ []

in_range : Nanosecond present
in_range = (omega arith, omega arith)

other_byte : (c : ℕ) → 10 < c → c ≢ 10
other_byte c h p = absurd (omega (arith, h, p))

first : Survives two_heads (made present (sent 1) begin)
unfolding head_of unix_nano next_id new_store decimal same
first = record {
  back = refl;
  line = (
    other_byte 111 (omega arith),
    (other_byte 110 (omega arith), (other_byte 101 (omega arith), tt)),
  );
}

second :
    Survives two_heads
      (made present (sent 2) (step present (puts two_heads no_faults (sent 1)) begin))
unfolding step head_of unix_nano next_id new_store decimal same put expire split_expired queue
    set_queue accept written enqueue lookup insert erase key valid_route write publish drop_durable
    file_content
second = record {
  back = refl;
  line = (
    other_byte 116 (omega arith),
    (other_byte 119 (omega arith), (other_byte 111 (omega arith), tt)),
  );
}

prefixed : has_prefix (bytes "writing-") (bytes "writing-1") ≡ true
unfolding has_prefix
prefixed = refl

fits : FitsRun two_heads calls begin
fits = (
  (refl, prefixed, refl, refl, in_range, first),
  ((refl, prefixed, refl, refl, in_range, second), (tt, tt)),
)

begins : Mirrored two_heads 1 begin
begins = new_store-Mirrored two_heads (bytes "x") disk refl (λ name. refl) (λ name. refl) refl

followed : Mirrored two_heads 4 (run calls begin)
followed = run-Mirrored two_heads 1 calls begin (omega arith) fits begins

run-Mirrored_example : Mirrored two_heads 4 (run calls begin)
run-Mirrored_example = run-Mirrored two_heads 1 calls begin (omega arith) fits begins

named : is_blank (bytes "spool") ≡ false
unfolding is_blank
named = refl

restart_restores_example :
    Restarted two_heads 4
      (bytes "spool")
      (run calls begin)
      followed.live
      (open_spool two_heads (bytes "spool") (run calls begin).spool (new_store (bytes "y")))
restart_restores_example =
    restart_restores two_heads 4 (run calls begin) (bytes "spool") (bytes "y") followed
      (omega arith) named
