-- ===== src/Relay/Steps.antt =====
-- The store as it runs: calls in the order of the lock, each at its instant.
use heliograph_relay.Common.{Text, ℤ, List, [], ◌∷◌}
use heliograph_relay.Relay.Message.{Message, Time}
use heliograph_relay.Relay.Store.{Store, take, put, depth}
use heliograph_relay.Relay.Leased.{take_leased, ack, sweep}
use heliograph_relay.Spool.Disk.{Codec, Faults}

pub data Call : Type 0 where
  puts : Codec → Faults → Message → Call
  takes : (estate station dir : Text) (limit : ℤ) → Call
  leases : (estate station dir : Text) (limit d : ℤ) → Call
  acks : (estate station dir id : Text) → Call
  depths : (estate station dir : Text) → Call
  sweeps : Call

unfoldable pub step : Time → Call → Store → Store
step now (puts c f m) s = (put c f now m s).0
step now (takes estate station dir limit) s = (take now estate station dir limit s).0
step now (leases estate station dir limit d) s = (take_leased now estate station dir limit d s).0
step now (acks estate station dir id) s = (ack now estate station dir id s).0
step now (depths estate station dir) s = (depth now estate station dir s).0
step now sweeps s = (sweep now s).0

unfoldable pub run : List (Time × Call) → Store → Store
run [] s = s
run ((now, c) ∷ cs) s = run cs (step now c s)
