-- ===== src/Server/ServiceTests.antt =====
-- Instances of the theorems on the whole server and on the polls that it holds.
use heliograph_relay.Common.{
  ℕ, ◌≡◌, ◌≢◌, ◌⊎◌, refl, true, none, some, [], ◌∷◌, List, Text, bytes, arith, Dict, pos, All, same,
  lookup,
}
use heliograph_relay.Relay.Message.{key}
use heliograph_relay.Relay.Store.{queue}
use heliograph_relay.Spool.Disk.{no_faults}
use heliograph_relay.Auth.Types.{Op, Scope}
use heliograph_relay.Auth.Scoped.{scoped_auth, scope_of}
use heliograph_relay.Auth.Bounded.{Covers}
use heliograph_relay.Server.Reply.{timeout, token}
use heliograph_relay.Server.Put.{Route}
use heliograph_relay.Server.Waiters.{waiting, enter}
use heliograph_relay.Server.HeldPolls.{
  Happening, arrives, departs, accepted, happens, token_in, any_message, NotOf, held_wakes,
}
use heliograph_relay.Server.Service.{Server, HttpRequest, putting, serve, new_authorising_server}
use heliograph_relay.Server.Tenancy.{acts, Admitted, serve_confined, scoped_confined}
use heliograph_relay.Server.Tests.{digest, scopes, route, mute, store, decode, floats}

abbrev pub post : HttpRequest
post = record {
  authorization = bytes "Bearer secret";
  accept = [];
  content_length = pos 2;
  decode = decode;
  lease_id = none;
  query = record { limit = []; lease = []; wait = [] };
  world = record { event = timeout; later = 2000; meanwhile = λ s. s };
}

abbrev server : Server (Dict Scope)
server = new_authorising_server store scopes

abbrev own : Text
own = bytes "e/s/c2s"

serve_confined_example :
    (queue own
        (serve mute no_faults floats (scoped_auth digest) 1000 (putting route) post server).0.store
      ≡ queue own store)
    ⊎ Admitted (scoped_auth digest) own 1000 (putting route) post scopes
serve_confined_example =
    serve_confined mute no_faults floats (scoped_auth digest) own 1000 post server (λ s. refl)
      (putting route)

scoped_confined_example :
    (queue own
        (serve mute no_faults floats (scoped_auth digest) 1000 (putting route) post server).0.store
      ≡ queue own store)
    ⊎ ((r : Route) × (op : Op) × (acts (putting route) ≡ some (r, op))
        × (key r.estate r.station r.dir ≡ own)
        × ((scope : Scope) × (scope_of digest scopes (token (bytes "Bearer secret")) ≡ some scope)
            × Covers scope r.estate r.station r.dir op))
scoped_confined_example =
    scoped_confined digest mute no_faults floats own 1000 post server (λ s. refl) (putting route)

-- Two polls and two messages, one of them on another queue.
abbrev busy : List Happening
busy = arrives own 8 ∷ accepted (bytes "e/t/c2s") ∷ accepted own ∷ departs own 8 ∷ []

eight : ◌≢◌ {A = ℕ} 8 7
eight e = omega (arith, e)

others : All (NotOf 7) busy
others = (eight, (tt, (tt, (eight, tt))))

held_wakes_example :
    token_in 7 (waiting own (happens busy (enter own 7 []))) ≡ some (any_message own busy)
unfolding waiting lookup
held_wakes_example = held_wakes own 7 busy [] tt others

-- The channel was filled.
was_woken : any_message own busy ≡ true
unfolding any_message same
was_woken = refl
