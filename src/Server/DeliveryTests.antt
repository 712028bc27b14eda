-- ===== src/Server/DeliveryTests.antt =====
-- A control sends to a station, which collects.
use heliograph_relay.Common.{
  ℕ, zero, suc, ◌+◌, ◌≤◌, ◌<◌, ◌≡◌, refl, true, false, [], ◌∷◌, Text, bytes, length, pos, arith,
  Dict, lookup, insert, same, decimal,
}
use heliograph_relay.Common.Split.{cut_prefix, trim_space, trim_left, trim_right}
use heliograph_relay.Relay.Message.{Message, ok, key, valid_dir, valid_route}
use heliograph_relay.Relay.Store.{
  queue, new_store, put, expire, split_expired, next_id, accept, written, enqueue, set_queue,
}
use heliograph_relay.Spool.Disk.{no_faults, zeros}
use heliograph_relay.Server.Inflation.{read_up_to, inflated_refused}
use heliograph_relay.Server.Answers.{put_grant}
use heliograph_relay.Auth.Types.{Scope, permits, contains}
use heliograph_relay.Auth.Scoped.{scoped_auth, scoped_admit, scope_of, c2s}
use heliograph_relay.Server.Reply.{Body, token}
use heliograph_relay.Server.Put.{Decoded, new_message, cap, put_handler, put_admitted, put_message}
use heliograph_relay.Server.Get.{read_request}
use heliograph_relay.Server.Service.{
  Server, HttpRequest, putting, getting, replied, serve, new_authorising_server,
}
use heliograph_relay.Server.Collecting.{at_once}
use heliograph_relay.Server.Delivery.{code_of, sent_collected}
use heliograph_relay.Server.Tests.{digest, route, mute, store, floats}
use heliograph_relay.Server.ServiceTests.{post}

abbrev control : Scope
control = record {
  estate = bytes "e";
  stations = bytes "s" ∷ [];
  all_stations = false;
  read = [];
  write = c2s ∷ [];
}

abbrev server : Server (Dict Scope)
server = new_authorising_server store (
    (0 ∷ bytes "secret", control)
    ∷ (0 ∷ bytes "other", record control { read = c2s ∷ []; write = [] })
    ∷ [])

abbrev sending : HttpRequest
sending = record post { decode = λ limit. Decoded.message 1 (bytes "hi") }

abbrev collecting : HttpRequest
collecting = record post { authorization = bytes "Bearer other" }

fresh_queue : queue (key (bytes "e") (bytes "s") c2s) store ≡ []
unfolding queue new_store lookup
fresh_queue = refl

sent :
    code_of (serve mute no_faults floats (scoped_auth digest) 1000 (putting route) sending server).1
    ≡ 202
unfolding serve token cut_prefix trim_space trim_left trim_right put_handler put_admitted
    put_message cap put expire split_expired next_id accept written enqueue set_queue queue lookup
    insert key valid_route valid_dir same decimal new_store scoped_admit scope_of permits contains
sent = refl

in_time : 2000 ≤ 1000 + store.ttl
unfolding new_store
in_time = omega arith

admitted :
    let (s₁, _) =
      serve mute no_faults floats (scoped_auth digest) 1000 (putting route) sending server in
    ((scoped_auth digest).admit s₁.auth 2000
      (read_request (scoped_auth digest) 2000 (token (bytes "Bearer other")) route)).1.allow
    ≡ true
unfolding serve token cut_prefix trim_space trim_left trim_right put_handler put_admitted
    put_message cap put expire split_expired next_id accept written enqueue set_queue queue lookup
    insert key valid_route valid_dir same decimal new_store scoped_admit scope_of permits contains
admitted = refl

sent_collected_example :
    let (s₁, _) =
      serve mute no_faults floats (scoped_auth digest) 1000 (putting route) sending server in
    let (s₂, collection) =
      serve mute no_faults floats
        (scoped_auth digest)
        2000
        (getting route)
        (record collecting { query = at_once })
        s₁ in
    (x : Message) × (collection ≡ replied (record { code = 200; body = Body.array (x ∷ []) }))
    × (x.body ≡ bytes "hi")
    × (x.seq ≡ 1)
    × (queue (key (bytes "e") (bytes "s") c2s) s₂.store ≡ [])
sent_collected_example =
    sent_collected mute no_faults floats (scoped_auth digest) 1000 2000 route 1 (bytes "hi") post
      collecting server fresh_queue sent in_time admitted

length-zeros : (n : ℕ) → length (zeros n) ≡ n
unfolding zeros
length-zeros zero = refl
length-zeros (suc n) = omega (arith, length-zeros n)

-- Seven million bytes, of the eight that the relay carries.
abbrev log : Text
log = zeros 7000000

may_send :
    (put_grant (scoped_auth digest) 1000 (bytes "secret") route (pos 9333400) server.auth).1.allow
    ≡ true
unfolding scoped_admit scope_of permits contains valid_dir same lookup
may_send = refl

valid : valid_route (bytes "e") (bytes "s") c2s ≡ true
unfolding valid_route same
valid = refl

roomy : 0 < store.max
unfolding new_store
roomy = omega arith

inflated_refused_example :
    let d =
      put_handler mute no_faults
        (scoped_auth digest)
        1000
        (bytes "secret")
        route
        (pos 9333400)
        (read_up_to mute (scoped_auth digest) 1000 route 1 log 9333400 store)
        store
        server.auth in
    (d.reply.code ≡ 413)
    × (d.store ≡ store)
    × ((put mute no_faults 1000 (new_message route 1 log) store).1 ≡ ok tt)
inflated_refused_example =
    inflated_refused mute (scoped_auth digest) 1000 route 1 log 9333400 store (bytes "secret")
      (pos 9333400) server.auth valid may_send (omega (arith, length-zeros 7000000))
      (omega (arith, length-zeros 7000000)) (omega (arith, length-zeros 7000000)) fresh_queue roomy
