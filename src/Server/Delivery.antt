-- ===== src/Server/Delivery.antt =====
-- A message from the sender's request to the collector's answer: POST and GET together.
use mathlib.Core.Path.{subst}
use heliograph_relay.Common.{ℕ, ◌+◌, ◌≤◌, ◌≡◌, refl, sym, ap, ◌∙◌, true, All, [], ◌∷◌, Text, arith}
use heliograph_relay.Relay.Message.{Message, Time, key}
use heliograph_relay.Relay.Store.{queue, next_id}
use heliograph_relay.Relay.Accepting
use heliograph_relay.Spool.Disk.{Codec, Faults}
use heliograph_relay.Auth.Scoped.{Authoriser}
use heliograph_relay.Server.Reply.{Body}
use heliograph_relay.Server.Put.{Route, Decoded, new_message, put_handler}
use heliograph_relay.Server.LeaseParam.{Floats}
use heliograph_relay.Server.Get.{read_request}
use heliograph_relay.Server.Service.{
  Server, HttpRequest, putting, getting, Response, replied, serve,
}
use heliograph_relay.Server.Reply.{token}
use heliograph_relay.Server.Sending
use heliograph_relay.Server.Collecting.{
  Waits, at_once, get_handler-Collected, take_all, take_all-queue,
}

abbrev pub code_of : Response → ℕ
code_of (replied a) = a.code
code_of _ = 0

-- A message that is sent on a route whose queue is empty, and answered with 202, is what the next
-- collection from that route is answered with: one message, with the same body and number, and the
-- queue is empty after it. The collection is admitted, neither waits nor asks for a lease or a limit,
-- and comes before the message's time is up.
pub sent_collected :
    (c : Codec) (f : Faults) (fl : Floats) (auth : Authoriser) (sent collected : Time) (r : Route)
    (seq : ℕ) (body : Text) (post get : HttpRequest) (s : Server auth.State)
    → queue (key r.estate r.station r.dir) s.store ≡ []
    → let (s₁, answer) =
        serve c f fl auth sent
          (putting r)
          (record post { decode = λ limit. Decoded.message seq body })
          s in
      code_of answer ≡ 202
      → collected ≤ sent + s.store.ttl
      → (auth.admit s₁.auth collected
          (read_request auth collected (token get.authorization) r)).1.allow
        ≡ true
      → let (s₂, collection) =
          serve c f fl auth collected (getting r) (record get { query = at_once }) s₁ in
        (x : Message) × (collection ≡ replied (record { code = 200; body = Body.array (x ∷ []) }))
        × (x.body ≡ body)
        × (x.seq ≡ seq)
        × (queue (key r.estate r.station r.dir) s₂.store ≡ [])
unfolding serve
sent_collected c f fl auth sent collected r seq body post get s none_waiting accepted in_time
      allowed =
    let d =
      put_handler c f auth sent (token post.authorization) r post.content_length
        (λ limit. Decoded.message seq body) s.store s.auth in
    let (right, _, stored, e) =
      Sending.put_handler-Accepted c f auth sent r seq body s.store (token post.authorization)
        post.content_length s.auth accepted in
    let (file, valid, same_ttl, _, alone) =
      subst (Sending.Alone c f auth sent r seq body s.store) (sym e)
        (Sending.put-Alone c f auth sent r seq body s.store none_waiting stored) in
    let x = Accepting.stored sent (new_message r seq body) (next_id s.store).1 file in
    let waits : All (Waits collected d.store) (x ∷ []) =
      ((refl, omega (arith, in_time, same_ttl)), tt) in
    let (reply, taken, _) =
      get_handler-Collected auth fl collected r get.world d.store (x ∷ [])
        (take_all collected r d.store (x ∷ []) valid waits alone) (token get.authorization) d.auth
        right allowed in
    let left = take_all-queue collected r d.store (x ∷ []) valid waits alone in
    (x, ap replied reply, refl, refl, ap (queue (key r.estate r.station r.dir)) taken ∙ left)
